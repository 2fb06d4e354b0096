-- ===== src/Storage.antt =====
-- Storage of market data: internal/adapters/storage.
pub mod Federation
