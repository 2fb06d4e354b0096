-- ===== src/Aggregation.antt =====
-- Aggregation of market data: internal/core/aggregation.
pub mod Window
pub mod OrderBook
