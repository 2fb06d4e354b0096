-- ===== src/Ingest.antt =====
-- Consumption of events from JetStream: internal/adapters/jetstream.
pub mod RetryBudget
