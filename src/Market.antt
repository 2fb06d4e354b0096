-- ===== src/Market.antt =====
-- Market-data ingestion: internal/actors/marketdata and internal/core/marketdata.
pub mod Queue
pub mod Stream
