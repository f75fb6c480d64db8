-- ===== src/Ingestion.antt =====
-- internal/ingestion.
pub mod Ordering
