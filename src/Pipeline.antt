-- ===== src/Pipeline.antt =====
-- internal/pipeline.
pub mod Sufficiency
