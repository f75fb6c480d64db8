-- ===== src/Discovery.antt =====
-- internal/discovery: which tokens become candidates.
pub mod Detector
pub mod Spikes
pub mod Active
