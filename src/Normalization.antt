-- ===== src/Normalization.antt =====
-- internal/normalization: time series from events.
pub mod Runs
pub mod Ordering
pub mod Timeseries
pub mod Volume
pub mod Features
pub mod Runner
