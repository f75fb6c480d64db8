-- ===== src/Strategy.antt =====
-- internal/strategy: inputs, execution costs and the three strategies.
pub mod Input
pub mod Execution
pub mod TimeExit
pub mod TrailingStop
pub mod LiquidityGuard
pub mod Factory
pub mod Results
pub mod Guarded
pub mod Returns
pub mod Identity
