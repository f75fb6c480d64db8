-- ===== src/Storage.antt =====
-- internal/storage/memory: the in-memory stores. Keyed is what they share, a map from keys to values
-- that only grows; the other children are the stores.
pub mod Keyed
pub mod Candidates
pub mod Swaps
pub mod LiquidityEvents
pub mod Prices
pub mod Features
pub mod Volumes
pub mod Trades
pub mod Aggregates
pub mod Liquidity
pub mod SwapEvents
pub mod Progress
pub mod Metadata
