-- ===== src/Examples.antt =====
-- Runs of the program's functions on small inputs, and the theorems at concrete inputs. Prices and
-- amounts are millionths here.
mod Samples
mod Orderings
mod Series
mod Trades
mod Decisions
mod Scores
mod Replays
mod Simulations
mod Volumes
mod Stores
mod Discoveries
mod Inputs
mod Sufficient
mod Aggregates
mod Replayed
mod Normalized
mod Activity
