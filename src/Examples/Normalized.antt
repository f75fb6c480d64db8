-- ===== src/Examples/Normalized.antt =====
-- Normalizing a candidate, and the features of a small series.
use solana_token_lab.Base.{◌≡◌, refl, List, [], ◌∷◌, Option, none, some}
use solana_token_lab.Base.Int.{ℤ, pos}
use solana_token_lab.Result.{ok, err, Error}
use solana_token_lab.Float64.Micros.{Micros, micros_float64}
use solana_token_lab.Domain.{PriceTimeseriesPoint, LiquidityTimeseriesPoint, DerivedFeaturePoint}
use solana_token_lab.Normalization.Features.{compute_derived_features}
use solana_token_lab.Normalization.Runs.{collect}
use solana_token_lab.Storage.Volumes.{volume_key}
use solana_token_lab.Normalization.Runner.{Runner, swaps_of, normalize_candidate}
use solana_token_lab.Normalization.Runner.Again.{normalize_candidate_once}
use solana_token_lab.Examples.Samples.{
  swap_at, liquidity_event_at, price_at_time, liquidity_at_time,
}

abbrev prices : List (PriceTimeseriesPoint Micros)
prices = price_at_time (pos 30) (pos 5) ∷ price_at_time (pos 20) (pos 3) ∷ []

abbrev liquidity : List (LiquidityTimeseriesPoint Micros)
liquidity = liquidity_at_time (pos 25) (pos 9) ∷ liquidity_at_time (pos 20) (pos 8) ∷ []

-- The interval of each row.
abbrev intervals : List (DerivedFeaturePoint Micros) → List (Option ℤ)
intervals [] = []
intervals (row ∷ rows) = row.last_liq_event_interval_ms ∷ intervals rows

intervals_run : intervals (compute_derived_features prices liquidity) ≡ none ∷ some (pos 5) ∷ []
unfolding compute_derived_features
intervals_run = refl

abbrev runner : Runner Micros
runner = record {
  swap_store = ("c|a|0", swap_at (pos 1) "a" (pos 10) (pos 3)) ∷ [];
  liquidity_store = ("c|b|0", liquidity_event_at (pos 1) "b" (pos 10) (pos 2)) ∷ [];
  price_timeseries_store = [];
  liquidity_timeseries_store = [];
  volume_timeseries_store = [];
  derived_feature_store = [];
}

with_swaps : ¬ (swaps_of "c" runner ≡ [])
unfolding swaps_of
with_swaps e = cc

normalized : normalize_candidate "c" runner ≡ (ok tt, (normalize_candidate "c" runner).1)
unfolding normalize_candidate collect volume_key
normalized = refl

normalize_candidate_once_example :
    normalize_candidate "c" (normalize_candidate "c" runner).1
    ≡ (err Error.duplicate_key, (normalize_candidate "c" runner).1)
normalize_candidate_once_example =
    normalize_candidate_once "c" runner (normalize_candidate "c" runner).1 with_swaps normalized
