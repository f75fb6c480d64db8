-- ===== src/Examples/Series.antt =====
-- Time series and lookups.
use solana_token_lab.Base.{◌≡◌, refl, ◌⊎◌, List, [], ◌∷◌, ◌++◌, map, arith}
use solana_token_lab.Base.Lists.{All}
use solana_token_lab.Base.Int.{pos, ◌<ℤ◌}
use solana_token_lab.Result.{ok}
use solana_token_lab.Float64.Micros.{Micros, micros_float64}
use solana_token_lab.Float64.Micros
use solana_token_lab.Domain.{Swap, LiquidityEvent, PriceTimeseriesPoint}
use solana_token_lab.Lookup.{price_at, liquidity_at}
use solana_token_lab.Lookup.Laws.{
  price_at_iff_IsLast, price_at-append, liquidity_at-append, IsLast, at_or_before,
}
use solana_token_lab.Normalization.Runs.{collect, Run, elements, IsUniform, Breaks}
use solana_token_lab.Normalization.Timeseries.{
  aggregate_price, generate_price_timeseries, generate_liquidity_timeseries,
}
use solana_token_lab.Normalization.Timeseries.Aggregates.{
  same_price, price_point, generate_price_timeseries-runs, same_liquidity, liquidity_point,
  generate_liquidity_timeseries-runs,
}
use solana_token_lab.Examples.Samples.{
  units, swap_at, liquidity_event_at, price_at_time, liquidity_at_time,
}

abbrev early : PriceTimeseriesPoint Micros
early = price_at_time (pos 1000) (pos 3)

abbrev late : PriceTimeseriesPoint Micros
late = price_at_time (pos 3000) (pos 4)

price_at_run : price_at (pos 2999) (early ∷ late ∷ []) ≡ ok (units (pos 3))
unfolding price_at
price_at_run = refl

price_at_iff_IsLast_example :
    ((q : PriceTimeseriesPoint Micros) × IsLast (at_or_before (pos 2000)) q (early ∷ late ∷ [])
      × (price_at (pos 2000) (early ∷ late ∷ []) ≡ ok q.price))
    ⊎ (All (λ (q : PriceTimeseriesPoint Micros). pos 2000 <ℤ q.timestamp_ms) (early ∷ late ∷ [])
        × (price_at (pos 2000) (early ∷ late ∷ []) ≡ ok early.price))
price_at_iff_IsLast_example = price_at_iff_IsLast (pos 2000) early (late ∷ [])

price_at-append_example :
    price_at (pos 2000) (early ∷ [] ++ late ∷ []) ≡ price_at (pos 2000) (early ∷ [])
price_at-append_example = price_at-append (pos 2000) early [] (late ∷ []) (omega arith)

liquidity_at-append_example :
    liquidity_at
      (pos 2000)
      (liquidity_at_time (pos 1000) (pos 5) ∷ [] ++ liquidity_at_time (pos 3000) (pos 6) ∷ [])
    ≡ liquidity_at (pos 2000) (liquidity_at_time (pos 1000) (pos 5) ∷ [])
liquidity_at-append_example =
    liquidity_at-append (pos 2000) (liquidity_at_time (pos 1000) (pos 5)) []
      (liquidity_at_time (pos 3000) (pos 6) ∷ []) (omega arith)

abbrev swaps : List (Swap Micros)
swaps =
    swap_at (pos 1) "a" (pos 10) (pos 3)
    ∷ swap_at (pos 2) "b" (pos 10) (pos 4)
    ∷ swap_at (pos 3) "c" (pos 20) (pos 5)
    ∷ []

abbrev liquidity_events : List (LiquidityEvent Micros)
liquidity_events =
    liquidity_event_at (pos 1) "a" (pos 10) (pos 3)
    ∷ liquidity_event_at (pos 2) "b" (pos 10) (pos 4)
    ∷ []

generate_price_timeseries_run :
    map (λ (p : PriceTimeseriesPoint Micros). p.price) (generate_price_timeseries swaps)
    ≡ units (pos 4) ∷ units (pos 5) ∷ []
unfolding generate_price_timeseries collect aggregate_price Micros.add
generate_price_timeseries_run = refl

generate_price_timeseries-runs_example :
    (rs : List (Run (Swap Micros))) × (elements rs ≡ swaps)
    × All (IsUniform same_price) rs
    × Breaks same_price rs
    × (generate_price_timeseries swaps ≡ map price_point rs)
generate_price_timeseries-runs_example = generate_price_timeseries-runs swaps (omega arith)

generate_liquidity_timeseries-runs_example :
    (rs : List (Run (LiquidityEvent Micros))) × (elements rs ≡ liquidity_events)
    × All (IsUniform same_liquidity) rs
    × Breaks same_liquidity rs
    × (generate_liquidity_timeseries liquidity_events ≡ map liquidity_point rs)
generate_liquidity_timeseries-runs_example = generate_liquidity_timeseries-runs liquidity_events
