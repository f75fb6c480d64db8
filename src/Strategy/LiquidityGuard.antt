-- ===== src/Strategy/LiquidityGuard.antt =====
-- internal/strategy/liquidity_guard.go: exit when the liquidity falls below a threshold.
use solana_token_lab.Base.{
  Bool, true, false, not, ◌&&◌, List, [], ◌∷◌, ◌++◌, map, Option, none, some, String, if◌then◌else◌,
}
use solana_token_lab.Base.Int.{ℤ, leb_ℤ, ltb_ℤ, eq_ℤ, add64, sub64}
use solana_token_lab.Base.Text.{concat, decimal}
use solana_token_lab.Base.Sort.{sort_slice}
use solana_token_lab.Result.{Result, ok, err, ◌>>◌, ◌>>=◌, Error}
use solana_token_lab.Float64.{Float64, ◌-F◌, ◌*F◌, ◌<F◌, whole}
use solana_token_lab.Domain.{
  PriceTimeseriesPoint, LiquidityTimeseriesPoint, TradeRecord, exit_reason_liquidity_drop,
  exit_reason_max_duration,
}
use solana_token_lab.Lookup.{price_at, liquidity_at}
use solana_token_lab.Strategy.Input.{StrategyInput, validate}
use solana_token_lab.Strategy.Execution.{ExitSignal, exit_at, build_trade_record}
use solana_token_lab.Strategy.TrailingStop.{exit_or_max_duration}

pub record LiquidityGuardStrategy (F : Type 0) : Type 0 where
  pub entry_event_type : String
  pub liquidity_drop_pct : F
  pub max_hold_duration_ms : ℤ

pub record MergedEvent : Type 0 where
  pub timestamp_ms : ℤ
  pub slot : ℤ
  pub is_price : Bool

-- The `less` of the sort: by time, then slot, then prices first.
unfoldable pub merged_less : MergedEvent → MergedEvent → Bool
merged_less a b =
    if not (eq_ℤ a.timestamp_ms b.timestamp_ms)
    then ltb_ℤ a.timestamp_ms b.timestamp_ms
    else if not (eq_ℤ a.slot b.slot)
    then ltb_ℤ a.slot b.slot
    else a.is_price && not b.is_price

module _ {F : Type 0} where
  abbrev pub of_price : PriceTimeseriesPoint F → MergedEvent
  of_price p = record { timestamp_ms = p.timestamp_ms; slot = p.slot; is_price = true }

  abbrev pub of_liquidity : LiquidityTimeseriesPoint F → MergedEvent
  of_liquidity l = record { timestamp_ms = l.timestamp_ms; slot = l.slot; is_price = false }

  unfoldable pub merge_price_and_liquidity :
      List (PriceTimeseriesPoint F) → List (LiquidityTimeseriesPoint F) → List MergedEvent
  unfolding merged_less sort_slice
  merge_price_and_liquidity prices liquidity =
      sort_slice merged_less (map of_price prices ++ map of_liquidity liquidity)

module _ {F : Type 0} ⦃d : Float64 F⦄ where
  unfoldable pub liquidity_guard_id : LiquidityGuardStrategy F → String
  unfolding concat decimal
  liquidity_guard_id s = concat (
      "LIQUIDITY_GUARD"
      ∷ "_"
      ∷ s.entry_event_type
      ∷ "_drop"
      ∷ d.format 0 (s.liquidity_drop_pct *F whole 100)
      ∷ "_"
      ∷ decimal s.max_hold_duration_ms
      ∷ "ms"
      ∷ [])

  -- `if currentLiqPtr != nil && *currentLiqPtr < minLiquidity { … }`
  abbrev pub lower_min : F → Option F → F
  lower_min least none = least
  lower_min least (some current) = if current <F least then current else least

  -- `currentLiqPtr != nil && *currentLiqPtr < liquidityThreshold`
  abbrev pub has_dropped : F → Option F → Bool
  has_dropped threshold none = false
  has_dropped threshold (some current) = current <F threshold

  -- The two tests on a merged event.
  unfoldable pub check_guard :
      LiquidityGuardStrategy F → ℤ → F → ℤ → Option F → F → Option (ExitSignal F)
  unfolding sub64
  check_guard s entry_time threshold t current_liquidity current_price =
      let exit = λ (why : String). some (exit_at t current_price why) in
      if has_dropped threshold current_liquidity
      then exit exit_reason_liquidity_drop
      else if leb_ℤ s.max_hold_duration_ms (sub64 t entry_time)
      then exit exit_reason_max_duration
      else none

  -- The loop over the merged events: the least liquidity seen, and the exit that it broke off with.
  unfoldable pub guard_loop :
      LiquidityGuardStrategy F
      → StrategyInput F
      → F
      → F
      → List MergedEvent
      → Result (F × Option (ExitSignal F))
  guard_loop s input threshold least [] = ok (least, none)
  guard_loop s input threshold least (event ∷ events) =
      let t = event.timestamp_ms in
      let skipped = guard_loop s input threshold least events in
      if leb_ℤ t input.entry_signal_time then skipped else do
        liquidity ← liquidity_at t input.liquidity_timeseries
        price ← price_at t input.price_timeseries
        let least' = lower_min least liquidity
        let rest = guard_loop s input threshold least' events
        elim (check_guard s input.entry_signal_time threshold t liquidity price) [
          | some exit ↦ ok (least', some exit)
          | none ↦ rest
        ]

  -- The liquidity at entry: the input's own, or else that of the series.
  unfoldable pub find_entry_liquidity : StrategyInput F → Result F
  unfolding liquidity_at
  find_entry_liquidity input = do
    found ← (elim input.entry_liquidity [
      | some l ↦ ok (some l)
      | none ↦ liquidity_at input.entry_signal_time input.liquidity_timeseries
    ])
    elim found [ none ↦ err Error.no_entry_liquidity | some l ↦ ok l ]

  module _ (sha256_hex : String → String) where
    unfoldable pub execute_liquidity_guard :
        LiquidityGuardStrategy F → Option (StrategyInput F) → Result (TradeRecord F)
    execute_liquidity_guard s none = validate {F = F} none >> err Error.input_is_nil
    execute_liquidity_guard s (some input) = do
      validate (some input)
      entry_liquidity ← find_entry_liquidity input
      let threshold = entry_liquidity *F (whole 1 -F s.liquidity_drop_pct)
      let events = merge_price_and_liquidity input.price_timeseries input.liquidity_timeseries
      run ← guard_loop s input threshold entry_liquidity events
      let max_exit_time = add64 input.entry_signal_time s.max_hold_duration_ms
      exit ← exit_or_max_duration run.1 max_exit_time input.price_timeseries
      ok (
          build_trade_record sha256_hex input.candidate_id (liquidity_guard_id s)
            input.scenario.scenario_id input.entry_signal_time input.entry_signal_price
            (some entry_liquidity) exit input.scenario none (some run.0))
