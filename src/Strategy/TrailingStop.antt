-- ===== src/Strategy/TrailingStop.antt =====
-- internal/strategy/trailing_stop.go: exit when the price falls from its peak.
pub mod Laws
pub mod Peak
pub mod Trade
use solana_token_lab.Base.{◌≡◌, List, [], ◌∷◌, Option, none, some, String, if◌then◌else◌}
use solana_token_lab.Base.Int.{ℤ, leb_ℤ, add64, sub64}
use solana_token_lab.Base.Text.{concat, decimal}
use solana_token_lab.Result.{Result, ok, err, ◌>>◌, ◌>>=◌, Error}
use solana_token_lab.Float64.{Float64, ◌-F◌, ◌*F◌, ◌<F◌, ◌≤F◌, whole}
use solana_token_lab.Domain.{
  PriceTimeseriesPoint, TradeRecord, exit_reason_initial_stop, exit_reason_trailing_stop,
  exit_reason_max_duration,
}
use solana_token_lab.Lookup.{price_at}
use solana_token_lab.Strategy.Input.{StrategyInput, validate}
use solana_token_lab.Strategy.Execution.{ExitSignal, exit_at, build_trade_record}

pub record TrailingStopStrategy (F : Type 0) : Type 0 where
  pub entry_event_type : String
  pub trail_pct : F
  pub initial_stop_pct : F
  pub max_hold_duration_ms : ℤ

module _ {F : Type 0} ⦃d : Float64 F⦄ where
  unfoldable pub trailing_stop_id : TrailingStopStrategy F → String
  unfolding concat decimal
  trailing_stop_id s = concat (
      "TRAILING_STOP"
      ∷ "_"
      ∷ s.entry_event_type
      ∷ "_trail"
      ∷ d.format 0 (s.trail_pct *F whole 100)
      ∷ "_stop"
      ∷ d.format 0 (s.initial_stop_pct *F whole 100)
      ∷ "_"
      ∷ decimal s.max_hold_duration_ms
      ∷ "ms"
      ∷ [])

  -- `if price > peakPrice { peakPrice = price }`
  abbrev pub raise_peak : F → F → F
  raise_peak peak price = if peak <F price then price else peak

  -- The three tests on a price point, in their order, with the peak already raised.
  unfoldable pub check_exit :
      TrailingStopStrategy F → ℤ → F → F → PriceTimeseriesPoint F → Option (ExitSignal F)
  unfolding sub64
  check_exit s entry_time initial_stop peak point =
      let exit = λ (why : String). some (exit_at point.timestamp_ms point.price why) in
      if point.price ≤F initial_stop
      then exit exit_reason_initial_stop
      else if point.price ≤F peak *F (whole 1 -F s.trail_pct)
      then exit exit_reason_trailing_stop
      else if leb_ℤ s.max_hold_duration_ms (sub64 point.timestamp_ms entry_time)
      then exit exit_reason_max_duration
      else none

  -- The loop over the price points: the peak at its end, and the exit that it broke off with.
  unfoldable pub trailing_loop :
      TrailingStopStrategy F → ℤ → F → F → List (PriceTimeseriesPoint F) → F × Option (ExitSignal F)
  trailing_loop s entry_time initial_stop peak [] = (peak, none)
  trailing_loop s entry_time initial_stop peak (point ∷ points) =
      let skipped = trailing_loop s entry_time initial_stop peak points in
      let peak' = raise_peak peak point.price in
      let rest = trailing_loop s entry_time initial_stop peak' points in
      if leb_ℤ point.timestamp_ms entry_time
      then skipped
      else elim (check_exit s entry_time initial_stop peak' point) [
        | some exit ↦ (peak', some exit)
        | none ↦ rest
      ]

  -- `if exitReason == "" { … }`: without an exit, the price at the end of the longest hold.
  unfoldable pub exit_or_max_duration :
      Option (ExitSignal F) → ℤ → List (PriceTimeseriesPoint F) → Result (ExitSignal F)
  unfolding price_at
  exit_or_max_duration (some exit) max_exit_time prices = ok exit
  exit_or_max_duration none max_exit_time prices = do
    price ← price_at max_exit_time prices
    ok (exit_at max_exit_time price exit_reason_max_duration)

  module _ (sha256_hex : String → String) where
    unfoldable pub execute_trailing_stop :
        TrailingStopStrategy F → Option (StrategyInput F) → Result (TradeRecord F)
    execute_trailing_stop s none = validate {F = F} none >> err Error.input_is_nil
    execute_trailing_stop s (some input) = do
      validate (some input)
      let entry_price = input.entry_signal_price
      let initial_stop = entry_price *F (whole 1 -F s.initial_stop_pct)
      let max_exit_time = add64 input.entry_signal_time s.max_hold_duration_ms
      let run =
          trailing_loop s input.entry_signal_time initial_stop entry_price input.price_timeseries
      exit ← exit_or_max_duration run.1 max_exit_time input.price_timeseries
      ok (
          build_trade_record sha256_hex input.candidate_id (trailing_stop_id s)
            input.scenario.scenario_id input.entry_signal_time input.entry_signal_price
            input.entry_liquidity exit input.scenario (some run.0) none)
