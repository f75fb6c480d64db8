-- ===== src/Strategy/Results.antt =====
-- When a strategy returns a trade and when an error.
use solana_token_lab.Base.{
  ◌≡◌, refl, false, List, [], ◌∷◌, Option, none, some, String, arith, inl, inr,
}
use solana_token_lab.Base.Int.{ℤ, add64}
use solana_token_lab.Result.{ok}
use solana_token_lab.Float64.{Float64, ◌-F◌, ◌*F◌, whole}
use solana_token_lab.Domain.{
  PriceTimeseriesPoint, TradeRecord, exit_reason_max_duration, exit_reason_time_exit,
}
use solana_token_lab.Lookup.{price_at}
use solana_token_lab.Lookup.Laws.{price_at_iff_IsLast}
use solana_token_lab.Strategy.Input.{StrategyInput, validate, validate-IsUsable, is_empty}
use solana_token_lab.Strategy.Execution.{ExitSignal, exit_at, build_trade_record}
use solana_token_lab.Strategy.TimeExit.{TimeExitStrategy, time_exit_id, execute_time_exit}
use solana_token_lab.Strategy.TrailingStop.{
  TrailingStopStrategy, trailing_stop_id, execute_trailing_stop, trailing_loop,
  exit_or_max_duration,
}

pub price_at_total :
    {F : Type 0} (t : ℤ) (ps : List (PriceTimeseriesPoint F))
    → is_empty ps ≡ false
    → (v : F) × (price_at t ps ≡ ok v)
price_at_total t [] h = absurd (ground arith)
price_at_total t (p ∷ ps) h = elim (price_at_iff_IsLast t p ps) [
  | inl (q, _, e) ↦ (q.price, e)
  | inr (_, e) ↦ (p.price, e)
]

module _ {F : Type 0} ⦃d : Float64 F⦄ where
  pub exit_or_max_duration_total :
      (found : Option (ExitSignal F)) (t : ℤ) (ps : List (PriceTimeseriesPoint F))
      → is_empty ps ≡ false
      → (exit : ExitSignal F) × (exit_or_max_duration found t ps ≡ ok exit)
  unfolding exit_or_max_duration
  exit_or_max_duration_total (some exit) t ps h = (exit, refl)
  exit_or_max_duration_total none t ps h =
      let (v, e) = price_at_total t ps h in (exit_at t v exit_reason_max_duration, rw e)

  module _ (sha256_hex : String → String) where
    pub execute_time_exit_total :
        (strategy : TimeExitStrategy) (input : StrategyInput F)
        → validate (some input) ≡ ok tt
        → (trade : TradeRecord F) × (execute_time_exit sha256_hex strategy (some input) ≡ ok trade)
    unfolding execute_time_exit
    execute_time_exit_total strategy input h =
        let t = add64 input.entry_signal_time strategy.hold_duration_ms in
        let (v, e) = price_at_total t input.price_timeseries (validate-IsUsable input h).prices in
        (
          build_trade_record sha256_hex input.candidate_id (time_exit_id strategy)
              input.scenario.scenario_id input.entry_signal_time input.entry_signal_price
              input.entry_liquidity (exit_at t v exit_reason_time_exit) input.scenario none none,
          rw (h, e),
        )

    pub execute_trailing_stop_total :
        (strategy : TrailingStopStrategy F) (input : StrategyInput F)
        → validate (some input) ≡ ok tt
        → (trade : TradeRecord F) × (execute_trailing_stop sha256_hex strategy (some input)
            ≡ ok trade)
    unfolding execute_trailing_stop
    execute_trailing_stop_total strategy input h =
        let entry_price = input.entry_signal_price in
        let stop = entry_price *F (whole 1 -F strategy.initial_stop_pct) in
        let run =
          trailing_loop strategy input.entry_signal_time stop entry_price input.price_timeseries in
        let t = add64 input.entry_signal_time strategy.max_hold_duration_ms in
        let (exit, e) =
          exit_or_max_duration_total run.1 t input.price_timeseries
            (validate-IsUsable input h).prices in
        (
          build_trade_record sha256_hex input.candidate_id (trailing_stop_id strategy)
              input.scenario.scenario_id input.entry_signal_time entry_price input.entry_liquidity
              exit input.scenario (some run.0) none,
          rw (h, e),
        )
