-- ===== src/Strategy/TimeExit.antt =====
-- internal/strategy/time_exit.go: exit after a fixed time.
use solana_token_lab.Base.{[], ◌∷◌, Option, none, some, String}
use solana_token_lab.Base.Int.{ℤ, add64}
use solana_token_lab.Base.Text.{concat, decimal}
use solana_token_lab.Result.{Result, ok, err, ◌>>◌, ◌>>=◌, Error}
use solana_token_lab.Float64.{Float64}
use solana_token_lab.Domain.{TradeRecord, exit_reason_time_exit}
use solana_token_lab.Lookup.{price_at}
use solana_token_lab.Strategy.Input.{StrategyInput, validate}
use solana_token_lab.Strategy.Execution.{build_trade_record}

pub record TimeExitStrategy : Type 0 where
  pub entry_event_type : String
  pub hold_duration_ms : ℤ

unfoldable pub time_exit_id : TimeExitStrategy → String
unfolding concat decimal
time_exit_id s =
    concat ("TIME_EXIT" ∷ "_" ∷ s.entry_event_type ∷ "_" ∷ decimal s.hold_duration_ms ∷ "ms" ∷ [])

module _ {F : Type 0} ⦃d : Float64 F⦄ (sha256_hex : String → String) where
  unfoldable pub execute_time_exit :
      TimeExitStrategy → Option (StrategyInput F) → Result (TradeRecord F)
  execute_time_exit s none = validate {F = F} none >> err Error.input_is_nil
  execute_time_exit s (some input) = do
    validate (some input)
    let exit_time = add64 input.entry_signal_time s.hold_duration_ms
    price ← price_at exit_time input.price_timeseries
    ok (
        build_trade_record sha256_hex input.candidate_id (time_exit_id s) input.scenario.scenario_id
          input.entry_signal_time input.entry_signal_price input.entry_liquidity
          (record { time = exit_time; price = price; reason = exit_reason_time_exit })
          input.scenario none none)
