-- ===== src/Examples/Trades.antt =====
-- Strategies on the sample input.
use solana_token_lab.Base.{◌≡◌, ◌↔◌, refl, ◌++◌, some}
use solana_token_lab.Base.Int.{pos}
use solana_token_lab.Result.{ok}
use solana_token_lab.Float64.Micros
use solana_token_lab.Float64.Micros.{Micros, micros_float64, Micros-IsOrdered}
use solana_token_lab.Domain.{TradeRecord}
use solana_token_lab.Strategy.Input.{StrategyInput, IsUsable, validate, canonical_type}
use solana_token_lab.Strategy.Execution.{exit_at}
use solana_token_lab.Strategy.TrailingStop.{execute_trailing_stop, trailing_loop, check_exit}
use solana_token_lab.Strategy.Results.{execute_trailing_stop_total}
use solana_token_lab.Strategy.TrailingStop.Laws.{
  FirstExit, trailing_loop_first, trailing_loop-append,
}
use solana_token_lab.Strategy.TrailingStop.Trade.{Exits, exit_of, execute_trailing_stop_trade}
use solana_token_lab.Strategy.Factory.{
  Strategy, execute, id, base_type, from_config, from_trailing_stop_config,
}
use solana_token_lab.Strategy.Returns.{Wants, execute_returns_iff}
use solana_token_lab.Strategy.Identity.{canonical_type-id, from_config-type}
use solana_token_lab.Examples.Samples.{input, trailing, trailing_config, timed, hash, units, prices}

abbrev stop : Micros
stop = units (pos 900_000)

loop_run :
    trailing_loop trailing (pos 1000) stop (units (pos 1_000_000)) prices
    ≡ (units (pos 2_000_000), some (exit_at (pos 3000) (units (pos 1_500_000)) "TRAILING_STOP"))
unfolding trailing_loop check_exit Micros.mul Micros.sub Micros.literal
loop_run = refl

-- The peak of 2.00 and the fall to 1.50, through a stop at 1.60.
trailing_loop_first_example :
    FirstExit trailing
      (pos 1000)
      stop
      (units (pos 1_000_000))
      prices
      (trailing_loop trailing (pos 1000) stop (units (pos 1_000_000)) prices).0
      (exit_at (pos 3000) (units (pos 1_500_000)) "TRAILING_STOP")
unfolding trailing_loop check_exit Micros.mul Micros.sub Micros.literal
trailing_loop_first_example =
    trailing_loop_first trailing (pos 1000) stop (units (pos 1_000_000)) prices refl

trailing_loop-append_example :
    trailing_loop trailing (pos 1000) stop (units (pos 1_000_000)) (prices ++ prices)
    ≡ trailing_loop trailing (pos 1000) stop (units (pos 1_000_000)) prices
unfolding trailing_loop check_exit Micros.mul Micros.sub Micros.literal
trailing_loop-append_example =
    trailing_loop-append trailing (pos 1000) stop (units (pos 1_000_000)) prices prices
      {exit = exit_at (pos 3000) (units (pos 1_500_000)) "TRAILING_STOP"} refl

input-valid : validate (some input) ≡ ok tt
unfolding validate Micros.literal
input-valid = refl

execute_trailing_stop_total_example :
    (trade : TradeRecord Micros) × (execute_trailing_stop hash trailing (some input) ≡ ok trade)
execute_trailing_stop_total_example = execute_trailing_stop_total hash trailing input input-valid

execute_trailing_stop_trade_example :
    let trade : TradeRecord Micros = execute_trailing_stop_total_example.0 in
    (trade.entry_signal_time ≡ pos 1000)
    × (trade.entry_signal_price ≡ units (pos 1_000_000))
    × ((peak : Micros) × (trade.peak_price ≡ some peak)
        × Exits trailing input peak (exit_of trailing input trade))
execute_trailing_stop_trade_example =
    execute_trailing_stop_trade trailing input hash {trade = execute_trailing_stop_total_example.0}
      Micros-IsOrdered refl execute_trailing_stop_total_example.1

abbrev timed_strategy : Strategy Micros
timed_strategy = Strategy.time_exit timed

canonical_type-id_example : canonical_type (id timed_strategy) ≡ base_type timed_strategy
canonical_type-id_example = canonical_type-id timed_strategy

from_config-type_example :
    (base_type (Strategy.trailing_stop trailing) ≡ "TRAILING_STOP")
    × (canonical_type (id (Strategy.trailing_stop trailing)) ≡ "TRAILING_STOP")
unfolding from_config from_trailing_stop_config
from_config-type_example =
    from_config-type trailing_config {s = Strategy.trailing_stop trailing} refl

abbrev guard : Strategy Micros
guard = Strategy.liquidity_guard (record {
  entry_event_type = "NEW_TOKEN";
  liquidity_drop_pct = units (pos 300_000);
  max_hold_duration_ms = pos 5000;
})

execute_returns_iff_example :
    ((trade : TradeRecord Micros) × (execute hash guard (some input) ≡ ok trade))
    ↔ ((i : StrategyInput Micros) × (some input ≡ some i) × IsUsable i × Wants guard i)
execute_returns_iff_example = execute_returns_iff hash guard (some input)
