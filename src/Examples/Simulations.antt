-- ===== src/Examples/Simulations.antt =====
-- A simulation on the sample series.
use solana_token_lab.Base.{◌≡◌, refl, [], ◌∷◌, map, true, none, some}
use solana_token_lab.Base.Int.{pos}
use solana_token_lab.Result.{ok}
use solana_token_lab.Float64.Micros
use solana_token_lab.Float64.Micros.{Micros, micros_float64}
use solana_token_lab.Domain.{TradeRecord}
use solana_token_lab.IdHash.{compute_trade_id}
use solana_token_lab.Strategy.Execution.{exit_at, build_trade_record}
use solana_token_lab.Storage.Prices
use solana_token_lab.Storage.Liquidity
use solana_token_lab.Storage.Trades.{TradeRecordStore, is_valid}
use solana_token_lab.Lookup.{price_at, liquidity_at}
use solana_token_lab.Strategy.Input.{StrategyInput, validate}
use solana_token_lab.Strategy.Factory.{Strategy, from_config, from_trailing_stop_config, execute}
use solana_token_lab.Strategy.TrailingStop.{
  execute_trailing_stop, trailing_loop, check_exit, exit_or_max_duration, trailing_stop_id,
}
use solana_token_lab.Simulation.{
  Stores, persist, new_runner, source_matches, simulation_input, select, load_input,
  execute_and_store, run,
}
use solana_token_lab.Simulation.Once.{Simulated, run_once}
use solana_token_lab.Examples.Samples.{
  scenario, prices, liquidity, trailing, trailing_config, hash, units, candidate,
}

abbrev stores : Stores Micros (TradeRecordStore Micros)
stores =
    new_runner (("c", candidate) ∷ []) (map (λ p. (Prices.key_of p, p)) prices)
      (map (λ l. (Liquidity.key_of l, l)) liquidity)

abbrev loaded : StrategyInput Micros
loaded =
    simulation_input "c" candidate prices liquidity (units (pos 1_000_000))
      (some (units (pos 9_000_000))) scenario

loaded-valid : validate (some loaded) ≡ ok tt
unfolding validate Micros.literal
loaded-valid = refl

-- The fall from 2.00 to 1.50.
abbrev traded : TradeRecord Micros
traded =
    build_trade_record hash "c" (trailing_stop_id trailing) scenario.scenario_id (pos 1000)
      (units (pos 1_000_000)) (some (units (pos 9_000_000)))
      (exit_at (pos 3000) (units (pos 1_500_000)) "TRAILING_STOP") scenario
      (some (units (pos 2_000_000))) none

executed : execute_trailing_stop hash trailing (some loaded) ≡ ok traded
unfolding execute_trailing_stop trailing_loop check_exit exit_or_max_duration validate Micros.mul
    Micros.sub Micros.literal
executed = refl

traded-valid : is_valid traded ≡ true
unfolding build_trade_record compute_trade_id trailing_stop_id Micros.format Micros.mul
    Micros.literal
traded-valid = refl

selected : select stores "c" trailing_config ≡ ok (candidate, Strategy.trailing_stop trailing)
unfolding select source_matches from_config from_trailing_stop_config new_runner
selected = refl

input_loaded : load_input stores "c" scenario candidate ≡ ok loaded
unfolding load_input validate price_at liquidity_at new_runner Micros.literal
input_loaded = refl

inserted : persist stores.insert_trade traded [] ≡ ok ((traded.trade_id, traded) ∷ [])
unfolding new_runner
inserted = rw traded-valid refl

ran : run hash stores "c" trailing_config scenario [] ≡ ok (traded, (traded.trade_id, traded) ∷ [])
unfolding run execute_and_store execute
ran = rw (selected, input_loaded, executed, inserted) refl

run_once_example :
    Simulated hash
      (("c", candidate) ∷ [])
      (map (λ p. (Prices.key_of p, p)) prices)
      (map (λ l. (Liquidity.key_of l, l)) liquidity)
      "c"
      trailing_config
      scenario
      traded
      []
      ((traded.trade_id, traded) ∷ [])
run_once_example =
    run_once hash (("c", candidate) ∷ []) (map (λ p. (Prices.key_of p, p)) prices)
      (map (λ l. (Liquidity.key_of l, l)) liquidity) "c" trailing_config scenario traded []
      ((traded.trade_id, traded) ∷ []) ran
