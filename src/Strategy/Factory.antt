-- ===== src/Strategy/Factory.antt =====
-- internal/strategy/factory.go: strategies from configurations. `Strategy` is the Go interface, with
-- a constructor for each implementation.
use solana_token_lab.Base.{Option, none, some, String, same_text, if◌then◌else◌}
use solana_token_lab.Result.{Result, ok, err, ◌>>=◌, Error}
use solana_token_lab.Float64.{Float64}
use solana_token_lab.Domain.{
  StrategyConfig, TradeRecord, strategy_type_time_exit, strategy_type_trailing_stop,
  strategy_type_liquidity_guard,
}
use solana_token_lab.Strategy.Input.{StrategyInput}
use solana_token_lab.Strategy.TimeExit.{TimeExitStrategy, time_exit_id, execute_time_exit}
use solana_token_lab.Strategy.TrailingStop.{
  TrailingStopStrategy, trailing_stop_id, execute_trailing_stop,
}
use solana_token_lab.Strategy.LiquidityGuard.{
  LiquidityGuardStrategy, liquidity_guard_id, execute_liquidity_guard,
}

pub data Strategy (F : Type 0) : Type 0 where
  time_exit : TimeExitStrategy → Strategy F
  trailing_stop : TrailingStopStrategy F → Strategy F
  liquidity_guard : LiquidityGuardStrategy F → Strategy F

-- `if p == nil { return e }`
abbrev pub required : {A : Type 0} → Option A → Error → Result A
required none e = err e
required (some a) e = ok a

module _ {F : Type 0} where
  unfoldable pub from_time_exit_config : StrategyConfig F → Result (Strategy F)
  from_time_exit_config cfg = do
    hold ← required cfg.hold_duration_ms Error.missing_hold_duration
    ok (
        Strategy.time_exit
          (record { entry_event_type = cfg.entry_event_type; hold_duration_ms = hold }))

  unfoldable pub from_trailing_stop_config : StrategyConfig F → Result (Strategy F)
  from_trailing_stop_config cfg = do
    trail ← required cfg.trail_pct Error.missing_trail_pct
    stop ← required cfg.initial_stop_pct Error.missing_initial_stop_pct
    max_hold ← required cfg.max_hold_duration_ms Error.missing_max_hold_duration
    ok (
        Strategy.trailing_stop (record {
          entry_event_type = cfg.entry_event_type;
          trail_pct = trail;
          initial_stop_pct = stop;
          max_hold_duration_ms = max_hold;
        }))

  unfoldable pub from_liquidity_guard_config : StrategyConfig F → Result (Strategy F)
  from_liquidity_guard_config cfg = do
    drop ← required cfg.liquidity_drop_pct Error.missing_liquidity_drop_pct
    max_hold ← required cfg.max_hold_duration_ms Error.missing_max_hold_duration
    ok (
        Strategy.liquidity_guard (record {
          entry_event_type = cfg.entry_event_type;
          liquidity_drop_pct = drop;
          max_hold_duration_ms = max_hold;
        }))

  unfoldable pub from_config : StrategyConfig F → Result (Strategy F)
  from_config cfg =
      if same_text cfg.strategy_type strategy_type_time_exit
      then from_time_exit_config cfg
      else if same_text cfg.strategy_type strategy_type_trailing_stop
      then from_trailing_stop_config cfg
      else if same_text cfg.strategy_type strategy_type_liquidity_guard
      then from_liquidity_guard_config cfg
      else err Error.unknown_strategy_type

  unfoldable pub base_type : Strategy F → String
  base_type (Strategy.time_exit s) = strategy_type_time_exit
  base_type (Strategy.trailing_stop s) = strategy_type_trailing_stop
  base_type (Strategy.liquidity_guard s) = strategy_type_liquidity_guard

module _ {F : Type 0} ⦃d : Float64 F⦄ where
  unfoldable pub id : Strategy F → String
  unfolding time_exit_id trailing_stop_id liquidity_guard_id
  id (Strategy.time_exit s) = time_exit_id s
  id (Strategy.trailing_stop s) = trailing_stop_id s
  id (Strategy.liquidity_guard s) = liquidity_guard_id s

  unfoldable pub execute :
      (String → String) → Strategy F → Option (StrategyInput F) → Result (TradeRecord F)
  execute sha256_hex (Strategy.time_exit s) input = execute_time_exit sha256_hex s input
  execute sha256_hex (Strategy.trailing_stop s) input = execute_trailing_stop sha256_hex s input
  execute sha256_hex (Strategy.liquidity_guard s) input = execute_liquidity_guard sha256_hex s input
