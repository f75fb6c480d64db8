-- ===== src/Examples/Samples.antt =====
-- Sample events, series and configurations.
use solana_token_lab.Base.{List, [], ◌∷◌, none, some, String}
use solana_token_lab.Base.Int.{ℤ, pos}
use solana_token_lab.Float64.Micros.{Micros, micros_float64}
use solana_token_lab.Domain.{
  Swap, SwapEvent, LiquidityEvent, PriceTimeseriesPoint, LiquidityTimeseriesPoint, ScenarioConfig,
  StrategyConfig, TokenCandidate, TradeRecord,
}
use solana_token_lab.Strategy.Input.{StrategyInput}
use solana_token_lab.Strategy.TrailingStop.{TrailingStopStrategy}
use solana_token_lab.Strategy.TimeExit.{TimeExitStrategy}

abbrev pub units : ℤ → Micros
units = some

abbrev pub dollars : ℤ
dollars = pos 1_000_000

abbrev pub swap_at : ℤ → String → ℤ → ℤ → Swap Micros
swap_at slot tx ts price = record {
  id = pos 0;
  candidate_id = "c";
  tx_signature = tx;
  event_index = pos 0;
  slot = slot;
  timestamp = ts;
  side = "buy";
  amount_in = units (pos 5);
  amount_out = units (pos 7);
  price = units price;
  created_at = pos 0;
}

abbrev pub swap_event_at : ℤ → String → ℤ → SwapEvent Micros
swap_event_at slot tx ts = record {
  mint = "m";
  pool = none;
  tx_signature = tx;
  event_index = pos 0;
  slot = slot;
  timestamp = ts;
  amount_out = units (pos 7);
}

abbrev pub liquidity_event_at : ℤ → String → ℤ → ℤ → LiquidityEvent Micros
liquidity_event_at slot tx ts after = record {
  id = pos 0;
  candidate_id = "c";
  pool = "p";
  mint = "m";
  tx_signature = tx;
  event_index = pos 0;
  slot = slot;
  timestamp = ts;
  event_type = "add";
  amount_token = units (pos 1);
  amount_quote = units (pos 2);
  liquidity_after = units after;
  created_at = pos 0;
}

abbrev pub price_at_time : ℤ → ℤ → PriceTimeseriesPoint Micros
price_at_time ts price = record {
  candidate_id = "c";
  timestamp_ms = ts;
  slot = ts;
  price = units price;
  volume = units (pos 7);
  swap_count = pos 1;
}

abbrev pub liquidity_at_time : ℤ → ℤ → LiquidityTimeseriesPoint Micros
liquidity_at_time ts liquidity = record {
  candidate_id = "c";
  timestamp_ms = ts;
  slot = ts;
  liquidity = units liquidity;
  liquidity_token = units (pos 1);
  liquidity_quote = units (pos 1);
}

-- 1.00, up to 2.00, down to 1.50.
abbrev pub prices : List (PriceTimeseriesPoint Micros)
prices =
    price_at_time (pos 1000) (pos 1_000_000)
    ∷ price_at_time (pos 2000) (pos 2_000_000)
    ∷ price_at_time (pos 3000) (pos 1_500_000)
    ∷ []

abbrev pub liquidity : List (LiquidityTimeseriesPoint Micros)
liquidity =
    liquidity_at_time (pos 1000) (pos 9_000_000) ∷ liquidity_at_time (pos 2500) (pos 4_000_000) ∷ []

abbrev pub scenario : ScenarioConfig Micros
scenario = record {
  scenario_id = "realistic";
  delay_ms = pos 500;
  slippage_pct = units (pos 2_000_000);
  fee_sol = units (pos 10);
  priority_fee_sol = units (pos 100);
  mev_penalty_pct = units (pos 1_000_000);
}

abbrev pub input : StrategyInput Micros
input = record {
  candidate_id = "c";
  entry_signal_time = pos 1000;
  entry_signal_price = units (pos 1_000_000);
  entry_liquidity = none;
  price_timeseries = prices;
  liquidity_timeseries = liquidity;
  scenario = scenario;
}

abbrev pub trailing : TrailingStopStrategy Micros
trailing = record {
  entry_event_type = "NEW_TOKEN";
  trail_pct = units (pos 200_000);
  initial_stop_pct = units (pos 100_000);
  max_hold_duration_ms = pos 60_000;
}

abbrev pub timed : TimeExitStrategy
timed = record { entry_event_type = "NEW_TOKEN"; hold_duration_ms = pos 1500 }

abbrev pub trailing_config : StrategyConfig Micros
trailing_config = record {
  strategy_type = "TRAILING_STOP";
  entry_event_type = "NEW_TOKEN";
  hold_duration_ms = none;
  trail_pct = some (units (pos 200_000));
  initial_stop_pct = some (units (pos 100_000));
  liquidity_drop_pct = none;
  max_hold_duration_ms = some (pos 60_000);
}

-- A stand-in for the hash, for runs.
abbrev pub hash : String → String
hash s = s

abbrev pub candidate : TokenCandidate
candidate = record {
  candidate_id = "c";
  source = "NEW_TOKEN";
  mint = "m";
  pool = none;
  tx_signature = "t";
  event_index = pos 0;
  slot = pos 1;
  discovered_at = pos 1000;
  created_at = pos 0;
}

abbrev pub scored : ℤ → String → Micros → String → TradeRecord Micros
scored time id outcome outcome_class = record {
  trade_id = id;
  candidate_id = "c";
  strategy_id = "TIME_EXIT";
  scenario_id = "realistic";
  entry_signal_time = time;
  entry_signal_price = units (pos 1);
  entry_actual_time = time;
  entry_actual_price = units (pos 1);
  entry_liquidity = none;
  position_size = units (pos 1);
  position_value = units (pos 1);
  exit_signal_time = time;
  exit_signal_price = units (pos 1);
  exit_actual_time = time;
  exit_actual_price = units (pos 1);
  exit_reason = "TIME_EXIT";
  entry_cost_sol = units (pos 0);
  exit_cost_sol = units (pos 0);
  mev_cost_sol = units (pos 0);
  total_cost_sol = units (pos 0);
  total_cost_pct = units (pos 0);
  gross_return = outcome;
  outcome = outcome;
  outcome_class = outcome_class;
  hold_duration_ms = pos 0;
  peak_price = none;
  min_liquidity = none;
}
