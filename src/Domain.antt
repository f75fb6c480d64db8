-- ===== src/Domain.antt =====
-- The data of internal/domain: events, time series, scenarios, strategies, trades. `F` is float64.
use solana_token_lab.Base.{Bool, ◌||◌, Option, String, same_text}
use solana_token_lab.Base.Int.{ℤ, pos}
use solana_token_lab.Float64.{Float64, whole}

-- `Source` is a Go string type.
abbrev pub Source : Type 0
Source = String

abbrev pub source_new_token : Source
source_new_token = "NEW_TOKEN"

abbrev pub source_active_token : Source
source_active_token = "ACTIVE_TOKEN"

pub source_is_valid : Source → Bool
source_is_valid s = same_text s source_new_token || same_text s source_active_token

pub record TokenCandidate : Type 0 where
  pub candidate_id : String
  pub source : Source
  pub mint : String
  pub pool : Option String
  pub tx_signature : String
  pub event_index : ℤ
  pub slot : ℤ
  pub discovered_at : ℤ
  pub created_at : ℤ

pub record Swap (F : Type 0) : Type 0 where
  pub id : ℤ
  pub candidate_id : String
  pub tx_signature : String
  pub event_index : ℤ
  pub slot : ℤ
  pub timestamp : ℤ
  pub side : String
  pub amount_in : F
  pub amount_out : F
  pub price : F
  pub created_at : ℤ

abbrev pub swap_side_buy : String
swap_side_buy = "buy"

abbrev pub swap_side_sell : String
swap_side_sell = "sell"

pub record SwapEvent (F : Type 0) : Type 0 where
  pub mint : String
  pub pool : Option String
  pub tx_signature : String
  pub event_index : ℤ
  pub slot : ℤ
  pub timestamp : ℤ
  pub amount_out : F

pub record LiquidityEvent (F : Type 0) : Type 0 where
  pub id : ℤ
  pub candidate_id : String
  pub pool : String
  pub mint : String
  pub tx_signature : String
  pub event_index : ℤ
  pub slot : ℤ
  pub timestamp : ℤ
  pub event_type : String
  pub amount_token : F
  pub amount_quote : F
  pub liquidity_after : F
  pub created_at : ℤ

pub record PriceTimeseriesPoint (F : Type 0) : Type 0 where
  pub candidate_id : String
  pub timestamp_ms : ℤ
  pub slot : ℤ
  pub price : F
  pub volume : F
  pub swap_count : ℤ

pub record LiquidityTimeseriesPoint (F : Type 0) : Type 0 where
  pub candidate_id : String
  pub timestamp_ms : ℤ
  pub slot : ℤ
  pub liquidity : F
  pub liquidity_token : F
  pub liquidity_quote : F

pub record VolumeTimeseriesPoint (F : Type 0) : Type 0 where
  pub candidate_id : String
  pub timestamp_ms : ℤ
  pub interval_seconds : ℤ
  pub volume : F
  pub swap_count : ℤ
  pub buy_volume : F
  pub sell_volume : F

pub record DerivedFeaturePoint (F : Type 0) : Type 0 where
  pub candidate_id : String
  pub timestamp_ms : ℤ
  pub price_delta : Option F
  pub price_velocity : Option F
  pub price_acceleration : Option F
  pub liquidity_delta : Option F
  pub liquidity_velocity : Option F
  pub token_lifetime_ms : ℤ
  pub last_swap_interval_ms : Option ℤ
  pub last_liq_event_interval_ms : Option ℤ

pub record ScenarioConfig (F : Type 0) : Type 0 where
  pub scenario_id : String
  pub delay_ms : ℤ
  pub slippage_pct : F
  pub fee_sol : F
  pub priority_fee_sol : F
  pub mev_penalty_pct : F

abbrev pub scenario_optimistic : String
scenario_optimistic = "optimistic"

abbrev pub scenario_realistic : String
scenario_realistic = "realistic"

abbrev pub scenario_pessimistic : String
scenario_pessimistic = "pessimistic"

abbrev pub scenario_degraded : String
scenario_degraded = "degraded"

module _ {F : Type 0} ⦃d : Float64 F⦄ where
  abbrev pub scenario_config_realistic : ScenarioConfig F
  scenario_config_realistic = record {
    scenario_id = scenario_realistic;
    delay_ms = pos 500;
    slippage_pct = d.literal (pos 20) 1;
    fee_sol = d.literal (pos 1) 5;
    priority_fee_sol = d.literal (pos 1) 4;
    mev_penalty_pct = d.literal (pos 10) 1;
  }

  abbrev pub scenario_config_pessimistic : ScenarioConfig F
  scenario_config_pessimistic = record {
    scenario_id = scenario_pessimistic;
    delay_ms = pos 2000;
    slippage_pct = d.literal (pos 50) 1;
    fee_sol = d.literal (pos 1) 4;
    priority_fee_sol = d.literal (pos 1) 3;
    mev_penalty_pct = d.literal (pos 30) 1;
  }

  abbrev pub scenario_config_degraded : ScenarioConfig F
  scenario_config_degraded = record {
    scenario_id = scenario_degraded;
    delay_ms = pos 5000;
    slippage_pct = d.literal (pos 100) 1;
    fee_sol = d.literal (pos 1) 3;
    priority_fee_sol = d.literal (pos 1) 2;
    mev_penalty_pct = d.literal (pos 50) 1;
  }

  abbrev pub scenario_config_optimistic : ScenarioConfig F
  scenario_config_optimistic = record {
    scenario_id = scenario_optimistic;
    delay_ms = pos 100;
    slippage_pct = d.literal (pos 5) 1;
    fee_sol = d.literal (pos 5) 6;
    priority_fee_sol = whole 0;
    mev_penalty_pct = whole 0;
  }

pub record StrategyConfig (F : Type 0) : Type 0 where
  pub strategy_type : String
  pub entry_event_type : String
  pub hold_duration_ms : Option ℤ
  pub trail_pct : Option F
  pub initial_stop_pct : Option F
  pub liquidity_drop_pct : Option F
  pub max_hold_duration_ms : Option ℤ

abbrev pub strategy_type_time_exit : String
strategy_type_time_exit = "TIME_EXIT"

abbrev pub strategy_type_trailing_stop : String
strategy_type_trailing_stop = "TRAILING_STOP"

abbrev pub strategy_type_liquidity_guard : String
strategy_type_liquidity_guard = "LIQUIDITY_GUARD"

pub record StrategyAggregate (F : Type 0) : Type 0 where
  pub strategy_id : String
  pub scenario_id : String
  pub entry_event_type : String
  pub total_trades : ℤ
  pub total_tokens : ℤ
  pub wins : ℤ
  pub losses : ℤ
  pub win_rate : F
  pub token_win_rate : F
  pub outcome_mean : F
  pub outcome_median : F
  pub outcome_p10 : F
  pub outcome_p25 : F
  pub outcome_p75 : F
  pub outcome_p90 : F
  pub outcome_min : F
  pub outcome_max : F
  pub outcome_stddev : F
  pub max_drawdown : F
  pub max_consecutive_losses : ℤ
  pub outcome_realistic : Option F
  pub outcome_pessimistic : Option F
  pub outcome_degraded : Option F

pub record TradeRecord (F : Type 0) : Type 0 where
  pub trade_id : String
  pub candidate_id : String
  pub strategy_id : String
  pub scenario_id : String
  pub entry_signal_time : ℤ
  pub entry_signal_price : F
  pub entry_actual_time : ℤ
  pub entry_actual_price : F
  pub entry_liquidity : Option F
  pub position_size : F
  pub position_value : F
  pub exit_signal_time : ℤ
  pub exit_signal_price : F
  pub exit_actual_time : ℤ
  pub exit_actual_price : F
  pub exit_reason : String
  pub entry_cost_sol : F
  pub exit_cost_sol : F
  pub mev_cost_sol : F
  pub total_cost_sol : F
  pub total_cost_pct : F
  pub gross_return : F
  pub outcome : F
  pub outcome_class : String
  pub hold_duration_ms : ℤ
  pub peak_price : Option F
  pub min_liquidity : Option F

abbrev pub exit_reason_time_exit : String
exit_reason_time_exit = "TIME_EXIT"

abbrev pub exit_reason_initial_stop : String
exit_reason_initial_stop = "INITIAL_STOP"

abbrev pub exit_reason_trailing_stop : String
exit_reason_trailing_stop = "TRAILING_STOP"

abbrev pub exit_reason_max_duration : String
exit_reason_max_duration = "MAX_DURATION"

abbrev pub exit_reason_liquidity_drop : String
exit_reason_liquidity_drop = "LIQUIDITY_DROP"

abbrev pub outcome_class_win : String
outcome_class_win = "WIN"

abbrev pub outcome_class_loss : String
outcome_class_loss = "LOSS"

pub record TokenMetadata (F : Type 0) : Type 0 where
  pub candidate_id : String
  pub mint : String
  pub name : Option String
  pub symbol : Option String
  pub decimals : ℤ
  pub supply : Option F
  pub fetched_at : ℤ
  pub created_at : ℤ
