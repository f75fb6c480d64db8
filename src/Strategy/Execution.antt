-- ===== src/Strategy/Execution.antt =====
-- internal/strategy/helpers.go: the execution scenario applied to a signal, and the trade record.
use solana_token_lab.Base.{Option, String, if◌then◌else◌}
use solana_token_lab.Base.Int.{ℤ, pos, add64, sub64}
use solana_token_lab.IdHash.{compute_trade_id}
use solana_token_lab.Float64.{Float64, ◌+F◌, ◌-F◌, ◌*F◌, ◌/F◌, ◌<F◌, whole}
use solana_token_lab.Domain.{ScenarioConfig, TradeRecord, outcome_class_win, outcome_class_loss}

-- An exit that a strategy has decided on.
pub record ExitSignal (F : Type 0) : Type 0 where
  pub time : ℤ
  pub price : F
  pub reason : String

abbrev pub exit_at : {F : Type 0} → ℤ → F → String → ExitSignal F
exit_at t p why = record { time = t; price = p; reason = why }

module _ {F : Type 0} ⦃d : Float64 F⦄ where
  unfoldable pub apply_entry_execution : ℤ → F → ScenarioConfig F → ℤ × F × F
  unfolding add64
  apply_entry_execution signal_time signal_price scenario = (
    add64 signal_time scenario.delay_ms,
    signal_price *F (whole 1 +F scenario.slippage_pct /F whole 200),
    scenario.fee_sol +F scenario.priority_fee_sol,
  )

  unfoldable pub apply_exit_execution : ℤ → F → ScenarioConfig F → ℤ × F × F
  unfolding add64
  apply_exit_execution signal_time signal_price scenario = (
    add64 signal_time scenario.delay_ms,
    signal_price *F (whole 1 -F scenario.slippage_pct /F whole 200),
    scenario.fee_sol +F scenario.priority_fee_sol,
  )

  unfoldable pub build_trade_record :
      (sha256_hex : String → String) (candidate_id strategy_id scenario_id : String)
      (entry_signal_time : ℤ) (entry_signal_price : F) (entry_liquidity : Option F)
      (exit : ExitSignal F) (scenario : ScenarioConfig F) (peak_price min_liquidity : Option F)
      → TradeRecord F
  unfolding apply_entry_execution apply_exit_execution compute_trade_id sub64
  build_trade_record sha256_hex candidate strategy scenario_id entry_time entry_price
        entry_liquidity exit scenario peak_price min_liquidity =
      let entry = apply_entry_execution entry_time entry_price scenario in
      let exit' = apply_exit_execution exit.time exit.price scenario in
      let position_size : F = d.literal (pos 10) 1 in
      let position_value = entry.1 *F position_size in
      let mev_cost = position_value *F (scenario.mev_penalty_pct /F whole 100) in
      let total_cost = entry.2 +F exit'.2 +F mev_cost in
      let total_cost_pct = total_cost /F position_value in
      let gross_return = (exit'.1 -F entry.1) /F entry.1 in
      let outcome = gross_return -F total_cost_pct in
      record {
        trade_id = compute_trade_id sha256_hex candidate strategy scenario_id entry_time;
        candidate_id = candidate;
        strategy_id = strategy;
        scenario_id = scenario_id;
        entry_signal_time = entry_time;
        entry_signal_price = entry_price;
        entry_actual_time = entry.0;
        entry_actual_price = entry.1;
        entry_liquidity = entry_liquidity;
        position_size = position_size;
        position_value = position_value;
        exit_signal_time = exit.time;
        exit_signal_price = exit.price;
        exit_actual_time = exit'.0;
        exit_actual_price = exit'.1;
        exit_reason = exit.reason;
        entry_cost_sol = entry.2;
        exit_cost_sol = exit'.2;
        mev_cost_sol = mev_cost;
        total_cost_sol = total_cost;
        total_cost_pct = total_cost_pct;
        gross_return = gross_return;
        outcome = outcome;
        outcome_class = (if whole 0 <F outcome then outcome_class_win else outcome_class_loss);
        hold_duration_ms = sub64 exit'.0 entry.0;
        peak_price = peak_price;
        min_liquidity = min_liquidity;
      }
