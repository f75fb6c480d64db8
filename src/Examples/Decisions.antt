-- ===== src/Examples/Decisions.antt =====
-- Decisions on sample inputs.
use solana_token_lab.Base.{◌≡◌, ◌↔◌, refl, true, some}
use solana_token_lab.Base.Int.{pos}
use solana_token_lab.Result.{ok}
use solana_token_lab.Float64.Micros
use solana_token_lab.Float64.Micros.{Micros, micros_float64, Micros-IsOrdered}
use solana_token_lab.Decision.{Decision, DecisionInput, DecisionResult, validate_decision}
use solana_token_lab.Decision.Evaluator.{evaluate}
use solana_token_lab.Decision.Verdict.{MeetsGate, evaluate_iff}
use solana_token_lab.Examples.Samples.{units}

abbrev good : DecisionInput Micros
good = record {
  positive_outcome_pct = units (pos 12_000_000);
  median_outcome = units (pos 40_000);
  realistic_mean = units (pos 50_000);
  realistic_median = units (pos 40_000);
  pessimistic_mean = units (pos 30_000);
  pessimistic_median = units (pos 25_000);
  degraded_mean = units (pos 0);
  outcome_p10 = units (pos 1000);
  outcome_p25 = units (pos 10_000);
  outcome_p50 = units (pos 40_000);
  outcome_p75 = units (pos 60_000);
  outcome_p90 = units (pos 90_000);
  strategy_implementable = true;
  strategy_id = "TIME_EXIT";
  entry_event_type = "NEW_TOKEN";
  scenario_id = "realistic";
}

good-valid : validate_decision (some good) ≡ ok tt
unfolding validate_decision Micros.literal
good-valid = refl

evaluate_iff_example :
    (r : DecisionResult) × (evaluate good ≡ ok r) × ((r.decision ≡ Decision.go) ↔ MeetsGate good)
evaluate_iff_example = evaluate_iff Micros-IsOrdered good good-valid
