-- ===== src/Decision/Evaluator.antt =====
-- internal/decision/evaluator.go: the five GO criteria, the four NO-GO triggers and the decision.
use solana_token_lab.Base.{
  Bool, true, false, not, ◌&&◌, ◌||◌, List, [], ◌∷◌, some, String, if◌then◌else◌,
}
use solana_token_lab.Base.Int.{pos}
use solana_token_lab.Base.Text.{append, concat}
use solana_token_lab.Result.{Result, ok, ◌>>◌}
use solana_token_lab.Float64.{Float64, ◌<F◌, ◌≤F◌, ◌/F◌, whole}
use solana_token_lab.Decision.{
  Decision, DecisionInput, CriterionResult, DecisionResult, validate_decision,
}

-- `fmt.Sprintf("%t", b)`
abbrev show_bool : Bool → String
show_bool true = "true"
show_bool false = "false"

-- The loops over the results, which stop at the first one that does not pass.
unfoldable pub all_pass : List CriterionResult → Bool
all_pass [] = true
all_pass (c ∷ cs) = let rest = all_pass cs in if not c.pass then false else rest

unfoldable pub any_triggered : List CriterionResult → Bool
any_triggered [] = false
any_triggered (c ∷ cs) = let rest = any_triggered cs in if not c.pass then true else rest

unfoldable pub decide : List CriterionResult → List CriterionResult → Decision
unfolding all_pass any_triggered
decide go_criteria nogo_checks =
    if not (all_pass go_criteria) || any_triggered nogo_checks then Decision.no_go else Decision.go

module _ {F : Type 0} ⦃d : Float64 F⦄ where
  unfoldable pub is_stable : DecisionInput F → Bool
  is_stable i =
      if whole 0 <F i.realistic_median
      then (whole 0 <F i.pessimistic_median
          && (d.literal (pos 5) 1 ≤F (i.pessimistic_median /F i.realistic_median)))
      else false

  unfoldable pub stability_actual : DecisionInput F → String
  unfolding concat
  stability_actual i =
      if whole 0 <F i.realistic_median
      then concat (
          "PessimisticMedian="
          ∷ d.format 4 i.pessimistic_median
          ∷ ", Ratio="
          ∷ d.format 2 (i.pessimistic_median /F i.realistic_median)
          ∷ [])
      else concat (
          "PessimisticMedian="
          ∷ d.format 4 i.pessimistic_median
          ∷ ", RealisticMedian="
          ∷ d.format 4 i.realistic_median
          ∷ [])

  unfoldable pub evaluate_go_criteria : DecisionInput F → List CriterionResult
  unfolding is_stable stability_actual append
  evaluate_go_criteria i =
      record {
        name = "Positive outcome tokens";
        threshold = ">= 5%";
        actual = append (d.format 2 i.positive_outcome_pct) "%";
        pass = d.literal (pos 50) 1 ≤F i.positive_outcome_pct;
      }
      ∷ record {
        name = "Median outcome";
        threshold = "> 0";
        actual = d.format 4 i.median_outcome;
        pass = whole 0 <F i.median_outcome;
      }
      ∷ record {
        name = "Stable under pessimistic scenario";
        threshold = "PessimisticMedian > 0 AND ratio >= 0.5";
        actual = stability_actual i;
        pass = is_stable i;
      }
      ∷ record {
        name = "Not dominated by outliers";
        threshold = "P25 > 0";
        actual = append "P25=" (d.format 4 i.outcome_p25);
        pass = whole 0 <F i.outcome_p25;
      }
      ∷ record {
        name = "Entry/exit implementable";
        threshold = "true";
        actual = show_bool i.strategy_implementable;
        pass = i.strategy_implementable;
      }
      ∷ []

  unfoldable pub evaluate_nogo_triggers : DecisionInput F → List CriterionResult
  unfolding append concat
  evaluate_nogo_triggers i =
      record {
        name = "Low positive outcome";
        threshold = "< 5%";
        actual = append (d.format 2 i.positive_outcome_pct) "%";
        pass = not (i.positive_outcome_pct <F d.literal (pos 50) 1);
      }
      ∷ record {
        name = "Negative/zero median";
        threshold = "<= 0";
        actual = d.format 4 i.median_outcome;
        pass = not (i.median_outcome ≤F whole 0);
      }
      ∷ record {
        name = "Edge disappears under pessimistic scenario";
        threshold = "RealisticMedian > 0 AND PessimisticMedian <= 0";
        actual = concat (
            "RealisticMedian="
            ∷ d.format 4 i.realistic_median
            ∷ ", PessimisticMedian="
            ∷ d.format 4 i.pessimistic_median
            ∷ []);
        pass = not ((whole 0 <F i.realistic_median) && (i.pessimistic_median ≤F whole 0));
      }
      ∷ record {
        name = "Entry not implementable";
        threshold = "StrategyImplementable == false";
        actual = show_bool i.strategy_implementable;
        pass = not (not i.strategy_implementable);
      }
      ∷ []

  unfoldable pub evaluate : DecisionInput F → Result DecisionResult
  unfolding validate_decision evaluate_go_criteria evaluate_nogo_triggers decide
  evaluate i = do
    validate_decision (some i)
    ok (record {
      decision = decide (evaluate_go_criteria i) (evaluate_nogo_triggers i);
      go_criteria = evaluate_go_criteria i;
      nogo_checks = evaluate_nogo_triggers i;
    })
