-- ===== src/Decision.antt =====
-- internal/decision/types.go: the input and the result of the GO/NO-GO decision, and the input's check.
-- The children model the evaluator (evaluator.go) and prove what it decides.
pub mod Evaluator
pub mod Builder
pub mod Verdict
use solana_token_lab.Base.{Bool, not, List, Option, none, some, String, same_text}
use solana_token_lab.Result.{Result, err, ◌>>◌, require, Error}
use solana_token_lab.Float64.{Float64, ◌<F◌, whole}
use solana_token_lab.Domain.{scenario_realistic}

pub data Decision : Type 0 where
  go no_go insufficient_data : Decision

pub record DecisionInput (F : Type 0) : Type 0 where
  pub positive_outcome_pct : F
  pub median_outcome : F
  pub realistic_mean : F
  pub realistic_median : F
  pub pessimistic_mean : F
  pub pessimistic_median : F
  pub degraded_mean : F
  pub outcome_p10 : F
  pub outcome_p25 : F
  pub outcome_p50 : F
  pub outcome_p75 : F
  pub outcome_p90 : F
  pub strategy_implementable : Bool
  pub strategy_id : String
  pub entry_event_type : String
  pub scenario_id : String

pub record CriterionResult : Type 0 where
  pub name : String
  pub threshold : String
  pub actual : String
  pub pass : Bool

pub record DecisionResult : Type 0 where
  pub decision : Decision
  pub go_criteria : List CriterionResult
  pub nogo_checks : List CriterionResult

module _ {F : Type 0} ⦃d : Float64 F⦄ where
  -- `none` is a nil pointer.
  unfoldable pub validate_decision : Option (DecisionInput F) → Result (Unit {0})
  validate_decision none = err Error.decision_input_is_nil
  validate_decision (some i) = do
    require (not (same_text i.strategy_id "")) Error.empty_strategy_id
    require (not (same_text i.scenario_id "")) Error.empty_decision_scenario_id
    require (same_text i.scenario_id scenario_realistic) Error.not_realistic_scenario
    require (not (i.positive_outcome_pct <F whole 0)) Error.negative_outcome_pct
    require (not (whole 100 <F i.positive_outcome_pct)) Error.invalid_outcome_pct
