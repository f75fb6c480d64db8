-- ===== src/Decision/Verdict.antt =====
-- What internal/decision decides: the evaluator against the decision gate's conditions.
use solana_token_lab.Base.{◌≡◌, ◌↔◌, refl, true, false, arith, some}
use solana_token_lab.Base.Int.{pos}
use solana_token_lab.Result.{ok}
use solana_token_lab.Float64.{Float64, IsOrdered, ◌<F◌, ◌≤F◌, ◌/F◌, whole}
use solana_token_lab.Decision.{Decision, DecisionInput, DecisionResult, validate_decision}
use solana_token_lab.Decision.Evaluator.{
  is_stable, evaluate_go_criteria, evaluate_nogo_triggers, decide, evaluate, all_pass,
  any_triggered,
}

module _ {F : Type 0} ⦃d : Float64 F⦄ where
  -- The decision gate's conditions for GO.
  pub record MeetsGate (i : DecisionInput F) : Type 0 where
    pub positive : (d.literal (pos 50) 1 ≤F i.positive_outcome_pct) ≡ true
    pub median : (whole 0 <F i.median_outcome) ≡ true
    pub realistic : (whole 0 <F i.realistic_median) ≡ true
    pub pessimistic : (whole 0 <F i.pessimistic_median) ≡ true
    pub ratio : (d.literal (pos 5) 1 ≤F (i.pessimistic_median /F i.realistic_median)) ≡ true
    pub quartile : (whole 0 <F i.outcome_p25) ≡ true
    pub implementable : i.strategy_implementable ≡ true

  module _ (o : IsOrdered F) where
    not_lt_of_le : (x y : F) → d.le x y ≡ true → d.lt y x ≡ false
    not_lt_of_le x y h = let r = o.refl_of_le x y h in rw (o.lt-eq-not-le y x r.1 r.0, h) refl

    not_le_of_lt : (x y : F) → d.lt x y ≡ true → d.le y x ≡ false
    not_le_of_lt x y h =
        let r = o.refl_of_le x y (o.le_of_lt x y h) in ground (arith, o.lt-eq-not-le x y r.0 r.1)

    decide-MeetsGate :
        (i : DecisionInput F)
        → MeetsGate i
        → decide (evaluate_go_criteria i) (evaluate_nogo_triggers i) ≡ Decision.go
    unfolding decide evaluate_go_criteria evaluate_nogo_triggers is_stable all_pass any_triggered
    decide-MeetsGate i h =
        rw
          (
            h.positive,
            h.median,
            h.realistic,
            h.pessimistic,
            h.ratio,
            h.quartile,
            h.implementable,
            not_lt_of_le _ _ h.positive,
            not_le_of_lt _ _ h.median,
            not_le_of_lt _ _ h.pessimistic,
          )
          refl

  decide_go :
      (i : DecisionInput F)
      → decide (evaluate_go_criteria i) (evaluate_nogo_triggers i) ≡ Decision.go
      → MeetsGate i
  unfolding decide evaluate_go_criteria evaluate_nogo_triggers is_stable all_pass any_triggered
  decide_go i h = record {
    positive = ground arith;
    median = ground arith;
    realistic = ground arith;
    pessimistic = ground arith;
    ratio = ground arith;
    quartile = ground arith;
    implementable = ground arith;
  }

  -- Every input that passes its check gets a result, and with comparisons of floats as in IEEE 754
  -- the decision is GO exactly when the positive outcomes are at least 5 percent, the median outcome,
  -- the realistic and the pessimistic median and the 25th percentile are above zero, the pessimistic
  -- median is at least half of the realistic one and the strategy is implementable: the NO-GO
  -- triggers add no condition.
  pub evaluate_iff :
      IsOrdered F
      → (i : DecisionInput F) → validate_decision (some i) ≡ ok tt
      → (r : DecisionResult) × (evaluate i ≡ ok r) × ((r.decision ≡ Decision.go) ↔ MeetsGate i)
  unfolding evaluate
  evaluate_iff o i v =
      let result : DecisionResult = record {
        decision = decide (evaluate_go_criteria i) (evaluate_nogo_triggers i);
        go_criteria = evaluate_go_criteria i;
        nogo_checks = evaluate_nogo_triggers i;
      } in
      (result, rw v refl, (λ h. decide_go i h, λ h. decide-MeetsGate o i h))
