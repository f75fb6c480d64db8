-- ===== src/Decision/Builder/Built.antt =====
-- The rows of a report that the inputs of internal/decision/builder.go come from.
use mathlib.Core.List.{Memᴰ}
use mathlib.Core.Path.{subst}
use solana_token_lab.Base.{
  ◌≡◌, refl, ◌∙◌, sym, inl, inr, ◌⊎◌, ◌↔◌, true, none, Option-cases, List-cases, List, [], ◌∷◌,
  some, String, arith,
}
use solana_token_lab.Base.Lists.{All}
use solana_token_lab.Result.{ok, ◌>>=◌, >>=-eq-ok, ok_injective}
use solana_token_lab.Float64.{Float64, ◌*F◌, whole}
use solana_token_lab.Domain.{scenario_realistic, scenario_pessimistic, scenario_degraded}
use solana_token_lab.Decision.{DecisionInput, validate_decision}
use solana_token_lab.Decision.Builder.{
  StrategyMetricRow, StrategyKey, Builder, key_of, last_metric, input_of, checked_input, build_key,
  build_keys, realistic_keys, sort_keys, build_all,
}
use solana_token_lab.Decision.Builder.Rows.{
  IsRow, is_implementable_iff, last_metric-Memᴰ, matches-IsRow, last_metric-none,
}

module _ {F : Type 0} where
  -- The row that the input takes its degraded mean from, or zero where there is none.
  abbrev pub Degraded : ⦃d : Float64 F⦄ → String → String → F → List (StrategyMetricRow F) → Type 0
  Degraded strategy_id entry_event_type mean ms =
      ((m : StrategyMetricRow F) × Memᴰ m ms
        × IsRow strategy_id entry_event_type scenario_degraded m
        × (mean ≡ m.outcome_mean))
      ⊎ (All (λ m. ¬ IsRow strategy_id entry_event_type scenario_degraded m) ms × (mean ≡ whole 0))

  module _ ⦃d : Float64 F⦄ (b : Builder) (ms : List (StrategyMetricRow F)) where
    -- The rows that an input was built from, and what it takes from them.
    pub record Built (input : DecisionInput F) : Type 0 where
      pub realistic : StrategyMetricRow F
      pub pessimistic : StrategyMetricRow F
      pub realistic_listed : Memᴰ realistic ms
      pub realistic_row :
          IsRow input.strategy_id input.entry_event_type scenario_realistic realistic
      pub pessimistic_listed : Memᴰ pessimistic ms
      pub pessimistic_row :
          IsRow input.strategy_id input.entry_event_type scenario_pessimistic pessimistic
      pub scenario : input.scenario_id ≡ scenario_realistic
      pub pct : input.positive_outcome_pct ≡ realistic.token_win_rate *F whole 100
      pub median : input.median_outcome ≡ realistic.outcome_median
      pub realistic_scores :
          (input.realistic_mean ≡ realistic.outcome_mean)
          × (input.realistic_median ≡ realistic.outcome_median)
      pub pessimistic_scores :
          (input.pessimistic_mean ≡ pessimistic.outcome_mean)
          × (input.pessimistic_median ≡ pessimistic.outcome_median)
      pub degraded : Degraded input.strategy_id input.entry_event_type input.degraded_mean ms
      pub quantiles :
          (input.outcome_p10 ≡ realistic.outcome_p10)
          × (input.outcome_p25 ≡ realistic.outcome_p25)
          × (input.outcome_p50 ≡ realistic.outcome_median)
          × (input.outcome_p75 ≡ realistic.outcome_p75)
          × (input.outcome_p90 ≡ realistic.outcome_p90)
      pub implementable :
          (input.strategy_implementable ≡ true)
          ↔ Memᴰ
              (record {
                strategy_id = input.strategy_id;
                entry_event_type = input.entry_event_type;
              })
              b.implementable
      pub valid : validate_decision (some input) ≡ ok tt

    checked_input-ok :
        (i input : DecisionInput F)
        → checked_input i ≡ ok input
        → (i ≡ input) × (validate_decision (some i) ≡ ok tt)
    unfolding checked_input
    checked_input-ok i input h =
        let (_, passed, same) = >>=-eq-ok (validate_decision (some i)) _ h in
        (ok_injective i input same, passed)

    -- The degraded row that the map has for the key.
    last_metric-Degraded :
        (k : StrategyKey) (realistic : StrategyMetricRow F)
        → realistic.strategy_id ≡ k.strategy_id
        → realistic.entry_event_type ≡ k.entry_event_type
        → Degraded realistic.strategy_id realistic.entry_event_type
            (elim (last_metric k scenario_degraded ms) [ none ↦ whole 0 | some m ↦ m.outcome_mean ])
            ms
    last_metric-Degraded k r x y =
        rw (x, y)
          (elim (Option-cases (last_metric k scenario_degraded ms)) [
            | inl e ↦ inr (last_metric-none k scenario_degraded ms e, rw e refl)
            | inr (m, e) ↦
                let (listed, match) = last_metric-Memᴰ k scenario_degraded ms m e in
                inl (m, listed, (matches-IsRow k scenario_degraded m).0 match, rw e refl)
          ])

    input_of-Built :
        (k : StrategyKey) (realistic pessimistic : StrategyMetricRow F)
        → last_metric k scenario_realistic ms ≡ some realistic
        → last_metric k scenario_pessimistic ms ≡ some pessimistic
        → let i = input_of b realistic (some pessimistic) (last_metric k scenario_degraded ms) in
          validate_decision (some i) ≡ ok tt → Built i
    unfolding input_of
    input_of-Built k r p h g valid =
        let (listed, match) = last_metric-Memᴰ k scenario_realistic ms r h in
        let (also, other) = last_metric-Memᴰ k scenario_pessimistic ms p g in
        let (x, y, z) = (matches-IsRow k scenario_realistic r).0 match in
        let (u, v, w) = (matches-IsRow k scenario_pessimistic p).0 other in
        record {
          realistic = r;
          pessimistic = p;
          realistic_listed = listed;
          realistic_row = (refl, refl, z);
          pessimistic_listed = also;
          pessimistic_row = (u ∙ sym x, v ∙ sym y, w);
          scenario = z;
          pct = refl;
          median = refl;
          realistic_scores = (refl, refl);
          pessimistic_scores = (refl, refl);
          degraded = last_metric-Degraded k r x y;
          quantiles = (refl, refl, refl, refl, refl);
          implementable = is_implementable_iff (key_of r) b.implementable;
          valid = valid;
        }

    build_key-Built :
        (k : StrategyKey) (realistic : StrategyMetricRow F) (input : DecisionInput F)
        → last_metric k scenario_realistic ms ≡ some realistic
        → build_key b ms k realistic ≡ ok input
        → Built input
    unfolding build_key
    build_key-Built k realistic input h g =
        elim (Option-cases (last_metric k scenario_pessimistic ms)) [
          | inl e ↦ absurd (ground arith)
          | inr (pessimistic, e) ↦
              let degraded = last_metric k scenario_degraded ms in
              let i = input_of b realistic (some pessimistic) degraded in
              let checked : checked_input i ≡ ok input = ground arith in
              let (same, valid) = checked_input-ok i input checked in
              subst Built same (input_of-Built k realistic pessimistic h e valid)
        ]

    build_keys-Built :
        (ks : List StrategyKey) (inputs : List (DecisionInput F))
        → build_keys b ms ks ≡ ok inputs
        → All Built inputs
    unfolding build_keys
    build_keys-Built [] inputs h = subst (All Built) (ok_injective [] inputs h) tt
    build_keys-Built (k ∷ ks) inputs h = elim (Option-cases (last_metric k scenario_realistic ms)) [
      | inl e ↦ build_keys-Built ks inputs (ground arith)
      | inr (realistic, e) ↦
          let steps : (build_key b ms k realistic >>= λ input.
          build_keys b ms ks >>= λ rest. ok (input ∷ rest))
              ≡ ok inputs =
            ground arith in
          let (input, first, later) = >>=-eq-ok (build_key b ms k realistic) _ steps in
          let (rest, others, all) = >>=-eq-ok (build_keys b ms ks) _ later in
          subst (All Built) (ok_injective (input ∷ rest) inputs all)
            (build_key-Built k realistic input e first, build_keys-Built ks rest others)
    ]

    -- Every input that `BuildAll` returns is made of two rows of the report, a realistic and a pessimistic
    -- one of its strategy and entry event: the percentage, the median, the quantiles and the realistic scores are
    -- those of the realistic row, the pessimistic scores those of the pessimistic row; the degraded
    -- mean is that of a degraded row of the same strategy and entry event, or zero where the report has none;
    -- the strategy counts as implementable exactly if the builder lists it; and the input passes its check.
    pub build_all-Built :
        (inputs : List (DecisionInput F)) → build_all b ms ≡ ok inputs → All Built inputs
    unfolding build_all
    build_all-Built inputs h = elim (List-cases (realistic_keys [] ms)) [
      | inl e ↦ absurd (ground arith)
      | inr (k, ks, e) ↦ build_keys-Built (sort_keys (k ∷ ks)) inputs (ground arith)
    ]
