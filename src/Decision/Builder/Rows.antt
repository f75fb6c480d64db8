-- ===== src/Decision/Builder/Rows.antt =====
-- The rows of a report by their strategy, entry event and scenario, as the maps of internal/decision/builder.go
-- find them.
use mathlib.Core.List.{Memᴰ}
use mathlib.Core.Path.{subst, ap₂}
use solana_token_lab.Base.{
  ◌≡◌, ap, sym, inl, inr, ◌↔◌, true, none, Bool-cases, Option-cases, List, [], ◌∷◌, some, String,
  same_text_iff, arith,
}
use solana_token_lab.Base.Lists.{All}
use solana_token_lab.Decision.Builder.{
  StrategyMetricRow, StrategyKey, matches, same_key, is_implementable, last_metric,
}

same_key-eq : (j k : StrategyKey) → (same_key j k ≡ true) ↔ (j ≡ k)
same_key-eq j k =
    let ids = same_text_iff j.strategy_id k.strategy_id in
    let types = same_text_iff j.entry_event_type k.entry_event_type in
    (
      λ h.
          let build : String → String → StrategyKey =
            λ x y. record { strategy_id = x; entry_event_type = y } in
          ap₂ build (ids.0 (ground arith)) (types.0 (ground arith)),
      λ e.
          let x = ids.1 (ap (λ (t : StrategyKey). t.strategy_id) e) in
          let y = types.1 (ap (λ (t : StrategyKey). t.entry_event_type) e) in ground arith,
    )

pub is_implementable_iff :
    (k : StrategyKey) (js : List StrategyKey) → (is_implementable k js ≡ true) ↔ Memᴰ k js
unfolding is_implementable
is_implementable_iff k [] = (λ h. absurd (ground arith), λ m. elim m [ ])
is_implementable_iff k (j ∷ js) =
    let (to, from) = same_key-eq j k in
    let (inside, back) = is_implementable_iff k js in
    (
      λ h. elim (Bool-cases (same_key j k)) [
        | inl e ↦ Memᴰ.head (sym (to e))
        | inr e ↦ Memᴰ.tail (inside (ground arith))
      ],
      λ m. elim m [
        | Memᴰ.head e ↦ let same = from (sym e) in ground arith
        | Memᴰ.tail m' ↦ let rest = back m' in ground arith
      ],
    )

module _ {F : Type 0} where
  pub last_metric-Memᴰ :
      (k : StrategyKey) (scenario_id : String) (ms : List (StrategyMetricRow F))
      (m : StrategyMetricRow F)
      → last_metric k scenario_id ms ≡ some m
      → Memᴰ m ms × (matches k scenario_id m ≡ true)
  unfolding last_metric
  last_metric-Memᴰ k s [] m h = cc
  last_metric-Memᴰ k s (x ∷ ms) m h = elim (Option-cases (last_metric k s ms)) [
    | inr (later, e) ↦
        let same : last_metric k s ms ≡ some m = ground arith in
        let (listed, match) = last_metric-Memᴰ k s ms m same in (Memᴰ.tail listed, match)
    | inl e ↦ elim (Bool-cases (matches k s x)) [
      | inl t ↦
          let same : x ≡ m = ground arith in
          (Memᴰ.head (sym same), subst (λ y. matches k s y ≡ true) same t)
      | inr t ↦ absurd (ground arith)
    ]
  ]

  -- The row is that of a strategy, an entry event and a scenario.
  abbrev pub IsRow : String → String → String → StrategyMetricRow F → Type 0
  IsRow strategy_id entry_event_type scenario_id m =
      (m.strategy_id ≡ strategy_id)
      × (m.entry_event_type ≡ entry_event_type)
      × (m.scenario_id ≡ scenario_id)

  pub matches-IsRow :
      (k : StrategyKey) (scenario_id : String) (m : StrategyMetricRow F)
      → (matches k scenario_id m ≡ true) ↔ IsRow k.strategy_id k.entry_event_type scenario_id m
  matches-IsRow k scenario_id m =
      let ids = same_text_iff m.strategy_id k.strategy_id in
      let types = same_text_iff m.entry_event_type k.entry_event_type in
      let scenarios = same_text_iff m.scenario_id scenario_id in
      (
        λ h. (ids.0 (ground arith), types.0 (ground arith), scenarios.0 (ground arith)),
        λ (x, y, z).
            let x' = ids.1 x in let y' = types.1 y in let z' = scenarios.1 z in ground arith,
      )

  pub last_metric-none :
      (k : StrategyKey) (scenario_id : String) (ms : List (StrategyMetricRow F))
      → last_metric k scenario_id ms ≡ none
      → All (λ m. ¬ IsRow k.strategy_id k.entry_event_type scenario_id m) ms
  unfolding last_metric
  last_metric-none k s [] h = tt
  last_metric-none k s (x ∷ ms) h = elim (Option-cases (last_metric k s ms)) [
    | inr (later, e) ↦ absurd (ground arith)
    | inl e ↦ elim (Bool-cases (matches k s x)) [
      | inl t ↦ absurd (ground arith)
      | inr t ↦ (λ row. let m = (matches-IsRow k s x).1 row in cc, last_metric-none k s ms e)
    ]
  ]
