-- ===== src/Metrics/Drawdown.antt =====
-- The greatest drawdown of internal/metrics/compute.go, against the list of all drawdowns.
use mathlib.Core.Path.{subst}
use solana_token_lab.Base.{
  sym, ◌≡◌, refl, ◌⊎◌, inl, inr, true, false, Bool-cases, List, [], ◌∷◌, arith, if◌then◌else◌,
}
use solana_token_lab.Base.Lists.{All}
use solana_token_lab.Float64.{Float64, IsOrdered, ◌+F◌, ◌-F◌, ◌<F◌, ◌≤F◌, whole}
use solana_token_lab.Metrics.Statistics.{drawdown_loop, compute_max_drawdown}

abbrev pub IsIn : {A : Type 0} → A → List A → Type 0
IsIn a [] = ⊥
IsIn a (x ∷ xs) = (a ≡ x) ⊎ IsIn a xs

module _ {F : Type 0} ⦃d : Float64 F⦄ where
  -- The drawdown after each outcome: the peak of the cumulative outcome, less the cumulative outcome.
  abbrev pub drawdowns : F → F → List F → List F
  drawdowns cumulative peak [] = []
  drawdowns cumulative peak (o ∷ os) =
      let total = cumulative +F o in
      let top = if peak <F total then total else peak in (top -F total) ∷ drawdowns total top os

  greatest : F → List F → F
  greatest m [] = m
  greatest m (x ∷ xs) = greatest (if m <F x then x else m) xs

  drawdown_loop-greatest :
      (os : List F) (c p m : F) → drawdown_loop c p m os ≡ greatest m (drawdowns c p os)
  unfolding drawdown_loop greatest
  drawdown_loop-greatest [] c p m = refl
  drawdown_loop-greatest (o ∷ os) c p m =
      let total = c +F o in
      let top = if p <F total then total else p in
      drawdown_loop-greatest os total top (if m <F top -F total then top -F total else m)

  -- `r` is the greatest of `m` and those elements of a list that are numbers.
  pub record Greatest (m : F) (xs : List F) (r : F) : Type 0 where
    pub grows : (m ≤F r) ≡ true
    pub upper : All (λ x. (x ≤F x) ≡ true → (x ≤F r) ≡ true) xs
    pub attained : (r ≡ m) ⊎ IsIn r xs

  module _ (h : IsOrdered F) where
    below : (m x : F) → (m ≤F m) ≡ true → (m <F x) ≡ false → (x ≤F x) ≡ true → (x ≤F m) ≡ true
    below m x a e b = ground (arith, h.lt-eq-not-le m x a b)

    greatest-Greatest : (m : F) (xs : List F) → (m ≤F m) ≡ true → Greatest m xs (greatest m xs)
    unfolding greatest
    greatest-Greatest m [] a = record { grows = a; upper = tt; attained = inl refl }
    greatest-Greatest m (x ∷ xs) a = elim (Bool-cases (m <F x)) [
      | inl e ↦
          let b = h.le_of_lt m x e in
          let g = greatest-Greatest x xs (h.refl_of_le m x b).1 in
          rw e (record {
            grows = h.le_trans m x _ b g.grows;
            upper = (λ k. g.grows, g.upper);
            attained = inr g.attained;
          })
      | inr e ↦
          let g = greatest-Greatest m xs a in
          rw e (record {
            grows = g.grows;
            upper = (λ k. h.le_trans x m _ (below m x a e k) g.grows, g.upper);
            attained = elim g.attained [ inl p ↦ inl p | inr p ↦ inr (inr p) ];
          })
    ]

    -- With comparisons of floats as in IEEE 754, `computeMaxDrawdown` returns the greatest drawdown: it
    -- is not negative, no drawdown along the outcomes that is a number lies above it, and it is one of
    -- them, or zero.
    pub compute_max_drawdown-Greatest :
        (outcomes : List F)
        → Greatest
            (whole 0)
            (drawdowns (whole 0) (whole 0) outcomes)
            (compute_max_drawdown outcomes)
    unfolding compute_max_drawdown
    compute_max_drawdown-Greatest [] = record {
      grows = h.whole_refl 0;
      upper = tt;
      attained = inl refl;
    }
    compute_max_drawdown-Greatest (o ∷ os) =
        let falls = drawdowns (whole 0) (whole 0) (o ∷ os) in
        subst (Greatest (whole 0) falls)
          (sym (drawdown_loop-greatest (o ∷ os) (whole 0) (whole 0) (whole 0)))
          (greatest-Greatest (whole 0) falls (h.whole_refl 0))
