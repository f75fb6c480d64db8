-- ===== src/Lookup/Laws.antt =====
-- What the lookups return: the last point of the series at or before the time; later points never
-- count.
use solana_token_lab.Base.{
  ◌≡◌, refl, ap, Bool, true, false, List, [], ◌∷◌, ◌++◌, none, some, arith, inl, inr, Option-cases,
  ◌⊎◌,
}
use solana_token_lab.Base.Lists.{All, All-imp}
use solana_token_lab.Base.Int.{ℤ, leb_ℤ, ◌<ℤ◌}
use solana_token_lab.Result.{ok}
use solana_token_lab.Domain.{PriceTimeseriesPoint, LiquidityTimeseriesPoint}
use solana_token_lab.Lookup.{last_such, price_at, liquidity_at}

module _ {ℓ} {A : Type ℓ} (test : A → Bool) where
  pub last_such-none : (xs : List A) → All (λ x. test x ≡ false) xs → last_such test xs ≡ none
  unfolding last_such
  last_such-none [] h = refl
  last_such-none (x ∷ xs) (h, hs) = rw (last_such-none xs hs, h)

  -- What fails the test at the end of the list does not count.
  pub last_such-append :
      (xs ys : List A)
      → All (λ x. test x ≡ false) ys
      → last_such test (xs ++ ys) ≡ last_such test xs
  unfolding last_such
  last_such-append [] ys h = last_such-none ys h
  last_such-append (x ∷ xs) ys h = rw (last_such-append xs ys h)

  -- `x` stands in the list, passes, and nothing behind it does.
  pub record IsLast (x : A) (xs : List A) : Type ℓ where
    pub before : List A
    pub after : List A
    pub split : xs ≡ before ++ (x ∷ after)
    pub passes : test x ≡ true
    pub rest_fails : All (λ y. test y ≡ false) after

  last_such-fails : (xs : List A) → last_such test xs ≡ none → All (λ x. test x ≡ false) xs
  unfolding last_such
  last_such-fails [] h = tt
  last_such-fails (x ∷ xs) h = elim (Option-cases (last_such test xs)) [
    | inl e ↦ (ground arith, last_such-fails xs e)
    | inr (y, e) ↦ absurd (ground arith)
  ]

  pub last_such-IsLast : (xs : List A) {x : A} → last_such test xs ≡ some x → IsLast x xs
  unfolding last_such
  last_such-IsLast [] h = absurd (ground arith)
  last_such-IsLast (z ∷ xs) {x} h = elim (Option-cases (last_such test xs)) [
    | inl e ↦
        let here : (test z ≡ true) × (z ≡ x) = ground arith in
        record {
          before = [];
          after = xs;
          split = rw (here.1);
          passes = rw (← here.1) here.0;
          rest_fails = last_such-fails xs e;
        }
    | inr (y, e) ↦
        let r : IsLast x xs = last_such-IsLast xs (ground arith) in
        record {
          before = z ∷ r.before;
          after = r.after;
          split = ap (◌∷◌ z) r.split;
          passes = r.passes;
          rest_fails = r.rest_fails;
        }
  ]

module _ {F : Type 0} where
  abbrev pub at_or_before : ℤ → PriceTimeseriesPoint F → Bool
  at_or_before target q = leb_ℤ q.timestamp_ms target

  abbrev liquidity_at_or_before : ℤ → LiquidityTimeseriesPoint F → Bool
  liquidity_at_or_before target q = leb_ℤ q.timestamp_ms target

  -- A series that is not empty has a price at every time: that of its last point at or before the
  -- time, or, where all its points come later, that of its first point.
  pub price_at_iff_IsLast :
      (target : ℤ) (p : PriceTimeseriesPoint F) (ps : List (PriceTimeseriesPoint F))
      → ((q : PriceTimeseriesPoint F) × IsLast (at_or_before target) q (p ∷ ps)
          × (price_at target (p ∷ ps) ≡ ok q.price))
        ⊎ (All (λ q. target <ℤ q.timestamp_ms) (p ∷ ps) × (price_at target (p ∷ ps) ≡ ok p.price))
  unfolding price_at
  price_at_iff_IsLast target p ps = elim (Option-cases (last_such (at_or_before target) (p ∷ ps))) [
    | inl e ↦ inr (
      All-imp (λ q. at_or_before target q ≡ false)
          (λ (q : PriceTimeseriesPoint F). target <ℤ q.timestamp_ms) (λ q h. ground arith) (p ∷ ps)
          (last_such-fails (at_or_before target) (p ∷ ps) e),
      rw (e, price_at) refl,
    )
    | inr (q, e) ↦ inl (q, last_such-IsLast (at_or_before target) (p ∷ ps) e, rw (e, price_at) refl)
  ]

  -- No look-ahead: points that are stamped later than the time asked for, put behind a series that is
  -- not empty, do not change its price at that time.
  pub price_at-append :
      (target : ℤ) (p : PriceTimeseriesPoint F) (ps later : List (PriceTimeseriesPoint F))
      → All (λ q. target <ℤ q.timestamp_ms) later
      → price_at target (p ∷ ps ++ later) ≡ price_at target (p ∷ ps)
  unfolding price_at
  price_at-append target p ps later h =
      let fails =
        All-imp (λ (q : PriceTimeseriesPoint F). target <ℤ q.timestamp_ms)
          (λ q. at_or_before target q ≡ false) (λ q k. ground arith) later h in
      rw (last_such-append (at_or_before target) ps later fails, price_at)

  -- No look-ahead in a liquidity series either: points stamped later than the time asked for, put
  -- behind a series that is not empty, do not change its liquidity at that time.
  pub liquidity_at-append :
      (target : ℤ) (p : LiquidityTimeseriesPoint F) (ps later : List (LiquidityTimeseriesPoint F))
      → All (λ q. target <ℤ q.timestamp_ms) later
      → liquidity_at target (p ∷ ps ++ later) ≡ liquidity_at target (p ∷ ps)
  unfolding liquidity_at
  liquidity_at-append target p ps later h =
      let fails =
        All-imp (λ (q : LiquidityTimeseriesPoint F). target <ℤ q.timestamp_ms)
          (λ q. liquidity_at_or_before target q ≡ false) (λ q k. ground arith) later h in
      rw (last_such-append (liquidity_at_or_before target) ps later fails, liquidity_at)
