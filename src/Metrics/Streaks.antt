-- ===== src/Metrics/Streaks.antt =====
-- The longest streak of losses of internal/metrics/compute.go, against a plain description of it.
use mathlib.Core.Path.{subst}
use solana_token_lab.Base.{
  sym, ℕ, zero, suc, ◌+◌, ◌^◌, ◌≤◌, ◌<◌, ◌≡◌, refl, ◌⊎◌, inl, inr, Bool, true, false, Bool-cases,
  List, [], ◌∷◌, arith, ◌∙◌,
}
use solana_token_lab.Base.Int.{ℤ, pos, add64_one, ltb_ℤ}
use solana_token_lab.Base.Lists.{length}
use solana_token_lab.Float64.{Float64, whole}
use solana_token_lab.Domain.{TradeRecord}
use solana_token_lab.Metrics.{streak_loop, compute_max_consecutive_losses}

module _ {F : Type 0} ⦃d : Float64 F⦄ where
  abbrev pub is_loss : TradeRecord F → Bool
  is_loss t = d.le t.outcome (whole 0)

  -- The first `k` trades are losses.
  abbrev pub Leading : ℕ → List (TradeRecord F) → Type 0
  Leading zero ts = Unit
  Leading (suc k) [] = ⊥
  Leading (suc k) (t ∷ ts) = (is_loss t ≡ true) × Leading k ts

  -- Somewhere `k` consecutive trades are losses.
  abbrev pub HasStreak : ℕ → List (TradeRecord F) → Type 0
  HasStreak k [] = Leading k []
  HasStreak k (t ∷ ts) = Leading k (t ∷ ts) ⊎ HasStreak k ts

  Leading-short : (k : ℕ) (ts : List (TradeRecord F)) → Leading k ts → k ≤ length ts
  Leading-short zero ts h = omega arith
  Leading-short (suc k) [] h = absurd h
  Leading-short (suc k) (t ∷ ts) (h, hs) = omega (arith, Leading-short k ts hs)

  Leading→HasStreak : (k : ℕ) (ts : List (TradeRecord F)) → Leading k ts → HasStreak k ts
  Leading→HasStreak k [] h = h
  Leading→HasStreak k (t ∷ ts) h = inl h

  -- What the loop makes of the rest, after `c` losses in a row and a longest streak of `m`.
  record Continues (m c : ℕ) (ts : List (TradeRecord F)) (z : ℤ) : Type 0 where
    longest : ℕ
    result : z ≡ pos longest
    grows : m ≤ longest
    upper : (k : ℕ) → HasStreak k ts → k ≤ longest
    lead : (k : ℕ) → Leading k ts → c + k ≤ longest
    attained : (longest ≡ m) ⊎ HasStreak longest ts ⊎ ((k : ℕ) × Leading k ts × (longest ≡ c + k))

  Continues-loss :
      (m m' c : ℕ) (t : TradeRecord F) (ts : List (TradeRecord F)) (z : ℤ)
      → is_loss t ≡ true
      → m ≤ m'
      → suc c ≤ m'
      → (m' ≡ m) ⊎ (m' ≡ suc c)
      → Continues m' (suc c) ts z
      → Continues m c (t ∷ ts) z
  Continues-loss m m' c t ts z e a b o h = record {
    longest = h.longest;
    result = h.result;
    grows = omega (arith, h.grows);
    upper = upper;
    lead = lead;
    attained = attained h.attained o;
  }
    where
      lead : (k : ℕ) → Leading k (t ∷ ts) → c + k ≤ h.longest
      lead zero p = omega (arith, h.grows)
      lead (suc k) (p, ps) = omega (arith, h.lead k ps)

      upper : (k : ℕ) → HasStreak k (t ∷ ts) → k ≤ h.longest
      upper k (inl p) = omega (arith, lead k p)
      upper k (inr p) = h.upper k p

      attained :
          (h.longest ≡ m')
            ⊎ HasStreak h.longest ts
            ⊎ ((k : ℕ) × Leading k ts × (h.longest ≡ suc c + k))
          → (m' ≡ m) ⊎ (m' ≡ suc c)
          → (h.longest ≡ m)
            ⊎ HasStreak h.longest (t ∷ ts)
            ⊎ ((k : ℕ) × Leading k (t ∷ ts) × (h.longest ≡ c + k))
      attained (inl p) (inl q) = inl (p ∙ q)
      attained (inl p) (inr q) = inr (inr (1, (e, tt), omega arith))
      attained (inr (inl p)) q = inr (inl (inr p))
      attained (inr (inr (k, p, q))) _ = inr (inr (suc k, (e, p), omega arith))

  Continues-win :
      (m c : ℕ) (t : TradeRecord F) (ts : List (TradeRecord F)) (z : ℤ)
      → is_loss t ≡ false
      → c ≤ m
      → Continues m 0 ts z
      → Continues m c (t ∷ ts) z
  Continues-win m c t ts z e b h = record {
    longest = h.longest;
    result = h.result;
    grows = h.grows;
    upper = upper;
    lead = lead;
    attained = attained h.attained;
  }
    where
      lead : (k : ℕ) → Leading k (t ∷ ts) → c + k ≤ h.longest
      lead zero p = omega (arith, h.grows)
      lead (suc k) (p, ps) = cc

      upper : (k : ℕ) → HasStreak k (t ∷ ts) → k ≤ h.longest
      upper k (inl p) = omega (arith, lead k p)
      upper k (inr p) = h.upper k p

      attained :
          (h.longest ≡ m) ⊎ HasStreak h.longest ts ⊎ ((k : ℕ) × Leading k ts × (h.longest ≡ 0 + k))
          → (h.longest ≡ m)
            ⊎ HasStreak h.longest (t ∷ ts)
            ⊎ ((k : ℕ) × Leading k (t ∷ ts) × (h.longest ≡ c + k))
      attained (inl p) = inl p
      attained (inr (inl p)) = inr (inl (inr p))
      attained (inr (inr (k, p, q))) =
          inr (inl (inr (subst (λ n. HasStreak n ts) (omega arith) (Leading→HasStreak k ts p))))

  streak_loop-Continues :
      (m c : ℕ) (ts : List (TradeRecord F))
      → c ≤ m
      → m + length ts < 2 ^ 63
      → Continues m c ts (streak_loop (pos m) (pos c) ts)
  unfolding streak_loop
  streak_loop-Continues m c [] b s = record {
    longest = m;
    result = refl;
    grows = omega arith;
    upper = λ k p. omega (arith, Leading-short k [] p);
    lead = λ k p. omega (arith, Leading-short k [] p);
    attained = inl refl;
  }
  streak_loop-Continues m c (t ∷ ts) b s = elim (Bool-cases (is_loss t)) [
    | inr e ↦
        rw e
          (Continues-win m c t ts _ e b (streak_loop-Continues m 0 ts (omega arith) (omega arith)))
    | inl e ↦
        rw (e, add64_one c (omega arith))
          (elim (Bool-cases (ltb_ℤ (pos m) (pos (suc c)))) [
            | inl l ↦ rw l (
                Continues-loss m (suc c) c t ts _ e (ground arith) (omega arith) (inr refl)
                  (streak_loop-Continues (suc c) (suc c) ts (omega arith) (ground arith)))
            | inr l ↦ rw l (
                Continues-loss m m c t ts _ e (omega arith) (ground arith) (inl refl)
                  (streak_loop-Continues m (suc c) ts (ground arith) (omega arith)))
          ])
  ]

  -- Of fewer than 2^63 trades, in the order given, `computeMaxConsecutiveLosses` returns the length of
  -- a longest streak of trades with an outcome of at most zero: there is a streak of that length and
  -- none is longer.
  pub compute_max_consecutive_losses_longest :
      (trades : List (TradeRecord F))
      → length trades < 2 ^ 63
      → (n : ℕ) × (compute_max_consecutive_losses trades ≡ pos n)
        × HasStreak n trades
        × ((k : ℕ) → HasStreak k trades → k ≤ n)
  unfolding compute_max_consecutive_losses
  compute_max_consecutive_losses_longest trades b =
      let c = streak_loop-Continues 0 0 trades (omega arith) (omega arith) in
      (c.longest, c.result, attained c.longest c.attained, c.upper)
    where
      attained :
          (n : ℕ)
          → (n ≡ 0) ⊎ HasStreak n trades ⊎ ((k : ℕ) × Leading k trades × (n ≡ 0 + k))
          → HasStreak n trades
      attained n (inl p) = subst (λ n. HasStreak n trades) (sym p) (Leading→HasStreak 0 trades tt)
      attained n (inr (inl p)) = p
      attained n (inr (inr (k, p, q))) =
          subst (λ n. HasStreak n trades) (omega arith) (Leading→HasStreak k trades p)
