-- ===== src/Metrics/Laws.antt =====
-- Laws of the aggregate of internal/metrics/compute.go: it does not depend on the order of its trades,
-- it always exists, and its counts add up.
use mathlib.Core.List.{Permᴰ}
use text.Mathlib.TextEquality.{path_by_compare}
use solana_token_lab.Position.{then_eq, ℤ_eq}
use mathlib.Core.Path.{subst}
use solana_token_lab.Base.{
  ℕ, zero, suc, ◌+◌, ◌^◌, ◌<◌, ◌≡◌, refl, sym, ap, ◌∙◌, false, Bool-cases, inl, inr, List, [], ◌∷◌,
  map, String, same_text, arith, ◌==◌,
}
use solana_token_lab.Base.Int.{compare_ℤ, pos, add64_one, sub64, sub64_one, leb_ℤ}
use solana_token_lab.Base.Lists.{length-perm, AllPairs-imp, length, All, AllPairs}
use solana_token_lab.Base.ThreeWay.{
  IsThreeWay, then_by-IsThreeWay, on-IsThreeWay, compare_ℤ-IsThreeWay, compare_text-IsThreeWay,
}
use solana_token_lab.Base.Sort.{
  Apart, Apart-iff, less_of, less_of-IsStrictWeak, sort_slice-eq_of_perm, sort_slice-perm,
}
use solana_token_lab.Result.{ok}
use solana_token_lab.Float64.{Float64, ◌*F◌, ◌+F◌, ◌-F◌}
use solana_token_lab.Domain.{TradeRecord, StrategyAggregate, outcome_class_win}
use solana_token_lab.Metrics.{
  compare_trades, sort_trades, count_outcomes, aggregate_sorted, compute_from_trades, Quantiles,
  compute_quantiles, assemble, outcomes_of,
}
use solana_token_lab.Metrics.Statistics.{
  element, interpolate, compute_percentile, float_less, sort_floats,
}

length-map : {A B : Type 0} (f : A → B) (xs : List A) → length (map f xs) ≡ length xs
length-map f [] = refl
length-map f (x ∷ xs) = ap suc (length-map f xs)

suc_nonzero : (n : ℕ) → (suc n == 0) ≡ false
suc_nonzero n = ground arith

element_total :
    {A : Type 0} (xs : List A) (i : ℕ) → i < length xs → (x : A) × (element xs (pos i) ≡ ok x)
unfolding element
element_total [] i h = absurd (omega arith)
element_total (x ∷ xs) zero h = (x, refl)
element_total (x ∷ xs) (suc i) h = element_total xs i (omega arith)

module _ {F : Type 0} where
  compare_trades-IsThreeWay : IsThreeWay (compare_trades {F = F})
  unfolding compare_trades
  compare_trades-IsThreeWay =
      then_by-IsThreeWay (on-IsThreeWay (λ t. t.entry_signal_time) compare_ℤ-IsThreeWay)
        (on-IsThreeWay (λ t. t.trade_id) compare_text-IsThreeWay)

  -- The entry time or the identifier tells the two trades apart.
  abbrev pub Distinct : TradeRecord F → TradeRecord F → Type 0
  Distinct a b = ¬ ((a.entry_signal_time ≡ b.entry_signal_time) × (a.trade_id ≡ b.trade_id))

  Distinct→Apart : (a b : TradeRecord F) → Distinct a b → Apart (less_of compare_trades) a b
  unfolding compare_trades
  Distinct→Apart a b n = (Apart-iff compare_trades-IsThreeWay a b).1 (λ e.
      let (s, r) = then_eq (compare_ℤ a.entry_signal_time b.entry_signal_time) _ e in
      n (ℤ_eq a.entry_signal_time b.entry_signal_time s, path_by_compare a.trade_id b.trade_id r))

  sort_trades-eq_of_perm :
      {xs ys : List (TradeRecord F)}
      → Permᴰ xs ys
      → AllPairs Distinct xs
      → sort_trades xs ≡ sort_trades ys
  unfolding sort_trades
  sort_trades-eq_of_perm p h =
      sort_slice-eq_of_perm (less_of compare_trades)
        (less_of-IsStrictWeak compare_trades-IsThreeWay) p
        (AllPairs-imp Distinct (Apart (less_of compare_trades)) Distinct→Apart _ h)

  sort_trades-length : (ts : List (TradeRecord F)) → length (sort_trades ts) ≡ length ts
  unfolding sort_trades
  sort_trades-length ts = length-perm (sort_slice-perm (less_of compare_trades) ts)

module _ {F : Type 0} ⦃d : Float64 F⦄ where
  -- The aggregate of a set of trades does not depend on the order in which they come, where no two
  -- of them have both the same entry time and the same identifier.
  pub compute_from_trades-perm :
      {xs ys : List (TradeRecord F)} (entry_event_type : String)
      → Permᴰ xs ys
      → AllPairs Distinct xs
      → compute_from_trades xs entry_event_type ≡ compute_from_trades ys entry_event_type
  unfolding compute_from_trades
  compute_from_trades-perm entry_event_type p h =
      rw (length-perm p, sort_trades-eq_of_perm p h) refl

  count_outcomes-total :
      (w l : ℕ) (ts : List (TradeRecord F))
      → w + l + length ts < 2 ^ 63
      → (w' : ℕ) × (l' : ℕ) × (count_outcomes (pos w) (pos l) ts ≡ (pos w', pos l'))
        × (w' + l' ≡ w + l + length ts)
  unfolding count_outcomes
  count_outcomes-total w l [] b = (w, l, refl, omega arith)
  count_outcomes-total w l (t ∷ ts) b =
      elim (Bool-cases (same_text t.outcome_class outcome_class_win)) [
        | inl e ↦
            let (w', l', c, s) = count_outcomes-total (suc w) l ts (omega arith) in
            (w', l', rw (e, add64_one w (omega arith)) c, omega arith)
        | inr e ↦
            let (w', l', c, s) = count_outcomes-total w (suc l) ts (omega arith) in
            (w', l', rw (e, add64_one l (omega arith)) c, omega arith)
      ]

  -- The rank `int(p * float64(n - 1))` of a percentile among `n` outcomes is an index.
  abbrev pub IsRank : ℕ → F → Type 0
  IsRank n p = (i : ℕ) × (d.to_int (p *F d.of_int (sub64 (pos n) (pos 1))) ≡ pos i) × (i < n)

  interpolate-total :
      (xs : List F) (n : ℕ) (p : F)
      → suc n ≡ length xs
      → suc n < 2 ^ 63
      → IsRank (suc n) p
      → (x : F) × (interpolate xs (pos (suc n)) p ≡ ok x)
  unfolding interpolate
  interpolate-total xs n p l b (i, e, r) =
      let last = element_total xs n (omega arith) in
      elim (Bool-cases (leb_ℤ (pos (suc n)) (pos (suc i)))) [
        | inl c ↦ (last.0, rw (e, add64_one i (omega arith), c, sub64_one n b) last.1)
        | inr c ↦
            let low = element_total xs i (omega arith) in
            let high = element_total xs (suc i) (ground arith) in
            let idx = p *F d.of_int (sub64 (pos (suc n)) (pos 1)) in
            (
              low.0 +F (idx -F d.of_int (pos i)) *F (high.0 -F low.0),
              rw (e, add64_one i (omega arith), c, low.1, high.1) refl,
            )
      ]

  compute_percentile-total :
      (xs : List F) (p : F)
      → length xs < 2 ^ 63
      → IsRank (length xs) p
      → (x : F) × (compute_percentile xs p ≡ ok x)
  unfolding compute_percentile
  compute_percentile-total [] p b r = (_, refl)
  compute_percentile-total (x ∷ []) p b r = (_, refl)
  compute_percentile-total (x ∷ y ∷ rest) p b r =
      interpolate-total (x ∷ y ∷ rest) (suc (length rest)) p refl b r

  sort_floats-length : (xs : List F) → length (sort_floats xs) ≡ length xs
  unfolding sort_floats
  sort_floats-length xs = length-perm (sort_slice-perm float_less xs)

  -- The counts of an aggregate of `n` trades.
  pub record Counts (n : ℕ) (agg : StrategyAggregate F) : Type 0 where
    pub total : agg.total_trades ≡ pos n
    pub wins : ℕ
    pub losses : ℕ
    pub wins_eq : agg.wins ≡ pos wins
    pub losses_eq : agg.losses ≡ pos losses
    pub adds_up : wins + losses ≡ n

  compute_quantiles-total :
      (n : ℕ) (sorted : List F)
      → length sorted ≡ suc n
      → suc n < 2 ^ 63
      → All (λ k. IsRank (suc n) (d.literal (pos k) 2)) (50 ∷ 10 ∷ 25 ∷ 75 ∷ 90 ∷ [])
      → (q : Quantiles F) × (compute_quantiles (pos (suc n)) sorted ≡ ok q)
  unfolding compute_quantiles
  compute_quantiles-total n sorted size b ranks =
      let rank : (k : ℕ)
          → IsRank (suc n) (d.literal (pos k) 2)
          → (x : F) × (compute_percentile sorted (d.literal (pos k) 2) ≡ ok x) =
        λ k r.
          compute_percentile-total sorted (d.literal (pos k) 2) (omega arith)
            (subst (λ m. IsRank m (d.literal (pos k) 2)) (sym size) r) in
      let median = rank 50 ranks.0 in
      let p10 = rank 10 ranks.1.0 in
      let p25 = rank 25 ranks.1.1.0 in
      let p75 = rank 75 ranks.1.1.1.0 in
      let p90 = rank 90 ranks.1.1.1.1.0 in
      let least = element_total sorted 0 (omega arith) in
      let greatest = element_total sorted n (omega arith) in
      (
        record {
          median = median.0;
          p10 = p10.0;
          p25 = p25.0;
          p75 = p75.0;
          p90 = p90.0;
          least = least.0;
          greatest = greatest.0;
        },
        rw (median.1, p10.1, p25.1, p75.1, p90.1, least.1, sub64_one n b, greatest.1) refl,
      )

  aggregate_sorted-total :
      (n : ℕ) (ts : List (TradeRecord F)) (entry_event_type : String)
      → length ts ≡ suc n
      → suc n < 2 ^ 63
      → All (λ k. IsRank (suc n) (d.literal (pos k) 2)) (50 ∷ 10 ∷ 25 ∷ 75 ∷ 90 ∷ [])
      → (agg : StrategyAggregate F) × (aggregate_sorted (pos (suc n)) ts entry_event_type ≡ ok agg)
        × Counts (suc n) agg
  unfolding aggregate_sorted
  aggregate_sorted-total n ts entry_event_type l b ranks =
      let sorted = sort_floats (outcomes_of ts) in
      let size : length sorted ≡ suc n =
        sort_floats-length (outcomes_of ts) ∙ length-map (λ t. t.outcome) ts ∙ l in
      let (q, e) = compute_quantiles-total n sorted size b ranks in
      let (w, m, c, s) = count_outcomes-total 0 0 ts (omega arith) in
      (
        assemble (pos (suc n)) ts entry_event_type q,
        rw e refl,
        record {
          total = refl;
          wins = w;
          losses = m;
          wins_eq = ap (λ r. r.0) c;
          losses_eq = ap (λ r. r.1) c;
          adds_up = omega arith;
        },
      )

  -- A non-empty set of fewer than 2^63 trades has an aggregate, no index is out of range, where the
  -- ranks of the five percentiles are indices; it counts all trades, and its wins and losses add up
  -- to them.
  pub compute_from_trades_total :
      (t : TradeRecord F) (ts : List (TradeRecord F)) (entry_event_type : String)
      → suc (length ts) < 2 ^ 63
      → All (λ k. IsRank (suc (length ts)) (d.literal (pos k) 2)) (50 ∷ 10 ∷ 25 ∷ 75 ∷ 90 ∷ [])
      → (agg : StrategyAggregate F) × (compute_from_trades (t ∷ ts) entry_event_type ≡ ok agg)
        × Counts (suc (length ts)) agg
  unfolding compute_from_trades
  compute_from_trades_total t ts entry_event_type b ranks =
      let (agg, e, counts) =
        aggregate_sorted-total (length ts) (sort_trades (t ∷ ts)) entry_event_type
          (sort_trades-length (t ∷ ts)) b ranks in
      (agg, rw (suc_nonzero (length ts)) e, counts)
