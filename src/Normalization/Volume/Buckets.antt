-- ===== src/Normalization/Volume/Buckets.antt =====
-- What a bucket of the volume series holds: the sums over the swaps of one candidate in one interval.
use mathlib.Core.Path.{ap₂}
use solana_token_lab.Base.{
  ℕ, ◌*◌, ◌≡◌, ap, refl, sym, ◌∙◌, Bool, true, false, Bool-cases, ◌&&◌, inl, inr, List, [], ◌∷◌,
  Option, none, some, String, same_text, same_text_iff, if◌then◌else◌, arith,
}
use solana_token_lab.Base.Int.{ℤ, pos, add64, mul64, quot_ℤ, eq_ℤ, eq_of_parts}
use solana_token_lab.Float64.{Float64, ◌+F◌, whole}
use solana_token_lab.Domain.{Swap, VolumeTimeseriesPoint, swap_side_buy, swap_side_sell}
use solana_token_lab.Normalization.Volume.{
  interval_start, new_bucket, aggregate_volume, is_bucket, add_to_bucket, fill_buckets,
}

eq_ℤ_eq : (a b : ℤ) → eq_ℤ a b ≡ true → a ≡ b
eq_ℤ_eq a b h = eq_of_parts a b (ground arith)

-- The test whether two names of a bucket are the same.
abbrev same_bucket : String → ℤ → String → ℤ → Bool
same_bucket a u c t = same_text a c && eq_ℤ u t

same_bucket_eq :
    (a : String) (u : ℤ) (c : String) (t : ℤ) → same_bucket a u c t ≡ true → (a ≡ c) × (u ≡ t)
same_bucket_eq a u c t h = ((same_text_iff a c).0 (ground arith), eq_ℤ_eq u t (ground arith))

module _ {F : Type 0} ⦃d : Float64 F⦄ where
  -- The bucket of a candidate and an interval in a list of points.
  abbrev pub bucket_of :
      String → ℤ → List (VolumeTimeseriesPoint F) → Option (VolumeTimeseriesPoint F)
  bucket_of c t [] = none
  bucket_of c t (p ∷ ps) = let rest = bucket_of c t ps in if is_bucket c t p then some p else rest

  -- The swap is one of a candidate whose time, rounded towards zero to a multiple of the interval, is the given.
  abbrev pub in_bucket : ℕ → String → ℤ → Swap F → Bool
  in_bucket n c t s =
      same_text s.candidate_id c && eq_ℤ (mul64 (quot_ℤ s.timestamp (n * 1000)) (pos (n * 1000))) t

  abbrev pub filter : (Swap F → Bool) → List (Swap F) → List (Swap F)
  filter test [] = []
  filter test (s ∷ ss) = let rest = filter test ss in if test s then s ∷ rest else rest

  -- The amounts added up from left to right, and the count of an int.
  abbrev pub sum_amounts : F → List (Swap F) → F
  sum_amounts x [] = x
  sum_amounts x (s ∷ ss) = sum_amounts (x +F s.amount_out) ss

  abbrev pub count_swaps : ℤ → List (Swap F) → ℤ
  count_swaps k [] = k
  count_swaps k (s ∷ ss) = count_swaps (add64 k (pos 1)) ss

  abbrev pub is_buy : Swap F → Bool
  is_buy s = same_text s.side "buy"

  abbrev pub is_sell : Swap F → Bool
  is_sell s = same_text s.side "sell"

  -- A bucket with the sums of more swaps.
  abbrev summed : VolumeTimeseriesPoint F → List (Swap F) → VolumeTimeseriesPoint F
  summed p ss = record p {
    volume = sum_amounts p.volume ss;
    swap_count = count_swaps p.swap_count ss;
    buy_volume = sum_amounts p.buy_volume (filter is_buy ss);
    sell_volume = sum_amounts p.sell_volume (filter is_sell ss);
  }

  -- The point of some swaps; without any there is none.
  abbrev pub point_of : ℕ → String → ℤ → List (Swap F) → Option (VolumeTimeseriesPoint F)
  point_of n c t [] = none
  point_of n c t (s ∷ ss) = some (record {
    candidate_id = c;
    timestamp_ms = t;
    interval_seconds = pos n;
    volume = sum_amounts (whole 0) (s ∷ ss);
    swap_count = count_swaps (pos 0) (s ∷ ss);
    buy_volume = sum_amounts (whole 0) (filter is_buy (s ∷ ss));
    sell_volume = sum_amounts (whole 0) (filter is_sell (s ∷ ss));
  })

  -- A bucket, empty where there is none, with one more swap.
  abbrev grown :
      ℕ → String → ℤ → Option (VolumeTimeseriesPoint F) → Swap F → VolumeTimeseriesPoint F
  grown n c t none s = aggregate_volume (new_bucket n c t) s
  grown n c t (some p) s = aggregate_volume p s

  -- The totals of the swaps of a bucket, in their order.
  abbrev totals :
      ℕ
      → String
      → ℤ
      → Option (VolumeTimeseriesPoint F)
      → List (Swap F)
      → Option (VolumeTimeseriesPoint F)
  totals n c t o [] = o
  totals n c t o (s ∷ ss) =
      let taken = totals n c t (some (grown n c t o s)) ss in
      let passed = totals n c t o ss in if in_bucket n c t s then taken else passed

  is_bucket-aggregate_volume :
      (c : String) (t : ℤ) (p : VolumeTimeseriesPoint F) (s : Swap F)
      → is_bucket c t (aggregate_volume p s) ≡ is_bucket c t p
  unfolding aggregate_volume
  is_bucket-aggregate_volume c t p s = elim (Bool-cases (same_text s.side swap_side_buy)) [
    | inl e ↦ rw e refl
    | inr e ↦ elim (Bool-cases (same_text s.side swap_side_sell)) [
      | inl k ↦ rw (e, k) refl
      | inr k ↦ rw (e, k) refl
    ]
  ]

  bucket_of-add_to_bucket :
      (n : ℕ) (c : String) (t start : ℤ) (s : Swap F) (ps : List (VolumeTimeseriesPoint F))
      → bucket_of c t (add_to_bucket n start s ps) ≡ (
          if same_bucket s.candidate_id start c t
          then some (grown n c t (bucket_of c t ps) s)
          else bucket_of c t ps)
  unfolding add_to_bucket
  bucket_of-add_to_bucket n c t start s [] =
      rw (is_bucket-aggregate_volume c t (new_bucket n s.candidate_id start) s)
        (elim (Bool-cases (same_bucket s.candidate_id start c t)) [
          | inl e ↦
              let (a, b) = same_bucket_eq s.candidate_id start c t e in
              rw e (ap₂ (λ x y. some (aggregate_volume (new_bucket n x y) s)) a b)
          | inr e ↦ rw e refl
        ])
  bucket_of-add_to_bucket n c t start s (p ∷ ps) =
      elim (Bool-cases (is_bucket s.candidate_id start p)) [
        | inl h ↦
            let (a, b) = same_bucket_eq p.candidate_id p.timestamp_ms s.candidate_id start h in
            let k : same_bucket s.candidate_id start c t ≡ is_bucket c t p =
              ap₂ (λ x y. same_bucket x y c t) (sym a) (sym b) in
            rw (h, is_bucket-aggregate_volume c t p s, k)
              (elim (Bool-cases (is_bucket c t p)) [ inl e ↦ rw e refl | inr e ↦ rw e refl ])
        | inr h ↦
            let later = bucket_of-add_to_bucket n c t start s ps in
            rw (h, later)
              (elim (Bool-cases (same_bucket s.candidate_id start c t)) [
                | inl e ↦
                    let (a, b) = same_bucket_eq s.candidate_id start c t e in
                    let k : is_bucket c t p ≡ false =
                      ap₂ (λ x y. is_bucket x y p) (sym a) (sym b) ∙ h in
                    rw (e, k) refl
                | inr e ↦ rw e refl
              ])
      ]

  bucket_of-fill_totals :
      (n : ℕ) (c : String) (t : ℤ) (ps : List (VolumeTimeseriesPoint F)) (ss : List (Swap F))
      → bucket_of c t (fill_buckets n ps ss) ≡ totals n c t (bucket_of c t ps) ss
  unfolding fill_buckets interval_start
  bucket_of-fill_totals n c t ps [] = refl
  bucket_of-fill_totals n c t ps (s ∷ ss) =
      let start = interval_start (n * 1000) s.timestamp in
      bucket_of-fill_totals n c t (add_to_bucket n start s ps) ss
      ∙ (rw (bucket_of-add_to_bucket n c t start s ps)
          (elim (Bool-cases (in_bucket n c t s)) [ inl e ↦ rw e refl | inr e ↦ rw e refl ]))

  summed-aggregate_volume :
      (p : VolumeTimeseriesPoint F) (s : Swap F) (ss : List (Swap F))
      → summed (aggregate_volume p s) ss ≡ summed p (s ∷ ss)
  unfolding aggregate_volume
  summed-aggregate_volume p s ss = elim (Bool-cases (is_buy s)) [
    | inl e ↦ elim (Bool-cases (is_sell s)) [
      | inl k ↦
          let buy = (same_text_iff s.side "buy").0 e in
          let sell = (same_text_iff s.side "sell").0 k in absurd cc
      | inr k ↦ rw (e, k) refl
    ]
    | inr e ↦ elim (Bool-cases (is_sell s)) [ inl k ↦ rw (e, k) refl | inr k ↦ rw (e, k) refl ]
  ]

  totals-summed :
      (n : ℕ) (c : String) (t : ℤ) (p : VolumeTimeseriesPoint F) (ss : List (Swap F))
      → totals n c t (some p) ss ≡ some (summed p (filter (in_bucket n c t) ss))
  totals-summed n c t p [] = refl
  totals-summed n c t p (s ∷ ss) = elim (Bool-cases (in_bucket n c t s)) [
    | inr e ↦ rw e (totals-summed n c t p ss)
    | inl e ↦ rw e (
        totals-summed n c t (aggregate_volume p s) ss
        ∙ ap some (summed-aggregate_volume p s (filter (in_bucket n c t) ss)))
  ]

  totals-point_of :
      (n : ℕ) (c : String) (t : ℤ) (ss : List (Swap F))
      → totals n c t none ss ≡ point_of n c t (filter (in_bucket n c t) ss)
  totals-point_of n c t [] = refl
  totals-point_of n c t (s ∷ ss) = elim (Bool-cases (in_bucket n c t s)) [
    | inr e ↦ rw e (totals-point_of n c t ss)
    | inl e ↦ rw e (
        totals-summed n c t (aggregate_volume (new_bucket n c t) s) ss
        ∙ ap some (summed-aggregate_volume (new_bucket n c t) s (filter (in_bucket n c t) ss)))
  ]

  -- The buckets that the swaps leave: there is one for a candidate and an interval exactly if a swap of that
  -- candidate has its time, rounded towards zero, there; it holds the sum of the amounts of all these swaps in their
  -- order, their number, and the sums over those that buy and those that sell, and nothing of any
  -- other swap.
  pub bucket_of-fill_buckets :
      (n : ℕ) (c : String) (t : ℤ) (ss : List (Swap F))
      → bucket_of c t (fill_buckets n [] ss) ≡ point_of n c t (filter (in_bucket n c t) ss)
  bucket_of-fill_buckets n c t ss = bucket_of-fill_totals n c t [] ss ∙ totals-point_of n c t ss
