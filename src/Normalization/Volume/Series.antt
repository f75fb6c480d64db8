-- ===== src/Normalization/Volume/Series.antt =====
-- The order of the volume series: it does not depend on the order in which Go reads the maps of
-- internal/normalization/volume_timeseries.go.
use Prim.Native.String.{compare as compare_text}
use mathlib.Core.List.{Permᴰ}
use mathlib.Core.List.Permᴰ
use text.Mathlib.TextEquality.{path_by_compare}
use solana_token_lab.Base.{
  ℕ, suc, ◌*◌, ◌≡◌, sym, ◌&&◌, Bool-cases, false, inl, inr, ◌⊎◌, List, [], ◌∷◌, String, same_text,
  same_text_iff, Ordering, arith,
}
use solana_token_lab.Base.Int.{ℤ, eq_ℤ, ◌<ℤ◌}
use solana_token_lab.Base.Lists.{All, AllPairs, AllPairs-imp}
use solana_token_lab.Base.ThreeWay.{
  IsThreeWay, then_by-IsThreeWay, on-IsThreeWay, compare_ℤ-IsThreeWay, compare_text-IsThreeWay,
}
use solana_token_lab.Base.Sort.{
  sort_slice, less_of, less_of-IsStrictWeak, Apart, Apart-iff, Before, sort_slice-Before,
  sort_slice-perm, sort_slice-eq_of_perm,
}
use solana_token_lab.Float64.{Float64}
use solana_token_lab.Domain.{Swap, VolumeTimeseriesPoint, swap_side_buy, swap_side_sell}
use solana_token_lab.Normalization.Volume.{
  interval_start, new_bucket, aggregate_volume, is_bucket, add_to_bucket, fill_buckets,
  compare_volume_points, generate_volume_timeseries,
}

module _ {F : Type 0} ⦃d : Float64 F⦄ where
  compare_volume_points-IsThreeWay : IsThreeWay (compare_volume_points {F = F})
  unfolding compare_volume_points
  compare_volume_points-IsThreeWay =
      then_by-IsThreeWay
        (on-IsThreeWay (λ (p : VolumeTimeseriesPoint F). p.candidate_id) compare_text-IsThreeWay)
        (on-IsThreeWay (λ (p : VolumeTimeseriesPoint F). p.timestamp_ms) compare_ℤ-IsThreeWay)

  -- Two buckets of different candidates or intervals.
  abbrev Different : VolumeTimeseriesPoint F → VolumeTimeseriesPoint F → Type 0
  Different a b = is_bucket b.candidate_id b.timestamp_ms a ≡ false

  Different→Apart :
      (a b : VolumeTimeseriesPoint F) → Different a b → Apart (less_of compare_volume_points) a b
  unfolding compare_volume_points
  Different→Apart a b h = (Apart-iff compare_volume_points-IsThreeWay a b).1 λ e.
      let same = path_by_compare a.candidate_id b.candidate_id (ground arith) in
      let named = (same_text_iff a.candidate_id b.candidate_id).1 same in ground arith

  -- A swap does not change the name of its bucket.
  aggregate-names :
      (P : String → ℤ → Type 0) (p : VolumeTimeseriesPoint F) (s : Swap F)
      → P p.candidate_id p.timestamp_ms
      → P (aggregate_volume p s).candidate_id (aggregate_volume p s).timestamp_ms
  unfolding aggregate_volume
  aggregate-names P p s h = elim (Bool-cases (same_text s.side swap_side_buy)) [
    | inl e ↦ rw e h
    | inr e ↦ elim (Bool-cases (same_text s.side swap_side_sell)) [
      | inl k ↦ rw (e, k) h
      | inr k ↦ rw (e, k) h
    ]
  ]

  -- What holds of the names of the buckets and of that of the swap, holds of those after it.
  All-add_to_bucket :
      (P : String → ℤ → Type 0) (n : ℕ) (start : ℤ) (s : Swap F)
      (ps : List (VolumeTimeseriesPoint F))
      → P s.candidate_id start
      → All (λ (p : VolumeTimeseriesPoint F). P p.candidate_id p.timestamp_ms) ps
      → All
          (λ (p : VolumeTimeseriesPoint F). P p.candidate_id p.timestamp_ms)
          (add_to_bucket n start s ps)
  unfolding add_to_bucket
  All-add_to_bucket P n start s [] h hs =
      (aggregate-names P (new_bucket n s.candidate_id start) s h, tt)
  All-add_to_bucket P n start s (p ∷ ps) h (k, hs) =
      elim (Bool-cases (is_bucket s.candidate_id start p)) [
        | inl e ↦ rw e (aggregate-names P p s k, hs)
        | inr e ↦ rw e (k, All-add_to_bucket P n start s ps h hs)
      ]

  add_to_bucket-Different :
      (n : ℕ) (start : ℤ) (s : Swap F) (ps : List (VolumeTimeseriesPoint F))
      → AllPairs Different ps
      → AllPairs Different (add_to_bucket n start s ps)
  unfolding add_to_bucket
  add_to_bucket-Different n start s [] h = (tt, tt)
  add_to_bucket-Different n start s (p ∷ ps) (h, hs) =
      elim (Bool-cases (is_bucket s.candidate_id start p)) [
        | inl e ↦ rw e (
          aggregate-names
              (λ c t.
                All
                  (λ (q : VolumeTimeseriesPoint F).
                    same_text c q.candidate_id && eq_ℤ t q.timestamp_ms ≡ false)
                  ps)
              p s h,
          hs,
        )
        | inr e ↦ rw e (
          All-add_to_bucket (λ c t. is_bucket c t p ≡ false) n start s ps e h,
          add_to_bucket-Different n start s ps hs,
        )
      ]

  fill_buckets-Different :
      (n : ℕ) (ps : List (VolumeTimeseriesPoint F)) (ss : List (Swap F))
      → AllPairs Different ps
      → AllPairs Different (fill_buckets n ps ss)
  unfolding fill_buckets
  fill_buckets-Different n ps [] h = h
  fill_buckets-Different n ps (s ∷ ss) h =
      let start = interval_start (n * 1000) s.timestamp in
      fill_buckets-Different n (add_to_bucket n start s ps) ss
        (add_to_bucket-Different n start s ps h)

  -- In the order of candidates and, for one candidate, of time.
  abbrev pub Ascending : VolumeTimeseriesPoint F → VolumeTimeseriesPoint F → Type 0
  Ascending a b =
      (compare_text a.candidate_id b.candidate_id ≡ Ordering.lt)
      ⊎ ((a.candidate_id ≡ b.candidate_id) × (a.timestamp_ms <ℤ b.timestamp_ms))

  Before→Ascending :
      (a b : VolumeTimeseriesPoint F) → Before (less_of compare_volume_points) a b → Ascending a b
  unfolding compare_volume_points
  Before→Ascending a b h =
      let same = path_by_compare a.candidate_id b.candidate_id in ground (arith, same)

  -- The volume series of an interval has the points of its buckets in strictly ascending order of candidate
  -- and time; and in whatever order the maps give the buckets out, sorting them by candidate and time
  -- gives that series.
  pub generate_volume_timeseries_ascends :
      (n : ℕ) (swaps : List (Swap F))
      → let series = generate_volume_timeseries swaps (suc n) in
        let buckets = fill_buckets (suc n) [] swaps in
        AllPairs Ascending series
        × Permᴰ series buckets
        × ((given : List (VolumeTimeseriesPoint F))
            → Permᴰ given buckets
            → sort_slice (less_of compare_volume_points) given ≡ series)
  unfolding generate_volume_timeseries fill_buckets
  generate_volume_timeseries_ascends n [] = (
    tt,
    Permᴰ.nil,
    λ given p. sym (
        sort_slice-eq_of_perm (less_of compare_volume_points)
          (less_of-IsStrictWeak compare_volume_points-IsThreeWay) (Permᴰ.symm p) tt),
  )
  generate_volume_timeseries_ascends n (s ∷ ss) =
      let buckets = fill_buckets (suc n) [] (s ∷ ss) in
      let less = less_of compare_volume_points in
      let weak = less_of-IsStrictWeak compare_volume_points-IsThreeWay in
      let apart =
        AllPairs-imp Different (Apart less) Different→Apart buckets
          (fill_buckets-Different (suc n) [] (s ∷ ss) tt) in
      (
        AllPairs-imp (Before less) Ascending Before→Ascending _
            (sort_slice-Before less weak buckets apart),
        sort_slice-perm less buckets,
        λ given p. sym (sort_slice-eq_of_perm less weak (Permᴰ.symm p) apart),
      )
