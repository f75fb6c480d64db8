-- ===== src/Normalization/Features/Before.antt =====
-- The liquidity event before a time, internal/normalization/derived_features.go: the binary search over
-- the sorted timestamps of a candidate.
use mathlib.Core.List.{Memᴰ, Permᴰ}
use mathlib.Core.List.Permᴰ
use solana_token_lab.Base.{
  ◌≡◌, ◌⊎◌, ℕ, Bool, false, List, map, Option, none, some, String, same_text,
}
use solana_token_lab.Base.Int.{ℤ, sub64, leb_ℤ, ◌<ℤ◌, ◌≤ℤ◌}
use solana_token_lab.Base.Lists.{get_elem?, keep, All, AllPairs}
use solana_token_lab.Float64.{Float64}
use solana_token_lab.Domain.{DerivedFeaturePoint, LiquidityTimeseriesPoint}

-- What a search for the time before a target is to find among some times.
abbrev pub LatestBefore : List ℤ → ℤ → Option ℤ → Type 0
LatestBefore ts target found =
    ((found ≡ none) × All (λ u. target ≤ℤ u) ts)
    ⊎ ((t : ℤ) × (found ≡ some t) × Memᴰ t ts × (t <ℤ target) × All (λ u. u <ℤ target → u ≤ℤ t) ts)

module _ (ts : List ℤ) (target : ℤ) (sorted : AllPairs (λ a b. a ≤ℤ b) ts) where
  -- The test of the search.
  abbrev from_target : ℕ → Bool
  from_target i = elim (get_elem? ts i) [ none ↦ false | some t ↦ leb_ℤ target t ]

-- The timestamps of a candidate, sorted.
module _ {F : Type 0} where
  abbrev pub times_of : String → List (LiquidityTimeseriesPoint F) → List ℤ
  times_of candidate_id ls =
      map (λ l. l.timestamp_ms) (keep (λ l. same_text l.candidate_id candidate_id) ls)

  -- What a row says of the liquidity event before it.
  abbrev pub IntervalSince : List (LiquidityTimeseriesPoint F) → DerivedFeaturePoint F → Type 0
  IntervalSince ls row =
      (found : Option ℤ) × LatestBefore (times_of row.candidate_id ls) row.timestamp_ms found
      × (row.last_liq_event_interval_ms
          ≡ elim found [ none ↦ none | some t ↦ some (sub64 row.timestamp_ms t) ])
