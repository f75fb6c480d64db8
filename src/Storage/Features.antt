-- ===== src/Storage/Features.antt =====
-- internal/storage/memory/derived_feature_store.go: the derived features of the candidates.
use solana_token_lab.Base.{Bool, not, ◌&&◌, List, [], ◌∷◌, Option, String, same_text}
use solana_token_lab.Base.Int.{ℤ, leb_ℤ, compare_ℤ}
use solana_token_lab.Base.Text.{concat, decimal}
use solana_token_lab.Base.Sort.{less_of}
use solana_token_lab.Result.{Result}
use solana_token_lab.Domain.{DerivedFeaturePoint}
use solana_token_lab.Storage.Keyed
use solana_token_lab.Storage.Keyed.{Entries, find, query}

abbrev pub DerivedFeatureStore : Type 0 → Type 0
DerivedFeatureStore F = Entries (DerivedFeaturePoint F)

unfoldable pub derived_feature_key : String → ℤ → String
unfolding concat decimal
derived_feature_key candidate_id timestamp_ms =
    concat (candidate_id ∷ "|" ∷ decimal timestamp_ms ∷ [])

module _ {F : Type 0} where
  abbrev pub new_derived_feature_store : DerivedFeatureStore F
  new_derived_feature_store = []

  abbrev pub key_of : DerivedFeaturePoint F → String
  key_of p = derived_feature_key p.candidate_id p.timestamp_ms

  abbrev pub is_valid : DerivedFeaturePoint F → Bool
  is_valid v = not (same_text v.candidate_id "")

  unfoldable pub insert_bulk :
      List (Option (DerivedFeaturePoint F))
      → DerivedFeatureStore F
      → Result (Unit {0}) × (DerivedFeatureStore F)
  unfolding Keyed.insert_bulk
  insert_bulk = Keyed.insert_bulk key_of is_valid

  -- The order of the results.
  abbrev pub by_time : DerivedFeaturePoint F → DerivedFeaturePoint F → Bool
  by_time = less_of λ a b. compare_ℤ a.timestamp_ms b.timestamp_ms

  unfoldable pub get_by_candidate_id : String → DerivedFeatureStore F → List (DerivedFeaturePoint F)
  unfolding query
  get_by_candidate_id candidate_id = query by_time λ p. same_text p.candidate_id candidate_id

  unfoldable pub get_by_time_range :
      String → ℤ → ℤ → DerivedFeatureStore F → List (DerivedFeaturePoint F)
  unfolding query
  get_by_time_range candidate_id start end_time = query by_time λ p.
      same_text p.candidate_id candidate_id
      && leb_ℤ start p.timestamp_ms
      && leb_ℤ p.timestamp_ms end_time
