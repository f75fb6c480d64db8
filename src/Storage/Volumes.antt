-- ===== src/Storage/Volumes.antt =====
-- internal/storage/memory/volume_timeseries_store.go: the volume series of the candidates.
use solana_token_lab.Base.{Bool, not, ◌&&◌, List, [], ◌∷◌, Option, String, same_text}
use solana_token_lab.Base.Int.{ℤ, leb_ℤ, compare_ℤ}
use solana_token_lab.Base.Text.{concat, decimal}
use solana_token_lab.Base.ThreeWay.{then_by}
use solana_token_lab.Base.Sort.{less_of}
use solana_token_lab.Result.{Result}
use solana_token_lab.Domain.{VolumeTimeseriesPoint}
use solana_token_lab.Storage.Keyed
use solana_token_lab.Storage.Keyed.{Entries, find, query}

abbrev pub VolumeTimeseriesStore : Type 0 → Type 0
VolumeTimeseriesStore F = Entries (VolumeTimeseriesPoint F)

unfoldable pub volume_key : String → ℤ → ℤ → String
unfolding concat decimal
volume_key candidate_id timestamp_ms interval_seconds =
    concat (candidate_id ∷ "|" ∷ decimal timestamp_ms ∷ "|" ∷ decimal interval_seconds ∷ [])

module _ {F : Type 0} where
  abbrev pub new_volume_timeseries_store : VolumeTimeseriesStore F
  new_volume_timeseries_store = []

  abbrev pub key_of : VolumeTimeseriesPoint F → String
  key_of p = volume_key p.candidate_id p.timestamp_ms p.interval_seconds

  abbrev pub is_valid : VolumeTimeseriesPoint F → Bool
  is_valid v = not (same_text v.candidate_id "")

  unfoldable pub insert_bulk :
      List (Option (VolumeTimeseriesPoint F))
      → VolumeTimeseriesStore F
      → Result (Unit {0}) × (VolumeTimeseriesStore F)
  unfolding Keyed.insert_bulk
  insert_bulk = Keyed.insert_bulk key_of is_valid

  -- The order of the results.
  abbrev pub by_time : VolumeTimeseriesPoint F → VolumeTimeseriesPoint F → Bool
  by_time = less_of (
      then_by (λ a b. compare_ℤ a.timestamp_ms b.timestamp_ms)
        (λ a b. compare_ℤ a.interval_seconds b.interval_seconds))

  unfoldable pub get_by_candidate_id :
      String → VolumeTimeseriesStore F → List (VolumeTimeseriesPoint F)
  unfolding query
  get_by_candidate_id candidate_id = query by_time λ p. same_text p.candidate_id candidate_id

  unfoldable pub get_by_time_range :
      String → ℤ → ℤ → VolumeTimeseriesStore F → List (VolumeTimeseriesPoint F)
  unfolding query
  get_by_time_range candidate_id start end_time = query by_time λ p.
      same_text p.candidate_id candidate_id
      && leb_ℤ start p.timestamp_ms
      && leb_ℤ p.timestamp_ms end_time
