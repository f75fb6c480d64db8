-- ===== src/Normalization/Volume.antt =====
-- internal/normalization/volume_timeseries.go: the volume in intervals of a fixed length.
pub mod Buckets
pub mod Series
use Prim.Native.String.{compare as compare_text}
use solana_token_lab.Base.{
  ℕ, zero, suc, ◌*◌, Ordering, Bool, ◌&&◌, List, [], ◌∷◌, ◌++◌, String, same_text, if◌then◌else◌,
}
use solana_token_lab.Base.Int.{ℤ, pos, eq_ℤ, leb_ℤ, add64, mul64, quot_ℤ, compare_ℤ}
use solana_token_lab.Base.ThreeWay.{then_by}
use solana_token_lab.Base.Sort.{sort_slice, less_of}
use solana_token_lab.Float64.{Float64, ◌+F◌, whole}
use solana_token_lab.Domain.{Swap, VolumeTimeseriesPoint, swap_side_buy, swap_side_sell}

abbrev pub volume_interval_1min : ℕ
volume_interval_1min = 60

abbrev pub volume_interval_5min : ℕ
volume_interval_5min = 300

abbrev pub volume_interval_1hour : ℕ
volume_interval_1hour = 3600

-- `(timestamp / intervalMs) * intervalMs`: Go's quotient rounds towards zero.
unfoldable pub interval_start : ℕ → ℤ → ℤ
unfolding mul64 quot_ℤ
interval_start interval_ms timestamp = mul64 (quot_ℤ timestamp interval_ms) (pos interval_ms)

module _ {F : Type 0} ⦃d : Float64 F⦄ where
  abbrev pub new_bucket : ℕ → String → ℤ → VolumeTimeseriesPoint F
  new_bucket interval_seconds candidate_id start = record {
    candidate_id = candidate_id;
    timestamp_ms = start;
    interval_seconds = pos interval_seconds;
    volume = whole 0;
    swap_count = pos 0;
    buy_volume = whole 0;
    sell_volume = whole 0;
  }

  -- One swap taken into its bucket.
  unfoldable pub aggregate_volume : VolumeTimeseriesPoint F → Swap F → VolumeTimeseriesPoint F
  unfolding add64
  aggregate_volume point s =
      let counted = record point {
        volume = point.volume +F s.amount_out;
        swap_count = add64 point.swap_count (pos 1);
      } in
      if same_text s.side swap_side_buy
      then record counted { buy_volume = point.buy_volume +F s.amount_out }
      else if same_text s.side swap_side_sell
      then record counted { sell_volume = point.sell_volume +F s.amount_out }
      else counted

  -- The bucket of a candidate and an interval.
  abbrev pub is_bucket : String → ℤ → VolumeTimeseriesPoint F → Bool
  is_bucket candidate_id start point =
      same_text point.candidate_id candidate_id && eq_ℤ point.timestamp_ms start

  -- The two levels of maps as one list of points, in the order of their first swaps.
  unfoldable pub add_to_bucket :
      ℕ → ℤ → Swap F → List (VolumeTimeseriesPoint F) → List (VolumeTimeseriesPoint F)
  unfolding aggregate_volume
  add_to_bucket interval_seconds start s [] =
      aggregate_volume (new_bucket interval_seconds s.candidate_id start) s ∷ []
  add_to_bucket interval_seconds start s (point ∷ points) =
      let later = add_to_bucket interval_seconds start s points in
      if is_bucket s.candidate_id start point
      then aggregate_volume point s ∷ points
      else point ∷ later

  unfoldable pub fill_buckets :
      ℕ → List (VolumeTimeseriesPoint F) → List (Swap F) → List (VolumeTimeseriesPoint F)
  unfolding add_to_bucket interval_start
  fill_buckets interval_seconds points [] = points
  fill_buckets interval_seconds points (s ∷ ss) =
      fill_buckets interval_seconds
        (add_to_bucket interval_seconds (interval_start (interval_seconds * 1000) s.timestamp) s
          points)
        ss

  unfoldable pub compare_volume_points :
      VolumeTimeseriesPoint F → VolumeTimeseriesPoint F → Ordering
  compare_volume_points =
      then_by (λ a b. compare_text a.candidate_id b.candidate_id)
        (λ a b. compare_ℤ a.timestamp_ms b.timestamp_ms)

  -- The interval is a number of seconds whose milliseconds fit into an int64. One that is not positive
  -- gives no points: a negative one is taken as 0 here.
  unfoldable pub generate_volume_timeseries : List (Swap F) → ℕ → List (VolumeTimeseriesPoint F)
  unfolding fill_buckets sort_slice compare_volume_points
  generate_volume_timeseries [] interval_seconds = []
  generate_volume_timeseries (s ∷ ss) zero = []
  generate_volume_timeseries (s ∷ ss) (suc n) =
      sort_slice (less_of compare_volume_points) (fill_buckets (suc n) [] (s ∷ ss))

  unfoldable pub generate_all_volume_timeseries : List (Swap F) → List (VolumeTimeseriesPoint F)
  unfolding generate_volume_timeseries
  generate_all_volume_timeseries swaps =
      generate_volume_timeseries swaps volume_interval_1min
      ++ generate_volume_timeseries swaps volume_interval_5min
      ++ generate_volume_timeseries swaps volume_interval_1hour
