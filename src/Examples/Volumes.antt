-- ===== src/Examples/Volumes.antt =====
-- The volume buckets of sample swaps.
use mathlib.Core.List.{Permᴰ}
use solana_token_lab.Base.Lists.{AllPairs}
use solana_token_lab.Base.Sort.{sort_slice, less_of}
use solana_token_lab.Base.{◌≡◌, refl, List, [], ◌∷◌, some}
use solana_token_lab.Base.Int.{pos, add64, mul64, quot_ℤ}
use solana_token_lab.Float64.Micros
use solana_token_lab.Float64.Micros.{Micros, micros_float64}
use solana_token_lab.Domain.{Swap, VolumeTimeseriesPoint}
use solana_token_lab.Normalization.Volume.{
  interval_start, fill_buckets, compare_volume_points, generate_volume_timeseries,
}
use solana_token_lab.Normalization.Volume.Buckets.{
  bucket_of, filter, in_bucket, point_of, bucket_of-fill_buckets,
}
use solana_token_lab.Normalization.Volume.Series.{Ascending, generate_volume_timeseries_ascends}
use solana_token_lab.Examples.Samples.{swap_at, units}

-- Two swaps in the second minute, one in the first.
abbrev swaps : List (Swap Micros)
swaps =
    swap_at (pos 1) "a" (pos 61_000) (pos 3)
    ∷ swap_at (pos 2) "b" (pos 59_000) (pos 3)
    ∷ swap_at (pos 3) "c" (pos 62_000) (pos 3)
    ∷ []

two_swaps :
    bucket_of "c" (pos 60_000) (fill_buckets 60 [] swaps)
    ≡ some (record {
      candidate_id = "c";
      timestamp_ms = pos 60_000;
      interval_seconds = pos 60;
      volume = units (pos 14);
      swap_count = pos 2;
      buy_volume = units (pos 14);
      sell_volume = units (pos 0);
    })
unfolding fill_buckets interval_start add64 mul64 quot_ℤ Micros.add Micros.literal
two_swaps = refl

bucket_of-fill_buckets_example :
    bucket_of "c" (pos 60_000) (fill_buckets 60 [] swaps)
    ≡ point_of 60 "c" (pos 60_000) (filter (in_bucket 60 "c" (pos 60_000)) swaps)
bucket_of-fill_buckets_example = bucket_of-fill_buckets 60 "c" (pos 60_000) swaps

generate_volume_timeseries_ascends_example :
    let series = generate_volume_timeseries swaps 60 in
    AllPairs Ascending series
    × Permᴰ series (fill_buckets 60 [] swaps)
    × ((given : List (VolumeTimeseriesPoint Micros))
        → Permᴰ given (fill_buckets 60 [] swaps)
        → sort_slice (less_of compare_volume_points) given ≡ series)
generate_volume_timeseries_ascends_example = generate_volume_timeseries_ascends 59 swaps
