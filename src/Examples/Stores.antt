-- ===== src/Examples/Stores.antt =====
-- Inserts into the in-memory stores, and reads of a price series.
use mathlib.Core.List.{Permᴰ}
use solana_token_lab.Base.{◌≡◌, refl, ◌⊎◌, [], ◌∷◌, map, none, some}
use solana_token_lab.Base.Int.{pos}
use solana_token_lab.Base.Lists.{AllPairs}
use solana_token_lab.Base.Sort.{Before}
use solana_token_lab.Result.{ok, err, Error}
use solana_token_lab.Float64.Micros.{Micros}
use solana_token_lab.Domain.{PriceTimeseriesPoint}
use solana_token_lab.Storage.Keyed.{insert, insert_bulk}
use solana_token_lab.Storage.Keyed.Inserts.{
  insert_all, outcome, insert_bulk-insert_all, Inserting, insert_cases, IsConsistent,
  inserts-IsConsistent,
}
use solana_token_lab.Storage.Prices.{
  PriceTimeseriesStore, price_key, key_of, is_valid, by_time, get_by_candidate_id,
  get_by_time_range, get_global_time_range,
}
use solana_token_lab.Storage.Prices.Reads.{
  reads_deterministic, Bounds, get_global_time_range-Bounds,
}
use solana_token_lab.Examples.Samples.{price_at_time}

abbrev early : PriceTimeseriesPoint Micros
early = price_at_time (pos 10) (pos 3)

abbrev late : PriceTimeseriesPoint Micros
late = price_at_time (pos 20) (pos 4)

-- A store with one point, and one with both.
abbrev one_point : PriceTimeseriesStore Micros
one_point = ("c|20", late) ∷ []

abbrev both_points : PriceTimeseriesStore Micros
both_points = ("c|20", late) ∷ ("c|10", early) ∷ []

insert_bulk_run : insert_bulk key_of is_valid (some early ∷ []) one_point ≡ (ok tt, both_points)
unfolding insert_bulk price_key
insert_bulk_run = refl

insert_bulk_refused :
    insert_bulk key_of is_valid (some early ∷ some early ∷ []) one_point
    ≡ (err Error.duplicate_key, one_point)
unfolding insert_bulk price_key
insert_bulk_refused = refl

insert_bulk-insert_all_example :
    insert_bulk key_of is_valid (some early ∷ some early ∷ []) one_point
    ≡ outcome key_of is_valid one_point
        (insert_all key_of is_valid (some early ∷ some early ∷ []) one_point)
insert_bulk-insert_all_example =
    insert_bulk-insert_all key_of is_valid (some early ∷ some early ∷ []) one_point

insert_cases_example :
    ((some early ≡ none)
      × (insert key_of is_valid (some early) one_point ≡ (err Error.invalid_input, one_point)))
    ⊎ ((v : PriceTimeseriesPoint Micros) × (some early ≡ some v)
        × Inserting key_of is_valid v one_point)
insert_cases_example = insert_cases key_of is_valid (some early) one_point

one_point-IsConsistent : IsConsistent key_of is_valid one_point
unfolding price_key
one_point-IsConsistent = record { keyed = ((refl, refl), tt); distinct = (tt, tt) }

inserts-IsConsistent_example :
    IsConsistent key_of is_valid (insert key_of is_valid (some late) one_point).1
    × IsConsistent key_of is_valid (insert_bulk key_of is_valid (some early ∷ []) one_point).1
inserts-IsConsistent_example =
    inserts-IsConsistent key_of is_valid (some late) (some early ∷ []) one_point
      one_point-IsConsistent

both_points-IsConsistent : IsConsistent key_of is_valid both_points
unfolding price_key
both_points-IsConsistent = record {
  keyed = ((refl, refl), ((refl, refl), tt));
  distinct = ((refl, tt), (tt, tt));
}

reads_deterministic_example :
    ((get_by_candidate_id "c" both_points ≡ get_by_candidate_id "c" (("c|10", early) ∷ one_point))
      × AllPairs (Before by_time) (get_by_candidate_id "c" both_points))
    × (get_by_time_range "c" (pos 10) (pos 15) both_points
        ≡ get_by_time_range "c" (pos 10) (pos 15) (("c|10", early) ∷ one_point))
    × AllPairs (Before by_time) (get_by_time_range "c" (pos 10) (pos 15) both_points)
reads_deterministic_example =
    reads_deterministic "c" (pos 10) (pos 15) {s = both_points} {s' = ("c|10", early) ∷ one_point}
      both_points-IsConsistent (Permᴰ.swap refl refl)

get_global_time_range_run : get_global_time_range both_points ≡ (pos 10, pos 20)
unfolding get_global_time_range
get_global_time_range_run = refl

get_global_time_range-Bounds_example :
    ((both_points ≡ []) × (get_global_time_range both_points ≡ (pos 0, pos 0)))
    ⊎ Bounds (map (λ e. e.1) both_points) (get_global_time_range both_points)
get_global_time_range-Bounds_example = get_global_time_range-Bounds both_points
