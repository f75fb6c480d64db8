-- ===== src/Storage/Liquidity.antt =====
-- internal/storage/memory/liquidity_timeseries_store.go: the liquidity series of the candidates.
use solana_token_lab.Base.{
  Bool, true, not, ◌&&◌, List, [], ◌∷◌, Option, String, same_text, if◌then◌else◌,
}
use solana_token_lab.Base.Int.{ℤ, pos, leb_ℤ, ltb_ℤ, compare_ℤ}
use solana_token_lab.Base.Text.{concat, decimal}
use solana_token_lab.Base.Sort.{less_of}
use solana_token_lab.Result.{Result}
use solana_token_lab.Domain.{LiquidityTimeseriesPoint}
use solana_token_lab.Storage.Keyed
use solana_token_lab.Storage.Keyed.{Entries, find, query, select}

abbrev pub LiquidityTimeseriesStore : Type 0 → Type 0
LiquidityTimeseriesStore F = Entries (LiquidityTimeseriesPoint F)

unfoldable pub liquidity_ts_key : String → ℤ → String
unfolding concat decimal
liquidity_ts_key candidate_id timestamp_ms = concat (candidate_id ∷ "|" ∷ decimal timestamp_ms ∷ [])

module _ {F : Type 0} where
  abbrev pub new_liquidity_timeseries_store : LiquidityTimeseriesStore F
  new_liquidity_timeseries_store = []

  abbrev pub key_of : LiquidityTimeseriesPoint F → String
  key_of p = liquidity_ts_key p.candidate_id p.timestamp_ms

  abbrev pub is_valid : LiquidityTimeseriesPoint F → Bool
  is_valid v = not (same_text v.candidate_id "")

  unfoldable pub insert_bulk :
      List (Option (LiquidityTimeseriesPoint F))
      → LiquidityTimeseriesStore F
      → Result (Unit {0}) × (LiquidityTimeseriesStore F)
  unfolding Keyed.insert_bulk
  insert_bulk = Keyed.insert_bulk key_of is_valid

  -- The order of the results.
  abbrev pub by_time : LiquidityTimeseriesPoint F → LiquidityTimeseriesPoint F → Bool
  by_time = less_of λ a b. compare_ℤ a.timestamp_ms b.timestamp_ms

  unfoldable pub get_by_candidate_id :
      String → LiquidityTimeseriesStore F → List (LiquidityTimeseriesPoint F)
  unfolding query
  get_by_candidate_id candidate_id = query by_time λ p. same_text p.candidate_id candidate_id

  unfoldable pub get_by_time_range :
      String → ℤ → ℤ → LiquidityTimeseriesStore F → List (LiquidityTimeseriesPoint F)
  unfolding query
  get_by_time_range candidate_id start end_time = query by_time λ p.
      same_text p.candidate_id candidate_id
      && leb_ℤ start p.timestamp_ms
      && leb_ℤ p.timestamp_ms end_time

  -- The first value, or the next one, taken into the least and the greatest timestamp so far.
  unfoldable pub widen : ℤ → ℤ → List (LiquidityTimeseriesPoint F) → ℤ × ℤ
  widen min_ts max_ts [] = (min_ts, max_ts)
  widen min_ts max_ts (p ∷ ps) =
      widen (if ltb_ℤ p.timestamp_ms min_ts then p.timestamp_ms else min_ts)
        (if ltb_ℤ max_ts p.timestamp_ms then p.timestamp_ms else max_ts) ps

  unfoldable pub range_of : List (LiquidityTimeseriesPoint F) → ℤ × ℤ
  unfolding widen
  range_of [] = (pos 0, pos 0)
  range_of (p ∷ ps) = widen p.timestamp_ms p.timestamp_ms ps

  unfoldable pub get_global_time_range : LiquidityTimeseriesStore F → ℤ × ℤ
  unfolding range_of select
  get_global_time_range s = range_of (select (λ p. true) s)
