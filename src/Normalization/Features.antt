-- ===== src/Normalization/Features.antt =====
-- internal/normalization/derived_features.go: derivatives of the price and liquidity series. Go's maps from
-- candidates are association lists; those of the previous row of a candidate are one, of records, since
-- every row writes all of them.
pub mod Before
use Prim.Native.String.{compare as compare_text}
use solana_token_lab.Base.{
  ℕ, zero, suc, Bool, true, false, ◌&&◌, List, [], ◌∷◌, ◌++◌, Option, none, some, String, same_text,
  if◌then◌else◌,
}
use solana_token_lab.Base.Int.{ℤ, pos, sub64, ltb_ℤ, leb_ℤ, eq_ℤ, compare_ℤ}
use solana_token_lab.Base.Lists.{length, get_elem?}
use solana_token_lab.Base.ThreeWay.{then_by}
use solana_token_lab.Base.Search.{search}
use solana_token_lab.Base.Sort.{sort_slice, less_of}
use solana_token_lab.Float64.{Float64, ◌-F◌, ◌/F◌}
use solana_token_lab.Domain.{PriceTimeseriesPoint, LiquidityTimeseriesPoint, DerivedFeaturePoint}
use solana_token_lab.Storage.Keyed.{Entries, lookup, put}

-- The index of the first timestamp that is not before the target, and the one before it.
unfoldable pub find_prev_liquidity_event_timestamp : List ℤ → ℤ → Option ℤ
unfolding search
find_prev_liquidity_event_timestamp timestamps target =
    elim (search (length timestamps)
      λ i. elim (get_elem? timestamps i) [ none ↦ false | some t ↦ leb_ℤ target t ]) [
        | zero ↦ none
        | suc i ↦ get_elem? timestamps i
      ]

-- `result[id]`, which is nil for a candidate without timestamps.
unfoldable pub timestamps_of : String → Entries (List ℤ) → List ℤ
unfolding lookup
timestamps_of candidate_id m = elim (lookup candidate_id m) [ none ↦ [] | some ts ↦ ts ]

unfoldable pub sort_timestamps : Entries (List ℤ) → Entries (List ℤ)
unfolding sort_slice
sort_timestamps [] = []
sort_timestamps ((candidate_id, ts) ∷ m) =
    (candidate_id, sort_slice (less_of compare_ℤ) ts) ∷ sort_timestamps m

module _ {F : Type 0} where
  -- `lookup[key] = l`, by candidate and time.
  unfoldable pub put_liquidity :
      LiquidityTimeseriesPoint F
      → List (LiquidityTimeseriesPoint F)
      → List (LiquidityTimeseriesPoint F)
  put_liquidity l [] = l ∷ []
  put_liquidity l (m ∷ ms) =
      if same_text m.candidate_id l.candidate_id && eq_ℤ m.timestamp_ms l.timestamp_ms
      then l ∷ ms
      else m ∷ put_liquidity l ms

  unfoldable pub build_liquidity_lookup :
      List (LiquidityTimeseriesPoint F)
      → List (LiquidityTimeseriesPoint F)
      → List (LiquidityTimeseriesPoint F)
  unfolding put_liquidity
  build_liquidity_lookup built [] = built
  build_liquidity_lookup built (l ∷ ls) = build_liquidity_lookup (put_liquidity l built) ls

  unfoldable pub liquidity_of :
      String → ℤ → List (LiquidityTimeseriesPoint F) → Option (LiquidityTimeseriesPoint F)
  liquidity_of candidate_id timestamp [] = none
  liquidity_of candidate_id timestamp (l ∷ ls) =
      if same_text l.candidate_id candidate_id && eq_ℤ l.timestamp_ms timestamp
      then some l
      else liquidity_of candidate_id timestamp ls

  unfoldable pub append_timestamps :
      Entries (List ℤ) → List (LiquidityTimeseriesPoint F) → Entries (List ℤ)
  unfolding put timestamps_of
  append_timestamps m [] = m
  append_timestamps m (l ∷ ls) =
      append_timestamps
        (put l.candidate_id (timestamps_of l.candidate_id m ++ (l.timestamp_ms ∷ [])) m) ls

  unfoldable pub build_sorted_liquidity_timestamps :
      List (LiquidityTimeseriesPoint F) → Entries (List ℤ)
  unfolding append_timestamps sort_timestamps
  build_sorted_liquidity_timestamps liquidity_ts =
      sort_timestamps (append_timestamps [] liquidity_ts)

  -- The least timestamp of each candidate.
  unfoldable pub min_timestamps : Entries ℤ → List (PriceTimeseriesPoint F) → Entries ℤ
  unfolding lookup put
  min_timestamps m [] = m
  min_timestamps m (p ∷ ps) =
      min_timestamps
        (elim (lookup p.candidate_id m) [
          | none ↦ put p.candidate_id p.timestamp_ms m
          | some existing ↦
              if ltb_ℤ p.timestamp_ms existing then put p.candidate_id p.timestamp_ms m else m
        ])
        ps

  unfoldable pub sort_prices : List (PriceTimeseriesPoint F) → List (PriceTimeseriesPoint F)
  unfolding sort_slice
  sort_prices = sort_slice (
      less_of (
        then_by (λ a b. compare_text a.candidate_id b.candidate_id)
          (λ a b. compare_ℤ a.timestamp_ms b.timestamp_ms)))

-- What a row leaves for the next one of its candidate. A candidate without one is before its first row.
pub record Previous (F : Type 0) : Type 0 where
  pub price : F
  pub timestamp : ℤ
  pub velocity : Option F
  pub is_second : Bool

pub record PriceFeatures (F : Type 0) : Type 0 where
  pub last_swap_interval : Option ℤ
  pub price_delta : Option F
  pub price_velocity : Option F
  pub price_acceleration : Option F

module _ {F : Type 0} ⦃d : Float64 F⦄ where
  -- `delta / float64(timeDelta)`, where time has passed.
  abbrev pub rate : ℤ → F → Option F
  rate time_delta delta =
      if ltb_ℤ (pos 0) time_delta then some (delta /F d.of_int time_delta) else none

  -- The acceleration against the velocity of the row before, from the second row on.
  abbrev pub acceleration : Previous F → ℤ → Option F → Option F
  acceleration previous time_delta none = none
  acceleration previous time_delta (some velocity) = elim previous.velocity [
    | none ↦ none
    | some before ↦
        if previous.is_second then some ((velocity -F before) /F d.of_int time_delta) else none
  ]

  unfoldable pub price_features : Option (Previous F) → PriceTimeseriesPoint F → PriceFeatures F
  unfolding sub64
  price_features none p = record {
    last_swap_interval = none;
    price_delta = none;
    price_velocity = none;
    price_acceleration = none;
  }
  price_features (some previous) p =
      let time_delta = sub64 p.timestamp_ms previous.timestamp in
      let delta = p.price -F previous.price in
      let velocity = rate time_delta delta in
      record {
        last_swap_interval = some time_delta;
        price_delta = some delta;
        price_velocity = velocity;
        price_acceleration = acceleration previous time_delta velocity;
      }

  -- The updates of the maps.
  unfoldable pub next_previous :
      Option (Previous F) → PriceFeatures F → PriceTimeseriesPoint F → Previous F
  next_previous none f p = record {
    price = p.price;
    timestamp = p.timestamp_ms;
    velocity = none;
    is_second = false;
  }
  next_previous (some previous) f p = record {
    price = p.price;
    timestamp = p.timestamp_ms;
    velocity = elim f.price_velocity [ none ↦ previous.velocity | some v ↦ some v ];
    is_second = true;
  }

  -- The change of the liquidity since the event before, and its rate.
  unfoldable pub liquidity_features :
      List (LiquidityTimeseriesPoint F) → Option ℤ → PriceTimeseriesPoint F → Option F × Option F
  unfolding liquidity_of sub64
  liquidity_features lookup_table none p = (none, none)
  liquidity_features lookup_table (some before) p =
      elim (liquidity_of p.candidate_id p.timestamp_ms lookup_table) [
        | none ↦ (none, none)
        | some l ↦ elim (liquidity_of p.candidate_id before lookup_table) [
          | none ↦ (none, none)
          | some m ↦
              let delta = l.liquidity -F m.liquidity in
              (some delta, rate (sub64 p.timestamp_ms before) delta)
        ]
      ]

  -- One row.
  unfoldable pub feature_row :
      List (LiquidityTimeseriesPoint F)
      → Entries (List ℤ)
      → Entries ℤ
      → Option (Previous F)
      → PriceTimeseriesPoint F
      → DerivedFeaturePoint F
  unfolding price_features liquidity_features find_prev_liquidity_event_timestamp timestamps_of
      lookup sub64
  feature_row lookup_table timestamps least previous p =
      let f = price_features previous p in
      let before =
        find_prev_liquidity_event_timestamp (timestamps_of p.candidate_id timestamps)
          p.timestamp_ms in
      let l = liquidity_features lookup_table before p in
      record {
        candidate_id = p.candidate_id;
        timestamp_ms = p.timestamp_ms;
        price_delta = f.price_delta;
        price_velocity = f.price_velocity;
        price_acceleration = f.price_acceleration;
        liquidity_delta = l.0;
        liquidity_velocity = l.1;
        token_lifetime_ms =
            sub64 p.timestamp_ms (elim (lookup p.candidate_id least) [ none ↦ pos 0 | some t ↦ t ]);
        last_swap_interval_ms = f.last_swap_interval;
        last_liq_event_interval_ms = elim before [
          | none ↦ none
          | some t ↦ some (sub64 p.timestamp_ms t)
        ];
      }

  unfoldable pub feature_rows :
      List (LiquidityTimeseriesPoint F)
      → Entries (List ℤ)
      → Entries ℤ
      → Entries (Previous F)
      → List (PriceTimeseriesPoint F)
      → List (DerivedFeaturePoint F)
  unfolding feature_row next_previous price_features lookup put
  feature_rows lookup_table timestamps least previous [] = []
  feature_rows lookup_table timestamps least previous (p ∷ ps) =
      let before = lookup p.candidate_id previous in
      feature_row lookup_table timestamps least before p
      ∷ feature_rows lookup_table timestamps least
          (put p.candidate_id (next_previous before (price_features before p) p) previous) ps

  unfoldable pub compute_derived_features :
      List (PriceTimeseriesPoint F)
      → List (LiquidityTimeseriesPoint F)
      → List (DerivedFeaturePoint F)
  unfolding feature_rows sort_prices build_liquidity_lookup build_sorted_liquidity_timestamps
      min_timestamps
  compute_derived_features price_ts liquidity_ts =
      let sorted = sort_prices price_ts in
      feature_rows (build_liquidity_lookup [] liquidity_ts)
        (build_sorted_liquidity_timestamps liquidity_ts) (min_timestamps [] sorted) [] sorted
