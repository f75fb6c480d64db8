-- ===== src/Normalization/Runner.antt =====
-- internal/normalization/engine.go and runner.go: the series and features of a candidate, from its stored
-- events into the stores of internal/storage/memory.
pub mod Again
use solana_token_lab.Base.{List, [], ◌∷◌, map, Option, some, String}
use solana_token_lab.Result.{Result, ok, err}
use solana_token_lab.Float64.{Float64}
use solana_token_lab.Domain.{Swap, LiquidityEvent}
use solana_token_lab.Storage.Swaps
use solana_token_lab.Storage.Swaps.{SwapStore}
use solana_token_lab.Storage.LiquidityEvents
use solana_token_lab.Storage.LiquidityEvents.{LiquidityEventStore}
use solana_token_lab.Storage.Prices
use solana_token_lab.Storage.Prices.{PriceTimeseriesStore}
use solana_token_lab.Storage.Liquidity
use solana_token_lab.Storage.Liquidity.{LiquidityTimeseriesStore}
use solana_token_lab.Storage.Volumes
use solana_token_lab.Storage.Volumes.{VolumeTimeseriesStore}
use solana_token_lab.Storage.Features
use solana_token_lab.Storage.Features.{DerivedFeatureStore}
use solana_token_lab.Normalization.Ordering.{sort_swaps, sort_liquidity_events}
use solana_token_lab.Normalization.Timeseries.{
  generate_price_timeseries, generate_liquidity_timeseries,
}
use solana_token_lab.Normalization.Volume.{generate_all_volume_timeseries}
use solana_token_lab.Normalization.Features.{compute_derived_features}

pub record Runner (F : Type 0) : Type 0 where
  pub swap_store : SwapStore F
  pub liquidity_store : LiquidityEventStore F
  pub price_timeseries_store : PriceTimeseriesStore F
  pub liquidity_timeseries_store : LiquidityTimeseriesStore F
  pub volume_timeseries_store : VolumeTimeseriesStore F
  pub derived_feature_store : DerivedFeatureStore F

-- `if len(points) > 0 { store.InsertBulk(points) }`
unfoldable pub store_points :
    {P S : Type 0}
    → (List (Option P) → S → Result (Unit {0}) × S)
    → List P
    → S
    → Result (Unit {0}) × S
store_points insert_bulk [] s = (ok tt, s)
store_points insert_bulk (p ∷ ps) s = insert_bulk (map some (p ∷ ps)) s

-- `if err != nil { return err }`, and the rest from the stores as they are then.
abbrev pub and_then :
    {S : Type 0} → Result (Unit {0}) × S → (S → Result (Unit {0}) × S) → Result (Unit {0}) × S
and_then (err e, s) rest = (err e, s)
and_then (ok done, s) rest = rest s

module _ {F : Type 0} where
  abbrev pub new_runner :
      SwapStore F
      → LiquidityEventStore F
      → PriceTimeseriesStore F
      → LiquidityTimeseriesStore F
      → VolumeTimeseriesStore F
      → DerivedFeatureStore F
      → Runner F
  new_runner swap_store liquidity_store price_ts liquidity_ts volume_ts derived_fs = record {
    swap_store = swap_store;
    liquidity_store = liquidity_store;
    price_timeseries_store = price_ts;
    liquidity_timeseries_store = liquidity_ts;
    volume_timeseries_store = volume_ts;
    derived_feature_store = derived_fs;
  }

  -- The events of a candidate in their order.
  unfoldable pub swaps_of : String → Runner F → List (Swap F)
  unfolding sort_swaps Swaps.get_by_candidate_id
  swaps_of candidate_id r = sort_swaps (Swaps.get_by_candidate_id candidate_id r.swap_store)

  unfoldable pub liquidity_events_of : String → Runner F → List (LiquidityEvent F)
  unfolding sort_liquidity_events LiquidityEvents.get_by_candidate_id
  liquidity_events_of candidate_id r =
      sort_liquidity_events (LiquidityEvents.get_by_candidate_id candidate_id r.liquidity_store)

  module _ ⦃d : Float64 F⦄ where
    -- The steps 3 to 6, each with the store that it fills.
    unfoldable pub store_prices : List (Swap F) → Runner F → Result (Unit {0}) × Runner F
    unfolding store_points generate_price_timeseries Prices.insert_bulk
    store_prices swaps r =
        let (e, s) =
          store_points Prices.insert_bulk (generate_price_timeseries swaps)
            r.price_timeseries_store in
        (e, record r { price_timeseries_store = s })

    unfoldable pub store_liquidity :
        List (LiquidityEvent F) → Runner F → Result (Unit {0}) × Runner F
    unfolding store_points generate_liquidity_timeseries Liquidity.insert_bulk
    store_liquidity events r =
        let (e, s) =
          store_points Liquidity.insert_bulk (generate_liquidity_timeseries events)
            r.liquidity_timeseries_store in
        (e, record r { liquidity_timeseries_store = s })

    unfoldable pub store_volumes : List (Swap F) → Runner F → Result (Unit {0}) × Runner F
    unfolding store_points generate_all_volume_timeseries Volumes.insert_bulk
    store_volumes swaps r =
        let (e, s) =
          store_points Volumes.insert_bulk (generate_all_volume_timeseries swaps)
            r.volume_timeseries_store in
        (e, record r { volume_timeseries_store = s })

    unfoldable pub store_features :
        List (Swap F) → List (LiquidityEvent F) → Runner F → Result (Unit {0}) × Runner F
    unfolding store_points compute_derived_features generate_price_timeseries
        generate_liquidity_timeseries Features.insert_bulk
    store_features swaps events r =
        let (e, s) =
          store_points Features.insert_bulk
            (compute_derived_features (generate_price_timeseries swaps)
              (generate_liquidity_timeseries events))
            r.derived_feature_store in
        (e, record r { derived_feature_store = s })

    -- Steps 5 and 6, and 4 to 6.
    unfoldable pub store_derived :
        List (Swap F) → List (LiquidityEvent F) → Runner F → Result (Unit {0}) × Runner F
    unfolding store_volumes store_features
    store_derived swaps events r = and_then (store_volumes swaps r) (store_features swaps events)

    unfoldable pub store_rest :
        List (Swap F) → List (LiquidityEvent F) → Runner F → Result (Unit {0}) × Runner F
    unfolding store_liquidity store_derived
    store_rest swaps events r = and_then (store_liquidity events r) (store_derived swaps events)

    unfoldable pub normalize_candidate : String → Runner F → Result (Unit {0}) × Runner F
    unfolding swaps_of liquidity_events_of store_prices store_rest
    normalize_candidate candidate_id r =
        and_then (store_prices (swaps_of candidate_id r) r)
          (store_rest (swaps_of candidate_id r) (liquidity_events_of candidate_id r))

    unfoldable pub normalize_batch : List String → Runner F → Result (Unit {0}) × Runner F
    unfolding normalize_candidate
    normalize_batch [] r = (ok tt, r)
    normalize_batch (candidate_id ∷ ids) r =
        let (e, r') = normalize_candidate candidate_id r in
        elim e [ err failure ↦ (err failure, r') | ok done ↦ normalize_batch ids r' ]
