-- ===== src/Normalization/Runner/Again.antt =====
-- A second normalization of a candidate, internal/normalization/runner.go.
use mathlib.Core.Path.{subst}
use solana_token_lab.Base.{
  ◌≡◌, refl, sym, ap, ◌∙◌, inl, inr, Bool, ◌<◌, Bool-cases, List, [], ◌∷◌, ◌++◌, map, some, String,
  arith,
}
use solana_token_lab.Base.Lists.{length, length-append}
use solana_token_lab.Result.{Result, ok, err, Error}
use solana_token_lab.Float64.{Float64}
use solana_token_lab.Domain.{Swap, LiquidityEvent, PriceTimeseriesPoint}
use solana_token_lab.Storage.Keyed.Again.{insert_bulk_again}
use solana_token_lab.Storage.Prices
use solana_token_lab.Storage.Prices.{PriceTimeseriesStore}
use solana_token_lab.Storage.Swaps
use solana_token_lab.Normalization.Ordering.{sort_swaps}
use solana_token_lab.Normalization.Runs.{collect}
use solana_token_lab.Normalization.Timeseries.{
  start_price, continues_price, aggregate_price, generate_price_timeseries,
}
use solana_token_lab.Normalization.Runner.{
  Runner, store_points, and_then, swaps_of, liquidity_events_of, store_prices, store_liquidity,
  store_volumes, store_features, store_derived, store_rest, normalize_candidate,
}

-- What every step keeps, the chain keeps; and a chain without an error has had none at its start.
and_then_keeps :
    {S X : Type 0} (part : S → X) (a : Result (Unit {0}) × S) (rest : S → Result (Unit {0}) × S)
    → ((s : S) → part (rest s).1 ≡ part s)
    → part (and_then a rest).1 ≡ part a.1
and_then_keeps part (err e, s) rest h = refl
and_then_keeps part (ok tt, s) rest h = h s

and_then_ok :
    {S : Type 0} (a : Result (Unit {0}) × S) (rest : S → Result (Unit {0}) × S)
    → (and_then a rest).0 ≡ ok tt
    → a.0 ≡ ok tt
and_then_ok (err e, s) rest h = h
and_then_ok (ok tt, s) rest h = refl

-- The loop of the series ends with more points than it began with.
collect_grows :
    {A P : Type 0} (start : A → P) (continues : P → A → Bool) (update : P → A → P) (result : List P)
    (current : P) (xs : List A)
    → length result < length (collect start continues update result (some current) xs)
unfolding collect
collect_grows start continues update result current [] =
    let longer = length-append result (current ∷ []) in omega arith
collect_grows start continues update result current (x ∷ xs) =
    elim (Bool-cases (continues current x)) [
      | inl e ↦ rw e (collect_grows start continues update result (update current x) xs)
      | inr e ↦
          let longer = length-append result (current ∷ []) in
          let rest = collect_grows start continues update (result ++ (current ∷ [])) (start x) xs in
          rw e (omega arith)
    ]

module _ {F : Type 0} ⦃d : Float64 F⦄ where
  prices_some : (swaps : List (Swap F)) → ¬ (swaps ≡ []) → ¬ (generate_price_timeseries swaps ≡ [])
  unfolding generate_price_timeseries collect
  prices_some [] n e = n refl
  prices_some (s ∷ swaps) n e =
      let grows =
        collect_grows start_price continues_price aggregate_price [] (start_price s) swaps in
      let same = ap length e in omega arith

  points_again :
      (points : List (PriceTimeseriesPoint F))
      → ¬ (points ≡ [])
      → (m : PriceTimeseriesStore F) → (store_points Prices.insert_bulk points m).0 ≡ ok tt
      → store_points Prices.insert_bulk points (store_points Prices.insert_bulk points m).1
        ≡ (err Error.duplicate_key, (store_points Prices.insert_bulk points m).1)
  unfolding store_points Prices.insert_bulk
  points_again [] n m h = absurd (n refl)
  points_again (p ∷ ps) n m h =
      insert_bulk_again Prices.key_of Prices.is_valid p (map some ps) m _
        (ap (λ t. (t, (Prices.insert_bulk (map some (p ∷ ps)) m).1)) h)

  -- The price series that the first step has stored is refused from then on.
  store_prices_again :
      (swaps : List (Swap F)) (r s : Runner F)
      → ¬ (swaps ≡ [])
      → (store_prices swaps r).0 ≡ ok tt
      → s.price_timeseries_store ≡ (store_prices swaps r).1.price_timeseries_store
      → store_prices swaps s ≡ (err Error.duplicate_key, s)
  unfolding store_prices store_points Prices.insert_bulk
  store_prices_again swaps r s n h e =
      let points = generate_price_timeseries swaps in
      let store = λ (m : PriceTimeseriesStore F). store_points Prices.insert_bulk points m in
      let again = points_again points (prices_some swaps n) r.price_timeseries_store h in
      let here : store s.price_timeseries_store
          ≡ (err Error.duplicate_key, s.price_timeseries_store) =
        subst (λ m. store m ≡ (err Error.duplicate_key, m)) (sym e) again in
      ap
        (λ (t : Result (Unit {0}) × PriceTimeseriesStore F).
          (t.0, record s { price_timeseries_store = t.1 }))
        here

  -- The later steps leave the price store and the events alone.
  rest_keeps :
      {X : Type 0} (part : Runner F → X) (swaps : List (Swap F)) (events : List (LiquidityEvent F))
      (r : Runner F)
      → ((s : Runner F) → part (store_liquidity events s).1 ≡ part s)
      → ((s : Runner F) → part (store_volumes swaps s).1 ≡ part s)
      → ((s : Runner F) → part (store_features swaps events s).1 ≡ part s)
      → part (store_rest swaps events r).1 ≡ part r
  unfolding store_rest store_derived
  rest_keeps part swaps events r a b c =
      and_then_keeps part (store_liquidity events r) (store_derived swaps events)
        (λ s. and_then_keeps part (store_volumes swaps s) (store_features swaps events) c ∙ b s)
      ∙ a r

  normalize_candidate-prices :
      (id : String) (r : Runner F)
      → (normalize_candidate id r).1.price_timeseries_store
        ≡ (store_prices (swaps_of id r) r).1.price_timeseries_store
  unfolding normalize_candidate store_liquidity store_volumes store_features
  normalize_candidate-prices id r =
      let prices = λ (s : Runner F). s.price_timeseries_store in
      and_then_keeps prices (store_prices (swaps_of id r) r)
        (store_rest (swaps_of id r) (liquidity_events_of id r))
        (λ s.
          rest_keeps prices (swaps_of id r) (liquidity_events_of id r) s (λ t. refl) (λ t. refl)
            (λ t. refl))

  normalize_candidate-swaps :
      (id : String) (r : Runner F) → (normalize_candidate id r).1.swap_store ≡ r.swap_store
  unfolding normalize_candidate store_prices store_liquidity store_volumes store_features
  normalize_candidate-swaps id r =
      let swaps = λ (s : Runner F). s.swap_store in
      and_then_keeps swaps (store_prices (swaps_of id r) r)
        (store_rest (swaps_of id r) (liquidity_events_of id r))
        (λ s.
          rest_keeps swaps (swaps_of id r) (liquidity_events_of id r) s (λ t. refl) (λ t. refl)
            (λ t. refl))

  swaps_of_store :
      (id : String) (r s : Runner F) → r.swap_store ≡ s.swap_store → swaps_of id r ≡ swaps_of id s
  unfolding swaps_of
  swaps_of_store id r s e = ap (λ t. sort_swaps (Swaps.get_by_candidate_id id t)) e

  -- A candidate that has swaps is normalized once: after a normalization without an error, the next one stops
  -- with the error of a duplicate key and leaves all stores as they are.
  pub normalize_candidate_once :
      (id : String) (r r' : Runner F)
      → ¬ (swaps_of id r ≡ [])
      → normalize_candidate id r ≡ (ok tt, r')
      → normalize_candidate id r' ≡ (err Error.duplicate_key, r')
  unfolding normalize_candidate
  normalize_candidate_once id r r' n h =
      let whole = normalize_candidate id r in
      let ends : r' ≡ whole.1 = sym (ap (λ t. t.1) h) in
      let first = and_then_ok (store_prices (swaps_of id r) r) _ (ap (λ t. t.0) h) in
      let swaps : swaps_of id r' ≡ swaps_of id r =
        swaps_of_store id r' r
          (ap (λ (t : Runner F). t.swap_store) ends ∙ normalize_candidate-swaps id r) in
      let prices =
        ap (λ (t : Runner F). t.price_timeseries_store) ends ∙ normalize_candidate-prices id r in
      let refused = store_prices_again (swaps_of id r) r r' n first prices in
      rw (swaps, refused) refl
