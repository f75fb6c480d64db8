-- ===== src/Normalization/Timeseries/Aggregates.antt =====
-- What the points of the time series hold: the last values and the totals of maximal runs of events
-- with one candidate and one timestamp.
use mathlib.Core.List.{foldl}
use mathlib.Core.Path.{ap₂}
use solana_token_lab.Base.{
  ℕ, suc, ◌+◌, ◌^◌, ◌≤◌, ◌<◌, ◌≡◌, refl, ap, ◌∙◌, Bool, ◌&&◌, List, [], ◌∷◌, map, arith, same_text,
}
use solana_token_lab.Base.Lists.{All, All-imp, length, length-append}
use solana_token_lab.Base.Int.{pos, eq_ℤ, add64_one}
use solana_token_lab.Float64.{Float64, ◌+F◌}
use solana_token_lab.Domain.{Swap, LiquidityEvent, PriceTimeseriesPoint, LiquidityTimeseriesPoint}
use solana_token_lab.Normalization.Runs.{
  Run, runs, elements, IsUniform, Breaks, elements-runs, runs-IsUniform, runs-Breaks, collect-runs,
}
use solana_token_lab.Normalization.Timeseries.{
  start_price, continues_price, aggregate_price, generate_price_timeseries, start_liquidity,
  continues_liquidity, aggregate_liquidity, generate_liquidity_timeseries,
}

-- The last element of a run.
abbrev pub last_of : {A : Type 0} → A → List A → A
last_of a [] = a
last_of a (x ∷ xs) = last_of x xs

grow :
    {A : Type 0} (rs : List (Run A)) (m n : ℕ)
    → m ≤ n
    → All (λ (r : Run A). suc (length r.1) ≤ m) rs
    → All (λ (r : Run A). suc (length r.1) ≤ n) rs
grow rs m n e h =
    All-imp (λ (r : Run _). suc (length r.1) ≤ m) (λ (r : Run _). suc (length r.1) ≤ n)
      (λ r k. omega arith) rs h

run_short :
    {A : Type 0} (rs : List (Run A))
    → All (λ (r : Run A). suc (length r.1) ≤ length (elements rs)) rs
run_short [] = tt
run_short ((a, rest) ∷ rs) =
    let both = length-append (a ∷ rest) (elements rs) in
    (
      omega (arith, both),
      grow rs (length (elements rs)) (length (elements ((a, rest) ∷ rs))) (omega (arith, both))
          (run_short rs),
    )

map_congr :
    {A B : Type 0} (P : A → Type 0) (f g : A → B)
    → ((a : A) → P a → f a ≡ g a)
    → (xs : List A) → All P xs
    → map f xs ≡ map g xs
map_congr P f g h [] k = refl
map_congr P f g h (x ∷ xs) (k, ks) = ap₂ ◌∷◌ (h x k) (map_congr P f g h xs ks)

map_pointwise :
    {A B : Type 0} (f g : A → B) → ((a : A) → f a ≡ g a) → (xs : List A) → map f xs ≡ map g xs
map_pointwise f g h [] = refl
map_pointwise f g h (x ∷ xs) = ap₂ ◌∷◌ (h x) (map_pointwise f g h xs)

module _ {F : Type 0} ⦃d : Float64 F⦄ where
  -- One candidate and one timestamp.
  abbrev pub same_price : Swap F → Swap F → Bool
  same_price a b = same_text a.candidate_id b.candidate_id && eq_ℤ a.timestamp b.timestamp

  abbrev pub sum_amounts : F → List (Swap F) → F
  sum_amounts = foldl λ v s. v +F s.amount_out

  abbrev counted : Swap F → Swap F → F → ℕ → PriceTimeseriesPoint F
  counted a s v n = record {
    candidate_id = a.candidate_id;
    timestamp_ms = a.timestamp;
    slot = s.slot;
    price = s.price;
    volume = v;
    swap_count = pos n;
  }

  -- The point of a run: price and slot of its last swap, the sum of the amounts in their order, the
  -- number of swaps.
  abbrev pub price_point : Run (Swap F) → PriceTimeseriesPoint F
  price_point (a, rest) =
      counted a (last_of a rest) (sum_amounts a.amount_out rest) (suc (length rest))

  foldl-aggregate_price :
      (a s : Swap F) (v : F) (n : ℕ) (rest : List (Swap F))
      → n + length rest < 2 ^ 63
      → foldl aggregate_price (counted a s v n) rest
        ≡ counted a (last_of s rest) (sum_amounts v rest) (n + length rest)
  unfolding aggregate_price
  foldl-aggregate_price a s v n [] b = ap (counted a s v) (omega arith)
  foldl-aggregate_price a s v n (x ∷ xs) b = rw (add64_one n (omega arith)) (
      foldl-aggregate_price a x (v +F x.amount_out) (suc n) xs (omega arith)
      ∙ ap (counted a (last_of x xs) (sum_amounts (v +F x.amount_out) xs)) (omega arith))

  -- Of fewer than 2^63 swaps the price series has one point for each maximal run of consecutive
  -- swaps with one candidate and one timestamp, in order: the runs put together are the swaps, every
  -- swap of a run has the candidate and the timestamp of its first, neighbouring runs differ in one
  -- of these; and the point of a run holds the price and the slot of its last swap, the sum of its
  -- output amounts and the number of its swaps.
  pub generate_price_timeseries-runs :
      (swaps : List (Swap F))
      → length swaps < 2 ^ 63
      → (rs : List (Run (Swap F))) × (elements rs ≡ swaps)
        × All (IsUniform same_price) rs
        × Breaks same_price rs
        × (generate_price_timeseries swaps ≡ map price_point rs)
  unfolding generate_price_timeseries aggregate_price
  generate_price_timeseries-runs swaps b =
      let rs = runs same_price swaps in
      let cut = elements-runs same_price swaps in
      (
        rs,
        cut,
        runs-IsUniform same_price swaps,
        runs-Breaks same_price swaps,
        collect-runs start_price continues_price aggregate_price same_price (λ a x. refl)
              (λ p a x. refl) swaps
            ∙ map_congr (λ (r : Run (Swap F)). suc (length r.1) ≤ length (elements rs)) _
                price_point
                (λ r k.
                  foldl-aggregate_price r.0 r.0 r.0.amount_out 1 r.1
                    (let e : length (elements rs) ≡ length swaps = ap length cut in omega arith)
                  ∙ ap (counted r.0 (last_of r.0 r.1) (sum_amounts r.0.amount_out r.1))
                      (omega arith))
                rs (run_short rs),
      )

module _ {F : Type 0} where
  abbrev pub same_liquidity : LiquidityEvent F → LiquidityEvent F → Bool
  same_liquidity a b = same_text a.candidate_id b.candidate_id && eq_ℤ a.timestamp b.timestamp

  -- The point of a run: the values of its last event.
  abbrev pub liquidity_point : Run (LiquidityEvent F) → LiquidityTimeseriesPoint F
  liquidity_point (a, rest) = record (start_liquidity (last_of a rest)) {
    candidate_id = a.candidate_id;
    timestamp_ms = a.timestamp;
  }

  abbrev standing : LiquidityEvent F → LiquidityEvent F → LiquidityTimeseriesPoint F
  standing a e = record (start_liquidity e) {
    candidate_id = a.candidate_id;
    timestamp_ms = a.timestamp;
  }

  foldl-aggregate_liquidity :
      (a e : LiquidityEvent F) (rest : List (LiquidityEvent F))
      → foldl aggregate_liquidity (standing a e) rest ≡ standing a (last_of e rest)
  unfolding aggregate_liquidity
  foldl-aggregate_liquidity a e [] = refl
  foldl-aggregate_liquidity a e (x ∷ xs) = foldl-aggregate_liquidity a x xs

  -- The liquidity series has one point for each maximal run of consecutive events with one candidate
  -- and one timestamp, in order, and that point holds the values of the run's last event.
  pub generate_liquidity_timeseries-runs :
      (events : List (LiquidityEvent F))
      → (rs : List (Run (LiquidityEvent F))) × (elements rs ≡ events)
        × All (IsUniform same_liquidity) rs
        × Breaks same_liquidity rs
        × (generate_liquidity_timeseries events ≡ map liquidity_point rs)
  unfolding generate_liquidity_timeseries aggregate_liquidity
  generate_liquidity_timeseries-runs events =
      let rs = runs same_liquidity events in
      (
        rs,
        elements-runs same_liquidity events,
        runs-IsUniform same_liquidity events,
        runs-Breaks same_liquidity events,
        collect-runs start_liquidity continues_liquidity aggregate_liquidity same_liquidity
              (λ a x. refl) (λ p a x. refl) events
            ∙ map_pointwise _ liquidity_point (λ r. foldl-aggregate_liquidity r.0 r.0 r.1) rs,
      )
