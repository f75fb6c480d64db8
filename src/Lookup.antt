-- ===== src/Lookup.antt =====
-- internal/lookup/timeseries.go: the price and the liquidity at a time.
pub mod Laws
use solana_token_lab.Base.{◌≡◌, Bool, List, [], ◌∷◌, Option, none, some, if◌then◌else◌}
use solana_token_lab.Base.Int.{ℤ, leb_ℤ}
use solana_token_lab.Result.{Result, ok, err, no_price_data, no_liquidity_data}
use solana_token_lab.Domain.{PriceTimeseriesPoint, LiquidityTimeseriesPoint}

-- `for i := len(xs) - 1; i >= 0; i--` up to the first element that passes the test: the last one
-- of the list that does.
pub last_such {ℓ} : {A : Type ℓ} → (A → Bool) → List A → Option A
last_such test [] = none
last_such test (x ∷ xs) = elim (last_such test xs) [
  | some y ↦ some y
  | none ↦ if test x then some x else none
]

module _ {F : Type 0} where
  unfoldable pub price_at : ℤ → List (PriceTimeseriesPoint F) → Result F
  unfolding last_such
  price_at target [] = err no_price_data
  price_at target (p ∷ ps) =
      elim (last_such (λ (q : PriceTimeseriesPoint F). leb_ℤ q.timestamp_ms target) (p ∷ ps)) [
        | some q ↦ ok q.price
        | none ↦ ok p.price
      ]

  unfoldable pub liquidity_at : ℤ → List (LiquidityTimeseriesPoint F) → Result (Option F)
  unfolding last_such
  liquidity_at target [] = err no_liquidity_data
  liquidity_at target (p ∷ ps) =
      elim (last_such (λ (q : LiquidityTimeseriesPoint F). leb_ℤ q.timestamp_ms target) (p ∷ ps)) [
        | some q ↦ ok (some q.liquidity)
        | none ↦ ok none
      ]
