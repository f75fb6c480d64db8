-- ===== src/Ingestion/Ordering/Canonical.antt =====
-- The validators of internal/ingestion/ordering.go accept one arrangement of a batch at most: what
-- its sort gives.
use mathlib.Core.List.{Permᴰ}
use solana_token_lab.Base.{◌≡◌, ◌↔◌, List, true, arith}
use solana_token_lab.Base.Lists.{AllPairs}
use solana_token_lab.Result.{ok, require, Error}
use solana_token_lab.Domain.{Swap, LiquidityEvent, SwapEvent}
use solana_token_lab.Position.{Elsewhere, ascends_iff}
use solana_token_lab.Ingestion.Ordering.{
  swap_position, liquidity_position, swap_event_position, sort_swaps, sort_liquidity_events,
  sort_swap_events, validate_swap_ordering, validate_liquidity_event_ordering,
  validate_swap_event_ordering,
}
use solana_token_lab.Base.{Bool}

require_iff : (b : Bool) (e : Error) → (require b e ≡ ok tt) ↔ (b ≡ true)
require_iff b e = (λ h. ground arith, λ h. ground arith)

iff_trans {ℓ κ μ} : {A : Type ℓ} {B : Type κ} {C : Type μ} → A ↔ B → B ↔ C → A ↔ C
iff_trans p q = (λ a. q.0 (p.0 a), λ c. p.1 (q.1 c))

module _ {F : Type 0} where
  -- For every arrangement `ys` of a batch of swaps: `ValidateSwapOrdering` accepts `ys` exactly when
  -- no two of its swaps stand at one position (slot, tx_signature, event_index) and `ys` is what
  -- `SortSwaps` makes of the batch.
  pub validate_swap_ordering_iff :
      {xs ys : List (Swap F)}
      → Permᴰ xs ys
      → (validate_swap_ordering ys ≡ ok tt)
        ↔ (AllPairs (Elsewhere swap_position) ys × (sort_swaps xs ≡ ys))
  unfolding validate_swap_ordering sort_swaps
  validate_swap_ordering_iff d = iff_trans (require_iff _ _) (ascends_iff swap_position d)

  -- For every arrangement `ys` of a batch of liquidity events: `ValidateLiquidityEventOrdering`
  -- accepts `ys` exactly when no two of its events stand at one position and `ys` is what
  -- `SortLiquidityEvents` makes of the batch.
  pub validate_liquidity_event_ordering_iff :
      {xs ys : List (LiquidityEvent F)}
      → Permᴰ xs ys
      → (validate_liquidity_event_ordering ys ≡ ok tt)
        ↔ (AllPairs (Elsewhere liquidity_position) ys × (sort_liquidity_events xs ≡ ys))
  unfolding validate_liquidity_event_ordering sort_liquidity_events
  validate_liquidity_event_ordering_iff d =
      iff_trans (require_iff _ _) (ascends_iff liquidity_position d)

  -- For every arrangement `ys` of a batch of swap events: `ValidateSwapEventOrdering` accepts `ys`
  -- exactly when no two of its events stand at one position and `ys` is what `SortSwapEvents` makes
  -- of the batch.
  pub validate_swap_event_ordering_iff :
      {xs ys : List (SwapEvent F)}
      → Permᴰ xs ys
      → (validate_swap_event_ordering ys ≡ ok tt)
        ↔ (AllPairs (Elsewhere swap_event_position) ys × (sort_swap_events xs ≡ ys))
  unfolding validate_swap_event_ordering sort_swap_events
  validate_swap_event_ordering_iff d =
      iff_trans (require_iff _ _) (ascends_iff swap_event_position d)
