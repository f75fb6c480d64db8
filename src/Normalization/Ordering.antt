-- ===== src/Normalization/Ordering.antt =====
-- internal/normalization/ordering.go: the order that the time series expect.
use solana_token_lab.Base.{Ordering, List}
use solana_token_lab.Base.Sort.{sort_slice, less_of}
use solana_token_lab.Domain.{Swap, LiquidityEvent}
use solana_token_lab.Position.{position, compare_position}

module _ {F : Type 0} where
  unfoldable pub compare_swaps : Swap F → Swap F → Ordering
  compare_swaps a b =
      compare_position (position a.slot a.tx_signature a.event_index)
        (position b.slot b.tx_signature b.event_index)

  unfoldable pub compare_liquidity_events : LiquidityEvent F → LiquidityEvent F → Ordering
  compare_liquidity_events a b =
      compare_position (position a.slot a.tx_signature a.event_index)
        (position b.slot b.tx_signature b.event_index)

  unfoldable pub sort_swaps : List (Swap F) → List (Swap F)
  unfolding compare_swaps sort_slice
  sort_swaps = sort_slice (less_of compare_swaps)

  unfoldable pub sort_liquidity_events : List (LiquidityEvent F) → List (LiquidityEvent F)
  unfolding compare_liquidity_events sort_slice
  sort_liquidity_events = sort_slice (less_of compare_liquidity_events)
