-- ===== src/Ingestion/Ordering.antt =====
-- internal/ingestion/ordering.go: the order of swaps, liquidity events and swap events, and its check.
pub mod Canonical
use solana_token_lab.Base.{Ordering, List}
use solana_token_lab.Base.Sort.{sort_slice, less_of, ascends}
use solana_token_lab.Result.{Result, require, invalid_ordering}
use solana_token_lab.Domain.{Swap, LiquidityEvent, SwapEvent}
use solana_token_lab.Position.{Position, position, compare_position}

module _ {F : Type 0} where
  abbrev pub swap_position : Swap F → Position
  swap_position s = position s.slot s.tx_signature s.event_index

  abbrev pub liquidity_position : LiquidityEvent F → Position
  liquidity_position e = position e.slot e.tx_signature e.event_index

  abbrev pub swap_event_position : SwapEvent F → Position
  swap_event_position e = position e.slot e.tx_signature e.event_index

  pub compare_swaps : Swap F → Swap F → Ordering
  compare_swaps a b = compare_position (swap_position a) (swap_position b)

  pub compare_liquidity_events : LiquidityEvent F → LiquidityEvent F → Ordering
  compare_liquidity_events a b = compare_position (liquidity_position a) (liquidity_position b)

  pub compare_swap_events : SwapEvent F → SwapEvent F → Ordering
  compare_swap_events a b = compare_position (swap_event_position a) (swap_event_position b)

  unfoldable pub sort_swaps : List (Swap F) → List (Swap F)
  unfolding compare_swaps sort_slice
  sort_swaps = sort_slice (less_of compare_swaps)

  unfoldable pub sort_liquidity_events : List (LiquidityEvent F) → List (LiquidityEvent F)
  unfolding compare_liquidity_events sort_slice
  sort_liquidity_events = sort_slice (less_of compare_liquidity_events)

  unfoldable pub sort_swap_events : List (SwapEvent F) → List (SwapEvent F)
  unfolding compare_swap_events sort_slice
  sort_swap_events = sort_slice (less_of compare_swap_events)

  unfoldable pub validate_swap_ordering : List (Swap F) → Result (Unit {0})
  unfolding compare_swaps ascends
  validate_swap_ordering swaps = require (ascends compare_swaps swaps) invalid_ordering

  unfoldable pub validate_liquidity_event_ordering : List (LiquidityEvent F) → Result (Unit {0})
  unfolding compare_liquidity_events ascends
  validate_liquidity_event_ordering events =
      require (ascends compare_liquidity_events events) invalid_ordering

  unfoldable pub validate_swap_event_ordering : List (SwapEvent F) → Result (Unit {0})
  unfolding compare_swap_events ascends
  validate_swap_event_ordering events =
      require (ascends compare_swap_events events) invalid_ordering
