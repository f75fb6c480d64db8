-- ===== src/Examples/Orderings.antt =====
-- Sorting and checking batches of events.
use mathlib.Core.List.{Permᴰ}
use solana_token_lab.Base.{◌≡◌, refl, ◌↔◌, List, [], ◌∷◌}
use solana_token_lab.Base.Lists.{AllPairs}
use solana_token_lab.Base.Int.{pos}
use solana_token_lab.Result.{ok}
use solana_token_lab.Float64.Micros.{Micros}
use solana_token_lab.Domain.{Swap, SwapEvent, LiquidityEvent}
use solana_token_lab.Position.{Elsewhere}
use solana_token_lab.Ingestion.Ordering.{
  swap_position, liquidity_position, swap_event_position, sort_swaps, sort_liquidity_events,
  sort_swap_events, validate_swap_ordering, validate_liquidity_event_ordering,
  validate_swap_event_ordering,
}
use solana_token_lab.Ingestion.Ordering.Canonical.{
  validate_swap_ordering_iff, validate_liquidity_event_ordering_iff,
  validate_swap_event_ordering_iff,
}
use solana_token_lab.Examples.Samples.{swap_at, swap_event_at, liquidity_event_at}

abbrev swaps : List (Swap Micros)
swaps = swap_at (pos 2) "a" (pos 20) (pos 3) ∷ swap_at (pos 1) "b" (pos 10) (pos 2) ∷ []

abbrev sorted_swaps : List (Swap Micros)
sorted_swaps = swap_at (pos 1) "b" (pos 10) (pos 2) ∷ swap_at (pos 2) "a" (pos 20) (pos 3) ∷ []

abbrev swap_events : List (SwapEvent Micros)
swap_events = swap_event_at (pos 1) "b" (pos 20) ∷ swap_event_at (pos 1) "a" (pos 10) ∷ []

abbrev sorted_swap_events : List (SwapEvent Micros)
sorted_swap_events = swap_event_at (pos 1) "a" (pos 10) ∷ swap_event_at (pos 1) "b" (pos 20) ∷ []

abbrev liquidity_events : List (LiquidityEvent Micros)
liquidity_events =
    liquidity_event_at (pos 3) "b" (pos 20) (pos 1)
    ∷ liquidity_event_at (pos 1) "b" (pos 10) (pos 2)
    ∷ []

abbrev sorted_liquidity_events : List (LiquidityEvent Micros)
sorted_liquidity_events =
    liquidity_event_at (pos 1) "b" (pos 10) (pos 2)
    ∷ liquidity_event_at (pos 3) "b" (pos 20) (pos 1)
    ∷ []

sort_swaps_run : sort_swaps swaps ≡ sorted_swaps
unfolding sort_swaps
sort_swaps_run = refl

validate_swap_ordering_iff_example :
    (validate_swap_ordering sorted_swaps ≡ ok tt)
    ↔ (AllPairs (Elsewhere swap_position) sorted_swaps × (sort_swaps swaps ≡ sorted_swaps))
validate_swap_ordering_iff_example =
    validate_swap_ordering_iff {xs = swaps} {ys = sorted_swaps} (Permᴰ.swap refl refl)

validate_liquidity_event_ordering_iff_example :
    (validate_liquidity_event_ordering sorted_liquidity_events ≡ ok tt) ↔ (
      AllPairs (Elsewhere liquidity_position) sorted_liquidity_events
      × (sort_liquidity_events liquidity_events ≡ sorted_liquidity_events))
validate_liquidity_event_ordering_iff_example =
    validate_liquidity_event_ordering_iff {xs = liquidity_events} {ys = sorted_liquidity_events}
      (Permᴰ.swap refl refl)

validate_swap_event_ordering_iff_example :
    (validate_swap_event_ordering sorted_swap_events ≡ ok tt) ↔ (
      AllPairs (Elsewhere swap_event_position) sorted_swap_events
      × (sort_swap_events swap_events ≡ sorted_swap_events))
validate_swap_event_ordering_iff_example =
    validate_swap_event_ordering_iff {xs = swap_events} {ys = sorted_swap_events}
      (Permᴰ.swap refl refl)
