-- ===== src/Replay/Determinism.antt =====
-- The event stream of a replay (internal/replay/ordering.go) depends on the events only, not on the
-- order in which the stores return them.
use mathlib.Core.List.{Permᴰ}
use mathlib.Core.List.Permᴰ
use solana_token_lab.Base.{◌≡◌, List, ◌++◌, map, arith}
use solana_token_lab.Base.Lists.{
  All, All-map, All-every, AllPairs, AllPairs-map, AllPairs-imp, AllPairs-append, map-perm,
}
use solana_token_lab.Base.ThreeWay.{
  IsThreeWay, then_by-IsThreeWay, on-IsThreeWay, compare_text-IsThreeWay,
}
use solana_token_lab.Base.Sort.{
  Apart, Before, less_of, less_of-IsStrictWeak, sort_slice-eq_of_perm, sort_slice-Before,
}
use solana_token_lab.Domain.{Swap, LiquidityEvent}
use solana_token_lab.Position.{
  Elsewhere, compare_position, compare_position-IsThreeWay, Apart-iff_ne,
}
use solana_token_lab.Ingestion.Ordering.{swap_position, liquidity_position}
use solana_token_lab.Replay.{
  Event, event_position, compare_events, sort_events, swap_to_event, liquidity_to_event,
  merge_events,
}

module _ {F : Type 0} where
  compare_events-IsThreeWay : IsThreeWay (compare_events {F = F})
  unfolding compare_events
  compare_events-IsThreeWay =
      then_by-IsThreeWay (on-IsThreeWay event_position compare_position-IsThreeWay)
        (on-IsThreeWay (λ e. e.event_type) compare_text-IsThreeWay)

  -- The order tells the two events apart.
  abbrev pub Told : Event F → Event F → Type 0
  Told = Apart (less_of compare_events)

  Told-of_position :
      (a b : Event F)
      → Apart (less_of compare_position) (event_position a) (event_position b)
      → Told a b
  unfolding compare_events
  Told-of_position a b h = ground arith

  swaps-Told :
      (swaps : List (Swap F))
      → AllPairs (Elsewhere swap_position) swaps
      → AllPairs Told (map swap_to_event swaps)
  swaps-Told swaps h = AllPairs-map Told swap_to_event swaps (
      AllPairs-imp (Elsewhere swap_position) (λ a b. Told (swap_to_event a) (swap_to_event b))
        (λ a b n.
          Told-of_position (swap_to_event a) (swap_to_event b)
            ((Apart-iff_ne (swap_position a) (swap_position b)).1 n))
        swaps h)

  liquidity-Told :
      (events : List (LiquidityEvent F))
      → AllPairs (Elsewhere liquidity_position) events
      → AllPairs Told (map liquidity_to_event events)
  liquidity-Told events h = AllPairs-map Told liquidity_to_event events (
      AllPairs-imp (Elsewhere liquidity_position)
        (λ a b. Told (liquidity_to_event a) (liquidity_to_event b))
        (λ a b n.
          Told-of_position (liquidity_to_event a) (liquidity_to_event b)
            ((Apart-iff_ne (liquidity_position a) (liquidity_position b)).1 n))
        events h)

  cross-Told : (s : Swap F) (l : LiquidityEvent F) → Told (swap_to_event s) (liquidity_to_event l)
  unfolding compare_events
  cross-Told s l =
      ground (arith, compare_position-IsThreeWay.flip (swap_position s) (liquidity_position l))

  events-Told :
      (swaps : List (Swap F)) (events : List (LiquidityEvent F))
      → AllPairs (Elsewhere swap_position) swaps
      → AllPairs (Elsewhere liquidity_position) events
      → AllPairs Told (map swap_to_event swaps ++ map liquidity_to_event events)
  events-Told swaps events h k =
      AllPairs-append Told (map swap_to_event swaps) (map liquidity_to_event events)
        (swaps-Told swaps h) (liquidity-Told events k)
        (All-map (λ e. All (Told e) (map liquidity_to_event events)) swap_to_event swaps
          (All-every (λ s. All (Told (swap_to_event s)) (map liquidity_to_event events))
            (λ s. All-map (Told (swap_to_event s)) liquidity_to_event events (
              All-every (λ l. Told (swap_to_event s) (liquidity_to_event l)) (λ l. cross-Told s l)
                events))
            swaps))

  -- Where no two swaps stand at one position and no two liquidity events do (a swap and a liquidity
  -- event may), the replay's stream is strictly ordered by (slot, tx_signature, event_index, type), and
  -- it does not depend on the order in which the swaps and the events are given.
  pub merge_events_deterministic :
      {swaps swaps' : List (Swap F)} {events events' : List (LiquidityEvent F)}
      → Permᴰ swaps swaps'
      → Permᴰ events events'
      → AllPairs (Elsewhere swap_position) swaps
      → AllPairs (Elsewhere liquidity_position) events
      → (merge_events swaps events ≡ merge_events swaps' events')
        × AllPairs (Before (less_of compare_events)) (merge_events swaps events)
  unfolding merge_events sort_events
  merge_events_deterministic {swaps} {swaps'} {events = events} p q h k =
      let told = events-Told swaps events h k in
      let order = less_of-IsStrictWeak compare_events-IsThreeWay in
      (
        sort_slice-eq_of_perm (less_of compare_events) order
            (Permᴰ.trans
              (Permᴰ.append_right (map liquidity_to_event events) (map-perm swap_to_event p))
              (Permᴰ.append_left (map swap_to_event swaps') (map-perm liquidity_to_event q)))
            told,
        sort_slice-Before (less_of compare_events) order _ told,
      )
