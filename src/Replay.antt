-- ===== src/Replay.antt =====
-- internal/replay/engine.go and ordering.go: the events of a replay and the order in which they come.
pub mod Determinism
pub mod Runner
pub mod Stored
pub mod Discovery
pub mod Candidates
use Prim.Native.String.{then, compare as compare_text}
use solana_token_lab.Base.{Ordering, List, ◌++◌, map, Option, none, some, String}
use solana_token_lab.Base.Int.{ℤ}
use solana_token_lab.Base.Sort.{sort_slice, less_of}
use solana_token_lab.Domain.{Swap, LiquidityEvent}
use solana_token_lab.Position.{Position, position, compare_position}

abbrev pub event_type_swap : String
event_type_swap = "swap"

abbrev pub event_type_liquidity : String
event_type_liquidity = "liquidity"

pub record Event (F : Type 0) : Type 0 where
  pub event_type : String
  pub slot : ℤ
  pub tx_signature : String
  pub event_index : ℤ
  pub timestamp : ℤ
  pub swap : Option (Swap F)
  pub liquidity : Option (LiquidityEvent F)

module _ {F : Type 0} where
  abbrev pub event_position : Event F → Position
  event_position e = position e.slot e.tx_signature e.event_index

  unfoldable pub compare_events : Event F → Event F → Ordering
  compare_events a b =
      then (compare_position (event_position a) (event_position b))
        (compare_text a.event_type b.event_type)

  unfoldable pub sort_events : List (Event F) → List (Event F)
  unfolding compare_events sort_slice
  sort_events = sort_slice (less_of compare_events)

  abbrev pub swap_to_event : Swap F → Event F
  swap_to_event s = record {
    event_type = event_type_swap;
    slot = s.slot;
    tx_signature = s.tx_signature;
    event_index = s.event_index;
    timestamp = s.timestamp;
    swap = some s;
    liquidity = none;
  }

  abbrev pub liquidity_to_event : LiquidityEvent F → Event F
  liquidity_to_event l = record {
    event_type = event_type_liquidity;
    slot = l.slot;
    tx_signature = l.tx_signature;
    event_index = l.event_index;
    timestamp = l.timestamp;
    swap = none;
    liquidity = some l;
  }

  unfoldable pub merge_events : List (Swap F) → List (LiquidityEvent F) → List (Event F)
  unfolding sort_events
  merge_events swaps liquidity =
      sort_events (map swap_to_event swaps ++ map liquidity_to_event liquidity)
