-- ===== src/Replay/Stored.antt =====
-- A replay from the stores: the events that internal/replay/runner.go feeds to an engine.
use mathlib.Core.List.{Permᴰ}
use solana_token_lab.Base.{◌≡◌, sym, ap, ◌∙◌, true, false, String, same_text, same_text_iff}
use solana_token_lab.Base.Lists.{AllPairs}
use solana_token_lab.Base.Sort.{Before, less_of}
use solana_token_lab.Result.{Result}
use solana_token_lab.Domain.{Swap, LiquidityEvent}
use solana_token_lab.Position.{Position, Elsewhere}
use solana_token_lab.Ingestion.Ordering.{swap_position, liquidity_position}
use solana_token_lab.Storage.Keyed.Inserts.{IsConsistent}
use solana_token_lab.Storage.Keyed.Queries.{query-AllPairs, query-perm}
use solana_token_lab.Storage.Swaps
use solana_token_lab.Storage.Swaps.{SwapStore, swap_key}
use solana_token_lab.Storage.LiquidityEvents
use solana_token_lab.Storage.LiquidityEvents.{LiquidityEventStore, liquidity_event_key}
use solana_token_lab.Replay.{Event, compare_events}
use solana_token_lab.Replay.Determinism.{merge_events_deterministic}
use solana_token_lab.Replay.Runner.{Runner, all_events_of, feed, run_all}

module _ {F : Type 0} where
  -- Stored events of one candidate that have different keys stand at different positions.
  swap_apart :
      (c : String) (a b : Swap F)
      → same_text (Swaps.key_of a) (Swaps.key_of b) ≡ false
      → same_text a.candidate_id c ≡ true
      → same_text b.candidate_id c ≡ true
      → Elsewhere swap_position a b
  swap_apart c a b k u w e =
      let ids : a.candidate_id ≡ b.candidate_id =
        (same_text_iff a.candidate_id c).0 u ∙ sym ((same_text_iff b.candidate_id c).0 w) in
      let transactions = ap (λ (p : Position). p.tx_signature) e in
      let indices = ap (λ (p : Position). p.event_index) e in
      let keys : Swaps.key_of a ≡ Swaps.key_of b = cc in
      cc ((same_text_iff (Swaps.key_of a) (Swaps.key_of b)).1 keys)

  event_apart :
      (c : String) (a b : LiquidityEvent F)
      → same_text (LiquidityEvents.key_of a) (LiquidityEvents.key_of b) ≡ false
      → same_text a.candidate_id c ≡ true
      → same_text b.candidate_id c ≡ true
      → Elsewhere liquidity_position a b
  event_apart c a b k u w e =
      let ids : a.candidate_id ≡ b.candidate_id =
        (same_text_iff a.candidate_id c).0 u ∙ sym ((same_text_iff b.candidate_id c).0 w) in
      let transactions = ap (λ (p : Position). p.tx_signature) e in
      let indices = ap (λ (p : Position). p.event_index) e in
      let keys : LiquidityEvents.key_of a ≡ LiquidityEvents.key_of b = cc in
      cc ((same_text_iff (LiquidityEvents.key_of a) (LiquidityEvents.key_of b)).1 keys)

  all_events_deterministic :
      (c : String) (r r' : Runner F)
      → IsConsistent Swaps.key_of Swaps.is_valid r.swap_store
      → IsConsistent LiquidityEvents.key_of LiquidityEvents.is_valid r.liquidity_store
      → Permᴰ r.swap_store r'.swap_store
      → Permᴰ r.liquidity_store r'.liquidity_store
      → (all_events_of c r ≡ all_events_of c r')
        × AllPairs (Before (less_of compare_events)) (all_events_of c r)
  unfolding all_events_of Swaps.get_by_candidate_id LiquidityEvents.get_by_candidate_id
  all_events_deterministic c r r' h k p q =
      merge_events_deterministic (query-perm _ _ p) (query-perm _ _ q)
        (query-AllPairs Swaps.key_of Swaps.is_valid _ _ (Elsewhere swap_position)
          (λ a b n e. n (sym e)) (swap_apart c) h)
        (query-AllPairs LiquidityEvents.key_of LiquidityEvents.is_valid _ _
          (Elsewhere liquidity_position) (λ a b n e. n (sym e)) (event_apart c) k)

  -- A replay of all events of a candidate from consistent stores ends with the same result and the same state
  -- of the engine, whatever the engine is, in whatever order the maps of the stores are iterated over;
  -- and the events come in strictly ascending order of (slot, tx_signature, event_index, type).
  pub run_all_deterministic :
      {S : Type 0} (on_event : Event F → S → Result (Unit {0}) × S) (c : String) (r r' : Runner F)
      (s : S)
      → IsConsistent Swaps.key_of Swaps.is_valid r.swap_store
      → IsConsistent LiquidityEvents.key_of LiquidityEvents.is_valid r.liquidity_store
      → Permᴰ r.swap_store r'.swap_store
      → Permᴰ r.liquidity_store r'.liquidity_store
      → (run_all on_event c r s ≡ run_all on_event c r' s)
        × AllPairs (Before (less_of compare_events)) (all_events_of c r)
  unfolding run_all
  run_all_deterministic on_event c r r' s h k p q =
      let (same, ascending) = all_events_deterministic c r r' h k p q in
      (ap (λ es. feed on_event es s) same, ascending)
