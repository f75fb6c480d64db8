-- ===== src/Examples/Replays.antt =====
-- The merged stream of sample events.
use mathlib.Core.List.Permᴰ
use solana_token_lab.Base.{◌≡◌, refl, ap, [], ◌∷◌}
use solana_token_lab.Base.Int.{pos}
use solana_token_lab.Base.Lists.{AllPairs}
use solana_token_lab.Base.Sort.{Before, less_of}
use solana_token_lab.Float64.Micros.{Micros}
use solana_token_lab.Domain.{Swap, LiquidityEvent}
use solana_token_lab.Position.{Position, Elsewhere}
use solana_token_lab.Ingestion.Ordering.{swap_position}
use solana_token_lab.Float64.Micros.{micros_float64}
use solana_token_lab.Replay.{compare_events, merge_events}
use solana_token_lab.Replay.Determinism.{merge_events_deterministic}
use solana_token_lab.Examples.Samples.{swap_at, liquidity_event_at}

abbrev first : Swap Micros
first = swap_at (pos 1) "a" (pos 1000) (pos 5)

abbrev second : Swap Micros
second = swap_at (pos 2) "b" (pos 2000) (pos 6)

-- It stands where the first swap does.
abbrev added : LiquidityEvent Micros
added = liquidity_event_at (pos 1) "a" (pos 1000) (pos 9)

elsewhere : Elsewhere swap_position first second
elsewhere e = let slots : pos 1 ≡ pos 2 = ap (λ (p : Position). p.slot) e in cc

merge_events_deterministic_example :
    (merge_events (first ∷ second ∷ []) (added ∷ [])
      ≡ merge_events (second ∷ first ∷ []) (added ∷ []))
    × AllPairs (Before (less_of compare_events)) (merge_events (first ∷ second ∷ []) (added ∷ []))
merge_events_deterministic_example =
    merge_events_deterministic {swaps = first ∷ second ∷ []} {events = added ∷ []}
      (Permᴰ.swap refl refl) (Permᴰ.refl (added ∷ [])) ((elsewhere, tt), (tt, tt)) (tt, tt)
