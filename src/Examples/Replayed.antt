-- ===== src/Examples/Replayed.antt =====
-- A replay of two stored swaps, and of the discovery from two stored swap events.
use mathlib.Core.List.{Permᴰ}
use solana_token_lab.Base.{◌≡◌, refl, List, [], ◌∷◌}
use solana_token_lab.Base.Int.{pos}
use solana_token_lab.Base.Lists.{AllPairs}
use solana_token_lab.Base.Sort.{Before, less_of}
use solana_token_lab.Result.{Result, ok}
use solana_token_lab.Float64.Micros.{Micros}
use solana_token_lab.Domain.{Swap}
use solana_token_lab.Storage.Keyed.Inserts.{IsConsistent}
use solana_token_lab.Storage.Swaps
use solana_token_lab.Storage.Swaps.{SwapStore, swap_key}
use solana_token_lab.Replay.{Event, compare_events}
use solana_token_lab.Replay.Runner.{Runner, new_runner, all_events_of, run_all}
use solana_token_lab.Replay.Stored.{run_all_deterministic}
use solana_token_lab.Float64.Micros.{micros_float64}
use solana_token_lab.Storage.SwapEvents
use solana_token_lab.Storage.SwapEvents.{SwapEventStore}
use solana_token_lab.Discovery.Spikes.{default_active_config}
use solana_token_lab.Replay.Discovery
use solana_token_lab.Replay.Discovery.{DiscoveryReplay, new_discovery_replay}
use solana_token_lab.Replay.Candidates.{IsShared, Discoveries, run-IsShared}
use solana_token_lab.Examples.Samples.{swap_at, swap_event_at, hash}

-- An engine that keeps the events, the last one first.
abbrev keep_event : Event Micros → List (Event Micros) → Result (Unit {0}) × List (Event Micros)
keep_event e es = (ok tt, e ∷ es)

abbrev first_swap : Swap Micros
first_swap = swap_at (pos 1) "a" (pos 10) (pos 2)

abbrev second_swap : Swap Micros
second_swap = swap_at (pos 2) "b" (pos 10) (pos 3)

abbrev swaps : SwapStore Micros
swaps = ("c|a|0", first_swap) ∷ ("c|b|0", second_swap) ∷ []

abbrev replay : Runner Micros
replay = new_runner swaps []

abbrev reordered : Runner Micros
reordered = new_runner (("c|b|0", second_swap) ∷ ("c|a|0", first_swap) ∷ []) []

swaps-IsConsistent : IsConsistent Swaps.key_of Swaps.is_valid swaps
unfolding swap_key
swaps-IsConsistent = record {
  keyed = ((refl, refl), ((refl, refl), tt));
  distinct = ((refl, tt), (tt, tt));
}

run_all_deterministic_example :
    (run_all keep_event "c" replay [] ≡ run_all keep_event "c" reordered [])
    × AllPairs (Before (less_of compare_events)) (all_events_of "c" replay)
run_all_deterministic_example =
    run_all_deterministic keep_event "c" replay reordered [] swaps-IsConsistent
      (record { keyed = tt; distinct = tt }) (Permᴰ.swap refl refl) Permᴰ.nil

abbrev swap_events : SwapEventStore Micros
swap_events = record {
  events = swap_event_at (pos 1) "a" (pos 10) ∷ swap_event_at (pos 2) "b" (pos 20) ∷ [];
  keys =
      SwapEvents.key_of (swap_event_at (pos 2) "b" (pos 20))
      ∷ SwapEvents.key_of (swap_event_at (pos 1) "a" (pos 10))
      ∷ [];
}

abbrev discovery : DiscoveryReplay Micros
discovery = new_discovery_replay swap_events [] default_active_config

run-IsShared_example :
    Discoveries [] (Discovery.run hash (pos 0) (pos 100) discovery).0.0
    × IsShared hash (Discovery.run hash (pos 0) (pos 100) discovery).1
run-IsShared_example = run-IsShared hash (pos 0) (pos 100) discovery tt
