-- ===== src/Examples/Discoveries.antt =====
-- The detector of new tokens on two swaps of one mint.
use solana_token_lab.Base.{◌≡◌, refl, List, [], ◌∷◌}
use solana_token_lab.Base.Int.{pos}
use solana_token_lab.Result.{ok}
use solana_token_lab.Float64.Micros.{Micros}
use solana_token_lab.Domain.{SwapEvent}
use solana_token_lab.Storage.Candidates.{new_candidate_store}
use solana_token_lab.Storage.Candidates.Mints.{OnePerMint}
use solana_token_lab.Storage.Progress.{new_discovery_progress_store}
use solana_token_lab.Discovery.Detector.{
  NewTokenDetector, new_detector, with_progress_store, process_event, process_events, candidate_of,
}
use solana_token_lab.Discovery.Detector.Once.{process_events_once}
use solana_token_lab.IdHash.{compute_candidate_id}
use solana_token_lab.Examples.Samples.{swap_event_at, hash}

abbrev events : List (SwapEvent Micros)
events = swap_event_at (pos 2) "b" (pos 20) ∷ swap_event_at (pos 1) "a" (pos 10) ∷ []

abbrev detector : NewTokenDetector
detector = with_progress_store new_discovery_progress_store (new_detector new_candidate_store)

process_events_run :
    (process_events hash events detector).0
    ≡ (candidate_of hash (swap_event_at (pos 1) "a" (pos 10)) ∷ [], ok tt)
unfolding process_events process_event compute_candidate_id
process_events_run = refl

process_events_once_example :
    let (found, d) = process_events hash events detector in
    OnePerMint d.candidate_store
    × (found.1 ≡ ok tt → process_events hash events d ≡ (([], ok tt), d))
process_events_once_example = process_events_once hash events detector tt
