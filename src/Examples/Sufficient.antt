-- ===== src/Examples/Sufficient.antt =====
-- The checks of sufficiency on sample candidates.
use solana_token_lab.Base.{◌≡◌, ◌↔◌, refl, true, false, List, [], ◌∷◌, none, some}
use solana_token_lab.Base.Int.{pos}
use solana_token_lab.Base.Lists.{All}
use solana_token_lab.Float64.Micros.{Micros}
use solana_token_lab.Domain.{TokenCandidate}
use solana_token_lab.Storage.Swaps.{SwapStore}
use solana_token_lab.Storage.LiquidityEvents.{LiquidityEventStore}
use solana_token_lab.Pipeline.Sufficiency.{
  SufficiencyChecker, new_sufficiency_checker, check_unique_new_token_candidates,
  check_duplicate_candidates, check_missing_events,
}
use solana_token_lab.Pipeline.Sufficiency.Events.{HasEvents, check_missing_events_iff}
use solana_token_lab.Examples.Samples.{swap_at, liquidity_event_at, candidate}

abbrev candidates : List TokenCandidate
candidates = candidate ∷ candidate ∷ []

abbrev checker : SufficiencyChecker Micros
checker =
    new_sufficiency_checker [] [] (some (("c|a|0", swap_at (pos 1) "a" (pos 10) (pos 2)) ∷ []))
      (some (("c|a|1", liquidity_event_at (pos 1) "a" (pos 10) (pos 2)) ∷ [])) none

enough_run : (check_missing_events checker candidates).0.pass ≡ true
unfolding check_missing_events
enough_run = refl

stranger_run :
    (check_missing_events checker (record candidate { candidate_id = "d" } ∷ candidate ∷ [])).1
    ≡ "no swaps found for candidate d" ∷ "no liquidity events found for candidate d" ∷ []
unfolding check_missing_events
stranger_run = refl

duplicates_run :
    (check_duplicate_candidates candidates).1 ≡ "duplicate candidate_id: c (count=2)" ∷ []
unfolding check_duplicate_candidates
duplicates_run = refl

few_run : check_unique_new_token_candidates candidates ≡ record {
  name = "Unique NEW_TOKEN candidates";
  threshold = ">= 300";
  actual = "2";
  pass = false;
}
unfolding check_unique_new_token_candidates
few_run = refl

check_missing_events_iff_example : ((check_missing_events checker candidates).0.pass ≡ true) ↔ (
    (swaps : SwapStore Micros) × (liquidity : LiquidityEventStore Micros) × (checker.swap_store
      ≡ some swaps)
    × (checker.liquidity_store ≡ some liquidity)
    × All (HasEvents swaps liquidity) candidates)
check_missing_events_iff_example = check_missing_events_iff checker candidates
