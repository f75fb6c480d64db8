-- ===== src/Examples/Activity.antt =====
-- The detector of active tokens on a token with a spike.
use solana_token_lab.Base.{◌≡◌, refl, List, [], ◌∷◌, some}
use solana_token_lab.Base.Int.{pos}
use solana_token_lab.Result.{ok}
use solana_token_lab.Float64.{Float64}
use solana_token_lab.Float64.Micros.{Micros, micros_float64}
use solana_token_lab.Domain.{SwapEvent, LiquidityEvent, TokenCandidate}
use solana_token_lab.IdHash.{compute_candidate_id}
use solana_token_lab.Ingestion.Ordering.{swap_event_position, liquidity_position}
use solana_token_lab.Storage.SwapEvents.{SwapEventStore, key_of}
use solana_token_lab.Storage.Candidates.{new_candidate_store}
use solana_token_lab.Storage.Candidates.Mints.{OnePerMint}
use solana_token_lab.Discovery.Spikes.{
  ActiveTokenConfig, default_active_config, find_trigger_swap, find_trigger_liquidity_event,
}
use solana_token_lab.Discovery.Spikes.Trigger.{Searched, find_trigger_latest}
use solana_token_lab.Discovery.Active.{
  ActiveTokenDetector, new_active_detector, create_candidate_from_swap, evaluate_mint, detect_at,
}
use solana_token_lab.Discovery.Active.Discovered.{Found, evaluate_mint-Found, detect_at-OnePerMint}
use solana_token_lab.Examples.Samples.{swap_event_at, liquidity_event_at, hash}

-- Two swaps of one time, of which the second comes first on the chain.
abbrev recent_swaps : List (SwapEvent Micros)
recent_swaps =
    swap_event_at (pos 9) "b" (pos 95)
    ∷ swap_event_at (pos 9) "a" (pos 95)
    ∷ swap_event_at (pos 8) "c" (pos 92)
    ∷ []

abbrev recent_events : List (LiquidityEvent Micros)
recent_events = liquidity_event_at (pos 3) "b" (pos 91) (pos 1) ∷ []

find_trigger_swap_run :
    find_trigger_swap (pos 90) (pos 100) recent_swaps ≡ some (swap_event_at (pos 9) "a" (pos 95))
unfolding find_trigger_swap
find_trigger_swap_run = refl

find_trigger_latest_example :
    Searched
      (λ e. e.timestamp)
      swap_event_position
      (pos 90)
      (pos 100)
      recent_swaps
      (find_trigger_swap (pos 90) (pos 100) recent_swaps)
    × Searched
        (λ e. e.timestamp)
        liquidity_position
        (pos 90)
        (pos 100)
        recent_events
        (find_trigger_liquidity_event (pos 90) (pos 100) recent_events)
find_trigger_latest_example = find_trigger_latest (pos 90) (pos 100) recent_swaps recent_events

-- Windows of 10 and 100 milliseconds.
abbrev config : ActiveTokenConfig Micros
config = record default_active_config { window_1h = pos 10; window_24h = pos 100 }

-- One swap in the first of nine windows, and one in the last.
abbrev swap_store : SwapEventStore Micros
swap_store = record {
  events = swap_event_at (pos 1) "a" (pos 10) ∷ swap_event_at (pos 9) "b" (pos 95) ∷ [];
  keys =
      key_of (swap_event_at (pos 9) "b" (pos 95))
      ∷ key_of (swap_event_at (pos 1) "a" (pos 10))
      ∷ [];
}

abbrev active : ActiveTokenDetector Micros
active = new_active_detector config swap_store new_candidate_store

abbrev active_candidate : TokenCandidate
active_candidate = create_candidate_from_swap hash (swap_event_at (pos 9) "b" (pos 95))

evaluate_mint_run :
    evaluate_mint hash "m" (pos 100) active
    ≡ (ok (some active_candidate), (evaluate_mint hash "m" (pos 100) active).1)
unfolding evaluate_mint solana_token_lab.Float64.Micros.mul solana_token_lab.Float64.Micros.literal
    solana_token_lab.Float64.Micros.div solana_token_lab.Float64.Micros.add
    solana_token_lab.Float64.Micros.of_int compute_candidate_id
evaluate_mint_run = refl

evaluate_mint-Found_example :
    Found hash "m" (pos 100) active active_candidate (evaluate_mint hash "m" (pos 100) active).1
evaluate_mint-Found_example =
    evaluate_mint-Found hash "m" (pos 100) active active_candidate
      (evaluate_mint hash "m" (pos 100) active).1 evaluate_mint_run

detect_at-OnePerMint_example : OnePerMint (detect_at hash (pos 100) active).1.candidate_store
detect_at-OnePerMint_example = detect_at-OnePerMint hash (pos 100) active tt
