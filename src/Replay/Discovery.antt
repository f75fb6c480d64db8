-- ===== src/Replay/Discovery.antt =====
-- internal/replay/discovery.go: discovery again from the stored swap events. Both detectors write to one
-- candidate store, which each step hands on to the other.
use solana_token_lab.Base.{List, [], ◌∷◌, Option, none, some, String}
use solana_token_lab.Base.Int.{ℤ}
use solana_token_lab.Base.Sort.{sort_slice, less_of}
use solana_token_lab.Result.{Result, ok, err}
use solana_token_lab.Float64.{Float64, whole}
use solana_token_lab.Domain.{SwapEvent, TokenCandidate}
use solana_token_lab.Position.{position, compare_position}
use solana_token_lab.Storage.Candidates.{CandidateStore}
use solana_token_lab.Storage.SwapEvents.{SwapEventStore, get_by_time_range}
use solana_token_lab.Discovery.Spikes.{ActiveTokenConfig}
use solana_token_lab.Discovery.Detector.{NewTokenDetector, new_detector, process_event}
use solana_token_lab.Discovery.Active.{ActiveTokenDetector, new_active_detector, evaluate_mint}

pub record DiscoveryReplay (F : Type 0) : Type 0 where
  pub swap_event_store : SwapEventStore F
  pub candidate_store : CandidateStore
  pub active_config : ActiveTokenConfig F

-- The two detectors of a run. Their candidate stores are one.
pub record Detectors (F : Type 0) : Type 0 where
  pub new_token : NewTokenDetector
  pub active_token : ActiveTokenDetector F

module _ {F : Type 0} where
  abbrev pub new_discovery_replay :
      SwapEventStore F → CandidateStore → ActiveTokenConfig F → DiscoveryReplay F
  new_discovery_replay swap_event_store candidate_store active_config = record {
    swap_event_store = swap_event_store;
    candidate_store = candidate_store;
    active_config = active_config;
  }

  unfoldable pub sort_domain_swap_events : List (SwapEvent F) → List (SwapEvent F)
  unfolding sort_slice
  sort_domain_swap_events = sort_slice (
      less_of λ a b.
        compare_position (position a.slot a.tx_signature a.event_index)
          (position b.slot b.tx_signature b.event_index))

  abbrev pub fresh_detectors : DiscoveryReplay F → Detectors F
  fresh_detectors r = record {
    new_token = new_detector r.candidate_store;
    active_token = new_active_detector r.active_config r.swap_event_store r.candidate_store;
  }

  -- A step of one detector leaves its store to the other.
  abbrev pub from_new : Detectors F → NewTokenDetector → Detectors F
  from_new d n = record {
    new_token = n;
    active_token = record d.active_token { candidate_store = n.candidate_store };
  }

  abbrev pub from_active : Detectors F → ActiveTokenDetector F → Detectors F
  from_active d a = record {
    new_token = record d.new_token { candidate_store = a.candidate_store };
    active_token = a;
  }

  module _ ⦃f : Float64 F⦄ (sha256_hex : String → String) where
    -- The amount is not copied.
    abbrev pub domain_to_discovery_event : SwapEvent F → SwapEvent F
    domain_to_discovery_event e = record e { amount_out = whole 0 }

    -- One event: as a new token, and else as an active one.
    unfoldable pub replay_event :
        SwapEvent F → Detectors F → Result (Option TokenCandidate) × Detectors F
    unfolding process_event evaluate_mint
    replay_event e d =
        let (r, n) = process_event sha256_hex (domain_to_discovery_event e) d.new_token in
        let d' = from_new d n in
        elim r [
          | err failure ↦ (err failure, d')
          | ok (some candidate) ↦ (ok (some candidate), d')
          | ok none ↦
              let (s, a) = evaluate_mint sha256_hex e.mint e.timestamp d'.active_token in
              (s, from_active d' a)
        ]

    unfoldable pub replay_events :
        List (SwapEvent F) → Detectors F → (List TokenCandidate × Result (Unit {0})) × Detectors F
    replay_events [] d = (([], ok tt), d)
    replay_events (e ∷ es) d =
        let (r, d') = replay_event e d in
        elim r [
          | err failure ↦ (([], err failure), d')
          | ok none ↦ replay_events es d'
          | ok (some candidate) ↦
              let (found, d'') = replay_events es d' in ((candidate ∷ found.0, found.1), d'')
        ]

    unfoldable pub run :
        ℤ → ℤ → DiscoveryReplay F → (List TokenCandidate × Result (Unit {0})) × Detectors F
    unfolding replay_events sort_domain_swap_events get_by_time_range
    run from to r =
        replay_events (sort_domain_swap_events (get_by_time_range from to r.swap_event_store))
          (fresh_detectors r)
