-- ===== src/Discovery/Detector.antt =====
-- internal/discovery/detector.go: a candidate for the first swap of each mint. The detector works on the
-- in-memory stores; `none` for the progress store is a detector without persistence.
pub mod Once
use solana_token_lab.Base.{
  ℕ, Bool, true, false, List, [], ◌∷◌, Option, none, some, String, if◌then◌else◌,
}
use solana_token_lab.Base.Int.{ℤ, pos}
use solana_token_lab.Base.Lists.{length}
use solana_token_lab.Base.Sort.{sort_slice, less_of}
use solana_token_lab.Result.{Result, ok, err, ◌>>=◌, Error}
use solana_token_lab.Domain.{SwapEvent, Source, TokenCandidate, source_new_token}
use solana_token_lab.Position.{position, compare_position}
use solana_token_lab.IdHash.{compute_candidate_id}
use solana_token_lab.Storage.Keyed.{member}
use solana_token_lab.Storage.Candidates
use solana_token_lab.Storage.Candidates.{CandidateStore, get_by_mint}
use solana_token_lab.Storage.Progress.{
  DiscoveryProgress, DiscoveryProgressStore, get_last_processed, set_last_processed, is_mint_seen,
  mark_mint_seen, load_seen_mints, set_seen,
}

pub record NewTokenDetector : Type 0 where
  pub seen_mints : List String
  pub candidate_store : CandidateStore
  pub progress_store : Option DiscoveryProgressStore

abbrev pub new_detector : CandidateStore → NewTokenDetector
new_detector store = record { seen_mints = []; candidate_store = store; progress_store = none }

abbrev pub with_progress_store : DiscoveryProgressStore → NewTokenDetector → NewTokenDetector
with_progress_store store d = record d { progress_store = some store }

-- `for _, mint := range mints { seen[mint] = true }`
unfoldable pub set_all_seen : List String → List String → List String
unfolding set_seen
set_all_seen [] seen = seen
set_all_seen (mint ∷ mints) seen = set_all_seen mints (set_seen mint seen)

unfoldable pub load_state : NewTokenDetector → NewTokenDetector
unfolding set_all_seen load_seen_mints
load_state d = elim d.progress_store [
  | none ↦ d
  | some p ↦ record d { seen_mints = set_all_seen (load_seen_mints p) d.seen_mints }
]

-- A progress store without a position is no error.
unfoldable pub get_progress : NewTokenDetector → Option DiscoveryProgress
unfolding get_last_processed
get_progress d = elim d.progress_store [
  | none ↦ none
  | some p ↦ elim (get_last_processed p) [ ok progress ↦ some progress | err e ↦ none ]
]

unfoldable pub save_progress : ℕ → String → NewTokenDetector → Result (Unit {0}) × NewTokenDetector
unfolding set_last_processed
save_progress slot signature d = elim d.progress_store [
  | none ↦ (ok tt, d)
  | some p ↦
      let (r, p') = set_last_processed (some (record { slot = slot; signature = signature })) p in
      (r, record d { progress_store = some p' })
]

-- `markSeen` in the cache, and in the progress store if there is one.
unfoldable pub mark_seen : String → NewTokenDetector → Result (Unit {0}) × NewTokenDetector
unfolding set_seen mark_mint_seen
mark_seen mint d =
    let cached : NewTokenDetector = record d { seen_mints = set_seen mint d.seen_mints } in
    elim d.progress_store [
      | none ↦ (ok tt, cached)
      | some p ↦
          let (r, p') = mark_mint_seen mint p in (r, record cached { progress_store = some p' })
    ]

-- `if err := d.markSeen(…); err != nil { return nil, err }; return candidate, nil`
unfoldable pub mark_and_return :
    String
    → Option TokenCandidate
    → NewTokenDetector
    → Result (Option TokenCandidate) × NewTokenDetector
unfolding mark_seen
mark_and_return mint candidate d =
    let (r, d') = mark_seen mint d in (r >>= λ marked. ok candidate, d')

abbrev pub is_duplicate : Error → Bool
is_duplicate Error.duplicate_key = true
is_duplicate e = false

-- `seen, err := d.progressStore.IsMintSeen(…)`, if there is a progress store.
unfoldable pub check_progress : String → NewTokenDetector → Result Bool
unfolding is_mint_seen
check_progress mint d = elim d.progress_store [ none ↦ ok false | some p ↦ is_mint_seen mint p ]

module _ {F : Type 0} where
  unfoldable pub sort_swap_events : List (SwapEvent F) → List (SwapEvent F)
  unfolding sort_slice
  sort_swap_events = sort_slice (
      less_of λ a b.
        compare_position (position a.slot a.tx_signature a.event_index)
          (position b.slot b.tx_signature b.event_index))

  module _ (sha256_hex : String → String) where
    abbrev pub candidate_of : SwapEvent F → TokenCandidate
    candidate_of event = record {
      candidate_id =
          compute_candidate_id sha256_hex event.mint event.pool source_new_token event.tx_signature
            event.event_index event.slot;
      source = source_new_token;
      mint = event.mint;
      pool = event.pool;
      tx_signature = event.tx_signature;
      event_index = event.event_index;
      slot = event.slot;
      discovered_at = event.timestamp;
      created_at = pos 0;
    }

    -- From the attempt to insert on.
    unfoldable pub insert_candidate :
        SwapEvent F → NewTokenDetector → Result (Option TokenCandidate) × NewTokenDetector
    unfolding Candidates.insert mark_and_return
    insert_candidate event d =
        let (r, store) = Candidates.insert (some (candidate_of event)) d.candidate_store in
        let d' : NewTokenDetector = record d { candidate_store = store } in
        elim r [
          | ok inserted ↦ mark_and_return event.mint (some (candidate_of event)) d'
          | err e ↦ if is_duplicate e then mark_and_return event.mint none d' else (err e, d')
        ]

    -- From the look into the candidate store on.
    unfoldable pub discover :
        SwapEvent F → NewTokenDetector → Result (Option TokenCandidate) × NewTokenDetector
    unfolding get_by_mint insert_candidate mark_and_return
    discover event d = elim (get_by_mint event.mint d.candidate_store) [
      | [] ↦ insert_candidate event d
      | existing ∷ more ↦ mark_and_return event.mint none d
    ]

    unfoldable pub process_event :
        SwapEvent F → NewTokenDetector → Result (Option TokenCandidate) × NewTokenDetector
    unfolding member check_progress set_seen discover
    process_event event d =
        if member event.mint d.seen_mints
        then (ok none, d)
        else elim (check_progress event.mint d) [
          | err e ↦ (err e, d)
          | ok true ↦ (ok none, record d { seen_mints = set_seen event.mint d.seen_mints })
          | ok false ↦ discover event d
        ]

    -- The loop: the candidates so far, and the error that broke it off.
    unfoldable pub process_loop :
        List (SwapEvent F)
        → NewTokenDetector
        → (List TokenCandidate × Result (Unit {0})) × NewTokenDetector
    process_loop [] d = (([], ok tt), d)
    process_loop (event ∷ events) d =
        let (r, d') = process_event event d in
        elim r [
          | err e ↦ (([], err e), d')
          | ok none ↦ process_loop events d'
          | ok (some candidate) ↦
              let (found, d'') = process_loop events d' in ((candidate ∷ found.0, found.1), d'')
        ]

    unfoldable pub process_events :
        List (SwapEvent F)
        → NewTokenDetector
        → (List TokenCandidate × Result (Unit {0})) × NewTokenDetector
    unfolding process_loop sort_swap_events
    process_events events d = process_loop (sort_swap_events events) d

unfoldable pub reset : NewTokenDetector → NewTokenDetector
reset d = record d { seen_mints = [] }

abbrev pub seen_count : NewTokenDetector → ℤ
seen_count d = pos (length d.seen_mints)
