-- ===== src/Replay/Candidates.antt =====
-- The candidate store that the detectors of internal/replay/discovery.go share.
use mathlib.Core.Path.{subst}
use solana_token_lab.Base.Lists.{All, All-imp, AllPairs}
use solana_token_lab.Result.{Result, ok}
use solana_token_lab.Storage.Candidates.{CandidateStore}
use solana_token_lab.Base.{
  ◌≡◌, ◌∙◌, sym, false, Bool-cases, same_text, same_text_iff, Option, some, refl, inl, inr, List,
  [], ◌∷◌, String,
}
use solana_token_lab.Base.Int.{ℤ}
use solana_token_lab.Float64.{Float64}
use solana_token_lab.Domain.{SwapEvent, TokenCandidate}
use solana_token_lab.Storage.Candidates.Mints.{OnePerMint, Free, Grows}
use solana_token_lab.Discovery.Detector.{process_event}
use solana_token_lab.Discovery.Detector.Once.{
  process_event-OnePerMint, process_event-Grows, process_event-found, ending,
}
use solana_token_lab.Discovery.Active.{evaluate_mint}
use solana_token_lab.Discovery.Active.Discovered.{
  evaluate_mint-OnePerMint, evaluate_mint-Grows, evaluate_mint-found,
}
use solana_token_lab.Replay.Discovery.{
  DiscoveryReplay, Detectors, from_new, from_active, fresh_detectors, domain_to_discovery_event,
  replay_event, replay_events, run,
}

-- What one event does to the store of the detectors.
abbrev Stepped : Result (Option TokenCandidate) → CandidateStore → CandidateStore → Type 0
Stepped r s s' =
    Grows s s' × ((c : TokenCandidate) → r ≡ ok (some c) → Free c.mint s × ¬ Free c.mint s')

-- Found tokens: none is in the store before, and no two have one mint.
abbrev pub Discoveries : CandidateStore → List TokenCandidate → Type 0
Discoveries s found =
    All (λ (c : TokenCandidate). Free c.mint s) found
    × AllPairs (λ (a b : TokenCandidate). same_text a.mint b.mint ≡ false) found

-- Those found after a step, and the one that it found.
Discoveries-cons :
    (c : TokenCandidate) (s s' : CandidateStore) (found : List TokenCandidate)
    → Stepped (ok (some c)) s s'
    → Discoveries s' found
    → Discoveries s (c ∷ found)
Discoveries-cons c s s' found (grows, step) (free, apart) =
    let (before, taken) = step c refl in
    (
      (
        before,
        All-imp (λ (x : TokenCandidate). Free x.mint s') (λ (x : TokenCandidate). Free x.mint s)
            (λ x h. grows x.mint h) found free,
      ),
      (
        All-imp (λ (x : TokenCandidate). Free x.mint s')
            (λ (x : TokenCandidate). same_text c.mint x.mint ≡ false)
            (λ x h. elim (Bool-cases (same_text c.mint x.mint)) [
              | inr e ↦ e
              | inl e ↦
                  absurd
                    (taken (subst (λ m. Free m s') (sym ((same_text_iff c.mint x.mint).0 e)) h))
            ])
            found free,
        apart,
      ),
    )

module _ {F : Type 0} ⦃f : Float64 F⦄ (sha256_hex : String → String) where
  -- The detectors share one store, with one candidate for a mint at most.
  pub record IsShared (d : Detectors F) : Type 0 where
    pub same : d.new_token.candidate_store ≡ d.active_token.candidate_store
    pub single : OnePerMint d.new_token.candidate_store

  replay_event-IsShared :
      (e : SwapEvent F) (d : Detectors F) → IsShared d → IsShared (replay_event sha256_hex e d).1
  unfolding replay_event
  replay_event-IsShared e d h =
      let event = domain_to_discovery_event sha256_hex e in
      let p = process_event sha256_hex event d.new_token in
      let kept = process_event-OnePerMint sha256_hex event d.new_token h.single in
      let d' = from_new d p.1 in
      let here : IsShared d' = record { same = refl; single = kept } in
      let later : IsShared
          (from_active d' (evaluate_mint sha256_hex e.mint e.timestamp d'.active_token).1) =
        record {
          same = refl;
          single = evaluate_mint-OnePerMint sha256_hex e.mint e.timestamp d'.active_token kept;
        } in
      elim (ending p.0) [
        | inl (_, r) ↦ rw (replay_event, r) here
        | inr (inl r) ↦ rw (replay_event, r) later
        | inr (inr (_, r)) ↦ rw (replay_event, r) here
      ]

  replay_events-IsShared :
      (es : List (SwapEvent F)) (d : Detectors F)
      → IsShared d
      → IsShared (replay_events sha256_hex es d).1
  unfolding replay_events
  replay_events-IsShared [] d h = h
  replay_events-IsShared (e ∷ es) d h =
      let kept = replay_event-IsShared e d h in
      let rest = replay_events-IsShared es (replay_event sha256_hex e d).1 kept in
      elim (ending (replay_event sha256_hex e d).0) [
        | inl (_, r) ↦ rw (r, replay_events) kept
        | inr (inl r) ↦ rw (r, replay_events) rest
        | inr (inr (_, r)) ↦ rw (r, replay_events) rest
      ]

  replay_event-Stepped :
      (e : SwapEvent F) (d : Detectors F)
      → Stepped
          (replay_event sha256_hex e d).0
          d.new_token.candidate_store
          (replay_event sha256_hex e d).1.new_token.candidate_store
  unfolding replay_event
  replay_event-Stepped e d =
      let event = domain_to_discovery_event sha256_hex e in
      let p = process_event sha256_hex event d.new_token in
      let grows = process_event-Grows sha256_hex event d.new_token in
      let found = process_event-found sha256_hex event d.new_token in
      let d' = from_new d p.1 in
      let more = evaluate_mint-Grows sha256_hex e.mint e.timestamp d'.active_token in
      let also = evaluate_mint-found sha256_hex e.mint e.timestamp d'.active_token in
      elim (ending p.0) [
        | inl (_, r) ↦ rw (replay_event, r) (grows, λ c h. absurd cc)
        | inr (inl r) ↦
            rw (replay_event, r)
              (
                λ m h. grows m (more m h),
                λ c h. let (free, taken) = also c h in (grows c.mint free, taken),
              )
        | inr (inr (x, r)) ↦ rw (replay_event, r) (grows, λ c h. found c (r ∙ h))
      ]

  replay_events-Discoveries :
      (es : List (SwapEvent F)) (d : Detectors F)
      → Discoveries d.new_token.candidate_store (replay_events sha256_hex es d).0.0
  unfolding replay_events
  replay_events-Discoveries [] d = (tt, tt)
  replay_events-Discoveries (e ∷ es) d =
      let step = replay_event-Stepped e d in
      let d' = (replay_event sha256_hex e d).1 in
      let rest = replay_events-Discoveries es d' in
      let s = d.new_token.candidate_store in
      let s' = d'.new_token.candidate_store in
      elim (ending (replay_event sha256_hex e d).0) [
        | inl (_, r) ↦ rw (r, replay_events) (tt, tt)
        | inr (inl r) ↦
            let (free, apart) = rest in
            let before =
              All-imp (λ (x : TokenCandidate). Free x.mint s')
                (λ (x : TokenCandidate). Free x.mint s) (λ x h. step.0 x.mint h)
                (replay_events sha256_hex es d').0.0 free in
            rw (r, replay_events) (before, apart)
        | inr (inr (c, r)) ↦
            let found = subst (λ t. Stepped t s s') r step in
            rw (r, replay_events)
              (Discoveries-cons c s s' (replay_events sha256_hex es d').0.0 found rest)
      ]

  -- A replay of discovery, whatever the stored events and whether it is broken off by an error or not, finds,
  -- as new tokens and as active ones together, only tokens whose mint no candidate had in the store
  -- at its start, and no two of one mint; and it ends with one candidate store for both detectors that
  -- holds one candidate for a mint at most, if the store at its start did.
  pub run-IsShared :
      (from to : ℤ) (r : DiscoveryReplay F)
      → OnePerMint r.candidate_store
      → Discoveries r.candidate_store (run sha256_hex from to r).0.0
        × IsShared (run sha256_hex from to r).1
  unfolding run
  run-IsShared from to r h = (
    replay_events-Discoveries _ (fresh_detectors r),
    replay_events-IsShared _ (fresh_detectors r) (record { same = refl; single = h }),
  )
