-- ===== src/Discovery/Active/Discovered.antt =====
-- The candidates of internal/discovery/active_detector.go and the candidate store.
use mathlib.Core.Path.{subst}
use solana_token_lab.Base.{
  ◌≡◌, refl, sym, ap, ◌∙◌, ◌⊎◌, inl, inr, true, false, ◌||◌, Bool-cases, Option-cases, List-cases,
  List, [], ◌∷◌, some, String, same_text_iff, arith,
}
use solana_token_lab.Base.Int.{ℤ}
use solana_token_lab.Result.{Result, ok}
use solana_token_lab.Float64.{Float64}
use solana_token_lab.Domain.{TokenCandidate}
use solana_token_lab.Storage.Keyed.{member}
use solana_token_lab.Storage.Candidates
use solana_token_lab.Storage.Candidates.{CandidateStore, get_by_mint}
use solana_token_lab.Storage.Candidates.Mints.{
  OnePerMint, insert-OnePerMint, Free, Grows, insert-Grows, insert-taken, get_by_mint-Free,
}
use solana_token_lab.Discovery.Detector.Once.{member-set_seen, ending}
use solana_token_lab.Discovery.Active.{
  ActiveTokenDetector, insert_active, swap_spikes_at, liquidity_spike_at, spike_candidate,
  evaluate_mint, evaluate_mints, detect_at,
}
use solana_token_lab.Discovery.Active.Triggered.{FromEvent, spike_candidate-FromEvent}

module _ {F : Type 0} ⦃f : Float64 F⦄ (sha256_hex : String → String) where
  module _ (mint : String) (now : ℤ) (d : ActiveTokenDetector F) where
    -- What a call that finds a candidate has seen and done.
    pub record Found (c : TokenCandidate) (d' : ActiveTokenDetector F) : Type 0 where
      pub unseen : member mint d.seen_mints ≡ false
      pub undiscovered : get_by_mint mint d.candidate_store ≡ []
      pub spiked :
          ((swap_spikes_at sha256_hex mint now d).0
            || (swap_spikes_at sha256_hex mint now d).1
            || (liquidity_spike_at sha256_hex mint now d).0)
          ≡ true
      pub origin : FromEvent sha256_hex mint now d c
      pub inserted : Candidates.insert (some c) d.candidate_store ≡ (ok tt, d'.candidate_store)
      pub seen : member mint d'.seen_mints ≡ true

    -- A mint for which a candidate is found was neither in the cache nor in the candidate store; its volume,
    -- its swaps or its liquidity spike; the candidate is made from a stored swap of the mint of the last
    -- hour or, from the liquidity store if there is one, from such a liquidity event; the candidate
    -- store accepted it, and the mint is in the cache.
    pub evaluate_mint-Found :
        (c : TokenCandidate) (d' : ActiveTokenDetector F)
        → evaluate_mint sha256_hex mint now d ≡ (ok (some c), d')
        → Found c d'
    unfolding evaluate_mint insert_active spike_candidate
    evaluate_mint-Found c d' h =
        let candidate : spike_candidate sha256_hex mint now d ≡ some c = ground arith in
        record {
          unseen = ground arith;
          undiscovered = ground arith;
          spiked = ground arith;
          origin = spike_candidate-FromEvent sha256_hex mint now d c candidate;
          inserted = ground arith;
          seen = ground (arith, member-set_seen mint mint d.seen_mints, same_text_iff mint mint);
        }

    -- A candidate has the mint that was asked for.
    FromEvent-mint : (c : TokenCandidate) → FromEvent sha256_hex mint now d c → c.mint ≡ mint
    FromEvent-mint c (inl o) = ap (λ (t : TokenCandidate). t.mint) o.made ∙ o.mint_same
    FromEvent-mint c (inr o) = ap (λ (t : TokenCandidate). t.mint) o.made ∙ o.mint_same

    -- What a call does to the candidate store.
    abbrev StoreAfter : ActiveTokenDetector F → Type 0
    StoreAfter d' =
        (d'.candidate_store ≡ d.candidate_store)
        ⊎ ((c : TokenCandidate) × (get_by_mint mint d.candidate_store ≡ [])
            × (spike_candidate sha256_hex mint now d ≡ some c)
            × (d'.candidate_store ≡ (Candidates.insert (some c) d.candidate_store).1))

    insert_active-store :
        (c : TokenCandidate)
        → (insert_active mint c d).1.candidate_store
          ≡ (Candidates.insert (some c) d.candidate_store).1
    unfolding insert_active
    insert_active-store c = ground arith

    evaluate_mint-StoreAfter : StoreAfter (evaluate_mint sha256_hex mint now d).1
    unfolding evaluate_mint
    evaluate_mint-StoreAfter = elim (Bool-cases (member mint d.seen_mints)) [
      | inl e ↦ inl (ground arith)
      | inr e ↦ elim (Option-cases (spike_candidate sha256_hex mint now d)) [
        | inl none_here ↦ inl (ground arith)
        | inr (c, here) ↦ elim (List-cases (get_by_mint mint d.candidate_store)) [
          | inl free ↦
              inr (c, free, here, rw (evaluate_mint, e, free, here) (insert_active-store c))
          | inr (x, xs, taken) ↦ inl (rw (evaluate_mint, e, taken) refl)
        ]
      ]
    ]

    pub evaluate_mint-OnePerMint :
        OnePerMint d.candidate_store
        → OnePerMint (evaluate_mint sha256_hex mint now d).1.candidate_store
    evaluate_mint-OnePerMint h = elim evaluate_mint-StoreAfter [
      | inl same ↦ subst OnePerMint (sym same) h
      | inr (c, free, spike, added) ↦
          let its_mint =
            FromEvent-mint c (spike_candidate-FromEvent sha256_hex mint now d c spike) in
          subst OnePerMint (sym added) (
            insert-OnePerMint c d.candidate_store
              (ap (λ m. get_by_mint m d.candidate_store) its_mint ∙ free) h)
    ]

  pub evaluate_mint-Grows :
      (mint : String) (now : ℤ) (d : ActiveTokenDetector F)
      → Grows d.candidate_store (evaluate_mint sha256_hex mint now d).1.candidate_store
  evaluate_mint-Grows mint now d m h = elim (evaluate_mint-StoreAfter mint now d) [
    | inl same ↦ subst (Free m) same h
    | inr (c, _, _, added) ↦ insert-Grows c d.candidate_store m (subst (Free m) added h)
  ]

  pub evaluate_mint-found :
      (mint : String) (now : ℤ) (d : ActiveTokenDetector F) (c : TokenCandidate)
      → (evaluate_mint sha256_hex mint now d).0 ≡ ok (some c)
      → Free c.mint d.candidate_store
        × ¬ Free c.mint (evaluate_mint sha256_hex mint now d).1.candidate_store
  evaluate_mint-found mint now d c h =
      let d' = (evaluate_mint sha256_hex mint now d).1 in
      let found = evaluate_mint-Found mint now d c d' (ap (λ r. (r, d')) h) in
      let its_mint = FromEvent-mint mint now d c found.origin in
      let done = ap (λ (t : Result (Unit {0}) × CandidateStore). t.0) found.inserted in
      let stored = ap (λ (t : Result (Unit {0}) × CandidateStore). t.1) found.inserted in
      (
        get_by_mint-Free c.mint d.candidate_store
            (ap (λ m. get_by_mint m d.candidate_store) its_mint ∙ found.undiscovered),
        λ k. insert-taken c d.candidate_store done (subst (Free c.mint) (sym stored) k),
      )

  evaluate_mints-OnePerMint :
      (now : ℤ) (mints : List String) (d : ActiveTokenDetector F)
      → OnePerMint d.candidate_store
      → OnePerMint (evaluate_mints sha256_hex now mints d).1.candidate_store
  unfolding evaluate_mints
  evaluate_mints-OnePerMint now [] d h = h
  evaluate_mints-OnePerMint now (m ∷ mints) d h =
      let kept = evaluate_mint-OnePerMint m now d h in
      let rest = evaluate_mints-OnePerMint now mints (evaluate_mint sha256_hex m now d).1 kept in
      elim (ending (evaluate_mint sha256_hex m now d).0) [
        | inl (_, r) ↦ rw (r, evaluate_mints) kept
        | inr (inl r) ↦ rw (r, evaluate_mints) rest
        | inr (inr (_, r)) ↦ rw (r, evaluate_mints) rest
      ]

  -- A detection, whatever the events and whether it is broken off by an error or not, leaves a candidate
  -- store that holds one candidate for a mint at most, if it held one at most before.
  pub detect_at-OnePerMint :
      (now : ℤ) (d : ActiveTokenDetector F)
      → OnePerMint d.candidate_store
      → OnePerMint (detect_at sha256_hex now d).1.candidate_store
  unfolding detect_at
  detect_at-OnePerMint now d = evaluate_mints-OnePerMint now _ d
