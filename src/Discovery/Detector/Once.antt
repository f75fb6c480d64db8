-- ===== src/Discovery/Detector/Once.antt =====
-- The detector of internal/discovery/detector.go over events whose mints come again.
use mathlib.Core.Path.{subst}
use solana_token_lab.Base.{
  ◌≡◌, refl, sym, ap, ◌∙◌, ◌⊎◌, inl, inr, true, false, Bool-cases, ◌||◌, List, [], ◌∷◌, Option,
  none, some, String, same_text, same_text_iff, arith,
}
use solana_token_lab.Base.Lists.{All, All-imp}
use solana_token_lab.Result.{Result, ok, err, Error}
use solana_token_lab.Domain.{SwapEvent, TokenCandidate}
use solana_token_lab.Storage.Keyed.{member}
use solana_token_lab.Storage.Candidates
use solana_token_lab.Storage.Candidates.{CandidateStore, candidate_key, is_valid, get_by_mint}
use solana_token_lab.Storage.Progress.{set_seen}
use solana_token_lab.Storage.Candidates.Mints.{
  OnePerMint, insert-OnePerMint, Free, Grows, insert-Grows, insert-taken, get_by_mint-Free,
}
use solana_token_lab.Discovery.Detector.{
  NewTokenDetector, mark_seen, mark_and_return, sort_swap_events, candidate_of, insert_candidate,
  discover, process_event, process_loop, process_events,
}

pub member-set_seen :
    (m j : String) (seen : List String)
    → member j (set_seen m seen) ≡ (same_text m j || member j seen)
unfolding set_seen member
member-set_seen m j seen = elim (Bool-cases (member m seen)) [
  | inr e ↦ rw e refl
  | inl e ↦ elim (Bool-cases (same_text m j)) [
    | inr k ↦ rw (e, k) refl
    | inl k ↦ rw (e, k) (subst (λ t. member t seen ≡ true) ((same_text_iff m j).0 k) e)
  ]
]

-- How the processing of one event ends.
abbrev pub Ending : Result (Option TokenCandidate) → Type 0
Ending r = ((e : Error) × (r ≡ err e)) ⊎ (r ≡ ok none) ⊎ ((c : TokenCandidate) × (r ≡ ok (some c)))

pub ending : (r : Result (Option TokenCandidate)) → Ending r
ending (err e) = inl (e, refl)
ending (ok none) = inr (inl refl)
ending (ok (some c)) = inr (inr (c, refl))

module _ {F : Type 0} (sha256_hex : String → String) where
  -- What processing an event does to the candidate store.
  abbrev StoreAfter : SwapEvent F → NewTokenDetector → NewTokenDetector → Type 0
  StoreAfter event d d' =
      (d'.candidate_store ≡ d.candidate_store)
      ⊎ ((get_by_mint event.mint d.candidate_store ≡ [])
          × (d'.candidate_store
              ≡ (Candidates.insert (some (candidate_of sha256_hex event)) d.candidate_store).1))

  process_event-StoreAfter :
      (event : SwapEvent F) (d : NewTokenDetector)
      → StoreAfter event d (process_event sha256_hex event d).1
  unfolding process_event discover insert_candidate mark_and_return mark_seen
  process_event-StoreAfter event d = ground arith

  pub process_event-OnePerMint :
      (event : SwapEvent F) (d : NewTokenDetector)
      → OnePerMint d.candidate_store
      → OnePerMint (process_event sha256_hex event d).1.candidate_store
  process_event-OnePerMint event d h = elim (process_event-StoreAfter event d) [
    | inl same ↦ subst OnePerMint (sym same) h
    | inr (free, added) ↦
        subst OnePerMint (sym added)
          (insert-OnePerMint (candidate_of sha256_hex event) d.candidate_store free h)
  ]

  -- After an event without an error its mint is in the cache, and the cache only grows.
  seen_after :
      (event : SwapEvent F) (d : NewTokenDetector) (found : Option TokenCandidate)
      → (process_event sha256_hex event d).0 ≡ ok found
      → member event.mint (process_event sha256_hex event d).1.seen_mints ≡ true
  unfolding process_event discover insert_candidate mark_and_return mark_seen
  seen_after event d found h = ground (
    arith,
    same_text_iff event.mint event.mint,
    member-set_seen event.mint event.mint d.seen_mints,
  )

  seen_kept :
      (event : SwapEvent F) (d : NewTokenDetector) (mint : String)
      → member mint d.seen_mints ≡ true
      → member mint (process_event sha256_hex event d).1.seen_mints ≡ true
  unfolding process_event discover insert_candidate mark_and_return mark_seen
  seen_kept event d mint h = ground (arith, member-set_seen event.mint mint d.seen_mints)

  seen_skipped :
      (event : SwapEvent F) (d : NewTokenDetector)
      → member event.mint d.seen_mints ≡ true
      → process_event sha256_hex event d ≡ (ok none, d)
  unfolding process_event
  seen_skipped event d h = rw h refl

  abbrev AllSeen : NewTokenDetector → List (SwapEvent F) → Type 0
  AllSeen d = All λ e. member e.mint d.seen_mints ≡ true

  AllSeen-process_event :
      (event : SwapEvent F) (d : NewTokenDetector) (es : List (SwapEvent F))
      → AllSeen d es
      → AllSeen (process_event sha256_hex event d).1 es
  AllSeen-process_event event d es h =
      All-imp (λ (e : SwapEvent F). member e.mint d.seen_mints ≡ true) _
        (λ e k. seen_kept event d e.mint k) es h

  process_loop-OnePerMint :
      (es : List (SwapEvent F)) (d : NewTokenDetector)
      → OnePerMint d.candidate_store
      → OnePerMint (process_loop sha256_hex es d).1.candidate_store
  unfolding process_loop
  process_loop-OnePerMint [] d h = h
  process_loop-OnePerMint (e ∷ es) d h =
      let kept = process_event-OnePerMint e d h in
      let rest = process_loop-OnePerMint es (process_event sha256_hex e d).1 kept in
      elim (ending (process_event sha256_hex e d).0) [
        | inl (_, r) ↦ rw (r, process_loop) kept
        | inr (inl r) ↦ rw (r, process_loop) rest
        | inr (inr (_, r)) ↦ rw (r, process_loop) rest
      ]

  loop_keeps :
      (es : List (SwapEvent F)) (d : NewTokenDetector) (mint : String)
      → member mint d.seen_mints ≡ true
      → member mint (process_loop sha256_hex es d).1.seen_mints ≡ true
  unfolding process_loop
  loop_keeps [] d mint h = h
  loop_keeps (e ∷ es) d mint h =
      let kept = seen_kept e d mint h in
      let rest = loop_keeps es (process_event sha256_hex e d).1 mint kept in
      elim (ending (process_event sha256_hex e d).0) [
        | inl (_, r) ↦ rw (r, process_loop) kept
        | inr (inl r) ↦ rw (r, process_loop) rest
        | inr (inr (_, r)) ↦ rw (r, process_loop) rest
      ]

  -- An event without an error leaves the rest of the loop to end it.
  loop_continues :
      (e : SwapEvent F) (es : List (SwapEvent F)) (d : NewTokenDetector)
      (found : Option TokenCandidate)
      → (process_event sha256_hex e d).0 ≡ ok found
      → let rest = process_loop sha256_hex es (process_event sha256_hex e d).1 in
        ((process_loop sha256_hex (e ∷ es) d).1 ≡ rest.1)
        × ((process_loop sha256_hex (e ∷ es) d).0.1 ≡ rest.0.1)
  unfolding process_loop
  loop_continues e es d none h = (rw (h, process_loop) refl, rw (h, process_loop) refl)
  loop_continues e es d (some c) h = (rw (h, process_loop) refl, rw (h, process_loop) refl)

  loop_breaks :
      (e : SwapEvent F) (es : List (SwapEvent F)) (d : NewTokenDetector) (f : Error)
      → (process_event sha256_hex e d).0 ≡ err f
      → (process_loop sha256_hex (e ∷ es) d).0.1 ≡ err f
  unfolding process_loop
  loop_breaks e es d f h = rw (h, process_loop) refl

  -- A loop that ends without an error has had no event with one.
  loop_ok :
      (e : SwapEvent F) (es : List (SwapEvent F)) (d : NewTokenDetector)
      → (process_loop sha256_hex (e ∷ es) d).0.1 ≡ ok tt
      → (found : Option TokenCandidate) × ((process_event sha256_hex e d).0 ≡ ok found)
  loop_ok e es d h = elim (ending (process_event sha256_hex e d).0) [
    | inl (f, r) ↦ let broken = loop_breaks e es d f r in cc
    | inr (inl r) ↦ (none, r)
    | inr (inr (c, r)) ↦ (some c, r)
  ]

  loop_sees :
      (es : List (SwapEvent F)) (d : NewTokenDetector)
      → (process_loop sha256_hex es d).0.1 ≡ ok tt
      → AllSeen (process_loop sha256_hex es d).1 es
  loop_sees [] d h = tt
  loop_sees (e ∷ es) d h =
      let d' = (process_event sha256_hex e d).1 in
      let (found, r) = loop_ok e es d h in
      let (same, ends) = loop_continues e es d found r in
      subst (λ t. AllSeen t (e ∷ es)) (sym same)
        (loop_keeps es d' e.mint (seen_after e d found r), loop_sees es d' (sym ends ∙ h))

  loop_skip :
      (e : SwapEvent F) (es : List (SwapEvent F)) (d : NewTokenDetector)
      → (process_event sha256_hex e d).0 ≡ ok none
      → process_loop sha256_hex (e ∷ es) d
        ≡ process_loop sha256_hex es (process_event sha256_hex e d).1
  unfolding process_loop
  loop_skip e es d h = rw (h, process_loop) refl

  loop_skips :
      (es : List (SwapEvent F)) (d : NewTokenDetector)
      → AllSeen d es
      → process_loop sha256_hex es d ≡ (([], ok tt), d)
  unfolding process_loop
  loop_skips [] d h = refl
  loop_skips (e ∷ es) d (h, hs) =
      let skipped = seen_skipped e d h in
      loop_skip e es d (ap (λ t. t.0) skipped)
      ∙ ap (λ t. process_loop sha256_hex es t.1) skipped
      ∙ loop_skips es d hs

  -- From a store that holds one candidate for a mint at most, a batch of events leaves such a store,
  -- whether it is processed to its end or broken off by an error; and a batch that was processed to its
  -- end gives no candidate and no error, and changes nothing, when the same events are processed again.
  pub process_events_once :
      (es : List (SwapEvent F)) (d : NewTokenDetector)
      → OnePerMint d.candidate_store
      → let (found, d') = process_events sha256_hex es d in
        OnePerMint d'.candidate_store
        × (found.1 ≡ ok tt → process_events sha256_hex es d' ≡ (([], ok tt), d'))
  unfolding process_events
  process_events_once es d h = (
    process_loop-OnePerMint (sort_swap_events es) d h,
    λ k. loop_skips (sort_swap_events es) _ (loop_sees (sort_swap_events es) d k),
  )

  pub process_event-Grows :
      (event : SwapEvent F) (d : NewTokenDetector)
      → Grows d.candidate_store (process_event sha256_hex event d).1.candidate_store
  process_event-Grows event d mint h = elim (process_event-StoreAfter event d) [
    | inl same ↦ subst (Free mint) same h
    | inr (_, added) ↦
        insert-Grows (candidate_of sha256_hex event) d.candidate_store mint
          (subst (Free mint) added h)
  ]

  -- A candidate that is found has a mint that was free and is not any more.
  pub process_event-found :
      (event : SwapEvent F) (d : NewTokenDetector) (c : TokenCandidate)
      → (process_event sha256_hex event d).0 ≡ ok (some c)
      → Free c.mint d.candidate_store
        × ¬ Free c.mint (process_event sha256_hex event d).1.candidate_store
  unfolding process_event discover insert_candidate mark_and_return mark_seen
  process_event-found event d c h =
      let made : c ≡ candidate_of sha256_hex event = ground arith in
      let free : get_by_mint event.mint d.candidate_store ≡ [] = ground arith in
      let done : (Candidates.insert (some (candidate_of sha256_hex event)) d.candidate_store).0
          ≡ ok tt =
        ground arith in
      let stored : (process_event sha256_hex event d).1.candidate_store
          ≡ (Candidates.insert (some (candidate_of sha256_hex event)) d.candidate_store).1 =
        ground arith in
      let taken = insert-taken (candidate_of sha256_hex event) d.candidate_store done in
      (
        subst (λ (x : TokenCandidate). Free x.mint d.candidate_store) (sym made)
            (get_by_mint-Free event.mint d.candidate_store free),
        λ k. taken (
            subst
              (λ (x : TokenCandidate).
                Free x.mint
                  (Candidates.insert (some (candidate_of sha256_hex event)) d.candidate_store).1)
              made (subst (Free c.mint) stored k)),
      )

  -- A candidate is that of an event whose mint was not in the cache.
  found_new :
      (event : SwapEvent F) (d : NewTokenDetector) (c : TokenCandidate)
      → (process_event sha256_hex event d).0 ≡ ok (some c)
      → (c.mint ≡ event.mint) × (member event.mint d.seen_mints ≡ false)
  unfolding process_event discover insert_candidate mark_and_return mark_seen
  found_new event d c h = ground arith
