-- ===== src/Pipeline/Sufficiency/Events.antt =====
-- What the check of missing events in internal/pipeline/sufficiency.go passes.
use mathlib.Core.List.Permᴰ
use mathlib.Core.Path.{subst}
use solana_token_lab.Base.{
  ◌≡◌, refl, sym, ◌↔◌, inl, inr, true, List, [], ◌∷◌, some, ◌+◌, ◌==◌, ◌∙◌, ℕ, arith, Option-cases,
}
use solana_token_lab.Base.Lists.{All, All-perm}
use solana_token_lab.Base.Sort.{sort_slice-perm}
use solana_token_lab.Domain.{TokenCandidate}
use solana_token_lab.Storage.Swaps
use solana_token_lab.Storage.Swaps.{SwapStore}
use solana_token_lab.Storage.LiquidityEvents
use solana_token_lab.Storage.LiquidityEvents.{LiquidityEventStore}
use solana_token_lab.Pipeline.Sufficiency.{
  SufficiencyChecker, sort_candidates, missing, missing_events, check_missing_events,
}

missing_iff : {A : Type 0} (xs : List A) → (missing xs ≡ 0) ↔ (¬ (xs ≡ []))
missing_iff [] = (λ h. absurd (omega (arith, h)), λ h. absurd (h refl))
missing_iff (x ∷ xs) = (λ h e. cc, λ h. refl)

zero_iff : (n : ℕ) → ((n == 0) ≡ true) ↔ (n ≡ 0)
zero_iff n = (λ h. ground arith, λ h. ground arith)

sort_candidates_iff :
    (P : TokenCandidate → Type 0) (cs : List TokenCandidate) → All P (sort_candidates cs) ↔ All P cs
unfolding sort_candidates
sort_candidates_iff P cs = let d = sort_slice-perm _ cs in (All-perm P d, All-perm P (Permᴰ.symm d))

module _ {F : Type 0} where
  -- The candidate has a swap and a liquidity event.
  abbrev pub HasEvents : SwapStore F → LiquidityEventStore F → TokenCandidate → Type 0
  HasEvents swaps liquidity c =
      (¬ (Swaps.get_by_candidate_id c.candidate_id swaps ≡ []))
      × (¬ (LiquidityEvents.get_by_candidate_id c.candidate_id liquidity ≡ []))

  missing_events_iff :
      (swaps : SwapStore F) (liquidity : LiquidityEventStore F) (cs : List TokenCandidate)
      → ((missing_events swaps liquidity cs).0 + (missing_events swaps liquidity cs).1 ≡ 0)
        ↔ All (HasEvents swaps liquidity) cs
  unfolding missing_events
  missing_events_iff swaps liquidity [] = (λ h. tt, λ h. refl)
  missing_events_iff swaps liquidity (c ∷ cs) =
      let s = Swaps.get_by_candidate_id c.candidate_id swaps in
      let l = LiquidityEvents.get_by_candidate_id c.candidate_id liquidity in
      let (swapless, swapped) = missing_iff s in
      let (dry, liquid) = missing_iff l in
      let (to, from) = missing_events_iff swaps liquidity cs in
      (
        λ h. ((swapless (ground arith), dry (ground arith)), to (ground arith)),
        λ ((hs, hl), h). let a = swapped hs in let b = liquid hl in let k = from h in ground arith,
      )

  pass_iff :
      (c : SufficiencyChecker F) (candidates : List TokenCandidate) (swaps : SwapStore F)
      (liquidity : LiquidityEventStore F)
      → c.swap_store ≡ some swaps
      → c.liquidity_store ≡ some liquidity
      → ((check_missing_events c candidates).0.pass ≡ true)
        ↔ All (HasEvents swaps liquidity) candidates
  unfolding check_missing_events
  pass_iff c candidates swaps liquidity e f =
      let sorted = sort_candidates candidates in
      let found = missing_events swaps liquidity sorted in
      let passed : (check_missing_events c candidates).0.pass ≡ ((found.0 + found.1) == 0) =
        rw (e, f) refl in
      let (to, from) = missing_events_iff swaps liquidity sorted in
      let (all, back) = sort_candidates_iff (HasEvents swaps liquidity) candidates in
      let (zero, test) = zero_iff (found.0 + found.1) in
      (λ h. all (to (zero (sym passed ∙ h))), λ h. passed ∙ test (from (back h)))

  -- The check of missing events passes exactly when both stores are there and every candidate has a swap and
  -- a liquidity event in them.
  pub check_missing_events_iff :
      (c : SufficiencyChecker F) (candidates : List TokenCandidate)
      → ((check_missing_events c candidates).0.pass ≡ true) ↔ (
          (swaps : SwapStore F) × (liquidity : LiquidityEventStore F) × (c.swap_store ≡ some swaps)
          × (c.liquidity_store ≡ some liquidity)
          × All (HasEvents swaps liquidity) candidates)
  unfolding check_missing_events
  check_missing_events_iff c candidates = elim (Option-cases c.swap_store) [
    | inl e ↦ (λ h. absurd (ground arith), λ (swaps, liquidity, f, g, h). absurd cc)
    | inr (swaps, e) ↦ elim (Option-cases c.liquidity_store) [
      | inl f ↦ (λ h. absurd (ground arith), λ (others, liquidity, f', g, h). absurd cc)
      | inr (liquidity, f) ↦
          let (to, from) = pass_iff c candidates swaps liquidity e f in
          (
            λ h. (swaps, liquidity, e, f, to h),
            λ (s, l, e', f', h).
                let same : s ≡ swaps = cc in
                let alike : l ≡ liquidity = cc in
                let moved = subst (λ x. All (HasEvents x l) candidates) same h in
                from (subst (λ x. All (HasEvents swaps x) candidates) alike moved),
          )
    ]
  ]
