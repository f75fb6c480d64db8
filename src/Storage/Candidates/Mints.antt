-- ===== src/Storage/Candidates/Mints.antt =====
-- The candidates of the store of internal/storage/memory/candidate_store.go by their mints.
use solana_token_lab.Base.{
  ◌≡◌, refl, ap, ◌++◌, same_text_iff, Bool, false, Bool-cases, inl, inr, List, [], ◌∷◌, some,
  String, same_text, arith,
}
use solana_token_lab.Base.Lists.{All, All-imp, AllPairs, AllPairs-append, length, length-perm}
use solana_token_lab.Base.Sort.{sort_slice, sort_slice-perm}
use solana_token_lab.Result.{ok}
use solana_token_lab.Domain.{TokenCandidate}
use solana_token_lab.Storage.Keyed.{Entries, contains, select}
use solana_token_lab.Storage.Keyed.Inserts.{put_new}
use solana_token_lab.Storage.Candidates
use solana_token_lab.Storage.Candidates.{CandidateStore, candidate_key, is_valid, get_by_mint}

nil_of_sorted : {A : Type 0} (less : A → A → Bool) (xs : List A) → sort_slice less xs ≡ [] → xs ≡ []
nil_of_sorted less [] h = refl
nil_of_sorted less (x ∷ xs) h =
    let same : length (sort_slice less (x ∷ xs)) ≡ length (x ∷ xs) =
      length-perm (sort_slice-perm less (x ∷ xs)) in
    let none : length (sort_slice less (x ∷ xs)) ≡ 0 = ap length h in absurd (omega arith)

unselected :
    {V : Type 0} (p : V → Bool) (m : Entries V)
    → select p m ≡ []
    → All (λ (e : String × V). p e.1 ≡ false) m
unfolding select
unselected p [] h = tt
unselected p ((k, v) ∷ m) h = elim (Bool-cases (p v)) [
  | inl e ↦ cc
  | inr e ↦ (e, unselected p m (ground arith))
]

-- No two stored candidates have one mint.
abbrev pub OnePerMint : CandidateStore → Type 0
OnePerMint = AllPairs λ (a b : String × TokenCandidate). same_text a.1.mint b.1.mint ≡ false

pub insert-OnePerMint :
    (c : TokenCandidate) (s : CandidateStore)
    → get_by_mint c.mint s ≡ []
    → OnePerMint s
    → OnePerMint (Candidates.insert (some c) s).1
unfolding Candidates.insert get_by_mint
insert-OnePerMint c s free h = elim (Bool-cases (is_valid c)) [
  | inr e ↦ rw e h
  | inl e ↦ elim (Bool-cases (contains (candidate_key c) s)) [
    | inl k ↦ rw (e, k) h
    | inr k ↦
        rw (e, k, put_new (candidate_key c) c s k)
          (AllPairs-append (λ (a b : String × TokenCandidate). same_text a.1.mint b.1.mint ≡ false)
            s ((candidate_key c, c) ∷ []) h (tt, tt)
            (All-imp (λ (a : String × TokenCandidate). same_text a.1.mint c.mint ≡ false) _
              (λ a q. (q, tt)) s (unselected _ s (nil_of_sorted _ _ free))))
  ]
]

-- No stored candidate has the mint.
abbrev pub Free : String → CandidateStore → Type 0
Free mint = All λ (e : String × TokenCandidate). same_text e.1.mint mint ≡ false

pub get_by_mint-Free : (mint : String) (s : CandidateStore) → get_by_mint mint s ≡ [] → Free mint s
unfolding get_by_mint
get_by_mint-Free mint s h = unselected _ s (nil_of_sorted _ _ h)

-- What is free later was free before.
abbrev pub Grows : CandidateStore → CandidateStore → Type 0
Grows s s' = (mint : String) → Free mint s' → Free mint s

Free-append :
    (mint : String) (s t : CandidateStore) → Free mint (s ++ t) → Free mint s × Free mint t
Free-append mint [] t h = (tt, h)
Free-append mint (e ∷ s) t (h, hs) = let (a, b) = Free-append mint s t hs in ((h, a), b)

pub insert-Grows :
    (c : TokenCandidate) (s : CandidateStore) → Grows s (Candidates.insert (some c) s).1
unfolding Candidates.insert
insert-Grows c s mint h = elim (Bool-cases (is_valid c)) [
  | inr e ↦ rw e at h
  | inl e ↦ elim (Bool-cases (contains (candidate_key c) s)) [
    | inl k ↦ rw (e, k) at h
    | inr k ↦
        (Free-append mint s ((candidate_key c, c) ∷ [])
          (rw (e, k, put_new (candidate_key c) c s k) at h)).0
  ]
]

-- A mint is not free once a candidate with it was inserted.
pub insert-taken :
    (c : TokenCandidate) (s : CandidateStore)
    → (Candidates.insert (some c) s).0 ≡ ok tt
    → ¬ Free c.mint (Candidates.insert (some c) s).1
unfolding Candidates.insert
insert-taken c s r h = elim (Bool-cases (is_valid c)) [
  | inr e ↦ let bad = rw e at r in absurd (ground arith)
  | inl e ↦ elim (Bool-cases (contains (candidate_key c) s)) [
    | inl k ↦ let bad = rw (e, k) at r in absurd (ground arith)
    | inr k ↦
        let (_, (other, _)) =
          Free-append c.mint s ((candidate_key c, c) ∷ [])
            (rw (e, k, put_new (candidate_key c) c s k) at h) in
        let own = (same_text_iff c.mint c.mint).1 refl in absurd cc
  ]
]
