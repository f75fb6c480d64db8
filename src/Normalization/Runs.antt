-- ===== src/Normalization/Runs.antt =====
-- The loop that both time series share: a current point takes in the events that continue it, and an
-- event that does not starts the next point. Against it stands a plain description: the events cut
-- into runs.
use solana_token_lab.Base.{
  ◌≡◌, refl, ap, ◌∙◌, Bool, true, false, List, [], ◌∷◌, ◌++◌, map, Option, none, some, Bool-cases,
  inl, inr, if◌then◌else◌,
}
use mathlib.Core.List.{foldl, append_assoc}
use solana_token_lab.Base.Lists.{All, All-append}

module _ {A P : Type 0} (start : A → P) (continues : P → A → Bool) (update : P → A → P) where
  unfoldable pub collect : List P → Option P → List A → List P
  collect result none [] = result
  collect result (some current) [] = result ++ (current ∷ [])
  collect result none (x ∷ xs) = collect result (some (start x)) xs
  collect result (some current) (x ∷ xs) =
      let grown = collect result (some (update current x)) xs in
      let next = collect (result ++ (current ∷ [])) (some (start x)) xs in
      if continues current x then grown else next

-- A run: its first element and the rest.
abbrev pub Run : Type 0 → Type 0
Run A = A × List A

abbrev pub elements : {A : Type 0} → List (Run A) → List A
elements [] = []
elements ((a, rest) ∷ rs) = (a ∷ rest) ++ elements rs

module _ {A : Type 0} (same : A → A → Bool) where
  runs_from : A → List A → List A → List (Run A)
  runs_from a rest [] = (a, rest) ∷ []
  runs_from a rest (x ∷ xs) =
      let grown = runs_from a (rest ++ (x ∷ [])) xs in
      let next = runs_from x [] xs in if same a x then grown else (a, rest) ∷ next

  pub runs : List A → List (Run A)
  unfolding runs_from
  runs [] = []
  runs (x ∷ xs) = runs_from x [] xs

  -- Every element of the run continues its first one.
  abbrev pub IsUniform : Run A → Type 0
  IsUniform r = All (λ x. same r.0 x ≡ true) r.1

  -- No run is continued by the first element of the next.
  abbrev pub Breaks : List (Run A) → Type 0
  Breaks [] = Unit
  Breaks (r ∷ []) = Unit
  Breaks (r ∷ s ∷ rs) = (same r.0 s.0 ≡ false) × Breaks (s ∷ rs)

  elements-runs_from :
      (a : A) (rest xs : List A) → elements (runs_from a rest xs) ≡ (a ∷ rest) ++ xs
  unfolding runs_from
  elements-runs_from a rest [] = refl
  elements-runs_from a rest (x ∷ xs) = elim (Bool-cases (same a x)) [
    | inl e ↦ rw e (elements-runs_from a (rest ++ (x ∷ [])) xs ∙ simp append_assoc)
    | inr e ↦ rw e (ap (λ t. (a ∷ rest) ++ t) (elements-runs_from x [] xs))
  ]

  -- The runs are the list, cut.
  pub elements-runs : (xs : List A) → elements (runs xs) ≡ xs
  unfolding runs
  elements-runs [] = refl
  elements-runs (x ∷ xs) = elements-runs_from x [] xs

  runs_from-IsUniform :
      (a : A) (rest xs : List A) → IsUniform (a, rest) → All IsUniform (runs_from a rest xs)
  unfolding runs_from
  runs_from-IsUniform a rest [] h = (h, tt)
  runs_from-IsUniform a rest (x ∷ xs) h = elim (Bool-cases (same a x)) [
    | inl e ↦ rw e (
        runs_from-IsUniform a (rest ++ (x ∷ [])) xs
          (All-append (λ z. same a z ≡ true) rest (x ∷ []) h (e, tt)))
    | inr e ↦ rw e (h, runs_from-IsUniform x [] xs tt)
  ]

  pub runs-IsUniform : (xs : List A) → All IsUniform (runs xs)
  unfolding runs
  runs-IsUniform [] = tt
  runs-IsUniform (x ∷ xs) = runs_from-IsUniform x [] xs tt

  Breaks-cons :
      (r : Run A) (x : A) (rest xs : List A)
      → same r.0 x ≡ false
      → Breaks (runs_from x rest xs)
      → Breaks (r ∷ runs_from x rest xs)
  unfolding runs_from
  Breaks-cons r x rest [] e h = (e, tt)
  Breaks-cons r x rest (y ∷ ys) e h = elim (Bool-cases (same x y)) [
    | inl c ↦ rw c (Breaks-cons r x (rest ++ (y ∷ [])) ys e (rw c at h))
    | inr c ↦ rw c (e, (rw c at h))
  ]

  runs_from-Breaks : (a : A) (rest xs : List A) → Breaks (runs_from a rest xs)
  unfolding runs_from
  runs_from-Breaks a rest [] = tt
  runs_from-Breaks a rest (x ∷ xs) = elim (Bool-cases (same a x)) [
    | inl e ↦ rw e (runs_from-Breaks a (rest ++ (x ∷ [])) xs)
    | inr e ↦ rw e (Breaks-cons (a, rest) x [] xs e (runs_from-Breaks x [] xs))
  ]

  pub runs-Breaks : (xs : List A) → Breaks (runs xs)
  unfolding runs
  runs-Breaks [] = tt
  runs-Breaks (x ∷ xs) = runs_from-Breaks x [] xs

-- The loop makes one point of each run, where a point is continued by what continues the first
-- element of its run.
module _ {A P : Type 0} (start : A → P) (continues : P → A → Bool) (update : P → A → P)
    (same : A → A → Bool) (continues-start : (a x : A) → continues (start a) x ≡ same a x)
    (continues-update : (p : P) (a x : A) → continues (update p a) x ≡ continues p x) where
  abbrev pub point_of : Run A → P
  point_of r = foldl update (start r.0) r.1

  continues-foldl :
      (p : P) (rest : List A) (x : A) → continues (foldl update p rest) x ≡ continues p x
  continues-foldl p [] x = refl
  continues-foldl p (y ∷ ys) x = continues-foldl (update p y) ys x ∙ continues-update p y x

  foldl-snoc :
      (p : P) (rest : List A) (x : A)
      → foldl update p (rest ++ (x ∷ [])) ≡ update (foldl update p rest) x
  foldl-snoc p [] x = refl
  foldl-snoc p (y ∷ ys) x = foldl-snoc (update p y) ys x

  collect-runs_from :
      (result : List P) (a : A) (rest xs : List A)
      → collect start continues update result (some (point_of (a, rest))) xs
        ≡ result ++ map point_of (runs_from same a rest xs)
  unfolding collect runs_from
  collect-runs_from result a rest [] = refl
  collect-runs_from result a rest (x ∷ xs) = elim (Bool-cases (same a x)) [
    | inl e ↦
        rw (continues-foldl (start a) rest x, continues-start a x, e, ← foldl-snoc (start a) rest x)
          (collect-runs_from result a (rest ++ (x ∷ [])) xs)
    | inr e ↦
        rw (continues-foldl (start a) rest x, continues-start a x, e)
          (collect-runs_from (result ++ (point_of (a, rest) ∷ [])) x [] xs ∙ simp append_assoc)
  ]

  pub collect-runs :
      (xs : List A) → collect start continues update [] none xs ≡ map point_of (runs same xs)
  unfolding collect runs
  collect-runs [] = refl
  collect-runs (x ∷ xs) = collect-runs_from [] x [] xs
