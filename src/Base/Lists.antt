-- ===== src/Base/Lists.antt =====
-- Predicates on lists by recursion, and lengths over the native numbers.
use Prim.Native.Nat.{ℕ, zero, suc, ◌+◌}
use mathlib.Core.Path.{◌≡◌, refl, sym, ap, subst, ◌∙◌}
use mathlib.Core.List.{List, [], ◌∷◌, ◌++◌, map, Memᴰ, Permᴰ}
use mathlib.Core.List.Permᴰ
use mathlib.Core.Logic.{inl, inr}
use mathlib.Core.Bool.{Bool, ◌&&◌}
use solana_token_lab.Base.Tests.{if◌then◌else◌, Bool-cases}
use mathlib.Core.Option.{Option, none, some}
use native.Mathlib.Omega.{arith}

module _ {ℓ} {A : Type ℓ} where
  abbrev pub length : List A → ℕ
  length [] = 0
  length (_ ∷ xs) = suc (length xs)

  abbrev pub get_elem? : List A → ℕ → Option A
  get_elem? [] i = none
  get_elem? (x ∷ xs) zero = some x
  get_elem? (x ∷ xs) (suc i) = get_elem? xs i

  pub length-append : (xs ys : List A) → length (xs ++ ys) ≡ length xs + length ys
  length-append [] ys = omega arith
  length-append (x ∷ xs) ys = omega (arith, length-append xs ys)

  abbrev pub All {κ} : (A → Type κ) → List A → Type κ
  All P [] = Unit
  All P (x ∷ xs) = P x × All P xs

  -- Every earlier element is related to every later one.
  abbrev pub AllPairs {κ} : (A → A → Type κ) → List A → Type κ
  AllPairs R [] = Unit
  AllPairs R (x ∷ xs) = All (R x) xs × AllPairs R xs

  pub All-append {κ} : (P : A → Type κ) (xs ys : List A) → All P xs → All P ys → All P (xs ++ ys)
  All-append P [] ys hx hy = hy
  All-append P (x ∷ xs) ys (h, hx) hy = (h, All-append P xs ys hx hy)

  pub All-imp {κ μ} :
      (P : A → Type κ) (Q : A → Type μ)
      → ((a : A) → P a → Q a)
      → (xs : List A) → All P xs
      → All Q xs
  All-imp P Q f [] h = tt
  All-imp P Q f (x ∷ xs) (h, hs) = (f x h, All-imp P Q f xs hs)

  pub All-perm {κ} : (P : A → Type κ) {xs ys : List A} → Permᴰ xs ys → All P xs → All P ys
  All-perm P Permᴰ.nil h = h
  All-perm P (Permᴰ.cons e d) (h, hs) = (subst P e h, All-perm P d hs)
  All-perm P (Permᴰ.swap e f) (h, (k, hs)) = (subst P f k, (subst P e h, hs))
  All-perm P (Permᴰ.trans d e) h = All-perm P e (All-perm P d h)

  pub AllPairs-perm {κ} :
      (R : A → A → Type κ)
      → ((a b : A) → R a b → R b a)
      → {xs ys : List A} → Permᴰ xs ys
      → AllPairs R xs
      → AllPairs R ys
  AllPairs-perm R s Permᴰ.nil h = h
  AllPairs-perm R s (Permᴰ.cons {l₂ = l} e d) (h, hs) =
      (rw (← e) (All-perm (R _) d h), AllPairs-perm R s d hs)
  AllPairs-perm R s (Permᴰ.swap {l = l} e f) ((r, ha), (hb, hs)) = (
    (rw (← e, ← f) (s _ _ r), subst (λ z. All (R z) l) f hb),
    (subst (λ z. All (R z) l) e ha, hs),
  )
  AllPairs-perm R s (Permᴰ.trans d e) h = AllPairs-perm R s e (AllPairs-perm R s d h)

module _ {ℓ κ} {A : Type ℓ} {B : Type κ} where
  pub map-perm : (f : A → B) {xs ys : List A} → Permᴰ xs ys → Permᴰ (map f xs) (map f ys)
  map-perm f Permᴰ.nil = Permᴰ.nil
  map-perm f (Permᴰ.cons e d) = Permᴰ.cons (ap f e) (map-perm f d)
  map-perm f (Permᴰ.swap e g) = Permᴰ.swap (ap f e) (ap f g)
  map-perm f (Permᴰ.trans d e) = Permᴰ.trans (map-perm f d) (map-perm f e)

  pub All-map {μ} :
      (P : B → Type μ) (f : A → B) (xs : List A) → All (λ a. P (f a)) xs → All P (map f xs)
  All-map P f [] h = tt
  All-map P f (x ∷ xs) (h, hs) = (h, All-map P f xs hs)

  pub AllPairs-map {μ} :
      (R : B → B → Type μ) (f : A → B) (xs : List A)
      → AllPairs (λ a b. R (f a) (f b)) xs
      → AllPairs R (map f xs)
  AllPairs-map R f [] h = tt
  AllPairs-map R f (x ∷ xs) (h, hs) = (All-map (R (f x)) f xs h, AllPairs-map R f xs hs)

module _ {ℓ} {A : Type ℓ} where
  pub All-every {μ} : (P : A → Type μ) → ((a : A) → P a) → (xs : List A) → All P xs
  All-every P h [] = tt
  All-every P h (x ∷ xs) = (h x, All-every P h xs)

  -- What holds of all elements holds of one.
  pub All-at {μ} : (P : A → Type μ) {a : A} {xs : List A} → Memᴰ a xs → All P xs → P a
  All-at P (Memᴰ.head e) (h, hs) = subst P (sym e) h
  All-at P (Memᴰ.tail m) (h, hs) = All-at P m hs

  pub All-listed : (xs : List A) → All (λ a. Memᴰ a xs) xs
  All-listed [] = tt
  All-listed (x ∷ xs) = (
    Memᴰ.head refl,
    All-imp (λ a. Memᴰ a xs) (λ a. Memᴰ a (x ∷ xs)) (λ a m. Memᴰ.tail m) xs (All-listed xs),
  )

module _ {ℓ κ} {A : Type ℓ} (R : A → A → Type κ) where
  pub AllPairs-append :
      (xs ys : List A)
      → AllPairs R xs
      → AllPairs R ys
      → All (λ x. All (R x) ys) xs
      → AllPairs R (xs ++ ys)
  AllPairs-append [] ys hx hy c = hy
  AllPairs-append (x ∷ xs) ys (h, hx) hy (c, cs) =
      (All-append (R x) xs ys h c, AllPairs-append xs ys hx hy cs)

  pub AllPairs-imp {μ} :
      (S : A → A → Type μ)
      → ((a b : A) → R a b → S a b)
      → (xs : List A) → AllPairs R xs
      → AllPairs S xs
  AllPairs-imp S f [] h = tt
  AllPairs-imp S f (x ∷ xs) (h, hs) = (All-imp (R x) (S x) (f x) xs h, AllPairs-imp S f xs hs)

pub length-perm : {A : Type 0} {xs ys : List A} → Permᴰ xs ys → length xs ≡ length ys
length-perm Permᴰ.nil = refl
length-perm (Permᴰ.cons e p) = ap suc (length-perm p)
length-perm (Permᴰ.swap e f) = refl
length-perm (Permᴰ.trans p q) = length-perm p ∙ length-perm q

-- The elements that pass a test, in their order.
module _ {ℓ} {A : Type ℓ} (p : A → Bool) where
  unfoldable pub keep : List A → List A
  keep [] = []
  keep (x ∷ xs) = let rest = keep xs in if p x then x ∷ rest else rest

  pub keep-perm : {xs ys : List A} → Permᴰ xs ys → Permᴰ (keep xs) (keep ys)
  unfolding keep
  keep-perm Permᴰ.nil = Permᴰ.nil
  keep-perm (Permᴰ.cons {a = a} e d) = rw (← e) (elim (Bool-cases (p a)) [
    | inl t ↦ rw t (Permᴰ.cons refl (keep-perm d))
    | inr t ↦ rw t (keep-perm d)
  ])
  keep-perm (Permᴰ.swap {a = a} {b = b} {l = l} e f) =
      rw (← e, ← f)
        (elim (Bool-cases (p a)) [
          | inl t ↦ elim (Bool-cases (p b)) [
            | inl u ↦ rw (t, u) (Permᴰ.swap refl refl)
            | inr u ↦ rw (t, u) (Permᴰ.refl (a ∷ keep l))
          ]
          | inr t ↦ rw t (Permᴰ.refl (if p b then b ∷ keep l else keep l))
        ])
  keep-perm (Permᴰ.trans d e) = Permᴰ.trans (keep-perm d) (keep-perm e)

  pub keep-All {κ} : (P : A → Type κ) (xs : List A) → All P xs → All P (keep xs)
  unfolding keep
  keep-All P [] h = tt
  keep-All P (x ∷ xs) (h, hs) = elim (Bool-cases (p x)) [
    | inl t ↦ rw t (h, keep-All P xs hs)
    | inr t ↦ rw t (keep-All P xs hs)
  ]

  pub keep-AllPairs {κ} : (R : A → A → Type κ) (xs : List A) → AllPairs R xs → AllPairs R (keep xs)
  unfolding keep
  keep-AllPairs R [] h = tt
  keep-AllPairs R (x ∷ xs) (h, hs) = elim (Bool-cases (p x)) [
    | inl t ↦ rw t (keep-All (R x) xs h, keep-AllPairs R xs hs)
    | inr t ↦ rw t (keep-AllPairs R xs hs)
  ]

pub keep-congr {ℓ} :
    {A : Type ℓ} (p q : A → Bool) → ((a : A) → p a ≡ q a) → (xs : List A) → keep p xs ≡ keep q xs
unfolding keep
keep-congr p q h [] = refl
keep-congr p q h (x ∷ xs) = rw (h x, keep-congr p q h xs) refl

pub keep-keep {ℓ} :
    {A : Type ℓ} (p q : A → Bool) (xs : List A) → keep q (keep p xs) ≡ keep (λ a. p a && q a) xs
unfolding keep
keep-keep p q [] = refl
keep-keep p q (x ∷ xs) = elim (Bool-cases (p x)) [
  | inl e ↦ rw (e, keep-keep p q xs) refl
  | inr e ↦ rw (e, keep-keep p q xs) refl
]
