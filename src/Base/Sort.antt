-- ===== src/Base/Sort.antt =====
-- Go's `sort.Slice`, as a stable insertion sort over the program's `less`, and what its result owes
-- to the order alone: a list in which `less` tells all elements apart has one sorted arrangement.
use mathlib.Core.Path.{◌≡◌, refl, ap, ◌∙◌, sym}
use mathlib.Core.Bool.{Bool, true, false}
use Prim.Native.Nat.{Ordering}
use mathlib.Core.Logic.{◌⊎◌, ◌↔◌, inl, inr}
use text.Mathlib.Text.{is_lt}
use mathlib.Core.List.{List, [], ◌∷◌, Permᴰ}
use mathlib.Core.List.Permᴰ
use native.Mathlib.Omega.{arith}
use solana_token_lab.Base.Tests.{if◌then◌else◌, Bool-cases}
use solana_token_lab.Base.ThreeWay.{IsThreeWay, opposite}
use solana_token_lab.Base.Lists.{All, AllPairs, All-perm, All-imp, AllPairs-perm}

module _ {ℓ} {A : Type ℓ} (less : A → A → Bool) where
  insert : A → List A → List A
  insert x [] = x ∷ []
  insert x (y ∷ ys) = if less y x then y ∷ insert x ys else x ∷ y ∷ ys

  unfoldable pub sort_slice : List A → List A
  unfolding insert
  sort_slice [] = []
  sort_slice (x ∷ xs) = insert x (sort_slice xs)

  -- What a Go `less` function is asked to be: a strict weak order.
  pub record IsStrictWeak : Type ℓ where
    pub asym : (a b : A) → less a b ≡ true → less b a ≡ false
    pub not_trans : (a b c : A) → less a b ≡ false → less b c ≡ false → less a c ≡ false

  -- `less` tells the two apart.
  abbrev pub Apart : A → A → Type 0
  Apart a b = (less a b ≡ true) ⊎ (less b a ≡ true)

  abbrev pub NotAfter : A → A → Type 0
  NotAfter a b = less b a ≡ false

  abbrev pub Before : A → A → Type 0
  Before a b = less a b ≡ true

  insert-perm : (x : A) (xs : List A) → Permᴰ (insert x xs) (x ∷ xs)
  unfolding insert
  insert-perm x [] = Permᴰ.refl (x ∷ [])
  insert-perm x (y ∷ ys) = elim (Bool-cases (less y x)) [
    | inl e ↦ rw e (Permᴰ.trans (Permᴰ.cons refl (insert-perm x ys)) (Permᴰ.swap refl refl))
    | inr e ↦ rw e (Permᴰ.refl (x ∷ y ∷ ys))
  ]

  pub sort_slice-perm : (xs : List A) → Permᴰ (sort_slice xs) xs
  unfolding sort_slice
  sort_slice-perm [] = Permᴰ.nil
  sort_slice-perm (x ∷ xs) =
      Permᴰ.trans (insert-perm x (sort_slice xs)) (Permᴰ.cons refl (sort_slice-perm xs))

  module _ (swo : IsStrictWeak) where
    insert-insert :
        (x y : A) (s : List A) → Apart x y → insert x (insert y s) ≡ insert y (insert x s)
    unfolding insert
    insert-insert x y [] h = ground (arith, swo.asym x y, swo.asym y x)
    insert-insert x y (z ∷ zs) h = ground (
      arith,
      swo.asym x y,
      swo.asym y x,
      swo.not_trans x z y,
      swo.not_trans y z x,
      swo.asym z x,
      swo.asym z y,
      insert-insert x y zs h,
    )

    -- The order in which the elements come does not show in the result.
    pub sort_slice-eq_of_perm :
        {xs ys : List A} → Permᴰ xs ys → AllPairs Apart xs → sort_slice xs ≡ sort_slice ys
    unfolding sort_slice
    sort_slice-eq_of_perm Permᴰ.nil h = refl
    sort_slice-eq_of_perm (Permᴰ.cons e d) (h, hs) = rw (e, sort_slice-eq_of_perm d hs)
    sort_slice-eq_of_perm (Permᴰ.swap {a = a} {b = b} {l = l} e f) ((r, ha), (hb, hs)) =
        rw (← e, ← f) (insert-insert a b (sort_slice l) r)
    sort_slice-eq_of_perm (Permᴰ.trans d e) h =
        sort_slice-eq_of_perm d h
        ∙ sort_slice-eq_of_perm e (AllPairs-perm Apart (λ a b. ground arith) d h)

    insert-NotAfter : (x : A) (xs : List A) → AllPairs NotAfter xs → AllPairs NotAfter (insert x xs)
    unfolding insert
    insert-NotAfter x [] h = (tt, tt)
    insert-NotAfter x (y ∷ ys) (h, hs) = elim (Bool-cases (less y x)) [
      | inl e ↦ rw e (
        All-perm (NotAfter y) (Permᴰ.symm (insert-perm x ys)) (swo.asym y x e, h),
        insert-NotAfter x ys hs,
      )
      | inr e ↦
          rw e
            ((e, All-imp (NotAfter y) (NotAfter x) (λ z f. swo.not_trans z y x f e) ys h), (h, hs))
    ]

    -- No element comes before one that `less` puts before it.
    pub sort_slice-NotAfter : (xs : List A) → AllPairs NotAfter (sort_slice xs)
    unfolding sort_slice
    sort_slice-NotAfter [] = tt
    sort_slice-NotAfter (x ∷ xs) = insert-NotAfter x (sort_slice xs) (sort_slice-NotAfter xs)

    insert_before : (x : A) (xs : List A) → All (NotAfter x) xs → insert x xs ≡ x ∷ xs
    unfolding insert
    insert_before x [] h = refl
    insert_before x (y ∷ ys) (h, hs) = rw h

    -- A sorted list stays as it is.
    pub sort_slice_of_sorted : (xs : List A) → AllPairs NotAfter xs → sort_slice xs ≡ xs
    unfolding sort_slice
    sort_slice_of_sorted [] h = refl
    sort_slice_of_sorted (x ∷ xs) (h, hs) = rw (sort_slice_of_sorted xs hs) (insert_before x xs h)

    Apart-symm : (a b : A) → Apart a b → Apart b a
    Apart-symm a b h = ground arith

    pub sort_slice-Apart : (xs : List A) → AllPairs Apart xs → AllPairs Apart (sort_slice xs)
    sort_slice-Apart xs h = AllPairs-perm Apart Apart-symm (Permᴰ.symm (sort_slice-perm xs)) h

    both_Before : (a b : A) → Apart a b → NotAfter a b → Before a b
    both_Before a b r n = ground arith

    zip_head : (x : A) (xs : List A) → All (Apart x) xs → All (NotAfter x) xs → All (Before x) xs
    zip_head x [] h k = tt
    zip_head x (y ∷ ys) (h, hs) (k, ks) = (both_Before x y h k, zip_head x ys hs ks)

    zip_Before : (xs : List A) → AllPairs Apart xs → AllPairs NotAfter xs → AllPairs Before xs
    zip_Before [] h k = tt
    zip_Before (x ∷ xs) (h, hs) (k, ks) = (zip_head x xs h k, zip_Before xs hs ks)

    -- Elements that are told apart come out in strictly ascending order.
    pub sort_slice-Before : (xs : List A) → AllPairs Apart xs → AllPairs Before (sort_slice xs)
    sort_slice-Before xs h =
        zip_Before (sort_slice xs) (sort_slice-Apart xs h) (sort_slice-NotAfter xs)

-- The `less` of a three-way comparison.
abbrev pub less_of {ℓ} : {A : Type ℓ} → (A → A → Ordering) → A → A → Bool
less_of cmp a b = is_lt (cmp a b)

pub less_of-IsStrictWeak {ℓ} :
    {A : Type ℓ} {cmp : A → A → Ordering} → IsThreeWay cmp → IsStrictWeak (less_of cmp)
less_of-IsStrictWeak {cmp} h = record {
  asym = λ a b e. ground (arith, h.flip a b);
  not_trans = λ a b c p q. ground (
    arith,
    h.flip a b,
    h.flip b c,
    h.flip a c,
    h.lt_trans c b a,
    h.eq_left a b c,
    h.eq_left b c a,
    h.eq_left c b a,
  );
}

-- A three-way comparison tells apart what it does not find equal.
pub Apart-iff {ℓ} :
    {A : Type ℓ} {cmp : A → A → Ordering}
    → IsThreeWay cmp
    → (a b : A) → Apart (less_of cmp) a b ↔ ¬ (cmp a b ≡ Ordering.eq)
Apart-iff {cmp} h a b =
    (λ r e. ground (arith, h.flip a b), λ n. not_eq (cmp a b) (cmp b a) n (h.flip a b))
  where
    not_eq :
        (o p : Ordering)
        → ¬ (o ≡ Ordering.eq)
        → p ≡ opposite o
        → (is_lt o ≡ true) ⊎ (is_lt p ≡ true)
    not_eq Ordering.lt p n e = inl refl
    not_eq Ordering.eq p n e = absurd (n refl)
    not_eq Ordering.gt p n e = inr (ap is_lt e)

-- Neighbours in strictly ascending order: what the `Validate…Ordering` loops test.
module _ {ℓ} {A : Type ℓ} (cmp : A → A → Ordering) where
  unfoldable pub ascends : List A → Bool
  ascends [] = true
  ascends (x ∷ []) = true
  ascends (x ∷ y ∷ rest) = elim (cmp x y) [ Ordering.lt ↦ ascends (y ∷ rest) | _ ↦ false ]

  module _ (h : IsThreeWay cmp) where
    Before-trans :
        (x y : A) (xs : List A)
        → Before (less_of cmp) x y
        → All (Before (less_of cmp) y) xs
        → All (Before (less_of cmp) x) xs
    Before-trans x y [] p k = tt
    Before-trans x y (z ∷ zs) p (k, ks) =
        (ground (arith, h.lt_trans x y z), Before-trans x y zs p ks)

    pub ascends→Before : (xs : List A) → ascends xs ≡ true → AllPairs (Before (less_of cmp)) xs
    unfolding ascends
    ascends→Before [] e = tt
    ascends→Before (x ∷ []) e = (tt, tt)
    ascends→Before (x ∷ y ∷ rest) e =
        let tail = ascends→Before (y ∷ rest) (ground arith) in
        let p : Before (less_of cmp) x y = ground arith in
        ((p, Before-trans x y rest p tail.0), tail)

    pub Before→ascends : (xs : List A) → AllPairs (Before (less_of cmp)) xs → ascends xs ≡ true
    unfolding ascends
    Before→ascends [] k = refl
    Before→ascends (x ∷ []) k = refl
    Before→ascends (x ∷ y ∷ rest) ((p, _), ks) = ground (arith, Before→ascends (y ∷ rest) ks)

    Before→Apart :
        (xs : List A) → AllPairs (Before (less_of cmp)) xs → AllPairs (Apart (less_of cmp)) xs
    Before→Apart [] k = tt
    Before→Apart (x ∷ xs) (k, ks) = (
      All-imp (Before (less_of cmp) x) (Apart (less_of cmp) x) (λ a e. inl e) xs k,
      Before→Apart xs ks,
    )

    Before→NotAfter :
        (xs : List A) → AllPairs (Before (less_of cmp)) xs → AllPairs (NotAfter (less_of cmp)) xs
    Before→NotAfter [] k = tt
    Before→NotAfter (x ∷ xs) (k, ks) = (
      All-imp (Before (less_of cmp) x) (NotAfter (less_of cmp) x)
          (λ a. (less_of-IsStrictWeak h).asym x a) xs k,
      Before→NotAfter xs ks,
    )

    -- The one arrangement of a list that ascends is what sorting gives.
    pub sort_slice-eq_of_ascends :
        {xs ys : List A} → Permᴰ xs ys → ascends ys ≡ true → sort_slice (less_of cmp) xs ≡ ys
    sort_slice-eq_of_ascends {xs} {ys} d e =
        let swo = less_of-IsStrictWeak h in
        let k = ascends→Before ys e in
        sym (sort_slice-eq_of_perm (less_of cmp) swo (Permᴰ.symm d) (Before→Apart ys k))
        ∙ sort_slice_of_sorted (less_of cmp) swo ys (Before→NotAfter ys k)

    -- Sorting makes a list ascend exactly when the comparison tells all elements apart.
    pub ascends-sort_slice_iff :
        (xs : List A)
        → (ascends (sort_slice (less_of cmp) xs) ≡ true) ↔ AllPairs (Apart (less_of cmp)) xs
    ascends-sort_slice_iff xs = (
      λ e.
          AllPairs-perm (Apart (less_of cmp)) (λ a b. ground arith)
            (sort_slice-perm (less_of cmp) xs)
            (Before→Apart _ (ascends→Before (sort_slice (less_of cmp) xs) e)),
      λ k.
          Before→ascends (sort_slice (less_of cmp) xs)
            (sort_slice-Before (less_of cmp) (less_of-IsStrictWeak h) xs k),
    )
