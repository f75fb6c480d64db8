-- ===== src/Base/Indices.antt =====
-- A list by its indices.
use Prim.Native.Nat.{ℕ, zero, suc, ◌<◌}
use mathlib.Core.Path.{◌≡◌, refl, subst}
use mathlib.Core.List.{List, [], ◌∷◌, Memᴰ}
use mathlib.Core.Option.{some}
use native.Mathlib.Omega.{arith}
use solana_token_lab.Base.Lists.{length, get_elem?, All, All-at, AllPairs}

pub get_elem?-some :
    {A : Type 0} (xs : List A) (i : ℕ) → i < length xs → (x : A) × (get_elem? xs i ≡ some x)
get_elem?-some [] i h = absurd (omega arith)
get_elem?-some (x ∷ xs) zero h = (x, refl)
get_elem?-some (x ∷ xs) (suc i) h = get_elem?-some xs i (omega arith)

pub get_elem?-length :
    {A : Type 0} (xs : List A) (i : ℕ) (x : A) → get_elem? xs i ≡ some x → i < length xs
get_elem?-length [] i x h = cc
get_elem?-length (y ∷ xs) zero x h = omega arith
get_elem?-length (y ∷ xs) (suc i) x h = let below = get_elem?-length xs i x h in omega arith

pub get_elem?-Memᴰ :
    {A : Type 0} (xs : List A) (i : ℕ) (x : A) → get_elem? xs i ≡ some x → Memᴰ x xs
get_elem?-Memᴰ [] i x h = cc
get_elem?-Memᴰ (y ∷ xs) zero x h = Memᴰ.head cc
get_elem?-Memᴰ (y ∷ xs) (suc i) x h = Memᴰ.tail (get_elem?-Memᴰ xs i x h)

pub All-get_elem? :
    {A : Type 0} (P : A → Type 0) (xs : List A)
    → ((i : ℕ) (x : A) → get_elem? xs i ≡ some x → P x)
    → All P xs
All-get_elem? P [] h = tt
All-get_elem? P (x ∷ xs) h = (h 0 x refl, All-get_elem? P xs (λ i y e. h (suc i) y e))

pub AllPairs-get_elem? :
    {A : Type 0} (R : A → A → Type 0) (xs : List A) (i j : ℕ) (x y : A)
    → AllPairs R xs
    → i < j
    → get_elem? xs i ≡ some x
    → get_elem? xs j ≡ some y
    → R x y
AllPairs-get_elem? R [] i j x y h l a b = cc
AllPairs-get_elem? R (z ∷ xs) i zero x y h l a b = absurd (omega arith)
AllPairs-get_elem? R (z ∷ xs) zero (suc j) x y (h, hs) l a b =
    let same : z ≡ x = cc in subst (λ t. R t y) same (All-at (R z) (get_elem?-Memᴰ xs j y b) h)
AllPairs-get_elem? R (z ∷ xs) (suc i) (suc j) x y (h, hs) l a b =
    AllPairs-get_elem? R xs i j x y hs (omega arith) a b
