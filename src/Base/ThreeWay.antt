-- ===== src/Base/ThreeWay.antt =====
-- Three-way comparisons, as the `compare…` functions of the program give them, and their laws.
use Prim.Native.Nat.{Ordering, compare as compare_ℕ}
use Prim.Native.Char.{code}
use Prim.Native.String.{String, then, compare as compare_text}
use Prim.Native.String.compare
use mathlib.Core.Path.{◌≡◌, refl, ap}
use native.Mathlib.Omega.{arith}
use text.Mathlib.TextEquality.{path_by_compare}
use solana_token_lab.Base.Int.{compare_ℤ}

abbrev pub opposite : Ordering → Ordering
opposite Ordering.lt = Ordering.gt
opposite Ordering.eq = Ordering.eq
opposite Ordering.gt = Ordering.lt

module _ {ℓ} {A : Type ℓ} where
  -- Comparing by `c` and, where that finds no difference, by `d`.
  abbrev pub then_by : (A → A → Ordering) → (A → A → Ordering) → A → A → Ordering
  then_by c d a b = then (c a b) (d a b)

  pub record IsThreeWay (cmp : A → A → Ordering) : Type ℓ where
    pub flip : (a b : A) → cmp b a ≡ opposite (cmp a b)
    pub lt_trans :
        (a b c : A) → cmp a b ≡ Ordering.lt → cmp b c ≡ Ordering.lt → cmp a c ≡ Ordering.lt
    pub eq_left : (a b c : A) → cmp a b ≡ Ordering.eq → cmp a c ≡ cmp b c

  pub then_by-IsThreeWay :
      {c d : A → A → Ordering} → IsThreeWay c → IsThreeWay d → IsThreeWay (then_by c d)
  then_by-IsThreeWay {c} {d} hc hd = record {
    flip = λ a b. ground (arith, hc.flip a b, hd.flip a b);
    lt_trans = λ x y z p q. ground (
      arith,
      hc.flip x y,
      hc.flip y z,
      hc.flip x z,
      hc.eq_left x y z,
      hc.eq_left z y x,
      hc.lt_trans x y z,
      hd.lt_trans x y z,
    );
    eq_left = λ x y z p. ground (arith, hc.eq_left x y z, hd.eq_left x y z);
  }

-- Comparing by a key.
pub on-IsThreeWay {ℓ κ} :
    {A : Type ℓ} {K : Type κ} {cmp : K → K → Ordering} (key : A → K)
    → IsThreeWay cmp
    → IsThreeWay (λ (a b : A). cmp (key a) (key b))
on-IsThreeWay key h = record {
  flip = λ a b. h.flip (key a) (key b);
  lt_trans = λ a b c. h.lt_trans (key a) (key b) (key c);
  eq_left = λ a b c. h.eq_left (key a) (key b) (key c);
}

pub compare_ℕ-IsThreeWay : IsThreeWay compare_ℕ
compare_ℕ-IsThreeWay = record {
  flip = λ a b. ground arith;
  lt_trans = λ a b c p q. ground arith;
  eq_left = λ a b c p. ground arith;
}

pub compare_ℤ-IsThreeWay : IsThreeWay compare_ℤ
compare_ℤ-IsThreeWay = record {
  flip = λ a b. ground arith;
  lt_trans = λ a b c p q. ground arith;
  eq_left = λ a b c p. ground arith;
}

text_flip : (s t : String) → compare_text t s ≡ opposite (compare_text s t)
text_flip String.[] String.[] = refl
text_flip String.[] (String.◌∷◌ d t) = simp (compare.nil-cons, compare.cons-nil)
text_flip (String.◌∷◌ c s) String.[] = simp (compare.nil-cons, compare.cons-nil)
text_flip (String.◌∷◌ c s) (String.◌∷◌ d t) =
    simp compare.cons-cons
      (ground (arith, compare_ℕ-IsThreeWay.flip (code c) (code d), text_flip s t))

-- On equal texts the comparison is the same.
text_eq_left :
    (s t u : String) → compare_text s t ≡ Ordering.eq → compare_text s u ≡ compare_text t u
text_eq_left s t u h = ap (λ (v : String). compare_text v u) (path_by_compare s t h)

lt-ne-gt : Ordering.lt ≡ Ordering.gt → ⊥
lt-ne-gt h = cc

text_lt_trans :
    (s t u : String)
    → compare_text s t ≡ Ordering.lt
    → compare_text t u ≡ Ordering.lt
    → compare_text s u ≡ Ordering.lt
text_lt_trans s String.[] String.[] p q = ground (arith, q)
text_lt_trans String.[] String.[] (String.◌∷◌ e u) p q = q
text_lt_trans (String.◌∷◌ c s) String.[] (String.◌∷◌ e u) p q = ground (arith, compare.cons-nil c s)
text_lt_trans s (String.◌∷◌ d t) String.[] p q = ground (arith, compare.cons-nil d t)
text_lt_trans String.[] (String.◌∷◌ d t) (String.◌∷◌ e u) p q = compare.nil-cons e u
text_lt_trans (String.◌∷◌ c s) (String.◌∷◌ d t) (String.◌∷◌ e u) p q =
    simp compare.cons-cons (
      ground (arith, simp compare.cons-cons at p, simp compare.cons-cons at q, text_lt_trans s t u))

pub compare_text-IsThreeWay : IsThreeWay compare_text
compare_text-IsThreeWay = record {
  flip = text_flip;
  lt_trans = text_lt_trans;
  eq_left = text_eq_left;
}
