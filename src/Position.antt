-- ===== src/Position.antt =====
-- The position of an event on the chain, (slot, tx_signature, event_index), by which every ordering
-- of the program compares. The comparison cascades of the packages are instances of `compare_position`:
-- each `if a.X != b.X { if a.X < b.X … }` is one three-way comparison, `then` goes on where it
-- finds no difference.
use Prim.Native.String.{then, compare as compare_text}
use text.Mathlib.TextEquality.{path_by_compare}
use text.Mathlib.TextPositions.{compare_refl}
use solana_token_lab.Base.{List, true, ◌≡◌, ◌↔◌, Ordering, String, arith}
use solana_token_lab.Base.Int.{ℤ, compare_ℤ, eq_of_parts}
use solana_token_lab.Base.ThreeWay.{
  IsThreeWay, compare_ℤ-IsThreeWay, compare_text-IsThreeWay, then_by-IsThreeWay, on-IsThreeWay,
}
use mathlib.Core.List.{Permᴰ}
use mathlib.Core.List.Permᴰ
use solana_token_lab.Base.Lists.{AllPairs, AllPairs-imp, AllPairs-perm}
use solana_token_lab.Base.Sort.{
  Apart, less_of, Apart-iff, ascends, sort_slice, ascends-sort_slice_iff, sort_slice-eq_of_ascends,
}

pub record Position : Type 0 where
  pub slot : ℤ
  pub tx_signature : String
  pub event_index : ℤ

abbrev pub position : ℤ → String → ℤ → Position
position s t i = record { slot = s; tx_signature = t; event_index = i }

abbrev pub compare_position : Position → Position → Ordering
compare_position a b =
    then (compare_ℤ a.slot b.slot)
      (then (compare_text a.tx_signature b.tx_signature) (compare_ℤ a.event_index b.event_index))

pub compare_position-IsThreeWay : IsThreeWay compare_position
compare_position-IsThreeWay =
    then_by-IsThreeWay (on-IsThreeWay (λ (p : Position). p.slot) compare_ℤ-IsThreeWay) (
      then_by-IsThreeWay (on-IsThreeWay (λ (p : Position). p.tx_signature) compare_text-IsThreeWay)
        (on-IsThreeWay (λ (p : Position). p.event_index) compare_ℤ-IsThreeWay))

pub then_eq : (o p : Ordering) → then o p ≡ Ordering.eq → (o ≡ Ordering.eq) × (p ≡ Ordering.eq)
then_eq o p h = ground arith

pub ℤ_eq : (a b : ℤ) → compare_ℤ a b ≡ Ordering.eq → a ≡ b
ℤ_eq a b h = eq_of_parts a b (ground arith)

-- Nothing but an equal position compares equal.
pub compare_position_eq_iff : (a b : Position) → (compare_position a b ≡ Ordering.eq) ↔ (a ≡ b)
compare_position_eq_iff a b = (
  λ h.
      let (s, r) = then_eq (compare_ℤ a.slot b.slot) _ h in
      let (t, i) = then_eq (compare_text a.tx_signature b.tx_signature) _ r in
      λ k. record {
        slot = ℤ_eq a.slot b.slot s k;
        tx_signature = path_by_compare a.tx_signature b.tx_signature t k;
        event_index = ℤ_eq a.event_index b.event_index i k;
      },
  λ e. rw e (ground (arith, compare_refl b.tx_signature)),
)

-- Two events are told apart exactly when they stand at different positions.
pub Apart-iff_ne : (a b : Position) → Apart (less_of compare_position) a b ↔ ¬ (a ≡ b)
Apart-iff_ne a b =
    let told = Apart-iff compare_position-IsThreeWay a b in
    let same = compare_position_eq_iff a b in
    (λ h e. told.0 h (same.1 e), λ n. told.1 (λ e. n (same.0 e)))

-- Lists of events sorted by their positions.
module _ {ℓ} {A : Type ℓ} (key : A → Position) where
  abbrev pub by_position : A → A → Ordering
  by_position a b = compare_position (key a) (key b)

  -- Two different places on the chain.
  abbrev pub Elsewhere : A → A → Type 0
  Elsewhere a b = ¬ (key a ≡ key b)

  pub by_position-IsThreeWay : IsThreeWay by_position
  by_position-IsThreeWay = on-IsThreeWay key compare_position-IsThreeWay

  pub Elsewhere→Apart :
      (xs : List A) → AllPairs Elsewhere xs → AllPairs (Apart (less_of by_position)) xs
  Elsewhere→Apart =
      AllPairs-imp Elsewhere (Apart (less_of by_position)) λ a b. (Apart-iff_ne (key a) (key b)).1

  Apart→Elsewhere :
      (xs : List A) → AllPairs (Apart (less_of by_position)) xs → AllPairs Elsewhere xs
  Apart→Elsewhere =
      AllPairs-imp (Apart (less_of by_position)) Elsewhere λ a b. (Apart-iff_ne (key a) (key b)).0

  -- An arrangement of a list ascends exactly when no position comes twice in it and it is the
  -- sorted one.
  pub ascends_iff :
      {xs ys : List A}
      → Permᴰ xs ys
      → (ascends by_position ys ≡ true)
        ↔ (AllPairs Elsewhere ys × (sort_slice (less_of by_position) xs ≡ ys))
  ascends_iff {xs} {ys} d =
      let cmp = by_position-IsThreeWay in
      let sorted =
        λ (e : ascends by_position ys ≡ true). sort_slice-eq_of_ascends by_position cmp d e in
      (
        λ e. (
          Apart→Elsewhere ys (
              AllPairs-perm (Apart (less_of by_position)) (λ a b. ground arith) d
                ((ascends-sort_slice_iff by_position cmp xs).0 (rw (sorted e) e))),
          sorted e,
        ),
        λ (k, e). rw (← e) (
            (ascends-sort_slice_iff by_position cmp xs).1 (
              AllPairs-perm (Apart (less_of by_position)) (λ a b. ground arith) (Permᴰ.symm d)
                (Elsewhere→Apart ys k))),
      )
