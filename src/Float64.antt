-- ===== src/Float64.antt =====
-- Go's float64 as an interface: the operations and tests that the program makes on prices, amounts
-- and outcomes, and the documented behaviour of the comparisons that the theorems rely on.
-- No rounding law is assumed. The child `Micros` is a concrete type with these operations, for runs.
pub mod Micros
use solana_token_lab.Base.{
  ℕ, zero, suc, ◌+◌, ◌*◌, ◌^◌, ◌≡◌, Bool, true, false, not, Option, none, some, ◌⊎◌, String, arith,
  leb, if◌then◌else◌,
}
use solana_token_lab.Base.Int.{
  ℤ, pos, negsuc, pos_part, neg_part, ◌+ℤ◌, ◌-ℤ◌, ◌*ℤ◌, quot_ℤ, ltb_ℤ, leb_ℤ,
}

pub record Float64 (F : Type 0) : Type 0 where
  -- the literal `n` times ten to the power `-k`
  pub literal : ℤ → ℕ → F
  -- `float64(n)` and `int(x)`
  pub of_int : ℤ → F
  pub to_int : F → ℤ
  pub add : F → F → F
  pub sub : F → F → F
  pub mul : F → F → F
  pub div : F → F → F
  pub neg : F → F
  -- `math.Abs`, `math.Sqrt`
  pub abs : F → F
  pub sqrt : F → F
  -- `x < y` and `x <= y`; `x > y` is `y < x`
  pub lt : F → F → Bool
  pub le : F → F → Bool
  -- `fmt.Sprintf("%.kf", x)`
  pub format : ℕ → F → String

infixl 65 ◌+F◌ ◌-F◌
infixl 70 ◌*F◌ ◌/F◌
infix 50 ◌<F◌ ◌≤F◌
module _ {F : Type 0} ⦃d : Float64 F⦄ where
  abbrev pub ◌+F◌ : F → F → F
  ◌+F◌ = d.add

  abbrev pub ◌-F◌ : F → F → F
  ◌-F◌ = d.sub

  abbrev pub ◌*F◌ : F → F → F
  ◌*F◌ = d.mul

  abbrev pub ◌/F◌ : F → F → F
  ◌/F◌ = d.div

  abbrev pub ◌<F◌ : F → F → Bool
  ◌<F◌ = d.lt

  abbrev pub ◌≤F◌ : F → F → Bool
  ◌≤F◌ = d.le

  -- An integer literal.
  abbrev pub whole : ℕ → F
  whole n = d.literal (pos n) 0

-- What IEEE 754 says of the comparisons. NaN is the value that is not `<=` itself: every comparison
-- with it is false, and away from it `<=` is a total order whose strict part is `<`.
pub record IsOrdered (F : Type 0) ⦃d : Float64 F⦄ : Type 0 where
  pub refl_of_le : (x y : F) → d.le x y ≡ true → (d.le x x ≡ true) × (d.le y y ≡ true)
  pub le_trans : (x y z : F) → d.le x y ≡ true → d.le y z ≡ true → d.le x z ≡ true
  pub le_total :
      (x y : F) → d.le x x ≡ true → d.le y y ≡ true → (d.le x y ≡ true) ⊎ (d.le y x ≡ true)
  pub le_of_lt : (x y : F) → d.lt x y ≡ true → d.le x y ≡ true
  pub lt-eq-not-le : (x y : F) → d.le x x ≡ true → d.le y y ≡ true → d.lt x y ≡ not (d.le y x)
  pub whole_refl : (n : ℕ) → d.le (whole n) (whole n) ≡ true
