-- ===== src/Float64/Micros.antt =====
-- A type of numbers with the operations of float64, on which the program's code can be run.
use solana_token_lab.Base.{
  ℕ, zero, suc, ◌+◌, ◌*◌, ◌^◌, Bool, false, Option, none, some, String, arith, leb, if◌then◌else◌,
}
use solana_token_lab.Base.Int.{
  ℤ, pos, negsuc, pos_part, neg_part, ◌+ℤ◌, ◌-ℤ◌, ◌*ℤ◌, quot_ℤ, ltb_ℤ, leb_ℤ,
}
use solana_token_lab.Float64.{Float64, IsOrdered}

-- Millionths, with `none` for NaN; products and quotients are rounded towards zero.
abbrev pub Micros : Type 0
Micros = Option ℤ

abbrev million : ℕ
million = 1_000_000

abbrev lift2 : (ℤ → ℤ → Option ℤ) → Micros → Micros → Micros
lift2 f (some a) (some b) = f a b
lift2 f _ _ = none

abbrev test2 : (ℤ → ℤ → Bool) → Micros → Micros → Bool
test2 f (some a) (some b) = f a b
test2 f _ _ = false

-- The largest number with a square of at most `n`, among those up to `k`.
root_below : ℕ → ℕ → ℕ
root_below zero n = 0
root_below (suc k) n = let rest = root_below k n in if leb (suc k * suc k) n then suc k else rest

unfoldable pub literal : ℤ → ℕ → Micros
unfolding ◌*ℤ◌ quot_ℤ
literal n k = some (quot_ℤ (n *ℤ pos million) (10 ^ k))

unfoldable pub of_int : ℤ → Micros
unfolding ◌*ℤ◌
of_int n = some (n *ℤ pos million)

unfoldable pub to_int : Micros → ℤ
unfolding quot_ℤ
to_int none = pos 0
to_int (some a) = quot_ℤ a million

unfoldable pub add : Micros → Micros → Micros
unfolding ◌+ℤ◌
add = lift2 λ a b. some (a +ℤ b)

unfoldable pub sub : Micros → Micros → Micros
unfolding ◌-ℤ◌
sub = lift2 λ a b. some (a -ℤ b)

unfoldable pub mul : Micros → Micros → Micros
unfolding ◌*ℤ◌ quot_ℤ
mul = lift2 λ a b. some (quot_ℤ (a *ℤ b) million)

quotient : ℤ → ℤ → Option ℤ
quotient a (pos zero) = none
quotient a (pos (suc n)) = some (quot_ℤ (a *ℤ pos million) (suc n))
quotient a (negsuc n) = some (quot_ℤ (pos 0 -ℤ a *ℤ pos million) (suc n))

unfoldable pub div : Micros → Micros → Micros
unfolding quotient ◌*ℤ◌ ◌-ℤ◌ quot_ℤ
div = lift2 quotient

unfoldable pub neg : Micros → Micros
unfolding ◌-ℤ◌
neg none = none
neg (some a) = some (pos 0 -ℤ a)

unfoldable pub abs : Micros → Micros
abs none = none
abs (some a) = some (pos (pos_part a + neg_part a))

unfoldable pub sqrt : Micros → Micros
unfolding root_below
sqrt none = none
sqrt (some a) = some (pos (root_below 3000 (pos_part a * million)))

unfoldable pub format : ℕ → Micros → String
format k none = "NaN"
format k (some a) = if ltb_ℤ a (pos 0) then "negative" else "number"

instance abbrev pub micros_float64 : Float64 Micros
micros_float64 = record {
  literal = literal;
  of_int = of_int;
  to_int = to_int;
  add = add;
  sub = sub;
  mul = mul;
  div = div;
  neg = neg;
  abs = abs;
  sqrt = sqrt;
  lt = test2 ltb_ℤ;
  le = test2 leb_ℤ;
  format = format;
}

pub Micros-IsOrdered : IsOrdered Micros
unfolding literal
Micros-IsOrdered = record {
  refl_of_le = λ x y h. ground arith;
  le_trans = λ x y z h k. ground arith;
  le_total = λ x y h k. ground arith;
  le_of_lt = λ x y h. ground arith;
  lt-eq-not-le = λ x y h k. ground arith;
  whole_refl = λ n. ground arith;
}
