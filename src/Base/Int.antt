-- ===== src/Base/Int.antt =====
-- Go's int64 (and int, which is 64 bits wide on the program's platforms): an integer, with the
-- wrap-around of its sums and differences written out.
use Prim.Native.Nat.{ℕ, suc, ◌+◌, ◌-◌, ◌*◌, ◌/◌, ◌%◌, ◌^◌, ◌≤◌, ◌<◌, Ordering, compare}
use mathlib.Core.Path.{◌≡◌, refl}
use mathlib.Core.Bool.{Bool}
use native.Mathlib.Omega.{arith}
use solana_token_lab.Base.Tests.{ltb, leb, ◌==◌, if◌then◌else◌}

-- `negsuc n` is -(n + 1).
pub data ℤ : Type 0 where
  pos : ℕ → ℤ
  negsuc : ℕ → ℤ

abbrev pub pos_part : ℤ → ℕ
pos_part (pos n) = n
pos_part (negsuc n) = 0

abbrev pub neg_part : ℤ → ℕ
neg_part (pos n) = 0
neg_part (negsuc n) = suc n

-- a - b, as an integer.
abbrev pub sub_ℕ : ℕ → ℕ → ℤ
sub_ℕ a b = if leb b a then pos (a - b) else negsuc (b - a - 1)

infixl 65 ◌+ℤ◌ ◌-ℤ◌
unfoldable pub ◌+ℤ◌ : ℤ → ℤ → ℤ
a +ℤ b = sub_ℕ (pos_part a + pos_part b) (neg_part a + neg_part b)

unfoldable pub ◌-ℤ◌ : ℤ → ℤ → ℤ
a -ℤ b = sub_ℕ (pos_part a + neg_part b) (neg_part a + pos_part b)

infix 50 ◌≤ℤ◌ ◌<ℤ◌
abbrev pub ◌≤ℤ◌ : ℤ → ℤ → Type 0
a ≤ℤ b = pos_part a + neg_part b ≤ pos_part b + neg_part a

abbrev pub ◌<ℤ◌ : ℤ → ℤ → Type 0
a <ℤ b = pos_part a + neg_part b < pos_part b + neg_part a

abbrev pub ltb_ℤ : ℤ → ℤ → Bool
ltb_ℤ a b = ltb (pos_part a + neg_part b) (pos_part b + neg_part a)

abbrev pub leb_ℤ : ℤ → ℤ → Bool
leb_ℤ a b = leb (pos_part a + neg_part b) (pos_part b + neg_part a)

abbrev pub eq_ℤ : ℤ → ℤ → Bool
eq_ℤ a b = (pos_part a + neg_part b) == (pos_part b + neg_part a)

-- The three answers `a < b`, `a == b`, `a > b` at once.
abbrev pub compare_ℤ : ℤ → ℤ → Ordering
compare_ℤ a b = compare (pos_part a + neg_part b) (pos_part b + neg_part a)

infixl 70 ◌*ℤ◌
unfoldable pub ◌*ℤ◌ : ℤ → ℤ → ℤ
a *ℤ b =
    sub_ℕ (pos_part a * pos_part b + neg_part a * neg_part b)
      (pos_part a * neg_part b + neg_part a * pos_part b)

-- Go's `a / n` for a positive `n`: the quotient rounded towards zero.
unfoldable pub quot_ℤ : ℤ → ℕ → ℤ
quot_ℤ (pos a) n = pos (a / n)
quot_ℤ (negsuc a) n = sub_ℕ 0 (suc a / n)

-- The value of the low 64 bits of an integer, read as two's complement.
abbrev of_bits64 : ℕ → ℤ
of_bits64 r = if ltb r (2 ^ 63) then pos r else negsuc (2 ^ 64 - 1 - r)

pub wrap64 : ℤ → ℤ
wrap64 (pos n) = of_bits64 (n % 2 ^ 64)
wrap64 (negsuc n) = of_bits64 (2 ^ 64 - 1 - n % 2 ^ 64)

unfoldable pub add64 : ℤ → ℤ → ℤ
unfolding wrap64 ◌+ℤ◌
add64 a b = wrap64 (a +ℤ b)

unfoldable pub sub64 : ℤ → ℤ → ℤ
unfolding wrap64 ◌-ℤ◌
sub64 a b = wrap64 (a -ℤ b)

unfoldable pub mul64 : ℤ → ℤ → ℤ
unfolding wrap64 ◌*ℤ◌
mul64 a b = wrap64 (a *ℤ b)

-- An integer that fits int64.
abbrev pub Fits64 : ℤ → Type 0
Fits64 a = (pos_part a < 2 ^ 63) × (neg_part a ≤ 2 ^ 63)

pub wrap64_id : (a : ℤ) → Fits64 a → wrap64 a ≡ a
unfolding wrap64
wrap64_id (pos n) h = ground arith
wrap64_id (negsuc n) h = ground arith

pub wrap64-Fits64 : (a : ℤ) → Fits64 (wrap64 a)
unfolding wrap64
wrap64-Fits64 (pos n) = ground arith
wrap64-Fits64 (negsuc n) = ground arith

pub +ℤ_parts :
    (a b : ℤ)
    → pos_part (a +ℤ b) + neg_part a + neg_part b ≡ neg_part (a +ℤ b) + pos_part a + pos_part b
unfolding ◌+ℤ◌
+ℤ_parts a b = ground arith

pub -ℤ_parts :
    (a b : ℤ)
    → pos_part (a -ℤ b) + neg_part a + pos_part b ≡ neg_part (a -ℤ b) + pos_part a + neg_part b
unfolding ◌-ℤ◌
-ℤ_parts a b = ground arith

pub eq_of_parts : (a b : ℤ) → pos_part a + neg_part b ≡ pos_part b + neg_part a → a ≡ b
eq_of_parts a b h = ground arith

pub ruleset int_laws = (arith, +ℤ_parts, -ℤ_parts, eq_of_parts)

minimum_plus_minus_one : add64 (negsuc (2 ^ 63 - 1)) (negsuc 0) ≡ pos (2 ^ 63 - 1)
unfolding add64
minimum_plus_minus_one = refl

-- A counter below the bound is the count.
pub add64_one : (n : ℕ) → suc n < 2 ^ 63 → add64 (pos n) (pos 1) ≡ pos (suc n)
unfolding add64
add64_one n h = ground arith

pub sub64_one : (n : ℕ) → suc n < 2 ^ 63 → sub64 (pos (suc n)) (pos 1) ≡ pos n
unfolding sub64
sub64_one n h = ground arith
