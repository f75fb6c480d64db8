-- ===== src/Base/Text.antt =====
-- Pieces of text: joining, prefixes and the decimal form of an int64, as `fmt.Sprintf` writes them.
use Prim.Native.Nat.{ℕ, zero, suc, ◌/◌, ◌%◌}
use Prim.Native.Char.{code}
use Prim.Native.String.{String}
use mathlib.Core.Path.{◌≡◌, refl}
use mathlib.Core.Bool.{Bool, true, false, ◌&&◌}
use mathlib.Core.List.{List, [], ◌∷◌}
use native.Mathlib.Omega.{arith}
use solana_token_lab.Base.Tests.{ltb, ◌==◌, if◌then◌else◌}
use solana_token_lab.Base.Int.{ℤ, pos, negsuc}

unfoldable pub append : String → String → String
append String.[] t = t
append (String.◌∷◌ c s) t = String.◌∷◌ c (append s t)

unfoldable pub concat : List String → String
unfolding append
concat [] = ""
concat (s ∷ rest) = append s (concat rest)

-- `len(s) >= len(p) && s[:len(p)] == p`
unfoldable pub has_prefix : String → String → Bool
has_prefix String.[] s = true
has_prefix (String.◌∷◌ c p) String.[] = false
has_prefix (String.◌∷◌ c p) (String.◌∷◌ d s) = code c == code d && has_prefix p s

pub has_prefix-append : (p s : String) → has_prefix p (append p s) ≡ true
unfolding has_prefix append
has_prefix-append String.[] s = refl
has_prefix-append (String.◌∷◌ c p) s = ground (arith, has_prefix-append p s)

digit : ℕ → String
digit n =
    if n == 0
    then "0"
    else if n == 1
    then "1"
    else if n == 2
    then "2"
    else if n == 3
    then "3"
    else if n == 4
    then "4"
    else if n == 5
    then "5"
    else if n == 6
    then "6"
    else if n == 7
    then "7"
    else if n == 8
    then "8"
    else "9"

-- At most twenty digits are written: more than an int64 has.
digits : ℕ → ℕ → String
unfolding append digit
digits zero n = ""
digits (suc fuel) n =
    let front = digits fuel (n / 10) in append (if ltb n 10 then "" else front) (digit (n % 10))

-- `%d`
unfoldable pub decimal : ℤ → String
unfolding digits
decimal (pos n) = digits 20 n
decimal (negsuc n) = append "-" (digits 20 (suc n))

decimal_example : decimal (negsuc 300_017) ≡ "-300018"
unfolding decimal
decimal_example = refl
