-- ===== src/Prelude/Text.antt =====
-- Text as the list of its code points, for the code that walks it: `trim` and `parse` of Rust's
-- `str`, and the printing of a number.
use Prim.Native.Nat.{ℕ, zero, suc, ◌+◌, ◌*◌, ◌-◌, ◌≤◌, ◌/◌, ◌%◌}
use Prim.Native.Char.{code}
use Prim.Native.String.{String, ◌++◌ as concat}
use mathlib.Core.Path.{◌≡◌, refl}
use mathlib.Core.Bool.{Bool, true, false, ◌&&◌, ◌||◌}
use mathlib.Core.Option.{Option, none, some}
use mathlib.Core.List.{List, [], ◌∷◌, reverse}
use native.Mathlib.Omega.{arith}
use elanprint_rs.Prelude.Tests.{leb, ltb, ◌==◌, if◌then◌else◌}

abbrev pub codes : String → List ℕ
codes String.[] = []
codes (String.◌∷◌ c s) = code c ∷ codes s

-- `a == b` on texts.
unfoldable pub same : List ℕ → List ℕ → Bool
same [] [] = true
same [] (y ∷ ys) = false
same (x ∷ xs) [] = false
same (x ∷ xs) (y ∷ ys) = x == y && same xs ys

pub same→eq : (xs ys : List ℕ) → same xs ys ≡ true → xs ≡ ys
unfolding same
same→eq [] [] h = refl
same→eq [] (y ∷ ys) h = ground arith
same→eq (x ∷ xs) [] h = ground arith
same→eq (x ∷ xs) (y ∷ ys) h = ground (arith, same→eq xs ys)

pub same_refl : (xs : List ℕ) → same xs xs ≡ true
unfolding same
same_refl [] = refl
same_refl (x ∷ xs) = ground (arith, same_refl xs)

-- `char::is_whitespace`, the White_Space property of Unicode.
unfoldable pub is_whitespace : ℕ → Bool
is_whitespace c =
    (leb 9 c && leb c 13)
    || c == 32
    || c == 0x85
    || c == 0xa0
    || c == 0x1680
    || (leb 0x2000 c && leb c 0x200a)
    || c == 0x2028
    || c == 0x2029
    || c == 0x202f
    || c == 0x205f
    || c == 0x3000

unfoldable pub trim_start : List ℕ → List ℕ
unfolding is_whitespace
trim_start [] = []
trim_start (c ∷ cs) = if is_whitespace c then trim_start cs else c ∷ cs

unfoldable pub trim : List ℕ → List ℕ
unfolding trim_start
trim s = reverse (trim_start (reverse (trim_start s)))

digit_value : ℕ → Option ℕ
digit_value c = if leb b'0' c && leb c b'9' then some (c - b'0') else none

-- The digits after the sign, the value so far in front; `none` on a bad digit or an overflow.
digits_from : ℕ → ℕ → List ℕ → Option ℕ
unfolding digit_value
digits_from bound acc [] = some acc
digits_from bound acc (c ∷ cs) = elim (digit_value c) [
  | none ↦ none
  | some d ↦ if leb (acc * 10 + d) bound then digits_from bound (acc * 10 + d) cs else none
]

after_sign : ℕ → List ℕ → Option ℕ
unfolding digits_from
after_sign bound [] = none
after_sign bound (c ∷ cs) = digits_from bound 0 (c ∷ cs)

strip_plus : List ℕ → List ℕ
strip_plus [] = []
strip_plus (c ∷ cs) = if c == b'+' then cs else c ∷ cs

-- `parse::<uN>()` with `bound` the largest value of the type: one `+` may stand in front.
unfoldable pub parse_uint : ℕ → List ℕ → Option ℕ
unfolding after_sign strip_plus
parse_uint bound s = after_sign bound (strip_plus s)

digits_from-le :
    (bound acc : ℕ) (s : List ℕ) (n : ℕ)
    → acc ≤ bound
    → digits_from bound acc s ≡ some n
    → n ≤ bound
unfolding digits_from
digits_from-le bound acc [] n h e = ground arith
digits_from-le bound acc (c ∷ cs) n h e =
    ground (arith, digits_from-le bound (acc * 10 + (c - b'0')) cs n)

after_sign-le : (bound : ℕ) (s : List ℕ) (n : ℕ) → after_sign bound s ≡ some n → n ≤ bound
unfolding after_sign
after_sign-le bound [] n e = ground arith
after_sign-le bound (c ∷ cs) n e = digits_from-le bound 0 (c ∷ cs) n (omega arith) e

-- A parsed number fits its type.
pub parse_uint-le : (bound : ℕ) (s : List ℕ) (n : ℕ) → parse_uint bound s ≡ some n → n ≤ bound
parse_uint-le bound s n e = after_sign-le bound (strip_plus s) n (unfold parse_uint in e)

digit : ℕ → String
digit d =
    if d == 0
    then "0"
    else if d == 1
    then "1"
    else if d == 2
    then "2"
    else if d == 3
    then "3"
    else if d == 4
    then "4"
    else if d == 5
    then "5"
    else if d == 6
    then "6"
    else if d == 7
    then "7"
    else if d == 8
    then "8"
    else "9"

decimal_of : ℕ → ℕ → String
unfolding digit
decimal_of zero n = ""
decimal_of (suc fuel) n =
    let rest = decimal_of fuel (n / 10) in
    if ltb n 10 then digit n else concat rest (digit (n % 10))

-- `{}` of a number of at most 64 bits, which has no more than 20 digits.
unfoldable pub decimal : ℕ → String
unfolding decimal_of
decimal n = decimal_of 20 n
