-- ===== src/Prelude/Decimal.antt =====
-- Integers as decimal text: `std::stoi` and `std::stoll`, and `<<` of an integer.
pub mod RoundTrip
use sec_search.Prelude.Tests.{ltb, leb, ◌==◌, if◌then◌else◌}
use sec_search.Prelude.Lists.{Bytes}
use sec_search.Prelude.Int.{ℤ, pos, negsuc}
use Prim.Native.Nat.{ℕ, zero, suc, ◌+◌, ◌-◌, ◌*◌, ◌/◌, ◌%◌, ◌^◌}
use mathlib.Core.Bool.{Bool, true, false, ◌&&◌, ◌||◌}
use mathlib.Core.Option.{Option, none, some}
use mathlib.Core.List.{[], ◌∷◌}

-- `isspace`, and `isdigit`.
unfoldable pub is_space : ℕ → Bool
is_space c = (c == 32) || (leb 9 c && leb c 13)

unfoldable pub is_digit : ℕ → Bool
is_digit c = leb b'0' c && leb c b'9'

skip_spaces : Bytes → Bytes
skip_spaces [] = []
skip_spaces (c ∷ s) = if is_space c then skip_spaces s else c ∷ s

-- The value of the digits that a text begins with, behind those that are read as `acc`.
pub read_digits : ℕ → Bytes → ℕ
unfolding is_digit
read_digits acc [] = acc
read_digits acc (c ∷ s) =
    let rest = read_digits (acc * 10 + (c - b'0')) s in if is_digit c then rest else acc

-- At least one digit is wanted.
magnitude : Bytes → Option ℕ
unfolding read_digits
magnitude [] = none
magnitude (c ∷ s) = if is_digit c then some (read_digits 0 (c ∷ s)) else none

-- The number -n.
abbrev pub negative : ℕ → ℤ
negative zero = pos 0
negative (suc n) = negsuc n

-- The numbers from -limit to limit - 1; any other throws `std::out_of_range`.
signed : ℕ → Bool → Option ℕ → Option ℤ
signed limit sign none = none
signed limit true (some n) = if leb n limit then some (negative n) else none
signed limit false (some n) = if ltb n limit then some (pos n) else none

read_signed : ℕ → Bytes → Option ℤ
unfolding signed
read_signed limit [] = none
read_signed limit (c ∷ s) =
    if c == b'-'
    then signed limit true (magnitude s)
    else if c == b'+'
    then signed limit false (magnitude s)
    else signed limit false (magnitude (c ∷ s))

-- Space is skipped, and what stands behind the digits is not looked at. `none` is a throw.
unfoldable pub read_integer : ℕ → Bytes → Option ℤ
unfolding skip_spaces read_signed magnitude
read_integer limit s = read_signed limit (skip_spaces s)

abbrev pub stoi : Bytes → Option ℤ
stoi s = read_integer (2 ^ 31) s

abbrev pub stoll : Bytes → Option ℤ
stoll s = read_integer (2 ^ 63) s

-- The digits of `n` before `out`, one more round than `n` at most.
digits : ℕ → ℕ → Bytes → Bytes
digits zero n out = out
digits (suc f) n out =
    let rest = digits f (n / 10) ((b'0' + n % 10) ∷ out) in
    if ltb n 10 then (b'0' + n) ∷ out else rest

pub print_number : ℕ → Bytes
unfolding digits
print_number n = digits (suc n) n []

unfoldable pub print_integer : ℤ → Bytes
unfolding print_number
print_integer (pos n) = print_number n
print_integer (negsuc n) = b'-' ∷ print_number (suc n)

-- `std::getline`: up to the end of the line.
unfoldable pub first_line : Bytes → Bytes
first_line [] = []
first_line (c ∷ s) = if c == 10 then [] else c ∷ first_line s
