-- ===== src/Prelude/Decimal/RoundTrip.antt =====
-- An integer that is printed is read back, with the same type's limit.
use sec_search.Prelude.Tests.{ltb, Bool-cases}
use sec_search.Prelude.Lists.{Bytes}
use sec_search.Prelude.Int.{ℤ, pos, negsuc}
use sec_search.Prelude.Decimal.{
  is_space, is_digit, skip_spaces, read_digits, magnitude, signed, read_signed, read_integer,
  digits, print_number, print_integer, first_line,
}
use Prim.Native.Nat.{ℕ, zero, suc, ◌+◌, ◌-◌, ◌*◌, ◌/◌, ◌%◌, ◌<◌, ◌≤◌}
use mathlib.Core.Path.{◌≡◌, refl, ◌∙◌, ap}
use mathlib.Core.Logic.{inl, inr}
use mathlib.Core.Option.{some}
use mathlib.Core.List.{[], ◌∷◌}
use native.Mathlib.Omega.{arith}

-- One digit more.
read_digits-cons :
    (acc d : ℕ) (s : Bytes)
    → d < 10
    → read_digits acc ((b'0' + d) ∷ s) ≡ read_digits (acc * 10 + d) s
unfolding read_digits
read_digits-cons acc d s h = ground arith

read_digits-digits :
    (f n : ℕ) (out : Bytes) → n < f → read_digits 0 (digits f n out) ≡ read_digits n out
unfolding digits
read_digits-digits zero n out h = elim h [ ]
read_digits-digits (suc f) n out h = elim (Bool-cases (ltb n 10)) [
  | inl small ↦
      rw small (read_digits-cons 0 n out (ground arith) ∙ ap (λ k. read_digits k out) (omega arith))
  | inr large ↦ rw large (
      read_digits-digits f (n / 10) ((b'0' + n % 10) ∷ out) (ground arith)
      ∙ read_digits-cons (n / 10) (n % 10) out (omega arith)
      ∙ ap (λ k. read_digits k out) (omega arith))
]

-- A printed number begins with a digit.
abbrev pub StartsWithDigit : Bytes → Type 0
StartsWithDigit s = (c : ℕ) × (r : Bytes) × (s ≡ c ∷ r) × (b'0' ≤ c) × (c ≤ b'9')

digits-StartsWithDigit : (f n : ℕ) (out : Bytes) → n < f → StartsWithDigit (digits f n out)
unfolding digits
digits-StartsWithDigit zero n out h = elim h [ ]
digits-StartsWithDigit (suc f) n out h = elim (Bool-cases (ltb n 10)) [
  | inl small ↦ rw small (b'0' + n, out, refl, omega arith, ground arith)
  | inr large ↦ rw large (digits-StartsWithDigit f (n / 10) ((b'0' + n % 10) ∷ out) (ground arith))
]

read_digits-first_line : (acc : ℕ) (s : Bytes) → read_digits acc (first_line s) ≡ read_digits acc s
unfolding first_line read_digits
read_digits-first_line acc [] = refl
read_digits-first_line acc (c ∷ s) =
    ground (arith, read_digits-first_line (acc * 10 + (c - b'0')) s)

-- The line of such a text is read as its digits' value.
magnitude-first_line :
    (n c : ℕ) (s : Bytes)
    → b'0' ≤ c
    → c ≤ b'9'
    → read_digits 0 (c ∷ s) ≡ n
    → magnitude (c ∷ first_line s) ≡ some n
unfolding magnitude is_digit read_digits
magnitude-first_line n c s h k e = ground (arith, read_digits-first_line (0 * 10 + (c - b'0')) s)

read_integer-pos :
    (limit n c : ℕ) (s : Bytes)
    → b'0' ≤ c
    → c ≤ b'9'
    → n < limit
    → magnitude (c ∷ first_line s) ≡ some n
    → read_integer limit (first_line (c ∷ s)) ≡ some (pos n)
unfolding read_integer skip_spaces is_space read_signed signed first_line
read_integer-pos limit n c s low high small e = ground arith

read_integer-negsuc :
    (limit n c : ℕ) (s : Bytes)
    → b'0' ≤ c
    → c ≤ b'9'
    → n < limit
    → magnitude (c ∷ first_line s) ≡ some (suc n)
    → read_integer limit (first_line (b'-' ∷ c ∷ s)) ≡ some (negsuc n)
unfolding read_integer skip_spaces is_space read_signed signed first_line
read_integer-negsuc limit n c s low high small e = ground arith

-- What an integer type with that limit holds.
abbrev pub Fits : ℕ → ℤ → Type 0
Fits limit (pos n) = n < limit
Fits limit (negsuc n) = n < limit

pub read_integer-print :
    (limit : ℕ) (z : ℤ) → Fits limit z → read_integer limit (first_line (print_integer z)) ≡ some z
unfolding print_integer print_number read_digits
read_integer-print limit (pos n) h =
    let (c, r, e, low, high) = digits-StartsWithDigit (suc n) n [] (omega arith) in
    rw e (
      read_integer-pos limit n c r low high h (
        magnitude-first_line n c r low high
          (rw e at (read_digits-digits (suc n) n [] (omega arith)))))
read_integer-print limit (negsuc n) h =
    let (c, r, e, low, high) = digits-StartsWithDigit (suc (suc n)) (suc n) [] (omega arith) in
    rw e (
      read_integer-negsuc limit n c r low high h (
        magnitude-first_line (suc n) c r low high
          (rw e at (read_digits-digits (suc (suc n)) (suc n) [] (omega arith)))))
