-- ===== src/Crypto/Base64/Tables.antt =====
-- The alphabet and the bit operations of src/crypto/utils.cpp, value by value.
use sec_search.Prelude.{
  ℕ, ◌+◌, ◌*◌, ◌/◌, ◌%◌, ◌<◌, bit_and, bit_or, true, not, ◌&&◌, ◌==◌, ◌≡◌, refl, arith,
}
use sec_search.Prelude.Bits.{every_below, every_below_at}
use sec_search.Crypto.Base64.{letter, is_base64_char, sextet}

and_table :
    every_below 256
      (λ a. (bit_and a 63 == a % 64) && (bit_and a 15 == a % 16) && (bit_and a 3 == a % 4))
    ≡ true
unfolding every_below
and_table = refl

and_parts :
    (a : ℕ)
    → a < 256
    → ((bit_and a 63 == a % 64) && (bit_and a 15 == a % 16) && (bit_and a 3 == a % 4)) ≡ true
and_parts a h = every_below_at _ 256 a h and_table

pub bit_and_63 : (a : ℕ) → a < 256 → bit_and a 63 ≡ a % 64
bit_and_63 a h = ground (arith, and_parts a)

pub bit_and_15 : (a : ℕ) → a < 256 → bit_and a 15 ≡ a % 16
bit_and_15 a h = ground (arith, and_parts a)

pub bit_and_3 : (a : ℕ) → a < 256 → bit_and a 3 ≡ a % 4
bit_and_3 a h = ground (arith, and_parts a)

or_table :
    every_below 256 (λ z.
      (bit_or (z / 4 * 4) (z % 4) == z)
      && (bit_or (z / 16 * 16) (z % 16) == z)
      && (bit_or (z / 64 * 64) (z % 64) == z))
    ≡ true
unfolding every_below
or_table = refl

or_parts :
    (z : ℕ)
    → z < 256
    → ((bit_or (z / 4 * 4) (z % 4) == z)
        && (bit_or (z / 16 * 16) (z % 16) == z)
        && (bit_or (z / 64 * 64) (z % 64) == z))
      ≡ true
or_parts z h = every_below_at _ 256 z h or_table

split_or :
    (k z x y : ℕ) → bit_or (z / k * k) (z % k) ≡ z → z / k ≡ x → z % k ≡ y → bit_or (x * k) y ≡ z
split_or k z x y e p q = rw (← p, ← q) e

pub bit_or_4 : (x y : ℕ) → x < 64 → y < 4 → bit_or (x * 4) y ≡ x * 4 + y
bit_or_4 x y h k =
    split_or 4 (x * 4 + y) x y (ground (arith, or_parts (x * 4 + y))) (omega arith) (omega arith)

pub bit_or_16 : (x y : ℕ) → x < 16 → y < 16 → bit_or (x * 16) y ≡ x * 16 + y
bit_or_16 x y h k =
    split_or 16 (x * 16 + y) x y (ground (arith, or_parts (x * 16 + y))) (omega arith) (omega arith)

pub bit_or_64 : (x y : ℕ) → x < 4 → y < 64 → bit_or (x * 64) y ≡ x * 64 + y
bit_or_64 x y h k =
    split_or 64 (x * 64 + y) x y (ground (arith, or_parts (x * 64 + y))) (omega arith) (omega arith)

letter_table :
    every_below 64
      (λ v. is_base64_char (letter v) && (sextet (letter v) == v) && not (letter v == b'='))
    ≡ true
unfolding every_below letter is_base64_char sextet
letter_table = refl

pub letter_parts :
    (v : ℕ)
    → v < 64
    → (is_base64_char (letter v) && (sextet (letter v) == v) && not (letter v == b'=')) ≡ true
letter_parts v h = every_below_at _ 64 v h letter_table
