-- ===== src/Crypto/Hex/RoundTrip.antt =====
-- The two conversions are inverse, and `hexToBin` fails on nothing but bad input.
use sec_search.Prelude.{
  ℕ, ◌+◌, ◌-◌, ◌*◌, ◌/◌, ◌%◌, ◌<◌, bit_and, bit_or, Bool, true, false, not, ◌&&◌, ◌||◌, [], ◌∷◌,
  map, Bytes, length, All, AreBytes, ok, throw, Error, Result, ◌==◌, leb, if◌then◌else◌, ◌≡◌, refl,
  ◌∙◌, ◌⊎◌, inl, inr, arith, Bool-cases,
}
use sec_search.Prelude.Bits.{every_below, every_below_at}
use sec_search.Crypto.Hex.{hex_digit, bin_to_hex, hex_value, read_pairs, hex_to_bin}

abbrev pub is_hex : ℕ → Bool
is_hex c = (leb b'0' c && leb c b'9') || (leb b'a' c && leb c b'f') || (leb b'A' c && leb c b'F')

abbrev pub IsHex : ℕ → Type 0
IsHex c = is_hex c ≡ true

-- A letter 'A' to 'F' in lower case.
abbrev pub lower : ℕ → ℕ
lower c = if leb b'A' c && leb c b'F' then c + 32 else c

-- What `hex_value` gives on a digit.
abbrev nibble : ℕ → ℕ
nibble c =
    if leb b'0' c && leb c b'9'
    then c - b'0'
    else if leb b'a' c && leb c b'f'
    then c - 87
    else c - 55

hex_value_digit : (c : ℕ) → IsHex c → hex_value c ≡ ok (nibble c)
unfolding hex_value
hex_value_digit c h = ground arith

hex_value_other : (c : ℕ) → is_hex c ≡ false → hex_value c ≡ throw Error.invalid_hex_char
unfolding hex_value
hex_value_other c h = ground arith

nibble-lt : (c : ℕ) → IsHex c → nibble c < 16
nibble-lt c h = ground arith

digit_table : every_below 256 (λ c. not (is_hex c) || (hex_digit (nibble c) == lower c)) ≡ true
unfolding every_below hex_digit
digit_table = refl

IsHex-lt : (c : ℕ) → IsHex c → c < 256
IsHex-lt c h = ground arith

digit_parts : (c : ℕ) → c < 256 → (not (is_hex c) || (hex_digit (nibble c) == lower c)) ≡ true
digit_parts c h = every_below_at _ 256 c h digit_table

hex_digit-nibble : (c : ℕ) → IsHex c → hex_digit (nibble c) ≡ lower c
hex_digit-nibble c h = ground (arith, digit_parts c, IsHex-lt c)

value_table : every_below 16 (λ v. is_hex (hex_digit v) && (nibble (hex_digit v) == v)) ≡ true
unfolding every_below hex_digit
value_table = refl

value_parts : (v : ℕ) → v < 16 → (is_hex (hex_digit v) && (nibble (hex_digit v) == v)) ≡ true
value_parts v h = every_below_at _ 16 v h value_table

hex_value-hex_digit : (v : ℕ) → v < 16 → hex_value (hex_digit v) ≡ ok v
hex_value-hex_digit v h = ground (arith, value_parts v, hex_value_digit (hex_digit v))

byte_table :
    every_below 256 (λ z. (bit_or (z / 16 * 16) (z % 16) % 256 == z) && (bit_and z 15 == z % 16))
    ≡ true
unfolding every_below
byte_table = refl

byte_parts :
    (z : ℕ)
    → z < 256
    → ((bit_or (z / 16 * 16) (z % 16) % 256 == z) && (bit_and z 15 == z % 16)) ≡ true
byte_parts z h = every_below_at _ 256 z h byte_table

low_half : (z : ℕ) → z < 256 → bit_and z 15 ≡ z % 16
low_half z h = ground (arith, byte_parts z)

join_halves : (z x y : ℕ) → z < 256 → z / 16 ≡ x → z % 16 ≡ y → bit_or (x * 16) y % 256 ≡ z
join_halves z x y h p q = rw (← p, ← q) (ground (arith, byte_parts z))

read_pairs_step :
    (a b x y : ℕ) (s out : Bytes)
    → hex_value a ≡ ok x
    → hex_value b ≡ ok y
    → read_pairs s ≡ ok out
    → read_pairs (a ∷ b ∷ s) ≡ ok (bit_or (x * 16) y % 256 ∷ out)
unfolding read_pairs
read_pairs_step a b x y s out p q r = ground arith

read_pairs-bin_to_hex : (d : Bytes) → AreBytes d → read_pairs (bin_to_hex d) ≡ ok d
unfolding bin_to_hex
read_pairs-bin_to_hex [] h = unfold read_pairs in refl
read_pairs-bin_to_hex (z ∷ d) h = ground (
  arith,
  read_pairs_step (hex_digit (z / 16)) (hex_digit (z % 16)) (z / 16) (z % 16) (bin_to_hex d) d,
  hex_value-hex_digit (z / 16),
  hex_value-hex_digit (z % 16),
  low_half z,
  join_halves z (z / 16) (z % 16),
  read_pairs-bin_to_hex d h.1,
)

pub length-bin_to_hex : (d : Bytes) → length (bin_to_hex d) ≡ 2 * length d
unfolding bin_to_hex
length-bin_to_hex [] = refl
length-bin_to_hex (z ∷ d) = omega (arith, length-bin_to_hex d)

-- `hexToBin` undoes `binToHex` on every byte string.
pub hex_to_bin-bin_to_hex : (d : Bytes) → AreBytes d → hex_to_bin (bin_to_hex d) ≡ ok d
unfolding hex_to_bin
hex_to_bin-bin_to_hex d h = ground (arith, length-bin_to_hex d, read_pairs-bin_to_hex d h)

-- How a run over a string of even length ends.
abbrev pub Reads : Bytes → Result Bytes → Type 0
Reads s r =
    (All IsHex s
      × ((d : Bytes) × (r ≡ ok d)
          × AreBytes d
          × (length s ≡ 2 * length d)
          × (bin_to_hex d ≡ map lower s)))
    ⊎ ((¬ All IsHex s) × (r ≡ throw Error.invalid_hex_char))

join_byte :
    (x y : ℕ)
    → x < 16
    → y < 16
    → let z = bit_or (x * 16) y % 256 in (z ≡ x * 16 + y) × (z / 16 ≡ x) × (bit_and z 15 ≡ y)
join_byte x y h k =
    let e : bit_or (x * 16) y % 256 ≡ x * 16 + y =
      join_halves (x * 16 + y) x y (omega arith) (omega arith) (omega arith) in
    rw e (refl, omega arith, low_half (x * 16 + y) (omega arith) ∙ omega arith)

read_pairs-bad_first :
    (a b : ℕ) (s : Bytes) → is_hex a ≡ false → read_pairs (a ∷ b ∷ s) ≡ throw Error.invalid_hex_char
unfolding read_pairs
read_pairs-bad_first a b s h = rw (hex_value_other a h)

read_pairs-bad_second :
    (a b : ℕ) (s : Bytes)
    → IsHex a
    → is_hex b ≡ false
    → read_pairs (a ∷ b ∷ s) ≡ throw Error.invalid_hex_char
unfolding read_pairs
read_pairs-bad_second a b s g h = rw (hex_value_digit a g, hex_value_other b h)

read_pairs-bad_rest :
    (a b : ℕ) (s : Bytes)
    → IsHex a
    → IsHex b
    → read_pairs s ≡ throw Error.invalid_hex_char
    → read_pairs (a ∷ b ∷ s) ≡ throw Error.invalid_hex_char
unfolding read_pairs
read_pairs-bad_rest a b s g h e = rw (hex_value_digit a g, hex_value_digit b h, e)

read_pairs-good :
    (a b : ℕ) (s d : Bytes)
    → IsHex a
    → IsHex b
    → read_pairs s ≡ ok d
    → AreBytes d
    → length s ≡ 2 * length d
    → bin_to_hex d ≡ map lower s
    → (d' : Bytes) × (read_pairs (a ∷ b ∷ s) ≡ ok d')
      × AreBytes d'
      × (length (a ∷ b ∷ s) ≡ 2 * length d')
      × (bin_to_hex d' ≡ map lower (a ∷ b ∷ s))
unfolding bin_to_hex
read_pairs-good a b s d ha hb e bytes len back =
    let z = bit_or (nibble a * 16) (nibble b) % 256 in
    let (_, hi, lo) = join_byte (nibble a) (nibble b) (nibble-lt a ha) (nibble-lt b hb) in
    (
      z ∷ d,
      read_pairs_step a b (nibble a) (nibble b) s d (hex_value_digit a ha) (hex_value_digit b hb) e,
      (omega arith, bytes),
      omega arith,
      rw (hi, lo, back, hex_digit-nibble a ha, hex_digit-nibble b hb) refl,
    )

read_pairs-Reads : (s : Bytes) (n : ℕ) → length s ≡ 2 * n → Reads s (read_pairs s)
read_pairs-Reads [] n h = unfold read_pairs bin_to_hex in inl (tt, ([], refl, tt, refl, refl))
read_pairs-Reads (a ∷ []) n h = absurd (omega arith)
read_pairs-Reads (a ∷ b ∷ s) n h = elim (Bool-cases (is_hex a)) [
  | inr bad ↦ inr ((λ g. cc (g.0)), read_pairs-bad_first a b s bad)
  | inl good ↦ elim (Bool-cases (is_hex b)) [
    | inr bad ↦ inr ((λ g. cc (g.1.0)), read_pairs-bad_second a b s good bad)
    | inl good' ↦ elim (read_pairs-Reads s (n - 1) (omega arith)) [
      | inr (bad, e) ↦ inr ((λ g. bad g.1.1), read_pairs-bad_rest a b s good good' e)
      | inl (every, (d, e, bytes, len, back)) ↦
          inl ((good, (good', every)), read_pairs-good a b s d good good' e bytes len back)
    ]
  ]
]

-- `hexToBin` throws "Invalid hex length" on every string of odd length. On one of even length it
-- returns bytes, half as many as the characters, whose `binToHex` is the string in lower case, if
-- every character is a hexadecimal digit; else it throws "Invalid hex char".
pub hex_to_bin_cases :
    (s : Bytes)
    → ((length s % 2 ≡ 1) × (hex_to_bin s ≡ throw Error.invalid_hex_length))
      ⊎ ((length s % 2 ≡ 0) × Reads s (hex_to_bin s))
unfolding hex_to_bin
hex_to_bin_cases s = elim (Bool-cases (length s % 2 == 0)) [
  | inl even ↦ rw even (inr (ground arith, read_pairs-Reads s (length s / 2) (ground arith)))
  | inr odd ↦ rw odd (inl (ground arith, refl))
]
