-- ===== src/Crypto/KeyFile/Laws.antt =====
-- Which files `readKeyFromFile` accepts, and what it returns.
use sec_search.Prelude.{
  [], ◌∷◌, map, some, Bytes, length, ok, throw, Error, ◌==◌, if◌then◌else◌, ◌≡◌, ◌≢◌, refl, sym, ap,
  ◌∙◌, ◌⊎◌, inl, inr, ◌↔◌, arith, All, AreBytes, Bool-cases,
}
use sec_search.Crypto.Hex.{bin_to_hex, hex_to_bin}
use sec_search.Crypto.Hex.RoundTrip.{
  IsHex, lower, hex_to_bin_cases, hex_to_bin-bin_to_hex, length-bin_to_hex,
}
use sec_search.Crypto.KeyFile.{is_space, read_lines, strip, rethrow, decode_key, read_key_from_file}

strip-read_lines : (s : Bytes) → strip (read_lines s) ≡ strip s
unfolding strip read_lines is_space
strip-read_lines [] = refl
strip-read_lines (c ∷ s) = ground (arith, strip-read_lines s)

-- Whatever white space a file has, and wherever, a file whose other characters are the 32
-- hexadecimal digits of a key of 16 bytes is read as that key.
pub read_key_from_file_accepts :
    (file key : Bytes)
    → AreBytes key
    → length key ≡ 16
    → strip file ≡ bin_to_hex key
    → read_key_from_file (some file) ≡ ok key
unfolding read_key_from_file decode_key rethrow
read_key_from_file_accepts file key b h e =
    rw (strip-read_lines file, e, length-bin_to_hex key, h, hex_to_bin-bin_to_hex key b, h)

decode_key_cases :
    (s : Bytes)
    → length s ≡ 32
    → ((All IsHex s)
        × ((key : Bytes) × (decode_key s ≡ ok key)
            × AreBytes key
            × (length key ≡ 16)
            × (bin_to_hex key ≡ map lower s)))
      ⊎ ((¬ All IsHex s) × (decode_key s ≡ throw Error.invalid_hex_char))
unfolding decode_key
decode_key_cases s h = elim (hex_to_bin_cases s) [
  | inl (odd, _) ↦ absurd (omega arith)
  | inr (_, inl (digits, (key, e, bytes, len, back))) ↦
      inl (digits, (key, rw e (ground arith), bytes, omega arith, back))
  | inr (_, inr (bad, e)) ↦ inr (bad, rw e)
]

read_length_error :
    (file : Bytes)
    → length (strip file) ≢ 32
    → read_key_from_file (some file)
      ≡ throw
          (if length (strip file) == 0 then Error.key_file_empty else Error.invalid_key_file_length)
unfolding read_key_from_file
read_length_error file h = rw (strip-read_lines file) (ground arith)

read_decoded :
    (file : Bytes)
    → length (strip file) ≡ 32
    → read_key_from_file (some file) ≡ rethrow (decode_key (strip file))
unfolding read_key_from_file
read_decoded file h = rw (strip-read_lines file) (ground arith)

-- A file that can be opened gives one of four results: "Key file is empty" if it holds white
-- space only, "Invalid key length" if the number of its other characters is neither 0 nor 32,
-- "Invalid hex format" if there are 32 and one is no hexadecimal digit, and a key of 16 bytes
-- otherwise.
pub read_key_from_file_cases :
    (file : Bytes)
    → let r = read_key_from_file (some file) in
      let n = length (strip file) in
      ((n ≡ 0) × (r ≡ throw Error.key_file_empty))
      ⊎ (((n ≢ 0) × (n ≢ 32) × (r ≡ throw Error.invalid_key_file_length))
          ⊎ (((n ≡ 32) × (¬ All IsHex (strip file)) × (r ≡ throw Error.invalid_key_file_format))
              ⊎ ((n ≡ 32)
                  × All IsHex (strip file)
                  × ((key : Bytes) × (r ≡ ok key) × (length key ≡ 16)))))
unfolding rethrow
read_key_from_file_cases file = elim (Bool-cases (length (strip file) == 0)) [
  | inl none_left ↦ inl (ground arith, ground (arith, read_length_error file))
  | inr some_left ↦ elim (Bool-cases (length (strip file) == 32)) [
    | inr other ↦ inr (inl (ground arith, ground arith, ground (arith, read_length_error file)))
    | inl full ↦
        let h : length (strip file) ≡ 32 = ground arith in
        elim (decode_key_cases (strip file) h) [
          | inl (digits, (x, e, _, len, _)) ↦
              inr (inr (inr (h, digits, (x, rw (read_decoded file h, e), len))))
          | inr (bad, e) ↦ inr (inr (inl (h, bad, rw (read_decoded file h, e))))
        ]
  ]
]

key_unique : (x y : Bytes) → AreBytes x → AreBytes y → bin_to_hex x ≡ bin_to_hex y → x ≡ y
key_unique x y hx hy e =
    cc (hex_to_bin-bin_to_hex x hx, hex_to_bin-bin_to_hex y hy, ap hex_to_bin e)

read_key_sound :
    (file key : Bytes)
    → read_key_from_file (some file) ≡ ok key
    → (length (strip file) ≡ 32)
      × All IsHex (strip file)
      × AreBytes key
      × (length key ≡ 16)
      × (bin_to_hex key ≡ map lower (strip file))
unfolding rethrow
read_key_sound file key e = elim (Bool-cases (length (strip file) == 32)) [
  | inr short ↦ cc (read_length_error file (ground arith))
  | inl full ↦ elim (decode_key_cases (strip file) (ground arith)) [
    | inl (digits, (x, r, bytes, len, back)) ↦
        let same : x ≡ key = cc (read_decoded file (ground arith), ap rethrow r) in
        (ground arith, digits, rw (same) at bytes, rw same at len, rw same at back)
    | inr (bad, r) ↦ cc (read_decoded file (ground arith), ap rethrow r)
  ]
]

read_key_complete :
    (file key : Bytes)
    → length (strip file) ≡ 32
    → All IsHex (strip file)
    → AreBytes key
    → bin_to_hex key ≡ map lower (strip file)
    → read_key_from_file (some file) ≡ ok key
unfolding rethrow
read_key_complete file key h digits bytes back = elim (decode_key_cases (strip file) h) [
  | inr (bad, _) ↦ absurd (bad digits)
  | inl (_, (x, r, bytes', len, back')) ↦
      read_decoded file h ∙ ap rethrow r ∙ ap ok (key_unique x key bytes' bytes (back' ∙ sym back))
]

-- `readKeyFromFile` returns a key exactly if the file can be opened and holds, besides white
-- space, 32 characters, each a hexadecimal digit; the key has 16 bytes, and its `binToHex` is
-- those characters in lower case.
pub read_key_from_file_iff :
    (file key : Bytes)
    → (read_key_from_file (some file) ≡ ok key) ↔ (
        (length (strip file) ≡ 32)
        × All IsHex (strip file)
        × AreBytes key
        × (length key ≡ 16)
        × (bin_to_hex key ≡ map lower (strip file)))
read_key_from_file_iff file key =
    (read_key_sound file key, λ h. read_key_complete file key h.0 h.1 h.2 h.4)
