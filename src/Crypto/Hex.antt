-- ===== src/Crypto/Hex.antt =====
-- `binToHex` and `hexToBin` of src/crypto/utils.cpp.
pub mod RoundTrip
use sec_search.Prelude.{
  ℕ, ◌+◌, ◌-◌, ◌*◌, ◌/◌, ◌%◌, bit_and, bit_or, Bool, not, ◌&&◌, [], ◌∷◌, Bytes, codes, length,
  get_or, Result, ok, throw, Error, throw_if, ◌>>=◌, ◌>>◌, ◌==◌, leb, if◌then◌else◌,
}

-- `hex[v]`.
unfoldable pub hex_digit : ℕ → ℕ
hex_digit v = get_or (codes "0123456789abcdef") v 0

unfoldable pub bin_to_hex : Bytes → Bytes
unfolding hex_digit
bin_to_hex [] = []
bin_to_hex (b ∷ rest) = hex_digit (b / 16) ∷ hex_digit (bit_and b 0x0f) ∷ bin_to_hex rest

-- The lambda `val`.
hex_value : ℕ → Result ℕ
hex_value c =
    if leb b'0' c && leb c b'9'
    then ok (c - b'0')
    else if leb b'a' c && leb c b'f'
    then ok (c - b'a' + 10)
    else if leb b'A' c && leb c b'F'
    then ok (c - b'A' + 10)
    else throw Error.invalid_hex_char

-- The loop over `i`, two characters a round; the length is even when it starts.
read_pairs : Bytes → Result Bytes
unfolding hex_value
read_pairs [] = ok []
read_pairs (a ∷ []) = throw Error.out_of_bounds
read_pairs (a ∷ b ∷ rest) = do
  hi ← hex_value a
  lo ← hex_value b
  out ← read_pairs rest
  ok (bit_or (hi * 16) lo % 256 ∷ out)

pub hex_to_bin : Bytes → Result Bytes
unfolding read_pairs
hex_to_bin hex = do throw_if (not (length hex % 2 == 0)) Error.invalid_hex_length; read_pairs hex
