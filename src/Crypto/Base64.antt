-- ===== src/Crypto/Base64.antt =====
-- `base64Encode` and `base64Decode` of src/crypto/utils.cpp.
mod Tables
pub mod RoundTrip
use sec_search.Prelude.{
  ℕ, zero, suc, ◌+◌, ◌-◌, ◌*◌, ◌/◌, ◌%◌, bit_and, bit_or, Bool, true, false, ◌&&◌, ◌||◌, List, [],
  ◌∷◌, ◌++◌, Bytes, codes, length, get_or, Result, ok, throw, Error, ◌>>=◌, ◌==◌, ltb, leb,
  if◌then◌else◌, ◌≡◌, refl,
}
use sec_search.Prelude.{String}

abbrev base64_alphabet : Bytes
base64_alphabet = codes "ABCDEFGHIJKLMNOPQRSTUVWXYZabcdefghijklmnopqrstuvwxyz0123456789+/"

-- `BASE64_ALPHABET[v]`.
unfoldable pub letter : ℕ → ℕ
letter v = get_or base64_alphabet v 0

-- The four characters that one round pushes; `i` is the index after its reads, `size` is
-- `data.size()`.
quad : ℕ → ℕ → ℕ → ℕ → ℕ → Bytes
quad size i a b c =
    let enc1 = bit_and (a / 4) 0x3f in
    let enc2 = bit_or (bit_and a 0x03 * 16) (bit_and (b / 16) 0x0f) in
    let enc3 = bit_or (bit_and b 0x0f * 4) (bit_and (c / 64) 0x03) in
    let enc4 = bit_and c 0x3f in
    letter enc1
    ∷ letter enc2
    ∷ (if ltb (i - 1) size then letter enc3 else b'=')
    ∷ (if ltb i size then letter enc4 else b'=')
    ∷ []

-- The loop. The list is `data` from index `i` on; a read past its end gives 0 and leaves `i`.
encode_from : ℕ → ℕ → Bytes → Bytes
unfolding quad
encode_from size i [] = []
encode_from size i (a ∷ []) = quad size (i + 1) a 0 0
encode_from size i (a ∷ b ∷ []) = quad size (i + 2) a b 0
encode_from size i (a ∷ b ∷ c ∷ rest) = quad size (i + 3) a b c ++ encode_from size (i + 3) rest

pub base64_encode : Bytes → Bytes
unfolding encode_from
base64_encode data' = encode_from (length data') 0 data'

pub is_base64_char : ℕ → Bool
is_base64_char c =
    (leb b'A' c && leb c b'Z')
    || (leb b'a' c && leb c b'z')
    || (leb b'0' c && leb c b'9')
    || c == b'+'
    || c == b'/'

-- The value that `enc[count]` is given.
pub sextet : ℕ → ℕ
sextet c =
    if leb b'A' c && leb c b'Z'
    then c - b'A'
    else if leb b'a' c && leb c b'z'
    then c - b'a' + 26
    else if leb b'0' c && leb c b'9'
    then c - b'0' + 52
    else if c == b'+'
    then 62
    else 63

-- The inner loop: reads at most `room` characters up to a '=', and returns their values and what
-- is left.
read_group : ℕ → Bytes → Result (Bytes × Bytes)
unfolding is_base64_char sextet
read_group zero s = ok ([], s)
read_group (suc room) [] = ok ([], [])
read_group (suc room) (c ∷ s) =
    let more = read_group room s in
    if c == b'='
    then ok ([], c ∷ s)
    else if is_base64_char c
    then (more >>= λ r. ok (sextet c ∷ r.0, r.1))
    else throw Error.invalid_base64_character

-- The bytes that one group pushes: none if `count < 2`. The stores are to `unsigned char`.
group_bytes : Bytes → Bytes
group_bytes [] = []
group_bytes (e0 ∷ []) = []
group_bytes (e0 ∷ e1 ∷ []) = bit_or (e0 * 4) (e1 / 16) % 256 ∷ []
group_bytes (e0 ∷ e1 ∷ e2 ∷ []) =
    bit_or (e0 * 4) (e1 / 16) % 256 ∷ bit_or (bit_and e1 0x0f * 16) (e2 / 4) % 256 ∷ []
group_bytes (e0 ∷ e1 ∷ e2 ∷ e3 ∷ _) =
    bit_or (e0 * 4) (e1 / 16) % 256
    ∷ bit_or (bit_and e1 0x0f * 16) (e2 / 4) % 256
    ∷ bit_or (bit_and e2 0x03 * 64) e3 % 256
    ∷ []

-- The outer loop; every round reads one character at least.
decode_from : ℕ → Bytes → Result Bytes
unfolding read_group group_bytes
decode_from fuel [] = ok []
decode_from zero (c ∷ s) = if c == b'=' then ok [] else throw Error.out_of_fuel
decode_from (suc fuel) (c ∷ s) = elim (c == b'=') [
  | true ↦ ok []
  | false ↦ read_group 4 (c ∷ s) >>= λ g. elim (ltb (length g.0) 2) [
    | true ↦ ok []
    | false ↦ decode_from fuel g.1 >>= λ out. ok (group_bytes g.0 ++ out)
  ]
]

pub base64_decode : Bytes → Result Bytes
unfolding decode_from
base64_decode s = decode_from (length s) s

encode_man : base64_encode (codes "Man") ≡ codes "TWF="
unfolding base64_encode letter
encode_man = refl

decode_man : base64_decode (codes "TWFu") ≡ ok (codes "Man")
unfolding base64_decode
decode_man = refl
