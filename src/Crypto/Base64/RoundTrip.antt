-- ===== src/Crypto/Base64/RoundTrip.antt =====
-- What `base64Decode` makes of what `base64Encode` wrote.
use sec_search.Prelude.{
  ℕ, zero, suc, ◌+◌, ◌-◌, ◌*◌, ◌/◌, ◌%◌, ◌≤◌, ◌<◌, [], ◌∷◌, ◌++◌, Bytes, length, take, ok, ◌==◌,
  ltb, if◌then◌else◌, ◌≡◌, refl, arith, AreBytes,
}
use sec_search.Crypto.Base64.Tables.{
  bit_and_63, bit_and_15, bit_and_3, bit_or_4, bit_or_16, bit_or_64, letter_parts,
}
use sec_search.Crypto.Base64.{
  letter, quad, encode_from, base64_encode, read_group, group_bytes, decode_from, base64_decode,
}

-- The four values of a group of three bytes.
abbrev s1 : ℕ → ℕ
s1 a = a / 4

abbrev s2 : ℕ → ℕ → ℕ
s2 a b = a % 4 * 16 + b / 16

abbrev s3 : ℕ → ℕ → ℕ
s3 b c = b % 16 * 4 + c / 64

abbrev s4 : ℕ → ℕ
s4 c = c % 64

quad_lem :
    (size i a b c : ℕ)
    → a < 256
    → b < 256
    → c < 256
    → i - 1 < size
    → quad size i a b c
      ≡ letter (s1 a)
        ∷ letter (s2 a b)
        ∷ letter (s3 b c)
        ∷ (if ltb i size then letter (s4 c) else b'=')
        ∷ []
unfolding quad
quad_lem size i a b c ha hb hc h = ground (
  arith,
  bit_and_63 (a / 4),
  bit_and_3 a,
  bit_and_15 (b / 16),
  bit_or_16 (a % 4) (b / 16),
  bit_and_15 b,
  bit_and_3 (c / 64),
  bit_or_4 (b % 16) (c / 64),
  bit_and_63 c,
)

read_letter :
    (room v : ℕ) (s : Bytes) (r : Bytes × Bytes)
    → v < 64
    → read_group room s ≡ ok r
    → read_group (suc room) (letter v ∷ s) ≡ ok (v ∷ r.0, r.1)
unfolding read_group
read_letter room v s r h e = ground (arith, letter_parts v)

read_pad : (room : ℕ) (s : Bytes) → read_group (suc room) (b'=' ∷ s) ≡ ok ([], b'=' ∷ s)
unfolding read_group
read_pad room s = refl

read_4 :
    (v w x y : ℕ) (s : Bytes)
    → v < 64
    → w < 64
    → x < 64
    → y < 64
    → read_group 4 (letter v ∷ letter w ∷ letter x ∷ letter y ∷ s) ≡ ok (v ∷ w ∷ x ∷ y ∷ [], s)
read_4 v w x y s hv hw hx hy =
    read_letter 3 v _ _ hv
      (read_letter 2 w _ _ hw (read_letter 1 x _ _ hx (read_letter 0 y s ([], s) hy read_none)))
  where
    read_none : read_group 0 s ≡ ok ([], s)
    read_none = unfold read_group in refl

read_3 :
    (v w x : ℕ) (s : Bytes)
    → v < 64
    → w < 64
    → x < 64
    → read_group 4 (letter v ∷ letter w ∷ letter x ∷ b'=' ∷ s) ≡ ok (v ∷ w ∷ x ∷ [], b'=' ∷ s)
read_3 v w x s hv hw hx =
    read_letter 3 v _ _ hv (read_letter 2 w _ _ hw (read_letter 1 x _ _ hx (read_pad 0 s)))

-- The bytes of a full group, and of a group of three values.
group_4 :
    (a b c : ℕ)
    → a < 256
    → b < 256
    → c < 256
    → group_bytes (s1 a ∷ s2 a b ∷ s3 b c ∷ s4 c ∷ []) ≡ a ∷ b ∷ c ∷ []
unfolding group_bytes
group_4 a b c ha hb hc = ground (
  arith,
  bit_or_4 (s1 a) (s2 a b / 16),
  bit_and_15 (s2 a b),
  bit_or_16 (s2 a b % 16) (s3 b c / 4),
  bit_and_3 (s3 b c),
  bit_or_64 (s3 b c % 4) (s4 c),
)

group_3 :
    (a b c : ℕ)
    → a < 256
    → b < 256
    → c < 256
    → group_bytes (s1 a ∷ s2 a b ∷ s3 b c ∷ []) ≡ a ∷ b ∷ []
unfolding group_bytes
group_3 a b c ha hb hc = ground (
  arith,
  bit_or_4 (s1 a) (s2 a b / 16),
  bit_and_15 (s2 a b),
  bit_or_16 (s2 a b % 16) (s3 b c / 4),
)

decode_round :
    (fuel v : ℕ) (s g rest out : Bytes)
    → v < 64
    → read_group 4 (letter v ∷ s) ≡ ok (g, rest)
    → 2 ≤ length g
    → decode_from fuel rest ≡ ok out
    → decode_from (suc fuel) (letter v ∷ s) ≡ ok (group_bytes g ++ out)
unfolding decode_from
decode_round fuel v s g rest out hv e h d = ground (arith, letter_parts v)

decode_pad : (fuel : ℕ) → decode_from fuel (b'=' ∷ []) ≡ ok []
unfolding decode_from
decode_pad zero = refl
decode_pad (suc fuel) = refl

-- A last group, whose fourth character is '='.
decode_last :
    (fuel a b c : ℕ)
    → a < 256
    → b < 256
    → c < 256
    → decode_from (suc fuel) (letter (s1 a) ∷ letter (s2 a b) ∷ letter (s3 b c) ∷ b'=' ∷ [])
      ≡ ok (a ∷ b ∷ [])
decode_last fuel a b c ha hb hc = ground (
  arith,
  group_3 a b c,
  decode_round fuel (s1 a) _ (s1 a ∷ s2 a b ∷ s3 b c ∷ []) (b'=' ∷ []) [] (omega arith)
      (read_3 (s1 a) (s2 a b) (s3 b c) [] (omega arith) (omega arith) (omega arith)) (omega arith)
      (decode_pad fuel),
)

decode_full :
    (fuel a b c : ℕ) (s out : Bytes)
    → a < 256
    → b < 256
    → c < 256
    → decode_from fuel s ≡ ok out
    → decode_from (suc fuel) (letter (s1 a) ∷ letter (s2 a b) ∷ letter (s3 b c) ∷ letter (s4 c) ∷ s)
      ≡ ok (a ∷ b ∷ c ∷ out)
decode_full fuel a b c s out ha hb hc e = ground (
  arith,
  group_4 a b c,
  decode_round fuel (s1 a) _ (s1 a ∷ s2 a b ∷ s3 b c ∷ s4 c ∷ []) s out (omega arith)
      (read_4 (s1 a) (s2 a b) (s3 b c) (s4 c) s (omega arith) (omega arith) (omega arith)
        (omega arith))
      (omega arith) e,
)

-- What comes back, group by group.
survivors : Bytes → Bytes
survivors [] = []
survivors (a ∷ []) = a ∷ 0 ∷ []
survivors (a ∷ b ∷ []) = a ∷ b ∷ []
survivors (a ∷ b ∷ c ∷ []) = a ∷ b ∷ []
survivors (a ∷ b ∷ c ∷ d ∷ rest) = a ∷ b ∷ c ∷ survivors (d ∷ rest)

abbrev mended : ℕ → Bytes → Bytes
mended r s = if r == 1 then s ++ 0 ∷ [] else if r == 2 then s else take (length s - 1) s

mended_group :
    (r a b c d : ℕ) (rest : Bytes)
    → mended r (a ∷ b ∷ c ∷ d ∷ rest) ≡ a ∷ b ∷ c ∷ mended r (d ∷ rest)
mended_group r a b c d rest =
    let whole : suc (suc (suc (suc (length rest)))) - 1 ≡ suc (suc (suc (length rest))) =
      omega arith in
    let part : suc (length rest) - 1 ≡ length rest = omega arith in rw (whole, part) (ground arith)

survivors_lem : (s : Bytes) → survivors s ≡ mended (length s % 3) s
unfolding survivors
survivors_lem [] = refl
survivors_lem (a ∷ []) = refl
survivors_lem (a ∷ b ∷ []) = refl
survivors_lem (a ∷ b ∷ c ∷ []) = refl
survivors_lem (a ∷ b ∷ c ∷ d ∷ rest) =
    let residue : length (a ∷ b ∷ c ∷ d ∷ rest) % 3 ≡ length (d ∷ rest) % 3 = omega arith in
    rw (survivors_lem (d ∷ rest), residue, mended_group)

decode_from-encode_from :
    (fuel size i : ℕ) (s : Bytes)
    → AreBytes s
    → i + length s ≡ size
    → length s ≤ fuel
    → decode_from fuel (encode_from size i s) ≡ ok (survivors s)
unfolding encode_from survivors
decode_from-encode_from zero size i [] h e f = unfold decode_from in refl
decode_from-encode_from (suc fuel) size i [] h e f = unfold decode_from in refl
decode_from-encode_from zero size i (a ∷ s) h e f = absurd (omega arith)
decode_from-encode_from (suc fuel) size i (a ∷ []) h e f =
    ground (arith, quad_lem size (i + 1) a 0 0, decode_last fuel a 0 0)
decode_from-encode_from (suc fuel) size i (a ∷ b ∷ []) h e f =
    ground (arith, quad_lem size (i + 2) a b 0, decode_last fuel a b 0)
decode_from-encode_from (suc fuel) size i (a ∷ b ∷ c ∷ []) h e f =
    ground (arith, quad_lem size (i + 3) a b c, decode_last fuel a b c)
decode_from-encode_from (suc fuel) size i (a ∷ b ∷ c ∷ d ∷ rest) h e f = ground (
  arith,
  quad_lem size (i + 3) a b c,
  decode_full fuel a b c (encode_from size (i + 3) (d ∷ rest)) (survivors (d ∷ rest)),
  decode_from-encode_from fuel size (i + 3) (d ∷ rest) h.1.1.1,
)

length-encode_from : (size i : ℕ) (s : Bytes) → length s ≤ length (encode_from size i s)
unfolding encode_from quad
length-encode_from size i [] = omega arith
length-encode_from size i (a ∷ []) = omega arith
length-encode_from size i (a ∷ b ∷ []) = omega arith
length-encode_from size i (a ∷ b ∷ c ∷ rest) = omega (arith, length-encode_from size (i + 3) rest)

-- Decoding an encoding gives back the data only if its length leaves 2 when divided by 3. If it
-- leaves 1, a zero byte is added at the end; if 3 divides it, the last byte is lost.
pub base64_decode-encode :
    (data' : Bytes)
    → AreBytes data'
    → base64_decode (base64_encode data')
      ≡ ok (
          if length data' % 3 == 1
          then data' ++ 0 ∷ []
          else if length data' % 3 == 2
          then data'
          else take (length data' - 1) data')
unfolding base64_decode base64_encode
base64_decode-encode data' h =
    rw (← survivors_lem data')
      (decode_from-encode_from _ _ 0 data' h (omega arith) (length-encode_from _ 0 data'))
