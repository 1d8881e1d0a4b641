-- ===== src/Query/Tests.antt =====
-- Runs of the limits and of the tokens.
use sec_search.Prelude.{
  ℕ, List, [], ◌∷◌, ◌++◌, Bytes, codes, length, ◌≡◌, refl, inl, inr, true, false, arith,
}
use sec_search.Prelude.{Result, throw, sym, ◌∙◌, ◌<◌, ◌^◌, ◌≢◌, none, some, ok, ap, AreBytes}
use sec_search.Prelude.SortedMap.{lookup}
use sec_search.Crypto.Provider.{Host}
use sec_search.Crypto.Sample.{sample, sample_healthy, repeat, sample_primitives, sample_lawful}
use sec_search.Crypto.Sm4Cipher
use sec_search.Crypto.Sm4Cipher.RoundTrip.{decrypt-encrypt}
use sec_search.Crypto.KeyManager.{KeyManager, KeyStatus, fresh, enc, tag, get_key_by_version}
use sec_search.Database.{FieldType}
use sec_search.Query.Records.{SealedField, decrypt_rows}
use sec_search.Query.Records.Fallback.{IsSealed, three_rows, decrypt_rows_forged}
use sec_search.Query.Limits.Window.{answers, rule, answers-rule}
use sec_search.Query.Bigram.{split_bigram, pairs, IsIn, split_bigram_covers}

abbrev times : List ℕ
times = 0 ∷ 1 ∷ 2 ∷ 3 ∷ 4 ∷ 5 ∷ 6 ∷ 7 ∷ 8 ∷ 9 ∷ 100 ∷ 1001 ∷ 2500 ∷ []

answers-rule_example : answers 1000 times [] ≡ rule 1000 times []
answers-rule_example = answers-rule 1000 times (ground arith)

-- The eleventh request is refused, and the next ones pass.
rule_run :
    rule 1000 times []
    ≡ true ∷ true ∷ true ∷ true ∷ true ∷ true ∷ true ∷ true ∷ true ∷ true ∷ false ∷ true ∷ true ∷ []
rule_run = refl

token-IsIn : IsIn (codes "ob") (split_bigram (codes "bob"))
unfolding split_bigram pairs
token-IsIn = inr (inl refl)

split_bigram_covers_example :
    IsIn (codes "ob") (split_bigram (codes "a" ++ (codes "bob" ++ codes "c")))
split_bigram_covers_example =
    split_bigram_covers (codes "a") (codes "bob") (codes "c") (codes "ob") (omega arith) token-IsIn

abbrev key : Bytes
key = codes "0123456789abcdef"

abbrev manager : KeyManager
manager = record fresh {
  enc_keys = (1, record { key = key; version = 1; status = KeyStatus.enabled }) ∷ [];
  tag_keys = (1, record { key = key; version = 1; status = KeyStatus.enabled }) ∷ [];
}

abbrev host : Host sample
host = record { world = 5; live = 0 }

enc_1 : get_key_by_version enc 1 manager ≡ some key
unfolding get_key_by_version lookup
enc_1 = refl

tag_1 : get_key_by_version tag 1 manager ≡ some key
unfolding get_key_by_version lookup
tag_1 = refl

bob-AreBytes : AreBytes (codes "bob")
bob-AreBytes = ground arith

sealed_bob :
    (s : Bytes) × ((Sm4Cipher.encrypt sample (codes "bob") key host).0 ≡ ok s)
    × sample_lawful.Seals key (codes "bob") s
    × (length s < 2 ^ 32)
    × sample_lawful.Ready (Sm4Cipher.encrypt sample (codes "bob") key host).1
sealed_bob =
    sample_lawful.encrypt-Seals (codes "bob") key host tt
      (record { bytes = bob-AreBytes; short = omega arith }) refl

abbrev size_of : Result Bytes → ℕ
size_of (ok s) = length s
size_of (throw e) = 0

sealed_some : sealed_bob.0 ≢ []
sealed_some e =
    let (s, run, size, _) =
      decrypt-encrypt sample sample_healthy (codes "bob") key (repeat 16 5) (true, []) (true, [])
        host host refl (omega arith) bob-AreBytes refl refl refl in
    let none_left : size_of (ok s) ≡ size_of (ok []) =
      ap size_of (sym run ∙ sealed_bob.1 ∙ ap ok e) in
    omega (arith, none_left, size)

-- Three fields with an empty tag, which is no MAC.
abbrev bob_field : SealedField
bob_field = record { cipher = sealed_bob.0; tag = [] }

bob-IsSealed : IsSealed sample_primitives sample_lawful manager key (codes "bob") bob_field
bob-IsSealed = record { sized = sealed_bob.3; present = sealed_some; seals = sealed_bob.2 }

decrypt_rows_forged_example :
    (decrypt_rows sample_primitives manager [] FieldType.phone none
      (three_rows sample_primitives sample_lawful manager 7 1 bob_field bob_field bob_field)
      host).0
    ≡ ok (
        record {
          id = 7;
          name_text = codes "bob";
          phone_text = codes "bob";
          address_text = codes "bob";
          enc_key_version = 1;
        }
        ∷ [])
decrypt_rows_forged_example =
    decrypt_rows_forged sample_primitives sample_lawful manager 7 1 bob_field bob_field bob_field
      key key (codes "bob") (codes "bob") (codes "bob") refl refl tag_1 enc_1 bob-IsSealed
      bob-IsSealed bob-IsSealed [] FieldType.phone host tt
