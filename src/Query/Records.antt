-- ===== src/Query/Records.antt =====
-- `QueryService::fetchFullRecords` of src/query/query_service.cpp: the rows of some ids, decrypted
-- in a batch and put together by id. `Dao` is what the service calls of the database layer.
pub mod Laws
pub mod Fallback
use sec_search.Prelude.{
  ℕ, Bool, true, false, not, ◌&&◌, List, [], ◌∷◌, ◌++◌, Option, none, some, Bytes, Result, ok,
  throw, same, if◌then◌else◌,
}
use sec_search.Prelude.Action.{Action, pure, ◌>>=◌, ◌>>◌}
use sec_search.Prelude.SortedMap.{SortedMap, lookup, insert}
use sec_search.Crypto.Primitives.{Primitives}
use sec_search.Crypto.KeyManager.{KeyManager, enc, get_key_by_version}
use sec_search.Database.{CipherRecord, FieldType, name, phone, address}
use sec_search.Decrypt.Record.{DecryptResult, decrypt_record}

-- `batchSelectCiphers`, `queryByExactIndexMulti` and `queryByFuzzyKeywordMulti`.
pub record Dao : Type 1 where
  pub Db : Type 0
  pub batch_select_ciphers : List ℕ → Action Db (List CipherRecord)
  pub query_by_exact_index_multi : List Bytes → FieldType → Action Db (List ℕ)
  pub query_by_fuzzy_keyword_multi : List Bytes → FieldType → Action Db (List ℕ)

pub record FullRecord : Type 0 where
  pub id : ℕ
  pub name_text : Bytes
  pub phone_text : Bytes
  pub address_text : Bytes
  pub enc_key_version : ℕ

-- A cipher and its tag; an empty cipher is a field that no row has given.
pub record SealedField : Type 0 where
  pub cipher : Bytes
  pub tag : Bytes

pub record FullRecordBuilder : Type 0 where
  pub id : ℕ
  pub enc_key_version : ℕ
  pub name_field : SealedField
  pub phone_field : SealedField
  pub addr_field : SealedField

abbrev pub no_field : SealedField
no_field = record { cipher = []; tag = [] }

-- What `builders[r.id]` makes of a new id.
abbrev pub no_builder : FullRecordBuilder
no_builder = record {
  id = 0;
  enc_key_version = 0;
  name_field = no_field;
  phone_field = no_field;
  addr_field = no_field;
}

abbrev pub put_field : CipherRecord → FullRecordBuilder → FullRecordBuilder
put_field r b =
    let b' = record b { id = r.id; enc_key_version = r.enc_key_version } in
    let f : SealedField = record { cipher = r.cipher; tag = r.tag } in
    elim r.field_type [
      | name ↦ record b' { name_field = f }
      | phone ↦ record b' { phone_field = f }
      | address ↦ record b' { addr_field = f }
    ]

abbrev pub builder_of : Option FullRecordBuilder → FullRecordBuilder
builder_of none = no_builder
builder_of (some b) = b

-- The loop over the rows.
unfoldable pub group : List CipherRecord → SortedMap FullRecordBuilder → SortedMap FullRecordBuilder
group [] m = m
group (r ∷ rs) m = group rs (insert r.id (put_field r (builder_of (lookup r.id m))) m)

unfoldable pub is_empty {ℓ} : {A : Type ℓ} → List A → Bool
is_empty [] = true
is_empty (x ∷ xs) = false

-- `if (!b.nameCipher.empty()) allCipherRecords.push_back(…)`.
unfoldable pub given : FullRecordBuilder → FieldType → SealedField → List CipherRecord
unfolding is_empty
given b t f =
    if is_empty f.cipher
    then []
    else record {
      id = b.id;
      cipher = f.cipher;
      tag = f.tag;
      field_type = t;
      enc_key_version = b.enc_key_version;
    }
      ∷ []

unfoldable pub all_cipher_records : SortedMap FullRecordBuilder → List CipherRecord
unfolding given
all_cipher_records [] = []
all_cipher_records ((k, b) ∷ m) =
    given b name b.name_field
    ++ (given b phone b.phone_field ++ (given b address b.addr_field ++ all_cipher_records m))

-- `decryptedCache`: the plaintext of a field, if the batch has decrypted it.
pub record Plains : Type 0 where
  pub name_plain : Option Bytes
  pub phone_plain : Option Bytes
  pub address_plain : Option Bytes

abbrev pub no_plains : Plains
no_plains = record { name_plain = none; phone_plain = none; address_plain = none }

abbrev pub plains_of : Option Plains → Plains
plains_of none = no_plains
plains_of (some p) = p

abbrev pub put_plain : FieldType → Bytes → Plains → Plains
put_plain name s p = record p { name_plain = some s }
put_plain phone s p = record p { phone_plain = some s }
put_plain address s p = record p { address_plain = some s }

unfoldable pub fill_cache :
    List CipherRecord → List DecryptResult → SortedMap Plains → SortedMap Plains
fill_cache (r ∷ rs) (d ∷ ds) cache = fill_cache rs ds (
    if d.success
    then insert r.id (put_plain r.field_type d.plaintext (plains_of (lookup r.id cache))) cache
    else cache)
fill_cache [] ds cache = cache
fill_cache (r ∷ rs) [] cache = cache

-- The field of a record that a query asks for.
abbrev pub text_of : FieldType → FullRecord → Bytes
text_of name r = r.name_text
text_of phone r = r.phone_text
text_of address r = r.address_text

-- The test against `expectedPlain`, a null pointer being `none`.
abbrev pub matches : FieldType → Option Bytes → FullRecord → Bool
matches t none r = true
matches t (some plain) r = same (text_of t r) plain

module _ (c : Primitives) (keys : KeyManager) where
  -- `decryptRecords`, in the order of the records.
  unfoldable pub decrypt_records : List CipherRecord → Action c.Env (List DecryptResult)
  decrypt_records [] e = (ok [], e)
  decrypt_records (r ∷ rs) e =
      let (d, e') = decrypt_record c keys r e in (decrypt_records rs >>= λ ds. pure (d ∷ ds)) e'

  unfoldable pub decrypt_field_with_version : Bytes → ℕ → Bytes → Action c.Env Bytes
  decrypt_field_with_version cipher version fallback_key =
      elim (get_key_by_version enc version keys) [
        | none ↦ c.decrypt cipher fallback_key
        | some key ↦ λ e.
            let (r, e') = c.decrypt cipher key e in
            elim r [ ok plain ↦ (ok plain, e') | throw _ ↦ c.decrypt cipher fallback_key e' ]
      ]

  -- A field from the cache, or by the fallback.
  unfoldable pub field_text : Bytes → ℕ → Option Bytes → Bytes → Action c.Env Bytes
  unfolding is_empty
  field_text enc_key version cached cipher =
      let plain : Bytes = elim cached [ none ↦ [] | some s ↦ s ] in
      let again = decrypt_field_with_version cipher version enc_key in
      if is_empty plain && not (is_empty cipher) then again else pure plain

  unfoldable pub build_record : Bytes → FullRecordBuilder → Plains → Action c.Env FullRecord
  build_record enc_key b p = do
    name_text ← field_text enc_key b.enc_key_version p.name_plain b.name_field.cipher
    phone_text ← field_text enc_key b.enc_key_version p.phone_plain b.phone_field.cipher
    address_text ← field_text enc_key b.enc_key_version p.address_plain b.addr_field.cipher
    pure (record {
      id = b.id;
      name_text = name_text;
      phone_text = phone_text;
      address_text = address_text;
      enc_key_version = b.enc_key_version;
    })

  -- The loop over the builders.
  unfoldable pub build_all :
      Bytes
      → FieldType
      → Option Bytes
      → SortedMap Plains
      → SortedMap FullRecordBuilder
      → Action c.Env (List FullRecord)
  build_all enc_key t expected cache [] = pure []
  build_all enc_key t expected cache ((k, b) ∷ m) = do
    r ← build_record enc_key b (plains_of (lookup b.id cache))
    rest ← build_all enc_key t expected cache m
    pure (if matches t expected r then r ∷ rest else rest)

  unfoldable pub decrypt_rows :
      Bytes → FieldType → Option Bytes → List CipherRecord → Action c.Env (List FullRecord)
  decrypt_rows enc_key t expected rows = do
    let builders = group rows []
    let records = all_cipher_records builders
    results ← decrypt_records records
    build_all enc_key t expected (fill_cache records results []) builders
