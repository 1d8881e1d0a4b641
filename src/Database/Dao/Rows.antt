-- ===== src/Database/Dao/Rows.antt =====
-- What `batchSelectCiphers` and `getRecordsForRebuild` of src/database/dao.cpp make of a row.
use sec_search.Prelude.{
  ℕ, List, [], ◌∷◌, ◌++◌, Option, none, some, Bytes, Result, ok, throw, Error, ◌>>=◌,
}
use sec_search.Database.{FieldType, name, phone, address, CipherRecord, RebuildRawRecord}
use sec_search.Database.Server.{SelectedField, SelectedRow}

-- `records.push_back(…)` of a field that is not NULL. A NULL tag leaves the length of its buffer
-- unset.
unfoldable pub record_of : ℕ → ℕ → FieldType → SelectedField → Result (List CipherRecord)
record_of id version t f = elim f.cipher [
  | none ↦ ok []
  | some cipher ↦ elim f.tag [
    | none ↦ throw Error.uninitialised_read
    | some tag ↦ ok (
        record { id = id; cipher = cipher; tag = tag; field_type = t; enc_key_version = version }
        ∷ [])
  ]
]

unfoldable pub records_of_row : SelectedRow → Result (List CipherRecord)
unfolding record_of
records_of_row r = record_of r.id r.enc_key_version name r.name_field >>= λ a.
    record_of r.id r.enc_key_version phone r.phone_field >>= λ b.
    record_of r.id r.enc_key_version address r.address_field >>= λ c. ok (a ++ (b ++ c))

unfoldable pub records_of_rows : List SelectedRow → Result (List CipherRecord)
unfolding records_of_row
records_of_rows [] = ok []
records_of_rows (r ∷ rows) =
    records_of_row r >>= λ a. records_of_rows rows >>= λ more. ok (a ++ more)

-- `isNull[i] ? "" : std::string(…)`.
abbrev text_or_empty : Option Bytes → Bytes
text_or_empty none = []
text_or_empty (some s) = s

unfoldable pub raw_record : SelectedRow → RebuildRawRecord
raw_record r = record {
  id = r.id;
  enc_key_version = r.enc_key_version;
  name_cipher = text_or_empty r.name_field.cipher;
  name_tag = text_or_empty r.name_field.tag;
  phone_cipher = text_or_empty r.phone_field.cipher;
  phone_tag = text_or_empty r.phone_field.tag;
  address_cipher = text_or_empty r.address_field.cipher;
  address_tag = text_or_empty r.address_field.tag;
}
