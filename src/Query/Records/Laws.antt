-- ===== src/Query/Records/Laws.antt =====
-- What the records that `fetchFullRecords` returns have in common.
use sec_search.Prelude.{
  List, [], ◌∷◌, some, Bytes, same, eq_of_same, if◌then◌else◌, All, Bool-cases, ◌≡◌, inl, inr,
}
use sec_search.Prelude.Action.{Ensures, bind-Ensures, then-Ensures}
use sec_search.Prelude.SortedMap.{SortedMap, lookup}
use sec_search.Crypto.Primitives.{Primitives}
use sec_search.Crypto.KeyManager.{KeyManager}
use sec_search.Database.{CipherRecord, FieldType}
use sec_search.Query.Records.{
  FullRecord, FullRecordBuilder, Plains, plains_of, group, all_cipher_records, fill_cache, text_of,
  matches, decrypt_records, build_record, build_all, decrypt_rows,
}

-- The records that show a text in a field.
abbrev pub Shows : FieldType → Bytes → List FullRecord → Type 0
Shows t plain = All (λ r. text_of t r ≡ plain)

keep-Shows :
    (t : FieldType) (plain : Bytes) (r : FullRecord) (rest : List FullRecord)
    → Shows t plain rest
    → Shows t plain (if matches t (some plain) r then r ∷ rest else rest)
keep-Shows t plain r rest h = elim (Bool-cases (same (text_of t r) plain)) [
  | inl eq ↦ rw eq (eq_of_same (text_of t r) plain eq, h)
  | inr ne ↦ rw ne h
]

module _ (c : Primitives) (keys : KeyManager) where
  build_all-Shows :
      (enc_key : Bytes) (t : FieldType) (plain : Bytes) (cache : SortedMap Plains)
      (m : SortedMap FullRecordBuilder)
      → Ensures (Shows t plain) (build_all c keys enc_key t (some plain) cache m)
  unfolding build_all
  build_all-Shows enc_key t plain cache [] = λ s. tt
  build_all-Shows enc_key t plain cache ((k, b) ∷ m) =
      then-Ensures (Shows t plain) (build_record c keys enc_key b (plains_of (lookup b.id cache))) _
        λ r.
          bind-Ensures (Shows t plain) (Shows t plain)
            (build_all c keys enc_key t (some plain) cache m) _
            (build_all-Shows enc_key t plain cache m) λ rest h s. keep-Shows t plain r rest h

  pub decrypt_rows-Shows :
      (enc_key : Bytes) (t : FieldType) (plain : Bytes) (rows : List CipherRecord)
      → Ensures (Shows t plain) (decrypt_rows c keys enc_key t (some plain) rows)
  unfolding decrypt_rows
  decrypt_rows-Shows enc_key t plain rows =
      let records = all_cipher_records (group rows []) in
      then-Ensures (Shows t plain) (decrypt_records c keys records) _
        λ results. build_all-Shows enc_key t plain (fill_cache records results []) (group rows [])
