-- ===== src/Crypto/KeyManager/Loading/Kek.antt =====
-- The KEK that `loadFromDatabase` of src/crypto/key_manager.cpp is given is the manager's from then
-- on, whether it returns or throws.
use sec_search.Prelude.{
  Bool, true, false, List, [], ◌∷◌, Bytes, Result-cases, ◌≡◌, refl, ◌∙◌, ap, Error, inl, inr, arith,
}
use sec_search.Prelude.Action.{raise_if}
use sec_search.Crypto.Primitives.{Primitives}
use sec_search.Crypto.KeyManager.{KeyManager, KeyInfo, KeyType, enc, idx, tag, put_map, cleared}
use sec_search.Crypto.KeyManager.Loading.{
  State, accept, load_record, load_records, load_all, load_from_database,
}

put_map-kek : (m : KeyManager) (t : KeyType) (x : _) → (put_map m t x).kek ≡ m.kek
put_map-kek m enc x = refl
put_map-kek m idx x = refl
put_map-kek m tag x = refl

accept-kek :
    (t : KeyType) (row : KeyInfo) (key : Bytes) (m : KeyManager) → (accept t row key m).kek ≡ m.kek
unfolding accept
accept-kek enc row key m = ground arith
accept-kek idx row key m = ground arith
accept-kek tag row key m = ground arith

raise_if-state : {S : Type 0} (b : Bool) (e : Error) (s : S) → (raise_if b e s).1 ≡ s
raise_if-state true e s = refl
raise_if-state false e s = refl

module _ (c : Primitives) where
  load_record-kek :
      (t : KeyType) (kek : Bytes) (row : KeyInfo) (s : State c)
      → (load_record c t kek row s).1.kek ≡ s.1.kek
  unfolding load_record
  load_record-kek t kek row s = elim (Result-cases (c.decrypt row.key kek s.0).0) [
    | inl (key, e) ↦ rw (e, load_record) (accept-kek t row key s.1)
    | inr (x, e) ↦ rw (e, load_record) refl
  ]

  load_records-kek :
      (t : KeyType) (kek : Bytes) (rows : List KeyInfo) (s : State c)
      → (load_records c t kek rows s).1.kek ≡ s.1.kek
  unfolding load_records
  load_records-kek t kek [] s = refl
  load_records-kek t kek (row ∷ rows) s =
      load_records-kek t kek rows (load_record c t kek row s) ∙ load_record-kek t kek row s

  pub load_from_database-kek :
      (rows : KeyType → List KeyInfo) (kek : Bytes) (s : State c)
      → (load_from_database c rows kek s).1.1.kek ≡ kek
  unfolding load_from_database load_all
  load_from_database-kek rows kek s =
      let s0 : State c = (s.0, cleared (record s.1 { kek = kek; initialized = true })) in
      let s1 = load_records c enc kek (rows enc) s0 in
      let s2 = load_records c idx kek (rows idx) s1 in
      ap (λ (x : State c). x.1.kek) (raise_if-state _ _ (load_records c tag kek (rows tag) s2))
      ∙ load_records-kek tag kek (rows tag) s2
      ∙ load_records-kek idx kek (rows idx) s1
      ∙ load_records-kek enc kek (rows enc) s0
