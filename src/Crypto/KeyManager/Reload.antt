-- ===== src/Crypto/KeyManager/Reload.antt =====
-- `loadFromDatabase` on the rows that the key manager saved under the same KEK.
use sec_search.Prelude.{
  ℕ, true, false, List, [], ◌∷◌, Bytes, length, ok, if◌then◌else◌, ◌≡◌, ◌≢◌, refl, ◌⊎◌, inl, inr,
  arith,
}
use Prim.Native.Nat.{max}
use sec_search.Prelude.SortedMap.{SortedMap, insert, insert-ne-nil}
use sec_search.Crypto.Primitives.{Primitives, Lawful}
use sec_search.Crypto.KeyManager.{
  KeyManager, KeyInfo, KeyType, enc, idx, tag, key_map, put_map, get_current_version, put_version,
  cleared, is_enabled,
}
use sec_search.Crypto.KeyManager.Loading.{
  State, accept, load_record, load_records, load_all, load_from_database, is_empty,
}

-- The greatest version of an enabled key, from `cur` on.
abbrev pub latest_enabled : ℕ → List KeyInfo → ℕ
latest_enabled cur [] = cur
latest_enabled cur (i ∷ is) =
    latest_enabled (if is_enabled i.status then max cur i.version else cur) is

-- The entries of a list put into a map one after the other.
abbrev pub insert_all : List KeyInfo → SortedMap KeyInfo → SortedMap KeyInfo
insert_all [] k = k
insert_all (i ∷ is) k = insert_all is (insert i.version i k)

-- One type's part of the manager becomes the map and the version; the others stay.
abbrev filled : KeyType → SortedMap KeyInfo → ℕ → KeyManager → KeyManager
filled t k v m = put_version (put_map m t k) t v

accept-filled :
    (t : KeyType) (i : KeyInfo) (m : KeyManager)
    → length i.key ≡ 16
    → accept t i i.key m
      ≡ filled t
          (insert i.version i (key_map m t))
          (if is_enabled i.status
            then max (get_current_version m t) i.version
            else get_current_version m t)
          m
unfolding accept
accept-filled enc i m h = ground arith
accept-filled idx i m h = ground arith
accept-filled tag i m h = ground arith

filled-filled :
    (t : KeyType) (k k' : SortedMap KeyInfo) (v v' : ℕ) (m : KeyManager)
    → filled t k' v' (filled t k v m) ≡ filled t k' v' m
filled-filled enc k k' v v' m = refl
filled-filled idx k k' v v' m = refl
filled-filled tag k k' v v' m = refl

filled-key_map :
    (t : KeyType) (k : SortedMap KeyInfo) (v : ℕ) (m : KeyManager)
    → (key_map (filled t k v m) t ≡ k) × (get_current_version (filled t k v m) t ≡ v)
filled-key_map enc k v m = (refl, refl)
filled-key_map idx k v m = (refl, refl)
filled-key_map tag k v m = (refl, refl)

filled_self :
    (t : KeyType) (m : KeyManager) → m ≡ filled t (key_map m t) (get_current_version m t) m
filled_self enc m = refl
filled_self idx m = refl
filled_self tag m = refl

is_empty-ne : (k : SortedMap KeyInfo) → k ≢ [] → is_empty k ≡ false
unfolding is_empty
is_empty-ne [] h = absurd (h refl)
is_empty-ne (x ∷ k) h = refl

insert_all-is_empty :
    (is : List KeyInfo) (k : SortedMap KeyInfo)
    → (is ≢ []) ⊎ (k ≢ [])
    → is_empty (insert_all is k) ≡ false
insert_all-is_empty [] k (inl h) = absurd (h refl)
insert_all-is_empty [] k (inr h) = is_empty-ne k h
insert_all-is_empty (i ∷ is) k h = insert_all-is_empty is _ (inr (insert-ne-nil i.version i k))

accept-congr :
    (t : KeyType) (row i : KeyInfo) (m : KeyManager)
    → row.version ≡ i.version
    → row.status ≡ i.status
    → accept t row i.key m ≡ accept t i i.key m
unfolding accept
accept-congr t row i m e f = rw (e, f)

module _ (c : Primitives) (laws : Lawful c) where
  open laws use {Ready, Seals, decrypt-Seals}

  -- The rows hold the keys of the list, in order, each sealed under the KEK.
  abbrev pub Stored : Bytes → List KeyInfo → List KeyInfo → Type 0
  Stored kek [] [] = Unit {0}
  Stored kek [] (row ∷ rows) = ⊥
  Stored kek (i ∷ is) [] = ⊥
  Stored kek (i ∷ is) (row ∷ rows) =
      ((row.version ≡ i.version)
        × (row.status ≡ i.status)
        × (length i.key ≡ 16)
        × Seals kek i.key row.key)
      × Stored kek is rows

  load_record-accept :
      (t : KeyType) (kek : Bytes) (row i : KeyInfo) (s : State c)
      → Ready s.0
      → length kek ≡ 16
      → row.version ≡ i.version
      → row.status ≡ i.status
      → Seals kek i.key row.key
      → ((load_record c t kek row s).1 ≡ accept t i i.key s.1) × Ready (load_record c t kek row s).0
  unfolding load_record
  load_record-accept t kek row i s r k e f seal =
      let (opened, ready) = decrypt-Seals i.key kek row.key s.0 r k seal in
      (rw (opened, load_record) (accept-congr t row i s.1 e f), rw (opened, load_record) ready)

  load_records-filled :
      (t : KeyType) (kek : Bytes) (is rows : List KeyInfo) (s : State c)
      → Ready s.0
      → length kek ≡ 16
      → Stored kek is rows
      → ((load_records c t kek rows s).1
          ≡ filled t
              (insert_all is (key_map s.1 t))
              (latest_enabled (get_current_version s.1 t) is)
              s.1)
        × Ready (load_records c t kek rows s).0
  unfolding load_records
  load_records-filled t kek [] [] s r k h = (filled_self t s.1, r)
  load_records-filled t kek [] (row ∷ rows) s r k h = absurd h
  load_records-filled t kek (i ∷ is) [] s r k h = absurd h
  load_records-filled t kek (i ∷ is) (row ∷ rows) s r k ((e, f, size, seal), h) =
      let (one, ready) = load_record-accept t kek row i s r k e f seal in
      let (rest, ready') =
        load_records-filled t kek is rows (load_record c t kek row s) ready k h in
      let m' = insert i.version i (key_map s.1 t) in
      let v' =
        if is_enabled i.status
        then max (get_current_version s.1 t) i.version
        else get_current_version s.1 t in
      (
        rw
            (
              rest,
              one,
              accept-filled t i s.1 size,
              (filled-key_map t m' v' s.1).0,
              (filled-key_map t m' v' s.1).1,
            )
            (filled-filled t m' _ v' _ s.1),
        ready',
      )

  load_all-filled :
      (plain rows : KeyType → List KeyInfo) (kek : Bytes) (s : State c)
      → Ready s.0
      → length kek ≡ 16
      → ((t : KeyType) → Stored kek (plain t) (rows t))
      → (load_all c rows kek s).1
        ≡ filled tag
            (insert_all (plain tag) s.1.tag_keys)
            (latest_enabled s.1.current_tag_version (plain tag))
            (filled idx
              (insert_all (plain idx) s.1.idx_keys)
              (latest_enabled s.1.current_idx_version (plain idx))
              (filled enc
                (insert_all (plain enc) s.1.enc_keys)
                (latest_enabled s.1.current_enc_version (plain enc))
                s.1))
  unfolding load_all
  load_all-filled plain rows kek s r k h =
      let s1 = load_records c enc kek (rows enc) s in
      let s2 = load_records c idx kek (rows idx) s1 in
      let (e1, r1) = load_records-filled enc kek (plain enc) (rows enc) s r k (h enc) in
      let (e2, r2) = load_records-filled idx kek (plain idx) (rows idx) s1 r1 k (h idx) in
      let (e3, _) = load_records-filled tag kek (plain tag) (rows tag) s2 r2 k (h tag) in
      rw (e3, e2, e1)

  -- When the library is ready and the rows read for each type hold 16-byte keys sealed under a
  -- KEK of 16 bytes, at least one for each type, `loadFromDatabase` succeeds: each type's map is
  -- those keys put in one after the other, with their versions and statuses, and its current
  -- version is the greatest enabled one, 0 if none is enabled, whatever the manager held before.
  pub load_from_database_restores :
      (plain rows : KeyType → List KeyInfo) (kek : Bytes) (s : State c)
      → Ready s.0
      → length kek ≡ 16
      → ((t : KeyType) → Stored kek (plain t) (rows t))
      → ((t : KeyType) → plain t ≢ [])
      → let (r, s') = load_from_database c rows kek s in
        (r ≡ ok tt)
        × (s'.1.kek ≡ kek)
        × ((t : KeyType)
            → (key_map s'.1 t ≡ insert_all (plain t) [])
              × (get_current_version s'.1 t ≡ latest_enabled 0 (plain t)))
  unfolding load_from_database
  load_from_database_restores plain rows kek s r k h full =
      rw
        (load_all-filled plain rows kek
          (s.0, cleared (record s.1 { kek = kek; initialized = true })) r k h)
        (rw (loaded enc, loaded idx, loaded tag)
          (refl, refl, elim [ enc ↦ (refl, refl) | idx ↦ (refl, refl) | tag ↦ (refl, refl) ]))
    where
      loaded : (t : KeyType) → is_empty (insert_all (plain t) []) ≡ false
      loaded t = insert_all-is_empty (plain t) [] (inl (full t))
