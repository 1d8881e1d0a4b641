-- ===== src/Crypto/KeyManager/Invariant.antt =====
-- What every method keeps: each map is in order, each entry stands under its own version with a
-- key of 16 bytes, and a current version is 0 or has an entry.
use sec_search.Prelude.Int.{ℤ, pos}
use sec_search.Prelude.{
  ℕ, ◌+◌, Option, none, some, Bytes, length, ◌==◌, ltb, ◌≡◌, ◌≢◌, refl, ◌⊎◌, inl, inr, arith,
  Option-cases, Bool-cases,
}
use sec_search.Prelude.SortedMap.{
  SortedMap, lookup, insert, IsSorted, insert-IsSorted, lookup-insert, lookup-insert_self,
  AllEntries, insert-AllEntries, lookup-AllEntries,
}
use sec_search.Crypto.KeyManager.{
  KeyManager, KeyInfo, KeyType, KeyStatus, enc, idx, tag, key_map, put_map, get_current_version,
  put_version, add_key_version, put_status, rotate_key, int_max,
}

-- An entry under the key `v`.
abbrev pub IsEntry : ℕ → KeyInfo → Type 0
IsEntry v info = (info.version ≡ v) × (length info.key ≡ 16)

-- One type's map with its current version.
pub record IsSlot (m : SortedMap KeyInfo) (current : ℕ) : Type 0 where
  pub sorted : IsSorted m
  pub entries : AllEntries IsEntry m
  pub present : (current ≡ 0) ⊎ (lookup current m ≢ none)

pub record IsValid (m : KeyManager) : Type 0 where
  pub enc_slot : IsSlot m.enc_keys m.current_enc_version
  pub idx_slot : IsSlot m.idx_keys m.current_idx_version
  pub tag_slot : IsSlot m.tag_keys m.current_tag_version

present_insert :
    (v current : ℕ) (info : KeyInfo) (m : SortedMap KeyInfo)
    → (current ≡ 0) ⊎ (lookup current m ≢ none)
    → (current ≡ 0) ⊎ (lookup current (insert v info m) ≢ none)
present_insert v current info m (inl z) = inl z
present_insert v current info m (inr p) =
    inr (λ e. ground (arith, lookup-insert v current info m, p))

-- An entry joins a slot, and becomes the current one.
pub insert-IsSlot :
    {m : SortedMap KeyInfo} {current : ℕ} (v : ℕ) (info : KeyInfo)
    → IsEntry v info
    → IsSlot m current
    → IsSlot (insert v info m) current
insert-IsSlot {m} {current} v info i s = record {
  sorted = insert-IsSorted v info m s.sorted;
  entries = insert-AllEntries IsEntry v info m i s.entries;
  present = present_insert v current info m s.present;
}

pub insert-IsSlot_current :
    {m : SortedMap KeyInfo} {current : ℕ} (v : ℕ) (info : KeyInfo)
    → IsEntry v info
    → IsSlot m current
    → IsSlot (insert v info m) v
insert-IsSlot_current {m} v info i s = record {
  sorted = insert-IsSorted v info m s.sorted;
  entries = insert-AllEntries IsEntry v info m i s.entries;
  present = inr (λ e. cc (lookup-insert_self v info m));
}

pub slot :
    {m : KeyManager} → IsValid m → (t : KeyType) → IsSlot (key_map m t) (get_current_version m t)
slot v enc = v.enc_slot
slot v idx = v.idx_slot
slot v tag = v.tag_slot

-- A method that gives one type a new map and a new current version.
pub put-IsValid :
    {m : KeyManager} (t : KeyType) (k : SortedMap KeyInfo) (c : ℕ)
    → IsValid m
    → IsSlot k c
    → IsValid (put_version (put_map m t k) t c)
put-IsValid enc k c v s = record { enc_slot = s; idx_slot = v.idx_slot; tag_slot = v.tag_slot }
put-IsValid idx k c v s = record { enc_slot = v.enc_slot; idx_slot = s; tag_slot = v.tag_slot }
put-IsValid tag k c v s = record { enc_slot = v.enc_slot; idx_slot = v.idx_slot; tag_slot = s }

pub put_map-IsValid :
    {m : KeyManager} (t : KeyType) (k : SortedMap KeyInfo)
    → IsValid m
    → IsSlot k (get_current_version m t)
    → IsValid (put_map m t k)
put_map-IsValid enc k v s = record { enc_slot = s; idx_slot = v.idx_slot; tag_slot = v.tag_slot }
put_map-IsValid idx k v s = record { enc_slot = v.enc_slot; idx_slot = s; tag_slot = v.tag_slot }
put_map-IsValid tag k v s = record { enc_slot = v.enc_slot; idx_slot = v.idx_slot; tag_slot = s }

pub add_key_version-IsValid :
    (t : KeyType) (key : Bytes) (v : ℕ) (s : KeyStatus) (m : KeyManager)
    → IsValid m
    → IsValid (add_key_version t key v s m).1
unfolding add_key_version
add_key_version-IsValid t key v s m valid = elim (Bool-cases (length key == 16)) [
  | inr bad ↦ rw bad valid
  | inl size ↦
      rw size (put_map-IsValid t _ valid (insert-IsSlot v _ (refl, ground arith) (slot valid t)))
]

pub put_status-IsValid :
    (t : KeyType) (v : ℕ) (info : KeyInfo) (s : KeyStatus) (m : KeyManager)
    → lookup v (key_map m t) ≡ some info
    → IsValid m
    → IsValid (put_status t v info s m).1
put_status-IsValid t v info s m e valid = put_map-IsValid t _ valid (
    insert-IsSlot v _ (lookup-AllEntries IsEntry v info (key_map m t) (slot valid t).entries e)
      (slot valid t))

-- The time of the last rotation is free.
pub timed-IsValid :
    {m : KeyManager} (now : ℤ) → IsValid m → IsValid (record m { last_rotate_time = now })
timed-IsValid now v = record { enc_slot = v.enc_slot; idx_slot = v.idx_slot; tag_slot = v.tag_slot }

-- `rotateKey` behind its lookup, on a manager whose old version is disabled already.
abbrev pub installed : KeyType → Bytes → ℕ → ℕ → KeyManager → KeyManager
installed t key v now m =
    record (put_version
      (put_map m t
        (insert v (record { key = key; version = v; status = KeyStatus.enabled }) (key_map m t)))
      t v) { last_rotate_time = pos now }

pub installed-IsValid :
    (t : KeyType) (key : Bytes) (v now : ℕ) (m : KeyManager)
    → length key ≡ 16
    → IsValid m
    → IsValid (installed t key v now m)
installed-IsValid t key v now m size valid =
    timed-IsValid (pos now)
      (put-IsValid t _ v valid (insert-IsSlot_current v _ (refl, size) (slot valid t)))

-- The manager that `rotateKey` leaves, branch by branch.
pub rotate_key-state :
    (t : KeyType) (random : Option Bytes) (now : ℕ) (m : KeyManager) (info : KeyInfo)
    → lookup (get_current_version m t) (key_map m t) ≡ some info
    → let m' = (put_status t (get_current_version m t) info KeyStatus.disabled m).1 in
      let v = get_current_version m t + 1 in
      let m'' = (rotate_key t random now m).1 in
      (m'' ≡ m') ⊎ ((key : Bytes) × (length key ≡ 16) × (m'' ≡ installed t key v now m'))
unfolding rotate_key
rotate_key-state t none now m info e = rw e (inl refl)
rotate_key-state t (some key) now m info e =
    elim (Bool-cases (ltb (get_current_version m t) int_max)) [
      | inr full ↦ rw (e, full) (inl refl)
      | inl room ↦ elim (Bool-cases (length key == 16)) [
        | inr bad ↦ rw (e, room, bad) (inl refl)
        | inl size ↦ rw (e, room, size) (inr (key, ground arith, refl))
      ]
    ]

pub rotate_key-missing :
    (t : KeyType) (random : Option Bytes) (now : ℕ) (m : KeyManager)
    → lookup (get_current_version m t) (key_map m t) ≡ none
    → (rotate_key t random now m).1 ≡ m
unfolding rotate_key
rotate_key-missing t random now m e = rw e

-- Every branch of a rotation keeps the invariant, also those that throw half way.
pub rotate_key-IsValid :
    (t : KeyType) (random : Option Bytes) (now : ℕ) (m : KeyManager)
    → IsValid m
    → IsValid (rotate_key t random now m).1
rotate_key-IsValid t random now m valid =
    elim (Option-cases (lookup (get_current_version m t) (key_map m t))) [
      | inl missing ↦ rw (rotate_key-missing t random now m missing) valid
      | inr (info, e) ↦
          let halfway =
            put_status-IsValid t (get_current_version m t) info KeyStatus.disabled m e valid in
          elim (rotate_key-state t random now m info e) [
            | inl same ↦ rw same halfway
            | inr (key, size, done) ↦ rw done (installed-IsValid t key _ now _ size halfway)
          ]
    ]
