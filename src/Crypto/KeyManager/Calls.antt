-- ===== src/Crypto/KeyManager/Calls.antt =====
-- Any history of calls of `KeyManager`'s public methods, exceptions included.
use sec_search.Prelude.Int.{pos}
use sec_search.Prelude.{
  ℕ, Bool, true, false, not, ◌&&◌, List, [], ◌∷◌, Option, Bytes, length, Error, ◌==◌, ltb, ◌≡◌,
  refl, inl, inr, arith, Option-cases, Bool-cases, Result-cases,
}
use sec_search.Prelude.Action.{Action, raise_if, modify, ◌>>=◌, ◌>>◌}
use sec_search.Prelude.SortedMap.{lookup}
use sec_search.Crypto.Primitives.{Primitives}
use sec_search.Crypto.KeyManager.{
  KeyManager, KeyInfo, KeyType, KeyStatus, enc, idx, tag, key_map, get_current_version, init,
  clear_keys, add_key, key_type, add_key_version, cleared, fresh, rotate_key, set_key_status,
  set_last_rotate_time, is_enabled,
}
use sec_search.Crypto.KeyManager.Loading.{
  State, accept, load_keys, load_record, load_records, load_all, load_from_database, decrypt_dek,
  on_manager,
}
use sec_search.Crypto.KeyManager.Invariant.{
  IsValid, add_key_version-IsValid, put_status-IsValid, rotate_key-IsValid, timed-IsValid, slot,
  insert-IsSlot, insert-IsSlot_current, put-IsValid, put_map-IsValid,
}

pub data Call : Type 0 where
  inits : Bytes → ℕ → Call
  loads_from_database : (KeyType → List KeyInfo) → Bytes → Call
  adds_key : ℕ → Bytes → ℕ → KeyStatus → Call
  clears : Call
  loads_keys : Bytes → Bytes → Bytes → ℕ → ℕ → ℕ → Call
  rotates : KeyType → Option Bytes → ℕ → Call
  sets_status : ℕ → ℕ → KeyStatus → Call
  sets_time : ℕ → Call

cleared-IsValid : (m : KeyManager) → IsValid (cleared m)
cleared-IsValid m = record {
  enc_slot = record { sorted = tt; entries = tt; present = inl refl };
  idx_slot = record { sorted = tt; entries = tt; present = inl refl };
  tag_slot = record { sorted = tt; entries = tt; present = inl refl };
}

init-IsValid : (kek : Bytes) (now : ℕ) (m : KeyManager) → IsValid m → IsValid (init kek now m).1
unfolding init
init-IsValid kek now m v = elim (Bool-cases (length kek == 16)) [
  | inr bad ↦ rw bad v
  | inl size ↦
      rw size (record { enc_slot = v.enc_slot; idx_slot = v.idx_slot; tag_slot = v.tag_slot })
]

add_key-IsValid :
    (n : ℕ) (key : Bytes) (v : ℕ) (s : KeyStatus) (m : KeyManager)
    → IsValid m
    → IsValid (add_key n key v s m).1
unfolding add_key
add_key-IsValid n key v s m valid = elim (Result-cases (key_type n)) [
  | inr (e, r) ↦ rw r valid
  | inl (t, r) ↦ rw r (add_key_version-IsValid t key v s m valid)
]

set_key_status-IsValid :
    (n v : ℕ) (s : KeyStatus) (m : KeyManager) → IsValid m → IsValid (set_key_status n v s m).1
unfolding set_key_status
set_key_status-IsValid n v s m valid = elim (Result-cases (key_type n)) [
  | inr (e, r) ↦ rw r valid
  | inl (t, r) ↦ elim (Option-cases (lookup v (key_map m t))) [
    | inl missing ↦ rw (r, missing) valid
    | inr (info, e) ↦ rw (r, e) (put_status-IsValid t v info s m e valid)
  ]
]

pub accept-IsValid :
    (t : KeyType) (row : KeyInfo) (key : Bytes) (m : KeyManager)
    → IsValid m
    → IsValid (accept t row key m)
unfolding accept
accept-IsValid t row key m valid = elim (Bool-cases (length key == 16)) [
  | inr bad ↦ rw bad valid
  | inl size ↦
      elim (Bool-cases (is_enabled row.status && ltb (get_current_version m t) row.version)) [
        | inr stays ↦
            rw (size, stays)
              (put_map-IsValid t _ valid
                (insert-IsSlot row.version _ (refl, ground arith) (slot valid t)))
        | inl moves ↦
            rw (size, moves)
              (put-IsValid t _ row.version valid
                (insert-IsSlot_current row.version _ (refl, ground arith) (slot valid t)))
      ]
]

module _ (c : Primitives) where
  load_record-IsValid :
      (t : KeyType) (kek : Bytes) (row : KeyInfo) (s : State c)
      → IsValid s.1
      → IsValid (load_record c t kek row s).1
  unfolding load_record
  load_record-IsValid t kek row s v = elim (Result-cases (c.decrypt row.key kek s.0).0) [
    | inl (key, e) ↦ rw (e, load_record) (accept-IsValid t row key s.1 v)
    | inr (x, e) ↦ rw (e, load_record) v
  ]

  load_records-IsValid :
      (t : KeyType) (kek : Bytes) (rows : List KeyInfo) (s : State c)
      → IsValid s.1
      → IsValid (load_records c t kek rows s).1
  unfolding load_records
  load_records-IsValid t kek [] s v = v
  load_records-IsValid t kek (row ∷ rows) s v =
      load_records-IsValid t kek rows _ (load_record-IsValid t kek row s v)

  load_all-IsValid :
      (rows : KeyType → List KeyInfo) (kek : Bytes) (s : State c)
      → IsValid s.1
      → IsValid (load_all c rows kek s).1
  unfolding load_all
  load_all-IsValid rows kek s v =
      load_records-IsValid tag kek (rows tag) _
        (load_records-IsValid idx kek (rows idx) _ (load_records-IsValid enc kek (rows enc) s v))

  raise_if-state : {S : Type 0} (b : Bool) (e : Error) (s : S) → (raise_if b e s).1 ≡ s
  raise_if-state true e s = refl
  raise_if-state false e s = refl

  load_from_database-IsValid :
      (rows : KeyType → List KeyInfo) (kek : Bytes) (s : State c)
      → IsValid (load_from_database c rows kek s).1.1
  unfolding load_from_database
  load_from_database-IsValid rows kek s =
      rw raise_if-state (
        load_all-IsValid rows kek _
          (cleared-IsValid (record s.1 { kek = kek; initialized = true })))

  -- A call that leaves the managers it starts from valid.
  abbrev Keeps : {A : Type 0} → Action (State c) A → Type 0
  Keeps a = (s : State c) → IsValid s.1 → IsValid (a s).1.1

  bind-Keeps :
      {A B : Type 0} (a : Action (State c) A) (f : A → Action (State c) B)
      → Keeps a
      → ((x : A) → Keeps (f x))
      → Keeps (a >>= f)
  bind-Keeps a f ka kf s v = elim (Result-cases (a s).0) [
    | inl (x, e) ↦ rw e (kf x (a s).1 (ka s v))
    | inr (x, e) ↦ rw e (ka s v)
  ]

  decrypt_dek-Keeps : (a : Bytes) → Keeps (decrypt_dek c a)
  unfolding decrypt_dek
  decrypt_dek-Keeps a s v = v

  -- The three keys and the versions, once decrypted.
  abbrev store_keys : Bytes → Bytes → Bytes → ℕ → ℕ → ℕ → Action (State c) (Unit {0})
  store_keys x y z u v w = do
    on_manager c (add_key_version enc x u KeyStatus.enabled)
    on_manager c (add_key_version idx y v KeyStatus.enabled)
    on_manager c (add_key_version tag z w KeyStatus.enabled)
    on_manager c (
        modify λ m. record m {
          current_enc_version = u;
          current_idx_version = v;
          current_tag_version = w;
        })

  store_keys-Keeps : (x y z : Bytes) (u v w : ℕ) → Keeps (store_keys x y z u v w)
  unfolding add_key_version
  store_keys-Keeps x y z u v w s valid = elim (Bool-cases (length x == 16)) [
    | inr bad ↦ rw bad valid
    | inl lx ↦ elim (Bool-cases (length y == 16)) [
      | inr bad ↦
          rw (lx, bad)
            (put_map-IsValid enc _ valid (insert-IsSlot u _ (refl, ground arith) valid.enc_slot))
      | inl ly ↦ elim (Bool-cases (length z == 16)) [
        | inr bad ↦
            rw (lx, ly, bad)
              (record {
                enc_slot = insert-IsSlot u _ (refl, ground arith) valid.enc_slot;
                idx_slot = insert-IsSlot v _ (refl, ground arith) valid.idx_slot;
                tag_slot = valid.tag_slot;
              })
        | inl lz ↦
            rw (lx, ly, lz)
              (record {
                enc_slot = insert-IsSlot_current u _ (refl, ground arith) valid.enc_slot;
                idx_slot = insert-IsSlot_current v _ (refl, ground arith) valid.idx_slot;
                tag_slot = insert-IsSlot_current w _ (refl, ground arith) valid.tag_slot;
              })
      ]
    ]
  ]

  -- `loadKeys` behind its first test.
  abbrev decrypt_and_store : Bytes → Bytes → Bytes → ℕ → ℕ → ℕ → Action (State c) (Unit {0})
  decrypt_and_store a b d u v w = do
    x ← decrypt_dek c a
    y ← decrypt_dek c b
    z ← decrypt_dek c d
    store_keys x y z u v w

  decrypt_and_store-Keeps : (a b d : Bytes) (u v w : ℕ) → Keeps (decrypt_and_store a b d u v w)
  decrypt_and_store-Keeps a b d u v w =
      bind-Keeps (decrypt_dek c a)
        (λ x. decrypt_dek c b >>= λ y. decrypt_dek c d >>= λ z. store_keys x y z u v w)
        (decrypt_dek-Keeps a)
        λ x.
          bind-Keeps (decrypt_dek c b) (λ y. decrypt_dek c d >>= λ z. store_keys x y z u v w)
            (decrypt_dek-Keeps b)
            λ y.
              bind-Keeps (decrypt_dek c d) (λ z. store_keys x y z u v w) (decrypt_dek-Keeps d)
                λ z. store_keys-Keeps x y z u v w

  raise_if-Keeps :
      (b : Bool) (e : Error) (k : Action (State c) (Unit {0})) → Keeps k → Keeps (raise_if b e >> k)
  raise_if-Keeps true e k kk s v = v
  raise_if-Keeps false e k kk s v = kk s v

  load_keys-IsValid : (a b d : Bytes) (u v w : ℕ) → Keeps (load_keys c a b d u v w)
  unfolding load_keys
  load_keys-IsValid a b d u v w s =
      raise_if-Keeps (not s.1.initialized) Error.key_manager_not_initialized
        (decrypt_and_store a b d u v w) (decrypt_and_store-Keeps a b d u v w) s

  -- What a call leaves behind, whether it returned or threw.
  pub after : Call → State c → State c
  after (inits kek now) s = (on_manager c (init kek now) s).1
  after (loads_from_database rows kek) s = (load_from_database c rows kek s).1
  after (adds_key n key v status) s = (on_manager c (add_key n key v status) s).1
  after clears s = (on_manager c clear_keys s).1
  after (loads_keys a b d u v w) s = (load_keys c a b d u v w s).1
  after (rotates t random now) s = (on_manager c (rotate_key t random now) s).1
  after (sets_status n v status) s = (on_manager c (set_key_status n v status) s).1
  after (sets_time time) s = (on_manager c (set_last_rotate_time time) s).1

  pub run : List Call → State c → State c
  run [] s = s
  run (x ∷ xs) s = run xs (after x s)

  after-IsValid : (x : Call) (s : State c) → IsValid s.1 → IsValid (after x s).1
  unfolding after clear_keys set_last_rotate_time
  after-IsValid (inits kek now) s v = init-IsValid kek now s.1 v
  after-IsValid (loads_from_database rows kek) s v = load_from_database-IsValid rows kek s
  after-IsValid (adds_key n key x status) s v = add_key-IsValid n key x status s.1 v
  after-IsValid clears s v = cleared-IsValid s.1
  after-IsValid (loads_keys a b d x y z) s v = load_keys-IsValid a b d x y z s v
  after-IsValid (rotates t random now) s v = rotate_key-IsValid t random now s.1 v
  after-IsValid (sets_status n x status) s v = set_key_status-IsValid n x status s.1 v
  after-IsValid (sets_time time) s v = timed-IsValid (pos time) v

  run_from-IsValid : (xs : List Call) (s : State c) → IsValid s.1 → IsValid (run xs s).1
  unfolding run
  run_from-IsValid [] s v = v
  run_from-IsValid (x ∷ xs) s v = run_from-IsValid xs (after x s) (after-IsValid x s v)

  -- After any history of calls on a new manager, the ones that threw included, each type's map
  -- lists its versions in ascending order without repetition, each entry carries its own version
  -- and a key of 16 bytes, and the current version is 0 or has an entry.
  pub run-IsValid : (xs : List Call) (e : c.Env) → IsValid (run xs (e, fresh)).1
  run-IsValid xs e = run_from-IsValid xs (e, fresh) (cleared-IsValid fresh)
