-- ===== src/Crypto/KeyManager/Loading.antt =====
-- The methods of `KeyManager` that decrypt keys: `decryptDEK`, `loadKeys` and `loadFromDatabase`.
-- What `DAO::loadAllKeysFromConfig` reads for each type is an argument; it throws nothing.
pub mod Kek
use sec_search.Prelude.{
  ℕ, Bool, true, false, not, ◌||◌, List, [], ◌∷◌, Bytes, length, ok, throw, Error, ◌==◌, ltb,
  if◌then◌else◌, ◌&&◌,
}
use sec_search.Prelude.Action.{Action, raise_if, gets, modify, ◌>>=◌, ◌>>◌}
use sec_search.Prelude.SortedMap.{insert}
use sec_search.Crypto.Primitives.{Primitives}
use sec_search.Crypto.KeyManager.{
  KeyManager, KeyInfo, KeyType, KeyStatus, enc, idx, tag, key_map, put_map, get_current_version,
  put_version, add_key_version, cleared, is_enabled,
}

-- `map.empty()`.
unfoldable pub is_empty {ℓ} : {A : Type ℓ} → List A → Bool
is_empty [] = true
is_empty (x ∷ xs) = false

-- What the loop body does with a row once it is decrypted.
unfoldable pub accept : KeyType → KeyInfo → Bytes → KeyManager → KeyManager
unfolding is_enabled
accept t row key m =
    if not (length key == 16)
    then m
    else let m' = put_map m t (insert row.version (record row { key = key }) (key_map m t)) in
      if is_enabled row.status && ltb (get_current_version m t) row.version
      then put_version m' t row.version
      else m'

module _ (c : Primitives) where
  abbrev pub State : Type 0
  State = c.Env × KeyManager

  -- A call on one half of the state.
  abbrev pub on_env : {A : Type 0} → Action c.Env A → Action State A
  on_env a s = let (r, e) = a s.0 in (r, (e, s.1))

  abbrev pub on_manager : {A : Type 0} → Action KeyManager A → Action State A
  on_manager a s = let (r, m) = a s.1 in (r, (s.0, m))

  unfoldable pub decrypt_dek : Bytes → Action State Bytes
  decrypt_dek cipher = do kek ← gets (λ s. s.1.kek); on_env (c.decrypt cipher kek)

  unfoldable pub load_keys : Bytes → Bytes → Bytes → ℕ → ℕ → ℕ → Action State (Unit {0})
  unfolding decrypt_dek
  load_keys encrypted_enc encrypted_idx encrypted_tag enc_version idx_version tag_version = do
    ready ← gets (λ s. s.1.initialized)
    raise_if (not ready) Error.key_manager_not_initialized
    enc_key ← decrypt_dek encrypted_enc
    idx_key ← decrypt_dek encrypted_idx
    tag_key ← decrypt_dek encrypted_tag
    on_manager (add_key_version enc enc_key enc_version KeyStatus.enabled)
    on_manager (add_key_version idx idx_key idx_version KeyStatus.enabled)
    on_manager (add_key_version tag tag_key tag_version KeyStatus.enabled)
    on_manager (
        modify λ m. record m {
          current_enc_version = enc_version;
          current_idx_version = idx_version;
          current_tag_version = tag_version;
        })

  -- One row: an exception of `Sm4Cipher::decrypt` is caught, and the row skipped.
  unfoldable pub load_record : KeyType → Bytes → KeyInfo → State → State
  load_record t kek row s =
      let (r, e) = c.decrypt row.key kek s.0 in
      elim r [ ok key ↦ (e, accept t row key s.1) | throw _ ↦ (e, s.1) ]

  unfoldable pub load_records : KeyType → Bytes → List KeyInfo → State → State
  load_records t kek [] s = s
  load_records t kek (row ∷ rows) s = load_records t kek rows (load_record t kek row s)

  -- The loop over the three types.
  unfoldable pub load_all : (KeyType → List KeyInfo) → Bytes → State → State
  load_all rows kek s =
      load_records tag kek (rows tag)
        (load_records idx kek (rows idx) (load_records enc kek (rows enc) s))

  unfoldable pub load_from_database : (KeyType → List KeyInfo) → Bytes → Action State (Unit {0})
  unfolding is_empty
  load_from_database rows kek = do
    on_manager (modify λ m. cleared (record m { kek = kek; initialized = true }))
    modify (load_all rows kek)
    loaded ← gets (λ s. s.1)
    raise_if (is_empty loaded.enc_keys || is_empty loaded.idx_keys || is_empty loaded.tag_keys)
        Error.failed_to_load_any_valid_key
