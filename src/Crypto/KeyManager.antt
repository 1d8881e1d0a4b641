-- ===== src/Crypto/KeyManager.antt =====
-- `crypto::KeyManager` of src/crypto/key_manager.cpp. Versions are numbers from 0 on, as far as
-- `int` goes; times are nanoseconds since the epoch, as in libstdc++; the mutex makes each method one step, so it leaves no trace.
pub mod Loading
pub mod Invariant
pub mod Rotation
pub mod Reload
pub mod Calls
pub mod RotateTime
use sec_search.Prelude.{
  ℕ, ◌+◌, ◌^◌, Bool, true, false, not, List, [], ◌∷◌, map, Option, none, some, Bytes, length,
  Result, ok, throw, Error, ◌==◌, ltb, leb, if◌then◌else◌, ◌≡◌,
}
use sec_search.Prelude.Action.{Action, pure, raise, raise_if, lift, gets, modify, ◌>>=◌, ◌>>◌}
use sec_search.Prelude.Int.{ℤ, pos}
use sec_search.Prelude.SortedMap.{SortedMap, lookup, insert, keys}

pub data KeyStatus : Type 0 where
  enabled disabled destroyed : KeyStatus

pub record KeyInfo : Type 0 where
  pub key : Bytes
  pub version : ℕ
  pub status : KeyStatus

-- `KEY_TYPE_ENC`, `KEY_TYPE_IDX` and `KEY_TYPE_TAG`, the numbers 1 to 3.
pub data KeyType : Type 0 where
  enc idx tag : KeyType

pub record KeyManager : Type 0 where
  pub kek : Bytes
  pub enc_keys : SortedMap KeyInfo
  pub idx_keys : SortedMap KeyInfo
  pub tag_keys : SortedMap KeyInfo
  pub current_enc_version : ℕ
  pub current_idx_version : ℕ
  pub current_tag_version : ℕ
  pub initialized : Bool
  pub last_rotate_time : ℤ

-- `keys_[type - 1]`, and the switch over the current versions.
abbrev pub key_map : KeyManager → KeyType → SortedMap KeyInfo
key_map m enc = m.enc_keys
key_map m idx = m.idx_keys
key_map m tag = m.tag_keys

abbrev pub put_map : KeyManager → KeyType → SortedMap KeyInfo → KeyManager
put_map m enc k = record m { enc_keys = k }
put_map m idx k = record m { idx_keys = k }
put_map m tag k = record m { tag_keys = k }

-- `getCurrentVersion`.
abbrev pub get_current_version : KeyManager → KeyType → ℕ
get_current_version m enc = m.current_enc_version
get_current_version m idx = m.current_idx_version
get_current_version m tag = m.current_tag_version

abbrev pub put_version : KeyManager → KeyType → ℕ → KeyManager
put_version m enc v = record m { current_enc_version = v }
put_version m idx v = record m { current_idx_version = v }
put_version m tag v = record m { current_tag_version = v }

-- The type of a public method's `int type`; any other number indexes `keys_` out of bounds.
pub key_type : ℕ → Result KeyType
key_type n =
    if n == 1
    then ok enc
    else if n == 2
    then ok idx
    else if n == 3
    then ok tag
    else throw Error.out_of_bounds

abbrev pub int_max : ℕ
int_max = 2147483647

pub init : Bytes → ℕ → Action KeyManager (Unit {0})
init kek now = do
  raise_if (not (length kek == 16)) Error.kek_must_be_16_bytes
  modify (λ m. record m { kek = kek; initialized = true; last_rotate_time = pos now })

-- The loop over `keys_[i].clear()` and the three resets.
abbrev pub cleared : KeyManager → KeyManager
cleared m = record m {
  enc_keys = [];
  idx_keys = [];
  tag_keys = [];
  current_enc_version = 0;
  current_idx_version = 0;
  current_tag_version = 0;
}

pub clear_keys : Action KeyManager (Unit {0})
clear_keys = modify cleared

pub add_key_version : KeyType → Bytes → ℕ → KeyStatus → Action KeyManager (Unit {0})
add_key_version t key version status = do
  raise_if (not (length key == 16)) Error.key_must_be_16_bytes
  modify λ m.
      put_map m t
        (insert version (record { key = key; version = version; status = status }) (key_map m t))

pub add_key : ℕ → Bytes → ℕ → KeyStatus → Action KeyManager (Unit {0})
add_key n key version status = do t ← lift (key_type n); add_key_version t key version status

-- `find(version)`, with the throw of `getCurrentKeyInfo`, `setKeyStatus` and `getKeyStatus`.
abbrev pub found : Option KeyInfo → Error → Result KeyInfo
found none e = throw e
found (some info) e = ok info

unfoldable pub get_current_key_info : KeyType → KeyManager → Result KeyInfo
get_current_key_info t m =
    found (lookup (get_current_version m t) (key_map m t)) Error.key_version_not_found

unfoldable pub get_current_key : KeyType → KeyManager → Result Bytes
get_current_key t m = elim (get_current_key_info t m) [ ok info ↦ ok info.key | throw e ↦ throw e ]

-- `getEncryptionKeyByVersion` and its like; `none` is `false`.
unfoldable pub get_key_by_version : KeyType → ℕ → KeyManager → Option Bytes
get_key_by_version t version m = elim (lookup version (key_map m t)) [
  | none ↦ none
  | some info ↦ some info.key
]

-- `getAllEncryptionVersions` and its like, and `getAllEncryptionKeys` and its like.
pub get_all_versions : KeyType → KeyManager → List ℕ
get_all_versions t m = keys (key_map m t)

unfoldable pub get_all_keys : KeyType → KeyManager → List (ℕ × Bytes)
get_all_keys t m = map (λ e. (e.0, e.1.key)) (key_map m t)

-- `it->second.status = status`.
abbrev pub put_status : KeyType → ℕ → KeyInfo → KeyStatus → Action KeyManager (Unit {0})
put_status t version info status =
    modify λ m. put_map m t (insert version (record info { status = status }) (key_map m t))

-- `rotateKey`. The random bytes are what `CRYPT_EAL_Randbytes` draws, `none` if it fails.
unfoldable pub rotate_key : KeyType → Option Bytes → ℕ → Action KeyManager ℕ
unfolding add_key_version
rotate_key t random now = do
  current ← gets (λ m. get_current_version m t)
  entry ← gets (λ m. lookup current (key_map m t))
  info ← lift (found entry Error.current_key_version_not_found)
  put_status t current info KeyStatus.disabled
  new_key ← lift (elim random [ none ↦ throw Error.failed_to_generate_new_key | some key ↦ ok key ])
  raise_if (not (ltb current int_max)) Error.int_overflow
  let new_version = current + 1
  add_key_version t new_key new_version KeyStatus.enabled
  modify (λ m. put_version m t new_version)
  modify (λ m. record m { last_rotate_time = pos now })
  pure new_version

pub set_key_status : ℕ → ℕ → KeyStatus → Action KeyManager (Unit {0})
set_key_status n version status = do
  t ← lift (key_type n)
  entry ← gets (λ m. lookup version (key_map m t))
  info ← lift (found entry Error.key_version_not_found)
  put_status t version info status

pub get_key_status : ℕ → ℕ → KeyManager → Result KeyStatus
get_key_status n version m = elim (key_type n) [
  | throw e ↦ throw e
  | ok t ↦ elim (lookup version (key_map m t)) [
    | none ↦ throw Error.key_version_not_found
    | some info ↦ ok info.status
  ]
]

unfoldable pub is_enabled : KeyStatus → Bool
is_enabled KeyStatus.enabled = true
is_enabled _ = false

-- `isEncryptionKeyActive` and its like.
pub is_key_active : KeyType → KeyManager → Result Bool
is_key_active t m = elim (get_current_key_info t m) [
  | ok info ↦ ok (is_enabled info.status)
  | throw e ↦ throw e
]

unfoldable pub set_last_rotate_time : ℕ → Action KeyManager (Unit {0})
set_last_rotate_time time = modify (λ m. record m { last_rotate_time = pos time })

-- A manager as it is constructed.
abbrev pub fresh : KeyManager
fresh = record {
  kek = [];
  enc_keys = [];
  idx_keys = [];
  tag_keys = [];
  current_enc_version = 0;
  current_idx_version = 0;
  current_tag_version = 0;
  initialized = false;
  last_rotate_time = pos 0;
}
