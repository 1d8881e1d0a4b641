-- ===== src/Crypto/CryptoService.antt =====
-- `crypto::CryptoService` of src/crypto/crypto_service.cpp, over a key manager that it only reads.
pub mod Laws
use sec_search.Prelude.{
  ℕ, Bool, true, false, not, Option, none, some, Bytes, Result, ok, throw, Error, same,
  if◌then◌else◌,
}
use sec_search.Prelude.Action.{Action, pure, raise_if, lift, ◌>>=◌, ◌>>◌}
use sec_search.Crypto.Primitives.{Primitives}
use sec_search.Crypto.KeyManager.{
  KeyManager, KeyInfo, KeyType, KeyStatus, enc, idx, tag, get_current_key_info, get_key_by_version,
  is_enabled,
}

pub record EncryptResult : Type 0 where
  pub cipher : Bytes
  pub tag : Bytes
  pub key_version : ℕ

-- `status == KeyStatus::DESTROYED`.
unfoldable pub is_destroyed : KeyStatus → Bool
is_destroyed KeyStatus.destroyed = true
is_destroyed _ = false

abbrev pub or_throw {ℓ} : {A : Type ℓ} → Option A → Error → Result A
or_throw none e = throw e
or_throw (some a) e = ok a

module _ (c : Primitives) (keys : KeyManager) where
  pub encrypt_data : Bytes → Action c.Env EncryptResult
  unfolding is_destroyed
  encrypt_data plaintext = do
    key_info ← lift (get_current_key_info enc keys)
    raise_if (not (is_enabled key_info.status)) Error.encryption_key_not_active
    cipher ← c.encrypt plaintext key_info.key
    tag_info ← lift (get_current_key_info tag keys)
    raise_if (is_destroyed tag_info.status) Error.tag_key_destroyed
    mac ← c.hmac_hex cipher tag_info.key
    pure (record { cipher = cipher; tag = mac; key_version = key_info.version })

  pub decrypt_data : Bytes → Bytes → ℕ → Action c.Env Bytes
  unfolding is_destroyed
  decrypt_data cipher mac key_version = do
    tag_info ← lift (get_current_key_info tag keys)
    raise_if (is_destroyed tag_info.status) Error.tag_key_destroyed
    computed_tag ← c.hmac_hex cipher tag_info.key
    raise_if (not (same computed_tag mac)) Error.integrity_check_failed
    enc_key ←
        lift (
          or_throw (get_key_by_version enc key_version keys) Error.encryption_key_version_not_found)
    c.decrypt cipher enc_key

  pub generate_blind_index : Bytes → Action c.Env Bytes
  unfolding is_destroyed
  generate_blind_index data' = do
    key_info ← lift (get_current_key_info idx keys)
    raise_if (is_destroyed key_info.status) Error.index_key_destroyed
    c.hmac_hex data' key_info.key

  pub verify_tag : Bytes → Bytes → ℕ → Action c.Env Bool
  verify_tag cipher mac key_version = elim (get_key_by_version tag key_version keys) [
    | none ↦ pure false
    | some tag_key ↦ c.hmac_hex cipher tag_key >>= λ computed_tag. pure (same computed_tag mac)
  ]
