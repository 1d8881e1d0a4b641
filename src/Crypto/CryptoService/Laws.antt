-- ===== src/Crypto/CryptoService/Laws.antt =====
-- What `CryptoService` promises over a ready library.
use sec_search.Prelude.{
  ℕ, true, false, none, some, Bytes, length, ok, throw, Error, same, same_refl, eq_of_same, ◌≡◌,
  ◌≢◌, ◌↔◌, sym, ap, arith, Bool-cases, inl, inr,
}
use sec_search.Crypto.Primitives.{Primitives, Lawful, IsPlain, IsSized}
use sec_search.Crypto.KeyManager.{
  KeyManager, KeyInfo, enc, tag, get_current_key_info, get_key_by_version, is_enabled,
}
use sec_search.Crypto.CryptoService.{
  EncryptResult, is_destroyed, encrypt_data, decrypt_data, verify_tag,
}

module _ (c : Primitives) (laws : Lawful c) where
  open laws use {Ready, mac, hmac_hex-mac, encrypt-Seals, decrypt-Seals, Seals}

  -- One tag check: the MAC of the cipher under the key of the tag.
  encrypt_data_lem :
      (keys : KeyManager) (ki ti : KeyInfo) (m : Bytes) (e : c.Env)
      → Ready e
      → IsPlain m
      → get_current_key_info enc keys ≡ ok ki
      → is_enabled ki.status ≡ true
      → length ki.key ≡ 16
      → get_current_key_info tag keys ≡ ok ti
      → is_destroyed ti.status ≡ false
      → length ti.key ≡ 16
      → (s : Bytes) × ((encrypt_data c keys m e).0
          ≡ ok (record { cipher = s; tag = mac ti.key s; key_version = ki.version }))
        × Seals ki.key m s
        × IsSized s
  unfolding encrypt_data
  encrypt_data_lem keys ki ti m e r plain k act lk t alive lt =
      let (s, sealed, seals, sized, r') = encrypt-Seals m ki.key e r plain lk in
      let (tagged, _) = hmac_hex-mac s ti.key (c.encrypt m ki.key e).1 r' sized (omega arith) in
      (s, rw (k, act, sealed, t, alive, tagged), seals, sized)

  decrypt_data_lem :
      (keys : KeyManager) (ti : KeyInfo) (v : ℕ) (key m s : Bytes) (e : c.Env)
      → Ready e
      → IsSized s
      → get_current_key_info tag keys ≡ ok ti
      → is_destroyed ti.status ≡ false
      → length ti.key ≡ 16
      → get_key_by_version enc v keys ≡ some key
      → length key ≡ 16
      → Seals key m s
      → (decrypt_data c keys s (mac ti.key s) v e).0 ≡ ok m
  unfolding decrypt_data
  decrypt_data_lem keys ti v key m s e r sized t alive lt k lk seals =
      let (tagged, r') = hmac_hex-mac s ti.key e r sized (omega arith) in
      rw (t, alive, tagged, same_refl (mac ti.key s), k)
        (decrypt-Seals m key s (c.hmac_hex s ti.key e).1 r' lk seals).0

  -- What `encryptData` made is decrypted by `decryptData`, on any later state of the keys in which
  -- the current tag key is the same and not destroyed and the encryption version still has its
  -- key, as long as the library is ready and the current keys have 16 bytes, the encryption key
  -- is enabled and the tag key is not destroyed when the data is encrypted.
  pub decrypt_data-encrypt_data :
      (keys later : KeyManager) (ki ti ti' : KeyInfo) (m : Bytes) (e e' : c.Env)
      → Ready e
      → Ready e'
      → IsPlain m
      → get_current_key_info enc keys ≡ ok ki
      → is_enabled ki.status ≡ true
      → length ki.key ≡ 16
      → get_current_key_info tag keys ≡ ok ti
      → is_destroyed ti.status ≡ false
      → length ti.key ≡ 16
      → get_current_key_info tag later ≡ ok ti'
      → is_destroyed ti'.status ≡ false
      → ti'.key ≡ ti.key
      → get_key_by_version enc ki.version later ≡ some ki.key
      → (x : EncryptResult) × ((encrypt_data c keys m e).0 ≡ ok x)
        × ((decrypt_data c later x.cipher x.tag x.key_version e').0 ≡ ok m)
  decrypt_data-encrypt_data keys later ki ti ti' m e e' r r' plain k act lk t alive lt t' alive'
        same_key kept =
      let (s, made, seals, sized) = encrypt_data_lem keys ki ti m e r plain k act lk t alive lt in
      (
        record { cipher = s; tag = mac ti.key s; key_version = ki.version },
        made,
        rw (← same_key) (
            decrypt_data_lem later ti' ki.version ki.key m s e' r' sized t' alive' (rw same_key lt)
              kept lk seals),
      )

  -- `decryptData` throws "Integrity check failed" on every tag but the MAC of the cipher under the
  -- current tag key, whichever encryption key the version names.
  pub decrypt_data_integrity :
      (keys : KeyManager) (ti : KeyInfo) (s t : Bytes) (v : ℕ) (e : c.Env)
      → Ready e
      → IsSized s
      → get_current_key_info tag keys ≡ ok ti
      → is_destroyed ti.status ≡ false
      → length ti.key ≡ 16
      → t ≢ mac ti.key s
      → (decrypt_data c keys s t v e).0 ≡ throw Error.integrity_check_failed
  unfolding decrypt_data
  decrypt_data_integrity keys ti s t v e r sized k alive lt differs =
      let (tagged, _) = hmac_hex-mac s ti.key e r sized (omega arith) in
      elim (Bool-cases (same (mac ti.key s) t)) [
        | inl eq ↦ absurd (differs (sym (eq_of_same (mac ti.key s) t eq)))
        | inr ne ↦ rw (k, alive, tagged, ne)
      ]

  -- After the tag key has changed, what `encryptData` made before is refused by `decryptData`,
  -- unless the two tag keys give its cipher the same MAC: the check takes the current tag key,
  -- and not the one of the data's version.
  pub decrypt_data_after_tag_rotation :
      (keys later : KeyManager) (ki ti ti' : KeyInfo) (m : Bytes) (e e' : c.Env)
      → Ready e
      → Ready e'
      → IsPlain m
      → get_current_key_info enc keys ≡ ok ki
      → is_enabled ki.status ≡ true
      → length ki.key ≡ 16
      → get_current_key_info tag keys ≡ ok ti
      → is_destroyed ti.status ≡ false
      → length ti.key ≡ 16
      → get_current_key_info tag later ≡ ok ti'
      → is_destroyed ti'.status ≡ false
      → length ti'.key ≡ 16
      → ((s : Bytes) → mac ti.key s ≢ mac ti'.key s)
      → (x : EncryptResult) × ((encrypt_data c keys m e).0 ≡ ok x)
        × ((decrypt_data c later x.cipher x.tag x.key_version e').0
            ≡ throw Error.integrity_check_failed)
  decrypt_data_after_tag_rotation keys later ki ti ti' m e e' r r' plain k act lk t alive lt t'
        alive' lt' differ =
      let (s, made, seals, sized) = encrypt_data_lem keys ki ti m e r plain k act lk t alive lt in
      (
        record { cipher = s; tag = mac ti.key s; key_version = ki.version },
        made,
        decrypt_data_integrity later ti' s (mac ti.key s) ki.version e' r' sized t' alive' lt'
            (differ s),
      )

  verify_tag-missing :
      (keys : KeyManager) (s t : Bytes) (v : ℕ) (e : c.Env)
      → get_key_by_version tag v keys ≡ none
      → verify_tag c keys s t v e ≡ (ok false, e)
  unfolding verify_tag
  verify_tag-missing keys s t v e k = rw (k, verify_tag)

  verify_tag-some :
      (keys : KeyManager) (s t key : Bytes) (v : ℕ) (e : c.Env)
      → Ready e
      → IsSized s
      → IsSized key
      → get_key_by_version tag v keys ≡ some key
      → (verify_tag c keys s t v e).0 ≡ ok (same (mac key s) t)
  unfolding verify_tag
  verify_tag-some keys s t key v e r sized sk k =
      rw (k, verify_tag, (hmac_hex-mac s key e r sized sk).0)

  -- Given a tag key under the version, `verifyTag` answers true exactly on the MAC of the cipher
  -- under that key, whatever the key's status and the current version are.
  pub verify_tag_lem :
      (keys : KeyManager) (s t key : Bytes) (v : ℕ) (e : c.Env)
      → Ready e
      → IsSized s
      → IsSized key
      → get_key_by_version tag v keys ≡ some key
      → ((verify_tag c keys s t v e).0 ≡ ok true) ↔ (t ≡ mac key s)
  verify_tag_lem keys s t key v e r sized sk k =
      rw (verify_tag-some keys s t key v e r sized sk k)
        ((λ h. sym (eq_of_same (mac key s) t (ground arith))), λ h. rw (h, same_refl (mac key s)))

  -- What `encryptData` made fails `verifyTag` under its own version whenever the tag keys have no
  -- entry under that number: the version is the encryption key's, and the tag key has its own.
  pub verify_tag_of_other_version :
      (keys : KeyManager) (ki ti : KeyInfo) (m : Bytes) (e e' : c.Env)
      → Ready e
      → IsPlain m
      → get_current_key_info enc keys ≡ ok ki
      → is_enabled ki.status ≡ true
      → length ki.key ≡ 16
      → get_current_key_info tag keys ≡ ok ti
      → is_destroyed ti.status ≡ false
      → length ti.key ≡ 16
      → get_key_by_version tag ki.version keys ≡ none
      → (x : EncryptResult) × ((encrypt_data c keys m e).0 ≡ ok x)
        × ((verify_tag c keys x.cipher x.tag x.key_version e').0 ≡ ok false)
  verify_tag_of_other_version keys ki ti m e e' r plain k act lk t alive lt missing =
      let (s, made, _, _) = encrypt_data_lem keys ki ti m e r plain k act lk t alive lt in
      (
        record { cipher = s; tag = mac ti.key s; key_version = ki.version },
        made,
        ap (λ r. r.0) (verify_tag-missing keys s (mac ti.key s) ki.version e' missing),
      )
