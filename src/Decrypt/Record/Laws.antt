-- ===== src/Decrypt/Record/Laws.antt =====
-- What a record must be for its decryption to succeed.
use sec_search.Prelude.{
  true, false, [], some, Bytes, length, same, same_refl, eq_of_same, Bool-cases, ◌≡◌, ◌≢◌,
  if◌then◌else◌, sym, ap, inl, inr, arith,
}
use sec_search.Crypto.Primitives.{Primitives, Lawful, IsSized}
use sec_search.Crypto.KeyManager.{KeyManager, enc, tag, get_key_by_version}
use sec_search.Database.{CipherRecord}
use sec_search.Decrypt.Record.{
  opened, failed, decrypt_one_record, decrypt_record, open_record, check_record,
  tag_verification_failed,
}

module _ (c : Primitives) (laws : Lawful c) (keys : KeyManager) where
  open laws use {Ready, mac, hmac_hex-mac, decrypt-Seals, Seals}

  check_record_mac :
      (r : CipherRecord) (tag_key : Bytes) (e : c.Env)
      → Ready e
      → IsSized r.cipher
      → length tag_key ≡ 16
      → check_record c keys r tag_key e ≡ (
          if same (mac tag_key r.cipher) r.tag
          then open_record c keys r (c.hmac_hex r.cipher tag_key e).1
          else (failed tag_verification_failed, (c.hmac_hex r.cipher tag_key e).1))
  unfolding check_record
  check_record_mac r tag_key e ready sized k =
      rw (check_record, (hmac_hex-mac r.cipher tag_key e ready sized (omega arith)).0)

  -- A record whose tag is not the MAC of its cipher, under the tag key that has the number of the
  -- record's version, is refused by "Tag verification failed".
  pub decrypt_one_record_refuses :
      (r : CipherRecord) (tag_key : Bytes) (e : c.Env)
      → Ready e
      → IsSized r.cipher
      → length tag_key ≡ 16
      → get_key_by_version tag r.enc_key_version keys ≡ some tag_key
      → r.tag ≢ mac tag_key r.cipher
      → (decrypt_one_record c keys r e).0 ≡ failed tag_verification_failed
  unfolding decrypt_one_record
  decrypt_one_record_refuses r tag_key e ready sized k found differs =
      elim (Bool-cases (same (mac tag_key r.cipher) r.tag)) [
        | inl eq ↦ absurd (differs (sym (eq_of_same (mac tag_key r.cipher) r.tag eq)))
        | inr ne ↦ rw (found, decrypt_one_record, check_record_mac r tag_key e ready sized k, ne)
      ]

  -- A record whose cipher is a message sealed under the encryption key of the record's version,
  -- and whose tag is the cipher's MAC under the tag key of the same number, is opened as that
  -- message, and the library stays ready.
  pub decrypt_one_record_opens :
      (r : CipherRecord) (tag_key enc_key m : Bytes) (e : c.Env)
      → Ready e
      → IsSized r.cipher
      → length tag_key ≡ 16
      → length enc_key ≡ 16
      → get_key_by_version tag r.enc_key_version keys ≡ some tag_key
      → get_key_by_version enc r.enc_key_version keys ≡ some enc_key
      → r.tag ≡ mac tag_key r.cipher
      → Seals enc_key m r.cipher
      → ((decrypt_one_record c keys r e).0 ≡ opened m) × Ready (decrypt_one_record c keys r e).1
  unfolding decrypt_one_record open_record
  decrypt_one_record_opens r tag_key enc_key m e ready sized k l found found' right seals =
      let eq : same (mac tag_key r.cipher) r.tag ≡ true =
        rw right (same_refl (mac tag_key r.cipher)) in
      let (_, ready') = hmac_hex-mac r.cipher tag_key e ready sized (omega arith) in
      let (plain, ready'') =
        decrypt-Seals m enc_key r.cipher (c.hmac_hex r.cipher tag_key e).1 ready' l seals in
      let run : decrypt_one_record c keys r e
          ≡ (opened m, (c.decrypt r.cipher enc_key (c.hmac_hex r.cipher tag_key e).1).1) =
        rw (
          found,
          decrypt_one_record,
          check_record_mac r tag_key e ready sized k,
          eq,
          open_record,
          found',
          plain,
        ) in
      (ap (λ x. x.0) run, rw run ready'')

  -- The result of such a record, and the library behind it.
  pub decrypt_record_refuses :
      (r : CipherRecord) (tag_key : Bytes) (e : c.Env)
      → Ready e
      → IsSized r.cipher
      → length tag_key ≡ 16
      → get_key_by_version tag r.enc_key_version keys ≡ some tag_key
      → r.tag ≢ mac tag_key r.cipher
      → (decrypt_record c keys r e ≡ (
        record {
          id = r.id;
          plaintext = [];
          success = false;
          error_msg = tag_verification_failed;
          key_version = r.enc_key_version;
        },
        (c.hmac_hex r.cipher tag_key e).1,
      ))
        × Ready (c.hmac_hex r.cipher tag_key e).1
  unfolding decrypt_record decrypt_one_record
  decrypt_record_refuses r tag_key e ready sized k found differs =
      let (_, ready') = hmac_hex-mac r.cipher tag_key e ready sized (omega arith) in
      elim (Bool-cases (same (mac tag_key r.cipher) r.tag)) [
        | inl eq ↦ absurd (differs (sym (eq_of_same (mac tag_key r.cipher) r.tag eq)))
        | inr ne ↦
            (rw (found, decrypt_one_record, check_record_mac r tag_key e ready sized k, ne), ready')
      ]
