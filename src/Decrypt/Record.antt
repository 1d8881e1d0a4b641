-- ===== src/Decrypt/Record.antt =====
-- `BatchDecryptor::decryptOneRecord` of src/decrypt/batch_decryptor.cpp, and the result that a
-- worker makes of it.
pub mod Laws
use sec_search.Prelude.{
  ℕ, Bool, true, false, not, [], Option, none, some, Bytes, Result, ok, throw, Error, same,
  if◌then◌else◌,
}
use sec_search.Prelude.Action.{Action}
use sec_search.Crypto.Primitives.{Primitives}
use sec_search.Crypto.KeyManager.{KeyManager, enc, tag, get_key_by_version}
use sec_search.Database.{CipherRecord}

-- The texts that `error` is given.
pub data Message : Type 0 where
  nothing : Message
  tag_key_version_not_found : ℕ → Message
  tag_verification_failed : Message
  encryption_key_version_not_found : ℕ → Message
  what : Error → Message

pub record DecryptResult : Type 0 where
  pub id : ℕ
  pub plaintext : Bytes
  pub success : Bool
  pub error_msg : Message
  pub key_version : ℕ

-- A result as it is constructed.
abbrev pub no_result : DecryptResult
no_result = record { id = 0; plaintext = []; success = false; error_msg = nothing; key_version = 0 }

-- What `decryptOneRecord` leaves behind: the plaintext and `true`, or the error and `false`.
pub data Outcome : Type 0 where
  opened : Bytes → Outcome
  failed : Message → Outcome

-- An exception caught by the `catch` around the whole body.
abbrev pub caught : Result Bytes → Outcome
caught (ok plain) = opened plain
caught (throw e) = failed (what e)

module _ (c : Primitives) (keys : KeyManager) where
  -- From the second lookup on.
  open_record : CipherRecord → c.Env → Outcome × c.Env
  open_record r e = elim (get_key_by_version enc r.enc_key_version keys) [
    | none ↦ (failed (encryption_key_version_not_found r.enc_key_version), e)
    | some enc_key ↦ let (plain, e') = c.decrypt r.cipher enc_key e in (caught plain, e')
  ]

  -- From the MAC on.
  check_record : CipherRecord → Bytes → c.Env → Outcome × c.Env
  unfolding open_record
  check_record r tag_key e =
      let (computed, e') = c.hmac_hex r.cipher tag_key e in
      elim computed [
        | throw x ↦ (failed (what x), e')
        | ok calc_tag ↦
            let opening = open_record r e' in
            if same calc_tag r.tag then opening else (failed tag_verification_failed, e')
      ]

  unfoldable pub decrypt_one_record : CipherRecord → c.Env → Outcome × c.Env
  unfolding check_record
  decrypt_one_record r e = elim (get_key_by_version tag r.enc_key_version keys) [
    | none ↦ (failed (tag_key_version_not_found r.enc_key_version), e)
    | some tag_key ↦ check_record r tag_key e
  ]

  -- What `workerLoop` puts into the result queue.
  abbrev pub result_of : CipherRecord → Outcome → DecryptResult
  result_of r (opened plain) = record {
    id = r.id;
    plaintext = plain;
    success = true;
    error_msg = nothing;
    key_version = r.enc_key_version;
  }
  result_of r (failed m) = record {
    id = r.id;
    plaintext = [];
    success = false;
    error_msg = m;
    key_version = r.enc_key_version;
  }

  unfoldable pub decrypt_record : CipherRecord → c.Env → DecryptResult × c.Env
  decrypt_record r e = let (o, e') = decrypt_one_record r e in (result_of r o, e')
