-- ===== src/Crypto/Primitives.antt =====
-- What the rest of the program uses of `Sm4Cipher`, `HmacSm3` and `CRYPT_EAL_Randbytes`: the
-- calls, and what it may rely on. `FromProvider` fills both from the models of those files.
pub mod FromProvider
use sec_search.Prelude.{ℕ, ◌+◌, ◌<◌, ◌^◌, Bytes, length, Result, ok, AreBytes, ◌≡◌}
use sec_search.Prelude.Action.{Action}

pub record Primitives : Type 1 where
  pub Env : Type 0
  -- `Sm4Cipher::encrypt(plaintext, key)` and `Sm4Cipher::decrypt(ciphertextHex, key)`.
  pub encrypt : Bytes → Bytes → Action Env Bytes
  pub decrypt : Bytes → Bytes → Action Env Bytes
  -- `HmacSm3::hmacHex(data, key)`.
  pub hmac_hex : Bytes → Bytes → Action Env Bytes
  -- `CRYPT_EAL_Randbytes(newKey.data(), 16)`, and the throw if it fails.
  pub random_key : Action Env Bytes

-- What a message may be for the 32-bit sizes of the calls: a plaintext, and the text of its
-- ciphertext, or anything else that is hashed.
pub record IsPlain (m : Bytes) : Type 0 where
  pub bytes : AreBytes m
  pub short : length m < 2 ^ 30

abbrev pub IsSized : Bytes → Type 0
IsSized m = length m < 2 ^ 32

pub record Lawful (c : Primitives) : Type 1 where
  -- The library has what it needs, and goes on having it.
  pub Ready : c.Env → Type 0
  -- The MAC of a message, as text, and what decrypts to a message under a key.
  pub mac : Bytes → Bytes → Bytes
  pub Seals : Bytes → Bytes → Bytes → Type 0
  pub hmac_hex-mac :
      (m key : Bytes) (e : c.Env)
      → Ready e
      → IsSized m
      → IsSized key
      → ((c.hmac_hex m key e).0 ≡ ok (mac key m)) × Ready (c.hmac_hex m key e).1
  pub encrypt-Seals :
      (m key : Bytes) (e : c.Env)
      → Ready e
      → IsPlain m
      → length key ≡ 16
      → (s : Bytes) × ((c.encrypt m key e).0 ≡ ok s)
        × Seals key m s
        × IsSized s
        × Ready (c.encrypt m key e).1
  pub decrypt-Seals :
      (m key s : Bytes) (e : c.Env)
      → Ready e
      → length key ≡ 16
      → Seals key m s
      → ((c.decrypt s key e).0 ≡ ok m) × Ready (c.decrypt s key e).1
  pub random_key-length :
      (e : c.Env)
      → Ready e
      → (key : Bytes) × ((c.random_key e).0 ≡ ok key) × (length key ≡ 16) × Ready (c.random_key e).1
