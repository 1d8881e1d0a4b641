-- ===== src/Crypto/Provider.antt =====
-- OpenHiTLS as src/crypto calls it: the functions of `CRYPT_EAL_Rand…`, `CRYPT_EAL_Cipher…` and
-- `CRYPT_EAL_Mac…` are a parameter, and `Healthy` is what their documentation says of them. A
-- context is owned by the function that creates it, so a call returns its new state.
use sec_search.Prelude.{
  ℕ, ◌+◌, ◌*◌, ◌/◌, ◌-◌, ◌≤◌, Bool, true, false, ◌++◌, Option, some, Bytes, length, AreBytes, ◌≡◌,
}

-- `CRYPT_SUCCESS`.
abbrev pub crypt_success : ℕ
crypt_success = 0

pub record Provider : Type 1 where
  -- What the library keeps between calls, and the two kinds of context.
  pub World : Type 0
  pub CipherCtx : Type 0
  pub MacCtx : Type 0
  -- `none` is any code but `CRYPT_SUCCESS`.
  pub rand_bytes : ℕ → World → Option Bytes × World
  -- `none` is a null pointer.
  pub cipher_new_ctx : World → Option CipherCtx × World
  pub cipher_free_ctx : CipherCtx → World → World
  -- The key, the IV, and whether to encrypt. Each call returns its code first.
  pub cipher_init : CipherCtx → Bytes → Bytes → Bool → ℕ × CipherCtx
  pub cipher_set_padding : CipherCtx → ℕ × CipherCtx
  -- The input, and the room in the output buffer; what was written comes back.
  pub cipher_update : CipherCtx → Bytes → ℕ → ℕ × Bytes × CipherCtx
  pub cipher_final : CipherCtx → ℕ → ℕ × Bytes × CipherCtx
  pub mac_new_ctx : World → Option MacCtx × World
  pub mac_free_ctx : MacCtx → World → World
  pub mac_init : MacCtx → Bytes → ℕ × MacCtx
  pub mac_update : MacCtx → Bytes → ℕ × MacCtx
  pub mac_final : MacCtx → ℕ → ℕ × Bytes × MacCtx

-- The library and the number of contexts that are open.
pub record Host (p : Provider) : Type 0 where
  pub world : p.World
  pub live : ℕ

module _ (p : Provider) where
  open p use {
    World, CipherCtx, MacCtx, rand_bytes, cipher_new_ctx, cipher_free_ctx, mac_new_ctx,
    mac_free_ctx, cipher_init, cipher_set_padding, cipher_update, cipher_final, mac_init,
    mac_update, mac_final,
  }

  -- A cipher session gives its two outputs: every call has succeeded, in this order.
  pub record Session (ctx : CipherCtx) (key iv : Bytes) (enc : Bool) (input : Bytes) (room : ℕ)
      (out fin : Bytes) : Type 0 where
    pub inited : (cipher_init ctx key iv enc).0 ≡ 0
    pub padded : (cipher_set_padding (cipher_init ctx key iv enc).1).0 ≡ 0
    pub updated :
        (cipher_update (cipher_set_padding (cipher_init ctx key iv enc).1).1 input room).0 ≡ 0
    pub written :
        (cipher_update (cipher_set_padding (cipher_init ctx key iv enc).1).1 input room).1 ≡ out
    pub finished :
        (cipher_final
          (cipher_update (cipher_set_padding (cipher_init ctx key iv enc).1).1 input room).2
          (room - length out)).0
        ≡ 0
    pub flushed :
        (cipher_final
          (cipher_update (cipher_set_padding (cipher_init ctx key iv enc).1).1 input room).2
          (room - length out)).1
        ≡ fin
    pub fits : length out + length fin ≤ room

  pub record Healthy : Type 1 where
    -- The library has memory and entropy left: it gives what it is asked for, and goes on so.
    pub Ready : World → Type 0
    pub rand_ready :
        (n : ℕ) (w : World)
        → Ready w
        → (s : Bytes) × ((rand_bytes n w).0 ≡ some s) × Ready (rand_bytes n w).1
    pub cipher_ready :
        (w : World)
        → Ready w
        → (ctx : CipherCtx) × ((cipher_new_ctx w).0 ≡ some ctx) × Ready (cipher_new_ctx w).1
    pub cipher_frees : (ctx : CipherCtx) (w : World) → Ready w → Ready (cipher_free_ctx ctx w)
    pub mac_ready :
        (w : World)
        → Ready w
        → (ctx : MacCtx) × ((mac_new_ctx w).0 ≡ some ctx) × Ready (mac_new_ctx w).1
    pub mac_frees : (ctx : MacCtx) (w : World) → Ready w → Ready (mac_free_ctx ctx w)
    -- SM4-CBC with PKCS7 padding, and HMAC-SM3.
    pub cbc : Bytes → Bytes → Bytes → Bytes
    pub hmac : Bytes → Bytes → Bytes
    pub rand_bytes-length :
        (n : ℕ) (w : World) (iv : Bytes)
        → (rand_bytes n w).0 ≡ some iv
        → (length iv ≡ n) × AreBytes iv
    pub cbc_shape :
        (key iv m : Bytes)
        → AreBytes m
        → (length (cbc key iv m) ≡ (length m / 16 + 1) * 16) × AreBytes (cbc key iv m)
    -- Under a key and an IV of 16 bytes, with room for a block more than the input.
    pub encrypts :
        (ctx : CipherCtx) (key iv m : Bytes)
        → length key ≡ 16
        → length iv ≡ 16
        → (out : Bytes) × (fin : Bytes) × Session ctx key iv true m (length m + 16) out fin
          × (out ++ fin ≡ cbc key iv m)
    -- Decryption of a ciphertext gives the message, with room for as much as the ciphertext.
    pub decrypts :
        (ctx : CipherCtx) (key iv m : Bytes)
        → length key ≡ 16
        → length iv ≡ 16
        → (out : Bytes) × (fin : Bytes) × Session ctx key iv false
            (cbc key iv m)
            (length (cbc key iv m))
            out
            fin
          × (out ++ fin ≡ m)
    pub hmac_shape : (key m : Bytes) → (length (hmac key m) ≡ 32) × AreBytes (hmac key m)
    pub mac_inits : (ctx : MacCtx) (key : Bytes) → (mac_init ctx key).0 ≡ 0
    pub mac_updates : (ctx : MacCtx) (key m : Bytes) → (mac_update (mac_init ctx key).1 m).0 ≡ 0
    pub mac_finishes :
        (ctx : MacCtx) (key m : Bytes)
        → let done = mac_final (mac_update (mac_init ctx key).1 m).1 32 in
          (done.0 ≡ 0) × (done.1 ≡ hmac key m)
