-- ===== src/Crypto/Sm4Cipher.antt =====
-- `Sm4Cipher::encrypt` and `Sm4Cipher::decrypt` of src/crypto/sm4_cipher.cpp.
pub mod Sessions
pub mod RoundTrip
use sec_search.Prelude.{
  ℕ, ◌+◌, ◌-◌, ◌%◌, ◌^◌, Bool, true, false, not, Bytes, ◌++◌, Option, none, some, length, take,
  drop, Error, ok, throw, ◌==◌, ltb,
}
use sec_search.Prelude.Action.{Action, pure, raise, raise_if, lift, modify, ◌>>=◌, ◌>>◌}
use sec_search.Crypto.Hex.{bin_to_hex, hex_to_bin}
use sec_search.Crypto.Provider.{Provider, Host, crypt_success}

abbrev pub key_len : ℕ
key_len = 16

abbrev pub iv_len : ℕ
iv_len = 16

-- `(uint32_t)n`, and a buffer handed over with its length so cast.
abbrev pub as_u32 : ℕ → ℕ
as_u32 n = n % 2 ^ 32

abbrev pub sized_u32 : Bytes → Bytes
sized_u32 s = take (as_u32 (length s)) s

-- `a - b` on `size_t`.
abbrev pub sub_size : ℕ → ℕ → ℕ
sub_size a b = (a + 2 ^ 64 - b) % 2 ^ 64

module _ (p : Provider) where
  open p use {
    CipherCtx, rand_bytes, cipher_new_ctx, cipher_free_ctx, cipher_init, cipher_set_padding,
    cipher_update, cipher_final,
  }

  -- `generateIV`.
  pub generate_iv : Action (Host p) Bytes
  generate_iv h =
      let (r, w) = rand_bytes iv_len h.world in
      elim r [
        | none ↦ (throw Error.failed_to_generate_iv, record h { world = w })
        | some iv ↦ (ok iv, record h { world = w })
      ]

  pub new_ctx : Action (Host p) CipherCtx
  new_ctx h =
      let (r, w) = cipher_new_ctx h.world in
      elim r [
        | none ↦ (throw Error.failed_to_create_sm4_context, record h { world = w })
        | some ctx ↦ (ok ctx, record { world = w; live = h.live + 1 })
      ]

  pub free_ctx : CipherCtx → Action (Host p) (Unit {0})
  free_ctx ctx h = (ok tt, record { world = cipher_free_ctx ctx h.world; live = h.live - 1 })

  -- `if (ret != CRYPT_SUCCESS) { CRYPT_EAL_CipherFreeCtx(ctx); throw e; }`
  check : ℕ → CipherCtx → Error → Action (Host p) (Unit {0})
  check ret ctx e = elim (ret == crypt_success) [ true ↦ pure tt | false ↦ free_ctx ctx >> raise e ]

  -- The calls from `CRYPT_EAL_CipherInit` to `CRYPT_EAL_CipherFreeCtx`, which the two functions
  -- share; `room` is the size of the output buffer. Returns the buffer cut to `totalLen`.
  pub run_cipher : CipherCtx → Bytes → Bytes → Bool → Bytes → ℕ → Action (Host p) Bytes
  run_cipher ctx0 key iv enc input room = do
    let (ret1, ctx1) = cipher_init ctx0 key iv enc
    check ret1 ctx1 (Error.init_failed ret1)
    let (ret2, ctx2) = cipher_set_padding ctx1
    check ret2 ctx2 (Error.set_padding_failed ret2)
    let (ret3, out, ctx3) = cipher_update ctx2 (sized_u32 input) (as_u32 room)
    check ret3 ctx3 (Error.update_failed ret3)
    let total = as_u32 (length out)
    let (ret4, fin, ctx4) = cipher_final ctx3 (as_u32 (sub_size room total))
    check ret4 ctx4 (Error.final_failed ret4)
    free_ctx ctx4
    pure (take (as_u32 (total + length fin)) (out ++ fin))

  pub encrypt : Bytes → Bytes → Action (Host p) Bytes
  encrypt plaintext key = do
    raise_if (not (length key == key_len)) Error.sm4_key_must_be_16_bytes
    iv ← generate_iv
    ctx ← new_ctx
    cipher ← run_cipher ctx key iv true plaintext (length plaintext + 16)
    pure (bin_to_hex (iv ++ cipher))

  pub decrypt : Bytes → Bytes → Action (Host p) Bytes
  decrypt ciphertext_hex key = do
    raise_if (not (length key == key_len)) Error.sm4_key_must_be_16_bytes
    combined ← lift (hex_to_bin ciphertext_hex)
    raise_if (ltb (length combined) iv_len) Error.ciphertext_too_short
    let iv = take iv_len combined
    let cipher = drop iv_len combined
    raise_if (not (length cipher % 16 == 0)) Error.invalid_ciphertext_length
    ctx ← new_ctx
    run_cipher ctx key iv false cipher (length cipher)
