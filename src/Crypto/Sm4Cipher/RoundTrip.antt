-- ===== src/Crypto/Sm4Cipher/RoundTrip.antt =====
-- What `decrypt` makes of what `encrypt` wrote, and what it refuses.
use sec_search.Prelude.{
  ◌+◌, ◌-◌, ◌*◌, ◌/◌, ◌%◌, ◌^◌, ◌≤◌, ◌<◌, true, false, Bytes, ◌++◌, some, length, length-append,
  take-append, drop-append, length-drop, All-append, IsByte, AreBytes, Error, ok, throw, ◌≡◌, ◌≢◌,
  ap, ◌∙◌, arith, ltb-eq-false,
}
use sec_search.Prelude.Action.{pure, ◌>>=◌}
use sec_search.Crypto.Hex.{bin_to_hex, hex_to_bin}
use sec_search.Crypto.Hex.RoundTrip.{hex_to_bin-bin_to_hex, length-bin_to_hex}
use sec_search.Crypto.Provider.{Provider, Host, Healthy}
use sec_search.Crypto.Sm4Cipher.{generate_iv, new_ctx, run_cipher, encrypt, decrypt}
use sec_search.Crypto.Sm4Cipher.Sessions.{run_cipher-Session}

-- Why `decrypt` refuses a text under a key, and by which error.
pub data Refusal (c key : Bytes) : Error → Type 0 where
  wrong_key : length key ≢ 16 → Refusal c key Error.sm4_key_must_be_16_bytes
  no_hex : (e : Error) → length key ≡ 16 → hex_to_bin c ≡ throw e → Refusal c key e
  too_short :
      (d : Bytes)
      → length key ≡ 16
      → hex_to_bin c ≡ ok d
      → length d < 16
      → Refusal c key Error.ciphertext_too_short
  no_blocks :
      (d : Bytes)
      → length key ≡ 16
      → hex_to_bin c ≡ ok d
      → 16 ≤ length d
      → (length d - 16) % 16 ≢ 0
      → Refusal c key Error.invalid_ciphertext_length

-- `decrypt` refuses a key that has not 16 bytes, a text that `hexToBin` refuses, fewer than 16
-- bytes, and a part behind the IV that is no multiple of 16 bytes, each by its own error and
-- before any call of the library.
pub decrypt_refuses :
    (p : Provider) (c key : Bytes) (e : Error) (h : Host p)
    → Refusal c key e
    → decrypt p c key h ≡ (throw e, h)
unfolding decrypt
decrypt_refuses p c key _ h (wrong_key k) = ground arith
decrypt_refuses p c key _ h (no_hex e k r) = rw (k, r)
decrypt_refuses p c key _ h (too_short d k r s) = rw (k, r) (ground arith)
decrypt_refuses p c key _ h (no_blocks d k r s m) = rw (k, r, length-drop 16 d) (ground arith)

module _ (p : Provider) where
  generate_iv-some :
      (iv : Bytes) (h : Host p)
      → (p.rand_bytes 16 h.world).0 ≡ some iv
      → generate_iv p h ≡ (ok iv, record h { world = (p.rand_bytes 16 h.world).1 })
  unfolding generate_iv
  generate_iv-some iv h e = ground arith

  new_ctx-some :
      (ctx : p.CipherCtx) (h : Host p)
      → (p.cipher_new_ctx h.world).0 ≡ some ctx
      → new_ctx p h ≡ (ok ctx, record { world = (p.cipher_new_ctx h.world).1; live = h.live + 1 })
  unfolding new_ctx
  new_ctx-some ctx h e = ground arith

  -- The rest of `encrypt`, once it has an IV.
  encrypt-run :
      (m key iv c : Bytes) (ctx : p.CipherCtx) (h : Host p)
      → (run_cipher p ctx key iv true m (length m + 16) h).0 ≡ ok c
      → ((run_cipher p ctx key iv true m (length m + 16) >>= λ x. pure (bin_to_hex (iv ++ x))) h).0
        ≡ ok (bin_to_hex (iv ++ c))
  encrypt-run m key iv c ctx h e = ground arith

module _ (p : Provider) (good : Healthy p) where
  open good use {cbc, cbc_shape, encrypts, decrypts, rand_bytes-length}

  pub encrypt_lem :
      (m key iv : Bytes) (ctx : p.CipherCtx) (h : Host p)
      → length key ≡ 16
      → length m + 16 < 2 ^ 32
      → (p.rand_bytes 16 h.world).0 ≡ some iv
      → (p.cipher_new_ctx (p.rand_bytes 16 h.world).1).0 ≡ some ctx
      → (encrypt p m key h).0 ≡ ok (bin_to_hex (iv ++ cbc key iv m))
  unfolding encrypt
  encrypt_lem m key iv ctx h k small r c =
      let (out, fin, s, e) = encrypts ctx key iv m k (rand_bytes-length 16 h.world iv r).0 in
      rw
        (
          k,
          generate_iv-some p iv h r,
          new_ctx-some p ctx (record h { world = (p.rand_bytes 16 h.world).1 }) c,
        )
        (encrypt-run p m key iv (cbc key iv m) ctx _ (
          run_cipher-Session p ctx key iv true m (length m + 16) out fin _ (omega arith) small s
          ∙ ap ok e))

  pub decrypt_lem :
      (m key iv : Bytes) (ctx : p.CipherCtx) (h : Host p)
      → length key ≡ 16
      → length m + 16 < 2 ^ 32
      → AreBytes m
      → length iv ≡ 16
      → AreBytes iv
      → (p.cipher_new_ctx h.world).0 ≡ some ctx
      → (decrypt p (bin_to_hex (iv ++ cbc key iv m)) key h).0 ≡ ok m
  unfolding decrypt
  decrypt_lem m key iv ctx h k small am li bytes c =
      let sealed = cbc key iv m in
      let (size, octets) = cbc_shape key iv m am in
      let (out, fin, s, e) = decrypts ctx key iv m k li in
      let whole : 16 ≤ length (iv ++ sealed) = omega (arith, length-append iv sealed) in
      let blocks : length sealed % 16 ≡ 0 = omega arith in
      rw
        (
          k,
          hex_to_bin-bin_to_hex (iv ++ sealed) (All-append IsByte iv sealed bytes octets),
          ltb-eq-false _ _ whole,
          take-append 16 iv sealed li,
          drop-append 16 iv sealed li,
          blocks,
          new_ctx-some p ctx h c,
        )
        (run_cipher-Session p ctx key iv false sealed (length sealed) out fin _ (omega arith)
            (omega arith) s
          ∙ ap ok e)

  -- Under a key of 16 bytes, for a message of fewer than
  -- 2 ^ 32 - 16 bytes: if the library gives
  -- `encrypt` an IV and a context, `encrypt` returns a text of 2 * (16 + 16 * (n / 16 + 1))
  -- characters for n bytes, and `decrypt` returns the message from it whenever the library gives
  -- it a context.
  pub decrypt-encrypt :
      (m key iv : Bytes) (ctx ctx' : p.CipherCtx) (h h' : Host p)
      → length key ≡ 16
      → length m + 16 < 2 ^ 32
      → AreBytes m
      → (p.rand_bytes 16 h.world).0 ≡ some iv
      → (p.cipher_new_ctx (p.rand_bytes 16 h.world).1).0 ≡ some ctx
      → (p.cipher_new_ctx h'.world).0 ≡ some ctx'
      → (c : Bytes) × ((encrypt p m key h).0 ≡ ok c)
        × (length c ≡ 2 * (16 + 16 * (length m / 16 + 1)))
        × ((decrypt p c key h').0 ≡ ok m)
  decrypt-encrypt m key iv ctx ctx' h h' k small am r c c' =
      let (li, bytes) = rand_bytes-length 16 h.world iv r in
      let sealed = cbc key iv m in
      (
        bin_to_hex (iv ++ sealed),
        encrypt_lem m key iv ctx h k small r c,
        omega (
          arith,
          length-bin_to_hex (iv ++ sealed),
          length-append iv sealed,
          (cbc_shape key iv m am).0,
        ),
        decrypt_lem m key iv ctx' h' k small am li bytes c',
      )
