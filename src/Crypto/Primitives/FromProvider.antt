-- ===== src/Crypto/Primitives/FromProvider.antt =====
-- `Primitives` filled from the models of sm4_cipher.cpp and sm3_hash.cpp over OpenHiTLS.
use sec_search.Prelude.{
  Bytes, ◌++◌, none, some, length, length-append, AreBytes, Error, ok, throw, ◌≡◌, refl, arith,
}
use sec_search.Prelude.Action.{Action}
use sec_search.Crypto.Hex.{bin_to_hex}
use sec_search.Crypto.Hex.RoundTrip.{length-bin_to_hex}
use sec_search.Crypto.Provider.{Provider, Host, Healthy}
use sec_search.Crypto.Sm4Cipher
use sec_search.Crypto.Sm4Cipher.Sessions.{encrypt-Keeps, decrypt-Keeps}
use sec_search.Crypto.Sm4Cipher.RoundTrip.{encrypt_lem, decrypt_lem}
use sec_search.Crypto.HmacSm3
use sec_search.Crypto.HmacSm3.Laws.{hmac_hex_lem, hmac_hex-Keeps}
use sec_search.Crypto.Primitives.{Primitives, Lawful, IsPlain, IsSized}

-- The random key of `rotateKey`.
pub random_key : (p : Provider) → Action (Host p) Bytes
random_key p h =
    let (r, w) = p.rand_bytes 16 h.world in
    elim r [
      | none ↦ (throw Error.failed_to_generate_new_key, record h { world = w })
      | some key ↦ (ok key, record h { world = w })
    ]

abbrev pub primitives : Provider → Primitives
primitives p = record {
  Env = Host p;
  encrypt = Sm4Cipher.encrypt p;
  decrypt = Sm4Cipher.decrypt p;
  hmac_hex = HmacSm3.hmac_hex p;
  random_key = random_key p;
}

module _ (p : Provider) (good : Healthy p) where
  open good use {
    cbc, hmac, rand_ready, cipher_ready, cipher_frees, mac_ready, mac_frees, rand_bytes-length,
    cbc_shape,
  }

  -- Hexadecimal of an IV of 16 bytes and the CBC ciphertext of a plaintext.
  pub record IsSealed (key m s : Bytes) : Type 0 where
    iv : Bytes
    iv_length : length iv ≡ 16
    iv_bytes : AreBytes iv
    plain : IsPlain m
    text : s ≡ bin_to_hex (iv ++ cbc key iv m)

  pub encrypt-IsSealed :
      (m key : Bytes) (h : Host p)
      → good.Ready h.world
      → IsPlain m
      → length key ≡ 16
      → (s : Bytes) × ((Sm4Cipher.encrypt p m key h).0 ≡ ok s)
        × IsSealed key m s
        × IsSized s
        × good.Ready (Sm4Cipher.encrypt p m key h).1.world
  encrypt-IsSealed m key h r plain k =
      let (iv, drawn, r') = rand_ready 16 h.world r in
      let (ctx, made, _) = cipher_ready (p.rand_bytes 16 h.world).1 r' in
      let (li, bytes) = rand_bytes-length 16 h.world iv drawn in
      (
        bin_to_hex (iv ++ cbc key iv m),
        encrypt_lem p good m key iv ctx h k (omega arith) drawn made,
        record { iv = iv; iv_length = li; iv_bytes = bytes; plain = plain; text = refl },
        omega (
          arith,
          length-bin_to_hex (iv ++ cbc key iv m),
          length-append iv (cbc key iv m),
          (cbc_shape key iv m plain.bytes).0,
        ),
        encrypt-Keeps p good.Ready (λ w v. (cipher_ready w v).2) cipher_frees
            (λ n w v. (rand_ready n w v).2) m key h r,
      )

  pub decrypt-IsSealed :
      (m key s : Bytes) (h : Host p)
      → good.Ready h.world
      → length key ≡ 16
      → IsSealed key m s
      → ((Sm4Cipher.decrypt p s key h).0 ≡ ok m) × good.Ready (Sm4Cipher.decrypt p s key h).1.world
  decrypt-IsSealed m key s h r k sealed =
      let (ctx, made, _) = cipher_ready h.world r in
      (
        rw sealed.text (
            decrypt_lem p good m key sealed.iv ctx h k (omega (arith, sealed.plain.short))
              sealed.plain.bytes sealed.iv_length sealed.iv_bytes made),
        decrypt-Keeps p good.Ready (λ w v. (cipher_ready w v).2) cipher_frees
            (λ n w v. (rand_ready n w v).2) s key h r,
      )

  pub random_key_ready :
      (h : Host p)
      → good.Ready h.world
      → (key : Bytes) × ((random_key p h).0 ≡ ok key)
        × (length key ≡ 16)
        × good.Ready (random_key p h).1.world
  unfolding random_key
  random_key_ready h r =
      let (key, drawn, r') = rand_ready 16 h.world r in
      (
        key,
        rw (drawn, random_key),
        (rand_bytes-length 16 h.world key drawn).0,
        rw (drawn, random_key) r',
      )

  -- So the models give what the rest of the program relies on.
  abbrev pub lawful : Lawful (primitives p)
  lawful = record {
    Ready = λ h. good.Ready h.world;
    mac = λ key m. bin_to_hex (hmac key m);
    Seals = IsSealed;
    hmac_hex-mac = λ m key h r sm sk. (
      hmac_hex_lem p good m key (mac_ready h.world r).0 h sk sm (mac_ready h.world r).1,
      hmac_hex-Keeps p good.Ready (λ w v. (mac_ready w v).2) mac_frees m key h r,
    );
    encrypt-Seals = encrypt-IsSealed;
    decrypt-Seals = decrypt-IsSealed;
    random_key-length = random_key_ready;
  }
