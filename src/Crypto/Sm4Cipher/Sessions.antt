-- ===== src/Crypto/Sm4Cipher/Sessions.antt =====
-- One context's life: it is freed on every path, and a session in which every call succeeds
-- returns the two outputs.
use sec_search.Prelude.{
  ℕ, ◌+◌, ◌-◌, ◌%◌, ◌^◌, ◌<◌, Bool, true, false, not, Bytes, ◌++◌, length, length-append, take,
  drop, Error, ok, ◌==◌, ltb, ◌≡◌, ap, inl, inr, arith, Bool-cases, Result-cases, take_all,
}
use sec_search.Prelude.Action.{Action, raise_if, lift, ◌>>=◌, ◌>>◌}
use sec_search.Crypto.Hex.{hex_to_bin}
use sec_search.Crypto.Provider.{Provider, Host, Session}
use sec_search.Crypto.Sm4Cipher.{
  as_u32, sized_u32, sub_size, generate_iv, new_ctx, free_ctx, check, run_cipher, encrypt, decrypt,
}

pub as_u32_id : (n : ℕ) → n < 2 ^ 32 → as_u32 n ≡ n
as_u32_id n h = omega arith

pub sized_u32_id : (s : Bytes) → length s < 2 ^ 32 → sized_u32 s ≡ s
sized_u32_id s h = rw (as_u32_id (length s) h) (take_all s)

module _ (p : Provider) where
  run_cipher-live :
      (ctx : p.CipherCtx) (key iv : Bytes) (enc : Bool) (input : Bytes) (room : ℕ) (h : Host p)
      → (run_cipher p ctx key iv enc input room h).1.live ≡ h.live - 1
  unfolding run_cipher check free_ctx
  run_cipher-live ctx key iv enc input room h = ground arith

  -- Whatever the library answers, `encrypt` leaves as many contexts open as it found.
  pub encrypt-live :
      (plaintext key : Bytes) (h : Host p) → (encrypt p plaintext key h).1.live ≡ h.live
  unfolding encrypt generate_iv new_ctx
  encrypt-live plaintext key h = grind (arith, run_cipher-live)

  -- Whatever the text and the library's answers, `decrypt` leaves as many contexts open as it found.
  pub decrypt-live :
      (ciphertext_hex key : Bytes) (h : Host p) → (decrypt p ciphertext_hex key h).1.live ≡ h.live
  unfolding decrypt new_ctx
  decrypt-live ciphertext_hex key h = grind (arith, run_cipher-live)

  pub run_cipher-Session :
      (ctx : p.CipherCtx) (key iv : Bytes) (enc : Bool) (input : Bytes) (room : ℕ) (out fin : Bytes)
      (h : Host p)
      → length input < 2 ^ 32
      → room < 2 ^ 32
      → Session p ctx key iv enc input room out fin
      → (run_cipher p ctx key iv enc input room h).0 ≡ ok (out ++ fin)
  unfolding run_cipher check free_ctx
  run_cipher-Session ctx key iv enc input room out fin h hi hr s =
      rw (sized_u32_id input hi, as_u32_id room hr, s.inited, s.padded, s.updated, s.written)
        (let short : as_u32 (length out) ≡ length out =
            as_u32_id (length out) (omega (arith, s.fits)) in
          let left : as_u32 (sub_size room (length out)) ≡ room - length out =
            omega (arith, s.fits) in
          rw
            (
              short,
              left,
              s.finished,
              s.flushed,
              as_u32_id (length out + length fin) (omega (arith, s.fits)),
              ← length-append out fin,
            )
            (ap ok (take_all (out ++ fin))))

-- The library's state after each part.
module _ (p : Provider) where
  run_cipher-frees :
      (ctx : p.CipherCtx) (key iv : Bytes) (enc : Bool) (input : Bytes) (room : ℕ) (h : Host p)
      → (last : p.CipherCtx) × ((run_cipher p ctx key iv enc input room h).1.world
          ≡ p.cipher_free_ctx last h.world)
  unfolding run_cipher check free_ctx
  run_cipher-frees ctx0 key iv enc input room h =
      let c1 = p.cipher_init ctx0 key iv enc in
      let c2 = p.cipher_set_padding c1.1 in
      let c3 = p.cipher_update c2.1 (sized_u32 input) (as_u32 room) in
      let c4 = p.cipher_final c3.2 (as_u32 (sub_size room (as_u32 (length c3.1)))) in
      elim (Bool-cases (c1.0 == 0)) [
        | inr e1 ↦ (c1.1, ground arith)
        | inl s1 ↦ elim (Bool-cases (c2.0 == 0)) [
          | inr e2 ↦ (c2.1, ground arith)
          | inl s2 ↦ elim (Bool-cases (c3.0 == 0)) [
            | inr e3 ↦ (c3.2, ground arith)
            | inl s3 ↦ elim (Bool-cases (c4.0 == 0)) [
              | inr e4 ↦ (c4.2, ground arith)
              | inl s4 ↦ (c4.2, ground arith)
            ]
          ]
        ]
      ]

  new_ctx-world : (h : Host p) → (new_ctx p h).1.world ≡ (p.cipher_new_ctx h.world).1
  unfolding new_ctx
  new_ctx-world h = ground arith

  generate_iv-world : (h : Host p) → (generate_iv p h).1.world ≡ (p.rand_bytes 16 h.world).1
  unfolding generate_iv
  generate_iv-world h = ground arith

-- What holds of the library's state, and is kept by a draw and by making and freeing a context,
-- still holds after `encrypt` and `decrypt`.
module _ (p : Provider) (P : p.World → Type 0)
    (makes : (w : p.World) → P w → P (p.cipher_new_ctx w).1)
    (frees : (ctx : p.CipherCtx) (w : p.World) → P w → P (p.cipher_free_ctx ctx w))
    (draws : (n : ℕ) (w : p.World) → P w → P (p.rand_bytes n w).1) where
  abbrev Keeps : {A : Type 0} → Action (Host p) A → Type 0
  Keeps a = (h : Host p) → P h.world → P (a h).1.world

  bind-Keeps :
      {A B : Type 0} (a : Action (Host p) A) (f : A → Action (Host p) B)
      → Keeps a
      → ((x : A) → Keeps (f x))
      → Keeps (a >>= f)
  bind-Keeps a f ka kf h v = elim (Result-cases (a h).0) [
    | inl (x, e) ↦ rw e (kf x (a h).1 (ka h v))
    | inr (x, e) ↦ rw e (ka h v)
  ]

  run_cipher-Keeps :
      (ctx : p.CipherCtx) (key iv : Bytes) (enc : Bool) (input : Bytes) (room : ℕ)
      → Keeps (run_cipher p ctx key iv enc input room)
  run_cipher-Keeps ctx key iv enc input room h v =
      let (last, e) = run_cipher-frees p ctx key iv enc input room h in rw e (frees last h.world v)

  new_ctx-Keeps : Keeps (new_ctx p)
  new_ctx-Keeps h v = rw (new_ctx-world p h) (makes h.world v)

  generate_iv-Keeps : Keeps (generate_iv p)
  generate_iv-Keeps h v = rw (generate_iv-world p h) (draws 16 h.world v)

  raise_if-Keeps :
      {A : Type 0} (b : Bool) (e : Error) (k : Action (Host p) A)
      → Keeps k
      → Keeps (raise_if b e >> k)
  raise_if-Keeps true e k kk h v = v
  raise_if-Keeps false e k kk h v = kk h v

  pub encrypt-Keeps : (m key : Bytes) → Keeps (encrypt p m key)
  unfolding encrypt
  encrypt-Keeps m key = raise_if-Keeps (not (length key == 16)) _ _ (
      bind-Keeps (generate_iv p) _ generate_iv-Keeps λ iv.
        bind-Keeps (new_ctx p) _ new_ctx-Keeps λ ctx.
          bind-Keeps (run_cipher p ctx key iv true m (length m + 16)) _
            (run_cipher-Keeps ctx key iv true m (length m + 16)) λ c h v. v)

  pub decrypt-Keeps : (c key : Bytes) → Keeps (decrypt p c key)
  unfolding decrypt
  decrypt-Keeps c key = raise_if-Keeps (not (length key == 16)) _ _ (
      bind-Keeps (lift (hex_to_bin c)) _ (λ h v. v)
        λ d. raise_if-Keeps (ltb (length d) 16) _ _ (
          raise_if-Keeps (not (length (drop 16 d) % 16 == 0)) _ _ (
            bind-Keeps (new_ctx p) _ new_ctx-Keeps
              λ ctx. run_cipher-Keeps ctx key (take 16 d) false (drop 16 d) (length (drop 16 d)))))
