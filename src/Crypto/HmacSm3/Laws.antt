-- ===== src/Crypto/HmacSm3/Laws.antt =====
-- The shape of a MAC, and the life of its context.
use sec_search.Prelude.{
  ◌+◌, ◌-◌, ◌^◌, ◌<◌, Bytes, some, length, ok, ◌==◌, ◌≡◌, arith, Bool-cases, Option-cases, ◌⊎◌, inl,
  inr,
}
use sec_search.Crypto.Hex.{bin_to_hex}
use sec_search.Crypto.Hex.RoundTrip.{length-bin_to_hex}
use sec_search.Crypto.Provider.{Provider, Host, Healthy}
use sec_search.Crypto.Sm4Cipher.{sized_u32}
use sec_search.Crypto.Sm4Cipher.Sessions.{sized_u32_id}
use sec_search.Crypto.HmacSm3.{new_mac, free_mac, check, run_mac, hmac_raw, hmac_hex}

module _ (p : Provider) where
  run_mac_shape :
      (ctx : p.MacCtx) (m key mac : Bytes) (h : Host p)
      → (run_mac p ctx m key h).0 ≡ ok mac
      → length mac ≡ 32
  unfolding run_mac check free_mac
  run_mac_shape ctx m key mac h e = ground arith

  run_mac-live :
      (ctx : p.MacCtx) (m key : Bytes) (h : Host p) → (run_mac p ctx m key h).1.live ≡ h.live - 1
  unfolding run_mac check free_mac
  run_mac-live ctx m key h = ground arith

  -- Whatever the library answers, `hmacHex` leaves as many contexts open as it found.
  pub hmac_hex-live : (m key : Bytes) (h : Host p) → (hmac_hex p m key h).1.live ≡ h.live
  unfolding hmac_hex hmac_raw new_mac
  hmac_hex-live m key h = grind (arith, run_mac-live)

  new_mac-some :
      (ctx : p.MacCtx) (h : Host p)
      → (p.mac_new_ctx h.world).0 ≡ some ctx
      → new_mac p h ≡ (ok ctx, record { world = (p.mac_new_ctx h.world).1; live = h.live + 1 })
  unfolding new_mac
  new_mac-some ctx h e = ground arith

  hmac_hex-run :
      (m key : Bytes) (mac : Bytes) (ctx : p.MacCtx) (h : Host p)
      → (p.mac_new_ctx h.world).0 ≡ some ctx
      → (run_mac p ctx m key (record { world = (p.mac_new_ctx h.world).1; live = h.live + 1 })).0
        ≡ ok mac
      → (hmac_hex p m key h).0 ≡ ok (bin_to_hex mac)
  unfolding hmac_hex hmac_raw
  hmac_hex-run m key mac ctx h c e = rw (new_mac-some ctx h c) (ground arith)

  -- A MAC that `hmacHex` returns has 64 characters, whatever the library does.
  pub hmac_hex_shape :
      (m key tag : Bytes) (h : Host p) → (hmac_hex p m key h).0 ≡ ok tag → length tag ≡ 64
  unfolding hmac_hex hmac_raw new_mac
  hmac_hex_shape m key tag h e = grind (arith, run_mac_shape, length-bin_to_hex)

module _ (p : Provider) (good : Healthy p) where
  open good use {hmac, hmac_shape, mac_inits, mac_updates, mac_finishes}

  run_mac_lem :
      (ctx : p.MacCtx) (m key : Bytes) (h : Host p)
      → length key < 2 ^ 32
      → length m < 2 ^ 32
      → (run_mac p ctx m key h).0 ≡ ok (hmac key m)
  unfolding run_mac check free_mac
  run_mac_lem ctx m key h sk sm =
      let (done, wrote) = mac_finishes ctx key m in
      rw (
        sized_u32_id key sk,
        sized_u32_id m sm,
        mac_inits ctx key,
        mac_updates ctx key m,
        done,
        wrote,
        (hmac_shape key m).0,
      )

  -- Given a context, `hmacHex` returns the HMAC-SM3 of the data in hexadecimal.
  pub hmac_hex_lem :
      (m key : Bytes) (ctx : p.MacCtx) (h : Host p)
      → length key < 2 ^ 32
      → length m < 2 ^ 32
      → (p.mac_new_ctx h.world).0 ≡ some ctx
      → (hmac_hex p m key h).0 ≡ ok (bin_to_hex (hmac key m))
  hmac_hex_lem m key ctx h sk sm c =
      hmac_hex-run p m key (hmac key m) ctx h c (run_mac_lem ctx m key _ sk sm)

-- What holds of the library's state, and is kept by making and freeing a context, still holds
-- after `hmacHex`.
module _ (p : Provider) (P : p.World → Type 0) (makes : (w : p.World) → P w → P (p.mac_new_ctx w).1)
    (frees : (ctx : p.MacCtx) (w : p.World) → P w → P (p.mac_free_ctx ctx w)) where
  run_mac-frees :
      (ctx : p.MacCtx) (m key : Bytes) (h : Host p)
      → (last : p.MacCtx) × ((run_mac p ctx m key h).1.world ≡ p.mac_free_ctx last h.world)
  unfolding run_mac check free_mac
  run_mac-frees ctx0 m key h =
      let c1 = p.mac_init ctx0 (sized_u32 key) in
      let c2 = p.mac_update c1.1 (sized_u32 m) in
      let c3 = p.mac_final c2.1 32 in
      elim (Bool-cases (c1.0 == 0)) [
        | inr e1 ↦ (c1.1, ground arith)
        | inl s1 ↦ elim (Bool-cases (c2.0 == 0)) [
          | inr e2 ↦ (c2.1, ground arith)
          | inl s2 ↦ (c3.2, ground arith)
        ]
      ]

  hmac_hex-frees :
      (m key : Bytes) (h : Host p)
      → ((hmac_hex p m key h).1.world ≡ (p.mac_new_ctx h.world).1)
        ⊎ ((last : p.MacCtx) × ((hmac_hex p m key h).1.world
              ≡ p.mac_free_ctx last (p.mac_new_ctx h.world).1))
  unfolding hmac_hex hmac_raw new_mac
  hmac_hex-frees m key h = elim (Option-cases (p.mac_new_ctx h.world).0) [
    | inl none_made ↦ inl (ground arith)
    | inr (ctx, made) ↦
        let h' : Host p = record { world = (p.mac_new_ctx h.world).1; live = h.live + 1 } in
        let (last, e) = run_mac-frees ctx m key h' in inr (last, ground arith)
  ]

  pub hmac_hex-Keeps : (m key : Bytes) (h : Host p) → P h.world → P (hmac_hex p m key h).1.world
  hmac_hex-Keeps m key h v = elim (hmac_hex-frees m key h) [
    | inl e ↦ rw e (makes h.world v)
    | inr (last, e) ↦ rw e (frees last _ (makes h.world v))
  ]
