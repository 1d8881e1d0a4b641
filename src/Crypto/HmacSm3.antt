-- ===== src/Crypto/HmacSm3.antt =====
-- `HmacSm3::hmacRaw` and `HmacSm3::hmacHex` of src/crypto/sm3_hash.cpp.
pub mod Laws
use sec_search.Prelude.{
  ℕ, ◌+◌, ◌-◌, Bool, true, false, not, ◌||◌, Bytes, Option, none, some, length, Error, ok, throw,
  ◌==◌,
}
use sec_search.Prelude.Action.{Action, pure, raise, raise_if, modify, ◌>>=◌, ◌>>◌}
use sec_search.Crypto.Hex.{bin_to_hex}
use sec_search.Crypto.Provider.{Provider, Host, crypt_success}
use sec_search.Crypto.Sm4Cipher.{as_u32, sized_u32}

module _ (p : Provider) where
  open p use {MacCtx, mac_new_ctx, mac_free_ctx, mac_init, mac_update, mac_final}

  new_mac : Action (Host p) MacCtx
  new_mac h =
      let (r, w) = mac_new_ctx h.world in
      elim r [
        | none ↦ (throw Error.failed_to_create_hmac_context, record h { world = w })
        | some ctx ↦ (ok ctx, record { world = w; live = h.live + 1 })
      ]

  free_mac : MacCtx → Action (Host p) (Unit {0})
  free_mac ctx h = (ok tt, record { world = mac_free_ctx ctx h.world; live = h.live - 1 })

  check : ℕ → MacCtx → Error → Action (Host p) (Unit {0})
  check ret ctx e = elim (ret == crypt_success) [ true ↦ pure tt | false ↦ free_mac ctx >> raise e ]

  -- The calls on one context; the result buffer has room for 32 bytes.
  run_mac : MacCtx → Bytes → Bytes → Action (Host p) Bytes
  run_mac ctx0 data' key = do
    let (ret1, ctx1) = mac_init ctx0 (sized_u32 key)
    check ret1 ctx1 Error.hmac_init_failed
    let (ret2, ctx2) = mac_update ctx1 (sized_u32 data')
    check ret2 ctx2 Error.hmac_update_failed
    let (ret3, mac, ctx3) = mac_final ctx2 32
    free_mac ctx3
    raise_if (not (ret3 == crypt_success) || not (length mac == 32)) Error.hmac_final_failed
    pure mac

  pub hmac_raw : Bytes → Bytes → Action (Host p) Bytes
  unfolding run_mac new_mac free_mac check
  hmac_raw data' key = do ctx ← new_mac; run_mac ctx data' key

  pub hmac_hex : Bytes → Bytes → Action (Host p) Bytes
  hmac_hex data' key = do raw ← hmac_raw data' key; pure (bin_to_hex raw)
