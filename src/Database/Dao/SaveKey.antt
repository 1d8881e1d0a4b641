-- ===== src/Database/Dao/SaveKey.antt =====
-- `KeyManager::saveToDatabase` of src/crypto/key_manager.cpp, on the DAO.
use sec_search.Prelude.{ℕ, Bytes, length, ok, ◌≡◌, refl}
use sec_search.Prelude.Action.{Action, ◌>>=◌}
use sec_search.Prelude.Triple.{Post, Triple-bind, Post-weaken}
use sec_search.Crypto.Primitives.{Primitives, IsPlain, IsSized}
use sec_search.Crypto.Primitives
use sec_search.Crypto.KeyManager.{KeyManager, KeyStatus}
use sec_search.Database.Server.{Server, Statement, KeyRow}
use sec_search.Database.Server.Tables.{Tables, effect}
use sec_search.Database.Server.Lawful.{Lawful}
use sec_search.Database.Server.Effects.{At}
use sec_search.Database.Transaction.Atomic.{outside}
use sec_search.Database.Dao.Keys.{save_key_to_config}
use sec_search.Database.Dao.Records.{Store, on_env, on_session}
use sec_search.Database.Dao.Writes.{on_session-Triple, on_env-Triple}
use sec_search.Database.Dao.Atomic.{save_key_to_config_atomic}

-- The key is encrypted under the KEK.
unfoldable pub save_to_database :
    (c : Primitives) (sv : Server)
    → KeyManager
    → ℕ
    → Bytes
    → ℕ
    → KeyStatus
    → Action (Store c sv) (Unit {0})
save_to_database c sv keys key_type key version status = do
  cipher ← on_env c sv (c.encrypt key keys.kek)
  on_session c sv (save_key_to_config sv key_type cipher version status)

abbrev pub key_row : ℕ → ℕ → KeyStatus → Bytes → KeyRow
key_row key_type version status cipher = record {
  key_type = key_type;
  key_cipher = cipher;
  key_version = version;
  status = status;
}

module _ (c : Primitives) (lc : Primitives.Lawful c) (sv : Server) (law : Lawful sv) where
  -- The row that is saved: its cipher opens to the key under the KEK.
  abbrev pub Saved : Bytes → Bytes → ℕ → ℕ → KeyStatus → Tables → Store c sv → Type 0
  Saved kek key key_type version status t s =
      (cipher : Bytes) × lc.Seals kek key cipher
      × At sv law (outside (effect (Statement.save_key (key_row key_type version status cipher)) t))
          s.session

  -- As below, and the crypto library stays ready.
  pub save_to_database_ready :
      (keys : KeyManager) (key_type : ℕ) (key : Bytes) (version : ℕ) (status : KeyStatus)
      (t : Tables) (s : Store c sv)
      → lc.Ready s.env
      → IsPlain key
      → length keys.kek ≡ 16
      → At sv law (outside t) s.session
      → Post
          (λ _ s'. Saved keys.kek key key_type version status t s' × lc.Ready s'.env)
          (λ s'. At sv law (outside t) s'.session)
          (save_to_database c sv keys key_type key version status s)
  unfolding save_to_database
  save_to_database_ready keys key_type key version status t s ready plain kek_size h =
      Triple-bind (λ s'. At sv law (outside t) s'.session × (s'.env ≡ s.env))
        (on_env c sv (c.encrypt key keys.kek)) _ (λ s'. At sv law (outside t) s'.session)
        (λ cipher. on_session c sv (save_key_to_config sv key_type cipher version status)) _
        (on_env-Triple sv law c (c.encrypt key keys.kek) (At sv law (outside t)) s.env)
        (λ cipher s' k.
          Post-weaken _ _ (λ s''. At sv law (outside t) s''.session) _
            (on_session c sv (save_key_to_config sv key_type cipher version status) s')
            (λ _ s'' x. ((cipher, seals cipher k.2, x.0), rw (x.1, k.1) ready_after)) (λ s'' x. x)
            (on_session-Triple sv law c (save_key_to_config sv key_type cipher version status)
              (At sv law (outside t))
              (λ _.
                At sv law (
                  outside (effect (Statement.save_key (key_row key_type version status cipher)) t)))
              (At sv law (outside t)) s'.env
              (save_key_to_config_atomic sv law (key_row key_type version status cipher) t) s'
              (k.0, refl)))
        s (h, refl)
    where
      seals :
          (cipher : Bytes)
          → (c.encrypt key keys.kek s.env).0 ≡ ok cipher
          → lc.Seals keys.kek key cipher
      seals cipher e =
          let (text, q, sealed, size, ready') =
            lc.encrypt-Seals key keys.kek s.env ready plain kek_size in
          let same : text ≡ cipher = cc in rw (← same) sealed

      ready_after : lc.Ready (c.encrypt key keys.kek s.env).1
      ready_after = (lc.encrypt-Seals key keys.kek s.env ready plain kek_size).4

  -- With a crypto library that works and a KEK of 16 bytes, on the tables `t` outside a
  -- transaction, `saveToDatabase` either returns, and the table has a row with the type, the
  -- version and the status whose cipher decrypts to the key under the KEK, in place of any row
  -- with that type and version; or it throws and leaves the tables as they were.
  pub save_to_database_seals :
      (keys : KeyManager) (key_type : ℕ) (key : Bytes) (version : ℕ) (status : KeyStatus)
      (t : Tables) (s : Store c sv)
      → lc.Ready s.env
      → IsPlain key
      → length keys.kek ≡ 16
      → At sv law (outside t) s.session
      → Post
          (λ _. Saved keys.kek key key_type version status t)
          (λ s'. At sv law (outside t) s'.session)
          (save_to_database c sv keys key_type key version status s)
  save_to_database_seals keys key_type key version status t s ready plain kek_size h =
      Post-weaken (λ _ s'. Saved keys.kek key key_type version status t s' × lc.Ready s'.env)
        (λ _. Saved keys.kek key key_type version status t) _ _
        (save_to_database c sv keys key_type key version status s) (λ _ s' x. x.0) (λ s' x. x)
        (save_to_database_ready keys key_type key version status t s ready plain kek_size h)
