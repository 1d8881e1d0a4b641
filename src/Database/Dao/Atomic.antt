-- ===== src/Database/Dao/Atomic.antt =====
-- What the inserts, updates and deletes of src/database/dao.cpp leave behind, on every path.
use sec_search.Prelude.{ℕ, true, Bytes, ok, ◌≡◌, refl, ap, inl}
use sec_search.Prelude.Action.{Action, pure}
use sec_search.Prelude.Triple.{Post, Triple, Triple-bind, Post-weaken}
use sec_search.Crypto.Primitives.{Primitives}
use sec_search.Database.{PlainData}
use sec_search.Database.Server.{Server, Session, Statement, MainRow, KeyRow, real_query, write}
use sec_search.Database.Server.Tables.{Tables, effect}
use sec_search.Database.Server.Lawful.{Lawful}
use sec_search.Database.Server.Effects.{At}
use sec_search.Database.Transaction.{in_transaction}
use sec_search.Database.Transaction.Atomic.{outside, inside, Open, in_transaction-Atomic}
use sec_search.Database.Transaction.OnSession.{session-Controls}
use sec_search.Database.Dao.{delete_fuzzy_index}
use sec_search.Database.Dao.Keys.{save_key_to_config}
use sec_search.Database.Dao.Records.{
  FieldHashes, Store, seal_row, hash_fields, index_fields, on_env, on_session, on_connection,
  update_rows, update_data, delete_rows, delete_data,
}
use sec_search.Database.Dao.Writes.{
  indexed, write-Takes, delete_fuzzy_index-Takes, bind-Takes, Takes, index_fields-Takes,
  on_session-Inside, on_env-Triple, store-Controls,
}

module _ (sv : Server) (law : Lawful sv) where
  -- A transaction of statements only.
  transaction-Takes :
      (t u : Tables) (m : Action (Session sv) (Unit {0}))
      → Triple
          (At sv law (inside t t))
          m
          (λ _. At sv law (inside t u))
          (λ s. Open t (law.view s.world))
      → Triple
          (At sv law (outside t))
          (in_transaction (real_query sv) m)
          (λ _. At sv law (outside u))
          (At sv law (outside t))
  transaction-Takes t u m h s e =
      Post-weaken _ (λ _. At sv law (outside u)) (At sv law (outside t)) (At sv law (outside t))
        (in_transaction (real_query sv) m s) (λ a s' k. rw (← k.1) k.2) (λ s' x. x)
        (in_transaction-Atomic (real_query sv) (λ s'. law.view s'.world) (λ s'. tt {0})
          (session-Controls sv law) (λ a u'. u' ≡ u) t m tt
          (λ s' k.
            Post-weaken (λ a. At sv law (inside t u)) _ (λ s''. Open t (law.view s''.world)) _
              (m s') (λ a s'' x. (u, refl, x)) (λ s'' x. x) (h s' k.0))
          s (e, refl))

  delete_rows-Takes :
      (id : ℕ) (t u : Tables)
      → Takes sv law t u
          (effect (Statement.delete_main id) (effect (Statement.delete_fuzzy id) u))
          (delete_rows sv id)
  unfolding delete_rows
  delete_rows-Takes id t u =
      bind-Takes sv law t u _ _ (delete_fuzzy_index sv id) _
        (delete_fuzzy_index-Takes sv law id t u)
        (write-Takes sv law _ _ _ _ (Statement.delete_main id) t _)

  -- On the tables `t`, outside a transaction, `deleteData` either returns true, and the row and
  -- its postings are gone, or throws and leaves the tables as they were, whichever call fails.
  pub delete_data_atomic :
      (id : ℕ) (t : Tables) (s : Session sv)
      → At sv law (outside t) s
      → Post
          (λ done s'.
            (done ≡ true)
            × At sv law
                (outside (effect (Statement.delete_main id) (effect (Statement.delete_fuzzy id) t)))
                s')
          (At sv law (outside t))
          (delete_data sv id s)
  unfolding delete_data
  delete_data_atomic id t s e =
      let u : Tables = effect (Statement.delete_main id) (effect (Statement.delete_fuzzy id) t) in
      Triple-bind (At sv law (outside t)) (in_transaction (real_query sv) (delete_rows sv id))
        (λ _. At sv law (outside u)) (At sv law (outside t)) (λ _. pure true)
        (λ done s'. (done ≡ true) × At sv law (outside u) s')
        (transaction-Takes t u (delete_rows sv id) (delete_rows-Takes id t t)) (λ _ s' k. (refl, k))
        s e

  -- On the tables `t`, outside a transaction, `saveKeyToConfig` either returns, and the key is in
  -- the table in place of any with its type and version, or throws and leaves the tables as they
  -- were.
  pub save_key_to_config_atomic :
      (row : KeyRow) (t : Tables) (s : Session sv)
      → At sv law (outside t) s
      → Post
          (λ _. At sv law (outside (effect (Statement.save_key row) t)))
          (At sv law (outside t))
          (save_key_to_config sv row.key_type row.key_cipher row.key_version row.status s)
  unfolding save_key_to_config
  save_key_to_config_atomic row t =
      transaction-Takes t (effect (Statement.save_key row) t)
        (write sv _ _ _ _ (Statement.save_key row))
        (write-Takes sv law _ _ _ _ (Statement.save_key row) t t)

module _ (c : Primitives) (sv : Server) (law : Lawful sv) (plain : PlainData)
    (enc_key idx_key tag_key : Bytes) (version : ℕ) where
  -- The row and the hashes that the crypto library makes, from its state `e` on.
  abbrev pub Sealed : c.Env → MainRow → FieldHashes c sv → Type 0
  Sealed e row hashes =
      ((seal_row c sv plain enc_key idx_key tag_key version e).0 ≡ ok row)
      × ((hash_fields c sv plain idx_key
            (seal_row c sv plain enc_key idx_key tag_key version e).1).0
          ≡ ok hashes)

  abbrev pub updated : ℕ → MainRow → FieldHashes c sv → Tables → Tables
  updated id row hashes t =
      indexed c sv id hashes
        (effect (Statement.update_main row id) (effect (Statement.delete_fuzzy id) t))

  abbrev pub Updated : ℕ → c.Env → Tables → Tables → Type 0
  Updated id e t u =
      (row : MainRow) × (hashes : FieldHashes c sv) × Sealed e row hashes
      × (u ≡ updated id row hashes t)

  on_env-Inside :
      {A : Type 0} (t u : Tables) (e : c.Env) (m : Action c.Env A)
      → Triple
          (λ s. At sv law (inside t u) s.session × (s.env ≡ e))
          (on_env c sv m)
          (λ a s. At sv law (inside t u) s.session × (s.env ≡ (m e).1) × ((m e).0 ≡ ok a))
          (λ s. Open t (law.view s.session.world))
  on_env-Inside t u e m s k =
      Post-weaken _ _ (λ s'. At sv law (inside t u) s'.session)
        (λ s'. Open t (law.view s'.session.world)) (on_env c sv m s) (λ a s' x. x)
        (λ s' x. inl (ap (λ v. v.saved) x))
        (on_env-Triple sv law c m (At sv law (inside t u)) e s k)

  update_rows-Inside :
      (id : ℕ) (t : Tables) (e : c.Env)
      → Triple
          (λ s. At sv law (inside t t) s.session × (s.env ≡ e))
          (update_rows c sv id plain enc_key idx_key tag_key version)
          (λ _ s. (u : Tables) × Updated id e t u × At sv law (inside t u) s.session)
          (λ s. Open t (law.view s.session.world))
  unfolding update_rows
  update_rows-Inside id t e =
      Triple-bind _ (on_session c sv (delete_fuzzy_index sv id)) _ _ _ _
        (on_session-Inside sv law c t t _ e (delete_fuzzy_index sv id)
          (delete_fuzzy_index-Takes sv law id t t))
        λ _.
          Triple-bind _ (on_env c sv (seal_row c sv plain enc_key idx_key tag_key version)) _ _ _ _
            (on_env-Inside t _ e (seal_row c sv plain enc_key idx_key tag_key version))
            λ row s k.
              Triple-bind _ (on_session c sv (write sv _ _ _ _ (Statement.update_main row id))) _ _
                _ _
                (on_session-Inside sv law c t _ _ _ _
                  (write-Takes sv law _ _ _ _ (Statement.update_main row id) t _))
                (λ _.
                  Triple-bind _ (on_env c sv (hash_fields c sv plain idx_key)) _ _ _ _
                    (on_env-Inside t _ _ (hash_fields c sv plain idx_key))
                    λ hashes s' k'.
                      Post-weaken _ _ (λ s''. Open t (law.view s''.session.world)) _
                        (on_session c sv (index_fields c sv id hashes) s')
                        (λ _ s'' x. (_, (row, hashes, (k.2, k'.2), refl), x.0)) (λ s'' x. x)
                        (on_session-Inside sv law c t _ _ _ (index_fields c sv id hashes)
                          (index_fields-Takes sv law c id hashes t _) s' (k'.0, k'.1)))
                s (k.0, k.1)

  -- On the tables `t`, outside a transaction, `updateData` either returns true, and the tables are
  -- `t` with the old postings of the id deleted, its row (if it has one) replaced by what the
  -- crypto library made of the new data, and the postings of the new data's hashes inserted; or
  -- it throws and leaves the tables as they were, whichever call fails.
  pub update_data_atomic :
      (id : ℕ) (t : Tables) (s : Store c sv)
      → At sv law (outside t) s.session
      → Post
          (λ done s'.
            (done ≡ true) × (u : Tables) × Updated id s.env t u × At sv law (outside u) s'.session)
          (λ s'. At sv law (outside t) s'.session)
          (update_data c sv id plain enc_key idx_key tag_key version s)
  unfolding update_data
  update_data_atomic id t s h =
      Triple-bind (λ s'. At sv law (outside t) s'.session × (s'.env ≡ s.env))
        (in_transaction (on_connection c sv)
          (update_rows c sv id plain enc_key idx_key tag_key version))
        (λ _ s'. (u : Tables) × Updated id s.env t u × At sv law (outside u) s'.session)
        (λ s'. At sv law (outside t) s'.session) (λ _. pure true) _
        (in_transaction-Atomic (on_connection c sv) (λ s'. law.view s'.session.world) (λ s'. s'.env)
          (store-Controls sv law c) (λ a. Updated id s.env t) t
          (update_rows c sv id plain enc_key idx_key tag_key version) s.env
          (update_rows-Inside id t s.env))
        (λ _ s' k. (refl, k.0, k.1, k.2)) s (h, refl)
