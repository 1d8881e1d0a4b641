-- ===== src/Database/Dao/Insert.antt =====
-- What `insertData` of src/database/dao.cpp leaves behind: its first statement is not in the
-- transaction of the others.
use sec_search.Prelude.{ℕ, Bytes, ok, Error, ◌≡◌, refl, ◌⊎◌, inl, inr, ◌==◌, Bool-cases}
use sec_search.Prelude.Action.{Action, pure, raise_if, ◌>>=◌, ◌>>◌}
use sec_search.Prelude.Triple.{Post, Triple, Triple-bind, Post-weaken}
use sec_search.Crypto.Primitives.{Primitives}
use sec_search.Database.{PlainData}
use sec_search.Database.Server.{Server, Statement, MainRow}
use sec_search.Database.Server.Tables.{Tables, effect}
use sec_search.Database.Server.Lawful.{View, Undone, Lawful}
use sec_search.Database.Server.Effects.{At, Failed, after, insert_row-At}
use sec_search.Database.Transaction.{in_transaction}
use sec_search.Database.Transaction.Atomic.{outside, Open, in_transaction-Atomic}
use sec_search.Database.Dao.{insert_main_table}
use sec_search.Database.Dao.Records.{
  FieldHashes, Store, seal_row, hash_fields, index_fields, on_env, on_session, on_connection,
  insert_data,
}
use sec_search.Database.Dao.Writes.{
  indexed, index_fields-Takes, on_session-Triple, on_session-Inside, on_env-Triple, store-Controls,
}
use sec_search.Database.Dao.Atomic.{Sealed}

module _ (c : Primitives) (sv : Server) (law : Lawful sv) (plain : PlainData)
    (enc_key idx_key tag_key : Bytes) (version : ℕ) (t : Tables) (e : c.Env) where
  abbrev with_row : MainRow → Tables
  with_row row = effect (Statement.insert_main row) t

  -- The row without its postings.
  abbrev pub Bare : Store c sv → Type 0
  Bare s =
      (row : MainRow) × ((seal_row c sv plain enc_key idx_key tag_key version e).0 ≡ ok row)
      × At sv law (outside (with_row row)) s.session

  abbrev pub Left : Store c sv → Type 0
  Left s = At sv law (outside t) s.session ⊎ Bare s

  abbrev pub Inserted : ℕ → Store c sv → Type 0
  Inserted id s =
      (row : MainRow) × (hashes : FieldHashes c sv) × Sealed c sv law plain enc_key idx_key tag_key
        version e row hashes
      × (id ≡ t.next_id)
      × At sv law (outside (indexed c sv id hashes (with_row row))) s.session

  -- A state with the row, the library being in the state `e'`.
  abbrev WithRow : MainRow → c.Env → Store c sv → Type 0
  WithRow row e' s = At sv law (outside (with_row row)) s.session × (s.env ≡ e')

  insert_main_table-Left :
      (row : MainRow) (e' : c.Env)
      → Triple
          (λ s. At sv law (outside t) s.session × (s.env ≡ e'))
          (on_session c sv (insert_main_table sv row))
          (λ id s. WithRow row e' s × (id ≡ t.next_id))
          (λ s. At sv law (outside t) s.session)
  unfolding insert_main_table
  insert_main_table-Left row e' s k =
      Post-weaken _ _ _ _ (on_session c sv (insert_main_table sv row) s)
        (λ id s' x. ((x.0.0, x.1), x.0.1)) (λ s' f. nothing_written (law.view s'.session.world) f)
        (on_session-Triple sv law c (insert_main_table sv row) (At sv law (outside t))
          (λ id s'. At sv law (after (Statement.insert_main row) (outside t)) s' × (id ≡ t.next_id))
          (Failed sv law (outside t)) e'
          (insert_row-At sv law _ _ (Statement.insert_main row) (outside t)) s k)
    where
      nothing_written : (v : View) → Undone (outside t) v → v ≡ outside t
      nothing_written v (inl same) = same
      nothing_written v (inr (t', q, r)) = cc

  index_row-Inserted :
      (row : MainRow) (hashes : FieldHashes c sv) (id : ℕ) (e' : c.Env)
      → ((seal_row c sv plain enc_key idx_key tag_key version e).0 ≡ ok row)
      → Sealed c sv law plain enc_key idx_key tag_key version e row hashes
      → id ≡ t.next_id
      → Triple
          (WithRow row e')
          (in_transaction (on_connection c sv) (on_session c sv (index_fields c sv id hashes))
            >> pure id)
          Inserted
          Left
  index_row-Inserted row hashes id e' sealed both new s k =
      Triple-bind (WithRow row e')
        (in_transaction (on_connection c sv) (on_session c sv (index_fields c sv id hashes)))
        (λ _ s'.
          (u : Tables) × (u ≡ indexed c sv id hashes (with_row row))
          × At sv law (outside u) s'.session)
        Left (λ _. pure id) Inserted
        (λ s' k'.
          Post-weaken _ _ (λ s''. At sv law (outside (with_row row)) s''.session) Left
            (in_transaction (on_connection c sv) (on_session c sv (index_fields c sv id hashes)) s')
            (λ _ s'' x. x) (λ s'' x. inr (row, sealed, x))
            (in_transaction-Atomic (on_connection c sv) (λ s''. law.view s''.session.world)
              (λ s''. s''.env) (store-Controls sv law c)
              (λ _ u. u ≡ indexed c sv id hashes (with_row row)) (with_row row)
              (on_session c sv (index_fields c sv id hashes)) e'
              (λ s'' k''.
                Post-weaken _ _ (λ x. Open (with_row row) (law.view x.session.world)) _
                  (on_session c sv (index_fields c sv id hashes) s'')
                  (λ _ x y. (indexed c sv id hashes (with_row row), refl, y.0)) (λ x y. y)
                  (on_session-Inside sv law c (with_row row) (with_row row)
                    (indexed c sv id hashes (with_row row)) e' (index_fields c sv id hashes)
                    (index_fields-Takes sv law c id hashes (with_row row) (with_row row)) s'' k''))
              s' k'))
        (λ _ s' x. (row, hashes, both, new, rw (← x.1) x.2)) s k

  -- Behind the main row.
  abbrev rest_of_insert : ℕ → Action (Store c sv) ℕ
  rest_of_insert id =
      raise_if (id == 0) Error.insert_main_table_failed
      >> (on_env c sv (hash_fields c sv plain idx_key) >>= λ hashes.
          in_transaction (on_connection c sv) (on_session c sv (index_fields c sv id hashes))
          >> pure id)

  rest_of_insert-Inserted :
      (row : MainRow) (id : ℕ)
      → ((seal_row c sv plain enc_key idx_key tag_key version e).0 ≡ ok row)
      → Triple
          (λ s.
            WithRow row (seal_row c sv plain enc_key idx_key tag_key version e).1 s
            × (id ≡ t.next_id))
          (rest_of_insert id)
          Inserted
          Left
  rest_of_insert-Inserted row id sealed s k = elim (Bool-cases (id == 0)) [
    | inl bad ↦ rw (bad, rest_of_insert) (inr (row, sealed, k.0.0))
    | inr good ↦
        rw (good, rest_of_insert)
          (Triple-bind (λ s'. At sv law (outside (with_row row)) s'.session × (s'.env ≡ e1))
            (on_env c sv (hash_fields c sv plain idx_key))
            (λ hashes s'.
              At sv law (outside (with_row row)) s'.session
              × (s'.env ≡ (hash_fields c sv plain idx_key e1).1)
              × ((hash_fields c sv plain idx_key e1).0 ≡ ok hashes))
            Left _ Inserted
            (λ s' k'.
              Post-weaken _ _ (λ s''. At sv law (outside (with_row row)) s''.session) Left
                (on_env c sv (hash_fields c sv plain idx_key) s') (λ hashes s'' x. x)
                (λ s'' x. inr (row, sealed, x))
                (on_env-Triple sv law c (hash_fields c sv plain idx_key)
                  (At sv law (outside (with_row row))) e1 s' k'))
            (λ hashes s' k'.
              index_row-Inserted row hashes id _ sealed (sealed, k'.2) k.1 s' (k'.0, k'.1))
            s k.0)
  ]
    where
      e1 : c.Env
      e1 = (seal_row c sv plain enc_key idx_key tag_key version e).1

  -- On the tables `t`, outside a transaction, `insertData` either returns the new row's id, and
  -- the row that the crypto library made is in the table with the postings of all its hashes; or
  -- it throws, and the tables are as they were, or hold the row without any posting.
  pub insert_data_leaves :
      (s : Store c sv)
      → At sv law (outside t) s.session
      → s.env ≡ e
      → Post Inserted Left (insert_data c sv plain enc_key idx_key tag_key version s)
  unfolding insert_data
  insert_data_leaves s h he =
      Triple-bind (λ s'. At sv law (outside t) s'.session × (s'.env ≡ e))
        (on_env c sv (seal_row c sv plain enc_key idx_key tag_key version)) _ Left _ Inserted
        (λ s1 k1.
          Post-weaken _ _ (λ s'. At sv law (outside t) s'.session) Left
            (on_env c sv (seal_row c sv plain enc_key idx_key tag_key version) s1) (λ row s' x. x)
            (λ s' x. inl x)
            (on_env-Triple sv law c (seal_row c sv plain enc_key idx_key tag_key version)
              (At sv law (outside t)) e s1 k1))
        (λ row s1 k1.
          Triple-bind (λ s'. At sv law (outside t) s'.session × (s'.env ≡ _))
            (on_session c sv (insert_main_table sv row)) _ Left _ Inserted
            (λ s2 k2.
              Post-weaken _ _ (λ s'. At sv law (outside t) s'.session) Left
                (on_session c sv (insert_main_table sv row) s2) (λ id s' x. x) (λ s' x. inl x)
                (insert_main_table-Left row _ s2 k2))
            (λ id. rest_of_insert-Inserted row id k1.2) s1 (k1.0, k1.1))
        s (h, he)
