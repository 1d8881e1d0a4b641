-- ===== src/Database/Dao/Calls/NoLeak.antt =====
-- No call of src/database/dao.cpp leaves a statement open: all the calls.
use sec_search.Prelude.{ℕ, List, [], ◌∷◌, Bytes, Error, ◌≡◌, refl, ◌∙◌, Bool, true, false, ◌==◌}
use sec_search.Prelude.Action.{Action, pure, raise_if}
use sec_search.Prelude.Triple.{Keeps, Keeps-bind}
use sec_search.Crypto.Primitives.{Primitives}
use sec_search.Database.{FieldType, name, phone, address, PlainData}
use sec_search.Database.Server.{Server, Session, Statement, real_query, write}
use sec_search.Database.Server.Closes.{write-Leaves, insert_row-Leaves, Leaves-Keeps}
use sec_search.Database.Transaction.{in_transaction}
use sec_search.Database.Transaction.Keeps.{in_transaction-Keeps}
use sec_search.Database.Dao.{
  insert_main_table, insert_fuzzy_index, delete_fuzzy_index, query_by_exact_index_multi,
  query_by_fuzzy_keyword_multi, batch_select_ciphers,
}
use sec_search.Database.Dao.Keys.{
  load_all_keys_from_config, save_key_to_config, update_key_status_in_config,
  delete_key_from_config,
}
use sec_search.Database.Dao.Tasks.{
  create_rebuild_task, get_pending_rebuild_task, update_rebuild_task_progress,
  get_rebuild_task_status, get_records_for_rebuild,
}
use sec_search.Database.Dao.Records.{
  FieldHashes, Store, on_env, on_session, on_connection, seal_row, hash_fields, hash_tokens,
  index_fields, insert_data, update_rows, update_data, delete_data, query_by_fuzzy_keyword,
}
use sec_search.Database.Dao.Calls.Closes.{
  KeepsOpen, insert_fuzzy_index-KeepsOpen, delete_fuzzy_index-KeepsOpen, real_query-KeepsOpen,
  delete_data-KeepsOpen, query_by_exact_index_multi-KeepsOpen,
  query_by_fuzzy_keyword_multi-KeepsOpen, batch_select_ciphers-KeepsOpen,
  load_all_keys_from_config-KeepsOpen, get_pending_rebuild_task-KeepsOpen,
  get_rebuild_task_status-KeepsOpen, get_records_for_rebuild-KeepsOpen,
}
use sec_search.Query.Bigram.{split_bigram}
use sec_search.Database.Dao.Calls.{Call, only_effect, run_call, run_calls}

module _ (c : Primitives) (sv : Server) where
  abbrev open_statements : Store c sv → ℕ
  open_statements s = s.session.statements

  abbrev StoreKeeps : {A : Type 0} → Action (Store c sv) A → Type 0
  StoreKeeps m = Keeps open_statements m

  on_env-StoreKeeps : {A : Type 0} (m : Action c.Env A) → StoreKeeps (on_env c sv m)
  on_env-StoreKeeps m s = refl

  on_session-StoreKeeps :
      {A : Type 0} (m : Action (Session sv) A) → KeepsOpen sv m → StoreKeeps (on_session c sv m)
  on_session-StoreKeeps m h s = h s.session

  only_effect-StoreKeeps :
      {A : Type 0} (m : Action (Store c sv) A) → StoreKeeps m → StoreKeeps (only_effect c sv m)
  only_effect-StoreKeeps m h = Keeps-bind open_statements m (λ a. pure tt) h (λ a s. refl)

  in_transaction-StoreKeeps :
      (m : Action (Store c sv) (Unit {0}))
      → StoreKeeps m
      → StoreKeeps (in_transaction (on_connection c sv) m)
  in_transaction-StoreKeeps =
      in_transaction-Keeps (on_connection c sv) open_statements
        (λ text s. real_query-KeepsOpen sv text s.session)

  pub index_fields-KeepsOpen :
      (id : ℕ) (hashes : FieldHashes c sv) → KeepsOpen sv (index_fields c sv id hashes)
  unfolding index_fields
  index_fields-KeepsOpen id hashes =
      Keeps-bind _ (insert_fuzzy_index sv id name hashes.name_hashes) _
        (insert_fuzzy_index-KeepsOpen sv id name hashes.name_hashes)
        λ _.
          Keeps-bind _ (insert_fuzzy_index sv id phone hashes.phone_hashes) _
            (insert_fuzzy_index-KeepsOpen sv id phone hashes.phone_hashes)
            (λ _. insert_fuzzy_index-KeepsOpen sv id address hashes.addr_hashes)

  insert_data-StoreKeeps :
      (plain : PlainData) (ek ik tk : Bytes) (v : ℕ)
      → StoreKeeps (insert_data c sv plain ek ik tk v)
  unfolding insert_data insert_main_table
  insert_data-StoreKeeps plain ek ik tk v =
      Keeps-bind open_statements (on_env c sv (seal_row c sv plain ek ik tk v)) _
        (on_env-StoreKeeps (seal_row c sv plain ek ik tk v))
        λ row.
          Keeps-bind open_statements (on_session c sv (insert_main_table sv row)) _
            (on_session-StoreKeeps (insert_main_table sv row)
              (Leaves-Keeps sv _ (insert_row-Leaves sv _ _ (Statement.insert_main row))))
            λ id.
              Keeps-bind open_statements (raise_if (id == 0) Error.insert_main_table_failed) _
                (raised (id == 0))
                λ _.
                  Keeps-bind open_statements (on_env c sv (hash_fields c sv plain ik)) _
                    (on_env-StoreKeeps (hash_fields c sv plain ik))
                    λ hashes.
                      Keeps-bind open_statements _ (λ _. pure id)
                        (in_transaction-StoreKeeps _ (
                          on_session-StoreKeeps (index_fields c sv id hashes)
                            (index_fields-KeepsOpen id hashes)))
                        (λ _ s. refl)
    where
      raised : (b : Bool) → StoreKeeps (raise_if b Error.insert_main_table_failed)
      raised true s = refl
      raised false s = refl

  update_data-StoreKeeps :
      (id : ℕ) (plain : PlainData) (ek ik tk : Bytes) (v : ℕ)
      → StoreKeeps (update_data c sv id plain ek ik tk v)
  unfolding update_data update_rows
  update_data-StoreKeeps id plain ek ik tk v =
      Keeps-bind open_statements
        (in_transaction (on_connection c sv) (update_rows c sv id plain ek ik tk v)) _
        (in_transaction-StoreKeeps (update_rows c sv id plain ek ik tk v) (
          Keeps-bind open_statements (on_session c sv (delete_fuzzy_index sv id)) _
            (on_session-StoreKeeps (delete_fuzzy_index sv id) (delete_fuzzy_index-KeepsOpen sv id))
            λ _.
              Keeps-bind open_statements (on_env c sv (seal_row c sv plain ek ik tk v)) _
                (on_env-StoreKeeps (seal_row c sv plain ek ik tk v))
                λ row.
                  Keeps-bind open_statements _ _
                    (on_session-StoreKeeps (write sv _ _ _ _ (Statement.update_main row id))
                      (Leaves-Keeps sv _ (write-Leaves sv _ _ _ _ (Statement.update_main row id))))
                    λ _.
                      Keeps-bind open_statements (on_env c sv (hash_fields c sv plain ik)) _
                        (on_env-StoreKeeps (hash_fields c sv plain ik))
                        λ hashes.
                          on_session-StoreKeeps (index_fields c sv id hashes)
                            (index_fields-KeepsOpen id hashes)))
        (λ _ s. refl)

  query_by_fuzzy_keyword-StoreKeeps :
      (keyword : Bytes) (t : FieldType) (ik : Bytes)
      → StoreKeeps (query_by_fuzzy_keyword c sv keyword t ik)
  unfolding query_by_fuzzy_keyword
  query_by_fuzzy_keyword-StoreKeeps keyword t ik =
      Keeps-bind open_statements (on_env c sv (hash_tokens c sv (split_bigram keyword) ik)) _
        (on_env-StoreKeeps (hash_tokens c sv (split_bigram keyword) ik))
        λ hashes.
          on_session-StoreKeeps (query_by_fuzzy_keyword_multi sv hashes t)
            (query_by_fuzzy_keyword_multi-KeepsOpen sv hashes t)

  -- A call on the session, its value forgotten.
  session_call-StoreKeeps :
      {A : Type 0} (m : Action (Session sv) A)
      → KeepsOpen sv m
      → StoreKeeps (only_effect c sv (on_session c sv m))
  session_call-StoreKeeps m h =
      only_effect-StoreKeeps (on_session c sv m) (on_session-StoreKeeps m h)

  one_write-StoreKeeps :
      (missing failed unbound unsent : Error) (st : Statement)
      → StoreKeeps (on_session c sv (write sv missing failed unbound unsent st))
  one_write-StoreKeeps missing failed unbound unsent st =
      on_session-StoreKeeps (write sv missing failed unbound unsent st)
        (Leaves-Keeps sv _ (write-Leaves sv missing failed unbound unsent st))

  run_call-StoreKeeps : (call : Call) → StoreKeeps (run_call c sv call)
  unfolding run_call save_key_to_config update_key_status_in_config delete_key_from_config
      create_rebuild_task update_rebuild_task_progress
  run_call-StoreKeeps (Call.insert plain ek ik tk v) =
      only_effect-StoreKeeps _ (insert_data-StoreKeeps plain ek ik tk v)
  run_call-StoreKeeps (Call.update id plain ek ik tk v) =
      only_effect-StoreKeeps _ (update_data-StoreKeeps id plain ek ik tk v)
  run_call-StoreKeeps (Call.delete id) =
      session_call-StoreKeeps (delete_data sv id) (delete_data-KeepsOpen sv id)
  run_call-StoreKeeps (Call.query_exact hs t) =
      session_call-StoreKeeps (query_by_exact_index_multi sv hs t)
        (query_by_exact_index_multi-KeepsOpen sv hs t)
  run_call-StoreKeeps (Call.query_fuzzy hs t) =
      session_call-StoreKeeps (query_by_fuzzy_keyword_multi sv hs t)
        (query_by_fuzzy_keyword_multi-KeepsOpen sv hs t)
  run_call-StoreKeeps (Call.query_keyword k t ik) =
      only_effect-StoreKeeps _ (query_by_fuzzy_keyword-StoreKeeps k t ik)
  run_call-StoreKeeps (Call.select_ciphers ids) =
      session_call-StoreKeeps (batch_select_ciphers sv ids) (batch_select_ciphers-KeepsOpen sv ids)
  run_call-StoreKeeps (Call.load_keys t) =
      session_call-StoreKeeps (load_all_keys_from_config sv t)
        (load_all_keys_from_config-KeepsOpen sv t)
  run_call-StoreKeeps (Call.save_key t key v status) =
      on_session-StoreKeeps (save_key_to_config sv t key v status) (
        in_transaction-Keeps (real_query sv) _ (real_query-KeepsOpen sv) _
          (Leaves-Keeps sv _ (write-Leaves sv _ _ _ _ _)))
  run_call-StoreKeeps (Call.update_key_status t v status) = one_write-StoreKeeps _ _ _ _ _
  run_call-StoreKeeps (Call.delete_key t v) = one_write-StoreKeeps _ _ _ _ _
  run_call-StoreKeeps (Call.create_task f a b) =
      session_call-StoreKeeps (create_rebuild_task sv f a b)
        (Leaves-Keeps sv _ (insert_row-Leaves sv _ _ (Statement.insert_task f a b)))
  run_call-StoreKeeps Call.get_pending_task =
      session_call-StoreKeeps (get_pending_rebuild_task sv) (get_pending_rebuild_task-KeepsOpen sv)
  run_call-StoreKeeps (Call.update_progress id last good bad status) =
      one_write-StoreKeeps _ _ _ _ _
  run_call-StoreKeeps (Call.get_task_status id) =
      session_call-StoreKeeps (get_rebuild_task_status sv id)
        (get_rebuild_task_status-KeepsOpen sv id)
  run_call-StoreKeeps (Call.get_records a b n) =
      session_call-StoreKeeps (get_records_for_rebuild sv a b n)
        (get_records_for_rebuild-KeepsOpen sv a b n)

  -- However the server answers, and whatever throws, a sequence of calls of the DAO leaves as many
  -- statements open as there were before it.
  pub run_calls_close :
      (calls : List Call) (s : Store c sv)
      → (run_calls c sv calls s).session.statements ≡ s.session.statements
  unfolding run_calls
  run_calls_close [] s = refl
  run_calls_close (call ∷ calls) s =
      run_calls_close calls (run_call c sv call s).1 ∙ run_call-StoreKeeps call s
