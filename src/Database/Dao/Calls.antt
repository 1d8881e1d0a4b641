-- ===== src/Database/Dao/Calls.antt =====
-- The public methods of `database::DAO` that use the connection, as one type of calls.

pub mod Closes
pub mod NoLeak
use sec_search.Prelude.{ℕ, List, [], ◌∷◌, Bytes, ok}
use sec_search.Prelude.Action.{Action, pure, ◌>>=◌}
use sec_search.Crypto.Primitives.{Primitives}
use sec_search.Crypto.KeyManager.{KeyStatus}
use sec_search.Database.{FieldType, PlainData}
use sec_search.Database.Server.{Server}
use sec_search.Database.Dao.{
  query_by_exact_index_multi, query_by_fuzzy_keyword_multi, batch_select_ciphers,
}
use sec_search.Database.Dao.Keys.{
  load_all_keys_from_config, save_key_to_config, update_key_status_in_config,
  delete_key_from_config,
}
use sec_search.Database.Dao.Tasks.{
  create_rebuild_task, get_pending_rebuild_task, update_rebuild_task_progress,
  get_rebuild_task_status, get_records_for_rebuild,
}
use sec_search.Database.Dao.Records.{
  Store, on_session, insert_data, update_data, delete_data, query_by_fuzzy_keyword,
}

pub data Call : Type 0 where
  insert : PlainData → Bytes → Bytes → Bytes → ℕ → Call
  update : ℕ → PlainData → Bytes → Bytes → Bytes → ℕ → Call
  delete : ℕ → Call
  query_exact query_fuzzy : List Bytes → FieldType → Call
  query_keyword : Bytes → FieldType → Bytes → Call
  select_ciphers : List ℕ → Call
  load_keys : ℕ → Call
  save_key : ℕ → Bytes → ℕ → KeyStatus → Call
  update_key_status : ℕ → ℕ → KeyStatus → Call
  delete_key : ℕ → ℕ → Call
  create_task : ℕ → ℕ → ℕ → Call
  get_pending_task : Call
  update_progress : ℕ → ℕ → ℕ → ℕ → ℕ → Call
  get_task_status : ℕ → Call
  get_records : ℕ → ℕ → ℕ → Call

module _ (c : Primitives) (sv : Server) where
  -- A call, its value forgotten.
  abbrev pub only_effect : {A : Type 0} → Action (Store c sv) A → Action (Store c sv) (Unit {0})
  only_effect m = m >>= λ a. pure tt

  unfoldable pub run_call : Call → Action (Store c sv) (Unit {0})
  run_call (Call.insert plain ek ik tk v) = only_effect (insert_data c sv plain ek ik tk v)
  run_call (Call.update id plain ek ik tk v) = only_effect (update_data c sv id plain ek ik tk v)
  run_call (Call.delete id) = only_effect (on_session c sv (delete_data sv id))
  run_call (Call.query_exact hs t) =
      only_effect (on_session c sv (query_by_exact_index_multi sv hs t))
  run_call (Call.query_fuzzy hs t) =
      only_effect (on_session c sv (query_by_fuzzy_keyword_multi sv hs t))
  run_call (Call.query_keyword k t ik) = only_effect (query_by_fuzzy_keyword c sv k t ik)
  run_call (Call.select_ciphers ids) = only_effect (on_session c sv (batch_select_ciphers sv ids))
  run_call (Call.load_keys t) = only_effect (on_session c sv (load_all_keys_from_config sv t))
  run_call (Call.save_key t key v status) = on_session c sv (save_key_to_config sv t key v status)
  run_call (Call.update_key_status t v status) =
      on_session c sv (update_key_status_in_config sv t v status)
  run_call (Call.delete_key t v) = on_session c sv (delete_key_from_config sv t v)
  run_call (Call.create_task f a b) = only_effect (on_session c sv (create_rebuild_task sv f a b))
  run_call Call.get_pending_task = only_effect (on_session c sv (get_pending_rebuild_task sv))
  run_call (Call.update_progress id last good bad status) =
      on_session c sv (update_rebuild_task_progress sv id last good bad status)
  run_call (Call.get_task_status id) = only_effect (on_session c sv (get_rebuild_task_status sv id))
  run_call (Call.get_records a b n) =
      only_effect (on_session c sv (get_records_for_rebuild sv a b n))

  -- The next call is made whether or not the one before has thrown.
  unfoldable pub run_calls : List Call → Store c sv → Store c sv
  unfolding run_call
  run_calls [] s = s
  run_calls (call ∷ calls) s = run_calls calls (run_call call s).1
