-- ===== src/Database/Dao/Calls/Closes.antt =====
-- No call of src/database/dao.cpp leaves a statement open.
use sec_search.Prelude.{
  ℕ, List, [], ◌∷◌, Bytes, Option, none, some, Result, ok, throw, Error, ◌≡◌, refl, ◌∙◌, length,
  arith,
}
use sec_search.Prelude.Action.{Action, pure, lift, ◌>>◌}
use sec_search.Prelude.Triple.{Keeps, Keeps-bind}
use sec_search.Database.{FieldType, RebuildTaskInfo}
use sec_search.Database.Server.{
  Server, Session, Statement, Control, real_query, open_statement, check_call, send,
  close_statement, select_rows, cipher_buffers, key_buffers,
}
use sec_search.Database.Server.Closes.{
  Leaves, bind-Leaves, pure-Leaves, close_statement-Leaves, check_call-Leaves,
  open_statement-Leaves, send-Leaves, write-Leaves, select_rows-Leaves, Leaves-Keeps,
}
use sec_search.Database.Transaction.{in_transaction}
use sec_search.Database.Transaction.Keeps.{in_transaction-Keeps}
use sec_search.Database.Dao.{
  insert_fuzzy_index, delete_fuzzy_index, query_by_exact_index_multi, query_by_fuzzy_keyword_multi,
  batch_select_ciphers,
}
use sec_search.Database.Dao.Rows.{records_of_rows}
use sec_search.Database.Dao.Keys.{none_on_failure, load_all_keys_from_config}
use sec_search.Database.Dao.Tasks.{
  fetch_row, fetch_one, select_pending, nothing_on_failure, task_or_throw, get_pending_rebuild_task,
  get_rebuild_task_status, get_records_for_rebuild,
}
use sec_search.Database.Dao.Records.{delete_rows, delete_data}

module _ (sv : Server) where
  abbrev pub KeepsOpen : {A : Type 0} → Action (Session sv) A → Type 0
  KeepsOpen m = Keeps (λ s. s.statements) m

  pub insert_fuzzy_index-KeepsOpen :
      (id : ℕ) (t : FieldType) (hs : List Bytes) → KeepsOpen (insert_fuzzy_index sv id t hs)
  unfolding insert_fuzzy_index
  insert_fuzzy_index-KeepsOpen id t [] s = refl
  insert_fuzzy_index-KeepsOpen id t (h ∷ hs) s = Leaves-Keeps sv _ (write-Leaves sv _ _ _ _ _) s

  pub delete_fuzzy_index-KeepsOpen : (id : ℕ) → KeepsOpen (delete_fuzzy_index sv id)
  unfolding delete_fuzzy_index
  delete_fuzzy_index-KeepsOpen id = Leaves-Keeps sv _ (write-Leaves sv _ _ _ _ _)

  pub real_query-KeepsOpen : (text : Control) → KeepsOpen (real_query sv text)
  unfolding real_query
  real_query-KeepsOpen text s = refl

  pub delete_data-KeepsOpen : (id : ℕ) → KeepsOpen (delete_data sv id)
  unfolding delete_data delete_rows
  delete_data-KeepsOpen id =
      Keeps-bind _ (in_transaction (real_query sv) (delete_rows sv id)) _
        (in_transaction-Keeps (real_query sv) _ real_query-KeepsOpen (delete_rows sv id) (
          Keeps-bind _ (delete_fuzzy_index sv id) _ (delete_fuzzy_index-KeepsOpen id)
            (λ _. Leaves-Keeps sv _ (write-Leaves sv _ _ _ _ _))))
        (λ _ s. refl)

  pub query_by_exact_index_multi-KeepsOpen :
      (hs : List Bytes) (t : FieldType) → KeepsOpen (query_by_exact_index_multi sv hs t)
  unfolding query_by_exact_index_multi
  query_by_exact_index_multi-KeepsOpen [] t s = refl
  query_by_exact_index_multi-KeepsOpen (h ∷ hs) t s =
      Leaves-Keeps sv _ (select_rows-Leaves sv _ _ [] (Statement.select_exact t (h ∷ hs))) s

  pub query_by_fuzzy_keyword_multi-KeepsOpen :
      (hs : List Bytes) (t : FieldType) → KeepsOpen (query_by_fuzzy_keyword_multi sv hs t)
  unfolding query_by_fuzzy_keyword_multi
  query_by_fuzzy_keyword_multi-KeepsOpen [] t s = refl
  query_by_fuzzy_keyword_multi-KeepsOpen (h ∷ hs) t s =
      Leaves-Keeps sv _
        (select_rows-Leaves sv _ _ [] (Statement.select_fuzzy t (h ∷ hs) (length (h ∷ hs)))) s

  pub batch_select_ciphers-KeepsOpen : (ids : List ℕ) → KeepsOpen (batch_select_ciphers sv ids)
  unfolding batch_select_ciphers
  batch_select_ciphers-KeepsOpen [] s = refl
  batch_select_ciphers-KeepsOpen (id ∷ ids) s =
      Keeps-bind _
        (select_rows sv Error.prepare_batch_select_failed Error.use_of_closed_statement
          cipher_buffers (Statement.select_ciphers (id ∷ ids)))
        (λ rows. lift (records_of_rows rows))
        (Leaves-Keeps sv _
          (select_rows-Leaves sv _ _ cipher_buffers (Statement.select_ciphers (id ∷ ids))))
        (λ rows s'. refl) s

  module _ {A : Type 0} where
    none_on_failure-statements :
        (r : Result (List A) × Session sv) → (none_on_failure r).1.statements ≡ r.1.statements
    unfolding none_on_failure
    none_on_failure-statements (ok rows, s) = refl
    none_on_failure-statements (throw e, s) = refl

    nothing_on_failure-statements :
        (r : Result (Option A) × Session sv) → (nothing_on_failure r).1.statements ≡ r.1.statements
    unfolding nothing_on_failure
    nothing_on_failure-statements (ok row, s) = refl
    nothing_on_failure-statements (throw e, s) = refl

  pub load_all_keys_from_config-KeepsOpen : (t : ℕ) → KeepsOpen (load_all_keys_from_config sv t)
  unfolding load_all_keys_from_config
  load_all_keys_from_config-KeepsOpen t =
      Keeps-bind _
        (λ s. none_on_failure (
          select_rows sv Error.prepare_select_keys_failed Error.prepare_select_keys_failed
            key_buffers (Statement.select_keys t) s))
        _
        (λ s.
          none_on_failure-statements _
          ∙ Leaves-Keeps sv _ (select_rows-Leaves sv _ _ key_buffers (Statement.select_keys t)) s)
        (λ rows s. refl)

  fetch_one-Leaves : (st : Statement) (stmt : sv.Stmt) → Leaves sv 1 0 (fetch_one sv st stmt)
  unfolding fetch_one
  fetch_one-Leaves st stmt =
      bind-Leaves sv 1 1 0 (fetch_row sv st stmt) (λ r. close_statement sv stmt >> pure r)
        (λ k s h. h)
        (λ r.
          bind-Leaves sv 1 0 0 (close_statement sv stmt) (λ _. pure r)
            (close_statement-Leaves sv stmt) (λ _. pure-Leaves sv 0 r))

  select_pending-Leaves : Leaves sv 0 0 (select_pending sv)
  unfolding select_pending
  select_pending-Leaves =
      bind-Leaves sv 0 1 0 (open_statement sv _ _ Statement.select_pending_task) _
        (open_statement-Leaves sv _ _ Statement.select_pending_task)
        λ stmt.
          bind-Leaves sv 1 1 0
            (check_call sv _ stmt (sv.execute stmt Statement.select_pending_task)) _
            (check_call-Leaves sv _ stmt (sv.execute stmt Statement.select_pending_task))
            λ _.
              bind-Leaves sv 1 1 0 (check_call sv _ stmt (sv.bind_result stmt [])) _
                (check_call-Leaves sv _ stmt (sv.bind_result stmt []))
                (λ _. fetch_one-Leaves Statement.select_pending_task stmt)

  pub get_pending_rebuild_task-KeepsOpen : KeepsOpen (get_pending_rebuild_task sv)
  unfolding get_pending_rebuild_task
  get_pending_rebuild_task-KeepsOpen s =
      nothing_on_failure-statements (select_pending sv s)
      ∙ Leaves-Keeps sv (select_pending sv) select_pending-Leaves s

  pub get_rebuild_task_status-KeepsOpen : (id : ℕ) → KeepsOpen (get_rebuild_task_status sv id)
  unfolding get_rebuild_task_status task_or_throw
  get_rebuild_task_status-KeepsOpen id = Leaves-Keeps sv _ (
      bind-Leaves sv 0 1 0 (open_statement sv _ _ (Statement.select_task id)) _
        (open_statement-Leaves sv _ _ (Statement.select_task id))
        λ stmt.
          bind-Leaves sv 1 1 0 (send sv _ _ stmt (Statement.select_task id)) _
            (send-Leaves sv _ _ stmt (Statement.select_task id))
            λ _.
              bind-Leaves sv 1 1 0 (check_call sv _ stmt (sv.bind_result stmt [])) _
                (check_call-Leaves sv _ stmt (sv.bind_result stmt []))
                λ _.
                  bind-Leaves sv 1 0 0 (fetch_one sv (Statement.select_task id) stmt) _
                    (fetch_one-Leaves (Statement.select_task id) stmt) found)
    where
      found : (r : Option RebuildTaskInfo) → Leaves sv 0 0 (λ s. (task_or_throw r, s))
      found none k s h = omega (arith, h)
      found (some info) k s h = h

  pub get_records_for_rebuild-KeepsOpen : (a b n : ℕ) → KeepsOpen (get_records_for_rebuild sv a b n)
  unfolding get_records_for_rebuild
  get_records_for_rebuild-KeepsOpen a b n =
      Keeps-bind _ (select_rows sv _ _ cipher_buffers (Statement.select_range a b n)) _
        (Leaves-Keeps sv _
          (select_rows-Leaves sv _ _ cipher_buffers (Statement.select_range a b n)))
        (λ rows s. refl)
