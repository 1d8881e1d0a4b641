-- ===== src/Database/Dao/Tasks.antt =====
-- The table index_rebuild_task in `database::DAO` of src/database/dao.cpp. A TINYINT is fetched
-- into the low byte of an `int` that nothing has set; here the other bytes are 0.
use sec_search.Prelude.{ℕ, List, [], map, Option, none, some, Result, ok, throw, Error}
use sec_search.Prelude.Action.{Action, pure, ◌>>=◌, ◌>>◌}
use sec_search.Database.{RebuildTaskInfo, RebuildRawRecord}
use sec_search.Database.Server.{
  Server, Session, Statement, Row, cipher_buffers, write, insert_row, select_rows, open_statement,
  send, check_call, close_statement,
}
use sec_search.Database.Dao.Rows.{raw_record}

-- `return std::nullopt;` where other calls throw.
unfoldable pub nothing_on_failure : {S A : Type 0} → Result (Option A) × S → Result (Option A) × S
nothing_on_failure (ok r, s) = (ok r, s)
nothing_on_failure (throw e, s) = (ok none, s)

unfoldable pub task_or_throw : Option RebuildTaskInfo → Result RebuildTaskInfo
task_or_throw none = throw Error.task_not_found
task_or_throw (some info) = ok info

module _ (sv : Server) where
  abbrev pub fetch_row : (st : Statement) → sv.Stmt → Action (Session sv) (Option (Row st))
  fetch_row st stmt s = let (r, w) = sv.fetch st stmt s.world in (ok r, record s { world = w })

  -- A single fetch, and the close on either branch.
  unfoldable pub fetch_one : (st : Statement) → sv.Stmt → Action (Session sv) (Option (Row st))
  fetch_one st stmt = do r ← fetch_row st stmt; close_statement sv stmt; pure r

  unfoldable pub create_rebuild_task : ℕ → ℕ → ℕ → Action (Session sv) ℕ
  create_rebuild_task field_code start_id end_id =
      insert_row sv Error.prepare_create_task_failed Error.use_of_closed_statement
        (Statement.insert_task field_code start_id end_id)

  -- The statement has no placeholders, so nothing is bound.
  unfoldable pub select_pending : Action (Session sv) (Option RebuildTaskInfo)
  unfolding fetch_one
  select_pending = do
    let st = Statement.select_pending_task
    stmt ← open_statement sv Error.prepare_get_task_failed Error.prepare_get_task_failed st
    check_call sv Error.prepare_get_task_failed stmt (sv.execute stmt st)
    check_call sv Error.prepare_get_task_failed stmt (sv.bind_result stmt [])
    fetch_one st stmt

  unfoldable pub get_pending_rebuild_task : Action (Session sv) (Option RebuildTaskInfo)
  unfolding nothing_on_failure select_pending
  get_pending_rebuild_task s = nothing_on_failure (select_pending s)

  unfoldable pub update_rebuild_task_progress : ℕ → ℕ → ℕ → ℕ → ℕ → Action (Session sv) (Unit {0})
  update_rebuild_task_progress task_id last_id success_count fail_count status =
      write sv Error.prepare_update_task_failed Error.prepare_update_task_failed
        Error.use_of_closed_statement Error.use_of_closed_statement
        (Statement.update_task task_id last_id success_count fail_count status)

  unfoldable pub get_rebuild_task_status : ℕ → Action (Session sv) RebuildTaskInfo
  unfolding fetch_one task_or_throw
  get_rebuild_task_status task_id = do
    let st = Statement.select_task task_id
    stmt ← open_statement sv Error.prepare_get_task_failed Error.prepare_get_task_failed st
    send sv Error.use_of_closed_statement Error.use_of_closed_statement stmt st
    check_call sv Error.use_of_closed_statement stmt (sv.bind_result stmt [])
    r ← fetch_one st stmt
    (λ s. (task_or_throw r, s))

  unfoldable pub get_records_for_rebuild : ℕ → ℕ → ℕ → Action (Session sv) (List RebuildRawRecord)
  get_records_for_rebuild start_id end_id limit =
      select_rows sv Error.prepare_get_records_failed Error.use_of_closed_statement cipher_buffers
        (Statement.select_range start_id end_id limit)
      >>= λ rows. pure (map (λ row. raw_record row) rows)
