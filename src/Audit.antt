-- ===== src/Audit.antt =====
-- `audit::AuditLogger` of src/audit/audit_logger.cpp, without its warnings on the console.
pub mod Quiet
mod Tests
use sec_search.Prelude.{
  ℕ, Bool, true, false, List, [], ◌∷◌, Option, none, some, Bytes, Result, ok, throw, Error,
  if◌then◌else◌,
}
use sec_search.Prelude.Action.{Action, pure}
use sec_search.Database.ConnectionPool.{Mysql, ConnectionPool, get_connection, give_back}
use sec_search.Database.Server.{Server, Session, Statement, AuditRow, write}
use sec_search.Query.Records.{is_empty}

-- The constructor; a null pointer is `none`.
unfoldable pub new_logger : {P : Type 0} → Option P → Result P
new_logger none = throw Error.audit_pool_null
new_logger (some pool) = ok pool

-- An empty message is written as NULL.
unfoldable pub audit_row : Bytes → Bytes → ℕ → ℕ → ℕ → ℕ → Bool → Bytes → AuditRow
unfolding is_empty
audit_row request_id operation field_code candidate_count result_count duration_ms success msg =
    record {
      request_id = request_id;
      operation = operation;
      field_code = field_code;
      candidate_count = candidate_count;
      result_count = result_count;
      duration_ms = duration_ms;
      status = if success then 1 else 0;
      error_msg = if is_empty msg then none else some msg;
    }

module _ (db : Mysql) (sv : Server) where
  -- The pool, and the statements of the connections that it lends.
  pub record Logger : Type 0 where
    pub pool : ConnectionPool db
    pub session : Session sv

  -- `auto guard = getConnection(); …`, with the guard's destructor on every path.
  unfoldable pub with_guard : Action (Session sv) (Unit {0}) → Action Logger (Unit {0})
  with_guard body s =
      let (r, p) = get_connection db s.pool in
      elim r [
        | throw e ↦ (throw e, record s { pool = p })
        | ok conn ↦
            let (r', t) = body s.session in
            (r', record { pool = (give_back db conn p).1; session = t })
      ]

  -- The `try` block around it: a failure is printed, and the call returns.
  unfoldable pub swallowed : Result (Unit {0}) × Logger → Result (Unit {0}) × Logger
  swallowed (r, s) = (ok tt, s)

  unfoldable pub log_row : Statement → Action Logger (Unit {0})
  unfolding with_guard swallowed
  log_row st s = swallowed (
      with_guard
        (write sv Error.statement_init_failed Error.prepare_audit_failed Error.bind_audit_failed
          Error.execute_audit_failed st)
        s)

  unfoldable pub log_operation :
      Bytes → Bytes → ℕ → ℕ → ℕ → ℕ → Bool → Bytes → Action Logger (Unit {0})
  unfolding log_row audit_row
  log_operation request_id operation field_code candidates results duration_ms success msg =
      log_row (
        Statement.insert_audit
          (audit_row request_id operation field_code candidates results duration_ms success msg))

  unfoldable pub log_decrypt_error : Bytes → ℕ → Bytes → Action Logger (Unit {0})
  unfolding log_row
  log_decrypt_error request_id record_id error_type =
      log_row (Statement.insert_decrypt_error request_id record_id error_type)
