-- ===== src/Audit/Quiet.antt =====
-- The audit log never disturbs the call that writes it.
use sec_search.Prelude.{ℕ, Bool, Bytes, Result, ok, throw, Error, ◌≡◌, refl, ◌∙◌, arith}
use sec_search.Database.ConnectionPool.{Mysql, ConnectionPool, get_connection, give_back}
use sec_search.Database.ConnectionPool.Leaks.{Lent, HandsOut, get_connection-HandsOut}
use sec_search.Database.Server.{Server, Statement, write}
use sec_search.Database.Server.Closes.{Leaves-Keeps, write-Leaves}
use sec_search.Audit.{Logger, with_guard, swallowed, log_row, log_operation, log_decrypt_error}

module _ (db : Mysql) (sv : Server) where
  -- All connections but `n` are back, and `k` statements are open.
  abbrev pub Holds : ℕ → ℕ → Logger db sv → Type 0
  Holds n k s = Lent db n s.pool × (s.session.statements ≡ k)

  abbrev pub Quiet : ℕ → ℕ → Result (Unit {0}) × Logger db sv → Type 0
  Quiet n k r = (r.0 ≡ ok tt) × Holds n k r.1

  log_row-Quiet :
      (n k : ℕ) (st : Statement) (s : Logger db sv) → Holds n k s → Quiet n k (log_row db sv st s)
  unfolding log_row swallowed with_guard give_back
  log_row-Quiet n k st s h =
      returned (get_connection db s.pool) (get_connection-HandsOut db n s.pool h.0)
    where
      returned :
          (r : Result db.Conn × ConnectionPool db)
          → HandsOut db n r
          → Quiet n k (
              swallowed db sv (elim r.0 [
                | throw e ↦ (throw e, record s { pool = r.1 })
                | ok conn ↦
                    let (r', t) =
                      write sv Error.statement_init_failed Error.prepare_audit_failed
                        Error.bind_audit_failed Error.execute_audit_failed st s.session in
                    (r', record { pool = (give_back db conn r.1).1; session = t })
              ]))
      returned (throw e, p) g = (refl, (g, h.1))
      returned (ok conn, p) g = (
        refl,
        (
          omega (arith, g),
          Leaves-Keeps sv _
                (write-Leaves sv Error.statement_init_failed Error.prepare_audit_failed
                  Error.bind_audit_failed Error.execute_audit_failed st)
                s.session
              ∙ h.1,
        ),
      )

  -- Whatever the database does, `logOperation` returns without an exception, and it leaves neither
  -- a connection out of the pool nor a statement open, if all connections but `n` were back and
  -- `k` statements were open before.
  pub log_operation-Quiet :
      (n k : ℕ) (request_id operation : Bytes) (field_code candidates results duration_ms : ℕ)
      (success : Bool) (msg : Bytes) (s : Logger db sv)
      → Holds n k s
      → Quiet n k (
          log_operation db sv request_id operation field_code candidates results duration_ms success
            msg s)
  unfolding log_operation
  log_operation-Quiet n k request_id operation field_code candidates results duration_ms success msg
        s h =
      log_row-Quiet n k _ s h

  pub log_decrypt_error-Quiet :
      (n k : ℕ) (request_id : Bytes) (record_id : ℕ) (error_type : Bytes) (s : Logger db sv)
      → Holds n k s
      → Quiet n k (log_decrypt_error db sv request_id record_id error_type s)
  unfolding log_decrypt_error
  log_decrypt_error-Quiet n k request_id record_id error_type s h =
      log_row-Quiet n k (Statement.insert_decrypt_error request_id record_id error_type) s h
