-- ===== src/Database/Server.antt =====
-- The prepared statements of src/database/dao.cpp and src/audit, and the calls of the MySQL
-- client library that run them, the library being a parameter.
pub mod Closes
pub mod Tables
pub mod Lawful
pub mod Effects
pub mod Answers
pub mod Reads
pub mod Complete
pub mod Memory
use sec_search.Prelude.{
  ℕ, zero, suc, ◌+◌, ◌-◌, Bool, true, false, List, [], ◌∷◌, Option, none, some, Bytes, ok, throw,
  Error, if◌then◌else◌,
}
use sec_search.Prelude.Action.{Action, pure, ◌>>=◌, ◌>>◌}
use sec_search.Crypto.KeyManager.{KeyStatus}
use sec_search.Database.{FieldType, RebuildTaskInfo}

-- The three columns of a field in `sensitive_data`.
pub record FieldColumns : Type 0 where
  pub cipher : Bytes
  pub blind : Bytes
  pub tag : Bytes

pub record MainRow : Type 0 where
  pub enc_key_version : ℕ
  pub name_field : FieldColumns
  pub phone_field : FieldColumns
  pub address_field : FieldColumns

pub record KeyRow : Type 0 where
  pub key_type : ℕ
  pub key_cipher : Bytes
  pub key_version : ℕ
  pub status : KeyStatus

pub record AuditRow : Type 0 where
  pub request_id : Bytes
  pub operation : Bytes
  pub field_code : ℕ
  pub candidate_count : ℕ
  pub result_count : ℕ
  pub duration_ms : ℕ
  pub status : ℕ
  pub error_msg : Option Bytes

-- The SQL texts, each with the values that its placeholders are bound to.
pub data Statement : Type 0 where
  -- INSERT INTO sensitive_data …, UPDATE sensitive_data SET … WHERE id = ?, and the others.
  insert_main : MainRow → Statement
  update_main : MainRow → ℕ → Statement
  update_blind : FieldType → Bytes → ℕ → Statement
  delete_main : ℕ → Statement
  -- INSERT IGNORE INTO fuzzy_inverted … VALUES (?, ?, ?), …, and the deletes by id, and by id and
  -- field.
  insert_fuzzy : ℕ → FieldType → List Bytes → Statement
  delete_fuzzy : ℕ → Statement
  delete_field_fuzzy : ℕ → FieldType → Statement
  -- SELECT id … WHERE … IN (…), and the same with HAVING COUNT(DISTINCT token_hash) = ?.
  select_exact : FieldType → List Bytes → Statement
  select_fuzzy : FieldType → List Bytes → ℕ → Statement
  select_ciphers : List ℕ → Statement
  -- … WHERE id >= ? AND id <= ? ORDER BY id ASC LIMIT ?.
  select_range : ℕ → ℕ → ℕ → Statement
  -- The table key_config; `save_key` is INSERT … ON DUPLICATE KEY UPDATE ….
  select_keys : ℕ → Statement
  save_key : KeyRow → Statement
  update_key_status : ℕ → ℕ → KeyStatus → Statement
  delete_key : ℕ → ℕ → Statement
  -- The table index_rebuild_task.
  insert_task : ℕ → ℕ → ℕ → Statement
  select_pending_task : Statement
  select_task : ℕ → Statement
  update_task : ℕ → ℕ → ℕ → ℕ → ℕ → Statement
  fail_task : ℕ → ℕ → Statement
  -- The two logs.
  insert_audit : AuditRow → Statement
  insert_decrypt_error : Bytes → ℕ → Bytes → Statement

-- What a SELECT on `sensitive_data` gives of a field; a NULL is `none`.
pub record SelectedField : Type 0 where
  pub cipher : Option Bytes
  pub tag : Option Bytes

pub record SelectedRow : Type 0 where
  pub id : ℕ
  pub enc_key_version : ℕ
  pub name_field : SelectedField
  pub phone_field : SelectedField
  pub address_field : SelectedField

-- What `mysql_stmt_fetch` writes into the buffers of a statement.
abbrev pub Row : Statement → Type 0
Row (Statement.select_exact t hashes) = ℕ
Row (Statement.select_fuzzy t hashes n) = ℕ
Row (Statement.select_ciphers ids) = SelectedRow
Row (Statement.select_range a b n) = SelectedRow
Row (Statement.select_keys t) = KeyRow
Row Statement.select_pending_task = RebuildTaskInfo
Row (Statement.select_task id) = RebuildTaskInfo
Row st = ⊥

-- The texts that `mysql_real_query` is called with.
pub data Control : Type 0 where
  start_transaction commit rollback : Control

-- The calls `mysql_stmt_init` to `mysql_stmt_close`, and `mysql_real_query`, on one connection
-- (true is 0). What the library keeps of a statement's text and values is the argument
-- `Statement`; `num_rows` is how many rows of its result it still has.
pub record Server : Type 1 where
  pub World : Type 0
  pub Stmt : Type 0
  pub init : World → Option Stmt × World
  pub prepare : Stmt → Statement → World → Bool × World
  pub bind_param : Stmt → Statement → World → Bool × World
  pub execute : Stmt → Statement → World → Bool × World
  pub insert_id : Stmt → World → ℕ
  pub bind_result : Stmt → List ℕ → World → Bool × World
  pub num_rows : Statement → Stmt → World → ℕ
  pub fetch : (st : Statement) → Stmt → World → Option (Row st) × World
  pub close : Stmt → World → World
  pub real_query : Control → World → Bool × World

-- The connection, and the number of statements that are open on it.
pub record Session (sv : Server) : Type 0 where
  pub world : sv.World
  pub statements : ℕ

-- The `buffer_length`s of the text columns that a statement fetches.
abbrev pub cipher_buffers : List ℕ
cipher_buffers = 4096 ∷ 65 ∷ 4096 ∷ 65 ∷ 4096 ∷ 65 ∷ []

abbrev pub key_buffers : List ℕ
key_buffers = 4096 ∷ []

module _ (sv : Server) where
  unfoldable pub close_statement : sv.Stmt → Action (Session sv) (Unit {0})
  close_statement stmt s =
      (ok tt, record s { world = sv.close stmt s.world; statements = s.statements - 1 })

  -- A call on a statement, and `mysql_stmt_close(stmt); throw …;` if it fails.
  unfoldable pub check_call :
      Error → sv.Stmt → (sv.World → Bool × sv.World) → Action (Session sv) (Unit {0})
  unfolding close_statement
  check_call e stmt call s =
      let (done, w) = call s.world in
      let failed = close_statement stmt >> (λ s'. (throw e, s')) in
      if done then (ok tt, record s { world = w }) else failed (record s { world = w })

  -- `mysql_stmt_init` and `mysql_stmt_prepare`, with the errors of either.
  unfoldable pub open_statement : Error → Error → Statement → Action (Session sv) sv.Stmt
  unfolding check_call
  open_statement missing failed st s =
      let (r, w) = sv.init s.world in
      elim r [
        | none ↦ (throw missing, record s { world = w })
        | some stmt ↦
            (check_call failed stmt (sv.prepare stmt st) >> pure stmt)
              (record s { world = w; statements = s.statements + 1 })
      ]

  -- `mysql_stmt_bind_param` and `mysql_stmt_execute`, with the errors of either.
  unfoldable pub send : Error → Error → sv.Stmt → Statement → Action (Session sv) (Unit {0})
  unfolding check_call
  send unbound failed stmt st =
      check_call unbound stmt (sv.bind_param stmt st) >> check_call failed stmt (sv.execute stmt st)

  -- `while (mysql_stmt_fetch(stmt) == 0) …`: the bound is above the rows that are left.
  unfoldable pub fetch_rows : (st : Statement) → sv.Stmt → ℕ → Action (Session sv) (List (Row st))
  fetch_rows st stmt zero = pure []
  fetch_rows st stmt (suc n) = λ s.
      let (r, w) = sv.fetch st stmt s.world in
      elim r [
        | none ↦ (ok [], record s { world = w })
        | some row ↦ (fetch_rows st stmt n >>= λ rows. pure (row ∷ rows)) (record s { world = w })
      ]

  -- A statement without a result; the errors are those of the first two calls, and of the next.
  unfoldable pub write : Error → Error → Error → Error → Statement → Action (Session sv) (Unit {0})
  unfolding open_statement send close_statement
  write missing failed unbound unsent st = do
    stmt ← open_statement missing failed st
    send unbound unsent stmt st
    close_statement stmt

  -- An INSERT, and its AUTO_INCREMENT id.
  unfoldable pub insert_row : Error → Error → Statement → Action (Session sv) ℕ
  unfolding open_statement send close_statement
  insert_row failed unsent st = do
    stmt ← open_statement failed failed st
    send unsent unsent stmt st
    id ← (λ s. (ok (sv.insert_id stmt s.world), s))
    close_statement stmt
    pure id

  -- A SELECT, and the rows that are fetched.
  unfoldable pub select_rows :
      Error → Error → List ℕ → (st : Statement) → Action (Session sv) (List (Row st))
  unfolding open_statement send check_call fetch_rows close_statement
  select_rows failed unsent buffers st = do
    stmt ← open_statement failed failed st
    send unsent unsent stmt st
    check_call unsent stmt (sv.bind_result stmt buffers)
    rows ← (λ s. fetch_rows st stmt (suc (sv.num_rows st stmt s.world)) s)
    close_statement stmt
    pure rows

  unfoldable pub real_query : Control → Action (Session sv) Bool
  real_query text s =
      let (done, w) = sv.real_query text s.world in (ok done, record s { world = w })
