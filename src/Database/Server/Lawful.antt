-- ===== src/Database/Server/Lawful.antt =====
-- What MySQL documents of statements and transactions, on one connection and while no other
-- connection writes.
use sec_search.Prelude.{true, false, List, ℕ, Option, none, some, ◌≡◌, ◌⊎◌}
use sec_search.Database.Server.{Server, Statement, Control}
use sec_search.Database.Server.Tables.{Tables, effect, generated}

-- The tables as the connection sees them, and, while a transaction is open, as they were before.
pub record View : Type 0 where
  pub tables : Tables
  pub saved : Option Tables

-- InnoDB undoes the statement that fails, or, as on a deadlock, the whole transaction.
abbrev pub Undone : View → View → Type 0
Undone v v' =
    (v' ≡ v) ⊎ ((t : Tables) × (v.saved ≡ some t) × (v' ≡ record { tables = t; saved = none }))

pub record Lawful (sv : Server) : Type 0 where
  pub view : sv.World → View
  -- Only `mysql_stmt_execute` and `mysql_real_query` touch the tables.
  pub init-view : (w : sv.World) → view (sv.init w).1 ≡ view w
  pub prepare-view :
      (stmt : sv.Stmt) (st : Statement) (w : sv.World) → view (sv.prepare stmt st w).1 ≡ view w
  pub bind_param-view :
      (stmt : sv.Stmt) (st : Statement) (w : sv.World) → view (sv.bind_param stmt st w).1 ≡ view w
  pub bind_result-view :
      (stmt : sv.Stmt) (buffers : List ℕ) (w : sv.World)
      → view (sv.bind_result stmt buffers w).1 ≡ view w
  pub fetch-view :
      (st : Statement) (stmt : sv.Stmt) (w : sv.World) → view (sv.fetch st stmt w).1 ≡ view w
  pub close-view : (stmt : sv.Stmt) (w : sv.World) → view (sv.close stmt w) ≡ view w
  pub execute-view :
      (stmt : sv.Stmt) (st : Statement) (w : sv.World)
      → (sv.execute stmt st w).0 ≡ true
      → view (sv.execute stmt st w).1
        ≡ record { tables = effect st (view w).tables; saved = (view w).saved }
  pub execute-fails :
      (stmt : sv.Stmt) (st : Statement) (w : sv.World)
      → (sv.execute stmt st w).0 ≡ false
      → Undone (view w) (view (sv.execute stmt st w).1)
  pub insert_id-generated :
      (stmt : sv.Stmt) (st : Statement) (w : sv.World)
      → (sv.execute stmt st w).0 ≡ true
      → sv.insert_id stmt (sv.execute stmt st w).1 ≡ generated st (view w).tables
  pub start-view :
      (w : sv.World)
      → (view w).saved ≡ none
      → (sv.real_query Control.start_transaction w).0 ≡ true
      → view (sv.real_query Control.start_transaction w).1
        ≡ record { tables = (view w).tables; saved = some (view w).tables }
  pub start-fails :
      (w : sv.World)
      → (sv.real_query Control.start_transaction w).0 ≡ false
      → view (sv.real_query Control.start_transaction w).1 ≡ view w
  pub commit-view :
      (w : sv.World)
      → (sv.real_query Control.commit w).0 ≡ true
      → view (sv.real_query Control.commit w).1 ≡ record { tables = (view w).tables; saved = none }
  -- A COMMIT that fails has not committed.
  pub commit-fails :
      (w : sv.World)
      → (sv.real_query Control.commit w).0 ≡ false
      → Undone (view w) (view (sv.real_query Control.commit w).1)
  -- If ROLLBACK fails, the connection is lost and the server rolls back.
  pub rollback-view :
      (w : sv.World) (t : Tables)
      → (view w).saved ≡ some t
      → view (sv.real_query Control.rollback w).1 ≡ record { tables = t; saved = none }
  pub rollback-nothing :
      (w : sv.World) → (view w).saved ≡ none → view (sv.real_query Control.rollback w).1 ≡ view w
