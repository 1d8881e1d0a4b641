-- ===== src/Audit/Tests.antt =====
-- A log on a pool whose server is up, and statements that the server in memory refuses.
use sec_search.Prelude.{ℕ, true, [], ◌∷◌, some, codes, refl}
use sec_search.Database.ConnectionPool.{Mysql}
use sec_search.Database.Server.Tables.{Tables}
use sec_search.Database.Server.Memory.{memory, fresh}
use sec_search.Audit.{Logger, log_operation}
use sec_search.Audit.Quiet.{Quiet, log_operation-Quiet}

abbrev up : Mysql
up = record {
  World = Unit {0};
  Conn = ℕ;
  init = λ w. (some 8, w);
  real_connect = λ conn w. (true, w);
  ping = λ conn w. (true, w);
  close = λ conn w. w;
}

abbrev no_tables : Tables
no_tables = record {
  sensitive_data = [];
  next_id = 1;
  fuzzy_inverted = [];
  key_config = [];
  index_rebuild_task = [];
  next_task = 1;
}

abbrev logger : Logger up memory
logger = record {
  pool = record { world = tt; live = 1; connections = 7 ∷ []; initialized = true };
  session = record { world = fresh 0 no_tables; statements = 0 };
}

log_operation-Quiet_example :
    Quiet up memory 0 0
      (log_operation up memory (codes "r") (codes "INSERT") 1 0 1 5 true [] logger)
log_operation-Quiet_example =
    log_operation-Quiet up memory 0 0 (codes "r") (codes "INSERT") 1 0 1 5 true [] logger
      (refl, refl)
