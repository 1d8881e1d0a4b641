-- ===== src/Console.antt =====
-- The console program of src/main.cpp: its global variables and the connections of its parts.
-- `std::cout` and `std::cerr` leave no trace.
pub mod Input
pub mod Rotation
pub mod Records
pub mod Menu
pub mod Start
mod Sample
mod Tests
use sec_search.Prelude.{ℕ, List, Option, Bytes}
use sec_search.Prelude.Action.{Action}
use sec_search.Crypto.Primitives.{Primitives}
use sec_search.Crypto.KeyManager.{KeyManager}
use sec_search.Database.ConnectionPool.{Mysql}
use sec_search.Database.Server.{Server}
use sec_search.Database.Dao.Records.{Store}
use sec_search.Audit.{Logger}

module _ (c : Primitives) (db : Mysql) (sv : Server) where
  -- `g_keyMgr`, the three keys, `g_auditLogger`, the connection of the DAO, what `QueryService`
  -- keeps of its requests, and the file `.key_rotate_time`.
  pub record App : Type 0 where
    pub keys : KeyManager
    pub enc_key : Bytes
    pub idx_key : Bytes
    pub tag_key : Bytes
    pub store : Store c sv
    pub logger : Logger db sv
    pub timestamps : List ℕ
    pub rotate_file : Option Bytes

  -- A call on one part of the program.
  abbrev pub on_keys : {A : Type 0} → Action KeyManager A → Action App A
  on_keys a s = let (r, k) = a s.keys in (r, record s { keys = k })

  abbrev pub on_store : {A : Type 0} → Action (Store c sv) A → Action App A
  on_store a s = let (r, t) = a s.store in (r, record s { store = t })

  abbrev pub on_logger : {A : Type 0} → Action (Logger db sv) A → Action App A
  on_logger a s = let (r, l) = a s.logger in (r, record s { logger = l })
