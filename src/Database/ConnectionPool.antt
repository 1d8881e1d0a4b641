-- ===== src/Database/ConnectionPool.antt =====
-- `database::ConnectionPool` of src/database/connection_pool.cpp, over the MySQL client library as
-- a parameter. The vector of connections is a list whose head is its back.
pub mod Leaks
mod Tests
use sec_search.Prelude.{
  ℕ, zero, suc, ◌+◌, ◌-◌, Bool, true, false, List, [], ◌∷◌, Option, none, some, ok, throw, Error,
  if◌then◌else◌,
}
use sec_search.Prelude.Action.{Action, pure, raise, raise_if, gets, modify, ◌>>=◌, ◌>>◌}

-- `mysql_init`, `mysql_real_connect`, `mysql_ping` (true is 0) and `mysql_close`.
pub record Mysql : Type 1 where
  pub World : Type 0
  pub Conn : Type 0
  pub init : World → Option Conn × World
  pub real_connect : Conn → World → Bool × World
  pub ping : Conn → World → Bool × World
  pub close : Conn → World → World

-- The library, the number of connections that are open, and the pool's fields.
pub record ConnectionPool (db : Mysql) : Type 0 where
  pub world : db.World
  pub live : ℕ
  pub connections : List db.Conn
  pub initialized : Bool

module _ (db : Mysql) where
  close_connection : db.Conn → Action (ConnectionPool db) (Unit {0})
  close_connection conn s = (ok tt, record s { world = db.close conn s.world; live = s.live - 1 })

  -- Behind `mysql_init`.
  connect : db.Conn → Action (ConnectionPool db) (Option db.Conn)
  unfolding close_connection
  connect conn s =
      let (b, w) = db.real_connect conn s.world in
      if b
      then (ok (some conn), record s { world = w })
      else (ok none, record s { world = db.close conn w; live = s.live - 1 })

  pub create_connection : Action (ConnectionPool db) (Option db.Conn)
  unfolding connect
  create_connection s =
      let (r, w) = db.init s.world in
      elim r [
        | none ↦ (ok none, record s { world = w })
        | some conn ↦ connect conn (record s { world = w; live = s.live + 1 })
      ]

  -- The test on a null pointer.
  or_raise : Error → Option db.Conn → Action (ConnectionPool db) db.Conn
  or_raise e none = raise e
  or_raise e (some conn) = pure conn

  -- The connection that the guard holds: the one taken, or a new one if it is dead.
  revive : db.Conn → Action (ConnectionPool db) db.Conn
  unfolding close_connection create_connection or_raise
  revive conn s =
      let (alive, w) = db.ping conn s.world in
      let again =
        close_connection conn >> create_connection >>= or_raise Error.failed_to_reconnect in
      if alive then (ok conn, record s { world = w }) else again (record s { world = w })

  take_back : List db.Conn → Action (ConnectionPool db) db.Conn
  unfolding revive
  take_back [] = raise Error.no_available_connection
  take_back (conn ∷ rest) = modify (λ s. record s { connections = rest }) >> revive conn

  pub get_connection : Action (ConnectionPool db) db.Conn
  unfolding take_back
  get_connection s = take_back s.connections s

  -- `~ConnectionGuard`.
  unfoldable pub give_back : db.Conn → Action (ConnectionPool db) (Unit {0})
  give_back conn = modify λ s. record s { connections = conn ∷ s.connections }

  fill : ℕ → Action (ConnectionPool db) (Unit {0})
  unfolding create_connection or_raise give_back
  fill zero = pure tt
  fill (suc n) = do
    r ← create_connection
    conn ← or_raise Error.failed_to_create_connection r
    give_back conn
    fill n

  pub init_pool : ℕ → Action (ConnectionPool db) (Unit {0})
  unfolding fill
  init_pool pool_size s =
      let made = fill pool_size >> modify (λ s'. record s' { initialized = true }) in
      if s.initialized then (ok tt, s) else made s

  close_each : List db.Conn → Action (ConnectionPool db) (Unit {0})
  unfolding close_connection
  close_each [] = pure tt
  close_each (conn ∷ more) = close_connection conn >> close_each more

  pub close_all : Action (ConnectionPool db) (Unit {0})
  unfolding close_each
  close_all s =
      (close_each s.connections
          >> modify (λ s'. record s' { connections = []; initialized = false }))
        s
