-- ===== src/Database/ConnectionPool/Tests.antt =====
-- A server that is down, and a pool of one connection.
use sec_search.Prelude.{ℕ, true, false, [], ◌∷◌, none, refl}
use sec_search.Database.ConnectionPool.{Mysql, ConnectionPool, get_connection}
use sec_search.Database.ConnectionPool.Leaks.{HandsOut, get_connection-HandsOut}

abbrev down : Mysql
down = record {
  World = Unit {0};
  Conn = ℕ;
  init = λ w. (none, w);
  real_connect = λ conn w. (false, w);
  ping = λ conn w. (false, w);
  close = λ conn w. w;
}

abbrev pool : ConnectionPool down
pool = record { world = tt; live = 2; connections = 7 ∷ []; initialized = true }

get_connection-HandsOut_example : HandsOut down 1 (get_connection down pool)
get_connection-HandsOut_example = get_connection-HandsOut down 1 pool refl
