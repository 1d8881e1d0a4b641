-- ===== src/Database/ConnectionPool/Leaks.antt =====
-- No call of the pool leaks a connection.
use sec_search.Prelude.{
  ℕ, ◌+◌, ◌-◌, false, List, [], ◌∷◌, Option, none, some, length, Result, ok, throw, Error,
  Bool-cases, Option-cases, ◌≡◌, refl, ap, inl, inr, arith,
}
use sec_search.Prelude.Action.{◌>>=◌}
use sec_search.Database.ConnectionPool.{
  Mysql, ConnectionPool, close_connection, connect, create_connection, or_raise, revive, take_back,
  get_connection,
}

module _ (db : Mysql) where
  -- Of the open connections, all but `n` are in the pool.
  abbrev pub Lent : ℕ → ConnectionPool db → Type 0
  Lent n s = s.live ≡ length s.connections + n

  -- A call that hands a connection out, or throws.
  abbrev pub HandsOut : ℕ → Result db.Conn × ConnectionPool db → Type 0
  HandsOut n (ok conn, s) = Lent (n + 1) s
  HandsOut n (throw e, s) = Lent n s

  abbrev Creates : ℕ → Result (Option db.Conn) × ConnectionPool db → Type 0
  Creates n (ok (some conn), s) = Lent (n + 1) s
  Creates n (ok none, s) = Lent n s
  Creates n (throw e, s) = Lent n s

  connect-Creates :
      (n : ℕ) (conn : db.Conn) (s : ConnectionPool db)
      → Lent (n + 1) s
      → Creates n (connect db conn s)
  unfolding connect
  connect-Creates n conn s h = elim (Bool-cases (db.real_connect conn s.world).0) [
    | inl up ↦ rw up h
    | inr down ↦ rw down (omega (arith, h))
  ]

  create_connection-Creates :
      (n : ℕ) (s : ConnectionPool db) → Lent n s → Creates n (create_connection db s)
  unfolding create_connection
  create_connection-Creates n s h = elim (Option-cases (db.init s.world).0) [
    | inl missing ↦ rw (missing, create_connection) h
    | inr (conn, made) ↦
        rw (made, create_connection)
          (connect-Creates n conn (record s { world = (db.init s.world).1; live = s.live + 1 })
            (omega (arith, h)))
  ]

  -- The null test behind `createConnection`.
  created-HandsOut :
      (n : ℕ) (r : Result (Option db.Conn) × ConnectionPool db) (s0 : ConnectionPool db)
      → Creates n r
      → HandsOut n (((λ s. r) >>= or_raise db Error.failed_to_reconnect) s0)
  unfolding or_raise
  created-HandsOut n (ok (some conn), s) s0 h = h
  created-HandsOut n (ok none, s) s0 h = h
  created-HandsOut n (throw e, s) s0 h = h

  revive-HandsOut :
      (n : ℕ) (conn : db.Conn) (s : ConnectionPool db)
      → Lent (n + 1) s
      → HandsOut n (revive db conn s)
  unfolding revive close_connection
  revive-HandsOut n conn s h = elim (Bool-cases (db.ping conn s.world).0) [
    | inl alive ↦ rw alive h
    | inr dead ↦
        let closed : ConnectionPool db = record s {
          world = db.close conn (db.ping conn s.world).1;
          live = s.live - 1;
        } in
        rw dead (
          created-HandsOut n (create_connection db closed) closed
            (create_connection-Creates n closed (omega (arith, h))))
  ]

  take_back-HandsOut :
      (n : ℕ) (conns : List db.Conn) (s : ConnectionPool db)
      → s.connections ≡ conns
      → Lent n s
      → HandsOut n (take_back db conns s)
  unfolding take_back
  take_back-HandsOut n [] s e h = h
  take_back-HandsOut n (conn ∷ rest) s e h =
      revive-HandsOut n conn (record s { connections = rest }) (omega (arith, h, ap length e))

  -- If all open connections but n are in the pool, then after `getConnection` all but n + 1 are,
  -- the one that it hands out being the new one, or, if it throws, all but n again: no path loses
  -- a connection that is open.
  pub get_connection-HandsOut :
      (n : ℕ) (s : ConnectionPool db) → Lent n s → HandsOut n (get_connection db s)
  unfolding get_connection
  get_connection-HandsOut n s h = take_back-HandsOut n s.connections s refl h

  -- If the only connection of a pool is dead and no other can be made, `getConnection` throws and
  -- the pool is empty from then on, though it was made with a connection.
  pub get_connection_shrinks :
      (conn : db.Conn) (s : ConnectionPool db)
      → s.connections ≡ conn ∷ []
      → (db.ping conn s.world).0 ≡ false
      → (db.init (db.close conn (db.ping conn s.world).1)).0 ≡ none
      → ((get_connection db s).0 ≡ throw Error.failed_to_reconnect)
        × ((get_connection db s).1.connections ≡ [])
  unfolding get_connection take_back revive close_connection create_connection or_raise
  get_connection_shrinks conn s e dead lost = rw (e, dead, create_connection, lost) (refl, refl)
