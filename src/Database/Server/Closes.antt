-- ===== src/Database/Server/Closes.antt =====
-- Every statement that is opened is closed again, whichever call fails.
use sec_search.Prelude.{
  ℕ, zero, suc, ◌+◌, Bool, List, ◌∷◌, Result, ok, throw, Error, Bool-cases, Option-cases, ◌≡◌, inl,
  inr, arith,
}
use sec_search.Prelude.Action.{Action, pure, ◌>>=◌, ◌>>◌}
use sec_search.Prelude.Triple.{Post, Triple, Triple-bind, Keeps}
use sec_search.Database.Server.{
  Server, Session, Statement, close_statement, check_call, open_statement, send, fetch_rows, write,
  insert_row, select_rows,
}

module _ (sv : Server) where
  abbrev pub Has : ℕ → Session sv → Type 0
  Has n s = s.statements ≡ n

  -- A call before which `i` statements more are open than after a throw, and after which `o` are.
  abbrev pub Leaves : {A : Type 0} → ℕ → ℕ → Action (Session sv) A → Type 0
  Leaves i o m = (k : ℕ) → Triple (Has (k + i)) m (λ a. Has (k + o)) (Has k)

  module _ {A B : Type 0} where
    pub bind-Leaves :
        (i j o : ℕ) (m : Action (Session sv) A) (f : A → Action (Session sv) B)
        → Leaves i j m
        → ((a : A) → Leaves j o (f a))
        → Leaves i o (m >>= f)
    bind-Leaves i j o m f h g k =
        Triple-bind (Has (k + i)) m (λ a. Has (k + j)) (Has k) f (λ b. Has (k + o)) (h k)
          (λ a. g a k)

  pub pure-Leaves : {A : Type 0} (i : ℕ) (a : A) → Leaves i i (pure a)
  pure-Leaves i a k s h = h

  pub close_statement-Leaves : (stmt : sv.Stmt) → Leaves 1 0 (close_statement sv stmt)
  unfolding close_statement
  close_statement-Leaves stmt k s h = omega (arith, h)

  pub check_call-Leaves :
      (e : Error) (stmt : sv.Stmt) (call : sv.World → Bool × sv.World)
      → Leaves 1 1 (check_call sv e stmt call)
  unfolding check_call close_statement
  check_call-Leaves e stmt call k s h = elim (Bool-cases (call s.world).0) [
    | inl done ↦ rw done h
    | inr failed ↦ rw failed (omega (arith, h))
  ]

  pub open_statement-Leaves :
      (missing failed : Error) (st : Statement) → Leaves 0 1 (open_statement sv missing failed st)
  unfolding open_statement
  open_statement-Leaves missing failed st k s h = elim (Option-cases (sv.init s.world).0) [
    | inl absent ↦ rw (absent, open_statement) (omega (arith, h))
    | inr (stmt, made) ↦
        rw (made, open_statement)
          (bind-Leaves 1 1 1 (check_call sv failed stmt (sv.prepare stmt st)) (λ _. pure stmt)
            (check_call-Leaves failed stmt (sv.prepare stmt st)) (λ _. pure-Leaves 1 stmt) k
            (record s { world = (sv.init s.world).1; statements = s.statements + 1 })
            (omega (arith, h)))
  ]

  pub send-Leaves :
      (unbound failed : Error) (stmt : sv.Stmt) (st : Statement)
      → Leaves 1 1 (send sv unbound failed stmt st)
  unfolding send
  send-Leaves unbound failed stmt st =
      bind-Leaves 1 1 1 (check_call sv unbound stmt (sv.bind_param stmt st))
        (λ _. check_call sv failed stmt (sv.execute stmt st))
        (check_call-Leaves unbound stmt (sv.bind_param stmt st))
        (λ _. check_call-Leaves failed stmt (sv.execute stmt st))

  fetch_rows-Leaves :
      (st : Statement) (stmt : sv.Stmt) (n : ℕ) → Leaves 1 1 (fetch_rows sv st stmt n)
  unfolding fetch_rows
  fetch_rows-Leaves st stmt zero k s h = h
  fetch_rows-Leaves st stmt (suc n) k s h = elim (Option-cases (sv.fetch st stmt s.world).0) [
    | inl over ↦ rw (over, fetch_rows) h
    | inr (row, got) ↦
        rw (got, fetch_rows)
          (bind-Leaves 1 1 1 (fetch_rows sv st stmt n) (λ rows. pure (row ∷ rows))
            (fetch_rows-Leaves st stmt n) (λ rows. pure-Leaves 1 (row ∷ rows)) k
            (record s { world = (sv.fetch st stmt s.world).1 }) h)
  ]

  pub write-Leaves :
      (missing failed unbound unsent : Error) (st : Statement)
      → Leaves 0 0 (write sv missing failed unbound unsent st)
  unfolding write
  write-Leaves missing failed unbound unsent st =
      bind-Leaves 0 1 0 (open_statement sv missing failed st) _
        (open_statement-Leaves missing failed st)
        λ stmt.
          bind-Leaves 1 1 0 (send sv unbound unsent stmt st) _ (send-Leaves unbound unsent stmt st)
            λ _. close_statement-Leaves stmt

  close_with-Leaves :
      {A : Type 0} (stmt : sv.Stmt) (a : A) → Leaves 1 0 (close_statement sv stmt >> pure a)
  close_with-Leaves stmt a =
      bind-Leaves 1 0 0 (close_statement sv stmt) (λ _. pure a) (close_statement-Leaves stmt)
        (λ _. pure-Leaves 0 a)

  pub insert_row-Leaves :
      (failed unsent : Error) (st : Statement) → Leaves 0 0 (insert_row sv failed unsent st)
  unfolding insert_row
  insert_row-Leaves failed unsent st =
      bind-Leaves 0 1 0 (open_statement sv failed failed st) _
        (open_statement-Leaves failed failed st)
        λ stmt.
          bind-Leaves 1 1 0 (send sv unsent unsent stmt st) _ (send-Leaves unsent unsent stmt st)
            λ _.
              bind-Leaves 1 1 0 (λ s. (ok (sv.insert_id stmt s.world), s))
                (λ id. close_statement sv stmt >> pure id) (λ k s h. h)
                (λ id. close_with-Leaves stmt id)

  pub select_rows-Leaves :
      (failed unsent : Error) (buffers : List ℕ) (st : Statement)
      → Leaves 0 0 (select_rows sv failed unsent buffers st)
  unfolding select_rows
  select_rows-Leaves failed unsent buffers st =
      bind-Leaves 0 1 0 (open_statement sv failed failed st) _
        (open_statement-Leaves failed failed st)
        λ stmt.
          bind-Leaves 1 1 0 (send sv unsent unsent stmt st) _ (send-Leaves unsent unsent stmt st)
            λ _.
              bind-Leaves 1 1 0 (check_call sv unsent stmt (sv.bind_result stmt buffers)) _
                (check_call-Leaves unsent stmt (sv.bind_result stmt buffers))
                λ _.
                  bind-Leaves 1 1 0 _ _
                    (λ k s. fetch_rows-Leaves st stmt (suc (sv.num_rows st stmt s.world)) k s)
                    (λ rows. close_with-Leaves stmt rows)

  -- A call that leaves the number of open statements as it was, on a throw too.
  pub Leaves-Keeps :
      {A : Type 0} (m : Action (Session sv) A) → Leaves 0 0 m → Keeps (λ s. s.statements) m
  Leaves-Keeps {A} m h s = either (m s) (h s.statements s (omega arith))
    where
      either :
          (r : Result A × Session sv)
          → Post (λ a. Has (s.statements + 0)) (Has s.statements) r
          → r.1.statements ≡ s.statements
      either (ok a, s') e = omega (arith, e)
      either (throw x, s') e = e
