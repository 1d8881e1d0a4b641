-- ===== src/Database/Server/Complete.antt =====
-- That a SELECT of src/database/dao.cpp misses no row, on a server whose fetches do not fail.
use sec_search.Prelude.{
  ℕ, zero, suc, ◌≤◌, true, List, [], ◌∷◌, length, none, Result, ok, throw, Error, Option-cases, ◌≡◌,
  refl, ap, ◌∙◌, inl, inr, arith,
}
use sec_search.Prelude.Action.{pure}
use sec_search.Prelude.Triple.{Post, Triple, Triple-bind, Post-weaken}
use sec_search.Database.Server.{
  Server, Session, Statement, Row, close_statement, check_call, open_statement, send, fetch_rows,
  select_rows,
}
use sec_search.Database.Server.Lawful.{View, Lawful}
use sec_search.Database.Server.Effects.{At, Failed, open_statement-At}
use sec_search.Database.Server.Answers.{answer}
use sec_search.Database.Server.Reads.{IsOneOf, Answering, Anything, call_then}

-- A statement that was executed has every answer to fetch, and only then are there no more rows.
pub record Complete (sv : Server) (law : Lawful sv) (reads : Answering sv law) : Type 0 where
  pub execute-all :
      (stmt : sv.Stmt) (st : Statement) (w : sv.World) (r : Row st)
      → (sv.execute stmt st w).0 ≡ true
      → IsOneOf r (answer st (law.view w).tables)
      → IsOneOf r (reads.pending st stmt (sv.execute stmt st w).1)
  pub fetch-over :
      (st : Statement) (stmt : sv.Stmt) (w : sv.World)
      → (sv.fetch st stmt w).0 ≡ none
      → reads.pending st stmt w ≡ []
  pub num_rows-pending :
      (st : Statement) (stmt : sv.Stmt) (w : sv.World)
      → length (reads.pending st stmt w) ≤ sv.num_rows st stmt w

module _ (sv : Server) (law : Lawful sv) (reads : Answering sv law)
    (all : Complete sv law reads) where
  -- A row that is still to fetch.
  abbrev Awaits : (st : Statement) → sv.Stmt → Row st → Session sv → Type 0
  Awaits st stmt r s = IsOneOf r (reads.pending st stmt s.world)

  fetch_rows-IsOneOf :
      (st : Statement) (stmt : sv.Stmt) (r : Row st) (n : ℕ) (s : Session sv)
      → length (reads.pending st stmt s.world) ≤ n
      → Awaits st stmt r s
      → Post (λ rows s'. IsOneOf r rows) (Anything sv law reads) (fetch_rows sv st stmt n s)
  unfolding fetch_rows
  fetch_rows-IsOneOf st stmt r zero s h k = none_left (reads.pending st stmt s.world) h k
    where
      none_left : (rows : List (Row st)) → length rows ≤ 0 → IsOneOf r rows → IsOneOf r []
      none_left [] h' k' = k'
      none_left (x ∷ xs) h' k' = absurd (omega arith)
  fetch_rows-IsOneOf st stmt r (suc n) s h k = elim (Option-cases (sv.fetch st stmt s.world).0) [
    | inl over ↦ absurd (rw (all.fetch-over st stmt s.world over) at k)
    | inr (row, got) ↦
        let e = reads.fetch-pending st stmt s.world row got in
        let s' : Session sv = record s { world = (sv.fetch st stmt s.world).1 } in
        let shorter : length (reads.pending st stmt s'.world) ≤ n = omega (arith, h, ap length e) in
        rw (got, fetch_rows)
          (elim (rw e at k) [
            | inl here ↦
                Triple-bind (λ s''. Unit {0}) (fetch_rows sv st stmt n) (λ rows s''. Unit {0})
                  (Anything sv law reads) (λ rows. pure (row ∷ rows)) (λ rows s''. IsOneOf r rows)
                  (λ s'' x. anything (fetch_rows sv st stmt n s'')) (λ rows s'' x. inl here) s' tt
            | inr later ↦
                Triple-bind (λ s''. s'' ≡ s') (fetch_rows sv st stmt n) (λ rows s''. IsOneOf r rows)
                  (Anything sv law reads) (λ rows. pure (row ∷ rows)) (λ rows s''. IsOneOf r rows)
                  (λ s'' x. rw x (fetch_rows-IsOneOf st stmt r n s' shorter later))
                  (λ rows s'' x. inr x) s' refl
          ])
  ]
    where
      anything :
          {A : Type 0} (x : Result A × Session sv) → Post (λ a s'. Unit {0}) (λ s'. Unit {0}) x
      anything (ok a, s') = tt
      anything (throw y, s') = tt

  -- A row that is an answer on the tables that a SELECT was executed on is returned, if the call
  -- returns.
  pub select_rows-IsOneOf :
      (failed unsent : Error) (buffers : List ℕ) (st : Statement) (v : View) (r : Row st)
      → IsOneOf r (answer st v.tables)
      → Triple
          (At sv law v)
          (select_rows sv failed unsent buffers st)
          (λ rows s. IsOneOf r rows)
          (Anything sv law reads)
  unfolding select_rows send close_statement
  select_rows-IsOneOf failed unsent buffers st v r h =
      Triple-bind (At sv law v) (open_statement sv failed failed st) (λ _. At sv law v)
        (Anything sv law reads) _ _
        (λ s k.
          Post-weaken _ _ (Failed sv law v) (Anything sv law reads)
            (open_statement sv failed failed st s) (λ stmt s' x. x) (λ s' x. tt)
            (open_statement-At sv law failed failed st v s k))
        λ stmt.
          Triple-bind (At sv law v) (send sv unsent unsent stmt st) (λ _. Awaits st stmt r)
            (Anything sv law reads) _ _
            (Triple-bind (At sv law v) (check_call sv unsent stmt (sv.bind_param stmt st))
              (λ _. At sv law v) (Anything sv law reads) _ _
              (call_then sv law reads unsent stmt (sv.bind_param stmt st) (λ w. law.view w ≡ v)
                (λ w. law.view w ≡ v) (λ w k done. law.bind_param-view stmt st w ∙ k))
              (λ _.
                call_then sv law reads unsent stmt (sv.execute stmt st) (λ w. law.view w ≡ v)
                  (λ w. IsOneOf r (reads.pending st stmt w))
                  (λ w k done. all.execute-all stmt st w r done (rw k h))))
            λ _.
              Triple-bind (Awaits st stmt r)
                (check_call sv unsent stmt (sv.bind_result stmt buffers)) (λ _. Awaits st stmt r)
                (Anything sv law reads) _ _
                (call_then sv law reads unsent stmt (sv.bind_result stmt buffers)
                  (λ w. IsOneOf r (reads.pending st stmt w))
                  (λ w. IsOneOf r (reads.pending st stmt w))
                  (λ w k done. rw (reads.bind_result-pending stmt st buffers w) k))
                λ _.
                  Triple-bind (Awaits st stmt r) _ (λ rows s. IsOneOf r rows)
                    (Anything sv law reads) _ _
                    (λ s k.
                      fetch_rows-IsOneOf st stmt r (suc (sv.num_rows st stmt s.world)) s
                        (omega (arith, all.num_rows-pending st stmt s.world)) k)
                    (λ rows s k. k)
