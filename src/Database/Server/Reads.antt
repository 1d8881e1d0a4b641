-- ===== src/Database/Server/Reads.antt =====
-- Which rows a SELECT of src/database/dao.cpp returns.
use sec_search.Prelude.{
  ℕ, zero, suc, Bool, true, List, [], ◌∷◌, some, Error, All, Bool-cases, Option-cases, ◌≡◌, ◌∙◌,
  ◌⊎◌, inl, inr,
}
use sec_search.Prelude.Action.{pure}
use sec_search.Prelude.Triple.{Triple, Triple-bind, Post-weaken}
use sec_search.Database.Server.{
  Server, Session, Statement, Row, close_statement, check_call, open_statement, send, fetch_rows,
  select_rows,
}
use sec_search.Database.Server.Lawful.{View, Lawful}
use sec_search.Database.Server.Effects.{At, Failed, open_statement-At}
use sec_search.Database.Server.Answers.{answer}

abbrev pub IsOneOf : {A : Type 0} → A → List A → Type 0
IsOneOf x [] = ⊥
IsOneOf x (y ∷ ys) = (x ≡ y) ⊎ IsOneOf x ys

-- `pending` are the rows that a statement has not fetched yet. Their order is left open, and so is
-- how many of them are fetched before one fails.
pub record Answering (sv : Server) (law : Lawful sv) : Type 0 where
  pub pending : (st : Statement) → sv.Stmt → sv.World → List (Row st)
  pub execute-pending :
      (stmt : sv.Stmt) (st : Statement) (w : sv.World)
      → (sv.execute stmt st w).0 ≡ true
      → All
          (λ r. IsOneOf r (answer st (law.view w).tables))
          (pending st stmt (sv.execute stmt st w).1)
  pub bind_result-pending :
      (stmt : sv.Stmt) (st : Statement) (buffers : List ℕ) (w : sv.World)
      → pending st stmt (sv.bind_result stmt buffers w).1 ≡ pending st stmt w
  pub fetch-pending :
      (st : Statement) (stmt : sv.Stmt) (w : sv.World) (r : Row st)
      → (sv.fetch st stmt w).0 ≡ some r
      → pending st stmt w ≡ r ∷ pending st stmt (sv.fetch st stmt w).1

module _ (sv : Server) (law : Lawful sv) (reads : Answering sv law) where
  -- The rows that are left are answers on the tables of `v`.
  abbrev Right : (st : Statement) → View → List (Row st) → Type 0
  Right st v = All (λ r. IsOneOf r (answer st v.tables))

  abbrev Left : (st : Statement) → sv.Stmt → View → Session sv → Type 0
  Left st stmt v s = Right st v (reads.pending st stmt s.world)

  abbrev pub Anything : Session sv → Type 0
  Anything s = Unit {0}

  -- A call that makes `P` hold, if it succeeds.
  pub call_then :
      (e : Error) (stmt : sv.Stmt) (call : sv.World → Bool × sv.World) (Pre P : sv.World → Type 0)
      → ((w : sv.World) → Pre w → (call w).0 ≡ true → P (call w).1)
      → Triple (λ s. Pre s.world) (check_call sv e stmt call) (λ _ s. P s.world) Anything
  unfolding check_call close_statement
  call_then e stmt call Pre P good s h = elim (Bool-cases (call s.world).0) [
    | inl done ↦ rw done (good s.world h done)
    | inr failed ↦ rw failed tt
  ]

  fetch_rows-Right :
      (st : Statement) (stmt : sv.Stmt) (v : View) (n : ℕ)
      → Triple (Left st stmt v) (fetch_rows sv st stmt n) (λ rows s. Right st v rows) Anything
  unfolding fetch_rows
  fetch_rows-Right st stmt v zero s h = tt
  fetch_rows-Right st stmt v (suc n) s h = elim (Option-cases (sv.fetch st stmt s.world).0) [
    | inl over ↦ rw (over, fetch_rows) tt
    | inr (row, got) ↦
        let both : Right st v (row ∷ reads.pending st stmt (sv.fetch st stmt s.world).1) =
          rw (reads.fetch-pending st stmt s.world row got) at h in
        rw (got, fetch_rows)
          (Triple-bind (Left st stmt v) (fetch_rows sv st stmt n) (λ rows s'. Right st v rows)
            Anything (λ rows. pure (row ∷ rows)) (λ rows s'. Right st v rows)
            (fetch_rows-Right st stmt v n) (λ rows s' k. (both.0, k))
            (record s { world = (sv.fetch st stmt s.world).1 }) both.1)
  ]

  -- Every row that a SELECT returns is an answer to it on the tables that it was executed on.
  pub select_rows-Right :
      (failed unsent : Error) (buffers : List ℕ) (st : Statement) (v : View)
      → Triple
          (At sv law v)
          (select_rows sv failed unsent buffers st)
          (λ rows s. All (λ r. IsOneOf r (answer st v.tables)) rows)
          Anything
  unfolding select_rows send close_statement
  select_rows-Right failed unsent buffers st v =
      Triple-bind (At sv law v) (open_statement sv failed failed st) (λ _. At sv law v) Anything _ _
        (λ s h.
          Post-weaken _ _ (Failed sv law v) Anything (open_statement sv failed failed st s)
            (λ stmt s' x. x) (λ s' x. tt) (open_statement-At sv law failed failed st v s h))
        λ stmt.
          Triple-bind (At sv law v) (send sv unsent unsent stmt st) (λ _. Left st stmt v) Anything _
            _
            (Triple-bind (At sv law v) (check_call sv unsent stmt (sv.bind_param stmt st))
              (λ _. At sv law v) Anything _ _
              (call_then unsent stmt (sv.bind_param stmt st) (λ w. law.view w ≡ v)
                (λ w. law.view w ≡ v) (λ w h done. law.bind_param-view stmt st w ∙ h))
              (λ _.
                call_then unsent stmt (sv.execute stmt st) (λ w. law.view w ≡ v)
                  (λ w. Right st v (reads.pending st stmt w))
                  (λ w h done. rw h at (reads.execute-pending stmt st w done))))
            λ _.
              Triple-bind (Left st stmt v) (check_call sv unsent stmt (sv.bind_result stmt buffers))
                (λ _. Left st stmt v) Anything _ _
                (call_then unsent stmt (sv.bind_result stmt buffers)
                  (λ w. Right st v (reads.pending st stmt w))
                  (λ w. Right st v (reads.pending st stmt w))
                  (λ w h done. rw (reads.bind_result-pending stmt st buffers w) h))
                λ _.
                  Triple-bind (Left st stmt v) _ (λ rows s. Right st v rows) Anything _ _
                    (λ s. fetch_rows-Right st stmt v (suc (sv.num_rows st stmt s.world)) s)
                    (λ rows s h. h)
