-- ===== src/Database/Server/Effects.antt =====
-- What a whole statement does to the tables, by what its calls do.
use sec_search.Prelude.{
  ℕ, ◌+◌, Bool, true, false, Error, Bool-cases, Option-cases, ◌≡◌, ◌∙◌, ap, inl, inr,
}
use sec_search.Prelude.Action.{pure}
use sec_search.Prelude.Triple.{Triple, Triple-bind}
use sec_search.Database.Server.{
  Server, Session, Statement, close_statement, check_call, open_statement, send, write, insert_row,
}
use sec_search.Database.Server.Tables.{effect, generated}
use sec_search.Database.Server.Lawful.{View, Undone, Lawful}

abbrev pub after : Statement → View → View
after st v = record { tables = effect st v.tables; saved = v.saved }

module _ (sv : Server) (law : Lawful sv) where
  abbrev pub At : View → Session sv → Type 0
  At v s = law.view s.world ≡ v

  -- Behind a statement that failed.
  abbrev pub Failed : View → Session sv → Type 0
  Failed v s = Undone v (law.view s.world)

  close_statement-At :
      (stmt : sv.Stmt) (v : View) (F : Session sv → Type 0)
      → Triple (At v) (close_statement sv stmt) (λ _. At v) F
  unfolding close_statement
  close_statement-At stmt v F s h = law.close-view stmt s.world ∙ h

  -- A call by what it does to the tables on either result.
  check_call-At :
      (e : Error) (stmt : sv.Stmt) (call : sv.World → Bool × sv.World) (v : View)
      (P : Session sv → Type 0)
      → ((w : sv.World) (n : ℕ)
          → law.view w ≡ v
          → (call w).0 ≡ true
          → P (record { world = (call w).1; statements = n }))
      → ((w : sv.World) → law.view w ≡ v → (call w).0 ≡ false → Undone v (law.view (call w).1))
      → Triple (At v) (check_call sv e stmt call) (λ _. P) (Failed v)
  unfolding check_call close_statement
  check_call-At e stmt call v P good bad s h = elim (Bool-cases (call s.world).0) [
    | inl done ↦ rw done (good s.world s.statements h done)
    | inr failed ↦ rw failed (rw (law.close-view stmt (call s.world).1) (bad s.world h failed))
  ]

  -- A call that leaves the tables alone.
  quiet_call-At :
      (e : Error) (stmt : sv.Stmt) (call : sv.World → Bool × sv.World) (v : View)
      → ((w : sv.World) → law.view (call w).1 ≡ law.view w)
      → Triple (At v) (check_call sv e stmt call) (λ _. At v) (Failed v)
  quiet_call-At e stmt call v keeps =
      check_call-At e stmt call v (At v) (λ w n h done. keeps w ∙ h)
        (λ w h failed. inl (keeps w ∙ h))

  pub open_statement-At :
      (missing failed : Error) (st : Statement) (v : View)
      → Triple (At v) (open_statement sv missing failed st) (λ _. At v) (Failed v)
  unfolding open_statement
  open_statement-At missing failed st v s h = elim (Option-cases (sv.init s.world).0) [
    | inl absent ↦ rw (absent, open_statement) (inl (law.init-view s.world ∙ h))
    | inr (stmt, made) ↦
        rw (made, open_statement)
          (Triple-bind (At v) (check_call sv failed stmt (sv.prepare stmt st)) (λ _. At v)
            (Failed v) (λ _. pure stmt) (λ _. At v)
            (quiet_call-At failed stmt (sv.prepare stmt st) v (law.prepare-view stmt st))
            (λ _ s' h'. h')
            (record s { world = (sv.init s.world).1; statements = s.statements + 1 })
            (law.init-view s.world ∙ h))
  ]

  -- The tables behind a statement that was executed, and its AUTO_INCREMENT id.
  abbrev Sent : sv.Stmt → Statement → View → Session sv → Type 0
  Sent stmt st v s = At (after st v) s × (sv.insert_id stmt s.world ≡ generated st v.tables)

  execute-Sent :
      (e : Error) (stmt : sv.Stmt) (st : Statement) (v : View)
      → Triple (At v) (check_call sv e stmt (sv.execute stmt st)) (λ _. Sent stmt st v) (Failed v)
  execute-Sent e stmt st v =
      check_call-At e stmt (sv.execute stmt st) v (Sent stmt st v)
        (λ w n h done. (
          law.execute-view stmt st w done ∙ ap (λ u. after st u) h,
          law.insert_id-generated stmt st w done ∙ ap (λ u. generated st u.tables) h,
        ))
        (λ w h failed. rw (← h) (law.execute-fails stmt st w failed))

  send-Sent :
      (unbound failed : Error) (stmt : sv.Stmt) (st : Statement) (v : View)
      → Triple (At v) (send sv unbound failed stmt st) (λ _. Sent stmt st v) (Failed v)
  unfolding send
  send-Sent unbound failed stmt st v =
      Triple-bind (At v) (check_call sv unbound stmt (sv.bind_param stmt st)) (λ _. At v) (Failed v)
        (λ _. check_call sv failed stmt (sv.execute stmt st)) (λ _. Sent stmt st v)
        (quiet_call-At unbound stmt (sv.bind_param stmt st) v (law.bind_param-view stmt st))
        (λ _. execute-Sent failed stmt st v)

  pub write-At :
      (missing failed unbound unsent : Error) (st : Statement) (v : View)
      → Triple (At v) (write sv missing failed unbound unsent st) (λ _. At (after st v)) (Failed v)
  unfolding write
  write-At missing failed unbound unsent st v =
      Triple-bind (At v) (open_statement sv missing failed st) (λ _. At v) (Failed v) _ _
        (open_statement-At missing failed st v)
        λ stmt.
          Triple-bind (At v) (send sv unbound unsent stmt st) (λ _. Sent stmt st v) (Failed v) _ _
            (send-Sent unbound unsent stmt st v)
            λ _ s h. close_statement-At stmt (after st v) (Failed v) s h.0

  pub insert_row-At :
      (failed unsent : Error) (st : Statement) (v : View)
      → Triple
          (At v)
          (insert_row sv failed unsent st)
          (λ id s. At (after st v) s × (id ≡ generated st v.tables))
          (Failed v)
  unfolding insert_row close_statement
  insert_row-At failed unsent st v =
      Triple-bind (At v) (open_statement sv failed failed st) (λ _. At v) (Failed v) _ _
        (open_statement-At failed failed st v)
        λ stmt.
          Triple-bind (At v) (send sv unsent unsent stmt st) (λ _. Sent stmt st v) (Failed v) _ _
            (send-Sent unsent unsent stmt st v) λ _ s h. (law.close-view stmt s.world ∙ h.0, h.1)
