-- ===== src/Database/Transaction/OnSession.antt =====
-- The transactions of a connection, by the laws of the server.
use sec_search.Prelude.{Bool-cases, some, ◌≡◌, ap, ◌∙◌, sym, inl, inr}
use sec_search.Database.Server.{Server, Session, Control, real_query}
use sec_search.Database.Server.Tables.{Tables}
use sec_search.Database.Server.Lawful.{View, Undone, Lawful}
use sec_search.Database.Transaction.Atomic.{Controls, outside, inside, Open}

-- A statement that fails in a transaction leaves it open, or ended.
pub Undone-Open : (t u : Tables) (v : View) → Undone (inside t u) v → Open t v
Undone-Open t u v (inl e) = inl (ap (λ x. x.saved) e)
Undone-Open t u v (inr (t', e, e')) = inr (e' ∙ ap outside (sym (some-injective e)))
  where
    some-injective : {a b : Tables} → some a ≡ some b → a ≡ b
    some-injective h = cc

module _ (sv : Server) (law : Lawful sv) where
  abbrev pub session_view : Session sv → View
  session_view s = law.view s.world

  pub session-Controls : Controls (real_query sv) session_view (λ s. tt {0})
  unfolding real_query
  session-Controls = record {
    starts = λ t e s h. elim (Bool-cases (sv.real_query Control.start_transaction s.world).0) [
      | inl done ↦
          rw (done, real_query)
            (
              law.start-view s.world (ap (λ v. v.saved) h.0) done
                  ∙ ap (λ v. inside v.tables v.tables) h.0,
              h.1,
            )
      | inr failed ↦ rw (failed, real_query) (law.start-fails s.world failed ∙ h.0)
    ];
    commits = λ t u s h. elim (Bool-cases (sv.real_query Control.commit s.world).0) [
      | inl done ↦
          rw (done, real_query) (law.commit-view s.world done ∙ ap (λ v. outside v.tables) h)
      | inr failed ↦
          rw (failed, real_query)
            (Undone-Open t u (law.view (sv.real_query Control.commit s.world).1)
              (rw h at (law.commit-fails s.world failed)))
    ];
    rolls_back = λ t s h. elim h [
      | inl still ↦ law.rollback-view s.world t still
      | inr over ↦ law.rollback-nothing s.world (ap (λ x. x.saved) over) ∙ over
    ];
  }
