-- ===== src/Rebuild/Range.antt =====
-- The records that `runTask` of src/audit/index_rebuilder.cpp fetches for a batch.
use sec_search.Prelude.{
  ℕ, zero, suc, ◌≤◌, ◌<◌, ◌&&◌, List, [], ◌∷◌, map, take, Result, ok, throw, Error, All, leb,
  Bool-cases, refl, inl, inr, arith,
}
use sec_search.Prelude.Action.{pure, ◌>>=◌, Gives, Ensures}
use sec_search.Prelude.Triple.{Post}
use sec_search.Crypto.Primitives.{Primitives}
use sec_search.Database.{RebuildRawRecord}
use sec_search.Database.Server.{
  Server, Session, Statement, MainRow, SelectedRow, select_rows, cipher_buffers,
}
use sec_search.Database.Server.Tables.{filter}
use sec_search.Database.Server.Lawful.{Lawful}
use sec_search.Database.Server.Answers.{answer, selected}
use sec_search.Database.Server.Reads.{IsOneOf, Answering, select_rows-Right}
use sec_search.Database.Dao.Rows.{raw_record}
use sec_search.Database.Dao.Tasks.{get_records_for_rebuild}
use sec_search.Database.Dao.Records.{on_session}

-- A row of the range is not below its first id.
IsOneOf-take : {A : Type 0} (n : ℕ) (x : A) (xs : List A) → IsOneOf x (take n xs) → IsOneOf x xs
IsOneOf-take zero x xs h = absurd h
IsOneOf-take (suc n) x [] h = h
IsOneOf-take (suc n) x (y ∷ ys) (inl e) = inl e
IsOneOf-take (suc n) x (y ∷ ys) (inr h) = inr (IsOneOf-take n x ys h)

selected_in_range :
    (a b : ℕ) (r : SelectedRow) (n : ℕ) (rows : List (ℕ × MainRow))
    → IsOneOf r (map (λ e. selected e) (take n (filter (λ e. leb a e.0 && leb e.0 b) rows)))
    → (a ≤ r.id) × (r.id ≤ b) × (0 < n)
selected_in_range a b r zero rows h = absurd h
selected_in_range a b r (suc n) [] h = absurd h
selected_in_range a b r (suc n) ((id, row) ∷ rows) h = elim (Bool-cases (leb a id && leb id b)) [
  | inl kept ↦ elim (rw kept at h) [
    | inl here ↦ rw here (ground (arith, kept), ground (arith, kept), omega arith)
    | inr later ↦
        let (lo, hi, some_row) = selected_in_range a b r n rows later in (lo, hi, omega arith)
  ]
  | inr dropped ↦ selected_in_range a b r (suc n) rows (rw dropped at h)
]

module _ (c : Primitives) (sv : Server) (law : Lawful sv) (reads : Answering sv law) where
  -- The ids of a batch are in its range, and there are none if its limit is 0.
  abbrev pub InRange : ℕ → ℕ → ℕ → List RebuildRawRecord → Type 0
  InRange a b n = All (λ r. (a ≤ r.id) × (r.id ≤ b) × (0 < n))

  pub get_records_for_rebuild-InRange :
      (a b n : ℕ) → Ensures (InRange a b n) (on_session c sv (get_records_for_rebuild sv a b n))
  unfolding get_records_for_rebuild answer raw_record
  get_records_for_rebuild-InRange a b n s =
      through
        (select_rows sv Error.prepare_get_records_failed Error.use_of_closed_statement
          cipher_buffers (Statement.select_range a b n) s.session)
        (select_rows-Right sv law reads _ _ cipher_buffers (Statement.select_range a b n)
          (law.view s.session.world) s.session refl)
    where
      in_range :
          (rows : List SelectedRow)
          → All
              (λ r.
                IsOneOf r (answer (Statement.select_range a b n) (law.view s.session.world).tables))
              rows
          → InRange a b n (map (λ row. raw_record row) rows)
      in_range [] h = tt
      in_range (r ∷ rows) h = (
        selected_in_range a b r n (law.view s.session.world).tables.sensitive_data h.0,
        in_range rows h.1,
      )

      through :
          (r : Result (List SelectedRow) × Session sv)
          → Post
              (λ rows s'.
                All
                  (λ r'.
                    IsOneOf r'
                      (answer (Statement.select_range a b n) (law.view s.session.world).tables))
                  rows)
              (λ s'. Unit {0})
              r
          → Gives
              (InRange a b n)
              (((λ s'. r) >>= λ rows. pure (map (λ row. raw_record row) rows)) s.session).0
      through (ok rows, s') h = in_range rows h
      through (throw e, s') h = tt
