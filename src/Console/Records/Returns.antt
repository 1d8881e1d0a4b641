-- ===== src/Console/Records/Returns.antt =====
-- No exception leaves the functions of src/main.cpp that read and write the records.
use sec_search.Prelude.{
  ℕ, Bool, Bytes, List, Option, none, some, Result, ok, throw, Error, ◌≡◌, refl,
}
use sec_search.Prelude.Action.{Action, ◌>>=◌}
use sec_search.Prelude.Triple.{Returns}
use sec_search.Crypto.Primitives.{Primitives}
use sec_search.Database.{FieldType, PlainData}
use sec_search.Database.ConnectionPool.{Mysql}
use sec_search.Database.Server.{Server}
use sec_search.Audit.{log_operation, log_row, swallowed}
use sec_search.Query.Records.{FullRecord}
use sec_search.Console.{App}
use sec_search.Console.Input.{RebuildRequest}
use sec_search.Console.Rotation.{Clock}
use sec_search.Console.Records.{
  Request, Report, reported, log, insert_record, update_record, delete_record, run_query,
  run_exact_query, run_fuzzy_query, printed, rebuild_index,
}

module _ (c : Primitives) (db : Mysql) (sv : Server) (what : Error → Bytes) where
  log-Returns :
      (q : Request) (operation : Bytes) (code candidates : ℕ) (r : Report)
      → Returns (log c db sv what q operation code candidates r)
  unfolding log log_operation log_row swallowed
  log-Returns q operation code candidates r s = (tt, refl)

  -- Whatever the body of a `try` ends with, what follows is a call of the logger.
  reported-Returns :
      {A : Type 0} (f : A → Report) (r : Result A × App c db sv)
      (k : Report → Action (App c db sv) (Unit {0}))
      → ((x : Report) → Returns (k x))
      → (a : Unit {0}) × ((((λ s. reported what f r) >>= k) r.1).0 ≡ ok a)
  unfolding reported
  reported-Returns f (ok a, s) k h = h (f a) s
  reported-Returns f (throw e, s) k h = h _ s

  pub insert_record-Returns :
      (writable : Bool) (clock : Clock) (q : Request) (plain : PlainData)
      → Returns (insert_record c db sv what writable clock q plain)
  unfolding insert_record
  insert_record-Returns writable clock q plain s =
      reported-Returns _ _ (log c db sv what q _ 0 0) (log-Returns q _ 0 0)

  pub update_record-Returns :
      (q : Request) (id : ℕ) (plain : PlainData) → Returns (update_record c db sv what q id plain)
  unfolding update_record
  update_record-Returns q id plain s =
      reported-Returns _ _ (log c db sv what q _ 0 0) (log-Returns q _ 0 0)

  pub delete_record-Returns : (q : Request) (id : ℕ) → Returns (delete_record c db sv what q id)
  unfolding delete_record
  delete_record-Returns q id s =
      reported-Returns _ _ (log c db sv what q _ 0 0) (log-Returns q _ 0 0)

  run_query-Returns :
      (q : Request) (operation : Bytes) (t : FieldType)
      (query : Action (App c db sv) (List FullRecord))
      → Returns (run_query c db sv what q operation t query)
  unfolding run_query
  run_query-Returns q operation t query s =
      reported-Returns _ (query s) (λ r. log c db sv what q operation _ r.results r)
        (λ r. log-Returns q operation _ r.results r)

  pub run_exact_query-Returns :
      (q : Request) (second now : ℕ) (keyword : Bytes) (t : FieldType)
      → Returns (run_exact_query c db sv what q second now keyword t)
  unfolding run_exact_query
  run_exact_query-Returns q second now keyword t s = run_query-Returns q _ t _ s

  pub run_fuzzy_query-Returns :
      (q : Request) (second now : ℕ) (keyword : Bytes) (t : FieldType)
      → Returns (run_fuzzy_query c db sv what q second now keyword t)
  unfolding run_fuzzy_query
  run_fuzzy_query-Returns q second now keyword t s = run_query-Returns q _ t _ s

  pub rebuild_index-Returns : (r : RebuildRequest) → Returns (rebuild_index c db sv what r)
  unfolding rebuild_index
  rebuild_index-Returns r s = through _
    where
      through :
          (x : Result (Option ℕ) × App c db sv)
          → (a : Option (Unit {0})) × ((printed c db sv what x).0 ≡ ok a)
      through (ok none, s') = (none, refl)
      through (ok (some n), s') = (some tt, refl)
      through (throw e, s') = (some tt, refl)
