-- ===== src/Console/Menu/Ends.antt =====
-- The index rebuild that the menu of src/main.cpp starts comes to an end.
use sec_search.Prelude.{
  ℕ, zero, suc, ◌<◌, Bool, true, false, Bytes, Option, none, some, Result, ok, throw, Error,
  if◌then◌else◌, ◌≡◌, refl, arith,
}
use sec_search.Prelude.Action.{Action, pure, Gives, Ensures, then-Ensures, Gives-ok}
use sec_search.Prelude.Int.{ℤ, pos, negsuc}
use sec_search.Crypto.Primitives.{Primitives}
use sec_search.Database.ConnectionPool.{Mysql}
use sec_search.Database.Server.{Server}
use sec_search.Database.Server.Lawful.{Lawful}
use sec_search.Database.Server.Reads.{Answering}
use sec_search.Database.Dao.Tasks.{create_rebuild_task}
use sec_search.Database.Dao.Records.{on_session}
use sec_search.Rebuild.{rebuild_field}
use sec_search.Rebuild.Ends.{run_task-Returns}
use sec_search.Crypto.KeyManager.{KeyManager}
use sec_search.Console.{App}
use sec_search.Console.Input.{
  Lines, RebuildRequest, get_int_input, batch_size_of, get_rebuild_request,
}
use sec_search.Console.Records.{printed, rebuild_index}

batch_size_of-pos : (n : ℤ) → 0 < batch_size_of n
unfolding batch_size_of
batch_size_of-pos (pos zero) = omega arith
batch_size_of-pos (pos (suc n)) = omega arith
batch_size_of-pos (negsuc n) = omega arith

-- A request, if there is one, has a batch of at least one.
abbrev HasBatch : Option RebuildRequest → Type 0
HasBatch none = Unit
HasBatch (some r) = 0 < r.batch_size

if-Ensures :
    {S A : Type 0} (P : A → Type 0) (b : Bool) (m k : Action S A)
    → Ensures P m
    → Ensures P k
    → Ensures P (if b then m else k)
if-Ensures P true m k h g = h
if-Ensures P false m k h g = g

get_rebuild_request-HasBatch : Ensures HasBatch get_rebuild_request
unfolding get_rebuild_request
get_rebuild_request-HasBatch = then-Ensures HasBatch (get_int_input (pos 1)) _ λ code.
    then-Ensures HasBatch (get_int_input (pos 1)) _ λ start_id.
      then-Ensures HasBatch (get_int_input (pos 0)) _ λ end_id.
        if-Ensures HasBatch _ (pure none) _ (λ s. tt)
          (then-Ensures HasBatch (get_int_input (pos 100)) _ (λ size s. batch_size_of-pos size))

module _ (c : Primitives) (db : Mysql) (sv : Server) (law : Lawful sv) (reads : Answering sv law)
    (what : Error → Bytes) where
  rebuild_field_ends :
      (keys : KeyManager) (code start_id end_id batch_size : ℕ)
      → 0 < batch_size
      → Ensures
          (λ r. (n : ℕ) × (r ≡ some n))
          (rebuild_field c sv keys code start_id end_id batch_size)
  unfolding rebuild_field
  rebuild_field_ends keys code start_id end_id batch_size h =
      then-Ensures (λ r. (n : ℕ) × (r ≡ some n))
        (on_session c sv (create_rebuild_task sv code start_id end_id)) _
        (λ task_id. run_task-Returns c sv law reads keys task_id batch_size h)

  printed-ends :
      (r : Result (Option ℕ) × App c db sv)
      → Gives (λ o. (n : ℕ) × (o ≡ some n)) r.0
      → (printed c db sv what r).0 ≡ ok (some tt)
  unfolding printed
  printed-ends (ok none, s) (n, e) = cc
  printed-ends (ok (some n), s) h = refl
  printed-ends (throw e, s) h = refl

  -- Whatever is typed in, if it is taken for a range to rebuild, then the rebuild ends, in every
  -- state of the program, on a database that gives the rows that MySQL documents: the menu never
  -- asks for a batch of none.
  pub rebuild_index_ends :
      (lines : Lines) (r : RebuildRequest) (s : App c db sv)
      → (get_rebuild_request lines).0 ≡ ok (some r)
      → (rebuild_index c db sv what r s).0 ≡ ok (some tt)
  unfolding rebuild_index
  rebuild_index_ends lines r s asked = printed-ends _ (
      rebuild_field_ends s.keys r.rebuild_code r.start_id r.end_id r.batch_size
        (Gives-ok HasBatch _ (some r) (get_rebuild_request-HasBatch lines) asked) s.store)
