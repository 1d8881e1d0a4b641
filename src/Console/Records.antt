-- ===== src/Console/Records.antt =====
-- `insertData`, `exactQuery`, `fuzzyQuery`, `updateData`, `deleteData` and `rebuildIndex` of
-- src/main.cpp, behind their questions. The request id, the time that a call takes and the texts of
-- the exceptions (`what`) come from outside. There is an audit logger from the start on.
pub mod Returns
use sec_search.Prelude.{
  ℕ, ◌+◌, Bool, true, false, List, [], ◌∷◌, Option, none, some, Bytes, length, codes, Result, ok,
  throw, Error, if◌then◌else◌,
}
use sec_search.Prelude.Action.{Action, pure, gets, ◌>>=◌, ◌>>◌}
use sec_search.Crypto.Primitives.{Primitives}
use sec_search.Crypto.KeyManager.{KeyManager}
use sec_search.Database.{FieldType, PlainData}
use sec_search.Database.ConnectionPool.{Mysql}
use sec_search.Database.Server.{Server}
use sec_search.Database.Dao.Records.{insert_data, update_data, delete_data, on_session}
use sec_search.Audit.{Logger, log_operation}
use sec_search.Query.Records.{FullRecord}
use sec_search.Query.Service.{State, exact_query, fuzzy_query}
use sec_search.Query.Service.Statements.{session_dao}
use sec_search.Rebuild.{rebuild_field}
use sec_search.Console.{App, on_store, on_logger}
use sec_search.Console.Input.{RebuildRequest, field_code}
use sec_search.Console.Rotation.{Clock, check_and_auto_rotate}

-- The request id, and `durationMs`.
pub record Request : Type 0 where
  pub request_id : Bytes
  pub duration_ms : ℕ

-- What the `try` leaves in `success`, `resultCount` and `errorMsg`.
pub record Report : Type 0 where
  pub success : Bool
  pub results : ℕ
  pub error_msg : Bytes

abbrev pub failure : Bytes → Report
failure msg = record { success = false; results = 0; error_msg = msg }

module _ (what : Error → Bytes) where
  -- `catch (const std::exception& e)`, with the number of results of a call that returns.
  unfoldable pub reported : {S A : Type 0} → (A → Report) → Result A × S → Result Report × S
  reported f (ok a, s) = (ok (f a), s)
  reported f (throw e, s) = (ok (failure (what e)), s)

abbrev pub counted : ℕ → Report
counted n = record { success = true; results = n; error_msg = [] }

-- What a call that answers by a Boolean is reported as.
abbrev pub done_or : Bytes → Bool → Report
done_or msg true = counted 1
done_or msg false = failure msg

module _ (c : Primitives) (db : Mysql) (sv : Server) (what : Error → Bytes) where
  abbrev Program : Type 0
  Program = App c db sv

  -- The end of each of the functions.
  unfoldable pub log : Request → Bytes → ℕ → ℕ → Report → Action Program (Unit {0})
  log q operation code candidates r = on_logger c db sv (
      log_operation db sv q.request_id operation code candidates r.results q.duration_ms r.success
        r.error_msg)

  -- An automatic rotation that fails does not fail the insert.
  unfoldable pub insert_record : Bool → Clock → Request → PlainData → Action Program (Unit {0})
  unfolding log reported
  insert_record writable clock q plain = do
    let insert = λ (s : Program).
        on_store c db sv
          (insert_data c sv plain s.enc_key s.idx_key s.tag_key s.keys.current_enc_version) s
    let body = insert >>= λ id. check_and_auto_rotate c db sv writable clock
    report ← (λ s. reported what (λ _. counted 1) (body s))
    log q (codes "INSERT") 0 0 report

  unfoldable pub update_record : Request → ℕ → PlainData → Action Program (Unit {0})
  unfolding log reported
  update_record q id plain = do
    let update = λ (s : Program).
        on_store c db sv
          (update_data c sv id plain s.enc_key s.idx_key s.tag_key s.keys.current_enc_version) s
    report ← (λ s. reported what (done_or (codes "记录不存在或更新失败")) (update s))
    log q (codes "UPDATE") 0 0 report

  unfoldable pub delete_record : Request → ℕ → Action Program (Unit {0})
  unfolding log reported
  delete_record q id = do
    let delete = on_store c db sv (on_session c sv (delete_data sv id))
    report ← (λ s. reported what (done_or (codes "记录不存在或删除失败")) (delete s))
    log q (codes "DELETE") 0 0 report

  -- A call of the query service, which has the connection of the DAO.
  unfoldable pub on_service :
      {A : Type 0}
      → (second : ℕ) → ((keys : KeyManager) → Action (State c (session_dao sv) keys second) A)
      → Action Program A
  on_service second a s =
      let (r, t) =
        a s.keys (record { env = s.store.env; db = s.store.session; timestamps = s.timestamps }) in
      (r, record s { store = record { env = t.env; session = t.db }; timestamps = t.timestamps })

  -- A query with its report; the number of results stands for the candidates, too.
  unfoldable pub run_query :
      Request → Bytes → FieldType → Action Program (List FullRecord) → Action Program (Unit {0})
  unfolding log reported
  run_query q operation t query = do
    report ← (λ s. reported what (λ found. counted (length found)) (query s))
    log q operation (field_code t) report.results report

  unfoldable pub run_exact_query : Request → ℕ → ℕ → Bytes → FieldType → Action Program (Unit {0})
  run_exact_query q second now keyword t = λ s.
      run_query q (codes "EXACT_QUERY") t
        (on_service second
          (λ keys. exact_query c (session_dao sv) keys second now keyword t s.enc_key))
        s

  unfoldable pub run_fuzzy_query : Request → ℕ → ℕ → Bytes → FieldType → Action Program (Unit {0})
  run_fuzzy_query q second now keyword t = λ s.
      run_query q (codes "FUZZY_QUERY") t
        (on_service second
          (λ keys. fuzzy_query c (session_dao sv) keys second now keyword t s.enc_key))
        s

  -- `rebuildIndex`, where the result is printed and an exception is, too; `none` if the loop of the
  -- rebuilder runs out of fuel.
  unfoldable pub printed : {S : Type 0} → Result (Option ℕ) × S → Result (Option (Unit {0})) × S
  printed (ok none, s) = (ok none, s)
  printed (ok (some n), s) = (ok (some tt), s)
  printed (throw e, s) = (ok (some tt), s)

  unfoldable pub rebuild_index : RebuildRequest → Action Program (Option (Unit {0}))
  unfolding printed
  rebuild_index r s = printed (
      on_store c db sv (rebuild_field c sv s.keys r.rebuild_code r.start_id r.end_id r.batch_size)
        s)
