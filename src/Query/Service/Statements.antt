-- ===== src/Query/Service/Statements.antt =====
-- The queries of src/query/query_service.cpp on the DAO of src/database/dao.cpp.
use sec_search.Prelude.{
  ℕ, Bool, true, false, List, [], ◌∷◌, map, Option, none, some, Bytes, length, refl, if◌then◌else◌,
}
use sec_search.Prelude.Action.{Action, pure, lift}
use sec_search.Prelude.SortedMap.{SortedMap}
use sec_search.Prelude.Triple.{Keeps, Keeps-bind}
use sec_search.Crypto.Primitives.{Primitives}
use sec_search.Crypto.KeyManager.{KeyManager, idx, get_all_keys}
use sec_search.Database.{FieldType}
use sec_search.Database.Server.{Server, Session}
use sec_search.Database.Dao.{
  query_by_exact_index_multi, query_by_fuzzy_keyword_multi, batch_select_ciphers,
}
use sec_search.Database.Dao.Calls.Closes.{
  query_by_exact_index_multi-KeepsOpen, query_by_fuzzy_keyword_multi-KeepsOpen,
  batch_select_ciphers-KeepsOpen,
}
use sec_search.Query.Limits.{check_keyword_length, check_candidate_limit, check_frequency_limit}
use sec_search.Query.Bigram.{split_bigram}
use sec_search.Query.Records.{Dao, is_empty, decrypt_rows}
use sec_search.Query.Service.{
  State, on_env, on_db, on_timestamps, sort_unique, add_ids, hash_under, hash_tokens,
  fetch_full_records, check_limits, exact_query, search_versions, show_matching, search_tokens,
  fuzzy_query,
}

-- The DAO fills the interface.
abbrev pub session_dao : Server → Dao
session_dao sv = record {
  Db = Session sv;
  batch_select_ciphers = batch_select_ciphers sv;
  query_by_exact_index_multi = query_by_exact_index_multi sv;
  query_by_fuzzy_keyword_multi = query_by_fuzzy_keyword_multi sv;
}

-- Both branches of a test.
if-Keeps :
    {S A X : Type 0} (f : S → X) (b : Bool) (m k : Action S A)
    → Keeps f m
    → Keeps f k
    → Keeps f (if b then m else k)
if-Keeps f true m k h g = h
if-Keeps f false m k h g = g

module _ (c : Primitives) (sv : Server) (keys : KeyManager) (second : ℕ) where
  abbrev Service : Type 0
  Service = State c (session_dao sv) keys second

  abbrev open_statements : Service → ℕ
  open_statements s = s.db.statements

  abbrev Quiet : {A : Type 0} → Action Service A → Type 0
  Quiet m = Keeps open_statements m

  fetch_full_records-Quiet :
      (ids : List ℕ) (enc_key : Bytes) (t : FieldType) (expected : Option Bytes)
      → Quiet (fetch_full_records c (session_dao sv) keys second ids enc_key t expected)
  unfolding fetch_full_records
  fetch_full_records-Quiet ids enc_key t expected =
      if-Keeps open_statements (is_empty ids) (pure []) _ (λ s. refl)
        (Keeps-bind open_statements
          (on_db c (session_dao sv) keys second (batch_select_ciphers sv ids))
          (λ rows.
            on_env c (session_dao sv) keys second (decrypt_rows c keys enc_key t expected rows))
          (λ s. batch_select_ciphers-KeepsOpen sv ids s.db) (λ rows s. refl))

  check_limits-Quiet :
      (now : ℕ) (keyword : Bytes) → Quiet (check_limits c (session_dao sv) keys second now keyword)
  unfolding check_limits
  check_limits-Quiet now keyword =
      Keeps-bind open_statements
        (on_timestamps c (session_dao sv) keys second (check_frequency_limit second now))
        (λ _. lift (check_keyword_length keyword)) (λ s. refl) (λ _ s. refl)

  -- However the server answers, and whatever throws, an exact query leaves as many statements open
  -- as there were before it.
  pub exact_query-Quiet :
      (now : ℕ) (keyword : Bytes) (t : FieldType) (enc_key : Bytes)
      → Quiet (exact_query c (session_dao sv) keys second now keyword t enc_key)
  unfolding exact_query
  exact_query-Quiet now keyword t enc_key =
      Keeps-bind open_statements (check_limits c (session_dao sv) keys second now keyword) _
        (check_limits-Quiet now keyword)
        λ _.
          Keeps-bind open_statements
            (on_env c (session_dao sv) keys second
              (hash_under c (session_dao sv) keys second keyword (get_all_keys idx keys)))
            _ (λ s. refl)
            λ hashes.
              Keeps-bind open_statements
                (on_db c (session_dao sv) keys second
                  (query_by_exact_index_multi sv (sort_unique hashes) t))
                _ (λ s. query_by_exact_index_multi-KeepsOpen sv (sort_unique hashes) t s.db)
                λ ids.
                  Keeps-bind open_statements (lift (check_candidate_limit (length ids))) _
                    (λ s. refl) (λ _. fetch_full_records-Quiet ids enc_key t (some keyword))

  search_versions-Quiet :
      (tokens : List Bytes) (t : FieldType) (versions : List (ℕ × Bytes))
      (set : SortedMap (Unit {0}))
      → Quiet (search_versions c (session_dao sv) keys second tokens t versions set)
  unfolding search_versions
  search_versions-Quiet tokens t [] set s = refl
  search_versions-Quiet tokens t ((v, key) ∷ more) set s =
      Keeps-bind open_statements
        (on_env c (session_dao sv) keys second
          (hash_tokens c (session_dao sv) keys second key tokens))
        _ (λ s'. refl)
        (λ hashes.
          Keeps-bind open_statements
            (on_db c (session_dao sv) keys second (query_by_fuzzy_keyword_multi sv hashes t)) _
            (λ s'. query_by_fuzzy_keyword_multi-KeepsOpen sv hashes t s'.db)
            (λ ids. search_versions-Quiet tokens t more (add_ids ids set)))
        s

  show_matching-Quiet :
      (ids : List ℕ) (keyword : Bytes) (t : FieldType) (enc_key : Bytes)
      → Quiet (show_matching c (session_dao sv) keys second ids keyword t enc_key)
  unfolding show_matching
  show_matching-Quiet ids keyword t enc_key =
      Keeps-bind open_statements (lift (check_candidate_limit (length ids))) _ (λ s. refl)
        λ _.
          Keeps-bind open_statements
            (fetch_full_records c (session_dao sv) keys second ids enc_key t none) _
            (fetch_full_records-Quiet ids enc_key t none) (λ results s. refl)

  -- The same of a fuzzy query.
  pub fuzzy_query-Quiet :
      (now : ℕ) (keyword : Bytes) (t : FieldType) (enc_key : Bytes)
      → Quiet (fuzzy_query c (session_dao sv) keys second now keyword t enc_key)
  unfolding fuzzy_query search_tokens
  fuzzy_query-Quiet now keyword t enc_key =
      Keeps-bind open_statements (check_limits c (session_dao sv) keys second now keyword) _
        (check_limits-Quiet now keyword)
        λ _.
          if-Keeps open_statements (is_empty (split_bigram keyword)) (pure []) _ (λ s. refl)
            (Keeps-bind open_statements
              (search_versions c (session_dao sv) keys second (split_bigram keyword) t
                (get_all_keys idx keys) [])
              _ (search_versions-Quiet (split_bigram keyword) t (get_all_keys idx keys) [])
              λ set.
                if-Keeps open_statements (is_empty set) (pure []) _ (λ s. refl)
                  (show_matching-Quiet (map (λ e. e.0) set) keyword t enc_key))
