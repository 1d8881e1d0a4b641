-- ===== src/Query/Service.antt =====
-- `QueryService::exactQuery` and `QueryService::fuzzyQuery` of src/query/query_service.cpp.
pub mod Answers
pub mod Statements
mod Tests
use sec_search.Prelude.{
  ℕ, Bool, true, false, not, ◌&&◌, ◌||◌, List, [], ◌∷◌, ◌++◌, map, Option, none, some, Bytes,
  length, Result, ok, throw, same, ltb, ◌==◌, if◌then◌else◌,
}
use sec_search.Prelude.Action.{Action, pure, lift, ◌>>=◌, ◌>>◌}
use sec_search.Prelude.SortedMap.{SortedMap, insert, keys}
use sec_search.Crypto.Primitives.{Primitives}
use sec_search.Crypto.KeyManager.{KeyManager, idx, get_all_keys}
use sec_search.Database.{CipherRecord, FieldType}
use sec_search.Query.Limits.{check_keyword_length, check_candidate_limit, check_frequency_limit}
use sec_search.Query.Bigram.{split_bigram}
use sec_search.Query.Records.{Dao, FullRecord, is_empty, text_of, decrypt_rows}

-- `std::string::operator<`.
pub before : Bytes → Bytes → Bool
before s [] = false
before [] (b ∷ t) = true
before (a ∷ s) (b ∷ t) = let rest = before s t in if a == b then rest else ltb a b

-- `std::sort` and `std::unique`, one hash after the other.
add_hash : Bytes → List Bytes → List Bytes
add_hash h [] = h ∷ []
add_hash h (g ∷ hs) =
    let rest = add_hash h hs in
    if same h g then g ∷ hs else if before h g then h ∷ g ∷ hs else g ∷ rest

pub sort_unique : List Bytes → List Bytes
unfolding add_hash
sort_unique [] = []
sort_unique (h ∷ hs) = add_hash h (sort_unique hs)

-- `text.find(keyword) != npos`.
pub starts_with : Bytes → Bytes → Bool
starts_with s [] = true
starts_with [] (b ∷ t) = false
starts_with (a ∷ s) (b ∷ t) = (a == b) && starts_with s t

pub contains : Bytes → Bytes → Bool
contains [] keyword = starts_with [] keyword
contains (a ∷ s) keyword = starts_with (a ∷ s) keyword || contains s keyword

-- The loop over the results of a fuzzy query.
pub keep_matching : FieldType → Bytes → List FullRecord → List FullRecord
keep_matching t keyword [] = []
keep_matching t keyword (r ∷ rs) =
    let rest = keep_matching t keyword rs in
    if contains (text_of t r) keyword then r ∷ rest else rest

-- `idSet`, as a map to nothing.
pub add_ids : List ℕ → SortedMap (Unit {0}) → SortedMap (Unit {0})
add_ids [] set = set
add_ids (id ∷ ids) set = add_ids ids (insert id tt set)

module _ (c : Primitives) (dao : Dao) (keys : KeyManager) (second : ℕ) where
  -- The library, the database, and `requestTimestamps_`.
  pub record State : Type 0 where
    pub env : c.Env
    pub db : dao.Db
    pub timestamps : List ℕ

  abbrev pub on_env : {A : Type 0} → Action c.Env A → Action State A
  on_env a s = let (r, e) = a s.env in (r, record s { env = e })

  abbrev pub on_db : {A : Type 0} → Action dao.Db A → Action State A
  on_db a s = let (r, d) = a s.db in (r, record s { db = d })

  abbrev pub on_timestamps : {A : Type 0} → Action (List ℕ) A → Action State A
  on_timestamps a s = let (r, ts) = a s.timestamps in (r, record s { timestamps = ts })

  -- The hash of a keyword under each index key, and of each token under one key.
  unfoldable pub hash_under : Bytes → List (ℕ × Bytes) → Action c.Env (List Bytes)
  hash_under keyword [] = pure []
  hash_under keyword ((v, key) ∷ more) = do
    h ← c.hmac_hex keyword key
    hs ← hash_under keyword more
    pure (h ∷ hs)

  pub hash_tokens : Bytes → List Bytes → Action c.Env (List Bytes)
  hash_tokens key [] = pure []
  hash_tokens key (token ∷ more) = do
    h ← c.hmac_hex token key
    hs ← hash_tokens key more
    pure (h ∷ hs)

  unfoldable pub fetch_full_records :
      List ℕ → Bytes → FieldType → Option Bytes → Action State (List FullRecord)
  fetch_full_records ids enc_key t expected =
      let run = on_db (dao.batch_select_ciphers ids) >>= λ rows.
      on_env (decrypt_rows c keys enc_key t expected rows) in
      if is_empty ids then pure [] else run

  -- Both queries begin with these; the clock is read once.
  unfoldable pub check_limits : ℕ → Bytes → Action State (Unit {0})
  check_limits now keyword = do
    on_timestamps (check_frequency_limit second now)
    lift (check_keyword_length keyword)

  unfoldable pub exact_query : ℕ → Bytes → FieldType → Bytes → Action State (List FullRecord)
  unfolding check_limits
  exact_query now keyword t enc_key = do
    check_limits now keyword
    hashes ← on_env (hash_under keyword (get_all_keys idx keys))
    ids ← on_db (dao.query_by_exact_index_multi (sort_unique hashes) t)
    lift (check_candidate_limit (length ids))
    fetch_full_records ids enc_key t (some keyword)

  -- The loop over the index keys.
  unfoldable pub search_versions :
      List Bytes
      → FieldType
      → List (ℕ × Bytes)
      → SortedMap (Unit {0})
      → Action State (SortedMap (Unit {0}))
  search_versions tokens t [] set = pure set
  search_versions tokens t ((v, key) ∷ more) set = do
    hashes ← on_env (hash_tokens key tokens)
    ids ← on_db (dao.query_by_fuzzy_keyword_multi hashes t)
    search_versions tokens t more (add_ids ids set)

  -- Behind the collection of the ids.
  unfoldable pub show_matching : List ℕ → Bytes → FieldType → Bytes → Action State (List FullRecord)
  show_matching ids keyword t enc_key = do
    lift (check_candidate_limit (length ids))
    results ← fetch_full_records ids enc_key t none
    pure (keep_matching t keyword results)

  -- Behind the limits.
  unfoldable pub search_tokens :
      List Bytes → Bytes → FieldType → Bytes → Action State (List FullRecord)
  unfolding search_versions show_matching
  search_tokens tokens keyword t enc_key = do
    set ← search_versions tokens t (get_all_keys idx keys) []
    let shown = show_matching (map (λ e. e.0) set) keyword t enc_key
    if is_empty set then pure [] else shown

  unfoldable pub fuzzy_query : ℕ → Bytes → FieldType → Bytes → Action State (List FullRecord)
  unfolding check_limits search_tokens
  fuzzy_query now keyword t enc_key = do
    check_limits now keyword
    let tokens = split_bigram keyword
    let search = search_tokens tokens keyword t enc_key
    if is_empty tokens then pure [] else search
