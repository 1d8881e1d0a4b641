-- ===== src/Query/Service/Answers.antt =====
-- What the two queries show.
use sec_search.Prelude.{
  ℕ, true, List, [], ◌∷◌, ◌++◌, map, none, some, Bytes, length, ok, All, Bool-cases, ◌≡◌, refl, ap,
  inl, inr, arith,
}
use sec_search.Prelude.Action.{lift, Ensures, then-Ensures, Gives-ok}
use sec_search.Crypto.Primitives.{Primitives}
use sec_search.Crypto.KeyManager.{KeyManager, idx, get_all_keys}
use sec_search.Database.{FieldType}
use sec_search.Query.Limits.{check_candidate_limit}
use sec_search.Query.Bigram.{split_bigram}
use sec_search.Query.Records.{Dao, FullRecord, is_empty, text_of}
use sec_search.Query.Records.Laws.{Shows, decrypt_rows-Shows}
use sec_search.Query.Service.{
  State, on_env, on_db, starts_with, contains, keep_matching, sort_unique, hash_under, check_limits,
  fetch_full_records, search_versions, show_matching, search_tokens, exact_query, fuzzy_query,
}

-- A text with the keyword somewhere in it.
abbrev pub Contains : Bytes → Bytes → Type 0
Contains text keyword = (before : Bytes) × (after : Bytes) × (text ≡ before ++ (keyword ++ after))

starts_with_sound :
    (s keyword : Bytes) → starts_with s keyword ≡ true → (after : Bytes) × (s ≡ keyword ++ after)
unfolding starts_with
starts_with_sound s [] h = (s, refl)
starts_with_sound [] (b ∷ t) h = cc
starts_with_sound (a ∷ s) (b ∷ t) h =
    let (after, e) = starts_with_sound s t (ground arith) in
    let first : a ≡ b = ground arith in (after, rw first (ap (◌∷◌ b) e))

contains_sound : (s keyword : Bytes) → contains s keyword ≡ true → Contains s keyword
unfolding contains
contains_sound [] keyword h = let (after, e) = starts_with_sound [] keyword h in ([], after, e)
contains_sound (a ∷ s) keyword h = elim (Bool-cases (starts_with (a ∷ s) keyword)) [
  | inl here ↦ let (after, e) = starts_with_sound (a ∷ s) keyword here in ([], after, e)
  | inr later ↦
      let (before, after, e) = contains_sound s keyword (ground arith) in
      (a ∷ before, after, ap (◌∷◌ a) e)
]

keep_matching-All :
    (t : FieldType) (keyword : Bytes) (rs : List FullRecord)
    → All (λ r. Contains (text_of t r) keyword) (keep_matching t keyword rs)
unfolding keep_matching
keep_matching-All t keyword [] = tt
keep_matching-All t keyword (r ∷ rs) = elim (Bool-cases (contains (text_of t r) keyword)) [
  | inl hit ↦ rw hit (contains_sound (text_of t r) keyword hit, keep_matching-All t keyword rs)
  | inr miss ↦ rw miss (keep_matching-All t keyword rs)
]

module _ (c : Primitives) (dao : Dao) (keys : KeyManager) (second : ℕ) where
  fetch_full_records-Shows :
      (ids : List ℕ) (enc_key : Bytes) (t : FieldType) (plain : Bytes)
      → Ensures (Shows t plain) (fetch_full_records c dao keys second ids enc_key t (some plain))
  unfolding fetch_full_records
  fetch_full_records-Shows ids enc_key t plain s = elim (Bool-cases (is_empty ids)) [
    | inl nothing ↦ rw nothing tt
    | inr some_id ↦ rw some_id (
        then-Ensures (Shows t plain) (on_db c dao keys second (dao.batch_select_ciphers ids)) _
          (λ rows s'. decrypt_rows-Shows c keys enc_key t plain rows s'.env) s)
  ]

  exact_query-Shows :
      (now : ℕ) (keyword : Bytes) (t : FieldType) (enc_key : Bytes)
      → Ensures (Shows t keyword) (exact_query c dao keys second now keyword t enc_key)
  unfolding exact_query
  exact_query-Shows now keyword t enc_key =
      then-Ensures (Shows t keyword) (check_limits c dao keys second now keyword) _ λ _.
        then-Ensures (Shows t keyword)
          (on_env c dao keys second (hash_under c dao keys second keyword (get_all_keys idx keys)))
          _
          λ hashes.
            then-Ensures (Shows t keyword)
              (on_db c dao keys second (dao.query_by_exact_index_multi (sort_unique hashes) t)) _
              λ ids.
                then-Ensures (Shows t keyword) (lift (check_candidate_limit (length ids))) _
                  λ _. fetch_full_records-Shows ids enc_key t keyword

  -- Every record that `exactQuery` returns shows exactly the keyword in the field asked for,
  -- whatever the database and the library answer.
  pub exact_query_answers :
      (now : ℕ) (keyword : Bytes) (t : FieldType) (enc_key : Bytes) (s : State c dao keys second)
      (out : List FullRecord)
      → (exact_query c dao keys second now keyword t enc_key s).0 ≡ ok out
      → All (λ r. text_of t r ≡ keyword) out
  exact_query_answers now keyword t enc_key s out h =
      Gives-ok (Shows t keyword) _ out (exact_query-Shows now keyword t enc_key s) h

  -- The texts of a fuzzy query.
  abbrev ShowsPart : FieldType → Bytes → List FullRecord → Type 0
  ShowsPart t keyword = All (λ r. Contains (text_of t r) keyword)

  show_matching-ShowsPart :
      (ids : List ℕ) (keyword : Bytes) (t : FieldType) (enc_key : Bytes)
      → Ensures (ShowsPart t keyword) (show_matching c dao keys second ids keyword t enc_key)
  unfolding show_matching
  show_matching-ShowsPart ids keyword t enc_key =
      then-Ensures (ShowsPart t keyword) (lift (check_candidate_limit (length ids))) _ λ _.
        then-Ensures (ShowsPart t keyword) (fetch_full_records c dao keys second ids enc_key t none)
          _ λ results s. keep_matching-All t keyword results

  search_tokens-ShowsPart :
      (tokens : List Bytes) (keyword : Bytes) (t : FieldType) (enc_key : Bytes)
      → Ensures (ShowsPart t keyword) (search_tokens c dao keys second tokens keyword t enc_key)
  unfolding search_tokens
  search_tokens-ShowsPart tokens keyword t enc_key =
      then-Ensures (ShowsPart t keyword)
        (search_versions c dao keys second tokens t (get_all_keys idx keys) []) _
        λ set s. elim (Bool-cases (is_empty set)) [
          | inl nothing ↦ rw nothing tt
          | inr found ↦ rw found (show_matching-ShowsPart (map (λ e. e.0) set) keyword t enc_key s)
        ]

  fuzzy_query-ShowsPart :
      (now : ℕ) (keyword : Bytes) (t : FieldType) (enc_key : Bytes)
      → Ensures (ShowsPart t keyword) (fuzzy_query c dao keys second now keyword t enc_key)
  unfolding fuzzy_query
  fuzzy_query-ShowsPart now keyword t enc_key =
      then-Ensures (ShowsPart t keyword) (check_limits c dao keys second now keyword) _ λ _ s.
        elim (Bool-cases (is_empty (split_bigram keyword))) [
          | inl nothing ↦ rw nothing tt
          | inr found ↦
              rw found (search_tokens-ShowsPart (split_bigram keyword) keyword t enc_key s)
        ]

  -- Every record that `fuzzyQuery` returns has the keyword somewhere in the field asked for,
  -- whatever the database and the library answer.
  pub fuzzy_query_answers :
      (now : ℕ) (keyword : Bytes) (t : FieldType) (enc_key : Bytes) (s : State c dao keys second)
      (out : List FullRecord)
      → (fuzzy_query c dao keys second now keyword t enc_key s).0 ≡ ok out
      → All (λ r. Contains (text_of t r) keyword) out
  fuzzy_query_answers now keyword t enc_key s out h =
      Gives-ok (ShowsPart t keyword) _ out (fuzzy_query-ShowsPart now keyword t enc_key s) h
