-- ===== src/Database/Dao/Search.antt =====
-- What `queryByFuzzyKeywordMulti` of src/database/dao.cpp finds.
use sec_search.Prelude.{
  ℕ, ◌≤◌, Bool, true, List, [], ◌∷◌, Bytes, length, All, ◌==◌, Bool-cases, ◌≡◌, refl, ap, ◌⊎◌, inl,
  inr, arith,
}
use sec_search.Prelude.Triple.{Post, Post-weaken}
use sec_search.Database.{FieldType}
use sec_search.Database.Server.{Server, Session, Statement}
use sec_search.Database.Server.Tables.{Posting, Tables, filter}
use sec_search.Database.Server.Lawful.{View, Lawful}
use sec_search.Database.Server.Effects.{At}
use sec_search.Database.Server.Answers.{answer, count_hashes, distinct, is_in, is_posted, group_ids}
use sec_search.Database.Server.Reads.{IsOneOf, Answering, select_rows-Right}
use sec_search.Database.Dao.{query_by_fuzzy_keyword_multi}

module _ {A : Type 0} (p : A → Bool) where
  IsOneOf-filter : (x : A) (xs : List A) → IsOneOf x (filter p xs) → p x ≡ true
  IsOneOf-filter x [] h = absurd h
  IsOneOf-filter x (y ∷ ys) h = elim (Bool-cases (p y)) [
    | inl kept ↦ elim (rw kept at h) [
      | inl here ↦ rw here kept
      | inr later ↦ IsOneOf-filter x ys later
    ]
    | inr dropped ↦ IsOneOf-filter x ys (rw dropped at h)
  ]

  length-filter : (xs : List A) → length (filter p xs) ≤ length xs
  length-filter [] = omega arith
  length-filter (x ∷ xs) = ground (arith, length-filter xs)

  filter_full : (xs : List A) → length (filter p xs) ≡ length xs → All (λ x. p x ≡ true) xs
  filter_full [] h = tt
  filter_full (x ∷ xs) h = elim (Bool-cases (p x)) [
    | inl kept ↦ (kept, filter_full xs (omega (arith, rw kept at h)))
    | inr dropped ↦ absurd (omega (arith, length-filter xs, rw dropped at h))
  ]

length-distinct : (hs : List Bytes) → length (distinct hs) ≤ length hs
unfolding distinct
length-distinct [] = omega arith
length-distinct (h ∷ hs) = ground (arith, length-distinct hs)

distinct_full : (hs : List Bytes) → length (distinct hs) ≡ length hs → distinct hs ≡ hs
unfolding distinct
distinct_full [] e = refl
distinct_full (h ∷ hs) e = elim (Bool-cases (is_in h hs)) [
  | inl again ↦ absurd (omega (arith, length-distinct hs, rw again at e))
  | inr new ↦ rw new (ap (◌∷◌ h) (distinct_full hs (omega (arith, rw new at e))))
]

-- A hash stands twice in the list.
abbrev pub HasRepeat : List Bytes → Type 0
HasRepeat [] = ⊥
HasRepeat (h ∷ hs) = (is_in h hs ≡ true) ⊎ HasRepeat hs

HasRepeat-distinct : (hs : List Bytes) → HasRepeat hs → length (distinct hs) ≡ length hs → ⊥
unfolding distinct
HasRepeat-distinct [] r e = r
HasRepeat-distinct (h ∷ hs) r e = elim (Bool-cases (is_in h hs)) [
  | inl again ↦ omega (arith, length-distinct hs, rw again at e)
  | inr new ↦ elim r [
    | inl again ↦ cc
    | inr later ↦ HasRepeat-distinct hs later (omega (arith, rw new at e))
  ]
]

-- A posting of an id for each hash.
abbrev pub HasPostings : FieldType → List Bytes → List Posting → ℕ → Type 0
HasPostings t hashes ps id =
    All (λ h. is_posted (record { token_hash = h; data_id = id; field_type = t }) ps ≡ true) hashes

-- An id whose postings are as many as the hashes.
count_full :
    (t : FieldType) (hashes : List Bytes) (id : ℕ) (ps : List Posting)
    → count_hashes t hashes id ps ≡ length hashes
    → (length (distinct hashes) ≡ length hashes) × HasPostings t hashes ps id
unfolding count_hashes
count_full t hashes id ps e = (full, rw (distinct_full hashes full) at posted)
  where
    full : length (distinct hashes) ≡ length hashes
    full = omega (arith, e, length-distinct hashes, length-filter _ (distinct hashes))

    posted : HasPostings t (distinct hashes) ps id
    posted =
        filter_full _ (distinct hashes)
          (omega (arith, e, length-distinct hashes, length-filter _ (distinct hashes)))

count_of_answer :
    (t : FieldType) (hashes : List Bytes) (tables : Tables) (id : ℕ)
    → IsOneOf id (answer (Statement.select_fuzzy t hashes (length hashes)) tables)
    → count_hashes t hashes id tables.fuzzy_inverted ≡ length hashes
unfolding answer
count_of_answer t hashes tables id h =
    let counted : (count_hashes t hashes id tables.fuzzy_inverted == length hashes) ≡ true =
      IsOneOf-filter (λ id'. count_hashes t hashes id' tables.fuzzy_inverted == length hashes) id
        (group_ids tables.fuzzy_inverted) h in
    ground arith

module _ (sv : Server) (law : Lawful sv) (reads : Answering sv law) where
  abbrev Counted : FieldType → List Bytes → Tables → List ℕ → Type 0
  Counted t hashes tables =
      All (λ id. count_hashes t hashes id tables.fuzzy_inverted ≡ length hashes)

  query_by_fuzzy_keyword_multi-Counted :
      (hashes : List Bytes) (t : FieldType) (v : View) (s : Session sv)
      → At sv law v s
      → Post
          (λ ids s'. Counted t hashes v.tables ids)
          (λ s'. Unit {0})
          (query_by_fuzzy_keyword_multi sv hashes t s)
  unfolding query_by_fuzzy_keyword_multi
  query_by_fuzzy_keyword_multi-Counted [] t v s h = tt
  query_by_fuzzy_keyword_multi-Counted (g ∷ gs) t v s h =
      Post-weaken _ _ (λ s'. Unit {0}) (λ s'. Unit {0})
        (query_by_fuzzy_keyword_multi sv (g ∷ gs) t s) (λ ids s' k. counts ids k) (λ s' x. x)
        (select_rows-Right sv law reads _ _ [] (Statement.select_fuzzy t (g ∷ gs) (length (g ∷ gs)))
          v s h)
    where
      counts :
          (ids : List ℕ)
          → All
              (λ id.
                IsOneOf id (answer (Statement.select_fuzzy t (g ∷ gs) (length (g ∷ gs))) v.tables))
              ids
          → Counted t (g ∷ gs) v.tables ids
      counts [] k = tt
      counts (id ∷ ids) k = (count_of_answer t (g ∷ gs) v.tables id k.0, counts ids k.1)

  -- Every id that a fuzzy search returns has a posting, in the field asked for, of each hash.
  pub query_by_fuzzy_keyword_multi-HasPostings :
      (hashes : List Bytes) (t : FieldType) (v : View) (s : Session sv)
      → At sv law v s
      → Post
          (λ ids s'. All (HasPostings t hashes v.tables.fuzzy_inverted) ids)
          (λ s'. Unit {0})
          (query_by_fuzzy_keyword_multi sv hashes t s)
  query_by_fuzzy_keyword_multi-HasPostings hashes t v s h =
      Post-weaken _ _ (λ s'. Unit {0}) (λ s'. Unit {0}) (query_by_fuzzy_keyword_multi sv hashes t s)
        (λ ids s' k. posts ids k) (λ s' x. x) (query_by_fuzzy_keyword_multi-Counted hashes t v s h)
    where
      posts :
          (ids : List ℕ)
          → Counted t hashes v.tables ids
          → All (HasPostings t hashes v.tables.fuzzy_inverted) ids
      posts [] k = tt
      posts (id ∷ ids) k = ((count_full t hashes id v.tables.fuzzy_inverted k.0).1, posts ids k.1)

  -- A fuzzy search for hashes of which one stands twice, as those of a keyword in which a pair of
  -- bytes occurs twice, finds nothing, whatever is in the tables.
  pub query_by_fuzzy_keyword_multi_repeat :
      (hashes : List Bytes) (t : FieldType) (v : View) (s : Session sv)
      → HasRepeat hashes
      → At sv law v s
      → Post (λ ids s'. ids ≡ []) (λ s'. Unit {0}) (query_by_fuzzy_keyword_multi sv hashes t s)
  query_by_fuzzy_keyword_multi_repeat hashes t v s r h =
      Post-weaken _ _ (λ s'. Unit {0}) (λ s'. Unit {0}) (query_by_fuzzy_keyword_multi sv hashes t s)
        (λ ids s' k. none_counted ids k) (λ s' x. x)
        (query_by_fuzzy_keyword_multi-Counted hashes t v s h)
    where
      none_counted : (ids : List ℕ) → Counted t hashes v.tables ids → ids ≡ []
      none_counted [] k = refl
      none_counted (id ∷ ids) k =
          absurd
            (HasRepeat-distinct hashes r (count_full t hashes id v.tables.fuzzy_inverted k.0).0)
