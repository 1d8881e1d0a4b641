-- ===== src/Database/Dao/Found/Search.antt =====
-- A record that `insertData` of src/database/dao.cpp has inserted is found again.
use sec_search.Prelude.{ℕ, ◌≤◌, List, [], ◌∷◌, ◌++◌, map, Bytes, length, ◌≡◌, refl, arith}
use sec_search.Prelude.Triple.{Post, Triple, Triple-bind, Post-weaken}
use sec_search.Crypto.Primitives.{Primitives}
use sec_search.Database.{FieldType, PlainData}
use sec_search.Database.Server.{Server, Statement}
use sec_search.Database.Server.Tables.{Tables, effect}
use sec_search.Database.Server.Lawful.{Lawful}
use sec_search.Database.Server.Effects.{At}
use sec_search.Database.Server.Reads.{IsOneOf, Answering}
use sec_search.Database.Server.Complete.{Complete, select_rows-IsOneOf}
use sec_search.Database.Transaction.Atomic.{outside}
use sec_search.Database.Dao.{query_by_fuzzy_keyword_multi}
use sec_search.Database.Dao.Records.{
  Store, on_env, on_session, hash_tokens, insert_data, query_by_fuzzy_keyword,
}
use sec_search.Database.Dao.Writes.{indexed, on_session-Triple, on_env-Triple}
use sec_search.Database.Dao.Insert.{Inserted, insert_data_leaves}
use sec_search.Database.Dao.Search.{HasPostings}
use sec_search.Database.Dao.Postings.{AreDistinct, HasPostings-answer}
use sec_search.Database.Dao.Found.{
  IsMac, field_text, hash_tokens-mac, hash_fields-mac, indexed-is_posted, IsIn-map, map-HasPostings,
}
use sec_search.Query.Bigram.{split_bigram, pairs, split_bigram_covers}

split_bigram-cons :
    (s : Bytes) → 2 ≤ length s → (t : Bytes) × (ts : List Bytes) × (split_bigram s ≡ t ∷ ts)
unfolding split_bigram pairs
split_bigram-cons [] h = absurd (omega arith)
split_bigram-cons (a ∷ []) h = absurd (omega arith)
split_bigram-cons (a ∷ b ∷ s) h = (a ∷ b ∷ [], pairs (b ∷ s), refl)

module _ (c : Primitives) (sv : Server) (law : Lawful sv) (reads : Answering sv law)
    (all : Complete sv law reads) (mac : Bytes → Bytes → Bytes) (is_mac : IsMac c mac) where
  multi_finds :
      (g : Bytes) (gs : List Bytes) (f : FieldType) (id : ℕ) (u : Tables)
      → AreDistinct (g ∷ gs)
      → HasPostings f (g ∷ gs) u.fuzzy_inverted id
      → Triple
          (At sv law (outside u))
          (query_by_fuzzy_keyword_multi sv (g ∷ gs) f)
          (λ ids s. IsOneOf id ids)
          (λ s. Unit {0})
  unfolding query_by_fuzzy_keyword_multi
  multi_finds g gs f id u d h =
      select_rows-IsOneOf sv law reads all _ _ []
        (Statement.select_fuzzy f (g ∷ gs) (length (g ∷ gs))) (outside u) id
        (HasPostings-answer f g gs u id d h)

  -- A search under the index key that the postings of an id were made with.
  keyword_finds :
      (keyword idx_key : Bytes) (f : FieldType) (id : ℕ) (u : Tables) (s : Store c sv)
      → 2 ≤ length keyword
      → AreDistinct (map (mac idx_key) (split_bigram keyword))
      → HasPostings f (map (mac idx_key) (split_bigram keyword)) u.fuzzy_inverted id
      → At sv law (outside u) s.session
      → Post
          (λ ids s'. IsOneOf id ids)
          (λ s'. Unit {0})
          (query_by_fuzzy_keyword c sv keyword f idx_key s)
  unfolding query_by_fuzzy_keyword
  keyword_finds keyword idx_key f id u s long d h k =
      Triple-bind (λ s'. At sv law (outside u) s'.session × (s'.env ≡ s.env))
        (on_env c sv (hash_tokens c sv (split_bigram keyword) idx_key))
        (λ hashes s'.
          At sv law (outside u) s'.session × (hashes ≡ map (mac idx_key) (split_bigram keyword)))
        (λ s'. Unit {0}) (λ hashes. on_session c sv (query_by_fuzzy_keyword_multi sv hashes f)) _
        (λ s' k'.
          Post-weaken _ _ (λ s''. At sv law (outside u) s''.session) (λ s''. Unit {0})
            (on_env c sv (hash_tokens c sv (split_bigram keyword) idx_key) s')
            (λ hashes s'' x. (
              x.0,
              hash_tokens-mac c sv mac is_mac (split_bigram keyword) idx_key hashes s.env x.2,
            ))
            (λ s'' x. tt)
            (on_env-Triple sv law c (hash_tokens c sv (split_bigram keyword) idx_key)
              (At sv law (outside u)) s.env s' k'))
        (λ hashes s' k'. searched hashes s' k'.1 k'.0) s (k, refl)
    where
      searched :
          (hashes : List Bytes) (s' : Store c sv)
          → hashes ≡ map (mac idx_key) (split_bigram keyword)
          → At sv law (outside u) s'.session
          → Post
              (λ ids s''. IsOneOf id ids)
              (λ s''. Unit {0})
              (on_session c sv (query_by_fuzzy_keyword_multi sv hashes f) s')
      searched hashes s' e k' =
          let (t, ts, cons) = split_bigram-cons keyword long in
          let d' : AreDistinct (mac idx_key t ∷ map (mac idx_key) ts) = rw cons at d in
          let h' : HasPostings f (mac idx_key t ∷ map (mac idx_key) ts) u.fuzzy_inverted id =
            rw cons at h in
          let e' : hashes ≡ mac idx_key t ∷ map (mac idx_key) ts = rw cons at e in
          rw e' (
            Post-weaken _ _ (λ s''. Unit {0}) (λ s''. Unit {0})
              (on_session c sv
                (query_by_fuzzy_keyword_multi sv (mac idx_key t ∷ map (mac idx_key) ts) f) s')
              (λ ids s'' x. x.0) (λ s'' x. x)
              (on_session-Triple sv law c _ (At sv law (outside u)) (λ ids s''. IsOneOf id ids)
                (λ s''. Unit {0}) s'.env
                (multi_finds (mac idx_key t) (map (mac idx_key) ts) f id u d' h') s' (k', refl)))

  -- On tables outside a transaction, and if fetches do not fail and the MAC is a function: when
  -- `insertData` returns an id, then a search by `queryByFuzzyKeyword` right after it, under the
  -- same index key, in any of the three fields, for a keyword of at least two bytes that the field
  -- contains and whose tokens have distinct hashes, returns that id among others, or throws.
  pub insert_data_found :
      (plain : PlainData) (enc_key idx_key tag_key : Bytes) (version : ℕ) (t : Tables)
      (s : Store c sv) (f : FieldType) (before keyword after : Bytes)
      → field_text f plain ≡ before ++ (keyword ++ after)
      → 2 ≤ length keyword
      → AreDistinct (map (mac idx_key) (split_bigram keyword))
      → At sv law (outside t) s.session
      → Post
          (λ id s'.
            Post
              (λ ids s''. IsOneOf id ids)
              (λ s''. Unit {0})
              (query_by_fuzzy_keyword c sv keyword f idx_key s'))
          (λ s'. Unit {0})
          (insert_data c sv plain enc_key idx_key tag_key version s)
  insert_data_found plain enc_key idx_key tag_key version t s f before keyword after text long d h =
      Post-weaken _ _ _ (λ s'. Unit {0}) (insert_data c sv plain enc_key idx_key tag_key version s)
        found (λ s' x. tt)
        (insert_data_leaves c sv law plain enc_key idx_key tag_key version t s.env s h refl)
    where
      found :
          (id : ℕ) (s' : Store c sv)
          → Inserted c sv law plain enc_key idx_key tag_key version t s.env id s'
          → Post
              (λ ids s''. IsOneOf id ids)
              (λ s''. Unit {0})
              (query_by_fuzzy_keyword c sv keyword f idx_key s')
      found id s' (row, hashes, (sealed, hashed), new, k) =
          keyword_finds keyword idx_key f id
            (indexed c sv id hashes (effect (Statement.insert_main row) t)) s' long d
            (map-HasPostings c sv mac is_mac f idx_key id _ (split_bigram keyword) λ token m.
              indexed-is_posted c sv mac is_mac f (mac idx_key token) id hashes _ (
                rw (hash_fields-mac c sv mac is_mac f plain idx_key hashes _ hashed, text)
                  (IsIn-map c sv mac is_mac idx_key token _
                    (split_bigram_covers before keyword after token long m))))
            k
