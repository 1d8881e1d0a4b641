-- ===== src/Rebuild/Partial.antt =====
-- What `rebuildOneRecord` of src/audit/index_rebuilder.cpp leaves behind: its three statements are
-- in no transaction.
use sec_search.Prelude.{
  ℕ, List, [], ◌∷◌, Option, none, some, Bytes, Result, ok, throw, Error, ◌≡◌, refl, ◌⊎◌, inl, inr,
}
use sec_search.Prelude.Action.{Action, pure, ◌>>◌}
use sec_search.Prelude.Triple.{Post, Triple, Triple-bind, Post-weaken}
use sec_search.Crypto.Primitives.{Primitives}
use sec_search.Database.{FieldType, RebuildRawRecord}
use sec_search.Database.Server.{Server, Session, Statement, write}
use sec_search.Database.Server.Tables.{Tables, effect}
use sec_search.Database.Server.Lawful.{View, Undone, Lawful}
use sec_search.Database.Server.Effects.{At, Failed, write-At}
use sec_search.Database.Transaction.Atomic.{outside}
use sec_search.Database.Dao.Records.{Store, on_env, on_session, hash_tokens}
use sec_search.Database.Dao.Writes.{on_session-Triple, on_env-Triple}
use sec_search.Query.Bigram.{split_bigram}
use sec_search.Rebuild.{
  field_cipher, reported, write_blind, delete_hashes, insert_hashes, write_index, rebuild_field_of,
  rebuild_one_record,
}

module _ (c : Primitives) (sv : Server) (law : Lawful sv) where
  -- A statement outside a transaction: done, or without effect.
  pub write-alone :
      (missing failed unbound unsent : Error) (st : Statement) (u : Tables)
      → Triple
          (At sv law (outside u))
          (write sv missing failed unbound unsent st)
          (λ _. At sv law (outside (effect st u)))
          (At sv law (outside u))
  write-alone missing failed unbound unsent st u s h =
      Post-weaken _ _ (Failed sv law (outside u)) _ (write sv missing failed unbound unsent st s)
        (λ _ s' x. x) (λ s' x. unchanged (law.view s'.world) x)
        (write-At sv law missing failed unbound unsent st (outside u) s h)
    where
      unchanged : (v : View) → Undone (outside u) v → v ≡ outside u
      unchanged v (inl e) = e
      unchanged v (inr (t, q, r)) = cc

  insert_hashes-alone :
      (id : ℕ) (t : FieldType) (hashes : List Bytes) (u : Tables)
      → Triple
          (At sv law (outside u))
          (insert_hashes c sv id t hashes)
          (λ _. At sv law (outside (effect (Statement.insert_fuzzy id t hashes) u)))
          (At sv law (outside u))
  unfolding insert_hashes effect
  insert_hashes-alone id t [] u = λ s h. h
  insert_hashes-alone id t (h ∷ hashes) u =
      write-alone _ _ _ _ (Statement.insert_fuzzy id t (h ∷ hashes)) u

  module _ (id : ℕ) (t : FieldType) (blind : Bytes) (hashes : List Bytes) (u : Tables) where
    -- The tables behind the first statement, behind the second, and behind all.
    abbrev pub blinded : Tables
    blinded = effect (Statement.update_blind t blind id) u

    abbrev pub cleared : Tables
    cleared = effect (Statement.delete_field_fuzzy id t) blinded

    abbrev pub rebuilt : Tables
    rebuilt = effect (Statement.insert_fuzzy id t hashes) cleared

    -- Nothing, or the first statement, or the first two.
    abbrev pub Broken : Session sv → Type 0
    Broken s =
        At sv law (outside u) s ⊎ (At sv law (outside blinded) s ⊎ At sv law (outside cleared) s)

    write_index-Broken :
        Triple
          (At sv law (outside u))
          (write_index c sv id t blind hashes)
          (λ _. At sv law (outside rebuilt))
          Broken
    unfolding write_index
    write_index-Broken =
        Triple-bind (At sv law (outside u)) (write_blind c sv id t blind)
          (λ _. At sv law (outside blinded)) Broken
          (λ _. delete_hashes c sv id t >> insert_hashes c sv id t hashes) _
          (λ s h.
            Post-weaken _ _ (At sv law (outside u)) Broken (write_blind c sv id t blind s)
              (λ _ s' x. x) (λ s' x. inl x)
              (write-alone _ _ _ _ (Statement.update_blind t blind id) u s h))
          λ _.
            Triple-bind (At sv law (outside blinded)) (delete_hashes c sv id t)
              (λ _. At sv law (outside cleared)) Broken (λ _. insert_hashes c sv id t hashes) _
              (λ s h.
                Post-weaken _ _ (At sv law (outside blinded)) Broken (delete_hashes c sv id t s)
                  (λ _ s' x. x) (λ s' x. inr (inl x))
                  (write-alone _ _ _ _ (Statement.delete_field_fuzzy id t) blinded s h))
              λ _ s h.
                Post-weaken _ _ (At sv law (outside cleared)) Broken
                  (insert_hashes c sv id t hashes s) (λ _ s' x. x) (λ s' x. inr (inr x))
                  (insert_hashes-alone id t hashes cleared s h)

  module _ (r : RebuildRawRecord) (field_code : ℕ) (enc_key idx_key : Bytes) (u : Tables)
      (e : c.Env) where
    -- The plaintext, its MAC and those of its tokens, as the crypto library makes them from the
    -- state `e` on.
    abbrev pub Hashed : Bytes → Bytes → Bytes → List Bytes → Type 0
    Hashed cipher plain blind hashes =
        ((c.decrypt cipher enc_key e).0 ≡ ok plain)
        × ((c.hmac_hex plain idx_key (c.decrypt cipher enc_key e).1).0 ≡ ok blind)
        × ((hash_tokens c sv (split_bigram plain) idx_key
              (c.hmac_hex plain idx_key (c.decrypt cipher enc_key e).1).1).0
            ≡ ok hashes)

    abbrev pub Rebuilt : FieldType → Bytes → Store c sv → Type 0
    Rebuilt t cipher s =
        (plain : Bytes) × (blind : Bytes) × (hashes : List Bytes) × Hashed cipher plain blind hashes
        × At sv law (outside (rebuilt r.id t blind hashes u)) s.session

    abbrev pub Half : FieldType → Store c sv → Type 0
    Half t s = (blind : Bytes) × Broken r.id t blind [] u s.session

    rebuild_field_of-Rebuilt :
        (t : FieldType) (cipher : Bytes)
        → Triple
            (λ s. At sv law (outside u) s.session × (s.env ≡ e))
            (rebuild_field_of c sv r.id t cipher enc_key idx_key)
            (λ _. Rebuilt t cipher)
            (Half t)
    unfolding rebuild_field_of
    rebuild_field_of-Rebuilt t cipher =
        Triple-bind _ (on_env c sv (c.decrypt cipher enc_key)) _ (Half t) _ _
          (quiet (c.decrypt cipher enc_key) e)
          λ plain s k.
            Triple-bind _ (on_env c sv (c.hmac_hex plain idx_key)) _ (Half t) _ _
              (quiet (c.hmac_hex plain idx_key) (c.decrypt cipher enc_key e).1)
              (λ blind s' k'.
                Triple-bind _ (on_env c sv (hash_tokens c sv (split_bigram plain) idx_key)) _
                  (Half t) _ _
                  (quiet (hash_tokens c sv (split_bigram plain) idx_key)
                    (c.hmac_hex plain idx_key (c.decrypt cipher enc_key e).1).1)
                  (λ hashes s'' k''.
                    Post-weaken _ _ (λ x. Broken r.id t blind hashes u x.session) (Half t)
                      (on_session c sv (write_index c sv r.id t blind hashes) s'')
                      (λ _ x y. (plain, blind, hashes, (k.2, k'.2, k''.2), y.0)) (λ x y. (blind, y))
                      (on_session-Triple sv law c (write_index c sv r.id t blind hashes)
                        (At sv law (outside u))
                        (λ _. At sv law (outside (rebuilt r.id t blind hashes u)))
                        (Broken r.id t blind hashes u) s''.env
                        (write_index-Broken r.id t blind hashes u) s'' (k''.0, refl)))
                  s' (k'.0, k'.1))
              s (k.0, k.1)
      where
        quiet :
            {A : Type 0} (m : Action c.Env A) (e' : c.Env)
            → Triple
                (λ s. At sv law (outside u) s.session × (s.env ≡ e'))
                (on_env c sv m)
                (λ a s. At sv law (outside u) s.session × (s.env ≡ (m e').1) × ((m e').0 ≡ ok a))
                (Half t)
        quiet m e' s k =
            Post-weaken _ _ (λ s'. At sv law (outside u) s'.session) (Half t) (on_env c sv m s)
              (λ a s' x. x) (λ s' x. ([], inl x))
              (on_env-Triple sv law c m (At sv law (outside u)) e' s k)

    -- What is left of a record whose field has a cipher or not, by the result.
    abbrev pub After : Option (FieldType × Bytes) → Option Error → Store c sv → Type 0
    After none result s = (result ≡ none) × At sv law (outside u) s.session
    After (some (t, cipher)) none s = Rebuilt t cipher s
    After (some (t, cipher)) (some x) s = Half t s

    -- `rebuildOneRecord` never throws. If the field is empty it does nothing and answers true; if
    -- it answers true otherwise, the blind index and the postings of the field are those of the
    -- plaintext that the cipher decrypts to, under the index key; if it answers false, the tables
    -- are as they were, or have the new blind index, or have it and no postings of the field.
    pub rebuild_one_record_leaves :
        (s : Store c sv)
        → At sv law (outside u) s.session
        → s.env ≡ e
        → Post
            (After (field_cipher field_code r))
            (λ s'. ⊥)
            (rebuild_one_record c sv r field_code enc_key idx_key s)
    unfolding rebuild_one_record reported
    rebuild_one_record_leaves s h k = by_field (field_cipher field_code r)
      where
        told :
            (t : FieldType) (cipher : Bytes) (x : Result (Unit {0}) × Store c sv)
            → Post (λ _. Rebuilt t cipher) (Half t) x
            → Post (After (some (t, cipher))) (λ s'. ⊥) (reported x)
        told t cipher (ok y, s') p = p
        told t cipher (throw y, s') p = p

        by_field :
            (f : Option (FieldType × Bytes))
            → Post
                (After f)
                (λ s'. ⊥)
                ((elim f as (λ _. Action (Store c sv) (Option Error)) [
                  | none ↦ pure none
                  | some (t, cipher) ↦
                      λ s'. reported (rebuild_field_of c sv r.id t cipher enc_key idx_key s')
                ])
                  s)
        by_field none = (refl, h)
        by_field (some (t, cipher)) =
            told t cipher (rebuild_field_of c sv r.id t cipher enc_key idx_key s)
              (rebuild_field_of-Rebuilt t cipher s (h, k))
