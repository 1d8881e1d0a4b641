-- ===== src/Database/Dao/Writes.antt =====
-- What the writes of src/database/dao.cpp do to the tables within a transaction.
use sec_search.Prelude.{
  ℕ, List, [], ◌∷◌, Bytes, Result, ok, throw, Error, ◌≡◌, refl, ap, sym, Bool, true, false,
}
use sec_search.Prelude.Action.{Action, ◌>>◌}
use sec_search.Prelude.Triple.{Post, Triple, Triple-bind, Post-weaken}
use sec_search.Crypto.Primitives.{Primitives}
use sec_search.Database.{FieldType, name, phone, address}
use sec_search.Database.Server.{Server, Session, Statement, Control, write, real_query}
use sec_search.Database.Server.Tables.{Tables, effect}
use sec_search.Database.Server.Lawful.{Lawful}
use sec_search.Database.Server.Effects.{At, Failed, after, write-At}
use sec_search.Database.Transaction.Atomic.{Controls, Either, outside, inside, Open}
use sec_search.Database.Transaction.OnSession.{Undone-Open, session-Controls}
use sec_search.Database.Dao.{insert_fuzzy_index, delete_fuzzy_index}
use sec_search.Database.Dao.Records.{
  FieldHashes, index_fields, Store, on_env, on_session, on_connection,
}

-- The tables behind `index_fields`.
abbrev pub indexed : (c : Primitives) (sv : Server) → ℕ → FieldHashes c sv → Tables → Tables
indexed c sv id hashes u = effect (Statement.insert_fuzzy id address hashes.addr_hashes) (
    effect (Statement.insert_fuzzy id phone hashes.phone_hashes)
      (effect (Statement.insert_fuzzy id name hashes.name_hashes) u))

module _ (sv : Server) (law : Lawful sv) where
  -- A call that takes a transaction that began with `t` from the tables `u` to `u'`.
  abbrev pub Takes : {A : Type 0} → Tables → Tables → Tables → Action (Session sv) A → Type 0
  Takes t u u' m =
      Triple (At sv law (inside t u)) m (λ a. At sv law (inside t u'))
        (λ s. Open t (law.view s.world))

  pub write-Takes :
      (missing failed unbound unsent : Error) (st : Statement) (t u : Tables)
      → Takes t u (effect st u) (write sv missing failed unbound unsent st)
  write-Takes missing failed unbound unsent st t u s h =
      Post-weaken (λ _. At sv law (after st (inside t u))) (λ _. At sv law (inside t (effect st u)))
        (Failed sv law (inside t u)) (λ s'. Open t (law.view s'.world))
        (write sv missing failed unbound unsent st s) (λ a s' e. e)
        (λ s' f. Undone-Open t u (law.view s'.world) f)
        (write-At sv law missing failed unbound unsent st (inside t u) s h)

  insert_fuzzy_index-Takes :
      (id : ℕ) (f : FieldType) (hs : List Bytes) (t u : Tables)
      → Takes t u (effect (Statement.insert_fuzzy id f hs) u) (insert_fuzzy_index sv id f hs)
  unfolding insert_fuzzy_index effect
  insert_fuzzy_index-Takes id f [] t u = λ s h. h
  insert_fuzzy_index-Takes id f (h ∷ hs) t u = write-Takes _ _ _ _ _ t u

  pub delete_fuzzy_index-Takes :
      (id : ℕ) (t u : Tables)
      → Takes t u (effect (Statement.delete_fuzzy id) u) (delete_fuzzy_index sv id)
  unfolding delete_fuzzy_index
  delete_fuzzy_index-Takes id t u = write-Takes _ _ _ _ _ t u

  pub bind-Takes :
      {B : Type 0} (t u v w : Tables) (m : Action (Session sv) (Unit {0}))
      (k : Action (Session sv) B)
      → Takes t u v m
      → Takes t v w k
      → Takes t u w (m >> k)
  bind-Takes t u v w m k h g =
      Triple-bind (At sv law (inside t u)) m (λ _. At sv law (inside t v))
        (λ s. Open t (law.view s.world)) (λ _. k) (λ _. At sv law (inside t w)) h (λ _. g)

  module _ (c : Primitives) where
    pub index_fields-Takes :
        (id : ℕ) (hashes : FieldHashes c sv) (t u : Tables)
        → Takes t u (indexed c sv id hashes u) (index_fields c sv id hashes)
    unfolding index_fields
    index_fields-Takes id hashes t u =
        bind-Takes t u _ _ (insert_fuzzy_index sv id name hashes.name_hashes) _
          (insert_fuzzy_index-Takes id name hashes.name_hashes t u)
          (bind-Takes t _ _ _ (insert_fuzzy_index sv id phone hashes.phone_hashes) _
            (insert_fuzzy_index-Takes id phone hashes.phone_hashes t _)
            (insert_fuzzy_index-Takes id address hashes.addr_hashes t _))

    -- A call on the connection leaves the crypto library alone, and a call of the library leaves
    -- the tables alone.
    pub on_session-Triple :
        {A : Type 0} (m : Action (Session sv) A) (Pre : Session sv → Type 0)
        (P : A → Session sv → Type 0) (F : Session sv → Type 0) (e : c.Env)
        → Triple Pre m P F
        → Triple
            (λ s. Pre s.session × (s.env ≡ e))
            (on_session c sv m)
            (λ a s. P a s.session × (s.env ≡ e))
            (λ s. F s.session)
    on_session-Triple {A} m Pre P F e h s k = through (m s.session) (h s.session k.0)
      where
        through :
            (r : Result A × Session sv)
            → Post P F r
            → Post
                (λ a s'. P a s'.session × (s'.env ≡ e))
                (λ s'. F s'.session)
                (on_session c sv (λ _. r) s)
        through (ok a, s') p = (p, k.1)
        through (throw x, s') p = p

    -- A call within the transaction that began with `t`.
    pub on_session-Inside :
        (t u u' : Tables) (e : c.Env) (m : Action (Session sv) (Unit {0}))
        → Takes t u u' m
        → Triple
            (λ s. At sv law (inside t u) s.session × (s.env ≡ e))
            (on_session c sv m)
            (λ _ s. At sv law (inside t u') s.session × (s.env ≡ e))
            (λ s. Open t (law.view s.session.world))
    on_session-Inside t u u' e m h =
        on_session-Triple m (At sv law (inside t u)) (λ _. At sv law (inside t u'))
          (λ s. Open t (law.view s.world)) e h

    pub on_env-Triple :
        {A : Type 0} (m : Action c.Env A) (Pre : Session sv → Type 0) (e : c.Env)
        → Triple
            (λ s. Pre s.session × (s.env ≡ e))
            (on_env c sv m)
            (λ a s. Pre s.session × (s.env ≡ (m e).1) × ((m e).0 ≡ ok a))
            (λ s. Pre s.session)
    on_env-Triple {A} m Pre e s k = rw (k.1, on_env) (through (m e) refl)
      where
        through :
            (r : Result A × c.Env)
            → m e ≡ r
            → Post
                (λ a s'. Pre s'.session × (s'.env ≡ (m e).1) × ((m e).0 ≡ ok a))
                (λ s'. Pre s'.session)
                (r.0, record s { env = r.1 })
        through (ok a, e') q = (k.0, ap (λ x. x.1) (sym q), ap (λ x. x.0) q)
        through (throw x, e') q = k.0

    module _ (t : Tables) (e : c.Env) where
      started :
          (done : Bool) (s : Store c sv)
          → Either
              ((law.view s.session.world ≡ inside t t) × (tt {0} ≡ tt))
              (law.view s.session.world ≡ outside t)
              done
            × (s.env ≡ e)
          → Either
              ((law.view s.session.world ≡ inside t t) × (s.env ≡ e))
              (law.view s.session.world ≡ outside t)
              done
      started true s k = (k.0.0, k.1)
      started false s k = k.0

    pub store-Controls : Controls (on_connection c sv) (λ s. law.view s.session.world) (λ s. s.env)
    store-Controls = record {
      starts = λ t e s h.
          Post-weaken _ _ (λ s'. ⊥) (λ s'. ⊥) (on_connection c sv Control.start_transaction s)
            (started t e) (λ s' x. x)
            (on_session-Triple (real_query sv Control.start_transaction) (At sv law (outside t))
              (λ done s'.
                Either ((law.view s'.world ≡ inside t t) × (tt {0} ≡ tt))
                  (law.view s'.world ≡ outside t) done)
              (λ s'. ⊥) e (λ s' k. controls.starts t tt s' (k, refl)) s h);
      commits = λ t u s h.
          Post-weaken _ _ (λ s'. ⊥) (λ s'. ⊥) (on_connection c sv Control.commit s)
            (λ done s' k. k.0) (λ s' x. x)
            (on_session-Triple (real_query sv Control.commit) (At sv law (inside t u))
              (λ done s'. Either (law.view s'.world ≡ outside u) (Open t (law.view s'.world)) done)
              (λ s'. ⊥) s.env (controls.commits t u) s (h, refl));
      rolls_back = λ t s h.
          Post-weaken _ _ (λ s'. ⊥) (λ s'. ⊥) (on_connection c sv Control.rollback s)
            (λ done s' k. k.0) (λ s' x. x)
            (on_session-Triple (real_query sv Control.rollback) (λ s'. Open t (law.view s'.world))
              (λ done. At sv law (outside t)) (λ s'. ⊥) s.env (controls.rolls_back t) s (h, refl));
    }
      where
        controls : Controls (real_query sv) (λ s. law.view s.world) (λ s. tt {0})
        controls = session-Controls sv law
