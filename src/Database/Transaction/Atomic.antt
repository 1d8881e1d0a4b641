-- ===== src/Database/Transaction/Atomic.antt =====
-- A transaction is all or nothing, whatever throws.
use sec_search.Prelude.{Bool, true, false, none, some, Result, ok, throw, Error, ◌≡◌, refl, ◌⊎◌}
use sec_search.Prelude.Action.{Action, pure, ◌>>=◌, ◌>>◌}
use sec_search.Prelude.Triple.{Post, Triple, Triple-bind}
use sec_search.Database.Server.{Control}
use sec_search.Database.Server.Tables.{Tables}
use sec_search.Database.Server.Lawful.{View}
use sec_search.Database.Transaction.{or_throw, begin, commit, destroy, leave_block, in_transaction}

-- The tables `u` outside a transaction, and inside of one that began with `t`.
abbrev pub outside : Tables → View
outside u = record { tables = u; saved = none }

abbrev pub inside : Tables → Tables → View
inside t u = record { tables = u; saved = some t }

-- The transaction is open, or the server has rolled it back already.
abbrev pub Open : Tables → View → Type 0
Open t v = (v.saved ≡ some t) ⊎ (v ≡ outside t)

-- A choice by the result of a call.
abbrev pub Either : (Type 0) → (Type 0) → Bool → Type 0
Either P Q true = P
Either P Q false = Q

-- What `mysql_real_query` does in a state with the tables `view`, and an environment `env` that it
-- does not touch.
pub record Controls {S E : Type 0} (run : Control → Action S Bool) (view : S → View) (env : S → E)
    : Type 0 where
  pub starts :
      (t : Tables) (e : E)
      → Triple
          (λ s. (view s ≡ outside t) × (env s ≡ e))
          (run Control.start_transaction)
          (λ done s. Either ((view s ≡ inside t t) × (env s ≡ e)) (view s ≡ outside t) done)
          (λ s. ⊥)
  pub commits :
      (t u : Tables)
      → Triple
          (λ s. view s ≡ inside t u)
          (run Control.commit)
          (λ done s. Either (view s ≡ outside u) (Open t (view s)) done)
          (λ s. ⊥)
  pub rolls_back :
      (t : Tables)
      → Triple (λ s. Open t (view s)) (run Control.rollback) (λ done s. view s ≡ outside t) (λ s. ⊥)

module _ {S E : Type 0} (run : Control → Action S Bool) (view : S → View) (env : S → E)
    (c : Controls run view env) where
  destroy-outside :
      (t : Tables) (s : S) → Open t (view s) → view (destroy run false s).1 ≡ outside t
  unfolding destroy
  destroy-outside t s h = behind (run Control.rollback s) (c.rolls_back t s h)
    where
      behind :
          (r : Result Bool × S)
          → Post (λ done s'. view s' ≡ outside t) (λ s'. ⊥) r
          → view (((λ s'. r) >>= (λ done. pure tt)) s).1 ≡ outside t
      behind (ok done, s') e = e
      behind (throw e, s') h' = absurd h'

  begin-inside :
      (t : Tables) (e : E)
      → Triple
          (λ s. (view s ≡ outside t) × (env s ≡ e))
          (begin run)
          (λ committed s. (committed ≡ false) × (view s ≡ inside t t) × (env s ≡ e))
          (λ s. view s ≡ outside t)
  unfolding begin or_throw
  begin-inside t e s h = behind (run Control.start_transaction s) (c.starts t e s h)
    where
      behind :
          (r : Result Bool × S)
          → Post
              (λ done s'. Either ((view s' ≡ inside t t) × (env s' ≡ e)) (view s' ≡ outside t) done)
              (λ s'. ⊥)
              r
          → Post
              (λ committed s'. (committed ≡ false) × (view s' ≡ inside t t) × (env s' ≡ e))
              (λ s'. view s' ≡ outside t)
              (((λ s'. r)
                  >>= (λ done. or_throw run Error.failed_to_start_transaction done >> pure false))
                s)
      behind (ok true, s') h' = (refl, h'.0, h'.1)
      behind (ok false, s') h' = h'
      behind (throw x, s') h' = absurd h'

  commit-outside :
      (t u : Tables)
      → Triple
          (λ s. view s ≡ inside t u)
          (commit run false)
          (λ committed s. (committed ≡ true) × (view s ≡ outside u))
          (λ s. Open t (view s))
  unfolding commit or_throw
  commit-outside t u s h = behind (run Control.commit s) (c.commits t u s h)
    where
      behind :
          (r : Result Bool × S)
          → Post (λ done s'. Either (view s' ≡ outside u) (Open t (view s')) done) (λ s'. ⊥) r
          → Post
              (λ committed s'. (committed ≡ true) × (view s' ≡ outside u))
              (λ s'. Open t (view s'))
              (((λ s'. r)
                  >>= (λ done. or_throw run Error.failed_to_commit_transaction done >> pure true))
                s)
      behind (ok true, s') e = (refl, e)
      behind (ok false, s') e = e
      behind (throw e, s') h' = absurd h'

  module _ {A : Type 0} (P : A → Tables → Type 0) (t : Tables) (body : Action S A) where
    -- The tables that the body leaves, in a transaction that began with `t` or has ended.
    abbrev pub Inside : A → S → Type 0
    Inside a s = (u : Tables) × P a u × (view s ≡ inside t u)

    abbrev pub Outside : A → S → Type 0
    Outside a s = (u : Tables) × P a u × (view s ≡ outside u)

    Done : A × Bool → S → Type 0
    Done (a, committed) s = (committed ≡ true) × Outside a s

    leave_block-outside :
        (r : Result (A × Bool) × S)
        → Post Done (λ s. Open t (view s)) r
        → Post Outside (λ s. view s ≡ outside t) (leave_block run r)
    unfolding leave_block Done destroy
    leave_block-outside (ok (a, true), s) (e, d) = d
    leave_block-outside (ok (a, false), s) (e, d) = cc
    leave_block-outside (throw e, s) h = destroy-outside t s h

    close_body :
        (r : Result A × S)
        → (s0 : S) → Post Inside (λ s. Open t (view s)) r
        → Post Done
            (λ s. Open t (view s))
            (((λ s'. r) >>= λ a. commit run false >>= λ committed. pure (a, committed)) s0)
    unfolding Done
    close_body (ok a, s) s0 (u, p, e) =
        Triple-bind (λ s'. view s' ≡ inside t u) (commit run false)
          (λ committed s'. (committed ≡ true) × (view s' ≡ outside u)) (λ s'. Open t (view s'))
          (λ committed. pure (a, committed)) Done (commit-outside t u)
          (λ committed s' h. (h.0, (u, p, h.1))) s e
    close_body (throw e, s) s0 h = h

    -- If the body, run in a transaction that began with the tables `t`, returns with tables that
    -- are as `P` says, then so does the transaction, its changes committed; if the body, the
    -- BEGIN or the COMMIT throws, the tables are `t` again. On return no transaction is open.
    pub in_transaction-Atomic :
        (e : E)
        → Triple (λ s. (view s ≡ inside t t) × (env s ≡ e)) body Inside (λ s. Open t (view s))
        → Triple
            (λ s. (view s ≡ outside t) × (env s ≡ e))
            (in_transaction run body)
            Outside
            (λ s. view s ≡ outside t)
    unfolding in_transaction
    in_transaction-Atomic e h =
        Triple-bind (λ s. (view s ≡ outside t) × (env s ≡ e)) (begin run)
          (λ committed s. (committed ≡ false) × (view s ≡ inside t t) × (env s ≡ e))
          (λ s. view s ≡ outside t) _ Outside (begin-inside t e)
          λ committed s k. rw k.0 (leave_block-outside _ (close_body (body s) s (h s (k.1, k.2))))
