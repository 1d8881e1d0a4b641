-- ===== src/Database/Transaction/Keeps.antt =====
-- What a transaction leaves alone.
use sec_search.Prelude.{Bool, true, false, Result, ok, throw, Error, ◌≡◌, refl, ◌∙◌}
use sec_search.Prelude.Action.{Action}
use sec_search.Prelude.Triple.{Keeps, Keeps-bind}
use sec_search.Database.Server.{Control}
use sec_search.Database.Transaction.{or_throw, begin, commit, destroy, leave_block, in_transaction}

module _ {S X : Type 0} (run : Control → Action S Bool) (f : S → X) where
  or_throw-Keeps : (e : Error) (done : Bool) → Keeps f (or_throw run e done)
  unfolding or_throw
  or_throw-Keeps e true s = refl
  or_throw-Keeps e false s = refl

  commit-Keeps : ((text : Control) → Keeps f (run text)) → (b : Bool) → Keeps f (commit run b)
  unfolding commit
  commit-Keeps h true = λ s. refl
  commit-Keeps h false = Keeps-bind f (run Control.commit) _ (h Control.commit) λ done.
      Keeps-bind f (or_throw run Error.failed_to_commit_transaction done) _ (or_throw-Keeps _ done)
        (λ _ s. refl)

  destroy-Keeps : ((text : Control) → Keeps f (run text)) → (b : Bool) → Keeps f (destroy run b)
  unfolding destroy
  destroy-Keeps h true = λ s. refl
  destroy-Keeps h false = Keeps-bind f (run Control.rollback) _ (h Control.rollback) (λ _ s. refl)

  leave_block-Keeps :
      {A : Type 0}
      → ((text : Control) → Keeps f (run text))
      → (s : S) (r : Result (A × Bool) × S) → f r.1 ≡ f s
      → f (leave_block run r).1 ≡ f s
  unfolding leave_block
  leave_block-Keeps h s (ok (a, b), s') e = destroy-Keeps h b s' ∙ e
  leave_block-Keeps h s (throw x, s') e = destroy-Keeps h false s' ∙ e

  pub in_transaction-Keeps :
      {A : Type 0}
      → ((text : Control) → Keeps f (run text))
      → (body : Action S A) → Keeps f body
      → Keeps f (in_transaction run body)
  unfolding in_transaction begin
  in_transaction-Keeps h body k =
      Keeps-bind f (begin run) _
        (Keeps-bind f (run Control.start_transaction) _ (h Control.start_transaction) (λ done.
          Keeps-bind f (or_throw run Error.failed_to_start_transaction done) _
            (or_throw-Keeps _ done) (λ _ s. refl)))
        (λ b s. leave_block-Keeps h s _ (
          Keeps-bind f body _ k
            (λ a. Keeps-bind f (commit run b) _ (commit-Keeps h b) (λ _ s'. refl)) s))
