-- ===== src/Database/Transaction.antt =====
-- `database::Transaction` of src/database/transaction.cpp: the object is its `committed_`.
pub mod Atomic
pub mod OnSession
pub mod Keeps
use sec_search.Prelude.{Bool, true, false, ok, throw, Result, Error, if◌then◌else◌}
use sec_search.Prelude.Action.{Action, pure, raise, ◌>>=◌, ◌>>◌}
use sec_search.Database.Server.{Control}

-- `run` is `mysql_real_query` on the transaction's connection, in a state that holds it.
module _ {S : Type 0} (run : Control → Action S Bool) where
  unfoldable pub or_throw : Error → Bool → Action S (Unit {0})
  or_throw e true = pure tt
  or_throw e false = raise e

  -- The constructor.
  unfoldable pub begin : Action S Bool
  unfolding or_throw
  begin = do
    done ← run Control.start_transaction
    or_throw Error.failed_to_start_transaction done
    pure false

  unfoldable pub commit : Bool → Action S Bool
  unfolding or_throw
  commit true = pure true
  commit false = do
    done ← run Control.commit
    or_throw Error.failed_to_commit_transaction done
    pure true

  unfoldable pub rollback : Bool → Action S Bool
  rollback true = pure true
  rollback false = run Control.rollback >>= λ done. pure true

  -- The destructor, which does not look at the result either.
  unfoldable pub destroy : Bool → Action S (Unit {0})
  destroy true = pure tt
  destroy false = run Control.rollback >>= λ done. pure tt

  -- The end of the block that `tx` is declared in.
  unfoldable pub leave_block : {A : Type 0} → Result (A × Bool) × S → Result A × S
  unfolding destroy
  leave_block (ok (a, committed), s) = (ok a, (destroy committed s).1)
  leave_block (throw e, s) = (throw e, (destroy false s).1)

  -- `Transaction tx(conn); a = body; tx.commit(); return a;`.
  unfoldable pub in_transaction : {A : Type 0} → Action S A → Action S A
  unfolding begin commit leave_block
  in_transaction body = begin >>= λ committed s.
      leave_block ((body >>= λ a. commit committed >>= λ committed'. pure (a, committed')) s)
