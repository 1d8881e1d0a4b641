-- ===== src/Database/Server/Memory.antt =====
-- A server in memory, on which the laws hold: it refuses a statement when it has carried out as
-- many as it is given.
use sec_search.Prelude.{
  ℕ, zero, suc, Bool, true, false, List, [], ◌∷◌, Option, none, some, All, length, arith, ◌≡◌, refl,
  inl, inr,
}
use sec_search.Database.Server.{Server, Statement, Row, Control}
use sec_search.Database.Server.Tables.{Tables, generated}
use sec_search.Database.Server.Lawful.{View, Undone, Lawful}
use sec_search.Database.Server.Effects.{after}
use sec_search.Database.Server.Answers.{answer}
use sec_search.Database.Server.Reads.{IsOneOf, Answering}
use sec_search.Database.Server.Complete.{Complete}

-- `left` statements will be carried out; `result` has the rows that are left to fetch.
pub record Memory : Type 0 where
  pub view : View
  pub left : ℕ
  pub insert_id : ℕ
  pub result : (st : Statement) → List (Row st)

abbrev no_result : (st : Statement) → List (Row st)
no_result st = []

-- What is left to fetch is kept for any statement, since `result` is asked with the one executed.
abbrev execute_left : ℕ → Statement → Memory → Bool × Memory
execute_left zero st w = (false, w)
execute_left (suc n) st w = (
  true,
  record {
    view = after st w.view;
    left = n;
    insert_id = generated st w.view.tables;
    result = λ st'. answer st' w.view.tables;
  },
)

abbrev next_row : {A : Type 0} → List A → Option A
next_row [] = none
next_row (r ∷ rs) = some r

abbrev rest_of : {A : Type 0} → List A → List A
rest_of [] = []
rest_of (r ∷ rs) = rs

abbrev control : Control → Memory → Memory
control Control.start_transaction w = record w {
  view = record { tables = w.view.tables; saved = some w.view.tables };
}
control Control.commit w = record w { view = record { tables = w.view.tables; saved = none } }
control Control.rollback w = elim w.view.saved [
  | none ↦ w
  | some t ↦ record w { view = record { tables = t; saved = none } }
]

abbrev pub memory : Server
memory = record {
  World = Memory;
  Stmt = Statement;
  init = λ w. (some Statement.select_pending_task, w);
  prepare = λ stmt st w. (true, w);
  bind_param = λ stmt st w. (true, w);
  execute = λ stmt st w. execute_left w.left st w;
  insert_id = λ stmt w. w.insert_id;
  bind_result = λ stmt buffers w. (true, w);
  num_rows = λ st stmt w. length (w.result st);
  fetch =
      λ st stmt w. (next_row (w.result st), record w { result = λ st'. rest_of (w.result st') });
  close = λ stmt w. w;
  real_query = λ text w. (true, control text w);
}

pub execute_left-view :
    (n : ℕ) (st : Statement) (w : Memory)
    → (execute_left n st w).0 ≡ true
    → (execute_left n st w).1.view ≡ after st w.view
execute_left-view zero st w h = cc
execute_left-view (suc n) st w h = refl

pub execute_left-fails :
    (n : ℕ) (st : Statement) (w : Memory)
    → (execute_left n st w).0 ≡ false
    → Undone w.view (execute_left n st w).1.view
execute_left-fails zero st w h = inl refl
execute_left-fails (suc n) st w h = cc

pub execute_left-generated :
    (n : ℕ) (st : Statement) (w : Memory)
    → (execute_left n st w).0 ≡ true
    → (execute_left n st w).1.insert_id ≡ generated st w.view.tables
execute_left-generated zero st w h = cc
execute_left-generated (suc n) st w h = refl

pub rolled_back :
    (w : Memory) (t : Tables)
    → w.view.saved ≡ some t
    → (control Control.rollback w).view ≡ record { tables = t; saved = none }
rolled_back w t h = rw h refl

pub nothing_to_roll_back :
    (w : Memory) → w.view.saved ≡ none → (control Control.rollback w).view ≡ w.view
nothing_to_roll_back w h = rw h refl

unfoldable pub memory_lawful : Lawful memory
memory_lawful = record {
  view = λ w. w.view;
  init-view = λ w. refl;
  prepare-view = λ stmt st w. refl;
  bind_param-view = λ stmt st w. refl;
  bind_result-view = λ stmt buffers w. refl;
  fetch-view = λ st stmt w. refl;
  close-view = λ stmt w. refl;
  execute-view = λ stmt st w h. execute_left-view w.left st w h;
  execute-fails = λ stmt st w h. execute_left-fails w.left st w h;
  insert_id-generated = λ stmt st w h. execute_left-generated w.left st w h;
  start-view = λ w h done. refl;
  start-fails = λ w h. cc;
  commit-view = λ w h. refl;
  commit-fails = λ w h. cc;
  rollback-view = λ w t h. rolled_back w t h;
  rollback-nothing = λ w h. nothing_to_roll_back w h;
}

module _ {A : Type 0} where
  All-IsOneOf_later :
      (y : A) (xs ys : List A) → All (λ r. IsOneOf r ys) xs → All (λ r. IsOneOf r (y ∷ ys)) xs
  All-IsOneOf_later y [] ys h = tt
  All-IsOneOf_later y (x ∷ xs) ys h = (inr h.0, All-IsOneOf_later y xs ys h.1)

  All-IsOneOf : (xs : List A) → All (λ r. IsOneOf r xs) xs
  All-IsOneOf [] = tt
  All-IsOneOf (x ∷ xs) = (inl refl, All-IsOneOf_later x xs xs (All-IsOneOf xs))

  next_row-rest_of : (xs : List A) (r : A) → next_row xs ≡ some r → xs ≡ r ∷ rest_of xs
  next_row-rest_of [] r h = cc
  next_row-rest_of (x ∷ xs) r h = cc

execute_left-IsOneOf :
    (n : ℕ) (st : Statement) (w : Memory)
    → (execute_left n st w).0 ≡ true
    → All (λ r. IsOneOf r (answer st w.view.tables)) ((execute_left n st w).1.result st)
execute_left-IsOneOf zero st w h = cc
execute_left-IsOneOf (suc n) st w h = All-IsOneOf (answer st w.view.tables)

pub memory_answering : Answering memory memory_lawful
unfolding memory_lawful
memory_answering = record {
  pending = λ st stmt w. w.result st;
  execute-pending = λ stmt st w h. execute_left-IsOneOf w.left st w h;
  bind_result-pending = λ stmt st buffers w. refl;
  fetch-pending = λ st stmt w r h. next_row-rest_of (w.result st) r h;
}

-- A connection outside a transaction, on which `n` statements will be carried out.
abbrev pub fresh : ℕ → Tables → Memory
fresh n t = record {
  view = record { tables = t; saved = none };
  left = n;
  insert_id = 0;
  result = no_result;
}

execute_left-all :
    (n : ℕ) (st : Statement) (w : Memory) (r : Row st)
    → (execute_left n st w).0 ≡ true
    → IsOneOf r (answer st w.view.tables)
    → IsOneOf r ((execute_left n st w).1.result st)
execute_left-all zero st w r h k = cc
execute_left-all (suc n) st w r h k = k

next_row_over : {A : Type 0} (xs : List A) → next_row xs ≡ none → xs ≡ []
next_row_over [] h = refl
next_row_over (x ∷ xs) h = cc

pub memory-Complete : Complete memory memory_lawful memory_answering
unfolding memory_lawful memory_answering
memory-Complete = record {
  execute-all = λ stmt st w r h k. execute_left-all w.left st w r h k;
  fetch-over = λ st stmt w h. next_row_over (w.result st) h;
  num_rows-pending = λ st stmt w. omega arith;
}
