-- ===== src/Decrypt/Pipeline.antt =====
-- `BatchDecryptor::decryptRecords` of src/decrypt/batch_decryptor.cpp with its worker threads, as
-- a machine that is moved by a schedule: each move is what one thread does while it holds a lock,
-- and a move that a wait would hold back is not there.
pub mod Inventory
pub mod Order
pub mod Progress
pub mod Threads
mod Tests
use sec_search.Prelude.{
  ℕ, zero, suc, ◌+◌, List, [], ◌∷◌, ◌++◌, Option, none, some, length, ltb, ◌==◌, if◌then◌else◌,
}
use sec_search.Crypto.Primitives.{Primitives}
use sec_search.Crypto.KeyManager.{KeyManager}
use sec_search.Database.{CipherRecord}
use sec_search.Decrypt.Record.{DecryptResult, no_result, decrypt_record}
use sec_search.Decrypt.Slots.{set_at, take_out}

-- `Task` and `ResultItem`, each with its index first.
abbrev pub Task : Type 0
Task = ℕ × CipherRecord

abbrev pub ResultItem : Type 0
ResultItem = ℕ × DecryptResult

pub record State (c : Primitives) : Type 0 where
  pub env : c.Env
  -- What the loop of `decryptRecords` has not pushed.
  pub pending : List Task
  pub task_queue : List Task
  -- The task of each worker that is decrypting.
  pub running : List Task
  pub result_queue : List ResultItem
  -- The variables of `collectResults`.
  pub results : List DecryptResult
  pub finished : ℕ

-- `Task{rec, index++}` for each record.
abbrev pub number : ℕ → List CipherRecord → List Task
number i [] = []
number i (r ∷ rs) = (i, r) ∷ number (i + 1) rs

-- `std::vector<DecryptResult> results(totalTasks)`.
abbrev pub blank : List CipherRecord → List DecryptResult
blank [] = []
blank (r ∷ rs) = no_result ∷ blank rs

abbrev pub start : (c : Primitives) → List CipherRecord → c.Env → State c
start c rs e = record {
  env = e;
  pending = number 0 rs;
  task_queue = [];
  running = [];
  result_queue = [];
  results = blank rs;
  finished = 0;
}

-- The producer pushes, a worker takes a task, the worker that holds the n-th running task puts
-- its result into the queue, the producer collects a result.
pub data Move : Type 0 where
  pushes takes collects : Move
  completes : ℕ → Move

-- The constructor's `workerCount`, of which 0 stands for 4.
pub worker_count : ℕ → ℕ
worker_count n = if n == 0 then 4 else n

module _ (c : Primitives) (keys : KeyManager) (capacity workers : ℕ) where
  push_task : State c → List Task → Option (State c)
  push_task s [] = none
  push_task s (t ∷ ts) =
      if ltb (length s.task_queue) capacity
      then some (record s { pending = ts; task_queue = s.task_queue ++ t ∷ [] })
      else none

  take_task : State c → List Task → Option (State c)
  take_task s [] = none
  take_task s (t ∷ ts) =
      if ltb (length s.running) (worker_count workers)
      then some (record s { task_queue = ts; running = t ∷ s.running })
      else none

  put_result : State c → Option (Task × List Task) → Option (State c)
  put_result s none = none
  put_result s (some (t, rest)) =
      let (d, e) = decrypt_record c keys t.1 s.env in
      some (record s { env = e; running = rest; result_queue = s.result_queue ++ (t.0, d) ∷ [] })

  -- The producer collects only behind the loop that pushes.
  collect_result : State c → List Task → List ResultItem → Option (State c)
  collect_result s (t ∷ ts) items = none
  collect_result s [] [] = none
  collect_result s [] (x ∷ items) =
      if ltb s.finished (length s.results)
      then some (record s {
        result_queue = items;
        results = set_at x.0 x.1 s.results;
        finished = s.finished + 1;
      })
      else none

  pub step : Move → State c → Option (State c)
  unfolding push_task take_task put_result collect_result
  step pushes s = push_task s s.pending
  step takes s = take_task s s.task_queue
  step (completes n) s = put_result s (take_out n s.running)
  step collects s = collect_result s s.pending s.result_queue

  -- A schedule, `none` if one of its moves is not there.
  pub run : List Move → State c → Option (State c)
  run [] s = some s
  run (x ∷ xs) s = elim (step x s) [ none ↦ none | some s' ↦ run xs s' ]
