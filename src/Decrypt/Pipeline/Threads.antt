-- ===== src/Decrypt/Pipeline/Threads.antt =====
-- The condition variables of src/decrypt/batch_decryptor.cpp over the machine of Decrypt/Pipeline: a
-- thread whose predicate does not hold may fall asleep, then it moves no more until `notify_one` (or
-- nothing at all) wakes it. `resultReady_` is notified together with the push before it. `stop_` is
-- false: the destructor is not modelled.
pub mod Awake
pub mod Wakes
use sec_search.Prelude.{
  ℕ, zero, suc, ◌+◌, Bool, true, false, not, ◌&&◌, List, [], ◌∷◌, Option, none, some, length, ltb,
  if◌then◌else◌,
}
use sec_search.Crypto.Primitives.{Primitives}
use sec_search.Crypto.KeyManager.{KeyManager}
use sec_search.Database.{CipherRecord}
use sec_search.Query.Records.{is_empty}
use sec_search.Decrypt.Pipeline.{
  State, start, Move, pushes, takes, collects, completes, worker_count, step,
}

-- The thread that calls `decryptRecords`.
pub data MainThread : Type 0 where
  awake waits_for_space waits_for_result : MainThread

pub record Threads (c : Primitives) : Type 0 where
  pub machine : State c
  -- The workers that sleep on `taskNotEmpty_`; the others decrypt or look for a task.
  pub asleep : ℕ
  pub main : MainThread

-- What a thread does, or that it falls asleep, or wakes without being notified.
pub data Turn : Type 0 where
  does : Move → Turn
  worker_sleeps worker_stirs main_sleeps main_stirs : Turn

-- The workers of the pool may sleep when the call begins.
abbrev pub begin : (c : Primitives) → List CipherRecord → c.Env → ℕ → Threads c
begin c rs e asleep = record { machine = start c rs e; asleep = asleep; main = awake }

-- `taskNotEmpty_.notify_one()`, `taskNotFull_.notify_one()`, `resultReady_.notify_one()`.
abbrev pub notify_task : ℕ → ℕ
notify_task zero = zero
notify_task (suc n) = n

abbrev pub notify_space : MainThread → MainThread
notify_space awake = awake
notify_space waits_for_space = awake
notify_space waits_for_result = waits_for_result

abbrev pub notify_result : MainThread → MainThread
notify_result awake = awake
notify_result waits_for_space = waits_for_space
notify_result waits_for_result = awake

abbrev pub is_awake : MainThread → Bool
is_awake awake = true
is_awake waits_for_space = false
is_awake waits_for_result = false

module _ (c : Primitives) (keys : KeyManager) (capacity workers : ℕ) where
  -- A worker that does not sleep and has no task.
  abbrev pub some_idle : Threads c → Bool
  some_idle s = ltb (length s.machine.running + s.asleep) (worker_count workers)

  unfoldable pub pushed : Threads c → Option (State c) → Option (Threads c)
  pushed s none = none
  pushed s (some m) = some (record s { machine = m; asleep = notify_task s.asleep })

  unfoldable pub taken : Threads c → Option (State c) → Option (Threads c)
  taken s none = none
  taken s (some m) = some (record s { machine = m; main = notify_space s.main })

  unfoldable pub completed : Threads c → Option (State c) → Option (Threads c)
  completed s none = none
  completed s (some m) = some (record s { machine = m; main = notify_result s.main })

  unfoldable pub collected : Threads c → Option (State c) → Option (Threads c)
  collected s none = none
  collected s (some m) = some (record s { machine = m })

  -- The two waits of the main thread: for room in the queue, and for a result that is still to come.
  unfoldable pub wait_main : Threads c → Option (Threads c)
  unfolding is_empty
  wait_main s =
      if is_empty s.machine.pending
      then if is_empty s.machine.result_queue && ltb s.machine.finished (length s.machine.results)
        then some (record s { main = waits_for_result })
        else none
      else if ltb (length s.machine.task_queue) capacity
      then none
      else some (record s { main = waits_for_space })

  unfoldable pub turn : Turn → Threads c → Option (Threads c)
  unfolding pushed taken completed collected wait_main is_empty
  turn (does pushes) s =
      if is_awake s.main then pushed s (step c keys capacity workers pushes s.machine) else none
  turn (does takes) s =
      if some_idle s then taken s (step c keys capacity workers takes s.machine) else none
  turn (does (completes n)) s = completed s (step c keys capacity workers (completes n) s.machine)
  turn (does collects) s =
      if is_awake s.main
      then collected s (step c keys capacity workers collects s.machine)
      else none
  turn worker_sleeps s =
      if is_empty s.machine.task_queue && some_idle s
      then some (record s { asleep = s.asleep + 1 })
      else none
  turn worker_stirs s = some (record s { asleep = notify_task s.asleep })
  turn main_sleeps s = if is_awake s.main then wait_main s else none
  turn main_stirs s = some (record s { main = awake })

  unfoldable pub run_turns : List Turn → Threads c → Option (Threads c)
  unfolding turn
  run_turns [] s = some s
  run_turns (x ∷ xs) s = elim (turn x s) [ none ↦ none | some s' ↦ run_turns xs s' ]
