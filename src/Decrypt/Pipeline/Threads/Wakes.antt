-- ===== src/Decrypt/Pipeline/Threads/Wakes.antt =====
-- No thread of src/decrypt/batch_decryptor.cpp sleeps while there is something for it to do.
use sec_search.Prelude.{
  ℕ, ◌+◌, ◌<◌, ◌≤◌, Bool, true, false, ◌&&◌, List, [], ◌∷◌, Option, none, some, length, ltb,
  if◌then◌else◌, ◌≡◌, refl, ap, inl, inr, arith, Bool-cases, lt→ltb, sym,
}
use mathlib.Core.Option.{some-injective}
use sec_search.Crypto.Primitives.{Primitives}
use sec_search.Crypto.KeyManager.{KeyManager}
use sec_search.Database.{CipherRecord}
use sec_search.Query.Records.{is_empty}
use sec_search.Decrypt.Slots.{take_out}
use sec_search.Decrypt.Pipeline.{
  worker_count, Task, ResultItem, State, Move, pushes, takes, collects, completes, push_task,
  take_task, put_result, collect_result, step, run,
}
use sec_search.Decrypt.Pipeline.Order.{run-IsSound}
use sec_search.Decrypt.Pipeline.Threads.{
  MainThread, awake, waits_for_space, waits_for_result, Threads, Turn, does, worker_sleeps,
  worker_stirs, main_sleeps, main_stirs, begin, is_awake, some_idle, pushed, taken, completed,
  collected, wait_main, turn, run_turns,
}
use sec_search.Decrypt.Pipeline.Threads.Awake.{Idle, Awake, Stays, turn-Stays}

module _ (c : Primitives) (keys : KeyManager) (capacity workers : ℕ) where
  -- What a turn does to the machine.
  abbrev Moves : Turn → State c → Option (Threads c) → Type 0
  Moves x m none = Unit
  Moves (does x) m (some s') = step c keys capacity workers x m ≡ some s'.machine
  Moves worker_sleeps m (some s') = s'.machine ≡ m
  Moves worker_stirs m (some s') = s'.machine ≡ m
  Moves main_sleeps m (some s') = s'.machine ≡ m
  Moves main_stirs m (some s') = s'.machine ≡ m

  if-Moves :
      (x : Turn) (m : State c) (b : Bool) (o : Option (Threads c))
      → Moves x m o
      → Moves x m (if b then o else none)
  if-Moves x m true o h = h
  if-Moves x m false o h = tt

  turn-Moves : (x : Turn) (s : Threads c) → Moves x s.machine (turn c keys capacity workers x s)
  unfolding turn wait_main pushed taken completed collected
  turn-Moves (does pushes) s =
      if-Moves (does pushes) s.machine (is_awake s.main) _
        (made (step c keys capacity workers pushes s.machine) refl)
    where
      made :
          (o : Option (State c))
          → step c keys capacity workers pushes s.machine ≡ o
          → Moves (does pushes) s.machine (pushed c keys capacity workers s o)
      made none e = tt
      made (some m) e = e
  turn-Moves (does takes) s =
      if-Moves (does takes) s.machine (some_idle c keys capacity workers s) _
        (made (step c keys capacity workers takes s.machine) refl)
    where
      made :
          (o : Option (State c))
          → step c keys capacity workers takes s.machine ≡ o
          → Moves (does takes) s.machine (taken c keys capacity workers s o)
      made none e = tt
      made (some m) e = e
  turn-Moves (does (completes n)) s =
      made (step c keys capacity workers (completes n) s.machine) refl
    where
      made :
          (o : Option (State c))
          → step c keys capacity workers (completes n) s.machine ≡ o
          → Moves (does (completes n)) s.machine (completed c keys capacity workers s o)
      made none e = tt
      made (some m) e = e
  turn-Moves (does collects) s =
      if-Moves (does collects) s.machine (is_awake s.main) _
        (made (step c keys capacity workers collects s.machine) refl)
    where
      made :
          (o : Option (State c))
          → step c keys capacity workers collects s.machine ≡ o
          → Moves (does collects) s.machine (collected c keys capacity workers s o)
      made none e = tt
      made (some m) e = e
  turn-Moves worker_sleeps s =
      if-Moves worker_sleeps s.machine (is_empty s.machine.task_queue && _)
        (some (record s { asleep = s.asleep + 1 })) refl
  turn-Moves worker_stirs s = refl
  turn-Moves main_sleeps s = if-Moves main_sleeps s.machine (is_awake s.main) _ waits
    where
      waits : Moves main_sleeps s.machine (wait_main c keys capacity workers s)
      waits = elim (Bool-cases (is_empty s.machine.pending)) [
        | inl e ↦
            rw e
              (if-Moves main_sleeps s.machine _ (some (record s { main = waits_for_result })) refl)
        | inr e ↦ rw e (elim (Bool-cases (ltb (length s.machine.task_queue) capacity)) [
          | inl f ↦ rw f tt
          | inr f ↦ rw f refl
        ])
      ]
  turn-Moves main_stirs s = refl

  -- The moves among the turns.
  moves_of : List Turn → List Move
  moves_of [] = []
  moves_of (does x ∷ xs) = x ∷ moves_of xs
  moves_of (worker_sleeps ∷ xs) = moves_of xs
  moves_of (worker_stirs ∷ xs) = moves_of xs
  moves_of (main_sleeps ∷ xs) = moves_of xs
  moves_of (main_stirs ∷ xs) = moves_of xs

  -- What a run gives: the machine has run on the moves, and no thread sleeps over its work.
  abbrev Runs : List Move → State c → Threads c → Type 0
  Runs ms m s' =
      (run c keys capacity workers ms m ≡ some s'.machine) × Awake c keys capacity workers s'

  same-Runs :
      (ms : List Move) (m m' : State c) (s' : Threads c) → m' ≡ m → Runs ms m' s' → Runs ms m s'
  same-Runs ms m m' s' e h = rw e at h

  turn-Runs :
      (x : Turn) (xs : List Turn) (m : State c) (s s' : Threads c)
      → Moves x m (some s)
      → Runs (moves_of xs) s.machine s'
      → Runs (moves_of (x ∷ xs)) m s'
  unfolding run moves_of
  turn-Runs (does x) xs m s s' e h = rw (e, run) h
  turn-Runs worker_sleeps xs m s s' e h = same-Runs (moves_of xs) m s.machine s' e h
  turn-Runs worker_stirs xs m s s' e h = same-Runs (moves_of xs) m s.machine s' e h
  turn-Runs main_sleeps xs m s s' e h = same-Runs (moves_of xs) m s.machine s' e h
  turn-Runs main_stirs xs m s s' e h = same-Runs (moves_of xs) m s.machine s' e h

  run_turns-Runs :
      (xs : List Turn) (s s' : Threads c)
      → Awake c keys capacity workers s
      → run_turns c keys capacity workers xs s ≡ some s'
      → Runs (moves_of xs) s.machine s'
  unfolding run_turns run moves_of
  run_turns-Runs [] s s' a h = rw (sym (some-injective s s' h)) (refl, a)
  run_turns-Runs (x ∷ xs) s s' a h =
      through (turn c keys capacity workers x s) (turn-Stays c keys capacity workers x s a)
        (turn-Moves x s) (λ s1 b. run_turns-Runs xs s1 s' b) h
    where
      through :
          (o : Option (Threads c))
          → Stays c keys capacity workers o
          → Moves x s.machine o
          → ((s1 : Threads c)
              → Awake c keys capacity workers s1
              → run_turns c keys capacity workers xs s1 ≡ some s'
              → Runs (moves_of xs) s1.machine s')
          → elim o [ none ↦ none | some s1 ↦ run_turns c keys capacity workers xs s1 ] ≡ some s'
          → Runs (moves_of (x ∷ xs)) s.machine s'
      through none b e f g = cc
      through (some s1) b e f g = turn-Runs x xs s.machine s1 s' e (f s1 b g)

  begin-Awake :
      (rs : List CipherRecord) (e : c.Env) (asleep : ℕ)
      → asleep ≤ worker_count workers
      → Awake c keys capacity workers (begin c rs e asleep)
  begin-Awake rs e asleep h = record {
    room = omega (arith, h);
    served = inr (omega (arith, h));
    idle = tt;
  }

  abbrev pub CanDo : Threads c → Type 0
  CanDo s = (x : Move) × ((s' : Threads c) × (turn c keys capacity workers (does x) s ≡ some s'))

  running_does : (s : Threads c) (ts : List Task) → s.machine.running ≡ ts → 0 < length ts → CanDo s
  unfolding turn step put_result take_out completed
  running_does s [] e h = absurd (omega arith)
  running_does s (t ∷ ts) e h = (completes 0, rw e (_, refl))

  some_workers : 0 < worker_count workers
  unfolding worker_count
  some_workers = ground arith

  queue_does :
      (s : Threads c) (ts : List Task)
      → Awake c keys capacity workers s
      → s.machine.task_queue ≡ ts
      → 0 < length ts
      → length s.machine.running ≡ 0
      → CanDo s
  unfolding turn step take_task taken
  queue_does s [] a e h z = absurd (omega arith)
  queue_does s (t ∷ ts) a e h z =
      let idle : some_idle c keys capacity workers s ≡ true = lt→ltb _ _ (elim a.served [
        | inl none_asleep ↦ omega (arith, none_asleep, z, some_workers)
        | inr enough ↦ omega (arith, enough, ap length e, z)
      ]) in
      let free : ltb (length s.machine.running) (worker_count workers) ≡ true =
        lt→ltb _ _ (omega (arith, z, some_workers)) in
      (takes, rw (idle, e, free) (_, refl))

  pending_does :
      (s : Threads c) (ts : List Task)
      → s.machine.pending ≡ ts
      → 0 < length ts
      → length s.machine.task_queue < capacity
      → s.main ≡ awake
      → CanDo s
  unfolding turn step push_task pushed
  pending_does s [] e h k w = absurd (omega arith)
  pending_does s (t ∷ ts) e h k w = (pushes, rw (w, e, lt→ltb _ _ k) (_, refl))

  result_does :
      (s : Threads c) (ts : List Task) (items : List ResultItem)
      → s.machine.pending ≡ ts
      → length ts ≡ 0
      → s.machine.result_queue ≡ items
      → 0 < length items
      → s.machine.finished < length s.machine.results
      → s.main ≡ awake
      → CanDo s
  unfolding turn step collect_result collected
  result_does s (t ∷ ts) items e z f h k w = absurd (omega arith)
  result_does s [] [] e z f h k w = absurd (omega arith)
  result_does s [] (x ∷ items) e z f h k w = (collects, rw (w, e, f, lt→ltb _ _ k) (_, refl))

  -- The main thread is awake if it has something to push or to collect.
  main-awake :
      (pending queue : List Task) (items : List ResultItem) (t : MainThread)
      → Idle c keys capacity workers pending queue items t
      → length queue < capacity
      → 0 < length pending + length items
      → t ≡ awake
  main-awake pending queue items awake h k l = refl
  main-awake pending queue items waits_for_space h k l = absurd (omega (arith, h, k))
  main-awake pending queue items waits_for_result h k l = absurd (omega (arith, h.0, h.1, l))

  -- Whatever the threads have done, and however often they have slept or woken, as long as not all
  -- results are collected there is a thread that is awake and can do its next move, if the queue has
  -- room for a task: no notification is missed, whatever worker count the constructor was given, and
  -- however many of the workers sleep when the call begins.
  pub run_turns_continue :
      (rs : List CipherRecord) (xs : List Turn) (e : c.Env) (asleep : ℕ) (s : Threads c)
      → 0 < capacity
      → asleep ≤ worker_count workers
      → run_turns c keys capacity workers xs (begin c rs e asleep) ≡ some s
      → s.machine.finished < length rs
      → CanDo s
  run_turns_continue rs xs e asleep s k fits h more =
      let (ran, a) = run_turns-Runs xs (begin c rs e asleep) s (begin-Awake rs e asleep fits) h in
      let v = run-IsSound c keys rs capacity workers (moves_of xs) e s.machine ran in
      elim (Bool-cases (ltb 0 (length s.machine.running))) [
        | inl r ↦ running_does s s.machine.running refl (ground arith)
        | inr no_running ↦ elim (Bool-cases (ltb 0 (length s.machine.task_queue))) [
          | inl q ↦ queue_does s s.machine.task_queue a refl (ground arith) (ground arith)
          | inr no_queue ↦
              let room : length s.machine.task_queue < capacity = ground (arith, k) in
              let wakes =
                main-awake s.machine.pending s.machine.task_queue s.machine.result_queue s.main
                  a.idle room in
              elim (Bool-cases (ltb 0 (length s.machine.pending))) [
                | inl p ↦
                    pending_does s s.machine.pending refl (ground arith) room (wakes (ground arith))
                | inr no_pending ↦
                    let items : 0 < length s.machine.result_queue = ground (arith, v.counted) in
                    result_does s s.machine.pending s.machine.result_queue refl (ground arith) refl
                      items (omega (arith, v.sized)) (wakes (omega (arith, items)))
              ]
        ]
      ]
