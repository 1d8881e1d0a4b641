-- ===== src/Decrypt/Pipeline/Threads/Awake.antt =====
-- What the sleep of the threads of src/decrypt/batch_decryptor.cpp has to do with the queues.
use sec_search.Prelude.{
  ℕ, zero, suc, ◌+◌, ◌≤◌, Bool, true, false, ◌&&◌, List, [], ◌∷◌, Option, none, some, length,
  length-append, ltb, if◌then◌else◌, ◌≡◌, refl, ap, ◌⊎◌, inl, inr, arith, Bool-cases,
}
use sec_search.Crypto.Primitives.{Primitives}
use sec_search.Crypto.KeyManager.{KeyManager}
use sec_search.Query.Records.{is_empty}
use sec_search.Decrypt.Slots.{take_out, take_out-Takes, Takes}
use sec_search.Decrypt.Pipeline.{
  worker_count, Task, ResultItem, pushes, takes, collects, completes, push_task, take_task,
  put_result, collect_result, step,
}
use sec_search.Decrypt.Pipeline.Threads.{
  MainThread, awake, waits_for_space, waits_for_result, Threads, Turn, does, worker_sleeps,
  worker_stirs, main_sleeps, main_stirs, notify_task, notify_space, notify_result, is_awake,
  some_idle, pushed, taken, completed, collected, wait_main, turn,
}

-- A worker less sleeps: there is room for one task more.
notify_task-le : (n r w : ℕ) → r + n ≤ w → r + notify_task n ≤ w
notify_task-le zero r w h = h
notify_task-le (suc n) r w h = omega (arith, h)

notify_task-served :
    (n q q' r w : ℕ)
    → q' ≤ q + 1
    → (n ≡ 0) ⊎ (q + r + n ≤ w)
    → (notify_task n ≡ 0) ⊎ (q' + r + notify_task n ≤ w)
notify_task-served zero q q' r w e h = inl refl
notify_task-served (suc n) q q' r w e (inl h) = absurd (omega (arith, h))
notify_task-served (suc n) q q' r w e (inr h) = inr (omega (arith, e, h))

-- No more tasks and running ones together.
served-le : (n k k' w : ℕ) → k' ≤ k → (n ≡ 0) ⊎ (k + n ≤ w) → (n ≡ 0) ⊎ (k' + n ≤ w)
served-le n k k' w e (inl h) = inl h
served-le n k k' w e (inr h) = inr (omega (arith, e, h))

module _ (c : Primitives) (keys : KeyManager) (capacity workers : ℕ) where
  -- A thread that sleeps has nothing to do: the main thread's predicate does not hold, and there is
  -- an idle worker awake for each task in the queue.
  abbrev pub Idle : List Task → List Task → List ResultItem → MainThread → Type 0
  Idle pending queue items awake = Unit
  Idle pending queue items waits_for_space = capacity ≤ length queue
  Idle pending queue items waits_for_result = (length pending ≡ 0) × (length items ≡ 0)

  pub record Awake (s : Threads c) : Type 0 where
    pub room : length s.machine.running + s.asleep ≤ worker_count workers
    pub served :
        (s.asleep ≡ 0)
        ⊎ (length s.machine.task_queue + length s.machine.running + s.asleep ≤ worker_count workers)
    pub idle : Idle s.machine.pending s.machine.task_queue s.machine.result_queue s.main

  -- A turn, if it is there, keeps this.
  abbrev pub Stays : Option (Threads c) → Type 0
  Stays none = Unit
  Stays (some s) = Awake s

  pushed-Stays :
      (s : Threads c) (ts : List Task)
      → Awake s
      → s.main ≡ awake
      → Stays (pushed c keys capacity workers s (push_task c keys capacity workers s.machine ts))
  unfolding pushed push_task
  pushed-Stays s [] a h = tt
  pushed-Stays s (t ∷ ts) a h = elim (Bool-cases (ltb (length s.machine.task_queue) capacity)) [
    | inl room ↦ rw room (record {
      room = notify_task-le s.asleep (length s.machine.running) _ a.room;
      served =
          notify_task-served s.asleep (length s.machine.task_queue) _ (length s.machine.running) _
            (omega (arith, length-append s.machine.task_queue (t ∷ []))) a.served;
      idle = rw h tt;
    })
    | inr full ↦ rw full tt
  ]

  -- A worker takes a task: the main thread does not wait for room any more.
  notify_space-Idle :
      (pending queue queue' : List Task) (items : List ResultItem) (t : MainThread)
      → Idle pending queue items t
      → Idle pending queue' items (notify_space t)
  notify_space-Idle pending queue queue' items awake h = tt
  notify_space-Idle pending queue queue' items waits_for_space h = tt
  notify_space-Idle pending queue queue' items waits_for_result h = h

  notify_result-Idle :
      (pending queue : List Task) (items items' : List ResultItem) (t : MainThread)
      → Idle pending queue items t
      → Idle pending queue items' (notify_result t)
  notify_result-Idle pending queue items items' awake h = tt
  notify_result-Idle pending queue items items' waits_for_space h = h
  notify_result-Idle pending queue items items' waits_for_result h = tt

  taken-Stays :
      (s : Threads c) (ts : List Task)
      → Awake s
      → some_idle c keys capacity workers s ≡ true
      → s.machine.task_queue ≡ ts
      → Stays (taken c keys capacity workers s (take_task c keys capacity workers s.machine ts))
  unfolding taken take_task
  taken-Stays s [] a h e = tt
  taken-Stays s (t ∷ ts) a h e =
      elim (Bool-cases (ltb (length s.machine.running) (worker_count workers))) [
        | inl free ↦ rw free (record {
          room = ground (arith, h);
          served =
              served-le s.asleep (length s.machine.task_queue + length s.machine.running) _ _
                (omega (arith, ap length e)) a.served;
          idle =
              notify_space-Idle s.machine.pending s.machine.task_queue ts s.machine.result_queue
                s.main a.idle;
        })
        | inr busy ↦ rw busy tt
      ]

  completed-Stays :
      (s : Threads c) (o : Option (Task × List Task))
      → Awake s
      → Takes s.machine.running o
      → Stays (completed c keys capacity workers s (put_result c keys capacity workers s.machine o))
  unfolding completed put_result
  completed-Stays s none a h = tt
  completed-Stays s (some (t, rest)) a split = record {
    room = omega (arith, split.size, a.room);
    served =
        served-le s.asleep (length s.machine.task_queue + length s.machine.running) _ _
          (omega (arith, split.size)) a.served;
    idle =
        notify_result-Idle s.machine.pending s.machine.task_queue s.machine.result_queue _ s.main
          a.idle;
  }

  collected-Stays :
      (s : Threads c) (ts : List Task) (items : List ResultItem)
      → Awake s
      → s.main ≡ awake
      → Stays (
          collected c keys capacity workers s
            (collect_result c keys capacity workers s.machine ts items))
  unfolding collected collect_result
  collected-Stays s (t ∷ ts) items a h = tt
  collected-Stays s [] [] a h = tt
  collected-Stays s [] (x ∷ items) a h =
      elim (Bool-cases (ltb s.machine.finished (length s.machine.results))) [
        | inl more ↦ rw more (record { room = a.room; served = a.served; idle = rw h tt })
        | inr over ↦ rw over tt
      ]

  is_awake-true : (t : MainThread) → is_awake t ≡ true → t ≡ awake
  is_awake-true awake h = refl
  is_awake-true waits_for_space h = cc
  is_awake-true waits_for_result h = cc

  -- A turn under a guard.
  guarded-Stays :
      (b : Bool) (o : Option (Threads c)) → (b ≡ true → Stays o) → Stays (if b then o else none)
  guarded-Stays true o h = h refl
  guarded-Stays false o h = tt

  empty-length : {A : Type 0} (xs : List A) → is_empty xs ≡ true → length xs ≡ 0
  unfolding is_empty
  empty-length [] h = refl
  empty-length (x ∷ xs) h = cc

  and-both : (a b : Bool) → a && b ≡ true → (a ≡ true) × (b ≡ true)
  and-both true true h = (refl, refl)
  and-both true false h = cc
  and-both false b h = cc

  wait_main-Stays : (s : Threads c) → Awake s → Stays (wait_main c keys capacity workers s)
  unfolding wait_main
  wait_main-Stays s a = elim (Bool-cases (is_empty s.machine.pending)) [
    | inl none_left ↦ rw none_left (
        guarded-Stays
          (is_empty s.machine.result_queue && ltb s.machine.finished (length s.machine.results))
          (some (record s { main = waits_for_result }))
          λ h. record {
            room = a.room;
            served = a.served;
            idle = (
              empty-length s.machine.pending none_left,
              empty-length s.machine.result_queue (and-both _ _ h).0,
            );
          })
    | inr some_left ↦ rw some_left (elim (Bool-cases (ltb (length s.machine.task_queue) capacity)) [
      | inl room ↦ rw room tt
      | inr full ↦ rw full (record { room = a.room; served = a.served; idle = ground arith })
    ])
  ]

  pub turn-Stays : (x : Turn) (s : Threads c) → Awake s → Stays (turn c keys capacity workers x s)
  unfolding turn step
  turn-Stays (does pushes) s a =
      guarded-Stays (is_awake s.main) _
        λ h. pushed-Stays s s.machine.pending a (is_awake-true s.main h)
  turn-Stays (does takes) s a =
      guarded-Stays (some_idle c keys capacity workers s) _
        λ h. taken-Stays s s.machine.task_queue a h refl
  turn-Stays (does (completes n)) s a =
      completed-Stays s (take_out n s.machine.running) a (take_out-Takes n s.machine.running)
  turn-Stays (does collects) s a =
      guarded-Stays (is_awake s.main) _
        λ h. collected-Stays s s.machine.pending s.machine.result_queue a (is_awake-true s.main h)
  turn-Stays worker_sleeps s a = guarded-Stays (is_empty s.machine.task_queue && _) _ λ h.
      let (e, idle) = and-both _ _ h in
      let empty : length s.machine.task_queue ≡ 0 = empty-length s.machine.task_queue e in
      let room : length s.machine.running + (s.asleep + 1) ≤ worker_count workers =
        ground (arith, idle) in
      record { room = room; served = inr (omega (arith, empty, room)); idle = a.idle }
  turn-Stays worker_stirs s a = record {
    room = notify_task-le s.asleep (length s.machine.running) _ a.room;
    served =
        notify_task-served s.asleep (length s.machine.task_queue) _ (length s.machine.running) _
          (omega arith) a.served;
    idle = a.idle;
  }
  turn-Stays main_sleeps s a = guarded-Stays (is_awake s.main) _ λ h. wait_main-Stays s a
  turn-Stays main_stirs s a = record { room = a.room; served = a.served; idle = tt }
