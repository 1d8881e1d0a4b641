-- ===== src/Decrypt/Pipeline/Inventory.antt =====
-- Where each index is while the pipeline runs: no task is lost, and every result is the one of
-- its own record.
use sec_search.Prelude.{
  ℕ, ◌+◌, ◌<◌, List, [], ◌∷◌, ◌++◌, Option, none, some, length, length-append, ltb, All, All-append,
  ◌≡◌, refl, ap, ◌∙◌, ◌⊎◌, inl, inr, arith, Bool-cases,
}
use native.Mathlib.Decide.{ℕ_discrete}
use sec_search.Crypto.Primitives.{Primitives}
use sec_search.Crypto.KeyManager.{KeyManager}
use sec_search.Database.{CipherRecord}
use sec_search.Decrypt.Record.{DecryptResult, decrypt_record}
use sec_search.Decrypt.Slots.{
  nth, set_at, take_out, length-set_at, nth-set_at, nth-set_at_ne, nth_lt, HasIndex, HasIndex-left,
  HasIndex-last, IsSplit, Takes, take_out-Takes,
}
use sec_search.Decrypt.Pipeline.{
  worker_count, Task, ResultItem, State, Move, pushes, takes, collects, completes, push_task,
  take_task, put_result, collect_result, step,
}

module _ (c : Primitives) (keys : KeyManager) (rs : List CipherRecord) where
  -- A task carries the record of its index.
  abbrev pub IsTask : Task → Type 0
  IsTask t = nth t.0 rs ≡ some t.1

  -- A result that a worker made of the record of an index.
  abbrev pub IsMade : ResultItem → Type 0
  IsMade x =
      (r : CipherRecord) × (nth x.0 rs ≡ some r)
      × ((e : c.Env) × (x.1 ≡ (decrypt_record c keys r e).0))

  abbrev pub IsAnswered : ℕ → List DecryptResult → Type 0
  IsAnswered i ds = (d : DecryptResult) × (nth i ds ≡ some d) × IsMade (i, d)

  abbrev pub Waits : ℕ → State c → Type 0
  Waits i s =
      HasIndex i s.pending
      ⊎ (HasIndex i s.task_queue ⊎ (HasIndex i s.running ⊎ HasIndex i s.result_queue))

  abbrev pub in_flight : State c → ℕ
  in_flight s = length s.pending + length s.task_queue + length s.running + length s.result_queue

  pub record IsSound (s : State c) : Type 0 where
    pub sized : length s.results ≡ length rs
    pub pending_tasks : All IsTask s.pending
    pub queued_tasks : All IsTask s.task_queue
    pub running_tasks : All IsTask s.running
    pub made : All IsMade s.result_queue
    pub covered : (i : ℕ) → i < length rs → Waits i s ⊎ IsAnswered i s.results
    pub counted : s.finished + in_flight s ≡ length rs

  -- What holds of the state behind a move, if the move is there.
  abbrev pub Behind : Option (State c) → Type 0
  Behind none = Unit
  Behind (some s) = IsSound s

  module _ (capacity workers : ℕ) where
    push_task-IsSound :
        (s : State c) (t : Task) (ts : List Task)
        → s.pending ≡ t ∷ ts
        → IsSound s
        → IsSound (record s { pending = ts; task_queue = s.task_queue ++ t ∷ [] })
    push_task-IsSound s t ts e v =
        let tasks : All IsTask (t ∷ ts) = rw e at v.pending_tasks in
        record {
          sized = v.sized;
          pending_tasks = tasks.1;
          queued_tasks = All-append IsTask s.task_queue (t ∷ []) v.queued_tasks (tasks.0, tt);
          running_tasks = v.running_tasks;
          made = v.made;
          covered = λ i h. elim (v.covered i h) [
            | inr a ↦ inr a
            | inl (inl p) ↦ elim (moved i (rw e at p)) [
              | inl q ↦ inl (inr (inl q))
              | inr p ↦ inl (inl p)
            ]
            | inl (inr (inl q)) ↦ inl (inr (inl (HasIndex-left i s.task_queue (t ∷ []) q)))
            | inl (inr (inr w)) ↦ inl (inr (inr w))
          ];
          counted = omega (arith, v.counted, ap length e, length-append s.task_queue (t ∷ []));
        }
      where
        moved : (i : ℕ) → HasIndex i (t ∷ ts) → HasIndex i (s.task_queue ++ t ∷ []) ⊎ HasIndex i ts
        moved i (inl x) = inl (HasIndex-last i t.0 t.1 s.task_queue x)
        moved i (inr y) = inr y

    take_task-IsSound :
        (s : State c) (t : Task) (ts : List Task)
        → s.task_queue ≡ t ∷ ts
        → IsSound s
        → IsSound (record s { task_queue = ts; running = t ∷ s.running })
    take_task-IsSound s t ts e v =
        let tasks : All IsTask (t ∷ ts) = rw e at v.queued_tasks in
        record {
          sized = v.sized;
          pending_tasks = v.pending_tasks;
          queued_tasks = tasks.1;
          running_tasks = (tasks.0, v.running_tasks);
          made = v.made;
          covered = λ i h. elim (v.covered i h) [
            | inr a ↦ inr a
            | inl (inl p) ↦ inl (inl p)
            | inl (inr (inl q)) ↦ elim (moved i (rw e at q)) [
              | inl x ↦ inl (inr (inr (inl (inl x))))
              | inr q ↦ inl (inr (inl q))
            ]
            | inl (inr (inr (inl w))) ↦ inl (inr (inr (inl (inr w))))
            | inl (inr (inr (inr d))) ↦ inl (inr (inr (inr d)))
          ];
          counted = omega (arith, v.counted, ap length e);
        }
      where
        moved : (i : ℕ) → HasIndex i (t ∷ ts) → (i ≡ t.0) ⊎ HasIndex i ts
        moved i h = h

    put_result-IsSound :
        (s : State c) (t : Task) (rest : List Task)
        → IsSplit s.running t rest
        → IsSound s
        → let (d, e) = decrypt_record c keys t.1 s.env in
          IsSound
            (record s { env = e; running = rest; result_queue = s.result_queue ++ (t.0, d) ∷ [] })
    put_result-IsSound s t rest split v =
        let (task, others) = split.every IsTask v.running_tasks in
        let d = (decrypt_record c keys t.1 s.env).0 in
        record {
          sized = v.sized;
          pending_tasks = v.pending_tasks;
          queued_tasks = v.queued_tasks;
          running_tasks = others;
          made =
              All-append IsMade s.result_queue ((t.0, d) ∷ []) v.made
                ((t.1, task, (s.env, refl)), tt);
          covered = λ i h. elim (v.covered i h) [
            | inr a ↦ inr a
            | inl (inl p) ↦ inl (inl p)
            | inl (inr (inl q)) ↦ inl (inr (inl q))
            | inl (inr (inr (inl w))) ↦ elim (split.index i w) [
              | inl x ↦ inl (inr (inr (inr (HasIndex-last i t.0 d s.result_queue x))))
              | inr y ↦ inl (inr (inr (inl y)))
            ]
            | inl (inr (inr (inr x))) ↦
                inl (inr (inr (inr (HasIndex-left i s.result_queue ((t.0, d) ∷ []) x))))
          ];
          counted =
              omega (arith, v.counted, split.size, length-append s.result_queue ((t.0, d) ∷ []));
        }

    -- A result in its slot answers its index, and leaves the other slots.
    set_at-IsAnswered_self :
        (i : ℕ) (x : ResultItem) (ds : List DecryptResult)
        → length ds ≡ length rs
        → IsMade x
        → i ≡ x.0
        → IsAnswered i (set_at x.0 x.1 ds)
    set_at-IsAnswered_self i x ds size m e =
        let inside : x.0 < length ds = omega (arith, nth_lt x.0 m.0 rs m.1) in
        (x.1, rw e (nth-set_at x.0 x.1 ds inside), rw e m)

    set_at-IsAnswered :
        (i : ℕ) (x : ResultItem) (ds : List DecryptResult)
        → length ds ≡ length rs
        → IsMade x
        → IsAnswered i ds
        → IsAnswered i (set_at x.0 x.1 ds)
    set_at-IsAnswered i x ds size m a = elim (ℕ_discrete i x.0) [
      | yes e ↦ set_at-IsAnswered_self i x ds size m e
      | no other ↦ (a.0, nth-set_at_ne x.0 i x.1 ds other ∙ a.1, a.2)
    ]

    collect_result-IsSound :
        (s : State c) (x : ResultItem) (items : List ResultItem)
        → s.result_queue ≡ x ∷ items
        → IsSound s
        → IsSound (record s {
          result_queue = items;
          results = set_at x.0 x.1 s.results;
          finished = s.finished + 1;
        })
    collect_result-IsSound s x items e v =
        let made : All IsMade (x ∷ items) = rw e at v.made in
        record {
          sized = length-set_at x.0 x.1 s.results ∙ v.sized;
          pending_tasks = v.pending_tasks;
          queued_tasks = v.queued_tasks;
          running_tasks = v.running_tasks;
          made = made.1;
          covered = λ i h. elim (v.covered i h) [
            | inr a ↦ inr (set_at-IsAnswered i x s.results v.sized made.0 a)
            | inl (inl p) ↦ inl (inl p)
            | inl (inr (inl q)) ↦ inl (inr (inl q))
            | inl (inr (inr (inl w))) ↦ inl (inr (inr (inl w)))
            | inl (inr (inr (inr y))) ↦ elim (moved i (rw e at y)) [
              | inl z ↦ inr (set_at-IsAnswered_self i x s.results v.sized made.0 z)
              | inr z ↦ inl (inr (inr (inr z)))
            ]
          ];
          counted = omega (arith, v.counted, ap length e);
        }
      where
        moved : (i : ℕ) → HasIndex i (x ∷ items) → (i ≡ x.0) ⊎ HasIndex i items
        moved i h = h

    push_task-Behind :
        (s : State c) (ts : List Task)
        → s.pending ≡ ts
        → IsSound s
        → Behind (push_task c keys capacity workers s ts)
    unfolding push_task
    push_task-Behind s [] e v = tt
    push_task-Behind s (t ∷ ts) e v = elim (Bool-cases (ltb (length s.task_queue) capacity)) [
      | inl room ↦ rw room (push_task-IsSound s t ts e v)
      | inr full ↦ rw full tt
    ]

    take_task-Behind :
        (s : State c) (ts : List Task)
        → s.task_queue ≡ ts
        → IsSound s
        → Behind (take_task c keys capacity workers s ts)
    unfolding take_task
    take_task-Behind s [] e v = tt
    take_task-Behind s (t ∷ ts) e v =
        elim (Bool-cases (ltb (length s.running) (worker_count workers))) [
          | inl idle ↦ rw idle (take_task-IsSound s t ts e v)
          | inr busy ↦ rw busy tt
        ]

    put_result-Behind :
        (s : State c) (o : Option (Task × List Task))
        → Takes s.running o
        → IsSound s
        → Behind (put_result c keys capacity workers s o)
    unfolding put_result
    put_result-Behind s none h v = tt
    put_result-Behind s (some (t, rest)) split v = put_result-IsSound s t rest split v

    collect_result-Behind :
        (s : State c) (ts : List Task) (items : List ResultItem)
        → s.result_queue ≡ items
        → IsSound s
        → Behind (collect_result c keys capacity workers s ts items)
    unfolding collect_result
    collect_result-Behind s (t ∷ ts) items e v = tt
    collect_result-Behind s [] [] e v = tt
    collect_result-Behind s [] (x ∷ items) e v =
        elim (Bool-cases (ltb s.finished (length s.results))) [
          | inl more ↦ rw more (collect_result-IsSound s x items e v)
          | inr over ↦ rw over tt
        ]

    pub step-Behind :
        (x : Move) (s : State c) → IsSound s → Behind (step c keys capacity workers x s)
    unfolding step
    step-Behind pushes s v = push_task-Behind s s.pending refl v
    step-Behind takes s v = take_task-Behind s s.task_queue refl v
    step-Behind (completes n) s v =
        put_result-Behind s (take_out n s.running) (take_out-Takes n s.running) v
    step-Behind collects s v = collect_result-Behind s s.pending s.result_queue refl v
