-- ===== src/Decrypt/Pipeline/Progress.antt =====
-- The pipeline does not run for ever.
use sec_search.Prelude.{
  ℕ, suc, ◌+◌, ◌*◌, ◌≤◌, List, [], ◌∷◌, Option, none, some, length, length-append, ltb, ◌≡◌, refl,
  ap, ◌↔◌, inl, inr, arith, Bool-cases,
}
use sec_search.Crypto.Primitives.{Primitives}
use sec_search.Crypto.KeyManager.{KeyManager}
use sec_search.Database.{CipherRecord}
use sec_search.Decrypt.Record.{decrypt_record}
use sec_search.Decrypt.Slots.{take_out, take_out-Takes, Takes}
use sec_search.Decrypt.Pipeline.{
  worker_count, Task, ResultItem, State, number, start, Move, pushes, takes, collects, completes,
  push_task, take_task, put_result, collect_result, step, run,
}
use sec_search.Decrypt.Pipeline.Inventory.{in_flight}
use sec_search.Decrypt.Pipeline.Order.{run-IsSound, length-number}

module _ (c : Primitives) (keys : KeyManager) (capacity workers : ℕ) where
  -- The moves that the items in flight have still before them.
  abbrev moves_left : State c → ℕ
  moves_left s =
      4 * length s.pending + 3 * length s.task_queue + 2 * length s.running + length s.result_queue

  -- A move, if it is there, takes exactly one of them.
  abbrev TakesOne : ℕ → Option (State c) → Type 0
  TakesOne n none = Unit
  TakesOne n (some s) = n ≡ suc (moves_left s)

  push_task-TakesOne :
      (s : State c) (ts : List Task)
      → s.pending ≡ ts
      → TakesOne (moves_left s) (push_task c keys capacity workers s ts)
  unfolding push_task
  push_task-TakesOne s [] e = tt
  push_task-TakesOne s (t ∷ ts) e = elim (Bool-cases (ltb (length s.task_queue) capacity)) [
    | inl room ↦ rw room (omega (arith, ap length e, length-append s.task_queue (t ∷ [])))
    | inr full ↦ rw full tt
  ]

  take_task-TakesOne :
      (s : State c) (ts : List Task)
      → s.task_queue ≡ ts
      → TakesOne (moves_left s) (take_task c keys capacity workers s ts)
  unfolding take_task
  take_task-TakesOne s [] e = tt
  take_task-TakesOne s (t ∷ ts) e =
      elim (Bool-cases (ltb (length s.running) (worker_count workers))) [
        | inl idle ↦ rw idle (omega (arith, ap length e))
        | inr busy ↦ rw busy tt
      ]

  put_result-TakesOne :
      (s : State c) (o : Option (Task × List Task))
      → Takes s.running o
      → TakesOne (moves_left s) (put_result c keys capacity workers s o)
  unfolding put_result
  put_result-TakesOne s none h = tt
  put_result-TakesOne s (some (t, rest)) split = omega (
    arith,
    split.size,
    length-append s.result_queue ((t.0, (decrypt_record c keys t.1 s.env).0) ∷ []),
  )

  collect_result-TakesOne :
      (s : State c) (ts : List Task) (items : List ResultItem)
      → s.result_queue ≡ items
      → TakesOne (moves_left s) (collect_result c keys capacity workers s ts items)
  unfolding collect_result
  collect_result-TakesOne s (t ∷ ts) items e = tt
  collect_result-TakesOne s [] [] e = tt
  collect_result-TakesOne s [] (x ∷ items) e =
      elim (Bool-cases (ltb s.finished (length s.results))) [
        | inl more ↦ rw more (omega (arith, ap length e))
        | inr over ↦ rw over tt
      ]

  step-TakesOne :
      (x : Move) (s : State c) → TakesOne (moves_left s) (step c keys capacity workers x s)
  unfolding step
  step-TakesOne pushes s = push_task-TakesOne s s.pending refl
  step-TakesOne takes s = take_task-TakesOne s s.task_queue refl
  step-TakesOne (completes n) s =
      put_result-TakesOne s (take_out n s.running) (take_out-Takes n s.running)
  step-TakesOne collects s = collect_result-TakesOne s s.pending s.result_queue refl

  -- A schedule takes as many as it has moves.
  abbrev TakesMany : ℕ → ℕ → Option (State c) → Type 0
  TakesMany n k none = Unit
  TakesMany n k (some s) = n ≡ k + moves_left s

  continue :
      (n k : ℕ) (o : Option (State c)) (rest : State c → Option (State c))
      → TakesOne n o
      → ((s : State c) → TakesMany (moves_left s) k (rest s))
      → TakesMany n (suc k) (elim o [ none ↦ none | some s ↦ rest s ])
  continue n k none rest h f = tt
  continue n k (some s) rest h f = one_more (rest s) (f s)
    where
      one_more : (o : Option (State c)) → TakesMany (moves_left s) k o → TakesMany n (suc k) o
      one_more none g = tt
      one_more (some s') g = omega (arith, h, g)

  run-TakesMany :
      (xs : List Move) (s : State c)
      → TakesMany (moves_left s) (length xs) (run c keys capacity workers xs s)
  unfolding run
  run-TakesMany [] s = omega arith
  run-TakesMany (x ∷ xs) s =
      continue (moves_left s) (length xs) (step c keys capacity workers x s)
        (run c keys capacity workers xs) (step-TakesOne x s) (run-TakesMany xs)

  -- A schedule on n records has at most 4 n moves, and has collected all n results exactly when
  -- it has 4 n.
  pub run_takes_four :
      (rs : List CipherRecord) (xs : List Move) (e : c.Env) (s : State c)
      → run c keys capacity workers xs (start c rs e) ≡ some s
      → (length xs ≤ 4 * length rs) × ((s.finished ≡ length rs) ↔ (length xs ≡ 4 * length rs))
  run_takes_four rs xs e s h =
      let spent : 4 * length (number 0 rs) + 0 + 0 + 0 ≡ length xs + moves_left s =
        rw h at (run-TakesMany xs (start c rs e)) in
      let counted : s.finished + in_flight c keys rs s ≡ length rs =
        (run-IsSound c keys rs capacity workers xs e s h).counted in
      (
        omega (arith, spent, length-number 0 rs),
        (
          (λ done. omega (arith, spent, counted, length-number 0 rs, done)),
          λ full. omega (arith, spent, counted, length-number 0 rs, full),
        ),
      )
