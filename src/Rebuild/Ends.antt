-- ===== src/Rebuild/Ends.antt =====
-- When the loop of `runTask` of src/audit/index_rebuilder.cpp ends.
use sec_search.Prelude.{
  ℕ, zero, suc, ◌+◌, ◌-◌, ◌≤◌, ◌<◌, true, false, List, [], ◌∷◌, Option, none, some, Bytes, Error,
  ltb, ◌==◌, Bool-cases, if◌then◌else◌, ◌≡◌, refl, ◌⊎◌, inl, inr, arith,
}
use sec_search.Prelude.Action.{pure, lift, ◌>>=◌, ◌>>◌, Ensures, bind-Ensures, then-Ensures}
use sec_search.Crypto.Primitives.{Primitives}
use sec_search.Crypto.KeyManager.{KeyManager, enc, idx, tag, get_current_key}
use sec_search.Database.{RebuildTaskInfo, RebuildRawRecord}
use sec_search.Database.Server.{Server}
use sec_search.Database.Server.Lawful.{Lawful}
use sec_search.Database.Server.Reads.{Answering}
use sec_search.Database.Dao.Tasks.{get_records_for_rebuild, get_rebuild_task_status}
use sec_search.Database.Dao.Records.{on_session}
use sec_search.Query.Records.{is_empty}
use sec_search.Rebuild.{
  Progress, count, min, rebuild_one_record, save_progress, rebuild_records, run_batch, run_batches,
  finish, conclude, run_from, first_progress, run_pending, run_task,
}
use sec_search.Rebuild.Range.{InRange, get_records_for_rebuild-InRange}

module _ (c : Primitives) (sv : Server) (law : Lawful sv) (reads : Answering sv law) where
  module _ (task : RebuildTaskInfo) (batch_size : ℕ) (enc_key idx_key : Bytes) where
    abbrev Ahead : ℕ → Progress → Type 0
    Ahead a p = a < p.next

    count-Ahead :
        (a : ℕ) (r : Option Error) (id : ℕ) (p : Progress) → a ≤ id → Ahead a (count r id p)
    count-Ahead a none id p h = omega (arith, h)
    count-Ahead a (some e) id p h = omega (arith, h)

    rebuild_records-Ahead :
        (a b n : ℕ) (records : List RebuildRawRecord) (p : Progress)
        → InRange c sv law reads a b n records
        → Ahead a p ⊎ (is_empty records ≡ false)
        → Ensures (Ahead a) (rebuild_records c sv task batch_size enc_key idx_key records p)
    unfolding rebuild_records is_empty
    rebuild_records-Ahead a b n [] p h (inl k) s = k
    rebuild_records-Ahead a b n [] p h (inr e) s = cc
    rebuild_records-Ahead a b n (r ∷ records) p h k s =
        then-Ensures (Ahead a) (rebuild_one_record c sv r task.field_code enc_key idx_key) _
          (λ result. then-Ensures (Ahead a) _ _ (λ _.
            rebuild_records-Ahead a b n records (count result r.id p) h.1
              (inl (count-Ahead a result r.id p h.0.0))))
          s

    run_batch-Ahead :
        (p : Progress)
        → 0 < batch_size
        → p.next ≤ task.end_id
        → Ensures (Ahead p.next) (run_batch c sv task batch_size enc_key idx_key p)
    unfolding run_batch is_empty
    run_batch-Ahead p h k =
        bind-Ensures (InRange c sv law reads p.next (stop - 1) batch_size) (Ahead p.next)
          (on_session c sv (get_records_for_rebuild sv p.next (stop - 1) batch_size)) _
          (get_records_for_rebuild-InRange c sv law reads p.next (stop - 1) batch_size) rebuilt
      where
        stop : ℕ
        stop = min (p.next + batch_size) (task.end_id + 1)

        rebuilt :
            (records : List RebuildRawRecord)
            → InRange c sv law reads p.next (stop - 1) batch_size records
            → Ensures (Ahead p.next) (
                if is_empty records
                then pure (record p { next = stop })
                else rebuild_records c sv task batch_size enc_key idx_key records p >>= λ p'.
                    save_progress c sv task batch_size enc_key idx_key p' 1 >> pure p')
        rebuilt [] r s = ground (arith, h, k)
        rebuilt (r ∷ records) h' s =
            bind-Ensures (Ahead p.next) (Ahead p.next)
              (rebuild_records c sv task batch_size enc_key idx_key (r ∷ records) p) _
              (rebuild_records-Ahead p.next (stop - 1) batch_size (r ∷ records) p h' (inr refl))
              (λ p' a.
                then-Ensures (Ahead p.next)
                  (save_progress c sv task batch_size enc_key idx_key p' 1) (λ _. pure p')
                  (λ _ s'. a))
              s

    abbrev Finished : Option Progress → Type 0
    Finished r = (q : Progress) × (r ≡ some q)

    run_batches-Finished :
        (n : ℕ) (p : Progress)
        → 0 < batch_size
        → task.end_id + 1 ≤ p.next + n
        → Ensures Finished (run_batches c sv task batch_size enc_key idx_key (suc n) p)
    unfolding run_batches
    run_batches-Finished zero p h k s = rw (over, run_batches) (p, refl)
      where
        over : ltb task.end_id p.next ≡ true
        over = ground (arith, k)
    run_batches-Finished (suc n) p h k s = elim (Bool-cases (ltb task.end_id p.next)) [
      | inl over ↦ rw (over, run_batches) (p, refl)
      | inr more ↦
          rw (more, run_batches)
            (bind-Ensures (Ahead p.next) Finished (run_batch c sv task batch_size enc_key idx_key p)
              _ (run_batch-Ahead p h (ground (arith, more)))
              (λ p' a. run_batches-Finished n p' h (omega (arith, a, k))) s)
    ]

    abbrev pub Returns : Option ℕ → Type 0
    Returns r = (n : ℕ) × (r ≡ some n)

    conclude-Returns :
        (r : Option Progress)
        → Finished r
        → Ensures Returns (conclude c sv task batch_size enc_key idx_key r)
    unfolding conclude
    conclude-Returns none (q, e) s = cc
    conclude-Returns (some q) f s =
        then-Ensures Returns (finish c sv task batch_size enc_key idx_key q)
          (λ _. pure (some q.success)) (λ _ s'. (q.success, refl)) s

    -- A batch of at least one makes the loop end with the fuel that it is given.
    run_from-Returns :
        (p : Progress)
        → 0 < batch_size
        → Ensures Returns (run_from c sv task batch_size enc_key idx_key p)
    unfolding run_from
    run_from-Returns p h =
        bind-Ensures Finished Returns
          (run_batches c sv task batch_size enc_key idx_key (suc (task.end_id + 1)) p) _
          (run_batches-Finished (task.end_id + 1) p h (omega arith)) conclude-Returns

  run_pending-Returns :
      (keys : KeyManager) (task : RebuildTaskInfo) (batch_size : ℕ)
      → 0 < batch_size
      → Ensures (λ r. (n : ℕ) × (r ≡ some n)) (run_pending c sv keys task batch_size)
  unfolding run_pending
  run_pending-Returns keys task batch_size h =
      then-Ensures (λ r. (n : ℕ) × (r ≡ some n)) _ _
        λ _.
          then-Ensures (λ r. (n : ℕ) × (r ≡ some n)) (lift (get_current_key enc keys)) _
            λ enc_key.
              then-Ensures (λ r. (n : ℕ) × (r ≡ some n)) (lift (get_current_key idx keys)) _
                λ idx_key.
                  then-Ensures (λ r. (n : ℕ) × (r ≡ some n)) (lift (get_current_key tag keys)) _
                    λ tag_key.
                      run_from-Returns task batch_size enc_key idx_key (first_progress c sv task) h

  pub run_task-Returns :
      (keys : KeyManager) (task_id batch_size : ℕ)
      → 0 < batch_size
      → Ensures (λ r. (n : ℕ) × (r ≡ some n)) (run_task c sv keys task_id batch_size)
  unfolding run_task
  run_task-Returns keys task_id batch_size h =
      then-Ensures (λ r. (n : ℕ) × (r ≡ some n))
        (on_session c sv (get_rebuild_task_status sv task_id)) _
        λ task s. elim (Bool-cases (task.status == 2)) [
          | inl over ↦ rw over (task.success_count, refl)
          | inr more ↦ rw more (run_pending-Returns keys task batch_size h s)
        ]
