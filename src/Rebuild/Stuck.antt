-- ===== src/Rebuild/Stuck.antt =====
-- The loop of `runTask` of src/audit/index_rebuilder.cpp with a batch size of 0.
use sec_search.Prelude.{
  ℕ, zero, suc, ◌+◌, ◌-◌, ◌≤◌, List, [], ◌∷◌, Option, none, Bytes, ltb, Bool-cases, if◌then◌else◌,
  ◌≡◌, refl, inl, inr, arith,
}
use sec_search.Prelude.Action.{pure, ◌>>=◌, ◌>>◌, Ensures, bind-Ensures}
use sec_search.Crypto.Primitives.{Primitives}
use sec_search.Database.{RebuildTaskInfo, RebuildRawRecord}
use sec_search.Database.Server.{Server}
use sec_search.Database.Server.Lawful.{Lawful}
use sec_search.Database.Server.Reads.{Answering}
use sec_search.Database.Dao.Tasks.{get_records_for_rebuild}
use sec_search.Database.Dao.Records.{on_session}
use sec_search.Query.Records.{is_empty}
use sec_search.Rebuild.{Progress, min, save_progress, rebuild_records, run_batch, run_batches}
use sec_search.Rebuild.Range.{InRange, get_records_for_rebuild-InRange}

module _ (c : Primitives) (sv : Server) (law : Lawful sv) (reads : Answering sv law) where
  module _ (task : RebuildTaskInfo) (batch_size : ℕ) (enc_key idx_key : Bytes) where
    -- The loop without a batch size: it stays where it is.
    abbrev Unfinished : Option Progress → Type 0
    Unfinished r = r ≡ none

    run_batch-stuck :
        (p : Progress)
        → batch_size ≡ 0
        → p.next ≤ task.end_id
        → Ensures (λ p'. p'.next ≡ p.next) (run_batch c sv task batch_size enc_key idx_key p)
    unfolding run_batch is_empty
    run_batch-stuck p h k =
        bind-Ensures (InRange c sv law reads p.next (stop - 1) batch_size) (λ p'. p'.next ≡ p.next)
          (on_session c sv (get_records_for_rebuild sv p.next (stop - 1) batch_size)) _
          (get_records_for_rebuild-InRange c sv law reads p.next (stop - 1) batch_size) stays
      where
        stop : ℕ
        stop = min (p.next + batch_size) (task.end_id + 1)

        stays :
            (records : List RebuildRawRecord)
            → InRange c sv law reads p.next (stop - 1) batch_size records
            → Ensures
                (λ p'. p'.next ≡ p.next)
                (if is_empty records
                  then pure (record p { next = stop })
                  else rebuild_records c sv task batch_size enc_key idx_key records p >>= λ p'.
                      save_progress c sv task batch_size enc_key idx_key p' 1 >> pure p')
        stays [] r s = ground (arith, h, k)
        stays (r ∷ records) h' s = absurd (omega (arith, h, h'.0))

    -- With a batch size of 0 the loop never ends while an id is left, whatever the fuel.
    pub run_batches_stuck :
        (n : ℕ) (p : Progress)
        → batch_size ≡ 0
        → p.next ≤ task.end_id
        → Ensures Unfinished (run_batches c sv task batch_size enc_key idx_key n p)
    unfolding run_batches
    run_batches_stuck zero p h k s = refl
    run_batches_stuck (suc n) p h k s = elim (Bool-cases (ltb task.end_id p.next)) [
      | inl over ↦ absurd (ground arith)
      | inr more ↦
          rw (more, run_batches)
            (bind-Ensures (λ p'. p'.next ≡ p.next) Unfinished
              (run_batch c sv task batch_size enc_key idx_key p) _ (run_batch-stuck p h k)
              (λ p' e. run_batches_stuck n p' h (omega (arith, e, k))) s)
    ]
