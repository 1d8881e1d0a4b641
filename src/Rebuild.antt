-- ===== src/Rebuild.antt =====
-- `rebuild::IndexRebuilder` of src/audit/index_rebuilder.cpp, without its progress callback.
pub mod Range
pub mod Ends
pub mod Stuck
mod Tests
pub mod Partial
use sec_search.Prelude.{
  ℕ, zero, suc, ◌+◌, ◌-◌, ◌%◌, ◌^◌, Bool, true, false, List, [], ◌∷◌, Option, none, some, Bytes,
  Result, ok, throw, Error, ltb, ◌==◌, if◌then◌else◌,
}
use sec_search.Prelude.Action.{Action, pure, lift, ◌>>=◌, ◌>>◌}
use sec_search.Prelude.Int.{ℤ, pos, negsuc}
use sec_search.Crypto.Primitives.{Primitives}
use sec_search.Crypto.KeyManager.{KeyManager, enc, idx, tag, get_current_key}
use sec_search.Database.{FieldType, name, phone, address, RebuildTaskInfo, RebuildRawRecord}
use sec_search.Database.Server.{Server, Session, Statement, write}
use sec_search.Database.Dao.Tasks.{
  create_rebuild_task, update_rebuild_task_progress, get_rebuild_task_status,
  get_records_for_rebuild,
}
use sec_search.Database.Dao.Records.{Store, on_env, on_session, hash_tokens}
use sec_search.Query.Bigram.{split_bigram}
use sec_search.Query.Records.{is_empty}

abbrev present_field : FieldType → Bytes → Option (FieldType × Bytes)
present_field t [] = none
present_field t (b ∷ cipher) = some (t, b ∷ cipher)

-- The field of a code and its cipher, unless it is empty or the code is none of 1 to 3.
unfoldable pub field_cipher : ℕ → RebuildRawRecord → Option (FieldType × Bytes)
field_cipher field_code r =
    if field_code == 1
    then present_field name r.name_cipher
    else if field_code == 2
    then present_field phone r.phone_cipher
    else if field_code == 3
    then present_field address r.address_cipher
    else none

-- Where the loop stands: `next` is `currentId + 1`.
pub record Progress : Type 0 where
  pub next : ℕ
  pub success : ℕ
  pub fail : ℕ

abbrev pub min : ℕ → ℕ → ℕ
min a b = if ltb b a then b else a

-- What `batchStart + batchSize - 1` and the smaller of this and `endId` are as `int64_t`, on a
-- machine that wraps around. `run_batch` has them without a bound: they agree below 2^63
-- (Rebuild/Ends).
unfoldable pub to_int64 : ℕ → ℤ
to_int64 n =
    if ltb (n % 2 ^ 64) (2 ^ 63) then pos (n % 2 ^ 64) else negsuc (2 ^ 64 - n % 2 ^ 64 - 1)

abbrev pub pred : ℤ → ℤ
pred (pos zero) = negsuc 0
pred (pos (suc n)) = pos n
pred (negsuc n) = negsuc (suc n)

abbrev pub at_most : ℤ → ℕ → ℤ
at_most (pos n) last = pos (min n last)
at_most (negsuc n) last = negsuc n

unfoldable pub batch_end : ℕ → ℕ → ℕ → ℤ
unfolding to_int64
batch_end next size last = at_most (pred (to_int64 (next + size))) last

-- A record that is rebuilt, or not.
abbrev pub count : Option Error → ℕ → Progress → Progress
count none id p = record { next = id + 1; success = p.success + 1; fail = p.fail }
count (some e) id p = record { next = id + 1; success = p.success; fail = p.fail + 1 }

-- `return false;` with an `errorMsg`, and what the `catch` makes of an exception.
unfoldable pub reported : {S : Type 0} → Result (Unit {0}) × S → Result (Option Error) × S
reported (ok u, s) = (ok none, s)
reported (throw e, s) = (ok (some e), s)

module _ (c : Primitives) (sv : Server) where
  abbrev pub write_blind : ℕ → FieldType → Bytes → Action (Session sv) (Unit {0})
  write_blind id t blind =
      write sv Error.prepare_update_blind_failed Error.prepare_update_blind_failed
        Error.use_of_closed_statement Error.use_of_closed_statement
        (Statement.update_blind t blind id)

  abbrev pub delete_hashes : ℕ → FieldType → Action (Session sv) (Unit {0})
  delete_hashes id t =
      write sv Error.prepare_delete_fuzzy_failed Error.prepare_delete_fuzzy_failed
        Error.use_of_closed_statement Error.use_of_closed_statement
        (Statement.delete_field_fuzzy id t)

  -- `if (!newTokenHashes.empty()) …`.
  unfoldable pub insert_hashes : ℕ → FieldType → List Bytes → Action (Session sv) (Unit {0})
  insert_hashes id t [] = pure tt
  insert_hashes id t (h ∷ hashes) =
      write sv Error.prepare_insert_fuzzy_failed Error.prepare_insert_fuzzy_failed
        Error.use_of_closed_statement Error.use_of_closed_statement
        (Statement.insert_fuzzy id t (h ∷ hashes))

  -- Three statements, each on its own.
  unfoldable pub write_index : ℕ → FieldType → Bytes → List Bytes → Action (Session sv) (Unit {0})
  unfolding insert_hashes
  write_index id t blind hashes =
      write_blind id t blind >> (delete_hashes id t >> insert_hashes id t hashes)

  unfoldable pub rebuild_field_of :
      ℕ → FieldType → Bytes → Bytes → Bytes → Action (Store c sv) (Unit {0})
  unfolding write_index
  rebuild_field_of id t cipher enc_key idx_key = do
    plain ← on_env c sv (c.decrypt cipher enc_key)
    blind ← on_env c sv (c.hmac_hex plain idx_key)
    hashes ← on_env c sv (hash_tokens c sv (split_bigram plain) idx_key)
    on_session c sv (write_index id t blind hashes)

  -- True is `none`, and false the error.
  unfoldable pub rebuild_one_record :
      RebuildRawRecord → ℕ → Bytes → Bytes → Action (Store c sv) (Option Error)
  unfolding field_cipher reported rebuild_field_of
  rebuild_one_record r field_code enc_key idx_key = elim (field_cipher field_code r) [
    | none ↦ pure none
    | some (t, cipher) ↦ λ s. reported (rebuild_field_of r.id t cipher enc_key idx_key s)
  ]

  module _ (task : RebuildTaskInfo) (batch_size : ℕ) (enc_key idx_key : Bytes) where
    unfoldable pub save_progress : Progress → ℕ → Action (Store c sv) (Unit {0})
    save_progress p status =
        on_session c sv
          (update_rebuild_task_progress sv task.task_id (p.next - 1) p.success p.fail status)

    -- The loop over the records of a batch.
    unfoldable pub rebuild_records : List RebuildRawRecord → Progress → Action (Store c sv) Progress
    unfolding rebuild_one_record save_progress
    rebuild_records [] p = pure p
    rebuild_records (r ∷ records) p = do
      result ← rebuild_one_record r task.field_code enc_key idx_key
      let p' = count result r.id p
      let saved = save_progress p' 1
      if (p'.success + p'.fail) % 10 == 0 then saved else pure tt
      rebuild_records records p'

    -- The body of the loop over the batches. `stop` is `batchEnd + 1`.
    unfoldable pub run_batch : Progress → Action (Store c sv) Progress
    unfolding rebuild_records save_progress is_empty
    run_batch p = do
      let stop = min (p.next + batch_size) (task.end_id + 1)
      records ← on_session c sv (get_records_for_rebuild sv p.next (stop - 1) batch_size)
      let rebuilt = rebuild_records records p >>= λ p'. save_progress p' 1 >> pure p'
      if is_empty records then pure (record p { next = stop }) else rebuilt

    -- `none` if the fuel runs out.
    unfoldable pub run_batches : ℕ → Progress → Action (Store c sv) (Option Progress)
    unfolding run_batch
    run_batches zero p = pure none
    run_batches (suc n) p =
        let more = run_batch p >>= λ p'. run_batches n p' in
        if ltb task.end_id p.next then pure (some p) else more

    -- The last UPDATE of a task with failures; its results are not looked at, and a statement that
    -- could not be prepared stays open.
    unfoldable pub mark_failed : ℕ → Action (Store c sv) (Unit {0})
    mark_failed fail = on_session c sv λ s.
        let st = Statement.fail_task fail task.task_id in
        let (r, w) = sv.init s.world in
        elim r [
          | none ↦ (ok tt, record s { world = w })
          | some stmt ↦
              let (done, w1) = sv.prepare stmt st w in
              let w2 = (sv.execute stmt st (sv.bind_param stmt st w1).1).1 in
              if done
              then (ok tt, record s { world = sv.close stmt w2 })
              else (ok tt, record s { world = w1; statements = s.statements + 1 })
        ]

    unfoldable pub finish : Progress → Action (Store c sv) (Unit {0})
    unfolding mark_failed save_progress
    finish p = if ltb 0 p.fail then mark_failed p.fail else save_progress p 2

    unfoldable pub conclude : Option Progress → Action (Store c sv) (Option ℕ)
    unfolding finish
    conclude none = pure none
    conclude (some q) = finish q >> pure (some q.success)

    -- The loop is given more fuel than there are ids.
    unfoldable pub run_from : Progress → Action (Store c sv) (Option ℕ)
    unfolding run_batches conclude
    run_from p = run_batches (suc (task.end_id + 1)) p >>= λ r. conclude r

  -- The loop's first record is behind the last that was processed.
  unfoldable pub first_progress : RebuildTaskInfo → Progress
  first_progress task = record {
    next = if ltb 0 task.last_processed_id then task.last_processed_id + 1 else task.start_id;
    success = task.success_count;
    fail = task.fail_count;
  }

  unfoldable pub run_pending : KeyManager → RebuildTaskInfo → ℕ → Action (Store c sv) (Option ℕ)
  unfolding run_from first_progress
  run_pending keys task batch_size = do
    on_session c sv (
        update_rebuild_task_progress sv task.task_id task.last_processed_id task.success_count
          task.fail_count 1)
    enc_key ← lift (get_current_key enc keys)
    idx_key ← lift (get_current_key idx keys)
    tag_key ← lift (get_current_key tag keys)
    run_from task batch_size enc_key idx_key (first_progress task)

  -- `none` if the loop runs out of fuel.
  unfoldable pub run_task : KeyManager → ℕ → ℕ → Action (Store c sv) (Option ℕ)
  unfolding run_pending
  run_task keys task_id batch_size = do
    task ← on_session c sv (get_rebuild_task_status sv task_id)
    let run = run_pending keys task batch_size
    if task.status == 2 then pure (some task.success_count) else run

  unfoldable pub rebuild_field : KeyManager → ℕ → ℕ → ℕ → ℕ → Action (Store c sv) (Option ℕ)
  unfolding run_task
  rebuild_field keys field_code start_id end_id batch_size = do
    task_id ← on_session c sv (create_rebuild_task sv field_code start_id end_id)
    run_task keys task_id batch_size
