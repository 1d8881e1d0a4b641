-- ===== src/Decrypt/Pipeline/Tests.antt =====
-- A run of the pipeline on one record.
use sec_search.Prelude.{◌*◌, ◌≤◌, List, [], ◌∷◌, some, codes, length, ◌≡◌, ◌↔◌, refl, arith}
use sec_search.Crypto.Sample.{sample, sample_primitives}
use sec_search.Crypto.Provider.{Host}
use sec_search.Crypto.KeyManager.{fresh}
use sec_search.Database.{CipherRecord, FieldType}
use sec_search.Decrypt.Record.{DecryptResult, decrypt_record}
use sec_search.Decrypt.Slots.{nth, set_at, take_out}
use sec_search.Decrypt.Pipeline.{
  worker_count, State, Move, pushes, takes, collects, completes, push_task, take_task, put_result,
  collect_result, step, run, start,
}
use sec_search.Decrypt.Pipeline.Order.{run_in_order}
use sec_search.Decrypt.Pipeline.Progress.{run_takes_four}
use sec_search.Decrypt.Pipeline.Threads.{
  Threads, waits_for_result, does, main_sleeps, begin, pushed, taken, wait_main, turn, run_turns,
}
use sec_search.Decrypt.Pipeline.Threads.Wakes.{CanDo, run_turns_continue}
use sec_search.Query.Records.{is_empty}

abbrev row : CipherRecord
row = record {
  id = 7;
  cipher = codes "00";
  tag = codes "11";
  field_type = FieldType.name;
  enc_key_version = 1;
}

abbrev rows : List CipherRecord
rows = row ∷ []

abbrev host : Host sample
host = record { world = 5; live = 0 }

abbrev schedule : List Move
schedule = pushes ∷ takes ∷ completes 0 ∷ collects ∷ []

abbrev after_row : State sample_primitives
after_row = record {
  env = (decrypt_record sample_primitives fresh row host).1;
  pending = [];
  task_queue = [];
  running = [];
  result_queue = [];
  results = (decrypt_record sample_primitives fresh row host).0 ∷ [];
  finished = 1;
}

schedule_runs :
    run sample_primitives fresh 1 1 schedule (start sample_primitives rows host) ≡ some after_row
unfolding run step push_task take_task put_result collect_result worker_count set_at take_out
schedule_runs = refl

row_0 : nth 0 rows ≡ some row
unfolding nth
row_0 = refl

run_in_order_example :
    (length after_row.results ≡ length rows)
    × ((d : DecryptResult) × (nth 0 after_row.results ≡ some d)
        × ((e : Host sample) × (d ≡ (decrypt_record sample_primitives fresh row e).0)))
run_in_order_example =
    run_in_order sample_primitives fresh rows 1 1 schedule host after_row 0 row schedule_runs refl
      row_0

run_takes_four_example :
    (length schedule ≤ 4 * length rows)
    × ((after_row.finished ≡ length rows) ↔ (length schedule ≡ 4 * length rows))
run_takes_four_example =
    run_takes_four sample_primitives fresh 1 1 rows schedule host after_row schedule_runs

one_worker : 1 ≤ worker_count 1
unfolding worker_count
one_worker = omega arith

abbrev half_way : State sample_primitives
half_way = record (start sample_primitives rows host) { pending = []; running = (0, row) ∷ [] }

-- The main thread has pushed the record, which wakes the worker, and waits for its result.
abbrev waiting : Threads sample_primitives
waiting = record { machine = half_way; asleep = 0; main = waits_for_result }

waiting_runs :
    run_turns sample_primitives fresh 1 1
      (does pushes ∷ does takes ∷ main_sleeps ∷ [])
      (begin sample_primitives rows host 1)
    ≡ some waiting
unfolding run_turns turn step push_task take_task worker_count pushed taken wait_main is_empty
waiting_runs = refl

run_turns_continue_example : CanDo sample_primitives fresh 1 1 waiting
run_turns_continue_example =
    run_turns_continue sample_primitives fresh 1 1 rows
      (does pushes ∷ does takes ∷ main_sleeps ∷ []) host 1 waiting (omega arith) one_worker
      waiting_runs (omega arith)
