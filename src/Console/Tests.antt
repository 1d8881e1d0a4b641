-- ===== src/Console/Tests.antt =====
-- The console program on its sample: a wrong KEK, a save that fails, and the end of the input.
use sec_search.Prelude.{
  ℕ, ◌+◌, true, false, [], ◌∷◌, ◌++◌, none, some, Bytes, codes, ok, throw, Error, ◌≡◌, refl, arith,
}
use sec_search.Prelude.Action.{◌>>◌}
use sec_search.Prelude.Triple.{Post}
use sec_search.Prelude.Int.{pos}
use sec_search.Crypto.KeyManager.{KeyStatus, enc, idx, tag, get_current_key, get_current_key_info}
use sec_search.Crypto.KeyManager.RotateTime.{
  save_rotate_time_to_file, load_rotate_time_from_file, load_rotate_time_from_file-save,
}
use sec_search.Database.Server.{KeyRow}
use sec_search.Database.Server.Memory.{memory, memory_lawful, memory_answering}
use sec_search.Console.{App}
use sec_search.Console.Input.{Lines, RebuildRequest, get_rebuild_request}
use sec_search.Console.Sample.{
  labelled, labelled_lawful, down, tables_with, manager, info, app, late, clock, strip,
}
use sec_search.Console.Rotation.{
  check_and_auto_rotate, key_management, load_time, save_key, days_since,
}
use sec_search.Console.Records.{Request, rebuild_index}
use sec_search.Console.Menu.{Round, perform, menu, menu_at_end_of_input}
use sec_search.Console.Menu.Returns.{perform-Returns}
use sec_search.Console.Menu.Ends.{rebuild_index_ends}
use sec_search.Prelude.Decimal.{is_space, read_integer, first_line}
use sec_search.Prelude.SortedMap.{lookup}
use sec_search.Database.Server.{real_query, write, select_rows}
use sec_search.Database.Server.Answers.{answer}
use sec_search.Database.Server.Tables.{effect}
use sec_search.Crypto.KeyManager.Loading.{load_from_database, load_all, load_records, load_record}
use sec_search.Database.Transaction.{in_transaction}
use sec_search.Database.Dao.Keys.{save_key_to_config, load_all_keys_from_config}
use sec_search.Database.Dao.SaveKey.{save_to_database}
use sec_search.Console.Rotation.Stale.{globals}
use sec_search.Console.Rotation.Stale.Drawn.{CannotSave, Drawn, check_and_auto_rotate_stale}
use sec_search.Console.Rotation.InUse.{AllInUse, Anything}
use sec_search.Console.Rotation.InUse.Management.{key_management_in_use}
use sec_search.Console.Rotation.Waits.{check_and_auto_rotate_without_file}
use sec_search.Console.Start.{
  sixteen, load_from_config, load_or_initialise, save_initial_keys, start,
}
use sec_search.Console.Start.InUse.{Started, start_in_use}
use sec_search.Console.Start.Overwrites.{Initialised, Begun, load_or_initialise_overwrites}

load_rotate_time_from_file-save_example :
    load_rotate_time_from_file
      (save_rotate_time_to_file true (record manager { last_rotate_time = pos (late + 7) }) none)
      5
      manager
    ≡ (ok tt, record manager { last_rotate_time = pos late })
load_rotate_time_from_file-save_example =
    load_rotate_time_from_file-save (record manager { last_rotate_time = pos (late + 7) }) manager
      (late + 7) 5 none refl (omega arith)

abbrev program : App labelled down memory
program = app 9 (tables_with []) none

check_and_auto_rotate_without_file_example :
    check_and_auto_rotate labelled down memory true clock program
    ≡ (ok false, record program { keys = record manager { last_rotate_time = pos late } })
check_and_auto_rotate_without_file_example =
    check_and_auto_rotate_without_file labelled down memory true clock program refl (omega arith)

-- The rows of key_config were sealed under another KEK.
abbrev old_row : ℕ → KeyRow
old_row t = record {
  key_type = t;
  key_cipher = sixteen 4 ++ sixteen t;
  key_version = 1;
  status = KeyStatus.enabled;
}

abbrev wrong_kek : App labelled down memory
wrong_kek = app 9 (tables_with (old_row 1 ∷ old_row 2 ∷ old_row 3 ∷ [])) none

abbrev after_load : App labelled down memory
after_load = (load_from_config labelled down memory (sixteen 5) wrong_kek).1

load_or_initialise_overwrites_example :
    (load_or_initialise labelled down memory (sixteen 5) wrong_kek
      ≡ (save_initial_keys labelled down memory
            >> load_from_config labelled down memory (sixteen 5))
          after_load)
    × Post
        (λ _.
          Initialised labelled labelled_lawful down memory memory_lawful
            (sixteen 5)
            (tables_with (old_row 1 ∷ old_row 2 ∷ old_row 3 ∷ [])))
        (Begun labelled labelled_lawful down memory memory_lawful
          (sixteen 5)
          (tables_with (old_row 1 ∷ old_row 2 ∷ old_row 3 ∷ [])))
        (save_initial_keys labelled down memory after_load)
unfolding load_from_config strip labelled_lawful memory_lawful load_all_keys_from_config select_rows
    answer effect load_from_database load_all load_records load_record
load_or_initialise_overwrites_example =
    load_or_initialise_overwrites labelled labelled_lawful down memory memory_lawful (sixteen 5)
      (tables_with (old_row 1 ∷ old_row 2 ∷ old_row 3 ∷ [])) wrong_kek after_load
      Error.failed_to_load_any_valid_key refl refl tt refl

-- The last rotation was in 1970, and the server refuses every statement.
abbrev due : App labelled down memory
due = app 0 (tables_with []) (some (codes "0"))

refuses_keys :
    (key : Bytes) (version : ℕ) (s : App labelled down memory)
    → s.store.session ≡ due.store.session
    → (save_key labelled down memory enc key version s).0 ≡ throw Error.execute_save_key_failed
unfolding save_key save_to_database save_key_to_config in_transaction real_query write
refuses_keys key version s e = rw e refl

cannot_save :
    CannotSave labelled labelled_lawful down memory true clock due (info 1) (info 2) (info 3)
unfolding load_time load_rotate_time_from_file read_integer first_line days_since is_space lookup
    labelled_lawful
cannot_save = record {
  ready = tt;
  due = omega arith;
  enc_current = (refl, omega arith);
  idx_current = (refl, omega arith);
  tag_current = (refl, omega arith);
  refuses = λ key version s e. (Error.execute_save_key_failed, refuses_keys key version s e);
}

check_and_auto_rotate_stale_example :
    let (r, s) = check_and_auto_rotate labelled down memory true clock due in
    (ke : Bytes) × (ki : Bytes) × (kt : Bytes) × Drawn labelled labelled_lawful down memory true
      clock due
      (info 1)
      (info 2)
      (info 3)
      ke
      ki
      kt
    × (r ≡ ok false)
    × (get_current_key enc s.keys ≡ ok ke)
    × (get_current_key idx s.keys ≡ ok ki)
    × (get_current_key tag s.keys ≡ ok kt)
    × (globals labelled down memory s ≡ globals labelled down memory due)
check_and_auto_rotate_stale_example =
    check_and_auto_rotate_stale labelled labelled_lawful down memory true clock due (info 1)
      (info 2) (info 3) cannot_save

program-AllInUse : AllInUse labelled down memory program
unfolding get_current_key get_current_key_info lookup
program-AllInUse enc = refl
program-AllInUse idx = refl
program-AllInUse tag = refl

-- The index key is rotated and saved: the new one is in use.
key_management_in_use_example :
    Post
      (λ a. AllInUse labelled down memory)
      (Anything labelled down memory)
      (key_management labelled down memory true (pos 2) clock program)
key_management_in_use_example =
    key_management_in_use labelled down memory true (pos 2) clock program program-AllInUse

-- There are no keys yet, and no file.
start_in_use_example :
    Post
      (λ a. Started labelled down memory true clock)
      (Anything labelled down memory)
      (start labelled down memory true (sixteen 5) 3 late clock program)
start_in_use_example = start_in_use labelled down memory true clock (sixteen 5) 3 late program

abbrev request : Request
request = record { request_id = codes "r"; duration_ms = 1 }

abbrev round : Round
round = record { clock = clock; writable = true; request = request; query_time = 100 }

abbrev no_text : Error → Bytes
no_text e = []

perform-Returns_example :
    (a : Unit {0}) × ((perform labelled down memory no_text 10 round
        (pos 1)
        (codes "ann" ∷ codes "12" ∷ codes "x" ∷ [], program)).0
      ≡ ok a)
perform-Returns_example =
    perform-Returns labelled down memory no_text 10 round (pos 1) refl
      (codes "ann" ∷ codes "12" ∷ codes "x" ∷ [], program)

menu_at_end_of_input_example :
    menu labelled down memory no_text 10 (round ∷ round ∷ []) ([], program)
    ≡ (ok none, ([], program))
menu_at_end_of_input_example =
    menu_at_end_of_input labelled down memory no_text 10 (round ∷ round ∷ []) program

-- The defaults, and a batch size below 0.
abbrev answers : Lines
answers = codes "1" ∷ [] ∷ codes "7 rows" ∷ codes "-3" ∷ []

abbrev rebuild : RebuildRequest
rebuild = record { rebuild_code = 1; start_id = 1; end_id = 7; batch_size = 100 }

rebuild_index_ends_example :
    (rebuild_index labelled down memory no_text rebuild program).0 ≡ ok (some tt)
unfolding get_rebuild_request read_integer is_space
rebuild_index_ends_example =
    rebuild_index_ends labelled down memory memory_lawful memory_answering no_text answers rebuild
      program refl
