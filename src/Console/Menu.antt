-- ===== src/Console/Menu.antt =====
-- The main loop of src/main.cpp.
pub mod Returns
pub mod Ends
use sec_search.Prelude.{
  ℕ, zero, suc, ◌+◌, Bool, true, false, List, [], ◌∷◌, Option, none, some, Bytes, ◌==◌, ok,
  if◌then◌else◌, ◌≡◌, refl, Error,
}
use sec_search.Prelude.Action.{Action, pure, ◌>>=◌, ◌>>◌}
use sec_search.Prelude.Int.{ℤ, pos, negsuc, pos_part}
use sec_search.Crypto.Primitives.{Primitives}
use sec_search.Database.{FieldType, PlainData}
use sec_search.Database.ConnectionPool.{Mysql}
use sec_search.Database.Server.{Server}
use sec_search.Query.Records.{is_empty}
use sec_search.Console.{App}
use sec_search.Console.Input.{
  Lines, RebuildRequest, is_number, get_string_input, get_int_input, get_field_type,
  get_rebuild_request,
}
use sec_search.Console.Rotation.{Clock, key_management}
use sec_search.Console.Records.{
  Request, insert_record, update_record, delete_record, run_exact_query, run_fuzzy_query,
  rebuild_index,
}

-- What one round of the loop meets: the clock (for a query, in its own ticks), whether the file of
-- the rotation time can be written, and its request.
pub record Round : Type 0 where
  pub clock : Clock
  pub writable : Bool
  pub request : Request
  pub query_time : ℕ

module _ (c : Primitives) (db : Mysql) (sv : Server) (what : Error → Bytes) (second : ℕ) where
  -- The input, and the program.
  abbrev pub Session : Type 0
  Session = Lines × App c db sv

  abbrev ask : {A : Type 0} → Action Lines A → Action Session A
  ask a s = let (r, lines) = a s.0 in (r, (lines, s.1))

  abbrev run : {A : Type 0} → Action (App c db sv) A → Action Session A
  run a s = let (r, t) = a s.1 in (r, (s.0, t))

  unfoldable pub get_plain_data : Action Session PlainData
  unfolding get_string_input
  get_plain_data = do
    name_text ← ask get_string_input
    phone_text ← ask get_string_input
    address_text ← ask get_string_input
    pure (record { name_text = name_text; phone_text = phone_text; address_text = address_text })

  -- The questions of both queries; an empty keyword ends the call.
  unfoldable pub with_keyword :
      (Bytes → FieldType → Action (App c db sv) (Unit {0})) → Action Session (Unit {0})
  unfolding get_field_type get_string_input is_empty
  with_keyword query = do
    t ← ask get_field_type
    keyword ← ask get_string_input
    let found = run (query keyword t)
    if is_empty keyword then pure tt else found

  -- An id that is not positive ends the call.
  unfoldable pub with_id : (ℕ → Action Session (Unit {0})) → Action Session (Unit {0})
  unfolding get_int_input
  with_id body = do
    id ← ask (get_int_input (pos 0))
    let positive = body (pos_part id)
    if pos_part id == 0 then pure tt else positive

  -- `confirm != "y" && confirm != "Y"`.
  unfoldable pub is_yes : Bytes → Bool
  is_yes (b ∷ []) = if b == b'y' then true else b == b'Y'
  is_yes line = false

  -- The cases of the switch.
  unfoldable pub perform : Round → ℤ → Action Session (Unit {0})
  perform r choice =
      let insert = get_plain_data >>= λ plain.
      run (insert_record c db sv what r.writable r.clock r.request plain) in
      let exact = with_keyword (run_exact_query c db sv what r.request second r.query_time) in
      let fuzzy = with_keyword (run_fuzzy_query c db sv what r.request second r.query_time) in
      let update =
        with_id
          λ id. get_plain_data >>= λ plain. run (update_record c db sv what r.request id plain) in
      let delete = with_id λ id. ask get_string_input >>= λ line.
      if is_yes line then run (delete_record c db sv what r.request id) else pure tt in
      let manage =
        ask (get_int_input (pos 0)) >>= λ n. run (key_management c db sv r.writable n r.clock) in
      let rebuild = ask get_rebuild_request >>= λ asked. elim asked [
        | none ↦ pure tt
        | some request ↦ run (rebuild_index c db sv what request) >>= λ _. pure tt
      ] in
      if is_number choice 1
      then insert
      else if is_number choice 2
      then exact
      else if is_number choice 3
      then fuzzy
      else if is_number choice 4
      then update
      else if is_number choice 5
      then delete
      else if is_number choice 6
      then manage
      else if is_number choice 7
      then rebuild
      else pure tt

  -- `while (choice != 0)`; `none` if the rounds run out before the loop ends.
  unfoldable pub menu : List Round → Action Session (Option (Unit {0}))
  unfolding get_int_input perform
  menu [] = pure none
  menu (r ∷ rounds) = do
    choice ← ask (get_int_input (negsuc 0))
    perform r choice
    let more = menu rounds
    if is_number choice 0 then pure (some tt) else more

  -- At the end of the input the menu is shown for ever: however many rounds there are, none of them
  -- ends the loop, and none does anything.
  pub menu_at_end_of_input :
      (rounds : List Round) (s : App c db sv) → menu rounds ([], s) ≡ (ok none, ([], s))
  unfolding menu
  menu_at_end_of_input [] s = refl
  menu_at_end_of_input (r ∷ rounds) s = menu_at_end_of_input rounds s
