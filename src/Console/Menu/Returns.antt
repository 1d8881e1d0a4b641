-- ===== src/Console/Menu/Returns.antt =====
-- Which actions of the menu of src/main.cpp an exception can leave.
use sec_search.Prelude.{
  ℕ, Bool, true, false, [], ◌∷◌, Option, none, some, Bytes, Error, Option-cases, ◌≡◌, refl, inl,
  inr, ◌==◌, if◌then◌else◌,
}
use sec_search.Prelude.Action.{Action, pure, ◌>>=◌}
use sec_search.Prelude.Triple.{Returns, Returns-bind}
use sec_search.Prelude.Int.{ℤ, pos, pos_part}
use sec_search.Prelude.Decimal.{stoi}
use sec_search.Crypto.Primitives.{Primitives}
use sec_search.Database.{FieldType, PlainData}
use sec_search.Database.ConnectionPool.{Mysql}
use sec_search.Database.Server.{Server}
use sec_search.Query.Records.{is_empty}
use sec_search.Console.{App}
use sec_search.Console.Input.{
  Lines, RebuildRequest, is_number, get_string_input, get_int_input, get_field_type, field_type_of,
  get_rebuild_request,
}
use sec_search.Console.Records.{delete_record, rebuild_index}
use sec_search.Console.Records.Returns.{
  insert_record-Returns, update_record-Returns, delete_record-Returns, run_exact_query-Returns,
  run_fuzzy_query-Returns, rebuild_index-Returns,
}
use sec_search.Console.Menu.{
  Round, Session, ask, run, get_plain_data, with_keyword, with_id, is_yes, perform,
}

get_string_input-Returns : Returns get_string_input
unfolding get_string_input
get_string_input-Returns [] = ([], refl)
get_string_input-Returns (line ∷ lines) = (line, refl)

get_int_input-Returns : (default : ℤ) → Returns (get_int_input default)
unfolding get_int_input
get_int_input-Returns default [] = (default, refl)
get_int_input-Returns default ([] ∷ lines) = (default, refl)
get_int_input-Returns default ((b ∷ line) ∷ lines) = elim (Option-cases (stoi (b ∷ line))) [
  | inl bad ↦ rw (bad, get_int_input) (get_int_input-Returns default lines)
  | inr (n, good) ↦ rw (good, get_int_input) (n, refl)
]

get_field_type-Returns : Returns get_field_type
unfolding get_field_type
get_field_type-Returns =
    Returns-bind (get_int_input (pos 1)) (λ n. pure (field_type_of n))
      (get_int_input-Returns (pos 1)) (λ n s. (field_type_of n, refl))

-- A branch on a test.
if-Returns :
    {S A : Type 0} (b : Bool) (m k : Action S A)
    → Returns m
    → Returns k
    → Returns (if b then m else k)
if-Returns true m k h g = h
if-Returns false m k h g = g

get_rebuild_request-Returns : Returns get_rebuild_request
unfolding get_rebuild_request
get_rebuild_request-Returns =
    Returns-bind (get_int_input (pos 1)) _ (get_int_input-Returns (pos 1)) λ code.
      Returns-bind (get_int_input (pos 1)) _ (get_int_input-Returns (pos 1)) λ start_id.
        Returns-bind (get_int_input (pos 0)) _ (get_int_input-Returns (pos 0)) λ end_id.
          if-Returns _ (pure none) _ (λ s. (none, refl))
            (Returns-bind (get_int_input (pos 100)) _ (get_int_input-Returns (pos 100))
              (λ size s. (_, refl)))

module _ (c : Primitives) (db : Mysql) (sv : Server) (what : Error → Bytes) (second : ℕ) where
  -- A question, and what is done with the answer.
  ask-Returns :
      {A B : Type 0} (m : Action Lines A) (k : A → Action (Session c db sv what second) B)
      → Returns m
      → ((a : A) → Returns (k a))
      → Returns (ask c db sv what second m >>= k)
  ask-Returns m k h g = Returns-bind (ask c db sv what second m) k (λ s. h s.0) g

  run-Returns :
      {A : Type 0} (m : Action (App c db sv) A) → Returns m → Returns (run c db sv what second m)
  run-Returns m h s = h s.1

  get_plain_data-Returns : Returns (get_plain_data c db sv what second)
  unfolding get_plain_data
  get_plain_data-Returns = ask-Returns get_string_input _ get_string_input-Returns λ a.
      ask-Returns get_string_input _ get_string_input-Returns
        λ b. ask-Returns get_string_input _ get_string_input-Returns (λ d s. (_, refl))

  with_keyword-Returns :
      (query : Bytes → FieldType → Action (App c db sv) (Unit {0}))
      → ((keyword : Bytes) (t : FieldType) → Returns (query keyword t))
      → Returns (with_keyword c db sv what second query)
  unfolding with_keyword
  with_keyword-Returns query h = ask-Returns get_field_type _ get_field_type-Returns λ t.
      ask-Returns get_string_input _ get_string_input-Returns λ keyword.
        if-Returns (is_empty keyword) (pure tt) _ (λ s. (tt, refl))
          (run-Returns (query keyword t) (h keyword t))

  with_id-Returns :
      (body : ℕ → Action (Session c db sv what second) (Unit {0}))
      → ((id : ℕ) → Returns (body id))
      → Returns (with_id c db sv what second body)
  unfolding with_id
  with_id-Returns body h =
      ask-Returns (get_int_input (pos 0)) _ (get_int_input-Returns (pos 0)) λ id.
        if-Returns (pos_part id == 0) (pure tt) (body (pos_part id)) (λ s. (tt, refl))
          (h (pos_part id))

  get_plain_data-then :
      (k : PlainData → Action (App c db sv) (Unit {0}))
      → ((plain : PlainData) → Returns (k plain))
      → Returns (get_plain_data c db sv what second >>= λ plain. run c db sv what second (k plain))
  get_plain_data-then k h =
      Returns-bind (get_plain_data c db sv what second) _ get_plain_data-Returns
        (λ plain. run-Returns (k plain) (h plain))

  rebuild-Returns :
      (asked : Option RebuildRequest)
      → Returns {S = Session c db sv what second} {A = Unit {0}} (elim asked [
        | none ↦ pure tt
        | some request ↦
            run c db sv what second (rebuild_index c db sv what request) >>= λ _. pure tt
      ])
  rebuild-Returns none s = (tt, refl)
  rebuild-Returns (some request) s =
      Returns-bind (run c db sv what second (rebuild_index c db sv what request)) (λ _. pure tt)
        (run-Returns (rebuild_index c db sv what request)
          (rebuild_index-Returns c db sv what request))
        (λ _ s'. (tt, refl)) s

  -- Whatever the database and the crypto library do, no action of the menu but the sixth, the key
  -- management, ends with an exception: the loop goes on.
  pub perform-Returns :
      (r : Round) (choice : ℤ)
      → is_number choice 6 ≡ false
      → Returns (perform c db sv what second r choice)
  unfolding perform
  perform-Returns r choice other =
      if-Returns (is_number choice 1) _ _
        (get_plain_data-then _ (insert_record-Returns c db sv what r.writable r.clock r.request))
        (if-Returns (is_number choice 2) _ _
          (with_keyword-Returns _
            (run_exact_query-Returns c db sv what r.request second r.query_time))
          (if-Returns (is_number choice 3) _ _
            (with_keyword-Returns _
              (run_fuzzy_query-Returns c db sv what r.request second r.query_time))
            (if-Returns (is_number choice 4) _ _
              (with_id-Returns _
                (λ id. get_plain_data-then _ (update_record-Returns c db sv what r.request id)))
              (if-Returns (is_number choice 5) _ _
                (with_id-Returns _ (λ id.
                  ask-Returns get_string_input _ get_string_input-Returns (λ line.
                    if-Returns (is_yes c db sv what second line) _ (pure tt)
                      (run-Returns (delete_record c db sv what r.request id)
                        (delete_record-Returns c db sv what r.request id))
                      (λ s. (tt, refl)))))
                (rw other (
                  if-Returns (is_number choice 7) _ (pure tt)
                    (ask-Returns get_rebuild_request _ get_rebuild_request-Returns rebuild-Returns)
                    (λ s. (tt, refl))))))))
