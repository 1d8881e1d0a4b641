-- ===== src/Console/Input.antt =====
-- The input of src/main.cpp: a list of the lines that are left, where `std::getline` gives an empty
-- line at the end.
use sec_search.Prelude.{
  ℕ, suc, Bool, false, List, [], ◌∷◌, Option, none, some, Bytes, ◌==◌, if◌then◌else◌, ltb, ◌||◌,
  zero,
}
use sec_search.Prelude.Action.{Action, pure, ◌>>=◌}
use sec_search.Prelude.Int.{ℤ, pos, negsuc, pos_part}
use sec_search.Prelude.Decimal.{stoi}
use sec_search.Database.{FieldType, name, phone, address}

abbrev pub Lines : Type 0
Lines = List Bytes

abbrev pub is_number : ℤ → ℕ → Bool
is_number (pos n) k = n == k
is_number (negsuc n) k = false

unfoldable pub get_string_input : Action Lines Bytes
get_string_input [] = pure [] []
get_string_input (line ∷ lines) = pure line lines

-- The loop asks again as long as `std::stoi` throws; an empty line, or no line, is the default.
unfoldable pub get_int_input : ℤ → Action Lines ℤ
get_int_input default [] = pure default []
get_int_input default ([] ∷ lines) = pure default lines
get_int_input default ((b ∷ line) ∷ lines) =
    let again = get_int_input default lines in
    elim (stoi (b ∷ line)) [ none ↦ again | some n ↦ pure n lines ]

unfoldable pub field_type_of : ℤ → FieldType
field_type_of n = if is_number n 2 then phone else if is_number n 3 then address else name

unfoldable pub get_field_type : Action Lines FieldType
unfolding get_int_input field_type_of
get_field_type = do choice ← get_int_input (pos 1); pure (field_type_of choice)

-- The numbers of the fields in `FieldType`.
abbrev pub field_code : FieldType → ℕ
field_code name = 1
field_code phone = 2
field_code address = 3

-- What `rebuildIndex` reads and hands to the rebuilder.
pub record RebuildRequest : Type 0 where
  pub rebuild_code : ℕ
  pub start_id : ℕ
  pub end_id : ℕ
  pub batch_size : ℕ

-- A batch size that is not positive is 100.
unfoldable pub batch_size_of : ℤ → ℕ
batch_size_of (pos zero) = 100
batch_size_of (pos (suc n)) = suc n
batch_size_of (negsuc n) = 100

-- Behind the early return for an empty range. A negative field code or start id, which no field and
-- no record has, is 0 here.
unfoldable pub get_rebuild_request : Action Lines (Option RebuildRequest)
unfolding get_int_input batch_size_of
get_rebuild_request = do
  code ← get_int_input (pos 1)
  start_id ← get_int_input (pos 1)
  end_id ← get_int_input (pos 0)
  let asked = get_int_input (pos 100) >>= λ size. pure (
      some (record {
        rebuild_code = pos_part code;
        start_id = pos_part start_id;
        end_id = pos_part end_id;
        batch_size = batch_size_of size;
      }))
  if (pos_part end_id == 0) || ltb (pos_part end_id) (pos_part start_id) then pure none else asked
