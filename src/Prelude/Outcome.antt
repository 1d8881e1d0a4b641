-- ===== src/Prelude/Outcome.antt =====
-- What a C++ call ends with: a value, or an exception. An `Action` is a call on mutable state:
-- what was written before a throw stays written.
use Prim.Native.Nat.{ℕ}
use mathlib.Core.Path.{◌≡◌, refl}
use mathlib.Core.Logic.{◌⊎◌, inl, inr}
use mathlib.Core.Bool.{Bool, true, false}

-- The `std::runtime_error`s, by their messages. The last five are no exceptions: undefined
-- behaviour that the C++ code does not guard against, and a loop of the model without fuel.
pub data Error : Type 0 where
  invalid_base64_character invalid_hex_length invalid_hex_char : Error
  cannot_open_key_file key_file_empty invalid_key_file_length invalid_key_file_format : Error
  kek_must_be_16_bytes key_must_be_16_bytes key_manager_not_initialized : Error
  invalid_key_type key_version_not_found current_key_version_not_found : Error
  failed_to_generate_new_key failed_to_load_any_valid_key : Error
  sm4_key_must_be_16_bytes failed_to_generate_iv failed_to_create_sm4_context : Error
  init_failed set_padding_failed update_failed final_failed : ℕ → Error
  ciphertext_too_short invalid_ciphertext_length : Error
  failed_to_create_hmac_context hmac_init_failed hmac_update_failed hmac_final_failed : Error
  encryption_key_not_active tag_key_destroyed index_key_destroyed : Error
  integrity_check_failed encryption_key_version_not_found : Error
  keyword_too_short too_many_candidates query_too_frequent : Error
  no_available_connection failed_to_reconnect failed_to_create_connection : Error
  failed_to_start_transaction failed_to_commit_transaction : Error
  statement_init_failed prepare_insert_main_failed insert_main_table_failed : Error
  prepare_insert_fuzzy_failed bind_fuzzy_failed execute_fuzzy_failed : Error
  prepare_delete_fuzzy_failed prepare_exact_query_failed prepare_fuzzy_query_failed : Error
  prepare_batch_select_failed prepare_update_failed prepare_delete_failed : Error
  prepare_select_keys_failed prepare_save_key_failed execute_save_key_failed : Error
  prepare_update_key_status_failed execute_update_key_status_failed : Error
  prepare_delete_key_failed execute_delete_key_failed prepare_create_task_failed : Error
  prepare_update_task_failed prepare_get_task_failed task_not_found : Error
  prepare_get_records_failed prepare_update_blind_failed invalid_field_code : Error
  audit_pool_null prepare_audit_failed bind_audit_failed execute_audit_failed : Error
  use_of_closed_statement uninitialised_read : Error
  out_of_bounds int_overflow out_of_fuel : Error

pub data Result {ℓ} (A : Type ℓ) : Type ℓ where
  ok : A → Result A
  throw : Error → Result A

infixl 5 ◌>>=◌ ◌>>◌
abbrev pub ◌>>=◌ {ℓ κ} : {A : Type ℓ} {B : Type κ} → Result A → (A → Result B) → Result B
ok a >>= f = f a
throw e >>= f = throw e

abbrev pub ◌>>◌ {ℓ} : {B : Type ℓ} → Result (Unit {0}) → Result B → Result B
m >> k = m >>= λ _. k

-- `if (c) throw e;`
abbrev pub throw_if : Bool → Error → Result (Unit {0})
throw_if true e = throw e
throw_if false e = ok tt

pub Result-cases {ℓ} :
    {A : Type ℓ} (r : Result A) → ((a : A) × (r ≡ ok a)) ⊎ ((e : Error) × (r ≡ throw e))
Result-cases (ok a) = inl (a, refl)
Result-cases (throw e) = inr (e, refl)
