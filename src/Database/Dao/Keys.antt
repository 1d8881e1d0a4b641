-- ===== src/Database/Dao/Keys.antt =====
-- The table key_config in `database::DAO` of src/database/dao.cpp.
use sec_search.Prelude.{ℕ, List, [], map, Bytes, Result, ok, throw, Error}
use sec_search.Prelude.Action.{Action, pure, ◌>>=◌}
use sec_search.Crypto.KeyManager.{KeyInfo, KeyStatus}
use sec_search.Database.Server.{
  Server, Session, Statement, KeyRow, real_query, write, select_rows, key_buffers,
}
use sec_search.Database.Transaction.{in_transaction}

abbrev pub key_info : KeyRow → KeyInfo
key_info row = record { key = row.key_cipher; version = row.key_version; status = row.status }

-- `return keys;` while it is empty, where other calls throw.
unfoldable pub none_on_failure : {S A : Type 0} → Result (List A) × S → Result (List A) × S
none_on_failure (ok rows, s) = (ok rows, s)
none_on_failure (throw e, s) = (ok [], s)

module _ (sv : Server) where
  unfoldable pub load_all_keys_from_config : ℕ → Action (Session sv) (List KeyInfo)
  unfolding none_on_failure
  load_all_keys_from_config key_type =
      (λ s. none_on_failure (
        select_rows sv Error.prepare_select_keys_failed Error.prepare_select_keys_failed key_buffers
          (Statement.select_keys key_type) s))
      >>= λ rows. pure (map (λ row. key_info row) rows)

  unfoldable pub save_key_to_config : ℕ → Bytes → ℕ → KeyStatus → Action (Session sv) (Unit {0})
  save_key_to_config key_type key version status = in_transaction (real_query sv) (
      write sv Error.prepare_save_key_failed Error.prepare_save_key_failed
        Error.execute_save_key_failed Error.execute_save_key_failed
        (Statement.save_key (record {
          key_type = key_type;
          key_cipher = key;
          key_version = version;
          status = status;
        })))

  unfoldable pub update_key_status_in_config : ℕ → ℕ → KeyStatus → Action (Session sv) (Unit {0})
  update_key_status_in_config key_type version status =
      write sv Error.prepare_update_key_status_failed Error.prepare_update_key_status_failed
        Error.execute_update_key_status_failed Error.execute_update_key_status_failed
        (Statement.update_key_status key_type version status)

  unfoldable pub delete_key_from_config : ℕ → ℕ → Action (Session sv) (Unit {0})
  delete_key_from_config key_type version =
      write sv Error.prepare_delete_key_failed Error.prepare_delete_key_failed
        Error.execute_delete_key_failed Error.execute_delete_key_failed
        (Statement.delete_key key_type version)
