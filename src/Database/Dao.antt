-- ===== src/Database/Dao.antt =====
-- The reads of `database::DAO` of src/database/dao.cpp, and its fuzzy index.
pub mod Rows
pub mod Records
pub mod Writes
pub mod Atomic
pub mod Insert
pub mod Search
pub mod Postings
pub mod Found
pub mod SaveKey
pub mod Calls
mod Tests
pub mod Keys
pub mod Tasks
use sec_search.Prelude.{ℕ, Bool, true, false, List, [], ◌∷◌, Bytes, length, Error, if◌then◌else◌}
use sec_search.Prelude.Action.{Action, pure, lift, ◌>>=◌, ◌>>◌}
use sec_search.Database.{FieldType, CipherRecord}
use sec_search.Database.Server.{
  Server, Session, Statement, MainRow, write, insert_row, select_rows, cipher_buffers,
}
use sec_search.Database.Dao.Rows.{records_of_rows}
use sec_search.Query.Records.{is_empty}

module _ (sv : Server) where
  -- The text of the exception is read from the statement that has just been closed.
  unfoldable pub insert_main_table : MainRow → Action (Session sv) ℕ
  insert_main_table row =
      insert_row sv Error.prepare_insert_main_failed Error.use_of_closed_statement
        (Statement.insert_main row)

  unfoldable pub insert_fuzzy_index : ℕ → FieldType → List Bytes → Action (Session sv) (Unit {0})
  insert_fuzzy_index data_id t [] = pure tt
  insert_fuzzy_index data_id t (h ∷ hashes) =
      write sv Error.statement_init_failed Error.prepare_insert_fuzzy_failed Error.bind_fuzzy_failed
        Error.execute_fuzzy_failed (Statement.insert_fuzzy data_id t (h ∷ hashes))

  unfoldable pub delete_fuzzy_index : ℕ → Action (Session sv) (Unit {0})
  delete_fuzzy_index data_id =
      write sv Error.prepare_delete_fuzzy_failed Error.prepare_delete_fuzzy_failed
        Error.use_of_closed_statement Error.use_of_closed_statement (Statement.delete_fuzzy data_id)

  unfoldable pub query_by_exact_index_multi : List Bytes → FieldType → Action (Session sv) (List ℕ)
  query_by_exact_index_multi [] t = pure []
  query_by_exact_index_multi (h ∷ hashes) t =
      select_rows sv Error.prepare_exact_query_failed Error.use_of_closed_statement []
        (Statement.select_exact t (h ∷ hashes))

  unfoldable pub query_by_fuzzy_keyword_multi :
      List Bytes → FieldType → Action (Session sv) (List ℕ)
  query_by_fuzzy_keyword_multi [] t = pure []
  query_by_fuzzy_keyword_multi (h ∷ hashes) t =
      select_rows sv Error.prepare_fuzzy_query_failed Error.use_of_closed_statement []
        (Statement.select_fuzzy t (h ∷ hashes) (length (h ∷ hashes)))

  unfoldable pub batch_select_ciphers : List ℕ → Action (Session sv) (List CipherRecord)
  batch_select_ciphers [] = pure []
  batch_select_ciphers (id ∷ ids) = do
    rows ←
        select_rows sv Error.prepare_batch_select_failed Error.use_of_closed_statement
          cipher_buffers (Statement.select_ciphers (id ∷ ids))
    lift (records_of_rows rows)
