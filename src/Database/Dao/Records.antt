-- ===== src/Database/Dao/Records.antt =====
-- The writes of `database::DAO` of src/database/dao.cpp to sensitive_data and fuzzy_inverted.
use sec_search.Prelude.{ℕ, Bool, true, List, [], ◌∷◌, Bytes, Error, ◌==◌}
use sec_search.Prelude.Action.{Action, pure, raise_if, ◌>>=◌, ◌>>◌}
use sec_search.Crypto.Primitives.{Primitives}
use sec_search.Database.{FieldType, name, phone, address, PlainData}
use sec_search.Database.Server.{Server, Session, Statement, Control, MainRow, real_query, write}
use sec_search.Database.Transaction.{in_transaction}
use sec_search.Database.Dao.{
  insert_main_table, insert_fuzzy_index, delete_fuzzy_index, query_by_fuzzy_keyword_multi,
}
use sec_search.Query.Bigram.{split_bigram}

module _ (c : Primitives) (sv : Server) where
  -- The crypto library and the connection.
  pub record Store : Type 0 where
    pub env : c.Env
    pub session : Session sv

  abbrev pub on_env : {A : Type 0} → Action c.Env A → Action Store A
  on_env a s = let (r, e) = a s.env in (r, record s { env = e })

  abbrev pub on_session : {A : Type 0} → Action (Session sv) A → Action Store A
  on_session a s = let (r, t) = a s.session in (r, record s { session = t })

  unfoldable pub hash_tokens : List Bytes → Bytes → Action c.Env (List Bytes)
  hash_tokens [] idx_key = pure []
  hash_tokens (t ∷ tokens) idx_key = do
    h ← c.hmac_hex t idx_key
    hashes ← hash_tokens tokens idx_key
    pure (h ∷ hashes)

  -- The ciphers first, then the blind indexes, then the tags.
  unfoldable pub seal_row : PlainData → Bytes → Bytes → Bytes → ℕ → Action c.Env MainRow
  seal_row plain enc_key idx_key tag_key enc_key_version = do
    name_cipher ← c.encrypt plain.name_text enc_key
    phone_cipher ← c.encrypt plain.phone_text enc_key
    addr_cipher ← c.encrypt plain.address_text enc_key
    name_blind ← c.hmac_hex plain.name_text idx_key
    phone_blind ← c.hmac_hex plain.phone_text idx_key
    addr_blind ← c.hmac_hex plain.address_text idx_key
    name_tag ← c.hmac_hex name_cipher tag_key
    phone_tag ← c.hmac_hex phone_cipher tag_key
    addr_tag ← c.hmac_hex addr_cipher tag_key
    pure (record {
      enc_key_version = enc_key_version;
      name_field = record { cipher = name_cipher; blind = name_blind; tag = name_tag };
      phone_field = record { cipher = phone_cipher; blind = phone_blind; tag = phone_tag };
      address_field = record { cipher = addr_cipher; blind = addr_blind; tag = addr_tag };
    })

  -- The hashes of the three fields.
  pub record FieldHashes : Type 0 where
    pub name_hashes : List Bytes
    pub phone_hashes : List Bytes
    pub addr_hashes : List Bytes

  unfoldable pub hash_fields : PlainData → Bytes → Action c.Env FieldHashes
  unfolding hash_tokens
  hash_fields plain idx_key = do
    name_hashes ← hash_tokens (split_bigram plain.name_text) idx_key
    phone_hashes ← hash_tokens (split_bigram plain.phone_text) idx_key
    addr_hashes ← hash_tokens (split_bigram plain.address_text) idx_key
    pure (record {
      name_hashes = name_hashes;
      phone_hashes = phone_hashes;
      addr_hashes = addr_hashes;
    })

  unfoldable pub index_fields : ℕ → FieldHashes → Action (Session sv) (Unit {0})
  index_fields id hashes = do
    insert_fuzzy_index sv id name hashes.name_hashes
    insert_fuzzy_index sv id phone hashes.phone_hashes
    insert_fuzzy_index sv id address hashes.addr_hashes

  abbrev pub on_connection : Control → Action Store Bool
  on_connection text = on_session (real_query sv text)

  -- The main row is written before the transaction begins.
  unfoldable pub insert_data : PlainData → Bytes → Bytes → Bytes → ℕ → Action Store ℕ
  unfolding seal_row hash_fields index_fields
  insert_data plain enc_key idx_key tag_key enc_key_version = do
    row ← on_env (seal_row plain enc_key idx_key tag_key enc_key_version)
    data_id ← on_session (insert_main_table sv row)
    raise_if (data_id == 0) Error.insert_main_table_failed
    hashes ← on_env (hash_fields plain idx_key)
    in_transaction on_connection (on_session (index_fields data_id hashes))
    pure data_id

  unfoldable pub update_rows : ℕ → PlainData → Bytes → Bytes → Bytes → ℕ → Action Store (Unit {0})
  unfolding seal_row hash_fields index_fields
  update_rows id new_data enc_key idx_key tag_key enc_key_version = do
    on_session (delete_fuzzy_index sv id)
    row ← on_env (seal_row new_data enc_key idx_key tag_key enc_key_version)
    on_session (
        write sv Error.prepare_update_failed Error.prepare_update_failed
          Error.use_of_closed_statement Error.use_of_closed_statement
          (Statement.update_main row id))
    hashes ← on_env (hash_fields new_data idx_key)
    on_session (index_fields id hashes)

  unfoldable pub update_data : ℕ → PlainData → Bytes → Bytes → Bytes → ℕ → Action Store Bool
  unfolding update_rows
  update_data id new_data enc_key idx_key tag_key enc_key_version =
      in_transaction on_connection (update_rows id new_data enc_key idx_key tag_key enc_key_version)
      >> pure true

  -- `queryByFuzzyKeyword`.
  unfoldable pub query_by_fuzzy_keyword : Bytes → FieldType → Bytes → Action Store (List ℕ)
  unfolding hash_tokens
  query_by_fuzzy_keyword keyword t idx_key = do
    hashes ← on_env (hash_tokens (split_bigram keyword) idx_key)
    on_session (query_by_fuzzy_keyword_multi sv hashes t)

module _ (sv : Server) where
  unfoldable pub delete_rows : ℕ → Action (Session sv) (Unit {0})
  delete_rows id = do
    delete_fuzzy_index sv id
    write sv Error.prepare_delete_failed Error.prepare_delete_failed Error.use_of_closed_statement
        Error.use_of_closed_statement (Statement.delete_main id)

  unfoldable pub delete_data : ℕ → Action (Session sv) Bool
  unfolding delete_rows
  delete_data id = in_transaction (real_query sv) (delete_rows id) >> pure true
