-- ===== src/Database.antt =====
-- The record types of include/database/dao.h.
pub mod ConnectionPool
pub mod Server
pub mod Transaction
pub mod Dao
use sec_search.Prelude.{ℕ, Bytes}

pub data FieldType : Type 0 where
  name phone address : FieldType

pub record PlainData : Type 0 where
  pub name_text : Bytes
  pub phone_text : Bytes
  pub address_text : Bytes

pub record CipherRecord : Type 0 where
  pub id : ℕ
  pub cipher : Bytes
  pub tag : Bytes
  pub field_type : FieldType
  pub enc_key_version : ℕ

pub record RebuildTaskInfo : Type 0 where
  pub task_id : ℕ
  pub field_code : ℕ
  pub start_id : ℕ
  pub end_id : ℕ
  pub last_processed_id : ℕ
  pub status : ℕ
  pub success_count : ℕ
  pub fail_count : ℕ

pub record RebuildRawRecord : Type 0 where
  pub id : ℕ
  pub enc_key_version : ℕ
  pub name_cipher : Bytes
  pub name_tag : Bytes
  pub phone_cipher : Bytes
  pub phone_tag : Bytes
  pub address_cipher : Bytes
  pub address_tag : Bytes
