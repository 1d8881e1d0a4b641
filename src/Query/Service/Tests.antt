-- ===== src/Query/Service/Tests.antt =====
-- Queries on a table of one row, with a cipher that hides nothing.
use sec_search.Prelude.{[], ◌∷◌, codes, same, All, ok, ◌≡◌, refl}
use sec_search.Prelude.SortedMap.{lookup, insert}
use sec_search.Crypto.Primitives.{Primitives}
use sec_search.Crypto.KeyManager.{KeyManager, KeyStatus, fresh, get_all_keys, get_key_by_version}
use sec_search.Database.{CipherRecord, FieldType}
use sec_search.Decrypt.Record.{decrypt_record, decrypt_one_record}
use sec_search.Query.Limits.{
  check_keyword_length, check_candidate_limit, check_frequency_limit, drop_expired,
}
use sec_search.Query.Bigram.{split_bigram, pairs}
use sec_search.Query.Records.{
  Dao, FullRecord, group, given, all_cipher_records, fill_cache, decrypt_records,
  decrypt_field_with_version, field_text, build_record, build_all, decrypt_rows, is_empty, text_of,
}
use sec_search.Query.Service.{
  State, add_hash, add_ids, sort_unique, starts_with, contains, keep_matching, hash_under,
  hash_tokens, check_limits, fetch_full_records, search_versions, show_matching, search_tokens,
  exact_query, fuzzy_query,
}
use sec_search.Query.Service.Answers.{Contains, exact_query_answers, fuzzy_query_answers}

abbrev open_book : Primitives
open_book = record {
  Env = Unit {0};
  encrypt = λ m key e. (ok m, e);
  decrypt = λ s key e. (ok s, e);
  hmac_hex = λ m key e. (ok [], e);
  random_key = λ e. (ok [], e);
}

abbrev row : CipherRecord
row = record {
  id = 7;
  cipher = codes "bob";
  tag = [];
  field_type = FieldType.name;
  enc_key_version = 1;
}

abbrev table : Dao
table = record {
  Db = Unit {0};
  batch_select_ciphers = λ ids d. (ok (row ∷ []), d);
  query_by_exact_index_multi = λ hashes t d. (ok (7 ∷ []), d);
  query_by_fuzzy_keyword_multi = λ hashes t d. (ok (7 ∷ []), d);
}

abbrev manager : KeyManager
manager = record fresh {
  idx_keys = (1, record { key = []; version = 1; status = KeyStatus.enabled }) ∷ [];
}

abbrev idle : State open_book table manager 1000
idle = record { env = tt; db = tt; timestamps = [] }

abbrev bob : FullRecord
bob = record {
  id = 7;
  name_text = codes "bob";
  phone_text = [];
  address_text = [];
  enc_key_version = 1;
}

exact_run :
    (exact_query open_book table manager 1000 5 (codes "bob") FieldType.name [] idle).0
    ≡ ok (bob ∷ [])
unfolding exact_query check_limits check_frequency_limit drop_expired check_keyword_length
    check_candidate_limit hash_under sort_unique add_hash fetch_full_records is_empty decrypt_rows
    group given all_cipher_records fill_cache decrypt_records decrypt_field_with_version field_text
    build_record build_all decrypt_record decrypt_one_record get_key_by_version get_all_keys lookup
    insert same
exact_run = refl

exact_query_answers_example : All (λ r. text_of FieldType.name r ≡ codes "bob") (bob ∷ [])
exact_query_answers_example =
    exact_query_answers open_book table manager 1000 5 (codes "bob") FieldType.name [] idle
      (bob ∷ []) exact_run

fuzzy_run :
    (fuzzy_query open_book table manager 1000 5 (codes "ob") FieldType.name [] idle).0
    ≡ ok (bob ∷ [])
unfolding fuzzy_query check_limits check_frequency_limit drop_expired check_keyword_length
    check_candidate_limit hash_tokens search_tokens search_versions show_matching add_ids
    split_bigram pairs keep_matching contains starts_with fetch_full_records is_empty decrypt_rows
    group given all_cipher_records fill_cache decrypt_records decrypt_field_with_version field_text
    build_record build_all decrypt_record decrypt_one_record get_key_by_version get_all_keys lookup
    insert same
fuzzy_run = refl

fuzzy_query_answers_example : All (λ r. Contains (text_of FieldType.name r) (codes "ob")) (bob ∷ [])
fuzzy_query_answers_example =
    fuzzy_query_answers open_book table manager 1000 5 (codes "ob") FieldType.name [] idle
      (bob ∷ []) fuzzy_run
