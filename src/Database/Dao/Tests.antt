-- ===== src/Database/Dao/Tests.antt =====
-- The DAO on the server in memory, with a crypto library that puts the key next to the message.
use sec_search.Prelude.Int.{pos}
use sec_search.Prelude.{
  ℕ, true, List, [], ◌∷◌, ◌++◌, Bytes, same, codes, All, ok, throw, Error, ◌≡◌, refl, inl, inr,
  arith,
}
use sec_search.Prelude.Triple.{Post}
use sec_search.Crypto.Primitives.{Primitives, IsPlain}
use sec_search.Crypto.KeyManager.{KeyManager, KeyStatus}
use sec_search.Crypto.Sample.{sample_primitives, sample_lawful}
use sec_search.Database.{name, PlainData}
use sec_search.Database.Server.{
  Session, Statement, FieldColumns, MainRow, real_query, write, insert_row, select_rows,
}
use sec_search.Database.Server.Tables.{Tables, effect}
use sec_search.Database.Server.Effects.{At}
use sec_search.Database.Server.Answers.{is_in, answer}
use sec_search.Database.Server.Reads.{IsOneOf}
use sec_search.Database.Server.Memory.{
  memory, memory_lawful, memory_answering, memory-Complete, fresh,
}
use sec_search.Database.Transaction.Atomic.{outside}
use sec_search.Database.Dao.{
  insert_main_table, insert_fuzzy_index, delete_fuzzy_index, query_by_fuzzy_keyword_multi,
  query_by_exact_index_multi,
}
use sec_search.Query.Bigram.{split_bigram}
use sec_search.Database.Transaction.{in_transaction}
use sec_search.Database.Dao.Records.{
  Store, on_session, query_by_fuzzy_keyword, insert_data, update_data,
}
use sec_search.Database.Dao.Atomic.{Updated, update_data_atomic}
use sec_search.Database.Dao.Insert.{Inserted, Left, insert_data_leaves}
use sec_search.Database.Dao.Search.{
  HasPostings, query_by_fuzzy_keyword_multi-HasPostings, query_by_fuzzy_keyword_multi_repeat,
}
use sec_search.Database.Dao.Found.{IsMac}
use sec_search.Database.Dao.Found.Search.{insert_data_found}
use sec_search.Database.Dao.Found.Exact.{insert_data_found_exactly}
use sec_search.Database.Dao.SaveKey.{Saved, save_to_database, save_to_database_seals}
use sec_search.Database.Dao.Calls.{Call, run_calls}
use sec_search.Database.Dao.Calls.NoLeak.{run_calls_close}

abbrev toy : Primitives
toy = record {
  Env = ℕ;
  encrypt = λ m key e. (ok (key ++ m), e);
  decrypt = λ s key e. (ok s, e);
  hmac_hex = λ m key e. (ok (m ++ key), e);
  random_key = λ e. (ok [], e);
}

abbrev ann : PlainData
ann = record { name_text = codes "ann"; phone_text = codes "12"; address_text = codes "x" }

abbrev sealed : Bytes → FieldColumns
sealed m = record {
  cipher = codes "e" ++ m;
  blind = m ++ codes "i";
  tag = codes "e" ++ m ++ codes "t";
}

abbrev ann_row : MainRow
ann_row = record {
  enc_key_version = 1;
  name_field = sealed (codes "ann");
  phone_field = sealed (codes "12");
  address_field = sealed (codes "x");
}

-- One record, with a single posting.
abbrev tables : Tables
tables = record {
  sensitive_data = (1, ann_row) ∷ [];
  next_id = 2;
  fuzzy_inverted = record { token_hash = codes "ani"; data_id = 1; field_type = name } ∷ [];
  key_config = [];
  index_rebuild_task = [];
  next_task = 1;
}

-- A session on which `n` statements are carried out.
abbrev session : ℕ → Session memory
session n = record { world = fresh n tables; statements = 0 }

abbrev store : ℕ → Store toy memory
store n = record { env = 0; session = session n }

session_At : (n : ℕ) → At memory memory_lawful (outside tables) (session n)
unfolding memory_lawful
session_At n = refl

-- The runs that the next examples are about: all goes well, and a statement is refused.
update_throws :
    (update_data toy memory 1 ann (codes "e") (codes "i") (codes "t") 1 (store 2)).0
    ≡ throw Error.execute_fuzzy_failed
unfolding update_data in_transaction real_query delete_fuzzy_index write split_bigram
    insert_fuzzy_index
update_throws = refl

insert_orphan :
    (insert_data toy memory ann
      (codes "e")
      (codes "i")
      (codes "t")
      1
      (store 1)).1.session.world.view
    ≡ outside (effect (Statement.insert_main ann_row) tables)
unfolding insert_data insert_main_table insert_row split_bigram in_transaction real_query
    insert_fuzzy_index write
insert_orphan = refl

-- The third statement, which inserts postings, is refused.
update_data_atomic_example :
    Post
      (λ done s.
        (done ≡ true)
        × (u : Tables) × Updated toy memory memory_lawful ann
            (codes "e")
            (codes "i")
            (codes "t")
            1
            1
            0
            tables
            u
        × At memory memory_lawful (outside u) s.session)
      (λ s. At memory memory_lawful (outside tables) s.session)
      (update_data toy memory 1 ann (codes "e") (codes "i") (codes "t") 1 (store 2))
update_data_atomic_example =
    update_data_atomic toy memory memory_lawful ann (codes "e") (codes "i") (codes "t") 1 1 tables
      (store 2) (session_At 2)

-- The second statement is refused, so that the row is left without postings.
insert_data_leaves_example :
    Post
      (Inserted toy memory memory_lawful ann (codes "e") (codes "i") (codes "t") 1 tables 0)
      (Left toy memory memory_lawful ann (codes "e") (codes "i") (codes "t") 1 tables 0)
      (insert_data toy memory ann (codes "e") (codes "i") (codes "t") 1 (store 1))
insert_data_leaves_example =
    insert_data_leaves toy memory memory_lawful ann (codes "e") (codes "i") (codes "t") 1 tables 0
      (store 1) (session_At 1) refl

query_by_fuzzy_keyword_multi-HasPostings_example :
    Post
      (λ ids s. All (HasPostings name (codes "ani" ∷ []) tables.fuzzy_inverted) ids)
      (λ s. Unit {0})
      (query_by_fuzzy_keyword_multi memory (codes "ani" ∷ []) name (session 1))
query_by_fuzzy_keyword_multi-HasPostings_example =
    query_by_fuzzy_keyword_multi-HasPostings memory memory_lawful memory_answering
      (codes "ani" ∷ []) name (outside tables) (session 1) (session_At 1)

query_by_fuzzy_keyword_multi_repeat_example :
    Post
      (λ ids s. ids ≡ [])
      (λ s. Unit {0})
      (query_by_fuzzy_keyword_multi memory (codes "ani" ∷ codes "ani" ∷ []) name (session 1))
unfolding is_in same
query_by_fuzzy_keyword_multi_repeat_example =
    query_by_fuzzy_keyword_multi_repeat memory memory_lawful memory_answering
      (codes "ani" ∷ codes "ani" ∷ []) name (outside tables) (session 1) (inl refl) (session_At 1)

abbrev some_calls : List Call
some_calls = Call.delete 1 ∷ Call.get_pending_task ∷ Call.load_keys 1 ∷ []

run_calls_close_example : (run_calls toy memory some_calls (store 2)).session.statements ≡ 0
run_calls_close_example = run_calls_close toy memory some_calls (store 2)

abbrev key_16 : Bytes
key_16 = 1 ∷ 2 ∷ 3 ∷ 4 ∷ 5 ∷ 6 ∷ 7 ∷ 8 ∷ 9 ∷ 10 ∷ 11 ∷ 12 ∷ 13 ∷ 14 ∷ 15 ∷ 16 ∷ []

abbrev manager : KeyManager
manager = record {
  kek = key_16;
  enc_keys = [];
  idx_keys = [];
  tag_keys = [];
  current_enc_version = 0;
  current_idx_version = 0;
  current_tag_version = 0;
  initialized = true;
  last_rotate_time = pos 0;
}

abbrev sample_store : Store sample_primitives memory
sample_store = record { env = record { world = 5; live = 0 }; session = session 1 }

short_key-IsPlain : IsPlain (7 ∷ [])
short_key-IsPlain = record { bytes = (omega arith, tt); short = omega arith }

save_to_database_seals_example :
    Post
      (λ _.
        Saved sample_primitives sample_lawful memory memory_lawful key_16
          (7 ∷ [])
          1
          2
          KeyStatus.enabled
          tables)
      (λ s. At memory memory_lawful (outside tables) s.session)
      (save_to_database sample_primitives memory manager 1
        (7 ∷ [])
        2
        KeyStatus.enabled
        sample_store)
save_to_database_seals_example =
    save_to_database_seals sample_primitives sample_lawful memory memory_lawful manager 1 (7 ∷ []) 2
      KeyStatus.enabled tables sample_store tt short_key-IsPlain refl (session_At 1)

abbrev toy_mac : Bytes → Bytes → Bytes
toy_mac key m = m ++ key

toy_mac-IsMac : IsMac toy toy_mac
toy_mac-IsMac m key h e q = cc

insert_data_found_example :
    Post
      (λ id s.
        Post
          (λ ids s'. IsOneOf id ids)
          (λ s'. Unit {0})
          (query_by_fuzzy_keyword toy memory (codes "nn") name (codes "i") s))
      (λ s. Unit {0})
      (insert_data toy memory ann (codes "e") (codes "i") (codes "t") 1 (store 9))
unfolding is_in split_bigram
insert_data_found_example =
    insert_data_found toy memory memory_lawful memory_answering memory-Complete toy_mac
      toy_mac-IsMac ann (codes "e") (codes "i") (codes "t") 1 tables (store 9) name (codes "a")
      (codes "nn") [] refl (omega arith) (refl, tt) (session_At 9)

insert_data_found_exactly_example :
    Post
      (λ id s.
        Post
          (λ ids s'. IsOneOf id ids)
          (λ s'. Unit {0})
          (on_session toy memory
            (query_by_exact_index_multi memory (codes "zz" ∷ codes "anni" ∷ []) name)
            s))
      (λ s. Unit {0})
      (insert_data toy memory ann (codes "e") (codes "i") (codes "t") 1 (store 9))
insert_data_found_exactly_example =
    insert_data_found_exactly toy memory toy_mac toy_mac-IsMac ann (codes "e") (codes "i")
      (codes "t") 1 memory_lawful memory_answering memory-Complete tables (store 9) name
      (codes "zz" ∷ codes "anni" ∷ []) (inr (inl refl)) (session_At 9)

-- And the run itself: the new row is found next to the old one by the pair of bytes "an".
search_after_insert :
    (query_by_fuzzy_keyword toy memory
      (codes "an")
      name
      (codes "i")
      (insert_data toy memory ann (codes "e") (codes "i") (codes "t") 1 (store 9)).1).0
    ≡ ok (1 ∷ 2 ∷ [])
unfolding insert_data insert_main_table insert_row split_bigram in_transaction real_query
    insert_fuzzy_index write query_by_fuzzy_keyword query_by_fuzzy_keyword_multi select_rows answer
    effect same
search_after_insert = refl
