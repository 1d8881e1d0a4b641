-- ===== src/Rebuild/Tests.antt =====
-- The index rebuilder on the server in memory.
use sec_search.Prelude.Int.{pos}
use sec_search.Prelude.{ℕ, Bytes, [], ◌∷◌, ◌++◌, codes, ok, refl, true}
use sec_search.Prelude.Triple.{Post}
use sec_search.Crypto.Primitives.{Primitives}
use sec_search.Crypto.KeyManager.{KeyManager, KeyInfo, KeyStatus}
use sec_search.Database.{RebuildTaskInfo, RebuildRawRecord}
use sec_search.Database.Server.{FieldColumns}
use sec_search.Database.Server.Tables.{Tables}
use sec_search.Database.Server.Memory.{memory, memory_lawful, fresh}
use sec_search.Database.Dao.Records.{Store}
use sec_search.Rebuild.{Progress, field_cipher, rebuild_one_record}
use sec_search.Rebuild.Partial.{After, rebuild_one_record_leaves}

-- The key stands next to the message.
abbrev toy : Primitives
toy = record {
  Env = ℕ;
  encrypt = λ m key e. (ok (key ++ m), e);
  decrypt = λ s key e. (ok s, e);
  hmac_hex = λ m key e. (ok (m ++ key), e);
  random_key = λ e. (ok [], e);
}

abbrev column : Bytes → FieldColumns
column m = record { cipher = m; blind = m; tag = m }

abbrev task : RebuildTaskInfo
task = record {
  task_id = 1;
  field_code = 1;
  start_id = 1;
  end_id = 5;
  last_processed_id = 0;
  status = 0;
  success_count = 0;
  fail_count = 0;
}

abbrev tables : Tables
tables = record {
  sensitive_data =
      (
        2,
        record {
          enc_key_version = 1;
          name_field = column (codes "ann");
          phone_field = column (codes "12");
          address_field = column (codes "x");
        },
      )
      ∷ [];
  next_id = 3;
  fuzzy_inverted = [];
  key_config = [];
  index_rebuild_task = (1, task) ∷ [];
  next_task = 2;
}

-- A connection on which `n` statements are carried out.
abbrev store : ℕ → Store toy memory
store n = record { env = 0; session = record { world = fresh n tables; statements = 0 } }

abbrev raw : RebuildRawRecord
raw = record {
  id = 2;
  enc_key_version = 1;
  name_cipher = codes "ann";
  name_tag = codes "ann";
  phone_cipher = codes "12";
  phone_tag = codes "12";
  address_cipher = codes "x";
  address_tag = codes "x";
}

-- The third statement is refused.
rebuild_one_record_leaves_example :
    Post
      (After toy memory memory_lawful raw 1 (codes "e") (codes "i") tables 0 (field_cipher 1 raw))
      (λ s. ⊥)
      (rebuild_one_record toy memory raw 1 (codes "e") (codes "i") (store 2))
unfolding memory_lawful
rebuild_one_record_leaves_example =
    rebuild_one_record_leaves toy memory memory_lawful raw 1 (codes "e") (codes "i") tables 0
      (store 2) refl refl

abbrev some_key : Bytes → KeyInfo
some_key k = record { key = k; version = 1; status = KeyStatus.enabled }

abbrev keys : KeyManager
keys = record {
  kek = [];
  enc_keys = (1, some_key (codes "e")) ∷ [];
  idx_keys = (1, some_key (codes "i")) ∷ [];
  tag_keys = (1, some_key (codes "t")) ∷ [];
  current_enc_version = 1;
  current_idx_version = 1;
  current_tag_version = 1;
  initialized = true;
  last_rotate_time = pos 0;
}

abbrev begun : Progress
begun = record { next = 1; success = 0; fail = 0 }
