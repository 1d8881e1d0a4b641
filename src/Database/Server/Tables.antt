-- ===== src/Database/Server/Tables.antt =====
-- The tables of create_table.sql, and what the statements that write do to them.
use sec_search.Prelude.{
  ℕ, ◌+◌, Bool, true, false, not, ◌&&◌, List, [], ◌∷◌, map, none, some, Bytes, same, ◌==◌,
  if◌then◌else◌,
}
use sec_search.Prelude.SortedMap.{SortedMap, lookup, insert}
use sec_search.Database.{FieldType, name, phone, address, RebuildTaskInfo}
use sec_search.Database.Server.{Statement, MainRow, KeyRow}

-- A row of `fuzzy_inverted`.
pub record Posting : Type 0 where
  pub token_hash : Bytes
  pub data_id : ℕ
  pub field_type : FieldType

-- The tables that are read again, and the next AUTO_INCREMENT ids.
pub record Tables : Type 0 where
  pub sensitive_data : SortedMap MainRow
  pub next_id : ℕ
  pub fuzzy_inverted : List Posting
  pub key_config : List KeyRow
  pub index_rebuild_task : SortedMap RebuildTaskInfo
  pub next_task : ℕ

abbrev pub filter {ℓ} : {A : Type ℓ} → (A → Bool) → List A → List A
filter p [] = []
filter p (x ∷ xs) = if p x then x ∷ filter p xs else filter p xs

unfoldable pub same_field : FieldType → FieldType → Bool
same_field name name = true
same_field phone phone = true
same_field address address = true
same_field name phone = false
same_field name address = false
same_field phone name = false
same_field phone address = false
same_field address name = false
same_field address phone = false

unfoldable pub same_posting : Posting → Posting → Bool
unfolding same_field
same_posting p q =
    (p.data_id == q.data_id)
    && (same_field p.field_type q.field_type && same p.token_hash q.token_hash)

-- INSERT IGNORE of one row: `uk_token_data_field` admits it once.
unfoldable pub add_posting : Posting → List Posting → List Posting
unfolding same_posting
add_posting p [] = p ∷ []
add_posting p (q ∷ qs) =
    let rest = add_posting p qs in if same_posting p q then q ∷ qs else q ∷ rest

unfoldable pub add_postings : ℕ → FieldType → List Bytes → List Posting → List Posting
unfolding add_posting
add_postings id t [] ps = ps
add_postings id t (h ∷ hs) ps =
    add_postings id t hs (add_posting (record { token_hash = h; data_id = id; field_type = t }) ps)

abbrev pub delete_key : {V : Type 0} → ℕ → SortedMap V → SortedMap V
delete_key id m = filter (λ e. not (e.0 == id)) m

-- A row that is there is written by `f`.
abbrev pub change_row : {V : Type 0} → ℕ → (V → V) → SortedMap V → SortedMap V
change_row id f m = elim (lookup id m) [ none ↦ m | some r ↦ insert id (f r) m ]

abbrev pub put_blind : FieldType → Bytes → MainRow → MainRow
put_blind name b r = record r { name_field = record r.name_field { blind = b } }
put_blind phone b r = record r { phone_field = record r.phone_field { blind = b } }
put_blind address b r = record r { address_field = record r.address_field { blind = b } }

-- The row with a type and a version, by `uk_type_version`.
abbrev pub is_key : ℕ → ℕ → KeyRow → Bool
is_key t v k = (k.key_type == t) && (k.key_version == v)

abbrev pub new_task : ℕ → ℕ → ℕ → ℕ → RebuildTaskInfo
new_task id field_code start_id end_id = record {
  task_id = id;
  field_code = field_code;
  start_id = start_id;
  end_id = end_id;
  last_processed_id = 0;
  status = 0;
  success_count = 0;
  fail_count = 0;
}

unfoldable pub effect : Statement → Tables → Tables
unfolding add_postings same_field
effect (Statement.insert_main row) t = record t {
  sensitive_data = insert t.next_id row t.sensitive_data;
  next_id = t.next_id + 1;
}
effect (Statement.update_main row id) t = record t {
  sensitive_data = change_row id (λ r. row) t.sensitive_data;
}
effect (Statement.update_blind f b id) t = record t {
  sensitive_data = change_row id (put_blind f b) t.sensitive_data;
}
effect (Statement.delete_main id) t = record t { sensitive_data = delete_key id t.sensitive_data }
effect (Statement.insert_fuzzy id f hs) t = record t {
  fuzzy_inverted = add_postings id f hs t.fuzzy_inverted;
}
effect (Statement.delete_fuzzy id) t = record t {
  fuzzy_inverted = filter (λ p. not (p.data_id == id)) t.fuzzy_inverted;
}
effect (Statement.delete_field_fuzzy id f) t = record t {
  fuzzy_inverted =
      filter (λ p. not ((p.data_id == id) && same_field p.field_type f)) t.fuzzy_inverted;
}
effect (Statement.save_key k) t = record t {
  key_config = k ∷ filter (λ k'. not (is_key k.key_type k.key_version k')) t.key_config;
}
effect (Statement.update_key_status kt v status) t = record t {
  key_config = map (λ k. if is_key kt v k then record k { status = status } else k) t.key_config;
}
effect (Statement.delete_key kt v) t = record t {
  key_config = filter (λ k. not (is_key kt v k)) t.key_config;
}
effect (Statement.insert_task f a b) t = record t {
  index_rebuild_task = insert t.next_task (new_task t.next_task f a b) t.index_rebuild_task;
  next_task = t.next_task + 1;
}
effect (Statement.update_task id last good bad status) t = record t {
  index_rebuild_task =
      change_row id
        (λ r. record r {
          last_processed_id = last;
          success_count = good;
          fail_count = bad;
          status = status;
        })
        t.index_rebuild_task;
}
effect (Statement.fail_task n id) t = record t {
  index_rebuild_task = change_row id (λ r. record r { status = 3 }) t.index_rebuild_task;
}
effect st t = t

-- `mysql_stmt_insert_id`.
abbrev pub generated : Statement → Tables → ℕ
generated (Statement.insert_main row) t = t.next_id
generated (Statement.insert_task f a b) t = t.next_task
generated st t = 0
