-- ===== src/Database/Server/Answers.antt =====
-- What the statements that read give, on tables.
use sec_search.Prelude.{
  ℕ, Bool, true, false, ◌&&◌, ◌||◌, List, [], ◌∷◌, map, Option, none, some, Bytes, length, take,
  same, leb, ◌==◌, if◌then◌else◌,
}
use sec_search.Prelude.SortedMap.{lookup}
use sec_search.Database.{FieldType, name, phone, address, RebuildTaskInfo}
use sec_search.Database.Server.{
  Statement, Row, FieldColumns, MainRow, KeyRow, SelectedField, SelectedRow,
}
use sec_search.Database.Server.Tables.{Posting, Tables, filter, same_posting}

abbrev pub columns : FieldType → MainRow → FieldColumns
columns name r = r.name_field
columns phone r = r.phone_field
columns address r = r.address_field

-- `… IN (…)`.
unfoldable pub is_in : Bytes → List Bytes → Bool
is_in h [] = false
is_in h (g ∷ gs) = same h g || is_in h gs

unfoldable pub distinct : List Bytes → List Bytes
unfolding is_in
distinct [] = []
distinct (h ∷ hs) = let rest = distinct hs in if is_in h hs then rest else h ∷ rest

unfoldable pub is_posted : Posting → List Posting → Bool
is_posted p [] = false
is_posted p (q ∷ qs) = same_posting p q || is_posted p qs

-- `COUNT(DISTINCT token_hash)` in the group of an id, among the hashes asked for.
unfoldable pub count_hashes : FieldType → List Bytes → ℕ → List Posting → ℕ
unfolding distinct is_posted
count_hashes t hashes id ps = length (
    filter (λ h. is_posted (record { token_hash = h; data_id = id; field_type = t }) ps)
      (distinct hashes))

-- The groups of `GROUP BY data_id`.
unfoldable pub group_ids : List Posting → List ℕ
group_ids [] = []
group_ids (p ∷ ps) =
    p.data_id ∷ filter (λ id. if id == p.data_id then false else true) (group_ids ps)

abbrev pub selected_field : FieldColumns → SelectedField
selected_field f = record { cipher = some f.cipher; tag = some f.tag }

abbrev pub selected : ℕ × MainRow → SelectedRow
selected (id, r) = record {
  id = id;
  enc_key_version = r.enc_key_version;
  name_field = selected_field r.name_field;
  phone_field = selected_field r.phone_field;
  address_field = selected_field r.address_field;
}

unfoldable pub is_member : ℕ → List ℕ → Bool
is_member id [] = false
is_member id (j ∷ js) = (id == j) || is_member id js

-- `ORDER BY key_version ASC`.
unfoldable pub add_by_version : KeyRow → List KeyRow → List KeyRow
add_by_version k [] = k ∷ []
add_by_version k (j ∷ js) =
    let rest = add_by_version k js in
    if leb k.key_version j.key_version then k ∷ j ∷ js else j ∷ rest

unfoldable pub by_version : List KeyRow → List KeyRow
unfolding add_by_version
by_version [] = []
by_version (k ∷ ks) = add_by_version k (by_version ks)

abbrev pub some_task : Option RebuildTaskInfo → List RebuildTaskInfo
some_task none = []
some_task (some r) = r ∷ []

unfoldable pub answer : (st : Statement) → Tables → List (Row st)
unfolding is_in count_hashes group_ids is_member by_version
answer (Statement.select_exact t hashes) tables =
    map (λ e. e.0) (filter (λ e. is_in (columns t e.1).blind hashes) tables.sensitive_data)
answer (Statement.select_fuzzy t hashes n) tables =
    filter (λ id. count_hashes t hashes id tables.fuzzy_inverted == n)
      (group_ids tables.fuzzy_inverted)
answer (Statement.select_ciphers ids) tables =
    map (λ e. selected e) (filter (λ e. is_member e.0 ids) tables.sensitive_data)
answer (Statement.select_range a b n) tables =
    map (λ e. selected e) (take n (filter (λ e. leb a e.0 && leb e.0 b) tables.sensitive_data))
answer (Statement.select_keys t) tables =
    by_version (filter (λ k. k.key_type == t) tables.key_config)
answer Statement.select_pending_task tables =
    take 1 (filter (λ r. leb r.status 1) (map (λ e. e.1) tables.index_rebuild_task))
answer (Statement.select_task id) tables = some_task (lookup id tables.index_rebuild_task)
answer st tables = []
