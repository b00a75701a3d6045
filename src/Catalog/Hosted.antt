-- ===== src/Catalog/Hosted.antt =====
-- `InMemoryHostedCatalogApi` of src/catalog/hosted_catalog_api.cpp: the metadata in memory. Each
-- operation takes the state and gives the one after it.
use matt_sql.Prelude.{
  ℕ, ◌+◌, ◌%◌, ◌^◌, not, Option, none, some, List, [], ◌∷◌, ◌++◌, ltb, ◌==◌, if◌then◌else◌,
}
use matt_sql.Common.Status.{
  Result, ok, err, Status, ◌>>=◌, not_found, already_exists, invalid_argument, corruption,
}
use matt_sql.Common.Maps.{Map, number_eq, find, contains, emplace, erase, assign}
use matt_sql.Catalog.{IndexInfo, TableInfo, key_eq}

pub record Hosted : Type 0 where
  pub next_table_id : ℕ
  pub next_index_id : ℕ
  pub tables_by_name : Map (List ℕ) TableInfo
  pub table_names_by_id : Map ℕ (List ℕ)
  pub index_keys_by_id : Map ℕ (List ℕ × List ℕ)
  pub indexes_by_table_name : Map (List ℕ) (Map (List ℕ) IndexInfo)

abbrev pub new_hosted : Hosted
new_hosted = record {
  next_table_id = 1;
  next_index_id = 1;
  tables_by_name = [];
  table_names_by_id = [];
  index_keys_by_id = [];
  indexes_by_table_name = [];
}

unfoldable pub allocate_table_id : Hosted → Hosted × Result ℕ
allocate_table_id s =
    (record s { next_table_id = (s.next_table_id + 1) % 2 ^ 64 }, ok s.next_table_id)

unfoldable pub allocate_index_id : Hosted → Hosted × Result ℕ
allocate_index_id s =
    (record s { next_index_id = (s.next_index_id + 1) % 2 ^ 64 }, ok s.next_index_id)

unfoldable pub store_table : Hosted → List ℕ → TableInfo → Hosted × Result TableInfo
store_table s table_key table =
    if contains key_eq s.tables_by_name table_key
    then (s, err already_exists)
    else if contains number_eq s.table_names_by_id table.id
    then (s, err already_exists)
    else (
      record s {
        table_names_by_id = emplace number_eq s.table_names_by_id table.id table_key;
        tables_by_name = emplace key_eq s.tables_by_name table_key table;
      },
      ok table,
    )

unfoldable pub erase_index_ids : List IndexInfo → Map ℕ (List ℕ × List ℕ) → Map ℕ (List ℕ × List ℕ)
erase_index_ids [] keys = keys
erase_index_ids (index ∷ indexes) keys = erase_index_ids indexes (erase number_eq keys index.id)

unfoldable pub erase_found : Hosted → List ℕ → Option TableInfo → Hosted × Status
erase_found s table_key none = (s, err not_found)
erase_found s table_key (some table) = (
  record s {
    table_names_by_id = erase number_eq s.table_names_by_id table.id;
    index_keys_by_id = erase_index_ids table.indexes s.index_keys_by_id;
    indexes_by_table_name = erase key_eq s.indexes_by_table_name table_key;
    tables_by_name = erase key_eq s.tables_by_name table_key;
  },
  ok tt,
)

unfoldable pub erase_table : Hosted → List ℕ → Hosted × Status
erase_table s table_key = erase_found s table_key (find key_eq s.tables_by_name table_key)

unfoldable pub update_named : Hosted → TableInfo → List ℕ → Hosted × Status
update_named s table key = elim (find key_eq s.tables_by_name key) [
  | none ↦ (s, err corruption)
  | some old ↦ (
    record s {
      tables_by_name = assign key_eq s.tables_by_name key (record table { name = old.name });
    },
    ok tt,
  )
]

unfoldable pub update_table : Hosted → TableInfo → Hosted × Status
unfolding update_named
update_table s table = elim (find number_eq s.table_names_by_id table.id) [
  | none ↦ (s, err not_found)
  | some key ↦ update_named s table key
]

unfoldable pub table_or_not_found : Option TableInfo → Result TableInfo
table_or_not_found none = err not_found
table_or_not_found (some table) = ok table

unfoldable pub load_table : Hosted → List ℕ → Result TableInfo
load_table s table_key = table_or_not_found (find key_eq s.tables_by_name table_key)

-- `none` is the exception of `at`, where the key of the id has no table.
unfoldable pub load_table_by_id : Hosted → ℕ → Option (Result TableInfo)
load_table_by_id s table_id = elim (find number_eq s.table_names_by_id table_id) [
  | none ↦ some (err not_found)
  | some key ↦ elim (find key_eq s.tables_by_name key) [
    | none ↦ none
    | some table ↦ some (ok table)
  ]
]

-- `std::sort` by the tables' ids, which differ.
insert_by_id : TableInfo → List TableInfo → List TableInfo
insert_by_id table [] = table ∷ []
insert_by_id table (other ∷ tables) =
    let rest = insert_by_id table tables in
    if ltb table.id other.id then table ∷ other ∷ tables else other ∷ rest

sort_by_id : Map (List ℕ) TableInfo → List TableInfo
unfolding insert_by_id
sort_by_id [] = []
sort_by_id ((name, table) ∷ entries) = insert_by_id table (sort_by_id entries)

unfoldable pub load_tables : Hosted → Result (List TableInfo)
unfolding sort_by_id
load_tables s = ok (sort_by_id s.tables_by_name)

-- `operator[]`, which adds an empty map for a new key.
indexes_of : Hosted → List ℕ → Map (List ℕ) IndexInfo
indexes_of s table_key = elim (find key_eq s.indexes_by_table_name table_key) [
  | none ↦ []
  | some indexes ↦ indexes
]

with_indexes : Hosted → List ℕ → Map (List ℕ) IndexInfo → Hosted
with_indexes s table_key indexes = elim (find key_eq s.indexes_by_table_name table_key) [
  | none ↦ record s {
    indexes_by_table_name = emplace key_eq s.indexes_by_table_name table_key indexes;
  }
  | some old ↦ record s {
    indexes_by_table_name = assign key_eq s.indexes_by_table_name table_key indexes;
  }
]

store_index_of : Hosted → List ℕ → List ℕ → IndexInfo → Result TableInfo → Hosted × Result IndexInfo
unfolding indexes_of with_indexes
store_index_of s table_key index_key index (err e) = (s, err e)
store_index_of s table_key index_key index (ok table) =
    if not (index.table_id == table.id)
    then (s, err invalid_argument)
    else if contains number_eq s.index_keys_by_id index.id
    then (s, err already_exists)
    else if contains key_eq (indexes_of s table_key) index_key
    then (with_indexes s table_key (indexes_of s table_key), err already_exists)
    else (let s' =
          with_indexes s table_key (emplace key_eq (indexes_of s table_key) index_key index) in
        (
          record s' {
            tables_by_name =
                assign key_eq s.tables_by_name table_key
                  (record table { indexes = table.indexes ++ index ∷ [] });
            index_keys_by_id = emplace number_eq s.index_keys_by_id index.id (table_key, index_key);
          },
          ok index,
        ))

unfoldable pub store_index : Hosted → List ℕ → List ℕ → IndexInfo → Hosted × Result IndexInfo
unfolding store_index_of
store_index s table_key index_key index =
    store_index_of s table_key index_key index (load_table s table_key)

load_index_in : Option (Map (List ℕ) IndexInfo) → List ℕ → Result IndexInfo
load_index_in none index_key = err not_found
load_index_in (some indexes) index_key = elim (find key_eq indexes index_key) [
  | none ↦ err not_found
  | some index ↦ ok index
]

unfoldable pub load_index : Hosted → List ℕ → List ℕ → Result IndexInfo
unfolding load_index_in
load_index s table_key index_key = load_table s table_key >>= λ table.
    load_index_in (find key_eq s.indexes_by_table_name table_key) index_key
