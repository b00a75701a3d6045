-- ===== src/Catalog/Tables.antt =====
-- `InMemoryCatalog` of src/catalog/in_memory_catalog.cpp, over the interface of its store,
-- `HostedCatalogApi` of include/mattsql/catalog/hosted_catalog_api.hpp, and what the store promises.
use matt_sql.Prelude.{
  ℕ, ◌+◌, ◌-◌, ◌^◌, ◌≡◌, Bool, true, false, ◌||◌, Option, none, some, List, [], ◌∷◌, length, ltb,
  leb, ◌==◌, if◌then◌else◌,
}
use matt_sql.Common.Status.{
  ErrorCode, Result, ok, err, Status, ◌>>=◌, ◌>>◌, not_found, already_exists, invalid_argument,
}
use matt_sql.Common.Types.{ColumnSchema, TableSchema, null_type}
use matt_sql.Common.Values.{type_eq}
use matt_sql.Lexer.{fold_identifier_key, text_eq}
use matt_sql.Catalog.{IndexInfo, TableInfo, CreateTableRequest, CreateIndexRequest}
use matt_sql.Catalog.Hosted.{
  Hosted, allocate_table_id, allocate_index_id, store_table, erase_table, update_table, load_table,
  load_table_by_id, load_tables, store_index, load_index,
}

pub record HostedCatalogApi : Type 1 where
  pub State : Type 0
  pub allocate_table_id : State → State × Result ℕ
  pub allocate_index_id : State → State × Result ℕ
  pub store_table : State → List ℕ → TableInfo → State × Result TableInfo
  pub erase_table : State → List ℕ → State × Status
  pub update_table : State → TableInfo → State × Status
  pub load_table : State → List ℕ → Result TableInfo
  pub load_table_by_id : State → ℕ → Option (Result TableInfo)
  pub load_tables : State → Result (List TableInfo)
  pub store_index : State → List ℕ → List ℕ → IndexInfo → State × Result IndexInfo
  pub load_index : State → List ℕ → List ℕ → Result IndexInfo

abbrev pub in_memory_api : HostedCatalogApi
in_memory_api = record {
  State = Hosted;
  allocate_table_id = allocate_table_id;
  allocate_index_id = allocate_index_id;
  store_table = store_table;
  erase_table = erase_table;
  update_table = update_table;
  load_table = load_table;
  load_table_by_id = load_table_by_id;
  load_tables = load_tables;
  store_index = store_index;
  load_index = load_index;
}

-- What the catalog relies on in a store of tables.
pub record StoresTables (api : HostedCatalogApi) : Type 0 where
  pub stored :
      (s : api.State) (k : List ℕ) (t : TableInfo) (s' : api.State) (u : TableInfo)
      → api.store_table s k t ≡ (s', ok u)
      → (u ≡ t) × (api.load_table s' k ≡ ok t)
  pub store_others :
      (s : api.State) (k : List ℕ) (t : TableInfo) (j : List ℕ)
      → text_eq k j ≡ false
      → api.load_table (api.store_table s k t).0 j ≡ api.load_table s j
  pub allocated :
      (s : api.State) (j : List ℕ)
      → api.load_table (api.allocate_table_id s).0 j ≡ api.load_table s j

abbrev pub is_empty {ℓ} : {A : Type ℓ} → List A → Bool
is_empty [] = true
is_empty (x ∷ xs) = false

unfoldable pub validate_column : ColumnSchema → Status
unfolding type_eq
validate_column column =
    if is_empty column.name
    then err invalid_argument
    else if type_eq column.type null_type
    then err invalid_argument
    else ok tt

abbrev pub has_name : List (List ℕ) → List ℕ → Bool
has_name [] name = false
has_name (other ∷ names) name = text_eq other name || has_name names name

-- The loop over the columns: `index` of them are done, under the names `column_names`.
unfoldable pub check_columns : ℕ → List (List ℕ) → List ColumnSchema → Result (List ColumnSchema)
check_columns index column_names [] = ok []
check_columns index column_names (column ∷ columns) = do
  (if ltb (2 ^ 32 - 1) index then err invalid_argument else ok tt)
  validate_column column
  let column_key = fold_identifier_key column.name
  (if has_name column_names column_key then err already_exists else ok tt)
  checked ← check_columns (index + 1) (column_key ∷ column_names) columns
  ok (record column { id = index } ∷ checked)

abbrev pub has_number : List ℕ → ℕ → Bool
has_number [] n = false
has_number (m ∷ ns) n = m == n || has_number ns n

-- The loop over the key columns of an index, with those that were seen.
unfoldable pub check_key_columns : ℕ → List ℕ → List ℕ → Status
check_key_columns columns seen [] = ok tt
check_key_columns columns seen (column_id ∷ ids) = do
  (if leb columns column_id then err invalid_argument else ok tt)
  (if has_number seen column_id then err invalid_argument else ok tt)
  check_key_columns columns (column_id ∷ seen) ids

abbrev pub invalid_page_id : ℕ
invalid_page_id = 2 ^ 64 - 1

abbrev pub is_not_found : ErrorCode → Bool
is_not_found not_found = true
is_not_found _ = false

module _ (api : HostedCatalogApi) where
  unfoldable pub store_new :
      api.State × Result ℕ → List ℕ → List ℕ → TableSchema → api.State × Result TableInfo
  store_new (s, err e) key name columns = (s, err e)
  store_new (s, ok table_id) key name columns = api.store_table s key (record {
    id = table_id;
    name = name;
    schema = columns;
    heap_root_page_id = invalid_page_id;
    indexes = [];
  })

  unfoldable pub create_checked :
      api.State → List ℕ → List ℕ → Result (List ColumnSchema) → api.State × Result TableInfo
  create_checked s key name (err e) = (s, err e)
  create_checked s key name (ok columns) = store_new (api.allocate_table_id s) key name columns

  unfoldable pub create_absent :
      api.State → CreateTableRequest → List ℕ → Result TableInfo → api.State × Result TableInfo
  create_absent s request key (ok table) = (s, err already_exists)
  create_absent s request key (err e) =
      if is_not_found e
      then create_checked s key request.name (check_columns 0 [] request.schema)
      else (s, err e)

  unfoldable pub create_table : api.State → CreateTableRequest → api.State × Result TableInfo
  create_table s request =
      if is_empty request.name
      then (s, err invalid_argument)
      else if is_empty request.schema
      then (s, err invalid_argument)
      else (let key = fold_identifier_key request.name in
          create_absent s request key (api.load_table s key))

  unfoldable pub drop_table : api.State → List ℕ → api.State × Status
  drop_table s table_name = api.erase_table s (fold_identifier_key table_name)

  unfoldable pub get_table : api.State → List ℕ → Result TableInfo
  get_table s table_name = api.load_table s (fold_identifier_key table_name)

  unfoldable pub get_table_by_id : api.State → ℕ → Option (Result TableInfo)
  get_table_by_id s table_id = api.load_table_by_id s table_id

  unfoldable pub set_loaded_root :
      api.State → ℕ → Option (Result TableInfo) → Option (api.State × Status)
  set_loaded_root s root none = none
  set_loaded_root s root (some (err e)) = some (s, err e)
  set_loaded_root s root (some (ok table)) =
      some (api.update_table s (record table { heap_root_page_id = root }))

  unfoldable pub set_table_heap_root : api.State → ℕ → ℕ → Option (api.State × Status)
  set_table_heap_root s table_id heap_root_page_id =
      if heap_root_page_id == invalid_page_id
      then some (s, err invalid_argument)
      else set_loaded_root s heap_root_page_id (api.load_table_by_id s table_id)

  unfoldable pub list_tables : api.State → Result (List TableInfo)
  list_tables s = api.load_tables s

  unfoldable pub get_index : api.State → List ℕ → List ℕ → Result IndexInfo
  get_index s table_name index_name =
      api.load_index s (fold_identifier_key table_name) (fold_identifier_key index_name)

  store_new_index :
      CreateIndexRequest
      → List ℕ
      → List ℕ
      → TableInfo
      → api.State × Result ℕ
      → api.State × Result IndexInfo
  store_new_index request table_key index_key table (s, err e) = (s, err e)
  store_new_index request table_key index_key table (s, ok index_id) =
      api.store_index s table_key index_key (record {
        id = index_id;
        name = request.schema.name;
        table_id = table.id;
        schema = request.schema;
        root_page_id = invalid_page_id;
      })

  create_index_checked :
      api.State
      → CreateIndexRequest
      → List ℕ
      → List ℕ
      → TableInfo
      → Status
      → api.State × Result IndexInfo
  create_index_checked s request table_key index_key table (err e) = (s, err e)
  create_index_checked s request table_key index_key table (ok done) =
      store_new_index request table_key index_key table (api.allocate_index_id s)

  create_index_absent :
      api.State
      → CreateIndexRequest
      → List ℕ
      → List ℕ
      → TableInfo
      → Result IndexInfo
      → api.State × Result IndexInfo
  create_index_absent s request table_key index_key table (ok index) = (s, err already_exists)
  create_index_absent s request table_key index_key table (err e) =
      if is_not_found e
      then create_index_checked s request table_key index_key table
          (check_key_columns (length table.schema) [] request.schema.key_columns)
      else (s, err e)

  create_index_on :
      api.State → CreateIndexRequest → List ℕ → Result TableInfo → api.State × Result IndexInfo
  create_index_on s request table_key (err e) = (s, err e)
  create_index_on s request table_key (ok table) =
      let index_key = fold_identifier_key request.schema.name in
      create_index_absent s request table_key index_key table (api.load_index s table_key index_key)

  unfoldable pub create_index : api.State → CreateIndexRequest → api.State × Result IndexInfo
  unfolding create_index_on create_index_absent create_index_checked store_new_index
  create_index s request =
      if is_empty request.table_name
      then (s, err invalid_argument)
      else if is_empty request.schema.name
      then (s, err invalid_argument)
      else if is_empty request.schema.key_columns
      then (s, err invalid_argument)
      else (let table_key = fold_identifier_key request.table_name in
          create_index_on s request table_key (api.load_table s table_key))
