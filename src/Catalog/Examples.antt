-- ===== src/Catalog/Examples.antt =====
-- Runs of the catalog in memory, and the theorems on it at them.
use matt_sql.Prelude.{ℕ, ◌≡◌, refl, List, [], ◌∷◌, false, arith, some}
use matt_sql.Common.Status.{ok, err, ◌>>=◌, not_found, already_exists}
use matt_sql.Common.Types.{ColumnSchema, integer_type}
use matt_sql.Common.Values.{type_eq}
use matt_sql.Common.Maps.{find}
use matt_sql.Lexer.{codes, fold_identifier_key, text_eq}
use matt_sql.Catalog.{TableInfo, CreateTableRequest}
use matt_sql.Catalog.Hosted.{
  Hosted, new_hosted, allocate_table_id, store_table, load_table, table_or_not_found,
}
use matt_sql.Catalog.Tables.{
  in_memory_api, check_columns, validate_column, create_table, create_absent, create_checked,
  store_new, drop_table, get_table, get_table_by_id,
}
use matt_sql.Catalog.Contents.{in_memory_api-StoresTables}
use matt_sql.Catalog.Creation.{get_table-create_table_self}
use matt_sql.Catalog.InMemory.{
  get_table-create_table_other, get_table-drop_table_self, get_table-drop_table_other,
}
use matt_sql.Catalog.Identity.{
  HasFreshId, failed_create_table, get_table_by_id-create_table, create_table-HasFreshId,
}

abbrev column_of : List ℕ → ℕ → ColumnSchema
column_of name id = record { name = name; type = integer_type; nullable = false; id = id }

abbrev users : CreateTableRequest
users = record { name = codes "Users"; schema = column_of (codes "id") 9 ∷ [] }

abbrev users_table : TableInfo
users_table = record {
  id = 1;
  name = codes "Users";
  schema = column_of (codes "id") 0 ∷ [];
  heap_root_page_id = 18446744073709551615;
  indexes = [];
}

abbrev with_users : Hosted
with_users = record {
  next_table_id = 2;
  next_index_id = 1;
  tables_by_name = (codes "users", users_table) ∷ [];
  table_names_by_id = (1, codes "users") ∷ [];
  index_keys_by_id = [];
  indexes_by_table_name = [];
}

-- two columns with one name in different cases
abbrev twice : CreateTableRequest
twice = record { name = codes "t"; schema = column_of (codes "a") 0 ∷ column_of (codes "A") 0 ∷ [] }

users_run : create_table in_memory_api new_hosted users ≡ (with_users, ok users_table)
unfolding create_table create_absent create_checked store_new check_columns validate_column type_eq
    allocate_table_id store_table load_table table_or_not_found find fold_identifier_key
users_run = refl

twice_run : create_table in_memory_api with_users twice ≡ (with_users, err already_exists)
unfolding create_table create_absent create_checked store_new check_columns validate_column type_eq
    allocate_table_id store_table load_table table_or_not_found find fold_identifier_key
twice_run = refl

other_name : text_eq (fold_identifier_key (codes "Users")) (fold_identifier_key (codes "t")) ≡ false
unfolding fold_identifier_key
other_name = refl

same_name : fold_identifier_key (codes "USERS") ≡ fold_identifier_key (codes "Users")
unfolding fold_identifier_key
same_name = refl

get_table-create_table_self_example :
    (get_table in_memory_api with_users (codes "USERS") ≡ ok users_table)
    × (users_table.name ≡ users.name)
    × (check_columns 0 [] users.schema ≡ ok users_table.schema)
get_table-create_table_self_example =
    get_table-create_table_self in_memory_api in_memory_api-StoresTables new_hosted users
      (codes "USERS") users_run same_name

get_table-create_table_other_example :
    get_table in_memory_api (create_table in_memory_api new_hosted users).0 (codes "t")
    ≡ get_table in_memory_api new_hosted (codes "t")
get_table-create_table_other_example =
    get_table-create_table_other new_hosted users (codes "t") other_name

get_table-drop_table_self_example :
    (get_table in_memory_api (drop_table in_memory_api with_users (codes "Users")).0 (codes "USERS")
      ≡ err not_found)
    × ((drop_table in_memory_api with_users (codes "Users")).1
        ≡ (get_table in_memory_api with_users (codes "Users") >>= λ table. ok tt))
get_table-drop_table_self_example =
    get_table-drop_table_self with_users (codes "Users") (codes "USERS") same_name

get_table-drop_table_other_example :
    get_table in_memory_api (drop_table in_memory_api with_users (codes "Users")).0 (codes "t")
    ≡ get_table in_memory_api with_users (codes "t")
get_table-drop_table_other_example =
    get_table-drop_table_other with_users (codes "Users") (codes "t") other_name

failed_create_table_example : with_users ≡ with_users
failed_create_table_example = failed_create_table with_users twice (omega arith) twice_run

get_table_by_id-create_table_example :
    get_table_by_id in_memory_api with_users 1 ≡ some (ok users_table)
get_table_by_id-create_table_example = get_table_by_id-create_table new_hosted users users_run

create_table-HasFreshId_example : HasFreshId (create_table in_memory_api with_users twice).0
create_table-HasFreshId_example =
    create_table-HasFreshId with_users twice (omega arith) (omega arith)
