-- ===== src/Binder/Examples.antt =====
-- The theorems on the binder of statements, at small statements.
use matt_sql.Prelude.{◌≡◌, refl, true, [], ◌∷◌, arith}
use matt_sql.Common.Status.{ok}
use matt_sql.Common.Types.{integer_type, text_type}
use matt_sql.Common.Maps.{find}
use matt_sql.Lexer.{codes, fold_identifier_key}
use matt_sql.Catalog.{TableInfo, CreateTableRequest}
use matt_sql.Catalog.Hosted.{Hosted, load_table, table_or_not_found}
use matt_sql.Catalog.Tables.{in_memory_api, get_table, create_table}
use matt_sql.Parser.Ast.{CreateTableStatement, int_name, text_name}
use matt_sql.Binder.Statements.{
  bound_create, bind_columns, bind_absent, bind_create_table, to_sql_type,
}
use matt_sql.Binder.Statements.Creating.{new_table, bind_create_table-create_table}

abbrev users : CreateTableStatement
users = record {
  table_name = codes "users";
  columns =
      record { name = codes "id"; type = int_name }
      ∷ record { name = codes "Name"; type = text_name }
      ∷ [];
}

abbrev users_request : CreateTableRequest
users_request = record {
  name = codes "users";
  schema =
      record { name = codes "id"; type = integer_type; nullable = true; id = 0 }
      ∷ record { name = codes "Name"; type = text_type; nullable = true; id = 1 }
      ∷ [];
}

abbrev orders_table : TableInfo
orders_table = record {
  id = 1;
  name = codes "orders";
  schema = record { name = codes "id"; type = integer_type; nullable = true; id = 0 } ∷ [];
  heap_root_page_id = 1;
  indexes = [];
}

abbrev with_orders : Hosted
with_orders = record {
  next_table_id = 2;
  next_index_id = 1;
  tables_by_name = (codes "orders", orders_table) ∷ [];
  table_names_by_id = (1, codes "orders") ∷ [];
  index_keys_by_id = [];
  indexes_by_table_name = [];
}

users_bound : bind_create_table in_memory_api with_orders users ≡ ok (bound_create users_request)
unfolding bind_create_table bind_absent bind_columns to_sql_type get_table load_table
    table_or_not_found find fold_identifier_key
users_bound = refl

bind_create_table-create_table_example :
    (create_table in_memory_api with_orders users_request).1
    ≡ ok (new_table with_orders users_request)
bind_create_table-create_table_example =
    bind_create_table-create_table with_orders users (omega arith) users_bound
