-- ===== src/Binder/Statements.antt =====
-- Statements in src/binder/default_binder.cpp and include/mattsql/binder/bound_statement.hpp, over
-- the catalog that the binder is given.
pub mod Creating
use matt_sql.Prelude.{
  ℕ, ◌+◌, ◌-◌, ◌^◌, Bool, true, false, not, Option, none, some, List, [], ◌∷◌, ◌++◌, length, ltb,
  ◌==◌, if◌then◌else◌,
}
use matt_sql.Common.Status.{Result, ok, err, ◌>>=◌, ◌>>◌, bind_error, type_mismatch, already_exists}
use matt_sql.Common.Types.{
  SqlType, integer_type, text_type, boolean_type, null_type, integer, boolean, ColumnSchema,
  TableSchema,
}
use matt_sql.Prelude.Int.{pos}
use matt_sql.Common.Values.{type_eq}
use matt_sql.Common.Checked.{eq_ℤ}
use matt_sql.Lexer.{fold_identifier_key}
use matt_sql.Catalog.{TableInfo, CreateTableRequest}
use matt_sql.Catalog.Tables.{
  HostedCatalogApi, get_table, is_empty, has_name, is_not_found, invalid_page_id,
}
use matt_sql.Parser.Ast.{
  ExpressionPtr, star_expression, SelectProjection, SelectStatement, InsertStatement, TypeName,
  int_name, text_name, bool_name, ColumnDefinition, CreateTableStatement, Statement, select, insert,
  create,
}
use matt_sql.Binder.Expression.{BoundExpressionPtr, null_pointer, literal}
use matt_sql.Binder.Columns.{make_bound_column}
use matt_sql.Binder.Binding.{is_missing, type_of, is_boolean_integer_literal, bind_expression}

pub record BoundSelectStatement : Type 0 where
  pub projections : List BoundExpressionPtr
  pub projection_names : List (List ℕ)
  pub table : TableInfo
  pub where_clause : BoundExpressionPtr

pub record BoundInsertStatement : Type 0 where
  pub table : TableInfo
  pub values : List BoundExpressionPtr

pub data BoundStatement : Type 0 where
  bound_select : BoundSelectStatement → BoundStatement
  bound_insert : BoundInsertStatement → BoundStatement
  bound_create : CreateTableRequest → BoundStatement

-- `TableInfo{}`
abbrev pub no_table : TableInfo
no_table = record {
  id = 0;
  name = [];
  schema = [];
  heap_root_page_id = invalid_page_id;
  indexes = [];
}

unfoldable pub to_sql_type : TypeName → Result SqlType
to_sql_type int_name = ok integer_type
to_sql_type text_name = ok text_type
to_sql_type bool_name = ok boolean_type

-- The expression afterwards, if it was coerced.
unfoldable pub coerce_boolean_integer_literal : BoundExpressionPtr → Option BoundExpressionPtr
unfolding is_boolean_integer_literal
coerce_boolean_integer_literal (literal type (integer n)) =
    if is_boolean_integer_literal (literal type (integer n))
    then some (literal boolean_type (boolean (eq_ℤ n (pos 1))))
    else none
coerce_boolean_integer_literal _ = none

coerced : Option BoundExpressionPtr → Result BoundExpressionPtr
coerced none = err type_mismatch
coerced (some expression) = ok expression

-- The expression afterwards, or the status.
unfoldable pub coerce_to_column : BoundExpressionPtr → ColumnSchema → Result BoundExpressionPtr
unfolding coerce_boolean_integer_literal coerced type_eq type_of
coerce_to_column expression column =
    if type_eq (type_of expression) null_type
    then (if column.nullable then ok expression else err type_mismatch)
    else if type_eq (type_of expression) column.type
    then ok expression
    else if type_eq column.type boolean_type
    then coerced (coerce_boolean_integer_literal expression)
    else err type_mismatch

-- The loop of `bind_create_table`: `index` columns are done, under the names `column_names`.
unfoldable pub bind_columns : ℕ → List (List ℕ) → List ColumnDefinition → Result TableSchema
unfolding to_sql_type
bind_columns index column_names [] = ok []
bind_columns index column_names (parsed ∷ columns) = do
  (if ltb (2 ^ 32 - 1) index then err bind_error else ok tt)
  (if is_empty parsed.name then err bind_error else ok tt)
  let column_key = fold_identifier_key parsed.name
  (if has_name column_names column_key then err bind_error else ok tt)
  type ← to_sql_type parsed.type
  rest ← bind_columns (index + 1) (column_key ∷ column_names) columns
  ok (record { name = parsed.name; type = type; nullable = true; id = index } ∷ rest)

-- The statement of `bind_create_table`, given what the catalog has under its name.
unfoldable pub bind_absent : CreateTableStatement → Result TableInfo → Result BoundStatement
unfolding bind_columns
bind_absent statement (ok table) = err already_exists
bind_absent statement (err e) =
    if is_not_found e
    then (do
      columns ← bind_columns 0 [] statement.columns
      ok (bound_create (record { name = statement.table_name; schema = columns })))
    else err e

-- The loop of `bind_insert`; there are as many values as columns.
unfoldable pub bind_values : List ExpressionPtr → TableSchema → Result (List BoundExpressionPtr)
unfolding coerce_to_column is_missing
bind_values [] columns = ok []
bind_values (value ∷ values) [] = ok []
bind_values (value ∷ values) (column ∷ columns) = do
  (if is_missing value then err bind_error else ok tt)
  expression ← bind_expression value none
  expression' ← coerce_to_column expression column
  rest ← bind_values values columns
  ok (expression' ∷ rest)

unfoldable pub bind_into : InsertStatement → Result TableInfo → Result BoundStatement
unfolding bind_values
bind_into statement (err e) = err e
bind_into statement (ok table) =
    if not (length statement.values == length table.schema) then err bind_error else do
      values ← bind_values statement.values table.schema
      ok (bound_insert (record { table = table; values = values }))

unfoldable pub is_star : ExpressionPtr → Bool
is_star star_expression = true
is_star _ = false

-- the expansion of a star
unfoldable pub star_columns :
    TableInfo → List ColumnSchema → List BoundExpressionPtr × List (List ℕ)
star_columns table [] = ([], [])
star_columns table (found ∷ columns) =
    let (expressions, names) = star_columns table columns in
    (make_bound_column table found ∷ expressions, found.name ∷ names)

bind_star : Option TableInfo → Result (List BoundExpressionPtr × List (List ℕ))
unfolding star_columns
bind_star none = err bind_error
bind_star (some table) = ok (star_columns table table.schema)

-- the body of the loop over the projections
unfoldable pub bind_projection :
    SelectProjection → Option TableInfo → Result (List BoundExpressionPtr × List (List ℕ))
unfolding is_missing is_star bind_star
bind_projection projection table =
    if is_missing projection.expression
    then err bind_error
    else if is_star projection.expression
    then bind_star table
    else do
      expression ← bind_expression projection.expression table
      ok (expression ∷ [], projection.alias ∷ [])

unfoldable pub bind_projections :
    List SelectProjection → Option TableInfo → Result (List BoundExpressionPtr × List (List ℕ))
unfolding bind_projection
bind_projections [] table = ok ([], [])
bind_projections (projection ∷ projections) table = do
  (expressions, names) ← bind_projection projection table
  (rest, rest_names) ← bind_projections projections table
  ok (expressions ++ rest, names ++ rest_names)

-- The WHERE predicate; without one it stays the null pointer.
unfoldable pub bind_where : ExpressionPtr → Option TableInfo → Result BoundExpressionPtr
unfolding is_missing type_eq type_of
bind_where predicate table = if is_missing predicate then ok null_pointer else do
  bound ← bind_expression predicate table
  (if not (type_eq (type_of bound) boolean_type) then err type_mismatch else ok tt)
  ok bound

-- `bound->table`
abbrev pub table_or_none : Option TableInfo → TableInfo
table_or_none none = no_table
table_or_none (some table) = table

module _ (api : HostedCatalogApi) where
  unfoldable pub bind_create_table : api.State → CreateTableStatement → Result BoundStatement
  unfolding bind_absent
  bind_create_table s statement =
      if is_empty statement.table_name
      then err bind_error
      else if is_empty statement.columns
      then err bind_error
      else bind_absent statement (get_table api s statement.table_name)

  unfoldable pub bind_insert : api.State → InsertStatement → Result BoundStatement
  unfolding bind_into
  bind_insert s statement = bind_into statement (get_table api s statement.table_name)

  -- The table of FROM, if there is one.
  unfoldable pub resolve_from : api.State → List ℕ → Result (Option TableInfo)
  resolve_from s table_name =
      if is_empty table_name
      then ok none
      else do table ← get_table api s table_name; ok (some table)

  unfoldable pub bind_select : api.State → SelectStatement → Result BoundStatement
  unfolding resolve_from bind_projections bind_where
  bind_select s statement = do
    table ← resolve_from s statement.table_name
    (projections, names) ← bind_projections statement.projections table
    predicate ← bind_where statement.where_clause table
    ok (
        bound_select (record {
          projections = projections;
          projection_names = names;
          table = table_or_none table;
          where_clause = predicate;
        }))

  unfoldable pub bind : api.State → Statement → Result BoundStatement
  unfolding bind_create_table bind_insert bind_select
  bind s (select statement) = bind_select s statement
  bind s (insert statement) = bind_insert s statement
  bind s (create statement) = bind_create_table s statement
