-- ===== src/Binder/Columns.antt =====
-- Column names in src/binder/default_binder.cpp, and `MakeBoundColumn` of
-- src/binder/expression_utils.cpp.
use matt_sql.Prelude.{
  ℕ, ◌+◌, not, ◌&&◌, ◌||◌, Option, none, some, List, [], ◌∷◌, length, take, drop, ◌==◌,
  if◌then◌else◌,
}
use matt_sql.Common.Status.{Result, ok, err, ◌>>=◌, ◌>>◌, bind_error}
use matt_sql.Common.Maps.{is_found}
use matt_sql.Common.Types.{ColumnSchema, TableSchema}
use matt_sql.Lexer.{fold_identifier_key, text_eq}
use matt_sql.Catalog.{TableInfo}
use matt_sql.Catalog.Tables.{is_empty}
use matt_sql.Binder.Expression.{BoundExpressionPtr, column}

pub record ColumnNameParts : Type 0 where
  pub qualifier : List ℕ
  pub column_name : List ℕ

one_later : Option ℕ → Option ℕ
one_later none = none
one_later (some index) = some (index + 1)

-- `find` of a `std::string_view`
unfoldable pub find_character : ℕ → List ℕ → Option ℕ
unfolding one_later
find_character character [] = none
find_character character (c ∷ text) =
    let rest = one_later (find_character character text) in if c == character then some 0 else rest

unfoldable pub split_at_dot : List ℕ → Option ℕ → Result ColumnNameParts
unfolding find_character
split_at_dot name none = ok (record { qualifier = []; column_name = name })
split_at_dot name (some dot) =
    if dot == 0 || dot + 1 == length name || is_found (find_character b'.' (drop (dot + 1) name))
    then err bind_error
    else ok (record { qualifier = take dot name; column_name = drop (dot + 1) name })

unfoldable pub split_column_name : List ℕ → Result ColumnNameParts
unfolding split_at_dot find_character
split_column_name name =
    if is_empty name then err bind_error else split_at_dot name (find_character b'.' name)

-- the loop over the columns of the table
unfoldable pub find_column : List ℕ → TableSchema → Result ColumnSchema
find_column lookup_name [] = err bind_error
find_column lookup_name (found ∷ columns) =
    let rest = find_column lookup_name columns in
    if text_eq (fold_identifier_key found.name) lookup_name then ok found else rest

unfoldable pub resolve_column : TableInfo → List ℕ → Result ColumnSchema
unfolding split_column_name find_column
resolve_column table name = do
  parts ← split_column_name name
  (if not (is_empty parts.qualifier)
        && not (text_eq (fold_identifier_key parts.qualifier) (fold_identifier_key table.name))
      then err bind_error
      else ok tt)
  find_column (fold_identifier_key parts.column_name) table.schema

unfoldable pub make_bound_column : TableInfo → ColumnSchema → BoundExpressionPtr
make_bound_column table schema = column schema.type table.id schema.id table.name schema.name
