-- ===== src/Binder/Expression.antt =====
-- include/mattsql/binder/bound_expression.hpp and src/binder/expression_utils.cpp.
pub mod Traversal
use matt_sql.Prelude.{
  ℕ, Bool, true, false, ◌||◌, Option, none, some, List, [], ◌∷◌, ◌++◌, if◌then◌else◌,
}
pub use matt_sql.Parser.Ast.{
  UnaryOperator, plus, minus, logical_not, BinaryOperator, add, subtract, multiply, divide, equal,
  not_equal, less, less_equal, greater, greater_equal, logical_and, logical_or,
}
use matt_sql.Common.Status.{Result, ok, err, Status, ◌>>=◌, ◌>>◌, plan_error}
use matt_sql.Common.Types.{SqlType, Value, ColumnSchema, TableSchema}
use matt_sql.Common.Values.{value_type_of}

-- A `BoundExpressionPtr`: the null pointer, or a node of one of the classes. The first argument of a
-- node is its `type`. A column has its table's and its own id and name.
pub data BoundExpressionPtr : Type 0 where
  null_pointer : BoundExpressionPtr
  literal : SqlType → Value → BoundExpressionPtr
  column : SqlType → ℕ → ℕ → List ℕ → List ℕ → BoundExpressionPtr
  unary : SqlType → UnaryOperator → BoundExpressionPtr → BoundExpressionPtr
  binary : SqlType → BoundExpressionPtr → BinaryOperator → BoundExpressionPtr → BoundExpressionPtr
  star : SqlType → BoundExpressionPtr

-- `== nullptr`
unfoldable pub is_null_pointer : BoundExpressionPtr → Bool
is_null_pointer null_pointer = true
is_null_pointer _ = false

unfoldable pub make_bound_literal : Value → BoundExpressionPtr
make_bound_literal value = literal (value_type_of value) value

unfoldable pub bound_literal_value : BoundExpressionPtr → Option Value
bound_literal_value (literal type value) = some value
bound_literal_value _ = none

-- The references of the source are non-null pointers here: the callers make the test.
unfoldable pub clone_bound_expression : BoundExpressionPtr → Result BoundExpressionPtr
unfolding is_null_pointer
clone_bound_expression null_pointer = err plan_error
clone_bound_expression (literal type value) = ok (literal type value)
clone_bound_expression (column type table_id column_id table_name column_name) =
    ok (column type table_id column_id table_name column_name)
clone_bound_expression (unary type op operand) =
    let cloned = clone_bound_expression operand in
    if is_null_pointer operand
    then err plan_error
    else do operand' ← cloned; ok (unary type op operand')
clone_bound_expression (binary type left op right) =
    let cloned_left = clone_bound_expression left in
    let cloned_right = clone_bound_expression right in
    if is_null_pointer left || is_null_pointer right
    then err plan_error
    else do left' ← cloned_left; right' ← cloned_right; ok (binary type left' op right')
clone_bound_expression (star type) = err plan_error

clone_nonnull : Bool → Result BoundExpressionPtr → Result BoundExpressionPtr
clone_nonnull true clone = err plan_error
clone_nonnull false clone = clone

unfoldable pub clone_bound_expressions : List BoundExpressionPtr → Result (List BoundExpressionPtr)
unfolding clone_bound_expression clone_nonnull is_null_pointer
clone_bound_expressions [] = ok []
clone_bound_expressions (expression ∷ expressions) = do
  clone ← clone_nonnull (is_null_pointer expression) (clone_bound_expression expression)
  clones ← clone_bound_expressions expressions
  ok (clone ∷ clones)

unfoldable pub clone_bound_expression_rows :
    List (List BoundExpressionPtr) → Result (List (List BoundExpressionPtr))
unfolding clone_bound_expressions
clone_bound_expression_rows [] = ok []
clone_bound_expression_rows (row ∷ rows) = do
  clone ← clone_bound_expressions row
  clones ← clone_bound_expression_rows rows
  ok (clone ∷ clones)

unfoldable pub walk_bound_expression : (BoundExpressionPtr → Status) → BoundExpressionPtr → Status
unfolding is_null_pointer
walk_bound_expression visitor null_pointer = visitor null_pointer >> err plan_error
walk_bound_expression visitor (literal type value) = visitor (literal type value) >> ok tt
walk_bound_expression visitor (column type table_id column_id table_name column_name) =
    visitor (column type table_id column_id table_name column_name) >> ok tt
walk_bound_expression visitor (star type) = visitor (star type) >> ok tt
walk_bound_expression visitor (unary type op operand) =
    let walked = walk_bound_expression visitor operand in
    visitor (unary type op operand) >> (if is_null_pointer operand then err plan_error else walked)
walk_bound_expression visitor (binary type left op right) =
    let walked_left = walk_bound_expression visitor left in
    let walked_right = walk_bound_expression visitor right in
    visitor (binary type left op right)
    >> (if is_null_pointer left || is_null_pointer right
        then err plan_error
        else walked_left >> walked_right)

unfoldable pub transform_bound_expression :
    (BoundExpressionPtr → Result BoundExpressionPtr)
    → BoundExpressionPtr
    → Result BoundExpressionPtr
transform_bound_expression transform null_pointer = err plan_error
transform_bound_expression transform (star type) = err plan_error
transform_bound_expression transform (unary type op operand) = do
  operand' ← transform_bound_expression transform operand
  transform (unary type op operand')
transform_bound_expression transform (binary type left op right) = do
  left' ← transform_bound_expression transform left
  right' ← transform_bound_expression transform right
  transform (binary type left' op right')
transform_bound_expression transform (literal type value) = transform (literal type value)
transform_bound_expression transform (column type table_id column_id table_name column_name) =
    transform (column type table_id column_id table_name column_name)

-- the visitor of `ValidateNoColumnReferences`
unfoldable pub no_column : BoundExpressionPtr → Status
no_column (column type table_id column_id table_name column_name) = err plan_error
no_column (star type) = err plan_error
no_column _ = ok tt

unfoldable pub validate_no_column_references : BoundExpressionPtr → Status
unfolding walk_bound_expression no_column
validate_no_column_references expression = walk_bound_expression no_column expression

-- `ValidateNoColumnReferences` of a list
unfoldable pub validate_all_no_column_references : List BoundExpressionPtr → Status
unfolding validate_no_column_references is_null_pointer
validate_all_no_column_references [] = ok tt
validate_all_no_column_references (expression ∷ expressions) = do
  (if is_null_pointer expression then err plan_error else ok tt)
  validate_no_column_references expression
  validate_all_no_column_references expressions
