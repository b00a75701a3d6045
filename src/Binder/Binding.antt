-- ===== src/Binder/Binding.antt =====
-- Expressions in src/binder/default_binder.cpp. Binding changes nothing, so the results of both
-- operands are handed over where the source binds the right one only if the left one is bound.
use matt_sql.Prelude.{ℕ, Bool, true, false, ◌&&◌, ◌||◌, Option, none, some, List, if◌then◌else◌}
use matt_sql.Prelude.Int.{pos}
use matt_sql.Common.Status.{Result, ok, err, ◌>>=◌, bind_error, type_mismatch}
use matt_sql.Common.Types.{
  SqlType, integer_type, text_type, boolean_type, null_type, Value, null, integer, boolean, text,
}
use matt_sql.Common.Values.{type_eq}
use matt_sql.Common.Checked.{eq_ℤ}
use matt_sql.Catalog.{TableInfo}
use matt_sql.Parser.Ast.{
  ExpressionPtr, null_expression, integer_literal, string_literal, boolean_literal, null_literal,
  column_ref, unary_expression, binary_expression, star_expression,
}
use matt_sql.Binder.Expression.{
  BoundExpressionPtr, null_pointer, literal, column, unary, binary, star, UnaryOperator, plus,
  minus, logical_not, BinaryOperator, add, subtract, multiply, divide, equal, not_equal, less,
  less_equal, greater, greater_equal, logical_and, logical_or,
}
use matt_sql.Binder.Columns.{resolve_column, make_bound_column}

-- `->type`; what is bound is not a null pointer.
unfoldable pub type_of : BoundExpressionPtr → SqlType
type_of null_pointer = null_type
type_of (literal type value) = type
type_of (column type table_id column_id table_name column_name) = type
type_of (unary type op operand) = type
type_of (binary type left op right) = type
type_of (star type) = type

-- `== nullptr`
unfoldable pub is_missing : ExpressionPtr → Bool
is_missing null_expression = true
is_missing _ = false

-- `MakeBoundLiteral` of a value and its type
unfoldable pub make_typed_literal : Value → SqlType → BoundExpressionPtr
make_typed_literal value type = literal type value

abbrev is_zero_or_one : Value → Bool
is_zero_or_one (integer n) = eq_ℤ n (pos 0) || eq_ℤ n (pos 1)
is_zero_or_one _ = false

unfoldable pub is_boolean_integer_literal : BoundExpressionPtr → Bool
unfolding type_eq
is_boolean_integer_literal (literal type value) = type_eq type integer_type && is_zero_or_one value
is_boolean_integer_literal _ = false

unfoldable pub equality_comparable : BoundExpressionPtr → BoundExpressionPtr → Bool
unfolding type_eq type_of is_boolean_integer_literal
equality_comparable left right =
    if type_eq (type_of left) null_type || type_eq (type_of right) null_type
    then true
    else if type_eq (type_of left) (type_of right)
    then true
    else if type_eq (type_of left) boolean_type && is_boolean_integer_literal right
    then true
    else type_eq (type_of right) boolean_type && is_boolean_integer_literal left

unfoldable pub ordering_comparable : SqlType → SqlType → Bool
unfolding type_eq
ordering_comparable left right =
    if type_eq left right then type_eq left integer_type || type_eq left text_type else false

unfoldable pub is_arithmetic : BinaryOperator → Bool
is_arithmetic add = true
is_arithmetic subtract = true
is_arithmetic multiply = true
is_arithmetic divide = true
is_arithmetic _ = false

unfoldable pub is_equality_comparison : BinaryOperator → Bool
is_equality_comparison equal = true
is_equality_comparison not_equal = true
is_equality_comparison _ = false

unfoldable pub is_ordering_comparison : BinaryOperator → Bool
is_ordering_comparison less = true
is_ordering_comparison less_equal = true
is_ordering_comparison greater = true
is_ordering_comparison greater_equal = true
is_ordering_comparison _ = false

unfoldable pub is_boolean_operator : BinaryOperator → Bool
is_boolean_operator logical_and = true
is_boolean_operator logical_or = true
is_boolean_operator _ = false

abbrev pub require : Bool → SqlType → Result SqlType
require true type = ok type
require false type = err type_mismatch

-- the switch of `bind_unary`
unfoldable pub unary_result_type : UnaryOperator → SqlType → Result SqlType
unfolding type_eq
unary_result_type plus operand = require (type_eq operand integer_type) integer_type
unary_result_type minus operand = require (type_eq operand integer_type) integer_type
unary_result_type logical_not operand = require (type_eq operand boolean_type) boolean_type

-- the chain of conditions in `bind_binary`
unfoldable pub binary_result_type :
    BinaryOperator → BoundExpressionPtr → BoundExpressionPtr → Result SqlType
unfolding type_eq type_of is_arithmetic is_boolean_operator is_equality_comparison
    is_ordering_comparison equality_comparable ordering_comparable
binary_result_type op left right =
    if is_arithmetic op
    then require (type_eq (type_of left) integer_type && type_eq (type_of right) integer_type)
        integer_type
    else if is_boolean_operator op
    then require (type_eq (type_of left) boolean_type && type_eq (type_of right) boolean_type)
        boolean_type
    else if is_equality_comparison op
    then require (equality_comparable left right) boolean_type
    else if is_ordering_comparison op
    then require (ordering_comparable (type_of left) (type_of right)) boolean_type
    else ok null_type

unfoldable pub bind_column : List ℕ → Option TableInfo → Result BoundExpressionPtr
unfolding make_bound_column
bind_column name none = err bind_error
bind_column name (some table) = do
  resolved ← resolve_column table name
  ok (make_bound_column table resolved)

unfoldable pub bind_unary :
    UnaryOperator → Bool → Result BoundExpressionPtr → Result BoundExpressionPtr
unfolding unary_result_type type_of
bind_unary op missing bound_operand = if missing then err bind_error else do
  operand ← bound_operand
  result_type ← unary_result_type op (type_of operand)
  ok (unary result_type op operand)

unfoldable pub bind_binary :
    BinaryOperator
    → Bool
    → Result BoundExpressionPtr
    → Result BoundExpressionPtr
    → Result BoundExpressionPtr
unfolding binary_result_type
bind_binary op missing bound_left bound_right = if missing then err bind_error else do
  left ← bound_left
  right ← bound_right
  result_type ← binary_result_type op left right
  ok (binary result_type left op right)

-- The references of the source are non-null pointers here: the callers make the test.
unfoldable pub bind_expression : ExpressionPtr → Option TableInfo → Result BoundExpressionPtr
unfolding make_typed_literal bind_column bind_unary bind_binary is_missing
bind_expression null_expression table = err bind_error
bind_expression (integer_literal n) table = ok (make_typed_literal (integer n) integer_type)
bind_expression (string_literal t) table = ok (make_typed_literal (text t) text_type)
bind_expression (boolean_literal b) table = ok (make_typed_literal (boolean b) boolean_type)
bind_expression null_literal table = ok (make_typed_literal null null_type)
bind_expression (column_ref name) table = bind_column name table
bind_expression (unary_expression op operand) table =
    bind_unary op (is_missing operand) (bind_expression operand table)
bind_expression (binary_expression left op right) table =
    bind_binary op (is_missing left || is_missing right) (bind_expression left table)
      (bind_expression right table)
bind_expression star_expression table = err bind_error
