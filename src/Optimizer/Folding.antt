-- ===== src/Optimizer/Folding.antt =====
-- Constant folding of expressions in src/optimizer/default_optimizer.cpp.
pub mod Meaning
mod Examples
use matt_sql.Prelude.{
  ℕ, Bool, true, false, not, ◌||◌, ◌&&◌, Option, none, some, List, [], ◌∷◌, if◌then◌else◌,
}
use matt_sql.Prelude.Int.{ℤ}
use matt_sql.Common.Status.{Result, ok, err, ◌>>=◌, plan_error}
use matt_sql.Common.Types.{Value, null, integer, boolean, text}
use matt_sql.Common.Values.{is_null, compare_values}
use matt_sql.Common.Checked.{
  checked_integer_negate, checked_integer_add, checked_integer_subtract, checked_integer_multiply,
  checked_integer_divide,
}
use matt_sql.Binder.Expression.{
  BoundExpressionPtr, null_pointer, literal, column, unary, binary, star, is_null_pointer,
  UnaryOperator, plus, minus, logical_not, BinaryOperator, add, subtract, multiply, divide, equal,
  not_equal, less, less_equal, greater, greater_equal, logical_and, logical_or, make_bound_literal,
  bound_literal_value, transform_bound_expression,
}
use matt_sql.Execution.Evaluator.{is_zero, is_negative, is_positive}

-- The value of a result that is ok.
integer_if_ok : Result ℤ → Option Value
integer_if_ok (ok n) = some (integer n)
integer_if_ok (err e) = none

test_if_ok : (ℤ → Bool) → Result ℤ → Option Value
test_if_ok test (ok c) = some (boolean (test c))
test_if_ok test (err e) = none

unfoldable pub fold_unary : UnaryOperator → Value → Option Value
unfolding integer_if_ok
fold_unary plus (integer n) = some (integer n)
fold_unary minus (integer n) = integer_if_ok (checked_integer_negate n)
fold_unary logical_not (boolean b) = some (boolean (not b))
fold_unary _ _ = none

unfoldable pub fold_integers : BinaryOperator → ℤ → ℤ → Option Value
unfolding integer_if_ok
fold_integers add a b = integer_if_ok (checked_integer_add a b)
fold_integers subtract a b = integer_if_ok (checked_integer_subtract a b)
fold_integers multiply a b = integer_if_ok (checked_integer_multiply a b)
fold_integers divide a b = integer_if_ok (checked_integer_divide a b)
fold_integers _ a b = none

unfoldable pub fold_arithmetic : BinaryOperator → Value → Value → Option Value
unfolding fold_integers
fold_arithmetic op (integer a) (integer b) = fold_integers op a b
fold_arithmetic op _ _ = none

fold_equality : (ℤ → Bool) → Value → Value → Option Value
unfolding test_if_ok
fold_equality test left right =
    if is_null left || is_null right
    then some (boolean false)
    else test_if_ok test (compare_values left right)

unfoldable pub fold_comparison : BinaryOperator → Value → Value → Option Value
unfolding fold_equality test_if_ok
fold_comparison equal left right = fold_equality is_zero left right
fold_comparison not_equal left right = fold_equality (λ c. not (is_zero c)) left right
fold_comparison less left right = test_if_ok is_negative (compare_values left right)
fold_comparison less_equal left right =
    test_if_ok (λ c. not (is_positive c)) (compare_values left right)
fold_comparison greater left right = test_if_ok is_positive (compare_values left right)
fold_comparison greater_equal left right =
    test_if_ok (λ c. not (is_negative c)) (compare_values left right)
fold_comparison _ left right = none

unfoldable pub fold_boolean : BinaryOperator → Value → Value → Option Value
fold_boolean logical_and (boolean a) (boolean b) = some (boolean (a && b))
fold_boolean logical_or (boolean a) (boolean b) = some (boolean (a || b))
fold_boolean _ _ _ = none

abbrev or_else : Option Value → Option Value → Option Value
or_else (some value) other = some value
or_else none other = other

unfoldable pub fold_binary : BinaryOperator → Value → Value → Option Value
unfolding fold_arithmetic fold_comparison fold_boolean
fold_binary op left right =
    or_else (fold_arithmetic op left right)
      (or_else (fold_comparison op left right) (fold_boolean op left right))

-- The literal in the place of `expression`, if there is a folded value.
replace_by : Option Value → BoundExpressionPtr → BoundExpressionPtr
replace_by none expression = expression
replace_by (some value) expression = make_bound_literal value

fold_operand : UnaryOperator → Option Value → Option Value
fold_operand op none = none
fold_operand op (some value) = fold_unary op value

fold_operands : BinaryOperator → Option Value → Option Value → Option Value
fold_operands op (some left) (some right) = fold_binary op left right
fold_operands op _ _ = none

unfoldable pub fold_current_expression : BoundExpressionPtr → Result BoundExpressionPtr
unfolding replace_by fold_operand fold_operands bound_literal_value make_bound_literal
    is_null_pointer
fold_current_expression (unary type op operand) =
    if is_null_pointer operand
    then err plan_error
    else ok (replace_by (fold_operand op (bound_literal_value operand)) (unary type op operand))
fold_current_expression (binary type left op right) =
    if is_null_pointer left || is_null_pointer right
    then err plan_error
    else ok (
        replace_by (fold_operands op (bound_literal_value left) (bound_literal_value right))
          (binary type left op right))
fold_current_expression (literal type value) = ok (literal type value)
fold_current_expression (column type table_id column_id table_name column_name) =
    ok (column type table_id column_id table_name column_name)
fold_current_expression (star type) = ok (star type)
fold_current_expression null_pointer = err plan_error

unfoldable pub fold_expression : BoundExpressionPtr → Result BoundExpressionPtr
unfolding fold_current_expression transform_bound_expression
fold_expression expression = transform_bound_expression fold_current_expression expression
