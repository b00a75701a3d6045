-- ===== src/Execution/Evaluator.antt =====
-- src/execution/expression_evaluator.cpp. Evaluation changes nothing, so both operands' results are
-- handed over where the source evaluates the right one only if it is needed.
pub mod Typed
pub mod Overflow
pub mod Operators
pub mod Safety
pub mod Scalar
mod Examples
use matt_sql.Prelude.{
  ℕ, Bool, true, false, not, ◌||◌, Option, none, some, List, [], ◌∷◌, ◌++◌, length, get_elem?, leb,
  if◌then◌else◌,
}
use matt_sql.Prelude.{zero, suc, ◌+◌, ◌/◌, ◌%◌, ltb}
use matt_sql.Lexer.{codes}
use matt_sql.Prelude.Int.{ℤ, pos, ltb_ℤ}
use matt_sql.Common.Status.{Result, ok, err, ◌>>=◌, execution_error}
use matt_sql.Common.Types.{Value, null, integer, boolean, text, TableSchema}
use matt_sql.Common.Values.{is_null, require_integer, require_boolean, compare_values}
use matt_sql.Common.Checked.{
  eq_ℤ, checked_integer_negate, checked_integer_add, checked_integer_subtract,
  checked_integer_multiply, checked_integer_divide,
}
use matt_sql.Binder.Expression.{
  BoundExpressionPtr, null_pointer, literal, column, unary, binary, star, is_null_pointer,
  UnaryOperator, plus, minus, logical_not, BinaryOperator, add, subtract, multiply, divide, equal,
  not_equal, less, less_equal, greater, greater_equal, logical_and, logical_or,
}

-- Both pointers may be null.
pub record EvaluationContext : Type 0 where
  pub schema : Option TableSchema
  pub row : Option (List Value)

value_at : Option Value → Result Value
value_at none = err execution_error
value_at (some value) = ok value

unfoldable pub evaluate_column : ℕ → Option TableSchema → Option (List Value) → Result Value
unfolding value_at
evaluate_column column_id none row = err execution_error
evaluate_column column_id (some schema) none = err execution_error
evaluate_column column_id (some schema) (some row) =
    if leb (length row) column_id || leb (length schema) column_id
    then err execution_error
    else value_at (get_elem? row column_id)

-- the switch of `evaluate_unary`, on the operand's value
unfoldable pub apply_unary : UnaryOperator → Value → Result Value
apply_unary plus value = do n ← require_integer value; ok (integer n)
apply_unary minus value = do
  n ← require_integer value
  negated ← checked_integer_negate n
  ok (integer negated)
apply_unary logical_not value = do b ← require_boolean value; ok (boolean (not b))

unfoldable pub evaluate_unary : UnaryOperator → Bool → Result Value → Result Value
evaluate_unary op missing operand =
    if missing then err execution_error else operand >>= apply_unary op

-- `RequireBoolean` of an operand's value, as the result
boolean_operand : Result Value → Result Value
boolean_operand operand = do value ← operand; b ← require_boolean value; ok (boolean b)

unfoldable pub evaluate_logical_and : Result Value → Result Value → Result Value
unfolding boolean_operand
evaluate_logical_and left right = do
  left_value ← left
  left_boolean ← require_boolean left_value
  (if not left_boolean then ok (boolean false) else boolean_operand right)

unfoldable pub evaluate_logical_or : Result Value → Result Value → Result Value
unfolding boolean_operand
evaluate_logical_or left right = do
  left_value ← left
  left_boolean ← require_boolean left_value
  (if left_boolean then ok (boolean true) else boolean_operand right)

-- the cases of the arithmetic operators
unfoldable pub arithmetic : (ℤ → ℤ → Result ℤ) → Value → Value → Result Value
arithmetic operation left right = do
  a ← require_integer left
  b ← require_integer right
  n ← operation a b
  ok (integer n)

-- the cases of `=` and `<>`
unfoldable pub equality : (ℤ → Bool) → Value → Value → Result Value
equality test left right =
    if is_null left || is_null right
    then ok (boolean false)
    else do comparison ← compare_values left right; ok (boolean (test comparison))

-- the cases of the orders
unfoldable pub ordering : (ℤ → Bool) → Value → Value → Result Value
ordering test left right = do comparison ← compare_values left right; ok (boolean (test comparison))

-- the tests on the result of a comparison
abbrev pub is_zero : ℤ → Bool
is_zero c = eq_ℤ c (pos 0)

abbrev pub is_negative : ℤ → Bool
is_negative c = ltb_ℤ c (pos 0)

abbrev pub is_positive : ℤ → Bool
is_positive c = ltb_ℤ (pos 0) c

-- the switch of `evaluate_binary`, on the operands' values
unfoldable pub apply_binary : BinaryOperator → Value → Value → Result Value
unfolding arithmetic equality ordering
apply_binary add left right = arithmetic checked_integer_add left right
apply_binary subtract left right = arithmetic checked_integer_subtract left right
apply_binary multiply left right = arithmetic checked_integer_multiply left right
apply_binary divide left right = arithmetic checked_integer_divide left right
apply_binary equal left right = equality is_zero left right
apply_binary not_equal left right = equality (λ c. not (is_zero c)) left right
apply_binary less left right = ordering is_negative left right
apply_binary less_equal left right = ordering (λ c. not (is_positive c)) left right
apply_binary greater left right = ordering is_positive left right
apply_binary greater_equal left right = ordering (λ c. not (is_negative c)) left right
apply_binary logical_and left right = err execution_error
apply_binary logical_or left right = err execution_error

dispatch_binary : BinaryOperator → Result Value → Result Value → Result Value
dispatch_binary logical_and left right = evaluate_logical_and left right
dispatch_binary logical_or left right = evaluate_logical_or left right
dispatch_binary op left right = do
  left_value ← left
  right_value ← right
  apply_binary op left_value right_value

unfoldable pub evaluate_binary : BinaryOperator → Bool → Result Value → Result Value → Result Value
unfolding dispatch_binary evaluate_logical_and evaluate_logical_or
evaluate_binary op missing left right =
    if missing then err execution_error else dispatch_binary op left right

-- `Evaluate` takes a reference; its callers refuse a null pointer as the first clause does.
unfoldable pub evaluate : BoundExpressionPtr → EvaluationContext → Result Value
evaluate null_pointer context = err execution_error
evaluate (literal type value) context = ok value
evaluate (column type table_id column_id table_name column_name) context =
    evaluate_column column_id context.schema context.row
evaluate (unary type op operand) context =
    evaluate_unary op (is_null_pointer operand) (evaluate operand context)
evaluate (binary type left op right) context =
    evaluate_binary op (is_null_pointer left || is_null_pointer right) (evaluate left context)
      (evaluate right context)
evaluate (star type) context = err execution_error

unfoldable pub evaluate_expressions :
    List BoundExpressionPtr → EvaluationContext → Result (List Value)
unfolding evaluate
evaluate_expressions [] context = ok []
evaluate_expressions (expression ∷ expressions) context = do
  value ← (if is_null_pointer expression then err execution_error else evaluate expression context)
  values ← evaluate_expressions expressions context
  ok (value ∷ values)

-- `std::to_string` of an unsigned number, with the rounds that are left; a number below 10 ^ n has at
-- most n digits.
unfoldable pub decimal : ℕ → ℕ → List ℕ
decimal zero n = []
decimal (suc rounds) n =
    let digit = (b'0' + n % 10) ∷ [] in
    let rest = decimal rounds (n / 10) in if ltb n 10 then digit else rest ++ digit

unfoldable pub projection_name : BoundExpressionPtr → ℕ → List ℕ
unfolding decimal
projection_name (column type table_id column_id table_name column_name) index = column_name
projection_name _ index = codes "expr" ++ decimal 20 (index + 1)
