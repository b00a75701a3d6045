-- ===== src/Execution/Evaluator/Typed.antt =====
-- What an evaluation of a typed expression may give (src/execution/expression_evaluator.cpp): values
-- of a type, and failures with their causes.
use matt_sql.Prelude.{ℕ, ◌≡◌, ◌⊎◌, Bool, true, false, List, [], ◌∷◌}
use matt_sql.Prelude.Int.{ℤ, pos, ◌+ℤ◌, ◌-ℤ◌, ◌*ℤ◌}
use matt_sql.Common.Status.{ErrorCode, Result, ok, execution_error, type_mismatch}
use matt_sql.Common.Status.Post.{Post}
use matt_sql.Common.Types.{
  SqlType, integer_type, text_type, boolean_type, null_type, Value, TableSchema,
}
use matt_sql.Common.Checked.{◌/ℤ◌}
use matt_sql.Common.Checked.Bounds.{fits_int64}
use matt_sql.Binder.Expression.{
  BoundExpressionPtr, unary, binary, UnaryOperator, minus, BinaryOperator, add, subtract, multiply,
  divide,
}
use matt_sql.Binder.Binding.{is_arithmetic, is_boolean_operator, is_ordering_comparison}
use matt_sql.Execution.Evaluator.{EvaluationContext, evaluate}

-- A value of the type; also NULL, if `nulls` permits it.
pub data IsValueOf (nulls : Bool) : SqlType → Value → Type 0 where
  integer : (n : ℤ) → IsValueOf nulls integer_type (Value.integer n)
  text : (t : List ℕ) → IsValueOf nulls text_type (Value.text t)
  boolean : (b : Bool) → IsValueOf nulls boolean_type (Value.boolean b)
  null : IsValueOf nulls null_type Value.null
  absent : {t : SqlType} → nulls ≡ true → IsValueOf nulls t Value.null

abbrev pub IsRowOf : Bool → TableSchema → List Value → Type 0
IsRowOf nulls [] [] = Unit
IsRowOf nulls [] (v ∷ vs) = ⊥
IsRowOf nulls (c ∷ cs) [] = ⊥
IsRowOf nulls (c ∷ cs) (v ∷ vs) = IsValueOf nulls c.type v × IsRowOf nulls cs vs

-- Why the operation with the result of its operand fails: the operand did, for one of its reasons
-- `inner`; no `int64_t` holds the negation; or the operand is NULL.
pub data UnaryFailure (nulls : Bool) (inner : ErrorCode → Type 0)
    : UnaryOperator → Result Value → ErrorCode → Type 0 where
  in_operand :
      {op : UnaryOperator} {r : Result Value} {e : ErrorCode}
      → inner e
      → UnaryFailure nulls inner op r e
  negation_overflows :
      {n : ℤ}
      → fits_int64 (pos 0 -ℤ n) ≡ false
      → UnaryFailure nulls inner minus (ok (Value.integer n)) execution_error
  null_operand :
      {op : UnaryOperator}
      → nulls ≡ true
      → UnaryFailure nulls inner op (ok Value.null) type_mismatch

-- Why the operation with the results of its operands fails: an operand did, the right one after the
-- left one gave a value; the arithmetic on unbounded integers gives a number that no `int64_t` holds;
-- a division is by zero; or an operand is NULL and the operator is neither `=` nor `<>`.
pub data BinaryFailure (nulls : Bool) (left right : ErrorCode → Type 0)
    : BinaryOperator → Result Value → Result Value → ErrorCode → Type 0 where
  in_left :
      {op : BinaryOperator} {r s : Result Value} {e : ErrorCode}
      → left e
      → BinaryFailure nulls left right op r s e
  in_right :
      {op : BinaryOperator} {v : Value} {s : Result Value} {e : ErrorCode}
      → right e
      → BinaryFailure nulls left right op (ok v) s e
  sum_overflows :
      {n m : ℤ}
      → fits_int64 (n +ℤ m) ≡ false
      → BinaryFailure nulls left right add
          (ok (Value.integer n))
          (ok (Value.integer m))
          execution_error
  difference_overflows :
      {n m : ℤ}
      → fits_int64 (n -ℤ m) ≡ false
      → BinaryFailure nulls left right subtract
          (ok (Value.integer n))
          (ok (Value.integer m))
          execution_error
  product_overflows :
      {n m : ℤ}
      → fits_int64 (n *ℤ m) ≡ false
      → BinaryFailure nulls left right multiply
          (ok (Value.integer n))
          (ok (Value.integer m))
          execution_error
  quotient_overflows :
      {n m : ℤ}
      → fits_int64 (n /ℤ m) ≡ false
      → BinaryFailure nulls left right divide
          (ok (Value.integer n))
          (ok (Value.integer m))
          execution_error
  division_by_zero :
      {n m : ℤ}
      → m ≡ pos 0
      → BinaryFailure nulls left right divide
          (ok (Value.integer n))
          (ok (Value.integer m))
          execution_error
  null_number :
      {op : BinaryOperator} {v w : Value}
      → nulls ≡ true
      → is_arithmetic op ≡ true
      → (v ≡ Value.null) ⊎ (w ≡ Value.null)
      → BinaryFailure nulls left right op (ok v) (ok w) type_mismatch
  null_compared :
      {op : BinaryOperator} {v w : Value}
      → nulls ≡ true
      → is_ordering_comparison op ≡ true
      → (v ≡ Value.null) ⊎ (w ≡ Value.null)
      → BinaryFailure nulls left right op (ok v) (ok w) execution_error
  null_boolean_left :
      {op : BinaryOperator} {s : Result Value}
      → nulls ≡ true
      → is_boolean_operator op ≡ true
      → BinaryFailure nulls left right op (ok Value.null) s type_mismatch
  null_boolean_right :
      {op : BinaryOperator} {v : Value}
      → nulls ≡ true
      → is_boolean_operator op ≡ true
      → BinaryFailure nulls left right op (ok v) (ok Value.null) type_mismatch

-- Why the evaluation of the expression in the context fails with the code.
unfoldable pub IsFailure : Bool → EvaluationContext → BoundExpressionPtr → ErrorCode → Type 0
IsFailure nulls c (unary t op e) = UnaryFailure nulls (IsFailure nulls c e) op (evaluate e c)
IsFailure nulls c (binary t e op f) =
    BinaryFailure nulls (IsFailure nulls c e) (IsFailure nulls c f) op (evaluate e c) (evaluate f c)
IsFailure nulls c _ = λ code. ⊥

-- A value of the type, or a failure for one of the reasons.
abbrev pub IsSafe : Bool → (ErrorCode → Type 0) → SqlType → Result Value → Type 0
IsSafe nulls reasons t = Post (IsValueOf nulls t) reasons
