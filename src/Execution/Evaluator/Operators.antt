-- ===== src/Execution/Evaluator/Operators.antt =====
-- The operators of src/execution/expression_evaluator.cpp on typed operands.
use matt_sql.Prelude.{◌≡◌, ◌⊎◌, inl, inr, refl, Bool, true, false}
use matt_sql.Prelude.Int.{ℤ, pos}
use matt_sql.Common.Checked.{◌/ℤ◌}
use matt_sql.Common.Checked.Bounds.{fits_int64}
use matt_sql.Common.Status.{ErrorCode, Result, ok, ◌>>=◌, execution_error}
use matt_sql.Common.Status.Post.{Post, returns, throws, ◌⟫◌, weaken_errors}
use matt_sql.Common.Types.{SqlType, integer_type, boolean_type, Value}
use matt_sql.Common.Values.{compare_values, is_null, require_integer, require_boolean}
use matt_sql.Binder.Expression.{
  UnaryOperator, BinaryOperator, add, subtract, multiply, divide, less, less_equal, greater,
  greater_equal, logical_and, logical_or,
}
use matt_sql.Binder.Binding.{is_arithmetic, is_boolean_operator, is_ordering_comparison}
use matt_sql.Binder.Typing.{
  UnaryRule, plus_integer, minus_integer, not_boolean, Comparable, null_left, null_right,
  boolean_integer, integer_boolean, Ordered, BinaryRule, add_integers, subtract_integers,
  multiply_integers, divide_integers, equal_values, not_equal_values, less_values,
  less_equal_values, greater_values, greater_equal_values, and_booleans, or_booleans,
}
use matt_sql.Execution.Evaluator.{
  evaluate_binary, apply_unary, apply_binary, evaluate_binary, arithmetic, equality, ordering,
  evaluate_logical_and, evaluate_logical_or, dispatch_binary, boolean_operand,
}
use matt_sql.Execution.Evaluator.Typed.{
  IsValueOf, integer, text, boolean, null, absent, UnaryFailure, in_operand, negation_overflows,
  null_operand, BinaryFailure, in_left, in_right, sum_overflows, difference_overflows,
  product_overflows, quotient_overflows, division_by_zero, null_number, null_compared,
  null_boolean_left, null_boolean_right, IsSafe,
}
use matt_sql.Execution.Evaluator.Overflow.{
  negate_fails, add_fails, subtract_fails, multiply_fails, divide_fails,
}

equality-null :
    (test : ℤ → Bool) (v : Value) → equality test v Value.null ≡ ok (Value.boolean false)
unfolding equality is_null
equality-null test Value.null = refl
equality-null test v = refl

module _ {nulls : Bool} where
  equality-IsSafe :
      (test : ℤ → Bool) (reasons : ErrorCode → Type 0) {s t : SqlType} {v w : Value}
      → Comparable s t
      → IsValueOf nulls s v
      → IsValueOf nulls t w
      → IsSafe nulls reasons boolean_type (equality test v w)
  unfolding equality compare_values is_null
  equality-IsSafe test c Comparable.integers (integer n) (integer m) = returns (boolean _)
  equality-IsSafe test c Comparable.integers (integer n) (absent k) = returns (boolean _)
  equality-IsSafe test c Comparable.integers (absent k) w = returns (boolean _)
  equality-IsSafe test c Comparable.texts (text t) (text u) = returns (boolean _)
  equality-IsSafe test c Comparable.texts (text t) (absent k) = returns (boolean _)
  equality-IsSafe test c Comparable.texts (absent k) w = returns (boolean _)
  equality-IsSafe test c Comparable.booleans (boolean true) (boolean true) = returns (boolean _)
  equality-IsSafe test c Comparable.booleans (boolean true) (boolean false) = returns (boolean _)
  equality-IsSafe test c Comparable.booleans (boolean false) (boolean true) = returns (boolean _)
  equality-IsSafe test c Comparable.booleans (boolean false) (boolean false) = returns (boolean _)
  equality-IsSafe test c Comparable.booleans (boolean b) (absent k) = returns (boolean _)
  equality-IsSafe test c Comparable.booleans (absent k) w = returns (boolean _)
  equality-IsSafe test c null_left null w = returns (boolean _)
  equality-IsSafe test c null_left (absent k) w = returns (boolean _)
  equality-IsSafe test c null_right v null = rw (equality-null test _) (returns (boolean _))
  equality-IsSafe test c null_right v (absent k) = rw (equality-null test _) (returns (boolean _))
  equality-IsSafe test c boolean_integer (boolean true) (integer n) = returns (boolean _)
  equality-IsSafe test c boolean_integer (boolean false) (integer n) = returns (boolean _)
  equality-IsSafe test c boolean_integer (boolean b) (absent k) = returns (boolean _)
  equality-IsSafe test c boolean_integer (absent k) w = returns (boolean _)
  equality-IsSafe test c integer_boolean (integer n) (boolean true) = returns (boolean _)
  equality-IsSafe test c integer_boolean (integer n) (boolean false) = returns (boolean _)
  equality-IsSafe test c integer_boolean (integer n) (absent k) = returns (boolean _)
  equality-IsSafe test c integer_boolean (absent k) w = returns (boolean _)

module _ (nulls : Bool) (inner : ErrorCode → Type 0) where
  -- A result's operation, on the operand's value.
  unary-IsSafe_value :
      {op : UnaryOperator} {s t : SqlType} {v : Value}
      → UnaryRule op s t
      → IsValueOf nulls s v
      → IsSafe nulls (UnaryFailure nulls inner op (ok v)) t (apply_unary op v)
  unfolding apply_unary require_integer require_boolean
  unary-IsSafe_value plus_integer (integer n) = returns (integer _)
  unary-IsSafe_value plus_integer (absent h) = throws (null_operand h)
  unary-IsSafe_value minus_integer (integer n) =
      weaken_errors (λ e (same, large). rw same (negation_overflows large)) (negate_fails n)
      ⟫ λ m _. returns (integer _)
  unary-IsSafe_value minus_integer (absent h) = throws (null_operand h)
  unary-IsSafe_value not_boolean (boolean b) = returns (boolean _)
  unary-IsSafe_value not_boolean (absent h) = throws (null_operand h)

  pub unary-IsSafe :
      {op : UnaryOperator} {s t : SqlType} {r : Result Value}
      → UnaryRule op s t
      → IsSafe nulls inner s r
      → IsSafe nulls (UnaryFailure nulls inner op r) t (r >>= apply_unary op)
  unary-IsSafe rule (returns typed) = unary-IsSafe_value rule typed
  unary-IsSafe rule (throws h) = throws (in_operand h)

module _ (nulls : Bool) (left_reasons right_reasons : ErrorCode → Type 0) where
  -- The reasons of an operator's failure, given the operands' results.
  abbrev Reasons : BinaryOperator → Result Value → Result Value → ErrorCode → Type 0
  Reasons = BinaryFailure nulls left_reasons right_reasons

  arithmetic-IsSafe :
      (op : BinaryOperator) (operation : ℤ → ℤ → Result ℤ) {v w : Value}
      → is_arithmetic op ≡ true
      → ((a b : ℤ)
          → Post
              (λ _. Unit)
              (Reasons op (ok (Value.integer a)) (ok (Value.integer b)))
              (operation a b))
      → IsValueOf nulls integer_type v
      → IsValueOf nulls integer_type w
      → IsSafe nulls (Reasons op (ok v) (ok w)) integer_type (arithmetic operation v w)
  unfolding arithmetic require_integer
  arithmetic-IsSafe op operation a h (integer n) (integer m) = h n m ⟫ λ k _. returns (integer _)
  arithmetic-IsSafe op operation a h (integer n) (absent k) = throws (null_number k a (inr refl))
  arithmetic-IsSafe op operation a h (absent k) w = throws (null_number k a (inl refl))

  ordering-IsSafe :
      (op : BinaryOperator) (test : ℤ → Bool) {s t : SqlType} {v w : Value}
      → is_ordering_comparison op ≡ true
      → Ordered s t
      → IsValueOf nulls s v
      → IsValueOf nulls t w
      → IsSafe nulls (Reasons op (ok v) (ok w)) boolean_type (ordering test v w)
  unfolding ordering compare_values is_null
  ordering-IsSafe op test o Ordered.integers (integer n) (integer m) = returns (boolean _)
  ordering-IsSafe op test o Ordered.integers (integer n) (absent k) =
      throws (null_compared k o (inr refl))
  ordering-IsSafe op test o Ordered.integers (absent k) w = throws (null_compared k o (inl refl))
  ordering-IsSafe op test o Ordered.texts (text t) (text u) = returns (boolean _)
  ordering-IsSafe op test o Ordered.texts (text t) (absent k) =
      throws (null_compared k o (inr refl))
  ordering-IsSafe op test o Ordered.texts (absent k) w = throws (null_compared k o (inl refl))

  -- What `RequireBoolean` and the result make of the right operand, once the left one gave a value.
  right_operand-IsSafe :
      {op : BinaryOperator} (v : Value) {s : Result Value}
      → is_boolean_operator op ≡ true
      → IsSafe nulls right_reasons boolean_type s
      → IsSafe nulls (Reasons op (ok v) s) boolean_type (boolean_operand s)
  unfolding boolean_operand require_boolean
  right_operand-IsSafe v o (returns (boolean b)) = returns (boolean _)
  right_operand-IsSafe v o (returns (absent k)) = throws (null_boolean_right k o)
  right_operand-IsSafe v o (throws h) = throws (in_right h)

  and_IsSafe :
      {r s : Result Value}
      → IsSafe nulls left_reasons boolean_type r
      → IsSafe nulls right_reasons boolean_type s
      → IsSafe nulls (Reasons logical_and r s) boolean_type (evaluate_logical_and r s)
  unfolding evaluate_logical_and require_boolean is_boolean_operator
  and_IsSafe (returns (boolean true)) right = right_operand-IsSafe _ refl right
  and_IsSafe (returns (boolean false)) right = returns (boolean _)
  and_IsSafe (returns (absent k)) right = throws (null_boolean_left k refl)
  and_IsSafe (throws h) right = throws (in_left h)

  or_IsSafe :
      {r s : Result Value}
      → IsSafe nulls left_reasons boolean_type r
      → IsSafe nulls right_reasons boolean_type s
      → IsSafe nulls (Reasons logical_or r s) boolean_type (evaluate_logical_or r s)
  unfolding evaluate_logical_or require_boolean is_boolean_operator
  or_IsSafe (returns (boolean true)) right = returns (boolean _)
  or_IsSafe (returns (boolean false)) right = right_operand-IsSafe _ refl right
  or_IsSafe (returns (absent k)) right = throws (null_boolean_left k refl)
  or_IsSafe (throws h) right = throws (in_left h)

  -- An operator that takes both values, on results that may have failed.
  strict-IsSafe :
      {op : BinaryOperator} {t u v : SqlType} {r s : Result Value}
      (apply : Value → Value → Result Value)
      → ((a b : Value)
          → IsValueOf nulls t a
          → IsValueOf nulls u b
          → IsSafe nulls (Reasons op (ok a) (ok b)) v (apply a b))
      → IsSafe nulls left_reasons t r
      → IsSafe nulls right_reasons u s
      → IsSafe nulls (Reasons op r s) v (r >>= λ a. s >>= λ b. apply a b)
  strict-IsSafe apply h (returns va) (returns vb) = h _ _ va vb
  strict-IsSafe apply h (returns va) (throws k) = throws (in_right k)
  strict-IsSafe apply h (throws k) right = throws (in_left k)

  division_lem :
      {n m : ℤ}
      → (m ≡ pos 0) ⊎ (fits_int64 (n /ℤ m) ≡ false)
      → Reasons divide (ok (Value.integer n)) (ok (Value.integer m)) execution_error
  division_lem (inl zero) = division_by_zero zero
  division_lem (inr large) = quotient_overflows large

  pub binary-IsSafe :
      {op : BinaryOperator} {t u v : SqlType} {r s : Result Value}
      → BinaryRule op t u v
      → IsSafe nulls left_reasons t r
      → IsSafe nulls right_reasons u s
      → IsSafe nulls (Reasons op r s) v (evaluate_binary op false r s)
  unfolding evaluate_binary dispatch_binary apply_binary is_arithmetic is_ordering_comparison
  binary-IsSafe add_integers = strict-IsSafe _ (λ v w.
      arithmetic-IsSafe add _ refl
        (λ a b. weaken_errors (λ e (same, large). rw same (sum_overflows large)) (add_fails a b)))
  binary-IsSafe subtract_integers = strict-IsSafe _ (λ v w.
      arithmetic-IsSafe subtract _ refl (λ a b.
        weaken_errors (λ e (same, large). rw same (difference_overflows large))
          (subtract_fails a b)))
  binary-IsSafe multiply_integers = strict-IsSafe _ (λ v w.
      arithmetic-IsSafe multiply _ refl (λ a b.
        weaken_errors (λ e (same, large). rw same (product_overflows large)) (multiply_fails a b)))
  binary-IsSafe divide_integers = strict-IsSafe _ (λ v w.
      arithmetic-IsSafe divide _ refl
        (λ a b. weaken_errors (λ e (same, why). rw same (division_lem why)) (divide_fails a b)))
  binary-IsSafe (equal_values c) = strict-IsSafe _ (λ a b. equality-IsSafe _ _ c)
  binary-IsSafe (not_equal_values c) = strict-IsSafe _ (λ a b. equality-IsSafe _ _ c)
  binary-IsSafe (less_values c) = strict-IsSafe _ (λ a b. ordering-IsSafe less _ refl c)
  binary-IsSafe (less_equal_values c) = strict-IsSafe _ (λ a b. ordering-IsSafe less_equal _ refl c)
  binary-IsSafe (greater_values c) = strict-IsSafe _ (λ a b. ordering-IsSafe greater _ refl c)
  binary-IsSafe (greater_equal_values c) =
      strict-IsSafe _ (λ a b. ordering-IsSafe greater_equal _ refl c)
  binary-IsSafe and_booleans = and_IsSafe
  binary-IsSafe or_booleans = or_IsSafe
