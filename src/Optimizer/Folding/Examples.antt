-- ===== src/Optimizer/Folding/Examples.antt =====
-- A run of constant folding, and its theorem at that expression.
use matt_sql.Prelude.{ℕ, ◌≡◌, refl, [], ◌∷◌}
use matt_sql.Prelude.Int.{pos}
use matt_sql.Common.Status.{ok}
use matt_sql.Common.Types.{integer_type, boolean_type, integer}
use matt_sql.Common.Checked.{checked_integer_add, checked_integer_divide}
use matt_sql.Common.Values.{value_type_of}
use matt_sql.Binder.Expression.{BoundExpressionPtr, literal, column, binary, add, divide, less}
use matt_sql.Execution.Evaluator.{EvaluationContext, evaluate}
use matt_sql.Optimizer.Folding.{fold_expression, fold_binary}
use matt_sql.Binder.Expression.Traversal.{IsWellFormed}
use matt_sql.Optimizer.Folding.Meaning.{fold_expression-evaluate}

abbrev number : ℕ → BoundExpressionPtr
number n = literal integer_type (integer (pos n))

-- id < 1 + 2
abbrev below_sum : BoundExpressionPtr
below_sum =
    binary boolean_type (column integer_type 1 0 (b'u' ∷ []) (b'i' ∷ [])) less
      (binary integer_type (number 1) add (number 2))

fold_below_sum :
    fold_expression below_sum
    ≡ ok (binary boolean_type (column integer_type 1 0 (b'u' ∷ []) (b'i' ∷ [])) less (number 3))
unfolding fold_expression checked_integer_add value_type_of fold_binary
fold_below_sum = refl

-- What cannot be folded stays, so that its error is that of the execution.
fold_divide_by_zero :
    fold_expression (binary integer_type (number 1) divide (number 0))
    ≡ ok (binary integer_type (number 1) divide (number 0))
unfolding fold_expression checked_integer_divide fold_binary
fold_divide_by_zero = refl

fold_expression-evaluate_example :
    (e' : BoundExpressionPtr) × (fold_expression below_sum ≡ ok e')
    × IsWellFormed e'
    × ((c : EvaluationContext) → evaluate e' c ≡ evaluate below_sum c)
fold_expression-evaluate_example = fold_expression-evaluate below_sum (tt, (tt, tt))
