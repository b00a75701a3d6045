-- ===== src/Execution/Evaluator/Scalar.antt =====
-- Scalar expressions: what `ValidateNoColumnReferences` accepts needs no row.
use matt_sql.Prelude.{◌≡◌, refl, arith}
use matt_sql.Common.Status.{ok, outcome, succeeds, fails}
use matt_sql.Binder.Expression.{
  BoundExpressionPtr, null_pointer, literal, column, unary, binary, star, walk_bound_expression,
  validate_no_column_references, no_column,
}
use matt_sql.Execution.Evaluator.{evaluate, EvaluationContext}

scalar_lem :
    (e : BoundExpressionPtr) (c d : EvaluationContext)
    → walk_bound_expression no_column e ≡ ok tt
    → evaluate e c ≡ evaluate e d
unfolding walk_bound_expression no_column evaluate
scalar_lem null_pointer c d h = refl
scalar_lem (literal t v) c d h = refl
scalar_lem (column t i j n m) c d h = absurd (cc h)
scalar_lem (star t) c d h = refl
scalar_lem (unary t op e) c d h = ground (arith, scalar_lem e c d)
scalar_lem (binary t e op f) c d h = elim (outcome (walk_bound_expression no_column e)) [
  | succeeds u done ↦ ground (arith, scalar_lem e c d, scalar_lem f c d)
  | fails x failed ↦ absurd (ground arith)
]

-- An expression that `ValidateNoColumnReferences` accepts evaluates to the same value or the same
-- error in every context, that with no schema and no row included.
pub validate_no_column_references-evaluate :
    (e : BoundExpressionPtr) (c d : EvaluationContext)
    → validate_no_column_references e ≡ ok tt
    → evaluate e c ≡ evaluate e d
unfolding validate_no_column_references
validate_no_column_references-evaluate e c d h = scalar_lem e c d h
