-- ===== src/Optimizer/Folding/Meaning.antt =====
-- Constant folding keeps what an expression evaluates to, errors included.
use mathlib.Core.Path.{ap₂}
use matt_sql.Prelude.{
  ◌≡◌, refl, ◌∙◌, sym, false, ◌||◌, Option, none, some, Option-cases, inl, inr, arith,
}
use matt_sql.Common.Status.{ok, ◌>>=◌, bind-eq-ok}
use matt_sql.Common.Types.{SqlType, Value}
use matt_sql.Common.Values.{require_integer, require_boolean}
use matt_sql.Binder.Expression.{
  BoundExpressionPtr, null_pointer, literal, column, unary, binary, star, is_null_pointer,
  UnaryOperator, plus, minus, logical_not, BinaryOperator, add, make_bound_literal,
  bound_literal_value, transform_bound_expression,
}
use matt_sql.Binder.Expression.Traversal.{IsWellFormed, IsWellFormed-nonnull}
use matt_sql.Execution.Evaluator.{
  evaluate, evaluate_unary, evaluate_binary, apply_unary, apply_binary, EvaluationContext,
}
use matt_sql.Optimizer.Folding.{
  fold_unary, fold_binary, fold_current_expression, fold_expression, replace_by, fold_operand,
  fold_operands,
}

fold_unary_lem :
    (op : UnaryOperator) (a : Value) {v : Value}
    → fold_unary op a ≡ some v
    → apply_unary op a ≡ ok v
unfolding fold_unary apply_unary require_integer require_boolean
fold_unary_lem plus a h = ground arith
fold_unary_lem minus a h = ground arith
fold_unary_lem logical_not a h = ground arith

fold_binary_lem :
    (op : BinaryOperator) (a b : Value) {v : Value}
    → fold_binary op a b ≡ some v
    → evaluate_binary op false (ok a) (ok b) ≡ ok v
unfolding fold_binary evaluate_binary apply_binary require_integer require_boolean
fold_binary_lem add a b h = ground arith
fold_binary_lem _ a b h = ground arith

fold_literal_unary :
    (t s : SqlType) (op : UnaryOperator) (v : Value) {e' : BoundExpressionPtr}
    (c : EvaluationContext)
    → fold_current_expression (unary t op (literal s v)) ≡ ok e'
    → evaluate e' c ≡ evaluate (unary t op (literal s v)) c
unfolding fold_current_expression evaluate evaluate_unary
fold_literal_unary t s op v c h = elim (Option-cases (fold_unary op v)) [
  | inl kept ↦ ground arith
  | inr (w, folded) ↦ ground (arith, fold_unary_lem op v folded)
]

fold_literal_binary :
    (t s s' : SqlType) (op : BinaryOperator) (v v' : Value) {e' : BoundExpressionPtr}
    (c : EvaluationContext)
    → fold_current_expression (binary t (literal s v) op (literal s' v')) ≡ ok e'
    → evaluate e' c ≡ evaluate (binary t (literal s v) op (literal s' v')) c
unfolding fold_current_expression evaluate
fold_literal_binary t s s' op v v' c h = elim (Option-cases (fold_binary op v v')) [
  | inl kept ↦ ground arith
  | inr (w, folded) ↦ ground (arith, fold_binary_lem op v v' folded)
]

fold_current_lem :
    (e : BoundExpressionPtr) {e' : BoundExpressionPtr} (c : EvaluationContext)
    → fold_current_expression e ≡ ok e'
    → evaluate e' c ≡ evaluate e c
unfolding fold_current_expression
fold_current_lem (unary t op (literal s v)) c h = fold_literal_unary t s op v c h
fold_current_lem (unary t op e) c h = ground arith
fold_current_lem (binary t (literal s v) op (literal s' v')) c h =
    fold_literal_binary t s s' op v v' c h
fold_current_lem (binary t e op e') c h = ground arith
fold_current_lem e c h = ground arith

transform_nonnull :
    (e : BoundExpressionPtr) {e' : BoundExpressionPtr}
    → transform_bound_expression fold_current_expression e ≡ ok e'
    → is_null_pointer e ≡ false
unfolding transform_bound_expression is_null_pointer
transform_nonnull null_pointer h = absurd (cc h)
transform_nonnull e h = refl

-- the guard of `fold_current_expression`
fold_unary_nonnull :
    (t : SqlType) (op : UnaryOperator) (e : BoundExpressionPtr) {e' : BoundExpressionPtr}
    → fold_current_expression (unary t op e) ≡ ok e'
    → is_null_pointer e ≡ false
unfolding fold_current_expression
fold_unary_nonnull t op e h = ground arith

fold_binary_nonnull :
    (t : SqlType) (op : BinaryOperator) (e f : BoundExpressionPtr) {e' : BoundExpressionPtr}
    → fold_current_expression (binary t e op f) ≡ ok e'
    → (is_null_pointer e || is_null_pointer f) ≡ false
unfolding fold_current_expression
fold_binary_nonnull t op e f h = ground arith

transform_lem :
    (e : BoundExpressionPtr) {e' : BoundExpressionPtr} (c : EvaluationContext)
    → transform_bound_expression fold_current_expression e ≡ ok e'
    → evaluate e' c ≡ evaluate e c
unfolding transform_bound_expression evaluate
transform_lem null_pointer c h = absurd (cc h)
transform_lem (star t) c h = absurd (cc h)
transform_lem (literal t v) c h = fold_current_lem (literal t v) c h
transform_lem (column t i j n m) c h = fold_current_lem (column t i j n m) c h
transform_lem (unary t op e) c h =
    let (f, inner, outer) =
      bind-eq-ok (transform_bound_expression fold_current_expression e)
        (λ g. fold_current_expression (unary t op g)) h in
    fold_current_lem (unary t op f) c outer
    ∙ ap₂ (λ b r. evaluate_unary op b r)
        (fold_unary_nonnull t op f outer ∙ sym (transform_nonnull e inner))
        (transform_lem e c inner)
transform_lem (binary t e op g) c h =
    let (e', left, rest) =
      bind-eq-ok (transform_bound_expression fold_current_expression e)
        (λ e'. transform_bound_expression fold_current_expression g >>= λ g'.
          fold_current_expression (binary t e' op g'))
        h in
    let (g', right, outer) =
      bind-eq-ok (transform_bound_expression fold_current_expression g)
        (λ g'. fold_current_expression (binary t e' op g')) rest in
    let nonnull : (is_null_pointer e || is_null_pointer g) ≡ false =
      rw (transform_nonnull e left, transform_nonnull g right) in
    fold_current_lem (binary t e' op g') c outer
    ∙ rw (fold_binary_nonnull t op e' g' outer) (
        rw nonnull (
          ap₂ (λ l r. evaluate_binary op false l r) (transform_lem e c left)
            (transform_lem g c right)))

replaced-IsWellFormed :
    (o : Option Value) (e : BoundExpressionPtr) → IsWellFormed e → IsWellFormed (replace_by o e)
unfolding replace_by make_bound_literal
replaced-IsWellFormed none e w = w
replaced-IsWellFormed (some v) e w = tt

record Folds (e : BoundExpressionPtr) : Type 0 where
  to : BoundExpressionPtr
  folded : transform_bound_expression fold_current_expression e ≡ ok to
  well_formed : IsWellFormed to

transform_total : (e : BoundExpressionPtr) → IsWellFormed e → Folds e
unfolding transform_bound_expression fold_current_expression
transform_total null_pointer w = absurd w
transform_total (star t) w = absurd w
transform_total (literal t v) w = record { to = literal t v; folded = refl; well_formed = tt }
transform_total (column t i j n m) w = record {
  to = column t i j n m;
  folded = refl;
  well_formed = tt;
}
transform_total (unary t op e) w =
    let ih = transform_total e w in
    record {
      to = replace_by (fold_operand op (bound_literal_value ih.to)) (unary t op ih.to);
      folded = rw ih.folded (rw (IsWellFormed-nonnull ih.to ih.well_formed));
      well_formed = replaced-IsWellFormed _ (unary t op ih.to) ih.well_formed;
    }
transform_total (binary t e op f) w =
    let l = transform_total e w.0 in
    let r = transform_total f w.1 in
    record {
      to =
          replace_by (fold_operands op (bound_literal_value l.to) (bound_literal_value r.to))
            (binary t l.to op r.to);
      folded = rw l.folded (
          rw r.folded (
            rw (IsWellFormed-nonnull l.to l.well_formed, IsWellFormed-nonnull r.to r.well_formed)));
      well_formed = replaced-IsWellFormed _ (binary t l.to op r.to) (l.well_formed, r.well_formed);
    }

-- Folding an expression with no null pointer and no star succeeds; the result has none either, and
-- evaluates in every context to the same value or the same error.
pub fold_expression-evaluate :
    (e : BoundExpressionPtr)
    → IsWellFormed e
    → (e' : BoundExpressionPtr) × (fold_expression e ≡ ok e')
      × IsWellFormed e'
      × ((c : EvaluationContext) → evaluate e' c ≡ evaluate e c)
unfolding fold_expression
fold_expression-evaluate e w =
    let f = transform_total e w in (f.to, f.folded, f.well_formed, λ c. transform_lem e c f.folded)
