-- ===== src/Binder/Expression/Traversal.antt =====
-- Copies and walks of bound expressions (src/binder/expression_utils.cpp).
use matt_sql.Prelude.{◌≡◌, ◌↔◌, refl, sym, ap, ◌∙◌, false, arith}
use matt_sql.Common.Status.{ok, outcome, succeeds, fails}
use matt_sql.Binder.Expression.{
  BoundExpressionPtr, null_pointer, literal, column, unary, binary, star, is_null_pointer,
  clone_bound_expression,
}

-- What the binder hands over: no pointer is null, and every star was expanded.
abbrev pub IsWellFormed : BoundExpressionPtr → Type 0
IsWellFormed null_pointer = ⊥
IsWellFormed (literal t v) = Unit
IsWellFormed (column t i j n m) = Unit
IsWellFormed (unary t op e) = IsWellFormed e
IsWellFormed (binary t e op f) = IsWellFormed e × IsWellFormed f
IsWellFormed (star t) = ⊥

pub IsWellFormed-nonnull : (e : BoundExpressionPtr) → IsWellFormed e → is_null_pointer e ≡ false
unfolding is_null_pointer
IsWellFormed-nonnull null_pointer w = absurd w
IsWellFormed-nonnull e w = refl

clone-IsWellFormed : (e : BoundExpressionPtr) → IsWellFormed e → clone_bound_expression e ≡ ok e
unfolding clone_bound_expression
clone-IsWellFormed null_pointer w = absurd w
clone-IsWellFormed (literal t v) w = refl
clone-IsWellFormed (column t i j n m) w = refl
clone-IsWellFormed (unary t op e) w =
    ground (arith, IsWellFormed-nonnull e w, clone-IsWellFormed e w)
clone-IsWellFormed (binary t e op f) w = ground (
  arith,
  IsWellFormed-nonnull e w.0,
  IsWellFormed-nonnull f w.1,
  clone-IsWellFormed e w.0,
  clone-IsWellFormed f w.1,
)
clone-IsWellFormed (star t) w = absurd w

clone_inverse :
    (e : BoundExpressionPtr) {e' : BoundExpressionPtr}
    → clone_bound_expression e ≡ ok e'
    → IsWellFormed e
unfolding clone_bound_expression
clone_inverse null_pointer h = absurd (cc h)
clone_inverse (literal t v) h = tt
clone_inverse (column t i j n m) h = tt
clone_inverse (unary t op e) h = elim (outcome (clone_bound_expression e)) [
  | succeeds f done ↦ clone_inverse e done
  | fails c failed ↦ absurd (ground arith)
]
clone_inverse (binary t e op f) h = elim (outcome (clone_bound_expression e)) [
  | succeeds e' done ↦ elim (outcome (clone_bound_expression f)) [
    | succeeds f' done' ↦ (clone_inverse e done, clone_inverse f done')
    | fails c failed ↦ absurd (ground arith)
  ]
  | fails c failed ↦ absurd (ground arith)
]
clone_inverse (star t) h = absurd (cc h)

-- `CloneBoundExpression` succeeds exactly on the expressions with no null pointer and no star, and
-- the clone is equal to the expression.
pub clone_bound_expression_iff :
    (e e' : BoundExpressionPtr) → (clone_bound_expression e ≡ ok e') ↔ (IsWellFormed e × (e ≡ e'))
clone_bound_expression_iff e e' = (
  λ h.
      let w = clone_inverse e h in
      let same : ok e ≡ ok e' = sym (clone-IsWellFormed e w) ∙ h in (w, ground (arith, same)),
  λ p. clone-IsWellFormed e p.0 ∙ ap ok p.1,
)
