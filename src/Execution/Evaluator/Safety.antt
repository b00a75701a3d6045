-- ===== src/Execution/Evaluator/Safety.antt =====
-- Evaluation of typed expressions (src/execution/expression_evaluator.cpp), and of what the binder
-- hands over.
use matt_sql.Prelude.{
  ℕ, zero, suc, ◌<◌, ◌≡◌, refl, ap, Bool, false, ◌||◌, some, List, [], ◌∷◌, length, get_elem?, leb,
  arith,
}
use matt_sql.Common.Status.{ok}
use matt_sql.Common.Status.Post.{returns, weaken_errors}
use matt_sql.Common.Types.{Value, ColumnSchema, TableSchema}
use matt_sql.Common.Values.{value_type_of}
use matt_sql.Binder.Expression.{
  BoundExpressionPtr, null_pointer, literal, column, unary, binary, star,
}
use matt_sql.Binder.Binding.{type_of}
use matt_sql.Binder.Typing.{IsTyped, IsTyped-nonnull}
use matt_sql.Execution.Evaluator.{
  EvaluationContext, evaluate, evaluate_unary, evaluate_binary, evaluate_column,
}
use matt_sql.Execution.Evaluator.Typed.{
  IsValueOf, integer, text, boolean, null, IsRowOf, IsFailure, IsSafe,
}
use matt_sql.Execution.Evaluator.Operators.{unary-IsSafe, binary-IsSafe}
use matt_sql.Catalog.{TableInfo}
use matt_sql.Parser.Ast.{ExpressionPtr}
use matt_sql.Binder.Binding.{bind_expression}
use matt_sql.Binder.Typing.Soundness.{HasIdsFrom, bind_expression-IsTyped}
use matt_sql.Prelude.{none}
use matt_sql.Binder.Expression.{walk_bound_expression, no_column, validate_no_column_references}
use matt_sql.Binder.Expression.Traversal.{IsWellFormed}

module _ {nulls : Bool} where
  value-IsSafe : (v : Value) → IsValueOf nulls (value_type_of v) v
  unfolding value_type_of
  value-IsSafe (Value.integer n) = integer n
  value-IsSafe (Value.text t) = text t
  value-IsSafe (Value.boolean b) = boolean b
  value-IsSafe Value.null = null

  -- The value of a column stands in the row, at the column's place.
  row_value :
      (cs : TableSchema) (vs : List Value) (i : ℕ) {c : ColumnSchema}
      → IsRowOf nulls cs vs
      → get_elem? cs i ≡ some c
      → (v : Value) × (get_elem? vs i ≡ some v)
        × IsValueOf nulls c.type v
        × (i < length cs)
        × (i < length vs)
  row_value [] vs i h e = absurd (cc e)
  row_value (c ∷ cs) [] i h e = absurd h
  row_value (c ∷ cs) (v ∷ vs) zero {c = d} h e =
      let same : c ≡ d = cc e in
      (v, refl, rw (ap (λ (x : ColumnSchema). x.type) same) at h.0, omega arith, omega arith)
  row_value (c ∷ cs) (v ∷ vs) (suc i) h e =
      let (w, there, typed, inside, within) = row_value cs vs i h.1 e in
      (w, there, typed, omega arith, omega arith)

-- The context of a row of a table.
abbrev pub row_context : TableSchema → List Value → EvaluationContext
row_context schema row = record { schema = some schema; row = some row }

column-IsSafe :
    {nulls : Bool} (schema : TableSchema) (row : List Value) (i : ℕ) (c : ColumnSchema)
    → IsRowOf nulls schema row
    → get_elem? schema i ≡ some c
    → IsSafe nulls (λ code. ⊥) c.type (evaluate_column i (some schema) (some row))
unfolding evaluate_column
column-IsSafe schema row i c h e =
    let (v, there, typed, inside, within) = row_value schema row i h e in
    let reached : (leb (length row) i || leb (length schema) i) ≡ false = ground arith in
    rw (reached, there) (returns typed)

-- What is asked of a context: the columns of the schema have values of their types there.
abbrev HasColumns : Bool → TableSchema → EvaluationContext → Type 0
HasColumns nulls schema c =
    (i : ℕ) (column : ColumnSchema)
    → get_elem? schema i ≡ some column
    → IsSafe nulls (λ code. ⊥) column.type (evaluate_column i c.schema c.row)

module _ (nulls : Bool) (schema : TableSchema) (c : EvaluationContext)
    (columns : HasColumns nulls schema c) where
  -- A typed expression gives a value of its type there.
  IsTyped-IsSafe :
      (e : BoundExpressionPtr)
      → IsTyped schema e
      → IsSafe nulls (IsFailure nulls c e) (type_of e) (evaluate e c)
  unfolding evaluate type_of evaluate_unary evaluate_binary IsFailure
  IsTyped-IsSafe null_pointer w = absurd w
  IsTyped-IsSafe (star t) w = absurd w
  IsTyped-IsSafe (literal t v) w = returns (rw w at (value-IsSafe {nulls = nulls} v))
  IsTyped-IsSafe (column t i j n m) w =
      let (d, there, same) = w in
      weaken_errors (λ code never. absurd never) (rw same at (columns j d there))
  IsTyped-IsSafe (unary t op e) w =
      rw (IsTyped-nonnull schema e w.1) (unary-IsSafe nulls _ w.0 (IsTyped-IsSafe e w.1))
  IsTyped-IsSafe (binary t e op f) w =
      rw (IsTyped-nonnull schema e w.1, IsTyped-nonnull schema f w.2)
        (binary-IsSafe nulls _ _ w.0 (IsTyped-IsSafe e w.1) (IsTyped-IsSafe f w.2))

-- An expression that was bound against a table gives, on every row of the table, a value of the type
-- that the binder gave it. It fails only where an operator in it fails on the values of its operands:
-- the arithmetic gives a number that no `int64_t` holds, a division is by zero, or, if the row has
-- NULLs, an operand of an operator other than `=` and `<>` is NULL. The ids of the table's columns have
-- to be their places.
pub bind_expression-evaluate :
    (nulls : Bool) (table : TableInfo) (e : ExpressionPtr) (row : List Value)
    {b : BoundExpressionPtr}
    → HasIdsFrom 0 table.schema
    → IsRowOf nulls table.schema row
    → bind_expression e (some table) ≡ ok b
    → IsSafe nulls
        (IsFailure nulls (row_context table.schema row) b)
        (type_of b)
        (evaluate b (row_context table.schema row))
bind_expression-evaluate nulls table e row {b} ids fits bound =
    IsTyped-IsSafe nulls table.schema (row_context table.schema row)
      (λ i column there. column-IsSafe table.schema row i column fits there) b
      (bind_expression-IsTyped e (some table) ids bound)

pub IsTyped-IsWellFormed :
    (schema : TableSchema) (e : BoundExpressionPtr) → IsTyped schema e → IsWellFormed e
IsTyped-IsWellFormed schema null_pointer w = w
IsTyped-IsWellFormed schema (star t) w = w
IsTyped-IsWellFormed schema (literal t v) w = tt
IsTyped-IsWellFormed schema (column t i j n m) w = tt
IsTyped-IsWellFormed schema (unary t op e) w = IsTyped-IsWellFormed schema e w.1
IsTyped-IsWellFormed schema (binary t e op f) w =
    (IsTyped-IsWellFormed schema e w.1, IsTyped-IsWellFormed schema f w.2)

no_columns_lem : (e : BoundExpressionPtr) → IsTyped [] e → walk_bound_expression no_column e ≡ ok tt
unfolding walk_bound_expression no_column
no_columns_lem null_pointer w = absurd w
no_columns_lem (star t) w = absurd w
no_columns_lem (literal t v) w = refl
no_columns_lem (column t i j n m) w = absurd (cc (w.1))
no_columns_lem (unary t op e) w = rw (IsTyped-nonnull [] e w.1, no_columns_lem e w.1)
no_columns_lem (binary t e op f) w =
    rw (
      IsTyped-nonnull [] e w.1,
      IsTyped-nonnull [] f w.2,
      no_columns_lem e w.1,
      no_columns_lem f w.2,
    )

-- An expression that was bound with no table passes `ValidateNoColumnReferences`, and gives in every
-- context a value of the type that the binder gave it. It fails only where an operator in it fails on
-- the values of its operands: the arithmetic gives a number that no `int64_t` holds, or a division is
-- by zero.
pub bind_expression-evaluate_scalar :
    (e : ExpressionPtr) (c : EvaluationContext) {b : BoundExpressionPtr}
    → bind_expression e none ≡ ok b
    → (validate_no_column_references b ≡ ok tt)
      × IsSafe false (IsFailure false c b) (type_of b) (evaluate b c)
unfolding validate_no_column_references
bind_expression-evaluate_scalar e c {b} bound =
    let typed = bind_expression-IsTyped e none tt bound in
    (
      no_columns_lem b typed,
      IsTyped-IsSafe false [] c (λ i column there. absurd (cc there)) b typed,
    )
