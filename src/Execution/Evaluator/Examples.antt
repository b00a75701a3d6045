-- ===== src/Execution/Evaluator/Examples.antt =====
-- Runs of the evaluation of expressions, and the theorems on expressions at concrete ones.
use matt_sql.Prelude.{◌≡◌, ◌↔◌, refl, none, some, []}
use matt_sql.Prelude.Int.{pos}
use matt_sql.Common.Status.{ok}
use matt_sql.Common.Types.{integer_type, integer}
use matt_sql.Binder.Expression.{
  BoundExpressionPtr, literal, binary, add, clone_bound_expression, validate_no_column_references,
}
use matt_sql.Binder.Expression.Traversal.{IsWellFormed, clone_bound_expression_iff}
use matt_sql.Prelude.{true, false, ◌∷◌}
use matt_sql.Common.Status.{err, bind_error}
use matt_sql.Common.Types.{boolean_type, null}
use matt_sql.Lexer.{codes, fold_identifier_key}
use matt_sql.Catalog.{TableInfo}
use matt_sql.Parser.Ast.{
  ExpressionPtr, integer_literal, column_ref, unary_expression, binary_expression,
}
use matt_sql.Binder.Expression.{column, unary, minus, greater}
use matt_sql.Binder.Columns.{
  resolve_column, split_column_name, find_column, make_bound_column, split_at_dot, find_character,
}
use matt_sql.Binder.Binding.{bind_expression, type_of}
use matt_sql.Execution.Evaluator.Typed.{IsSafe, IsValueOf, absent, IsFailure}
use matt_sql.Execution.Evaluator.Safety.{
  row_context, bind_expression-evaluate, bind_expression-evaluate_scalar,
}
use matt_sql.Execution.Evaluator.{EvaluationContext, evaluate}
use matt_sql.Execution.Evaluator.Scalar.{validate_no_column_references-evaluate}

abbrev one_plus_two : BoundExpressionPtr
one_plus_two =
    binary integer_type (literal integer_type (integer (pos 1))) add
      (literal integer_type (integer (pos 2)))

abbrev no_row : EvaluationContext
no_row = record { schema = none; row = none }

abbrev empty_row : EvaluationContext
empty_row = record { schema = some []; row = some [] }

validate_no_column_references-evaluate_example :
    evaluate one_plus_two no_row ≡ evaluate one_plus_two empty_row
unfolding validate_no_column_references
validate_no_column_references-evaluate_example =
    validate_no_column_references-evaluate one_plus_two no_row empty_row refl

clone_bound_expression_iff_example :
    (clone_bound_expression one_plus_two ≡ ok one_plus_two)
    ↔ (IsWellFormed one_plus_two × (one_plus_two ≡ one_plus_two))
clone_bound_expression_iff_example = clone_bound_expression_iff one_plus_two one_plus_two

abbrev people : TableInfo
people = record {
  id = 1;
  name = codes "people";
  schema =
      record { name = codes "id"; type = integer_type; nullable = false; id = 0 }
      ∷ record { name = codes "age"; type = integer_type; nullable = true; id = 1 }
      ∷ [];
  heap_root_page_id = 1;
  indexes = [];
}

-- age + 1 > people.id
abbrev older : ExpressionPtr
older =
    binary_expression (binary_expression (column_ref (codes "AGE")) add (integer_literal (pos 1)))
      greater (column_ref (codes "people.id"))

abbrev older_bound : BoundExpressionPtr
older_bound =
    binary boolean_type
      (binary integer_type (column integer_type 1 1 (codes "people") (codes "age")) add
        (literal integer_type (integer (pos 1))))
      greater (column integer_type 1 0 (codes "people") (codes "id"))

older_binds : bind_expression older (some people) ≡ ok older_bound
unfolding bind_expression resolve_column split_column_name find_column fold_identifier_key
    make_bound_column split_at_dot find_character
older_binds = refl

unqualified : bind_expression (column_ref (codes "folks.id")) (some people) ≡ err bind_error
unfolding bind_expression resolve_column split_column_name find_column fold_identifier_key
    make_bound_column split_at_dot find_character
unqualified = refl

bind_expression-evaluate_example :
    IsSafe true
      (IsFailure true (row_context people.schema (integer (pos 7) ∷ null ∷ [])) older_bound)
      boolean_type
      (evaluate older_bound (row_context people.schema (integer (pos 7) ∷ null ∷ [])))
unfolding type_of
bind_expression-evaluate_example =
    bind_expression-evaluate true people older (integer (pos 7) ∷ null ∷ []) (refl, (refl, tt))
      (IsValueOf.integer (pos 7), (absent refl, tt)) older_binds

two :
    bind_expression (unary_expression minus (integer_literal (pos 2))) none
    ≡ ok (unary integer_type minus (literal integer_type (integer (pos 2))))
unfolding bind_expression
two = refl

bind_expression-evaluate_scalar_example :
    (validate_no_column_references
        (unary integer_type minus (literal integer_type (integer (pos 2))))
      ≡ ok tt)
    × IsSafe false
        (IsFailure false no_row (unary integer_type minus (literal integer_type (integer (pos 2)))))
        integer_type
        (evaluate (unary integer_type minus (literal integer_type (integer (pos 2)))) no_row)
unfolding type_of
bind_expression-evaluate_scalar_example =
    bind_expression-evaluate_scalar (unary_expression minus (integer_literal (pos 2))) no_row two
