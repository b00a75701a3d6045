-- ===== src/Optimizer/Rules.antt =====
-- The rules on plans in src/optimizer/default_optimizer.cpp, and the optimizer that applies them.
use matt_sql.Prelude.{
  ℕ, Bool, true, false, ◌||◌, Option, none, some, List, [], ◌∷◌, ◌++◌, if◌then◌else◌,
}
use matt_sql.Common.Status.{
  Result, ok, err, Status, ◌>>=◌, plan_error, invalid_argument, already_exists, internal,
}
use matt_sql.Common.Types.{Value, boolean}
use matt_sql.Lexer.{text_eq, codes}
use matt_sql.Catalog.Tables.{is_empty}
use matt_sql.Binder.Expression.{BoundExpressionPtr, is_null_pointer, bound_literal_value}
use matt_sql.Planner.Plans.{LogicalPlanPtr, LogicalPlans, no_tuples, is_null_logical}
use matt_sql.Optimizer.Folding.{fold_expression}

-- the loop over the projections, and over a row
unfoldable pub fold_expressions : List BoundExpressionPtr → Result (List BoundExpressionPtr)
fold_expressions [] = ok []
fold_expressions (expression ∷ expressions) = do
  folded ← fold_expression expression
  rest ← fold_expressions expressions
  ok (folded ∷ rest)

unfoldable pub fold_rows : List (List BoundExpressionPtr) → Result (List (List BoundExpressionPtr))
fold_rows [] = ok []
fold_rows (row ∷ rows) = do folded ← fold_expressions row; rest ← fold_rows rows; ok (folded ∷ rest)

unfoldable mutual
  pub fold_plan : LogicalPlanPtr → Result LogicalPlanPtr
  fold_plan LogicalPlanPtr.null_plan = err invalid_argument
  fold_plan (LogicalPlanPtr.filter predicate children) = do
    children' ← fold_children children
    predicate' ← fold_expression predicate
    ok (LogicalPlanPtr.filter predicate' children')
  fold_plan (LogicalPlanPtr.projection projections names children) = do
    children' ← fold_children children
    projections' ← fold_expressions projections
    ok (LogicalPlanPtr.projection projections' names children')
  fold_plan (LogicalPlanPtr.values rows tuples children) = do
    children' ← fold_children children
    rows' ← fold_rows rows
    ok (LogicalPlanPtr.values rows' tuples children')
  fold_plan (LogicalPlanPtr.create_table request children) = do
    children' ← fold_children children
    ok (LogicalPlanPtr.create_table request children')
  fold_plan (LogicalPlanPtr.insert table children) = do
    children' ← fold_children children
    ok (LogicalPlanPtr.insert table children')
  fold_plan (LogicalPlanPtr.seq_scan table children) = do
    children' ← fold_children children
    ok (LogicalPlanPtr.seq_scan table children')

  pub fold_children : LogicalPlans → Result LogicalPlans
  fold_children LogicalPlans.no_inputs = ok LogicalPlans.no_inputs
  fold_children (LogicalPlans.input child children) = do
    child' ← fold_plan child
    children' ← fold_children children
    ok (LogicalPlans.input child' children')

as_boolean : Option Value → Option Bool
as_boolean (some (boolean b)) = some b
as_boolean _ = none

unfoldable pub boolean_literal : BoundExpressionPtr → Option Bool
unfolding as_boolean bound_literal_value
boolean_literal expression = as_boolean (bound_literal_value expression)

single_input : LogicalPlans → Result LogicalPlanPtr
unfolding is_null_logical
single_input (LogicalPlans.input child LogicalPlans.no_inputs) =
    if is_null_logical child then err plan_error else ok child
single_input _ = err plan_error

-- The filter with its inputs done, by what its predicate is.
unfoldable pub remove_filter :
    BoundExpressionPtr → LogicalPlans → Option Bool → Result LogicalPlanPtr
unfolding single_input
remove_filter predicate children none = ok (LogicalPlanPtr.filter predicate children)
remove_filter predicate children (some true) = single_input children
remove_filter predicate children (some false) =
    ok (LogicalPlanPtr.values [] no_tuples LogicalPlans.no_inputs)

unfoldable mutual
  unfolding remove_filter boolean_literal is_null_pointer

  pub remove_constant_filters : LogicalPlanPtr → Result LogicalPlanPtr
  remove_constant_filters LogicalPlanPtr.null_plan = err invalid_argument
  remove_constant_filters (LogicalPlanPtr.filter predicate children) = do
    children' ← remove_in_children children
    (if is_null_pointer predicate
        then err plan_error
        else remove_filter predicate children' (boolean_literal predicate))
  remove_constant_filters (LogicalPlanPtr.projection projections names children) = do
    children' ← remove_in_children children
    ok (LogicalPlanPtr.projection projections names children')
  remove_constant_filters (LogicalPlanPtr.values rows tuples children) = do
    children' ← remove_in_children children
    ok (LogicalPlanPtr.values rows tuples children')
  remove_constant_filters (LogicalPlanPtr.create_table request children) = do
    children' ← remove_in_children children
    ok (LogicalPlanPtr.create_table request children')
  remove_constant_filters (LogicalPlanPtr.insert table children) = do
    children' ← remove_in_children children
    ok (LogicalPlanPtr.insert table children')
  remove_constant_filters (LogicalPlanPtr.seq_scan table children) = do
    children' ← remove_in_children children
    ok (LogicalPlanPtr.seq_scan table children')

  pub remove_in_children : LogicalPlans → Result LogicalPlans
  remove_in_children LogicalPlans.no_inputs = ok LogicalPlans.no_inputs
  remove_in_children (LogicalPlans.input child children) = do
    child' ← remove_constant_filters child
    children' ← remove_in_children children
    ok (LogicalPlans.input child' children')

pub record OptimizerRule : Type 0 where
  pub name : List ℕ
  pub apply : LogicalPlanPtr → Result LogicalPlanPtr

abbrev pub constant_folding_rule : OptimizerRule
constant_folding_rule = record { name = codes "constant_folding"; apply = fold_plan }

abbrev pub remove_constant_filter_rule : OptimizerRule
remove_constant_filter_rule = record {
  name = codes "remove_constant_filter";
  apply = remove_constant_filters;
}

-- `rules_`; no pointer in it is null.
abbrev pub Rules : Type 0
Rules = List OptimizerRule

-- The constructor of `DefaultOptimizer`.
abbrev pub default_rules : Rules
default_rules = constant_folding_rule ∷ remove_constant_filter_rule ∷ []

unfoldable pub has_rule_named : Rules → List ℕ → Bool
has_rule_named [] name = false
has_rule_named (rule ∷ rules) name = text_eq rule.name name || has_rule_named rules name

-- `none` is the null pointer.
unfoldable pub add_rule : Rules → Option OptimizerRule → Rules × Status
unfolding has_rule_named
add_rule rules none = (rules, err invalid_argument)
add_rule rules (some rule) =
    if is_empty rule.name
    then (rules, err invalid_argument)
    else if has_rule_named rules rule.name
    then (rules, err already_exists)
    else (rules ++ rule ∷ [], ok tt)

unfoldable pub apply_rules : Rules → LogicalPlanPtr → Result LogicalPlanPtr
unfolding is_null_logical
apply_rules [] plan = ok plan
apply_rules (rule ∷ rules) plan = do
  optimized ← rule.apply plan
  (if is_null_logical optimized then err internal else apply_rules rules optimized)

unfoldable pub optimize : Rules → LogicalPlanPtr → Result LogicalPlanPtr
unfolding apply_rules is_null_logical
optimize rules plan = if is_null_logical plan then err invalid_argument else apply_rules rules plan
