-- ===== src/Planner/Logical.antt =====
-- src/planner/default_logical_planner.cpp.
use matt_sql.Prelude.{ℕ, Bool, not, ◌&&◌, List, [], ◌∷◌, length, ◌==◌, if◌then◌else◌}
use matt_sql.Common.Status.{Result, ok, err, ◌>>=◌, ◌>>◌, plan_error, type_mismatch}
use matt_sql.Common.Types.{boolean_type}
use matt_sql.Common.Values.{type_eq}
use matt_sql.Catalog.{TableInfo, CreateTableRequest}
use matt_sql.Catalog.Tables.{is_empty}
use matt_sql.Binder.Expression.{
  BoundExpressionPtr, is_null_pointer, clone_bound_expression, clone_bound_expressions,
  validate_no_column_references, validate_all_no_column_references,
}
use matt_sql.Binder.Binding.{type_of}
use matt_sql.Binder.Statements.{
  BoundSelectStatement, BoundInsertStatement, BoundStatement, bound_select, bound_insert,
  bound_create,
}
use matt_sql.Planner.Plans.{LogicalPlanPtr, LogicalPlans, no_tuples, is_null_logical}

unfoldable pub make_seq_scan_plan : TableInfo → LogicalPlanPtr
make_seq_scan_plan table = LogicalPlanPtr.seq_scan table LogicalPlans.no_inputs

unfoldable pub make_filter_plan : BoundExpressionPtr → LogicalPlanPtr → Result LogicalPlanPtr
unfolding type_of type_eq is_null_pointer is_null_logical
make_filter_plan predicate child =
    if is_null_pointer predicate
    then err plan_error
    else if not (type_eq (type_of predicate) boolean_type)
    then err type_mismatch
    else if is_null_logical child
    then err plan_error
    else ok (LogicalPlanPtr.filter predicate (LogicalPlans.input child LogicalPlans.no_inputs))

-- the test on the names of a projection
unfoldable pub names_mismatch : List (List ℕ) → List BoundExpressionPtr → Bool
names_mismatch projection_names projections =
    not (is_empty projection_names) && not (length projection_names == length projections)

-- the source of a SELECT
unfoldable pub plan_source : BoundSelectStatement → Result LogicalPlanPtr
unfolding make_seq_scan_plan validate_all_no_column_references is_null_pointer
plan_source statement =
    if not (is_empty statement.table.name) then ok (make_seq_scan_plan statement.table) else (do
      validate_all_no_column_references statement.projections
      (if is_null_pointer statement.where_clause
          then ok tt
          else validate_no_column_references statement.where_clause)
      ok (LogicalPlanPtr.values ([] ∷ []) no_tuples LogicalPlans.no_inputs))

-- the filter of a SELECT
unfoldable pub plan_where : BoundExpressionPtr → LogicalPlanPtr → Result LogicalPlanPtr
unfolding make_filter_plan is_null_pointer
plan_where predicate source =
    if is_null_pointer predicate
    then ok source
    else (do clone ← clone_bound_expression predicate; make_filter_plan clone source)

unfoldable pub plan_select : BoundSelectStatement → Result LogicalPlanPtr
unfolding plan_source plan_where names_mismatch
plan_select statement =
    if is_empty statement.projections
    then err plan_error
    else if names_mismatch statement.projection_names statement.projections
    then err plan_error
    else (do
      source ← plan_source statement
      source' ← plan_where statement.where_clause source
      projections ← clone_bound_expressions statement.projections
      ok (
          LogicalPlanPtr.projection projections statement.projection_names
            (LogicalPlans.input source' LogicalPlans.no_inputs)))

unfoldable pub plan_insert : BoundInsertStatement → Result LogicalPlanPtr
unfolding validate_all_no_column_references
plan_insert statement =
    if is_empty statement.table.name
    then err plan_error
    else if not (length statement.values == length statement.table.schema)
    then err plan_error
    else (do
      validate_all_no_column_references statement.values
      row ← clone_bound_expressions statement.values
      let source = LogicalPlanPtr.values (row ∷ []) no_tuples LogicalPlans.no_inputs
      ok (LogicalPlanPtr.insert statement.table (LogicalPlans.input source LogicalPlans.no_inputs)))

unfoldable pub plan_create_table : CreateTableRequest → Result LogicalPlanPtr
plan_create_table request =
    if is_empty request.name
    then err plan_error
    else if is_empty request.schema
    then err plan_error
    else ok (LogicalPlanPtr.create_table request LogicalPlans.no_inputs)

unfoldable pub plan : BoundStatement → Result LogicalPlanPtr
unfolding plan_select plan_insert plan_create_table
plan (bound_select statement) = plan_select statement
plan (bound_insert statement) = plan_insert statement
plan (bound_create request) = plan_create_table request
