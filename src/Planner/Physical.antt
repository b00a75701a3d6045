-- ===== src/Planner/Physical.antt =====
-- src/planner/default_physical_planner.cpp. The function of a node is given the plans of its inputs,
-- which the source makes behind the tests on the node.
use matt_sql.Prelude.{ℕ, not, List, if◌then◌else◌}
use matt_sql.Common.Status.{Result, ok, err, ◌>>=◌, ◌>>◌, plan_error, type_mismatch}
use matt_sql.Common.Types.{boolean_type}
use matt_sql.Common.Values.{type_eq}
use matt_sql.Catalog.{TableInfo, CreateTableRequest}
use matt_sql.Catalog.Tables.{is_empty}
use matt_sql.Binder.Expression.{
  BoundExpressionPtr, is_null_pointer, clone_bound_expression, clone_bound_expressions,
  clone_bound_expression_rows,
}
use matt_sql.Binder.Binding.{type_of}
use matt_sql.Planner.Plans.{
  LogicalPlanPtr, LogicalPlans, PhysicalPlanPtr, PhysicalPlans, TupleBatch, TableStorageReference,
  is_null_logical, null_logical_inputs, require_child_count, require_leaf,
}
use matt_sql.Planner.Logical.{names_mismatch}

unfoldable pub make_table_storage_reference : TableInfo → TableStorageReference
make_table_storage_reference table = record {
  table_id = table.id;
  table_name = table.name;
  root_page_id = table.heap_root_page_id;
  schema = table.schema;
}

unfoldable pub plan_create_table : CreateTableRequest → LogicalPlans → Result PhysicalPlanPtr
unfolding require_leaf is_null_logical
plan_create_table request children = do
  require_leaf (null_logical_inputs children) plan_error
  (if is_empty request.name then err plan_error else ok tt)
  (if is_empty request.schema then err plan_error else ok tt)
  ok (PhysicalPlanPtr.create_table request PhysicalPlans.no_inputs)

unfoldable pub plan_values :
    List (List BoundExpressionPtr) → TupleBatch → LogicalPlans → Result PhysicalPlanPtr
unfolding require_leaf is_null_logical
plan_values rows tuples children = do
  require_leaf (null_logical_inputs children) plan_error
  clones ← clone_bound_expression_rows rows
  ok (PhysicalPlanPtr.values clones tuples PhysicalPlans.no_inputs)

unfoldable pub plan_seq_scan : TableInfo → LogicalPlans → Result PhysicalPlanPtr
unfolding require_leaf is_null_logical make_table_storage_reference
plan_seq_scan table children = do
  require_leaf (null_logical_inputs children) plan_error
  (if is_empty table.name then err plan_error else ok tt)
  ok (PhysicalPlanPtr.seq_scan table (make_table_storage_reference table) PhysicalPlans.no_inputs)

unfoldable pub plan_filter :
    BoundExpressionPtr → LogicalPlans → Result PhysicalPlans → Result PhysicalPlanPtr
unfolding require_child_count is_null_logical is_null_pointer type_of type_eq
plan_filter predicate children planned = do
  require_child_count (null_logical_inputs children) 1 plan_error
  (if is_null_pointer predicate then err plan_error else ok tt)
  (if not (type_eq (type_of predicate) boolean_type) then err type_mismatch else ok tt)
  inputs ← planned
  clone ← clone_bound_expression predicate
  ok (PhysicalPlanPtr.filter clone inputs)

unfoldable pub plan_projection :
    List BoundExpressionPtr
    → List (List ℕ)
    → LogicalPlans
    → Result PhysicalPlans
    → Result PhysicalPlanPtr
unfolding require_child_count is_null_logical names_mismatch
plan_projection projections names children planned = do
  require_child_count (null_logical_inputs children) 1 plan_error
  (if is_empty projections then err plan_error else ok tt)
  (if names_mismatch names projections then err plan_error else ok tt)
  inputs ← planned
  clones ← clone_bound_expressions projections
  ok (PhysicalPlanPtr.projection clones names inputs)

unfoldable pub plan_insert :
    TableInfo → LogicalPlans → Result PhysicalPlans → Result PhysicalPlanPtr
unfolding require_child_count is_null_logical make_table_storage_reference
plan_insert table children planned = do
  require_child_count (null_logical_inputs children) 1 plan_error
  (if is_empty table.name then err plan_error else ok tt)
  inputs ← planned
  ok (PhysicalPlanPtr.insert table (make_table_storage_reference table) inputs)

-- The reference of the source is a non-null pointer here: the callers make the test.
unfoldable mutual
  unfolding plan_create_table plan_values plan_seq_scan plan_filter plan_projection plan_insert
      is_null_logical

  pub plan_node : LogicalPlanPtr → Result PhysicalPlanPtr
  plan_node LogicalPlanPtr.null_plan = err plan_error
  plan_node (LogicalPlanPtr.create_table request children) = plan_create_table request children
  plan_node (LogicalPlanPtr.insert table children) =
      plan_insert table children (plan_children children)
  plan_node (LogicalPlanPtr.projection projections names children) =
      plan_projection projections names children (plan_children children)
  plan_node (LogicalPlanPtr.filter predicate children) =
      plan_filter predicate children (plan_children children)
  plan_node (LogicalPlanPtr.values rows tuples children) = plan_values rows tuples children
  plan_node (LogicalPlanPtr.seq_scan table children) = plan_seq_scan table children

  pub plan_children : LogicalPlans → Result PhysicalPlans
  plan_children LogicalPlans.no_inputs = ok PhysicalPlans.no_inputs
  plan_children (LogicalPlans.input child children) =
      let planned = plan_node child in
      let rest = plan_children children in
      if is_null_logical child
      then err plan_error
      else (do plan ← planned; plans ← rest; ok (PhysicalPlans.input plan plans))
