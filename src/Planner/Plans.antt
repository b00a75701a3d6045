-- ===== src/Planner/Plans.antt =====
-- include/mattsql/planner: logical and physical plans, and the tests on their inputs (plan_utils.hpp).
use matt_sql.Prelude.{ℕ, Bool, true, false, not, ◌||◌, List, [], ◌∷◌, length, ◌==◌, if◌then◌else◌}
use matt_sql.Common.Status.{ErrorCode, ok, err, Status}
use matt_sql.Common.Types.{TableSchema}
use matt_sql.Catalog.{TableInfo, CreateTableRequest}
use matt_sql.Binder.Expression.{BoundExpressionPtr}

-- Packed payloads, which the planners copy and no code fills or reads.
pub record TupleBatch : Type 0 where
  pub bytes : List ℕ
  pub offsets : List ℕ

abbrev pub no_tuples : TupleBatch
no_tuples = record { bytes = []; offsets = [] }

-- `TableStorageMethod` has the one value `Heap`, so it is left out here and below.
pub record TableStorageReference : Type 0 where
  pub table_id : ℕ
  pub table_name : List ℕ
  pub root_page_id : ℕ
  pub schema : TableSchema

-- A `LogicalPlanPtr`: the null pointer, or a node of one of the classes, its inputs last.
mutual
  pub data LogicalPlanPtr : Type 0 where
    null_plan : LogicalPlanPtr
    create_table : CreateTableRequest → LogicalPlans → LogicalPlanPtr
    insert : TableInfo → LogicalPlans → LogicalPlanPtr
    projection : List BoundExpressionPtr → List (List ℕ) → LogicalPlans → LogicalPlanPtr
    filter : BoundExpressionPtr → LogicalPlans → LogicalPlanPtr
    values : List (List BoundExpressionPtr) → TupleBatch → LogicalPlans → LogicalPlanPtr
    seq_scan : TableInfo → LogicalPlans → LogicalPlanPtr

  pub data LogicalPlans : Type 0 where
    no_inputs : LogicalPlans
    input : LogicalPlanPtr → LogicalPlans → LogicalPlans

mutual
  pub data PhysicalPlanPtr : Type 0 where
    null_plan : PhysicalPlanPtr
    create_table : CreateTableRequest → PhysicalPlans → PhysicalPlanPtr
    insert : TableInfo → TableStorageReference → PhysicalPlans → PhysicalPlanPtr
    projection : List BoundExpressionPtr → List (List ℕ) → PhysicalPlans → PhysicalPlanPtr
    filter : BoundExpressionPtr → PhysicalPlans → PhysicalPlanPtr
    values : List (List BoundExpressionPtr) → TupleBatch → PhysicalPlans → PhysicalPlanPtr
    seq_scan : TableInfo → TableStorageReference → PhysicalPlans → PhysicalPlanPtr

  pub data PhysicalPlans : Type 0 where
    no_inputs : PhysicalPlans
    input : PhysicalPlanPtr → PhysicalPlans → PhysicalPlans

-- `== nullptr`, of a plan and of each of its inputs
unfoldable pub is_null_logical : LogicalPlanPtr → Bool
is_null_logical LogicalPlanPtr.null_plan = true
is_null_logical _ = false

unfoldable pub is_null_physical : PhysicalPlanPtr → Bool
is_null_physical PhysicalPlanPtr.null_plan = true
is_null_physical _ = false

abbrev pub null_logical_inputs : LogicalPlans → List Bool
null_logical_inputs LogicalPlans.no_inputs = []
null_logical_inputs (LogicalPlans.input plan plans) =
    is_null_logical plan ∷ null_logical_inputs plans

abbrev pub null_physical_inputs : PhysicalPlans → List Bool
null_physical_inputs PhysicalPlans.no_inputs = []
null_physical_inputs (PhysicalPlans.input plan plans) =
    is_null_physical plan ∷ null_physical_inputs plans

abbrev any : List Bool → Bool
any [] = false
any (b ∷ bs) = b || any bs

-- On the inputs of a plan of either kind, as tests on their pointers.
unfoldable pub require_child_count : List Bool → ℕ → ErrorCode → Status
require_child_count null_inputs expected code =
    if not (length null_inputs == expected)
    then err code
    else if any null_inputs
    then err code
    else ok tt

unfoldable pub require_leaf : List Bool → ErrorCode → Status
unfolding require_child_count
require_leaf null_inputs code = require_child_count null_inputs 0 code
