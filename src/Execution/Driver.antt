-- ===== src/Execution/Driver.antt =====
-- `ExecutionDriver` and `DefaultExecutor` of src/execution/default_executor.cpp: plans on the state of
-- the catalog and of the table storage. The result `none` is the exception of the catalog's store, or
-- a scan that ran out of rounds.
pub mod Creation
use matt_sql.Prelude.{ℕ, Option, none, some, List, if◌then◌else◌}
use matt_sql.Common.Status.{Result, ok, err, Status, ◌>>=◌, ◌>>◌, execution_error}
use matt_sql.Catalog.{TableInfo, CreateTableRequest}
use matt_sql.Catalog.Tables.{
  HostedCatalogApi, create_table, drop_table, set_table_heap_root, is_empty,
}
use matt_sql.Binder.Expression.{BoundExpressionPtr, is_null_pointer}
use matt_sql.Storage.TableStorage.{TableStorage, create_heap}
use matt_sql.Planner.Plans.{
  PhysicalPlanPtr, PhysicalPlans, TableStorageReference, is_null_physical, null_physical_inputs,
  require_child_count, require_leaf,
}
use matt_sql.Planner.Logical.{names_mismatch}
use matt_sql.Execution.Rows.{ExecutionResult, QueryResult, no_result, to_query_result}
use matt_sql.Execution.Executor.{
  Transaction, require_active, require_writable, insert_input, project_input, filter_input,
  execute_values, execute_seq_scan,
}

-- The tests before the input is executed.
projection_status : List BoundExpressionPtr → List (List ℕ) → PhysicalPlans → Status
unfolding require_child_count is_null_physical names_mismatch
projection_status projections names children = do
  require_child_count (null_physical_inputs children) 1 execution_error
  (if is_empty projections then err execution_error else ok tt)
  (if names_mismatch names projections then err execution_error else ok tt)

filter_status : BoundExpressionPtr → PhysicalPlans → Status
unfolding require_child_count is_null_physical is_null_pointer
filter_status predicate children = do
  require_child_count (null_physical_inputs children) 1 execution_error
  (if is_null_pointer predicate then err execution_error else ok tt)

module _ (api : HostedCatalogApi) where
  abbrev pub State : Type 0
  State = api.State × TableStorage

  abbrev pub Step : Type 0
  Step = Option (State × Result ExecutionResult)

  -- The early return on a failed input.
  unfoldable pub after : Step → (State → ExecutionResult → Step) → Step
  after none next = none
  after (some (s, err e)) next = some (s, err e)
  after (some (s, ok input)) next = next s input

  -- The early return on a failed test.
  unfoldable pub passing : Status → State → Step → Step
  passing (err e) s next = some (s, err e)
  passing (ok done) s next = next

  unfoldable pub create_rooted : TableInfo → TableStorage → Option (api.State × Status) → Step
  create_rooted table storage none = none
  create_rooted table storage (some (catalog, err e)) =
      some (((drop_table api catalog table.name).0, storage), err e)
  create_rooted table storage (some (catalog, ok done)) = some ((catalog, storage), ok no_result)

  unfoldable pub create_heaped : api.State → TableInfo → TableStorage × Result ℕ → Step
  unfolding create_rooted
  create_heaped catalog table (storage, err e) =
      some (((drop_table api catalog table.name).0, storage), err e)
  create_heaped catalog table (storage, ok heap_root) =
      create_rooted table storage (set_table_heap_root api catalog table.id heap_root)

  unfoldable pub create_catalogued : TableStorage → api.State × Result TableInfo → Step
  unfolding create_heaped
  create_catalogued storage (catalog, err e) = some ((catalog, storage), err e)
  create_catalogued storage (catalog, ok table) =
      create_heaped catalog table (create_heap storage table.id)

  with_storage : api.State → TableStorage × Result ExecutionResult → Step
  with_storage catalog (storage, result) = some ((catalog, storage), result)

  with_result : State → Result ExecutionResult → Step
  with_result s result = some (s, result)

  scanned_in : State → Option (Result ExecutionResult) → Step
  scanned_in s none = none
  scanned_in s (some result) = some (s, result)

  module _ (transaction : Transaction) where
    unfoldable pub execute_create_table : CreateTableRequest → PhysicalPlans → State → Step
    unfolding passing create_catalogued require_leaf require_writable is_null_physical
    execute_create_table request children (catalog, storage) =
        let status =
          require_leaf (null_physical_inputs children) execution_error
          >> require_writable transaction in
        passing status (catalog, storage)
          (create_catalogued storage (create_table api catalog request))

    unfoldable pub execute_insert :
        TableInfo → TableStorageReference → PhysicalPlans → Step → State → Step
    unfolding passing after with_storage require_child_count require_writable is_null_physical
    execute_insert table reference children input s =
        let status =
          require_child_count (null_physical_inputs children) 1 execution_error
          >> require_writable transaction in
        passing status s
          (after input (λ s' rows. with_storage s'.0 (insert_input table reference s'.1 rows)))

    unfoldable pub execute_projection :
        List BoundExpressionPtr → List (List ℕ) → PhysicalPlans → Step → State → Step
    unfolding passing after with_result projection_status
    execute_projection projections names children input s =
        passing (projection_status projections names children) s
          (after input (λ s' rows. with_result s' (project_input projections names rows)))

    unfoldable pub execute_filter : BoundExpressionPtr → PhysicalPlans → Step → State → Step
    unfolding passing after with_result filter_status
    execute_filter predicate children input s =
        passing (filter_status predicate children) s
          (after input (λ s' rows. with_result s' (filter_input predicate rows)))

    -- The reference of the source is a non-null pointer here, and `children[0]` is there: the callers
    -- make the tests.
    unfoldable mutual
      unfolding execute_create_table execute_insert execute_projection execute_filter with_result
          scanned_in

      pub execute_plan : PhysicalPlanPtr → State → Step
      execute_plan PhysicalPlanPtr.null_plan s = some (s, err execution_error)
      execute_plan (PhysicalPlanPtr.create_table request children) s =
          execute_create_table request children s
      execute_plan (PhysicalPlanPtr.insert table reference children) s =
          execute_insert table reference children (execute_first children s) s
      execute_plan (PhysicalPlanPtr.projection projections names children) s =
          execute_projection projections names children (execute_first children s) s
      execute_plan (PhysicalPlanPtr.filter predicate children) s =
          execute_filter predicate children (execute_first children s) s
      execute_plan (PhysicalPlanPtr.values rows tuples children) s =
          with_result s (execute_values rows children)
      execute_plan (PhysicalPlanPtr.seq_scan table reference children) s =
          scanned_in s (execute_seq_scan s.1 table reference children)

      pub execute_first : PhysicalPlans → State → Step
      execute_first PhysicalPlans.no_inputs s = some (s, err execution_error)
      execute_first (PhysicalPlans.input plan plans) s = execute_plan plan s

    queried : Step → Option (State × Result QueryResult)
    queried none = none
    queried (some (s, result)) = some (s, (do rows ← result; ok (to_query_result rows)))

    unfoldable pub execute : PhysicalPlanPtr → State → Option (State × Result QueryResult)
    unfolding queried execute_plan require_active
    execute plan s = elim (require_active transaction) [
      | err e ↦ some (s, err e)
      | ok done ↦ queried (execute_plan plan s)
    ]
