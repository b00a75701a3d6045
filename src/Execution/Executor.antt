-- ===== src/Execution/Executor.antt =====
-- src/execution/default_executor.cpp, over the interface of the catalog's store, the table storage in
-- memory and the default tuple codec.
pub mod Insertion
use matt_sql.Prelude.{ℕ, not, Option, none, some, List, [], ◌∷◌, length, map, ◌==◌, if◌then◌else◌}
use matt_sql.Common.Status.{
  Result, ok, err, Status, ◌>>=◌, ◌>>◌, execution_error, transaction_conflict, not_found,
}
use matt_sql.Common.Types.{Value, TableSchema, ColumnSchema}
use matt_sql.Catalog.{TableInfo}
use matt_sql.Binder.Expression.{BoundExpressionPtr}
use matt_sql.Storage.Heap.{HeapTable}
use matt_sql.Storage.TableStorage.{TableStorage, open_heap, heap_of, insert_record}
use matt_sql.Storage.TupleCodec.{encode}
use matt_sql.Planner.Plans.{
  PhysicalPlans, TableStorageReference, is_null_physical, null_physical_inputs, require_leaf,
}
use matt_sql.Execution.Rows.{
  ExecutionResult, no_result, project_columns, project_rows, filter_rows, evaluate_rows, scan_rows,
  scan_limit,
}

pub data TransactionMode : Type 0 where
  read_only read_write : TransactionMode

pub data TransactionState : Type 0 where
  active committed rolled_back aborted : TransactionState

pub record Transaction : Type 0 where
  pub mode : TransactionMode
  pub state : TransactionState

unfoldable pub active_status : TransactionState → Status
active_status active = ok tt
active_status _ = err transaction_conflict

unfoldable pub writable_status : TransactionMode → Status
writable_status read_write = ok tt
writable_status read_only = err transaction_conflict

unfoldable pub require_active : Transaction → Status
unfolding active_status
require_active transaction = active_status transaction.state

unfoldable pub require_writable : Transaction → Status
unfolding require_active writable_status
require_writable transaction = require_active transaction >> writable_status transaction.mode

-- The loop of `execute_insert`, on the heap of the handle.
unfoldable pub insert_encoded : TableStorage → ℕ → Result (List ℕ) → TableStorage × Status
insert_encoded storage handle (err e) = (storage, err e)
insert_encoded storage handle (ok tuple) =
    let (storage', inserted) = insert_record storage handle tuple in
    (storage', inserted >>= λ id. ok tt)

-- The later rows, if the one before them was inserted.
insert_later :
    (TableStorage → TableStorage × Status) → TableStorage × Status → TableStorage × Status
insert_later rest (storage, err e) = (storage, err e)
insert_later rest (storage, ok done) = rest storage

unfoldable pub insert_rows :
    TableSchema → ℕ → List (List Value) → TableStorage → TableStorage × Status
unfolding insert_encoded insert_later
insert_rows schema handle [] storage = (storage, ok tt)
insert_rows schema handle (row ∷ rows) storage =
    if not (length row == length schema)
    then (storage, err execution_error)
    else insert_later (λ s. insert_rows schema handle rows s)
        (insert_encoded storage handle (encode schema row))

inserted_rows : TableStorage × Status → TableStorage × Result ExecutionResult
inserted_rows (storage, status) = (storage, status >> ok no_result)

insert_opened :
    TableSchema
    → Result ℕ
    → List (List Value)
    → TableStorage
    → TableStorage × Result ExecutionResult
unfolding insert_rows inserted_rows
insert_opened schema (err e) rows storage = (storage, err e)
insert_opened schema (ok handle) rows storage =
    inserted_rows (insert_rows schema handle rows storage)

-- The part of `execute_insert` behind the input's execution.
unfoldable pub insert_input :
    TableInfo
    → TableStorageReference
    → TableStorage
    → ExecutionResult
    → TableStorage × Result ExecutionResult
unfolding insert_opened
insert_input table reference storage input =
    insert_opened table.schema (open_heap storage reference.table_id reference.root_page_id)
      input.rows storage

unfoldable pub project_input :
    List BoundExpressionPtr → List (List ℕ) → ExecutionResult → Result ExecutionResult
project_input projections names input = do
  columns ← project_columns 0 names projections
  rows ← project_rows projections input.schema input.rows
  ok (record {
    columns = map (λ (c : ColumnSchema). c.name) columns;
    schema = columns;
    rows = rows;
  })

unfoldable pub filter_input : BoundExpressionPtr → ExecutionResult → Result ExecutionResult
filter_input predicate input = do
  rows ← filter_rows predicate input.schema input.rows
  ok (record { columns = input.columns; schema = input.schema; rows = rows })

unfoldable pub execute_values :
    List (List BoundExpressionPtr) → PhysicalPlans → Result ExecutionResult
unfolding require_leaf is_null_physical
execute_values rows children = do
  require_leaf (null_physical_inputs children) execution_error
  evaluated ← evaluate_rows rows
  ok (record no_result { rows = evaluated })

scanned : TableSchema → Option (Result (List (List Value))) → Option (Result ExecutionResult)
scanned schema none = none
scanned schema (some result) = some (do
  rows ← result
  ok (record { columns = map (λ (c : ColumnSchema). c.name) schema; schema = schema; rows = rows }))

scan_heap : TableSchema → Option HeapTable → Option (Result ExecutionResult)
unfolding scanned
scan_heap schema none = some (err not_found)
scan_heap schema (some heap) =
    scanned schema
      (scan_rows (scan_limit heap) heap (record { page_index = 0; slot_id = 0 }) schema)

scan_opened : TableStorage → TableSchema → Result ℕ → Option (Result ExecutionResult)
unfolding scan_heap
scan_opened storage schema (err e) = some (err e)
scan_opened storage schema (ok handle) = scan_heap schema (heap_of storage handle)

-- `none` if the rounds of the loop ran out.
unfoldable pub execute_seq_scan :
    TableStorage
    → TableInfo
    → TableStorageReference
    → PhysicalPlans
    → Option (Result ExecutionResult)
unfolding scan_opened require_leaf is_null_physical
execute_seq_scan storage table reference children =
    elim (require_leaf (null_physical_inputs children) execution_error) [
      | err e ↦ some (err e)
      | ok done ↦
          scan_opened storage table.schema
            (open_heap storage reference.table_id reference.root_page_id)
    ]
