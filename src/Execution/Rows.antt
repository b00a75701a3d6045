-- ===== src/Execution/Rows.antt =====
-- The loops over rows in src/execution/default_executor.cpp.
pub mod Scanning
use matt_sql.Prelude.{
  ℕ, zero, suc, ◌+◌, ◌%◌, ◌^◌, true, not, ◌&&◌, Option, none, some, List, [], ◌∷◌, get_or,
  if◌then◌else◌,
}
use matt_sql.Common.Status.{Result, ok, err, ◌>>=◌, ◌>>◌, execution_error}
use matt_sql.Common.Types.{Value, TableSchema}
use matt_sql.Common.Values.{require_boolean}
use matt_sql.Catalog.Tables.{is_empty, is_not_found}
use matt_sql.Binder.Expression.{BoundExpressionPtr, is_null_pointer}
use matt_sql.Binder.Binding.{type_of}
use matt_sql.Storage.SlottedPage.{Page, RecordView, slot_count}
use matt_sql.Storage.Heap.{HeapTable, Cursor, next}
use matt_sql.Storage.TupleCodec.{decode}
use matt_sql.Execution.Evaluator.{
  EvaluationContext, evaluate, evaluate_expressions, projection_name,
}

pub record ExecutionResult : Type 0 where
  pub columns : List (List ℕ)
  pub schema : TableSchema
  pub rows : List (List Value)

pub record QueryResult : Type 0 where
  pub columns : List (List ℕ)
  pub rows : List (List Value)

-- `ExecutionResult{}`
abbrev pub no_result : ExecutionResult
no_result = record { columns = []; schema = []; rows = [] }

unfoldable pub to_query_result : ExecutionResult → QueryResult
to_query_result result = record { columns = result.columns; rows = result.rows }

abbrev pub context_of : TableSchema → List Value → EvaluationContext
context_of schema row = record { schema = some schema; row = some row }

-- The loop over the projections for the columns; `index` of them are done.
unfoldable pub project_columns : ℕ → List (List ℕ) → List BoundExpressionPtr → Result TableSchema
unfolding projection_name type_of is_null_pointer
project_columns index names [] = ok []
project_columns index names (projection ∷ projections) = do
  (if is_null_pointer projection then err execution_error else ok tt)
  rest ← project_columns (index + 1) names projections
  ok (
      record {
        name =
            if not (is_empty names) && not (is_empty (get_or names index []))
            then get_or names index []
            else projection_name projection index;
        type = type_of projection;
        nullable = true;
        id = index % 2 ^ 32;
      }
      ∷ rest)

unfoldable pub project_rows :
    List BoundExpressionPtr → TableSchema → List (List Value) → Result (List (List Value))
project_rows projections schema [] = ok []
project_rows projections schema (row ∷ rows) = do
  projected ← evaluate_expressions projections (context_of schema row)
  rest ← project_rows projections schema rows
  ok (projected ∷ rest)

unfoldable pub filter_rows :
    BoundExpressionPtr → TableSchema → List (List Value) → Result (List (List Value))
filter_rows predicate schema [] = ok []
filter_rows predicate schema (row ∷ rows) = do
  value ← evaluate predicate (context_of schema row)
  include ← require_boolean value
  rest ← filter_rows predicate schema rows
  ok (if include then row ∷ rest else rest)

unfoldable pub evaluate_rows : List (List BoundExpressionPtr) → Result (List (List Value))
evaluate_rows [] = ok []
evaluate_rows (row ∷ rows) = do
  values ← evaluate_expressions row (record { schema = none; row = none })
  rest ← evaluate_rows rows
  ok (values ∷ rest)

-- The rest of a round, on the row and the outcome of the later rounds.
scan_decoded :
    Result (List Value) → Option (Result (List (List Value))) → Option (Result (List (List Value)))
scan_decoded (err e) rest = some (err e)
scan_decoded (ok row) none = none
scan_decoded (ok row) (some later) = some (do rows ← later; ok (row ∷ rows))

-- One round of the scan, on what `Next` gave and the outcome of the later rounds.
unfoldable pub scan_step :
    TableSchema
    → Result RecordView
    → Option (Result (List (List Value)))
    → Option (Result (List (List Value)))
unfolding scan_decoded
scan_step schema (err e) rest = if is_not_found e then some (ok []) else some (err e)
scan_step schema (ok view) rest = scan_decoded (decode schema view.bytes) rest

-- The loop of a scan with the rounds that are left; `none` if they run out.
unfoldable pub scan_rows :
    ℕ → HeapTable → Cursor → TableSchema → Option (Result (List (List Value)))
unfolding scan_step
scan_rows zero table cursor schema = none
scan_rows (suc rounds) table cursor schema =
    let (cursor', result) = next table cursor in
    scan_step schema result (scan_rows rounds table cursor' schema)

abbrev pub slots_in : List Page → ℕ
slots_in [] = 0
slots_in (page ∷ pages) = slot_count page + slots_in pages

-- A round for each slot, and one for the end.
abbrev pub scan_limit : HeapTable → ℕ
scan_limit table = suc (slots_in table.pages)
