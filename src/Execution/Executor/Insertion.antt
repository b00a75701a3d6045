-- ===== src/Execution/Executor/Insertion.antt =====
-- `execute_insert` of src/execution/default_executor.cpp against the scan of the table.
use matt_sql.Prelude.{
  ℕ, ◌≡◌, ◌==◌, refl, ap, sym, ◌∙◌, false, some, List, [], ◌∷◌, length, inl, inr, Bool-cases, All,
}
use matt_sql.Common.Status.{ok, outcome, succeeds, fails}
use matt_sql.Common.Types.{Value, TableSchema}
use matt_sql.Storage.ByteIo.LittleEndian.{IsByte}
use matt_sql.Storage.SlottedPage.{RecordView}
use matt_sql.Storage.Heap.{HeapTable, RecordId, read, insert}
use matt_sql.Storage.Heap.Records.{IsHeap, read-insert_stored, read-insert_kept}
use matt_sql.Storage.TableStorage.{TableStorage, heap_of, insert_record}
use matt_sql.Storage.TableStorage.Handles.{insert_record_lem}
use matt_sql.Storage.TupleCodec.{encode, decode}
use matt_sql.Storage.TupleCodec.Field.{IsValue}
use matt_sql.Storage.TupleCodec.RoundTrip.{decode-encode, row_bytes, row_bytes-IsByte, encode_lem}
use matt_sql.Storage.TupleCodec.Canonical.{encode-AcceptsRow}
use matt_sql.Execution.Rows.{scan_rows, scan_limit}
use matt_sql.Execution.Rows.Scanning.{Lists, first_slot, scan_rows-read}
use matt_sql.Execution.Executor.{insert_rows}

-- Some record of the heap is read as the row.
abbrev pub IsRecorded : HeapTable → TableSchema → List Value → Type 0
IsRecorded heap schema row =
    (id : RecordId) × (v : RecordView) × (read heap id ≡ ok v) × (decode schema v.bytes ≡ ok row)

-- What inserting rows must leave behind.
pub record Inserted (schema : TableSchema) (handle : ℕ) (storage : TableStorage) (heap : HeapTable)
    (rows : List (List Value)) (storage' : TableStorage) : Type 0 where
  pub heap' : HeapTable
  pub there : heap_of storage' handle ≡ some heap'
  pub is_heap : IsHeap heap'
  pub recorded : All (IsRecorded heap' schema) rows
  pub kept : (row : List Value) → IsRecorded heap schema row → IsRecorded heap' schema row
  pub others :
      (other : ℕ) → (handle == other) ≡ false → heap_of storage' other ≡ heap_of storage other

encoded_lem :
    (schema : TableSchema) (row : List Value) {tuple : List ℕ}
    → All IsValue row
    → encode schema row ≡ ok tuple
    → (decode schema tuple ≡ ok row) × All IsByte tuple
encoded_lem schema row {tuple} w e =
    let accepted = encode-AcceptsRow schema row e in
    let same : row_bytes row ≡ tuple = cc (encode_lem schema row accepted, e) in
    (rw e at (decode-encode schema row w accepted), rw same at (row_bytes-IsByte row w))

-- One row that was inserted.
insert_tuple_lem :
    (schema : TableSchema) (handle : ℕ) (storage : TableStorage) (row : List Value)
    {heap : HeapTable} {tuple : List ℕ} {id : RecordId}
    → heap_of storage handle ≡ some heap
    → IsHeap heap
    → All IsValue row
    → encode schema row ≡ ok tuple
    → (insert_record storage handle tuple).1 ≡ ok id
    → Inserted schema handle storage heap (row ∷ []) (insert_record storage handle tuple).0
insert_tuple_lem schema handle storage row {heap} {tuple} {id} at h w e placed =
    let (decoded, bytes) = encoded_lem schema row w e in
    let (there, result, others) = insert_record_lem storage handle tuple at in
    let inserted : insert heap tuple ≡ ((insert heap tuple).0, ok id) =
      ap (λ r. ((insert heap tuple).0, r)) (sym result ∙ placed) in
    let (is_heap, stored) = read-insert_stored heap tuple h bytes inserted in
    record {
      heap' = (insert heap tuple).0;
      there = there;
      is_heap = is_heap;
      recorded = ((id, _, stored, decoded), tt);
      kept = λ row' (i, v, found, d). (i, v, (read-insert_kept heap tuple i h bytes found).1, d);
      others = others;
    }

-- An INSERT that succeeds into an open table records every row, keeps the rows that were recorded and
-- the heaps of the other tables, and leaves a heap.
pub insert_rows-Inserted :
    (schema : TableSchema) (handle : ℕ) (rows : List (List Value)) (storage : TableStorage)
    {heap : HeapTable} {storage' : TableStorage}
    → heap_of storage handle ≡ some heap
    → IsHeap heap
    → All (All IsValue) rows
    → insert_rows schema handle rows storage ≡ (storage', ok tt)
    → Inserted schema handle storage heap rows storage'
unfolding insert_rows
insert_rows-Inserted schema handle [] storage {heap} {storage'} at h w e =
    let same : storage ≡ storage' = ap (λ p. p.0) e in
    rw (← same) (record {
      heap' = heap;
      there = at;
      is_heap = h;
      recorded = tt;
      kept = λ row d. d;
      others = λ other differ. refl;
    })
insert_rows-Inserted schema handle (row ∷ rows) storage {heap} {storage'} at h w e =
    elim (Bool-cases (length row == length schema)) [
      | inr differ ↦ absurd (cc (rw differ at e))
      | inl same ↦ elim (outcome (encode schema row)) [
        | fails c failed ↦ absurd (cc (rw (same, failed) at e))
        | succeeds tuple done ↦ elim (outcome (insert_record storage handle tuple).1) [
          | fails c failed ↦ absurd (cc (rw (same, done, failed) at e))
          | succeeds id placed ↦
              let first = insert_tuple_lem schema handle storage row at h w.0 done placed in
              let rest =
                insert_rows-Inserted schema handle rows (insert_record storage handle tuple).0
                  first.there first.is_heap w.1 (rw (same, done, placed) at e) in
              record {
                heap' = rest.heap';
                there = rest.there;
                is_heap = rest.is_heap;
                recorded = (rest.kept row first.recorded.0, rest.recorded);
                kept = λ row' d. rest.kept row' (first.kept row' d);
                others = λ other differ. rest.others other differ ∙ first.others other differ;
              }
        ]
      ]
    ]

listed :
    (schema : TableSchema) (heap : HeapTable) (row : List Value) {result : List (List Value)}
    → IsRecorded heap schema row
    → scan_rows (scan_limit heap) heap first_slot schema ≡ some (ok result)
    → Lists result row
listed schema heap row (id, v, found, decoded) s = scan_rows-read heap schema id found decoded s

listed_all :
    (schema : TableSchema) (heap : HeapTable) (rows : List (List Value))
    {result : List (List Value)}
    → All (IsRecorded heap schema) rows
    → scan_rows (scan_limit heap) heap first_slot schema ≡ some (ok result)
    → All (Lists result) rows
listed_all schema heap [] d s = tt
listed_all schema heap (row ∷ rows) d s =
    (listed schema heap row d.0 s, listed_all schema heap rows d.1 s)

-- A table that an INSERT succeeded on: a scan of it that succeeds has every inserted row, and every
-- row that was recorded before; the heaps of the other tables are as they were.
pub insert_rows-scan_rows :
    (schema : TableSchema) (handle : ℕ) (rows : List (List Value)) (storage : TableStorage)
    {heap heap' : HeapTable} {storage' : TableStorage} {result : List (List Value)}
    → heap_of storage handle ≡ some heap
    → IsHeap heap
    → All (All IsValue) rows
    → insert_rows schema handle rows storage ≡ (storage', ok tt)
    → heap_of storage' handle ≡ some heap'
    → scan_rows (scan_limit heap') heap' first_slot schema ≡ some (ok result)
    → All (Lists result) rows
      × ((row : List Value) → IsRecorded heap schema row → Lists result row)
      × ((other : ℕ) → (handle == other) ≡ false → heap_of storage' other ≡ heap_of storage other)
insert_rows-scan_rows schema handle rows storage {heap} {heap'} {storage'} {result} at h w e at' s =
    let inserted = insert_rows-Inserted schema handle rows storage at h w e in
    let same : inserted.heap' ≡ heap' = cc (inserted.there, at') in
    (
      listed_all schema heap' rows (rw same at inserted.recorded) s,
      λ row d. listed schema heap' row (rw same at (inserted.kept row d)) s,
      inserted.others,
    )
