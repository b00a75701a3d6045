-- ===== src/Storage/TableStorage/Opening.antt =====
-- `CreateHeap` against `OpenHeap` and `RecordCount`.
use matt_sql.Prelude.{ℕ, ◌≡◌, refl, ap, inl, inr, true, false, some, ◌∷◌, ◌==◌, arith, Bool-cases}
use matt_sql.Common.Status.{ok}
use matt_sql.Common.Maps.{number_eq, find, contains, find-emplace_self, find-emplace_other}
use matt_sql.Storage.Heap.{invalid_page_id}
use matt_sql.Storage.TableStorage.{
  TableStorage, TableData, create_heap, open_heap, opened, record_count, counted, new_heap,
}

created_lem :
    (s : TableStorage) (table_id : ℕ) {s' : TableStorage} {root : ℕ}
    → create_heap s table_id ≡ (s', ok root)
    → (root ≡ s.next_root_page_id)
      × (s'.tables
          ≡ (table_id, record { table_id = table_id; root_page_id = root; heap = new_heap root })
            ∷ s.tables)
unfolding create_heap
created_lem s table_id {s'} {root} h = elim (Bool-cases (contains number_eq s.tables table_id)) [
  | inl there ↦ absurd (ground arith)
  | inr absent ↦ elim (Bool-cases (s.next_root_page_id == invalid_page_id)) [
    | inl full ↦ absurd (ground arith)
    | inr room ↦ (ground arith, ground arith)
  ]
]

-- The heap that `CreateHeap` made for a table is opened by the table's id and the root that it
-- returned, and counts no record; every other table is opened and counted as before.
pub open_heap-create_heap :
    (s : TableStorage) (table_id other root' : ℕ) {s' : TableStorage} {root : ℕ}
    → create_heap s table_id ≡ (s', ok root)
    → (table_id == other) ≡ false
    → (open_heap s' table_id root ≡ ok table_id)
      × (record_count s' table_id ≡ ok 0)
      × (open_heap s' other root' ≡ open_heap s other root')
      × (record_count s' other ≡ record_count s other)
unfolding open_heap record_count
open_heap-create_heap s table_id other root' {s'} {root} h differ =
    let (same, tables) = created_lem s table_id h in
    let made : TableData = record {
      table_id = table_id;
      root_page_id = root;
      heap = new_heap root;
    } in
    let here : find number_eq s'.tables table_id ≡ some made =
      rw tables (find-emplace_self number_eq s.tables table_id made) in
    let there : find number_eq s'.tables other ≡ find number_eq s.tables other =
      rw tables (find-emplace_other number_eq s.tables table_id other made differ) in
    let root_same : (root == root) ≡ true = ground arith in
    (
      rw (open_heap, here) (rw root_same refl),
      ap counted here,
      ap (λ o. opened o other root') there,
      ap counted there,
    )
