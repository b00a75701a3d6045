-- ===== src/Storage/TableStorage/Handles.antt =====
-- The calls of a heap through its handle (src/storage/in_memory_table_storage.cpp).
use matt_sql.Prelude.{ℕ, ◌≡◌, ◌==◌, sym, ap, ◌∙◌, false, some, List, inl, inr, Option-cases}
use matt_sql.Common.Maps.{number_eq, find, find-assign_self, find-assign_other}
use matt_sql.Storage.Heap.{HeapTable, insert}
use matt_sql.Storage.TableStorage.{TableStorage, TableData, heap_of, heap_found, insert_record}

heap_of-find :
    (s : TableStorage) (handle : ℕ) {heap : HeapTable}
    → heap_of s handle ≡ some heap
    → (d : TableData) × (find number_eq s.tables handle ≡ some d) × (d.heap ≡ heap)
unfolding heap_of
heap_of-find s handle {heap} h = elim (Option-cases (find number_eq s.tables handle)) [
  | inl absent ↦ absurd (cc (sym (ap heap_found absent) ∙ h))
  | inr (d, found) ↦
      let same : some d.heap ≡ some heap = sym (ap heap_found found) ∙ h in (d, found, cc same)
]

-- `Insert` through a handle is that of its heap, and changes no other heap.
pub insert_record_lem :
    (s : TableStorage) (handle : ℕ) (bytes : List ℕ) {heap : HeapTable}
    → heap_of s handle ≡ some heap
    → (heap_of (insert_record s handle bytes).0 handle ≡ some (insert heap bytes).0)
      × ((insert_record s handle bytes).1 ≡ (insert heap bytes).1)
      × ((other : ℕ)
          → (handle == other) ≡ false
          → heap_of (insert_record s handle bytes).0 other ≡ heap_of s other)
unfolding insert_record heap_of
insert_record_lem s handle bytes {heap} h =
    let (d, found, same) = heap_of-find s handle h in
    let d' : TableData = record d { heap = (insert d.heap bytes).0 } in
    rw (insert_record, found)
      (
        rw (heap_of, find-assign_self number_eq s.tables handle d' found)
            (ap (λ t. some (insert t bytes).0) same),
        ap (λ t. (insert t bytes).1) same,
        λ other differ. ap heap_found (find-assign_other number_eq s.tables handle other d' differ),
      )
