-- ===== src/Storage/TableStorage.antt =====
-- src/storage/in_memory_table_storage.cpp: the heaps of the tables. The handles that `OpenHeap` gives
-- share the heap that the manager holds, so a handle is the id of its table. The transaction is not
-- used.
pub mod Opening
pub mod Handles
mod Examples
use matt_sql.Prelude.{
  ℕ, ◌+◌, ◌-◌, ◌^◌, Bool, true, false, not, Option, none, some, List, [], ◌==◌, if◌then◌else◌,
}
use matt_sql.Common.Status.{Result, ok, err, ◌>>=◌, already_exists, internal, not_found, corruption}
use matt_sql.Common.Maps.{Map, number_eq, find, contains, emplace, assign}
use matt_sql.Storage.Heap.{HeapTable, RecordId, insert, invalid_page_id}

abbrev pub default_page_size : ℕ
default_page_size = 4096

-- `InMemoryTableData`; its id is the key that it stands under.
pub record TableData : Type 0 where
  pub table_id : ℕ
  pub root_page_id : ℕ
  pub heap : HeapTable

pub record TableStorage : Type 0 where
  pub next_root_page_id : ℕ
  pub tables : Map ℕ TableData

-- The constructor of `PageHeapTable`.
abbrev pub new_heap : ℕ → HeapTable
new_heap root_page_id = record {
  root_page_id = root_page_id;
  page_size = default_page_size;
  active_records = 0;
  pages = [];
}

unfoldable pub create_heap : TableStorage → ℕ → TableStorage × Result ℕ
create_heap s table_id =
    if contains number_eq s.tables table_id
    then (s, err already_exists)
    else if s.next_root_page_id == invalid_page_id
    then (s, err internal)
    else (let root_page_id = s.next_root_page_id in
        (
          record {
            next_root_page_id = root_page_id + 1;
            tables = emplace number_eq s.tables table_id (record {
              table_id = table_id;
              root_page_id = root_page_id;
              heap = new_heap root_page_id;
            });
          },
          ok root_page_id,
        ))

opened : Option TableData → ℕ → ℕ → Result ℕ
opened none table_id root_page_id = err not_found
opened (some data') table_id root_page_id =
    if not (root_page_id == data'.root_page_id) then err corruption else ok table_id

-- `OpenHeap`; the method of a reference is always a heap.
unfoldable pub open_heap : TableStorage → ℕ → ℕ → Result ℕ
unfolding opened
open_heap s table_id root_page_id = opened (find number_eq s.tables table_id) table_id root_page_id

counted : Option TableData → Result ℕ
counted none = err not_found
counted (some data') = ok data'.heap.active_records

unfoldable pub record_count : TableStorage → ℕ → Result ℕ
unfolding counted
record_count s table_id = counted (find number_eq s.tables table_id)

heap_found : Option TableData → Option HeapTable
heap_found none = none
heap_found (some data') = some data'.heap

-- The heap that a handle shares with the manager.
unfoldable pub heap_of : TableStorage → ℕ → Option HeapTable
unfolding heap_found
heap_of s handle = heap_found (find number_eq s.tables handle)

with_heap :
    TableStorage → ℕ → TableData → HeapTable × Result RecordId → TableStorage × Result RecordId
with_heap s handle data' (heap, result) =
    (record s { tables = assign number_eq s.tables handle (record data' { heap = heap }) }, result)

inserted_in : TableStorage → ℕ → List ℕ → Option TableData → TableStorage × Result RecordId
unfolding with_heap
inserted_in s handle record_bytes none = (s, err not_found)
inserted_in s handle record_bytes (some data') =
    with_heap s handle data' (insert data'.heap record_bytes)

-- `Insert` through a handle. A handle's heap is always there: the manager drops none.
unfoldable pub insert_record : TableStorage → ℕ → List ℕ → TableStorage × Result RecordId
unfolding inserted_in
insert_record s handle record_bytes =
    inserted_in s handle record_bytes (find number_eq s.tables handle)
