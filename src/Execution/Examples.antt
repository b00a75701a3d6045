-- ===== src/Execution/Examples.antt =====
-- Runs of the executor on a table of one boolean column, and the theorems on it at them.
use matt_sql.Prelude.{
  ℕ, ◌≡◌, ◌==◌, refl, true, false, some, replicate, ◌++◌, List, [], ◌∷◌, arith, All,
}
use matt_sql.Common.Status.{ok}
use matt_sql.Common.Maps.{find, assign}
use matt_sql.Common.Types.{Value, boolean, boolean_type, TableSchema}
use matt_sql.Lexer.{codes}
use matt_sql.Catalog.{CreateTableRequest}
use matt_sql.Catalog.Hosted.{new_hosted}
use matt_sql.Catalog.Tables.{in_memory_api}
use matt_sql.Storage.ByteIo.{append_byte}
use matt_sql.Storage.SlottedPage
use matt_sql.Storage.SlottedPage.{
  heap, initialize, slot_count, validate_page, find_deleted_slot, find_deleted_from, write_slot,
  write_u16, read_slot, read_u16, live_slot, validate_slot_bounds,
}
use matt_sql.Storage.Heap.Scan.{entries_from}
use matt_sql.Planner.Plans.{PhysicalPlans}
use matt_sql.Storage.Heap.{
  HeapTable, insert, insert_in_pages, allocate_page, new_frame, next_page_id, next, next_from,
  scan_slots,
}
use matt_sql.Storage.TableStorage.{TableStorage, heap_of, insert_record}
use matt_sql.Storage.TupleCodec.{encode, decode, encode_field, decode_field}
use matt_sql.Execution.Rows.{scan_rows, scan_limit}
use matt_sql.Execution.Rows.Scanning.{Lists, first_slot, decode_entries, scan_rows_lem}
use matt_sql.Execution.Executor.{insert_rows, read_write, active}
use matt_sql.Execution.Driver.{execute_create_table}
use matt_sql.Execution.Driver.Creation.{CreateEnds, execute_create_table-CreateEnds}
use matt_sql.Execution.Executor.Insertion.{IsRecorded, insert_rows-scan_rows}

abbrev flags : TableSchema
flags = record { name = codes "flag"; type = boolean_type; nullable = true; id = 0 } ∷ []

abbrev small_heap : HeapTable
small_heap = record { root_page_id = 1; page_size = 32; active_records = 0; pages = [] }

abbrev storage : TableStorage
storage = record {
  next_root_page_id = 2;
  tables = (1, record { table_id = 1; root_page_id = 1; heap = small_heap }) ∷ [];
}

abbrev two_rows : List (List Value)
two_rows = (boolean true ∷ []) ∷ (boolean false ∷ []) ∷ []

abbrev full_heap : HeapTable
full_heap = record {
  root_page_id = 1;
  page_size = 32;
  active_records = 2;
  pages =
      record {
        header = record {
          page_id = 1;
          kind = heap;
          page_lsn = 18446744073709551615;
          flags = 0;
          lower = 12;
          upper = 28;
        };
        bytes =
            30 ∷ 0 ∷ 2 ∷ 0 ∷ 0 ∷ 0 ∷ 28 ∷ 0 ∷ 2 ∷ 0 ∷ 0 ∷ 0 ∷ replicate 16 0 ++ 2 ∷ 0 ∷ 2 ∷ 1 ∷ [];
      }
      ∷ [];
}

abbrev full : TableStorage
full = record {
  next_root_page_id = 2;
  tables = (1, record { table_id = 1; root_page_id = 1; heap = full_heap }) ∷ [];
}

inserted : insert_rows flags 1 two_rows storage ≡ (full, ok tt)
unfolding insert_rows encode insert_record insert find assign encode_field insert_in_pages
    allocate_page new_frame next_page_id initialize SlottedPage.insert validate_page append_byte
    find_deleted_slot find_deleted_from write_slot write_u16 read_slot read_u16
inserted = refl

scanned : scan_rows (scan_limit full_heap) full_heap first_slot flags ≡ some (ok two_rows)
unfolding scan_rows decode next decode_field slot_count next_from scan_slots validate_page
    SlottedPage.read live_slot read_slot read_u16 validate_slot_bounds
scanned = refl

scan_rows_lem_example :
    scan_rows (scan_limit full_heap) full_heap first_slot flags
    ≡ some (decode_entries flags (entries_from full_heap.pages 0))
scan_rows_lem_example = scan_rows_lem full_heap flags

insert_rows-scan_rows_example :
    All (Lists two_rows) two_rows
    × ((row : List Value) → IsRecorded small_heap flags row → Lists two_rows row)
    × ((other : ℕ) → (1 == other) ≡ false → heap_of full other ≡ heap_of storage other)
unfolding heap_of find
insert_rows-scan_rows_example =
    insert_rows-scan_rows flags 1 two_rows storage refl
      (record { root = omega arith; ids = tt; bytes = tt }) ((tt, tt), ((tt, tt), tt)) inserted refl
      scanned

abbrev create_flags : CreateTableRequest
create_flags = record { name = codes "Flags"; schema = flags }

execute_create_table-CreateEnds_example : CreateEnds create_flags new_hosted storage (
    execute_create_table in_memory_api
      (record { mode = read_write; state = active })
      create_flags
      PhysicalPlans.no_inputs
      (new_hosted, storage))
execute_create_table-CreateEnds_example =
    execute_create_table-CreateEnds (record { mode = read_write; state = active }) create_flags
      PhysicalPlans.no_inputs new_hosted storage tt
