-- ===== src/Storage/Heap/Examples.antt =====
-- Runs on a heap with pages of 8 bytes, and the theorems on heaps at them.
use matt_sql.Prelude.{ℕ, ◌≡◌, ◌≢◌, refl, List, [], ◌∷◌, arith, get_or, ap}
use matt_sql.Common.Status.{ok, err, not_found}
use matt_sql.Storage.SlottedPage
use matt_sql.Storage.SlottedPage.{
  Page, RecordView, heap, find_deleted_slot, find_deleted_from, read_slot, initialize, slot_count,
  write_slot, read_u16, write_u16, validate_page, validate_slot_bounds, live_slot,
}
use matt_sql.Storage.Heap.{
  HeapTable, RecordId, insert, read, delete, insert_in_pages, allocate_page, new_frame,
  next_page_id, find_page, read_found, next, next_from, scan_slots,
}
use matt_sql.Storage.Heap.Records.{IsHeap, read-insert_stored, read-insert_kept}
use matt_sql.Storage.Heap.Removal.{read-delete_self, read-delete_other}
use matt_sql.Storage.Heap.Scan.{entries, nth_result, nth_result_lem}
use matt_sql.Storage.Heap.Reach.{nth_result-read}

abbrev page_of : ℕ → ℕ → List ℕ → Page
page_of page_id upper bytes = record {
  header = record {
    page_id = page_id;
    kind = heap;
    page_lsn = 18446744073709551615;
    flags = 0;
    lower = 6;
    upper = upper;
  };
  bytes = bytes;
}

abbrev table_of : ℕ → List Page → HeapTable
table_of count pages = record {
  root_page_id = 5;
  page_size = 8;
  active_records = count;
  pages = pages;
}

abbrev id_of : ℕ → ℕ → RecordId
id_of page_id slot_id = record { page_id = page_id; slot_id = slot_id }

abbrev view_of : ℕ → ℕ → List ℕ → RecordView
view_of page_id slot_id bytes = record { page_id = page_id; slot_id = slot_id; bytes = bytes }

abbrev first_page : Page
first_page = page_of 5 6 (6 ∷ 0 ∷ 2 ∷ 0 ∷ 0 ∷ 0 ∷ 7 ∷ 8 ∷ [])

abbrev second_page : Page
second_page = page_of 6 7 (7 ∷ 0 ∷ 1 ∷ 0 ∷ 0 ∷ 0 ∷ 0 ∷ 9 ∷ [])

abbrev emptied_page : Page
emptied_page = page_of 5 6 (6 ∷ 0 ∷ 2 ∷ 0 ∷ 1 ∷ 0 ∷ 7 ∷ 8 ∷ [])

abbrev no_table : HeapTable
no_table = table_of 0 []

abbrev one_table : HeapTable
one_table = table_of 1 (first_page ∷ [])

abbrev two_table : HeapTable
two_table = table_of 2 (first_page ∷ second_page ∷ [])

abbrev deleted_table : HeapTable
deleted_table = table_of 1 (emptied_page ∷ second_page ∷ [])

first_insert : insert no_table (7 ∷ 8 ∷ []) ≡ (one_table, ok (id_of 5 0))
unfolding insert insert_in_pages allocate_page new_frame next_page_id initialize SlottedPage.insert
    validate_page find_deleted_slot find_deleted_from write_slot write_u16
first_insert = refl

second_insert : insert one_table (9 ∷ []) ≡ (two_table, ok (id_of 6 0))
unfolding insert insert_in_pages allocate_page new_frame next_page_id initialize SlottedPage.insert
    validate_page find_deleted_slot find_deleted_from write_slot write_u16 read_slot read_u16
second_insert = refl

first_read : read one_table (id_of 5 0) ≡ ok (view_of 5 0 (7 ∷ 8 ∷ []))
unfolding read find_page read_found SlottedPage.read live_slot validate_page validate_slot_bounds
    read_slot read_u16
first_read = refl

last_read : read two_table (id_of 6 0) ≡ ok (view_of 6 0 (9 ∷ []))
unfolding read find_page read_found SlottedPage.read live_slot validate_page validate_slot_bounds
    read_slot read_u16
last_read = refl

first_delete : delete two_table (id_of 5 0) ≡ (deleted_table, ok tt)
unfolding delete SlottedPage.delete live_slot validate_page validate_slot_bounds read_slot read_u16
    write_slot write_u16
first_delete = refl

-- The scan of the deleted table starts with the record of the second page.
first_next :
    nth_result deleted_table (record { page_index = 0; slot_id = 0 }) 0 ≡ ok (view_of 6 0 (9 ∷ []))
unfolding next next_from scan_slots slot_count SlottedPage.read live_slot validate_page
    validate_slot_bounds read_slot read_u16
first_next = refl

no_table-IsHeap : IsHeap no_table
no_table-IsHeap = record { root = omega arith; ids = tt; bytes = tt }

one_table-IsHeap : IsHeap one_table
one_table-IsHeap = record { root = omega arith; ids = (refl, tt); bytes = omega arith }

two_table-IsHeap : IsHeap two_table
two_table-IsHeap = record { root = omega arith; ids = (refl, (refl, tt)); bytes = omega arith }

read-insert_stored_example :
    IsHeap two_table × (read two_table (id_of 6 0) ≡ ok (view_of 6 0 (9 ∷ [])))
read-insert_stored_example =
    read-insert_stored one_table (9 ∷ []) one_table-IsHeap (omega arith) second_insert

read-insert_kept_example :
    IsHeap (insert one_table (9 ∷ [])).0
    × (read (insert one_table (9 ∷ [])).0 (id_of 5 0) ≡ ok (view_of 5 0 (7 ∷ 8 ∷ [])))
read-insert_kept_example =
    read-insert_kept one_table (9 ∷ []) (id_of 5 0) one_table-IsHeap (omega arith) first_read

read-delete_self_example : IsHeap deleted_table × (read deleted_table (id_of 5 0) ≡ err not_found)
read-delete_self_example = read-delete_self two_table (id_of 5 0) two_table-IsHeap first_delete

ids_differ : id_of 5 0 ≢ id_of 6 0
ids_differ e = let same : 5 ≡ 6 = ap (λ id. id.page_id) e in absurd (omega (arith, same))

read-delete_other_example : read deleted_table (id_of 6 0) ≡ ok (view_of 6 0 (9 ∷ []))
read-delete_other_example =
    read-delete_other two_table (id_of 5 0) (id_of 6 0) two_table-IsHeap first_delete ids_differ
      last_read

nth_result_lem_example :
    nth_result two_table (record { page_index = 0; slot_id = 0 }) 1
    ≡ get_or (entries two_table (record { page_index = 0; slot_id = 0 })) 1 (err not_found)
nth_result_lem_example = nth_result_lem two_table (record { page_index = 0; slot_id = 0 }) 1

nth_result-read_example :
    (k : ℕ) × (nth_result two_table (record { page_index = 0; slot_id = 0 }) k
      ≡ ok (view_of 6 0 (9 ∷ [])))
nth_result-read_example = nth_result-read two_table (id_of 6 0) last_read
