-- ===== src/Storage/SlottedPage/Examples.antt =====
-- Runs on a page of 24 bytes, and the theorems on pages at them.
use matt_sql.Prelude.{ℕ, ◌+◌, ◌≤◌, ◌≡◌, ◌≢◌, refl, List, [], ◌∷◌, arith, replicate}
use matt_sql.Common.Status.{ok, err, not_found}
use matt_sql.Storage.SlottedPage.{
  Page, RecordView, heap, insert, read, delete, find_deleted_slot, find_deleted_from, read_slot,
  write_slot, read_u16, write_u16, validate_page, validate_slot_bounds, live_slot,
}
use matt_sql.Storage.SlottedPage.Live.{IsValid}
use matt_sql.Storage.SlottedPage.Insertion.{read-insert_self, read-insert_other, insert-IsValid}
use matt_sql.Storage.SlottedPage.Cases.{insert_total}
use matt_sql.Storage.SlottedPage.Deletion.{delete_correct, delete_keeps_others}

abbrev page_of : ℕ → ℕ → List ℕ → Page
page_of lower upper bytes = record {
  header = record {
    page_id = 5;
    kind = heap;
    page_lsn = 18446744073709551615;
    flags = 0;
    lower = lower;
    upper = upper;
  };
  bytes = bytes;
}

abbrev empty_page : Page
empty_page = page_of 0 24 (replicate 24 0)

abbrev one_record : Page
one_record = page_of 6 22 (
    22 ∷ 0 ∷ 2 ∷ 0 ∷ 0 ∷ 0 ∷ 0 ∷ 0 ∷ 0 ∷ 0 ∷ 0 ∷ 0 ∷ 0 ∷ 0 ∷ 0 ∷ 0 ∷ 0 ∷ 0 ∷ 0 ∷ 0 ∷ 0 ∷ 0 ∷ 7 ∷ 8
    ∷ [])

abbrev two_records : Page
two_records = page_of 12 21 (
    22 ∷ 0 ∷ 2 ∷ 0 ∷ 0 ∷ 0 ∷ 21 ∷ 0 ∷ 1 ∷ 0 ∷ 0 ∷ 0 ∷ 0 ∷ 0 ∷ 0 ∷ 0 ∷ 0 ∷ 0 ∷ 0 ∷ 0 ∷ 0 ∷ 9 ∷ 7 ∷ 8
    ∷ [])

abbrev one_deleted : Page
one_deleted = page_of 12 21 (
    22 ∷ 0 ∷ 2 ∷ 0 ∷ 1 ∷ 0 ∷ 21 ∷ 0 ∷ 1 ∷ 0 ∷ 0 ∷ 0 ∷ 0 ∷ 0 ∷ 0 ∷ 0 ∷ 0 ∷ 0 ∷ 0 ∷ 0 ∷ 0 ∷ 9 ∷ 7 ∷ 8
    ∷ [])

first_insert : insert empty_page (7 ∷ 8 ∷ []) ≡ (one_record, ok 0)
unfolding insert validate_page find_deleted_slot find_deleted_from write_slot write_u16
first_insert = refl

second_insert : insert one_record (9 ∷ []) ≡ (two_records, ok 1)
unfolding insert validate_page find_deleted_slot find_deleted_from write_slot write_u16 read_slot
    read_u16
second_insert = refl

first_read : read one_record 0 ≡ ok (record { page_id = 5; slot_id = 0; bytes = 7 ∷ 8 ∷ [] })
unfolding read live_slot validate_page validate_slot_bounds read_slot read_u16
first_read = refl

first_delete : delete two_records 0 ≡ (one_deleted, ok tt)
unfolding delete live_slot validate_page validate_slot_bounds read_slot read_u16 write_slot
    write_u16
first_delete = refl

read-insert_self_example :
    read two_records 1 ≡ ok (record { page_id = 5; slot_id = 1; bytes = 9 ∷ [] })
read-insert_self_example = read-insert_self one_record (9 ∷ []) second_insert

read-insert_other_example :
    read two_records 0 ≡ ok (record { page_id = 5; slot_id = 0; bytes = 7 ∷ 8 ∷ [] })
read-insert_other_example = read-insert_other one_record (9 ∷ []) 0 second_insert first_read

insert-IsValid_example :
    IsValid two_records × ((v : RecordView) → read one_record 1 ≢ ok v) × (21 + 1 ≡ 22) × (6 ≤ 12)
insert-IsValid_example = insert-IsValid one_record (9 ∷ []) second_insert

one_record-IsValid : IsValid one_record
one_record-IsValid = (insert-IsValid empty_page (7 ∷ 8 ∷ []) first_insert).0

insert_total_example : (q : Page) × (slot : ℕ) × (insert one_record (9 ∷ []) ≡ (q, ok slot))
insert_total_example = insert_total one_record (9 ∷ []) one_record-IsValid (omega arith)

delete_correct_example :
    (read one_deleted 0 ≡ err not_found)
    × IsValid one_deleted
    × (one_deleted.header ≡ two_records.header)
delete_correct_example = delete_correct two_records 0 (omega arith) first_delete

second_read : read two_records 1 ≡ ok (record { page_id = 5; slot_id = 1; bytes = 9 ∷ [] })
unfolding read live_slot validate_page validate_slot_bounds read_slot read_u16
second_read = refl

delete_keeps_others_example :
    read one_deleted 1 ≡ ok (record { page_id = 5; slot_id = 1; bytes = 9 ∷ [] })
delete_keeps_others_example =
    delete_keeps_others two_records 0 1 (omega arith) first_delete (omega arith) second_read
