-- ===== src/Storage/Heap.antt =====
-- src/storage/heap/page_heap_table.cpp: a table's records in a list of slotted pages. The handles of
-- a table share its state, so the state is passed from call to call. The transaction is not used.
pub mod Pages
pub mod Records
pub mod Removal
pub mod Scan
pub mod Reach
mod Examples
use matt_sql.Prelude.{
  ℕ, zero, suc, ◌+◌, ◌-◌, ◌%◌, ◌^◌, Bool, true, false, Option, none, some, List, [], ◌∷◌, ◌++◌,
  length, replicate, drop, ltb, ◌==◌, if◌then◌else◌,
}
use matt_sql.Common.Status.{
  ErrorCode, Result, ok, err, Status, ◌>>=◌, invalid_argument, not_found, internal,
}
use matt_sql.Storage.SlottedPage
use matt_sql.Storage.SlottedPage.{
  Page, PageHeader, PageKind, free, heap, RecordView, initialize, slot_count, invalid_lsn,
}

pub record RecordId : Type 0 where
  pub page_id : ℕ
  pub slot_id : ℕ

-- `PageHeapTable::Impl`; a `HeapPageFrame` is a page.
pub record HeapTable : Type 0 where
  pub root_page_id : ℕ
  pub page_size : ℕ
  pub active_records : ℕ
  pub pages : List Page

abbrev pub invalid_page_id : ℕ
invalid_page_id = 2 ^ 64 - 1

-- The constructor of `HeapPageFrame`.
unfoldable pub new_frame : ℕ → ℕ → Page
new_frame page_id page_size = record {
  header = record {
    page_id = page_id;
    kind = free;
    page_lsn = invalid_lsn;
    flags = 0;
    lower = 0;
    upper = 0;
  };
  bytes = replicate page_size 0;
}

unfoldable pub next_page_id : HeapTable → ℕ
next_page_id table = (table.root_page_id + length table.pages) % 2 ^ 64

-- The new page, which the caller appends; on an error the table has no new page.
unfoldable pub allocate_page : HeapTable → Result Page
unfolding new_frame next_page_id
allocate_page table =
    if table.root_page_id == invalid_page_id
    then err invalid_argument
    else if table.page_size == 0
    then err invalid_argument
    else if ltb (invalid_page_id - 1 - table.root_page_id) (length table.pages)
    then err internal
    else (let (page, status) = initialize (new_frame (next_page_id table) table.page_size) heap in
        status >>= λ done. ok page)

unfoldable pub find_page : ℕ → List Page → Option Page
find_page page_id [] = none
find_page page_id (page ∷ pages) =
    if page.header.page_id == page_id then some page else find_page page_id pages

-- How the loop of `Insert` over the pages ends: with a slot, with an error other than
-- InvalidArgument, or past the last page.
pub data Search : Type 0 where
  placed : RecordId → Search
  stopped : ErrorCode → Search
  exhausted : Search

abbrev pub is_invalid_argument : ErrorCode → Bool
is_invalid_argument invalid_argument = true
is_invalid_argument _ = false

-- One round of the loop, on the result of the page's `Insert` and that of the later rounds.
insert_round : Page → Page × Result ℕ → List Page × Search → List Page → List Page × Search
insert_round page (page', ok slot) rest pages =
    (page' ∷ pages, placed (record { page_id = page'.header.page_id; slot_id = slot }))
insert_round page (page', err e) rest pages =
    if is_invalid_argument e then (page' ∷ rest.0, rest.1) else (page' ∷ pages, stopped e)

unfoldable pub insert_in_pages : List Page → List ℕ → List Page × Search
unfolding insert_round
insert_in_pages [] record_bytes = ([], exhausted)
insert_in_pages (page ∷ pages) record_bytes =
    insert_round page (SlottedPage.insert page record_bytes) (insert_in_pages pages record_bytes)
      pages

insert_in_new_page : HeapTable → Page × Result ℕ → HeapTable × Result RecordId
insert_in_new_page table (page, ok slot) = (
  record table {
    active_records = (table.active_records + 1) % 2 ^ 64;
    pages = table.pages ++ page ∷ [];
  },
  ok (record { page_id = page.header.page_id; slot_id = slot }),
)
insert_in_new_page table (page, err e) = (table, err e)

insert_allocated : HeapTable → List ℕ → Result Page → HeapTable × Result RecordId
unfolding insert_in_new_page
insert_allocated table record_bytes (ok page) =
    insert_in_new_page table (SlottedPage.insert page record_bytes)
insert_allocated table record_bytes (err e) = (table, err e)

insert_searched : HeapTable → List ℕ → List Page × Search → HeapTable × Result RecordId
unfolding insert_allocated
insert_searched table record_bytes (pages, placed id) =
    (record table { active_records = (table.active_records + 1) % 2 ^ 64; pages = pages }, ok id)
insert_searched table record_bytes (pages, stopped e) = (record table { pages = pages }, err e)
insert_searched table record_bytes (pages, exhausted) =
    let table' = record table { pages = pages } in
    insert_allocated table' record_bytes (allocate_page table')

unfoldable pub insert : HeapTable → List ℕ → HeapTable × Result RecordId
unfolding insert_searched
insert table record_bytes =
    insert_searched table record_bytes (insert_in_pages table.pages record_bytes)

unfoldable pub read_found : ℕ → Option Page → Result RecordView
read_found slot_id none = err not_found
read_found slot_id (some page) = SlottedPage.read page slot_id

unfoldable pub read : HeapTable → RecordId → Result RecordView
unfolding read_found
read table id = read_found id.slot_id (find_page id.page_id table.pages)

-- `Delete` on the first page with the id, in place.
delete_in_pages : List Page → ℕ → ℕ → List Page × Status
delete_in_pages [] page_id slot_id = ([], err not_found)
delete_in_pages (page ∷ pages) page_id slot_id =
    let (page', status) = SlottedPage.delete page slot_id in
    let (pages', status') = delete_in_pages pages page_id slot_id in
    if page.header.page_id == page_id then (page' ∷ pages, status) else (page ∷ pages', status')

delete_counted : HeapTable → List Page × Status → HeapTable × Status
delete_counted table (pages, ok done) = (
  record table { active_records = (table.active_records + 2 ^ 64 - 1) % 2 ^ 64; pages = pages },
  ok tt,
)
delete_counted table (pages, err e) = (record table { pages = pages }, err e)

unfoldable pub delete : HeapTable → RecordId → HeapTable × Status
unfolding delete_counted delete_in_pages
delete table id = delete_counted table (delete_in_pages table.pages id.page_id id.slot_id)

pub record Cursor : Type 0 where
  pub page_index : ℕ
  pub slot_id : ℕ

-- How the loop of `Next` over the slots of a page ends: with a result, and the slot behind it, or
-- past the last slot.
pub data SlotScan : Type 0 where
  hit : Result RecordView → ℕ → SlotScan
  passed : SlotScan

scan_round : Result RecordView → ℕ → SlotScan → SlotScan
scan_round (ok view) next rest = hit (ok view) next
scan_round (err not_found) next rest = rest
scan_round (err e) next rest = hit (err e) next

-- the slots from `slot_id` on, with the rounds that are left
unfoldable pub scan_slots : Page → ℕ → ℕ → SlotScan
unfolding scan_round
scan_slots page slot_id zero = passed
scan_slots page slot_id (suc rounds) =
    scan_round (SlottedPage.read page slot_id) (slot_id + 1) (scan_slots page (slot_id + 1) rounds)

next_scanned : ℕ → SlotScan → Cursor × Result RecordView → Cursor × Result RecordView
next_scanned page_index (hit result next) rest =
    (record { page_index = page_index; slot_id = next }, result)
next_scanned page_index passed rest = rest

-- the pages from `page_index` on
unfoldable pub next_from : List Page → ℕ → ℕ → Cursor × Result RecordView
unfolding next_scanned
next_from [] page_index slot_id =
    (record { page_index = page_index; slot_id = slot_id }, err not_found)
next_from (page ∷ pages) page_index slot_id =
    next_scanned page_index (scan_slots page slot_id (slot_count page - slot_id))
      (next_from pages (page_index + 1) 0)

unfoldable pub next : HeapTable → Cursor → Cursor × Result RecordView
unfolding next_from
next table cursor = next_from (drop cursor.page_index table.pages) cursor.page_index cursor.slot_id
