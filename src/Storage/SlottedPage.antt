-- ===== src/Storage/SlottedPage.antt =====
-- src/storage/page/slotted_page.cpp. A page is its header and its bytes; the slot directory grows
-- from the front of the bytes and the records from their end.
pub mod Cells
pub mod Slots
pub mod Live
pub mod Insertion
pub mod Cases
pub mod Bytes
pub mod Deletion
mod Examples
use matt_sql.Prelude.{
  ℕ, zero, suc, ◌+◌, ◌-◌, ◌*◌, ◌/◌, ◌%◌, ◌^◌, Bool, true, false, not, ◌||◌, Option, none, some,
  List, [], ◌∷◌, length, take, drop, replicate, set_range, ltb, ◌==◌, if◌then◌else◌,
}
use matt_sql.Common.Status.{
  Result, ok, err, Status, ◌>>=◌, ◌>>◌, invalid_argument, not_found, corruption,
}
use matt_sql.Storage.ByteIo.{read_little_endian_at, write_little_endian_at}

pub data PageKind : Type 0 where
  free heap btree_internal btree_leaf catalog wal : PageKind

pub record PageHeader : Type 0 where
  pub page_id : ℕ
  pub kind : PageKind
  pub page_lsn : ℕ
  pub flags : ℕ
  pub lower : ℕ
  pub upper : ℕ

-- A page view. The pointer to its header is not null: the heap hands over the header of a frame.
pub record Page : Type 0 where
  pub header : PageHeader
  pub bytes : List ℕ

pub record SlotEntry : Type 0 where
  pub offset : ℕ
  pub size : ℕ
  pub flags : ℕ

pub record RecordView : Type 0 where
  pub page_id : ℕ
  pub slot_id : ℕ
  pub bytes : List ℕ

abbrev pub slot_entry_size : ℕ
slot_entry_size = 6

-- `static_cast<std::uint16_t>`
abbrev pub uint16 : ℕ → ℕ
uint16 n = n % 65536

abbrev pub uint16_max : ℕ
uint16_max = 65535

abbrev pub invalid_lsn : ℕ
invalid_lsn = 2 ^ 64 - 1

unfoldable pub read_u16 : List ℕ → ℕ → ℕ
unfolding read_little_endian_at
read_u16 bytes offset = read_little_endian_at 2 bytes offset

unfoldable pub write_u16 : List ℕ → ℕ → ℕ → List ℕ
unfolding write_little_endian_at
write_u16 bytes offset value = write_little_endian_at 2 bytes offset value

unfoldable pub read_slot : List ℕ → ℕ → SlotEntry
read_slot bytes slot_id =
    let offset = slot_id * slot_entry_size in
    record {
      offset = read_u16 bytes offset;
      size = read_u16 bytes (offset + 2);
      flags = read_u16 bytes (offset + 4);
    }

unfoldable pub write_slot : List ℕ → ℕ → SlotEntry → List ℕ
write_slot bytes slot_id entry =
    let offset = slot_id * slot_entry_size in
    let bytes' = write_u16 bytes offset entry.offset in
    let bytes'' = write_u16 bytes' (offset + 2) entry.size in
    write_u16 bytes'' (offset + 4) entry.flags

-- The flag `kSlotDeleted` is the lowest bit.
abbrev pub is_deleted : SlotEntry → Bool
is_deleted entry = not (entry.flags % 2 == 0)

-- `flags |= kSlotDeleted`
abbrev pub set_deleted : SlotEntry → SlotEntry
set_deleted entry = record entry { flags = entry.flags + (1 - entry.flags % 2) }

abbrev pub is_free : PageKind → Bool
is_free free = true
is_free _ = false

-- `validate_header`; its test for a null header has no counterpart, see `Page`.
unfoldable pub validate_page : Page → Status
validate_page page =
    if length page.bytes == 0
    then err invalid_argument
    else if ltb uint16_max (length page.bytes)
    then err invalid_argument
    else if is_free page.header.kind
    then err corruption
    else if ltb page.header.upper page.header.lower || ltb (length page.bytes) page.header.upper
    then err corruption
    else if not (page.header.lower % slot_entry_size == 0)
    then err corruption
    else ok tt

abbrev pub header_slot_count : PageHeader → ℕ
header_slot_count header = header.lower / slot_entry_size

unfoldable pub validate_slot_bounds : Page → SlotEntry → Status
validate_slot_bounds page entry =
    if ltb (length page.bytes) entry.offset || ltb (length page.bytes - entry.offset) entry.size
    then err corruption
    else if ltb entry.offset page.header.upper
    then err corruption
    else ok tt

-- The loop of `find_deleted_slot`, with the rounds that are left.
unfoldable pub find_deleted_from : List ℕ → ℕ → ℕ → Option ℕ
find_deleted_from bytes index zero = none
find_deleted_from bytes index (suc rounds) =
    let rest = find_deleted_from bytes (index + 1) rounds in
    if is_deleted (read_slot bytes index) then some index else rest

unfoldable pub find_deleted_slot : Page → Option ℕ
find_deleted_slot page = find_deleted_from page.bytes 0 (header_slot_count page.header)

-- A failing operation leaves the page as it is.
unfoldable pub initialize : Page → PageKind → Page × Status
initialize page kind =
    if length page.bytes == 0
    then (page, err invalid_argument)
    else if ltb uint16_max (length page.bytes)
    then (page, err invalid_argument)
    else if is_free kind
    then (page, err invalid_argument)
    else (
      record {
        header = record page.header {
          kind = kind;
          page_lsn = invalid_lsn;
          flags = 0;
          lower = 0;
          upper = uint16 (length page.bytes);
        };
        bytes = replicate (length page.bytes) 0;
      },
      ok tt,
    )

-- the directory space that a record takes beside its bytes
abbrev slot_space : Option ℕ → ℕ
slot_space none = slot_entry_size
slot_space (some deleted) = 0

-- `Insert` past the test on the free space: the copy of the record, the slot and the header.
insert_slot : Page → List ℕ → Option ℕ → Page × Result ℕ
insert_slot page record_bytes (some deleted) =
    let record_offset = uint16 (page.header.upper - length record_bytes) in
    let copied = set_range page.bytes record_offset record_bytes in
    let entry : SlotEntry = record {
      offset = record_offset;
      size = uint16 (length record_bytes);
      flags = 0;
    } in
    (
      record {
        header = record page.header { upper = record_offset };
        bytes = write_slot copied deleted entry;
      },
      ok deleted,
    )
insert_slot page record_bytes none =
    let record_offset = uint16 (page.header.upper - length record_bytes) in
    let copied = set_range page.bytes record_offset record_bytes in
    let slot_id = uint16 (header_slot_count page.header) in
    let entry : SlotEntry = record {
      offset = record_offset;
      size = uint16 (length record_bytes);
      flags = 0;
    } in
    (
      record {
        header = record page.header {
          lower = uint16 (page.header.lower + slot_entry_size);
          upper = record_offset;
        };
        bytes = write_slot copied slot_id entry;
      },
      ok slot_id,
    )

insert_checked : Page → List ℕ → Option ℕ → Page × Result ℕ
unfolding insert_slot
insert_checked page record_bytes deleted_slot =
    if ltb (page.header.upper - page.header.lower) (length record_bytes + slot_space deleted_slot)
    then (page, err invalid_argument)
    else insert_slot page record_bytes deleted_slot

insert_validated : Status → Page → List ℕ → Page × Result ℕ
unfolding insert_checked
insert_validated (err e) page record_bytes = (page, err e)
insert_validated (ok done) page record_bytes =
    if ltb uint16_max (length record_bytes)
    then (page, err invalid_argument)
    else insert_checked page record_bytes (find_deleted_slot page)

unfoldable pub insert : Page → List ℕ → Page × Result ℕ
unfolding insert_validated
insert page record_bytes = insert_validated (validate_page page) page record_bytes

-- `Read` and `Delete` up to their effects: the entry of a live slot.
unfoldable pub live_slot : Page → ℕ → Result SlotEntry
live_slot page slot_id = do
  validate_page page
  (if ltb slot_id (header_slot_count page.header) then ok tt else err not_found)
  let entry = read_slot page.bytes slot_id
  (if is_deleted entry then err not_found else ok tt)
  validate_slot_bounds page entry
  ok entry

unfoldable pub read : Page → ℕ → Result RecordView
read page slot_id = do
  entry ← live_slot page slot_id
  ok (record {
    page_id = page.header.page_id;
    slot_id = slot_id;
    bytes = take entry.size (drop entry.offset page.bytes);
  })

delete_slot : Page → ℕ → Result SlotEntry → Page × Status
delete_slot page slot_id (err e) = (page, err e)
delete_slot page slot_id (ok entry) =
    (record page { bytes = write_slot page.bytes slot_id (set_deleted entry) }, ok tt)

unfoldable pub delete : Page → ℕ → Page × Status
unfolding delete_slot
delete page slot_id = delete_slot page slot_id (live_slot page slot_id)

unfoldable pub free_space : Page → ℕ
free_space page = elim (validate_page page) [
  | err e ↦ 0
  | ok done ↦ page.header.upper - page.header.lower
]

unfoldable pub slot_count : Page → ℕ
slot_count page = elim (validate_page page) [ err e ↦ 0 | ok done ↦ header_slot_count page.header ]
