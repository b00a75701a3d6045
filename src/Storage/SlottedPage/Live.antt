-- ===== src/Storage/SlottedPage/Live.antt =====
-- Valid pages and their live slots: what the guards of the page operations establish.
use matt_sql.Prelude.{ℕ, ◌+◌, ◌%◌, ◌≤◌, ◌<◌, ◌≡◌, false, length, take, drop, arith}
use matt_sql.Common.Status.{ok, outcome, succeeds, fails}
use matt_sql.Storage.SlottedPage.{
  Page, SlotEntry, RecordView, is_free, validate_page, validate_slot_bounds, live_slot, read,
  read_slot, is_deleted, header_slot_count,
}

-- A page that `validate_header` accepts.
pub record IsValid (p : Page) : Type 0 where
  pub nonempty : 0 < length p.bytes
  pub small : length p.bytes < 65536
  pub kind : is_free p.header.kind ≡ false
  pub ordered : p.header.lower ≤ p.header.upper
  pub inside : p.header.upper ≤ length p.bytes
  pub aligned : p.header.lower % 6 ≡ 0

pub validate_page-IsValid : (p : Page) {u : Unit {0}} → validate_page p ≡ ok u → IsValid p
unfolding validate_page
validate_page-IsValid p h = ground arith

pub IsValid-validate_page : (p : Page) → IsValid p → validate_page p ≡ ok tt
unfolding validate_page
IsValid-validate_page p v = ground arith

-- The slot `j` of the page holds the live entry `e`.
pub record IsLive (p : Page) (j : ℕ) (e : SlotEntry) : Type 0 where
  pub valid : IsValid p
  pub counted : j < header_slot_count p.header
  pub entry : read_slot p.bytes j ≡ e
  pub live : is_deleted e ≡ false
  pub above : p.header.upper ≤ e.offset
  pub inside : e.offset + e.size ≤ length p.bytes

bounds_lem :
    (p : Page) (e : SlotEntry) {u : Unit {0}}
    → validate_slot_bounds p e ≡ ok u
    → (p.header.upper ≤ e.offset) × (e.offset + e.size ≤ length p.bytes)
unfolding validate_slot_bounds
bounds_lem p e h = ground arith

live_before :
    (p : Page) (j : ℕ) {e : SlotEntry} {u : Unit {0}}
    → live_slot p j ≡ ok e
    → validate_page p ≡ ok u
    → is_deleted (read_slot p.bytes j) ≡ false
unfolding live_slot
live_before p j h v = ground arith

pub live_slot-IsLive : (p : Page) (j : ℕ) {e : SlotEntry} → live_slot p j ≡ ok e → IsLive p j e
unfolding live_slot
live_slot-IsLive p j {e} h = elim (outcome (validate_page p)) [
  | succeeds u done ↦ elim (outcome (validate_slot_bounds p (read_slot p.bytes j))) [
    | succeeds u' done' ↦
        let (above, inside) = bounds_lem p (read_slot p.bytes j) done' in
        let same : read_slot p.bytes j ≡ e = ground arith in
        record {
          valid = validate_page-IsValid p done;
          counted = ground arith;
          entry = same;
          live = rw same at (live_before p j h done);
          above = rw same at above;
          inside = rw same at inside;
        }
    | fails c failed ↦ absurd (ground arith)
  ]
  | fails c failed ↦ absurd (ground arith)
]

pub IsLive-live_slot : (p : Page) (j : ℕ) {e : SlotEntry} → IsLive p j e → live_slot p j ≡ ok e
unfolding live_slot validate_slot_bounds
IsLive-live_slot p j {e} l = rw (IsValid-validate_page p l.valid) (rw l.entry (ground arith))

-- `Read` succeeds exactly on live slots, and returns the bytes that their entry delimits.
pub read-IsLive :
    (p : Page) (j : ℕ) {v : RecordView}
    → read p j ≡ ok v
    → (e : SlotEntry) × IsLive p j e
      × (v ≡ record {
        page_id = p.header.page_id;
        slot_id = j;
        bytes = take e.size (drop e.offset p.bytes);
      })
unfolding read
read-IsLive p j {v} h = elim (outcome (live_slot p j)) [
  | succeeds e done ↦ (e, live_slot-IsLive p j done, ground arith)
  | fails c failed ↦ absurd (ground arith)
]

pub IsLive-read :
    (p : Page) (j : ℕ) {e : SlotEntry}
    → IsLive p j e
    → read p j
      ≡ ok (record {
        page_id = p.header.page_id;
        slot_id = j;
        bytes = take e.size (drop e.offset p.bytes);
      })
unfolding read
IsLive-read p j l = rw (IsLive-live_slot p j l)
