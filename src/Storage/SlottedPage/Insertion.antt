-- ===== src/Storage/SlottedPage/Insertion.antt =====
-- `Insert` of a slotted page: the record can be read back, and every other record stays.
use mathlib.Core.Path.{ap₂}
use matt_sql.Prelude.{
  ℕ, zero, suc, ◌+◌, ◌-◌, ◌*◌, ◌%◌, ◌≤◌, ◌<◌, ◌≡◌, ◌≢◌, inl, inr, refl, sym, ap, ◌∙◌, List, true,
  Option, none, some, length, get_or, set_range, take, drop, arith, Bool-cases, take-drop_range,
  range_or-agree, range_or-set_range, length-set_range, get_or-set_range_outside,
}
use matt_sql.Common.Status.{ok, outcome, succeeds, fails}
use matt_sql.Storage.SlottedPage.{
  Page, SlotEntry, RecordView, validate_page, read, read_slot, write_slot, is_deleted,
  header_slot_count, insert, insert_checked, find_deleted_slot, find_deleted_from, uint16,
}
use matt_sql.Storage.SlottedPage.Slots.{
  length-write_slot, get_or-write_slot, read_slot-write_slot_self, read_slot-write_slot_ne,
  read_slot-set_range,
}
use matt_sql.Storage.SlottedPage.Live.{
  IsValid, IsLive, validate_page-IsValid, read-IsLive, IsLive-read,
}

find_deleted_from_lem :
    (bytes : List ℕ) (i n : ℕ) {k : ℕ}
    → find_deleted_from bytes i n ≡ some k
    → (k < i + n) × (is_deleted (read_slot bytes k) ≡ true)
unfolding find_deleted_from
find_deleted_from_lem bytes i zero h = absurd (cc h)
find_deleted_from_lem bytes i (suc n) {k} h = elim (Bool-cases (is_deleted (read_slot bytes i))) [
  | inl found ↦ let same : i ≡ k = ground arith in (omega arith, rw same at found)
  | inr other ↦
      let (below, deleted) = find_deleted_from_lem bytes (i + 1) n {k = k} (ground arith) in
      (omega arith, deleted)
]

-- What a successful `Insert` did to the page.
pub record Inserted (p : Page) (r : List ℕ) (q : Page) (slot : ℕ) : Type 0 where
  pub valid : IsValid p
  pub kept : (q.header.page_id ≡ p.header.page_id) × (q.header.kind ≡ p.header.kind)
  pub upper : q.header.upper + length r ≡ p.header.upper
  pub lower : p.header.lower ≤ q.header.lower
  pub aligned : q.header.lower % 6 ≡ 0
  pub ordered : q.header.lower ≤ q.header.upper
  pub counted : slot * 6 + 6 ≤ q.header.lower
  pub vacant : (slot < header_slot_count p.header → is_deleted (read_slot p.bytes slot) ≡ true)
  pub bytes :
      q.bytes
      ≡ write_slot
          (set_range p.bytes q.header.upper r)
          slot
          (record { offset = q.header.upper; size = length r; flags = 0 })

insert_slot_lem :
    (p : Page) (r : List ℕ) (o : Option ℕ) {q : Page} {slot : ℕ}
    → IsValid p
    → length r < 65536
    → find_deleted_slot p ≡ o
    → insert_checked p r o ≡ (q, ok slot)
    → Inserted p r q slot
unfolding insert_checked find_deleted_slot
insert_slot_lem p r (some k) {q} {slot} v small f h =
    let (below, deleted) = find_deleted_from_lem p.bytes 0 (header_slot_count p.header) f in
    let room : length r ≤ p.header.upper - p.header.lower = ground arith in
    let same : k ≡ slot = ground arith in
    let up : uint16 (p.header.upper - length r) ≡ q.header.upper = ground arith in
    let size : uint16 (length r) ≡ length r = omega arith in
    record {
      valid = v;
      kept = ground arith;
      upper = omega arith;
      lower = ground arith;
      aligned = ground arith;
      ordered = ground arith;
      counted = ground arith;
      vacant = λ lt. rw same at deleted;
      bytes = ground arith;
    }
insert_slot_lem p r none {q} {slot} v small f h =
    let room : length r + 6 ≤ p.header.upper - p.header.lower = ground arith in
    let next : header_slot_count p.header ≡ slot = ground arith in
    let up : uint16 (p.header.upper - length r) ≡ q.header.upper = ground arith in
    let low : p.header.lower + 6 ≡ q.header.lower = ground arith in
    let size : uint16 (length r) ≡ length r = omega arith in
    record {
      valid = v;
      kept = ground arith;
      upper = omega arith;
      lower = omega arith;
      aligned = omega arith;
      ordered = omega arith;
      counted = omega arith;
      vacant = λ lt. absurd (omega arith);
      bytes = ground arith;
    }

-- `Insert` returns a slot only as described by `Inserted`.
pub insert-Inserted :
    (p : Page) (r : List ℕ) {q : Page} {slot : ℕ} → insert p r ≡ (q, ok slot) → Inserted p r q slot
unfolding insert
insert-Inserted p r {q} {slot} h = elim (outcome (validate_page p)) [
  | succeeds u done ↦
      insert_slot_lem p r (find_deleted_slot p) (validate_page-IsValid p done) (ground arith) refl
        (unfold insert_checked in ground arith)
  | fails c failed ↦ absurd (ground arith)
]

module _ (p : Page) (r : List ℕ) {q : Page} {slot : ℕ} (i : Inserted p r q slot) where
  entry : SlotEntry
  entry = record { offset = q.header.upper; size = length r; flags = 0 }

  copied : List ℕ
  copied = set_range p.bytes q.header.upper r

  same_length : length q.bytes ≡ length p.bytes
  unfolding copied entry
  same_length =
      rw i.bytes (length-write_slot copied slot entry ∙ length-set_range p.bytes q.header.upper r)

  Inserted-IsValid : IsValid q
  Inserted-IsValid = record {
    nonempty = omega (arith, i.valid.nonempty, same_length);
    small = omega (arith, i.valid.small, same_length);
    kind = rw i.kept.1 i.valid.kind;
    ordered = i.ordered;
    inside = omega (arith, i.valid.inside, i.upper, same_length);
    aligned = i.aligned;
  }

  -- Behind the directory the page holds the copied bytes.
  behind : (j : ℕ) → q.header.lower ≤ j → get_or q.bytes j 0 ≡ get_or copied j 0
  unfolding copied entry
  behind j h = rw i.bytes (get_or-write_slot copied slot entry j (omega (arith, i.counted)))

  entry_read : read_slot q.bytes slot ≡ entry
  unfolding copied entry
  entry_read = rw i.bytes (
      read_slot-write_slot_self copied slot entry
        (omega (
          arith,
          i.counted,
          i.ordered,
          i.upper,
          i.valid.inside,
          length-set_range p.bytes q.header.upper r,
        ))
        (omega (arith, i.upper, i.valid.inside, i.valid.small)))

  slot-IsLive : IsLive q slot entry
  unfolding entry
  slot-IsLive = record {
    valid = Inserted-IsValid;
    counted = omega (arith, i.counted);
    entry = entry_read;
    live = refl;
    above = omega arith;
    inside = omega (arith, i.valid.inside, i.upper, same_length);
  }

  record_read : take (length r) (drop q.header.upper q.bytes) ≡ r
  unfolding copied
  record_read =
      take-drop_range q.bytes q.header.upper (length r) 0
        (omega (arith, i.valid.inside, i.upper, same_length))
      ∙ range_or-agree q.bytes copied q.header.upper (length r) 0
          (λ j lo hi. behind j (omega (arith, i.ordered)))
      ∙ range_or-set_range p.bytes q.header.upper r 0 (omega (arith, i.valid.inside, i.upper))

  page_read : read q slot ≡ ok (record { page_id = p.header.page_id; slot_id = slot; bytes = r })
  unfolding entry
  page_read =
      IsLive-read q slot slot-IsLive
      ∙ ap₂ (λ n b. ok (record { page_id = n; slot_id = slot; bytes = b })) i.kept.0 record_read

  module _ (j : ℕ) {e : SlotEntry} (l : IsLive p j e) where
    elsewhere : slot ≢ j
    elsewhere same =
        let counted : slot < header_slot_count p.header = omega (arith, l.counted) in
        let deleted = i.vacant counted in
        let live = rw (same, l.entry) at deleted in cc (live, l.live)

    still-IsLive : IsLive q j e
    unfolding copied entry
    still-IsLive = record {
      valid = Inserted-IsValid;
      counted = omega (arith, l.counted, i.lower);
      entry = rw i.bytes (
          read_slot-write_slot_ne copied slot entry
            (omega (
              arith,
              i.counted,
              i.ordered,
              i.upper,
              i.valid.inside,
              length-set_range p.bytes q.header.upper r,
            ))
            j
            (omega (
              arith,
              l.counted,
              i.valid.ordered,
              i.valid.inside,
              length-set_range p.bytes q.header.upper r,
            ))
            elsewhere
          ∙ read_slot-set_range p.bytes q.header.upper r j
              (omega (arith, l.counted, i.valid.ordered, i.valid.inside))
              (omega (arith, l.counted, i.lower, i.ordered))
          ∙ l.entry);
      live = l.live;
      above = omega (arith, l.above, i.upper);
      inside = omega (arith, l.inside, same_length);
    }

    same_bytes : take e.size (drop e.offset q.bytes) ≡ take e.size (drop e.offset p.bytes)
    unfolding copied
    same_bytes =
        take-drop_range q.bytes e.offset e.size 0 (omega (arith, l.inside, same_length))
        ∙ range_or-agree q.bytes p.bytes e.offset e.size 0 (λ k lo hi.
          behind k (omega (arith, i.ordered, i.upper, l.above))
          ∙ get_or-set_range_outside p.bytes q.header.upper r k 0 (omega (arith, i.upper, l.above)))
        ∙ sym (take-drop_range p.bytes e.offset e.size 0 l.inside)

-- A record that `Insert` stored is what `Read` returns for its slot.
pub read-insert_self :
    (p : Page) (r : List ℕ) {q : Page} {slot : ℕ}
    → insert p r ≡ (q, ok slot)
    → read q slot ≡ ok (record { page_id = p.header.page_id; slot_id = slot; bytes = r })
read-insert_self p r h = page_read p r (insert-Inserted p r h)

-- `Insert` keeps every record that could be read before, under its slot and with its bytes.
pub read-insert_other :
    (p : Page) (r : List ℕ) {q : Page} {slot : ℕ} (j : ℕ) {v : RecordView}
    → insert p r ≡ (q, ok slot)
    → read p j ≡ ok v
    → read q j ≡ ok v
read-insert_other p r {q} {slot} j {v} h k =
    let i = insert-Inserted p r h in
    let (e, l, same) = read-IsLive p j k in
    IsLive-read q j (still-IsLive p r i j l)
    ∙ ap₂ (λ n b. ok (record { page_id = n; slot_id = j; bytes = b })) i.kept.0
        (same_bytes p r i j l)
    ∙ ap ok (sym same)

-- A successful `Insert` leaves a valid page and takes a slot that was not readable; the record area
-- grows by the record's length, and the slot directory does not shrink.
pub insert-IsValid :
    (p : Page) (r : List ℕ) {q : Page} {slot : ℕ}
    → insert p r ≡ (q, ok slot)
    → IsValid q
      × ((v : RecordView) → read p slot ≢ ok v)
      × (q.header.upper + length r ≡ p.header.upper)
      × (p.header.lower ≤ q.header.lower)
insert-IsValid p r {q} {slot} h =
    let i = insert-Inserted p r h in
    (
      Inserted-IsValid p r i,
      λ v k. let (e, l, same) = read-IsLive p slot k in elsewhere p r i slot l refl,
      i.upper,
      i.lower,
    )
