-- ===== src/Storage/SlottedPage/Deletion.antt =====
-- `Delete` of a slotted page: the slot is gone, and every other record stays.
use matt_sql.Prelude.{
  All, ℕ, zero, suc, ◌+◌, ◌*◌, ◌≤◌, ◌<◌, ◌≡◌, ◌≢◌, refl, sym, ap, ◌∙◌, List, [], ◌∷◌, true, length,
  get_or, take, drop, arith, take-drop_range, range_or-agree,
}
use matt_sql.Common.Status.{ok, err, ◌>>=◌, not_found, outcome, succeeds, fails}
use matt_sql.Storage.SlottedPage.{
  Page, SlotEntry, RecordView, live_slot, read, read_slot, write_slot, set_deleted, is_deleted,
  delete,
}
use matt_sql.Storage.SlottedPage.Slots.{
  length-write_slot, get_or-write_slot, IsEntry, read_slot-write_slot_self, read_slot-write_slot_ne,
}
use matt_sql.Storage.SlottedPage.Live.{
  IsValid, IsLive, IsValid-validate_page, live_slot-IsLive, read-IsLive, IsLive-read,
}
use matt_sql.Storage.ByteIo.LittleEndian.{IsByte}
use matt_sql.Storage.SlottedPage.{read_u16}
use matt_sql.Storage.SlottedPage.Cells.{read_u16_lem}

get_or-IsByte : (xs : List ℕ) (i : ℕ) → All IsByte xs → get_or xs i 0 < 256
get_or-IsByte [] i w = omega arith
get_or-IsByte (x ∷ xs) zero w = w.0
get_or-IsByte (x ∷ xs) (suc i) w = get_or-IsByte xs i w.1

read_u16-lt : (xs : List ℕ) (i : ℕ) → All IsByte xs → i + 2 ≤ length xs → read_u16 xs i < 65536
read_u16-lt xs i w h =
    omega (arith, read_u16_lem xs i h, get_or-IsByte xs i w, get_or-IsByte xs (suc i) w)

read_slot-IsEntry :
    (xs : List ℕ) (j : ℕ) → All IsByte xs → j * 6 + 6 ≤ length xs → IsEntry (read_slot xs j)
unfolding read_slot
read_slot-IsEntry xs j w h = record {
  offset = read_u16-lt xs (j * 6) w (omega arith);
  size = read_u16-lt xs (j * 6 + 2) w (omega arith);
  flags = read_u16-lt xs (j * 6 + 4) w (omega arith);
}

pub delete_lem :
    (p : Page) (j : ℕ) {q : Page} {u : Unit {0}}
    → delete p j ≡ (q, ok u)
    → (e : SlotEntry) × IsLive p j e
      × (q ≡ record p { bytes = write_slot p.bytes j (set_deleted e) })
unfolding delete
delete_lem p j {q} h = elim (outcome (live_slot p j)) [
  | succeeds e done ↦ (e, live_slot-IsLive p j done, ground arith)
  | fails c failed ↦ absurd (ground arith)
]

module _ (p : Page) (j : ℕ) {e : SlotEntry} (w : All IsByte p.bytes) (l : IsLive p j e) where
  deleted_page : Page
  deleted_page = record p { bytes = write_slot p.bytes j (set_deleted e) }

  same_length : length deleted_page.bytes ≡ length p.bytes
  unfolding deleted_page
  same_length = length-write_slot p.bytes j (set_deleted e)

  in_directory : j * 6 + 6 ≤ length p.bytes
  in_directory = omega (arith, l.counted, l.valid.ordered, l.valid.inside)

  deleted-IsValid : IsValid deleted_page
  unfolding deleted_page
  deleted-IsValid = record {
    nonempty = omega (arith, l.valid.nonempty, same_length);
    small = omega (arith, l.valid.small, same_length);
    kind = l.valid.kind;
    ordered = l.valid.ordered;
    inside = omega (arith, l.valid.inside, same_length);
    aligned = l.valid.aligned;
  }

  live-IsEntry : IsEntry e
  live-IsEntry = rw l.entry at (read_slot-IsEntry p.bytes j w in_directory)

  set_deleted-IsEntry : IsEntry (set_deleted e)
  set_deleted-IsEntry =
      ground (arith, live-IsEntry.offset, live-IsEntry.size, live-IsEntry.flags, l.live)

  entry_marked : read_slot deleted_page.bytes j ≡ set_deleted e
  unfolding deleted_page
  entry_marked =
      read_slot-write_slot_self p.bytes j (set_deleted e) in_directory set_deleted-IsEntry

  marked : is_deleted (set_deleted e) ≡ true
  marked = ground (arith, l.live)

  gone : read deleted_page j ≡ err not_found
  unfolding read deleted_page live_slot
  gone =
      rw (IsValid-validate_page deleted_page deleted-IsValid)
        (rw entry_marked (rw marked (ground (arith, l.counted))))

  module _ (k : ℕ) {f : SlotEntry} (other : IsLive p k f) (differ : j ≢ k) where
    still-IsLive : IsLive deleted_page k f
    unfolding deleted_page
    still-IsLive = record {
      valid = deleted-IsValid;
      counted = other.counted;
      entry =
          read_slot-write_slot_ne p.bytes j (set_deleted e) in_directory k
            (omega (arith, other.counted, other.valid.ordered, other.valid.inside)) differ
          ∙ other.entry;
      live = other.live;
      above = other.above;
      inside = omega (arith, other.inside, same_length);
    }

    same_bytes :
        take f.size (drop f.offset deleted_page.bytes) ≡ take f.size (drop f.offset p.bytes)
    unfolding deleted_page
    same_bytes =
        take-drop_range deleted_page.bytes f.offset f.size 0
          (omega (arith, other.inside, same_length))
        ∙ range_or-agree deleted_page.bytes p.bytes f.offset f.size 0 (λ i lo hi.
          get_or-write_slot p.bytes j (set_deleted e) i
            (omega (arith, l.counted, l.valid.ordered, other.above)))
        ∙ sym (take-drop_range p.bytes f.offset f.size 0 other.inside)

pub delete_parts :
    (p : Page) (j : ℕ) {q : Page} {u : Unit {0}}
    → All IsByte p.bytes
    → delete p j ≡ (q, ok u)
    → (read q j ≡ err not_found)
      × IsValid q
      × (q.header ≡ p.header)
      × ((k : ℕ) (v : RecordView) → j ≢ k → read p k ≡ ok v → read q k ≡ ok v)
unfolding deleted_page
delete_parts p j w h =
    let (e, l, same) = delete_lem p j h in
    rw same (
      gone p j w l,
      deleted-IsValid p j w l,
      refl,
      λ k v differ r.
          let (f, other, view) = read-IsLive p k r in
          IsLive-read _ k (still-IsLive p j w l k other differ)
          ∙ ap (λ b. ok (record { page_id = p.header.page_id; slot_id = k; bytes = b }))
              (same_bytes p j w l k other differ)
          ∙ ap ok (sym view),
    )

-- After `Delete` the slot reads as not found, and the page is valid with the header it had.
pub delete_correct :
    (p : Page) (j : ℕ) {q : Page} {u : Unit {0}}
    → All IsByte p.bytes
    → delete p j ≡ (q, ok u)
    → (read q j ≡ err not_found) × IsValid q × (q.header ≡ p.header)
delete_correct p j w h =
    let (gone, valid, header, others) = delete_parts p j w h in (gone, valid, header)

-- `Delete` keeps every record that could be read under another slot.
pub delete_keeps_others :
    (p : Page) (j k : ℕ) {q : Page} {u : Unit {0}} {v : RecordView}
    → All IsByte p.bytes
    → delete p j ≡ (q, ok u)
    → j ≢ k
    → read p k ≡ ok v
    → read q k ≡ ok v
delete_keeps_others p j k {v} w h differ r = (delete_parts p j w h).3 k v differ r

-- `Delete` succeeds exactly where `Read` does, and fails with the same error.
pub delete-read : (p : Page) (j : ℕ) → (delete p j).1 ≡ (read p j >>= λ v. ok tt)
unfolding delete read
delete-read p j = elim (outcome (live_slot p j)) [
  | succeeds e done ↦ rw done
  | fails c failed ↦ rw failed
]
