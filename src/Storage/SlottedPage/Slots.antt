-- ===== src/Storage/SlottedPage/Slots.antt =====
-- Slot entries in a page's directory.
use matt_sql.Prelude.{
  ℕ, ◌+◌, ◌*◌, ◌≤◌, ◌<◌, ◌≡◌, ◌≢◌, ◌⊎◌, ◌∙◌, List, length, get_or, set_range, arith,
}
use matt_sql.Storage.SlottedPage.{read_u16, write_u16, read_slot, write_slot, SlotEntry}
use matt_sql.Storage.SlottedPage.Cells.{
  length-write_u16, get_or-write_u16, read_u16-write_u16_self, read_u16-write_u16_ne,
  read_u16-set_range,
}

pub length-write_slot :
    (bytes : List ℕ) (id : ℕ) (e : SlotEntry) → length (write_slot bytes id e) ≡ length bytes
unfolding write_slot
length-write_slot bytes id e =
    length-write_u16 _ (id * 6 + 4) e.flags
    ∙ length-write_u16 _ (id * 6 + 2) e.size
    ∙ length-write_u16 bytes (id * 6) e.offset

-- A write of a slot changes the bytes of its entry alone.
pub get_or-write_slot :
    (bytes : List ℕ) (id : ℕ) (e : SlotEntry) (j : ℕ)
    → (j < id * 6) ⊎ (id * 6 + 6 ≤ j)
    → get_or (write_slot bytes id e) j 0 ≡ get_or bytes j 0
unfolding write_slot
get_or-write_slot bytes id e j h =
    get_or-write_u16 _ (id * 6 + 4) e.flags j (omega arith) (omega arith)
    ∙ get_or-write_u16 _ (id * 6 + 2) e.size j (omega arith) (omega arith)
    ∙ get_or-write_u16 bytes (id * 6) e.offset j (omega arith) (omega arith)

-- The fields of an entry are 16 bits wide.
pub record IsEntry (e : SlotEntry) : Type 0 where
  pub offset : e.offset < 65536
  pub size : e.size < 65536
  pub flags : e.flags < 65536

module _ (bytes : List ℕ) (id : ℕ) (e : SlotEntry) (h : id * 6 + 6 ≤ length bytes) where
  first : List ℕ
  first = write_u16 bytes (id * 6) e.offset

  second : List ℕ
  second = write_u16 first (id * 6 + 2) e.size

  length-second : length second ≡ length bytes
  unfolding first second
  length-second =
      length-write_u16 first (id * 6 + 2) e.size ∙ length-write_u16 bytes (id * 6) e.offset

  pub read_slot-write_slot_self : IsEntry e → read_slot (write_slot bytes id e) id ≡ e
  unfolding read_slot write_slot first second
  read_slot-write_slot_self w =
      let n1 = length-write_u16 bytes (id * 6) e.offset in
      let n2 = length-second in
      λ i. record {
        offset =
            (read_u16-write_u16_ne second (id * 6 + 4) e.flags (id * 6) (omega arith) (omega arith)
                ∙ read_u16-write_u16_ne first (id * 6 + 2) e.size (id * 6) (omega arith)
                    (omega arith)
                ∙ read_u16-write_u16_self bytes (id * 6) e.offset (omega arith) w.offset)
              i;
        size =
            (read_u16-write_u16_ne second (id * 6 + 4) e.flags (id * 6 + 2) (omega arith)
                  (omega arith)
                ∙ read_u16-write_u16_self first (id * 6 + 2) e.size (omega arith) w.size)
              i;
        flags = read_u16-write_u16_self second (id * 6 + 4) e.flags (omega arith) w.flags i;
      }

  u16_elsewhere :
      (j : ℕ)
      → j + 2 ≤ length bytes
      → (id * 6 + 6 ≤ j) ⊎ (j + 2 ≤ id * 6)
      → read_u16 (write_slot bytes id e) j ≡ read_u16 bytes j
  unfolding write_slot first second
  u16_elsewhere j fits apart =
      let n1 = length-write_u16 bytes (id * 6) e.offset in
      let n2 = length-second in
      read_u16-write_u16_ne second (id * 6 + 4) e.flags j (omega arith) (omega arith)
      ∙ read_u16-write_u16_ne first (id * 6 + 2) e.size j (omega arith) (omega arith)
      ∙ read_u16-write_u16_ne bytes (id * 6) e.offset j (omega arith) (omega arith)

  pub read_slot-write_slot_ne :
      (j : ℕ)
      → j * 6 + 6 ≤ length bytes
      → id ≢ j
      → read_slot (write_slot bytes id e) j ≡ read_slot bytes j
  unfolding read_slot
  read_slot-write_slot_ne j fits differ =
      let apart : (id * 6 + 6 ≤ j * 6) ⊎ (j * 6 + 6 ≤ id * 6) = omega arith in
      λ i. record {
        offset = u16_elsewhere (j * 6) (omega arith) (omega arith) i;
        size = u16_elsewhere (j * 6 + 2) (omega arith) (omega arith) i;
        flags = u16_elsewhere (j * 6 + 4) (omega arith) (omega arith) i;
      }

-- A copy of record bytes behind an entry leaves the entry.
pub read_slot-set_range :
    (bytes : List ℕ) (i : ℕ) (ys : List ℕ) (j : ℕ)
    → j * 6 + 6 ≤ length bytes
    → j * 6 + 6 ≤ i
    → read_slot (set_range bytes i ys) j ≡ read_slot bytes j
unfolding read_slot
read_slot-set_range bytes i ys j fits apart = λ k. record {
  offset = read_u16-set_range bytes i ys (j * 6) (omega arith) (omega arith) k;
  size = read_u16-set_range bytes i ys (j * 6 + 2) (omega arith) (omega arith) k;
  flags = read_u16-set_range bytes i ys (j * 6 + 4) (omega arith) (omega arith) k;
}
