-- ===== src/Storage/SlottedPage/Bytes.antt =====
-- The operations on a slotted page write bytes only.
use matt_sql.Prelude.{
  All, ℕ, zero, suc, ◌+◌, ◌<◌, ◌≡◌, List, [], ◌∷◌, set, set_range, replicate, arith,
}
use matt_sql.Common.Status.{ok}
use matt_sql.Storage.ByteIo.{write_little_endian_at, byte_at}
use matt_sql.Storage.ByteIo.LittleEndian.{IsByte}
use matt_sql.Storage.SlottedPage.{Page, SlotEntry, write_u16, write_slot, insert, delete}
use matt_sql.Storage.SlottedPage.Insertion.{insert-Inserted}
use matt_sql.Storage.SlottedPage.Deletion.{delete_lem}

set-IsByte : (xs : List ℕ) (i v : ℕ) → All IsByte xs → v < 256 → All IsByte (set xs i v)
set-IsByte [] i v h k = tt
set-IsByte (x ∷ xs) zero v h k = (k, h.1)
set-IsByte (x ∷ xs) (suc i) v h k = (h.0, set-IsByte xs i v h.1 k)

set_range-IsByte :
    (xs : List ℕ) (i : ℕ) (ys : List ℕ)
    → All IsByte xs
    → All IsByte ys
    → All IsByte (set_range xs i ys)
set_range-IsByte xs i [] h k = h
set_range-IsByte xs i (y ∷ ys) h k =
    set_range-IsByte (set xs i y) (suc i) ys (set-IsByte xs i y h k.0) k.1

pub replicate-IsByte : (n : ℕ) → All IsByte (replicate n 0)
replicate-IsByte zero = tt
replicate-IsByte (suc n) = (omega arith, replicate-IsByte n)

write_u16-IsByte : (xs : List ℕ) (i v : ℕ) → All IsByte xs → All IsByte (write_u16 xs i v)
unfolding write_u16 write_little_endian_at
write_u16-IsByte xs i v h =
    set-IsByte (set xs i (byte_at v 0)) (i + 1) (byte_at v 8)
      (set-IsByte xs i (byte_at v 0) h (omega arith)) (omega arith)

write_slot-IsByte :
    (xs : List ℕ) (i : ℕ) (e : SlotEntry) → All IsByte xs → All IsByte (write_slot xs i e)
unfolding write_slot
write_slot-IsByte xs i e h =
    write_u16-IsByte _ _ e.flags (write_u16-IsByte _ _ e.size (write_u16-IsByte xs _ e.offset h))

pub insert-IsByte :
    (p : Page) (r : List ℕ) {q : Page} {slot : ℕ}
    → All IsByte p.bytes
    → All IsByte r
    → insert p r ≡ (q, ok slot)
    → All IsByte q.bytes
insert-IsByte p r {q} h k e =
    let i = insert-Inserted p r e in
    rw i.bytes (write_slot-IsByte _ _ _ (set_range-IsByte p.bytes q.header.upper r h k))

pub delete-IsByte :
    (p : Page) (j : ℕ) {q : Page} {u : Unit {0}}
    → All IsByte p.bytes
    → delete p j ≡ (q, ok u)
    → All IsByte q.bytes
delete-IsByte p j h e =
    let (f, l, same) = delete_lem p j e in rw same (write_slot-IsByte p.bytes j _ h)
