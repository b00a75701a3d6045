-- ===== src/Storage/SlottedPage/Cells.antt =====
-- Cells of 16 bits in a page, and the slot entries made of them.
use matt_sql.Prelude.{
  ℕ, suc, ◌+◌, ◌*◌, ◌/◌, ◌%◌, ◌≤◌, ◌<◌, ◌≡◌, ◌≢◌, ◌⊎◌, sym, ap, ◌∙◌, List, length, drop, set,
  get_or, range_or, set_range, arith, take-drop_range, length-drop, length-set, get_or-set_self,
  get_or-set_ne, length-set_range, get_or-set_range_outside,
}
use matt_sql.Storage.ByteIo.{read_little_endian_at, byte_at}
use matt_sql.Storage.ByteIo.LittleEndian.{read_little_endian_lem, from_le}
use matt_sql.Storage.SlottedPage.{read_u16, write_u16}

read_little_endian_at_lem :
    (n : ℕ) (bytes : List ℕ) (i : ℕ)
    → i + n ≤ length bytes
    → read_little_endian_at n bytes i ≡ from_le (range_or bytes i n 0)
unfolding read_little_endian_at
read_little_endian_at_lem n bytes i h =
    rw (read_little_endian_lem n (drop i bytes) (omega (arith, length-drop i bytes)))
      (ap from_le (take-drop_range bytes i n 0 h))

pub read_u16_lem :
    (bytes : List ℕ) (i : ℕ)
    → i + 2 ≤ length bytes
    → read_u16 bytes i ≡ get_or bytes i 0 + 256 * get_or bytes (suc i) 0
unfolding read_u16 from_le
read_u16_lem bytes i h = read_little_endian_at_lem 2 bytes i h ∙ omega arith

pub write_u16_lem :
    (bytes : List ℕ) (i v : ℕ)
    → write_u16 bytes i v ≡ set (set bytes i (v % 256)) (suc i) (v / 256 % 256)
unfolding write_u16
write_u16_lem bytes i v =
    let low : byte_at v 0 ≡ v % 256 = omega arith in
    let next : i + 1 ≡ suc i = omega arith in rw (low, next)

pub length-write_u16 : (bytes : List ℕ) (i v : ℕ) → length (write_u16 bytes i v) ≡ length bytes
length-write_u16 bytes i v =
    rw (write_u16_lem bytes i v)
      (length-set (set bytes i (v % 256)) (suc i) (v / 256 % 256) ∙ length-set bytes i (v % 256))

-- A write of a cell changes its two bytes alone.
pub get_or-write_u16 :
    (bytes : List ℕ) (i v j : ℕ)
    → i ≢ j
    → suc i ≢ j
    → get_or (write_u16 bytes i v) j 0 ≡ get_or bytes j 0
get_or-write_u16 bytes i v j h k = rw (write_u16_lem bytes i v) (
    get_or-set_ne (set bytes i (v % 256)) (suc i) j (v / 256 % 256) 0 k
    ∙ get_or-set_ne bytes i j (v % 256) 0 h)

pub read_u16-write_u16_self :
    (bytes : List ℕ) (i v : ℕ)
    → i + 2 ≤ length bytes
    → v < 65536
    → read_u16 (write_u16 bytes i v) i ≡ v
read_u16-write_u16_self bytes i v h small =
    let bytes' = set bytes i (v % 256) in
    let fits : suc i < length bytes' = omega (arith, length-set bytes i (v % 256)) in
    let low : get_or (write_u16 bytes i v) i 0 ≡ v % 256 = rw (write_u16_lem bytes i v) (
      get_or-set_ne bytes' (suc i) i (v / 256 % 256) 0 (omega arith)
      ∙ get_or-set_self bytes i (v % 256) 0 (omega arith)) in
    let high : get_or (write_u16 bytes i v) (suc i) 0 ≡ v / 256 % 256 =
      rw (write_u16_lem bytes i v) (get_or-set_self bytes' (suc i) (v / 256 % 256) 0 fits) in
    read_u16_lem (write_u16 bytes i v) i (omega (arith, length-write_u16 bytes i v))
    ∙ rw (low, high) (omega arith)

-- Two pages that agree on a cell's bytes agree on the cell.
pub read_u16-agree :
    (xs ys : List ℕ) (i : ℕ)
    → i + 2 ≤ length xs
    → length ys ≡ length xs
    → get_or xs i 0 ≡ get_or ys i 0
    → get_or xs (suc i) 0 ≡ get_or ys (suc i) 0
    → read_u16 xs i ≡ read_u16 ys i
read_u16-agree xs ys i h e low high =
    read_u16_lem xs i h ∙ rw (low, high) (sym (read_u16_lem ys i (omega arith)))

pub read_u16-write_u16_ne :
    (bytes : List ℕ) (i v j : ℕ)
    → j + 2 ≤ length bytes
    → (i + 2 ≤ j) ⊎ (j + 2 ≤ i)
    → read_u16 (write_u16 bytes i v) j ≡ read_u16 bytes j
read_u16-write_u16_ne bytes i v j h apart =
    read_u16-agree (write_u16 bytes i v) bytes j (omega (arith, length-write_u16 bytes i v))
      (sym (length-write_u16 bytes i v)) (get_or-write_u16 bytes i v j (omega arith) (omega arith))
      (get_or-write_u16 bytes i v (suc j) (omega arith) (omega arith))

pub read_u16-set_range :
    (bytes : List ℕ) (i : ℕ) (ys : List ℕ) (j : ℕ)
    → j + 2 ≤ length bytes
    → j + 2 ≤ i
    → read_u16 (set_range bytes i ys) j ≡ read_u16 bytes j
read_u16-set_range bytes i ys j h apart =
    read_u16-agree (set_range bytes i ys) bytes j (omega (arith, length-set_range bytes i ys))
      (sym (length-set_range bytes i ys)) (get_or-set_range_outside bytes i ys j 0 (omega arith))
      (get_or-set_range_outside bytes i ys (suc j) 0 (omega arith))
