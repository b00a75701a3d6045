-- ===== src/Storage/ByteIo.antt =====
-- include/mattsql/storage/byte_io.hpp. A byte is a number below 256, and an unsigned integer of `n`
-- bytes a number below 256 ^ n. A reader's offset is given by the bytes from there on.
pub mod LittleEndian
use matt_sql.Prelude.{
  ℕ, zero, suc, ◌+◌, ◌*◌, ◌/◌, ◌%◌, ◌^◌, Option, none, some, List, [], ◌∷◌, ◌++◌, length, drop, set,
  ltb, if◌then◌else◌,
}

unfoldable pub append_byte : List ℕ → ℕ → List ℕ
append_byte bytes value = bytes ++ value ∷ []

-- `(value >> shift) & 0xff`
abbrev pub byte_at : ℕ → ℕ → ℕ
byte_at value shift = value / 2 ^ shift % 256

-- The loop of `AppendLittleEndian`, with the rounds that are left.
append_loop : ℕ → ℕ → List ℕ → ℕ → List ℕ
unfolding append_byte
append_loop zero shift bytes value = bytes
append_loop (suc rounds) shift bytes value =
    append_loop rounds (shift + 8) (append_byte bytes (byte_at value shift)) value

-- `width` is `sizeof(UInt)`.
unfoldable pub append_little_endian : ℕ → List ℕ → ℕ → List ℕ
unfolding append_loop
append_little_endian width bytes value = append_loop width 0 bytes value

-- The loop of `ReadLittleEndian`. The bits that a byte is or-ed into are still 0, so `|=` is `+`.
read_loop : ℕ → ℕ → List ℕ → ℕ → ℕ × List ℕ
read_loop zero shift bytes value = (value, bytes)
read_loop (suc rounds) shift [] value = (value, [])
read_loop (suc rounds) shift (b ∷ bytes) value =
    read_loop rounds (shift + 8) bytes (value + b * 2 ^ shift)

-- The value and the bytes behind it; `none` is the return of false.
unfoldable pub read_little_endian : ℕ → List ℕ → Option (ℕ × List ℕ)
unfolding read_loop
read_little_endian width bytes =
    if ltb (length bytes) width then none else some (read_loop width 0 bytes 0)

value_or_zero : Option (ℕ × List ℕ) → ℕ
value_or_zero none = 0
value_or_zero (some (value, bytes)) = value

unfoldable pub read_little_endian_at : ℕ → List ℕ → ℕ → ℕ
unfolding value_or_zero read_little_endian
read_little_endian_at width bytes offset =
    value_or_zero (read_little_endian width (drop offset bytes))

write_loop : ℕ → ℕ → List ℕ → ℕ → ℕ → List ℕ
write_loop zero shift bytes offset value = bytes
write_loop (suc rounds) shift bytes offset value =
    write_loop rounds (shift + 8) (set bytes offset (byte_at value shift)) (offset + 1) value

unfoldable pub write_little_endian_at : ℕ → List ℕ → ℕ → ℕ → List ℕ
unfolding write_loop
write_little_endian_at width bytes offset value = write_loop width 0 bytes offset value
