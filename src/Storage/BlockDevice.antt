-- ===== src/Storage/BlockDevice.antt =====
-- src/storage/memory_block_device.cpp.
pub mod Access
mod Examples
use matt_sql.Prelude.{
  ℕ, ◌+◌, ◌-◌, ◌%◌, ◌^◌, Bool, true, false, not, ◌||◌, List, [], ◌∷◌, length, take, drop, replicate,
  set_range, ltb, ◌==◌, if◌then◌else◌,
}
use matt_sql.Common.Status.{Result, ok, err, Status, ◌>>=◌, invalid_argument}

-- `data_` is called `contents`.
pub record MemoryBlockDevice : Type 0 where
  pub block_size : ℕ
  pub contents : List ℕ
  pub valid : Bool

abbrev pub size_max : ℕ
size_max = 2 ^ 64 - 1

-- The constructor.
unfoldable pub make_device : ℕ → ℕ → MemoryBlockDevice
make_device size_bytes block_size =
    if block_size == 0
      || (size_bytes == 0 || (not (size_bytes % block_size == 0) || ltb size_max size_bytes))
    then record { block_size = block_size; contents = []; valid = false }
    else record { block_size = block_size; contents = replicate size_bytes 0; valid = true }

abbrev pub size_bytes : MemoryBlockDevice → ℕ
size_bytes device = length device.contents

unfoldable pub validate_access : MemoryBlockDevice → ℕ → ℕ → Status
validate_access device offset size =
    if not device.valid
    then err invalid_argument
    else if not (offset % device.block_size == 0) || not (size % device.block_size == 0)
    then err invalid_argument
    else if ltb (size_bytes device) offset
    then err invalid_argument
    else if ltb (size_bytes device - offset) size
    then err invalid_argument
    else ok tt

-- `Read` into a destination of `size` bytes returns what it holds then.
unfoldable pub read : MemoryBlockDevice → ℕ → ℕ → Result (List ℕ)
read device offset size = do
  done ← validate_access device offset size
  ok (take size (drop offset device.contents))

write_validated : MemoryBlockDevice → ℕ → List ℕ → Status → MemoryBlockDevice × Status
write_validated device offset source (err e) = (device, err e)
write_validated device offset source (ok done) =
    (record device { contents = set_range device.contents offset source }, ok tt)

unfoldable pub write : MemoryBlockDevice → ℕ → List ℕ → MemoryBlockDevice × Status
unfolding write_validated
write device offset source =
    write_validated device offset source (validate_access device offset (length source))

unfoldable pub flush : MemoryBlockDevice → ℕ → ℕ → Status
flush device offset size = validate_access device offset size
