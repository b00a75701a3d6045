-- ===== src/Storage/BlockDevice/Examples.antt =====
-- A device of four blocks of two bytes, and the theorems on accesses at it.
use matt_sql.Prelude.{◌≡◌, refl, true, false, [], ◌∷◌, arith}
use matt_sql.Common.Status.{ok, err, invalid_argument}
use matt_sql.Storage.BlockDevice.{MemoryBlockDevice, make_device, read, write, validate_access}
use matt_sql.Storage.BlockDevice.Access.{read-write_self, read-write_apart}

abbrev device : MemoryBlockDevice
device = make_device 8 2

abbrev written : MemoryBlockDevice
written = record { block_size = 2; contents = 0 ∷ 0 ∷ 1 ∷ 2 ∷ 3 ∷ 4 ∷ 0 ∷ 0 ∷ []; valid = true }

blocks_written : write device 2 (1 ∷ 2 ∷ 3 ∷ 4 ∷ []) ≡ (written, ok tt)
unfolding make_device write validate_access
blocks_written = refl

unaligned_refused : read written 1 2 ≡ err invalid_argument
unfolding read validate_access
unaligned_refused = refl

past_end_refused : read written 8 2 ≡ err invalid_argument
unfolding read validate_access
past_end_refused = refl

read-write_self_example : read written 2 4 ≡ ok (1 ∷ 2 ∷ 3 ∷ 4 ∷ [])
read-write_self_example = read-write_self device 2 (1 ∷ 2 ∷ 3 ∷ 4 ∷ []) blocks_written

read-write_apart_example : read written 6 2 ≡ read device 6 2
read-write_apart_example =
    read-write_apart device 2 (1 ∷ 2 ∷ 3 ∷ 4 ∷ []) 6 2 blocks_written (omega arith)

abbrev broken : MemoryBlockDevice
broken = record { block_size = 0; contents = []; valid = false }
