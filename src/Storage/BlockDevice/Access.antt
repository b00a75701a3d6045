-- ===== src/Storage/BlockDevice/Access.antt =====
-- Reads and writes of the block device: what is written is read back, and the rest stays.
use matt_sql.Prelude.{
  ℕ, ◌+◌, ◌≤◌, ◌≡◌, ◌⊎◌, sym, ap, ◌∙◌, true, false, List, length, set_range, arith,
  length-set_range, take-drop_range, range_or-set_range, range_or-agree, get_or-set_range_outside,
}
use matt_sql.Common.Status.{ok, err, invalid_argument, outcome, succeeds, fails}
use matt_sql.Storage.BlockDevice.{MemoryBlockDevice, validate_access, read, write, size_bytes}

pub validate_access_bounds :
    (d : MemoryBlockDevice) (offset size : ℕ) {u : Unit {0}}
    → validate_access d offset size ≡ ok u
    → (d.valid ≡ true) × (offset + size ≤ size_bytes d)
unfolding validate_access
validate_access_bounds d offset size h = ground arith

-- Validation looks at the geometry alone, which a write keeps.
validate_access-set :
    (d : MemoryBlockDevice) (i : ℕ) (ys : List ℕ) (offset size : ℕ)
    → validate_access (record d { contents = set_range d.contents i ys }) offset size
      ≡ validate_access d offset size
unfolding validate_access
validate_access-set d i ys offset size = rw (length-set_range d.contents i ys)

write_inversion :
    (d : MemoryBlockDevice) (offset : ℕ) (source : List ℕ) {d' : MemoryBlockDevice} {u : Unit {0}}
    → write d offset source ≡ (d', ok u)
    → (validate_access d offset (length source) ≡ ok tt)
      × (d' ≡ record d { contents = set_range d.contents offset source })
unfolding write
write_inversion d offset source h = elim (outcome (validate_access d offset (length source))) [
  | succeeds tt' done ↦ (ground arith, ground arith)
  | fails c failed ↦ absurd (ground arith)
]

-- After a successful `Write`, a `Read` of that range returns what was written.
pub read-write_self :
    (d : MemoryBlockDevice) (offset : ℕ) (source : List ℕ) {d' : MemoryBlockDevice} {u : Unit {0}}
    → write d offset source ≡ (d', ok u)
    → read d' offset (length source) ≡ ok source
unfolding read
read-write_self d offset source h =
    let (valid, same) = write_inversion d offset source h in
    let (on, fits) = validate_access_bounds d offset (length source) valid in
    rw same (
      rw (validate_access-set d offset source offset (length source)) (
        rw valid (
          ap ok (
            take-drop_range (set_range d.contents offset source) offset (length source) 0
              (omega (arith, length-set_range d.contents offset source))
            ∙ range_or-set_range d.contents offset source 0 fits))))

-- A successful `Write` leaves every `Read` of a range apart from the one that was written as it was.
pub read-write_apart :
    (d : MemoryBlockDevice) (offset : ℕ) (source : List ℕ) {d' : MemoryBlockDevice} {u : Unit {0}}
    (at size : ℕ)
    → write d offset source ≡ (d', ok u)
    → (at + size ≤ offset) ⊎ (offset + length source ≤ at)
    → read d' at size ≡ read d at size
unfolding read
read-write_apart d offset source at size h apart =
    let (valid, same) = write_inversion d offset source h in
    rw same (
      rw (validate_access-set d offset source at size) (elim (outcome (validate_access d at size)) [
        | succeeds u done ↦
            let (on, fits) = validate_access_bounds d at size done in
            rw done (
              ap ok (
                take-drop_range (set_range d.contents offset source) at size 0
                  (omega (arith, length-set_range d.contents offset source))
                ∙ range_or-agree (set_range d.contents offset source) d.contents at size 0
                    (λ j lo hi. get_or-set_range_outside d.contents offset source j 0 (omega arith))
                ∙ sym (take-drop_range d.contents at size 0 fits)))
        | fails c failed ↦ rw failed
      ]))

-- Every access to a device with an invalid geometry fails and changes nothing.
pub write_invalid :
    (d : MemoryBlockDevice) (offset : ℕ) (source : List ℕ)
    → d.valid ≡ false
    → (write d offset source ≡ (d, err invalid_argument))
      × (read d offset (length source) ≡ err invalid_argument)
unfolding write read validate_access
write_invalid d offset source h = (rw h, rw h)
