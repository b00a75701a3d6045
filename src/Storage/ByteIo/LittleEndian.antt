-- ===== src/Storage/ByteIo/LittleEndian.antt =====
-- What the loops of byte_io.hpp read and write, in plain arithmetic.
use mathlib.Core.List.{append_assoc, append-nil}
use native.Mathlib.Nat.{div-div-eq-div-mul, pow-suc}
use native.Mathlib.Numerals.{towards_suc}
use matt_sql.Prelude.{
  ℕ, zero, suc, ◌+◌, ◌*◌, ◌/◌, ◌%◌, ◌^◌, ◌≤◌, ◌<◌, ◌≡◌, refl, sym, ap, ◌∙◌, some, List, [], ◌∷◌,
  ◌++◌, length, take, drop, arith, All,
}
use matt_sql.Storage.ByteIo.{
  append_byte, byte_at, append_loop, append_little_endian, read_loop, read_little_endian,
}

abbrev pub IsByte : ℕ → Type 0
IsByte b = b < 256

-- The lowest `n` bytes of a number, lowest first, and the number of a list of bytes.
unfoldable pub le_bytes : ℕ → ℕ → List ℕ
le_bytes zero v = []
le_bytes (suc n) v = v % 256 ∷ le_bytes n (v / 256)

unfoldable pub from_le : List ℕ → ℕ
from_le [] = 0
from_le (b ∷ bs) = b + 256 * from_le bs

pow_shift : (s : ℕ) → 2 ^ (s + 8) ≡ 2 ^ s * 256
pow_shift s = simp towards_suc (omega arith)

div_shift : (v s : ℕ) → v / 2 ^ (s + 8) ≡ v / 2 ^ s / 256
div_shift v s = rw (pow_shift s) (sym (div-div-eq-div-mul v (2 ^ s) 256))

append_loop-le_bytes :
    (n s : ℕ) (bytes : List ℕ) (v : ℕ) → append_loop n s bytes v ≡ bytes ++ le_bytes n (v / 2 ^ s)
unfolding append_loop append_byte le_bytes
append_loop-le_bytes zero s bytes v = sym (append-nil bytes)
append_loop-le_bytes (suc n) s bytes v =
    append_loop-le_bytes n (s + 8) (bytes ++ byte_at v s ∷ []) v
    ∙ rw (div_shift v s) (append_assoc bytes (byte_at v s ∷ []) (le_bytes n (v / 2 ^ s / 256)))

pub append_little_endian_lem :
    (n : ℕ) (bytes : List ℕ) (v : ℕ) → append_little_endian n bytes v ≡ bytes ++ le_bytes n v
unfolding append_little_endian
append_little_endian_lem n bytes v =
    append_loop-le_bytes n 0 bytes v ∙ ap (λ t. bytes ++ le_bytes n t) (omega arith)

pub length-le_bytes : (n v : ℕ) → length (le_bytes n v) ≡ n
unfolding le_bytes
length-le_bytes zero v = refl
length-le_bytes (suc n) v = ap suc (length-le_bytes n (v / 256))

pub le_bytes-IsByte : (n v : ℕ) → All IsByte (le_bytes n v)
unfolding le_bytes
le_bytes-IsByte zero v = tt
le_bytes-IsByte (suc n) v = (omega arith, le_bytes-IsByte n (v / 256))

read_loop-from_le :
    (n s : ℕ) (bytes : List ℕ) (acc : ℕ)
    → read_loop n s bytes acc ≡ (acc + from_le (take n bytes) * 2 ^ s, drop n bytes)
unfolding read_loop from_le
read_loop-from_le zero s bytes acc = ground arith
read_loop-from_le (suc n) s [] acc = ground arith
read_loop-from_le (suc n) s (b ∷ bytes) acc = ground (
  arith,
  read_loop-from_le n (s + 8) bytes (acc + b * 2 ^ s),
  ap (λ (t : ℕ). from_le (take n bytes) * t) (pow_shift s),
)

-- A read of `n` bytes fails exactly on fewer bytes, and takes their number off the front.
pub read_little_endian_lem :
    (n : ℕ) (bytes : List ℕ)
    → n ≤ length bytes
    → read_little_endian n bytes ≡ some (from_le (take n bytes), drop n bytes)
unfolding read_little_endian
read_little_endian_lem n bytes h = ground (arith, read_loop-from_le n 0 bytes 0)

pub from_le-le_bytes : (n v : ℕ) → v < 256 ^ n → from_le (le_bytes n v) ≡ v
unfolding from_le le_bytes
from_le-le_bytes zero v h = omega arith
from_le-le_bytes (suc n) v h = omega (arith, from_le-le_bytes n (v / 256) (omega arith))

pub le_bytes-from_le : (bs : List ℕ) → All IsByte bs → le_bytes (length bs) (from_le bs) ≡ bs
unfolding from_le le_bytes
le_bytes-from_le [] h = refl
le_bytes-from_le (b ∷ bs) h = ground (arith, le_bytes-from_le bs h.1)

pub from_le-lt : (bs : List ℕ) → All IsByte bs → from_le bs < 256 ^ length bs
unfolding from_le
from_le-lt [] h = omega arith
from_le-lt (b ∷ bs) h = omega (arith, from_le-lt bs h.1, pow-suc 256 (length bs))
