-- ===== src/Storage/TupleCodec/Field.antt =====
-- One field of a tuple: what is written, and that it is read back.
use mathlib.Core.List.{append_assoc, append-nil}
use matt_sql.Prelude.{
  ℕ, ◌^◌, ◌<◌, ◌≡◌, ◌≢◌, sym, ◌∙◌, true, some, List, [], ◌∷◌, ◌++◌, length, if◌then◌else◌, arith,
  All, take-append_eq, drop-append_eq, take-length_append, drop-length_append, length-append,
}
use matt_sql.Prelude.Int.{ℤ, pos, negsuc}
use matt_sql.Common.Status.{ok}
use matt_sql.Common.Types.{
  integer_type, text_type, boolean_type, null_type, Value, null, integer, boolean, text,
  ColumnSchema, IsInt64,
}
use matt_sql.Common.Values.{value_type_of}
use matt_sql.Storage.ByteIo.{append_byte, append_little_endian, read_little_endian}
use matt_sql.Storage.ByteIo.LittleEndian.{
  IsByte, le_bytes, append_little_endian_lem, read_little_endian_lem, length-le_bytes,
  from_le-le_bytes,
}
use matt_sql.Storage.TupleCodec.{
  to_uint64, to_int64, encode_field, decode_field, append_text, append_i64, append_u32, read_i64,
  read_u32,
}

-- The values of C++ that a `Value` stands for: an integer fits 64 bits, a text is made of bytes.
abbrev pub IsValue : Value → Type 0
IsValue null = Unit
IsValue (integer n) = IsInt64 n
IsValue (boolean b) = Unit
IsValue (text t) = All IsByte t

-- The columns that a value can be stored in.
abbrev pub Accepts : ColumnSchema → Value → Type 0
Accepts c null = (c.type ≢ null_type) × (c.nullable ≡ true)
Accepts c (integer n) = c.type ≡ integer_type
Accepts c (boolean b) = c.type ≡ boolean_type
Accepts c (text t) = (c.type ≡ text_type) × (length t < 2 ^ 32)

-- The bytes of a field.
unfoldable pub field_bytes : Value → List ℕ
field_bytes null = 0 ∷ []
field_bytes (integer n) = 1 ∷ le_bytes 8 (to_uint64 n)
field_bytes (boolean b) = 2 ∷ (if b then 1 else 0) ∷ []
field_bytes (text t) = 3 ∷ le_bytes 4 (length t) ++ t

append_text_lem : (bytes t : List ℕ) → append_text bytes t ≡ bytes ++ t
unfolding append_text append_byte
append_text_lem bytes [] = sym (append-nil bytes)
append_text_lem bytes (c ∷ t) = append_text_lem (bytes ++ c ∷ []) t ∙ append_assoc bytes (c ∷ []) t

-- A value that its column accepts is appended as its bytes.
pub encode_field_lem :
    (c : ColumnSchema) (v : Value) (bytes : List ℕ)
    → Accepts c v
    → encode_field c v bytes ≡ ok (bytes ++ field_bytes v)
unfolding encode_field field_bytes append_byte append_i64 append_u32 value_type_of
encode_field_lem c null bytes h = ground arith
encode_field_lem c (integer n) bytes h = rw h (simp (append_little_endian_lem, append_assoc))
encode_field_lem c (boolean b) bytes h = rw h (simp append_assoc)
encode_field_lem c (text t) bytes h = rw h.0 (
    ground (
      arith,
      append_text_lem (append_little_endian 4 (bytes ++ 3 ∷ []) (length t)) t,
      append_little_endian_lem 4 (bytes ++ 3 ∷ []) (length t),
      append_assoc bytes (3 ∷ []) (le_bytes 4 (length t)),
      append_assoc bytes (3 ∷ le_bytes 4 (length t)) t,
    ))

read_le_bytes :
    (n v : ℕ) (rest : List ℕ)
    → v < 256 ^ n
    → read_little_endian n (le_bytes n v ++ rest) ≡ some (v, rest)
read_le_bytes n v rest h =
    read_little_endian_lem n (le_bytes n v ++ rest)
      (omega (arith, length-append (le_bytes n v) rest, length-le_bytes n v))
    ∙ rw (take-append_eq (le_bytes n v) rest (length-le_bytes n v)) (
        rw (drop-append_eq (le_bytes n v) rest (length-le_bytes n v)) (rw (from_le-le_bytes n v h)))

to_uint64-lt : (n : ℤ) → IsInt64 n → to_uint64 n < 256 ^ 8
to_uint64-lt (pos n) h = omega arith
to_uint64-lt (negsuc n) h = omega arith

to_int64-to_uint64 : (n : ℤ) → IsInt64 n → to_int64 (to_uint64 n) ≡ n
to_int64-to_uint64 (pos n) h = ground arith
to_int64-to_uint64 (negsuc n) h = ground arith

read_i64-le_bytes :
    (n : ℤ) (rest : List ℕ)
    → IsInt64 n
    → read_i64 (le_bytes 8 (to_uint64 n) ++ rest) ≡ some (n, rest)
unfolding read_i64
read_i64-le_bytes n rest w =
    rw (read_le_bytes 8 (to_uint64 n) rest (to_uint64-lt n w), read_i64)
      (rw (to_int64-to_uint64 n w))

read_u32-le_bytes :
    (n : ℕ) (rest : List ℕ) → n < 2 ^ 32 → read_u32 (le_bytes 4 n ++ rest) ≡ some (n, rest)
unfolding read_u32
read_u32-le_bytes n rest h = read_le_bytes 4 n rest (omega arith)

-- What was written of an accepted value is read back, whatever follows it.
pub decode_field-field_bytes :
    (c : ColumnSchema) (v : Value) (rest : List ℕ)
    → IsValue v
    → Accepts c v
    → decode_field c (field_bytes v ++ rest) ≡ ok (v, rest)
unfolding decode_field field_bytes
decode_field-field_bytes c null rest w h = ground arith
decode_field-field_bytes c (integer n) rest w h = rw h (ground (arith, read_i64-le_bytes n rest w))
decode_field-field_bytes c (boolean b) rest w h = rw h (ground arith)
decode_field-field_bytes c (text t) rest w h = rw h.0 (
    rw (append_assoc (le_bytes 4 (length t)) t rest) (
      ground (
        arith,
        read_u32-le_bytes (length t) (t ++ rest) (omega (arith, h.1)),
        length-append t rest,
        take-length_append t rest,
        drop-length_append t rest,
      )))
