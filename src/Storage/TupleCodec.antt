-- ===== src/Storage/TupleCodec.antt =====
-- src/storage/tuple_codec.cpp: rows as bytes. The reader's offset is given by the bytes from there
-- on; `none` is a reader's return of false.
pub mod Field
pub mod RoundTrip
pub mod Canonical
mod Examples
use matt_sql.Prelude.{
  ℕ, zero, suc, ◌+◌, ◌-◌, ◌^◌, Bool, true, false, not, Option, none, some, List, [], ◌∷◌, ◌++◌,
  length, take, drop, ltb, ◌==◌, if◌then◌else◌,
}
use matt_sql.Prelude.Int.{ℤ, pos, negsuc}
use matt_sql.Common.Status.{Result, ok, err, ◌>>=◌, invalid_argument, type_mismatch, corruption}
use matt_sql.Common.Types.{
  SqlType, integer_type, text_type, boolean_type, null_type, Value, null, integer, boolean, text,
  ColumnSchema, TableSchema,
}
use matt_sql.Common.Values.{type_eq, is_null, value_matches_type}
use matt_sql.Storage.ByteIo.{append_byte, append_little_endian, read_little_endian}

-- enum class FieldTag
abbrev pub null_tag : ℕ
null_tag = 0

abbrev pub integer_tag : ℕ
integer_tag = 1

abbrev pub boolean_tag : ℕ
boolean_tag = 2

abbrev pub text_tag : ℕ
text_tag = 3

-- `static_cast<std::uint64_t>` and back: two's complement
abbrev pub to_uint64 : ℤ → ℕ
to_uint64 (pos n) = n
to_uint64 (negsuc n) = 2 ^ 64 - 1 - n

abbrev pub to_int64 : ℕ → ℤ
to_int64 w = if ltb w (2 ^ 63) then pos w else negsuc (2 ^ 64 - 1 - w)

unfoldable pub append_u32 : List ℕ → ℕ → List ℕ
append_u32 bytes value = append_little_endian 4 bytes value

unfoldable pub append_i64 : List ℕ → ℤ → List ℕ
append_i64 bytes value = append_little_endian 8 bytes (to_uint64 value)

unfoldable pub read_byte : List ℕ → Option (ℕ × List ℕ)
read_byte [] = none
read_byte (b ∷ bytes) = some (b, bytes)

unfoldable pub read_u32 : List ℕ → Option (ℕ × List ℕ)
read_u32 bytes = read_little_endian 4 bytes

unfoldable pub read_i64 : List ℕ → Option (ℤ × List ℕ)
read_i64 bytes = elim (read_little_endian 8 bytes) [
  | none ↦ none
  | some (encoded, rest) ↦ some (to_int64 encoded, rest)
]

-- the loop that appends the characters of a text
unfoldable pub append_text : List ℕ → List ℕ → List ℕ
append_text bytes [] = bytes
append_text bytes (c ∷ t) = append_text (append_byte bytes c) t

-- the switch on the column's type in `Encode`, with the value of that type
unfoldable pub encode_payload : SqlType → Value → List ℕ → Result (List ℕ)
encode_payload integer_type (integer n) bytes = ok (append_i64 (append_byte bytes integer_tag) n)
encode_payload text_type (text t) bytes =
    if ltb (2 ^ 32 - 1) (length t)
    then err invalid_argument
    else ok (append_text (append_u32 (append_byte bytes text_tag) (length t)) t)
encode_payload boolean_type (boolean b) bytes =
    ok (append_byte (append_byte bytes boolean_tag) (if b then 1 else 0))
encode_payload _ _ bytes = ok bytes

-- the body of the loop in `Encode`
unfoldable pub encode_field : ColumnSchema → Value → List ℕ → Result (List ℕ)
unfolding encode_payload type_eq is_null value_matches_type
encode_field column value bytes =
    if type_eq column.type null_type
    then err invalid_argument
    else if is_null value
    then (if not column.nullable then err type_mismatch else ok (append_byte bytes null_tag))
    else if not (value_matches_type value column.type)
    then err type_mismatch
    else encode_payload column.type value bytes

encode_fields : TableSchema → List Value → List ℕ → Result (List ℕ)
encode_fields [] values bytes = ok bytes
encode_fields (column ∷ columns) [] bytes = ok bytes
encode_fields (column ∷ columns) (value ∷ values) bytes = do
  bytes' ← encode_field column value bytes
  encode_fields columns values bytes'

unfoldable pub encode : TableSchema → List Value → Result (List ℕ)
unfolding encode_fields
encode schema values =
    if not (length values == length schema)
    then err invalid_argument
    else encode_fields schema values []

decode_text : Option (ℕ × List ℕ) → Result (Value × List ℕ)
decode_text none = err corruption
decode_text (some (size, rest)) =
    if ltb (length rest) size then err corruption else ok (text (take size rest), drop size rest)

decode_integer : Option (ℤ × List ℕ) → Result (Value × List ℕ)
decode_integer none = err corruption
decode_integer (some (n, rest)) = ok (integer n, rest)

decode_boolean : Option (ℕ × List ℕ) → Result (Value × List ℕ)
decode_boolean none = err corruption
decode_boolean (some (b, rest)) = if ltb 1 b then err corruption else ok (boolean (b == 1), rest)

-- the switch on the column's type in `Decode`; a column of type NULL was refused before
unfoldable pub decode_payload : SqlType → ℕ → List ℕ → Result (Value × List ℕ)
unfolding decode_text decode_integer decode_boolean read_byte
decode_payload integer_type tag bytes =
    if not (tag == integer_tag) then err corruption else decode_integer (read_i64 bytes)
decode_payload text_type tag bytes =
    if not (tag == text_tag) then err corruption else decode_text (read_u32 bytes)
decode_payload boolean_type tag bytes =
    if not (tag == boolean_tag) then err corruption else decode_boolean (read_byte bytes)
decode_payload null_type tag bytes = err corruption

decode_tagged : ColumnSchema → Option (ℕ × List ℕ) → Result (Value × List ℕ)
unfolding decode_payload
decode_tagged column none = err corruption
decode_tagged column (some (tag, bytes)) =
    if tag == null_tag
    then (if not column.nullable then err corruption else ok (null, bytes))
    else decode_payload column.type tag bytes

-- the body of the loop in `Decode`
unfoldable pub decode_field : ColumnSchema → List ℕ → Result (Value × List ℕ)
unfolding decode_tagged type_eq read_byte
decode_field column bytes =
    if type_eq column.type null_type then err corruption else decode_tagged column (read_byte bytes)

decode_fields : TableSchema → List ℕ → List Value → Result (List Value × List ℕ)
decode_fields [] bytes values = ok (values, bytes)
decode_fields (column ∷ columns) bytes values = do
  (value, rest) ← decode_field column bytes
  decode_fields columns rest (values ++ value ∷ [])

no_trailing_bytes : List Value × List ℕ → Result (List Value)
no_trailing_bytes (values, []) = ok values
no_trailing_bytes (values, b ∷ bytes) = err corruption

unfoldable pub decode : TableSchema → List ℕ → Result (List Value)
unfolding decode_fields no_trailing_bytes
decode schema record_bytes = decode_fields schema record_bytes [] >>= no_trailing_bytes
