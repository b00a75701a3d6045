-- ===== src/Storage/TupleCodec/Canonical.antt =====
-- Tuples of src/storage/tuple_codec.cpp: what `Encode` refuses, and that a record which `Decode`
-- accepts is the only encoding of its row.
use mathlib.Core.List.{append_assoc, append-nil}
use matt_sql.Prelude.{
  ℕ, zero, suc, ◌^◌, ◌≤◌, ◌<◌, ◌≡◌, refl, sym, ap, ◌∙◌, some, List, [], ◌∷◌, ◌++◌, length, take,
  drop, ltb, ◌==◌, arith, All, All-take, All-drop, take-append-drop, length-take, Bool-cases, inl,
  inr, Option-cases,
}
use matt_sql.Common.Status.{ok, bind-eq-ok}
use matt_sql.Common.Types.{
  SqlType, integer_type, text_type, boolean_type, null_type, Value, null, integer, boolean, text,
  ColumnSchema, TableSchema, IsInt64,
}
use matt_sql.Common.Values.{type_eq}
use matt_sql.Storage.ByteIo.{read_little_endian}
use matt_sql.Storage.ByteIo.LittleEndian.{
  IsByte, le_bytes, from_le, read_little_endian_lem, le_bytes-from_le, from_le-lt,
}
use matt_sql.Storage.TupleCodec.{
  to_uint64, to_int64, encode_field, encode_fields, encode, decode_field, decode_fields, decode,
  decode_payload, decode_integer, decode_text, no_trailing_bytes, read_i64, read_u32,
}
use matt_sql.Storage.TupleCodec.Field.{Accepts, field_bytes}
use matt_sql.Storage.TupleCodec.RoundTrip.{AcceptsRow, row_bytes, encode_lem}

encode_field-Accepts :
    (c : ColumnSchema) (v : Value) (bytes : List ℕ) {out : List ℕ}
    → encode_field c v bytes ≡ ok out
    → Accepts c v
unfolding encode_field type_eq
encode_field-Accepts c null bytes h = ground arith
encode_field-Accepts c (integer n) bytes h = ground arith
encode_field-Accepts c (boolean b) bytes h = ground arith
encode_field-Accepts c (text t) bytes h = ground arith

encode_fields-AcceptsRow :
    (cs : TableSchema) (vs : List Value) (bytes : List ℕ) {out : List ℕ}
    → length vs ≡ length cs
    → encode_fields cs vs bytes ≡ ok out
    → AcceptsRow cs vs
unfolding encode_fields
encode_fields-AcceptsRow [] [] bytes e h = tt
encode_fields-AcceptsRow [] (v ∷ vs) bytes e h = absurd (omega arith)
encode_fields-AcceptsRow (c ∷ cs) [] bytes e h = absurd (omega arith)
encode_fields-AcceptsRow (c ∷ cs) (v ∷ vs) bytes e h =
    let (bytes', first, rest) = bind-eq-ok (encode_field c v bytes) (encode_fields cs vs) h in
    (encode_field-Accepts c v bytes first, encode_fields-AcceptsRow cs vs bytes' (omega arith) rest)

-- `Encode` accepts no row but those that the table accepts.
pub encode-AcceptsRow :
    (schema : TableSchema) (row : List Value) {bytes : List ℕ}
    → encode schema row ≡ ok bytes
    → AcceptsRow schema row
unfolding encode
encode-AcceptsRow schema row h = elim (Bool-cases (length row == length schema)) [
  | inl same ↦ encode_fields-AcceptsRow schema row [] (ground arith) (rw same at h)
  | inr differ ↦ absurd (ground arith)
]

read_splits :
    (n : ℕ) (bytes : List ℕ)
    → All IsByte bytes
    → n ≤ length bytes
    → (bytes ≡ le_bytes n (from_le (take n bytes)) ++ drop n bytes)
      × (from_le (take n bytes) < 256 ^ n)
      × All IsByte (drop n bytes)
read_splits n bytes w h =
    let size : length (take n bytes) ≡ n = omega (arith, length-take n bytes) in
    let front = All-take IsByte n bytes w in
    let same = le_bytes-from_le (take n bytes) front in
    (
      sym (take-append-drop n bytes) ∙ ap (λ t. t ++ drop n bytes) (rw size at (sym same)),
      rw size at (from_le-lt (take n bytes) front),
      All-drop IsByte n bytes w,
    )

-- What a read of `n` bytes took off the front.
read_inverse :
    (n : ℕ) (bytes : List ℕ) {v : ℕ} {rest : List ℕ}
    → All IsByte bytes
    → read_little_endian n bytes ≡ some (v, rest)
    → (bytes ≡ le_bytes n v ++ rest) × (v < 256 ^ n) × All IsByte rest
read_inverse n bytes {v} {rest} w h = elim (Bool-cases (ltb (length bytes) n)) [
  | inl short ↦ absurd (unfold read_little_endian in ground (arith, h))
  | inr long ↦
      let enough : n ≤ length bytes = ground arith in
      let e : some (v, rest) ≡ some (from_le (take n bytes), drop n bytes) =
        sym h ∙ read_little_endian_lem n bytes enough in
      let value : v ≡ from_le (take n bytes) = ground (arith, e) in
      let left : rest ≡ drop n bytes = ground (arith, e) in
      rw (value, left) (read_splits n bytes w enough)
]

to_uint64-to_int64 : (w : ℕ) → w < 2 ^ 64 → (to_uint64 (to_int64 w) ≡ w) × IsInt64 (to_int64 w)
to_uint64-to_int64 w h = (ground arith, ground arith)

-- A value `v` was read from `bytes`, and `rest` is left.
record WasRead (c : ColumnSchema) (bytes : List ℕ) (v : Value) (rest : List ℕ) : Type 0 where
  spelled : bytes ≡ field_bytes v ++ rest
  accepted : Accepts c v
  left : All IsByte rest

decode_integer_inverse :
    (c : ColumnSchema) (bytes : List ℕ) {v : Value} {rest : List ℕ}
    → All IsByte bytes
    → c.type ≡ integer_type
    → decode_integer (read_i64 bytes) ≡ ok (v, rest)
    → WasRead c (1 ∷ bytes) v rest
unfolding decode_integer read_i64 field_bytes
decode_integer_inverse c bytes {v} {rest} w e h = elim (Option-cases (read_little_endian 8 bytes)) [
  | inl failed ↦ absurd (ground arith)
  | inr ((n, rest'), done) ↦
      let (split, small, left) = read_inverse 8 bytes w done in
      let value : v ≡ integer (to_int64 n) = ground arith in
      let same : rest ≡ rest' = ground arith in
      rw (value, same)
        (record {
          spelled = rw ((to_uint64-to_int64 n (omega arith)).0) (ap (λ t. 1 ∷ t) split);
          accepted = e;
          left = left;
        })
]

decode_text_inverse :
    (c : ColumnSchema) (bytes : List ℕ) {v : Value} {rest : List ℕ}
    → All IsByte bytes
    → c.type ≡ text_type
    → decode_text (read_u32 bytes) ≡ ok (v, rest)
    → WasRead c (3 ∷ bytes) v rest
unfolding decode_text read_u32 field_bytes
decode_text_inverse c bytes {v} {rest} w e h = elim (Option-cases (read_little_endian 4 bytes)) [
  | inl failed ↦ absurd (ground arith)
  | inr ((n, rest'), done) ↦
      let (split, small, left) = read_inverse 4 bytes w done in
      let enough : n ≤ length rest' = ground arith in
      let size : length (take n rest') ≡ n = omega (arith, length-take n rest') in
      let value : v ≡ text (take n rest') = ground arith in
      let same : rest ≡ drop n rest' = ground arith in
      rw (value, same)
        (record {
          spelled =
              ap (λ t. 3 ∷ t)
                (split
                  ∙ rw size (
                      rw (append_assoc (le_bytes 4 n) (take n rest') (drop n rest'))
                        (rw (take-append-drop n rest'))));
          accepted = (e, omega arith);
          left = All-drop IsByte n rest' left;
        })
]

decode_boolean_inverse :
    (c : ColumnSchema) (bytes : List ℕ) {v : Value} {rest : List ℕ}
    → All IsByte bytes
    → c.type ≡ boolean_type
    → decode_payload boolean_type 2 bytes ≡ ok (v, rest)
    → WasRead c (2 ∷ bytes) v rest
unfolding decode_payload field_bytes
decode_boolean_inverse c [] w e h = absurd (ground arith)
decode_boolean_inverse c (b ∷ bytes) {v} {rest} w e h =
    let small : b ≤ 1 = ground arith in
    let value : v ≡ boolean (b == 1) = ground arith in
    let same : rest ≡ bytes = ground arith in
    rw (value, same) (record { spelled = ground arith; accepted = e; left = w.1 })

decode_payload_inverse :
    (c : ColumnSchema) (t : SqlType) (tag : ℕ) (bytes : List ℕ) {v : Value} {rest : List ℕ}
    → All IsByte bytes
    → c.type ≡ t
    → decode_payload t tag bytes ≡ ok (v, rest)
    → WasRead c (tag ∷ bytes) v rest
unfolding decode_payload
decode_payload_inverse c integer_type tag bytes w e h =
    let t : tag ≡ 1 = ground arith in rw t (decode_integer_inverse c bytes w e (ground arith))
decode_payload_inverse c text_type tag bytes w e h =
    let t : tag ≡ 3 = ground arith in rw t (decode_text_inverse c bytes w e (ground arith))
decode_payload_inverse c boolean_type tag bytes w e h =
    let t : tag ≡ 2 = ground arith in rw t (decode_boolean_inverse c bytes w e (rw t at h))
decode_payload_inverse c null_type tag bytes w e h = absurd (cc h)

decode_field_inverse :
    (c : ColumnSchema) (bytes : List ℕ) {v : Value} {rest : List ℕ}
    → All IsByte bytes
    → decode_field c bytes ≡ ok (v, rest)
    → WasRead c bytes v rest
unfolding decode_field field_bytes type_eq
decode_field_inverse c [] w h = absurd (ground arith)
decode_field_inverse c (zero ∷ bytes) {v} {rest} w h =
    let value : v ≡ null = ground arith in
    let same : rest ≡ bytes = ground arith in
    rw (value, same)
      (record { spelled = refl; accepted = (λ e. ground arith, ground arith); left = w.1 })
decode_field_inverse c (suc tag ∷ bytes) {v} {rest} w h =
    decode_payload_inverse c c.type (suc tag) bytes w.1 refl (ground arith)

decode_fields_inverse :
    (cs : TableSchema) (bytes : List ℕ) (acc : List Value) {vs : List Value} {rest : List ℕ}
    → All IsByte bytes
    → decode_fields cs bytes acc ≡ ok (vs, rest)
    → (row : List Value) × (vs ≡ acc ++ row) × (bytes ≡ row_bytes row ++ rest) × AcceptsRow cs row
unfolding decode_fields
decode_fields_inverse [] bytes acc {vs} {rest} w h =
    ([], ground (arith, append-nil acc), ground arith, tt)
decode_fields_inverse (c ∷ cs) bytes acc {vs} {rest} w h =
    let ((v, bytes'), first, later) =
      bind-eq-ok (decode_field c bytes) (λ p. decode_fields cs p.1 (acc ++ p.0 ∷ [])) h in
    let was = decode_field_inverse c bytes w first in
    let (row, values, left, fits) =
      decode_fields_inverse cs bytes' (acc ++ v ∷ []) was.left later in
    (
      v ∷ row,
      values ∙ append_assoc acc (v ∷ []) row,
      was.spelled ∙ rw left (sym (append_assoc (field_bytes v) (row_bytes row) rest)),
      (was.accepted, fits),
    )

no_trailing_bytes_lem :
    (vs : List Value) (rest : List ℕ) {row : List Value}
    → no_trailing_bytes (vs, rest) ≡ ok row
    → (vs ≡ row) × (rest ≡ [])
unfolding no_trailing_bytes
no_trailing_bytes_lem vs [] h = ground arith
no_trailing_bytes_lem vs (b ∷ rest) h = absurd (cc h)

-- A record that `Decode` accepts is what `Encode` writes for the row that it stands for.
pub encode-decode :
    (schema : TableSchema) (bytes : List ℕ)
    → All IsByte bytes
    → {row : List Value} → decode schema bytes ≡ ok row
    → encode schema row ≡ ok bytes
unfolding decode
encode-decode schema bytes w {row} h =
    let ((vs, rest), read, ended) =
      bind-eq-ok (decode_fields schema bytes []) no_trailing_bytes h in
    let (row', values, spelled, fits) = decode_fields_inverse schema bytes [] w read in
    let (same, nothing) = no_trailing_bytes_lem vs rest ended in
    let e : row ≡ row' = sym same ∙ values in
    let b : bytes ≡ row_bytes row' = spelled ∙ rw nothing (append-nil (row_bytes row')) in
    rw (e, b) (encode_lem schema row' fits)
