-- ===== src/Storage/TupleCodec/RoundTrip.antt =====
-- Tuples of src/storage/tuple_codec.cpp: `Decode` and `Encode` are inverse to each other.
use mathlib.Core.List.{append_assoc, append-nil}
use matt_sql.Prelude.{ℕ, suc, ◌≡◌, refl, sym, ap, ◌∙◌, List, [], ◌∷◌, ◌++◌, length, arith, All}
use matt_sql.Common.Status.{ok, ◌>>=◌}
use matt_sql.Prelude.{All-append, true, false}
use matt_sql.Storage.ByteIo.LittleEndian.{IsByte, le_bytes, le_bytes-IsByte}
use matt_sql.Common.Types.{Value, null, integer, boolean, text, TableSchema}
use matt_sql.Storage.TupleCodec.{to_uint64, encode, decode, encode_fields, decode_fields}
use matt_sql.Storage.TupleCodec.Field.{
  IsValue, Accepts, field_bytes, encode_field_lem, decode_field-field_bytes,
}

-- A row that a table accepts: a value for each column.
abbrev pub AcceptsRow : TableSchema → List Value → Type 0
AcceptsRow [] [] = Unit
AcceptsRow [] (v ∷ vs) = ⊥
AcceptsRow (c ∷ cs) [] = ⊥
AcceptsRow (c ∷ cs) (v ∷ vs) = Accepts c v × AcceptsRow cs vs

abbrev pub row_bytes : List Value → List ℕ
row_bytes [] = []
row_bytes (v ∷ vs) = field_bytes v ++ row_bytes vs

AcceptsRow-length : (cs : TableSchema) (vs : List Value) → AcceptsRow cs vs → length vs ≡ length cs
AcceptsRow-length [] [] h = refl
AcceptsRow-length [] (v ∷ vs) h = absurd h
AcceptsRow-length (c ∷ cs) [] h = absurd h
AcceptsRow-length (c ∷ cs) (v ∷ vs) h = ap suc (AcceptsRow-length cs vs h.1)

encode_fields_lem :
    (cs : TableSchema) (vs : List Value) (bytes : List ℕ)
    → AcceptsRow cs vs
    → encode_fields cs vs bytes ≡ ok (bytes ++ row_bytes vs)
unfolding encode_fields
encode_fields_lem [] [] bytes h = ap ok (sym (append-nil bytes))
encode_fields_lem [] (v ∷ vs) bytes h = absurd h
encode_fields_lem (c ∷ cs) [] bytes h = absurd h
encode_fields_lem (c ∷ cs) (v ∷ vs) bytes h = rw (encode_field_lem c v bytes h.0) (
    encode_fields_lem cs vs (bytes ++ field_bytes v) h.1
    ∙ ap ok (append_assoc bytes (field_bytes v) (row_bytes vs)))

pub encode_lem :
    (cs : TableSchema) (vs : List Value) → AcceptsRow cs vs → encode cs vs ≡ ok (row_bytes vs)
unfolding encode
encode_lem cs vs h = ground (arith, AcceptsRow-length cs vs h, encode_fields_lem cs vs [] h)

decode_fields-row_bytes :
    (cs : TableSchema) (vs : List Value) (rest : List ℕ) (acc : List Value)
    → All IsValue vs
    → AcceptsRow cs vs
    → decode_fields cs (row_bytes vs ++ rest) acc ≡ ok (acc ++ vs, rest)
unfolding decode_fields
decode_fields-row_bytes [] [] rest acc w h = ap (λ t. ok (t, rest)) (sym (append-nil acc))
decode_fields-row_bytes [] (v ∷ vs) rest acc w h = absurd h
decode_fields-row_bytes (c ∷ cs) [] rest acc w h = absurd h
decode_fields-row_bytes (c ∷ cs) (v ∷ vs) rest acc w h =
    rw (append_assoc (field_bytes v) (row_bytes vs) rest) (
      rw (decode_field-field_bytes c v (row_bytes vs ++ rest) w.0 h.0) (
        decode_fields-row_bytes cs vs rest (acc ++ v ∷ []) w.1 h.1
        ∙ ap (λ t. ok (t, rest)) (append_assoc acc (v ∷ []) vs)))

-- Every row that the table accepts is encoded, and its encoding is decoded to the same row.
pub decode-encode :
    (schema : TableSchema) (row : List Value)
    → All IsValue row
    → AcceptsRow schema row
    → (encode schema row >>= decode schema) ≡ ok row
unfolding decode
decode-encode schema row w h =
    rw (encode_lem schema row h)
      (rw (← append-nil (row_bytes row)) (rw (decode_fields-row_bytes schema row [] [] w h)))

field_bytes-IsByte : (v : Value) → IsValue v → All IsByte (field_bytes v)
unfolding field_bytes
field_bytes-IsByte null w = (omega arith, tt)
field_bytes-IsByte (integer n) w = (omega arith, le_bytes-IsByte 8 (to_uint64 n))
field_bytes-IsByte (boolean true) w = (omega arith, (omega arith, tt))
field_bytes-IsByte (boolean false) w = (omega arith, (omega arith, tt))
field_bytes-IsByte (text t) w =
    (omega arith, All-append IsByte (le_bytes 4 (length t)) t (le_bytes-IsByte 4 (length t)) w)

pub row_bytes-IsByte : (vs : List Value) → All IsValue vs → All IsByte (row_bytes vs)
row_bytes-IsByte [] w = tt
row_bytes-IsByte (v ∷ vs) w =
    All-append IsByte (field_bytes v) (row_bytes vs) (field_bytes-IsByte v w.0)
      (row_bytes-IsByte vs w.1)
