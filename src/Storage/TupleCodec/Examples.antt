-- ===== src/Storage/TupleCodec/Examples.antt =====
-- A table of three columns, runs of the codec on it, and the codec's theorems at its rows.
use matt_sql.Prelude.{ℕ, ◌≡◌, ◌≢◌, refl, true, false, List, [], ◌∷◌, arith}
use matt_sql.Prelude.Int.{negsuc}
use matt_sql.Common.Status.{ok, err, ◌>>=◌, type_mismatch, corruption}
use matt_sql.Common.Types.{
  integer_type, text_type, boolean_type, null_type, Value, null, integer, text, TableSchema,
}
use matt_sql.Storage.TupleCodec.{
  encode_field, append_text, decode_field, encode, decode, append_i64, append_u32, read_i64,
  read_u32,
}
use matt_sql.Storage.ByteIo.{append_little_endian, read_little_endian}
use matt_sql.Storage.TupleCodec.RoundTrip.{decode-encode, AcceptsRow}
use matt_sql.Storage.TupleCodec.Canonical.{encode-AcceptsRow, encode-decode}

abbrev users : TableSchema
users =
    record { name = b'i' ∷ []; type = integer_type; nullable = false; id = 0 }
    ∷ record { name = b'n' ∷ []; type = text_type; nullable = true; id = 1 }
    ∷ record { name = b'o' ∷ []; type = boolean_type; nullable = true; id = 2 }
    ∷ []

abbrev ada : List Value
ada = integer (negsuc 0) ∷ text (b'A' ∷ b'd' ∷ []) ∷ null ∷ []

abbrev ada_bytes : List ℕ
ada_bytes =
    1 ∷ 255 ∷ 255 ∷ 255 ∷ 255 ∷ 255 ∷ 255 ∷ 255 ∷ 255 ∷ 3 ∷ 2 ∷ 0 ∷ 0 ∷ 0 ∷ b'A' ∷ b'd' ∷ 0 ∷ []

ada_encoded : encode users ada ≡ ok ada_bytes
unfolding encode append_i64 append_u32 append_little_endian encode_field append_text
ada_encoded = refl

ada_decoded : decode users ada_bytes ≡ ok ada
unfolding decode read_i64 read_u32 read_little_endian decode_field
ada_decoded = refl

decode_cut : decode users (1 ∷ 255 ∷ []) ≡ err corruption
unfolding decode read_i64 read_u32 read_little_endian decode_field
decode_cut = refl

encode_null_id : encode users (null ∷ null ∷ null ∷ []) ≡ err type_mismatch
unfolding encode encode_field
encode_null_id = refl

boolean-ne-null : boolean_type ≢ null_type
boolean-ne-null e = cc

decode-encode_example : (encode users ada >>= decode users) ≡ ok ada
decode-encode_example =
    decode-encode users ada (omega arith, (omega arith, (tt, tt)))
      (refl, ((refl, omega arith), ((boolean-ne-null, refl), tt)))

encode-AcceptsRow_example : AcceptsRow users ada
encode-AcceptsRow_example = encode-AcceptsRow users ada ada_encoded

encode-decode_example : encode users ada ≡ ok ada_bytes
encode-decode_example = encode-decode users ada_bytes (omega arith) ada_decoded
