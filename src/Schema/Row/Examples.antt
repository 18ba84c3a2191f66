-- ===== src/Schema/Row/Examples.antt =====
-- A row of core/schema.c at concrete values: a null i32 and the symbol "hi", in a row of 24 bytes.
use webanalyticsdb.Prelude.{ℕ, ◌≡◌, refl, Bool, true, false, List, [], ◌∷◌, some, arith, All}
use webanalyticsdb.Prelude.Int.{pos}
use webanalyticsdb.Core.Status.{Result, ok, reject}
use webanalyticsdb.Core.Bytes.{bytes_eq, put_u64, from_i64}
use webanalyticsdb.Core.Text.{utf8, identifier}
use webanalyticsdb.Core.Types.{i32, symbol32, type_width}
use webanalyticsdb.Query.Values.{Value}
use webanalyticsdb.Schema.{
  Field, FieldDef, Schema, schema_build, field_at, schema_of, check_defs, check_def, place,
  count_nullable, bad_size, is_sized, has_name,
}
use webanalyticsdb.Schema.Codec.{encode_field, encode_symbol}
use webanalyticsdb.Schema.Codec.RoundTrip.{FitsValue, Gives}
use webanalyticsdb.Schema.Examples.{two_floats, two_bits, two_bits-IsFaithful}
use webanalyticsdb.Schema.Row.{encode_row, encode_fields, set_null_bit, decode_value}
use webanalyticsdb.Schema.Row.RoundTrip.{ReadsField}
use webanalyticsdb.Schema.Row.Whole.{decode_value-encode_row}

abbrev hi : List ℕ
hi = 104 ∷ 105 ∷ []

-- validate_symbol of server/writer.c, the resolver that the writer passes: every string gets id 1.
abbrev validate_symbol : ℕ → ℕ → List ℕ → Result (ℕ × ℕ)
validate_symbol s field p = ok (1, s)

abbrev look_hi : ℕ → ℕ → Result (List ℕ)
look_hi field id = ok hi

abbrev symbol_defs : List FieldDef
symbol_defs =
    record { name = 110 ∷ []; type = i32; size = 0; nullable = true }
    ∷ record { name = 115 ∷ []; type = symbol32; size = 0; nullable = false }
    ∷ []

abbrev s_field : Field
s_field = field_at (record { name = 115 ∷ []; type = symbol32; size = 0; nullable = false }) 13 1

abbrev schema : Schema
schema = schema_of 1 (
  field_at (record { name = 110 ∷ []; type = i32; size = 0; nullable = true }) 9 0 ∷ s_field ∷ [],
  17,
)

schema-built : schema_build symbol_defs ≡ ok schema
unfolding schema_build check_defs check_def place count_nullable bad_size is_sized has_name reject
    type_width identifier bytes_eq
schema-built = refl

abbrev a_null : Value Bool
a_null = record { is_null = true; i64 = pos 0; u64 = 0; f64 = false; bytes = [] }

abbrev a_symbol : Value Bool
a_symbol = record { is_null = false; i64 = pos 0; u64 = 0; f64 = false; bytes = hi }

values-FitsValue : All FitsValue (a_null ∷ a_symbol ∷ [])
values-FitsValue = (
  record { int = (omega arith, omega arith); word = omega arith },
  (record { int = (omega arith, omega arith); word = omega arith }, tt),
)

abbrev row : List ℕ
row =
    232 ∷ 3 ∷ 0 ∷ 0 ∷ 0 ∷ 0 ∷ 0 ∷ 0 ∷ 1 ∷ 0 ∷ 0 ∷ 0 ∷ 0 ∷ 1 ∷ 0 ∷ 0 ∷ 0 ∷ 0 ∷ 0 ∷ 0 ∷ 0 ∷ 0 ∷ 0 ∷ 0
    ∷ []

row-encoded :
    Gives
      (encode_row two_floats two_bits
        (some validate_symbol)
        schema
        (a_null ∷ a_symbol ∷ [])
        (pos 1000)
        24
        0)
      row
      0
unfolding encode_row encode_fields encode_field encode_symbol set_null_bit put_u64 from_i64
    schema_of field_at type_width utf8 reject
row-encoded = refl

decode_value-encode_row_example :
    ReadsField two_floats two_bits two_bits-IsFaithful validate_symbol look_hi 2 s_field a_symbol
      (decode_value two_floats two_bits (some look_hi) schema 2 row)
unfolding schema_of
decode_value-encode_row_example =
    decode_value-encode_row two_floats two_bits two_bits-IsFaithful validate_symbol look_hi
      symbol_defs schema (a_null ∷ a_symbol ∷ []) (pos 1000) 24 0 0 row schema-built
      values-FitsValue row-encoded 1 s_field a_symbol refl refl
