-- ===== src/Schema/Examples.antt =====
-- Schemas and fields of core/schema.c at concrete values: a table with a nullable i32 and a text.
use webanalyticsdb.Prelude.{
  ℕ, ◌≤◌, ◌<◌, ◌≡◌, refl, ap, sym, ◌↔◌, ◌==◌, if◌then◌else◌, Bool, true, false, List, [], ◌∷◌, some,
  arith,
}
use webanalyticsdb.Prelude.Int.{negsuc}
use webanalyticsdb.Core.Status.{Result, ok, reject, ok-eq-ok}
use webanalyticsdb.Core.Bytes.{from_i64, bytes_eq}
use webanalyticsdb.Core.Text.{identifier}
use webanalyticsdb.Core.Types.{i32, text, type_width}
use webanalyticsdb.Query.Values.{Value, FloatOps}
use webanalyticsdb.Schema.{
  FieldDef, Field, Schema, schema_build, field_at, schema_of, check_defs, check_def, place,
  count_nullable, bad_size, is_sized, has_name,
}
use webanalyticsdb.Schema.Layout.{
  schema_build_iff, schema_build-IsLayout, ValidDefs, HasRoom, IsLayout,
}
use webanalyticsdb.Schema.Codec.{FloatBits, encode_field, decode_field, encode_signed}
use webanalyticsdb.Schema.Codec.RoundTrip.{
  IsFaithful, Learns, ReadsAs, FitsValue, Gives, decode_field-encode_field,
}

-- "n" and "s"
abbrev pub two_defs : List FieldDef
two_defs =
    record { name = 110 ∷ []; type = i32; size = 0; nullable = true }
    ∷ record { name = 115 ∷ []; type = text; size = 20; nullable = false }
    ∷ []

schema_build_iff_example :
    ((s : Schema) × (schema_build two_defs ≡ ok s))
    ↔ ((2 < 256) × ValidDefs [] two_defs × HasRoom two_defs)
schema_build_iff_example = schema_build_iff two_defs

abbrev two_fields : Schema
two_fields = schema_of 1 (
  field_at (record { name = 110 ∷ []; type = i32; size = 0; nullable = true }) 9 0
      ∷ field_at (record { name = 115 ∷ []; type = text; size = 20; nullable = false }) 13 1
      ∷ [],
  37,
)

two_fields-built : schema_build two_defs ≡ ok two_fields
unfolding schema_build check_defs check_def place count_nullable bad_size is_sized has_name reject
    type_width identifier bytes_eq
two_fields-built = refl

schema_build-IsLayout_example : IsLayout two_defs two_fields
schema_build-IsLayout_example = schema_build-IsLayout two_defs two_fields two_fields-built

-- A type double of two numbers, which keep their bits.
abbrev pub two_floats : FloatOps
two_floats = record {
  F = Bool;
  less = λ x y. false;
  add = λ x y. x;
  mul = λ x y. x;
  div = λ x y. x;
  is_finite = λ x. true;
  of_i64 = λ x. false;
  of_u64 = λ x. false;
}

abbrev pub two_bits : FloatBits two_floats
two_bits = record {
  to_bits64 = λ x. if x then 1 else 0;
  of_bits64 = λ n. n == 1;
  to_bits32 = λ x. if x then 1 else 0;
  of_bits32 = λ n. n == 1;
  within_float = λ x. true;
  zero_f = false;
}

pub two_bits-IsFaithful : IsFaithful two_floats two_bits
two_bits-IsFaithful = record {
  bits64 = λ x. ground arith;
  fits64 = λ x. ground arith;
  fits32 = λ x. ground arith;
  finite32 = λ x h. refl;
}

-- A dictionary that holds the last text.
abbrev assign : List ℕ → ℕ → List ℕ → Result (ℕ × List ℕ)
assign s field p = ok (1, p)

abbrev look_up : List ℕ → ℕ → ℕ → Result (List ℕ)
look_up s field id = ok s

assign-Learns : Learns assign look_up
assign-Learns s s' field id p h =
    let pair : ◌≡◌ {A = ℕ × List ℕ} (1, p) (id, s') = ok-eq-ok _ _ h in
    (omega (arith, ap (λ x. x.0) pair), ap ok (sym (ap (λ x. x.1) pair)))

abbrev n_field : Field
n_field = field_at (record { name = 110 ∷ []; type = i32; size = 0; nullable = true }) 9 0

abbrev minus_five : Value Bool
minus_five = record { is_null = false; i64 = negsuc 4; u64 = 0; f64 = false; bytes = [] }

minus_five-FitsValue : FitsValue minus_five
minus_five-FitsValue = record { int = (omega arith, omega arith); word = omega arith }

minus_five-encoded :
    Gives
      (encode_field two_floats two_bits (some assign) [] 1 n_field minus_five)
      (251 ∷ 255 ∷ 255 ∷ 255 ∷ [])
      []
unfolding encode_field field_at type_width encode_signed from_i64 reject
minus_five-encoded = refl

n_field-width : n_field.width ≡ type_width n_field.type n_field.size
unfolding field_at
n_field-width = refl

n_field-size : n_field.size ≤ 16384
unfolding field_at
n_field-size = omega arith

decode_field-encode_field_example : ReadsAs two_floats two_bits n_field.type minus_five (
    decode_field two_floats two_bits (some (look_up [])) 1 n_field (251 ∷ 255 ∷ 255 ∷ 255 ∷ 7 ∷ []))
decode_field-encode_field_example =
    decode_field-encode_field two_floats two_bits two_bits-IsFaithful assign look_up assign-Learns
      n_field minus_five 1 [] [] (251 ∷ 255 ∷ 255 ∷ 255 ∷ []) (7 ∷ []) n_field-width n_field-size
      minus_five-FitsValue minus_five-encoded
