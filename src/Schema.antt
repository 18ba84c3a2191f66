-- ===== src/Schema.antt =====
-- core/schema.c: `wadb_schema_build`, which checks the definitions of a table's fields and lays the
-- row out. A type outside of the enumeration has no counterpart here.
pub mod Layout
pub mod Codec
pub mod Row
mod Examples
use webanalyticsdb.Prelude.{
  ℕ, suc, ◌+◌, ◌-◌, ◌*◌, ◌/◌, ◌^◌, Bool, true, false, not, ◌||◌, ◌&&◌, List, [], ◌∷◌, ◌++◌, ltb,
  ◌==◌, if◌then◌else◌, length, replicate,
}
use webanalyticsdb.Prelude.Int.{ℤ, pos, negsuc}
use webanalyticsdb.Core.Status.{Result, ok, err, invalid, limit, reject, ◌>>=◌, ◌>>◌}
use webanalyticsdb.Core.Bytes.{bytes_eq, put_u32}
use webanalyticsdb.Core.Checksum.{hash, fnv_basis}
use webanalyticsdb.Core.Text.{identifier}
use webanalyticsdb.Core.Types.{
  FieldType, i8, u8, i16, u16, i32, u32, i64, u64, f32, f64, bool, timestamp_us, uuid, bytes, text,
  symbol32, type_width,
}

abbrev pub max_fields : ℕ
max_fields = 256

abbrev pub max_row_bytes : ℕ
max_row_bytes = 16384

abbrev pub no_null_bit : ℕ
no_null_bit = 2 ^ 32 - 1

pub record FieldDef : Type 0 where
  pub name : List ℕ
  pub type : FieldType
  pub size : ℕ
  pub nullable : Bool

pub record Field : Type 0 where
  pub name : List ℕ
  pub type : FieldType
  pub size : ℕ
  pub nullable : Bool
  pub offset : ℕ
  pub width : ℕ
  pub null_bit : ℕ

-- `field_count` is the length of the fields.
pub record Schema : Type 0 where
  pub row_width : ℕ
  pub null_bytes : ℕ
  pub fingerprint : ℕ
  pub fields : List Field

-- "_time"
abbrev pub time_name : List ℕ
time_name = 95 ∷ 116 ∷ 105 ∷ 109 ∷ 101 ∷ []

unfoldable pub is_sized : FieldType → Bool
is_sized bytes = true
is_sized text = true
is_sized _ = false

unfoldable pub bad_size : FieldDef → Bool
bad_size d =
    is_sized d.type && (d.size == 0 || ltb max_row_bytes d.size)
    || not (is_sized d.type) && not (d.size == 0)

-- !strcmp(d->name, defs[j].name) for one of the definitions before
unfoldable pub has_name : List ℕ → List FieldDef → Bool
has_name name [] = false
has_name name (d ∷ seen) = bytes_eq name d.name || has_name name seen

unfoldable pub check_def : List FieldDef → FieldDef → Result (Unit {0})
check_def seen d = do
  reject (not (identifier d.name) || bytes_eq d.name time_name) invalid
  reject (has_name d.name seen) invalid
  reject (bad_size d) invalid
  reject (type_width d.type d.size == 0) invalid

-- The definitions from one on, with those before it.
unfoldable pub check_defs : List FieldDef → List FieldDef → Result (Unit {0})
check_defs seen [] = ok tt
check_defs seen (d ∷ defs) =
    let rest = check_defs (seen ++ (d ∷ [])) defs in check_def seen d >> rest

unfoldable pub count_nullable : List FieldDef → ℕ
count_nullable [] = 0
count_nullable (d ∷ defs) = (if d.nullable then 1 else 0) + count_nullable defs

unfoldable pub field_at : FieldDef → ℕ → ℕ → Field
field_at d offset null_bit = record {
  name = d.name;
  type = d.type;
  size = d.size;
  nullable = d.nullable;
  offset = offset;
  width = type_width d.type d.size;
  null_bit = if d.nullable then null_bit else no_null_bit;
}

-- The fields from a definition on, and the end of the last one.
unfoldable pub place : ℕ → ℕ → List FieldDef → Result (List Field × ℕ)
place offset null_bit [] = ok ([], offset)
place offset null_bit (d ∷ defs) =
    let width = type_width d.type d.size in
    let rest = place (offset + width) (if d.nullable then null_bit + 1 else null_bit) defs in
    if ltb (max_row_bytes - offset) width
    then err limit
    else rest >>= λ (fields, end). ok (field_at d offset null_bit ∷ fields, end)

unfoldable pub type_code : FieldType → ℕ
type_code i8 = 1
type_code u8 = 2
type_code i16 = 3
type_code u16 = 4
type_code i32 = 5
type_code u32 = 6
type_code i64 = 7
type_code u64 = 8
type_code f32 = 9
type_code f64 = 10
type_code bool = 11
type_code timestamp_us = 12
type_code uuid = 13
type_code bytes = 14
type_code text = 15
type_code symbol32 = 16

unfoldable pub field_spec : Field → List ℕ
field_spec f =
    let p = put_u32 (replicate 12 0) 0 (type_code f.type) in
    let p = put_u32 p 4 f.size in put_u32 p 8 (if f.nullable then 1 else 0)

unfoldable pub fingerprint : ℕ → List Field → ℕ
fingerprint h [] = h
fingerprint h (f ∷ fields) = fingerprint (hash (field_spec f) (hash (f.name ++ (0 ∷ [])) h)) fields

abbrev pub time_field : Field
time_field = record {
  name = time_name;
  type = timestamp_us;
  size = 0;
  nullable = false;
  offset = 0;
  width = 8;
  null_bit = no_null_bit;
}

unfoldable pub schema_of : ℕ → List Field × ℕ → Schema
schema_of null_bytes (fields, end) = record {
  row_width = (end + 7) / 8 * 8;
  null_bytes = null_bytes;
  fingerprint = fingerprint fnv_basis (time_field ∷ fields);
  fields = time_field ∷ fields;
}

unfoldable pub schema_build : List FieldDef → Result Schema
schema_build defs = do
  reject (not (ltb (length defs) max_fields)) invalid
  check_defs [] defs
  let null_bytes = (count_nullable defs + 7) / 8
  placed ← place (8 + null_bytes) 0 defs
  ok (schema_of null_bytes placed)

unfoldable pub schema_find_from : ℕ → List Field → List ℕ → ℤ
schema_find_from i [] name = negsuc 0
schema_find_from i (f ∷ fields) name =
    let rest = schema_find_from (i + 1) fields name in if bytes_eq f.name name then pos i else rest

unfoldable pub schema_find : Schema → List ℕ → ℤ
unfolding schema_find_from
schema_find s name = schema_find_from 0 s.fields name
