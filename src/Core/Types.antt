-- ===== src/Core/Types.antt =====
-- include/wadb.h, core/schema.c and query/plan.c: the field types, their widths and their classes.
use webanalyticsdb.Prelude.{ℕ, ◌+◌, Bool, true, false}

pub data FieldType : Type 0 where
  i8 u8 i16 u16 i32 u32 i64 u64 : FieldType
  f32 f64 bool timestamp_us uuid bytes text symbol32 : FieldType

unfoldable pub type_width : FieldType → ℕ → ℕ
type_width i8 size = 1
type_width u8 size = 1
type_width bool size = 1
type_width i16 size = 2
type_width u16 size = 2
type_width i32 size = 4
type_width u32 size = 4
type_width f32 size = 4
type_width symbol32 size = 4
type_width i64 size = 8
type_width u64 size = 8
type_width f64 size = 8
type_width timestamp_us size = 8
type_width uuid size = 16
type_width bytes size = size
type_width text size = size + 4

unfoldable pub type_bytes : FieldType → Bool
type_bytes uuid = true
type_bytes bytes = true
type_bytes text = true
type_bytes symbol32 = true
type_bytes _ = false

unfoldable pub type_signed : FieldType → Bool
type_signed i8 = true
type_signed i16 = true
type_signed i32 = true
type_signed i64 = true
type_signed timestamp_us = true
type_signed _ = false

unfoldable pub type_float : FieldType → Bool
type_float f32 = true
type_float f64 = true
type_float _ = false
