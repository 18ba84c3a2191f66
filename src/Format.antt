-- ===== src/Format.antt =====
-- storage/format.c: the segment header and the row frame.
pub mod Segment
pub mod Frame
mod Examples
use webanalyticsdb.Prelude.{ℕ, ◌*◌}

abbrev pub segment_header_bytes : ℕ
segment_header_bytes = 128

abbrev pub frame_header_bytes : ℕ
frame_header_bytes = 80

abbrev pub frame_trailer_bytes : ℕ
frame_trailer_bytes = 16

abbrev pub format_version : ℕ
format_version = 1

abbrev pub day_us : ℕ
day_us = 86400000000

abbrev pub max_fields : ℕ
max_fields = 256

abbrev pub max_row_bytes : ℕ
max_row_bytes = 16384

abbrev pub max_frame_bytes : ℕ
max_frame_bytes = 1024 * 1024

abbrev pub max_string_bytes : ℕ
max_string_bytes = 65536
