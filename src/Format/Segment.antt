-- ===== src/Format/Segment.antt =====
-- storage/format.c: `wadb_segment_encode` and `wadb_segment_decode`. Null pointers are no values of
-- the model.
pub mod RoundTrip
use webanalyticsdb.Prelude.{
  ℕ, zero, suc, ◌+◌, ◌%◌, Bool, true, false, ◌||◌, not, List, [], ◌∷◌, ltb, ◌==◌, if◌then◌else◌,
  length, replicate,
}
use webanalyticsdb.Prelude.Int.{ℤ, pos, negsuc}
use webanalyticsdb.Core.Status.{Result, ok, err, ◌>>=◌, ◌>>◌, reject, invalid, corrupt, version}
use webanalyticsdb.Core.Bytes.{
  read, write, get_u32, get_u64, get_i64, from_i64, put_u32, put_u64, bytes_eq, zeroes,
}
use webanalyticsdb.Core.Checksum.{crc32c}
use webanalyticsdb.Format.{segment_header_bytes, format_version, day_us, max_row_bytes}

pub record SegmentHeader : Type 0 where
  pub table_id : ℕ
  pub segment_id : ℕ
  pub schema_hash : ℕ
  pub row_width : ℕ
  pub day_start : ℤ
  pub first_sequence : ℕ

-- "WADBSEG1"
abbrev pub segment_magic : List ℕ
segment_magic = 87 ∷ 65 ∷ 68 ∷ 66 ∷ 83 ∷ 69 ∷ 71 ∷ 49 ∷ []

-- day_start < 0 || day_start % WADB_DAY_US
unfoldable pub bad_day : ℤ → Bool
bad_day (pos n) = not (n % day_us == 0)
bad_day (negsuc n) = true

unfoldable pub bad_segment_header : SegmentHeader → Bool
unfolding bad_day
bad_segment_header h =
    h.table_id == 0
    || h.segment_id == 0
    || h.first_sequence == 0
    || h.row_width == 0
    || ltb max_row_bytes h.row_width
    || not (h.row_width % 8 == 0)
    || bad_day h.day_start

-- The header without its checksum.
unfoldable pub segment_header_fields : SegmentHeader → List ℕ
unfolding put_u32 put_u64
segment_header_fields h =
    let p = write (replicate segment_header_bytes 0) 0 segment_magic in
    let p = put_u32 p 8 format_version in
    let p = put_u32 p 12 segment_header_bytes in
    let p = put_u64 p 16 h.table_id in
    let p = put_u64 p 24 h.segment_id in
    let p = put_u64 p 32 h.schema_hash in
    let p = put_u32 p 40 h.row_width in
    let p = put_u64 p 48 (from_i64 h.day_start) in put_u64 p 56 h.first_sequence

-- The header with its checksum.
unfoldable pub segment_write : SegmentHeader → List ℕ
unfolding segment_header_fields put_u32
segment_write h = let p = segment_header_fields h in put_u32 p 124 (crc32c (read p 0 124))

unfoldable pub segment_encode : SegmentHeader → Result (List ℕ)
unfolding bad_segment_header
segment_encode h = do reject (bad_segment_header h) invalid; ok (segment_write h)

-- What `wadb_segment_decode` reads once the checks are passed.
unfoldable pub segment_header_read : List ℕ → SegmentHeader
unfolding get_u32 get_u64 get_i64
segment_header_read p = record {
  table_id = get_u64 p 16;
  segment_id = get_u64 p 24;
  schema_hash = get_u64 p 32;
  row_width = get_u32 p 40;
  day_start = get_i64 p 48;
  first_sequence = get_u64 p 56;
}

-- The values are checked by encoding them again into a scratch buffer.
unfoldable pub check_segment_values : SegmentHeader → Result (List ℕ) → Result SegmentHeader
check_segment_values h (ok check) = ok h
check_segment_values h (err e) = err corrupt

unfoldable pub segment_decode : List ℕ → Result SegmentHeader
unfolding get_u32 segment_header_read check_segment_values bytes_eq zeroes
segment_decode p = do
  reject (not (length p == segment_header_bytes) || not (bytes_eq (read p 0 8) segment_magic))
      corrupt
  reject (not (crc32c (read p 0 124) == get_u32 p 124)) corrupt
  reject (not (get_u32 p 8 == format_version)) version
  reject
      (not (get_u32 p 12 == segment_header_bytes)
        || not (zeroes (read p 44 4))
        || not (zeroes (read p 64 60)))
      corrupt
  let h = segment_header_read p
  check_segment_values h (segment_encode h)
