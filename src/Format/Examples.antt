-- ===== src/Format/Examples.antt =====
-- The headers and frames of storage/format.c at concrete values: a segment of 16-byte rows, and a
-- frame of two such rows without a dictionary.
use webanalyticsdb.Prelude.{ℕ, ◌≡◌, refl, ap, some, true, List, [], ◌∷◌, arith, All}
use webanalyticsdb.Prelude.Int.{pos}
use webanalyticsdb.Core.Status.{ok, reject}
use webanalyticsdb.Core.Bytes.{IsByte, put_u32, put_u64, get_u32, get_i64, from_i64}
use webanalyticsdb.Core.Checksum.{crc32c}
use webanalyticsdb.Format.Segment.{
  SegmentHeader, segment_encode, segment_decode, bad_segment_header, segment_header_fields,
  segment_write,
}
use webanalyticsdb.Format.Segment.RoundTrip.{
  segment_decode-segment_encode, segment_encode-segment_decode, FitsHeader,
}
use webanalyticsdb.Format.Frame.{
  Frame, frame_encode, frame_decode, frame_sizes, frame_write, bad_frame_values, dictionary_valid,
  times_valid, frame_body, frame_header_fields,
}
use webanalyticsdb.Format.Frame.Written.{FitsFrame}
use webanalyticsdb.Format.Frame.RoundTrip.{frame_decode-frame_encode, decoded}

abbrev header : SegmentHeader
header = record {
  table_id = 7;
  segment_id = 3;
  schema_hash = 0x0123456789abcdef;
  row_width = 16;
  day_start = pos 86400000000;
  first_sequence = 41;
}

header-FitsHeader : FitsHeader header
header-FitsHeader = record {
  table_id_fits = omega arith;
  segment_id_fits = omega arith;
  schema_hash_fits = omega arith;
  row_width_fits = omega arith;
  day_start_above = omega arith;
  day_start_below = omega arith;
  first_sequence_fits = omega arith;
}

abbrev header_bytes : List ℕ
header_bytes =
    87 ∷ 65 ∷ 68 ∷ 66 ∷ 83 ∷ 69 ∷ 71 ∷ 49 ∷ 1 ∷ 0 ∷ 0 ∷ 0 ∷ 128 ∷ 0 ∷ 0 ∷ 0 ∷ 7 ∷ 0 ∷ 0 ∷ 0 ∷ 0 ∷ 0
    ∷ 0 ∷ 0 ∷ 3 ∷ 0 ∷ 0 ∷ 0 ∷ 0 ∷ 0 ∷ 0 ∷ 0 ∷ 239 ∷ 205 ∷ 171 ∷ 137 ∷ 103 ∷ 69 ∷ 35 ∷ 1 ∷ 16 ∷ 0 ∷ 0
    ∷ 0 ∷ 0 ∷ 0 ∷ 0 ∷ 0 ∷ 0 ∷ 96 ∷ 215 ∷ 29 ∷ 20 ∷ 0 ∷ 0 ∷ 0 ∷ 41 ∷ 0 ∷ 0 ∷ 0 ∷ 0 ∷ 0 ∷ 0 ∷ 0 ∷ 0
    ∷ 0 ∷ 0 ∷ 0 ∷ 0 ∷ 0 ∷ 0 ∷ 0 ∷ 0 ∷ 0 ∷ 0 ∷ 0 ∷ 0 ∷ 0 ∷ 0 ∷ 0 ∷ 0 ∷ 0 ∷ 0 ∷ 0 ∷ 0 ∷ 0 ∷ 0 ∷ 0 ∷ 0
    ∷ 0 ∷ 0 ∷ 0 ∷ 0 ∷ 0 ∷ 0 ∷ 0 ∷ 0 ∷ 0 ∷ 0 ∷ 0 ∷ 0 ∷ 0 ∷ 0 ∷ 0 ∷ 0 ∷ 0 ∷ 0 ∷ 0 ∷ 0 ∷ 0 ∷ 0 ∷ 0 ∷ 0
    ∷ 0 ∷ 0 ∷ 0 ∷ 0 ∷ 0 ∷ 0 ∷ 0 ∷ 0 ∷ 0 ∷ 0 ∷ 0 ∷ 96 ∷ 92 ∷ 226 ∷ 51 ∷ []

header-written : segment_write header ≡ header_bytes
unfolding segment_write segment_header_fields put_u32 put_u64 from_i64 crc32c
header-written = refl

header-encoded : segment_encode header ≡ ok header_bytes
unfolding segment_encode bad_segment_header reject
header-encoded = ap ok header-written

segment_decode-segment_encode_example : segment_decode header_bytes ≡ ok header
segment_decode-segment_encode_example =
    segment_decode-segment_encode header header_bytes header-FitsHeader header-encoded

header_bytes-IsByte : All IsByte header_bytes
header_bytes-IsByte = omega arith

segment_encode-segment_decode_example : segment_encode header ≡ ok header_bytes
segment_encode-segment_decode_example =
    segment_encode-segment_decode header_bytes header header_bytes-IsByte
      (segment_decode-segment_encode header header_bytes header-FitsHeader header-encoded)

abbrev two_rows : Frame
two_rows = record {
  schema_hash = 0x0123456789abcdef;
  first_sequence = 41;
  min_time = pos 1000;
  max_time = pos 1500;
  row_count = 2;
  row_width = 16;
  dictionary_count = 0;
  dictionary_bytes = 0;
  dictionary = [];
  rows =
      232 ∷ 3 ∷ 0 ∷ 0 ∷ 0 ∷ 0 ∷ 0 ∷ 0 ∷ 5 ∷ 0 ∷ 0 ∷ 0 ∷ 0 ∷ 0 ∷ 0 ∷ 0 ∷ 220 ∷ 5 ∷ 0 ∷ 0 ∷ 0 ∷ 0 ∷ 0
      ∷ 0 ∷ 6 ∷ 0 ∷ 0 ∷ 0 ∷ 0 ∷ 0 ∷ 0 ∷ 0 ∷ [];
  frame_bytes = 0;
  rows_offset = 0;
}

abbrev frame_bytes : List ℕ
frame_bytes =
    87 ∷ 65 ∷ 68 ∷ 66 ∷ 66 ∷ 65 ∷ 84 ∷ 49 ∷ 128 ∷ 0 ∷ 0 ∷ 0 ∷ 80 ∷ 0 ∷ 0 ∷ 0 ∷ 2 ∷ 0 ∷ 0 ∷ 0 ∷ 16
    ∷ 0 ∷ 0 ∷ 0 ∷ 41 ∷ 0 ∷ 0 ∷ 0 ∷ 0 ∷ 0 ∷ 0 ∷ 0 ∷ 232 ∷ 3 ∷ 0 ∷ 0 ∷ 0 ∷ 0 ∷ 0 ∷ 0 ∷ 220 ∷ 5 ∷ 0 ∷ 0
    ∷ 0 ∷ 0 ∷ 0 ∷ 0 ∷ 0 ∷ 0 ∷ 0 ∷ 0 ∷ 0 ∷ 0 ∷ 0 ∷ 0 ∷ 80 ∷ 0 ∷ 0 ∷ 0 ∷ 0 ∷ 0 ∷ 0 ∷ 0 ∷ 239 ∷ 205
    ∷ 171 ∷ 137 ∷ 103 ∷ 69 ∷ 35 ∷ 1 ∷ 92 ∷ 30 ∷ 230 ∷ 32 ∷ 0 ∷ 0 ∷ 0 ∷ 0 ∷ 232 ∷ 3 ∷ 0 ∷ 0 ∷ 0 ∷ 0
    ∷ 0 ∷ 0 ∷ 5 ∷ 0 ∷ 0 ∷ 0 ∷ 0 ∷ 0 ∷ 0 ∷ 0 ∷ 220 ∷ 5 ∷ 0 ∷ 0 ∷ 0 ∷ 0 ∷ 0 ∷ 0 ∷ 6 ∷ 0 ∷ 0 ∷ 0 ∷ 0
    ∷ 0 ∷ 0 ∷ 0 ∷ 87 ∷ 65 ∷ 68 ∷ 66 ∷ 69 ∷ 78 ∷ 68 ∷ 49 ∷ 128 ∷ 0 ∷ 0 ∷ 0 ∷ 120 ∷ 220 ∷ 234 ∷ 196
    ∷ []

two_rows-sizes : frame_sizes two_rows ≡ some (32, 128)
unfolding frame_sizes bad_frame_values
two_rows-sizes = refl

two_rows-encoded : frame_encode (λ n. true) two_rows ≡ ok frame_bytes
unfolding frame_encode frame_sizes bad_frame_values frame_write dictionary_valid times_valid
    frame_body frame_header_fields put_u32 get_u32 get_i64 from_i64 crc32c reject
two_rows-encoded = refl

two_rows-FitsFrame : FitsFrame two_rows
two_rows-FitsFrame = record {
  row_count_fits = omega arith;
  row_width_fits = omega arith;
  dictionary_count_fits = omega arith;
  dictionary_bytes_fits = omega arith;
  first_sequence_fits = omega arith;
  schema_hash_fits = omega arith;
  min_time_above = omega arith;
  min_time_below = omega arith;
  max_time_above = omega arith;
  max_time_below = omega arith;
}

frame_decode-frame_encode_example : frame_decode frame_bytes ≡ ok (decoded two_rows 128)
frame_decode-frame_encode_example =
    frame_decode-frame_encode (λ n. true) two_rows frame_bytes two_rows-FitsFrame refl refl
      two_rows-encoded
