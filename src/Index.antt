-- ===== src/Index.antt =====
-- storage/index.c: the entries of a segment's index, one for each frame, and their records of 64
-- bytes in the index file; the room that the active index makes; the search for a first frame.
pub mod Entries
pub mod Search
mod Examples
use webanalyticsdb.Prelude.{
  ℕ, ◌+◌, ◌-◌, ◌*◌, ◌/◌, ◌%◌, ◌^◌, Bool, true, false, not, ◌||◌, List, ltb, leb, ◌==◌,
  if◌then◌else◌, length, replicate,
}
use webanalyticsdb.Prelude.Int.{ℤ, pos, ltb_ℤ}
use webanalyticsdb.Core.Status.{Result, ok, err, corrupt, limit, nomem, reject, ◌>>=◌, ◌>>◌}
use webanalyticsdb.Core.Bytes.{
  byte, read, write, get_u32, get_u64, get_i64, put_u32, put_u64, from_i64,
}
use webanalyticsdb.Core.Checksum.{crc32c}
use webanalyticsdb.Core.Segments.{SegmentInfo}
use webanalyticsdb.Format.{
  segment_header_bytes, frame_header_bytes, frame_trailer_bytes, max_frame_bytes,
}
use webanalyticsdb.Format.Frame.{Frame}
use webanalyticsdb.Bisect.{search_between}

pub record IndexEntry : Type 0 where
  pub min_time : ℤ
  pub max_time : ℤ
  pub first_sequence : ℕ
  pub frame_offset : ℕ
  pub row_count : ℕ
  pub dictionary_count : ℕ
  pub frame_bytes : ℕ
  pub rows_offset : ℕ
  pub frame_crc : ℕ
  pub dictionary_crc : ℕ

-- A frame's entry, from its header and its bytes.
unfoldable pub index_for_frame : Frame → List ℕ → ℕ → IndexEntry
index_for_frame f p offset =
    let n = get_u32 p 8 in
    record {
      min_time = f.min_time;
      max_time = f.max_time;
      first_sequence = f.first_sequence;
      frame_offset = offset;
      row_count = f.row_count;
      dictionary_count = f.dictionary_count;
      frame_bytes = n;
      rows_offset = frame_header_bytes + f.dictionary_bytes;
      frame_crc = get_u32 p (n - 4);
      dictionary_crc = crc32c (read p frame_header_bytes f.dictionary_bytes);
    }

-- The record without its checksum.
unfoldable pub entry_fields : IndexEntry → List ℕ
unfolding put_u32 put_u64
entry_fields v =
    let p = put_u64 (replicate 64 0) 0 (from_i64 v.min_time) in
    let p = put_u64 p 8 (from_i64 v.max_time) in
    let p = put_u64 p 16 v.first_sequence in
    let p = put_u32 p 24 v.row_count in
    let p = put_u32 p 28 v.dictionary_count in
    let p = put_u64 p 32 v.frame_offset in
    let p = put_u32 p 40 v.frame_bytes in
    let p = put_u32 p 44 v.rows_offset in
    let p = put_u32 p 48 v.frame_crc in put_u32 p 52 v.dictionary_crc

unfoldable pub entry_encode : IndexEntry → List ℕ
unfolding entry_fields put_u32
entry_encode v = let p = entry_fields v in put_u32 p 60 (crc32c (read p 0 60))

-- What an entry may not say of a frame in its segment, whose rows have a width.
unfoldable pub bad_entry : SegmentInfo → ℕ → IndexEntry → Bool
bad_entry s row_width v =
    v.row_count == 0
    || v.first_sequence == 0
    || ltb v.first_sequence s.first_sequence
    || ltb (2 ^ 64 - 1 - v.first_sequence) (v.row_count - 1)
    || ltb s.last_sequence (v.first_sequence + v.row_count - 1)
    || ltb_ℤ v.min_time s.min_time
    || ltb_ℤ v.max_time v.min_time
    || ltb_ℤ s.max_time v.max_time
    || ltb v.frame_offset segment_header_bytes
    || ltb s.committed_bytes v.frame_offset
    || ltb max_frame_bytes v.frame_bytes
    || ltb (s.committed_bytes - v.frame_offset) v.frame_bytes
    || ltb v.rows_offset frame_header_bytes
    || not (v.rows_offset % 8 == 0)
    || not
        (v.frame_bytes == (v.rows_offset + v.row_count * row_width + frame_trailer_bytes) % 2 ^ 64)
    || ltb ((v.rows_offset - frame_header_bytes) / 12) v.dictionary_count

unfoldable pub entry_read : List ℕ → IndexEntry
unfolding get_i64
entry_read p = record {
  min_time = get_i64 p 0;
  max_time = get_i64 p 8;
  first_sequence = get_u64 p 16;
  row_count = get_u32 p 24;
  dictionary_count = get_u32 p 28;
  frame_offset = get_u64 p 32;
  frame_bytes = get_u32 p 40;
  rows_offset = get_u32 p 44;
  frame_crc = get_u32 p 48;
  dictionary_crc = get_u32 p 52;
}

unfoldable pub entry_decode : SegmentInfo → ℕ → List ℕ → Result IndexEntry
entry_decode s row_width p = do
  reject (not (get_u32 p 56 == 0) || not (get_u32 p 60 == crc32c (read p 0 60))) corrupt
  let v = entry_read p
  reject (bad_entry s row_width v) corrupt
  ok v

-- max_entries is WADB_MAX_INDEX_ENTRIES; the result is the capacity. `realloc` says whether an
-- allocation for so many entries succeeds.
unfoldable pub index_reserve : (ℕ → Bool) → (max_entries count capacity : ℕ) → Result ℕ
index_reserve realloc max_entries count capacity =
    let wanted = if capacity == 0 then 64 else capacity * 2 in
    let cap = if ltb max_entries wanted then max_entries else wanted in
    if leb max_entries count
    then err limit
    else if ltb count capacity
    then ok capacity
    else if realloc cap
    then ok cap
    else err nomem

-- The test of the lower bound: no row of the frame is both at or after the time and behind the
-- sequence number.
unfoldable pub before_bound : ℤ → ℕ → IndexEntry → Bool
before_bound time sequence v =
    ltb_ℤ v.max_time time || leb (v.first_sequence + v.row_count - 1) sequence

-- `wadb_index_lower_bound` on an index in memory, whose entries are given by position.
unfoldable pub index_lower_bound : ℕ → (ℕ → IndexEntry) → ℤ → ℕ → ℕ
unfolding before_bound
index_lower_bound count entry time sequence =
    search_between (λ mid. before_bound time sequence (entry mid)) 0 count
