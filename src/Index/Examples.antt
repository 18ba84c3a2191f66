-- ===== src/Index/Examples.antt =====
-- The index of storage/index.c at concrete values: two frames of two rows of 16 bytes.
use webanalyticsdb.Prelude.{ℕ, ◌≤◌, ◌<◌, ◌+◌, ◌*◌, ◌≡◌, refl, false, arith}
use webanalyticsdb.Prelude.Int.{pos, ◌≤ℤ◌}
use webanalyticsdb.Core.Status.{ok}
use webanalyticsdb.Core.Segments.{SegmentInfo, active}
use webanalyticsdb.Index.{IndexEntry, entry_encode, entry_decode, bad_entry, index_lower_bound}
use webanalyticsdb.Index.Entries.{FitsEntry, entry_decode-entry_encode}
use webanalyticsdb.Index.Search.{AreCommitted, IsBefore, index_lower_bound-Boundary}

abbrev segment : SegmentInfo
segment = record {
  id = 3;
  day_start = pos 0;
  first_sequence = 41;
  last_sequence = 44;
  min_time = pos 1000;
  max_time = pos 1900;
  committed_bytes = 384;
  state = active;
}

abbrev entry : IndexEntry
entry = record {
  min_time = pos 1000;
  max_time = pos 1500;
  first_sequence = 41;
  frame_offset = 128;
  row_count = 2;
  dictionary_count = 0;
  frame_bytes = 128;
  rows_offset = 80;
  frame_crc = 3303726200;
  dictionary_crc = 0;
}

entry-FitsEntry : FitsEntry entry
entry-FitsEntry = record {
  min_time_above = omega arith;
  min_time_below = omega arith;
  max_time_above = omega arith;
  max_time_below = omega arith;
  first_sequence_fits = omega arith;
  frame_offset_fits = omega arith;
  row_count_fits = omega arith;
  dictionary_count_fits = omega arith;
  frame_bytes_fits = omega arith;
  rows_offset_fits = omega arith;
  frame_crc_fits = omega arith;
  dictionary_crc_fits = omega arith;
}

entry-good : bad_entry segment 16 entry ≡ false
unfolding bad_entry
entry-good = refl

entry_decode-entry_encode_example : entry_decode segment 16 (entry_encode entry) ≡ ok entry
entry_decode-entry_encode_example =
    entry_decode-entry_encode segment 16 entry entry-FitsEntry entry-good

-- The entries of frames that follow each other.
abbrev following : ℕ → IndexEntry
following i = record entry { max_time = pos (1500 + i); first_sequence = 41 + i * 2 }

following-AreCommitted : AreCommitted 5 following
following-AreCommitted i j le lt = (omega arith, omega arith)

index_lower_bound-Boundary_example :
    (index_lower_bound 5 following (pos 1502) 43 ≤ 5)
    × ((i : ℕ)
        → i < index_lower_bound 5 following (pos 1502) 43
        → IsBefore (pos 1502) 43 (following i))
    × ((i : ℕ)
        → index_lower_bound 5 following (pos 1502) 43 ≤ i
        → i < 5
        → (pos 1502 ≤ℤ (following i).max_time)
          × (43 + 1 < (following i).first_sequence + (following i).row_count))
index_lower_bound-Boundary_example =
    index_lower_bound-Boundary 5 following (pos 1502) 43 following-AreCommitted
