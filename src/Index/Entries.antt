-- ===== src/Index/Entries.antt =====
-- An index record reads back as the entry that was written.
use native.Mathlib.Decide.{dec_lt}
use webanalyticsdb.Prelude.{
  ℕ, ◌-◌, ◌*◌, ◌^◌, ◌≤◌, ◌<◌, ◌≡◌, Bool, true, false, arith, ltb, ◌==◌, if◌then◌else◌,
}
use webanalyticsdb.Prelude.Int.{pos, negsuc, ◌≤ℤ◌}
use webanalyticsdb.Core.Status.{ok, reject}
use webanalyticsdb.Core.Bytes.{read, get_u32, get_u64, from_i64}
use webanalyticsdb.Core.Bytes.Laws.{to_i64-from_i64, from_i64-lt}
use webanalyticsdb.Core.Checksum.{crc32c, crc32c-lt}
use webanalyticsdb.Core.Segments.{SegmentInfo}
use webanalyticsdb.Index.{
  IndexEntry, entry_fields, entry_encode, entry_read, entry_decode, bad_entry, index_reserve,
}

-- The fields hold values of their C types.
pub record FitsEntry (v : IndexEntry) : Type 0 where
  pub min_time_above : negsuc (2 ^ 63 - 1) ≤ℤ v.min_time
  pub min_time_below : v.min_time ≤ℤ pos (2 ^ 63 - 1)
  pub max_time_above : negsuc (2 ^ 63 - 1) ≤ℤ v.max_time
  pub max_time_below : v.max_time ≤ℤ pos (2 ^ 63 - 1)
  pub first_sequence_fits : v.first_sequence < 2 ^ 64
  pub frame_offset_fits : v.frame_offset < 2 ^ 64
  pub row_count_fits : v.row_count < 2 ^ 32
  pub dictionary_count_fits : v.dictionary_count < 2 ^ 32
  pub frame_bytes_fits : v.frame_bytes < 2 ^ 32
  pub rows_offset_fits : v.rows_offset < 2 ^ 32
  pub frame_crc_fits : v.frame_crc < 2 ^ 32
  pub dictionary_crc_fits : v.dictionary_crc < 2 ^ 32

entry_words :
    (v : IndexEntry)
    → FitsEntry v
    → (get_u64 (entry_encode v) 0 ≡ from_i64 v.min_time)
      × (get_u64 (entry_encode v) 8 ≡ from_i64 v.max_time)
      × (get_u64 (entry_encode v) 16 ≡ v.first_sequence)
      × (get_u32 (entry_encode v) 24 ≡ v.row_count)
      × (get_u32 (entry_encode v) 28 ≡ v.dictionary_count)
      × (get_u64 (entry_encode v) 32 ≡ v.frame_offset)
      × (get_u32 (entry_encode v) 40 ≡ v.frame_bytes)
      × (get_u32 (entry_encode v) 44 ≡ v.rows_offset)
      × (get_u32 (entry_encode v) 48 ≡ v.frame_crc)
      × (get_u32 (entry_encode v) 52 ≡ v.dictionary_crc)
      × (get_u32 (entry_encode v) 56 ≡ 0)
      × (get_u32 (entry_encode v) 60 ≡ crc32c (read (entry_encode v) 0 60))
unfolding entry_encode get_u64 get_u32
entry_words v f = omega (
  arith,
  from_i64-lt v.min_time f.min_time_below,
  from_i64-lt v.max_time f.max_time_below,
  crc32c-lt (read (entry_fields v) 0 60),
)

entry_read-entry_encode : (v : IndexEntry) → FitsEntry v → entry_read (entry_encode v) ≡ v
unfolding entry_read
entry_read-entry_encode v f = ground (
  arith,
  entry_words v f,
  to_i64-from_i64 v.min_time f.min_time_above f.min_time_below,
  to_i64-from_i64 v.max_time f.max_time_above f.max_time_below,
)

-- An index record reads back as the entry that was written, if its fields hold values of their C
-- types and the entry is one that the segment may have.
pub entry_decode-entry_encode :
    (s : SegmentInfo) (row_width : ℕ) (v : IndexEntry)
    → FitsEntry v
    → bad_entry s row_width v ≡ false
    → entry_decode s row_width (entry_encode v) ≡ ok v
unfolding entry_decode reject
entry_decode-entry_encode s row_width v f good =
    rw (entry_read-entry_encode v f, good) (ground (arith, entry_words v f))

-- Where the index has fewer entries than it may hold and memory can be had, room is made for one
-- more, within the limit: the capacity is kept or grows.
pub index_reserve_room :
    (realloc : ℕ → Bool) (max_entries count capacity : ℕ)
    → ((n : ℕ) → realloc n ≡ true)
    → count < max_entries
    → count ≤ capacity
    → capacity ≤ max_entries
    → (cap : ℕ) × (index_reserve realloc max_entries count capacity ≡ ok cap)
      × (count < cap)
      × (capacity ≤ cap)
      × (cap ≤ max_entries)
unfolding index_reserve
index_reserve_room realloc max_entries count capacity memory room held within =
    elim (dec_lt count capacity) [
      | yes spare ↦ (capacity, ground arith, spare, omega arith, within)
      | no full ↦
          let wanted : ℕ = if capacity == 0 then 64 else capacity * 2 in
          let cap : ℕ = if ltb max_entries wanted then max_entries else wanted in
          (cap, ground (arith, memory cap), ground arith, ground arith, ground arith)
    ]
