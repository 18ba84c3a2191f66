-- ===== src/Table.antt =====
-- The state of a table (core/engine.h) and how a new segment becomes its active one:
-- `create_active` and `wadb_readable_reserve` of storage/segments.c. Segments stand in a list, the newest
-- first; a position counts from the oldest. What the system answers to the calls of an operation is
-- a `Disk`, and `content` has the bytes of the active segment's file.
pub mod Commit
pub mod Append
pub mod Induction
pub mod Retention
pub mod Accounting
mod Examples
use webanalyticsdb.Prelude.{
  ℕ, zero, suc, ◌+◌, ◌-◌, ◌*◌, ◌%◌, ◌^◌, Bool, true, false, not, ◌||◌, List, [], ◌∷◌, ltb, leb,
  ◌==◌, if◌then◌else◌, length, Option, none, some,
}
use webanalyticsdb.Prelude.Int.{ℤ, pos, negsuc}
use webanalyticsdb.Core.Status.{
  Status, Result, ok, err, limit, nomem, indeterminate, reject, ◌>>=◌, ◌>>◌,
}
use webanalyticsdb.Core.Segments.{SegmentState, SegmentInfo, active, sealed, retired}
use webanalyticsdb.Format.{segment_header_bytes, day_us}
use webanalyticsdb.Format.Segment.{SegmentHeader, segment_encode}
use webanalyticsdb.Schema.{Schema}
use webanalyticsdb.Dictionary.{Dictionary}
use webanalyticsdb.Index.{IndexEntry}
use webanalyticsdb.Query.Snapshots.{is_active}

pub record Table : Type 0 where
  pub id : ℕ
  pub schema : Schema
  pub next_segment_id : ℕ
  pub manifest_generation : ℕ
  pub retention_us : ℕ
  pub segments : List SegmentInfo
  pub last_sequence : ℕ
  pub last_time : ℤ
  pub preserved_sequence : ℕ
  pub preserved_time : ℤ
  pub dictionary : Option Dictionary
  pub index : List IndexEntry
  pub index_capacity : ℕ
  pub content : List ℕ
  pub readable : List ℕ
  pub readable_capacity : ℕ
  pub read_only : Bool
  pub pending_retention : Bool
  pub maintenance_status : Result (Unit {0})
  pub retained_rows : ℕ
  pub retained_bytes : ℕ
  pub retained_segments : ℕ
  pub retired_segments : ℕ
  pub published_dictionary_bytes : ℕ
  pub committed_frames : ℕ
  pub append_requests : ℕ

-- What the calls of the system and the allocations come to. `taken` says which segment files are
-- there already; `torn` is what a write that fails leaves at the end of the file.
pub record Disk : Type 0 where
  pub index_saved : Result (Unit {0})
  pub items_memory : Bool
  pub partition_made : Result (Unit {0})
  pub taken : ℕ → Bool
  pub created : Result (Unit {0})
  pub header_written : Result (Unit {0})
  pub manifest_saved : Result (Unit {0})
  pub rows_memory : Bool
  pub frame_memory : ℕ → Bool
  pub index_memory : ℕ → Bool
  pub readable_memory : Bool
  pub frame_written : Result (Unit {0})
  pub frame_synced : Result (Unit {0})
  pub torn : List ℕ

abbrev pub max_segments : ℕ
max_segments = 1000000

abbrev pub max_index_entries : ℕ
max_index_entries = 65536

-- Whether the newest segment is the active one.
unfoldable pub has_active : List SegmentInfo → Bool
has_active [] = false
has_active (s ∷ ss) = is_active s.state

unfoldable pub seal : SegmentInfo → SegmentInfo
seal s = if is_active s.state then record s { state = sealed } else s

unfoldable pub seal_newest : List SegmentInfo → List SegmentInfo
unfolding seal
seal_newest [] = []
seal_newest (s ∷ ss) = seal s ∷ ss

-- now - now % WADB_DAY_US, of a time that is not negative
unfoldable pub day_of : ℤ → ℤ
day_of (pos n) = pos (n - n % day_us)
day_of (negsuc n) = negsuc n

unfoldable pub new_segment : Table → ℤ → ℕ → SegmentInfo
unfolding day_of
new_segment t now id = record {
  id = id;
  day_start = day_of now;
  first_sequence = t.last_sequence + 1;
  last_sequence = 0;
  min_time = pos 0;
  max_time = pos 0;
  committed_bytes = segment_header_bytes;
  state = active;
}

-- The first number without a file, from one on; `left` is how far UINT64_MAX is.
unfoldable pub free_id : (ℕ → Bool) → ℕ → ℕ → Result ℕ
free_id taken zero id = err limit
free_id taken (suc left) id = elim (taken id) [ true ↦ free_id taken left (id + 1) | false ↦ ok id ]

-- The checks, and the index of the segment that is sealed.
unfoldable pub ready : Disk → Table → Result (Unit {0})
unfolding has_active
ready disk t = do
  reject
      (t.next_segment_id == 2 ^ 64 - 1
        || leb max_segments (length t.segments)
        || t.manifest_generation == 2 ^ 64 - 1)
      limit
  if has_active t.segments then disk.index_saved else ok tt
  reject (not disk.items_memory) nomem
  ok tt

unfoldable pub header_for : Table → SegmentInfo → SegmentHeader
header_for t s = record {
  table_id = t.id;
  segment_id = s.id;
  schema_hash = t.schema.fingerprint;
  row_width = t.schema.row_width;
  day_start = s.day_start;
  first_sequence = s.first_sequence;
}

-- The number of the new segment and its header, once they are on disk and in the manifest.
unfoldable pub install : Disk → Table → ℤ → Result (ℕ × List ℕ)
unfolding free_id new_segment header_for
install disk t now = do
  disk.partition_made
  id ← free_id disk.taken (2 ^ 64 - 1 - t.next_segment_id) t.next_segment_id
  disk.created
  header ← segment_encode (header_for t (new_segment t now id))
  disk.header_written
  disk.manifest_saved
  ok (id, header)

unfoldable pub installed : Table → ℤ → ℕ → List ℕ → Table
unfolding new_segment seal_newest
installed t now id header = record t {
  segments = new_segment t now id ∷ seal_newest t.segments;
  next_segment_id = id + 1;
  manifest_generation = t.manifest_generation + 1;
  retained_segments = t.retained_segments + 1;
  retained_bytes = t.retained_bytes + segment_header_bytes;
  published_dictionary_bytes = 0;
  index = [];
  index_capacity = 0;
  content = header;
}

unfoldable pub is_indeterminate : Status → Bool
is_indeterminate indeterminate = true
is_indeterminate _ = false

-- An error that leaves open what is on disk makes the table read-only.
unfoldable pub protect_uncertain : Table → Status → Table
unfolding is_indeterminate
protect_uncertain t s = if is_indeterminate s then record t { read_only = true } else t

unfoldable pub create_installed : Table → ℤ → Result (ℕ × List ℕ) → Table × Result (Unit {0})
unfolding installed protect_uncertain
create_installed t now (ok (id, header)) = (installed t now id header, ok tt)
create_installed t now (err s) = (protect_uncertain t s, err s)

unfoldable pub create_ready : Disk → Table → ℤ → Result (Unit {0}) → Table × Result (Unit {0})
unfolding install create_installed
create_ready disk t now (ok _) = create_installed t now (install disk t now)
create_ready disk t now (err s) = (t, err s)

unfoldable pub create_active : Disk → Table → ℤ → Table × Result (Unit {0})
unfolding ready create_ready
create_active disk t now = create_ready disk t now (ready disk t)

-- The capacity of the directory of readable segments, for one more.
unfoldable pub readable_reserve : Bool → ℕ → ℕ → Result ℕ
readable_reserve memory count capacity =
    let wanted = if capacity == 0 then 16 else capacity * 2 in
    let cap = if ltb max_segments wanted then max_segments else wanted in
    if ltb count capacity
    then ok capacity
    else if leb cap count
    then err limit
    else if memory
    then ok cap
    else err nomem
