-- ===== src/Table/Append.antt =====
-- storage/segments.c: the part of `wadb_commit_requests` that changes the table. Where the frame does not
-- fit the active segment it is made once more for a new one, with an empty dictionary.
use webanalyticsdb.Prelude.{
  ℕ, ◌+◌, ◌-◌, ◌^◌, Bool, true, false, not, ◌||◌, ◌&&◌, List, [], ◌∷◌, ◌++◌, ltb, leb, ◌==◌,
  if◌then◌else◌, length, Option, none, some,
}
use webanalyticsdb.Prelude.Int.{ℤ, ◌==ℤ◌}
use webanalyticsdb.Core.Status.{
  Status, Result, ok, err, limit, nomem, indeterminate, reject, ◌>>=◌, ◌>>◌,
}
use webanalyticsdb.Core.Segments.{SegmentInfo}
use webanalyticsdb.Format.Frame.{Frame}
use webanalyticsdb.Dictionary.{Dictionary, dictionary_new, rollback}
use webanalyticsdb.Index.{index_for_frame, index_reserve}
use webanalyticsdb.Stats.Notifications.{CommitEvent, Ring, notify}
use webanalyticsdb.Table.{
  Table, Disk, max_index_entries, has_active, day_of, create_active, readable_reserve,
}
use webanalyticsdb.Table.Commit.{
  Request, Committed, Interned, first_time, check_group, group_rows, attempt, receipts_from,
}

pub record CommitOptions : Type 0 where
  pub dictionary_limit_bytes : ℕ
  pub segment_target_bytes : ℕ
  pub database_read_only : Bool

-- The active segment with a frame of n bytes more.
unfoldable pub extend_segment : Frame → ℕ → SegmentInfo → SegmentInfo
extend_segment f n s = record s {
  min_time = if s.last_sequence == 0 then f.min_time else s.min_time;
  max_time = f.max_time;
  last_sequence = f.first_sequence + f.row_count - 1;
  committed_bytes = s.committed_bytes + n;
}

-- What the frame makes of the table once it is on disk; `s` is the active segment before.
unfoldable pub published :
    Table → Dictionary → SegmentInfo → List SegmentInfo → ℕ → Frame → List ℕ → Table
unfolding extend_segment
published t d s older requests f bytes = record t {
  segments = extend_segment f (length bytes) s ∷ older;
  last_sequence = f.first_sequence + f.row_count - 1;
  last_time = f.max_time;
  index = t.index ++ (index_for_frame f bytes s.committed_bytes ∷ []);
  content = t.content ++ bytes;
  readable = if s.last_sequence == 0 then t.readable ++ (length older ∷ []) else t.readable;
  retained_rows = t.retained_rows + f.row_count;
  retained_bytes = t.retained_bytes + length bytes;
  published_dictionary_bytes = d.allocated_bytes;
  committed_frames = t.committed_frames + 1;
  append_requests = t.append_requests + requests;
}

-- A write that failed: what is on disk is not known.
unfoldable pub uncertain : Table → List ℕ → Table
uncertain t torn = record t { read_only = true; content = t.content ++ torn }

unfoldable pub with_dictionary : Table → Dictionary → Table
with_dictionary t d = record t { dictionary = some d }

unfoldable pub with_index_capacity : Table → ℕ → Table
with_index_capacity t n = record t { index_capacity = n }

unfoldable pub with_readable_capacity : Table → ℕ → Table
with_readable_capacity t n = record t { readable_capacity = n }

abbrev pub Outcome : Type 0
Outcome = Table × Result Committed

unfoldable pub is_limit : Status → Bool
is_limit limit = true
is_limit _ = false

-- An error rolls the dictionary back.
unfoldable pub settle : Dictionary → ℕ → Outcome → Outcome
unfolding with_dictionary
settle d mark (t, ok c) = (t, ok c)
settle d mark (t, err s) = (with_dictionary t (rollback d mark), err s)

module _ {F : Type 0} (disk : Disk) (rs : List (Request F)) where
  -- The write and its sync, and what they come to.
  unfoldable pub append_written :
      Table
      → Dictionary
      → SegmentInfo
      → List SegmentInfo
      → Frame
      → List ℕ
      → Result (Unit {0})
      → Outcome
  unfolding published uncertain
  append_written t d s older f bytes (err _) = (uncertain t disk.torn, err indeterminate)
  append_written t d s older f bytes (ok _) = (
    published t d s older (length rs) f bytes,
    ok (record { frame = f; bytes = bytes; receipts = receipts_from f.first_sequence rs }),
  )

  unfoldable pub append_readable :
      Table → Dictionary → SegmentInfo → List SegmentInfo → Frame → List ℕ → Result ℕ → Outcome
  unfolding append_written with_readable_capacity
  append_readable t d s older f bytes (err e) = (t, err e)
  append_readable t d s older f bytes (ok n) =
      append_written (with_readable_capacity t n) d s older f bytes
        (disk.frame_written >> disk.frame_synced)

  unfoldable pub append_indexed :
      Table → Dictionary → SegmentInfo → List SegmentInfo → Frame → List ℕ → Result ℕ → Outcome
  unfolding append_readable with_index_capacity
  append_indexed t d s older f bytes (err e) = (t, err e)
  append_indexed t d s older f bytes (ok n) =
      append_readable (with_index_capacity t n) d s older f bytes (
        if s.last_sequence == 0
        then readable_reserve disk.readable_memory (length t.readable) t.readable_capacity
        else ok t.readable_capacity)

  -- The table has an active segment here, so its list of segments is not empty.
  unfoldable pub append_frame : Table → Dictionary → List SegmentInfo → Frame → List ℕ → Outcome
  unfolding append_indexed
  append_frame t d [] f bytes = (t, err indeterminate)
  append_frame t d (s ∷ older) f bytes =
      append_indexed t d s older f bytes
        (index_reserve disk.index_memory max_index_entries (length t.index) t.index_capacity)

  unfoldable pub append_with : Table → Dictionary → ℕ → Frame → List ℕ → Outcome
  unfolding append_frame settle with_dictionary
  append_with t d mark f bytes =
      settle d mark (append_frame (with_dictionary t d) d t.segments f bytes)

  unfoldable pub fresh_created : Dictionary → Frame → List ℕ → Table × Result (Unit {0}) → Outcome
  unfolding append_with
  fresh_created d f bytes (t, err s) = (t, err s)
  fresh_created d f bytes (t, ok _) = append_with t d 0 f bytes

  unfoldable pub fresh_attempted : Table → Interned (Frame × List ℕ) → Outcome
  unfolding fresh_created
  fresh_attempted t (d, err s) = (t, err s)
  fresh_attempted t (d, ok (f, bytes)) =
      fresh_created d f bytes (create_active disk t (first_time rs))

  unfoldable pub commit_new : Table → ℕ → ℕ → List ℕ → Result Dictionary → Outcome
  unfolding fresh_attempted
  commit_new t row_count row_bytes rows (err s) = (t, err s)
  commit_new t row_count row_bytes rows (ok d) =
      fresh_attempted t (attempt disk t rs row_count row_bytes rows d)

  unfoldable pub commit_fresh : CommitOptions → Table → ℕ → ℕ → List ℕ → Outcome
  unfolding commit_new
  commit_fresh o t row_count row_bytes rows =
      commit_new t row_count row_bytes rows (dictionary_new t.schema o.dictionary_limit_bytes)

-- The segment has frames, and no room for one of n bytes more.
unfoldable pub is_full : ℕ → ℕ → List SegmentInfo → Bool
is_full target n [] = false
is_full target n (s ∷ older) =
    not (s.last_sequence == 0)
    && (leb target s.committed_bytes || ltb (target - s.committed_bytes) n)

-- Whether the frame has to go into a new segment.
unfoldable pub needs_segment : ℕ → List SegmentInfo → Result (Frame × List ℕ) → Bool
unfolding is_limit is_full
needs_segment target segments (err s) = is_limit s
needs_segment target segments (ok (f, bytes)) = is_full target (length bytes) segments

-- No active segment, one of another day, or one with a full index.
unfoldable pub needs_day : Table → ℤ → Bool
unfolding has_active day_of
needs_day t now = elim t.segments [
  | [] ↦ true
  | s ∷ older ↦
      not (has_active t.segments)
      || not (s.day_start ==ℤ day_of now)
      || leb max_index_entries (length t.index)
]

module _ {F : Type 0} (disk : Disk) (rs : List (Request F)) where
  unfoldable pub existing_attempted : Table → ℕ → Interned (Frame × List ℕ) → Outcome
  unfolding append_with with_dictionary
  existing_attempted t mark (d, err s) = (with_dictionary t (rollback d mark), err s)
  existing_attempted t mark (d, ok (f, bytes)) = append_with disk rs t d mark f bytes

  unfoldable pub commit_tried :
      CommitOptions → Table → ℕ → ℕ → List ℕ → ℕ → Interned (Frame × List ℕ) → Outcome
  unfolding needs_segment commit_fresh existing_attempted with_dictionary
  commit_tried o t row_count row_bytes rows mark (d, r) =
      if needs_segment o.segment_target_bytes t.segments r
      then commit_fresh disk rs o (with_dictionary t (rollback d mark)) row_count row_bytes rows
      else existing_attempted t mark (d, r)

  -- A table with an active segment has a dictionary.
  unfoldable pub commit_rows : CommitOptions → Table → ℕ → ℕ → List ℕ → Option Dictionary → Outcome
  unfolding commit_tried needs_day
  commit_rows o t row_count row_bytes rows none = commit_fresh disk rs o t row_count row_bytes rows
  commit_rows o t row_count row_bytes rows (some d) =
      if needs_day t (first_time rs)
      then commit_fresh disk rs o t row_count row_bytes rows
      else commit_tried o t row_count row_bytes rows d.count
          (attempt disk t rs row_count row_bytes rows d)

  -- What is checked before anything changes: the rows and the bytes of the group.
  unfoldable pub prepare : CommitOptions → Table → Result (ℕ × ℕ)
  prepare o t = do
    (row_count, row_bytes) ← check_group rs
    reject (not disk.rows_memory) nomem
    reject (t.read_only || o.database_read_only) Status.read_only
    reject (ltb (2 ^ 64 - 1 - row_count) t.last_sequence) limit
    ok (row_count, row_bytes)

  unfoldable pub commit_prepared : CommitOptions → Table → Result (ℕ × ℕ) → Outcome
  unfolding commit_rows
  commit_prepared o t (err s) = (t, err s)
  commit_prepared o t (ok (row_count, row_bytes)) =
      commit_rows o t row_count row_bytes (group_rows t.schema.row_width rs) t.dictionary

  unfoldable pub commit : CommitOptions → Table → Outcome
  unfolding prepare commit_prepared
  commit o t = commit_prepared o t (prepare o t)

-- The part of the database that a commit changes.
pub record Counters : Type 0 where
  pub committed_frames : ℕ
  pub append_requests : ℕ
  pub committed_rows : ℕ
  pub committed_bytes : ℕ
  pub ring : Ring CommitEvent

unfoldable pub event_of : ℕ → Committed → ℕ → CommitEvent
event_of table_id c id = record {
  id = id;
  table_id = table_id;
  first_sequence = c.frame.first_sequence;
  last_sequence = c.frame.first_sequence + c.frame.row_count - 1;
  frame_bytes = length c.bytes;
  max_time = c.frame.max_time;
  rows = c.frame.row_count;
}

unfoldable pub count_commit : Table → Counters → Result Committed → Counters
unfolding event_of notify
count_commit t x (err s) = x
count_commit t x (ok c) = record {
  committed_frames = x.committed_frames + 1;
  append_requests = x.append_requests + length c.receipts;
  committed_rows = x.committed_rows + c.frame.row_count;
  committed_bytes = x.committed_bytes + length c.bytes;
  ring = notify (event_of t.id c) x.ring;
}
