-- ===== src/Query/Snapshots.antt =====
-- query/snapshot.c: a reader's snapshot of a table: which segments it covers, and the budget of
-- readers and bytes that it is charged against. The sizes of the C structures are parameters, as is
-- whether memory can be had; the copies of the segments' descriptions are left out.
pub mod Coverage
pub mod Budget
mod Examples
use webanalyticsdb.Prelude.{
  ℕ, suc, ◌+◌, ◌-◌, ◌*◌, Bool, true, false, not, ◌||◌, ◌&&◌, List, Option, none, some, ltb, leb,
  ◌==◌, if◌then◌else◌,
}
use webanalyticsdb.Prelude.Int.{ℤ, ltb_ℤ, ◌==ℤ◌}
use webanalyticsdb.Core.Status.{Result, ok, err, backpressure, nomem, reject, ◌>>=◌, ◌>>◌}
use webanalyticsdb.Core.Segments.{SegmentInfo, SegmentState, active, sealed, retired}
use webanalyticsdb.Bisect.{search_between}

-- The part of the options that selects segments.
pub record ScanOptions : Type 0 where
  pub start_time : ℤ
  pub end_time : ℤ
  pub after_sequence : ℕ

-- s->max_time < o->start_time || s->last_sequence <= o->after_sequence, with options
unfoldable pub is_past : Option ScanOptions → SegmentInfo → Bool
is_past none s = false
is_past (some o) s = ltb_ℤ s.max_time o.start_time || leb s.last_sequence o.after_sequence

unfoldable pub starts_in_time : Option ScanOptions → SegmentInfo → Bool
starts_in_time none s = true
starts_in_time (some o) s = ltb_ℤ s.min_time o.end_time

unfoldable pub first_segment : Option ScanOptions → ℕ → (ℕ → SegmentInfo) → ℕ
first_segment o n segments = search_between (λ mid. is_past o (segments mid)) 0 n

unfoldable pub end_segment : Option ScanOptions → ℕ → (ℕ → SegmentInfo) → ℕ
end_segment o n segments =
    search_between (λ mid. starts_in_time o (segments mid)) (first_segment o n segments) n

abbrev pub is_empty_span : Option ScanOptions → Bool
is_empty_span none = false
is_empty_span (some o) = o.start_time ==ℤ o.end_time

-- The number of segments in the snapshot, from the first one on.
unfoldable pub covered : Option ScanOptions → ℕ → (ℕ → SegmentInfo) → ℕ
covered o n segments =
    if is_empty_span o then 0 else end_segment o n segments - first_segment o n segments

pub record Sizes : Type 0 where
  pub snapshot : ℕ
  pub segment : ℕ
  pub entry : ℕ

abbrev pub is_active : SegmentState → Bool
is_active active = true
is_active sealed = false
is_active retired = false

-- The bytes that a snapshot of the covered segments is charged, with `index_count` entries in the
-- index of the active segment.
unfoldable pub charge_of : Sizes → Option ScanOptions → ℕ → (ℕ → SegmentInfo) → ℕ → ℕ
charge_of sizes o n segments index_count =
    let count = covered o n segments in
    let last = segments (end_segment o n segments - 1) in
    let active_count = if not (count == 0) && is_active last.state then index_count else 0 in
    sizes.snapshot + count * sizes.segment + active_count * sizes.entry

-- The counters of the database and of the table.
pub record Readers : Type 0 where
  pub reader_count : ℕ
  pub snapshot_bytes : ℕ
  pub table_readers : ℕ

pub record ReaderLimits : Type 0 where
  pub max_readers : ℕ
  pub snapshot_limit_bytes : ℕ

-- The budget part of `wadb_snapshot_acquire`, for a snapshot with a charge.
unfoldable pub admit : ReaderLimits → Bool → ℕ → Readers → Result Readers
admit limits memory charge r = do
  reject
      (leb limits.max_readers r.reader_count
        || ltb (limits.snapshot_limit_bytes - r.snapshot_bytes) charge)
      backpressure
  reject (not memory) nomem
  ok (record {
    reader_count = r.reader_count + 1;
    snapshot_bytes = r.snapshot_bytes + charge;
    table_readers = r.table_readers + 1;
  })

-- `wadb_snapshot_release`, up to the cleanup: whether a retention that waited may now clean up.
unfoldable pub dismiss : ℕ → Bool → Readers → Readers × Bool
dismiss charge pending_retention r = (
  record {
    reader_count = r.reader_count - 1;
    snapshot_bytes = r.snapshot_bytes - charge;
    table_readers = r.table_readers - 1;
  },
  r.table_readers - 1 == 0 && pending_retention,
)
