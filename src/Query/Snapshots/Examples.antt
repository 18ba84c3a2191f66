-- ===== src/Query/Snapshots/Examples.antt =====
-- Snapshots of query/snapshot.c at concrete values: three segments of a day each, and a reader that
-- comes and goes.
use webanalyticsdb.Prelude.{
  ℕ, ◌+◌, ◌≤◌, ◌<◌, ◌≡◌, ◌↔◌, refl, true, false, [], ◌∷◌, ◌*◌, Option, some, arith,
}
use webanalyticsdb.Prelude.Int.{pos}
use webanalyticsdb.Core.Status.{ok, reject}
use webanalyticsdb.Core.Segments.{SegmentInfo, sealed}
use webanalyticsdb.Query.Snapshots.{
  ScanOptions, Readers, ReaderLimits, first_segment, covered, admit, dismiss,
}
use webanalyticsdb.Query.Snapshots.Coverage.{AreOrdered, IsWanted, covered_iff}
use webanalyticsdb.Query.Snapshots.Budget.{
  acquired, released, Reachable, start, next, IsAccounted, Reachable-IsAccounted,
}

abbrev day : ℕ → SegmentInfo
day i = record {
  id = i + 1;
  day_start = pos (i * 1000);
  first_sequence = i * 10 + 1;
  last_sequence = i * 10 + 10;
  min_time = pos (i * 1000);
  max_time = pos (i * 1000 + 999);
  committed_bytes = 256;
  state = sealed;
}

days-AreOrdered : AreOrdered 3 day
days-AreOrdered i j le lt = (omega arith, omega arith, omega arith)

abbrev options : Option ScanOptions
options = some (record { start_time = pos 1000; end_time = pos 2000; after_sequence = 0 })

covered_iff_example :
    ((first_segment options 3 day ≤ 1) × (1 < first_segment options 3 day + covered options 3 day))
    ↔ IsWanted options (day 1)
covered_iff_example = covered_iff options 3 day 1 days-AreOrdered refl (omega arith)

abbrev limits : ReaderLimits
limits = record { max_readers = 2; snapshot_limit_bytes = 100 }

abbrev none_yet : Readers
none_yet = record { reader_count = 0; snapshot_bytes = 0; table_readers = 0 }

abbrev one : Readers
one = record { reader_count = 1; snapshot_bytes = 60; table_readers = 1 }

one-admitted : admit limits true 60 none_yet ≡ ok one
unfolding admit reject
one-admitted = refl

one-Reachable : Reachable limits one (60 ∷ [])
one-Reachable = next start (acquired 60 none_yet one [] one-admitted)

none_left-Reachable : Reachable limits (dismiss 60 false one).0 []
none_left-Reachable = next one-Reachable (released 60 false one [] [])

Reachable-IsAccounted_example : IsAccounted limits (dismiss 60 false one).0 []
Reachable-IsAccounted_example = Reachable-IsAccounted limits none_left-Reachable
