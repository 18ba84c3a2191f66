-- ===== src/Query/Run.antt =====
-- query/query.c: `wadb_query_execute`. The scan is a parameter: the rows that it hands over, with their
-- sequence numbers, and how it ends. The clock is three functions, one for each
-- loop that reads it. The statistics of the scan and what is recorded
-- of the query are left out.
pub mod Whole
mod Examples
use webanalyticsdb.Prelude.{
  ℕ, zero, suc, ◌+◌, ◌-◌, ◌*◌, ◌%◌, ◌^◌, Bool, true, false, not, ◌&&◌, ◌||◌, List, [], ◌∷◌, ltb,
  ◌==◌, if◌then◌else◌, length, Option, none, some,
}
use webanalyticsdb.Prelude.Int.{ℤ, pos, ◌+ℤ◌}
use webanalyticsdb.Core.Status.{Result, ok, err, limit, reject, ◌>>=◌, ◌>>◌}
use webanalyticsdb.Slots.{no_slots}
use webanalyticsdb.Query.Values.{FloatOps, Value}
use webanalyticsdb.Query.Execution.{QueryPlan, Group, Execution, is_scan, allocate}
use webanalyticsdb.Query.Groups.{KeyBits, group_for}
use webanalyticsdb.Query.Rows.{Row, bucket_value, consume_all}
use webanalyticsdb.Query.Output.{emit_groups}

abbrev pub sizeof_query_result : ℕ
sizeof_query_result = 160

abbrev pub sizeof_result_column : ℕ
sizeof_result_column = 68

-- How many buckets there are from the first one on, from the compilation of the plan.
pub record Buckets : Type 0 where
  pub first_bucket : ℤ
  pub bucket_count : ℕ

-- What the scan does: its rows, and how it ends when the query lets it run: whether it stopped at its
-- limit with rows left, or its error.
pub record Scanned (F : Type 0) : Type 0 where
  pub rows : List (ℕ × (ℕ → Value F))
  pub ended : Result Bool

pub record Clock : Type 0 where
  pub late_bucket : ℕ → Bool
  pub late_sort : ℕ → Bool
  pub late_row : ℕ → Bool

pub record QueryResult (F : Type 0) : Type 0 where
  pub rows : List (List (Value F))
  pub sequences : List ℕ
  pub matched_rows : ℕ
  pub total_groups : ℕ
  pub has_more : Bool
  pub limit_reached : Bool
  pub last_sequence : ℕ

module _ (fl : FloatOps) (kb : KeyBits fl.F) where
  abbrev no_group : Group fl.F
  no_group = record { hash = 0; keys = []; aggregates = [] }

  unfoldable pub start_execution : ℕ → ℕ → Execution fl.F
  start_execution used after = record {
    groups = λ k. no_group;
    slots = no_slots;
    group_count = 0;
    group_capacity = 0;
    slot_count = 0;
    used = used;
    last_sequence = after;
    stopped = false;
    matched_rows = 0;
    rows = [];
    sequences = [];
    capacity = 0;
  }

  unfoldable pub seed_keys : QueryPlan fl.F → ℤ → List (Value fl.F)
  seed_keys p bucket = if p.bucket_width_us == 0 then [] else bucket_value fl kb bucket ∷ []

  -- A query without grouping fields has its groups before the first row: the buckets, or one group.
  unfoldable pub seed :
      QueryPlan fl.F → (ℕ → Bool) → ℕ → ℕ → ℤ → Execution fl.F → Result (Execution fl.F)
  seed p late zero i bucket x = ok x
  seed p late (suc n) i bucket x =
      if i % 256 == 0 && late i
      then err limit
      else (group_for fl kb p x (seed_keys p bucket) >>= λ (k, x').
          seed p late n (i + 1) (bucket +ℤ pos p.bucket_width_us) x')

  unfoldable pub seed_all :
      QueryPlan fl.F → Buckets → (ℕ → Bool) → Execution fl.F → Result (Execution fl.F)
  unfolding seed is_scan
  seed_all p b late x =
      if is_scan p || not (length p.groups == 0)
      then ok x
      else seed p late (if p.bucket_width_us == 0 then 1 else b.bucket_count) 0 b.first_bucket x

  unfoldable pub finish :
      QueryPlan fl.F → Clock → Scanned fl.F → Execution fl.F → Result (Execution fl.F)
  finish p clock scanned x = (if x.stopped then ok false else scanned.ended) >>= λ limit_reached.
      reject limit_reached limit
      >> (if is_scan p then ok x else emit_groups fl kb p x clock.late_sort clock.late_row)

  unfoldable pub result_of : QueryPlan fl.F → ℕ → Execution fl.F → QueryResult fl.F
  unfolding is_scan
  result_of p snapshot_sequence x =
      let more = x.stopped && ltb x.last_sequence snapshot_sequence in
      let groups = if is_scan p then 0 else x.group_count in
      record {
        rows = x.rows;
        sequences = x.sequences;
        matched_rows = x.matched_rows;
        total_groups = groups;
        has_more = more;
        limit_reached = if is_scan p then more else ltb (length x.rows) groups;
        last_sequence = x.last_sequence;
      }

  unfoldable pub query_execute :
      QueryPlan fl.F → Buckets → Clock → Scanned fl.F → ℕ → ℕ → Result (QueryResult fl.F)
  unfolding start_execution seed_all finish result_of consume_all
  query_execute p b clock scanned snapshot_sequence after = do
    used ←
        allocate p p.allocated_bytes (sizeof_query_result + length p.columns * sizeof_result_column)
    x ← seed_all p b clock.late_bucket (start_execution used after)
    x ← consume_all fl kb p x scanned.rows
    x ← finish p clock scanned x
    ok (result_of p snapshot_sequence x)
