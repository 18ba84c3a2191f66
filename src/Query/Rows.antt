-- ===== src/Query/Rows.antt =====
-- query/query.c: `consume`, which takes the rows of a scan one by one. A scan query keeps the rows
-- that match; another query reduces each to its group. Where C returns CANCELLED with `stopped`, this
-- returns the state with `stopped`, and the scan hands it no row more.
pub mod Grouping
pub mod Members
pub mod Reduced
pub mod Consuming
pub mod Failing
use webanalyticsdb.Prelude.{
  ℕ, suc, ◌+◌, ◌-◌, ◌^◌, Bool, true, false, not, List, [], ◌∷◌, ◌++◌, ◌==◌, if◌then◌else◌, length,
  map,
}
use webanalyticsdb.Prelude.Int.{ℤ}
use webanalyticsdb.Core.Status.{Result, ok, err, limit, ◌>>=◌}
use webanalyticsdb.Slots.{store}
use webanalyticsdb.Query.Values.{FloatOps, Value}
use webanalyticsdb.Query.Bucket.{bucket_floor}
use webanalyticsdb.Query.Filters.{matches}
use webanalyticsdb.Query.Aggregates.{Aggregate, reduce}
use webanalyticsdb.Query.Execution.{QueryPlan, Group, Execution, is_scan, result_row}
use webanalyticsdb.Query.Groups.{KeyBits, group_for}

module _ {F : Type 0} where
  unfoldable pub with_aggregates : Execution F → ℕ → List (Aggregate F) → Execution F
  unfolding store
  with_aggregates x k aggregates = record x {
    groups = store x.groups k (record (x.groups k) { aggregates = aggregates });
  }

  unfoldable pub arrive : Execution F → ℕ → Execution F
  arrive x sequence = record x { last_sequence = sequence }

  unfoldable pub count_match : Execution F → ℕ → Execution F
  count_match x sequence = record x { last_sequence = sequence; matched_rows = x.matched_rows + 1 }

module _ (fl : FloatOps) (kb : KeyBits fl.F) where
  -- The fields of a row, by their numbers.
  abbrev pub Row : Type 0
  Row = ℕ → Value fl.F

  unfoldable pub bucket_value : ℤ → Value fl.F
  bucket_value b = record { is_null = false; i64 = b; u64 = 0; f64 = kb.zero; bytes = [] }

  -- The key of the time bucket, if there are buckets.
  unfoldable pub bucket_keys : QueryPlan fl.F → Row → Result (List (Value fl.F))
  unfolding bucket_value
  bucket_keys p values =
      if p.bucket_width_us == 0
      then ok []
      else (bucket_floor (values 0).i64 p.bucket_width_us p.bucket_origin_us >>= λ b.
          ok (bucket_value b ∷ []))

  unfoldable pub row_keys : QueryPlan fl.F → Row → Result (List (Value fl.F))
  row_keys p values = bucket_keys p values >>= λ bucket. ok (bucket ++ map values p.groups)

  unfoldable pub consume_group : QueryPlan fl.F → Execution fl.F → Row → Result (Execution fl.F)
  unfolding with_aggregates
  consume_group p x values = do
    keys ← row_keys p values
    (k, x) ← group_for fl kb p x keys
    aggregates ← reduce fl p.types values (x.groups k).aggregates
    ok (with_aggregates x k aggregates)

  unfoldable pub consume_scan : QueryPlan fl.F → Execution fl.F → ℕ → Row → Result (Execution fl.F)
  unfolding result_row
  consume_scan p x sequence values = result_row p x (map values p.projection) sequence >>= λ x.
      ok (record x { stopped = if length x.rows == p.limit then true else x.stopped })

  unfoldable pub consume : QueryPlan fl.F → Execution fl.F → ℕ → Row → Result (Execution fl.F)
  unfolding consume_group consume_scan arrive count_match is_scan
  consume p x sequence values =
      if not (matches fl p.types p.filters values)
      then ok (arrive x sequence)
      else if x.matched_rows == 2 ^ 64 - 1
      then err limit
      else if is_scan p
      then consume_scan p (count_match x sequence) sequence values
      else consume_group p (count_match x sequence) values

  -- The rows of a scan with their sequence numbers, up to the one that stops the query.
  unfoldable pub consume_all :
      QueryPlan fl.F → Execution fl.F → List (ℕ × Row) → Result (Execution fl.F)
  consume_all p x [] = ok x
  consume_all p x ((sequence, values) ∷ rows) =
      consume p x sequence values >>= λ x. if x.stopped then ok x else consume_all p x rows
