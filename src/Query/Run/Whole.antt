-- ===== src/Query/Run/Whole.antt =====
-- A query with aggregates as a whole: what its rows are.
use webanalyticsdb.Prelude.{
  ℕ, zero, suc, ◌+◌, ◌*◌, ◌%◌, ◌≤◌, ◌≡◌, refl, sym, ap, subst, ◌∙◌, arith, Bool, false, not, ◌&&◌,
  ◌||◌, List, [], ltb, ◌==◌, if◌then◌else◌, length, map, take, Bool-cases, inl, inr, then_taken,
  else_taken,
}
use webanalyticsdb.Prelude.Int.{ℤ, pos, ◌+ℤ◌}
use webanalyticsdb.Core.Status.{ok, err, limit, ok-eq-ok, >>=-ok, reject-eq-ok}
use webanalyticsdb.Slots.Index.{no_slots-Indexes}
use webanalyticsdb.Query.Values.{FloatOps}
use webanalyticsdb.Query.Values.Order.{IsOrder}
use webanalyticsdb.Query.Execution.{QueryPlan, Execution, is_scan, allocate}
use webanalyticsdb.Query.Groups.{KeyBits, group_for}
use webanalyticsdb.Query.Groups.Keys.{IsCanonical}
use webanalyticsdb.Query.Groups.Finding.{group_for-Finds}
use webanalyticsdb.Query.Groups.Making.{allocate-Charged}
use webanalyticsdb.Query.Rows.{consume_all}
use webanalyticsdb.Query.Rows.Grouping.{matching}
use webanalyticsdb.Query.Rows.Members.{IsKeyed}
use webanalyticsdb.Query.Rows.Reduced.{IsReduced-found}
use webanalyticsdb.Query.Rows.Consuming.{IsConsumed, found_counts, consume_all-IsConsumed}
use webanalyticsdb.Query.Output.Emitted.{IsOrdering, rows_of, emit_groups_lem}
use webanalyticsdb.Query.Run.{
  Buckets, Scanned, Clock, QueryResult, start_execution, seed_keys, seed, seed_all, finish,
  result_of, query_execute, sizeof_query_result, sizeof_result_column,
}

module _ (fl : FloatOps) (kb : KeyBits fl.F) (p : QueryPlan fl.F) where
  -- a query that starts has no groups and no rows
  pub start_execution-IsConsumed :
      (used after : ℕ)
      → used ≤ p.memory_limit_bytes
      → IsConsumed fl kb p (start_execution fl kb used after) []
  unfolding start_execution matching
  start_execution-IsConsumed used after within = record {
    groups = record {
      grouped = record {
        index = no_slots-Indexes _ 0;
        room = omega arith;
        few = omega arith;
        within = within;
        held = omega arith;
        hashed = λ k lt. absurd (omega arith);
        sized = λ k lt. absurd (omega arith);
        distinct = λ j k lj lk. absurd (omega arith);
      };
      covered = tt;
      reduced = λ k lt. absurd (omega arith);
    };
    counted = refl;
    going = refl;
    quiet = refl;
  }

  seed_keys_size :
      (bucket : ℤ)
      → IsKeyed p
      → length p.groups ≡ 0
      → length (seed_keys fl kb p bucket) ≡ p.key_count
  unfolding seed_keys
  seed_keys_size bucket keyed no_field = ground arith

module _ {fl : FloatOps} {kb : KeyBits fl.F} (order : IsOrder fl) (canon : IsCanonical fl kb)
    (p : QueryPlan fl.F) (keyed : IsKeyed p) (grouping : is_scan p ≡ false) where
  seed-IsConsumed :
      (late : ℕ → Bool) (n i : ℕ) (bucket : ℤ) (x x' : Execution fl.F)
      → length p.groups ≡ 0
      → IsConsumed fl kb p x []
      → seed fl kb p late n i bucket x ≡ ok x'
      → IsConsumed fl kb p x' []
  unfolding seed
  seed-IsConsumed late zero i bucket x x' no_field h e =
      subst (λ y. IsConsumed fl kb p y []) (ok-eq-ok x x' e) h
  seed-IsConsumed late (suc n) i bucket x x' no_field h e =
      elim (Bool-cases (i % 256 == 0 && late i)) [
        | inl past ↦ absurd (let z = then_taken (i % 256 == 0 && late i) (err limit) _ past e in cc)
        | inr in_time ↦
            let q = else_taken (i % 256 == 0 && late i) (err limit) _ in_time e in
            let (found, g, rest) = >>=-ok (group_for fl kb p x (seed_keys fl kb p bucket)) _ q in
            let f =
              group_for-Finds order canon h.groups.grouped (seed_keys fl kb p bucket)
                (seed_keys_size fl kb p bucket keyed no_field) found.0 found.1 g in
            let (matched, stopped, quiet) =
              found_counts fl kb p x (seed_keys fl kb p bucket) found.0 found.1 f in
            seed-IsConsumed late n (i + 1) (bucket +ℤ pos p.bucket_width_us) found.1 x' no_field
              (record {
                groups =
                    IsReduced-found order canon keyed x (seed_keys fl kb p bucket) [] found.0
                      found.1 h.groups f;
                counted = matched ∙ h.counted;
                going = stopped ∙ h.going;
                quiet = quiet ∙ h.quiet;
              })
              rest
      ]

  seed_all-IsConsumed :
      (b : Buckets) (late : ℕ → Bool) (x x' : Execution fl.F)
      → IsConsumed fl kb p x []
      → seed_all fl kb p b late x ≡ ok x'
      → IsConsumed fl kb p x' []
  unfolding seed_all
  seed_all-IsConsumed b late x x' h e =
      elim (Bool-cases (is_scan p || not (length p.groups == 0))) [
        | inl no_field ↦
            subst (λ y. IsConsumed fl kb p y []) (ok-eq-ok x x' (then_taken _ (ok x) _ no_field e))
              h
        | inr seeded ↦
            let no_fields : length p.groups ≡ 0 = ground arith in
            seed-IsConsumed late _ 0 b.first_bucket x x' no_fields h
              (else_taken _ (ok x) _ seeded e)
      ]

  -- A query with aggregates that succeeds, on a plan whose memory is within its limit and whose number of
  -- keys is that of its key columns: there is a state whose groups are those of the rows of the scan; the
  -- rows of the result are the first groups, as many as the limit has, in an order of all groups by the
  -- column of the plan; and the rows that match are counted. The order of double is linear, and
  -- doubles that are equal have the same bits once a zero is made positive.
  pub query_execute_lem :
      (b : Buckets) (clock : Clock) (scanned : Scanned fl.F) (snapshot_sequence after : ℕ)
      (r : QueryResult fl.F)
      → p.allocated_bytes ≤ p.memory_limit_bytes
      → query_execute fl kb p b clock scanned snapshot_sequence after ≡ ok r
      → (x : Execution fl.F) × IsConsumed fl kb p x (map (λ r. r.1) scanned.rows)
        × (ks : List ℕ) × IsOrdering fl kb p x p.order ks
        × (r.rows
            ≡ rows_of fl kb p x
                (take (if ltb x.group_count p.limit then x.group_count else p.limit) ks))
        × (r.matched_rows ≡ matching fl kb p (map (λ r. r.1) scanned.rows))
  unfolding query_execute finish result_of
  query_execute_lem b clock scanned snapshot_sequence after r within e =
      let (used, c, e1) =
        >>=-ok
          (allocate p p.allocated_bytes
            (sizeof_query_result + length p.columns * sizeof_result_column))
          _ e in
      let ((_, fits), _) = allocate-Charged p p.allocated_bytes _ used within c in
      let (y, s, e2) =
        >>=-ok (seed_all fl kb p b clock.late_bucket (start_execution fl kb used after)) _ e1 in
      let seeded =
        seed_all-IsConsumed b clock.late_bucket _ y
          (start_execution-IsConsumed fl kb p used after fits) s in
      let (x, t, e3) = >>=-ok (consume_all fl kb p y scanned.rows) _ e2 in
      let consumed =
        consume_all-IsConsumed order canon p keyed grouping y [] scanned.rows x seeded t in
      let (z, f, e4) = >>=-ok (finish fl kb p clock scanned x) _ e3 in
      let (at_limit, _, f1) = >>=-ok (if x.stopped then ok false else scanned.ended) _ f in
      let (_, out) = reject-eq-ok at_limit limit _ f1 in
      let (ks, o, rows, matched) =
        emit_groups_lem fl kb p x clock.late_sort clock.late_row z order consumed.quiet
          (else_taken (is_scan p) (ok x) _ grouping out) in
      let same = ok-eq-ok _ r e4 in
      (
        x,
        consumed,
        ks,
        o,
        sym (ap (λ q. q.rows) same) ∙ rows,
        sym (ap (λ q. q.matched_rows) same) ∙ matched ∙ consumed.counted,
      )
