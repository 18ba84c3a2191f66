-- ===== src/Query/Rows/Consuming.antt =====
-- The rows that a query with aggregates consumes end up in its groups.
use webanalyticsdb.Prelude.{
  ℕ, ◌+◌, ◌-◌, ◌^◌, ◌≡◌, refl, sym, ap, subst, ◌∙◌, arith, true, false, List, [], ◌∷◌, ◌++◌, ◌==◌,
  Bool-cases, inl, inr, map, All,
}
use mathlib.Core.List.{append-nil, append_assoc}
use webanalyticsdb.Core.Status.{ok, ok-eq-ok, >>=-ok}
use webanalyticsdb.Query.Values.{FloatOps, Value}
use webanalyticsdb.Query.Values.Order.{IsOrder}
use webanalyticsdb.Query.Filters.{matches}
use webanalyticsdb.Query.Aggregates.{Aggregate, reduce}
use webanalyticsdb.Query.Execution.{QueryPlan, Execution, is_scan}
use webanalyticsdb.Query.Groups.{KeyBits, add_group, group_for}
use webanalyticsdb.Query.Groups.Keys.{IsCanonical}
use webanalyticsdb.Query.Groups.Finding.{Finds, group_for-Finds}
use webanalyticsdb.Query.Rows.{
  Row, row_keys, with_aggregates, consume_group, arrive, count_match, consume, consume_all,
}
use webanalyticsdb.Query.Rows.Grouping.{matching, Covered, IsReduced, matching_append}
use webanalyticsdb.Query.Rows.Members.{IsKeyed, row_keys_size}
use webanalyticsdb.Query.Rows.Reduced.{IsReduced-found, IsReduced-skip, IsReduced-add}

module _ (fl : FloatOps) (kb : KeyBits fl.F) (p : QueryPlan fl.F) where
  -- the groups are those of the rows, which are counted, and the query goes on
  pub record IsConsumed (x : Execution fl.F) (rows : List (Row fl kb)) : Type 0 where
    pub groups : IsReduced fl kb p x rows
    pub counted : x.matched_rows ≡ matching fl kb p rows
    pub going : x.stopped ≡ false
    pub quiet : x.rows ≡ []

  pub IsReduced-counted :
      (x : Execution fl.F) (rows : List (Row fl kb)) (sequence matched : ℕ)
      → IsReduced fl kb p x rows
      → IsReduced fl kb p (record x { last_sequence = sequence; matched_rows = matched }) rows
  IsReduced-counted x rows sequence matched h = record {
    grouped = record {
      index = h.grouped.index;
      room = h.grouped.room;
      few = h.grouped.few;
      within = h.grouped.within;
      held = h.grouped.held;
      hashed = h.grouped.hashed;
      sized = h.grouped.sized;
      distinct = h.grouped.distinct;
    };
    covered = same_covered rows h.covered;
    reduced = h.reduced;
  }
    where
      same_covered :
          (rows : List (Row fl kb))
          → All (Covered fl kb p x) rows
          → All
              (Covered fl kb p (record x { last_sequence = sequence; matched_rows = matched }))
              rows
      same_covered [] all = tt
      same_covered (row ∷ rows) (here, all) = (here, same_covered rows all)

  -- what a group that is found leaves as it was
  pub found_counts :
      (x : Execution fl.F) (keys : List (Value fl.F)) (k : ℕ) (x' : Execution fl.F)
      → Finds fl kb p x keys k x'
      → (x'.matched_rows ≡ x.matched_rows) × (x'.stopped ≡ x.stopped) × (x'.rows ≡ x.rows)
  unfolding add_group
  found_counts x keys k x' f = elim f.history [
    | inl same ↦ (ap (λ y. y.matched_rows) same, ap (λ y. y.stopped) same, ap (λ y. y.rows) same)
    | inr (_, _, (capacity, used, n, slots, same)) ↦
        (ap (λ y. y.matched_rows) same, ap (λ y. y.stopped) same, ap (λ y. y.rows) same)
  ]

module _ (fl : FloatOps) (kb : KeyBits fl.F) (p : QueryPlan fl.F) (rows : List (Row fl kb))
    (row : Row fl kb) where
  matching_skip :
      matches fl p.types p.filters row ≡ false
      → matching fl kb p (rows ++ (row ∷ [])) ≡ matching fl kb p rows
  unfolding matching
  matching_skip other = ground (arith, matching_append fl kb p rows row)

  matching_take :
      matches fl p.types p.filters row ≡ true
      → matching fl kb p (rows ++ (row ∷ [])) ≡ matching fl kb p rows + 1
  unfolding matching
  matching_take m = ground (arith, matching_append fl kb p rows row)

kept_counts :
    {F : Type 0} (x : Execution F) (k : ℕ) (aggregates : List (Aggregate F))
    → ((with_aggregates x k aggregates).matched_rows ≡ x.matched_rows)
      × ((with_aggregates x k aggregates).stopped ≡ x.stopped)
      × ((with_aggregates x k aggregates).rows ≡ x.rows)
unfolding with_aggregates
kept_counts x k aggregates = (refl, refl, refl)

module _ {fl : FloatOps} {kb : KeyBits fl.F} (order : IsOrder fl) (canon : IsCanonical fl kb)
    (p : QueryPlan fl.F) (keyed : IsKeyed p) (grouping : is_scan p ≡ false) where
  consume_group-IsReduced :
      (x : Execution fl.F) (rows : List (Row fl kb)) (row : Row fl kb) (x' : Execution fl.F)
      → IsReduced fl kb p x rows
      → matches fl p.types p.filters row ≡ true
      → consume_group fl kb p x row ≡ ok x'
      → IsReduced fl kb p x' (rows ++ (row ∷ []))
        × (x'.matched_rows ≡ x.matched_rows)
        × (x'.stopped ≡ x.stopped)
        × (x'.rows ≡ x.rows)
  unfolding consume_group
  consume_group-IsReduced x rows row x' h m e =
      let (keys, q, e1) = >>=-ok (row_keys fl kb p row) _ e in
      let (found, g, e2) = >>=-ok (group_for fl kb p x keys) _ e1 in
      let (aggregates, r, e3) =
        >>=-ok (reduce fl p.types row (found.1.groups found.0).aggregates) _ e2 in
      let f =
        group_for-Finds order canon h.grouped keys (row_keys_size fl kb p row keys keyed q) found.0
          found.1 g in
      let there = IsReduced-found order canon keyed x keys rows found.0 found.1 h f in
      let done =
        IsReduced-add order canon keyed found.1 rows row keys found.0 aggregates there m q f.inside
          f.same r in
      let (matched, stopped, quiet) = found_counts fl kb p x keys found.0 found.1 f in
      subst
        (λ y.
          IsReduced fl kb p y (rows ++ (row ∷ []))
          × (y.matched_rows ≡ x.matched_rows)
          × (y.stopped ≡ x.stopped)
          × (y.rows ≡ x.rows))
        (ok-eq-ok _ x' e3)
        (
          done,
          (kept_counts found.1 found.0 aggregates).0 ∙ matched,
          (kept_counts found.1 found.0 aggregates).1 ∙ stopped,
          (kept_counts found.1 found.0 aggregates).2 ∙ quiet,
        )

  pub consume-IsConsumed :
      (x : Execution fl.F) (rows : List (Row fl kb)) (sequence : ℕ) (row : Row fl kb)
      (x' : Execution fl.F)
      → IsConsumed fl kb p x rows
      → consume fl kb p x sequence row ≡ ok x'
      → IsConsumed fl kb p x' (rows ++ (row ∷ []))
  unfolding consume arrive count_match
  consume-IsConsumed x rows sequence row x' h e =
      elim (Bool-cases (matches fl p.types p.filters row)) [
        | inr other ↦
            let same = ok-eq-ok _ x' (rw other at e) in
            subst (λ y. IsConsumed fl kb p y (rows ++ (row ∷ []))) same
              (record {
                groups =
                    IsReduced-skip order canon keyed _ rows row
                      (IsReduced-counted fl kb p x rows sequence x.matched_rows h.groups) other;
                counted = h.counted ∙ sym (matching_skip fl kb p rows row other);
                going = h.going;
                quiet = h.quiet;
              })
        | inl m ↦ elim (Bool-cases (x.matched_rows == 2 ^ 64 - 1)) [
          | inl over ↦ absurd (let z = rw m at e in let w = rw over at z in cc)
          | inr room ↦
              let e1 = rw m at e in
              let e2 = rw room at e1 in
              let e3 = rw grouping at e2 in
              let (groups, matched, stopped, quiet) =
                consume_group-IsReduced (count_match x sequence) rows row x'
                  (IsReduced-counted fl kb p x rows sequence (x.matched_rows + 1) h.groups) m e3 in
              record {
                groups = groups;
                counted =
                    (let next : (count_match x sequence).matched_rows ≡ x.matched_rows + 1 = refl in
                      omega (arith, matched, h.counted, next, matching_take fl kb p rows row m));
                going = stopped ∙ h.going;
                quiet = quiet ∙ h.quiet;
              }
        ]
      ]

  -- From a state whose groups are those of some rows, a query with aggregates that consumes more rows
  -- without an error has the groups of all of them. The order of double is linear, doubles that are
  -- equal have the same bits once a zero is made positive, and the number of keys is that of the key
  -- columns of the plan.
  pub consume_all-IsConsumed :
      (x : Execution fl.F) (before : List (Row fl kb)) (rows : List (ℕ × Row fl kb))
      (x' : Execution fl.F)
      → IsConsumed fl kb p x before
      → consume_all fl kb p x rows ≡ ok x'
      → IsConsumed fl kb p x' (before ++ map (λ r. r.1) rows)
  unfolding consume_all
  consume_all-IsConsumed x before [] x' h e =
      subst (λ rs. IsConsumed fl kb p x' rs) (sym (append-nil before))
        (subst (λ y. IsConsumed fl kb p y before) (ok-eq-ok x x' e) h)
  consume_all-IsConsumed x before ((sequence, row) ∷ rows) x' h e =
      let (y, one, rest) = >>=-ok (consume fl kb p x sequence row) _ e in
      let now = consume-IsConsumed x before sequence row y h one in
      subst (λ rs. IsConsumed fl kb p x' rs) (append_assoc before (row ∷ []) (map (λ r. r.1) rows))
        (consume_all-IsConsumed y (before ++ (row ∷ [])) rows x' now (rw now.going at rest))
