-- ===== src/Query/Output.antt =====
-- query/query.c: `compare_groups` and `emit_groups`, which puts the groups in order and gives the first
-- of them as rows. The readings of the clock in its two loops are `late_sort` and `late_row`.
pub mod Order
pub mod Emitted
use webanalyticsdb.Prelude.{
  ℕ, zero, suc, ◌+◌, ◌-◌, ◌*◌, ◌%◌, Bool, true, false, not, ◌&&◌, List, [], ◌∷◌, ◌++◌, ltb, ◌==◌,
  if◌then◌else◌, length, map, take, get_or, Option, none, some,
}
use webanalyticsdb.Prelude.Int.{pos}
use webanalyticsdb.Core.Status.{Result, ok, err, limit, ◌>>=◌}
use webanalyticsdb.Core.Types.{FieldType, u64}
use webanalyticsdb.Query.Values.{
  FloatOps, Value, Cmp, less, equal, greater, from_tests, value_compare,
}
use webanalyticsdb.Query.Values.Order.{flip}
use webanalyticsdb.Query.Aggregates.{Aggregate}
use webanalyticsdb.Query.Execution.{ResultColumn, QueryPlan, Group, Execution, allocate, result_row}
use webanalyticsdb.Query.Groups.{KeyBits}
use webanalyticsdb.Query.Sorting.{passes}

-- Descending turns the order of the values, but null stays last.
unfoldable pub directed : {F : Type 0} → Bool → Value F → Value F → Cmp → Cmp
directed descending a b c = if not a.is_null && not b.is_null && descending then flip c else c

-- Groups with equal values keep their order.
unfoldable pub or_position : Cmp → ℕ → ℕ → Cmp
or_position less a b = less
or_position greater a b = greater
or_position equal a b = from_tests (ltb b a) (ltb a b)

unfoldable pub not_greater : Cmp → Bool
not_greater greater = false
not_greater _ = true

-- The numbers from i on.
unfoldable pub numbers : ℕ → ℕ → List ℕ
numbers zero i = []
numbers (suc n) i = i ∷ numbers n (suc i)

abbrev sizeof_size_t : ℕ
sizeof_size_t = 8

unfoldable pub with_used : {F : Type 0} → Execution F → ℕ → Execution F
with_used x used = record x { used = used }

module _ (fl : FloatOps) (kb : KeyBits fl.F) where
  -- What stands for a column that the plan does not have.
  abbrev no_value : Value fl.F
  no_value = record { is_null = true; i64 = pos 0; u64 = 0; f64 = kb.zero; bytes = [] }

  abbrev aggregate_value : Aggregate fl.F → Value fl.F
  aggregate_value a = a.out

  -- The keys and then the aggregates: the row of a group.
  unfoldable pub group_row : Group fl.F → List (Value fl.F)
  group_row g = g.keys ++ map aggregate_value g.aggregates

  unfoldable pub group_value : QueryPlan fl.F → ℕ → Group fl.F → Value fl.F
  group_value p col g =
      if ltb col p.key_count
      then get_or g.keys col no_value
      else get_or (map aggregate_value g.aggregates) (col - p.key_count) no_value

  unfoldable pub column_type : QueryPlan fl.F → ℕ → FieldType
  column_type p col = get_or (map (λ (c : ResultColumn). c.type) p.columns) col u64

  unfoldable pub compare_groups : QueryPlan fl.F → (ℕ → Group fl.F) → ℕ → ℕ → ℕ → Cmp
  compare_groups p groups col a b =
      let va = group_value p col (groups a) in
      let vb = group_value p col (groups b) in
      or_position (directed p.descending va vb (value_compare fl (column_type p col) va vb)) a b

  unfoldable pub group_le : QueryPlan fl.F → (ℕ → Group fl.F) → ℕ → ℕ → ℕ → Bool
  unfolding compare_groups not_greater
  group_le p groups col a b = not_greater (compare_groups p groups col a b)

  unfoldable pub ordered : QueryPlan fl.F → Execution fl.F → (ℕ → Bool) → Option ℕ → Result (List ℕ)
  unfolding numbers group_le passes
  ordered p x late_sort none = ok (numbers x.group_count 0)
  ordered p x late_sort (some col) =
      passes (group_le p x.groups col) late_sort x.group_count x.group_count 1 0
        (numbers x.group_count 0)

  unfoldable pub emit_rows :
      QueryPlan fl.F → Execution fl.F → (ℕ → Bool) → ℕ → List ℕ → Result (Execution fl.F)
  unfolding group_row
  emit_rows p x late_row i [] = ok x
  emit_rows p x late_row i (k ∷ ks) =
      if i % 256 == 0 && late_row i
      then err limit
      else (result_row p x (group_row (x.groups k)) 0 >>= λ x'. emit_rows p x' late_row (i + 1) ks)

  unfoldable pub emit_groups :
      QueryPlan fl.F → Execution fl.F → (ℕ → Bool) → (ℕ → Bool) → Result (Execution fl.F)
  unfolding with_used
  emit_groups p x late_sort late_row =
      if x.group_count == 0
      then ok x
      else (allocate p x.used (x.group_count * 2 * sizeof_size_t) >>= λ used.
          ordered p x late_sort p.order >>= λ order.
          emit_rows p (with_used x used) late_row 0
            (take (if ltb x.group_count p.limit then x.group_count else p.limit) order))
