-- ===== src/Query/Run/Examples.antt =====
-- A query at concrete values: the number of rows for each value of field 1, of three rows, with the
-- type double taken as the natural numbers.
use webanalyticsdb.Prelude.{
  ℕ, ◌+◌, ◌*◌, ◌≡◌, refl, arith, Bool, true, false, List, [], ◌∷◌, ◌++◌, not, map, take, some, ltb,
  if◌then◌else◌, ◌==◌, ◌⊎◌,
}
use mathlib.Core.List.{Perm}
use webanalyticsdb.Prelude.Int.{pos, pos_part}
use webanalyticsdb.Core.Status.{Result, ok, err, limit, nomem, reject}
use webanalyticsdb.Core.Types.{u64, type_bytes, type_signed, type_float}
use webanalyticsdb.Core.Checksum.{hash}
use webanalyticsdb.Query.Values.{FloatOps, Value, value_compare}
use webanalyticsdb.Query.Values.Order.{IsOrder}
use webanalyticsdb.Query.Filters.{matches}
use webanalyticsdb.Query.Aggregates.{
  count_all, reduce, reduce_one, fresh, reduce_value, counts_all, not_null, mean, as_double,
}
use webanalyticsdb.Query.Execution.{
  QueryPlan, Execution, is_scan, charge, allocate, copy_value, copy_values, result_row, row_room,
  add_row,
}
use webanalyticsdb.Query.Groups.{
  KeyBits, group_for, group_room, slot_room, add_group, hash_key, key_bits, hash_from, same_keys,
}
use webanalyticsdb.Query.Groups.Keys.{IsCanonical}
use webanalyticsdb.Query.Rows.{consume_all, consume, row_keys, bucket_keys}
use webanalyticsdb.Query.Output.{
  emit_groups, ordered, emit_rows, compare_groups, group_value, column_type, group_row, directed,
  or_position, not_greater,
}
use webanalyticsdb.Slots.{probe, walk, walk_from, next_slot, put_at, no_entry, no_slots}
use webanalyticsdb.Query.Rows.Grouping.{matching}
use webanalyticsdb.Query.Rows.Members.{IsKeyed}
use webanalyticsdb.Query.Rows.Consuming.{IsConsumed, consume_all-IsConsumed}
use webanalyticsdb.Query.Rows.Failing.{consume_all-IsExhausted}
use webanalyticsdb.Query.Sorting.{passes}
use webanalyticsdb.Query.Sorting.Laws.{sort_return}
use webanalyticsdb.Query.Sorting.Merged.{Ascending, IsTotal}
use webanalyticsdb.Query.Output.Emitted.{IsOrdering, rows_of}
use webanalyticsdb.Query.Run.{Buckets, Scanned, Clock, QueryResult, start_execution, query_execute}
use webanalyticsdb.Query.Run.Whole.{start_execution-IsConsumed, query_execute_lem}

abbrev naturals : FloatOps
naturals = record {
  F = ℕ;
  less = ltb;
  add = λ x y. x + y;
  mul = λ x y. x * y;
  div = λ x y. x;
  is_finite = λ x. true;
  of_i64 = λ x. pos_part x;
  of_u64 = λ x. x;
}

naturals-IsOrder : IsOrder naturals
naturals-IsOrder = record { asym = λ x y h. ground arith; linear = λ x y z h. ground arith }

abbrev natural_bits : KeyBits ℕ
natural_bits = record { zero = 0; is_zero = λ x. x == 0; bits = λ x. x }

natural_bits-IsCanonical : IsCanonical naturals natural_bits
natural_bits-IsCanonical = record { same = λ x y h k. ground arith }

abbrev counting : QueryPlan ℕ
counting = record {
  types = λ i. u64;
  filters = [];
  projection = [];
  groups = 1 ∷ [];
  aggregates = record { field = 0; op = count_all } ∷ [];
  columns = record { name = 107 ∷ []; type = u64 } ∷ record { name = 110 ∷ []; type = u64 } ∷ [];
  key_count = 1;
  allocated_bytes = 100;
  order = some 1;
  bucket_width_us = 0;
  bucket_origin_us = pos 0;
  max_groups = 10;
  memory_limit_bytes = 100000;
  limit = 5;
  descending = true;
  allocates = λ used n. true;
}

counting-IsKeyed : IsKeyed counting
counting-IsKeyed = refl

counting_groups : is_scan counting ≡ false
unfolding is_scan
counting_groups = refl

abbrev row_of : ℕ → ℕ → Value ℕ
row_of n i = record { is_null = false; i64 = pos 0; u64 = n; f64 = 0; bytes = [] }

abbrev three_rows : Scanned ℕ
three_rows = record { rows = (1, row_of 7) ∷ (2, row_of 4) ∷ (3, row_of 4) ∷ []; ended = ok false }

abbrev in_time : Clock
in_time = record { late_bucket = λ i. false; late_sort = λ i. false; late_row = λ i. false }

abbrev no_buckets : Buckets
no_buckets = record { first_bucket = pos 0; bucket_count = 0 }

result_or : QueryResult ℕ → Result (QueryResult ℕ) → QueryResult ℕ
result_or q (ok r) = r
result_or q (err s) = q

abbrev nothing : QueryResult ℕ
nothing = record {
  rows = [];
  sequences = [];
  matched_rows = 0;
  total_groups = 0;
  has_more = false;
  limit_reached = false;
  last_sequence = 0;
}

abbrev counted : QueryResult ℕ
counted =
    result_or nothing
      (query_execute naturals natural_bits counting no_buckets in_time three_rows 3 0)

-- the value 4 is there twice, and comes first
counted_ok :
    query_execute naturals natural_bits counting no_buckets in_time three_rows 3 0 ≡ ok counted
unfolding result_or query_execute charge allocate consume matches row_keys bucket_keys group_for
    reject group_room slot_room copy_values copy_value type_bytes reduce add_group reduce_one fresh
    reduce_value hash_key key_bits hash_from hash same_keys value_compare result_row row_room
    add_row emit_groups ordered emit_rows compare_groups group_value column_type group_row not_null
    mean as_double counts_all probe walk walk_from next_slot put_at no_entry no_slots directed
    or_position not_greater type_signed type_float
counted_ok = refl

query_execute_lem_example :
    (x : Execution ℕ) × IsConsumed naturals natural_bits counting x (map (λ r. r.1) three_rows.rows)
    × (ks : List ℕ) × IsOrdering naturals natural_bits counting x counting.order ks
    × (counted.rows
        ≡ rows_of naturals natural_bits counting x
            (take (if ltb x.group_count 5 then x.group_count else 5) ks))
    × (counted.matched_rows
        ≡ matching naturals natural_bits counting (map (λ r. r.1) three_rows.rows))
query_execute_lem_example =
    query_execute_lem naturals-IsOrder natural_bits-IsCanonical counting counting-IsKeyed
      counting_groups no_buckets in_time three_rows 3 0 counted (omega arith) counted_ok

abbrev idle : Execution ℕ
idle = start_execution naturals natural_bits 100 0

state_or : Execution ℕ → Result (Execution ℕ) → Execution ℕ
state_or x (ok y) = y
state_or x (err s) = x

abbrev reduced : Execution ℕ
reduced = state_or idle (consume_all naturals natural_bits counting idle three_rows.rows)

reduced_ok : consume_all naturals natural_bits counting idle three_rows.rows ≡ ok reduced
unfolding state_or start_execution consume_all charge allocate consume matches row_keys bucket_keys
    group_for reject group_room slot_room copy_values copy_value type_bytes reduce add_group
    reduce_one fresh reduce_value hash_key key_bits hash_from hash same_keys value_compare
    result_row row_room add_row emit_groups ordered emit_rows compare_groups group_value column_type
    group_row not_null mean as_double counts_all probe walk walk_from next_slot put_at no_entry
    no_slots directed or_position not_greater type_signed type_float
reduced_ok = refl

consume_all-IsConsumed_example :
    IsConsumed naturals natural_bits counting reduced ([] ++ map (λ r. r.1) three_rows.rows)
consume_all-IsConsumed_example =
    consume_all-IsConsumed naturals-IsOrder natural_bits-IsCanonical counting counting-IsKeyed
      counting_groups idle [] three_rows.rows reduced
      (start_execution-IsConsumed naturals natural_bits counting 100 0 (omega arith)) reduced_ok

-- a state that has used all but four bytes of the memory has no room for a group
abbrev full : Execution ℕ
full = start_execution naturals natural_bits 99996 0

full_err : consume_all naturals natural_bits counting full three_rows.rows ≡ err limit
unfolding start_execution consume_all charge allocate consume matches row_keys bucket_keys group_for
    reject group_room slot_room copy_values copy_value type_bytes reduce add_group reduce_one fresh
    reduce_value hash_key key_bits hash_from hash same_keys value_compare result_row row_room
    add_row emit_groups ordered emit_rows compare_groups group_value column_type group_row not_null
    mean as_double counts_all probe walk walk_from next_slot put_at no_entry no_slots directed
    or_position not_greater type_signed type_float
full_err = refl

consume_all-IsExhausted_example : (limit ≡ limit) ⊎ (limit ≡ nomem)
consume_all-IsExhausted_example =
    consume_all-IsExhausted naturals-IsOrder natural_bits-IsCanonical counting counting-IsKeyed
      counting_groups full [] three_rows.rows limit
      (start_execution-IsConsumed naturals natural_bits counting 99996 0 (omega arith)) full_err

abbrev at_most : ℕ → ℕ → Bool
at_most a b = not (ltb b a)

at_most-IsTotal : IsTotal at_most
at_most-IsTotal = record { total = λ a b h. ground arith; trans = λ a b c h k. ground arith }

sort_return_example :
    (ys : List ℕ) × (passes at_most (λ j. false) 3 3 1 0 (9 ∷ 2 ∷ 4 ∷ []) ≡ ok ys)
    × Ascending at_most ys
    × Perm ys (9 ∷ 2 ∷ 4 ∷ [])
sort_return_example = sort_return at_most (λ j. false) (9 ∷ 2 ∷ 4 ∷ []) at_most-IsTotal (λ j. refl)
