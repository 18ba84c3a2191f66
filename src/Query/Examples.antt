-- ===== src/Query/Examples.antt =====
-- The query engine at concrete values: three rows of a table with an unsigned and a text field, with
-- the type double taken as the natural numbers.
use webanalyticsdb.Prelude.{
  ℕ, ◌+◌, ◌*◌, ◌≡◌, ◌≢◌, refl, ◌↔◌, true, false, List, [], ◌∷◌, All, arith, ltb, if◌then◌else◌,
}
use webanalyticsdb.Prelude.Int.{ℤ, pos, negsuc, pos_part, ◌≤ℤ◌, ◌+ℤ◌, leb_ℤ}
use webanalyticsdb.Core.Status.{ok, err, limit}
use webanalyticsdb.Core.Types.{u64, text, type_bytes, type_signed, type_float}
use webanalyticsdb.Query.Bucket.{bucket_floor, IsBucket, bucket_floor_lem}
use webanalyticsdb.Query.Values.{FloatOps, Value, less, greater, value_compare}
use webanalyticsdb.Query.Values.Order.{IsOrder}
use webanalyticsdb.Query.Values.Meaning.{ComesBefore, value_compare_iff}
use webanalyticsdb.Query.Filters.{Predicate, matches, Satisfies, matches_iff, ge, is_not_null}
use webanalyticsdb.Query.Aggregates.{
  Aggregate, sum, count, fresh, reduce_rows, signed_overflow, int64_min, int64_max,
}
use webanalyticsdb.Query.Aggregates.Folds.{reduce_column, columns, reduce_rows-columns}
use webanalyticsdb.Query.Aggregates.Sums.{reduce_column-SumsTo, SumsTo, signed_overflow_iff}
use webanalyticsdb.Query.Aggregates.Extremes.{reduce_column-IsExtreme, IsExtreme, extreme_op}

abbrev numbers : FloatOps
numbers = record {
  F = ℕ;
  less = ltb;
  add = λ x y. x + y;
  mul = λ x y. x * y;
  div = λ x y. x;
  is_finite = λ x. true;
  of_i64 = λ x. pos_part x;
  of_u64 = λ x. x;
}

numbers-IsOrder : IsOrder numbers
numbers-IsOrder = record { asym = λ x y h. ground arith; linear = λ x y z h. ground arith }

abbrev number : ℕ → Value ℕ
number n = record { is_null = false; i64 = pos 0; u64 = n; f64 = 0; bytes = [] }

abbrev null : Value ℕ
null = record { is_null = true; i64 = pos 0; u64 = 0; f64 = 0; bytes = [] }

compare_1_2 : value_compare numbers u64 (number 1) (number 2) ≢ greater
unfolding value_compare type_bytes type_signed type_float
compare_1_2 = ground arith

compare_2_null : value_compare numbers u64 (number 2) null ≢ greater
unfolding value_compare
compare_2_null = ground arith

bucket_floor_lem_example :
    (start : ℤ) × IsBucket (negsuc 6) 5 (pos 1) start
    × (bucket_floor (negsuc 6) 5 (pos 1) ≡ (if leb_ℤ int64_min start then ok start else err limit))
bucket_floor_lem_example = bucket_floor_lem (negsuc 6) 5 (pos 1) (omega arith)

abbrev at_least_two : List (Predicate ℕ)
at_least_two =
    record { field = 1; op = ge; value = number 2 }
    ∷ record { field = 1; op = is_not_null; value = null }
    ∷ []

matches_iff_example :
    (matches numbers (λ i. u64) at_least_two (λ i. number 3) ≡ true)
    ↔ All (Satisfies numbers (λ i. u64) (λ i. number 3)) at_least_two
matches_iff_example = matches_iff numbers (λ i. u64) at_least_two (λ i. number 3)

abbrev three_rows : List (ℕ → Value ℕ)
three_rows = (λ i. number 4) ∷ (λ i. null) ∷ (λ i. number (i + 3)) ∷ []

abbrev group : List (Aggregate ℕ)
group = fresh numbers 0 sum 1 ∷ fresh numbers 0 count 1 ∷ []

reduce_rows-columns_example :
    reduce_rows numbers (λ i. u64) three_rows group ≡ columns numbers (λ i. u64) three_rows group
reduce_rows-columns_example = reduce_rows-columns numbers (λ i. u64) three_rows group

abbrev values : List (Value ℕ)
values = number 4 ∷ null ∷ number 3 ∷ []

u64_not_float : type_float u64 ≡ false
unfolding type_float
u64_not_float = refl

u64_not_signed : type_signed u64 ≡ false
unfolding type_signed
u64_not_signed = refl

reduce_column-SumsTo_example :
    SumsTo values (reduce_column numbers u64 values (fresh numbers 0 sum 1))
reduce_column-SumsTo_example =
    reduce_column-SumsTo numbers 0 u64 1 values u64_not_float u64_not_signed (omega arith)
      (omega arith)

signed_overflow_iff_example :
    (signed_overflow int64_max (pos 1) ≡ false)
    ↔ ((int64_min ≤ℤ int64_max +ℤ pos 1) × (int64_max +ℤ pos 1 ≤ℤ int64_max))
signed_overflow_iff_example =
    signed_overflow_iff int64_max (pos 1) (omega arith) (omega arith) (omega arith) (omega arith)

reduce_column-IsExtreme_example :
    (a : Aggregate ℕ) × (reduce_column numbers u64 values (fresh numbers 0 (extreme_op true) 1)
      ≡ ok a)
    × IsExtreme numbers true u64 values a.out
reduce_column-IsExtreme_example =
    reduce_column-IsExtreme numbers 0 numbers-IsOrder true u64 1 values (omega arith)

abbrev text_of : List ℕ → Value ℕ
text_of p = record { is_null = false; i64 = pos 0; u64 = 0; f64 = 0; bytes = p }

-- "ab" and "ac"
value_compare_iff_example :
    ((value_compare numbers text (text_of (97 ∷ 98 ∷ [])) (text_of (97 ∷ 99 ∷ [])) ≡ less)
      ↔ ComesBefore numbers text (text_of (97 ∷ 98 ∷ [])) (text_of (97 ∷ 99 ∷ [])))
    × ((value_compare numbers text (text_of (97 ∷ 98 ∷ [])) (text_of (97 ∷ 99 ∷ [])) ≡ greater)
        ↔ ComesBefore numbers text (text_of (97 ∷ 99 ∷ [])) (text_of (97 ∷ 98 ∷ [])))
value_compare_iff_example =
    value_compare_iff numbers numbers-IsOrder text (text_of (97 ∷ 98 ∷ [])) (text_of (97 ∷ 99 ∷ []))
