-- ===== src/Query/Aggregates.antt =====
-- query/query.c: `reduce`, which adds a row to the aggregates of a group. An aggregate of a group is
-- `aggregates[i]` with `nonnull[i]` and the reduction of the plan. On an error the query fails and its
-- groups are freed, so an error keeps no aggregates.
pub mod Folds
pub mod Sums
pub mod Extremes
use webanalyticsdb.Prelude.{
  ℕ, suc, ◌+◌, ◌-◌, ◌^◌, ◌≡◌, Bool, true, false, not, ◌||◌, ◌&&◌, List, [], ◌∷◌, ltb, ◌==◌,
  if◌then◌else◌,
}
use webanalyticsdb.Prelude.Int.{ℤ, pos, negsuc, ◌+ℤ◌, ◌-ℤ◌, ltb_ℤ}
use webanalyticsdb.Core.Status.{Result, ok, err, limit, ◌>>=◌}
use webanalyticsdb.Core.Types.{FieldType, type_signed, type_float}
use webanalyticsdb.Query.Values.{FloatOps, Value, Cmp, less, equal, greater, value_compare}

pub data AggregateOp : Type 0 where
  count_all count sum min max avg : AggregateOp

pub record Aggregate (F : Type 0) : Type 0 where
  pub op : AggregateOp
  pub field : ℕ
  pub nonnull : ℕ
  pub out : Value F

abbrev pub int64_max : ℤ
int64_max = pos (2 ^ 63 - 1)

abbrev pub int64_min : ℤ
int64_min = negsuc (2 ^ 63 - 1)

unfoldable pub counts_all : AggregateOp → Bool
counts_all count_all = true
counts_all _ = false

-- op > WADB_COUNT
unfoldable pub after_count : AggregateOp → Bool
after_count count_all = false
after_count count = false
after_count _ = true

unfoldable pub takes_min : AggregateOp → Cmp → Bool
takes_min min less = true
takes_min max greater = true
takes_min _ _ = false

-- The two tests before a signed sum.
unfoldable pub signed_overflow : ℤ → ℤ → Bool
unfolding ◌-ℤ◌
signed_overflow out v =
    (ltb_ℤ (pos 0) v && ltb_ℤ (int64_max -ℤ v) out)
    || (ltb_ℤ v (pos 0) && ltb_ℤ out (int64_min -ℤ v))

module _ (fl : FloatOps) where
  -- (double)v, by the type of the field
  unfoldable pub as_double : FieldType → Value fl.F → fl.F
  as_double t v =
      if type_float t then v.f64 else if type_signed t then fl.of_i64 v.i64 else fl.of_u64 v.u64

  -- The running mean, where n rows count with this one.
  unfoldable pub mean : ℕ → fl.F → fl.F → fl.F
  mean n out x =
      if n == 1
      then x
      else fl.add (fl.mul out (fl.div (fl.of_u64 (n - 1)) (fl.of_u64 n))) (fl.div x (fl.of_u64 n))

  unfoldable pub add_value : FieldType → Value fl.F → Value fl.F → Result (Value fl.F)
  add_value t v out =
      if type_float t
      then (let total = fl.add out.f64 v.f64 in
          if fl.is_finite total then ok (record out { f64 = total }) else err limit)
      else if type_signed t
      then (if signed_overflow out.i64 v.i64
          then err limit
          else ok (record out { i64 = out.i64 +ℤ v.i64 }))
      else if ltb (2 ^ 64 - 1 - out.u64) v.u64
      then err limit
      else ok (record out { u64 = out.u64 + v.u64 })

  unfoldable pub not_null : Value fl.F → Value fl.F
  not_null v = record v { is_null = false }

  -- The new value, where n values count with v.
  unfoldable pub reduce_value :
      AggregateOp → FieldType → ℕ → Value fl.F → Value fl.F → Result (Value fl.F)
  unfolding not_null mean as_double takes_min
  reduce_value count_all t n v out = ok (record out { u64 = n })
  reduce_value count t n v out = ok (record out { u64 = n })
  reduce_value avg t n v out =
      let total = mean n out.f64 (as_double t v) in
      if fl.is_finite total then ok (record out { f64 = total; is_null = false }) else err limit
  reduce_value sum t n v out =
      if n == 1 then ok (not_null v) else add_value t v out >>= λ total. ok (not_null total)
  reduce_value op t n v out =
      if n == 1
      then ok (not_null v)
      else if takes_min op (value_compare fl t v out)
      then ok (not_null v)
      else ok (not_null out)

  -- One turn of the loop over the aggregates.
  unfoldable pub reduce_one : FieldType → Value fl.F → Aggregate fl.F → Result (Aggregate fl.F)
  unfolding counts_all
  reduce_one t v a =
      if not (counts_all a.op) && v.is_null
      then ok a
      else if a.nonnull == 2 ^ 64 - 1
      then err limit
      else reduce_value a.op t (a.nonnull + 1) v a.out >>= λ out.
          ok (record a { nonnull = a.nonnull + 1; out = out })

  unfoldable pub reduce :
      (ℕ → FieldType) → (ℕ → Value fl.F) → List (Aggregate fl.F) → Result (List (Aggregate fl.F))
  reduce types values [] = ok []
  reduce types values (a ∷ rest) = reduce_one (types a.field) (values a.field) a >>= λ a'.
      reduce types values rest >>= λ rest'. ok (a' ∷ rest')

  -- `g->aggregates[i].is_null = p->aggregates[i].op > WADB_COUNT` in a group of zeros
  unfoldable pub fresh : fl.F → AggregateOp → ℕ → Aggregate fl.F
  unfolding after_count
  fresh zero_f op field = record {
    op = op;
    field = field;
    nonnull = 0;
    out = record { is_null = after_count op; i64 = pos 0; u64 = 0; f64 = zero_f; bytes = [] };
  }

  -- The rows that the scan hands to the group, one after the other.
  unfoldable pub reduce_rows :
      (ℕ → FieldType)
      → List (ℕ → Value fl.F)
      → List (Aggregate fl.F)
      → Result (List (Aggregate fl.F))
  reduce_rows types [] group = ok group
  reduce_rows types (row ∷ rows) group =
      reduce types row group >>= λ group'. reduce_rows types rows group'
