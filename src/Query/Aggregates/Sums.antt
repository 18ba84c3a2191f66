-- ===== src/Query/Aggregates/Sums.antt =====
-- COUNT and SUM over a column: what they hold when the rows are through, and where they overflow.
use native.Mathlib.Decide.{dec_lt}
use webanalyticsdb.Prelude.{
  ℕ, zero, suc, ◌+◌, ◌-◌, ◌^◌, ◌≤◌, ◌<◌, ◌≡◌, refl, ◌↔◌, ◌⊎◌, inl, inr, true, false, List, [], ◌∷◌,
  ◌==◌, if◌then◌else◌, arith, Bool-cases, All, le→ltb-false, lt→ltb, length,
}
use webanalyticsdb.Prelude.Int.{ℤ, pos, negsuc, ◌≤ℤ◌, ◌+ℤ◌, ◌-ℤ◌}
use webanalyticsdb.Core.Status.{Result, ok, err, limit}
use webanalyticsdb.Core.Types.{FieldType, type_signed, type_float}
use webanalyticsdb.Query.Values.{FloatOps, Value}
use webanalyticsdb.Query.Aggregates.{
  Aggregate, sum, reduce_one, reduce_value, counts_all, fresh, add_value, not_null, signed_overflow,
  int64_min, int64_max,
}
use webanalyticsdb.Query.Aggregates.Folds.{reduce_column}

-- The non-null values of a column, and their sum.
abbrev pub present : {F : Type 0} → List (Value F) → ℕ
present [] = 0
present (v ∷ vs) = if v.is_null then present vs else suc (present vs)

abbrev pub total : {F : Type 0} → List (Value F) → ℕ
total [] = 0
total (v ∷ vs) = if v.is_null then total vs else v.u64 + total vs

-- An unsigned sum of n values so far that is s.
record IsSum {F : Type 0} (a : Aggregate F) (n s : ℕ) : Type 0 where
  op : a.op ≡ sum
  nonnull : a.nonnull ≡ n
  out : a.out.u64 ≡ s
  is_null : a.out.is_null ≡ (n == 0)
  empty : n ≡ 0 → s ≡ 0
  fits : s < 2 ^ 64

fresh-IsSum : (fl : FloatOps) (zero_f : fl.F) (field : ℕ) → IsSum (fresh fl zero_f sum field) 0 0
unfolding fresh
fresh-IsSum fl zero_f field = record {
  op = refl;
  nonnull = refl;
  out = refl;
  is_null = refl;
  empty = λ e. refl;
  fits = omega arith;
}

add_value-fits :
    (fl : FloatOps) (t : FieldType) (v out : Value fl.F)
    → type_float t ≡ false
    → type_signed t ≡ false
    → out.u64 + v.u64 < 2 ^ 64
    → add_value fl t v out ≡ ok (record out { u64 = out.u64 + v.u64 })
unfolding add_value
add_value-fits fl t v out f s h =
    rw (f, s, le→ltb-false (2 ^ 64 - 1 - out.u64) v.u64 (omega arith)) refl

add_value-limit :
    (fl : FloatOps) (t : FieldType) (v out : Value fl.F)
    → type_float t ≡ false
    → type_signed t ≡ false
    → out.u64 < 2 ^ 64
    → 2 ^ 64 ≤ out.u64 + v.u64
    → add_value fl t v out ≡ err limit
unfolding add_value
add_value-limit fl t v out f s b h =
    rw (f, s, lt→ltb (2 ^ 64 - 1 - out.u64) v.u64 (omega arith)) refl

module _ (fl : FloatOps) (t : FieldType) (float : type_float t ≡ false)
    (signed : type_signed t ≡ false) where
  reduce_one-IsSum :
      (v : Value fl.F) (a : Aggregate fl.F) (n s : ℕ)
      → IsSum a n s
      → v.is_null ≡ false
      → suc n < 2 ^ 64
      → s + v.u64 < 2 ^ 64
      → (a' : Aggregate fl.F) × (reduce_one fl t v a ≡ ok a') × IsSum a' (suc n) (s + v.u64)
  unfolding reduce_one reduce_value not_null counts_all
  reduce_one-IsSum v a zero s h nn small fits = (
    record a { nonnull = a.nonnull + 1; out = not_null fl v },
    ground (arith, h.nonnull, h.op),
    record {
      op = h.op;
      nonnull = omega (arith, h.nonnull);
      out = ground (arith, h.empty);
      is_null = refl;
      empty = ground arith;
      fits = fits;
    },
  )
  reduce_one-IsSum v a (suc m) s h nn small fits = (
    record a {
      nonnull = a.nonnull + 1;
      out = not_null fl (record a.out { u64 = a.out.u64 + v.u64 });
    },
    ground (arith, h.op, h.nonnull, add_value-fits fl t v a.out float signed),
    record {
      op = h.op;
      nonnull = omega (arith, h.nonnull);
      out = ground (arith, h.out);
      is_null = ground arith;
      empty = ground arith;
      fits = fits;
    },
  )

  reduce_one-overflow :
      (v : Value fl.F) (a : Aggregate fl.F) (n s : ℕ)
      → IsSum a n s
      → v.is_null ≡ false
      → suc n < 2 ^ 64
      → v.u64 < 2 ^ 64
      → 2 ^ 64 ≤ s + v.u64
      → reduce_one fl t v a ≡ err limit
  unfolding reduce_one reduce_value not_null counts_all
  reduce_one-overflow v a n s h nn small v64 over =
      ground
        (arith, h.op, h.nonnull, h.out, h.empty, add_value-limit fl t v a.out float signed, h.fits)

  reduce_one-null :
      (v : Value fl.F) (a : Aggregate fl.F)
      → a.op ≡ sum
      → v.is_null ≡ true
      → reduce_one fl t v a ≡ ok a
  unfolding reduce_one counts_all
  reduce_one-null v a h e = ground arith

  reduce_column-IsSum :
      (vs : List (Value fl.F)) (a : Aggregate fl.F) (n s n' s' : ℕ)
      → IsSum a n s
      → n + length vs < 2 ^ 64
      → s' < 2 ^ 64
      → n' ≡ n + present vs
      → s' ≡ s + total vs
      → (a' : Aggregate fl.F) × (reduce_column fl t vs a ≡ ok a') × IsSum a' n' s'
  unfolding reduce_column
  reduce_column-IsSum [] a n s n' s' h small fits en es = (
    a,
    refl,
    record {
      op = h.op;
      nonnull = omega (arith, h.nonnull);
      out = omega (arith, h.out);
      is_null = ground (arith, h.is_null);
      empty = ground (arith, h.empty);
      fits = fits;
    },
  )
  reduce_column-IsSum (v ∷ vs) a n s n' s' h small fits en es = elim (Bool-cases v.is_null) [
    | inl e ↦
        rw (reduce_one-null v a h.op e)
          (reduce_column-IsSum vs a n s n' s' h (omega arith) fits (ground arith) (ground arith))
    | inr e ↦
        let (a1, q, h1) = reduce_one-IsSum v a n s h e (ground arith) (ground arith) in
        rw q (
          reduce_column-IsSum vs a1 (suc n) (s + v.u64) n' s' h1 (omega arith) fits (ground arith)
            (ground arith))
  ]

  reduce_column-overflow :
      (vs : List (Value fl.F)) (a : Aggregate fl.F) (n s : ℕ)
      → IsSum a n s
      → All (λ v. v.u64 < 2 ^ 64) vs
      → n + length vs < 2 ^ 64
      → 2 ^ 64 ≤ s + total vs
      → reduce_column fl t vs a ≡ err limit
  unfolding reduce_column
  reduce_column-overflow [] a n s h ws small over = absurd (omega (arith, h.fits))
  reduce_column-overflow (v ∷ vs) a n s h (w, ws) small over = elim (Bool-cases v.is_null) [
    | inl e ↦
        rw (reduce_one-null v a h.op e)
          (reduce_column-overflow vs a n s h ws (omega arith) (ground arith))
    | inr e ↦ elim (dec_lt (s + v.u64) (2 ^ 64)) [
      | yes l ↦
          let (a1, q, h1) = reduce_one-IsSum v a n s h e (omega arith) l in
          rw q (reduce_column-overflow vs a1 (suc n) (s + v.u64) h1 ws (omega arith) (ground arith))
      | no l ↦ rw (reduce_one-overflow v a n s h e (omega arith) w (omega arith)) refl
    ]
  ]

-- What SUM over an unsigned column promises of the outcome m: the exact sum, or an overflow.
abbrev pub SumsTo : {F : Type 0} → List (Value F) → Result (Aggregate F) → Type 0
SumsTo {F = F} vs m =
    ((total vs < 2 ^ 64)
      × (a : Aggregate F) × (m ≡ ok a)
      × (a.out.u64 ≡ total vs)
      × (a.nonnull ≡ present vs)
      × (a.out.is_null ≡ (present vs == 0)))
    ⊎ ((2 ^ 64 ≤ total vs) × (m ≡ err limit))

-- SUM over a column of unsigned 64-bit values, of fewer than 2^64 rows: where the exact sum of the
-- values that are not null fits in 64 bits the aggregate holds it, with their number, and is null
-- where there is none; otherwise the query fails with LIMIT.
pub reduce_column-SumsTo :
    (fl : FloatOps) (zero_f : fl.F) (t : FieldType) (field : ℕ) (vs : List (Value fl.F))
    → type_float t ≡ false
    → type_signed t ≡ false
    → All (λ v. v.u64 < 2 ^ 64) vs
    → length vs < 2 ^ 64
    → SumsTo vs (reduce_column fl t vs (fresh fl zero_f sum field))
reduce_column-SumsTo fl zero_f t field vs f s ws small =
    let start : IsSum (fresh fl zero_f sum field) 0 0 = fresh-IsSum fl zero_f field in
    elim (dec_lt (total vs) (2 ^ 64)) [
      | yes fits ↦
          let (a, q, h) =
            reduce_column-IsSum fl t f s vs _ 0 0 (present vs) (total vs) start (omega arith) fits
              (omega arith) (omega arith) in
          inl (fits, a, q, h.out, h.nonnull, h.is_null)
      | no over ↦ inr (
        omega arith,
        reduce_column-overflow fl t f s vs _ 0 0 start ws (omega arith) (omega arith),
      )
    ]

-- The two tests before a signed sum refuse exactly the sums that leave 64 bits.
pub signed_overflow_iff :
    (out v : ℤ)
    → (int64_min ≤ℤ out)
    → (out ≤ℤ int64_max)
    → (int64_min ≤ℤ v)
    → (v ≤ℤ int64_max)
    → (signed_overflow out v ≡ false) ↔ ((int64_min ≤ℤ out +ℤ v) × (out +ℤ v ≤ℤ int64_max))
unfolding signed_overflow ◌+ℤ◌ ◌-ℤ◌
signed_overflow_iff (pos x) (pos y) a b c d = ground arith
signed_overflow_iff (pos x) (negsuc y) a b c d = ground arith
signed_overflow_iff (negsuc x) (pos y) a b c d = ground arith
signed_overflow_iff (negsuc x) (negsuc y) a b c d = ground arith
