-- ===== src/Query/Aggregates/Extremes.antt =====
-- MIN and MAX over a column: the aggregate is one of the values and none of them is beyond it.
use webanalyticsdb.Prelude.{
  ℕ, suc, ◌+◌, ◌^◌, ◌<◌, ◌≡◌, ◌≢◌, refl, ◌∙◌, ap, ◌⊎◌, inl, inr, Bool, true, false, List, [], ◌∷◌,
  if◌then◌else◌, arith, Bool-cases, All, length,
}
use webanalyticsdb.Core.Status.{ok}
use webanalyticsdb.Core.Types.{FieldType}
use webanalyticsdb.Query.Values.{FloatOps, Value, less, greater, value_compare}
use webanalyticsdb.Query.Values.Order.{IsOrder, value_compare-flip, value_compare_trans}
use webanalyticsdb.Query.Aggregates.{
  Aggregate, AggregateOp, min, max, reduce_one, reduce_value, counts_all, fresh, after_count,
  not_null, takes_min,
}
use webanalyticsdb.Query.Aggregates.Folds.{reduce_column}

abbrev pub extreme_op : Bool → AggregateOp
extreme_op lowest = if lowest then min else max

-- x is not beyond v: not above it for MIN, not below it for MAX.
abbrev pub Bounds : (fl : FloatOps) → Bool → FieldType → Value fl.F → Value fl.F → Type 0
Bounds fl lowest t x v =
    if lowest then value_compare fl t x v ≢ greater else value_compare fl t x v ≢ less

-- One of the values of a column, as it stands in a row.
abbrev pub Occurs : {F : Type 0} → Value F → List (Value F) → Type 0
Occurs x [] = ⊥
Occurs x (v ∷ vs) = (x ≡ v) ⊎ Occurs x vs

-- What MIN or MAX promises of the outcome m: null where no value is present, otherwise a value of the
-- column that bounds all that are present.
abbrev pub IsExtreme : (fl : FloatOps) → Bool → FieldType → List (Value fl.F) → Value fl.F → Type 0
IsExtreme fl lowest t vs x =
    ((x.is_null ≡ true) × All (λ v. v.is_null ≡ true) vs)
    ⊎ ((x.is_null ≡ false)
        × Occurs x vs
        × All (λ v. (v.is_null ≡ true) ⊎ Bounds fl lowest t x v) vs)

module _ (fl : FloatOps) (order : IsOrder fl) (lowest : Bool) (t : FieldType) where
  Bounds-trans :
      (a b c : Value fl.F)
      → Bounds fl lowest t a b
      → Bounds fl lowest t b c
      → Bounds fl lowest t a c
  Bounds-trans a b c h k =
      elim lowest as (λ l. Bounds fl l t a b → Bounds fl l t b c → Bounds fl l t a c) [
        | true ↦ value_compare_trans fl order t a b c
        | false ↦ λ h k. ground (
          arith,
          value_compare_trans fl order t c b a,
          value_compare-flip fl t a b,
          value_compare-flip fl t b c,
          value_compare-flip fl t a c,
        )
      ]
        h k

  -- The value that is kept of the old and the new one.
  better : Value fl.F → Value fl.F → Value fl.F
  better out v = if takes_min (extreme_op lowest) (value_compare fl t v out) then v else out

  better-cases : (out v : Value fl.F) → (better out v ≡ v) ⊎ (better out v ≡ out)
  unfolding better
  better-cases out v =
      elim (Bool-cases (takes_min (extreme_op lowest) (value_compare fl t v out))) [
        | inl e ↦ inl (rw e refl)
        | inr e ↦ inr (rw e refl)
      ]

  better-present :
      (out v : Value fl.F)
      → out.is_null ≡ false
      → v.is_null ≡ false
      → (better out v).is_null ≡ false
  better-present out v h k = elim (better-cases out v) [
    | inl p ↦ ap (λ x. x.is_null) p ∙ k
    | inr p ↦ ap (λ x. x.is_null) p ∙ h
  ]

  better-Bounds :
      (out v : Value fl.F)
      → Bounds fl lowest t (better out v) out × Bounds fl lowest t (better out v) v
  unfolding better takes_min
  better-Bounds out v = ground (
    arith,
    value_compare-flip fl t out out,
    value_compare-flip fl t v v,
    value_compare-flip fl t out v,
  )

  reduce_one-better :
      (v : Value fl.F) (a : Aggregate fl.F) (n : ℕ)
      → a.op ≡ extreme_op lowest
      → a.nonnull ≡ suc n
      → suc (suc n) < 2 ^ 64
      → v.is_null ≡ false
      → a.out.is_null ≡ false
      → reduce_one fl t v a ≡ ok (record a { nonnull = suc (suc n); out = better a.out v })
  unfolding reduce_one reduce_value counts_all not_null better
  reduce_one-better v a n o e small nv na = ground arith

  reduce_one-first :
      (v : Value fl.F) (a : Aggregate fl.F)
      → a.op ≡ extreme_op lowest
      → a.nonnull ≡ 0
      → v.is_null ≡ false
      → reduce_one fl t v a ≡ ok (record a { nonnull = 1; out = v })
  unfolding reduce_one reduce_value counts_all not_null
  reduce_one-first v a o e nv = ground arith

  reduce_one-null :
      (v : Value fl.F) (a : Aggregate fl.F)
      → a.op ≡ extreme_op lowest
      → v.is_null ≡ true
      → reduce_one fl t v a ≡ ok a
  unfolding reduce_one counts_all
  reduce_one-null v a o e = ground arith

  -- From an aggregate that holds a value.
  reduce_column-held :
      (vs : List (Value fl.F)) (a : Aggregate fl.F) (n : ℕ)
      → a.op ≡ extreme_op lowest
      → a.nonnull ≡ suc n
      → suc (suc n) + length vs < 2 ^ 64
      → a.out.is_null ≡ false
      → (a' : Aggregate fl.F) × (reduce_column fl t vs a ≡ ok a')
        × (a'.out.is_null ≡ false)
        × Occurs a'.out (a.out ∷ vs)
        × Bounds fl lowest t a'.out a.out
        × All (λ v. (v.is_null ≡ true) ⊎ Bounds fl lowest t a'.out v) vs
  unfolding reduce_column
  reduce_column-held [] a n o e small na =
      (a, refl, na, inl refl, ground (arith, value_compare-flip fl t a.out a.out), tt)
  reduce_column-held (v ∷ vs) a n o e small na = elim (Bool-cases v.is_null) [
    | inl z ↦
        let (a', q, nn, occ, b, bs) = reduce_column-held vs a n o e (omega arith) na in
        rw (reduce_one-null v a o z)
          (a', q, nn, elim occ [ inl x ↦ inl x | inr y ↦ inr (inr y) ], b, (inl z, bs))
    | inr z ↦
        let (a', q, nn, occ, b, bs) =
          reduce_column-held vs (record a { nonnull = suc (suc n); out = better a.out v }) (suc n) o
            refl (ground arith) (better-present a.out v na z) in
        let (b1, b2) = better-Bounds a.out v in
        rw (reduce_one-better v a n o e (omega arith) z na) (
          a',
          q,
          nn,
          elim (better-cases a.out v) [
            | inl p ↦ elim occ [ inl x ↦ inr (inl (x ∙ p)) | inr y ↦ inr (inr y) ]
            | inr p ↦ elim occ [ inl x ↦ inl (x ∙ p) | inr y ↦ inr (inr y) ]
          ],
          Bounds-trans _ _ _ b b1,
          (inr (Bounds-trans _ _ _ b b2), bs),
        )
  ]

  reduce_column-empty :
      (vs : List (Value fl.F)) (a : Aggregate fl.F)
      → a.op ≡ extreme_op lowest
      → a.nonnull ≡ 0
      → suc (length vs) < 2 ^ 64
      → a.out.is_null ≡ true
      → (a' : Aggregate fl.F) × (reduce_column fl t vs a ≡ ok a') × IsExtreme fl lowest t vs a'.out
  unfolding reduce_column
  reduce_column-empty [] a o e small na = (a, refl, inl (na, tt))
  reduce_column-empty (v ∷ vs) a o e small na = elim (Bool-cases v.is_null) [
    | inl z ↦
        let (a', q, h) = reduce_column-empty vs a o e (omega arith) na in
        rw (reduce_one-null v a o z) (
          a',
          q,
          elim h [ inl (x, y) ↦ inl (x, (z, y)) | inr (x, occ, y) ↦ inr (x, inr occ, (inl z, y)) ],
        )
    | inr z ↦
        let (a', q, nn, occ, b, bs) =
          reduce_column-held vs (record a { nonnull = 1; out = v }) 0 o refl (omega arith) z in
        rw (reduce_one-first v a o e z) (a', q, inr (nn, occ, (inr b, bs)))
  ]

-- MIN (lowest) and MAX over a column of fewer than 2^64 - 1 rows do not fail; the aggregate is null
-- where no value is present, otherwise it is a value of the column, and no value that is present is
-- below it for MIN, above it for MAX. The order of double is linear on its numbers.
pub reduce_column-IsExtreme :
    (fl : FloatOps) (zero_f : fl.F)
    → IsOrder fl
    → (lowest : Bool) (t : FieldType) (field : ℕ) (vs : List (Value fl.F))
    → suc (length vs) < 2 ^ 64
    → (a : Aggregate fl.F) × (reduce_column fl t vs (fresh fl zero_f (extreme_op lowest) field)
        ≡ ok a)
      × IsExtreme fl lowest t vs a.out
unfolding fresh after_count
reduce_column-IsExtreme fl zero_f order lowest t field vs small =
    reduce_column-empty fl order lowest t vs _ refl refl small ground arith
