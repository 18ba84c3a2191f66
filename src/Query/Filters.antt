-- ===== src/Query/Filters.antt =====
-- query/query.c: `matches`, the test of a row against the filters of a plan. The program compiles
-- a filter only onto a field of the table, so the values and the types are functions of the field.
use webanalyticsdb.Prelude.{
  ℕ, ◌≡◌, ◌≢◌, ◌↔◌, Bool, true, false, not, List, [], ◌∷◌, if◌then◌else◌, arith, All,
}
use webanalyticsdb.Core.Types.{FieldType}
use webanalyticsdb.Query.Values.{FloatOps, Value, Cmp, less, equal, greater, value_compare}

pub data FilterOp : Type 0 where
  eq ne lt le gt ge is_null is_not_null : FilterOp

pub record Predicate (F : Type 0) : Type 0 where
  pub field : ℕ
  pub op : FilterOp
  pub value : Value F

-- `yes`, from the sign of the comparison.
unfoldable pub accepts : FilterOp → Cmp → Bool
accepts eq equal = true
accepts eq _ = false
accepts ne equal = false
accepts ne _ = true
accepts lt less = true
accepts lt _ = false
accepts le greater = false
accepts le _ = true
accepts gt greater = true
accepts gt _ = false
accepts _ less = false
accepts _ _ = true

module _ (fl : FloatOps) (types : ℕ → FieldType) where
  -- One turn of the loop: true where it continues.
  unfoldable pub passes : Predicate fl.F → Value fl.F → Bool
  passes f v = elim f.op [
    | is_null ↦ v.is_null
    | is_not_null ↦ not v.is_null
    | op ↦ if v.is_null then false else accepts op (value_compare fl (types f.field) v f.value)
  ]

  unfoldable pub matches : List (Predicate fl.F) → (ℕ → Value fl.F) → Bool
  matches [] values = true
  matches (f ∷ fs) values =
      let rest = matches fs values in if not (passes f (values f.field)) then false else rest

-- What a filter asks of the order of a value and its operand.
abbrev Asks : FilterOp → Cmp → Type 0
Asks eq c = c ≡ equal
Asks ne c = c ≢ equal
Asks lt c = c ≡ less
Asks le c = c ≢ greater
Asks gt c = c ≡ greater
Asks ge c = c ≢ less
Asks is_null c = Unit {0}
Asks is_not_null c = Unit {0}

-- A value satisfies a filter: a null value only the test for null.
abbrev pub Satisfies :
    (fl : FloatOps) → (ℕ → FieldType) → (ℕ → Value fl.F) → Predicate fl.F → Type 0
Satisfies fl types values f = elim f.op [
  | is_null ↦ (values f.field).is_null ≡ true
  | op ↦
      ((values f.field).is_null ≡ false)
      × Asks op (value_compare fl (types f.field) (values f.field) f.value)
]

passes_iff :
    (fl : FloatOps) (types : ℕ → FieldType) (f : Predicate fl.F) (values : ℕ → Value fl.F)
    → (passes fl types f (values f.field) ≡ true) ↔ Satisfies fl types values f
unfolding passes accepts
passes_iff fl types f values =
    elim f.op
      as (λ op.
        (passes fl types (record f { op = op }) (values f.field) ≡ true)
        ↔ Satisfies fl types values (record f { op = op })) [
          | is_null ↦ ground arith
          | is_not_null ↦ ground arith
          | eq ↦ ground arith
          | ne ↦ ground arith
          | lt ↦ ground arith
          | le ↦ ground arith
          | gt ↦ ground arith
          | ge ↦ ground arith
        ]

-- A row matches exactly where its values satisfy every filter.
pub matches_iff :
    (fl : FloatOps) (types : ℕ → FieldType) (fs : List (Predicate fl.F)) (values : ℕ → Value fl.F)
    → (matches fl types fs values ≡ true) ↔ All (Satisfies fl types values) fs
unfolding matches
matches_iff fl types [] values = ground arith
matches_iff fl types (f ∷ fs) values =
    ground (arith, passes_iff fl types f values, matches_iff fl types fs values)
