-- ===== src/Query/Values/Meaning.antt =====
-- query/plan.c: what `wadb_value_compare` compares for each type.
use webanalyticsdb.Prelude.{
  ℕ, ◌<◌, ◌≡◌, ◌≢◌, refl, ap, sym, ◌∙◌, ◌⊎◌, inl, inr, ◌↔◌, arith, Bool, true, false, List, [], ◌∷◌,
  ◌++◌, ltb, Bool-cases,
}
use webanalyticsdb.Prelude.Int.{ℤ, ◌≤ℤ◌, ltb_ℤ}
use webanalyticsdb.Core.Types.{
  FieldType, i8, u8, i16, u16, i32, u32, i64, u64, f32, f64, bool, timestamp_us, uuid, bytes, text,
  symbol32, type_bytes, type_signed, type_float,
}
use webanalyticsdb.Query.Values.{
  FloatOps, Value, less, greater, from_tests, bytes_compare, value_compare,
}
use webanalyticsdb.Query.Values.Order.{
  IsOrder, lexicographic, bytes_compare-lexicographic, value_compare-flip, flip,
}

-- The first of two texts has ended, or its next byte is the smaller one.
abbrev pub Precedes : List ℕ → List ℕ → Type 0
Precedes [] [] = ⊥
Precedes [] (y ∷ q) = Unit {0}
Precedes (x ∷ p) [] = ⊥
Precedes (x ∷ p) (y ∷ q) = x < y

-- Behind what they have in common, the first text precedes the second.
abbrev pub IsBelow : List ℕ → List ℕ → Type 0
IsBelow p q =
    (r : List ℕ) × (p' : List ℕ) × (q' : List ℕ) × (p ≡ r ++ p') × (q ≡ r ++ q') × Precedes p' q'

lexicographic-IsBelow : (p q : List ℕ) → lexicographic p q ≡ less → IsBelow p q
unfolding lexicographic
lexicographic-IsBelow [] [] h = absurd (ground arith)
lexicographic-IsBelow [] (y ∷ q) h = ([], [], y ∷ q, refl, refl, tt)
lexicographic-IsBelow (x ∷ p) [] h = absurd (ground arith)
lexicographic-IsBelow (x ∷ p) (y ∷ q) h = elim (Bool-cases (ltb x y)) [
  | inl lt ↦ ([], x ∷ p, y ∷ q, refl, refl, ground arith)
  | inr ge ↦
      let rest : lexicographic p q ≡ less = ground arith in
      let same : x ≡ y = ground arith in
      let (r, p', q', e, e', before) = lexicographic-IsBelow p q rest in
      (x ∷ r, p', q', ap (◌∷◌ x) e, ap (λ z. z ∷ q) (sym same) ∙ ap (◌∷◌ x) e', before)
]

precedes_lem : (p q : List ℕ) → Precedes p q → lexicographic p q ≡ less
unfolding lexicographic
precedes_lem [] [] h = absurd h
precedes_lem [] (y ∷ q) h = refl
precedes_lem (x ∷ p) [] h = absurd h
precedes_lem (x ∷ p) (y ∷ q) h = ground arith

lexicographic-common : (r p q : List ℕ) → lexicographic (r ++ p) (r ++ q) ≡ lexicographic p q
unfolding lexicographic
lexicographic-common [] p q = refl
lexicographic-common (x ∷ r) p q = ground (arith, lexicographic-common r p q)

bytes_compare_iff : (p q : List ℕ) → (bytes_compare p q ≡ less) ↔ IsBelow p q
bytes_compare_iff p q = (
  λ h. lexicographic-IsBelow p q (sym (bytes_compare-lexicographic p q) ∙ h),
  λ (r, p', q', e, e', before).
      bytes_compare-lexicographic p q
      ∙ rw (e, e') (lexicographic-common r p' q' ∙ precedes_lem p' q' before),
)

-- Two values that are present, in the order of their type: texts, symbols and other bytes as
-- `IsBelow` says, signed numbers and times as integers, floats as doubles, the rest as unsigned.
abbrev pub IsSmaller : (fl : FloatOps) → FieldType → Value fl.F → Value fl.F → Type 0
IsSmaller fl t a b = elim t [
  | uuid ↦ IsBelow a.bytes b.bytes
  | bytes ↦ IsBelow a.bytes b.bytes
  | text ↦ IsBelow a.bytes b.bytes
  | symbol32 ↦ IsBelow a.bytes b.bytes
  | i8 ↦ ¬ (b.i64 ≤ℤ a.i64)
  | i16 ↦ ¬ (b.i64 ≤ℤ a.i64)
  | i32 ↦ ¬ (b.i64 ≤ℤ a.i64)
  | i64 ↦ ¬ (b.i64 ≤ℤ a.i64)
  | timestamp_us ↦ ¬ (b.i64 ≤ℤ a.i64)
  | f32 ↦ fl.less a.f64 b.f64 ≡ true
  | f64 ↦ fl.less a.f64 b.f64 ≡ true
  | _ ↦ a.u64 < b.u64
]

-- A value that is present comes before a null.
abbrev pub ComesBefore : (fl : FloatOps) → FieldType → Value fl.F → Value fl.F → Type 0
ComesBefore fl t a b =
    (a.is_null ≡ false) × ((b.is_null ≡ true) ⊎ ((b.is_null ≡ false) × IsSmaller fl t a b))

module _ (fl : FloatOps) (order : IsOrder fl) where
  from_tests-less : (g l : Bool) → (l ≡ true → g ≡ false) → (from_tests g l ≡ less) ↔ (l ≡ true)
  unfolding from_tests
  from_tests-less true true h = absurd (let e = h refl in cc)
  from_tests-less true false h = ground arith
  from_tests-less false true h = ground arith
  from_tests-less false false h = ground arith

  unsigned_iff : (x y : ℕ) → (from_tests (ltb y x) (ltb x y) ≡ less) ↔ (x < y)
  unfolding from_tests
  unsigned_iff x y = (λ h. ground arith, λ h. ground arith)

  signed_iff : (x y : ℤ) → (from_tests (ltb_ℤ y x) (ltb_ℤ x y) ≡ less) ↔ (¬ (y ≤ℤ x))
  unfolding from_tests
  signed_iff x y = (λ h k. ground arith, λ h. ground arith)

  float_iff : (x y : fl.F) → (from_tests (fl.less y x) (fl.less x y) ≡ less) ↔ (fl.less x y ≡ true)
  float_iff x y = from_tests-less (fl.less y x) (fl.less x y) (order.asym x y)

  present_iff :
      (t : FieldType) (a b : Value fl.F)
      → a.is_null ≡ false
      → b.is_null ≡ false
      → (value_compare fl t a b ≡ less) ↔ IsSmaller fl t a b
  unfolding value_compare type_bytes type_signed type_float
  present_iff uuid a b h k = rw (h, k) (bytes_compare_iff a.bytes b.bytes)
  present_iff bytes a b h k = rw (h, k) (bytes_compare_iff a.bytes b.bytes)
  present_iff text a b h k = rw (h, k) (bytes_compare_iff a.bytes b.bytes)
  present_iff symbol32 a b h k = rw (h, k) (bytes_compare_iff a.bytes b.bytes)
  present_iff i8 a b h k = rw (h, k) (signed_iff a.i64 b.i64)
  present_iff i16 a b h k = rw (h, k) (signed_iff a.i64 b.i64)
  present_iff i32 a b h k = rw (h, k) (signed_iff a.i64 b.i64)
  present_iff i64 a b h k = rw (h, k) (signed_iff a.i64 b.i64)
  present_iff timestamp_us a b h k = rw (h, k) (signed_iff a.i64 b.i64)
  present_iff f32 a b h k = rw (h, k) (float_iff a.f64 b.f64)
  present_iff f64 a b h k = rw (h, k) (float_iff a.f64 b.f64)
  present_iff u8 a b h k = rw (h, k) (unsigned_iff a.u64 b.u64)
  present_iff u16 a b h k = rw (h, k) (unsigned_iff a.u64 b.u64)
  present_iff u32 a b h k = rw (h, k) (unsigned_iff a.u64 b.u64)
  present_iff u64 a b h k = rw (h, k) (unsigned_iff a.u64 b.u64)
  present_iff bool a b h k = rw (h, k) (unsigned_iff a.u64 b.u64)

  null_first : (t : FieldType) (a b : Value fl.F) → a.is_null ≡ true → value_compare fl t a b ≢ less
  unfolding value_compare from_tests
  null_first t a b null h = ground arith

  null_last :
      (t : FieldType) (a b : Value fl.F)
      → a.is_null ≡ false
      → b.is_null ≡ true
      → value_compare fl t a b ≡ less
  unfolding value_compare from_tests
  null_last t a b present null = ground arith

  less_iff :
      (t : FieldType) (a b : Value fl.F) → (value_compare fl t a b ≡ less) ↔ ComesBefore fl t a b
  less_iff t a b = elim (Bool-cases a.is_null) [
    | inl null ↦ (λ h. absurd (null_first t a b null h), λ h. absurd (let e = sym null ∙ h.0 in cc))
    | inr present ↦ elim (Bool-cases b.is_null) [
      | inl null ↦ (λ h. (present, inl null), λ h. null_last t a b present null)
      | inr here ↦ (
        λ h. (present, inr (here, (present_iff t a b present here).0 h)),
        λ (_, h). elim h [
          | inl null ↦ absurd (let e = sym null ∙ here in cc)
          | inr (_, smaller) ↦ (present_iff t a b present here).1 smaller
        ],
      )
    ]
  ]

  -- Values compare as less exactly where the first is present and the second is a null or larger in
  -- the order of their type, and as greater exactly where that holds the other way around: bytes from
  -- the first that differs on, a prefix before what it begins, signed numbers and times as integers,
  -- floats as doubles and the rest as unsigned numbers. The order of double is linear.
  pub value_compare_iff :
      (t : FieldType) (a b : Value fl.F)
      → ((value_compare fl t a b ≡ less) ↔ ComesBefore fl t a b)
        × ((value_compare fl t a b ≡ greater) ↔ ComesBefore fl t b a)
  value_compare_iff t a b = (
    less_iff t a b,
    (
      λ h. (less_iff t b a).0 (value_compare-flip fl t a b ∙ ap flip h),
      λ h. value_compare-flip fl t b a ∙ ap flip ((less_iff t b a).1 h),
    ),
  )
