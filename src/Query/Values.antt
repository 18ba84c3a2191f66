-- ===== src/Query/Values.antt =====
-- query/plan.c: values and `wadb_value_compare`. The members of the union are fields of their own: the
-- code reads the one that the type selects. The C type double and its operations are a parameter.
pub mod Meaning
pub mod Order
use webanalyticsdb.Prelude.{
  ℕ, ◌≡◌, Bool, true, false, ◌||◌, List, [], ◌∷◌, ltb, if◌then◌else◌, length, take,
}
use webanalyticsdb.Prelude.Int.{ℤ, ltb_ℤ}
use webanalyticsdb.Core.Types.{FieldType, type_bytes, type_signed, type_float}

-- The type double: its order, its arithmetic and the conversions to it.
pub record FloatOps : Type 1 where
  pub F : Type 0
  pub less : F → F → Bool
  pub add : F → F → F
  pub mul : F → F → F
  pub div : F → F → F
  pub is_finite : F → Bool
  pub of_i64 : ℤ → F
  pub of_u64 : ℕ → F

pub record Value (F : Type 0) : Type 0 where
  pub is_null : Bool
  pub i64 : ℤ
  pub u64 : ℕ
  pub f64 : F
  pub bytes : List ℕ

-- The sign of the int that the comparison returns.
pub data Cmp : Type 0 where
  less equal greater : Cmp

-- (x > y) - (x < y), from its two tests.
unfoldable pub from_tests : Bool → Bool → Cmp
from_tests true true = equal
from_tests true false = greater
from_tests false true = less
from_tests false false = equal

-- The sign of memcmp on two buffers of one length.
unfoldable pub memcmp : List ℕ → List ℕ → Cmp
memcmp [] q = equal
memcmp (x ∷ p) [] = equal
memcmp (x ∷ p) (y ∷ q) =
    let rest = memcmp p q in if ltb x y then less else if ltb y x then greater else rest

unfoldable pub or_length : Cmp → List ℕ → List ℕ → Cmp
unfolding from_tests
or_length less p q = less
or_length greater p q = greater
or_length equal p q = from_tests (ltb (length q) (length p)) (ltb (length p) (length q))

unfoldable pub bytes_compare : List ℕ → List ℕ → Cmp
unfolding memcmp or_length
bytes_compare p q =
    let n = if ltb (length p) (length q) then length p else length q in
    or_length (memcmp (take n p) (take n q)) p q

module _ (fl : FloatOps) where
  unfoldable pub value_compare : FieldType → Value fl.F → Value fl.F → Cmp
  unfolding from_tests
  value_compare t a b =
      if a.is_null || b.is_null
      then from_tests a.is_null b.is_null
      else if type_bytes t
      then bytes_compare a.bytes b.bytes
      else if type_signed t
      then from_tests (ltb_ℤ b.i64 a.i64) (ltb_ℤ a.i64 b.i64)
      else if type_float t
      then from_tests (fl.less b.f64 a.f64) (fl.less a.f64 b.f64)
      else from_tests (ltb b.u64 a.u64) (ltb a.u64 b.u64)
