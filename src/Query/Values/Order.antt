-- ===== src/Query/Values/Order.antt =====
-- The order of values: total on each type, with null behind all other values.
use webanalyticsdb.Prelude.{
  ℕ, zero, suc, ◌≡◌, ◌≢◌, refl, ◌⊎◌, arith, Bool, true, false, List, [], ◌∷◌, ltb, if◌then◌else◌,
  length, take,
}
use webanalyticsdb.Core.Types.{FieldType}
use webanalyticsdb.Query.Values.{
  FloatOps, Value, Cmp, less, equal, greater, from_tests, memcmp, or_length, bytes_compare,
  value_compare,
}

abbrev pub flip : Cmp → Cmp
flip less = greater
flip equal = equal
flip greater = less

from_tests-flip : (g l : Bool) → from_tests l g ≡ flip (from_tests g l)
unfolding from_tests
from_tests-flip true true = refl
from_tests-flip true false = refl
from_tests-flip false true = refl
from_tests-flip false false = refl

-- The order of texts as dictionaries have it: by the first byte that differs, a prefix first.
unfoldable pub lexicographic : List ℕ → List ℕ → Cmp
lexicographic [] [] = equal
lexicographic [] (y ∷ q) = less
lexicographic (x ∷ p) [] = greater
lexicographic (x ∷ p) (y ∷ q) =
    let rest = lexicographic p q in if ltb x y then less else if ltb y x then greater else rest

lexicographic_prefix :
    (p q : List ℕ) (n : ℕ)
    → n ≡ (if ltb (length p) (length q) then length p else length q)
    → or_length (memcmp (take n p) (take n q)) p q ≡ lexicographic p q
unfolding or_length memcmp lexicographic
lexicographic_prefix [] [] zero e = refl
lexicographic_prefix [] [] (suc n) e = absurd (ground arith)
lexicographic_prefix [] (y ∷ q) zero e = ground arith
lexicographic_prefix [] (y ∷ q) (suc n) e = absurd (ground arith)
lexicographic_prefix (x ∷ p) [] zero e = ground arith
lexicographic_prefix (x ∷ p) [] (suc n) e = absurd (ground arith)
lexicographic_prefix (x ∷ p) (y ∷ q) zero e = absurd (ground arith)
lexicographic_prefix (x ∷ p) (y ∷ q) (suc n) e =
    ground (arith, lexicographic_prefix p q n (ground arith))

-- The comparison of texts by memcmp over the shorter length, then by length, is the
-- lexicographic order, a prefix first.
pub bytes_compare-lexicographic : (p q : List ℕ) → bytes_compare p q ≡ lexicographic p q
unfolding bytes_compare
bytes_compare-lexicographic p q = lexicographic_prefix p q _ refl

lexicographic-flip : (p q : List ℕ) → lexicographic q p ≡ flip (lexicographic p q)
unfolding lexicographic
lexicographic-flip [] [] = refl
lexicographic-flip [] (y ∷ q) = refl
lexicographic-flip (x ∷ p) [] = refl
lexicographic-flip (x ∷ p) (y ∷ q) = ground (arith, lexicographic-flip p q)

bytes_compare-flip : (p q : List ℕ) → bytes_compare q p ≡ flip (bytes_compare p q)
bytes_compare-flip p q =
    rw (bytes_compare-lexicographic q p, bytes_compare-lexicographic p q) (lexicographic-flip p q)

-- Exchanging the arguments of the comparison reverses its sign, for every field type.
pub value_compare-flip :
    (fl : FloatOps) (t : FieldType) (a b : Value fl.F)
    → value_compare fl t b a ≡ flip (value_compare fl t a b)
unfolding value_compare
value_compare-flip fl t a b = ground (arith, bytes_compare-flip a.bytes b.bytes)

lexicographic_trans :
    (p q r : List ℕ)
    → lexicographic p q ≢ greater
    → lexicographic q r ≢ greater
    → lexicographic p r ≢ greater
unfolding lexicographic
lexicographic_trans [] q [] h k = ground arith
lexicographic_trans [] q (z ∷ r) h k = ground arith
lexicographic_trans (x ∷ p) [] r h k = absurd (h refl)
lexicographic_trans (x ∷ p) (y ∷ q) [] h k = absurd (k refl)
lexicographic_trans (x ∷ p) (y ∷ q) (z ∷ r) h k = ground (arith, lexicographic_trans p q r)

bytes_trans :
    (p q r : List ℕ)
    → bytes_compare p q ≢ greater
    → bytes_compare q r ≢ greater
    → bytes_compare p r ≢ greater
bytes_trans p q r =
    rw
      (
        bytes_compare-lexicographic p q,
        bytes_compare-lexicographic q r,
        bytes_compare-lexicographic p r,
      )
      (lexicographic_trans p q r)

-- What the order of double is on the numbers that are stored: never both ways, and
-- of two ordered numbers, one is on the far side of any third.
pub record IsOrder (fl : FloatOps) : Type 0 where
  pub asym : (x y : fl.F) → fl.less x y ≡ true → fl.less y x ≡ false
  pub linear : (x y z : fl.F) → fl.less x z ≡ true → fl.less x y ≡ true ⊎ fl.less y z ≡ true

-- Where the order of double is linear, the comparison is transitive for every field type.
pub value_compare_trans :
    (fl : FloatOps)
    → IsOrder fl
    → (t : FieldType) (a b c : Value fl.F) → value_compare fl t a b ≢ greater
    → value_compare fl t b c ≢ greater
    → value_compare fl t a c ≢ greater
unfolding value_compare from_tests
value_compare_trans fl order t a b c h k = ground (
  arith,
  bytes_trans a.bytes b.bytes c.bytes,
  order.asym b.f64 a.f64,
  order.asym c.f64 b.f64,
  order.linear c.f64 b.f64 a.f64,
)
