-- ===== src/Query/Groups/Keys.antt =====
-- Keys that compare equal: an equivalence, whose classes have one hash.
use mathlib.Core.Path.{ap₂}
use webanalyticsdb.Core.Bytes.{le_bytes}
use webanalyticsdb.Core.Checksum.{hash}
use webanalyticsdb.Prelude.{
  ℕ, ◌≡◌, ◌≢◌, refl, sym, ap, ◌∙◌, arith, Bool, true, false, ◌&&◌, List, [], ◌∷◌, if◌then◌else◌,
  length, Bool-cases, inl, inr,
}
use webanalyticsdb.Prelude.Int.{ℤ, pos, negsuc, ltb_ℤ}
use webanalyticsdb.Core.Bytes.{from_i64}
use webanalyticsdb.Core.Types.{FieldType, type_bytes, type_signed, type_float}
use webanalyticsdb.Query.Values.{
  FloatOps, Value, Cmp, less, equal, greater, value_compare, from_tests, bytes_compare,
}
use webanalyticsdb.Query.Values.Order.{
  flip, IsOrder, value_compare-flip, value_compare_trans, bytes_compare-lexicographic,
  lexicographic,
}
use webanalyticsdb.Query.Execution.{ResultColumn}
use webanalyticsdb.Query.Groups.{
  KeyBits, is_equal, hash_bits, key_bits, hash_key, hash_from, same_keys,
}

is_equal-true : (c : Cmp) → is_equal c ≡ true → c ≡ equal
unfolding is_equal
is_equal-true equal h = refl
is_equal-true less h = cc
is_equal-true greater h = cc

from_tests-equal : (g l : Bool) → from_tests g l ≡ equal → g ≡ l
unfolding from_tests
from_tests-equal true true h = refl
from_tests-equal false false h = refl
from_tests-equal true false h = cc
from_tests-equal false true h = cc

lexicographic-equal : (p q : List ℕ) → lexicographic p q ≡ equal → p ≡ q
unfolding lexicographic
lexicographic-equal [] [] h = refl
lexicographic-equal [] (y ∷ q) h = cc
lexicographic-equal (x ∷ p) [] h = cc
lexicographic-equal (x ∷ p) (y ∷ q) h = ground (arith, lexicographic-equal p q)

squeeze : (c d : Cmp) → c ≢ greater → d ≢ greater → d ≡ flip c → c ≡ equal
squeeze equal d up down e = refl
squeeze less d up down e = absurd (down e)
squeeze greater d up down e = absurd (up refl)

module _ {fl : FloatOps} (order : IsOrder fl) (t : FieldType) where
  compare_equal_sym :
      (a b : Value fl.F) → value_compare fl t a b ≡ equal → value_compare fl t b a ≡ equal
  compare_equal_sym a b h = value_compare-flip fl t a b ∙ ap flip h

  compare_equal_trans :
      (a b c : Value fl.F)
      → value_compare fl t a b ≡ equal
      → value_compare fl t b c ≡ equal
      → value_compare fl t a c ≡ equal
  compare_equal_trans a b c h k =
      let up : value_compare fl t a c ≢ greater =
        value_compare_trans fl order t a b c (λ z. let w = sym h ∙ z in cc)
          (λ z. let w = sym k ∙ z in cc) in
      let down : value_compare fl t c a ≢ greater =
        value_compare_trans fl order t c b a (λ z. let w = sym (compare_equal_sym b c k) ∙ z in cc)
          (λ z. let w = sym (compare_equal_sym a b h) ∙ z in cc) in
      squeeze _ _ up down (value_compare-flip fl t a c)

-- Two doubles, neither of which is less, have the same bits once a zero is made 0.0.
pub record IsCanonical (fl : FloatOps) (kb : KeyBits fl.F) : Type 0 where
  pub same :
      (x y : fl.F)
      → fl.less x y ≡ false
      → fl.less y x ≡ false
      → kb.bits (if kb.is_zero x then kb.zero else x)
        ≡ kb.bits (if kb.is_zero y then kb.zero else y)

ltb_ℤ_antisym : (x y : ℤ) → ltb_ℤ y x ≡ ltb_ℤ x y → x ≡ y
ltb_ℤ_antisym (pos m) (pos n) h = ap pos (ground arith)
ltb_ℤ_antisym (pos m) (negsuc n) h = ground arith
ltb_ℤ_antisym (negsuc m) (pos n) h = ground arith
ltb_ℤ_antisym (negsuc m) (negsuc n) h = ap negsuc (ground arith)

hash_bits_same :
    (n m is_bytes : Bool) (x y : ℕ) (p q : List ℕ) (h : ℕ)
    → n ≡ m
    → (n ≡ false → x ≡ y)
    → (n ≡ false → is_bytes ≡ true → p ≡ q)
    → hash_bits n is_bytes x p h ≡ hash_bits m is_bytes y q h
unfolding hash_bits
hash_bits_same true true is_bytes x y p q h e bits texts = refl
hash_bits_same true false is_bytes x y p q h e bits texts = cc
hash_bits_same false true is_bytes x y p q h e bits texts = cc
hash_bits_same false false true x y p q h e bits texts =
    ap₂ (λ u v. hash v (hash (0 ∷ le_bytes 8 u) h)) (bits refl) (texts refl refl)
hash_bits_same false false false x y p q h e bits texts =
    ap (λ u. hash (0 ∷ le_bytes 8 u) h) (bits refl)

signed_no_float : (t : FieldType) → type_signed t ≡ true → type_float t ≡ false
unfolding type_signed type_float
signed_no_float t h = ground arith

pub and-eq-true : (a b : Bool) → a && b ≡ true → (a ≡ true) × (b ≡ true)
and-eq-true true b h = (refl, h)
and-eq-true false b h = cc

and-true : (a b : Bool) → a ≡ true → b ≡ true → a && b ≡ true
and-true true b h k = k
and-true false b h k = cc

module _ {fl : FloatOps} {kb : KeyBits fl.F} (order : IsOrder fl) (canon : IsCanonical fl kb)
    (t : FieldType) (a b : Value fl.F) (e : value_compare fl t a b ≡ equal) where
  equal_nulls : a.is_null ≡ b.is_null
  unfolding value_compare from_tests
  equal_nulls = ground arith

  equal_bytes : a.is_null ≡ false → type_bytes t ≡ true → a.bytes ≡ b.bytes
  unfolding value_compare
  equal_bytes some_a is_bytes =
      let some_b = sym equal_nulls ∙ some_a in
      let c : bytes_compare a.bytes b.bytes ≡ equal = rw (some_a, some_b, is_bytes) at e in
      lexicographic-equal a.bytes b.bytes (sym (bytes_compare-lexicographic a.bytes b.bytes) ∙ c)

  equal_floats :
      fl.less b.f64 a.f64 ≡ fl.less a.f64 b.f64
      → kb.bits (if kb.is_zero a.f64 then kb.zero else a.f64)
        ≡ kb.bits (if kb.is_zero b.f64 then kb.zero else b.f64)
  equal_floats q = elim (Bool-cases (fl.less a.f64 b.f64)) [
    | inl below ↦ absurd (let z = sym (order.asym a.f64 b.f64 below) ∙ q ∙ below in cc)
    | inr not_below ↦ canon.same a.f64 b.f64 not_below (q ∙ not_below)
  ]

  equal_bits : a.is_null ≡ false → key_bits fl kb t a ≡ key_bits fl kb t b
  unfolding value_compare key_bits
  equal_bits some_a =
      let some_b = sym equal_nulls ∙ some_a in
      let c = rw (some_a, some_b) at e in
      elim (Bool-cases (type_bytes t)) [
        | inl yes_bytes ↦ rw yes_bytes (ap length (equal_bytes some_a yes_bytes))
        | inr no_bytes ↦ elim (Bool-cases (type_signed t)) [
          | inl yes_signed ↦
              let i =
                ltb_ℤ_antisym a.i64 b.i64 (from_tests-equal _ _ (rw (no_bytes, yes_signed) at c)) in
              rw (no_bytes, signed_no_float t yes_signed, yes_signed) (ap from_i64 i)
          | inr no_signed ↦ elim (Bool-cases (type_float t)) [
            | inl yes_float ↦
                let q = from_tests-equal _ _ (rw (no_bytes, no_signed, yes_float) at c) in
                rw (no_bytes, yes_float) (equal_floats q)
            | inr no_float ↦
                let q = from_tests-equal _ _ (rw (no_bytes, no_signed, no_float) at c) in
                rw (no_bytes, no_float, no_signed) (let u : a.u64 ≡ b.u64 = ground arith in u)
          ]
        ]
      ]

  equal_hash : (h : ℕ) → hash_key fl kb t a h ≡ hash_key fl kb t b h
  unfolding hash_key
  equal_hash h =
      hash_bits_same a.is_null b.is_null (type_bytes t) _ _ a.bytes b.bytes h equal_nulls equal_bits
        equal_bytes

module _ {fl : FloatOps} {kb : KeyBits fl.F} (order : IsOrder fl) (canon : IsCanonical fl kb) where
  -- Keys that compare equal have one hash.
  pub hash_from_same :
      (cs : List ResultColumn) (a b : List (Value fl.F)) (h : ℕ)
      → length a ≡ length b
      → same_keys fl kb cs a b ≡ true
      → hash_from fl kb cs a h ≡ hash_from fl kb cs b h
  unfolding same_keys hash_from
  hash_from_same [] a b h l e = refl
  hash_from_same (c ∷ cs) [] [] h l e = refl
  hash_from_same (c ∷ cs) [] (y ∷ b) h l e = absurd (omega arith)
  hash_from_same (c ∷ cs) (x ∷ a) [] h l e = absurd (omega arith)
  hash_from_same (c ∷ cs) (x ∷ a) (y ∷ b) h l e =
      let (one, rest) = and-eq-true _ _ e in
      ap (hash_from fl kb cs a) (equal_hash order canon c.type x y (is_equal-true _ one) h)
      ∙ hash_from_same cs a b (hash_key fl kb c.type y h) (omega arith) rest

  pub same_keys_sym :
      (cs : List ResultColumn) (a b : List (Value fl.F))
      → same_keys fl kb cs a b ≡ true
      → same_keys fl kb cs b a ≡ true
  unfolding same_keys
  same_keys_sym [] a b e = refl
  same_keys_sym (c ∷ cs) [] [] e = refl
  same_keys_sym (c ∷ cs) [] (y ∷ b) e = refl
  same_keys_sym (c ∷ cs) (x ∷ a) [] e = refl
  same_keys_sym (c ∷ cs) (x ∷ a) (y ∷ b) e =
      let (one, rest) = and-eq-true _ _ e in
      and-true _ _ (ap is_equal (compare_equal_sym order c.type x y (is_equal-true _ one)))
        (same_keys_sym cs a b rest)

  pub same_keys_trans :
      (cs : List ResultColumn) (a b c : List (Value fl.F))
      → length a ≡ length b
      → same_keys fl kb cs a b ≡ true
      → same_keys fl kb cs b c ≡ true
      → same_keys fl kb cs a c ≡ true
  unfolding same_keys
  same_keys_trans [] a b c l e f = refl
  same_keys_trans (k ∷ cs) [] b c l e f = refl
  same_keys_trans (k ∷ cs) (x ∷ a) [] c l e f = absurd (omega arith)
  same_keys_trans (k ∷ cs) (x ∷ a) (y ∷ b) [] l e f = refl
  same_keys_trans (k ∷ cs) (x ∷ a) (y ∷ b) (z ∷ c) l e f =
      let (one, rest) = and-eq-true _ _ e in
      let (two, rest') = and-eq-true _ _ f in
      and-true _ _
        (ap is_equal
          (compare_equal_trans order k.type x y z (is_equal-true _ one) (is_equal-true _ two)))
        (same_keys_trans cs a b c (omega arith) rest rest')

self_flip : (c : Cmp) → c ≡ flip c → c ≡ equal
self_flip equal e = refl
self_flip less e = cc
self_flip greater e = cc

pub same_keys_refl :
    (fl : FloatOps) (kb : KeyBits fl.F) (cs : List ResultColumn) (a : List (Value fl.F))
    → same_keys fl kb cs a a ≡ true
unfolding same_keys
same_keys_refl fl kb [] a = refl
same_keys_refl fl kb (c ∷ cs) [] = refl
same_keys_refl fl kb (c ∷ cs) (x ∷ a) =
    and-true _ _ (ap is_equal (self_flip _ (value_compare-flip fl c.type x x)))
      (same_keys_refl fl kb cs a)
