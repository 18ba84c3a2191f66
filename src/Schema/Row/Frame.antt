-- ===== src/Schema/Row/Frame.antt =====
-- What the encoding of some fields leaves alone: the bytes outside of the fields and of the bitmap,
-- and the bits of other fields.
use webanalyticsdb.Prelude.{
  ℕ, zero, suc, ◌+◌, ◌/◌, ◌%◌, ◌^◌, ◌≤◌, ◌<◌, ◌≡◌, ◌≢◌, refl, ap, subst, sym, ◌∙◌, some, ◌||◌, Bool,
  true, false, not, List, [], ◌∷◌, ◌++◌, ltb, ◌==◌, length, drop, arith, inl, inr, Bool-cases,
  ==_iff, ◌↔◌, or-eq-false, ne-eq-false, length-append,
}
use native.Mathlib.Nat.{zero-add, suc-add, pow-succ', div-div-eq-div-mul}
use native.Mathlib.Decide.{dec_lt}
use webanalyticsdb.Core.Status.{Result, ok, invalid, reject-eq-ok, ok-eq-ok}
use webanalyticsdb.Core.Bytes.{byte, write, le_bytes, from_i64}
use webanalyticsdb.Core.Bytes.Laws.{
  length-write, byte-write_before, byte-write_after, byte-write_self,
}
use webanalyticsdb.Core.Types.{
  FieldType, i8, u8, i16, u16, i32, u32, i64, u64, f32, f64, bool, timestamp_us, uuid, bytes, text,
  symbol32, type_width,
}
use webanalyticsdb.Query.Values.{FloatOps, Value}
use webanalyticsdb.Schema.{Field}
use webanalyticsdb.Core.Text.{utf8}
use webanalyticsdb.Prelude.Int.{ℤ}
use webanalyticsdb.Schema.Codec.RoundTrip.{Gives, with_state-ok, symbol_bytes}
use webanalyticsdb.Schema.Codec.{
  max_string_bytes, FloatBits, encode_field, encode_signed, encode_unsigned,
}
use webanalyticsdb.Schema.Row.{null_bit_set, set_null_bit}

-- The bits of a number, one by one.
abbrev bit : ℕ → ℕ → ℕ
bit zero b = b % 2
bit (suc k) b = bit k (b / 2)

bit_shift : (k b : ℕ) → b / 2 ^ k % 2 ≡ bit k b
bit_shift zero b = omega arith
bit_shift (suc k) b =
    ap (λ z. z % 2) (ap (λ z. b / z) (pow-succ' 2 k) ∙ sym (div-div-eq-div-mul b 2 (2 ^ k)))
    ∙ bit_shift k (b / 2)

half : (k b : ℕ) → (b + 2 ^ suc k) / 2 ≡ b / 2 + 2 ^ k
half k b = omega (arith, pow-succ' 2 k)

bit-set : (k b : ℕ) → bit k b ≢ 1 → bit k (b + 2 ^ k) ≡ 1
bit-set zero b h = omega arith
bit-set (suc k) b h = rw (half k b) (bit-set k (b / 2) h)

half_odd : (b : ℕ) → b % 2 ≢ 1 → (b + 1) / 2 ≡ b / 2
half_odd b h = omega arith

bit-other : (j k b : ℕ) → j ≢ k → bit k b ≢ 1 → bit j (b + 2 ^ k) ≡ bit j b
bit-other zero zero b ne h = absurd (ne refl)
bit-other zero (suc k) b ne h = omega (arith, pow-succ' 2 k)
bit-other (suc j) zero b ne h = ap (bit j) (half_odd b h)
bit-other (suc j) (suc k) b ne h = rw (half k b) (bit-other j k (b / 2) (λ e. ne (ap suc e)) h)

-- Where a byte list stands in a row.
abbrev pub Stands : (q p : List ℕ) (o : ℕ) → Type 0
Stands q p o = (i : ℕ) → i < length q → byte p (o + i) ≡ byte q i

pub drop-Stands :
    (q p : List ℕ) (o : ℕ)
    → o + length q ≤ length p
    → Stands q p o
    → (rest : List ℕ) × (drop o p ≡ q ++ rest)
drop-Stands [] p o le h = (drop o p, refl)
drop-Stands (y ∷ q) [] o le h = absurd (omega arith)
drop-Stands (y ∷ q) (x ∷ p) zero le h =
    let (rest, e) =
      drop-Stands q p zero (omega arith)
        (λ i lt. rw zero-add (rw zero-add at (h (suc i) (omega arith)))) in
    (rest, ap (λ z. z ∷ drop 0 p) (h 0 (omega arith)) ∙ ap (◌∷◌ y) e)
drop-Stands (y ∷ q) (x ∷ p) (suc o) le h =
    drop-Stands (y ∷ q) p o (omega arith) (λ i lt. rw suc-add at (h i lt))

null_bit_iff :
    (p : List ℕ) (n : ℕ) → (null_bit_set p n ≡ true) ↔ (bit (n % 8) (byte p (8 + n / 8)) ≡ 1)
null_bit_iff p n =
    let e = bit_shift (n % 8) (byte p (8 + n / 8)) in
    ((λ h. sym e ∙ (==_iff _ 1).0 h), λ h. (==_iff _ 1).1 (e ∙ h))

pub set_null_bit-length : (p : List ℕ) (n : ℕ) → length (set_null_bit p n) ≡ length p
unfolding set_null_bit
set_null_bit-length p n = elim (Bool-cases (null_bit_set p n)) [
  | inl e ↦ rw e refl
  | inr e ↦ rw e (length-write p (8 + n / 8) ((byte p (8 + n / 8) + 2 ^ (n % 8)) ∷ []))
]

pub set_null_bit-byte :
    (p : List ℕ) (n i : ℕ) → i ≢ 8 + n / 8 → byte (set_null_bit p n) i ≡ byte p i
unfolding set_null_bit
set_null_bit-byte p n i ne = elim (Bool-cases (null_bit_set p n)) [
  | inl e ↦ rw e refl
  | inr e ↦ rw e (elim (dec_lt i (8 + n / 8)) [
    | yes lt ↦ byte-write_before p (8 + n / 8) ((byte p (8 + n / 8) + 2 ^ (n % 8)) ∷ []) i lt
    | no ge ↦
        byte-write_after p (8 + n / 8) ((byte p (8 + n / 8) + 2 ^ (n % 8)) ∷ []) i (omega arith)
  ])
]

-- The byte of the bitmap once its bit is set.
set_null_bit_self :
    (p : List ℕ) (n : ℕ)
    → 8 + n / 8 < length p
    → null_bit_set p n ≡ false
    → byte (set_null_bit p n) (8 + n / 8) ≡ byte p (8 + n / 8) + 2 ^ (n % 8)
unfolding set_null_bit
set_null_bit_self p n lt e = rw e (
    subst
      (λ z.
        byte (write p (8 + n / 8) ((byte p (8 + n / 8) + 2 ^ (n % 8)) ∷ [])) z
        ≡ byte p (8 + n / 8) + 2 ^ (n % 8))
      (omega arith)
      (byte-write_self p (8 + n / 8) ((byte p (8 + n / 8) + 2 ^ (n % 8)) ∷ []) 0 (omega arith)
        (omega arith)))

not-false-true : (b : Bool) → b ≡ false → b ≢ true
not-false-true b h k = cc

set_null_bit_same : (p : List ℕ) (n : ℕ) → null_bit_set p n ≡ true → set_null_bit p n ≡ p
unfolding set_null_bit
set_null_bit_same p n e = rw e refl

pub set_null_bit-set :
    (p : List ℕ) (n : ℕ) → 8 + n / 8 < length p → null_bit_set (set_null_bit p n) n ≡ true
set_null_bit-set p n lt = elim (Bool-cases (null_bit_set p n)) [
  | inl e ↦ ap (λ z. null_bit_set z n) (set_null_bit_same p n e) ∙ e
  | inr e ↦ (null_bit_iff (set_null_bit p n) n).1 (
      ap (bit (n % 8)) (set_null_bit_self p n lt e)
      ∙ bit-set (n % 8) (byte p (8 + n / 8)) (λ h. not-false-true _ e ((null_bit_iff p n).1 h)))
]

pub set_null_bit-other :
    (p : List ℕ) (n m : ℕ)
    → n ≢ m
    → 8 + n / 8 < length p
    → null_bit_set (set_null_bit p n) m ≡ null_bit_set p m
set_null_bit-other p n m ne lt = elim (Bool-cases (null_bit_set p n)) [
  | inl e ↦ ap (λ z. null_bit_set z m) (set_null_bit_same p n e)
  | inr e ↦ elim (Bool-cases (m / 8 == n / 8)) [
    | inl same ↦
        let at : 8 + m / 8 ≡ 8 + n / 8 = ap (λ z. 8 + z) ((==_iff _ _).0 same) in
        let clear : bit (n % 8) (byte p (8 + n / 8)) ≢ 1 =
          λ h. not-false-true _ e ((null_bit_iff p n).1 h) in
        let apart : m % 8 ≢ n % 8 = λ h. ne (omega (arith, at, h)) in
        ap (λ z. z == 1)
          (bit_shift (m % 8) (byte (set_null_bit p n) (8 + m / 8))
            ∙ ap (bit (m % 8)) (ap (byte (set_null_bit p n)) at ∙ set_null_bit_self p n lt e)
            ∙ bit-other (m % 8) (n % 8) (byte p (8 + n / 8)) apart clear
            ∙ ap (bit (m % 8)) (ap (byte p) (sym at))
            ∙ sym (bit_shift (m % 8) (byte p (8 + m / 8))))
    | inr far ↦
        ap (λ b. b / 2 ^ (m % 8) % 2 == 1) (set_null_bit-byte p n (8 + m / 8) (ground arith))
  ]
]

length-le_bytes : (n u : ℕ) → length (le_bytes n u) ≡ n
length-le_bytes zero u = refl
length-le_bytes (suc n) u = ap suc (length-le_bytes n (u / 256))

encode_signed-length : (n : ℕ) (v : ℤ) (q : List ℕ) → encode_signed n v ≡ ok q → length q ≡ n
unfolding encode_signed
encode_signed-length n v q h =
    let (bad, e) = reject-eq-ok _ invalid _ h in
    ap length (sym (ok-eq-ok _ _ e)) ∙ length-le_bytes n (from_i64 v)

encode_unsigned-length :
    (b : Bool) (n u : ℕ) (q : List ℕ) → encode_unsigned b n u ≡ ok q → length q ≡ n
unfolding encode_unsigned
encode_unsigned-length b n u q h =
    let (bad, e) = reject-eq-ok _ invalid _ h in
    ap length (sym (ok-eq-ok _ _ e)) ∙ length-le_bytes n u

given : {S : Type 0} (q p : List ℕ) (s s' : S) → Gives (ok (q, s)) p s' → length p ≡ length q
given q p s s' e = sym (ap (λ x. length x.0) (ok-eq-ok _ _ e))

-- A field never writes past its width.
pub encode_typed-length :
    (fl : FloatOps) (fb : FloatBits fl) {S : Type 0} (resolve : S → ℕ → List ℕ → Result (ℕ × S))
    (t : FieldType) (f : Field) (v : Value fl.F) (i : ℕ) (s s' : S) (q : List ℕ)
    → Gives
        (encode_field fl fb
          (some resolve)
          s
          i
          (record f { type = t; width = type_width t f.size })
          v)
        q
        s'
    → length q ≤ type_width t f.size
unfolding encode_field type_width
encode_typed-length fl fb resolve i8 f v i s s' q h =
    omega (arith, encode_signed-length 1 v.i64 q (with_state-ok s s' _ q h))
encode_typed-length fl fb resolve i16 f v i s s' q h =
    omega (arith, encode_signed-length 2 v.i64 q (with_state-ok s s' _ q h))
encode_typed-length fl fb resolve i32 f v i s s' q h =
    omega (arith, encode_signed-length 4 v.i64 q (with_state-ok s s' _ q h))
encode_typed-length fl fb resolve i64 f v i s s' q h =
    omega (arith, encode_signed-length 8 v.i64 q (with_state-ok s s' _ q h))
encode_typed-length fl fb resolve timestamp_us f v i s s' q h =
    omega (arith, encode_signed-length 8 v.i64 q (with_state-ok s s' _ q h))
encode_typed-length fl fb resolve u8 f v i s s' q h =
    omega (arith, encode_unsigned-length false 1 v.u64 q (with_state-ok s s' _ q h))
encode_typed-length fl fb resolve u16 f v i s s' q h =
    omega (arith, encode_unsigned-length false 2 v.u64 q (with_state-ok s s' _ q h))
encode_typed-length fl fb resolve u32 f v i s s' q h =
    omega (arith, encode_unsigned-length false 4 v.u64 q (with_state-ok s s' _ q h))
encode_typed-length fl fb resolve u64 f v i s s' q h =
    omega (arith, encode_unsigned-length false 8 v.u64 q (with_state-ok s s' _ q h))
encode_typed-length fl fb resolve bool f v i s s' q h =
    omega (arith, encode_unsigned-length true 1 v.u64 q (with_state-ok s s' _ q h))
encode_typed-length fl fb resolve f32 f v i s s' q h =
    let (bad, e) =
      reject-eq-ok (not (fl.is_finite v.f64) || not (fb.within_float v.f64)) invalid _ h in
    omega (arith, given _ q s s' e)
encode_typed-length fl fb resolve f64 f v i s s' q h =
    let (bad, e) = reject-eq-ok (not (fl.is_finite v.f64)) invalid _ h in
    omega (arith, given _ q s s' e)
encode_typed-length fl fb resolve uuid f v i s s' q h =
    let (bad, e) = reject-eq-ok (not (length v.bytes == 16)) invalid _ h in
    omega (arith, given _ q s s' e, ne-eq-false _ _ bad)
encode_typed-length fl fb resolve bytes f v i s s' q h =
    let (bad, e) = reject-eq-ok (not (length v.bytes == f.size)) invalid _ h in
    omega (arith, given _ q s s' e, ne-eq-false _ _ bad)
encode_typed-length fl fb resolve text f v i s s' q h =
    let (bad, e) = reject-eq-ok (ltb f.size (length v.bytes) || not (utf8 v.bytes)) invalid _ h in
    let (fits, valid) = or-eq-false (ltb f.size (length v.bytes)) _ bad in
    ground (arith, given _ q s s' e, length-append (le_bytes 4 (length v.bytes)) v.bytes, fits)
encode_typed-length fl fb resolve symbol32 f v i s s' q h =
    let (bad, e) =
      reject-eq-ok (ltb max_string_bytes (length v.bytes) || not (utf8 v.bytes)) invalid _ h in
    let (id, learnt, nonzero, e) = symbol_bytes resolve s s' i v.bytes q e in
    omega (arith, ap length e)
