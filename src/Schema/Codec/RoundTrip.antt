-- ===== src/Schema/Codec/RoundTrip.antt =====
-- A field that was encoded reads back.
use webanalyticsdb.Prelude.{
  ℕ, zero, suc, ◌-◌, ◌^◌, ◌≤◌, ◌<◌, ◌≡◌, refl, ap, subst, sym, ◌∙◌, Bool, true, false, not, ◌||◌,
  List, [], ◌∷◌, ◌++◌, some, ltb, ◌==◌, length, take, arith, or-eq-false, not-eq-false, ne-eq-false,
}
use webanalyticsdb.Prelude.Int.{ℤ, pos, negsuc, ◌≤ℤ◌}
use webanalyticsdb.Core.Status.{
  Result, ok, err, invalid, reject, reject-eq-ok, >>=-ok, ok-eq-ok, ◌>>◌,
}
use webanalyticsdb.Core.Bytes.{le_bytes, get_u32, get_u64, get_i64, from_i64, to_i64, read}
use webanalyticsdb.Core.Bytes.Laws.{to_i64-from_i64, from_i64-lt}
use webanalyticsdb.Core.Text.{utf8}
use webanalyticsdb.Core.Types.{
  FieldType, i8, u8, i16, u16, i32, u32, i64, u64, f32, f64, bool, timestamp_us, uuid, bytes, text,
  symbol32, type_width,
}
use webanalyticsdb.Query.Values.{FloatOps, Value}
use webanalyticsdb.Schema.{Field, max_row_bytes}
use webanalyticsdb.Schema.Codec.{
  FloatBits, encode_field, decode_field, encode_signed, encode_unsigned, encode_symbol, le_value,
  sign_extend, blank, max_string_bytes, with_state,
}

-- int64_t
abbrev pub FitsInt : ℤ → Type 0
FitsInt v = (negsuc (2 ^ 63 - 1) ≤ℤ v) × (v ≤ℤ pos (2 ^ 63 - 1))

get_u64_8 : (u : ℕ) (rest : List ℕ) → u < 2 ^ 64 → get_u64 (le_bytes 8 u ++ rest) 0 ≡ u
unfolding get_u64 get_u32
get_u64_8 u rest h = omega arith

get_u32_4 : (u : ℕ) (rest : List ℕ) → u < 2 ^ 32 → get_u32 (le_bytes 4 u ++ rest) 0 ≡ u
unfolding get_u32
get_u32_4 u rest h = omega arith

pub le_value_4 : (u : ℕ) (rest : List ℕ) → u < 2 ^ 32 → le_value 4 (le_bytes 4 u ++ rest) ≡ u
unfolding le_value
le_value_4 u rest h = omega arith

le_value_8 : (u : ℕ) (rest : List ℕ) → u < 2 ^ 64 → le_value 8 (le_bytes 8 u ++ rest) ≡ u
unfolding le_value
le_value_8 u rest h = omega arith

sign_extend_1 :
    (v : ℤ) (rest : List ℕ)
    → negsuc (2 ^ 7 - 1) ≤ℤ v
    → v ≤ℤ pos (2 ^ 7 - 1)
    → sign_extend 1 (le_value 1 (le_bytes 1 (from_i64 v) ++ rest)) ≡ v
unfolding sign_extend le_value from_i64
sign_extend_1 (pos n) rest a b = ground arith
sign_extend_1 (negsuc n) rest a b = ground arith

signed_1 :
    (v : ℤ) (p rest : List ℕ)
    → encode_signed 1 v ≡ ok p
    → sign_extend 1 (le_value 1 (p ++ rest)) ≡ v
unfolding encode_signed
signed_1 v p rest h =
    let (bad, e) = reject-eq-ok _ invalid _ h in
    let p' : le_bytes 1 (from_i64 v) ≡ p = ok-eq-ok _ _ e in
    subst (λ q. sign_extend 1 (le_value 1 (q ++ rest)) ≡ v) p'
      (sign_extend_1 v rest (ground arith) (ground arith))

sign_extend_2 :
    (v : ℤ) (rest : List ℕ)
    → negsuc (2 ^ 15 - 1) ≤ℤ v
    → v ≤ℤ pos (2 ^ 15 - 1)
    → sign_extend 2 (le_value 2 (le_bytes 2 (from_i64 v) ++ rest)) ≡ v
unfolding sign_extend le_value from_i64
sign_extend_2 (pos n) rest a b = ground arith
sign_extend_2 (negsuc n) rest a b = ground arith

signed_2 :
    (v : ℤ) (p rest : List ℕ)
    → encode_signed 2 v ≡ ok p
    → sign_extend 2 (le_value 2 (p ++ rest)) ≡ v
unfolding encode_signed
signed_2 v p rest h =
    let (bad, e) = reject-eq-ok _ invalid _ h in
    let p' : le_bytes 2 (from_i64 v) ≡ p = ok-eq-ok _ _ e in
    subst (λ q. sign_extend 2 (le_value 2 (q ++ rest)) ≡ v) p'
      (sign_extend_2 v rest (ground arith) (ground arith))

sign_extend_4 :
    (v : ℤ) (rest : List ℕ)
    → negsuc (2 ^ 31 - 1) ≤ℤ v
    → v ≤ℤ pos (2 ^ 31 - 1)
    → sign_extend 4 (le_value 4 (le_bytes 4 (from_i64 v) ++ rest)) ≡ v
unfolding sign_extend le_value from_i64
sign_extend_4 (pos n) rest a b = ground arith
sign_extend_4 (negsuc n) rest a b = ground arith

signed_4 :
    (v : ℤ) (p rest : List ℕ)
    → encode_signed 4 v ≡ ok p
    → sign_extend 4 (le_value 4 (p ++ rest)) ≡ v
unfolding encode_signed
signed_4 v p rest h =
    let (bad, e) = reject-eq-ok _ invalid _ h in
    let p' : le_bytes 4 (from_i64 v) ≡ p = ok-eq-ok _ _ e in
    subst (λ q. sign_extend 4 (le_value 4 (q ++ rest)) ≡ v) p'
      (sign_extend_4 v rest (ground arith) (ground arith))

pub signed_8 :
    (v : ℤ) (p rest : List ℕ) → FitsInt v → encode_signed 8 v ≡ ok p → get_i64 (p ++ rest) 0 ≡ v
unfolding encode_signed get_i64
signed_8 v p rest (low, high) h =
    let (bad, e) = reject-eq-ok _ invalid _ h in
    subst (λ q. to_i64 (get_u64 (q ++ rest) 0) ≡ v) (ok-eq-ok _ _ e)
      (ap to_i64 (get_u64_8 (from_i64 v) rest (from_i64-lt v high)) ∙ to_i64-from_i64 v low high)

unsigned_1 :
    (is_bool : Bool) (u : ℕ) (p rest : List ℕ)
    → encode_unsigned is_bool 1 u ≡ ok p
    → le_value 1 (p ++ rest) ≡ u
unfolding encode_unsigned le_value
unsigned_1 b u p rest h =
    let (bad, e) = reject-eq-ok _ invalid _ h in
    subst (λ q. le_value 1 (q ++ rest) ≡ u) (ok-eq-ok _ _ e) (ground arith)

unsigned_2 :
    (is_bool : Bool) (u : ℕ) (p rest : List ℕ)
    → encode_unsigned is_bool 2 u ≡ ok p
    → le_value 2 (p ++ rest) ≡ u
unfolding encode_unsigned le_value
unsigned_2 b u p rest h =
    let (bad, e) = reject-eq-ok _ invalid _ h in
    subst (λ q. le_value 2 (q ++ rest) ≡ u) (ok-eq-ok _ _ e) (ground arith)

unsigned_4 :
    (is_bool : Bool) (u : ℕ) (p rest : List ℕ)
    → encode_unsigned is_bool 4 u ≡ ok p
    → le_value 4 (p ++ rest) ≡ u
unfolding encode_unsigned le_value
unsigned_4 b u p rest h =
    let (bad, e) = reject-eq-ok _ invalid _ h in
    subst (λ q. le_value 4 (q ++ rest) ≡ u) (ok-eq-ok _ _ e) (ground arith)

unsigned_8 :
    (is_bool : Bool) (u : ℕ) (p rest : List ℕ)
    → u < 2 ^ 64
    → encode_unsigned is_bool 8 u ≡ ok p
    → le_value 8 (p ++ rest) ≡ u
unfolding encode_unsigned
unsigned_8 b u p rest fits h =
    let (bad, e) = reject-eq-ok _ invalid _ h in
    subst (λ q. le_value 8 (q ++ rest) ≡ u) (ok-eq-ok _ _ e) (le_value_8 u rest fits)

unsigned-bool : (u width : ℕ) (p : List ℕ) → encode_unsigned true width u ≡ ok p → ltb 1 u ≡ false
unfolding encode_unsigned
unsigned-bool u width p h =
    let (bad, e) = reject-eq-ok _ invalid _ h in (or-eq-false _ (ltb 1 u) bad).1

pub with_state-ok :
    {S : Type 0} (s s' : S) (m : Result (List ℕ)) (p : List ℕ)
    → with_state s m ≡ ok (p, s')
    → m ≡ ok p
with_state-ok s s' (ok q) p h = ground arith
with_state-ok s s' (err e) p h = absurd (ground arith)

-- What the parameters are relied on for: a double reads back from its bits, a float within range is
-- a number, and what the dictionary assigns it also resolves.
pub record IsFaithful (fl : FloatOps) (fb : FloatBits fl) : Type 0 where
  pub bits64 : (x : fl.F) → fb.of_bits64 (fb.to_bits64 x) ≡ x
  pub fits64 : (x : fl.F) → fb.to_bits64 x < 2 ^ 64
  pub fits32 : (x : fl.F) → fb.to_bits32 x < 2 ^ 32
  pub finite32 :
      (x : fl.F) → fb.within_float x ≡ true → fl.is_finite (fb.of_bits32 (fb.to_bits32 x)) ≡ true

abbrev pub Learns :
    {S : Type 0} → (S → ℕ → List ℕ → Result (ℕ × S)) → (S → ℕ → ℕ → Result (List ℕ)) → Type 0
Learns {S = S} resolve lookup =
    (s s' : S) (field id : ℕ) (p : List ℕ)
    → resolve s field p ≡ ok (id, s')
    → (id < 2 ^ 32) × (lookup s' field id ≡ ok p)

-- The member of the union that the type selects is the same; a float has lost precision.
abbrev pub Same : (fl : FloatOps) → FloatBits fl → FieldType → Value fl.F → Value fl.F → Type 0
Same fl fb t v w = elim t [
  | i8 ↦ w.i64 ≡ v.i64
  | i16 ↦ w.i64 ≡ v.i64
  | i32 ↦ w.i64 ≡ v.i64
  | i64 ↦ w.i64 ≡ v.i64
  | timestamp_us ↦ w.i64 ≡ v.i64
  | u8 ↦ w.u64 ≡ v.u64
  | u16 ↦ w.u64 ≡ v.u64
  | u32 ↦ w.u64 ≡ v.u64
  | u64 ↦ w.u64 ≡ v.u64
  | bool ↦ w.u64 ≡ v.u64
  | f32 ↦ w.f64 ≡ fb.of_bits32 (fb.to_bits32 v.f64)
  | f64 ↦ w.f64 ≡ v.f64
  | _ ↦ w.bytes ≡ v.bytes
]

abbrev pub ReadsAs :
    (fl : FloatOps) → FloatBits fl → FieldType → Value fl.F → Result (Value fl.F) → Type 0
ReadsAs fl fb t v m = (w : Value fl.F) × (m ≡ ok w) × (w.is_null ≡ false) × Same fl fb t v w

-- The numbers of a value are those of its C types.
pub record FitsValue {F : Type 0} (v : Value F) : Type 0 where
  pub int : FitsInt v.i64
  pub word : v.u64 < 2 ^ 64

abbrev pub Gives : {S : Type 0} → Result (List ℕ × S) → List ℕ → S → Type 0
Gives m p s = m ≡ ok (p, s)

number_4 :
    {S : Type 0} (s s' : S) (u : ℕ) (p rest : List ℕ)
    → u < 2 ^ 32
    → Gives (ok (le_bytes 4 u, s)) p s'
    → le_value 4 (p ++ rest) ≡ u
number_4 s s' u p rest fits e =
    subst (λ q. le_value 4 (q ++ rest) ≡ u) (ap (λ x. x.0) (ok-eq-ok _ _ e))
      (le_value_4 u rest fits)

number_8 :
    {S : Type 0} (s s' : S) (u : ℕ) (p rest : List ℕ)
    → u < 2 ^ 64
    → Gives (ok (le_bytes 8 u, s)) p s'
    → le_value 8 (p ++ rest) ≡ u
number_8 s s' u p rest fits e =
    subst (λ q. le_value 8 (q ++ rest) ≡ u) (ap (λ x. x.0) (ok-eq-ok _ _ e))
      (le_value_8 u rest fits)

taken : (n : ℕ) (p rest : List ℕ) → length p ≡ n → take n (p ++ rest) ≡ p
taken zero [] rest e = refl
taken zero (x ∷ p) rest e = absurd (omega arith)
taken (suc n) [] rest e = absurd (omega arith)
taken (suc n) (x ∷ p) rest e = ap (◌∷◌ x) (taken n p rest (omega arith))

plain_bytes :
    {S : Type 0} (s s' : S) (n : ℕ) (q p rest : List ℕ)
    → Gives (reject (not (length q == n)) invalid >> ok (q, s)) p s'
    → take n (p ++ rest) ≡ q
plain_bytes s s' n q p rest h =
    let (bad, e) = reject-eq-ok (not (length q == n)) invalid _ h in
    subst (λ z. take n (z ++ rest) ≡ q) (ap (λ x. x.0) (ok-eq-ok _ _ e))
      (taken n q rest (ne-eq-false _ _ bad))

text_bytes :
    {S : Type 0} (s s' : S) (q p rest : List ℕ)
    → length q < 2 ^ 32
    → Gives (ok (le_bytes 4 (length q) ++ q, s)) p s'
    → (get_u32 (p ++ rest) 0 ≡ length q) × (read (p ++ rest) 4 (length q) ≡ q)
text_bytes s s' q p rest small e =
    subst (λ z. (get_u32 (z ++ rest) 0 ≡ length q) × (read (z ++ rest) 4 (length q) ≡ q))
      (ap (λ x. x.0) (ok-eq-ok _ _ e))
      (get_u32_4 (length q) (q ++ rest) small, taken (length q) q rest refl)

pub symbol_bytes :
    {S : Type 0} (resolve : S → ℕ → List ℕ → Result (ℕ × S)) (s s' : S) (field : ℕ) (q p : List ℕ)
    → encode_symbol (some resolve) s field q ≡ ok (p, s')
    → (id : ℕ) × (resolve s field q ≡ ok (id, s')) × ((id == 0) ≡ false) × (p ≡ le_bytes 4 id)
unfolding encode_symbol
symbol_bytes {S = S} resolve s s' field q p h =
    let ((id, s1), learnt, h) = >>=-ok (resolve s field q) _ h in
    let (nonzero, e) = reject-eq-ok (id == 0) invalid _ h in
    let pair : ◌≡◌ {A = List ℕ × S} (le_bytes 4 id, s1) (p, s') = ok-eq-ok _ _ e in
    (id, learnt ∙ ap (λ x. ok (id, x)) (ap (λ x. x.1) pair), nonzero, sym (ap (λ x. x.0) pair))

module _ (fl : FloatOps) (fb : FloatBits fl) (faithful : IsFaithful fl fb) {S : Type 0}
    (resolve : S → ℕ → List ℕ → Result (ℕ × S)) (lookup : S → ℕ → ℕ → Result (List ℕ))
    (learns : Learns resolve lookup) where
  abbrev typed : FieldType → Field → Field
  typed t f = record f { type = t; width = type_width t f.size }

  read_typed :
      (t : FieldType) (f : Field) (v : Value fl.F) (field : ℕ) (s s' : S) (p rest : List ℕ)
      → f.size ≤ max_row_bytes
      → FitsValue v
      → encode_field fl fb (some resolve) s field (typed t f) v ≡ ok (p, s')
      → ReadsAs fl fb t v (decode_field fl fb (some (lookup s')) field (typed t f) (p ++ rest))
  unfolding encode_field decode_field type_width blank reject
  read_typed i8 f v field s s' p rest small fits h =
      (_, refl, refl, signed_1 v.i64 p rest (with_state-ok s s' _ p h))
  read_typed i16 f v field s s' p rest small fits h =
      (_, refl, refl, signed_2 v.i64 p rest (with_state-ok s s' _ p h))
  read_typed i32 f v field s s' p rest small fits h =
      (_, refl, refl, signed_4 v.i64 p rest (with_state-ok s s' _ p h))
  read_typed i64 f v field s s' p rest small fits h =
      (_, refl, refl, signed_8 v.i64 p rest fits.int (with_state-ok s s' _ p h))
  read_typed timestamp_us f v field s s' p rest small fits h =
      (_, refl, refl, signed_8 v.i64 p rest fits.int (with_state-ok s s' _ p h))
  read_typed u8 f v field s s' p rest small fits h =
      (_, refl, refl, unsigned_1 false v.u64 p rest (with_state-ok s s' _ p h))
  read_typed u16 f v field s s' p rest small fits h =
      (_, refl, refl, unsigned_2 false v.u64 p rest (with_state-ok s s' _ p h))
  read_typed u32 f v field s s' p rest small fits h =
      (_, refl, refl, unsigned_4 false v.u64 p rest (with_state-ok s s' _ p h))
  read_typed u64 f v field s s' p rest small fits h =
      (_, refl, refl, unsigned_8 false v.u64 p rest fits.word (with_state-ok s s' _ p h))
  read_typed bool f v field s s' p rest small fits h =
      let m = with_state-ok s s' _ p h in
      rw (unsigned_1 true v.u64 p rest m, unsigned-bool v.u64 1 p m) (_, refl, refl, refl)
  read_typed f32 f v field s s' p rest small fits h =
      let (bad, e) =
        reject-eq-ok (not (fl.is_finite v.f64) || not (fb.within_float v.f64)) invalid _ h in
      let (finite, within) = or-eq-false (not (fl.is_finite v.f64)) _ bad in
      rw
        (
          number_4 s s' _ p rest (faithful.fits32 v.f64) e,
          faithful.finite32 v.f64 (not-eq-false _ within),
        )
        (_, refl, refl, refl)
  read_typed f64 f v field s s' p rest small fits h =
      let (bad, e) = reject-eq-ok (not (fl.is_finite v.f64)) invalid _ h in
      rw
        (
          number_8 s s' _ p rest (faithful.fits64 v.f64) e,
          faithful.bits64 v.f64,
          not-eq-false _ bad,
        )
        (_, refl, refl, refl)
  read_typed uuid f v field s s' p rest small fits h =
      (_, refl, refl, plain_bytes s s' 16 v.bytes p rest h)
  read_typed bytes f v field s s' p rest small fits h =
      (_, refl, refl, plain_bytes s s' f.size v.bytes p rest h)
  read_typed text f v field s s' p rest small fits h =
      let (bad, e) = reject-eq-ok (ltb f.size (length v.bytes) || not (utf8 v.bytes)) invalid _ h in
      let (fits_size, valid) = or-eq-false (ltb f.size (length v.bytes)) _ bad in
      let (n, q) = text_bytes s s' v.bytes p rest (ground arith) e in
      rw (n, q, fits_size, valid) (_, refl, refl, refl)
  read_typed symbol32 f v field s s' p rest small fits h =
      let (bad, e) =
        reject-eq-ok (ltb max_string_bytes (length v.bytes) || not (utf8 v.bytes)) invalid _ h in
      let (id, learnt, nonzero, q) = symbol_bytes resolve s s' field v.bytes p e in
      let (small, found) = learns s s' field id v.bytes learnt in
      rw (q, le_value_4 id rest small, nonzero, found) (_, refl, refl, refl)

  -- A field that `wadb_encode_field` accepts reads back, whatever stands behind it in the row: as the
  -- same integer, double or bytes, and a float as the number that its bits stand for. The field has
  -- the width of its type, the value fits its C types, doubles keep their bits, a float in range is
  -- a number, and the dictionary resolves the symbols that it assigned.
  pub decode_field-encode_field :
      (f : Field) (v : Value fl.F) (field : ℕ) (s s' : S) (p rest : List ℕ)
      → f.width ≡ type_width f.type f.size
      → f.size ≤ max_row_bytes
      → FitsValue v
      → Gives (encode_field fl fb (some resolve) s field f v) p s'
      → ReadsAs fl fb f.type v (decode_field fl fb (some (lookup s')) field f (p ++ rest))
  decode_field-encode_field f v field s s' p rest width small fits h =
      let same : typed f.type f ≡ f = ap (λ n. record f { width = n }) (sym width) in
      subst
        (λ g. ReadsAs fl fb f.type v (decode_field fl fb (some (lookup s')) field g (p ++ rest)))
        same
        (read_typed f.type f v field s s' p rest small fits
          (subst (λ g. Gives (encode_field fl fb (some resolve) s field g v) p s') (sym same) h))
