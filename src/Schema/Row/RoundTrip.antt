-- ===== src/Schema/Row/RoundTrip.antt =====
-- Every field of a row that was encoded reads back.
use webanalyticsdb.Prelude.{
  ℕ, ◌+◌, ◌*◌, ◌/◌, ◌%◌, ◌^◌, ◌≤◌, ◌<◌, ◌≡◌, refl, ap, subst, sym, ◌∙◌, Bool, true, false, not,
  ◌&&◌, List, [], ◌∷◌, ◌++◌, ◌==◌, if◌then◌else◌, length, drop, arith, inl, inr, Bool-cases,
  not-eq-false, All, some,
}
use webanalyticsdb.Core.Status.{Result, ok, invalid, reject-eq-ok, >>=-ok, ok-eq-ok}
use webanalyticsdb.Core.Bytes.{byte, write}
use webanalyticsdb.Core.Bytes.Laws.{length-write, byte-write_before, byte-write_self}
use webanalyticsdb.Core.Types.{type_width}
use webanalyticsdb.Query.Values.{FloatOps, Value}
use webanalyticsdb.Schema.{Field, FieldDef, field_at, count_nullable, no_null_bit, max_row_bytes}
use webanalyticsdb.Schema.Layout.{total_width}
use webanalyticsdb.Schema.Codec.{FloatBits, encode_field}
use webanalyticsdb.Schema.Codec.RoundTrip.{Gives, IsFaithful, FitsValue}
use webanalyticsdb.Schema.Codec.Symbols.{ReadsBack, reads_back}
use webanalyticsdb.Schema.Row.{null_bit_set, set_null_bit, encode_fields, decode_at}
use webanalyticsdb.Schema.Row.Frame.{
  Stands, drop-Stands, set_null_bit-length, set_null_bit-byte, set_null_bit-set, set_null_bit-other,
  encode_typed-length,
}

-- The fields that definitions get from an offset and a null bit on.
abbrev pub fields_of : ℕ → ℕ → List FieldDef → List Field
fields_of offset bit [] = []
fields_of offset bit (d ∷ defs) =
    field_at d offset bit
    ∷ fields_of (offset + type_width d.type d.size) (if d.nullable then bit + 1 else bit) defs

-- What fields from an offset and a null bit on leave of a row with `nb` bytes of bitmap.
pub record Untouched (offset bit nb : ℕ) (p r : List ℕ) : Type 0 where
  pub size : length r ≡ length p
  pub head : (i : ℕ) → i < 8 → byte r i ≡ byte p i
  pub before : (i : ℕ) → 8 + nb ≤ i → i < offset → byte r i ≡ byte p i
  pub bits : (m : ℕ) → m < bit → null_bit_set r m ≡ null_bit_set p m

Untouched-again :
    (o o' b b' nb : ℕ) (p q r : List ℕ)
    → o ≤ o'
    → b ≤ b'
    → Untouched o b nb p q
    → Untouched o' b' nb q r
    → Untouched o b nb p r
Untouched-again o o' b b' nb p q r le le' u v = record {
  size = v.size ∙ u.size;
  head = λ i h. v.head i h ∙ u.head i h;
  before = λ i h k. v.before i h (omega arith) ∙ u.before i h k;
  bits = λ m h. v.bits m (omega arith) ∙ u.bits m h;
}

null_bit_set-same :
    (p r : List ℕ) (m : ℕ)
    → byte r (8 + m / 8) ≡ byte p (8 + m / 8)
    → null_bit_set r m ≡ null_bit_set p m
null_bit_set-same p r m e = ap (λ b. b / 2 ^ (m % 8) % 2 == 1) e

set_null_bit-Untouched :
    (o b nb : ℕ) (p : List ℕ)
    → b < 8 * nb
    → 8 + nb ≤ length p
    → Untouched o b nb p (set_null_bit p b)
set_null_bit-Untouched o b nb p lt le = record {
  size = set_null_bit-length p b;
  head = λ i h. set_null_bit-byte p b i (omega arith);
  before = λ i h k. set_null_bit-byte p b i (omega arith);
  bits = λ m h. set_null_bit-other p b m (omega arith) (omega arith);
}

write-Untouched :
    (o b nb : ℕ) (p q : List ℕ) → b ≤ 8 * nb → 8 + nb ≤ o → Untouched o b nb p (write p o q)
write-Untouched o b nb p q lt le = record {
  size = length-write p o q;
  head = λ i h. byte-write_before p o q i (omega arith);
  before = λ i h k. byte-write_before p o q i k;
  bits = λ m h.
      null_bit_set-same p (write p o q) m (byte-write_before p o q (8 + m / 8) (omega arith));
}

abbrev pub Clear : ℕ → ℕ → List ℕ → Type 0
Clear bit nb p = (m : ℕ) → bit ≤ m → m < 8 * nb → null_bit_set p m ≡ false

set_null_bit-Clear :
    (b nb : ℕ) (p : List ℕ)
    → 8 + nb ≤ length p
    → b < 8 * nb
    → Clear b nb p
    → Clear (b + 1) nb (set_null_bit p b)
set_null_bit-Clear b nb p le lt clear m h k =
    set_null_bit-other p b m (omega arith) (omega arith) ∙ clear m (omega arith) k

write-Clear :
    (o b b' nb : ℕ) (p q : List ℕ) → 8 + nb ≤ o → b ≤ b' → Clear b nb p → Clear b' nb (write p o q)
write-Clear o b b' nb p q le lt clear m h k =
    null_bit_set-same p (write p o q) m (byte-write_before p o q (8 + m / 8) (omega arith))
    ∙ clear m (omega arith) k

-- What stood in a row stands there after later fields.
write-Stands :
    (o o' b nb : ℕ) (p q r : List ℕ)
    → 8 + nb ≤ o
    → o + length q ≤ o'
    → o + length q ≤ length p
    → Untouched o' b nb (write p o q) r
    → Stands q r o
write-Stands o o' b nb p q r low high fits u i lt =
    u.before (o + i) (omega arith) (omega arith) ∙ byte-write_self p o q i lt fits

then-eq : {A : Type 0} (c : Bool) (x y : A) {r : A} → c ≡ true → (if c then x else y) ≡ r → x ≡ r
then-eq true x y e h = h
then-eq false x y e h = cc

else-eq : {A : Type 0} (c : Bool) (x y : A) {r : A} → c ≡ false → (if c then x else y) ≡ r → y ≡ r
else-eq true x y e h = cc
else-eq false x y e h = h

and-false : (c x : Bool) → (c ≡ true → x ≡ false) → (c && x) ≡ false
and-false true x h = h refl
and-false false x h = refl

module _ (fl : FloatOps) (fb : FloatBits fl) (faithful : IsFaithful fl fb) {S : Type 0}
    (resolve : S → ℕ → List ℕ → Result (ℕ × S)) (look : ℕ → ℕ → Result (List ℕ)) where
  -- A null reads as a null, another value as `ReadsBack` says.
  abbrev pub ReadsField : ℕ → Field → Value fl.F → Result (Value fl.F) → Type 0
  ReadsField i f v m =
      if v.is_null
      then ((w : Value fl.F) × (m ≡ ok w) × (w.is_null ≡ true))
      else ReadsBack fl fb faithful resolve look i f.type v m

  abbrev pub ReadsAll : ℕ → List Field → List (Value fl.F) → List ℕ → Type 0
  ReadsAll i [] values r = Unit {0}
  ReadsAll i (f ∷ fields) [] r = ⊥
  ReadsAll i (f ∷ fields) (v ∷ values) r =
      ReadsField i f v (decode_at fl fb (some look) i (some f) r) × ReadsAll (i + 1) fields values r

  read_null :
      (f : Field) (i : ℕ) (v : Value fl.F) (r : List ℕ)
      → v.is_null ≡ true
      → f.nullable ≡ true
      → null_bit_set r f.null_bit ≡ true
      → ReadsField i f v (decode_at fl fb (some look) i (some f) r)
  unfolding decode_at
  read_null f i v r z n h = rw (z, n, h) (_, refl, refl)

  read_present :
      (f : Field) (i : ℕ) (v : Value fl.F) (r q : List ℕ) (s s' : S)
      → v.is_null ≡ false
      → (f.nullable && null_bit_set r f.null_bit) ≡ false
      → f.width ≡ type_width f.type f.size
      → f.size ≤ max_row_bytes
      → FitsValue v
      → Gives (encode_field fl fb (some resolve) s i f v) q s'
      → (rest : List ℕ) × (drop f.offset r ≡ q ++ rest)
      → ReadsField i f v (decode_at fl fb (some look) i (some f) r)
  unfolding decode_at
  read_present f i v r q s s' z clear width small fits h (rest, e) =
      rw (z, clear, e) (reads_back fl fb faithful resolve look f v i s s' q rest width small fits h)

  pub reads :
      (defs : List FieldDef) (o b nb i : ℕ) (values : List (Value fl.F)) (p r : List ℕ) (s s' : S)
      → 8 + nb ≤ o
      → b + count_nullable defs ≤ 8 * nb
      → o + total_width defs ≤ length p
      → Clear b nb p
      → All (λ d. d.size ≤ max_row_bytes) defs
      → All FitsValue values
      → Gives (encode_fields fl fb (some resolve) i (fields_of o b defs) values p s) r s'
      → Untouched o b nb p r × ReadsAll i (fields_of o b defs) values r
  unfolding encode_fields count_nullable field_at
  reads [] o b nb i values p r s s' low bits room clear sizes fits h = (
    subst (Untouched o b nb p) (ap (λ x. x.0) (ok-eq-ok _ _ h))
        (record { size = refl; head = λ i h. refl; before = λ i h k. refl; bits = λ m h. refl }),
    tt,
  )
  reads (d ∷ defs) o b nb i [] p r s s' low bits room clear sizes fits h = absurd (ground arith)
  reads (d ∷ defs) o b nb i (v ∷ values) p r s s' low bits room clear (size, sizes) (fit, fits) h =
      elim (Bool-cases v.is_null) [
        | inl z ↦
            let (nullable, h) =
              reject-eq-ok (not d.nullable) invalid _ (then-eq v.is_null _ _ z h) in
            let n : d.nullable ≡ true = not-eq-false _ nullable in
            let f = field_at d o b in
            let o' : ℕ = o + type_width d.type d.size in
            let b' : ℕ = if d.nullable then b + 1 else b in
            let bit_eq : f.null_bit ≡ b = ap (λ c. if c then b else no_null_bit) n in
            let next : b' ≡ b + 1 = ap (λ c. if c then b + 1 else b) n in
            let q = set_null_bit p f.null_bit in
            let same : set_null_bit p b ≡ q = ap (set_null_bit p) (sym bit_eq) in
            let lt : b < 8 * nb = ground arith in
            let u1 : Untouched o b nb p q =
              subst (Untouched o b nb p) same (set_null_bit-Untouched o b nb p lt (omega arith)) in
            let (u, rest) =
              reads defs o' b' nb (i + 1) values q r s s' (omega arith) (ground arith)
                (omega (arith, u1.size))
                (λ m hm hk.
                  ap (λ z. null_bit_set z m) (sym same)
                  ∙ set_null_bit-Clear b nb p (omega arith) lt clear m (omega (arith, hm, next)) hk)
                sizes fits h in
            (
              Untouched-again o o' b b' nb p q r (omega arith) (omega (arith, next)) u1 u,
              (
                read_null f i v r z n (
                    ap (null_bit_set r) bit_eq
                    ∙ u.bits b (omega (arith, next))
                    ∙ ap (λ z. null_bit_set z b) (sym same)
                    ∙ set_null_bit-set p b (omega arith)),
                rest,
              ),
            )
        | inr z ↦
            let ((q, s1), e, h) =
              >>=-ok (encode_field fl fb (some resolve) s i (field_at d o b) v) _
                (else-eq v.is_null _ _ z h) in
            let len = encode_typed-length fl fb resolve d.type (field_at d o b) v i s s1 q e in
            let b' : ℕ = if d.nullable then b + 1 else b in
            let above : b ≤ b' = ground arith in
            let (u, rest) =
              reads defs (o + type_width d.type d.size) b' nb (i + 1) values (write p o q) r s1 s'
                (omega arith) (ground arith) (omega (arith, length-write p o q))
                (write-Clear o b b' nb p q low above clear) sizes fits h in
            let st =
              write-Stands o (o + type_width d.type d.size) b' nb p q r low (omega (arith, len))
                (omega (arith, len)) u in
            (
              Untouched-again o (o + type_width d.type d.size) b b' nb p (write p o q) r
                  (omega arith) above (write-Untouched o b nb p q (omega arith) low) u,
              (
                read_present (field_at d o b) i v r q s s1 z
                    (and-false d.nullable _ (λ n.
                      ap (null_bit_set r) (ap (λ c. if c then b else no_null_bit) n)
                      ∙ u.bits b (omega (arith, ap (λ c. if c then b + 1 else b) n))
                      ∙ null_bit_set-same p (write p o q) b
                          (byte-write_before p o q (8 + b / 8) (ground arith))
                      ∙ clear b (omega arith) (ground arith)))
                    refl size fit e
                    (drop-Stands q r o (omega (arith, len, u.size, length-write p o q)) st),
                rest,
              ),
            )
      ]
