-- ===== src/Schema/Row/Whole.antt =====
-- The round trip of a whole row, through a schema that was built.
use webanalyticsdb.Prelude.{
  ℕ, zero, suc, ◌+◌, ◌/◌, ◌%◌, ◌^◌, ◌≤◌, ◌<◌, ◌≡◌, refl, ap, subst, sym, ◌∙◌, true, false, List, [],
  ◌∷◌, ltb, ◌==◌, if◌then◌else◌, length, drop, replicate, get_elem?, arith, All, some,
  length-replicate,
}
use native.Mathlib.Nat.{zero-div}
use webanalyticsdb.Prelude.Int.{ℤ}
use webanalyticsdb.Core.Status.{Result, ok, invalid, reject, reject-eq-ok}
use webanalyticsdb.Core.Bytes.{byte, get_i64, put_u64, le_bytes, from_i64}
use webanalyticsdb.Core.Bytes.Laws.{length-write, byte-write_self, byte-write_after}
use webanalyticsdb.Core.Types.{type_width}
use webanalyticsdb.Query.Values.{FloatOps, Value}
use webanalyticsdb.Schema.{Field, FieldDef, Schema, field_at, is_sized, max_row_bytes, schema_build}
use webanalyticsdb.Schema.Layout.{
  Placed, total_width, schema_build-IsLayout, schema_build_iff, ValidDefs,
}
use webanalyticsdb.Schema.Codec.{FloatBits, encode_signed, decode_field, blank}
use webanalyticsdb.Schema.Row.Frame.{drop-Stands}
use webanalyticsdb.Schema.Codec.RoundTrip.{Gives, IsFaithful, FitsValue, FitsInt, signed_8}
use webanalyticsdb.Schema.Row.{encode_row, encode_fields, decode_at, decode_value}
use webanalyticsdb.Schema.Row.RoundTrip.{fields_of, reads, ReadsAll, ReadsField, Clear, Untouched}

Placed-fields :
    (o b : ℕ) (defs : List FieldDef) (fields : List Field) (end : ℕ)
    → Placed o b defs fields end
    → (fields ≡ fields_of o b defs) × (end ≡ o + total_width defs)
Placed-fields o b [] [] end h = (refl, omega arith)
Placed-fields o b [] (f ∷ fields) end h = absurd h
Placed-fields o b (d ∷ defs) [] end h = absurd h
Placed-fields o b (d ∷ defs) (f ∷ fields) end (e, fits, h) =
    let (q, w) =
      Placed-fields (o + type_width d.type d.size) (if d.nullable then b + 1 else b) defs fields end
        h in
    (ap (λ z. z ∷ fields) e ∙ ap (◌∷◌ (field_at d o b)) q, omega (arith, w))

valid_size :
    (d : FieldDef)
    → (if is_sized d.type then (0 < d.size) × (d.size ≤ max_row_bytes) else d.size ≡ 0)
    → d.size ≤ max_row_bytes
valid_size d h =
    elim (is_sized d.type)
        as (λ z.
          (if z then (0 < d.size) × (d.size ≤ max_row_bytes) else d.size ≡ 0)
          → d.size ≤ max_row_bytes) [ true ↦ λ h. h.1 | false ↦ λ h. omega (arith, h) ]
      h

valid_sizes :
    (seen defs : List FieldDef) → ValidDefs seen defs → All (λ d. d.size ≤ max_row_bytes) defs
valid_sizes seen [] h = tt
valid_sizes seen (d ∷ defs) ((id, reserved, new, size), h) =
    (valid_size d size, valid_sizes _ defs h)

byte-replicate : (n i : ℕ) → byte (replicate n 0) i ≡ 0
byte-replicate zero i = refl
byte-replicate (suc n) zero = refl
byte-replicate (suc n) (suc i) = byte-replicate n i

-- The row before its first field: the time, and no bit of the bitmap.
blank_row : ℕ → ℤ → List ℕ
unfolding put_u64
blank_row width time = put_u64 (replicate width 0) 0 (from_i64 time)

blank_row-Clear : (width nb : ℕ) (time : ℤ) → Clear 0 nb (blank_row width time)
unfolding blank_row
blank_row-Clear width nb time m h k =
    ap (λ z. z / 2 ^ (m % 8) % 2 == 1)
      (byte-write_after (replicate width 0) 0 (le_bytes 8 (from_i64 time)) (8 + m / 8) (omega arith)
        ∙ byte-replicate width (8 + m / 8))
    ∙ ap (λ z. z % 2 == 1) (zero-div (2 ^ (m % 8)))

some-eq : {A : Type 0} (a b : A) → some a ≡ some b → a ≡ b
some-eq a b h = cc

get_elem?-drop : {A : Type 0} (xs : List A) (j : ℕ) → get_elem? (drop 1 xs) j ≡ get_elem? xs (suc j)
get_elem?-drop [] j = refl
get_elem?-drop (x ∷ xs) j = refl

module _ (fl : FloatOps) (fb : FloatBits fl) (faithful : IsFaithful fl fb) {S : Type 0}
    (resolve : S → ℕ → List ℕ → Result (ℕ × S)) (look : ℕ → ℕ → Result (List ℕ)) where
  ReadsAll-at :
      (fields : List Field) (i j : ℕ) (values : List (Value fl.F)) (r : List ℕ) (f : Field)
      (v : Value fl.F)
      → ReadsAll fl fb faithful resolve look i fields values r
      → get_elem? fields j ≡ some f
      → get_elem? values j ≡ some v
      → ReadsField fl fb faithful resolve look
          (i + j)
          f
          v
          (decode_at fl fb (some look) (i + j) (some f) r)
  ReadsAll-at [] i j values r f v h ef ev = absurd (ground arith)
  ReadsAll-at (g ∷ fields) i j [] r f v h ef ev = absurd h
  ReadsAll-at (g ∷ fields) i zero (w ∷ values) r f v (h, hs) ef ev =
      subst
        (λ n.
          ReadsField fl fb faithful resolve look n f v (decode_at fl fb (some look) n (some f) r))
        (omega arith)
        (subst
          (λ z.
            ReadsField fl fb faithful resolve look i f z (decode_at fl fb (some look) i (some f) r))
          (some-eq w v ev)
          (subst
            (λ z.
              ReadsField fl fb faithful resolve look i z w
                (decode_at fl fb (some look) i (some z) r))
            (some-eq g f ef) h))
  ReadsAll-at (g ∷ fields) i (suc j) (w ∷ values) r f v (h, hs) ef ev =
      subst
        (λ n.
          ReadsField fl fb faithful resolve look n f v (decode_at fl fb (some look) n (some f) r))
        (omega arith) (ReadsAll-at fields (i + 1) j values r f v hs ef ev)

  row_reads :
      (defs : List FieldDef) (schema : Schema) (values : List (Value fl.F)) (time : ℤ) (cap : ℕ)
      (s s' : S) (row : List ℕ)
      → schema_build defs ≡ ok schema
      → All FitsValue values
      → Gives (encode_row fl fb (some resolve) schema values time cap s) row s'
      → Untouched (8 + schema.null_bytes) 0 schema.null_bytes (blank_row schema.row_width time) row
        × ReadsAll fl fb faithful resolve look 1 (drop 1 schema.fields) values row
  unfolding encode_row blank_row
  row_reads defs schema values time cap s s' row built fits h =
      let l = schema_build-IsLayout defs schema built in
      let (few, valid, room) = (schema_build_iff defs).0 (schema, built) in
      let (same, end) = Placed-fields _ _ defs l.user l.end l.placed in
      let user : drop 1 schema.fields ≡ fields_of (8 + schema.null_bytes) 0 defs =
        ap (drop 1) l.fields ∙ same in
      let (small, h) = reject-eq-ok (ltb cap schema.row_width) invalid _ h in
      let start = blank_row schema.row_width time in
      let size : length start ≡ schema.row_width =
        length-write (replicate schema.row_width 0) 0 (le_bytes 8 (from_i64 time))
        ∙ length-replicate {A = ℕ} schema.row_width 0 in
      subst
        (λ fs.
          Untouched (8 + schema.null_bytes) 0 schema.null_bytes start row
          × ReadsAll fl fb faithful resolve look 1 fs values row)
        (sym user)
        (reads fl fb faithful resolve look defs (8 + schema.null_bytes) 0 schema.null_bytes 1 values
          start row s s' (omega arith) (omega (arith, l.bitmap))
          (omega (arith, size, end, l.above_end))
          (blank_row-Clear schema.row_width schema.null_bytes time) (valid_sizes [] defs valid) fits
          (subst (λ fs. Gives (encode_fields fl fb (some resolve) 1 fs values start s) row s') user
            h))

  -- Every field of a row that `wadb_encode_row` wrote reads back: a null as a null, another value as
  -- the same number or text (a float with its precision), and a symbol, which is stored as the id
  -- that the resolver gave for its string in some state, as that string where the dictionary of the
  -- reader resolves this id of 32 bits to it. The schema was built, the values fit their C types,
  -- doubles keep their bits, and a float in range is a number.
  pub decode_value-encode_row :
      (defs : List FieldDef) (schema : Schema) (values : List (Value fl.F)) (time : ℤ) (cap : ℕ)
      (s s' : S) (row : List ℕ)
      → schema_build defs ≡ ok schema
      → All FitsValue values
      → Gives (encode_row fl fb (some resolve) schema values time cap s) row s'
      → (j : ℕ) (f : Field) (v : Value fl.F) → get_elem? schema.fields (suc j) ≡ some f
      → get_elem? values j ≡ some v
      → ReadsField fl fb faithful resolve look
          (suc j)
          f
          v
          (decode_value fl fb (some look) schema (suc j) row)
  unfolding decode_value
  decode_value-encode_row defs schema values time cap s s' row built fits h j f v ef ev =
      let all = (row_reads defs schema values time cap s s' row built fits h).1 in
      subst
        (λ o.
          ReadsField fl fb faithful resolve look (suc j) f v
            (decode_at fl fb (some look) (suc j) o row))
        (sym ef)
        (subst
          (λ n.
            ReadsField fl fb faithful resolve look n f v
              (decode_at fl fb (some look) n (some f) row))
          (omega arith)
          (ReadsAll-at (drop 1 schema.fields) 1 j values row f v all
            (get_elem?-drop schema.fields j ∙ ef) ev))

  -- The time of a row that `wadb_encode_row` wrote reads back as field 0.
  pub decode_value-encode_row_time :
      (defs : List FieldDef) (schema : Schema) (values : List (Value fl.F)) (time : ℤ) (cap : ℕ)
      (s s' : S) (row : List ℕ)
      → schema_build defs ≡ ok schema
      → All FitsValue values
      → FitsInt time
      → Gives (encode_row fl fb (some resolve) schema values time cap s) row s'
      → (w : Value fl.F) × (decode_value fl fb (some look) schema 0 row ≡ ok w)
        × (w.is_null ≡ false)
        × (w.i64 ≡ time)
  unfolding decode_value decode_field blank_row encode_signed reject blank
  decode_value-encode_row_time defs schema values time cap s s' row built fits int h =
      let u = (row_reads defs schema values time cap s s' row built fits h).0 in
      let l = schema_build-IsLayout defs schema built in
      let same = Placed-fields _ _ defs l.user l.end l.placed in
      let zeros : List ℕ = replicate {A = ℕ} schema.row_width 0 in
      let q = le_bytes 8 (from_i64 time) in
      let room : 8 ≤ schema.row_width = omega (arith, l.above_end, same.1) in
      let (rest, e) =
        drop-Stands q row 0
          (omega
            (arith, u.size, length-write zeros 0 q, length-replicate {A = ℕ} schema.row_width 0))
          (λ i lt.
            u.head (0 + i) (omega arith)
            ∙ byte-write_self zeros 0 q i lt
                (omega (arith, length-replicate {A = ℕ} schema.row_width 0))) in
      subst
        (λ fs.
          (w : Value fl.F) × (decode_at fl fb (some look) 0 (get_elem? fs 0) row ≡ ok w)
          × (w.is_null ≡ false)
          × (w.i64 ≡ time))
        (sym l.fields) (_, refl, refl, ap (λ z. get_i64 z 0) e ∙ signed_8 time q rest int refl)
