-- ===== src/Schema/Layout.antt =====
-- What a schema that was built looks like, and which definitions have one.
use native.Mathlib.Decide.{dec_le}
use webanalyticsdb.Prelude.{
  ℕ, ◌+◌, ◌-◌, ◌*◌, ◌/◌, ◌%◌, ◌≤◌, ◌<◌, ◌≡◌, ◌≢◌, refl, subst, ◌↔◌, arith, Bool, true, false, not,
  ◌||◌, ◌&&◌, List, [], ◌∷◌, ◌++◌, ltb, ◌==◌, if◌then◌else◌, length, le→ltb-false, lt→ltb,
  Bool-cases, ltb→lt, or-eq-false, not-eq-false, inl, inr, All,
}
use webanalyticsdb.Core.Status.{
  Status, Result, ok, err, limit, invalid, reject, reject-eq-ok, >>-ok, >>=-ok, ok-eq-ok, ◌>>=◌,
  ◌>>◌,
}
use webanalyticsdb.Core.Types.{type_width}
use webanalyticsdb.Core.Bytes.{bytes_eq}
use webanalyticsdb.Core.Bytes.Laws.{bytes_eq_refl, bytes_eq→eq}
use webanalyticsdb.Core.Text.{identifier}
use webanalyticsdb.Schema.{
  FieldDef, Field, Schema, max_fields, max_row_bytes, time_name, time_field, is_sized, bad_size,
  has_name, check_def, check_defs, count_nullable, field_at, place, schema_of, schema_build,
}

-- The fields lie one behind the other, from an offset to an end inside a row, in the order of their
-- definitions, and the nullable ones have consecutive bits.
abbrev pub Placed : ℕ → ℕ → List FieldDef → List Field → ℕ → Type 0
Placed offset bit [] [] end = offset ≡ end
Placed offset bit [] (f ∷ fields) end = ⊥
Placed offset bit (d ∷ defs) [] end = ⊥
Placed offset bit (d ∷ defs) (f ∷ fields) end =
    (f ≡ field_at d offset bit)
    × (offset + type_width d.type d.size ≤ max_row_bytes)
    × Placed (offset + type_width d.type d.size) (if d.nullable then bit + 1 else bit) defs fields
        end

abbrev pub total_width : List FieldDef → ℕ
total_width [] = 0
total_width (d ∷ defs) = type_width d.type d.size + total_width defs

abbrev IsPlacing : ℕ → ℕ → List FieldDef → List Field × ℕ → Type 0
IsPlacing offset bit defs (fields, end) =
    Placed offset bit defs fields end × (end ≡ offset + total_width defs) × (end ≤ max_row_bytes)

place_next :
    (d : FieldDef) (defs : List FieldDef) (offset bit : ℕ) (rest r : List Field × ℕ)
    → offset + type_width d.type d.size ≤ max_row_bytes
    → IsPlacing (offset + type_width d.type d.size) (if d.nullable then bit + 1 else bit) defs rest
    → (field_at d offset bit ∷ rest.0, rest.1) ≡ r
    → IsPlacing offset bit (d ∷ defs) r
place_next d defs offset bit rest r fits (placed, width, le) e =
    subst (IsPlacing offset bit (d ∷ defs)) e ((refl, fits, placed), omega arith, le)

placed_rest :
    (d : FieldDef) (offset bit : ℕ) (rest : Result (List Field × ℕ)) (r : List Field × ℕ)
    → type_width d.type d.size ≤ max_row_bytes - offset
    → (if ltb (max_row_bytes - offset) (type_width d.type d.size)
        then err limit
        else rest >>= λ (fields, end). ok (field_at d offset bit ∷ fields, end))
      ≡ ok r
    → (p : List Field × ℕ) × (rest ≡ ok p) × ((field_at d offset bit ∷ p.0, p.1) ≡ r)
placed_rest d offset bit (err e) r fits h = absurd (ground arith)
placed_rest d offset bit (ok p) r fits h = (p, refl, ok-eq-ok _ r (ground arith))

place-IsPlacing :
    (defs : List FieldDef) (offset bit : ℕ) (r : List Field × ℕ)
    → offset ≤ max_row_bytes
    → place offset bit defs ≡ ok r
    → IsPlacing offset bit defs r
unfolding place
place-IsPlacing [] offset bit r le h =
    subst (IsPlacing offset bit []) (ok-eq-ok ([], offset) r h) (refl, omega arith, le)
place-IsPlacing (d ∷ defs) offset bit r le h =
    let width = type_width d.type d.size in
    let bit' = if d.nullable then bit + 1 else bit in
    elim (dec_le width (max_row_bytes - offset)) [
      | no wide ↦ absurd (ground arith)
      | yes fits ↦
          let (rest, q, e) = placed_rest d offset bit (place (offset + width) bit' defs) r fits h in
          place_next d defs offset bit rest r (omega arith)
            (place-IsPlacing defs (offset + width) bit' rest (omega arith) q) e
    ]

place_fits :
    (defs : List FieldDef) (offset bit : ℕ)
    → offset + total_width defs ≤ max_row_bytes
    → (r : List Field × ℕ) × (place offset bit defs ≡ ok r)
unfolding place
place_fits [] offset bit le = (([], offset), refl)
place_fits (d ∷ defs) offset bit le =
    let ((fields, end), q) =
      place_fits defs (offset + type_width d.type d.size) (if d.nullable then bit + 1 else bit)
        (omega arith) in
    (
      ((field_at d offset bit ∷ fields), end),
      rw (le→ltb-false (max_row_bytes - offset) (type_width d.type d.size) (omega arith), q) refl,
    )

-- The row of a schema: _time first, then the bitmap with a bit for each nullable field, then the
-- fields, then less than 8 bytes of padding.
pub record IsLayout (defs : List FieldDef) (s : Schema) : Type 0 where
  pub user : List Field
  pub end : ℕ
  pub fields : s.fields ≡ time_field ∷ user
  pub placed : Placed (8 + s.null_bytes) 0 defs user end
  pub bitmap : count_nullable defs ≤ 8 * s.null_bytes
  pub bitmap_tight : 8 * s.null_bytes < count_nullable defs + 8
  pub aligned : s.row_width % 8 ≡ 0
  pub above_end : end ≤ s.row_width
  pub padding : s.row_width < end + 8
  pub fits : s.row_width ≤ max_row_bytes

schema_of-IsLayout :
    (defs : List FieldDef) (r : List Field × ℕ)
    → IsPlacing (8 + (count_nullable defs + 7) / 8) 0 defs r
    → IsLayout defs (schema_of ((count_nullable defs + 7) / 8) r)
unfolding schema_of
schema_of-IsLayout defs (fields, end) (placed, width, le) = record {
  user = fields;
  end = end;
  fields = refl;
  placed = placed;
  bitmap = omega arith;
  bitmap_tight = omega arith;
  aligned = omega arith;
  above_end = omega arith;
  padding = omega arith;
  fits = omega arith;
}

count_nullable-le : (defs : List FieldDef) → count_nullable defs ≤ length defs
unfolding count_nullable
count_nullable-le [] = omega arith
count_nullable-le (d ∷ defs) = ground (arith, count_nullable-le defs)

-- The definition of a field, behind those before it: a name of its own, a size where the type takes
-- one and none elsewhere.
abbrev pub ValidDef : List FieldDef → FieldDef → Type 0
ValidDef seen d =
    (identifier d.name ≡ true)
    × (d.name ≢ time_name)
    × All (λ e. d.name ≢ e.name) seen
    × (if is_sized d.type then (0 < d.size) × (d.size ≤ max_row_bytes) else d.size ≡ 0)

abbrev pub ValidDefs : List FieldDef → List FieldDef → Type 0
ValidDefs seen [] = Unit {0}
ValidDefs seen (d ∷ defs) = ValidDef seen d × ValidDefs (seen ++ (d ∷ [])) defs

bytes_eq-false_iff : (p q : List ℕ) → (bytes_eq p q ≡ false) ↔ (p ≢ q)
bytes_eq-false_iff p q = (
  (λ h e. absurd (cc (h, e, bytes_eq_refl q))),
  λ ne. elim (Bool-cases (bytes_eq p q)) [ inl h ↦ absurd (ne (bytes_eq→eq p q h)) | inr h ↦ h ],
)

has_name_iff :
    (name : List ℕ) (seen : List FieldDef)
    → (has_name name seen ≡ false) ↔ All (λ e. name ≢ e.name) seen
unfolding has_name
has_name_iff name [] = ground arith
has_name_iff name (e ∷ seen) =
    ground (arith, bytes_eq-false_iff name e.name, has_name_iff name seen)

bad_size_iff :
    (d : FieldDef)
    → (bad_size d ≡ false)
      ↔ (if is_sized d.type then (0 < d.size) × (d.size ≤ max_row_bytes) else d.size ≡ 0)
unfolding bad_size
bad_size_iff d =
    elim (is_sized d.type)
      as (λ z.
        ((z && (d.size == 0 || ltb max_row_bytes d.size) || not z && not (d.size == 0)) ≡ false)
        ↔ (if z then (0 < d.size) × (d.size ≤ max_row_bytes) else d.size ≡ 0)) [
          | true ↦ ground arith
          | false ↦ ground arith
        ]

type_width-pos : (d : FieldDef) → bad_size d ≡ false → (type_width d.type d.size == 0) ≡ false
unfolding bad_size is_sized type_width
type_width-pos d h = ground arith

>>-eq-ok : (m k : Result (Unit {0})) → ((m >> k) ≡ ok tt) ↔ ((m ≡ ok tt) × (k ≡ ok tt))
>>-eq-ok (ok x) k = ((λ h. (refl, h)), λ (a, b). b)
>>-eq-ok (err e) k = ((λ h. absurd (ground arith)), λ (a, b). a)

reject_iff : (bad : Bool) (e : Status) → (reject bad e ≡ ok tt) ↔ (bad ≡ false)
unfolding reject
reject_iff true e = ground arith
reject_iff false e = ground arith

check_def_iff : (seen : List FieldDef) (d : FieldDef) → (check_def seen d ≡ ok tt) ↔ ValidDef seen d
unfolding check_def
check_def_iff seen d =
    let names = bytes_eq-false_iff d.name time_name in
    let others = has_name_iff d.name seen in
    let size = bad_size_iff d in
    (
      (λ h.
          let (name_ok, h) = (>>-eq-ok _ _).0 h in
          let (new, h) = (>>-eq-ok _ _).0 h in
          let (sized, h) = (>>-eq-ok _ _).0 h in
          let (id, reserved) =
            or-eq-false (not (identifier d.name)) _ ((reject_iff _ _).0 name_ok) in
          (
            not-eq-false _ id,
            names.0 reserved,
            others.0 ((reject_iff _ _).0 new),
            size.0 ((reject_iff _ _).0 sized),
          )),
      λ (id, reserved, new, sized).
          let sized' = size.1 sized in
          (>>-eq-ok _ _).1 (
            (reject_iff _ _).1 (ground (arith, names.1 reserved)),
            (>>-eq-ok _ _).1 (
              (reject_iff _ _).1 (others.1 new),
              (>>-eq-ok _ _).1
                  ((reject_iff _ _).1 sized', (reject_iff _ _).1 (type_width-pos d sized')),
            ),
          ),
    )

check_defs_iff : (seen defs : List FieldDef) → (check_defs seen defs ≡ ok tt) ↔ ValidDefs seen defs
unfolding check_defs
check_defs_iff seen [] = ((λ h. tt), λ h. refl)
check_defs_iff seen (d ∷ defs) =
    let first = check_def_iff seen d in
    let rest = check_defs_iff (seen ++ (d ∷ [])) defs in
    let both = >>-eq-ok (check_def seen d) (check_defs (seen ++ (d ∷ [])) defs) in
    ((λ h. (first.0 (both.0 h).0, rest.0 (both.0 h).1)), λ (v, vs). both.1 (first.1 v, rest.1 vs))

built :
    (defs : List FieldDef) (s : Schema)
    → schema_build defs ≡ ok s
    → (length defs < 256)
      × (check_defs [] defs ≡ ok tt)
      × (r : List Field × ℕ) × (place (8 + (count_nullable defs + 7) / 8) 0 defs ≡ ok r)
      × (schema_of ((count_nullable defs + 7) / 8) r ≡ s)
unfolding schema_build
built defs s h =
    let (few, h) = reject-eq-ok (not (ltb (length defs) max_fields)) invalid _ h in
    let (valid, h) = >>-ok (check_defs [] defs) _ h in
    let (r, placed, e) = >>=-ok (place (8 + (count_nullable defs + 7) / 8) 0 defs) _ h in
    (ltb→lt _ _ (not-eq-false _ few), valid, r, placed, ok-eq-ok _ s e)

-- The time, the bitmap and the fields fit in a row.
abbrev pub HasRoom : List FieldDef → Type 0
HasRoom defs = 8 + (count_nullable defs + 7) / 8 + total_width defs ≤ max_row_bytes

-- `wadb_schema_build` succeeds exactly on at most 255 definitions, each with a name of its own that
-- is an identifier and not _time, and with a size where its type takes one, that fit in a row of
-- 16384 bytes with the time and the bitmap.
pub schema_build_iff :
    (defs : List FieldDef)
    → ((s : Schema) × (schema_build defs ≡ ok s))
      ↔ ((length defs < 256) × ValidDefs [] defs × HasRoom defs)
unfolding schema_build reject
schema_build_iff defs =
    let nulls = count_nullable-le defs in
    (
      (λ (s, h).
          let (few, valid, r, placed, e) = built defs s h in
          let (p, width, fits) =
            place-IsPlacing defs (8 + (count_nullable defs + 7) / 8) 0 r (omega (arith, few, nulls))
              placed in
          (few, (check_defs_iff [] defs).0 valid, omega (arith, width, fits))),
      λ (few, valid, room).
          let (r, q) = place_fits defs (8 + (count_nullable defs + 7) / 8) 0 room in
          (
            schema_of ((count_nullable defs + 7) / 8) r,
            rw (lt→ltb (length defs) max_fields few, (check_defs_iff [] defs).1 valid, q) refl,
          ),
    )

-- The row of a schema that was built: the time, a bitmap with a bit for each nullable field and
-- less than 8 unused ones, the fields one behind the other in the order of their definitions, less
-- than 8 bytes of padding; at most 16384 bytes in all.
pub schema_build-IsLayout :
    (defs : List FieldDef) (s : Schema) → schema_build defs ≡ ok s → IsLayout defs s
schema_build-IsLayout defs s h =
    let (few, valid, r, placed, e) = built defs s h in
    let nulls = count_nullable-le defs in
    subst (IsLayout defs) e (
      schema_of-IsLayout defs r (
        place-IsPlacing defs (8 + (count_nullable defs + 7) / 8) 0 r (omega (arith, few, nulls))
          placed))
