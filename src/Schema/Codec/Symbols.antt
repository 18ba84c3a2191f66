-- ===== src/Schema/Codec/Symbols.antt =====
-- A field that was encoded reads back by a reader whose dictionary need not be the writer's.
use webanalyticsdb.Prelude.{
  ℕ, ◌^◌, ◌<◌, ◌≤◌, ◌≡◌, refl, Bool, true, false, if◌then◌else◌, arith, not, ◌||◌, List, ◌++◌, some,
  ltb, length,
}
use webanalyticsdb.Core.Status.{Result, ok, err, invalid, reject, reject-eq-ok}
use webanalyticsdb.Core.Text.{utf8}
use webanalyticsdb.Core.Types.{
  FieldType, i8, u8, i16, u16, i32, u32, i64, u64, f32, f64, bool, timestamp_us, uuid, bytes, text,
  symbol32, type_width,
}
use webanalyticsdb.Query.Values.{FloatOps, Value}
use webanalyticsdb.Schema.{Field, max_row_bytes}
use webanalyticsdb.Schema.Codec.{FloatBits, encode_field, decode_field, blank, max_string_bytes}
use webanalyticsdb.Schema.Codec.RoundTrip.{
  Gives, IsFaithful, Learns, ReadsAs, FitsValue, symbol_bytes, le_value_4,
  decode_field-encode_field,
}

abbrev pub is_symbol : FieldType → Bool
is_symbol t = elim t [ symbol32 ↦ true | _ ↦ false ]

module _ (fl : FloatOps) (fb : FloatBits fl) (faithful : IsFaithful fl fb) {S : Type 0}
    (resolve : S → ℕ → List ℕ → Result (ℕ × S)) (look : ℕ → ℕ → Result (List ℕ)) where
  -- A symbol is stored as the id that the resolver gave for its string in some state; it reads back
  -- as the string where the reader's dictionary resolves that id to it.
  abbrev pub ReadsSymbol : ℕ → Value fl.F → Result (Value fl.F) → Type 0
  ReadsSymbol i v m =
      (s s' : S) × (id : ℕ) × (resolve s i v.bytes ≡ ok (id, s'))
      × (id < 2 ^ 32 → look i id ≡ ok v.bytes → ReadsAs fl fb symbol32 v m)

  abbrev pub ReadsBack : ℕ → FieldType → Value fl.F → Result (Value fl.F) → Type 0
  ReadsBack i t v m = if is_symbol t then ReadsSymbol i v m else ReadsAs fl fb t v m

  abbrev with_type : FieldType → Field → Field
  with_type t f = record f { type = t }

  refuse : S → ℕ → List ℕ → Result (ℕ × S)
  refuse s field p = err invalid

  refuse-Learns : Learns refuse (λ s. look)
  unfolding refuse
  refuse-Learns s s' field id p h = absurd (ground arith)

  read_symbol :
      (f : Field) (v : Value fl.F) (i : ℕ) (s s' : S) (p rest : List ℕ)
      → f.width ≡ 4
      → Gives (encode_field fl fb (some resolve) s i (with_type symbol32 f) v) p s'
      → ReadsSymbol i v (decode_field fl fb (some look) i (with_type symbol32 f) (p ++ rest))
  unfolding encode_field decode_field blank reject
  read_symbol f v i s s' p rest width h =
      let (bad, e) =
        reject-eq-ok (ltb max_string_bytes (length v.bytes) || not (utf8 v.bytes)) invalid _ h in
      let (id, learnt, nonzero, q) = symbol_bytes resolve s s' i v.bytes p e in
      (
        s,
        s',
        id,
        learnt,
        λ small found.
            rw (q, width, le_value_4 id rest small, nonzero, found) (_, refl, refl, refl),
      )

  -- Every type but a symbol's leaves the resolver alone.
  read_other :
      (f : Field) (v : Value fl.F) (i : ℕ) (s s' : S) (p rest : List ℕ)
      → f.width ≡ type_width f.type f.size
      → f.size ≤ max_row_bytes
      → FitsValue v
      → Gives (encode_field fl fb (some refuse) s i f v) p s'
      → ReadsAs fl fb f.type v (decode_field fl fb (some look) i f (p ++ rest))
  read_other = λ f v i s s' p rest.
      decode_field-encode_field fl fb faithful refuse (λ s. look) refuse-Learns f v i s s' p rest

  read_typed :
      (t : FieldType) (f : Field) (v : Value fl.F) (i : ℕ) (s s' : S) (p rest : List ℕ)
      → f.width ≡ type_width t f.size
      → f.size ≤ max_row_bytes
      → FitsValue v
      → Gives (encode_field fl fb (some resolve) s i (with_type t f) v) p s'
      → ReadsBack i t v (decode_field fl fb (some look) i (with_type t f) (p ++ rest))
  unfolding encode_field type_width
  read_typed i8 f v i s s' p rest width small fits h =
      read_other (with_type i8 f) v i s s' p rest width small fits h
  read_typed u8 f v i s s' p rest width small fits h =
      read_other (with_type u8 f) v i s s' p rest width small fits h
  read_typed i16 f v i s s' p rest width small fits h =
      read_other (with_type i16 f) v i s s' p rest width small fits h
  read_typed u16 f v i s s' p rest width small fits h =
      read_other (with_type u16 f) v i s s' p rest width small fits h
  read_typed i32 f v i s s' p rest width small fits h =
      read_other (with_type i32 f) v i s s' p rest width small fits h
  read_typed u32 f v i s s' p rest width small fits h =
      read_other (with_type u32 f) v i s s' p rest width small fits h
  read_typed i64 f v i s s' p rest width small fits h =
      read_other (with_type i64 f) v i s s' p rest width small fits h
  read_typed u64 f v i s s' p rest width small fits h =
      read_other (with_type u64 f) v i s s' p rest width small fits h
  read_typed f32 f v i s s' p rest width small fits h =
      read_other (with_type f32 f) v i s s' p rest width small fits h
  read_typed f64 f v i s s' p rest width small fits h =
      read_other (with_type f64 f) v i s s' p rest width small fits h
  read_typed bool f v i s s' p rest width small fits h =
      read_other (with_type bool f) v i s s' p rest width small fits h
  read_typed timestamp_us f v i s s' p rest width small fits h =
      read_other (with_type timestamp_us f) v i s s' p rest width small fits h
  read_typed uuid f v i s s' p rest width small fits h =
      read_other (with_type uuid f) v i s s' p rest width small fits h
  read_typed bytes f v i s s' p rest width small fits h =
      read_other (with_type bytes f) v i s s' p rest width small fits h
  read_typed text f v i s s' p rest width small fits h =
      read_other (with_type text f) v i s s' p rest width small fits h
  read_typed symbol32 f v i s s' p rest width small fits h = read_symbol f v i s s' p rest width h

  -- A field that `wadb_encode_field` accepts reads back, whatever stands behind it in the row.
  pub reads_back :
      (f : Field) (v : Value fl.F) (i : ℕ) (s s' : S) (p rest : List ℕ)
      → f.width ≡ type_width f.type f.size
      → f.size ≤ max_row_bytes
      → FitsValue v
      → Gives (encode_field fl fb (some resolve) s i f v) p s'
      → ReadsBack i f.type v (decode_field fl fb (some look) i f (p ++ rest))
  reads_back f = read_typed f.type f
