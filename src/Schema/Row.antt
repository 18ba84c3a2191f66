-- ===== src/Schema/Row.antt =====
-- core/schema.c: `wadb_encode_row` and `wadb_decode_value`. A row starts with the time, then the
-- bitmap of the nulls, then the fields.
pub mod Frame
pub mod RoundTrip
pub mod Whole
mod Examples
use webanalyticsdb.Prelude.{
  ℕ, ◌+◌, ◌-◌, ◌*◌, ◌/◌, ◌%◌, ◌^◌, Bool, true, false, not, ◌||◌, ◌&&◌, List, [], ◌∷◌, ltb, leb,
  ◌==◌, if◌then◌else◌, length, drop, replicate, Option, none, some, get_elem?,
}
use webanalyticsdb.Prelude.Int.{ℤ}
use webanalyticsdb.Core.Status.{Result, ok, err, invalid, reject, ◌>>=◌, ◌>>◌}
use webanalyticsdb.Core.Bytes.{byte, write, put_u64, from_i64}
use webanalyticsdb.Query.Values.{FloatOps, Value}
use webanalyticsdb.Schema.{Field, Schema}
use webanalyticsdb.Schema.Codec.{FloatBits, Encoder, Decoder, encode_field, decode_field, blank}

-- p[8 + n / 8] & (1 << n % 8)
abbrev pub null_bit_set : List ℕ → ℕ → Bool
null_bit_set p n = byte p (8 + n / 8) / 2 ^ (n % 8) % 2 == 1

-- p[8 + n / 8] |= 1 << n % 8: where the bit is clear, the sum.
unfoldable pub set_null_bit : List ℕ → ℕ → List ℕ
set_null_bit p n =
    if null_bit_set p n then p else write p (8 + n / 8) ((byte p (8 + n / 8) + 2 ^ (n % 8)) ∷ [])

module _ (fl : FloatOps) (fb : FloatBits fl) where
  -- The fields from the i-th on, into the row so far.
  unfoldable pub encode_fields :
      {S : Type 0}
      → Encoder S
      → ℕ
      → List Field
      → List (Value fl.F)
      → List ℕ
      → S
      → Result (List ℕ × S)
  encode_fields resolve i [] values p s = ok (p, s)
  encode_fields resolve i (f ∷ fields) [] p s = err invalid
  encode_fields resolve i (f ∷ fields) (v ∷ values) p s =
      if v.is_null
      then (do
        reject (not f.nullable) invalid
        encode_fields resolve (i + 1) fields values (set_null_bit p f.null_bit) s)
      else (do
        (q, s) ← encode_field fl fb resolve s i f v
        encode_fields resolve (i + 1) fields values (write p f.offset q) s)

  -- `cap` is the room in the caller's buffer; `values` holds a value for each field but the time.
  unfoldable pub encode_row :
      {S : Type 0} → Encoder S → Schema → List (Value fl.F) → ℤ → ℕ → S → Result (List ℕ × S)
  unfolding encode_fields
  encode_row resolve schema values time cap s = do
    reject (ltb cap schema.row_width) invalid
    let p = put_u64 (replicate schema.row_width 0) 0 (from_i64 time)
    encode_fields resolve 1 (drop 1 schema.fields) values p s

  unfoldable pub decode_at : Decoder → ℕ → Option Field → List ℕ → Result (Value fl.F)
  unfolding blank
  decode_at resolve i none row = err invalid
  decode_at resolve i (some f) row =
      if f.nullable && null_bit_set row f.null_bit
      then ok (record (blank fl fb) { is_null = true })
      else decode_field fl fb resolve i f (drop f.offset row)

  unfoldable pub decode_value : Decoder → Schema → ℕ → List ℕ → Result (Value fl.F)
  unfolding decode_at
  decode_value resolve schema i row = decode_at resolve i (get_elem? schema.fields i) row
