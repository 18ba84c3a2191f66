-- ===== src/Schema/Codec.antt =====
-- core/schema.c: `wadb_encode_field`, and what `wadb_decode_value` does with a field that is not
-- null. The bytes that the first writes from the field's place on are its result; the second reads
-- the row from that place on. The representation of float and double and the dictionary, which
-- resolves symbols, are parameters.
pub mod RoundTrip
pub mod Symbols
use webanalyticsdb.Prelude.{
  ℕ, zero, suc, ◌+◌, ◌-◌, ◌*◌, ◌/◌, ◌%◌, ◌^◌, Bool, true, false, not, ◌||◌, ◌&&◌, List, [], ◌∷◌,
  ◌++◌, Option, none, some, ltb, leb, ◌==◌, if◌then◌else◌, length, take,
}
use webanalyticsdb.Prelude.Int.{ℤ, pos, negsuc, ltb_ℤ}
use webanalyticsdb.Core.Status.{Result, ok, err, invalid, corrupt, reject, ◌>>=◌, ◌>>◌}
use webanalyticsdb.Core.Bytes.{le_bytes, get_u32, get_i64, from_i64, read}
use webanalyticsdb.Core.Text.{utf8}
use webanalyticsdb.Core.Types.{
  FieldType, i8, u8, i16, u16, i32, u32, i64, u64, f32, f64, bool, timestamp_us, uuid, bytes, text,
  symbol32,
}
use webanalyticsdb.Query.Values.{FloatOps, Value}
use webanalyticsdb.Schema.{Field}

abbrev pub max_string_bytes : ℕ
max_string_bytes = 65536

-- The representation of double, and of float by way of the conversions from and to double.
pub record FloatBits (fl : FloatOps) : Type 0 where
  pub to_bits64 : fl.F → ℕ
  pub of_bits64 : ℕ → fl.F
  pub to_bits32 : fl.F → ℕ
  pub of_bits32 : ℕ → fl.F
  pub within_float : fl.F → Bool
  pub zero_f : fl.F

-- `wadb_symbol_encode_fn` over a state, and `wadb_symbol_decode_fn`; NULL is `none`.
abbrev pub Encoder : Type 0 → Type 0
Encoder S = Option (S → ℕ → List ℕ → Result (ℕ × S))

abbrev pub Decoder : Type 0
Decoder = Option (ℕ → ℕ → Result (List ℕ))

unfoldable pub encode_signed : ℕ → ℤ → Result (List ℕ)
encode_signed width v = do
  let bits = width * 8
  reject
      (ltb bits 64
        && (ltb_ℤ v (negsuc (2 ^ (bits - 1) - 1)) || not (ltb_ℤ v (pos (2 ^ (bits - 1))))))
      invalid
  ok (le_bytes width (from_i64 v))

unfoldable pub encode_unsigned : Bool → ℕ → ℕ → Result (List ℕ)
encode_unsigned is_bool width u = do
  reject (ltb width 8 && leb (2 ^ (width * 8)) u || is_bool && ltb 1 u) invalid
  ok (le_bytes width u)

unfoldable pub encode_symbol : {S : Type 0} → Encoder S → S → ℕ → List ℕ → Result (List ℕ × S)
encode_symbol none s field p = err invalid
encode_symbol (some resolve) s field p = do
  (id, s) ← resolve s field p
  reject (id == 0) invalid
  ok (le_bytes 4 id, s)

abbrev pub with_state : {S : Type 0} → S → Result (List ℕ) → Result (List ℕ × S)
with_state s m = m >>= λ p. ok (p, s)

-- The bytes of a number, the lowest first.
unfoldable pub le_value : ℕ → List ℕ → ℕ
le_value zero p = 0
le_value (suc n) [] = 0
le_value (suc n) (b ∷ p) = b + 256 * le_value n p

-- The number of `width` bytes that has the bit pattern u.
unfoldable pub sign_extend : ℕ → ℕ → ℤ
sign_extend width u =
    if u / 2 ^ (width * 8 - 1) % 2 == 0 then pos u else negsuc (2 ^ (width * 8) - 1 - u)

module _ (fl : FloatOps) (fb : FloatBits fl) where
  unfoldable pub encode_field :
      {S : Type 0} → Encoder S → S → ℕ → Field → Value fl.F → Result (List ℕ × S)
  unfolding encode_signed encode_unsigned encode_symbol
  encode_field resolve s field f v = elim f.type [
    | i8 ↦ with_state s (encode_signed f.width v.i64)
    | i16 ↦ with_state s (encode_signed f.width v.i64)
    | i32 ↦ with_state s (encode_signed f.width v.i64)
    | i64 ↦ with_state s (encode_signed f.width v.i64)
    | timestamp_us ↦ with_state s (encode_signed f.width v.i64)
    | u8 ↦ with_state s (encode_unsigned false f.width v.u64)
    | u16 ↦ with_state s (encode_unsigned false f.width v.u64)
    | u32 ↦ with_state s (encode_unsigned false f.width v.u64)
    | u64 ↦ with_state s (encode_unsigned false f.width v.u64)
    | bool ↦ with_state s (encode_unsigned true f.width v.u64)
    | f32 ↦ do
      reject (not (fl.is_finite v.f64) || not (fb.within_float v.f64)) invalid
      ok (le_bytes f.width (fb.to_bits32 v.f64), s)
    | f64 ↦ do
      reject (not (fl.is_finite v.f64)) invalid
      ok (le_bytes f.width (fb.to_bits64 v.f64), s)
    | uuid ↦ do reject (not (length v.bytes == f.width)) invalid; ok (v.bytes, s)
    | bytes ↦ do reject (not (length v.bytes == f.width)) invalid; ok (v.bytes, s)
    | text ↦ do
      reject (ltb f.size (length v.bytes) || not (utf8 v.bytes)) invalid
      ok (le_bytes 4 (length v.bytes) ++ v.bytes, s)
    | symbol32 ↦ do
      reject (ltb max_string_bytes (length v.bytes) || not (utf8 v.bytes)) invalid
      encode_symbol resolve s field v.bytes
  ]

  -- What memset leaves of the result.
  unfoldable pub blank : Value fl.F
  blank = record { is_null = false; i64 = pos 0; u64 = 0; f64 = fb.zero_f; bytes = [] }

  unfoldable pub decode_symbol : Decoder → ℕ → ℕ → Result (Value fl.F)
  unfolding blank
  decode_symbol none field u = err corrupt
  decode_symbol (some resolve) field u = do
    reject (u == 0) corrupt
    p ← resolve field u
    ok (record blank { bytes = p })

  unfoldable pub decode_field : Decoder → ℕ → Field → List ℕ → Result (Value fl.F)
  unfolding blank sign_extend decode_symbol
  decode_field resolve field f p =
      let u = if leb f.width 8 then le_value f.width p else 0 in
      elim f.type [
        | i8 ↦ ok (record blank { i64 = sign_extend f.width u })
        | i16 ↦ ok (record blank { i64 = sign_extend f.width u })
        | i32 ↦ ok (record blank { i64 = sign_extend f.width u })
        | i64 ↦ ok (record blank { i64 = get_i64 p 0 })
        | timestamp_us ↦ ok (record blank { i64 = get_i64 p 0 })
        | u8 ↦ ok (record blank { u64 = u })
        | u16 ↦ ok (record blank { u64 = u })
        | u32 ↦ ok (record blank { u64 = u })
        | u64 ↦ ok (record blank { u64 = u })
        | bool ↦ do reject (ltb 1 u) corrupt; ok (record blank { u64 = u })
        | f32 ↦ do
          reject (not (fl.is_finite (fb.of_bits32 u))) corrupt
          ok (record blank { f64 = fb.of_bits32 u })
        | f64 ↦ do
          reject (not (fl.is_finite (fb.of_bits64 u))) corrupt
          ok (record blank { f64 = fb.of_bits64 u })
        | uuid ↦ ok (record blank { bytes = take f.width p })
        | bytes ↦ ok (record blank { bytes = take f.width p })
        | text ↦ do
          let n = get_u32 p 0
          reject (ltb f.size n || not (utf8 (read p 4 n))) corrupt
          ok (record blank { bytes = read p 4 n })
        | symbol32 ↦ decode_symbol resolve field u
      ]
