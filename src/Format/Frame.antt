-- ===== src/Format/Frame.antt =====
-- storage/format.c: `wadb_frame_encode`, `wadb_frame_inspect` and `wadb_frame_decode`. The pointers
-- `dictionary` and `rows` of a frame are the bytes that they point at.
pub mod Layout
pub mod Written
pub mod RoundTrip
use webanalyticsdb.Prelude.{
  ℕ, zero, suc, ◌+◌, ◌-◌, ◌*◌, ◌/◌, ◌%◌, ◌^◌, Bool, true, false, ◌&&◌, ◌||◌, not, List, [], ◌∷◌,
  Option, none, some, ltb, leb, ◌==◌, if◌then◌else◌, length, replicate, take, drop,
}
use webanalyticsdb.Prelude.Int.{ℤ, pos, negsuc, ltb_ℤ, ◌==ℤ◌}
use webanalyticsdb.Core.Status.{Result, ok, err, ◌>>=◌, ◌>>◌, reject, invalid, corrupt, nomem}
use webanalyticsdb.Core.Bytes.{
  read, write, get_u16, get_u32, get_u64, get_i64, from_i64, put_u32, put_u64, bytes_eq, zeroes,
}
use webanalyticsdb.Core.Checksum.{crc32c}
use webanalyticsdb.Core.Sizes.{add_size, mul_size}
use webanalyticsdb.Core.Text.{utf8}
use webanalyticsdb.Format.{
  frame_header_bytes, frame_trailer_bytes, day_us, max_row_bytes, max_frame_bytes, max_fields,
  max_string_bytes,
}

pub record Frame : Type 0 where
  pub schema_hash : ℕ
  pub first_sequence : ℕ
  pub min_time : ℤ
  pub max_time : ℤ
  pub row_count : ℕ
  pub row_width : ℕ
  pub dictionary_count : ℕ
  pub dictionary_bytes : ℕ
  pub dictionary : List ℕ
  pub rows : List ℕ
  pub frame_bytes : ℕ
  pub rows_offset : ℕ

-- "WADBBAT1" and "WADBEND1"
abbrev pub frame_magic : List ℕ
frame_magic = 87 ∷ 65 ∷ 68 ∷ 66 ∷ 66 ∷ 65 ∷ 84 ∷ 49 ∷ []

abbrev pub end_magic : List ℕ
end_magic = 87 ∷ 65 ∷ 68 ∷ 66 ∷ 69 ∷ 78 ∷ 68 ∷ 49 ∷ []

-- min_time < 0 || max_time < min_time || the two lie on different days
unfoldable pub bad_times : ℤ → ℤ → Bool
bad_times (pos a) (pos b) = ltb b a || not (a / day_us == b / day_us)
bad_times (pos a) (negsuc b) = true
bad_times (negsuc a) t = true

unfoldable pub bad_frame_values : Frame → Bool
unfolding bad_times
bad_frame_values f =
    f.row_count == 0
    || f.row_width == 0
    || ltb max_row_bytes f.row_width
    || not (f.row_width % 8 == 0)
    || f.first_sequence == 0
    || ltb (2 ^ 64 - 1 - f.first_sequence) (f.row_count - 1)
    || bad_times f.min_time f.max_time
    || not (f.dictionary_bytes % 8 == 0)
    || ltb max_frame_bytes f.dictionary_bytes
    || ltb (f.dictionary_bytes / 12) f.dictionary_count
    || (f.dictionary_count == 0 && not (f.dictionary_bytes == 0))

infixl 5 ◌>>?◌
abbrev ◌>>?◌ : {A B : Type 0} → Option A → (A → Option B) → Option B
none >>? f = none
some a >>? f = f a

-- The last test of `frame_sizes`: the frame is not too long.
unfoldable pub within_frame : ℕ → ℕ → Option (ℕ × ℕ)
within_frame rows total = if leb total max_frame_bytes then some (rows, total) else none

-- The number of bytes of the rows and of the frame.
unfoldable pub frame_sizes : Frame → Option (ℕ × ℕ)
unfolding add_size mul_size within_frame
frame_sizes f =
    if bad_frame_values f
    then none
    else (mul_size f.row_count f.row_width >>? λ rows.
        (add_size rows f.dictionary_bytes >>? λ part.
        (add_size part (frame_header_bytes + frame_trailer_bytes) >>? λ total.
        within_frame rows total)))

-- One definition of the dictionary, `left` bytes before its end: what is wrong with it.
unfoldable pub bad_definition : ℕ → List ℕ → Bool
bad_definition left p =
    get_u16 p 0 == 0
    || leb max_fields (get_u16 p 0)
    || not (get_u16 p 2 == 0)
    || get_u32 p 4 == 0
    || ltb max_string_bytes (get_u32 p 8)
    || ltb (left - 12) (get_u32 p 8)
    || not (utf8 (read p 12 (get_u32 p 8)))

-- The bytes left behind the definitions, and where they begin.
unfoldable pub definitions_end : ℕ → ℕ → List ℕ → Option (ℕ × List ℕ)
unfolding bad_definition
definitions_end zero left p = some (left, p)
definitions_end (suc n) left p =
    let rest = definitions_end n (left - (12 + get_u32 p 8)) (drop (12 + get_u32 p 8) p) in
    if ltb left 12 then none else if bad_definition left p then none else rest

unfoldable pub valid_padding : ℕ → Option (ℕ × List ℕ) → Bool
valid_padding bytes none = false
valid_padding bytes (some (left, p)) = ltb left 8 && (bytes == 0 || zeroes (take left p))

unfoldable pub dictionary_valid : Frame → Bool
unfolding definitions_end valid_padding
dictionary_valid f =
    valid_padding f.dictionary_bytes
      (definitions_end f.dictionary_count f.dictionary_bytes f.dictionary)

-- The rows from row i on.
unfoldable pub times_loop : Frame → ℕ → ℕ → ℤ → List ℕ → Bool
times_loop f zero i previous p = previous ==ℤ f.max_time
times_loop f (suc n) i previous p =
    let time = get_i64 p 0 in
    let rest = times_loop f n (i + 1) time (drop f.row_width p) in
    if ltb_ℤ time previous || ltb_ℤ f.max_time time || (i == 0 && not (time ==ℤ f.min_time))
    then false
    else rest

unfoldable pub times_valid : Frame → Bool
unfolding times_loop
times_valid f = times_loop f f.row_count 0 f.min_time f.rows

-- The header, without its checksum, in a buffer that calloc has cleared.
unfoldable pub frame_header_fields : Frame → ℕ → List ℕ → List ℕ
unfolding put_u32 put_u64
frame_header_fields f total p =
    let p = write p 0 frame_magic in
    let p = put_u32 p 8 total in
    let p = put_u32 p 12 frame_header_bytes in
    let p = put_u32 p 16 f.row_count in
    let p = put_u32 p 20 f.row_width in
    let p = put_u64 p 24 f.first_sequence in
    let p = put_u64 p 32 (from_i64 f.min_time) in
    let p = put_u64 p 40 (from_i64 f.max_time) in
    let p = put_u32 p 48 f.dictionary_bytes in
    let p = put_u32 p 52 f.dictionary_count in
    let p = put_u32 p 56 (frame_header_bytes + f.dictionary_bytes) in put_u64 p 64 f.schema_hash

-- Dictionary, rows and trailer, up to the frame's checksum.
unfoldable pub frame_body : Frame → ℕ → ℕ → List ℕ → List ℕ
unfolding put_u32
frame_body f rows total p =
    let p = write p frame_header_bytes (take f.dictionary_bytes f.dictionary) in
    let p = write p (frame_header_bytes + f.dictionary_bytes) (take rows f.rows) in
    let p = write p (total - frame_trailer_bytes) end_magic in put_u32 p (total - 8) total

unfoldable pub frame_write : Frame → ℕ → ℕ → List ℕ
frame_write f rows total =
    let p = frame_header_fields f total (replicate total 0) in
    let p = put_u32 p 72 (crc32c (read p 0 72)) in
    let p = frame_body f rows total p in put_u32 p (total - 4) (crc32c (read p 0 (total - 4)))

unfoldable pub encode_sized : (ℕ → Bool) → Frame → Option (ℕ × ℕ) → Result (List ℕ)
encode_sized calloc f none = err invalid
encode_sized calloc f (some (rows, total)) = do
  reject (not (dictionary_valid f) || not (times_valid f)) invalid
  reject (not (calloc total)) nomem
  ok (frame_write f rows total)

-- `calloc n` says whether an allocation of n bytes succeeds.
unfoldable pub frame_encode : (ℕ → Bool) → Frame → Result (List ℕ)
unfolding encode_sized
frame_encode calloc f = encode_sized calloc f (frame_sizes f)

unfoldable pub frame_header_read : List ℕ → Frame
frame_header_read p = record {
  schema_hash = get_u64 p 64;
  first_sequence = get_u64 p 24;
  min_time = get_i64 p 32;
  max_time = get_i64 p 40;
  row_count = get_u32 p 16;
  row_width = get_u32 p 20;
  dictionary_count = get_u32 p 52;
  dictionary_bytes = get_u32 p 48;
  dictionary = [];
  rows = [];
  frame_bytes = get_u32 p 8;
  rows_offset = get_u32 p 56;
}

unfoldable pub inspect_sized : Frame → Option (ℕ × ℕ) → Result Frame
inspect_sized f none = err corrupt
inspect_sized f (some (rows, total)) = do
  reject
      (not (total == f.frame_bytes)
        || not (f.rows_offset == frame_header_bytes + f.dictionary_bytes))
      corrupt
  ok f

unfoldable pub frame_inspect : List ℕ → Result Frame
unfolding inspect_sized
frame_inspect p = do
  reject
      (ltb (length p) frame_header_bytes
        || not (bytes_eq (read p 0 8) frame_magic)
        || not (get_u32 p 12 == frame_header_bytes)
        || not (crc32c (read p 0 72) == get_u32 p 72)
        || not (zeroes (read p 60 4))
        || not (zeroes (read p 76 4)))
      corrupt
  let f = frame_header_read p
  inspect_sized f (frame_sizes f)

-- The pointers into the frame, set once its checksum is right.
unfoldable pub with_body : List ℕ → Frame → Frame
with_body p f = record f {
  dictionary = read p frame_header_bytes f.dictionary_bytes;
  rows = read p f.rows_offset (f.row_count * f.row_width);
}

unfoldable pub decode_body : List ℕ → Frame → Result Frame
unfolding with_body
decode_body p f = do
  let n = length p
  reject
      (not (n == f.frame_bytes)
        || not (bytes_eq (read p (n - frame_trailer_bytes) 8) end_magic)
        || not (get_u32 p (n - 8) == n)
        || not (crc32c (read p 0 (n - 4)) == get_u32 p (n - 4)))
      corrupt
  let f = with_body p f
  reject (not (dictionary_valid f) || not (times_valid f)) corrupt
  ok f

unfoldable pub frame_decode : List ℕ → Result Frame
frame_decode p = do f ← frame_inspect p; decode_body p f
