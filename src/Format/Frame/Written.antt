-- ===== src/Format/Frame/Written.antt =====
-- What a reader finds in the buffer that `frame_write` leaves.
use webanalyticsdb.Prelude.{
  ℕ, ◌+◌, ◌-◌, ◌^◌, ◌≤◌, ◌<◌, ◌≡◌, refl, ◌∙◌, arith, Bool, false, not, ◌||◌, List, [], ◌++◌, length,
  length-append, replicate, take, drop, take-append_left, drop-append_left, ltb, ◌==◌,
}
use webanalyticsdb.Prelude.Int.{pos, negsuc, ◌≤ℤ◌}
use webanalyticsdb.Core.Bytes.{
  read, get_u32, get_u64, get_i64, from_i64, le_bytes, put_u32, bytes_eq, zeroes,
}
use webanalyticsdb.Core.Bytes.Laws.{to_i64-from_i64, from_i64-lt, length-write, get_u32-drop}
use webanalyticsdb.Core.Checksum.{crc32c, crc32c-lt}
use webanalyticsdb.Format.Frame.{
  Frame, frame_magic, end_magic, frame_header_fields, frame_header_read,
}
use webanalyticsdb.Format.Frame.Layout.{
  HasSizes, header_bytes, trailer_bytes, unsealed, write_third, drop_skip, take-write,
  length-header_bytes,
}

-- The fields hold values of their C types.
pub record FitsFrame (f : Frame) : Type 0 where
  pub row_count_fits : f.row_count < 2 ^ 32
  pub row_width_fits : f.row_width < 2 ^ 32
  pub dictionary_count_fits : f.dictionary_count < 2 ^ 32
  pub dictionary_bytes_fits : f.dictionary_bytes < 2 ^ 32
  pub first_sequence_fits : f.first_sequence < 2 ^ 64
  pub schema_hash_fits : f.schema_hash < 2 ^ 64
  pub min_time_above : negsuc (2 ^ 63 - 1) ≤ℤ f.min_time
  pub min_time_below : f.min_time ≤ℤ pos (2 ^ 63 - 1)
  pub max_time_above : negsuc (2 ^ 63 - 1) ≤ℤ f.max_time
  pub max_time_below : f.max_time ≤ℤ pos (2 ^ 63 - 1)

header_words :
    (f : Frame) (total : ℕ) (x : List ℕ)
    → FitsFrame f
    → total < 2 ^ 32
    → let p = header_bytes f total ++ x in
      (get_u32 p 8 ≡ total)
      × (get_u32 p 16 ≡ f.row_count)
      × (get_u32 p 20 ≡ f.row_width)
      × (get_u64 p 24 ≡ f.first_sequence)
      × (get_u64 p 32 ≡ from_i64 f.min_time)
      × (get_u64 p 40 ≡ from_i64 f.max_time)
      × (get_u32 p 48 ≡ f.dictionary_bytes)
      × (get_u32 p 52 ≡ f.dictionary_count)
      × (get_u64 p 64 ≡ f.schema_hash)
unfolding header_bytes frame_header_fields put_u32 get_u32 get_u64
header_words f total x s small =
    omega (arith, from_i64-lt f.min_time s.min_time_below, from_i64-lt f.max_time s.max_time_below)

header_rows_offset :
    (f : Frame) (total : ℕ) (x : List ℕ)
    → f.dictionary_bytes ≤ 2 ^ 20
    → get_u32 (header_bytes f total ++ x) 56 ≡ 80 + f.dictionary_bytes
unfolding header_bytes frame_header_fields put_u32 get_u32
header_rows_offset f total x small = omega arith

-- The frame as its header tells it.
abbrev pub header_of : Frame → ℕ → Frame
header_of f total = record f {
  dictionary = [];
  rows = [];
  frame_bytes = total;
  rows_offset = 80 + f.dictionary_bytes;
}

pub frame_header_read-header_bytes :
    (f : Frame) (total : ℕ) (x : List ℕ)
    → FitsFrame f
    → total < 2 ^ 32
    → f.dictionary_bytes ≤ 2 ^ 20
    → frame_header_read (header_bytes f total ++ x) ≡ header_of f total
unfolding frame_header_read get_i64
frame_header_read-header_bytes f total x s small short = ground (
  arith,
  header_words f total x s small,
  header_rows_offset f total x short,
  to_i64-from_i64 f.min_time s.min_time_above s.min_time_below,
  to_i64-from_i64 f.max_time s.max_time_above s.max_time_below,
)

unfoldable pub bad_header : List ℕ → Bool
bad_header p =
    ltb (length p) 80
    || not (bytes_eq (read p 0 8) frame_magic)
    || not (get_u32 p 12 == 80)
    || not (crc32c (read p 0 72) == get_u32 p 72)
    || not (zeroes (read p 60 4))
    || not (zeroes (read p 76 4))

header_crc :
    (f : Frame) (total : ℕ) (x : List ℕ)
    → get_u32 (header_bytes f total ++ x) 72 ≡ crc32c (read (header_bytes f total ++ x) 0 72)
unfolding header_bytes frame_header_fields put_u32 get_u32
header_crc f total x =
    omega (arith, crc32c-lt (read (frame_header_fields f total (replicate 80 0)) 0 72))

pub header_passes :
    (f : Frame) (total : ℕ) (x : List ℕ) → bad_header (header_bytes f total ++ x) ≡ false
unfolding bad_header header_bytes frame_header_fields put_u32 get_u32 bytes_eq zeroes
header_passes f total x = ground (arith, header_crc f total x)

take-front : (xs ys : List ℕ) (n : ℕ) → length xs ≡ n → take n (xs ++ ys) ≡ xs
take-front xs ys n e = rw (← e) (take-append_left xs ys)

drop-front : (xs ys : List ℕ) (n : ℕ) → length xs ≡ n → drop n (xs ++ ys) ≡ ys
drop-front xs ys n e = rw (← e) (drop-append_left xs ys)

drop_at : (xs ys : List ℕ) (o k : ℕ) → o ≡ length xs + k → drop o (xs ++ ys) ≡ drop k ys
drop_at xs ys o k e = rw e (drop_skip xs ys k)

-- The frame that the encoder leaves behind, with c for its last checksum.
unfoldable pub written : Frame → ℕ → ℕ → List ℕ
written f total c = put_u32 (unsealed f total) (total - 4) c

unfoldable pub body_and_trailer : Frame → ℕ → ℕ → List ℕ
body_and_trailer f total c = f.dictionary ++ (f.rows ++ put_u32 (trailer_bytes total) 12 c)

module _ (f : Frame) (r total c : ℕ) (s : HasSizes f r total) (small : total < 2 ^ 32)
    (c_fits : c < 2 ^ 32) where
  pub written_parts : written f total c ≡ header_bytes f total ++ body_and_trailer f total c
  unfolding written body_and_trailer unsealed put_u32
  written_parts =
      write_third (header_bytes f total) f.dictionary f.rows (trailer_bytes total) (le_bytes 4 c)
        (total - 4) 12
        (omega (arith, s.dictionary_size, s.rows_size, s.total_size, length-header_bytes f total))

  pub length-written : length (written f total c) ≡ total
  unfolding written unsealed put_u32 trailer_bytes
  length-written =
      rw (length-write, length-append, length-append, length-append)
        (omega (arith, s.dictionary_size, s.rows_size, s.total_size, length-header_bytes f total))

  -- Behind the rows the buffer goes on with the trailer.
  trailer_at :
      (k o : ℕ)
      → o + 16 ≡ total + k
      → drop o (written f total c) ≡ drop k (put_u32 (trailer_bytes total) 12 c)
  unfolding body_and_trailer
  trailer_at k o e =
      let at_o : o ≡ length (header_bytes f total) + (length f.dictionary + (length f.rows + k)) =
        omega (arith, s.dictionary_size, s.rows_size, s.total_size, length-header_bytes f total) in
      rw (written_parts, at_o, drop_skip, drop_skip, drop_skip)

  pub trailer_reads :
      (read (written f total c) (total - 16) 8 ≡ end_magic)
      × (get_u32 (written f total c) (total - 8) ≡ total)
      × (get_u32 (written f total c) (total - 4) ≡ c)
  trailer_reads = (
    rw (trailer_at 0 (total - 16) (omega (arith, s.total_size)))
        (unfold trailer_bytes put_u32 in refl),
    get_u32-drop (written f total c) (total - 8)
        ∙ rw (trailer_at 8 (total - 8) (omega (arith, s.total_size)))
            (unfold trailer_bytes put_u32 get_u32 in omega arith),
    get_u32-drop (written f total c) (total - 4)
        ∙ rw (trailer_at 12 (total - 4) (omega (arith, s.total_size)))
            (unfold trailer_bytes put_u32 get_u32 in omega arith),
  )

  pub body_reads :
      (read (written f total c) 80 f.dictionary_bytes ≡ f.dictionary)
      × (read (written f total c) (80 + f.dictionary_bytes) r ≡ f.rows)
  unfolding body_and_trailer
  body_reads =
      let h = header_bytes f total in
      let after = f.rows ++ put_u32 (trailer_bytes total) 12 c in
      let d = f.dictionary_bytes in
      (
        rw (
          written_parts,
          drop_at h (f.dictionary ++ after) 80 0 (omega (arith, length-header_bytes f total)),
          take-front f.dictionary after d s.dictionary_size,
        ),
        rw (
          written_parts,
          drop_at h (f.dictionary ++ after) (80 + d) d (omega (arith, length-header_bytes f total)),
          drop-front f.dictionary after d s.dictionary_size,
          take-front f.rows (put_u32 (trailer_bytes total) 12 c) r s.rows_size,
        ),
      )

  pub checksum_region :
      read (written f total c) 0 (total - 4) ≡ read (unsealed f total) 0 (total - 4)
  unfolding written put_u32
  checksum_region = take-write (unsealed f total) (total - 4) (le_bytes 4 c)
