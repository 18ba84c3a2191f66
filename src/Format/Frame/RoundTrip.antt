-- ===== src/Format/Frame/RoundTrip.antt =====
-- A frame reads back as it was written.
use webanalyticsdb.Prelude.{
  ℕ, zero, suc, drop, ◌+◌, ◌-◌, ◌*◌, ◌^◌, ◌≤◌, ◌<◌, ◌≡◌, refl, ap, sym, ◌∙◌, arith, Bool, true,
  List, ◌++◌, Option, none, some, length,
}
use webanalyticsdb.Prelude.Int.{ℤ}
use webanalyticsdb.Core.Status.{ok, reject}
use webanalyticsdb.Core.Bytes.{get_i64, read, get_u32}
use webanalyticsdb.Core.Bytes.Laws.{bytes_eq_refl}
use webanalyticsdb.Core.Checksum.{crc32c, crc32c-lt}
use webanalyticsdb.Format.Frame.{
  Frame, end_magic, frame_write, frame_sizes, bad_frame_values, dictionary_valid, times_valid,
  times_loop, encode_sized, frame_encode, inspect_sized, frame_inspect, with_body, decode_body,
  frame_decode,
}
use webanalyticsdb.Format.Frame.Layout.{HasSizes, header_bytes, unsealed, frame_write-unsealed}
use webanalyticsdb.Format.Frame.Written.{
  FitsFrame, header_of, frame_header_read-header_bytes, bad_header, header_passes, written,
  written_parts, length-written, trailer_reads, body_reads, checksum_region,
}

-- What `frame_sizes` computes when it accepts.
pub frame_sizes_lem :
    (f : Frame) (r total : ℕ)
    → frame_sizes f ≡ some (r, total)
    → (r ≡ f.row_count * f.row_width)
      × (total ≡ 80 + (f.dictionary_bytes + (r + 16)))
      × (total ≤ 2 ^ 20)
unfolding frame_sizes
frame_sizes_lem f r total e = ground arith

pub encode_sized-eq_ok :
    (calloc : ℕ → Bool) (f : Frame) (o : Option (ℕ × ℕ)) (p : List ℕ)
    → encode_sized calloc f o ≡ ok p
    → (r : ℕ) × (total : ℕ) × (o ≡ some (r, total))
      × (dictionary_valid f ≡ true)
      × (times_valid f ≡ true)
      × (p ≡ frame_write f r total)
unfolding encode_sized reject
encode_sized-eq_ok calloc f none p e = cc
encode_sized-eq_ok calloc f (some (r, total)) p e =
    (r, total, refl, ground arith, ground arith, ground arith)

sizes-header_of : (f : Frame) (total : ℕ) → frame_sizes (header_of f total) ≡ frame_sizes f
unfolding frame_sizes bad_frame_values
sizes-header_of f total = refl

-- The last tests of `frame_inspect`, on what the header tells.
inspect_sized-header_of :
    (f : Frame) (r total : ℕ)
    → inspect_sized (header_of f total) (some (r, total)) ≡ ok (header_of f total)
unfolding inspect_sized reject
inspect_sized-header_of f r total = ground arith

frame_inspect-header_bytes :
    (f : Frame) (r total : ℕ) (x : List ℕ)
    → FitsFrame f
    → frame_sizes f ≡ some (r, total)
    → frame_inspect (header_bytes f total ++ x) ≡ ok (header_of f total)
unfolding frame_inspect reject bad_header
frame_inspect-header_bytes f r total x fits e =
    let (r_is, total_is, small) = frame_sizes_lem f r total e in
    rw
      (
        header_passes f total x,
        frame_header_read-header_bytes f total x fits (omega arith) (omega arith),
        sizes-header_of,
        e,
      )
      (inspect_sized-header_of f r total)

-- The frame that a reader gets: what was written, with the two numbers that the writer fills in.
pub decoded : Frame → ℕ → Frame
decoded f total = record f { frame_bytes = total; rows_offset = 80 + f.dictionary_bytes }

dictionary_valid-decoded :
    (f : Frame) (total : ℕ) → dictionary_valid (decoded f total) ≡ dictionary_valid f
unfolding dictionary_valid decoded
dictionary_valid-decoded f total = refl

times_loop-decoded :
    (f : Frame) (total n i : ℕ) (previous : ℤ) (p : List ℕ)
    → times_loop (decoded f total) n i previous p ≡ times_loop f n i previous p
unfolding times_loop decoded
times_loop-decoded f total zero i previous p = refl
times_loop-decoded f total (suc n) i previous p =
    rw (times_loop-decoded f total n (i + 1) (get_i64 p 0) (drop f.row_width p))

times_valid-decoded : (f : Frame) (total : ℕ) → times_valid (decoded f total) ≡ times_valid f
unfolding times_valid decoded
times_valid-decoded f total = times_loop-decoded f total f.row_count 0 f.min_time f.rows

decode_body_lem :
    (p : List ℕ) (f : Frame)
    → length p ≡ f.frame_bytes
    → read p (length p - 16) 8 ≡ end_magic
    → get_u32 p (length p - 8) ≡ length p
    → get_u32 p (length p - 4) ≡ crc32c (read p 0 (length p - 4))
    → dictionary_valid (with_body p f) ≡ true
    → times_valid (with_body p f) ≡ true
    → decode_body p f ≡ ok (with_body p f)
unfolding decode_body reject
decode_body_lem p f size magic again crc dv tv =
    rw (magic, again, crc, dv, tv) (ground (arith, bytes_eq_refl end_magic))

module _ (f : Frame) (r total : ℕ) (fits : FitsFrame f) (s : HasSizes f r total)
    (e : frame_sizes f ≡ some (r, total)) where
  abbrev checksum : ℕ
  checksum = crc32c (read (unsealed f total) 0 (total - 4))

  abbrev sealed : List ℕ
  sealed = written f total checksum

  small : total < 2 ^ 32
  small = omega (arith, frame_sizes_lem f r total e)

  length-sealed : length sealed ≡ total
  length-sealed = length-written f r total checksum s small (crc32c-lt _)

  with_body-sealed : with_body sealed (header_of f total) ≡ decoded f total
  unfolding with_body decoded
  with_body-sealed =
      let (d, rows) = body_reads f r total checksum s small (crc32c-lt _) in
      rw (d, ← (frame_sizes_lem f r total e).0, rows)

  inspect-sealed : frame_inspect sealed ≡ ok (header_of f total)
  inspect-sealed =
      rw (written_parts f r total checksum s small (crc32c-lt _))
        (frame_inspect-header_bytes f r total _ fits e)

  decode-sealed :
      dictionary_valid f ≡ true → times_valid f ≡ true → frame_decode sealed ≡ ok (decoded f total)
  unfolding frame_decode
  decode-sealed dv tv =
      let (magic, again, crc) = trailer_reads f r total checksum s small (crc32c-lt _) in
      rw inspect-sealed (
        decode_body_lem sealed (header_of f total) length-sealed (rw length-sealed magic)
          (rw length-sealed again)
          (rw length-sealed (rw (checksum_region f r total checksum s small (crc32c-lt _)) crc))
          (rw with_body-sealed (dictionary_valid-decoded f total ∙ dv))
          (rw with_body-sealed (times_valid-decoded f total ∙ tv))
        ∙ ap ok with_body-sealed)

-- `wadb_frame_decode` reads back what `wadb_frame_encode` wrote, with the frame's length and the
-- place of its rows filled in, if the fields hold values of their C types and the two pointers lead
-- to as many bytes as the fields say.
pub frame_decode-frame_encode :
    (calloc : ℕ → Bool) (f : Frame) (p : List ℕ)
    → FitsFrame f
    → length f.dictionary ≡ f.dictionary_bytes
    → length f.rows ≡ f.row_count * f.row_width
    → frame_encode calloc f ≡ ok p
    → frame_decode p ≡ ok (decoded f (length p))
unfolding frame_encode
frame_decode-frame_encode calloc f p fits d rows e =
    let (r, total, sizes, dv, tv, is_written) = encode_sized-eq_ok calloc f (frame_sizes f) p e in
    let (r_is, total_is, _) = frame_sizes_lem f r total sizes in
    let s : HasSizes f r total = record {
      dictionary_size = d;
      rows_size = rows ∙ sym r_is;
      total_size = total_is;
    } in
    let whole : p ≡ sealed f r total fits s sizes =
      is_written ∙ (frame_write-unsealed f r total s ∙ unfold written in refl) in
    rw (whole, length-sealed f r total fits s sizes) (decode-sealed f r total fits s sizes dv tv)
