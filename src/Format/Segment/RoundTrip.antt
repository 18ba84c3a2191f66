-- ===== src/Format/Segment/RoundTrip.antt =====
-- A segment header reads back as it was written, and nothing else is read as a header.
use webanalyticsdb.Prelude.{
  take, sym, or-eq-false, not-eq-false, ne-eq-false, ℕ, ◌-◌, ◌^◌, ◌<◌, ◌≡◌, refl, ◌∙◌, ap, arith,
  true, false, List, ◌++◌, length, All,
}
use webanalyticsdb.Prelude.Int.{pos, negsuc, ◌≤ℤ◌}
use webanalyticsdb.Core.Status.{reject-eq-ok, Result, ok, err, reject}
use webanalyticsdb.Core.Bytes.{IsByte, read, get_u32, get_u64, get_i64, from_i64, put_u32, zeroes}
use webanalyticsdb.Core.Bytes.Laws.{
  zeroes-read, from_i64-to_i64, get_u64-lt, bytes_eq→eq, split, split_last, read-get_u32,
  read-get_u64, to_i64-from_i64, from_i64-lt,
}
use webanalyticsdb.Core.Checksum.{crc32c, crc32c-lt}
use webanalyticsdb.Format.Segment.{
  segment_magic, SegmentHeader, bad_segment_header, segment_header_fields, segment_encode,
  segment_write, segment_header_read, check_segment_values, segment_decode,
}

-- The fields hold values of their C types.
pub record FitsHeader (h : SegmentHeader) : Type 0 where
  pub table_id_fits : h.table_id < 2 ^ 64
  pub segment_id_fits : h.segment_id < 2 ^ 64
  pub schema_hash_fits : h.schema_hash < 2 ^ 64
  pub row_width_fits : h.row_width < 2 ^ 32
  pub day_start_above : negsuc (2 ^ 63 - 1) ≤ℤ h.day_start
  pub day_start_below : h.day_start ≤ℤ pos (2 ^ 63 - 1)
  pub first_sequence_fits : h.first_sequence < 2 ^ 64

abbrev sealed : SegmentHeader → List ℕ
sealed h = put_u32 (segment_header_fields h) 124 (crc32c (read (segment_header_fields h) 0 124))

sealed_crc : (h : SegmentHeader) → get_u32 (sealed h) 124 ≡ crc32c (read (sealed h) 0 124)
unfolding segment_header_fields put_u32 get_u32
sealed_crc h = omega (arith, crc32c-lt (read (segment_header_fields h) 0 124))

sealed_words :
    (h : SegmentHeader)
    → FitsHeader h
    → (get_u64 (sealed h) 16 ≡ h.table_id)
      × (get_u64 (sealed h) 24 ≡ h.segment_id)
      × (get_u64 (sealed h) 32 ≡ h.schema_hash)
      × (get_u32 (sealed h) 40 ≡ h.row_width)
      × (get_u64 (sealed h) 48 ≡ from_i64 h.day_start)
      × (get_u64 (sealed h) 56 ≡ h.first_sequence)
unfolding segment_header_fields put_u32 get_u64 get_u32
sealed_words h f = omega (arith, from_i64-lt h.day_start f.day_start_below)

sealed_read : (h : SegmentHeader) → FitsHeader h → segment_header_read (sealed h) ≡ h
unfolding segment_header_read get_i64
sealed_read h f =
    ground
      (arith, sealed_words h f, to_i64-from_i64 h.day_start f.day_start_above f.day_start_below)

segment_encode-eq_ok :
    (h : SegmentHeader) (p : List ℕ)
    → segment_encode h ≡ ok p
    → (bad_segment_header h ≡ false) × (p ≡ sealed h)
unfolding segment_encode segment_write reject
segment_encode-eq_ok h p e = ground arith

-- The checks of the decoder pass on what the encoder writes.
segment_decode-sealed :
    (h : SegmentHeader)
    → segment_decode (sealed h)
      ≡ check_segment_values
          (segment_header_read (sealed h))
          (segment_encode (segment_header_read (sealed h)))
unfolding segment_decode reject segment_header_fields put_u32 get_u32
segment_decode-sealed h = ground (arith, sealed_crc h)

-- `wadb_segment_decode` reads back the header that `wadb_segment_encode` wrote, if the fields hold
-- values of their C types.
pub segment_decode-segment_encode :
    (h : SegmentHeader) (p : List ℕ)
    → FitsHeader h
    → segment_encode h ≡ ok p
    → segment_decode p ≡ ok h
unfolding check_segment_values reject
segment_decode-segment_encode h p f e =
    let (good, is_sealed) = segment_encode-eq_ok h p e in
    rw is_sealed (segment_decode-sealed h ∙ rw (sealed_read h f, e) refl)

-- A buffer of 128 bytes, cut where the fields stand.
cut :
    (p : List ℕ)
    → length p ≡ 128
    → p
      ≡ read p 0 8
        ++ (read p 8 4
            ++ (read p 12 4
                ++ (read p 16 8
                    ++ (read p 24 8
                        ++ (read p 32 8
                            ++ (read p 40 4
                                ++ (read p 44 4
                                    ++ (read p 48 8
                                        ++ (read p 56 8 ++ (read p 64 60 ++ read p 124 4))))))))))
cut p h = split 0 8 p (
    split 8 4 p (
      split 12 4 p (
        split 16 8 p (
          split 24 8 p (
            split 32 8 p (
              split 40 4 p (
                split 44 4 p
                  (split 48 8 p (split 56 8 p (split 64 60 p (split_last 124 4 p h)))))))))))

-- What the decoder has tested when it accepts.
record Accepted (p : List ℕ) (h : SegmentHeader) : Type 0 where
  size : length p ≡ 128
  magic : read p 0 8 ≡ segment_magic
  checksum : get_u32 p 124 ≡ crc32c (read p 0 124)
  format : get_u32 p 8 ≡ 1
  header_size : get_u32 p 12 ≡ 128
  reserved_44 : zeroes (read p 44 4) ≡ true
  reserved_64 : zeroes (read p 64 60) ≡ true
  values : segment_header_read p ≡ h
  good : bad_segment_header h ≡ false

check_segment_values-eq_ok :
    (h : SegmentHeader) (r : Result (List ℕ)) {k : SegmentHeader}
    → check_segment_values h r ≡ ok k
    → (h ≡ k) × ((q : List ℕ) × (r ≡ ok q))
unfolding check_segment_values
check_segment_values-eq_ok h (ok q) e = (cc, (q, refl))
check_segment_values-eq_ok h (err s) e = cc

segment_decode-Accepted : (p : List ℕ) (h : SegmentHeader) → segment_decode p ≡ ok h → Accepted p h
unfolding segment_decode
segment_decode-Accepted p h e =
    let (shape, e) = reject-eq-ok _ _ _ e in
    let shape = or-eq-false _ _ shape in
    let (crc, e) = reject-eq-ok _ _ _ e in
    let (format, e) = reject-eq-ok _ _ _ e in
    let (reserved, e) = reject-eq-ok _ _ _ e in
    let reserved = or-eq-false _ _ reserved in
    let reserved' = or-eq-false _ _ reserved.0 in
    let (values, (q, e)) = check_segment_values-eq_ok (segment_header_read p) _ e in
    record {
      size = ne-eq-false _ _ shape.0;
      magic = bytes_eq→eq (read p 0 8) segment_magic (not-eq-false _ shape.1);
      checksum = sym (ne-eq-false _ _ crc);
      format = ne-eq-false _ _ format;
      header_size = ne-eq-false _ _ reserved'.0;
      reserved_44 = not-eq-false _ reserved'.1;
      reserved_64 = not-eq-false _ reserved.1;
      values = values;
      good = rw (← values) (segment_encode-eq_ok (segment_header_read p) q e).0;
    }

-- Every accepted buffer is the encoder's fields with the checksum that it holds.
Accepted-fields :
    (p : List ℕ) (h : SegmentHeader)
    → All IsByte p
    → Accepted p h
    → p ≡ put_u32 (segment_header_fields (segment_header_read p)) 124 (get_u32 p 124)
unfolding segment_header_fields segment_header_read put_u32 get_i64
Accepted-fields p h b a =
    cut p a.size
    ∙ rw (
      a.magic,
      read-get_u32 p 8 b (omega (arith, a.size)),
      read-get_u32 p 12 b (omega (arith, a.size)),
      read-get_u64 p 16 b (omega (arith, a.size)),
      read-get_u64 p 24 b (omega (arith, a.size)),
      read-get_u64 p 32 b (omega (arith, a.size)),
      read-get_u32 p 40 b (omega (arith, a.size)),
      read-get_u64 p 48 b (omega (arith, a.size)),
      read-get_u64 p 56 b (omega (arith, a.size)),
      read-get_u32 p 124 b (omega (arith, a.size)),
      zeroes-read p 44 4 (omega (arith, a.size)) a.reserved_44,
      zeroes-read p 64 60 (omega (arith, a.size)) a.reserved_64,
      a.format,
      a.header_size,
      from_i64-to_i64 (get_u64 p 48) (get_u64-lt p 48 b),
    )

-- The checksum that was tested is the one that the encoder computes.
Accepted-sealed : (p : List ℕ) (h : SegmentHeader) → All IsByte p → Accepted p h → p ≡ sealed h
unfolding segment_header_fields put_u32
Accepted-sealed p h b a =
    let e = Accepted-fields p h b a in rw (← a.values) (e ∙ rw (a.checksum, ap (take 124) e))

-- What `wadb_segment_decode` accepts is exactly the encoding of the header that it returns: it
-- ignores no byte.
pub segment_encode-segment_decode :
    (p : List ℕ) (h : SegmentHeader)
    → All IsByte p
    → segment_decode p ≡ ok h
    → segment_encode h ≡ ok p
unfolding segment_encode segment_write reject
segment_encode-segment_decode p h b e =
    let a = segment_decode-Accepted p h e in rw (a.good, ← Accepted-sealed p h b a)
