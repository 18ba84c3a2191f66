-- ===== src/Format/Frame/Layout.antt =====
-- The bytes that `frame_write` leaves: header, dictionary, rows and trailer, one after the other.
use native.Mathlib.Nat.{add-zero, zero-add, suc-add}
use webanalyticsdb.Prelude.{
  ℕ, zero, suc, ◌+◌, ◌-◌, ◌≡◌, refl, ap, sym, ◌∙◌, arith, List, [], ◌∷◌, ◌++◌, length, replicate,
  take, drop, take-length, length-replicate,
}
use webanalyticsdb.Core.Bytes.{write, read, le_bytes, put_u32}
use webanalyticsdb.Core.Checksum.{crc32c}
use webanalyticsdb.Format.Frame.{Frame, end_magic, frame_header_fields, frame_body, frame_write}

replicate-add : (m n : ℕ) (x : ℕ) → replicate (m + n) x ≡ replicate m x ++ replicate n x
replicate-add zero n x = rw zero-add
replicate-add (suc m) n x = rw suc-add (ap (◌∷◌ x) (replicate-add m n x))

write_skip :
    (xs ys : List ℕ) (o : ℕ) (s : List ℕ) → write (xs ++ ys) (length xs + o) s ≡ xs ++ write ys o s
write_skip [] ys o s = rw zero-add
write_skip (x ∷ xs) ys o s = rw suc-add (ap (◌∷◌ x) (write_skip xs ys o s))

write_over : (xs ys s : List ℕ) → length xs ≡ length s → write (xs ++ ys) 0 s ≡ s ++ ys
write_over [] [] [] h = refl
write_over [] (y ∷ ys) [] h = refl
write_over [] ys (c ∷ s) h = absurd (omega arith)
write_over (x ∷ xs) ys [] h = absurd (omega arith)
write_over (x ∷ xs) ys (c ∷ s) h = ap (◌∷◌ c) (write_over xs ys s (omega arith))

write_first :
    (h z y s : List ℕ) (o : ℕ)
    → o ≡ length h
    → length z ≡ length s
    → write (h ++ (z ++ y)) o s ≡ h ++ (s ++ y)
write_first h z y s o at_o size =
    rw (at_o, ← add-zero (length h))
      (write_skip h (z ++ y) 0 s ∙ ap (λ u. h ++ u) (write_over z y s size))

write_second :
    (h d z y s : List ℕ) (o : ℕ)
    → o ≡ length h + length d
    → length z ≡ length s
    → write (h ++ (d ++ (z ++ y))) o s ≡ h ++ (d ++ (s ++ y))
write_second h d z y s o at_o size = rw at_o (
    write_skip h (d ++ (z ++ y)) (length d) s
    ∙ ap (λ u. h ++ u) (write_first d z y s (length d) refl size))

pub write_third :
    (h d r t s : List ℕ) (o k : ℕ)
    → o ≡ length h + (length d + (length r + k))
    → write (h ++ (d ++ (r ++ t))) o s ≡ h ++ (d ++ (r ++ write t k s))
write_third h d r t s o k at_o = rw at_o (
    write_skip h (d ++ (r ++ t)) (length d + (length r + k)) s
    ∙ ap (λ u. h ++ u)
        (write_skip d (r ++ t) (length r + k) s ∙ ap (λ u. d ++ u) (write_skip r t k s)))

pub drop_skip : (xs ys : List ℕ) (o : ℕ) → drop (length xs + o) (xs ++ ys) ≡ drop o ys
drop_skip [] ys o = rw zero-add
drop_skip (x ∷ xs) ys o = rw suc-add (drop_skip xs ys o)

pub take-write : (p : List ℕ) (o : ℕ) (s : List ℕ) → take o (write p o s) ≡ take o p
take-write [] o s = refl
take-write (x ∷ p) zero s = refl
take-write (x ∷ p) (suc o) s = ap (◌∷◌ x) (take-write p o s)

pub take-all : (xs : List ℕ) (n : ℕ) → length xs ≡ n → take n xs ≡ xs
take-all xs n e = rw (← e) (take-length xs)

-- The header in a buffer of its own, and the trailer without the checksum.
unfoldable pub header_bytes : Frame → ℕ → List ℕ
header_bytes f total =
    let p = frame_header_fields f total (replicate 80 0) in put_u32 p 72 (crc32c (read p 0 72))

unfoldable pub trailer_bytes : ℕ → List ℕ
trailer_bytes total = put_u32 (write (replicate 16 0) 0 end_magic) 8 total

pub length-header_bytes : (f : Frame) (total : ℕ) → length (header_bytes f total) ≡ 80
unfolding header_bytes frame_header_fields put_u32
length-header_bytes f total = refl

header_filled :
    (f : Frame) (total : ℕ) (x : List ℕ)
    → put_u32
        (frame_header_fields f total (replicate 80 0 ++ x))
        72
        (crc32c (read (frame_header_fields f total (replicate 80 0 ++ x)) 0 72))
      ≡ header_bytes f total ++ x
unfolding header_bytes frame_header_fields put_u32
header_filled f total x = refl

-- A frame with its sizes: the pointers lead to as many bytes as the sizes say.
pub record HasSizes (f : Frame) (r total : ℕ) : Type 0 where
  pub dictionary_size : length f.dictionary ≡ f.dictionary_bytes
  pub rows_size : length f.rows ≡ r
  pub total_size : total ≡ 80 + (f.dictionary_bytes + (r + 16))

module _ (f : Frame) (r total : ℕ) (s : HasSizes f r total) (h : List ℕ)
    (eighty : length h ≡ 80) where
  body_filled :
      frame_body f r total
        (h ++ (replicate f.dictionary_bytes 0 ++ (replicate r 0 ++ replicate 16 0)))
      ≡ h ++ (f.dictionary ++ (f.rows ++ trailer_bytes total))
  unfolding frame_body trailer_bytes put_u32
  body_filled = rw (
    take-all f.dictionary f.dictionary_bytes s.dictionary_size,
    take-all f.rows r s.rows_size,
    write_first h (replicate f.dictionary_bytes 0) (replicate r 0 ++ replicate 16 0) f.dictionary 80
        (sym eighty)
        (omega (arith, length-replicate {A = ℕ} f.dictionary_bytes 0, s.dictionary_size)),
    write_second h f.dictionary (replicate r 0) (replicate 16 0) f.rows (80 + f.dictionary_bytes)
        (omega (arith, s.dictionary_size))
        (omega (arith, length-replicate {A = ℕ} r 0, s.rows_size)),
    write_third h f.dictionary f.rows (replicate 16 0) end_magic (total - 16) 0
        (omega (arith, s.dictionary_size, s.rows_size, s.total_size)),
    write_third h f.dictionary f.rows (write (replicate 16 0) 0 end_magic) (le_bytes 4 total)
        (total - 8) 8 (omega (arith, s.dictionary_size, s.rows_size, s.total_size)),
  )

cleared :
    (d r total : ℕ)
    → total ≡ 80 + (d + (r + 16))
    → replicate {A = ℕ} total 0
      ≡ replicate {A = ℕ} 80 0 ++ (replicate d 0 ++ (replicate r 0 ++ replicate 16 0))
cleared d r total e = rw e (
    replicate-add 80 (d + (r + 16)) 0
    ∙ ap (λ u. replicate {A = ℕ} 80 0 ++ u)
        (replicate-add d (r + 16) 0 ∙ ap (λ u. replicate {A = ℕ} d 0 ++ u) (replicate-add r 16 0)))

-- All but the last checksum.
unfoldable pub unsealed : Frame → ℕ → List ℕ
unsealed f total = header_bytes f total ++ (f.dictionary ++ (f.rows ++ trailer_bytes total))

pub frame_write-unsealed :
    (f : Frame) (r total : ℕ)
    → HasSizes f r total
    → frame_write f r total
      ≡ put_u32 (unsealed f total) (total - 4) (crc32c (read (unsealed f total) 0 (total - 4)))
unfolding frame_write unsealed
frame_write-unsealed f r total s = rw (
  cleared f.dictionary_bytes r total s.total_size,
  header_filled f total (replicate f.dictionary_bytes 0 ++ (replicate r 0 ++ replicate 16 0)),
  body_filled f r total s (header_bytes f total) (length-header_bytes f total),
)
