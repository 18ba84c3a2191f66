-- ===== src/Core/Bytes/Laws.antt =====
-- What a read sees after a write.
use webanalyticsdb.Prelude.{
  ℕ, zero, suc, ◌+◌, ◌-◌, ◌*◌, ◌^◌, ◌≤◌, ◌<◌, ◌≡◌, refl, take-append-drop, take-length, length-take,
  length-drop, sym, ◌++◌, ap, sym, ◌∙◌, true, arith, List, [], ◌∷◌, ◌++◌, length, take, drop, All,
  replicate,
}
use native.Mathlib.Nat.{add-zero, zero-add, suc-add, add_assoc, pow-suc}
use webanalyticsdb.Prelude.Int.{ℤ, pos, negsuc, ◌≤ℤ◌}
use webanalyticsdb.Core.Bytes.{
  byte, IsByte, read, write, get_u32, get_u64, to_i64, from_i64, le_bytes, put_u32, put_u64,
  bytes_eq, zeroes,
}

pub length-write : (p : List ℕ) (o : ℕ) (s : List ℕ) → length (write p o s) ≡ length p
length-write [] o s = refl
length-write (x ∷ p) (suc o) s = ap suc (length-write p o s)
length-write (x ∷ p) zero [] = refl
length-write (x ∷ p) zero (y ∷ s) = ap suc (length-write p zero s)

pub byte-write_before :
    (p : List ℕ) (o : ℕ) (s : List ℕ) (i : ℕ) → i < o → byte (write p o s) i ≡ byte p i
byte-write_before [] o s i h = refl
byte-write_before (x ∷ p) (suc o) s zero h = refl
byte-write_before (x ∷ p) (suc o) s (suc i) h = byte-write_before p o s i (omega arith)
byte-write_before (x ∷ p) zero [] i h = refl
byte-write_before (x ∷ p) zero (y ∷ s) i h = absurd (omega arith)

pub byte-write_after :
    (p : List ℕ) (o : ℕ) (s : List ℕ) (i : ℕ) → o + length s ≤ i → byte (write p o s) i ≡ byte p i
byte-write_after [] o s i h = refl
byte-write_after (x ∷ p) (suc o) s zero h = absurd (omega arith)
byte-write_after (x ∷ p) (suc o) s (suc i) h = byte-write_after p o s i (omega arith)
byte-write_after (x ∷ p) zero [] i h = refl
byte-write_after (x ∷ p) zero (y ∷ s) zero h = absurd (omega arith)
byte-write_after (x ∷ p) zero (y ∷ s) (suc i) h = byte-write_after p zero s i (omega arith)

-- Byte i of what was written at o.
pub byte-write_self :
    (p : List ℕ) (o : ℕ) (s : List ℕ) (i : ℕ)
    → i < length s
    → o + length s ≤ length p
    → byte (write p o s) (o + i) ≡ byte s i
byte-write_self [] o s i hi h = absurd (omega arith)
byte-write_self (x ∷ p) (suc o) s i hi h = rw suc-add (byte-write_self p o s i hi (omega arith))
byte-write_self (x ∷ p) zero [] i hi h = absurd (omega arith)
byte-write_self (x ∷ p) zero (y ∷ s) zero hi h = refl
byte-write_self (x ∷ p) zero (y ∷ s) (suc i) hi h =
    rw zero-add (rw zero-add at (byte-write_self p zero s i (omega arith) (omega arith)))

-- The four bytes that `get_u32` reads.
abbrev SameAt : List ℕ → ℕ → List ℕ → ℕ → ℕ → Type 0
SameAt p i q j n = (k : ℕ) → k < n → byte p (i + k) ≡ byte q (j + k)

get_u32-same : (p q : List ℕ) (i j : ℕ) → SameAt p i q j 4 → get_u32 p i ≡ get_u32 q j
unfolding get_u32
get_u32-same p q i j h = omega (
  arith,
  rw (add-zero, add-zero) at (h 0 (omega arith)),
  h 1 (omega arith),
  h 2 (omega arith),
  h 3 (omega arith),
)

get_u64-same : (p q : List ℕ) (i j : ℕ) → SameAt p i q j 8 → get_u64 p i ≡ get_u64 q j
unfolding get_u64
get_u64-same p q i j h = omega (
  arith,
  get_u32-same p q i j (λ k b. h k (omega arith)),
  get_u32-same p q (i + 4) (j + 4) (λ k b. rw (add_assoc, add_assoc) (h (4 + k) (omega arith))),
)

le_bytes_u32 : (n : ℕ) → n < 2 ^ 32 → get_u32 (le_bytes 4 n) 0 ≡ n
unfolding get_u32
le_bytes_u32 n h = omega arith

le_bytes_u64 : (n : ℕ) → n < 2 ^ 64 → get_u64 (le_bytes 8 n) 0 ≡ n
unfolding get_u64 get_u32
le_bytes_u64 n h = omega arith

pub get_u32-put_u32 :
    (p : List ℕ) (o n : ℕ) → o + 4 ≤ length p → n < 2 ^ 32 → get_u32 (put_u32 p o n) o ≡ n
unfolding put_u32
get_u32-put_u32 p o n h fits =
    get_u32-same (write p o (le_bytes 4 n)) (le_bytes 4 n) o 0
      (λ k b. rw zero-add (byte-write_self p o (le_bytes 4 n) k b h))
    ∙ le_bytes_u32 n fits

pub get_u64-put_u64 :
    (p : List ℕ) (o n : ℕ) → o + 8 ≤ length p → n < 2 ^ 64 → get_u64 (put_u64 p o n) o ≡ n
unfolding put_u64
get_u64-put_u64 p o n h fits =
    get_u64-same (write p o (le_bytes 8 n)) (le_bytes 8 n) o 0
      (λ k b. rw zero-add (byte-write_self p o (le_bytes 8 n) k b h))
    ∙ le_bytes_u64 n fits

-- Every 64-bit value is the cast of the integer read from it, and back.
pub to_i64-from_i64 :
    (t : ℤ) → negsuc (2 ^ 63 - 1) ≤ℤ t → t ≤ℤ pos (2 ^ 63 - 1) → to_i64 (from_i64 t) ≡ t
unfolding to_i64 from_i64
to_i64-from_i64 (pos n) lo hi = ground arith
to_i64-from_i64 (negsuc n) lo hi = ground arith

pub from_i64-lt : (t : ℤ) → t ≤ℤ pos (2 ^ 63 - 1) → from_i64 t < 2 ^ 64
unfolding from_i64
from_i64-lt (pos n) hi = omega arith
from_i64-lt (negsuc n) hi = omega arith

pub bytes_eq_refl : (p : List ℕ) → bytes_eq p p ≡ true
unfolding bytes_eq
bytes_eq_refl [] = refl
bytes_eq_refl (x ∷ p) = ground (arith, bytes_eq_refl p)

pub bytes_eq→eq : (p q : List ℕ) → bytes_eq p q ≡ true → p ≡ q
unfolding bytes_eq
bytes_eq→eq [] [] h = refl
bytes_eq→eq [] (y ∷ q) h = cc
bytes_eq→eq (x ∷ p) [] h = cc
bytes_eq→eq (x ∷ p) (y ∷ q) h = ground (arith, bytes_eq→eq p q)

pub zeroes-replicate : (n : ℕ) → zeroes (replicate n 0) ≡ true
unfolding zeroes
zeroes-replicate zero = refl
zeroes-replicate (suc n) = zeroes-replicate n

pub zeroes→replicate : (p : List ℕ) → zeroes p ≡ true → p ≡ replicate (length p) 0
unfolding zeroes
zeroes→replicate [] h = refl
zeroes→replicate (x ∷ p) h = ground (arith, zeroes→replicate p)

drop-nil : (n : ℕ) → drop {A = ℕ} n [] ≡ []
drop-nil zero = refl
drop-nil (suc n) = refl

split-nil : (n : ℕ) → [] ≡ take {A = ℕ} n [] ++ []
split-nil zero = refl
split-nil (suc n) = refl

-- A buffer in two parts: cut off n bytes, and go on behind them.
pub split : (o n : ℕ) (p : List ℕ) {t : List ℕ} → drop (o + n) p ≡ t → drop o p ≡ read p o n ++ t
split zero n p e = rw (← e, zero-add) (sym (take-append-drop n p))
split (suc o) n [] e =
    split-nil n ∙ ap (λ s. take {A = ℕ} n [] ++ s) (sym (drop-nil (suc o + n)) ∙ e)
split (suc o) n (x ∷ p) e = split o n p (rw suc-add at e)

-- The last n bytes.
pub split_last : (o n : ℕ) (p : List ℕ) → length p ≡ o + n → drop o p ≡ read p o n
split_last o n p h =
    let e : length (drop o p) ≡ n = omega (arith, length-drop o p) in
    sym (rw (← e) (take-length (drop o p)))

pub byte-lt : (p : List ℕ) (i : ℕ) → All IsByte p → byte p i < 256
byte-lt [] i h = omega arith
byte-lt (x ∷ p) zero h = h.0
byte-lt (x ∷ p) (suc i) h = byte-lt p i h.1

read-suc : (p : List ℕ) (o n : ℕ) → o < length p → read p o (suc n) ≡ byte p o ∷ read p (o + 1) n
read-suc [] o n h = absurd (omega arith)
read-suc (x ∷ p) zero n h = refl
read-suc (x ∷ p) (suc o) n h = rw suc-add (read-suc p o n (omega arith))

-- The number that n bytes stand for.
value : List ℕ → ℕ → ℕ → ℕ
value p o zero = 0
value p o (suc n) = byte p o + 256 * value p (o + 1) n

read-le_bytes :
    (p : List ℕ) (o n : ℕ) → All IsByte p → o + n ≤ length p → read p o n ≡ le_bytes n (value p o n)
unfolding value
read-le_bytes p o zero b h = refl
read-le_bytes p o (suc n) b h =
    ground (
      arith,
      read-suc p o n (omega arith),
      byte-lt p o b,
      read-le_bytes p (o + 1) n b (omega arith),
    )

get_u32-value : (p : List ℕ) (o : ℕ) → get_u32 p o ≡ value p o 4
unfolding get_u32 value
get_u32-value p o = simp add_assoc (omega arith)

get_u64-value : (p : List ℕ) (o : ℕ) → get_u64 p o ≡ value p o 8
unfolding get_u64
get_u64-value p o = rw (get_u32-value, get_u32-value) (unfold value in simp add_assoc (omega arith))

-- Four or eight bytes are the little-endian form of the number that they are read as.
pub read-get_u32 :
    (p : List ℕ) (o : ℕ) → All IsByte p → o + 4 ≤ length p → read p o 4 ≡ le_bytes 4 (get_u32 p o)
read-get_u32 p o b h = rw get_u32-value (read-le_bytes p o 4 b h)

pub read-get_u64 :
    (p : List ℕ) (o : ℕ) → All IsByte p → o + 8 ≤ length p → read p o 8 ≡ le_bytes 8 (get_u64 p o)
read-get_u64 p o b h = rw get_u64-value (read-le_bytes p o 8 b h)

value-lt : (p : List ℕ) (o n : ℕ) → All IsByte p → value p o n < 256 ^ n
unfolding value
value-lt p o zero b = omega arith
value-lt p o (suc n) b = grind (arith, byte-lt p o b, value-lt p (o + 1) n b, pow-suc)

pub get_u32-lt : (p : List ℕ) (o : ℕ) → All IsByte p → get_u32 p o < 2 ^ 32
get_u32-lt p o b = rw get_u32-value (value-lt p o 4 b)

pub get_u64-lt : (p : List ℕ) (o : ℕ) → All IsByte p → get_u64 p o < 2 ^ 64
get_u64-lt p o b = rw get_u64-value (value-lt p o 8 b)

pub from_i64-to_i64 : (u : ℕ) → u < 2 ^ 64 → from_i64 (to_i64 u) ≡ u
unfolding from_i64 to_i64
from_i64-to_i64 u h = ground arith

pub zeroes-read :
    (p : List ℕ) (o n : ℕ)
    → o + n ≤ length p
    → zeroes (read p o n) ≡ true
    → read p o n ≡ replicate n 0
zeroes-read p o n h z =
    let e : length (read p o n) ≡ n = omega (arith, length-take n (drop o p), length-drop o p) in
    zeroes→replicate (read p o n) z ∙ ap (λ k. replicate k 0) e

-- Reading at an offset is reading the rest of the buffer at 0.
byte-drop : (p : List ℕ) (o i : ℕ) → byte (drop o p) i ≡ byte p (o + i)
byte-drop p zero i = rw zero-add
byte-drop [] (suc o) i = refl
byte-drop (x ∷ p) (suc o) i = rw suc-add (byte-drop p o i)

pub get_u32-drop : (p : List ℕ) (o : ℕ) → get_u32 p o ≡ get_u32 (drop o p) 0
get_u32-drop p o = get_u32-same p (drop o p) o 0 (λ k b. rw zero-add (sym (byte-drop p o k)))
