-- ===== src/Core/Bytes.antt =====
-- core/encoding.c: little-endian access to byte buffers. A buffer is the list of its bytes, and an
-- address inside it an offset. Each `|` of the source joins bytes at different bit positions, so it
-- is a sum.
pub mod Laws
use webanalyticsdb.Prelude.{
  ℕ, zero, suc, ◌+◌, ◌-◌, ◌*◌, ◌/◌, ◌%◌, ◌^◌, ◌<◌, Bool, true, false, ◌&&◌, List, [], ◌∷◌, leb,
  ◌==◌, if◌then◌else◌, get_or, take, drop, All,
}
use webanalyticsdb.Prelude.Int.{ℤ, pos, negsuc}

-- p[i]; the callers stay inside the buffer.
abbrev pub byte : List ℕ → ℕ → ℕ
byte p i = get_or p i 0

abbrev pub IsByte : ℕ → Type 0
IsByte b = b < 256

-- The n bytes from offset o on.
abbrev pub read : List ℕ → ℕ → ℕ → List ℕ
read p o n = take n (drop o p)

-- memcpy(p + o, s, length of s)
abbrev pub write : List ℕ → ℕ → List ℕ → List ℕ
write [] o s = []
write (x ∷ p) (suc o) s = x ∷ write p o s
write (x ∷ p) zero [] = x ∷ p
write (x ∷ p) zero (y ∷ s) = y ∷ write p zero s

unfoldable pub get_u16 : List ℕ → ℕ → ℕ
get_u16 p o = byte p o + byte p (o + 1) * 2 ^ 8

unfoldable pub get_u32 : List ℕ → ℕ → ℕ
get_u32 p o = byte p o + byte p (o + 1) * 2 ^ 8 + byte p (o + 2) * 2 ^ 16 + byte p (o + 3) * 2 ^ 24

unfoldable pub get_u64 : List ℕ → ℕ → ℕ
get_u64 p o = get_u32 p o + get_u32 p (o + 4) * 2 ^ 32

-- The int64_t with the bit pattern u.
unfoldable pub to_i64 : ℕ → ℤ
to_i64 u = if leb u (2 ^ 63 - 1) then pos u else negsuc (2 ^ 64 - 1 - u)

-- (uint64_t)t
unfoldable pub from_i64 : ℤ → ℕ
from_i64 (pos n) = n
from_i64 (negsuc n) = 2 ^ 64 - 1 - n

unfoldable pub get_i64 : List ℕ → ℕ → ℤ
unfolding get_u64 to_i64
get_i64 p o = to_i64 (get_u64 p o)

-- The bytes (unsigned char)(n >> (i * 8)) for i below k.
abbrev pub le_bytes : ℕ → ℕ → List ℕ
le_bytes zero n = []
le_bytes (suc k) n = (n % 256) ∷ le_bytes k (n / 256)

unfoldable pub put_u16 : List ℕ → ℕ → ℕ → List ℕ
put_u16 p o n = write p o (le_bytes 2 n)

unfoldable pub put_u32 : List ℕ → ℕ → ℕ → List ℕ
put_u32 p o n = write p o (le_bytes 4 n)

unfoldable pub put_u64 : List ℕ → ℕ → ℕ → List ℕ
put_u64 p o n = write p o (le_bytes 8 n)

-- memcmp(p, q, n) == 0, and the `zeroes` of storage/format.c and storage/metadata.c
unfoldable pub bytes_eq : List ℕ → List ℕ → Bool
bytes_eq [] [] = true
bytes_eq (x ∷ p) (y ∷ q) = x == y && bytes_eq p q
bytes_eq _ _ = false

unfoldable pub zeroes : List ℕ → Bool
zeroes [] = true
zeroes (x ∷ p) = x == 0 && zeroes p
