-- ===== src/Core/Checksum.antt =====
-- core/encoding.c: CRC-32C by a table of 256 entries, and the 64-bit FNV-1a hash.
use Prim.Native.Nat.{bit_and, bit_xor}
use webanalyticsdb.Prelude.{
  ℕ, zero, suc, ◌-◌, ◌*◌, ◌/◌, ◌%◌, ◌^◌, ◌<◌, ◌≡◌, refl, arith, List, [], ◌∷◌, ◌++◌, ◌==◌,
  if◌then◌else◌,
}

-- `for (j = 0; j < 8; ++j) x = (x >> 1) ^ ((x & 1) ? 0x82f63b78 : 0)`, which fills the table.
crc_entry : ℕ → ℕ → ℕ
crc_entry zero x = x
crc_entry (suc j) x = crc_entry j (bit_xor (x / 2) (if bit_and x 1 == 0 then 0 else 0x82f63b78))

crc_loop : ℕ → List ℕ → ℕ
unfolding crc_entry
crc_loop crc [] = crc
crc_loop crc (b ∷ p) = crc_loop (bit_xor (crc_entry 8 (bit_and (bit_xor crc b) 255)) (crc / 256)) p

-- `~crc` on 32 bits is the distance to the largest value.
unfoldable pub crc32c : List ℕ → ℕ
unfolding crc_loop
crc32c p = 2 ^ 32 - 1 - crc_loop (2 ^ 32 - 1) p

pub crc32c-lt : (p : List ℕ) → crc32c p < 2 ^ 32
unfolding crc32c
crc32c-lt p = omega arith

-- The published check value of CRC-32C, for "123456789".
crc32c_check_value : crc32c (49 ∷ 50 ∷ 51 ∷ 52 ∷ 53 ∷ 54 ∷ 55 ∷ 56 ∷ 57 ∷ []) ≡ 0xe3069283
unfolding crc32c
crc32c_check_value = refl

abbrev pub fnv_basis : ℕ
fnv_basis = 14695981039346656037

unfoldable pub hash : List ℕ → ℕ → ℕ
hash [] h = h
hash (b ∷ p) h = hash p (bit_xor h b * 1099511628211 % 2 ^ 64)

pub hash-append : (p q : List ℕ) (h : ℕ) → hash (p ++ q) h ≡ hash q (hash p h)
unfolding hash
hash-append [] q h = refl
hash-append (b ∷ p) q h = hash-append p q (bit_xor h b * 1099511628211 % 2 ^ 64)

pub hash-lt : (p : List ℕ) (h : ℕ) → h < 2 ^ 64 → hash p h < 2 ^ 64
unfolding hash
hash-lt [] h b = b
hash-lt (x ∷ p) h b = hash-lt p _ (omega arith)
