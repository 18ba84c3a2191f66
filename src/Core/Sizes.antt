-- ===== src/Core/Sizes.antt =====
-- core/encoding.c: size_t arithmetic that reports overflow.
use webanalyticsdb.Prelude.{
  ℕ, suc, zero, ◌+◌, ◌-◌, ◌*◌, ◌/◌, ◌^◌, ◌≤◌, ◌<◌, ◌≡◌, ◌↔◌, arith, not, ◌&&◌, Option, none, some,
  ltb, ◌==◌, if◌then◌else◌,
}

abbrev pub size_max : ℕ
size_max = 2 ^ 64 - 1

unfoldable pub add_size : ℕ → ℕ → Option ℕ
add_size a b = if ltb (size_max - b) a then none else some (a + b)

unfoldable pub mul_size : ℕ → ℕ → Option ℕ
mul_size a b = if not (b == 0) && ltb (size_max / b) a then none else some (a * b)

-- On values of a size_t, `wadb_add_size` gives the sum exactly when it fits.
pub add_size_lem :
    (a b : ℕ)
    → a ≤ size_max
    → b ≤ size_max
    → add_size a b ≡ (if ltb size_max (a + b) then none else some (a + b))
unfolding add_size
add_size_lem a b ha hb = ground arith

div_bound : (a b m : ℕ) → 0 < b → (a ≤ m / b) ↔ (a * b ≤ m)
div_bound a b m h = (λ p. grind arith, λ p. grind arith)

-- `wadb_mul_size` gives the product exactly when it fits.
pub mul_size_lem : (a b : ℕ) → mul_size a b ≡ (if ltb size_max (a * b) then none else some (a * b))
unfolding mul_size
mul_size_lem a zero = ground arith
mul_size_lem a (suc b) = ground (arith, div_bound a (suc b) size_max (omega arith))
