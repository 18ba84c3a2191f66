-- ===== src/Slots.antt =====
-- storage/dictionary.c and query/query.c: the hash index of the symbols of a dictionary and of the
-- groups of a query. Both have open addressing with linear probing over an array of a power of two
-- slots, where 0 is a free slot and k + 1 stands for entry k; `x & (n - 1)` is written `x % n`.
pub mod Laws
pub mod Index
mod Examples
use webanalyticsdb.Prelude.{ℕ, zero, suc, ◌+◌, ◌%◌, Bool, true, false, ◌==◌, if◌then◌else◌}

-- An array after a store.
unfoldable pub store {ℓ} : {A : Type ℓ} → (ℕ → A) → ℕ → A → ℕ → A
store a i v j = if j == i then v else a j

-- How a walk ends: at an entry that is equal, at a free slot, or out of fuel.
pub data Walk : Type 0 where
  found : (entry : ℕ) → Walk
  vacant : (slot : ℕ) → Walk
  spun : Walk

unfoldable pub next_slot : ℕ → ℕ → ℕ
next_slot count slot = (slot + 1) % count

module _ (equal : ℕ → Bool) (slots : ℕ → ℕ) (count : ℕ) where
  unfoldable pub walk_from : ℕ → Walk → ℕ → Walk
  walk_from zero rest slot = vacant slot
  walk_from (suc entry) rest slot = if equal entry then found entry else rest

  -- `while (slots[slot]) { if (equal) return; slot = (slot + 1) & (count - 1); }`
  unfoldable pub walk : ℕ → ℕ → Walk
  unfolding walk_from next_slot
  walk zero slot = spun
  walk (suc fuel) slot = walk_from (slots slot) (walk fuel (next_slot count slot)) slot

unfoldable pub probe : (ℕ → Bool) → (ℕ → ℕ) → ℕ → ℕ → Walk
unfolding walk
probe equal slots count hash = walk equal slots count count (hash % count)

unfoldable pub no_entry : ℕ → Bool
no_entry entry = false

unfoldable pub put_at : (ℕ → ℕ) → Walk → ℕ → ℕ → ℕ
unfolding store
put_at slots (vacant slot) entry = store slots slot (suc entry)
put_at slots (found _) entry = slots
put_at slots spun entry = slots

-- An entry goes to the first free slot from the one of its hash.
unfoldable pub place_entry : (ℕ → ℕ) → ℕ → ℕ → ℕ → ℕ → ℕ
unfolding put_at probe no_entry
place_entry slots count hash entry = put_at slots (probe no_entry slots count hash) entry

unfoldable pub no_slots : ℕ → ℕ
no_slots slot = 0

-- The index of `entries` entries, made anew in `count` slots.
unfoldable pub rehash : (ℕ → ℕ) → ℕ → ℕ → ℕ → ℕ
unfolding place_entry no_slots
rehash hash count zero = no_slots
rehash hash count (suc entries) =
    place_entry (rehash hash count entries) count (hash entries) entries
