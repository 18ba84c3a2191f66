-- ===== src/Query/Sorting.antt =====
-- query/query.c: the sort of the groups in `emit_groups`, bottom up. The array of `n` group numbers is
-- a list; a pass merges its runs of `width` in pairs, and `late` tells, reading by reading, whether
-- the clock is past the deadline. `passes` runs on as much fuel as there are groups: the width doubles.
pub mod Merged
pub mod Laws
use webanalyticsdb.Prelude.{
  ℕ, zero, suc, ◌+◌, ◌*◌, Bool, true, false, List, [], ◌∷◌, ◌++◌, ltb, if◌then◌else◌, length, take,
  drop,
}
use webanalyticsdb.Core.Status.{Result, ok, err, limit}

module _ (le : ℕ → ℕ → Bool) where
  -- tmp[j] = a < mid && (b == end || compare <= 0) ? order[a++] : order[b++]
  unfoldable pub merge : List ℕ → List ℕ → List ℕ
  merge [] r = r
  merge (x ∷ l) [] = x ∷ l
  merge (x ∷ l) (y ∷ r) = elim (le x y) [ true ↦ x ∷ merge l (y ∷ r) | false ↦ y ∷ merge (x ∷ l) r ]

  -- for (start = 0; start < n; start += 2 * width)
  unfoldable pub merge_pass : ℕ → ℕ → List ℕ → List ℕ
  unfolding merge
  merge_pass zero width xs = xs
  merge_pass (suc fuel) width [] = []
  merge_pass (suc fuel) width (x ∷ xs) =
      let rest = merge_pass fuel width (drop width (drop width (x ∷ xs))) in
      merge (take width (x ∷ xs)) (take width (drop width (x ∷ xs))) ++ rest

  -- for (width = 1; width < n; width *= 2)
  unfoldable pub passes : (ℕ → Bool) → ℕ → ℕ → ℕ → ℕ → List ℕ → Result (List ℕ)
  unfolding merge_pass
  passes late n zero width i xs = ok xs
  passes late n (suc fuel) width i xs =
      let rest = passes late n fuel (width * 2) (i + 1) (merge_pass n width xs) in
      if ltb width n then (if late i then err limit else rest) else ok xs
