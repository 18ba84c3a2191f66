-- ===== src/Query/Sorting/Laws.antt =====
-- Passes over runs that are in order: the runs grow until one run is all.
use webanalyticsdb.Prelude.{
  ℕ, zero, suc, ◌+◌, ◌*◌, ◌≤◌, ◌<◌, ◌≡◌, refl, sym, ap, subst, ◌∙◌, arith, Bool, false, List, [],
  ◌∷◌, ◌++◌, ltb, length, take, drop, Bool-cases, inl, inr, ◌⊎◌, if◌then◌else◌, length-append,
  length-take, length-drop, take-append_left, drop-append_left, take-append-drop, then_of, else_of,
  then_taken, else_taken,
}
use mathlib.Core.List.{Perm, append_assoc, append-nil}
use mathlib.Core.List.Perm
use native.Mathlib.Decide.{dec_le}
use webanalyticsdb.Core.Status.{ok, err, limit, ok-eq-ok}
use webanalyticsdb.Query.Sorting.{merge, merge_pass, passes}
use webanalyticsdb.Query.Sorting.Merged.{Ascending, IsTotal, merge-perm, merge-Ascending}

-- Runs of the width, each in order.
pub data Runs (le : ℕ → ℕ → Bool) (width : ℕ) : List ℕ → Type 0 where
  none : Runs le width []
  more :
      {xs : List ℕ}
      → Ascending le (take width xs)
      → Runs le width (drop width xs)
      → Runs le width xs

pub take-nil : (n : ℕ) → take {A = ℕ} n [] ≡ []
take-nil zero = refl
take-nil (suc n) = refl

drop-nil : (n : ℕ) → drop {A = ℕ} n [] ≡ []
drop-nil zero = refl
drop-nil (suc n) = refl

take_all : (n : ℕ) (xs : List ℕ) → length xs ≤ n → take n xs ≡ xs
take_all zero [] le = refl
take_all zero (x ∷ xs) le = absurd (omega arith)
take_all (suc n) [] le = refl
take_all (suc n) (x ∷ xs) le = ap (◌∷◌ x) (take_all n xs (omega arith))

drop_all : (n : ℕ) (xs : List ℕ) → length xs ≤ n → drop n xs ≡ []
drop_all zero [] le = refl
drop_all zero (x ∷ xs) le = absurd (omega arith)
drop_all (suc n) [] le = refl
drop_all (suc n) (x ∷ xs) le = drop_all n xs (omega arith)

-- a list is cut where its first part ends
cut_at :
    (n : ℕ) (m rest : List ℕ)
    → (length m ≡ n) ⊎ ((length m ≤ n) × (rest ≡ []))
    → (take n (m ++ rest) ≡ m) × (drop n (m ++ rest) ≡ rest)
cut_at n m rest (inl e) =
    subst (λ n. (take n (m ++ rest) ≡ m) × (drop n (m ++ rest) ≡ rest)) e
      (take-append_left m rest, drop-append_left m rest)
cut_at n m rest (inr (le, e)) =
    subst (λ r. (take n (m ++ r) ≡ m) × (drop n (m ++ r) ≡ r)) (sym e)
      (subst (λ l. (take n l ≡ m) × (drop n l ≡ [])) (sym (append-nil m))
        (take_all n m le, drop_all n m le))

Runs-split :
    (le : ℕ → ℕ → Bool) (width : ℕ) (xs : List ℕ)
    → Runs le width xs
    → Ascending le (take width xs) × Runs le width (drop width xs)
Runs-split le width xs Runs.none = (
  subst (Ascending le) (sym (take-nil width)) tt,
  subst (Runs le width) (sym (drop-nil width)) Runs.none,
)
Runs-split le width xs (Runs.more up rest) = (up, rest)

Runs-one : (le : ℕ → ℕ → Bool) (xs : List ℕ) → Runs le 1 xs
Runs-one le [] = Runs.none
Runs-one le (x ∷ xs) = Runs.more (tt, tt) (Runs-one le xs)

length-merge : (le : ℕ → ℕ → Bool) (l r : List ℕ) → length (merge le l r) ≡ length l + length r
unfolding merge
length-merge le [] r = omega arith
length-merge le (x ∷ l) [] = omega arith
length-merge le (x ∷ l) (y ∷ r) =
    ground (arith, length-merge le l (y ∷ r), length-merge le (x ∷ l) r)

module _ (le : ℕ → ℕ → Bool) (width : ℕ) (pos : 0 < width) where
  pass-perm : (fuel : ℕ) (xs : List ℕ) → Perm (merge_pass le fuel width xs) xs
  unfolding merge_pass
  pass-perm zero xs = Perm.rfl
  pass-perm (suc fuel) [] = Perm.rfl
  pass-perm (suc fuel) (x ∷ xs) =
      let a = take width (x ∷ xs) in
      let behind = drop width (x ∷ xs) in
      let b = take width behind in
      let c = drop width behind in
      let whole : (a ++ b) ++ c ≡ x ∷ xs =
        append_assoc a b c
        ∙ ap (a ++◌) (take-append-drop width behind)
        ∙ take-append-drop width (x ∷ xs) in
      subst (Perm (merge le a b ++ merge_pass le fuel width c)) whole
        (Perm.append (merge-perm le a b) (pass-perm fuel c))

  pass-nil : (fuel : ℕ) → merge_pass le fuel width [] ≡ []
  unfolding merge_pass
  pass-nil zero = refl
  pass-nil (suc fuel) = refl

  -- the first two runs are full, or there is nothing behind them
  pass_cut :
      (fuel : ℕ) (xs : List ℕ)
      → (length (merge le (take width xs) (take width (drop width xs))) ≡ width * 2)
        ⊎ ((length (merge le (take width xs) (take width (drop width xs))) ≤ width * 2)
            × (merge_pass le fuel width (drop width (drop width xs)) ≡ []))
  pass_cut fuel xs =
      let behind = drop width xs in
      let size = length-merge le (take width xs) (take width behind) in
      elim (dec_le (width * 2) (length xs)) [
        | yes full ↦ inl (
            omega
              (arith, size, length-take width xs, length-take width behind, length-drop width xs))
        | no short ↦
            let empty : drop width behind ≡ [] =
              drop_all width behind (omega (arith, length-drop width xs)) in
            inr (
              omega (arith, size, length-take width xs, length-take width behind),
              ap (merge_pass le fuel width) empty ∙ pass-nil fuel,
            )
      ]

  pass-Runs :
      IsTotal le
      → (fuel : ℕ) (xs : List ℕ) → length xs ≤ fuel
      → Runs le width xs
      → Runs le (width * 2) (merge_pass le fuel width xs)
  unfolding merge_pass
  pass-Runs o zero [] small runs = Runs.none
  pass-Runs o zero (x ∷ xs) small runs = absurd (omega arith)
  pass-Runs o (suc fuel) [] small runs = Runs.none
  pass-Runs o (suc fuel) (x ∷ xs) small runs =
      let a = take width (x ∷ xs) in
      let behind = drop width (x ∷ xs) in
      let b = take width behind in
      let c = drop width behind in
      let (up_a, runs_b) = Runs-split le width (x ∷ xs) runs in
      let (up_b, runs_c) = Runs-split le width behind runs_b in
      let rest =
        pass-Runs o fuel c (omega (arith, length-drop width behind, length-drop width (x ∷ xs)))
          runs_c in
      let (first, second) =
        cut_at (width * 2) (merge le a b) (merge_pass le fuel width c) (pass_cut fuel (x ∷ xs)) in
      Runs.more (subst (Ascending le) (sym first) (merge-Ascending le o a b up_a up_b))
        (subst (Runs le (width * 2)) (sym second) rest)

pass_size :
    (le : ℕ → ℕ → Bool) (width fuel : ℕ) (xs : List ℕ)
    → length (merge_pass le fuel width xs) ≡ length xs
unfolding merge_pass
pass_size le width zero xs = refl
pass_size le width (suc fuel) [] = refl
pass_size le width (suc fuel) (x ∷ xs) =
    let behind = drop width (x ∷ xs) in
    omega (
      arith,
      length-append (merge le (take width (x ∷ xs)) (take width behind))
          (merge_pass le fuel width (drop width behind)),
      length-merge le (take width (x ∷ xs)) (take width behind),
      pass_size le width fuel (drop width behind),
      length-take width (x ∷ xs),
      length-drop width (x ∷ xs),
      length-take width behind,
      length-drop width behind,
    )

module _ (le : ℕ → ℕ → Bool) (o : IsTotal le) (late : ℕ → Bool) (n : ℕ) where
  -- What the passes return is in order and has the same elements.
  pub passes-Ascending :
      (fuel width i : ℕ) (xs ys : List ℕ)
      → 0 < width
      → n ≤ width + fuel
      → length xs ≡ n
      → Runs le width xs
      → passes le late n fuel width i xs ≡ ok ys
      → Ascending le ys × Perm ys xs
  unfolding passes
  passes-Ascending zero width i xs ys pos enough size runs e =
      let same = ok-eq-ok xs ys e in
      subst (λ zs. Ascending le zs × Perm zs xs) same
        (
          subst (Ascending le) (take_all width xs (omega arith)) (Runs-split le width xs runs).0,
          Perm.rfl,
        )
  passes-Ascending (suc fuel) width i xs ys pos enough size runs e =
      elim (Bool-cases (ltb width n)) [
        | inr done ↦
            let same = ok-eq-ok xs ys (else_taken (ltb width n) _ (ok xs) done e) in
            subst (λ zs. Ascending le zs × Perm zs xs) same
              (
                subst (Ascending le) (take_all width xs (ground arith))
                    (Runs-split le width xs runs).0,
                Perm.rfl,
              )
        | inl again ↦
            let q =
              then_taken (ltb width n)
                (if late i
                  then err limit
                  else passes le late n fuel (width * 2) (i + 1) (merge_pass le n width xs))
                (ok xs) again e in
            elim (Bool-cases (late i)) [
              | inl past ↦ absurd (let z = then_taken (late i) (err limit) _ past q in cc)
              | inr in_time ↦
                  let same_size : length (merge_pass le n width xs) ≡ n =
                    pass_size le width n xs ∙ size in
                  let (up, perm) =
                    passes-Ascending fuel (width * 2) (i + 1) (merge_pass le n width xs) ys
                      (omega arith) (omega arith) same_size
                      (pass-Runs le width pos o n xs (omega arith) runs)
                      (else_taken (late i) (err limit) _ in_time q) in
                  (up, Perm.trans perm (pass-perm le width pos n xs))
            ]
      ]

  -- Where the clock never passes the deadline, the passes return.
  pub passes_return :
      (fuel width i : ℕ) (xs : List ℕ)
      → ((j : ℕ) → late j ≡ false)
      → (ys : List ℕ) × (passes le late n fuel width i xs ≡ ok ys)
  unfolding passes
  passes_return zero width i xs in_time = (xs, refl)
  passes_return (suc fuel) width i xs in_time =
      let (ys, e) = passes_return fuel (width * 2) (i + 1) (merge_pass le n width xs) in_time in
      elim (Bool-cases (ltb width n)) [
        | inr done ↦ (xs, else_of (ltb width n) _ _ done refl)
        | inl again ↦ (ys, then_of (ltb width n) _ _ again (else_of (late i) _ _ (in_time i) e))
      ]

-- All the numbers below n, sorted in n rounds from width 1.
pub sorted_lem :
    (le : ℕ → ℕ → Bool) (late : ℕ → Bool) (n : ℕ) (xs ys : List ℕ)
    → IsTotal le
    → length xs ≡ n
    → passes le late n n 1 0 xs ≡ ok ys
    → Ascending le ys × Perm ys xs
sorted_lem le late n xs ys o size e =
    passes-Ascending le o late n n 1 0 xs ys (omega arith) (omega arith) size (Runs-one le xs) e

-- The sort returns where the clock never passes the deadline, and what it returns is all the numbers
-- that it was given, in order.
pub sort_return :
    (le : ℕ → ℕ → Bool) (late : ℕ → Bool) (xs : List ℕ)
    → IsTotal le
    → ((j : ℕ) → late j ≡ false)
    → (ys : List ℕ) × (passes le late (length xs) (length xs) 1 0 xs ≡ ok ys)
      × Ascending le ys
      × Perm ys xs
sort_return le late xs o in_time =
    let (ys, e) = passes_return le o late (length xs) (length xs) 1 0 xs in_time in
    let (ascending, perm) = sorted_lem le late (length xs) xs ys o refl e in
    (ys, e, ascending, perm)
