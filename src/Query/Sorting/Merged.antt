-- ===== src/Query/Sorting/Merged.antt =====
-- What merging two runs gives.
use webanalyticsdb.Prelude.{
  ℕ, ◌≡◌, subst, arith, Bool, true, false, List, [], ◌∷◌, ◌++◌, All, Bool-cases, inl, inr,
}
use mathlib.Core.List.{Perm, perm_middle, append-nil}
use mathlib.Core.List.Perm
use webanalyticsdb.Query.Sorting.{merge}

-- Every element is in order with all behind it.
abbrev pub Ascending : (ℕ → ℕ → Bool) → List ℕ → Type 0
Ascending le [] = Unit {0}
Ascending le (x ∷ xs) = All (λ y. le x y ≡ true) xs × Ascending le xs

-- Of two elements one comes first, and the order carries over.
pub record IsTotal (le : ℕ → ℕ → Bool) : Type 0 where
  pub total : (a b : ℕ) → le a b ≡ false → le b a ≡ true
  pub trans : (a b c : ℕ) → le a b ≡ true → le b c ≡ true → le a c ≡ true

All_mono : {P Q : ℕ → Type 0} (xs : List ℕ) → ((x : ℕ) → P x → Q x) → All P xs → All Q xs
All_mono [] f all = tt
All_mono (x ∷ xs) f (here, all) = (f x here, All_mono xs f all)

module _ (le : ℕ → ℕ → Bool) where
  merge_first :
      (x y : ℕ) (l r : List ℕ) → le x y ≡ true → x ∷ merge le l (y ∷ r) ≡ merge le (x ∷ l) (y ∷ r)
  unfolding merge
  merge_first x y l r e = ground arith

  merge_second :
      (x y : ℕ) (l r : List ℕ) → le x y ≡ false → y ∷ merge le (x ∷ l) r ≡ merge le (x ∷ l) (y ∷ r)
  unfolding merge
  merge_second x y l r e = ground arith

  pub merge-perm : (l r : List ℕ) → Perm (merge le l r) (l ++ r)
  unfolding merge
  merge-perm [] r = Perm.rfl
  merge-perm (x ∷ l) [] = rw (append-nil l) Perm.rfl
  merge-perm (x ∷ l) (y ∷ r) = elim (Bool-cases (le x y)) [
    | inl first ↦
        subst (λ m. Perm m (x ∷ l ++ y ∷ r)) (merge_first x y l r first)
          (Perm.cons x (merge-perm l (y ∷ r)))
    | inr second ↦
        subst (λ m. Perm m (x ∷ l ++ y ∷ r)) (merge_second x y l r second)
          (Perm.trans (Perm.cons y (merge-perm (x ∷ l) r)) (Perm.symm (perm_middle (x ∷ l) r)))
  ]

  merge-All : (P : ℕ → Type 0) (l r : List ℕ) → All P l → All P r → All P (merge le l r)
  unfolding merge
  merge-All P [] r all_l all_r = all_r
  merge-All P (x ∷ l) [] all_l all_r = all_l
  merge-All P (x ∷ l) (y ∷ r) (px, all_l) (py, all_r) = elim (Bool-cases (le x y)) [
    | inl first ↦
        subst (All P) (merge_first x y l r first) (px, merge-All P l (y ∷ r) all_l (py, all_r))
    | inr second ↦
        subst (All P) (merge_second x y l r second) (py, merge-All P (x ∷ l) r (px, all_l) all_r)
  ]

  pub merge-Ascending :
      IsTotal le → (l r : List ℕ) → Ascending le l → Ascending le r → Ascending le (merge le l r)
  unfolding merge
  merge-Ascending o [] r up_l up_r = up_r
  merge-Ascending o (x ∷ l) [] up_l up_r = up_l
  merge-Ascending o (x ∷ l) (y ∷ r) (below_l, up_l) (below_r, up_r) = elim (Bool-cases (le x y)) [
    | inl first ↦ subst (Ascending le) (merge_first x y l r first) (
      merge-All (λ z. le x z ≡ true) l (y ∷ r) below_l
          (first, All_mono r (λ z. o.trans x y z first) below_r),
      merge-Ascending o l (y ∷ r) up_l (below_r, up_r),
    )
    | inr second ↦
        let back = o.total x y second in
        subst (Ascending le) (merge_second x y l r second) (
          merge-All (λ z. le y z ≡ true) (x ∷ l) r
              (back, All_mono l (λ z. o.trans y x z back) below_l) below_r,
          merge-Ascending o (x ∷ l) r (below_l, up_l) up_r,
        )
  ]
