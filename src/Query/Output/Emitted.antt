-- ===== src/Query/Output/Emitted.antt =====
-- What `emit_groups` returns: the first groups in the order of the plan.
use webanalyticsdb.Prelude.{
  ℕ, zero, suc, ◌+◌, ◌%◌, ◌≡◌, refl, sym, ap, subst, ◌∙◌, arith, Bool, ◌&&◌, List, [], ◌∷◌, ◌++◌,
  ltb, ◌==◌, if◌then◌else◌, length, map, take, Option, none, some, Bool-cases, inl, inr, then_taken,
  else_taken,
}
use mathlib.Core.List.{Perm, append-nil, append_assoc}
use mathlib.Core.List.Perm
use webanalyticsdb.Core.Status.{ok, err, limit, ok-eq-ok, >>=-ok}
use webanalyticsdb.Query.Values.{FloatOps, Value}
use webanalyticsdb.Query.Values.Order.{IsOrder}
use webanalyticsdb.Query.Execution.{
  QueryPlan, Execution, allocate, row_room, copy_values, add_row, result_row,
}
use webanalyticsdb.Query.Groups.{KeyBits}
use webanalyticsdb.Query.Sorting.Merged.{Ascending}
use webanalyticsdb.Query.Sorting.Laws.{sorted_lem, take-nil}
use webanalyticsdb.Query.Output.{
  group_row, numbers, group_le, ordered, emit_rows, with_used, emit_groups,
}
use webanalyticsdb.Query.Output.Order.{group_le-IsTotal}

pub result_row_lem :
    {F : Type 0} (p : QueryPlan F) (x : Execution F) (values : List (Value F)) (sequence : ℕ)
    (x' : Execution F)
    → result_row p x values sequence ≡ ok x'
    → (x'.rows ≡ x.rows ++ (values ∷ []))
      × (x'.groups ≡ x.groups)
      × (x'.matched_rows ≡ x.matched_rows)
unfolding result_row add_row
result_row_lem p x values sequence x' e =
    let (room, one, rest) = >>=-ok (row_room p x) _ e in
    let (used, two, last) = >>=-ok (copy_values p p.columns values room.1) _ rest in
    let same = ok-eq-ok _ x' last in
    (
      sym (ap (λ y. y.rows) same),
      sym (ap (λ y. y.groups) same),
      sym (ap (λ y. y.matched_rows) same),
    )

length-numbers : (n i : ℕ) → length (numbers n i) ≡ n
unfolding numbers
length-numbers zero i = refl
length-numbers (suc n) i = ap suc (length-numbers n (suc i))

module _ (fl : FloatOps) (kb : KeyBits fl.F) (p : QueryPlan fl.F) where
  -- The groups in their order: by the column of the plan, or as they were made.
  pub IsOrdering : Execution fl.F → Option ℕ → List ℕ → Type 0
  IsOrdering x none ks = ks ≡ numbers x.group_count 0
  IsOrdering x (some col) ks =
      Ascending (group_le fl kb p x.groups col) ks × Perm ks (numbers x.group_count 0)

  abbrev pub rows_of : Execution fl.F → List ℕ → List (List (Value fl.F))
  rows_of x ks = map (λ k. group_row fl kb (x.groups k)) ks

  ordered-IsOrdering :
      IsOrder fl
      → (x : Execution fl.F) (late : ℕ → Bool) (o : Option ℕ) (ks : List ℕ)
      → ordered fl kb p x late o ≡ ok ks
      → IsOrdering x o ks
  unfolding ordered IsOrdering
  ordered-IsOrdering order x late none ks e = sym (ok-eq-ok _ ks e)
  ordered-IsOrdering order x late (some col) ks e =
      sorted_lem (group_le fl kb p x.groups col) late x.group_count (numbers x.group_count 0) ks
        (group_le-IsTotal fl kb order p x.groups col) (length-numbers x.group_count 0) e

  emit_rows_lem :
      (x : Execution fl.F) (late : ℕ → Bool) (i : ℕ) (ks : List ℕ) (x' : Execution fl.F)
      → emit_rows fl kb p x late i ks ≡ ok x'
      → (x'.rows ≡ x.rows ++ rows_of x ks) × (x'.matched_rows ≡ x.matched_rows)
  unfolding emit_rows
  emit_rows_lem x late i [] x' e =
      let same = sym (ok-eq-ok x x' e) in
      (ap (λ y. y.rows) same ∙ sym (append-nil x.rows), ap (λ y. y.matched_rows) same)
  emit_rows_lem x late i (k ∷ ks) x' e = elim (Bool-cases (i % 256 == 0 && late i)) [
    | inl past ↦ absurd (let z = then_taken (i % 256 == 0 && late i) (err limit) _ past e in cc)
    | inr in_time ↦
        let q = else_taken (i % 256 == 0 && late i) (err limit) _ in_time e in
        let (y, one, rest) = >>=-ok (result_row p x (group_row fl kb (x.groups k)) 0) _ q in
        let (rows, groups, matched) = result_row_lem p x (group_row fl kb (x.groups k)) 0 y one in
        let (more, more_matched) = emit_rows_lem y late (i + 1) ks x' rest in
        (
          more
              ∙ ap (λ g. y.rows ++ map (λ j. group_row fl kb (g j)) ks) groups
              ∙ ap (λ r. r ++ rows_of x ks) rows
              ∙ append_assoc x.rows (group_row fl kb (x.groups k) ∷ []) (rows_of x ks),
          more_matched ∙ matched,
        )
  ]

  no_groups-IsOrdering : (x : Execution fl.F) (o : Option ℕ) → x.group_count ≡ 0 → IsOrdering x o []
  unfolding IsOrdering numbers
  no_groups-IsOrdering x none e = ap (λ n. numbers n 0) (sym e)
  no_groups-IsOrdering x (some col) e = (tt, subst (λ n. Perm [] (numbers n 0)) (sym e) Perm.rfl)

  -- The output of a query with aggregates that succeeds: the rows of the first groups, as many as the
  -- limit has, in a total order of all groups.
  pub emit_groups_lem :
      (x : Execution fl.F) (late_sort late_row : ℕ → Bool) (x' : Execution fl.F)
      → IsOrder fl
      → x.rows ≡ []
      → emit_groups fl kb p x late_sort late_row ≡ ok x'
      → (ks : List ℕ) × IsOrdering x p.order ks
        × (x'.rows
            ≡ rows_of x (take (if ltb x.group_count p.limit then x.group_count else p.limit) ks))
        × (x'.matched_rows ≡ x.matched_rows)
  unfolding emit_groups
  emit_groups_lem x late_sort late_row x' order quiet e = elim (Bool-cases (x.group_count == 0)) [
    | inl no_group ↦
        let same = sym (ok-eq-ok x x' (then_taken (x.group_count == 0) (ok x) _ no_group e)) in
        (
          [],
          no_groups-IsOrdering x p.order (ground arith),
          ap (λ y. y.rows) same ∙ quiet ∙ ap (rows_of x) (sym (take-nil _)),
          ap (λ y. y.matched_rows) same,
        )
    | inr some_group ↦
        let q = else_taken (x.group_count == 0) (ok x) _ some_group e in
        let (used, c, e1) = >>=-ok (allocate p x.used _) _ q in
        let (ks, o, e2) = >>=-ok (ordered fl kb p x late_sort p.order) _ e1 in
        let most = if ltb x.group_count p.limit then x.group_count else p.limit in
        let (rows, matched) = emit_rows_lem (with_used x used) late_row 0 (take most ks) x' e2 in
        (
          ks,
          ordered-IsOrdering order x late_sort p.order ks o,
          rows ∙ ap (λ r. r ++ rows_of x (take most ks)) quiet,
          matched,
        )
  ]
