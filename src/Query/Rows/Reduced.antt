-- ===== src/Query/Rows/Reduced.antt =====
-- Each row of a query with aggregates goes to its group, and to no other.
use webanalyticsdb.Prelude.{
  ℕ, ◌<◌, ◌≡◌, refl, sym, ap, subst, ◌∙◌, arith, true, false, List, [], ◌∷◌, ◌++◌, Bool-cases, inl,
  inr, All,
}
use native.Mathlib.Decide.{ℕ_discrete, dec_lt}
use webanalyticsdb.Core.Status.{ok, ok-eq-ok}
use webanalyticsdb.Slots.{store}
use webanalyticsdb.Slots.Laws.{store_here, store_there}
use webanalyticsdb.Query.Values.{FloatOps, Value}
use webanalyticsdb.Query.Values.Order.{IsOrder}
use webanalyticsdb.Query.Filters.{matches}
use webanalyticsdb.Query.Aggregates.{Aggregate, reduce, reduce_rows}
use webanalyticsdb.Query.Execution.{QueryPlan, Execution}
use webanalyticsdb.Query.Groups.{
  KeyBits, hash_keys, same_keys, new_group, add_group, fresh_aggregates,
}
use webanalyticsdb.Query.Groups.Keys.{IsCanonical, same_keys_sym, same_keys_trans}
use webanalyticsdb.Query.Groups.Found.{IsGrouped}
use webanalyticsdb.Query.Groups.Finding.{Finds}
use webanalyticsdb.Query.Rows.{Row, row_keys, with_aggregates}
use webanalyticsdb.Query.Rows.Grouping.{
  is_member, members, Covered, IsReduced, same_head, new_aggregates, old_aggregates,
  with_aggregates-IsGrouped,
}
use webanalyticsdb.Query.Rows.Members.{
  IsKeyed, row_keys_size, member_keys, Covered-more, is_member-false, is_member-true, All_append,
  Reduces, Reduces-skip, Reduces-take,
}

module _ {fl : FloatOps} {kb : KeyBits fl.F} (order : IsOrder fl) (canon : IsCanonical fl kb)
    {p : QueryPlan fl.F} (keyed : IsKeyed p) where
  members_none :
      (x : Execution fl.F) (keys : List (Value fl.F)) (rows : List (Row fl kb))
      → IsGrouped fl kb p x
      → All (Covered fl kb p x) rows
      → ((j : ℕ)
          → ¬ ((j < x.group_count) × (same_keys fl kb p.columns (x.groups j).keys keys ≡ true)))
      → members fl kb p keys rows ≡ []
  unfolding members
  members_none x keys [] h cover fresh = refl
  members_none x keys (row ∷ rows) h (covered, cover) fresh =
      elim (Bool-cases (is_member fl kb p keys row)) [
        | inr no_row ↦ rw no_row (members_none x keys rows h cover fresh)
        | inl yes_row ↦
            let (ks, m, e, same) = member_keys fl kb p keys row yes_row in
            let (j, lt, of) = covered ks m e in
            absurd (
              fresh j (
                lt,
                same_keys_trans order canon p.columns (x.groups j).keys ks keys
                    (h.sized j lt ∙ sym (row_keys_size fl kb p row ks keyed e)) of
                    (same_keys_sym order canon p.columns keys ks same),
              ))
      ]

  IsReduced-made :
      (x : Execution fl.F) (keys : List (Value fl.F)) (rows : List (Row fl kb))
      (capacity used n : ℕ) (slots : ℕ → ℕ)
      → IsReduced fl kb p x rows
      → ((j : ℕ)
          → ¬ ((j < x.group_count) × (same_keys fl kb p.columns (x.groups j).keys keys ≡ true)))
      → IsGrouped fl kb p (add_group fl kb p x (hash_keys fl kb p keys) keys capacity slots n used)
      → IsReduced fl kb p
          (add_group fl kb p x (hash_keys fl kb p keys) keys capacity slots n used)
          rows
  unfolding add_group new_group reduce_rows
  IsReduced-made x keys rows capacity used n slots h fresh grouped =
      let added = new_group fl kb p (hash_keys fl kb p keys) keys in
      record {
        grouped = grouped;
        covered =
            Covered-more fl kb p x
              (add_group fl kb p x (hash_keys fl kb p keys) keys capacity slots n used)
              (λ j lt. (
                omega arith,
                ap (λ g. g.keys) (store_there x.groups x.group_count j added (omega arith)),
              ))
              rows h.covered;
        reduced = λ k lt. elim (dec_lt k x.group_count) [
          | yes below ↦
              subst
                (λ g.
                  reduce_rows fl p.types (members fl kb p g.keys rows)
                    (fresh_aggregates fl kb p.aggregates)
                  ≡ ok g.aggregates)
                (sym (store_there x.groups x.group_count k added (omega arith))) (h.reduced k below)
          | no last ↦
              let same : k ≡ x.group_count = omega arith in
              subst
                (λ g.
                  reduce_rows fl p.types (members fl kb p g.keys rows)
                    (fresh_aggregates fl kb p.aggregates)
                  ≡ ok g.aggregates)
                (sym (
                  ap (store x.groups x.group_count added) same
                  ∙ store_here x.groups x.group_count added))
                (ap (λ rs. reduce_rows fl p.types rs (fresh_aggregates fl kb p.aggregates))
                  (members_none x keys rows h.grouped h.covered fresh))
        ];
      }

  pub IsReduced-found :
      (x : Execution fl.F) (keys : List (Value fl.F)) (rows : List (Row fl kb)) (k : ℕ)
      (x' : Execution fl.F)
      → IsReduced fl kb p x rows
      → Finds fl kb p x keys k x'
      → IsReduced fl kb p x' rows
  IsReduced-found x keys rows k x' h found = elim found.history [
    | inl same ↦ subst (λ y. IsReduced fl kb p y rows) (sym same) h
    | inr (fresh, at, (capacity, used, n, slots, same)) ↦
        subst (λ y. IsReduced fl kb p y rows) (sym same)
          (IsReduced-made x keys rows capacity used n slots h fresh
            (subst (IsGrouped fl kb p) same found.grouped))
  ]

  pub IsReduced-skip :
      (x : Execution fl.F) (rows : List (Row fl kb)) (row : Row fl kb)
      → IsReduced fl kb p x rows
      → matches fl p.types p.filters row ≡ false
      → IsReduced fl kb p x (rows ++ (row ∷ []))
  IsReduced-skip x rows row h other = record {
    grouped = h.grouped;
    covered =
        All_append fl kb p (Covered fl kb p x) rows row h.covered
          (λ ks m. absurd (let z = sym other ∙ m in cc));
    reduced = λ k lt.
        Reduces-skip fl kb p (x.groups k).keys rows row (x.groups k).aggregates
          (is_member-false fl kb p (x.groups k).keys row other) (h.reduced k lt);
  }

  -- another group does not have the row
  other_group :
      (x : Execution fl.F) (row : Row fl kb) (keys : List (Value fl.F)) (j k : ℕ)
      → IsGrouped fl kb p x
      → row_keys fl kb p row ≡ ok keys
      → j < x.group_count
      → k < x.group_count
      → same_keys fl kb p.columns (x.groups k).keys keys ≡ true
      → ¬ (j ≡ k)
      → is_member fl kb p (x.groups j).keys row ≡ false
  other_group x row keys j k h e lj lk same ne =
      elim (Bool-cases (is_member fl kb p (x.groups j).keys row)) [
        | inr none ↦ none
        | inl member ↦
            let (ks, m, q, of) = member_keys fl kb p (x.groups j).keys row member in
            let of_keys =
              subst (λ a. same_keys fl kb p.columns (x.groups j).keys a ≡ true)
                (ok-eq-ok ks keys (sym q ∙ e)) of in
            let size = row_keys_size fl kb p row keys keyed e in
            absurd (
              ne (
                h.distinct j k lj lk (
                  same_keys_trans order canon p.columns (x.groups j).keys keys (x.groups k).keys
                    (h.sized j lj ∙ sym size) of_keys
                    (same_keys_sym order canon p.columns (x.groups k).keys keys same))))
      ]

  pub IsReduced-add :
      (x : Execution fl.F) (rows : List (Row fl kb)) (row : Row fl kb) (keys : List (Value fl.F))
      (k : ℕ) (aggregates : List (Aggregate fl.F))
      → IsReduced fl kb p x rows
      → matches fl p.types p.filters row ≡ true
      → row_keys fl kb p row ≡ ok keys
      → k < x.group_count
      → same_keys fl kb p.columns (x.groups k).keys keys ≡ true
      → reduce fl p.types row (x.groups k).aggregates ≡ ok aggregates
      → IsReduced fl kb p (with_aggregates x k aggregates) (rows ++ (row ∷ []))
  unfolding with_aggregates
  IsReduced-add x rows row keys k aggregates h m e lt same r =
      let x' = with_aggregates x k aggregates in
      record {
        grouped = with_aggregates-IsGrouped x k aggregates h.grouped;
        covered =
            All_append fl kb p (Covered fl kb p x') rows row
              (Covered-more fl kb p x x' (λ j below. (below, (same_head x k aggregates j).1)) rows
                h.covered)
              (λ ks m' q. (
                k,
                lt,
                subst (λ a. same_keys fl kb p.columns a ks ≡ true)
                    (sym (same_head x k aggregates k).1)
                    (subst (λ a. same_keys fl kb p.columns (x.groups k).keys a ≡ true)
                      (ok-eq-ok keys ks (sym e ∙ q)) same),
              ));
        reduced = λ j below. elim (ℕ_discrete j k) [
          | yes here ↦
              subst
                (λ i.
                  Reduces fl kb p (x'.groups i).keys (rows ++ (row ∷ [])) (x'.groups i).aggregates)
                (sym here)
                (subst (λ ks. Reduces fl kb p ks (rows ++ (row ∷ [])) (x'.groups k).aggregates)
                  (sym (same_head x k aggregates k).1)
                  (subst (λ a. Reduces fl kb p (x.groups k).keys (rows ++ (row ∷ [])) a)
                    (sym (new_aggregates x k aggregates))
                    (Reduces-take fl kb p (x.groups k).keys rows row (x.groups k).aggregates
                      aggregates (is_member-true fl kb p (x.groups k).keys keys row m e same)
                      (h.reduced k lt) r)))
          | no other ↦
              subst (λ ks. Reduces fl kb p ks (rows ++ (row ∷ [])) (x'.groups j).aggregates)
                (sym (same_head x k aggregates j).1)
                (subst (λ a. Reduces fl kb p (x.groups j).keys (rows ++ (row ∷ [])) a)
                  (sym (old_aggregates x k aggregates j other))
                  (Reduces-skip fl kb p (x.groups j).keys rows row (x.groups j).aggregates
                    (other_group x row keys j k h.grouped e below lt same other)
                    (h.reduced j below)))
        ];
      }
