-- ===== src/Query/Rows/Grouping.antt =====
-- A query with aggregates groups its rows: the aggregates of each group are the reduction of the rows
-- that match and have its keys, in their order.
use mathlib.Core.Path.{ap₂}
use webanalyticsdb.Prelude.{
  ℕ, ◌+◌, ◌<◌, ◌≡◌, refl, sym, ap, subst, ◌∙◌, arith, Bool, true, false, ◌&&◌, List, [], ◌∷◌, ◌++◌,
  length, Bool-cases, inl, inr, if◌then◌else◌, All,
}
use webanalyticsdb.Core.Status.{Result, ok, err, ◌>>=◌, ok-eq-ok, >>=-ok}
use webanalyticsdb.Slots.{store}
use webanalyticsdb.Slots.Index.{Indexes-hash}
use webanalyticsdb.Query.Values.{FloatOps, Value}
use webanalyticsdb.Core.Types.{FieldType}
use webanalyticsdb.Query.Filters.{matches}
use webanalyticsdb.Query.Aggregates.{Aggregate, reduce, reduce_rows}
use webanalyticsdb.Query.Execution.{QueryPlan, Execution}
use webanalyticsdb.Query.Groups.{KeyBits, hash_keys, same_keys, group_hashes, fresh_aggregates}
use webanalyticsdb.Query.Groups.Found.{IsGrouped}
use webanalyticsdb.Query.Rows.{Row, row_keys, with_aggregates}

module _ (fl : FloatOps) (kb : KeyBits fl.F) (p : QueryPlan fl.F) where
  -- The row matches, and its keys are these.
  unfoldable pub has_keys : List (Value fl.F) → Result (List (Value fl.F)) → Bool
  has_keys keys (err s) = false
  has_keys keys (ok ks) = same_keys fl kb p.columns keys ks

  unfoldable pub is_member : List (Value fl.F) → Row fl kb → Bool
  is_member keys row = matches fl p.types p.filters row && has_keys keys (row_keys fl kb p row)

  unfoldable pub members : List (Value fl.F) → List (Row fl kb) → List (Row fl kb)
  members keys [] = []
  members keys (row ∷ rows) =
      if is_member keys row then row ∷ members keys rows else members keys rows

  unfoldable pub matching : List (Row fl kb) → ℕ
  matching [] = 0
  matching (row ∷ rows) = (if matches fl p.types p.filters row then 1 else 0) + matching rows

  -- A row that matches has a group.
  abbrev pub Covered : Execution fl.F → Row fl kb → Type 0
  Covered x row =
      (ks : List (Value fl.F))
      → matches fl p.types p.filters row ≡ true
      → row_keys fl kb p row ≡ ok ks
      → (k : ℕ) × (k < x.group_count) × (same_keys fl kb p.columns (x.groups k).keys ks ≡ true)

  -- The groups are those of the rows, and so are their aggregates.
  pub record IsReduced (x : Execution fl.F) (rows : List (Row fl kb)) : Type 0 where
    pub grouped : IsGrouped fl kb p x
    pub covered : All (Covered x) rows
    pub reduced :
        (k : ℕ)
        → k < x.group_count
        → reduce_rows fl p.types
            (members (x.groups k).keys rows)
            (fresh_aggregates fl kb p.aggregates)
          ≡ ok (x.groups k).aggregates

  pub matching_append :
      (rows : List (Row fl kb)) (row : Row fl kb)
      → matching (rows ++ (row ∷ [])) ≡ matching rows + matching (row ∷ [])
  unfolding matching
  matching_append [] row = omega arith
  matching_append (r ∷ rows) row = omega (arith, matching_append rows row)

  pub members_append :
      (keys : List (Value fl.F)) (rows : List (Row fl kb)) (row : Row fl kb)
      → members keys (rows ++ (row ∷ [])) ≡ members keys rows ++ members keys (row ∷ [])
  unfolding members
  members_append keys [] row = refl
  members_append keys (r ∷ rows) row = elim (Bool-cases (is_member keys r)) [
    | inl yes_r ↦ rw yes_r (ap (◌∷◌ r) (members_append keys rows row))
    | inr no_r ↦ rw no_r (members_append keys rows row)
  ]

pub reduce_rows_last :
    (fl : FloatOps) (types : ℕ → FieldType) (xs : List (ℕ → Value fl.F)) (row : ℕ → Value fl.F)
    (g a b : List (Aggregate fl.F))
    → reduce_rows fl types xs g ≡ ok a
    → reduce fl types row a ≡ ok b
    → reduce_rows fl types (xs ++ (row ∷ [])) g ≡ ok b
unfolding reduce_rows
reduce_rows_last fl types [] row g a b e f =
    let same : g ≡ a = ok-eq-ok _ _ e in
    subst (λ y. (reduce fl types row y >>= λ g'. ok g') ≡ ok b) (sym same) (rw f refl)
reduce_rows_last fl types (x ∷ xs) row g a b e f =
    let (g', one, rest) = >>=-ok (reduce fl types x g) _ e in
    rw one (reduce_rows_last fl types xs row g' a b rest f)

module _ {F : Type 0} (x : Execution F) (k : ℕ) (aggregates : List (Aggregate F)) where
  pub same_head :
      (j : ℕ)
      → (((with_aggregates x k aggregates).groups j).hash ≡ (x.groups j).hash)
        × (((with_aggregates x k aggregates).groups j).keys ≡ (x.groups j).keys)
  unfolding with_aggregates store
  same_head j = ground arith

  pub new_aggregates : ((with_aggregates x k aggregates).groups k).aggregates ≡ aggregates
  unfolding with_aggregates store
  new_aggregates = ground arith

  pub old_aggregates :
      (j : ℕ)
      → ¬ (j ≡ k)
      → ((with_aggregates x k aggregates).groups j).aggregates ≡ (x.groups j).aggregates
  unfolding with_aggregates store
  old_aggregates j ne = ground arith

module _ {fl : FloatOps} {kb : KeyBits fl.F} {p : QueryPlan fl.F} (x : Execution fl.F) (k : ℕ)
    (aggregates : List (Aggregate fl.F)) where
  pub with_aggregates-IsGrouped :
      IsGrouped fl kb p x → IsGrouped fl kb p (with_aggregates x k aggregates)
  unfolding with_aggregates group_hashes
  with_aggregates-IsGrouped h = record {
    index =
        Indexes-hash (group_hashes x.groups) _ (λ j lt. sym (same_head x k aggregates j).0) h.index;
    room = h.room;
    few = h.few;
    within = h.within;
    held = h.held;
    hashed = λ j lt.
        (same_head x k aggregates j).0
        ∙ h.hashed j lt
        ∙ ap (λ ks. hash_keys fl kb p ks) (sym (same_head x k aggregates j).1);
    sized = λ j lt. ap length (same_head x k aggregates j).1 ∙ h.sized j lt;
    distinct = λ i j li lj e. h.distinct i j li lj (
        sym (
          ap₂ (same_keys fl kb p.columns) (same_head x k aggregates i).1
            (same_head x k aggregates j).1)
        ∙ e);
  }
