-- ===== src/Query/Output/Order.antt =====
-- The order of the groups is total: by value, with null last, and then by position.
use webanalyticsdb.Prelude.{ℕ, ◌≡◌, ◌≢◌, refl, sym, ap, subst, ◌∙◌, arith, Bool, true, false}
use webanalyticsdb.Core.Types.{FieldType}
use webanalyticsdb.Query.Values.{
  FloatOps, Value, Cmp, less, equal, greater, from_tests, value_compare,
}
use webanalyticsdb.Query.Values.Order.{flip, IsOrder, value_compare-flip, value_compare_trans}
use webanalyticsdb.Query.Execution.{QueryPlan, Group}
use webanalyticsdb.Query.Groups.{KeyBits}
use webanalyticsdb.Query.Sorting.Merged.{IsTotal}
use webanalyticsdb.Query.Output.{
  group_value, column_type, directed, or_position, not_greater, compare_groups, group_le,
}

module _ (fl : FloatOps) (t : FieldType) (descending : Bool) where
  abbrev compare : Value fl.F → Value fl.F → Cmp
  compare a b = value_compare fl t a b

  abbrev turned : Value fl.F → Value fl.F → Cmp
  turned a b = directed descending a b (value_compare fl t a b)

  turned-flip : (a b : Value fl.F) → turned b a ≡ flip (turned a b)
  unfolding directed
  turned-flip a b = ground (arith, value_compare-flip fl t a b)

  null_compare : (a b : Value fl.F) → a.is_null ≡ true → b.is_null ≡ false → compare a b ≡ greater
  unfolding value_compare from_tests
  null_compare a b na nb = ground arith

  compare_null : (a b : Value fl.F) → b.is_null ≡ true → compare a b ≢ greater
  unfolding value_compare from_tests
  compare_null a b nb = ground arith

  not_less : (a b : Value fl.F) → flip (compare a b) ≢ greater → compare b a ≢ greater
  not_less a b h e = h (sym (value_compare-flip fl t a b) ∙ e)

  turned_trans :
      IsOrder fl
      → (a b c : Value fl.F) → turned a b ≢ greater
      → turned b c ≢ greater
      → turned a c ≢ greater
  unfolding directed
  turned_trans order a b c h k = ground (
    arith,
    value_compare_trans fl order t a b c,
    value_compare_trans fl order t c b a,
    not_less a b,
    not_less b c,
    not_less c a,
    value_compare-flip fl t c a,
    null_compare a b,
    null_compare b c,
    compare_null a c,
  )

or_position_total :
    (c : Cmp) (a b : ℕ)
    → not_greater (or_position c a b) ≡ false
    → not_greater (or_position (flip c) b a) ≡ true
unfolding or_position not_greater from_tests
or_position_total less a b h = cc
or_position_total greater a b h = refl
or_position_total equal a b h = ground arith

-- a comparison of three values that fits together
or_position_trans :
    (x y z : Cmp) (a b c : ℕ)
    → (x ≢ greater → y ≢ greater → z ≢ greater)
    → (z ≡ equal → x ≢ greater → y ≢ greater → (x ≡ equal) × (y ≡ equal))
    → not_greater (or_position x a b) ≡ true
    → not_greater (or_position y b c) ≡ true
    → not_greater (or_position z a c) ≡ true
unfolding or_position not_greater from_tests
or_position_trans x y less a b c up tie h k = refl
or_position_trans x y greater a b c up tie h k = ground (arith, up)
or_position_trans x y equal a b c up tie h k = ground (arith, tie)

both_ways : (c : Cmp) → c ≢ greater → flip c ≢ greater → c ≡ equal
both_ways equal h k = refl
both_ways less h k = absurd (k refl)
both_ways greater h k = absurd (h refl)

module _ (fl : FloatOps) (order : IsOrder fl) (t : FieldType) (descending : Bool) where
  turned_tie :
      (a b c : Value fl.F)
      → turned fl t descending a c ≡ equal
      → turned fl t descending a b ≢ greater
      → turned fl t descending b c ≢ greater
      → (turned fl t descending a b ≡ equal) × (turned fl t descending b c ≡ equal)
  turned_tie a b c e h k =
      let back : turned fl t descending c a ≢ greater =
        λ z. (let w = sym (turned-flip fl t descending a c ∙ ap flip e) ∙ z in cc) in
      let ba = turned_trans fl t descending order b c a k back in
      let cb = turned_trans fl t descending order c a b back h in
      (
        both_ways (turned fl t descending a b) h (λ z. ba (turned-flip fl t descending a b ∙ z)),
        both_ways (turned fl t descending b c) k (λ z. cb (turned-flip fl t descending b c ∙ z)),
      )

module _ (fl : FloatOps) (kb : KeyBits fl.F) (order : IsOrder fl) (p : QueryPlan fl.F)
    (groups : ℕ → Group fl.F) (col : ℕ) where
  abbrev value : ℕ → Value fl.F
  value k = group_value fl kb p col (groups k)

  abbrev type : FieldType
  type = column_type fl kb p col

  -- The comparison of two groups on one column puts them in a total order.
  pub group_le-IsTotal : IsTotal (group_le fl kb p groups col)
  unfolding group_le compare_groups
  group_le-IsTotal = record {
    total = λ a b h.
        subst (λ c. not_greater (or_position c b a) ≡ true)
          (sym (turned-flip fl type p.descending (value a) (value b))) (or_position_total _ a b h);
    trans = λ a b c h k.
        or_position_trans (turned fl type p.descending (value a) (value b))
          (turned fl type p.descending (value b) (value c))
          (turned fl type p.descending (value a) (value c)) a b c
          (turned_trans fl type p.descending order (value a) (value b) (value c))
          (turned_tie fl order type p.descending (value a) (value b) (value c)) h k;
  }
