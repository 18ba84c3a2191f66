-- ===== src/Query/Groups/Finding.antt =====
-- What `group_for` gives: the group of the keys, found or made.
use webanalyticsdb.Prelude.{
  ℕ, zero, suc, ◌<◌, ◌≡◌, refl, sym, ap, subst, ◌∙◌, arith, Bool, true, List, length, Bool-cases,
  inl, inr, ◌⊎◌,
}
use native.Mathlib.Decide.{dec_lt}
use webanalyticsdb.Core.Status.{ok, ok-eq-ok}
use webanalyticsdb.Slots.Laws.{store_here}
use webanalyticsdb.Query.Values.{FloatOps, Value}
use webanalyticsdb.Query.Values.Order.{IsOrder}
use webanalyticsdb.Query.Execution.{QueryPlan, Execution}
use webanalyticsdb.Query.Groups.{
  KeyBits, hash_keys, same_keys, new_group, add_group, make_group, group_found, group_for,
}
use webanalyticsdb.Query.Groups.Keys.{IsCanonical, same_keys_refl}
use webanalyticsdb.Query.Groups.Found.{IsGrouped, find_group_of, find_group_new}
use webanalyticsdb.Query.Groups.Making.{make_group-IsMade}

-- a number below a bound of which a test holds, or none
pub some_below :
    (test : ℕ → Bool) (n : ℕ)
    → ((k : ℕ) × (k < n) × (test k ≡ true)) ⊎ ((k : ℕ) → ¬ ((k < n) × (test k ≡ true)))
some_below test zero = inr (λ k (lt, e). omega arith)
some_below test (suc n) = elim (some_below test n) [
  | inl (k, lt, e) ↦ inl (k, omega arith, e)
  | inr never ↦ elim (Bool-cases (test n)) [
    | inl e ↦ inl (n, omega arith, e)
    | inr e ↦ inr λ k (lt, yes_k). elim (dec_lt k n) [
      | yes older ↦ never k (older, yes_k)
      | no last ↦ let same : k ≡ n = omega arith in let z = sym e ∙ ap test (sym same) ∙ yes_k in cc
    ]
  ]
]

module _ (fl : FloatOps) (kb : KeyBits fl.F) (p : QueryPlan fl.F) (x : Execution fl.F)
    (keys : List (Value fl.F)) where
  -- The group has the keys. It was there, and nothing changed; or there was none, and it is new.
  pub record Finds (k : ℕ) (x' : Execution fl.F) : Type 0 where
    pub grouped : IsGrouped fl kb p x'
    pub inside : k < x'.group_count
    pub same : same_keys fl kb p.columns (x'.groups k).keys keys ≡ true
    pub history :
        (x' ≡ x)
        ⊎ (((j : ℕ)
              → ¬ ((j < x.group_count) × (same_keys fl kb p.columns (x.groups j).keys keys ≡ true)))
            × (k ≡ x.group_count)
            × ((capacity used n : ℕ) × (slots : ℕ → ℕ) × (x'
                  ≡ add_group fl kb p x (hash_keys fl kb p keys) keys capacity slots n used)))

module _ {fl : FloatOps} {kb : KeyBits fl.F} (order : IsOrder fl) (canon : IsCanonical fl kb)
    {p : QueryPlan fl.F} {x : Execution fl.F} (h : IsGrouped fl kb p x) (keys : List (Value fl.F))
    (size : length keys ≡ p.key_count) where
  added_group :
      (capacity used n : ℕ) (slots : ℕ → ℕ)
      → ((add_group fl kb p x (hash_keys fl kb p keys) keys capacity slots n used).groups
          x.group_count).keys
        ≡ keys
  unfolding add_group new_group
  added_group capacity used n slots = ap (λ g. g.keys) (store_here x.groups x.group_count _)

  made-Finds :
      ((j : ℕ)
        → ¬ ((j < x.group_count) × (same_keys fl kb p.columns (x.groups j).keys keys ≡ true)))
      → (r : ℕ × Execution fl.F) → make_group fl kb p x (hash_keys fl kb p keys) keys ≡ ok r
      → Finds fl kb p x keys r.0 r.1
  unfolding add_group
  made-Finds fresh r e =
      let (grouped, at, (capacity, used, n, slots, same)) =
        make_group-IsMade order canon h keys size fresh r e in
      record {
        grouped = grouped;
        inside =
            (let c : r.1.group_count ≡ suc x.group_count = ap (λ y. y.group_count) same in
              omega arith);
        same =
            (let ks : (r.1.groups r.0).keys ≡ keys =
                ap (λ j. (r.1.groups j).keys) at
                ∙ ap (λ y. (y.groups x.group_count).keys) same
                ∙ added_group capacity used n slots in
              subst (λ a. same_keys fl kb p.columns a keys ≡ true) (sym ks)
                (same_keys_refl fl kb p.columns keys));
        history = inr (fresh, at, (capacity, used, n, slots, same));
      }

  -- `group_for` gives the group of the keys, found or made.
  pub group_for-Finds :
      (k : ℕ) (x' : Execution fl.F)
      → group_for fl kb p x keys ≡ ok (k, x')
      → Finds fl kb p x keys k x'
  unfolding group_for group_found
  group_for-Finds k x' e =
      elim (some_below (λ j. same_keys fl kb p.columns (x.groups j).keys keys) x.group_count) [
        | inl (j, lt, same) ↦
            let q = ok-eq-ok _ _ (rw (find_group_of order canon h keys size j (lt, same)) at e) in
            subst (λ r. Finds fl kb p x keys r.0 r.1) q
              (record { grouped = h; inside = lt; same = same; history = inl refl })
        | inr fresh ↦
            let (i, at) = find_group_new order canon h keys size fresh in
            made-Finds fresh (k, x') (rw at at e)
      ]
