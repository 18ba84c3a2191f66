-- ===== src/Query/Groups/Found.antt =====
-- The groups of a query: each row's keys have one group, which its hash finds.
use webanalyticsdb.Prelude.{
  ℕ, ◌*◌, ◌≤◌, ◌<◌, ◌≡◌, refl, sym, subst, ◌∙◌, arith, Bool, true, false, List, ◌==◌, length,
  Bool-cases, inl, inr, then_of, else_of,
}
use webanalyticsdb.Slots.{found, vacant, probe}
use webanalyticsdb.Slots.Index.{Indexes, probe-found, probe-vacant}
use webanalyticsdb.Query.Values.{FloatOps, Value}
use webanalyticsdb.Query.Values.Order.{IsOrder}
use webanalyticsdb.Query.Execution.{QueryPlan, Execution, sizeof_slot}
use webanalyticsdb.Query.Groups.{
  KeyBits, hash_keys, same_keys, same_group, find_group, group_hashes,
}
use webanalyticsdb.Query.Groups.Keys.{IsCanonical, hash_from_same, same_keys_sym, same_keys_trans}

module _ (fl : FloatOps) (kb : KeyBits fl.F) where
  -- The index holds the groups, whose keys differ, and the limits are kept.
  pub record IsGrouped (p : QueryPlan fl.F) (x : Execution fl.F) : Type 0 where
    pub index : Indexes (group_hashes x.groups) x.slots x.slot_count x.group_count
    pub room : x.group_count * 2 ≤ x.slot_count
    pub few : x.group_count ≤ p.max_groups
    pub within : x.used ≤ p.memory_limit_bytes
    pub held : x.slot_count * sizeof_slot ≤ x.used
    pub hashed :
        (k : ℕ) → k < x.group_count → (x.groups k).hash ≡ hash_keys fl kb p (x.groups k).keys
    pub sized : (k : ℕ) → k < x.group_count → length (x.groups k).keys ≡ p.key_count
    pub distinct :
        (j k : ℕ)
        → j < x.group_count
        → k < x.group_count
        → same_keys fl kb p.columns (x.groups j).keys (x.groups k).keys ≡ true
        → j ≡ k

false_of : (b : Bool) → ¬ (b ≡ true) → b ≡ false
false_of true h = absurd (h refl)
false_of false h = refl

module _ {fl : FloatOps} {kb : KeyBits fl.F} (order : IsOrder fl) (canon : IsCanonical fl kb)
    {p : QueryPlan fl.F} {x : Execution fl.F} (h : IsGrouped fl kb p x) (keys : List (Value fl.F))
    (size : length keys ≡ p.key_count) where
  abbrev pub IsOf : ℕ → Type 0
  IsOf k = (k < x.group_count) × (same_keys fl kb p.columns (x.groups k).keys keys ≡ true)

  abbrev pub key : ℕ
  key = hash_keys fl kb p keys

  of_hash : (k : ℕ) → IsOf k → (x.groups k).hash ≡ key
  unfolding hash_keys
  of_hash k (lt, same) =
      h.hashed k lt
      ∙ hash_from_same order canon p.columns (x.groups k).keys keys _ (h.sized k lt ∙ sym size) same

  of_only : (j k : ℕ) → IsOf j → IsOf k → j ≡ k
  of_only j k (lj, sj) (lk, sk) = h.distinct j k lj lk (
      same_keys_trans order canon p.columns (x.groups j).keys keys (x.groups k).keys
        (h.sized j lj ∙ sym size) sj
        (same_keys_sym order canon p.columns (x.groups k).keys keys sk))

  same_group_of : (k : ℕ) → IsOf k → same_group fl kb p key keys (x.groups k) ≡ true
  unfolding same_group
  same_group_of k (lt, same) = let e = of_hash k (lt, same) in ground arith

  same_group_keys :
      (k : ℕ)
      → same_group fl kb p key keys (x.groups k) ≡ true
      → same_keys fl kb p.columns (x.groups k).keys keys ≡ true
  unfolding same_group
  same_group_keys k e = ground arith

  pub find_group_of : (k : ℕ) → IsOf k → find_group fl kb p x key keys ≡ found k
  unfolding find_group group_hashes
  find_group_of k (lt, same) =
      let at =
        probe-found h.index (omega (arith, h.room)) (λ j. same_group fl kb p key keys (x.groups j))
          k lt (same_group_of k (lt, same))
          (λ j lj e. of_only j k (lj, same_group_keys j e) (lt, same)) in
      else_of (x.slot_count == 0) _ _
        (let some_slot : (x.slot_count == 0) ≡ false = ground (arith, h.room) in some_slot)
        (subst
          (λ y.
            probe (λ j. same_group fl kb p key keys (x.groups j)) x.slots x.slot_count y ≡ found k)
          (of_hash k (lt, same)) at)

  pub find_group_new : ((k : ℕ) → ¬ IsOf k) → (i : ℕ) × (find_group fl kb p x key keys ≡ vacant i)
  unfolding find_group
  find_group_new new =
      let not_same : (j : ℕ)
          → j < x.group_count
          → same_group fl kb p key keys (x.groups j) ≡ false =
        λ j lj. false_of _ λ e. new j (lj, same_group_keys j e) in
      elim (Bool-cases (x.slot_count == 0)) [
        | inl no_slot ↦ (0, then_of (x.slot_count == 0) _ _ no_slot refl)
        | inr some_slot ↦
            let (i, e, _) =
              probe-vacant h.index
                (let r : x.group_count < x.slot_count = ground (arith, h.room) in r)
                (λ k. same_group fl kb p key keys (x.groups k)) key (λ j lj. not_same j lj) in
            (i, else_of (x.slot_count == 0) _ _ some_slot e)
      ]
