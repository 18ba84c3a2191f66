-- ===== src/Query/Groups/Making.antt =====
-- A group that is made keeps what holds of the groups.
use native.Mathlib.Decide.{dec_lt}
use webanalyticsdb.Prelude.{
  ℕ, suc, ◌+◌, ◌-◌, ◌*◌, ◌≤◌, ◌<◌, ◌≡◌, refl, sym, ap, subst, arith, true, not, ◌&&◌, List, [], ◌∷◌,
  ltb, ◌==◌, length, Bool-cases, inl, inr,
}
use webanalyticsdb.Core.Status.{if_ok, ok, limit, nomem, ok-eq-ok, >>=-ok, reject-eq-ok}
use webanalyticsdb.Core.Types.{FieldType, type_bytes}
use webanalyticsdb.Slots.{store, place_entry}
use webanalyticsdb.Slots.Laws.{store_here, store_there}
use webanalyticsdb.Slots.Index.{Indexes, place_entry-Indexes, rehash-Indexes, Indexes-hash}
use webanalyticsdb.Query.Values.{FloatOps, Value}
use webanalyticsdb.Query.Values.Order.{IsOrder}
use webanalyticsdb.Query.Execution.{
  ResultColumn, QueryPlan, Group, Execution, sizeof_slot, charge, allocate, copy_value, copy_values,
}
use webanalyticsdb.Query.Groups.{
  KeyBits, hash_keys, same_keys, group_hashes, group_room, slot_room, more_slots, new_group,
  add_group, make_group,
}
use webanalyticsdb.Query.Groups.Keys.{IsCanonical, same_keys_sym}
use webanalyticsdb.Query.Groups.Found.{IsGrouped}

-- What is charged is added to what is used, within the limit.
abbrev pub Charged : {F : Type 0} → QueryPlan F → ℕ → ℕ → Type 0
Charged p used used' = (used ≤ used') × (used' ≤ p.memory_limit_bytes)

module _ {F : Type 0} (p : QueryPlan F) where
  charge-Charged :
      (used n u : ℕ)
      → used ≤ p.memory_limit_bytes
      → charge p used n ≡ ok u
      → Charged p used u × (u ≡ used + n)
  unfolding charge
  charge-Charged used n u le e = elim (Bool-cases (ltb (p.memory_limit_bytes - used) n)) [
    | inl over ↦ absurd (let z = rw over at e in cc)
    | inr fits ↦
        let sum : used + n ≡ u = ok-eq-ok _ _ (rw fits at e) in
        ((omega arith, ground arith), sym sum)
  ]

  pub allocate-Charged :
      (used n u : ℕ)
      → used ≤ p.memory_limit_bytes
      → allocate p used n ≡ ok u
      → Charged p used u × (u ≡ used + n)
  unfolding allocate
  allocate-Charged used n u le e =
      let (v, c, e1) = >>=-ok (charge p used n) _ e in
      let (_, e2) = reject-eq-ok (not (p.allocates used n)) nomem _ e1 in
      subst (λ w. Charged p used w × (w ≡ used + n)) (ok-eq-ok _ _ e2)
        (charge-Charged used n v le c)

  pub copy_value-Charged :
      (t : FieldType) (v : Value F) (used u : ℕ)
      → used ≤ p.memory_limit_bytes
      → copy_value p t v used ≡ ok u
      → Charged p used u
  unfolding copy_value
  copy_value-Charged t v used u le e =
      if_ok (not v.is_null && type_bytes t) _ _ (Charged p used) e
        (λ u q. (allocate-Charged used (length v.bytes + 1) u le q).0)
        λ u q. (let same : used ≡ u = ok-eq-ok _ _ q in (omega arith, omega arith))

  pub copy_values-Charged :
      (cs : List ResultColumn) (vs : List (Value F)) (used u : ℕ)
      → used ≤ p.memory_limit_bytes
      → copy_values p cs vs used ≡ ok u
      → Charged p used u
  unfolding copy_values
  copy_values-Charged [] vs used u le e =
      let same : used ≡ u = ok-eq-ok _ _ e in (omega arith, omega arith)
  copy_values-Charged (c ∷ cs) [] used u le e =
      let same : used ≡ u = ok-eq-ok _ _ e in (omega arith, omega arith)
  copy_values-Charged (c ∷ cs) (v ∷ vs) used u le e =
      let (u', one, rest) = >>=-ok (copy_value p c.type v used) _ e in
      let (up, fits) = copy_value-Charged c.type v used u' le one in
      let (up', fits') = copy_values-Charged cs vs u' u fits rest in (omega arith, fits')

module _ {F : Type 0} (p : QueryPlan F) (x : Execution F) where
  more_slots_lem : (count slots : ℕ) → count * 2 ≤ slots → suc count * 2 ≤ more_slots slots
  unfolding more_slots
  more_slots_lem count slots room = ground arith

  group_room-Charged :
      (r : ℕ × ℕ) → x.used ≤ p.memory_limit_bytes → group_room p x ≡ ok r → Charged p x.used r.1
  unfolding group_room
  group_room-Charged r le e =
      if_ok (x.group_count == x.group_capacity) _ _ (λ r. Charged p x.used r.1) e
        (λ r q.
          (let (u, c, q') = >>=-ok (allocate p x.used _) _ q in
            subst (λ r. Charged p x.used r.1) (ok-eq-ok _ _ q')
              (allocate-Charged p x.used _ u le c).0))
        λ r q. subst (λ r. Charged p x.used r.1) (ok-eq-ok _ _ q) (omega arith, le)

  -- slots with room for one group more, which hold the groups
  abbrev IsRoom : ℕ → (ℕ → ℕ) × ℕ × ℕ → Type 0
  IsRoom used (slots, count, used') =
      Indexes (group_hashes x.groups) slots count x.group_count
      × (suc x.group_count * 2 ≤ count)
      × (used' ≤ p.memory_limit_bytes)
      × (count * sizeof_slot ≤ used')

  slot_room-IsRoom :
      (used : ℕ) (r : (ℕ → ℕ) × ℕ × ℕ)
      → Indexes (group_hashes x.groups) x.slots x.slot_count x.group_count
      → x.group_count * 2 ≤ x.slot_count
      → x.slot_count * sizeof_slot ≤ used
      → used ≤ p.memory_limit_bytes
      → slot_room p x used ≡ ok r
      → IsRoom used r
  unfolding slot_room
  slot_room-IsRoom used r index room held le e =
      elim (Bool-cases (ltb x.slot_count ((x.group_count + 1) * 2))) [
        | inl more ↦
            let (u, c, q) =
              >>=-ok (allocate p used (more_slots x.slot_count * sizeof_slot)) _ (rw more at e) in
            let ((_, fits), sum) = allocate-Charged p used _ u le c in
            let grown : x.group_count < more_slots x.slot_count =
              omega (arith, more_slots_lem x.group_count x.slot_count room) in
            let grown_room = more_slots_lem x.group_count x.slot_count room in
            subst (IsRoom used) (ok-eq-ok _ _ q) (
              rehash-Indexes (group_hashes x.groups) (more_slots x.slot_count) x.group_count grown,
              grown_room,
              omega arith,
              omega arith,
            )
        | inr enough ↦
            subst (IsRoom used) (ok-eq-ok _ _ (rw enough at e)) (index, ground arith, le, held)
      ]

module _ {fl : FloatOps} {kb : KeyBits fl.F} (order : IsOrder fl) (canon : IsCanonical fl kb)
    {p : QueryPlan fl.F} {x : Execution fl.F} (h : IsGrouped fl kb p x) (keys : List (Value fl.F))
    (size : length keys ≡ p.key_count)
    (fresh : (k : ℕ)
      → ¬ ((k < x.group_count) × (same_keys fl kb p.columns (x.groups k).keys keys ≡ true))) where
  abbrev added : Group fl.F
  added = new_group fl kb p (hash_keys fl kb p keys) keys

  abbrev groups' : ℕ → Group fl.F
  groups' = store x.groups x.group_count added

  older : (k : ℕ) → k < x.group_count → groups' k ≡ x.groups k
  older k lt = store_there x.groups x.group_count k added (omega arith)

  at_count : groups' x.group_count ≡ added
  at_count = store_here x.groups x.group_count added

  -- what holds of the older groups and of the new one holds of all
  each :
      (P : ℕ → Group fl.F → Type 0)
      → ((k : ℕ) → k < x.group_count → P k (x.groups k))
      → P x.group_count added
      → (k : ℕ) → k < suc x.group_count
      → P k (groups' k)
  each P old new k lt = elim (dec_lt k x.group_count) [
    | yes below ↦ subst (P k) (sym (older k below)) (old k below)
    | no last ↦
        let same : k ≡ x.group_count = omega arith in
        subst (λ j. P j (groups' j)) (sym same) (subst (P x.group_count) (sym at_count) new)
  ]

  distinct_now :
      (j k : ℕ)
      → j < suc x.group_count
      → k < suc x.group_count
      → same_keys fl kb p.columns (groups' j).keys (groups' k).keys ≡ true
      → j ≡ k
  unfolding new_group
  distinct_now j k lj lk =
      each (λ j g. same_keys fl kb p.columns g.keys (groups' k).keys ≡ true → j ≡ k)
        (λ j below.
          each (λ k g. same_keys fl kb p.columns (x.groups j).keys g.keys ≡ true → j ≡ k)
            (λ k below_k. h.distinct j k below below_k) (λ e. absurd (fresh j (below, e))) k lk)
        (each (λ k g. same_keys fl kb p.columns keys g.keys ≡ true → x.group_count ≡ k)
          (λ k below e.
            absurd (fresh k (below, same_keys_sym order canon p.columns keys (x.groups k).keys e)))
          (λ e. refl) k lk)
        j lj

  index_now :
      (slots : ℕ → ℕ) (n : ℕ)
      → Indexes (group_hashes x.groups) slots n x.group_count
      → x.group_count < n
      → Indexes
          (group_hashes groups')
          (place_entry slots n (hash_keys fl kb p keys) x.group_count)
          n
          (suc x.group_count)
  unfolding group_hashes new_group
  index_now slots n index room =
      let now =
        Indexes-hash (group_hashes x.groups) (group_hashes groups')
          (λ k lt. ap (λ g. g.hash) (sym (older k lt))) index in
      subst
        (λ key.
          Indexes (group_hashes groups') (place_entry slots n key x.group_count) n
            (suc x.group_count))
        (ap (λ g. g.hash) at_count) (place_entry-Indexes now room)

  pub add_group-IsGrouped :
      (capacity used : ℕ) (slots : ℕ → ℕ) (n : ℕ)
      → x.group_count < p.max_groups
      → Indexes (group_hashes x.groups) slots n x.group_count
      → suc x.group_count * 2 ≤ n
      → used ≤ p.memory_limit_bytes
      → n * sizeof_slot ≤ used
      → IsGrouped fl kb p (add_group fl kb p x (hash_keys fl kb p keys) keys capacity slots n used)
  unfolding add_group new_group
  add_group-IsGrouped capacity used slots n few index room le held = record {
    index = index_now slots n index (omega arith);
    room = room;
    few = few;
    within = le;
    held = held;
    hashed = each (λ k g. g.hash ≡ hash_keys fl kb p g.keys) h.hashed refl;
    sized = each (λ k g. length g.keys ≡ p.key_count) h.sized size;
    distinct = distinct_now;
  }

  -- the group is new, with the keys, and the others are as they were
  pub make_group-IsMade :
      (r : ℕ × Execution fl.F)
      → make_group fl kb p x (hash_keys fl kb p keys) keys ≡ ok r
      → IsGrouped fl kb p r.1
        × (r.0 ≡ x.group_count)
        × ((capacity used n : ℕ) × (slots : ℕ → ℕ) × (r.1
              ≡ add_group fl kb p x (hash_keys fl kb p keys) keys capacity slots n used))
  unfolding make_group
  make_group-IsMade r e =
      let (free, e1) = reject-eq-ok (x.group_count == p.max_groups) limit _ e in
      let (cap, room, e2) = >>=-ok (group_room p x) _ e1 in
      let (_, fits) = group_room-Charged p x cap h.within room in
      let (more, _) = group_room-Charged p x cap h.within room in
      let (slots, made, e3) = >>=-ok (slot_room p x cap.1) _ e2 in
      let (index, wide, fits', held) =
        slot_room-IsRoom p x cap.1 slots h.index h.room (omega (arith, h.held)) fits made in
      let (u, copied, e4) = >>=-ok (copy_values p p.columns keys slots.2) _ e3 in
      let (up, fits'') = copy_values-Charged p p.columns keys slots.2 u fits' copied in
      let grouped =
        add_group-IsGrouped cap.0 u slots.0 slots.1
          (let few : x.group_count < p.max_groups = ground (arith, h.few) in few) index wide fits''
          (omega arith) in
      let same = ok-eq-ok _ r e4 in
      (
        subst (λ r. IsGrouped fl kb p r.1) same grouped,
        sym (ap (λ r. r.0) same),
        (cap.0, u, slots.1, slots.0, sym (ap (λ r. r.1) same)),
      )
