-- ===== src/Slots/Laws.antt =====
-- Why a walk over the slots ends, and what it finds.
use native.Mathlib.Nat.{mod-eq_of_lt, mod_self, mod-lt}
use native.Mathlib.Decide.{dec_le, dec_lt}
use webanalyticsdb.Prelude.{
  ℕ, zero, suc, ◌+◌, ◌-◌, ◌%◌, ◌≤◌, ◌<◌, Bool, true, false, ◌==◌, if◌then◌else◌, ◌≡◌, ◌≢◌, refl,
  arith, ◌⊎◌, inl, inr, subst, sym, ◌∙◌, Bool-cases,
}
use webanalyticsdb.Slots.{store, Walk, found, vacant, spun, next_slot, walk_from, walk, probe}

pub store_here {ℓ} : {A : Type ℓ} (a : ℕ → A) (i : ℕ) (v : A) → store a i v i ≡ v
unfolding store
store_here a i v = ground arith

pub store_there {ℓ} : {A : Type ℓ} (a : ℕ → A) (i j : ℕ) (v : A) → ¬ (j ≡ i) → store a i v j ≡ a j
unfolding store
store_there a i j v ne = ground arith

zero_or : (n : ℕ) → (n ≡ 0) ⊎ ((k : ℕ) × (n ≡ suc k))
zero_or zero = inl refl
zero_or (suc k) = inr (k, refl)

value_of : (n : ℕ) → ¬ (n ≡ 0) → (k : ℕ) × (n ≡ suc k)
value_of zero h = absurd (h refl)
value_of (suc k) h = (k, refl)

-- A walk from one slot comes to the other, over slots that are taken.
pub data Reaches (slots : ℕ → ℕ) (count : ℕ) : ℕ → ℕ → Type 0 where
  here : {slot : ℕ} → Reaches slots count slot slot
  next :
      {slot end : ℕ}
      → ¬ (slots slot ≡ 0)
      → Reaches slots count (next_slot count slot) end
      → Reaches slots count slot end

abbrev pub occupied : (ℕ → ℕ) → ℕ → ℕ
occupied slots zero = 0
occupied slots (suc n) = if slots n == 0 then occupied slots n else suc (occupied slots n)

module _ {count : ℕ} where
  next_slot_inside : (slot : ℕ) → slot + 1 < count → next_slot count slot ≡ slot + 1
  unfolding next_slot
  next_slot_inside slot lt = mod-eq_of_lt lt

  next_slot_wrap : (slot : ℕ) → slot + 1 ≡ count → next_slot count slot ≡ 0
  unfolding next_slot
  next_slot_wrap slot e = subst (λ n. (slot + 1) % n ≡ 0) e (mod_self (slot + 1))

module _ (equal : ℕ → Bool) (slots : ℕ → ℕ) (count : ℕ) where
  -- a free slot stops the walk, and an entry leaves it to the rest
  walk_free :
      (fuel slot : ℕ) → slots slot ≡ 0 → walk equal slots count (suc fuel) slot ≡ vacant slot
  unfolding walk walk_from
  walk_free fuel slot free = rw free refl

  walk_from_stops :
      (value slot : ℕ) (rest : Walk)
      → rest ≢ spun
      → walk_from equal slots count value rest slot ≢ spun
  unfolding walk_from
  walk_from_stops zero slot rest h = λ e. cc
  walk_from_stops (suc k) slot rest h = ground arith

  walk_stops_next :
      (fuel slot : ℕ)
      → walk equal slots count fuel (next_slot count slot) ≢ spun
      → walk equal slots count (suc fuel) slot ≢ spun
  unfolding walk
  walk_stops_next fuel slot h = walk_from_stops (slots slot) slot _ h

  -- a free slot ahead, up to the end of the array
  walk_ahead :
      (d slot fuel i : ℕ)
      → slot + d ≡ i
      → i < count
      → slots i ≡ 0
      → d < fuel
      → walk equal slots count fuel slot ≢ spun
  walk_ahead d slot zero i e lt free more = absurd (omega arith)
  walk_ahead zero slot (suc fuel) i e lt free more =
      let here : slot ≡ i = omega arith in
      rw (walk_free fuel slot (subst (λ j. slots j ≡ 0) (sym here) free)) λ h. cc
  walk_ahead (suc d) slot (suc fuel) i e lt free more =
      let step : next_slot count slot ≡ slot + 1 = next_slot_inside slot (omega arith) in
      walk_stops_next fuel slot
        (rw step (walk_ahead d (slot + 1) fuel i (omega arith) lt free (omega arith)))

  -- a free slot behind, past the end of the array
  walk_around :
      (d slot fuel i : ℕ)
      → slot + suc d ≡ count
      → i < count
      → slots i ≡ 0
      → suc d + i < fuel
      → walk equal slots count fuel slot ≢ spun
  walk_around d slot zero i e lt free more = absurd (omega arith)
  walk_around zero slot (suc fuel) i e lt free more =
      let step : next_slot count slot ≡ 0 = next_slot_wrap slot e in
      walk_stops_next fuel slot
        (rw step (walk_ahead i 0 fuel i (omega arith) lt free (omega arith)))
  walk_around (suc d) slot (suc fuel) i e lt free more =
      let step : next_slot count slot ≡ slot + 1 = next_slot_inside slot (omega arith) in
      walk_stops_next fuel slot
        (rw step (walk_around d (slot + 1) fuel i (omega arith) lt free (omega arith)))

  walk_stops_at :
      (slot i : ℕ)
      → slot < count
      → i < count
      → slots i ≡ 0
      → walk equal slots count count slot ≢ spun
  walk_stops_at slot i lt inside free = elim (dec_le slot i) [
    | yes le ↦ walk_ahead (i - slot) slot count i (omega arith) inside free (omega arith)
    | no beyond ↦
        walk_around (count - slot - 1) slot count i (omega arith) inside free (omega arith)
  ]

-- An array with fewer entries than slots has a free slot.
free_slot : (slots : ℕ → ℕ) (n : ℕ) → occupied slots n < n → (i : ℕ) × (i < n) × (slots i ≡ 0)
free_slot slots zero lt = absurd (omega arith)
free_slot slots (suc n) lt = elim (zero_or (slots n)) [
  | inl free ↦ (n, omega arith, free)
  | inr (k, taken) ↦
      let (i, inside, free) = free_slot slots n (ground arith) in (i, omega arith, free)
]

-- A walk over an array that is not full ends.
pub probe_stops :
    (equal : ℕ → Bool) (slots : ℕ → ℕ) (count hash : ℕ)
    → occupied slots count < count
    → probe equal slots count hash ≢ spun
unfolding probe
probe_stops equal slots count hash room =
    let (i, inside, free) = free_slot slots count room in
    walk_stops_at equal slots count (hash % count) i (mod-lt hash (omega arith)) inside free

module _ (equal : ℕ → Bool) (slots : ℕ → ℕ) (count entries : ℕ)
    (bounded : (i : ℕ) → slots i ≤ entries) where
  below : (i k : ℕ) → slots i ≡ suc k → k < entries
  below i k e = omega (arith, bounded i)

  walk_out : (slot : ℕ) → walk equal slots count 0 slot ≡ spun
  unfolding walk
  walk_out slot = refl

  -- past an entry that is not equal
  walk_on :
      (fuel slot k : ℕ)
      → slots slot ≡ suc k
      → equal k ≡ false
      → walk equal slots count (suc fuel) slot ≡ walk equal slots count fuel (next_slot count slot)
  unfolding walk walk_from
  walk_on fuel slot k e ne = rw e (rw ne refl)

  walk_hit :
      (fuel slot k : ℕ)
      → slots slot ≡ suc k
      → equal k ≡ true
      → walk equal slots count (suc fuel) slot ≡ found k
  unfolding walk walk_from
  walk_hit fuel slot k e eq = rw e (rw eq refl)

  -- The walk comes to the entry that is equal, since only that one stops it before.
  pub walk-found :
      (fuel slot i k : ℕ)
      → Reaches slots count slot i
      → slots i ≡ suc k
      → equal k ≡ true
      → ((j : ℕ) → j < entries → equal j ≡ true → j ≡ k)
      → walk equal slots count fuel slot ≢ spun
      → walk equal slots count fuel slot ≡ found k
  walk-found zero slot i k r e eq only h = absurd (h (walk_out slot))
  walk-found (suc fuel) slot i k Reaches.here e eq only h = walk_hit fuel slot k e eq
  walk-found (suc fuel) slot i k (Reaches.next taken r) e eq only h =
      let (j, q) = value_of (slots slot) taken in
      elim (Bool-cases (equal j)) [
        | inl eq_j ↦
            subst (λ n. walk equal slots count (suc fuel) slot ≡ found n)
              (only j (below slot j q) eq_j) (walk_hit fuel slot j q eq_j)
        | inr ne_j ↦ rw (walk_on fuel slot j q ne_j) (
            walk-found fuel (next_slot count slot) i k r e eq only
              (rw (walk_on fuel slot j q ne_j) at h))
      ]

  -- No entry is equal: the walk ends at a free slot.
  pub walk-vacant :
      (fuel slot : ℕ)
      → slot < count
      → ((j : ℕ) → j < entries → equal j ≡ false)
      → walk equal slots count fuel slot ≢ spun
      → (i : ℕ) × (walk equal slots count fuel slot ≡ vacant i)
        × (i < count)
        × (slots i ≡ 0)
        × Reaches slots count slot i
  unfolding next_slot
  walk-vacant zero slot lt never h = absurd (h (walk_out slot))
  walk-vacant (suc fuel) slot lt never h = elim (zero_or (slots slot)) [
    | inl free ↦ (slot, walk_free equal slots count fuel slot free, lt, free, Reaches.here)
    | inr (k, e) ↦
        let on = walk_on fuel slot k e (never k (below slot k e)) in
        let (i, w, inside, free, r) =
          walk-vacant fuel (next_slot count slot) (mod-lt (slot + 1) (omega arith)) never
            (rw on at h) in
        (i, on ∙ w, inside, free, Reaches.next (λ z. ground arith) r)
  ]

-- One slot more is taken after a store to a free one.
occupied_beyond :
    (slots : ℕ → ℕ) (i v n : ℕ) → n ≤ i → occupied (store slots i v) n ≡ occupied slots n
unfolding store
occupied_beyond slots i v zero le = refl
occupied_beyond slots i v (suc n) le = ground (arith, occupied_beyond slots i v n)

pub occupied-store :
    (slots : ℕ → ℕ) (i k n : ℕ)
    → i < n
    → slots i ≡ 0
    → occupied (store slots i (suc k)) n ≡ suc (occupied slots n)
unfolding store
occupied-store slots i k zero lt free = absurd (omega arith)
occupied-store slots i k (suc n) lt free = elim (dec_lt i n) [
  | yes inside ↦ ground (arith, occupied-store slots i k n inside free)
  | no last ↦ ground (arith, occupied_beyond slots i (suc k) n)
]

-- A walk over taken slots is not changed by a store to a free one.
pub Reaches-store :
    {slots : ℕ → ℕ} {count start end : ℕ} (i v : ℕ)
    → slots i ≡ 0
    → Reaches slots count start end
    → Reaches (store slots i v) count start end
unfolding store
Reaches-store i v free Reaches.here = Reaches.here
Reaches-store i v free (Reaches.next taken r) =
    Reaches.next (λ z. ground arith) (Reaches-store i v free r)
