-- ===== src/Slots/Index.antt =====
-- What the slots say of the entries: each is found from its hash, and a new one finds its place.
use native.Mathlib.Nat.{mod-lt}
use webanalyticsdb.Prelude.{
  ℕ, zero, suc, ◌%◌, ◌≤◌, ◌<◌, Bool, true, false, ◌≡◌, ◌≢◌, refl, arith, subst, sym,
}
use native.Mathlib.Decide.{dec_lt}
use webanalyticsdb.Slots.{
  store, found, vacant, spun, probe, no_entry, put_at, place_entry, no_slots, rehash,
}
use webanalyticsdb.Slots.Laws.{
  Reaches, occupied, probe_stops, walk-found, walk-vacant, occupied-store, Reaches-store,
}

-- The slots hold entries below `entries`, each of which the walk from its hash comes to.
pub record Indexes (hash slots : ℕ → ℕ) (count entries : ℕ) : Type 0 where
  pub taken : occupied slots count ≡ entries
  pub bounded : (i : ℕ) → slots i ≤ entries
  pub reached :
      (k : ℕ) → k < entries → (i : ℕ) × Reaches slots count (hash k % count) i × (slots i ≡ suc k)

no_entry_never : (j : ℕ) → no_entry j ≡ false
unfolding no_entry
no_entry_never j = refl

-- What a free slot found by a walk is.
abbrev pub IsPlace : (ℕ → ℕ) → ℕ → ℕ → ℕ → Type 0
IsPlace slots count hash i = (i < count) × (slots i ≡ 0) × Reaches slots count (hash % count) i

module _ {hash slots : ℕ → ℕ} {count entries : ℕ} (h : Indexes hash slots count entries)
    (room : entries < count) where
  stops : (equal : ℕ → Bool) (key : ℕ) → probe equal slots count key ≢ spun
  stops equal key = probe_stops equal slots count key (omega (arith, h.taken))

  -- The entry that is equal to a key, and to nothing else, is found.
  pub probe-found :
      (equal : ℕ → Bool) (k : ℕ)
      → k < entries
      → equal k ≡ true
      → ((j : ℕ) → j < entries → equal j ≡ true → j ≡ k)
      → probe equal slots count (hash k) ≡ found k
  unfolding probe
  probe-found equal k lt eq only =
      let (i, r, e) = h.reached k lt in
      walk-found equal slots count entries h.bounded count (hash k % count) i k r e eq only
        (stops equal (hash k))

  -- Where no entry is equal, a free slot is found.
  pub probe-vacant :
      (equal : ℕ → Bool) (key : ℕ)
      → ((j : ℕ) → j < entries → equal j ≡ false)
      → (i : ℕ) × (probe equal slots count key ≡ vacant i) × IsPlace slots count key i
  unfolding probe
  probe-vacant equal key never =
      let (i, w, lt, free, r) =
        walk-vacant equal slots count entries h.bounded count (key % count)
          (mod-lt key (omega arith)) never (stops equal key) in
      (i, w, (lt, free, r))

  Indexes-store :
      (i : ℕ)
      → IsPlace slots count (hash entries) i
      → Indexes hash (store slots i (suc entries)) count (suc entries)
  unfolding store
  Indexes-store i (lt, free, r) = record {
    taken = omega (arith, occupied-store slots i entries count lt free, h.taken);
    bounded = λ j. ground (arith, h.bounded j);
    reached = λ k below. elim (dec_lt k entries) [
      | yes older ↦
          let (t, path, e) = h.reached k older in
          (t, Reaches-store i (suc entries) free path, ground arith)
      | no newest ↦
          let same : k ≡ entries = omega arith in
          subst
            (λ n.
              (t : ℕ) × Reaches (store slots i (suc entries)) count (hash n % count) t
              × (store slots i (suc entries) t ≡ suc n))
            (sym same) (i, Reaches-store i (suc entries) free r, ground arith)
    ];
  }

  -- Placing the next entry indexes it too.
  pub place_entry-Indexes :
      Indexes hash (place_entry slots count (hash entries) entries) count (suc entries)
  unfolding place_entry put_at
  place_entry-Indexes =
      let (i, e, place) = probe-vacant no_entry (hash entries) (λ j lt. no_entry_never j) in
      rw e (Indexes-store i place)

occupied-no_slots : (n : ℕ) → occupied no_slots n ≡ 0
unfolding no_slots
occupied-no_slots zero = refl
occupied-no_slots (suc n) = occupied-no_slots n

pub no_slots-Indexes : (hash : ℕ → ℕ) (count : ℕ) → Indexes hash no_slots count 0
unfolding no_slots
no_slots-Indexes hash count = record {
  taken = occupied-no_slots count;
  bounded = λ i. omega arith;
  reached = λ k lt. absurd (omega arith);
}

-- An index that is made anew holds every entry, if there are more slots than entries.
pub rehash-Indexes :
    (hash : ℕ → ℕ) (count entries : ℕ)
    → entries < count
    → Indexes hash (rehash hash count entries) count entries
unfolding rehash
rehash-Indexes hash count zero room = no_slots-Indexes hash count
rehash-Indexes hash count (suc entries) room =
    place_entry-Indexes (rehash-Indexes hash count entries (omega arith)) (omega arith)

-- Entries may come to have other hashes past the ones that are indexed.
pub Indexes-hash :
    {slots : ℕ → ℕ} {count entries : ℕ} (f g : ℕ → ℕ)
    → ((k : ℕ) → k < entries → f k ≡ g k)
    → Indexes f slots count entries
    → Indexes g slots count entries
Indexes-hash {slots} {count} f g same h = record {
  taken = h.taken;
  bounded = h.bounded;
  reached = λ k lt.
      let (i, path, e) = h.reached k lt in
      (i, subst (λ x. Reaches slots count (x % count) i) (same k lt) path, e);
}
