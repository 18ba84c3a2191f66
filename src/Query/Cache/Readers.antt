-- ===== src/Query/Cache/Readers.antt =====
-- Several readers of the cache, in any interleaving.
use webanalyticsdb.Prelude.{
  ℕ, suc, ◌+◌, ◌-◌, ◌*◌, ◌≤◌, ◌≡◌, refl, sym, ap, subst, ◌∙◌, Bool, true, false, List, [], ◌∷◌,
  ◌++◌, length, Bool-cases, inl, inr, arith,
}
use webanalyticsdb.Core.Status.{Status, ok, err}
use webanalyticsdb.Dictionary.{Dictionary}
use webanalyticsdb.Query.Cache.{
  Key, Cache, CacheLimits, Outcome, hit, pinned, reserved, same_key, has_entry, pin, reservation,
  is_short, make_room, with_reservation, reserve, new_entry, publish, release,
}
use webanalyticsdb.Query.Cache.Budget.{
  total, holds, one_if, references_if, references_of, IsBudgeted, pin-total, pin-IsDistinct,
  pin-references, unpin-total, unpin-IsDistinct, unpin-references, make_room-IsBudgeted,
}

-- One of the readers takes the lock: `n` loads are under way, and the readers hold entries with the keys
-- `held`. A dictionary that was loaded has no more bytes than dictionaries may have, and a reader
-- gives an entry back once.
pub data Step (o : CacheLimits) : Cache → ℕ → List Key → Cache → ℕ → List Key → Type 0 where
  found :
      (k : Key) (c : Cache) (n : ℕ) (held : List Key)
      → (reserve o k c).1 ≡ hit
      → Step o c n held (reserve o k c).0 n (k ∷ held)
  refused :
      (k : Key) (c : Cache) (n : ℕ) (held : List Key)
      → (reserve o k c).1 ≡ pinned
      → Step o c n held (reserve o k c).0 n held
  started :
      (k : Key) (c : Cache) (n : ℕ) (held : List Key)
      → (reserve o k c).1 ≡ reserved
      → Step o c n held (reserve o k c).0 (suc n) held
  loaded :
      (k : Key) (d : Dictionary) (c : Cache) (n : ℕ) (held : List Key)
      → d.allocated_bytes ≤ o.dictionary_limit_bytes
      → Step o c (suc n) held (publish o k (ok d) c) n (k ∷ held)
  failed :
      (k : Key) (s : Status) (c : Cache) (n : ℕ) (held : List Key)
      → Step o c (suc n) held (publish o k (err s) c) n held
  released :
      (k : Key) (c : Cache) (n : ℕ) (before after : List Key)
      → Step o c n (before ++ (k ∷ after)) (release k c) n (before ++ after)

pub data Reachable (o : CacheLimits) : Cache → ℕ → List Key → Type 0 where
  start : Reachable o (record { entries = []; bytes = 0; clock = 0; hits = 0; misses = 0 }) 0 []
  next :
      {c c' : Cache} {n n' : ℕ} {held held' : List Key}
      → Reachable o c n held
      → Step o c n held c' n' held'
      → Reachable o c' n' held'

holds-append : (k : Key) (xs ys : List Key) → holds k (xs ++ ys) ≡ holds k xs + holds k ys
holds-append k [] ys = omega arith
holds-append k (x ∷ xs) ys = let rest = holds-append k xs ys in omega (arith, rest)

module _ (o : CacheLimits) where
  -- an entry that is there gets one reader more
  pin-IsBudgeted :
      (k : Key) (used bytes clock hits misses n n' : ℕ) (c : Cache) (held : List Key)
      → has_entry k c.entries ≡ true
      → IsBudgeted o c n held
      → bytes ≡ total c.entries + n' * reservation o
      → bytes ≤ o.read_cache_bytes
      → IsBudgeted o
          (record {
            entries = pin k used c.entries;
            bytes = bytes;
            clock = clock;
            hits = hits;
            misses = misses;
          })
          n'
          (k ∷ held)
  pin-IsBudgeted k used bytes clock hits misses n n' c held there h balanced within = record {
    bytes = balanced ∙ ap (λ t. t + n' * reservation o) (sym (pin-total k used c.entries));
    within = within;
    distinct = pin-IsDistinct k used c.entries h.distinct;
    references = λ j.
        pin-references k j used c.entries there
        ∙ ap (λ r. one_if (same_key k j) + r) (h.references j);
  }

  missed-IsBudgeted :
      (k : Key) (c : Cache) (n : ℕ) (held : List Key)
      → IsBudgeted o c n held
      → IsBudgeted o (record c { misses = c.misses + 1 }) n held
  missed-IsBudgeted k c n held h = record {
    bytes = h.bytes;
    within = h.within;
    distinct = h.distinct;
    references = h.references;
  }

  pub Reserves : Cache × Outcome → ℕ → List Key → Key → Type 0
  Reserves (c, hit) n held k = IsBudgeted o c n (k ∷ held)
  Reserves (c, pinned) n held k = IsBudgeted o c n held
  Reserves (c, reserved) n held k = IsBudgeted o c (suc n) held

  with_reservation-Reserves :
      (r : Cache × Bool) (n : ℕ) (held : List Key) (k : Key)
      → IsBudgeted o r.0 n held
      → (r.1 ≡ true → is_short o r.0 ≡ false)
      → Reserves (with_reservation o r) n held k
  unfolding with_reservation Reserves is_short
  with_reservation-Reserves (c, true) n held k h room = record {
    bytes = (let b = h.bytes in omega arith);
    within = (let w = h.within in let r = room refl in ground arith);
    distinct = h.distinct;
    references = h.references;
  }
  with_reservation-Reserves (c, false) n held k h room = h

  reserve-Reserves :
      (k : Key) (c : Cache) (n : ℕ) (held : List Key)
      → IsBudgeted o c n held
      → Reserves (reserve o k c) n held k
  unfolding reserve Reserves
  reserve-Reserves k c n held h = elim (Bool-cases (has_entry k c.entries)) [
    | inl there ↦ rw there (
        pin-IsBudgeted k (c.clock + 1) c.bytes (c.clock + 1) (c.hits + 1) c.misses n n c held there
          h h.bytes h.within)
    | inr absent ↦
        let (budgeted, room) =
          make_room-IsBudgeted o (length c.entries) (record c { misses = c.misses + 1 }) n held
            (missed-IsBudgeted k c n held h) in
        rw absent (
          with_reservation-Reserves
            (make_room o (length c.entries) (record c { misses = c.misses + 1 })) n held k budgeted
            room)
  ]

  -- a load that ends gives its reservation back
  publish-IsBudgeted :
      (k : Key) (d : Dictionary) (c : Cache) (n : ℕ) (held : List Key)
      → d.allocated_bytes ≤ o.dictionary_limit_bytes
      → IsBudgeted o c (suc n) held
      → IsBudgeted o (publish o k (ok d) c) n (k ∷ held)
  unfolding publish new_entry reservation
  publish-IsBudgeted k d c n held small h = elim (Bool-cases (has_entry k c.entries)) [
    | inl there ↦ rw there (
        pin-IsBudgeted k (c.clock + 1) (c.bytes - reservation o) (c.clock + 1) c.hits c.misses
          (suc n) n c held there h (let b = h.bytes in omega arith)
          (let w = h.within in omega arith))
    | inr absent ↦ rw absent (record {
      bytes = (let b = h.bytes in omega arith);
      within = (let b = h.bytes in let w = h.within in omega arith);
      distinct = (absent, h.distinct);
      references = λ j. added j;
    })
  ]
    where
      added :
          (j : Key)
          → references_if (same_key k j) 1 + references_of j c.entries
            ≡ one_if (same_key k j) + holds j held
      added j = elim (Bool-cases (same_key k j)) [
        | inl same ↦ rw same (let r = h.references j in omega (arith, r))
        | inr other ↦ rw other (let r = h.references j in omega (arith, r))
      ]

  release-IsBudgeted :
      (k : Key) (c : Cache) (n : ℕ) (before after : List Key)
      → IsBudgeted o c n (before ++ (k ∷ after))
      → IsBudgeted o (release k c) n (before ++ after)
  unfolding release
  release-IsBudgeted k c n before after h = record {
    bytes = h.bytes ∙ ap (λ t. t + n * reservation o) (sym (unpin-total k c.entries));
    within = h.within;
    distinct = unpin-IsDistinct k c.entries h.distinct;
    references = λ j.
        let one = unpin-references k j c.entries h.distinct in
        let old = h.references j in
        let all = holds-append j before (k ∷ after) in
        let left = holds-append j before after in omega (arith, one, old, all, left);
  }

  Step-IsBudgeted :
      {c c' : Cache} {n n' : ℕ} {held held' : List Key}
      → Step o c n held c' n' held'
      → IsBudgeted o c n held
      → IsBudgeted o c' n' held'
  unfolding publish Reserves
  Step-IsBudgeted (found k c n held e) h =
      subst (λ w. Reserves ((reserve o k c).0, w) n held k) e (reserve-Reserves k c n held h)
  Step-IsBudgeted (refused k c n held e) h =
      subst (λ w. Reserves ((reserve o k c).0, w) n held k) e (reserve-Reserves k c n held h)
  Step-IsBudgeted (started k c n held e) h =
      subst (λ w. Reserves ((reserve o k c).0, w) n held k) e (reserve-Reserves k c n held h)
  Step-IsBudgeted (loaded k d c n held small) h = publish-IsBudgeted k d c n held small h
  Step-IsBudgeted (failed k s c n held) h = record {
    bytes = (let b = h.bytes in omega arith);
    within = (let w = h.within in omega arith);
    distinct = h.distinct;
    references = h.references;
  }
  Step-IsBudgeted (released k c n before after) h = release-IsBudgeted k c n before after h

  -- Over any interleaving of readers: the bytes of the cache are those of its entries and a reservation
  -- for each load under way, and within the limit; a key has at most one entry; and an entry has as
  -- many references as readers hold it, so that none in use is evicted.
  pub Reachable-IsBudgeted :
      {c : Cache} {n : ℕ} {held : List Key} → Reachable o c n held → IsBudgeted o c n held
  Reachable-IsBudgeted start = record {
    bytes = omega arith;
    within = omega arith;
    distinct = tt;
    references = λ k. refl;
  }
  Reachable-IsBudgeted (next r s) = Step-IsBudgeted s (Reachable-IsBudgeted r)
