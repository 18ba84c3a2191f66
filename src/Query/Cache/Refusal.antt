-- ===== src/Query/Cache/Refusal.antt =====
-- When an acquisition is refused.
use webanalyticsdb.Prelude.{
  ℕ, zero, suc, ◌+◌, ◌-◌, ◌≤◌, ◌<◌, ◌≡◌, refl, ap, Bool, true, false, ◌&&◌, List, [], ◌∷◌, ◌==◌,
  if◌then◌else◌, length, Option, none, some, Option-cases, Bool-cases, ltb→lt, inl, inr, arith,
}
use webanalyticsdb.Query.Cache.{
  Key, Entry, Cache, CacheLimits, pinned, has_entry, is_older, oldest_from, remove_at, evict,
  is_short, reservation, make_room, with_reservation, reserve,
}
use webanalyticsdb.Query.Cache.Budget.{chosen-free}

-- every entry has a reader
abbrev pub AreHeld : List Entry → Type 0
AreHeld [] = Unit
AreHeld (e ∷ es) = (0 < e.references) × AreHeld es

oldest_from-none :
    (best : Option (ℕ × ℕ)) (i : ℕ) (es : List Entry)
    → oldest_from best i es ≡ none
    → (best ≡ none) × AreHeld es
unfolding oldest_from is_older
oldest_from-none best i [] h = (h, tt)
oldest_from-none best i (e ∷ es) h =
    let (kept, rest) =
      oldest_from-none
        (if e.references == 0 && is_older e.used best then some (i, e.used) else best) (i + 1) es
        h in
    elim (Bool-cases (e.references == 0 && is_older e.used best)) [
      | inl taken ↦ absurd (let some_none = rw taken at kept in cc)
      | inr other ↦
          let first = rw other at kept in
          (first, ((let open_test = rw first at other in ground arith), rest))
    ]

length-remove_at :
    (n : ℕ) (es : List Entry) → n < length es → suc (length (remove_at n es)) ≡ length es
unfolding remove_at
length-remove_at n [] lt = absurd (omega arith)
length-remove_at zero (e ∷ es) lt = refl
length-remove_at (suc n) (e ∷ es) lt = ap suc (length-remove_at n es (omega arith))

shorter :
    (m : ℕ) (c : Cache) (fuel : ℕ)
    → length (remove_at m c.entries) ≤ fuel
    → length (evict m c).entries ≤ fuel
unfolding evict
shorter m c fuel h = h

module _ (o : CacheLimits) where
  make_room_fails :
      (fuel : ℕ) (c : Cache)
      → length c.entries ≤ fuel
      → (make_room o fuel c).1 ≡ false
      → AreHeld (make_room o fuel c).0.entries × (is_short o (make_room o fuel c).0 ≡ true)
  unfolding make_room
  make_room_fails zero c enough h = (empty_held c.entries (omega arith), ground arith)
    where
      empty_held : (es : List Entry) → length es ≡ 0 → AreHeld es
      empty_held [] e = tt
      empty_held (x ∷ es) e = absurd (omega arith)
  make_room_fails (suc fuel) c enough h = elim (Bool-cases (is_short o c)) [
    | inr room ↦ absurd (let t = rw room at h in cc)
    | inl short ↦ elim (Option-cases (oldest_from none 0 c.entries)) [
      | inl all_held ↦ rw (short, all_held) ((oldest_from-none none 0 c.entries all_held).1, short)
      | inr ((m, used), chosen) ↦
          let (_, there) = chosen-free o c.entries m used chosen in
          let fewer = length-remove_at m c.entries there in
          let again = rw (short, chosen) at h in
          rw (short, chosen)
            (make_room_fails fuel (evict m c) (shorter m c fuel (omega (arith, fewer, enough)))
              again)
    ]
  ]

  -- An acquisition is refused only where every entry that is left has a reader and the space that the
  -- limit leaves is less than a dictionary may take with its entry of 72 bytes: the loop never stops while it can evict.
  pub reserve-pinned :
      (k : Key) (c : Cache)
      → (reserve o k c).1 ≡ pinned
      → AreHeld (reserve o k c).0.entries
        × (o.read_cache_bytes - (reserve o k c).0.bytes < o.dictionary_limit_bytes + 72)
  unfolding reserve with_reservation is_short reservation
  reserve-pinned k c h = elim (Bool-cases (has_entry k c.entries)) [
    | inl there ↦ absurd (let e = rw there at h in cc)
    | inr absent ↦ rw absent (
        refused (make_room o (length c.entries) (record c { misses = c.misses + 1 }))
          (make_room_fails (length c.entries) (record c { misses = c.misses + 1 }) (omega arith))
          (rw absent at h))
  ]
    where
      refused :
          (r : Cache × Bool)
          → (r.1 ≡ false → AreHeld r.0.entries × (is_short o r.0 ≡ true))
          → (with_reservation o r).1 ≡ pinned
          → AreHeld (with_reservation o r).0.entries
            × (o.read_cache_bytes - (with_reservation o r).0.bytes < o.dictionary_limit_bytes + 72)
      refused (c, true) held e = absurd (cc)
      refused (c, false) held e =
          let (all, short) = held refl in (all, ltb→lt _ (o.dictionary_limit_bytes + 72) short)
