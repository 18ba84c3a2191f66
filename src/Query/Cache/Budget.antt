-- ===== src/Query/Cache/Budget.antt =====
-- The budget of the cache over any interleaving of acquisitions and releases by several readers.
use webanalyticsdb.Prelude.{
  ℕ, zero, suc, ◌+◌, ◌-◌, ◌*◌, ◌≤◌, ◌<◌, ◌≡◌, refl, sym, ap, ◌∙◌, Bool, true, false, ◌&&◌, ◌||◌,
  List, [], ◌∷◌, ◌==◌, if◌then◌else◌, length, Option, none, some, Option-cases, Bool-cases, inl,
  inr, ◌⊎◌, arith,
}
use mathlib.Core.Option.{some-injective}
use webanalyticsdb.Query.Cache.{
  Key, Entry, Cache, CacheLimits, same_key, has_entry, pin, unpin, is_older, oldest_from, charge_at,
  remove_at, evict, reservation, is_short, make_room,
}

abbrev pub total : List Entry → ℕ
total [] = 0
total (e ∷ es) = e.charge + total es

abbrev pub one_if : Bool → ℕ
one_if true = 1
one_if false = 0

abbrev pub references_if : Bool → ℕ → ℕ
references_if true n = n
references_if false n = 0

-- the references to the entries with a key
abbrev pub references_of : Key → List Entry → ℕ
references_of k [] = 0
references_of k (e ∷ es) = references_if (same_key e.key k) e.references + references_of k es

-- how often a key is held
abbrev pub holds : Key → List Key → ℕ
holds k [] = 0
holds k (h ∷ hs) = one_if (same_key h k) + holds k hs

abbrev pub IsDistinct : List Entry → Type 0
IsDistinct [] = Unit
IsDistinct (e ∷ es) = (has_entry e.key es ≡ false) × IsDistinct es

same_key-cong : (a b c : Key) → same_key a b ≡ true → same_key a c ≡ same_key b c
unfolding same_key
same_key-cong a b c h = ground arith

same_key-sym : (a b : Key) → same_key a b ≡ same_key b a
unfolding same_key
same_key-sym a b = ground arith

has_entry-cong :
    (a b : Key) (es : List Entry) → same_key a b ≡ true → has_entry a es ≡ has_entry b es
unfolding has_entry
has_entry-cong a b [] h = refl
has_entry-cong a b (e ∷ es) h =
    let rest = has_entry-cong a b es h in
    let one = same_key-cong a b e.key h in
    let left = same_key-sym e.key a in let right = same_key-sym e.key b in cc

pub absent_references :
    (k : Key) (es : List Entry) → has_entry k es ≡ false → references_of k es ≡ 0
unfolding has_entry
absent_references k [] h = refl
absent_references k (e ∷ es) h = elim (Bool-cases (same_key e.key k)) [
  | inl same ↦ absurd (ground arith)
  | inr other ↦ rw other (let rest = absent_references k es (ground arith) in omega (arith, rest))
]

pub pin-total : (k : Key) (used : ℕ) (es : List Entry) → total (pin k used es) ≡ total es
unfolding pin
pin-total k used [] = refl
pin-total k used (e ∷ es) = elim (Bool-cases (same_key e.key k)) [
  | inl same ↦ rw same refl
  | inr other ↦ rw other (ap (λ n. e.charge + n) (pin-total k used es))
]

pin-has : (k j : Key) (used : ℕ) (es : List Entry) → has_entry j (pin k used es) ≡ has_entry j es
unfolding pin has_entry
pin-has k j used [] = refl
pin-has k j used (e ∷ es) = elim (Bool-cases (same_key e.key k)) [
  | inl same ↦ rw same refl
  | inr other ↦ rw other (ap (λ b. same_key e.key j || b) (pin-has k j used es))
]

pub pin-IsDistinct :
    (k : Key) (used : ℕ) (es : List Entry) → IsDistinct es → IsDistinct (pin k used es)
unfolding pin
pin-IsDistinct k used [] d = tt
pin-IsDistinct k used (e ∷ es) (new, d) = elim (Bool-cases (same_key e.key k)) [
  | inl same ↦ rw same (new, d)
  | inr other ↦ rw other (pin-has k e.key used es ∙ new, pin-IsDistinct k used es d)
]

-- one reference more to the entry, which is there
pub pin-references :
    (k j : Key) (used : ℕ) (es : List Entry)
    → has_entry k es ≡ true
    → references_of j (pin k used es) ≡ one_if (same_key k j) + references_of j es
unfolding pin has_entry
pin-references k j used [] h = absurd (ground arith)
pin-references k j used (e ∷ es) h = elim (Bool-cases (same_key e.key k)) [
  | inl same ↦ rw same (
      let both = same_key-cong e.key k j same in
      elim (Bool-cases (same_key k j)) [
        | inl agree ↦ rw (both, agree) (omega arith)
        | inr differ ↦ rw (both, differ) (omega arith)
      ])
  | inr other ↦
      rw other (let rest = pin-references k j used es (ground arith) in omega (arith, rest))
]

unpin-has : (k j : Key) (es : List Entry) → has_entry j (unpin k es) ≡ has_entry j es
unfolding unpin has_entry
unpin-has k j [] = refl
unpin-has k j (e ∷ es) = elim (Bool-cases (same_key e.key k)) [
  | inl same ↦ rw same refl
  | inr other ↦ rw other (ap (λ b. same_key e.key j || b) (unpin-has k j es))
]

pub unpin-total : (k : Key) (es : List Entry) → total (unpin k es) ≡ total es
unfolding unpin
unpin-total k [] = refl
unpin-total k (e ∷ es) = elim (Bool-cases (same_key e.key k)) [
  | inl same ↦ rw same refl
  | inr other ↦ rw other (ap (λ n. e.charge + n) (unpin-total k es))
]

pub unpin-IsDistinct : (k : Key) (es : List Entry) → IsDistinct es → IsDistinct (unpin k es)
unfolding unpin
unpin-IsDistinct k [] d = tt
unpin-IsDistinct k (e ∷ es) (new, d) = elim (Bool-cases (same_key e.key k)) [
  | inl same ↦ rw same (new, d)
  | inr other ↦ rw other (unpin-has k e.key es ∙ new, unpin-IsDistinct k es d)
]

-- one reference less to the entry, where its key stands for one entry
pub unpin-references :
    (k j : Key) (es : List Entry)
    → IsDistinct es
    → references_of j (unpin k es) ≡ references_of j es - one_if (same_key k j)
unfolding unpin
unpin-references k j [] d = omega arith
unpin-references k j (e ∷ es) (new, d) = elim (Bool-cases (same_key e.key k)) [
  | inl same ↦ rw same (
      let both = same_key-cong e.key k j same in
      elim (Bool-cases (same_key k j)) [
        | inl agree ↦
            let gone =
              absent_references j es (sym (has_entry-cong e.key j es (both ∙ agree)) ∙ new) in
            rw (both, agree) (omega (arith, gone))
        | inr differ ↦ rw (both, differ) (omega arith)
      ])
  | inr other ↦ rw other (
      let rest = unpin-references k j es d in
      elim (Bool-cases (same_key k j)) [
        | inl agree ↦
            let apart : same_key e.key j ≡ false =
              sym (same_key-sym e.key k ∙ same_key-cong k j e.key agree ∙ same_key-sym j e.key)
              ∙ other in
            let less = rw agree at rest in rw (apart, agree) (omega (arith, less))
        | inr differ ↦ let less = rw differ at rest in rw differ (omega (arith, less))
      ])
]

remove_at-total : (n : ℕ) (es : List Entry) → total es ≡ charge_at n es + total (remove_at n es)
unfolding charge_at remove_at
remove_at-total n [] = omega arith
remove_at-total zero (e ∷ es) = refl
remove_at-total (suc n) (e ∷ es) = let rest = remove_at-total n es in omega (arith, rest)

remove_at-has :
    (n : ℕ) (j : Key) (es : List Entry)
    → has_entry j es ≡ false
    → has_entry j (remove_at n es) ≡ false
unfolding remove_at has_entry
remove_at-has n j [] h = refl
remove_at-has zero j (e ∷ es) h = ground arith
remove_at-has (suc n) j (e ∷ es) h = let rest = remove_at-has n j es (ground arith) in ground arith

remove_at-IsDistinct : (n : ℕ) (es : List Entry) → IsDistinct es → IsDistinct (remove_at n es)
unfolding remove_at
remove_at-IsDistinct n [] d = tt
remove_at-IsDistinct zero (e ∷ es) (new, d) = d
remove_at-IsDistinct (suc n) (e ∷ es) (new, d) =
    (remove_at-has n e.key es new, remove_at-IsDistinct n es d)

abbrev references_at : ℕ → List Entry → ℕ
references_at n [] = 0
references_at zero (e ∷ es) = e.references
references_at (suc n) (e ∷ es) = references_at n es

remove_at-references :
    (n : ℕ) (j : Key) (es : List Entry)
    → references_at n es ≡ 0
    → references_of j (remove_at n es) ≡ references_of j es
unfolding remove_at
remove_at-references n j [] free = refl
remove_at-references zero j (e ∷ es) free = elim (Bool-cases (same_key e.key j)) [
  | inl same ↦ rw same (omega (arith, free))
  | inr other ↦ rw other (omega arith)
]
remove_at-references (suc n) j (e ∷ es) free =
    ap (λ r. references_if (same_key e.key j) e.references + r) (remove_at-references n j es free)

-- the choice is an earlier one, or an entry of the list without references
oldest_from-free :
    (best : Option (ℕ × ℕ)) (i : ℕ) (es : List Entry) (n used : ℕ)
    → oldest_from best i es ≡ some (n, used)
    → (best ≡ some (n, used)) ⊎ ((d : ℕ) × (n ≡ d + i) × (references_at d es ≡ 0) × (d < length es))
unfolding oldest_from
oldest_from-free best i [] n used h = inl h
oldest_from-free best i (e ∷ es) n used h =
    elim (oldest_from-free
      (if e.references == 0 && is_older e.used best then some (i, e.used) else best) (i + 1) es n
      used h) [
        | inr (d, place, free, there) ↦
            inr (suc d, omega (arith, place), free, omega (arith, there))
        | inl first ↦ elim (Bool-cases (e.references == 0 && is_older e.used best)) [
          | inl taken ↦ inr (
            0,
            (let same : some (i, e.used) ≡ some (n, used) = rw taken at first in
                (let first_same = ap (λ q. q.0) (some-injective _ _ same) in
                  omega (arith, first_same))),
            ground arith,
            omega arith,
          )
          | inr kept ↦ inl (rw kept at first)
        ]
      ]

-- Where `n` loads are under way and `held` has the key of each entry that a reader holds: the bytes are
-- those of the entries and a reservation for each load, within the limit; a key has one entry; and
-- the references are those of the readers.
pub record IsBudgeted (o : CacheLimits) (c : Cache) (n : ℕ) (held : List Key) : Type 0 where
  pub bytes : c.bytes ≡ total c.entries + n * reservation o
  pub within : c.bytes ≤ o.read_cache_bytes
  pub distinct : IsDistinct c.entries
  pub references : (k : Key) → references_of k c.entries ≡ holds k held

module _ (o : CacheLimits) where
  evict-IsBudgeted :
      (m : ℕ) (c : Cache) (n : ℕ) (held : List Key)
      → references_at m c.entries ≡ 0
      → IsBudgeted o c n held
      → IsBudgeted o (evict m c) n held
  unfolding evict
  evict-IsBudgeted m c n held free h =
      let split = remove_at-total m c.entries in
      record {
        bytes = omega (arith, h.bytes, split);
        within = omega (arith, h.within);
        distinct = remove_at-IsDistinct m c.entries h.distinct;
        references = λ k. remove_at-references m k c.entries free ∙ h.references k;
      }

  -- a step of the loop: the entry that is chosen is free
  pub chosen-free :
      (es : List Entry) (m used : ℕ)
      → oldest_from none 0 es ≡ some (m, used)
      → (references_at m es ≡ 0) × (m < length es)
  chosen-free es m used e = elim (oldest_from-free none 0 es m used e) [
    | inl before ↦ absurd (let b = before in cc)
    | inr (d, place, free, there) ↦
        let same : m ≡ d = omega (arith, place) in (rw same free, omega (arith, there, same))
  ]

  pub make_room-IsBudgeted :
      (fuel : ℕ) (c : Cache) (n : ℕ) (held : List Key)
      → IsBudgeted o c n held
      → IsBudgeted o (make_room o fuel c).0 n held
        × ((make_room o fuel c).1 ≡ true → is_short o (make_room o fuel c).0 ≡ false)
  unfolding make_room
  make_room-IsBudgeted zero c n held h = (h, λ room. ground arith)
  make_room-IsBudgeted (suc fuel) c n held h = elim (Bool-cases (is_short o c)) [
    | inr enough ↦ rw enough (h, λ room. enough)
    | inl short ↦ elim (Option-cases (oldest_from none 0 c.entries)) [
      | inl all_held ↦ rw (short, all_held) (h, λ room. absurd (ground arith))
      | inr ((m, used), chosen) ↦
          rw (short, chosen)
            (make_room-IsBudgeted fuel (evict m c) n held
              (evict-IsBudgeted m c n held (chosen-free c.entries m used chosen).0 h))
    ]
  ]
