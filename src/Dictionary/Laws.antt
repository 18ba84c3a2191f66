-- ===== src/Dictionary/Laws.antt =====
-- A new symbol keeps what holds of a dictionary.
use native.Mathlib.Decide.{dec_lt, ℕ_discrete}
use webanalyticsdb.Prelude.{
  ℕ, zero, suc, ◌+◌, ◌-◌, ◌*◌, ◌^◌, ◌≤◌, ◌<◌, ◌≡◌, refl, sym, subst, ◌∙◌, arith, inl, inr, ◌⊎◌,
  true, false, List, ◌==◌, ap, then_of, else_of,
}
use webanalyticsdb.Schema.{Schema}
use webanalyticsdb.Slots.{store, place_entry, rehash}
use webanalyticsdb.Slots.Laws.{store_here, store_there}
use webanalyticsdb.Slots.Index.{Indexes, place_entry-Indexes, rehash-Indexes, Indexes-hash}
use webanalyticsdb.Dictionary.{
  Symbol, Column, Dictionary, bad_symbol, symbol_hash, hashes, grown, next_slot_count, extra_bytes,
  grown_slots, new_symbol, longer_column, add_symbol,
}
use webanalyticsdb.Dictionary.Invariant.{string_bytes, IsSymbol, IsTable, IsDictionary}

module _ {s : Schema} {symbols : ℕ → Symbol} {count : ℕ} {columns : ℕ → Column}
    (t : IsTable s symbols count columns) (field : ℕ) (content : List ℕ) where
  abbrev column : Column
  column = columns field

  abbrev added : Symbol
  added = new_symbol column (symbol_hash field content) field content

  abbrev symbols' : ℕ → Symbol
  symbols' = store symbols count added

  abbrev columns' : ℕ → Column
  columns' = store columns field (longer_column column count)

  -- the columns only grow
  longer : (f : ℕ) → (columns f).count ≤ (columns' f).count
  unfolding store longer_column
  longer f = ground arith

  kept : (f p : ℕ) → p < (columns f).count → (columns' f).indices p ≡ (columns f).indices p
  unfolding store longer_column
  kept f p lt = ground arith

  -- what is listed now was listed before, or is the new symbol
  listed_now :
      (f p : ℕ)
      → p < (columns' f).count
      → ((p < (columns f).count) × ((columns' f).indices p ≡ (columns f).indices p))
        ⊎ ((f ≡ field) × (p ≡ column.count) × ((columns' f).indices p ≡ count))
  unfolding store longer_column
  listed_now f p lt = ground arith

  IsSymbol-longer : (x : Symbol) (k : ℕ) → IsSymbol s columns x k → IsSymbol s columns' x k
  IsSymbol-longer x k h = record {
    valid = h.valid;
    hashed = h.hashed;
    measured = h.measured;
    positive = h.positive;
    counted = omega (arith, h.counted, longer x.field);
    listed = kept x.field (x.id - 1) (omega (arith, h.positive, h.counted)) ∙ h.listed;
  }

  IsSymbol-added : bad_symbol s field content ≡ false → IsSymbol s columns' added count
  unfolding store longer_column new_symbol
  IsSymbol-added good = record {
    valid = good;
    hashed = refl;
    measured = refl;
    positive = omega arith;
    counted = ground arith;
    listed = ground arith;
  }

  module _ (good : bad_symbol s field content ≡ false)
      (fresh : (k : ℕ)
        → ¬ ((k < count) × ((symbols k).field ≡ field) × ((symbols k).content ≡ content))) where
    older : (k : ℕ) → k < count → symbols' k ≡ symbols k
    older k lt = store_there symbols count k added (omega arith)

    at_count : symbols' count ≡ added
    at_count = store_here symbols count added

    IsSymbol-now : (k : ℕ) → k < suc count → IsSymbol s columns' (symbols' k) k
    IsSymbol-now k lt = elim (ℕ_discrete k count) [
      | yes last ↦
          subst (λ j. IsSymbol s columns' (symbols' j) j) (sym last)
            (subst (λ x. IsSymbol s columns' x count) (sym at_count) (IsSymbol-added good))
      | no old ↦
          let below : k < count = omega arith in
          subst (λ x. IsSymbol s columns' x k) (sym (older k below))
            (IsSymbol-longer (symbols k) k (t.symbol_ok k below))
    ]

    -- the symbol that a column lists
    listed_symbol :
        (f p : ℕ)
        → p < (columns' f).count
        → ((symbols' ((columns' f).indices p)).field ≡ f)
          × ((symbols' ((columns' f).indices p)).id ≡ suc p)
    unfolding new_symbol
    listed_symbol f p lt = elim (listed_now f p lt) [
      | inl (old, e) ↦
          let same = ap symbols' e ∙ older _ (t.within f p old) in
          (ap (λ x. x.field) same ∙ t.belongs f p old, ap (λ x. x.id) same ∙ t.dense f p old)
      | inr (ef, ep, e) ↦
          let same = ap symbols' e ∙ at_count in
          (
            ap (λ x. x.field) same ∙ sym ef,
            ap (λ x. x.id) same ∙ (let next : column.count + 1 ≡ suc p = omega arith in next),
          )
    ]

    no_clash : (k : ℕ) → k < count → (symbols' k).field ≡ field → (symbols' k).content ≡ content → ⊥
    no_clash k lt ef ec =
        let same = older k lt in
        fresh k (lt, sym (ap (λ x. x.field) same) ∙ ef, sym (ap (λ x. x.content) same) ∙ ec)

    distinct_now :
        (j k : ℕ)
        → j < suc count
        → k < suc count
        → (symbols' j).field ≡ (symbols' k).field
        → (symbols' j).content ≡ (symbols' k).content
        → j ≡ k
    unfolding new_symbol
    distinct_now j k lj lk ef ec = elim (dec_lt j count) [
      | yes bj ↦ elim (dec_lt k count) [
        | yes bk ↦
            t.distinct j k bj bk
              (sym (ap (λ x. x.field) (older j bj)) ∙ ef ∙ ap (λ x. x.field) (older k bk))
              (sym (ap (λ x. x.content) (older j bj)) ∙ ec ∙ ap (λ x. x.content) (older k bk))
        | no ak ↦
            let last : k ≡ count = omega arith in
            let same = ap symbols' last ∙ at_count in
            absurd (no_clash j bj (ef ∙ ap (λ x. x.field) same) (ec ∙ ap (λ x. x.content) same))
      ]
      | no aj ↦ elim (dec_lt k count) [
        | yes bk ↦
            let last : j ≡ count = omega arith in
            let same = ap symbols' last ∙ at_count in
            absurd
              (no_clash k bk (sym ef ∙ ap (λ x. x.field) same) (sym ec ∙ ap (λ x. x.content) same))
        | no ak ↦ omega arith
      ]
    ]

    pub IsTable-add : IsTable s symbols' (suc count) columns'
    unfolding longer_column
    IsTable-add = record {
      symbol_ok = IsSymbol-now;
      within = λ f p lt. elim (listed_now f p lt) [
        | inl (old, e) ↦ omega (arith, e, t.within f p old)
        | inr (ef, ep, e) ↦ omega (arith, e)
      ];
      belongs = λ f p lt. (listed_symbol f p lt).0;
      dense = λ f p lt. (listed_symbol f p lt).1;
      increasing = λ f p q lt below. elim (listed_now f q below) [
        | inl (old, e) ↦ omega (arith, e, kept f p (omega arith), t.increasing f p q lt old)
        | inr (ef, eq, e) ↦
            let old : p < (columns f).count =
              subst (λ g. p < (columns g).count) (sym ef) (omega arith) in
            omega (arith, e, kept f p old, t.within f p old)
      ];
      distinct = distinct_now;
    }

-- More slots than twice the symbols, also after growth.
next_slot_count_lem :
    (count slots : ℕ) → count * 2 ≤ slots → suc count * 2 ≤ next_slot_count count slots
unfolding next_slot_count
next_slot_count_lem count slots room = ground arith

grown_lem :
    (count capacity first : ℕ)
    → count ≤ capacity
    → 0 < first
    → suc count ≤ grown count capacity first
unfolding grown
grown_lem count capacity first le pos = ground arith

grown_slots-Indexes :
    {hash slots : ℕ → ℕ} {old new count : ℕ}
    → Indexes hash slots old count
    → count < new
    → Indexes hash (grown_slots hash slots old new count) new count
unfolding grown_slots
grown_slots-Indexes {hash} {slots} {old} {new} {count} h room = elim (ℕ_discrete new old) [
  | yes same ↦
      let test : (new == old) ≡ true = ground arith in
      let index : Indexes hash slots new count =
        subst (λ n. Indexes hash slots n count) (sym same) h in
      subst (λ s. Indexes hash s new count)
        (sym (then_of (new == old) slots (rehash hash new count) test refl)) index
  | no more ↦
      let test : (new == old) ≡ false = ground arith in
      subst (λ s. Indexes hash s new count)
        (sym (else_of (new == old) slots (rehash hash new count) test refl))
        (rehash-Indexes hash new count room)
]

-- The index with the new symbol in it.
add-Indexes :
    (symbols : ℕ → Symbol) {slots : ℕ → ℕ} {n count : ℕ} (x : Symbol)
    → Indexes (hashes symbols) slots n count
    → count < n
    → Indexes (hashes (store symbols count x)) (place_entry slots n x.hash count) n (suc count)
unfolding hashes
add-Indexes symbols {slots} {n} {count} x h room =
    let now =
      Indexes-hash (hashes symbols) (hashes (store symbols count x))
        (λ k lt. ap (λ y. y.hash) (sym (store_there symbols count k x (omega arith)))) h in
    let placed = place_entry-Indexes now room in
    subst
      (λ key.
        Indexes (hashes (store symbols count x)) (place_entry slots n key count) n (suc count))
      (ap (λ y. y.hash) (store_here symbols count x)) placed

string_bytes-store :
    (symbols : ℕ → Symbol) (x : Symbol) (i n : ℕ)
    → n ≤ i
    → string_bytes (store symbols i x) n ≡ string_bytes symbols n
string_bytes-store symbols x i zero le = refl
string_bytes-store symbols x i (suc n) le = omega (
  arith,
  string_bytes-store symbols x i n (omega arith),
  ap (λ y. y.length) (store_there symbols i n x (omega arith)),
)

module _ {d : Dictionary} (h : IsDictionary d) (field : ℕ) (content : List ℕ) where
  bigger : d.count < next_slot_count d.count d.slot_count
  bigger = omega (arith, next_slot_count_lem d.count d.slot_count h.room)

  column_fits_now :
      (f : ℕ)
      → (store d.columns field (longer_column (d.columns field) d.count) f).count
        ≤ (store d.columns field (longer_column (d.columns field) d.count) f).capacity
  unfolding store longer_column
  column_fits_now f = ground (
    arith,
    h.column_fits f,
    h.column_fits field,
    grown_lem (d.columns field).count (d.columns field).capacity 8,
  )

  held_now :
      string_bytes
        (store d.symbols d.count
          (new_symbol (d.columns field) (symbol_hash field content) field content))
        (suc d.count)
      ≤ d.allocated_bytes + extra_bytes d (d.columns field) content
  unfolding new_symbol extra_bytes
  held_now =
      let x = new_symbol (d.columns field) (symbol_hash field content) field content in
      omega (
        arith,
        h.held,
        string_bytes-store d.symbols x d.count d.count,
        ap (λ y. y.length) (store_here d.symbols d.count x),
      )

  pub add_symbol-IsDictionary :
      bad_symbol d.schema field content ≡ false
      → ((k : ℕ)
          → ¬ ((k < d.count) × ((d.symbols k).field ≡ field) × ((d.symbols k).content ≡ content)))
      → d.count < 2 ^ 32 - 1
      → d.allocated_bytes + extra_bytes d (d.columns field) content ≤ d.limit
      → IsDictionary (add_symbol d (symbol_hash field content) field content)
  unfolding add_symbol new_symbol
  add_symbol-IsDictionary good fresh small within = record {
    table = IsTable-add h.table field content good fresh;
    index =
        add-Indexes d.symbols
          (new_symbol (d.columns field) (symbol_hash field content) field content)
          (grown_slots-Indexes h.index bigger) bigger;
    room = next_slot_count_lem d.count d.slot_count h.room;
    fits = grown_lem d.count d.capacity 16 h.fits (omega arith);
    column_fits = λ f. column_fits_now f;
    budget = within;
    held = held_now;
    small = omega arith;
  }
