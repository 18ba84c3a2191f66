-- ===== src/Dictionary/Rollback.antt =====
-- A dictionary that is rolled back is what it was.
use native.Mathlib.Decide.{dec_lt, ℕ_discrete}
use webanalyticsdb.Prelude.{
  ℕ, zero, suc, ◌-◌, ◌*◌, ◌^◌, ◌≤◌, ◌<◌, ◌≡◌, refl, sym, subst, ◌∙◌, arith, inl, inr, ◌⊎◌, true,
  false, ◌||◌, ap, leb, ltb, ◌==◌, if◌then◌else◌, then_of, else_of, Bool-cases,
}
use webanalyticsdb.Core.Status.{Status, Result, ok, err, reject, corrupt}
use webanalyticsdb.Schema.{Schema}
use webanalyticsdb.Slots.{store, rehash}
use webanalyticsdb.Slots.Index.{Indexes, rehash-Indexes}
use webanalyticsdb.Dictionary.{
  Symbol, Column, Dictionary, bad_field, hashes, resolve, shorter_column, pop_symbol, pop_symbols,
  reindex, rollback,
}
use webanalyticsdb.Dictionary.Invariant.{IsSymbol, IsTable, IsDictionary, string_bytes}
use webanalyticsdb.Dictionary.Resolving.{Extends, resolve-Extends}

-- A dictionary but for its slots.
record IsSound (d : Dictionary) : Type 0 where
  table : IsTable d.schema d.symbols d.count d.columns
  room : d.count * 2 ≤ d.slot_count
  fits : d.count ≤ d.capacity
  column_fits : (f : ℕ) → (d.columns f).count ≤ (d.columns f).capacity
  budget : d.allocated_bytes ≤ d.limit
  held : string_bytes d.symbols d.count ≤ d.allocated_bytes
  small : d.count < 2 ^ 32

module _ {s : Schema} {symbols : ℕ → Symbol} {n : ℕ} {columns : ℕ → Column}
    (t : IsTable s symbols (suc n) columns) where
  abbrev last_field : ℕ
  last_field = (symbols n).field

  abbrev columns' : ℕ → Column
  columns' = store columns last_field (shorter_column (columns last_field))

  last : IsSymbol s columns (symbols n) n
  last = t.symbol_ok n (omega arith)

  -- the last symbol is the last of its column
  last_listed : (symbols n).id ≡ (columns last_field).count
  last_listed = elim (dec_lt ((symbols n).id) ((columns last_field).count)) [
    | yes before ↦ absurd (
        omega (
          arith,
          last.positive,
          last.listed,
          t.increasing last_field ((symbols n).id - 1) ((columns last_field).count - 1)
              (omega (arith, last.positive)) (omega arith),
          t.within last_field ((columns last_field).count - 1) (omega arith),
        ))
    | no end ↦ omega (arith, last.counted)
  ]

  same_indices : (f : ℕ) → (columns' f).indices ≡ (columns f).indices
  unfolding store shorter_column
  same_indices f = ground arith

  shorter : (f : ℕ) → (columns' f).count ≤ (columns f).count
  unfolding store shorter_column
  shorter f = ground arith

  shorter_there : (f : ℕ) → ¬ (f ≡ last_field) → (columns' f).count ≡ (columns f).count
  unfolding store
  shorter_there f ne = ground arith

  shorter_here : (columns' last_field).count ≡ (columns last_field).count - 1
  unfolding store shorter_column
  shorter_here = ground arith

  still_counted : (k : ℕ) → k < n → (symbols k).id ≤ (columns' (symbols k).field).count
  still_counted k lt = elim (ℕ_discrete (symbols k).field last_field) [
    | no other ↦
        omega (arith, shorter_there (symbols k).field other, (t.symbol_ok k (omega arith)).counted)
    | yes here ↦
        let x = t.symbol_ok k (omega arith) in
        let listed : (columns last_field).indices ((symbols k).id - 1) ≡ k =
          subst (λ f. (columns f).indices ((symbols k).id - 1) ≡ k) here x.listed in
        let counted : (symbols k).id ≤ (columns last_field).count =
          subst (λ f. (symbols k).id ≤ (columns f).count) here x.counted in
        elim (ℕ_discrete (symbols k).id (symbols n).id) [
          | yes same ↦
              let clash =
                sym listed ∙ ap (λ i. (columns last_field).indices (i - 1)) same ∙ last.listed in
              absurd (omega (arith, clash))
          | no less ↦
              subst (λ f. (symbols k).id ≤ (columns' f).count) (sym here)
                (omega (arith, shorter_here, last_listed))
        ]
  ]

  still_within : (f p : ℕ) → p < (columns' f).count → (columns f).indices p < n
  still_within f p lt = elim (ℕ_discrete ((columns f).indices p) n) [
    | no old ↦ omega (arith, t.within f p (omega (arith, shorter f)))
    | yes clash ↦
        let old : p < (columns f).count = omega (arith, shorter f) in
        let field : (symbols n).field ≡ f =
          sym (ap (λ i. (symbols i).field) clash) ∙ t.belongs f p old in
        let id : (symbols n).id ≡ suc p = sym (ap (λ i. (symbols i).id) clash) ∙ t.dense f p old in
        let short : p < (columns' last_field).count =
          subst (λ g. p < (columns' g).count) (sym field) lt in
        absurd (omega (arith, shorter_here, last_listed))
  ]

  IsTable-pop : IsTable s symbols n columns'
  IsTable-pop = record {
    symbol_ok = λ k lt.
        (let x = t.symbol_ok k (omega arith) in
          record {
            valid = x.valid;
            hashed = x.hashed;
            measured = x.measured;
            positive = x.positive;
            counted = still_counted k lt;
            listed = ap (λ a. a ((symbols k).id - 1)) (same_indices (symbols k).field) ∙ x.listed;
          });
    within = λ f p lt. omega (arith, ap (λ a. a p) (same_indices f), still_within f p lt);
    belongs = λ f p lt.
        ap (λ a. (symbols (a p)).field) (same_indices f) ∙ t.belongs f p (omega (arith, shorter f));
    dense = λ f p lt.
        ap (λ a. (symbols (a p)).id) (same_indices f) ∙ t.dense f p (omega (arith, shorter f));
    increasing = λ f p q lt below. omega (
      arith,
      ap (λ a. a p) (same_indices f),
      ap (λ a. a q) (same_indices f),
      t.increasing f p q lt (omega (arith, shorter f)),
    );
    distinct = λ j k lj lk. t.distinct j k (omega arith) (omega arith);
  }

pred_of : (n : ℕ) → 0 < n → (m : ℕ) × (n ≡ suc m)
pred_of zero pos = absurd (omega arith)
pred_of (suc m) pos = (m, refl)

popped_fits :
    (columns : ℕ → Column) (g : ℕ)
    → ((f : ℕ) → (columns f).count ≤ (columns f).capacity)
    → (f : ℕ)
    → (store columns g (shorter_column (columns g)) f).count
      ≤ (store columns g (shorter_column (columns g)) f).capacity
unfolding store shorter_column
popped_fits columns g fits f = ground (arith, fits f, fits g)

pop-IsSound : {d : Dictionary} → IsSound d → 0 < d.count → IsSound (pop_symbol d)
unfolding pop_symbol
pop-IsSound {d} h some_symbol =
    let back : suc (d.count - 1) ≡ d.count = omega arith in
    let held : string_bytes d.symbols (suc (d.count - 1)) ≤ d.allocated_bytes =
      subst (λ n. string_bytes d.symbols n ≤ d.allocated_bytes) (sym back) h.held in
    record {
      table = IsTable-pop (subst (λ n. IsTable d.schema d.symbols n d.columns) (sym back) h.table);
      room = omega (arith, h.room);
      fits = omega (arith, h.fits);
      column_fits = popped_fits d.columns (d.symbols (d.count - 1)).field h.column_fits;
      budget = omega (arith, h.budget);
      held = omega arith;
      small = omega (arith, h.small);
    }

-- so many symbols are popped, and the others are as they were
IsPopped : ℕ → Dictionary → Dictionary → Type 0
IsPopped n d r =
    IsSound r
    × (r.count ≡ d.count - n)
    × (r.schema ≡ d.schema)
    × ((k : ℕ) → r.symbols k ≡ d.symbols k)
    × (r.slot_count ≡ d.slot_count)

pop_symbols-IsPopped :
    (n : ℕ) (d : Dictionary) → IsSound d → n ≤ d.count → IsPopped n d (pop_symbols n d)
unfolding IsPopped pop_symbols pop_symbol
pop_symbols-IsPopped zero d h le = (h, omega arith, refl, λ k. refl, refl)
pop_symbols-IsPopped (suc n) d h le =
    let (sound, count, schema, symbols, slots) =
      pop_symbols-IsPopped n (pop_symbol d) (pop-IsSound h (omega arith))
        (let rest : n ≤ d.count - 1 = omega arith in rest) in
    (
      sound,
      (let c : (pop_symbols n (pop_symbol d)).count ≡ d.count - suc n = omega (arith, count) in c),
      schema,
      symbols,
      slots,
    )

reindex-IsDictionary : {d : Dictionary} → IsSound d → 0 < d.slot_count → IsDictionary (reindex d)
unfolding reindex
reindex-IsDictionary {d} h pos = record {
  table = h.table;
  index =
      (let some_slot : (d.slot_count == 0) ≡ false = ground arith in
        subst (λ s. Indexes (hashes d.symbols) s d.slot_count d.count)
          (sym (
            else_of (d.slot_count == 0) d.slots (rehash (hashes d.symbols) d.slot_count d.count)
              some_slot refl))
          (rehash-Indexes (hashes d.symbols) d.slot_count d.count (omega (arith, h.room))));
  room = h.room;
  fits = h.fits;
  column_fits = h.column_fits;
  budget = h.budget;
  held = h.held;
  small = h.small;
}

IsSound-of : {d : Dictionary} → IsDictionary d → IsSound d
IsSound-of h = record {
  table = h.table;
  room = h.room;
  fits = h.fits;
  column_fits = h.column_fits;
  budget = h.budget;
  held = h.held;
  small = h.small;
}

rolled :
    {d : Dictionary}
    → IsDictionary d
    → (mark : ℕ) → mark < d.count
    → IsDictionary (reindex (pop_symbols (d.count - mark) d))
      × (((reindex (pop_symbols (d.count - mark) d)).count ≡ mark)
          × (((reindex (pop_symbols (d.count - mark) d)).schema ≡ d.schema)
              × ((k : ℕ) → (reindex (pop_symbols (d.count - mark) d)).symbols k ≡ d.symbols k)))
unfolding IsPopped reindex
rolled {d} h mark lt =
    let (sound, count, schema, symbols, slots) =
      pop_symbols-IsPopped (d.count - mark) d (IsSound-of h) (omega arith) in
    (reindex-IsDictionary sound (omega (arith, h.room)), (omega arith, (schema, symbols)))

-- the same symbols, but no more than the mark
IsCut : Dictionary → ℕ → Dictionary → Type 0
IsCut d mark r =
    IsDictionary r
    × (r.count ≡ (if leb d.count mark then d.count else mark))
    × (r.schema ≡ d.schema)
    × ((k : ℕ) → r.symbols k ≡ d.symbols k)

rollback-IsCut : {d : Dictionary} → IsDictionary d → (mark : ℕ) → IsCut d mark (rollback d mark)
unfolding IsCut rollback
rollback-IsCut {d} h mark = elim (dec_lt mark d.count) [
  | yes more ↦
      let test : leb d.count mark ≡ false = ground arith in
      let (dict, (count, (schema, symbols))) = rolled h mark more in
      subst (IsCut d mark)
        (sym (else_of (leb d.count mark) d (reindex (pop_symbols (d.count - mark) d)) test refl))
        (dict, count ∙ sym (else_of (leb d.count mark) d.count mark test refl), schema, symbols)
  | no few ↦
      let test : leb d.count mark ≡ true = ground arith in
      subst (IsCut d mark)
        (sym (then_of (leb d.count mark) d (reindex (pop_symbols (d.count - mark) d)) test refl))
        (h, sym (then_of (leb d.count mark) d.count mark test refl), refl, λ k. refl)
]

-- A dictionary that is rolled back is one.
pub rollback-IsDictionary :
    {d : Dictionary} → IsDictionary d → (mark : ℕ) → IsDictionary (rollback d mark)
unfolding IsCut
rollback-IsDictionary h mark = (rollback-IsCut h mark).0

pub resolve_err :
    (d : Dictionary) (field id : ℕ) (s : Status) → resolve d field id ≡ err s → s ≡ corrupt
unfolding resolve reject
resolve_err d field id s e =
    elim (Bool-cases (bad_field d.schema field || id == 0 || ltb (d.columns field).count id)) [
      | inl bad ↦ let z = rw bad at e in cc
      | inr good ↦ let z = rw good at e in cc
    ]

-- Two dictionaries that extend each other resolve alike.
resolve_alike :
    {d d' : Dictionary}
    → IsDictionary d
    → IsDictionary d'
    → Extends d d'
    → Extends d' d
    → (field id : ℕ) → resolve d' field id ≡ resolve d field id
resolve_alike {d} {d'} h h' there back field id = elim (result_cases (resolve d field id)) [
  | inl (r, e) ↦ resolve-Extends h h' there field id r e ∙ sym e
  | inr (s, e) ↦ elim (result_cases (resolve d' field id)) [
    | inl (r, e') ↦ absurd (let z = resolve-Extends h' h back field id r e' in cc)
    | inr (s', e') ↦
        e' ∙ ap err (resolve_err d' field id s' e' ∙ sym (resolve_err d field id s e)) ∙ sym e
  ]
]
  where
    result_cases :
        {A : Type 0} (r : Result A) → ((a : A) × (r ≡ ok a)) ⊎ ((s : Status) × (r ≡ err s))
    result_cases (ok a) = inl (a, refl)
    result_cases (err s) = inr (s, refl)

-- Rolling back to an earlier state takes away all that was interned since, and nothing else.
pub rollback-Extends :
    {d d' : Dictionary}
    → IsDictionary d
    → IsDictionary d'
    → Extends d d'
    → (field id : ℕ) → resolve (rollback d' d.count) field id ≡ resolve d field id
unfolding IsCut
rollback-Extends {d} {d'} h h' more =
    let (dict, count, schema, symbols) = rollback-IsCut h' d.count in
    let exact : (rollback d' d.count).count ≡ d.count = ground (arith, more.longer) in
    resolve_alike h dict
      (record {
        schema_kept = schema ∙ more.schema_kept;
        longer = omega arith;
        kept = λ k lt. symbols k ∙ more.kept k lt;
      })
      (record {
        schema_kept = sym (schema ∙ more.schema_kept);
        longer = omega arith;
        kept = λ k lt. sym (symbols k ∙ more.kept k (omega arith));
      })
