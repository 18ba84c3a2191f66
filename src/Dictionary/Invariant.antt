-- ===== src/Dictionary/Invariant.antt =====
-- What holds of every dictionary, and what a search in it comes to.
use native.Mathlib.Decide.{dec_lt}
use mathlib.Core.Path.{ap₂}
use webanalyticsdb.Prelude.{
  ℕ, zero, suc, ◌+◌, ◌-◌, ◌*◌, ◌^◌, ◌≤◌, ◌<◌, ◌≡◌, refl, sym, subst, ◌∙◌, arith, inl, inr, ◌⊎◌,
  Bool, true, false, List, ltb, ◌==◌, length, Bool-cases, ap, then_of, else_of,
}
use webanalyticsdb.Core.Bytes.{bytes_eq}
use webanalyticsdb.Core.Bytes.Laws.{bytes_eq_refl, bytes_eq→eq}
use webanalyticsdb.Schema.{Schema}
use webanalyticsdb.Slots.{found, vacant, probe}
use webanalyticsdb.Core.Status.{ok, ok-eq-ok}
use webanalyticsdb.Slots.Index.{Indexes, no_slots-Indexes, probe-found, probe-vacant}
use webanalyticsdb.Dictionary.{
  Symbol, Column, Dictionary, empty_dictionary, dictionary_new, bad_symbol, symbol_hash, is_same,
  find_symbol, hashes,
}

-- A symbol has its hash and its length, and its column leads from its id back to it.
pub record IsSymbol (s : Schema) (columns : ℕ → Column) (x : Symbol) (k : ℕ) : Type 0 where
  pub valid : bad_symbol s x.field x.content ≡ false
  pub hashed : x.hash ≡ symbol_hash x.field x.content
  pub measured : x.length ≡ length x.content
  pub positive : 0 < x.id
  pub counted : x.id ≤ (columns x.field).count
  pub listed : (columns x.field).indices (x.id - 1) ≡ k

-- Ids are dense in each column, a string has one id, and older symbols have smaller ids.
pub record IsTable (s : Schema) (symbols : ℕ → Symbol) (count : ℕ) (columns : ℕ → Column)
    : Type 0 where
  pub symbol_ok : (k : ℕ) → k < count → IsSymbol s columns (symbols k) k
  pub within : (f p : ℕ) → p < (columns f).count → (columns f).indices p < count
  pub belongs : (f p : ℕ) → p < (columns f).count → (symbols ((columns f).indices p)).field ≡ f
  pub dense : (f p : ℕ) → p < (columns f).count → (symbols ((columns f).indices p)).id ≡ suc p
  pub increasing :
      (f p q : ℕ) → p < q → q < (columns f).count → (columns f).indices p < (columns f).indices q
  pub distinct :
      (j k : ℕ)
      → j < count
      → k < count
      → (symbols j).field ≡ (symbols k).field
      → (symbols j).content ≡ (symbols k).content
      → j ≡ k

-- the bytes of the strings, with the one behind each
abbrev pub string_bytes : (ℕ → Symbol) → ℕ → ℕ
string_bytes symbols zero = 0
string_bytes symbols (suc n) = string_bytes symbols n + ((symbols n).length + 1)

-- The arrays are large enough, and the memory is within its budget.
pub record IsDictionary (d : Dictionary) : Type 0 where
  pub table : IsTable d.schema d.symbols d.count d.columns
  pub index : Indexes (hashes d.symbols) d.slots d.slot_count d.count
  pub room : d.count * 2 ≤ d.slot_count
  pub fits : d.count ≤ d.capacity
  pub column_fits : (f : ℕ) → (d.columns f).count ≤ (d.columns f).capacity
  pub budget : d.allocated_bytes ≤ d.limit
  pub held : string_bytes d.symbols d.count ≤ d.allocated_bytes
  pub small : d.count < 2 ^ 32

-- the first entry of which a test holds, if any
search :
    (test : ℕ → Bool) (n : ℕ)
    → ((k : ℕ) × (k < n) × (test k ≡ true)) ⊎ ((k : ℕ) → k < n → test k ≡ false)
search test zero = inr (λ k lt. absurd (omega arith))
search test (suc n) = elim (search test n) [
  | inl (k, lt, e) ↦ inl (k, omega arith, e)
  | inr never ↦ elim (Bool-cases (test n)) [
    | inl e ↦ inl (n, omega arith, e)
    | inr e ↦ inr λ k lt. elim (dec_lt k n) [
      | yes older ↦ never k older
      | no last ↦ subst (λ j. test j ≡ false) (let same : n ≡ k = omega arith in same) e
    ]
  ]
]

pub is_same-true :
    (s : Symbol) (key field : ℕ) (content : List ℕ)
    → is_same s key field content ≡ true
    → (s.field ≡ field) × (s.content ≡ content)
unfolding is_same
is_same-true s key field content h = (ground arith, bytes_eq→eq s.content content (ground arith))

same_of :
    (s : Symbol) (key field : ℕ) (content : List ℕ)
    → s.hash ≡ key
    → s.field ≡ field
    → s.length ≡ length content
    → s.content ≡ content
    → is_same s key field content ≡ true
unfolding is_same
same_of s key field content e f l c =
    let q = subst (λ x. bytes_eq x content ≡ true) (sym c) (bytes_eq_refl content) in ground arith

module _ {d : Dictionary} (h : IsDictionary d) (field : ℕ) (content : List ℕ) where
  abbrev pub key : ℕ
  key = symbol_hash field content

  abbrev pub IsKnown : ℕ → Type 0
  IsKnown k = (k < d.count) × ((d.symbols k).field ≡ field) × ((d.symbols k).content ≡ content)

  known_hash : (k : ℕ) → IsKnown k → hashes d.symbols k ≡ key
  unfolding hashes
  known_hash k (lt, f, c) = (h.table.symbol_ok k lt).hashed ∙ ap₂ symbol_hash f c

  known_same : (k : ℕ) → IsKnown k → is_same (d.symbols k) key field content ≡ true
  unfolding hashes
  known_same k (lt, f, c) =
      same_of (d.symbols k) key field content (known_hash k (lt, f, c)) f
        ((h.table.symbol_ok k lt).measured ∙ ap length c) c

  find_known : (k : ℕ) → IsKnown k → find_symbol d key field content ≡ found k
  unfolding find_symbol
  find_known k (lt, f, c) =
      let only : (j : ℕ) → j < d.count → is_same (d.symbols j) key field content ≡ true → j ≡ k =
        λ j below e.
          (let (fj, cj) = is_same-true (d.symbols j) key field content e in
            h.table.distinct j k below lt (fj ∙ sym f) (cj ∙ sym c)) in
      let at =
        probe-found h.index (omega (arith, h.room)) (λ j. is_same (d.symbols j) key field content) k
          lt (known_same k (lt, f, c)) only in
      else_of (d.slot_count == 0) _ _
        (let some_slot : (d.slot_count == 0) ≡ false = ground (arith, h.room) in some_slot)
        (subst
          (λ x.
            probe (λ j. is_same (d.symbols j) key field content) d.slots d.slot_count x ≡ found k)
          (known_hash k (lt, f, c)) at)

  find_new :
      ((k : ℕ) → k < d.count → is_same (d.symbols k) key field content ≡ false)
      → (i : ℕ) × (find_symbol d key field content ≡ vacant i)
  unfolding find_symbol
  find_new never = elim (Bool-cases (d.slot_count == 0)) [
    | inl none ↦ (0, then_of (d.slot_count == 0) _ _ none refl)
    | inr some_slot ↦
        let (i, e, _) =
          probe-vacant h.index (let r : d.count < d.slot_count = ground (arith, h.room) in r)
            (λ j. is_same (d.symbols j) key field content) key never in
        (i, else_of (d.slot_count == 0) _ _ some_slot e)
  ]

  -- A string is known and found, or new and not found.
  pub find_symbol_cases :
      ((k : ℕ) × IsKnown k × (find_symbol d key field content ≡ found k))
      ⊎ (((k : ℕ) → ¬ IsKnown k) × ((i : ℕ) × (find_symbol d key field content ≡ vacant i)))
  find_symbol_cases = elim (search (λ k. is_same (d.symbols k) key field content) d.count) [
    | inl (k, lt, e) ↦
        let (f, c) = is_same-true (d.symbols k) key field content e in
        inl (k, (lt, f, c), find_known k (lt, f, c))
    | inr never ↦ inr (
      λ k (lt, f, c). (let e = known_same k (lt, f, c) in let ne = never k lt in cc),
      find_new never,
    )
  ]

empty_dictionary-IsDictionary :
    (s : Schema) (base most : ℕ) → base ≤ most → IsDictionary (empty_dictionary s base most)
unfolding empty_dictionary
empty_dictionary-IsDictionary s base most le = record {
  table = record {
    symbol_ok = λ k lt. absurd (omega arith);
    within = λ f p lt. absurd (omega arith);
    belongs = λ f p lt. absurd (omega arith);
    dense = λ f p lt. absurd (omega arith);
    increasing = λ f p q lt below. absurd (omega arith);
    distinct = λ j k lj lk. absurd (omega arith);
  };
  index = no_slots-Indexes _ 0;
  room = omega arith;
  fits = omega arith;
  column_fits = λ f. omega arith;
  budget = le;
  held = omega arith;
  small = omega arith;
}

-- A new dictionary is one.
pub dictionary_new-IsDictionary :
    (s : Schema) (most : ℕ) (d : Dictionary) → dictionary_new s most ≡ ok d → IsDictionary d
unfolding dictionary_new
dictionary_new-IsDictionary s most d e =
    let base = 72 + length s.fields * 24 in
    elim (Bool-cases (ltb most base)) [
      | inl small ↦ absurd (let z = rw small at e in cc)
      | inr room ↦
          subst IsDictionary (ok-eq-ok _ d (rw room at e))
            (empty_dictionary-IsDictionary s base most (ground arith))
    ]
