-- ===== src/Dictionary/Resolving.antt =====
-- Interning and resolving undo each other, and an id keeps its string.
use webanalyticsdb.Prelude.{
  ℕ, ◌+◌, ◌≤◌, ◌<◌, ◌≡◌, refl, sym, subst, ◌∙◌, arith, inl, inr, false, List, length, ap,
}
use webanalyticsdb.Core.Status.{ok, ok-eq-ok}
use webanalyticsdb.Dictionary.{
  Dictionary, bad_symbol, symbol_hash, new_symbol, add_symbol, intern, resolve,
}
use webanalyticsdb.Dictionary.Invariant.{IsDictionary}
use webanalyticsdb.Slots.Laws.{store_here, store_there}
use webanalyticsdb.Dictionary.Interning.{
  intern_outcome, intern-IsDictionary, resolve_entry, IsEntry-resolve, IsEntry,
}

-- The same symbols, and perhaps more.
pub record Extends (d d' : Dictionary) : Type 0 where
  pub schema_kept : d'.schema ≡ d.schema
  pub longer : d.count ≤ d'.count
  pub kept : (k : ℕ) → k < d.count → d'.symbols k ≡ d.symbols k

pub Extends-refl : (d : Dictionary) → Extends d d
Extends-refl d = record { schema_kept = refl; longer = omega arith; kept = λ k lt. refl }

module _ (d : Dictionary) (key field : ℕ) (content : List ℕ) where
  add_symbol-Extends : Extends d (add_symbol d key field content)
  unfolding add_symbol
  add_symbol-Extends = record {
    schema_kept = refl;
    longer = omega arith;
    kept = λ k lt. store_there d.symbols d.count k _ (omega arith);
  }

  add_symbol-IsEntry :
      IsEntry
        (add_symbol d key field content)
        field
        ((d.columns field).count + 1)
        (content, length content)
        d.count
  unfolding add_symbol new_symbol
  add_symbol-IsEntry =
      let x = new_symbol (d.columns field) key field content in
      let at = store_here d.symbols d.count x in
      (
        omega arith,
        ap (λ y. y.field) at,
        ap (λ y. y.id) at,
        ap (λ y. y.content) at,
        ap (λ y. y.length) at,
      )

module _ {d : Dictionary} (h : IsDictionary d) (field : ℕ) (content : List ℕ) where
  -- what a string that was interned is afterwards
  interned :
      (id : ℕ) (d' : Dictionary)
      → intern d field content ≡ ok (id, d')
      → Extends d d' × ((k : ℕ) × IsEntry d' field id (content, length content) k)
  interned id d' e = elim (intern_outcome h field content) [
    | inl (_, q) ↦ absurd (let z = sym q ∙ e in cc)
    | inr (_, inl (k, lt, f, c, q)) ↦
        let same = ok-eq-ok _ _ (sym q ∙ e) in
        subst (λ r. Extends d r.1 × ((k : ℕ) × IsEntry r.1 field r.0 (content, length content) k))
          same
          (Extends-refl d, (k, (lt, f, refl, c, (h.table.symbol_ok k lt).measured ∙ ap length c)))
    | inr (_, inr (_, inl (_, q))) ↦ absurd (let z = sym q ∙ e in cc)
    | inr (_, inr (_, inr (_, _, q))) ↦
        let same = ok-eq-ok _ _ (sym q ∙ e) in
        subst (λ r. Extends d r.1 × ((k : ℕ) × IsEntry r.1 field r.0 (content, length content) k))
          same
          (
            add_symbol-Extends d (symbol_hash field content) field content,
            (d.count, add_symbol-IsEntry d (symbol_hash field content) field content),
          )
  ]

  pub intern-Extends :
      (id : ℕ) (d' : Dictionary) → intern d field content ≡ ok (id, d') → Extends d d'
  intern-Extends id d' e = (interned id d' e).0

  -- The id of a string that was interned resolves to it.
  pub resolve-intern :
      (id : ℕ) (d' : Dictionary)
      → intern d field content ≡ ok (id, d')
      → resolve d' field id ≡ ok (content, length content)
  resolve-intern id d' e =
      let (_, (k, entry)) = interned id d' e in
      resolve_entry (intern-IsDictionary h field content id d' e) field id (content, length content)
        k entry

  -- A string that an id resolves to is interned as that id, and nothing changes.
  pub intern-resolve :
      (id n : ℕ) → resolve d field id ≡ ok (content, n) → intern d field content ≡ ok (id, d)
  intern-resolve id n e =
      let (k, (lt, f, i, c, _)) = IsEntry-resolve h field id (content, n) e in
      elim (intern_outcome h field content) [
        | inl (bad, _) ↦
            let good =
              subst (λ g. bad_symbol d.schema g content ≡ false) f
                (subst (λ x. bad_symbol d.schema (d.symbols k).field x ≡ false) c
                  (h.table.symbol_ok k lt).valid) in
            absurd (let z = sym good ∙ bad in cc)
        | inr (_, inl (j, lj, fj, cj, q)) ↦
            let same = h.table.distinct j k lj lt (fj ∙ sym f) (cj ∙ sym c) in
            q ∙ ap (λ x. ok (x, d)) (ap (λ x. (d.symbols x).id) same ∙ i)
        | inr (_, inr (new, _)) ↦ absurd (new k (lt, f, c))
      ]

-- What resolves in a dictionary resolves alike in one that extends it.
pub resolve-Extends :
    {d d' : Dictionary}
    → IsDictionary d
    → IsDictionary d'
    → Extends d d'
    → (field id : ℕ) (r : List ℕ × ℕ) → resolve d field id ≡ ok r
    → resolve d' field id ≡ ok r
resolve-Extends {d} {d'} h h' more field id r e =
    let (k, (lt, f, i, c, l)) = IsEntry-resolve h field id r e in
    let same = more.kept k lt in
    resolve_entry h' field id r k (
      omega (arith, more.longer),
      ap (λ x. x.field) same ∙ f,
      ap (λ x. x.id) same ∙ i,
      ap (λ x. x.content) same ∙ c,
      ap (λ x. x.length) same ∙ l,
    )
