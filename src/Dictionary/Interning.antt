-- ===== src/Dictionary/Interning.antt =====
-- What interning a string and resolving an id say of each other.
use mathlib.Core.Path.{ap₂}
use webanalyticsdb.Schema.{Schema}
use webanalyticsdb.Prelude.{
  ℕ, suc, ◌+◌, ◌-◌, ◌^◌, ◌≤◌, ◌<◌, ◌≡◌, refl, sym, subst, ◌∙◌, arith, inl, inr, ◌⊎◌, ◌↔◌, true,
  false, ◌||◌, List, ltb, ◌==◌, Bool-cases, ap, or-eq-false,
}
use webanalyticsdb.Core.Status.{
  Status, ok, err, invalid, limit, corrupt, reject, reject-eq-ok, ok-eq-ok,
}
use webanalyticsdb.Dictionary.{
  Dictionary, bad_field, bad_symbol, symbol_hash, extra_bytes, add_symbol, is_exhausted,
  insert_symbol, intern_found, intern, symbol_at, resolve,
}
use webanalyticsdb.Dictionary.Invariant.{IsDictionary, find_symbol_cases}
use webanalyticsdb.Dictionary.Laws.{add_symbol-IsDictionary}

-- No symbol of the dictionary is the string.
abbrev pub IsNew : Dictionary → ℕ → List ℕ → Type 0
IsNew d field content =
    (k : ℕ) → ¬ ((k < d.count) × ((d.symbols k).field ≡ field) × ((d.symbols k).content ≡ content))

abbrev pub IsOver : Dictionary → ℕ → List ℕ → Type 0
IsOver d field content =
    (is_exhausted d (d.columns field) ≡ true)
    ⊎ (d.limit - d.allocated_bytes < extra_bytes d (d.columns field) content)

module _ {d : Dictionary} (h : IsDictionary d) (field : ℕ) (content : List ℕ) where
  abbrev key : ℕ
  key = symbol_hash field content

  -- the string is known, or goes to the insertion
  intern_cases :
      bad_symbol d.schema field content ≡ false
      → ((k : ℕ) × (k < d.count)
          × ((d.symbols k).field ≡ field)
          × ((d.symbols k).content ≡ content)
          × (intern d field content ≡ ok ((d.symbols k).id, d)))
        ⊎ (IsNew d field content × (intern d field content ≡ insert_symbol d key field content))
  unfolding intern intern_found reject
  intern_cases good = elim (find_symbol_cases h field content) [
    | inl (k, (lt, f, c), e) ↦ inl (k, lt, f, c, rw good (rw e refl))
    | inr (new, (i, e)) ↦ inr (new, rw good (rw e refl))
  ]

  intern_bad : bad_symbol d.schema field content ≡ true → intern d field content ≡ err invalid
  unfolding intern reject
  intern_bad bad = rw bad refl

  -- the insertion fails over a limit, or adds the symbol
  insert_cases :
      (IsOver d field content × (insert_symbol d key field content ≡ err limit))
      ⊎ ((is_exhausted d (d.columns field) ≡ false)
          × (d.allocated_bytes + extra_bytes d (d.columns field) content ≤ d.limit)
          × (insert_symbol d key field content
              ≡ ok ((d.columns field).count + 1, add_symbol d key field content)))
  unfolding insert_symbol reject
  insert_cases =
      let extra = extra_bytes d (d.columns field) content in
      let small = d.limit - d.allocated_bytes in
      elim (Bool-cases (is_exhausted d (d.columns field))) [
        | inl spent ↦ inl (inl spent, rw spent refl)
        | inr room ↦ elim (Bool-cases (ltb small extra)) [
          | inl over ↦ inl (inr (ground arith), rw room (rw over refl))
          | inr within ↦ inr (room, ground (arith, h.budget), rw room (rw within refl))
        ]
      ]

  below_limit : is_exhausted d (d.columns field) ≡ false → d.count < 2 ^ 32 - 1
  unfolding is_exhausted
  below_limit room = ground (arith, h.small)

  -- how interning ends: what it is given is bad, known, too much, or added
  pub intern_outcome :
      ((bad_symbol d.schema field content ≡ true) × (intern d field content ≡ err invalid))
      ⊎ ((bad_symbol d.schema field content ≡ false)
          × (((k : ℕ) × (k < d.count)
                × ((d.symbols k).field ≡ field)
                × ((d.symbols k).content ≡ content)
                × (intern d field content ≡ ok ((d.symbols k).id, d)))
              ⊎ (IsNew d field content
                  × ((IsOver d field content × (intern d field content ≡ err limit))
                      ⊎ ((is_exhausted d (d.columns field) ≡ false)
                          × (d.allocated_bytes + extra_bytes d (d.columns field) content ≤ d.limit)
                          × (intern d field content
                              ≡ ok (
                                (d.columns field).count + 1,
                                add_symbol d key field content,
                              )))))))
  intern_outcome = elim (Bool-cases (bad_symbol d.schema field content)) [
    | inl bad ↦ inl (bad, intern_bad bad)
    | inr good ↦ inr (
      good,
      elim (intern_cases good) [
        | inl known ↦ inl known
        | inr (new, e) ↦ inr (
          new,
          elim insert_cases [
            | inl (over, q) ↦ inl (over, e ∙ q)
            | inr (room, within, q) ↦ inr (room, within, e ∙ q)
          ],
        )
      ],
    )
  ]

  -- A string that is interned leaves a dictionary.
  pub intern-IsDictionary :
      (id : ℕ) (d' : Dictionary) → intern d field content ≡ ok (id, d') → IsDictionary d'
  intern-IsDictionary id d' e = elim intern_outcome [
    | inl (_, q) ↦ absurd (let z = sym q ∙ e in cc)
    | inr (_, inl (k, _, _, _, q)) ↦ subst IsDictionary (ap (λ x. x.1) (ok-eq-ok _ _ (sym q ∙ e))) h
    | inr (_, inr (_, inl (_, q))) ↦ absurd (let z = sym q ∙ e in cc)
    | inr (good, inr (new, inr (room, within, q))) ↦
        subst IsDictionary (ap (λ x. x.1) (ok-eq-ok _ _ (sym q ∙ e)))
          (add_symbol-IsDictionary h field content good new (below_limit room) within)
  ]

  -- Where allocations succeed, interning fails exactly on what is no string of a symbol field, and
  -- over a limit.
  pub intern_error_iff :
      (s : Status)
      → (intern d field content ≡ err s) ↔ (
          ((s ≡ invalid) × (bad_symbol d.schema field content ≡ true))
          ⊎ ((s ≡ limit)
              × (bad_symbol d.schema field content ≡ false)
              × IsNew d field content
              × IsOver d field content))
  intern_error_iff s = (λ e. fails e, λ why. failing why)
    where
      IsFailure : Type 0
      IsFailure =
          ((s ≡ invalid) × (bad_symbol d.schema field content ≡ true))
          ⊎ ((s ≡ limit)
              × (bad_symbol d.schema field content ≡ false)
              × IsNew d field content
              × IsOver d field content)

      fails : intern d field content ≡ err s → IsFailure
      fails e = elim intern_outcome [
        | inl (bad, q) ↦ inl ((let z = sym q ∙ e in cc), bad)
        | inr (_, inl (k, _, _, _, q)) ↦ absurd (let z = sym q ∙ e in cc)
        | inr (good, inr (new, inl (over, q))) ↦ inr ((let z = sym q ∙ e in cc), good, new, over)
        | inr (_, inr (_, inr (_, _, q))) ↦ absurd (let z = sym q ∙ e in cc)
      ]

      failing : IsFailure → intern d field content ≡ err s
      failing (inl (es, bad)) = intern_bad bad ∙ ap err (sym es)
      failing (inr (es, good, new, over)) = elim intern_outcome [
        | inl (bad, q) ↦ absurd (let z = sym good ∙ bad in cc)
        | inr (_, inl (k, lt, f, c, q)) ↦ absurd (new k (lt, f, c))
        | inr (_, inr (_, inl (_, q))) ↦ q ∙ ap err (sym es)
        | inr (_, inr (_, inr (room, within, q))) ↦ absurd (elim over [
          | inl spent ↦ (let z = sym room ∙ spent in cc)
          | inr more ↦ omega (arith, h.budget)
        ])
      ]

good_field :
    (s : Schema) (field : ℕ) (content : List ℕ)
    → bad_symbol s field content ≡ false
    → bad_field s field ≡ false
unfolding bad_symbol
good_field s field content good = (or-eq-false _ _ (or-eq-false _ _ good).0).0

-- an entry that an id of a column leads to
abbrev pub IsEntry : Dictionary → ℕ → ℕ → List ℕ × ℕ → ℕ → Type 0
IsEntry d field id r k =
    (k < d.count)
    × ((d.symbols k).field ≡ field)
    × ((d.symbols k).id ≡ id)
    × ((d.symbols k).content ≡ r.0)
    × ((d.symbols k).length ≡ r.1)

module _ {d : Dictionary} (h : IsDictionary d) where
  -- A symbol is what its column and its id resolve to.
  resolve_known :
      (k : ℕ)
      → k < d.count
      → resolve d (d.symbols k).field (d.symbols k).id
        ≡ ok ((d.symbols k).content, (d.symbols k).length)
  unfolding resolve reject
  resolve_known k lt =
      let x = h.table.symbol_ok k lt in
      let good = good_field d.schema (d.symbols k).field (d.symbols k).content x.valid in
      let zero_id : ((d.symbols k).id == 0) ≡ false = ground (arith, x.positive) in
      let past : ltb (d.columns (d.symbols k).field).count (d.symbols k).id ≡ false =
        ground (arith, x.counted) in
      rw good
        (rw zero_id (rw past (ap (λ j. ok ((d.symbols j).content, (d.symbols j).length)) x.listed)))

  pub resolve_entry :
      (field id : ℕ) (r : List ℕ × ℕ) (k : ℕ) → IsEntry d field id r k → resolve d field id ≡ ok r
  resolve_entry field id r k (lt, f, i, c, l) =
      subst (λ g. resolve d g id ≡ ok r) f
        (subst (λ j. resolve d (d.symbols k).field j ≡ ok r) i
          (resolve_known k lt ∙ ap₂ (λ x y. ok (x, y)) c l))

  pub IsEntry-resolve :
      (field id : ℕ) (r : List ℕ × ℕ) → resolve d field id ≡ ok r → (k : ℕ) × IsEntry d field id r k
  unfolding resolve symbol_at
  IsEntry-resolve field id r e =
      let (guard, q) =
        reject-eq-ok (bad_field d.schema field || id == 0 || ltb (d.columns field).count id) corrupt
          _ e in
      let (guard', past) =
        or-eq-false (bad_field d.schema field || id == 0) (ltb (d.columns field).count id) guard in
      let (_, positive) = or-eq-false (bad_field d.schema field) (id == 0) guard' in
      let listed : id - 1 < (d.columns field).count = ground arith in
      let same = ok-eq-ok _ r q in
      (
        (d.columns field).indices (id - 1),
        (
          h.table.within field (id - 1) listed,
          h.table.belongs field (id - 1) listed,
          (let up : suc (id - 1) ≡ id = ground arith in h.table.dense field (id - 1) listed ∙ up),
          ap (λ x. x.0) same,
          ap (λ x. x.1) same,
        ),
      )
