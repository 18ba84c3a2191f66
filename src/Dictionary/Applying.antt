-- ===== src/Dictionary/Applying.antt =====
-- A frame's definitions are taken all or not at all.
use webanalyticsdb.Prelude.{
  ℕ, zero, suc, ◌+◌, ◌-◌, ◌≡◌, refl, ◌∙◌, arith, inl, inr, ◌⊎◌, not, ◌||◌, List, ltb, ◌==◌,
  Bool-cases,
}
use webanalyticsdb.Core.Status.{Status, Result, ok, err, corrupt}
use webanalyticsdb.Core.Bytes.{get_u16, get_u32, read}
use webanalyticsdb.Format.Frame.{Frame}
use webanalyticsdb.Dictionary.{Dictionary, intern, resolve, rollback}
use webanalyticsdb.Dictionary.Invariant.{IsDictionary}
use webanalyticsdb.Dictionary.Interning.{intern-IsDictionary}
use webanalyticsdb.Dictionary.Resolving.{Extends, Extends-refl, intern-Extends}
use webanalyticsdb.Dictionary.Rollback.{rollback-IsDictionary, rollback-Extends}
use webanalyticsdb.Dictionary.Transfer.{
  Step, as_corrupt, apply_interned, bad_carried, apply_one, apply_all, bad_tail, apply_end, apply,
}

Extends-trans : {a b c : Dictionary} → Extends a b → Extends b c → Extends a c
Extends-trans p q = record {
  schema_kept = q.schema_kept ∙ p.schema_kept;
  longer = omega (arith, p.longer, q.longer);
  kept = λ k lt. q.kept k (omega (arith, p.longer)) ∙ p.kept k lt;
}

-- so many symbols more, if the step did not fail
abbrev IsAdding : ℕ → Dictionary → Step → Type 0
IsAdding n d r = IsDictionary r.0 × Extends d r.0 × ((o : ℕ) → r.1 ≡ ok o → r.0.count ≡ d.count + n)

IsAdding-failed : {d : Dictionary} (n : ℕ) (s : Status) → IsDictionary d → IsAdding n d (d, err s)
IsAdding-failed {d} n s h = (h, Extends-refl d, λ o e. cc)

apply_interned-IsAdding :
    {d : Dictionary} (field : ℕ) (content : List ℕ) (id next : ℕ) (r : Result (ℕ × Dictionary))
    → IsDictionary d
    → intern d field content ≡ r
    → IsAdding 1 d (apply_interned d id next r)
unfolding apply_interned
apply_interned-IsAdding field content id next (err s) h e = IsAdding-failed 1 (as_corrupt s) h
apply_interned-IsAdding {d} field content id next (ok (assigned, d')) h e =
    let now = intern-IsDictionary h field content assigned d' e in
    let more = intern-Extends h field content assigned d' e in
    elim (Bool-cases (not (assigned == id) || not (d'.count == d.count + 1))) [
      | inl bad ↦ rw bad (now, more, λ o z. cc)
      | inr good ↦ rw good (now, more, λ o z. ground arith)
    ]

apply_one-IsAdding :
    {d : Dictionary} (f : Frame) (offset : ℕ) → IsDictionary d → IsAdding 1 d (apply_one d f offset)
unfolding apply_one
apply_one-IsAdding {d} f offset h =
    let size = get_u32 f.dictionary (offset + 8) in
    let field = get_u16 f.dictionary offset in
    let content = read f.dictionary (offset + 12) size in
    elim (Bool-cases (ltb f.dictionary_bytes offset || ltb (f.dictionary_bytes - offset) 12)) [
      | inl short ↦ rw short (IsAdding-failed 1 corrupt h)
      | inr room ↦ elim (Bool-cases (bad_carried d f offset)) [
        | inl bad ↦ rw room (rw bad (IsAdding-failed 1 corrupt h))
        | inr good ↦ rw room (
            rw good (
              apply_interned-IsAdding field content (get_u32 f.dictionary (offset + 4))
                (offset + (12 + size)) _ h refl))
      ]
    ]

IsAdding-rest :
    {d : Dictionary} (n : ℕ) (f : Frame) (r : Step)
    → ((d' : Dictionary) (o : ℕ) → IsDictionary d' → IsAdding n d' (apply_all n d' f o))
    → IsAdding 1 d r
    → IsAdding (suc n) d (elim r.1 [ err s ↦ (r.0, err s) | ok next ↦ apply_all n r.0 f next ])
IsAdding-rest n f (d', err s) others (now, more, count) = (now, more, λ o z. cc)
IsAdding-rest n f (d', ok next) others (now, more, count) =
    let (h', rest, more_count) = others d' next now in
    (h', Extends-trans more rest, λ o z. omega (arith, count next refl, more_count o z))

apply_all-IsAdding :
    (n : ℕ) (d : Dictionary) (f : Frame) (offset : ℕ)
    → IsDictionary d
    → IsAdding n d (apply_all n d f offset)
unfolding apply_all
apply_all-IsAdding zero d f offset h = (h, Extends-refl d, λ o e. omega arith)
apply_all-IsAdding (suc n) d f offset h =
    IsAdding-rest n f (apply_one d f offset) (λ d' o h'. apply_all-IsAdding n d' f o h')
      (apply_one-IsAdding f offset h)

-- the dictionary took all the definitions, or is as it was
IsApplied : Dictionary → ℕ → Dictionary × Result (Unit {0}) → Type 0
IsApplied d n r =
    IsDictionary r.0
    × (((r.1 ≡ ok tt) × Extends d r.0 × (r.0.count ≡ d.count + n))
        ⊎ ((s : Status) × (r.1 ≡ err s)
            × ((field id : ℕ) → resolve r.0 field id ≡ resolve d field id)))

IsApplied-rolled :
    {d d' : Dictionary} (n : ℕ) (s : Status)
    → IsDictionary d
    → IsDictionary d'
    → Extends d d'
    → IsApplied d n (rollback d' d.count, err s)
unfolding IsApplied
IsApplied-rolled {d} n s h h' more =
    (rollback-IsDictionary h' d.count, inr (s, refl, rollback-Extends h h' more))

IsApplied-done :
    {d d' : Dictionary} (n : ℕ)
    → IsDictionary d'
    → Extends d d'
    → d'.count ≡ d.count + n
    → IsApplied d n (d', ok tt)
unfolding IsApplied
IsApplied-done n now more e = (now, inl (refl, more, e))

apply_end-IsApplied :
    {d : Dictionary} (f : Frame) (n : ℕ) (r : Step)
    → IsDictionary d
    → IsAdding n d r
    → IsApplied d n (apply_end f d.count r)
unfolding apply_end
apply_end-IsApplied f n (d', err s) h (now, more, count) = IsApplied-rolled n s h now more
apply_end-IsApplied f n (d', ok o) h (now, more, count) = elim (Bool-cases (bad_tail f o)) [
  | inl bad ↦ rw bad (IsApplied-rolled n corrupt h now more)
  | inr good ↦ rw good (IsApplied-done n now more (count o refl))
]

-- Applying a frame gives a dictionary. It succeeds and has as many symbols more as the frame has
-- definitions, the older ones as they were; or it fails, and every id resolves as before.
pub apply_lem :
    (d : Dictionary) (f : Frame)
    → IsDictionary d
    → IsDictionary (apply d f).0
      × ((((apply d f).1 ≡ ok tt)
            × Extends d (apply d f).0
            × ((apply d f).0.count ≡ d.count + f.dictionary_count))
          ⊎ ((s : Status) × ((apply d f).1 ≡ err s)
              × ((field id : ℕ) → resolve (apply d f).0 field id ≡ resolve d field id)))
unfolding apply IsApplied
apply_lem d f h =
    apply_end-IsApplied f f.dictionary_count _ h (apply_all-IsAdding f.dictionary_count d f 0 h)
