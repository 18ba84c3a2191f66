-- ===== src/Query/Snapshots/Budget.antt =====
-- The budget of readers over any sequence of acquisitions and releases.
use webanalyticsdb.Prelude.{
  ℕ, ◌+◌, ◌-◌, ◌≤◌, ◌≡◌, refl, subst, Bool, true, false, ◌||◌, List, [], ◌∷◌, ◌++◌, arith, length,
  length-append, or-eq-false, ltb, leb,
}
use webanalyticsdb.Core.Status.{ok, backpressure, nomem, reject-eq-ok, ok-eq-ok}
use webanalyticsdb.Query.Snapshots.{Readers, ReaderLimits, admit, dismiss}

abbrev pub sum : List ℕ → ℕ
sum [] = 0
sum (n ∷ ns) = n + sum ns

-- All readers are of one table; `held` has the charges of the snapshots that are out, and a
-- reader releases each snapshot once, with the charge that it was given.
pub data Step (limits : ReaderLimits) : Readers → List ℕ → Readers → List ℕ → Type 0 where
  acquired :
      (charge : ℕ) (r r' : Readers) (held : List ℕ)
      → admit limits true charge r ≡ ok r'
      → Step limits r held r' (charge ∷ held)
  released :
      (charge : ℕ) (pending : Bool) (r : Readers) (before after : List ℕ)
      → Step limits r (before ++ (charge ∷ after)) (dismiss charge pending r).0 (before ++ after)

pub data Reachable (limits : ReaderLimits) : Readers → List ℕ → Type 0 where
  start : Reachable limits (record { reader_count = 0; snapshot_bytes = 0; table_readers = 0 }) []
  next :
      {r r' : Readers} {held held' : List ℕ}
      → Reachable limits r held
      → Step limits r held r' held'
      → Reachable limits r' held'

pub record IsAccounted (limits : ReaderLimits) (r : Readers) (held : List ℕ) : Type 0 where
  pub count : r.reader_count ≡ length held
  pub table : r.table_readers ≡ length held
  pub bytes : r.snapshot_bytes ≡ sum held
  pub few : r.reader_count ≤ limits.max_readers
  pub within : r.snapshot_bytes ≤ limits.snapshot_limit_bytes

sum-append : (xs ys : List ℕ) → sum (xs ++ ys) ≡ sum xs + sum ys
sum-append [] ys = omega arith
sum-append (x ∷ xs) ys = omega (arith, sum-append xs ys)

admit-IsAccounted :
    (limits : ReaderLimits) (charge : ℕ) (r r' : Readers) (held : List ℕ)
    → IsAccounted limits r held
    → admit limits true charge r ≡ ok r'
    → IsAccounted limits r' (charge ∷ held)
unfolding admit
admit-IsAccounted limits charge r r' held a h =
    let (bad, h) =
      reject-eq-ok
        (leb limits.max_readers r.reader_count
          || ltb (limits.snapshot_limit_bytes - r.snapshot_bytes) charge)
        backpressure _ h in
    let (room, budget) = or-eq-false (leb limits.max_readers r.reader_count) _ bad in
    let (memory, e) = reject-eq-ok false nomem _ h in
    subst (λ z. IsAccounted limits z (charge ∷ held)) (ok-eq-ok _ _ e)
      (record {
        count = omega (arith, a.count);
        table = omega (arith, a.table);
        bytes = omega (arith, a.bytes);
        few = ground arith;
        within = ground (arith, a.within);
      })

dismiss-IsAccounted :
    (limits : ReaderLimits) (charge : ℕ) (pending : Bool) (r : Readers) (before after : List ℕ)
    → IsAccounted limits r (before ++ (charge ∷ after))
    → IsAccounted limits (dismiss charge pending r).0 (before ++ after)
unfolding dismiss
dismiss-IsAccounted limits charge pending r before after a =
    let l = length-append before after in
    let l' = length-append before (charge ∷ after) in
    let s = sum-append before after in
    let s' = sum-append before (charge ∷ after) in
    record {
      count = omega (arith, a.count);
      table = omega (arith, a.table);
      bytes = omega (arith, a.bytes);
      few = omega (arith, a.few);
      within = omega (arith, a.within);
    }

Step-IsAccounted :
    (limits : ReaderLimits) {r r' : Readers} {held held' : List ℕ}
    → Step limits r held r' held'
    → IsAccounted limits r held
    → IsAccounted limits r' held'
Step-IsAccounted limits (acquired charge r r' held e) a =
    admit-IsAccounted limits charge r r' held a e
Step-IsAccounted limits (released charge pending r before after) a =
    dismiss-IsAccounted limits charge pending r before after a

-- Over any sequence of acquisitions and releases the counters are those of the snapshots that are
-- out: their number, for the database and for the table, and the sum of their charges; and neither
-- limit is passed.
pub Reachable-IsAccounted :
    (limits : ReaderLimits) {r : Readers} {held : List ℕ}
    → Reachable limits r held
    → IsAccounted limits r held
Reachable-IsAccounted limits start = record {
  count = refl;
  table = refl;
  bytes = refl;
  few = omega arith;
  within = omega arith;
}
Reachable-IsAccounted limits (next before step) =
    Step-IsAccounted limits step (Reachable-IsAccounted limits before)
