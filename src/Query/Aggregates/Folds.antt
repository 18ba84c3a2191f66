-- ===== src/Query/Aggregates/Folds.antt =====
-- The aggregates of a group do not act on each other: each is the result of its own column.
use webanalyticsdb.Prelude.{ℕ, ◌+◌, ◌≡◌, refl, ◌∙◌, sym, ap, List, [], ◌∷◌, arith, ◌⊎◌, inl, inr}
use webanalyticsdb.Core.Status.{Status, Result, ok, err, limit, ◌>>=◌}
use webanalyticsdb.Core.Types.{FieldType}
use webanalyticsdb.Query.Values.{FloatOps, Value}
use webanalyticsdb.Query.Aggregates.{
  Aggregate, AggregateOp, reduce_one, reduce, reduce_rows, reduce_value, add_value,
}

-- The values of one column, one after the other, into one aggregate.
unfoldable pub reduce_column :
    (fl : FloatOps) → FieldType → List (Value fl.F) → Aggregate fl.F → Result (Aggregate fl.F)
reduce_column fl t [] a = ok a
reduce_column fl t (v ∷ vs) a = reduce_one fl t v a >>= λ a'. reduce_column fl t vs a'

abbrev pub column : {V : Type 0} → ℕ → List (ℕ → V) → List V
column field [] = []
column field (row ∷ rows) = row field ∷ column field rows

abbrev pub columns :
    (fl : FloatOps)
    → (ℕ → FieldType)
    → List (ℕ → Value fl.F)
    → List (Aggregate fl.F)
    → Result (List (Aggregate fl.F))
columns fl types rows [] = ok []
columns fl types rows (a ∷ rest) =
    reduce_column fl (types a.field) (column a.field rows) a >>= λ a'.
    columns fl types rows rest >>= λ rest'. ok (a' ∷ rest')

-- The only error of a step is the overflow.
abbrev Limits : {A : Type 0} → Result A → Type 0
Limits m = (e : Status) → m ≡ err e → e ≡ limit

add_value-Limits :
    (fl : FloatOps) (t : FieldType) (v out : Value fl.F) → Limits (add_value fl t v out)
unfolding add_value
add_value-Limits fl t v out e h = ground arith

reduce_value-Limits :
    (fl : FloatOps) (op : AggregateOp) (t : FieldType) (n : ℕ) (v out : Value fl.F)
    → Limits (reduce_value fl op t n v out)
unfolding reduce_value
reduce_value-Limits fl op t n v out e h = ground (arith, add_value-Limits fl t v out e)

reduce_one-Limits :
    (fl : FloatOps) (t : FieldType) (v : Value fl.F) (a : Aggregate fl.F)
    → Limits (reduce_one fl t v a)
unfolding reduce_one
reduce_one-Limits fl t v a e h =
    ground (arith, reduce_value-Limits fl a.op t (a.nonnull + 1) v a.out e)

pub reduce_one-field :
    (fl : FloatOps) (t : FieldType) (v : Value fl.F) (a a' : Aggregate fl.F)
    → reduce_one fl t v a ≡ ok a'
    → (a'.field ≡ a.field) × (a'.op ≡ a.op)
unfolding reduce_one
reduce_one-field fl t v a a' h = ground arith

>>=-Limits :
    {A B : Type 0} (m : Result A) (f : A → Result B)
    → Limits m
    → ((a : A) → Limits (f a))
    → Limits (m >>= f)
>>=-Limits (ok a) f h k e q = k a e q
>>=-Limits (err x) f h k e q = h e cc

reduce-Limits :
    (fl : FloatOps) (types : ℕ → FieldType) (row : ℕ → Value fl.F) (group : List (Aggregate fl.F))
    → Limits (reduce fl types row group)
unfolding reduce
reduce-Limits fl types row [] e h = cc
reduce-Limits fl types row (a ∷ rest) e h =
    >>=-Limits (reduce_one fl (types a.field) (row a.field) a) _
      (reduce_one-Limits fl (types a.field) (row a.field) a)
      (λ a'.
        >>=-Limits (reduce fl types row rest) _ (reduce-Limits fl types row rest) (λ rest' e h. cc))
      e h

reduce_column-Limits :
    (fl : FloatOps) (t : FieldType) (vs : List (Value fl.F)) (a : Aggregate fl.F)
    → Limits (reduce_column fl t vs a)
unfolding reduce_column
reduce_column-Limits fl t [] a e h = cc
reduce_column-Limits fl t (v ∷ vs) a e h =
    >>=-Limits (reduce_one fl t v a) _ (reduce_one-Limits fl t v a)
      (λ a'. reduce_column-Limits fl t vs a') e h

Result-cases : {A : Type 0} (m : Result A) → ((a : A) × (m ≡ ok a)) ⊎ ((e : Status) × (m ≡ err e))
Result-cases (ok a) = inl (a, refl)
Result-cases (err e) = inr (e, refl)

-- Two steps that fail in one way only may change their order.
swap :
    {A B C : Type 0} (m : Result A) (k : Result B) (f : A → B → Result C)
    → Limits m
    → Limits k
    → (m >>= λ a. k >>= λ b. f a b) ≡ (k >>= λ b. m >>= λ a. f a b)
swap (ok a) k f h g = refl
swap (err e) (ok b) f h g = refl
swap (err e) (err e') f h g = ap err (h e refl ∙ sym (g e' refl))

>>=-assoc :
    {A B C : Type 0} (m : Result A) (f : A → Result B) (g : B → Result C)
    → ((m >>= f) >>= g) ≡ (m >>= λ a. f a >>= g)
>>=-assoc (ok a) f g = refl
>>=-assoc (err e) f g = refl

>>=-cong :
    {A B : Type 0} (m : Result A) (f g : A → Result B)
    → ((a : A) → m ≡ ok a → f a ≡ g a)
    → (m >>= f) ≡ (m >>= g)
>>=-cong (ok a) f g h = h a refl
>>=-cong (err e) f g h = refl

columns-row :
    (fl : FloatOps) (types : ℕ → FieldType) (row : ℕ → Value fl.F) (rows : List (ℕ → Value fl.F))
    (group : List (Aggregate fl.F))
    → (reduce fl types row group >>= columns fl types rows) ≡ columns fl types (row ∷ rows) group
unfolding reduce reduce_column
columns-row fl types row rows [] = refl
columns-row fl types row rows (a ∷ rest) =
    elim (Result-cases (reduce_one fl (types a.field) (row a.field) a)) [
      | inr (e, q) ↦ rw q refl
      | inl (a', q) ↦
          rw
            (
              q,
              >>=-assoc (reduce fl types row rest) (λ rest'. ok (a' ∷ rest'))
                  (columns fl types rows),
            )
            (>>=-cong (reduce fl types row rest) _ _ (λ rest' z.
                ap
                  (λ f. reduce_column fl (types f) (column f rows) a' >>= λ a''.
                    columns fl types rows rest' >>= λ r. ok (a'' ∷ r))
                  (reduce_one-field fl (types a.field) (row a.field) a a' q).0)
              ∙ swap (reduce fl types row rest)
                  (reduce_column fl (types a.field) (column a.field rows) a')
                  (λ rest' a''. columns fl types rows rest' >>= λ r. ok (a'' ∷ r))
                  (reduce-Limits fl types row rest)
                  (reduce_column-Limits fl (types a.field) (column a.field rows) a')
              ∙ >>=-cong (reduce_column fl (types a.field) (column a.field rows) a') _ _ (λ a'' z.
                sym
                  (>>=-assoc (reduce fl types row rest) (columns fl types rows) (λ r. ok (a'' ∷ r)))
                ∙ ap (λ m. m >>= λ r. ok (a'' ∷ r)) (columns-row fl types row rows rest)))
    ]

columns-nil :
    (fl : FloatOps) (types : ℕ → FieldType) (group : List (Aggregate fl.F))
    → columns fl types [] group ≡ ok group
unfolding reduce_column
columns-nil fl types [] = refl
columns-nil fl types (a ∷ rest) = rw (columns-nil fl types rest) refl

-- The rows of a group, reduced row by row over all its aggregates, give what the columns give one by
-- one, an overflow included.
pub reduce_rows-columns :
    (fl : FloatOps) (types : ℕ → FieldType) (rows : List (ℕ → Value fl.F))
    (group : List (Aggregate fl.F))
    → reduce_rows fl types rows group ≡ columns fl types rows group
unfolding reduce_rows
reduce_rows-columns fl types [] group = sym (columns-nil fl types group)
reduce_rows-columns fl types (row ∷ rows) group =
    >>=-cong (reduce fl types row group) _ _ (λ g e. reduce_rows-columns fl types rows g)
    ∙ columns-row fl types row rows group
