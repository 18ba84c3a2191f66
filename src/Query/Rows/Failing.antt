-- ===== src/Query/Rows/Failing.antt =====
-- The rows of a query with aggregates fail only with LIMIT or NOMEM, and its search for a group ends.
use webanalyticsdb.Prelude.{
  ℕ, ◌+◌, ◌-◌, ◌*◌, ◌^◌, ◌≡◌, refl, Bool, true, false, not, ◌&&◌, List, [], ◌∷◌, ◌++◌, ltb, ◌==◌,
  length, inl, inr, ◌⊎◌, if◌then◌else◌, else_taken,
}
use webanalyticsdb.Core.Status.{Status, Result, ok, err, limit, nomem, reject, ◌>>=◌, ◌>>◌}
use webanalyticsdb.Core.Types.{FieldType, type_float, type_signed, type_bytes}
use webanalyticsdb.Query.Values.{FloatOps, Value, value_compare}
use webanalyticsdb.Query.Values.Order.{IsOrder}
use webanalyticsdb.Query.Bucket.{bucket_floor}
use webanalyticsdb.Query.Filters.{matches}
use webanalyticsdb.Query.Aggregates.{
  takes_min, not_null, AggregateOp, count_all, count, sum, min, max, avg, Aggregate, add_value,
  reduce_value, reduce_one, reduce,
}
use webanalyticsdb.Query.Execution.{
  ResultColumn, QueryPlan, Execution, is_scan, charge, allocate, copy_value, copy_values,
}
use webanalyticsdb.Query.Groups.{
  KeyBits, hash_keys, group_room, slot_room, make_group, group_found, group_for, same_keys,
}
use webanalyticsdb.Query.Groups.Keys.{IsCanonical}
use webanalyticsdb.Query.Groups.Found.{IsGrouped, find_group_of, find_group_new}
use webanalyticsdb.Query.Groups.Finding.{some_below}
use webanalyticsdb.Query.Rows.{
  Row, bucket_keys, row_keys, consume_group, count_match, consume, consume_all,
}
use webanalyticsdb.Query.Rows.Members.{IsKeyed, row_keys_size}
use webanalyticsdb.Query.Rows.Consuming.{IsReduced-counted, IsConsumed, consume-IsConsumed}

-- Fails for want of room, if it fails: with LIMIT or with NOMEM.
abbrev pub IsExhausted : {A : Type 0} → Result A → Type 0
IsExhausted m = (s : Status) → m ≡ err s → (s ≡ limit) ⊎ (s ≡ nomem)

IsExhausted-ok : {A : Type 0} (a : A) → IsExhausted (ok a)
IsExhausted-ok a s e = absurd (cc)

IsExhausted-err : {A : Type 0} → IsExhausted {A = A} (err limit)
IsExhausted-err s e = inl (cc)

IsExhausted-bind :
    {A B : Type 0} (m : Result A) (k : A → Result B)
    → IsExhausted m
    → ((a : A) → m ≡ ok a → IsExhausted (k a))
    → IsExhausted (m >>= k)
IsExhausted-bind (ok a) k h rest s e = rest a refl s e
IsExhausted-bind (err t) k h rest s e = h s (let z = e in cc)

IsExhausted-if :
    {A : Type 0} (b : Bool) (m n : Result A)
    → IsExhausted m
    → IsExhausted n
    → IsExhausted (if b then m else n)
IsExhausted-if true m n h k = h
IsExhausted-if false m n h k = k

IsExhausted-reject :
    {A : Type 0} (b : Bool) (m : Result A) → IsExhausted m → IsExhausted (reject b limit >> m)
unfolding reject
IsExhausted-reject true m h s e = inl (cc)
IsExhausted-reject false m h s e = h s e

IsExhausted-allocated : (b : Bool) (used : ℕ) → IsExhausted (reject b nomem >> ok used)
unfolding reject
IsExhausted-allocated true used s e = inr (cc)
IsExhausted-allocated false used s e = absurd (cc)

module _ {F : Type 0} (p : QueryPlan F) where
  allocate-IsExhausted : (used n : ℕ) → IsExhausted (allocate p used n)
  unfolding allocate charge
  allocate-IsExhausted used n =
      IsExhausted-bind (charge p used n) _
        (IsExhausted-if _ _ _ IsExhausted-err (IsExhausted-ok (used + n)))
        (λ u e. IsExhausted-allocated (not (p.allocates used n)) u)

  copy_values-IsExhausted :
      (cs : List ResultColumn) (vs : List (Value F)) (used : ℕ)
      → IsExhausted (copy_values p cs vs used)
  unfolding copy_values copy_value
  copy_values-IsExhausted [] vs used = IsExhausted-ok used
  copy_values-IsExhausted (c ∷ cs) [] used = IsExhausted-ok used
  copy_values-IsExhausted (c ∷ cs) (v ∷ vs) used =
      IsExhausted-bind (copy_value p c.type v used) _
        (IsExhausted-if (not v.is_null && type_bytes c.type) _ _
          (allocate-IsExhausted used (length v.bytes + 1)) (IsExhausted-ok used))
        (λ used' e. copy_values-IsExhausted cs vs used')

  group_room-IsExhausted : (x : Execution F) → IsExhausted (group_room p x)
  unfolding group_room
  group_room-IsExhausted x =
      IsExhausted-if (x.group_count == x.group_capacity) _ _
        (IsExhausted-bind (allocate p x.used _) _ (allocate-IsExhausted x.used _)
          (λ u e. IsExhausted-ok _))
        (IsExhausted-ok _)

  slot_room-IsExhausted : (x : Execution F) (used : ℕ) → IsExhausted (slot_room p x used)
  unfolding slot_room
  slot_room-IsExhausted x used =
      IsExhausted-if (ltb x.slot_count ((x.group_count + 1) * 2)) _ _
        (IsExhausted-bind (allocate p used _) _ (allocate-IsExhausted used _)
          (λ u e. IsExhausted-ok _))
        (IsExhausted-ok _)

module _ (fl : FloatOps) where
  add_value-IsExhausted : (t : FieldType) (v out : Value fl.F) → IsExhausted (add_value fl t v out)
  unfolding add_value
  add_value-IsExhausted t v out =
      IsExhausted-if (type_float t) _ _ (IsExhausted-if _ _ _ (IsExhausted-ok _) IsExhausted-err) (
        IsExhausted-if (type_signed t) _ _ (IsExhausted-if _ _ _ IsExhausted-err (IsExhausted-ok _))
          (IsExhausted-if _ _ _ IsExhausted-err (IsExhausted-ok _)))

  reduce_value-IsExhausted :
      (op : AggregateOp) (t : FieldType) (n : ℕ) (v out : Value fl.F)
      → IsExhausted (reduce_value fl op t n v out)
  unfolding reduce_value
  reduce_value-IsExhausted count_all t n v out = IsExhausted-ok _
  reduce_value-IsExhausted count t n v out = IsExhausted-ok _
  reduce_value-IsExhausted avg t n v out = IsExhausted-if _ _ _ (IsExhausted-ok _) IsExhausted-err
  reduce_value-IsExhausted sum t n v out = IsExhausted-if (n == 1) _ _ (IsExhausted-ok _) (
      IsExhausted-bind (add_value fl t v out) _ (add_value-IsExhausted t v out)
        (λ r e. IsExhausted-ok _))
  reduce_value-IsExhausted min t n v out =
      IsExhausted-if (n == 1) (ok (not_null fl v)) _ (IsExhausted-ok (not_null fl v)) (
        IsExhausted-if (takes_min min (value_compare fl t v out)) (ok (not_null fl v))
          (ok (not_null fl out)) (IsExhausted-ok (not_null fl v))
          (IsExhausted-ok (not_null fl out)))
  reduce_value-IsExhausted max t n v out =
      IsExhausted-if (n == 1) (ok (not_null fl v)) _ (IsExhausted-ok (not_null fl v)) (
        IsExhausted-if (takes_min max (value_compare fl t v out)) (ok (not_null fl v))
          (ok (not_null fl out)) (IsExhausted-ok (not_null fl v))
          (IsExhausted-ok (not_null fl out)))

  reduce-IsExhausted :
      (types : ℕ → FieldType) (values : ℕ → Value fl.F) (group : List (Aggregate fl.F))
      → IsExhausted (reduce fl types values group)
  unfolding reduce reduce_one
  reduce-IsExhausted types values [] = IsExhausted-ok []
  reduce-IsExhausted types values (a ∷ rest) =
      IsExhausted-bind (reduce_one fl (types a.field) (values a.field) a) _
        (IsExhausted-if _ _ _ (IsExhausted-ok a) (
          IsExhausted-if _ _ _ IsExhausted-err (
            IsExhausted-bind
              (reduce_value fl a.op (types a.field) (a.nonnull + 1) (values a.field) a.out) _
              (reduce_value-IsExhausted a.op (types a.field) (a.nonnull + 1) (values a.field) a.out)
              (λ r e. IsExhausted-ok _))))
        (λ a' e.
          IsExhausted-bind (reduce fl types values rest) _ (reduce-IsExhausted types values rest)
            (λ r q. IsExhausted-ok _))

  row_keys-IsExhausted :
      (kb : KeyBits fl.F) (p : QueryPlan fl.F) (row : Row fl kb)
      → IsExhausted (row_keys fl kb p row)
  unfolding row_keys bucket_keys bucket_floor
  row_keys-IsExhausted kb p row =
      IsExhausted-bind (bucket_keys fl kb p row) _
        (IsExhausted-if (p.bucket_width_us == 0) _ _ (IsExhausted-ok []) (
          IsExhausted-bind (bucket_floor (row 0).i64 p.bucket_width_us p.bucket_origin_us) _
            (IsExhausted-if _ _ _ IsExhausted-err (IsExhausted-ok _)) (λ b e. IsExhausted-ok _)))
        (λ b e. IsExhausted-ok _)

module _ {fl : FloatOps} {kb : KeyBits fl.F} (order : IsOrder fl) (canon : IsCanonical fl kb)
    (p : QueryPlan fl.F) where
  make_group-IsExhausted :
      (x : Execution fl.F) (key : ℕ) (keys : List (Value fl.F))
      → IsExhausted (make_group fl kb p x key keys)
  unfolding make_group
  make_group-IsExhausted x key keys = IsExhausted-reject (x.group_count == p.max_groups) _ (
      IsExhausted-bind (group_room p x) _ (group_room-IsExhausted p x) (λ r e.
        IsExhausted-bind (slot_room p x r.1) _ (slot_room-IsExhausted p x r.1) (λ t q.
          IsExhausted-bind (copy_values p p.columns keys t.2) _
            (copy_values-IsExhausted p p.columns keys t.2) (λ u w. IsExhausted-ok _))))

  -- The search for a group comes to an end: INDETERMINATE does not occur.
  group_for-IsExhausted :
      (x : Execution fl.F) (keys : List (Value fl.F))
      → IsGrouped fl kb p x
      → length keys ≡ p.key_count
      → IsExhausted (group_for fl kb p x keys)
  unfolding group_for group_found
  group_for-IsExhausted x keys h size =
      elim (some_below (λ j. same_keys fl kb p.columns (x.groups j).keys keys) x.group_count) [
        | inl (j, lt, same) ↦
            rw (find_group_of order canon h keys size j (lt, same)) (IsExhausted-ok (j, x))
        | inr fresh ↦
            let (i, at) = find_group_new order canon h keys size fresh in
            rw at (make_group-IsExhausted x (hash_keys fl kb p keys) keys)
      ]

  module _ (keyed : IsKeyed p) (grouping : is_scan p ≡ false) where
    consume_group-IsExhausted :
        (x : Execution fl.F) (row : Row fl kb)
        → IsGrouped fl kb p x
        → IsExhausted (consume_group fl kb p x row)
    unfolding consume_group
    consume_group-IsExhausted x row h =
        IsExhausted-bind (row_keys fl kb p row) _ (row_keys-IsExhausted fl kb p row) (λ keys e.
          IsExhausted-bind (group_for fl kb p x keys) _
            (group_for-IsExhausted x keys h (row_keys_size fl kb p row keys keyed e))
            (λ r q.
              IsExhausted-bind (reduce fl p.types row (r.1.groups r.0).aggregates) _
                (reduce-IsExhausted fl p.types row (r.1.groups r.0).aggregates)
                (λ a w. IsExhausted-ok _)))

    consume-IsExhausted :
        (x : Execution fl.F) (rows : List (Row fl kb)) (sequence : ℕ) (row : Row fl kb)
        → IsConsumed fl kb p x rows
        → IsExhausted (consume fl kb p x sequence row)
    unfolding consume
    consume-IsExhausted x rows sequence row h =
        IsExhausted-if (not (matches fl p.types p.filters row)) _ _ (IsExhausted-ok _) (
          IsExhausted-if (x.matched_rows == 2 ^ 64 - 1) _ _ IsExhausted-err (
            rw grouping (
              consume_group-IsExhausted (count_match x sequence) row
                (IsReduced-counted fl kb p x rows sequence (x.matched_rows + 1) h.groups).grouped)))

    -- From a state whose groups are those of some rows, a query with aggregates that fails to consume
    -- more rows fails with LIMIT or NOMEM. The order of double is linear, doubles that are equal have the same
    -- bits once a zero is made positive, and the number of keys is that of the key columns of the plan.
    pub consume_all-IsExhausted :
        (x : Execution fl.F) (before : List (Row fl kb)) (rows : List (ℕ × Row fl kb)) (s : Status)
        → IsConsumed fl kb p x before
        → consume_all fl kb p x rows ≡ err s
        → (s ≡ limit) ⊎ (s ≡ nomem)
    unfolding consume_all
    consume_all-IsExhausted x before [] s h e = absurd (cc)
    consume_all-IsExhausted x before ((sequence, row) ∷ rows) s h e =
        IsExhausted-bind (consume fl kb p x sequence row) _
          (consume-IsExhausted x before sequence row h)
          (λ y one t q.
            (let now =
                consume-IsConsumed order canon p keyed grouping x before sequence row y h one in
              consume_all-IsExhausted y (before ++ (row ∷ [])) rows t now
                (else_taken y.stopped (ok y) (consume_all fl kb p y rows) now.going q)))
          s e
