-- ===== src/Query/Rows/Members.antt =====
-- The rows of a group, and what they reduce to.
use mathlib.Core.List.{append-nil}
use webanalyticsdb.Prelude.{
  ℕ, suc, ◌+◌, ◌<◌, ◌≡◌, refl, sym, ap, subst, ◌∙◌, arith, true, false, List, [], ◌∷◌, ◌++◌, ◌==◌,
  length, Bool-cases, inl, inr, if◌then◌else◌, map, All, length-append,
}
use webanalyticsdb.Core.Status.{Result, ok, err, ok-eq-ok, >>=-ok}
use webanalyticsdb.Query.Values.{FloatOps, Value}
use webanalyticsdb.Query.Bucket.{bucket_floor}
use webanalyticsdb.Query.Filters.{matches}
use webanalyticsdb.Query.Aggregates.{Aggregate, reduce, reduce_rows}
use webanalyticsdb.Query.Execution.{QueryPlan, Execution}
use webanalyticsdb.Query.Groups.{KeyBits, same_keys, fresh_aggregates}
use webanalyticsdb.Query.Groups.Keys.{and-eq-true}
use webanalyticsdb.Query.Rows.{Row, row_keys, bucket_keys}
use webanalyticsdb.Query.Rows.Grouping.{
  has_keys, is_member, members, Covered, members_append, reduce_rows_last,
}

-- the keys of a plan are its bucket and its grouping fields
abbrev pub IsKeyed : {F : Type 0} → QueryPlan F → Type 0
IsKeyed p = p.key_count ≡ (if p.bucket_width_us == 0 then 0 else 1) + length p.groups

length-map : {A B : Type 0} (f : A → B) (xs : List A) → length (map f xs) ≡ length xs
length-map f [] = refl
length-map f (x ∷ xs) = ap suc (length-map f xs)

module _ (fl : FloatOps) (kb : KeyBits fl.F) (p : QueryPlan fl.F) where
  pub bucket_keys_size :
      (row : Row fl kb) (b : List (Value fl.F))
      → bucket_keys fl kb p row ≡ ok b
      → length b ≡ (if p.bucket_width_us == 0 then 0 else 1)
  unfolding bucket_keys
  bucket_keys_size row b e = elim (Bool-cases (p.bucket_width_us == 0)) [
    | inl none ↦ rw none (ap length (sym (ok-eq-ok [] b (rw none at e))))
    | inr some ↦
        let q = rw some at e in
        let (t, one, rest) =
          >>=-ok (bucket_floor (row 0).i64 p.bucket_width_us p.bucket_origin_us) _ q in
        rw some (ap length (sym (ok-eq-ok _ b rest)))
  ]

  pub row_keys_size :
      (row : Row fl kb) (ks : List (Value fl.F))
      → IsKeyed p
      → row_keys fl kb p row ≡ ok ks
      → length ks ≡ p.key_count
  unfolding row_keys
  row_keys_size row ks keyed e =
      let (b, one, rest) = >>=-ok (bucket_keys fl kb p row) _ e in
      omega (
        arith,
        keyed,
        bucket_keys_size row b one,
        ap length (ok-eq-ok _ ks rest),
        length-append b (map row p.groups),
        length-map row p.groups,
      )

  has_keys-true :
      (keys : List (Value fl.F)) (r : Result (List (Value fl.F)))
      → has_keys fl kb p keys r ≡ true
      → (ks : List (Value fl.F)) × (r ≡ ok ks) × (same_keys fl kb p.columns keys ks ≡ true)
  unfolding has_keys
  has_keys-true keys (ok ks) e = (ks, refl, e)
  has_keys-true keys (err s) e = cc

  pub member_keys :
      (keys : List (Value fl.F)) (row : Row fl kb)
      → is_member fl kb p keys row ≡ true
      → (ks : List (Value fl.F)) × (matches fl p.types p.filters row ≡ true)
        × (row_keys fl kb p row ≡ ok ks)
        × (same_keys fl kb p.columns keys ks ≡ true)
  unfolding is_member
  member_keys keys row e =
      let (m, has) =
        and-eq-true (matches fl p.types p.filters row)
          (has_keys fl kb p keys (row_keys fl kb p row)) e in
      let (ks, q, same) = has_keys-true keys (row_keys fl kb p row) has in (ks, m, q, same)

  -- the groups are as they were, or there is one more, which has no rows
  pub Covered-more :
      (x y : Execution fl.F)
      → ((j : ℕ)
          → j < x.group_count
          → (j < y.group_count) × ((y.groups j).keys ≡ (x.groups j).keys))
      → (rows : List (Row fl kb)) → All (Covered fl kb p x) rows
      → All (Covered fl kb p y) rows
  Covered-more x y more [] cover = tt
  Covered-more x y more (row ∷ rows) (covered, cover) = (
    λ ks m e.
        (let (j, lt, of) = covered ks m e in
          let (lt', same) = more j lt in
          (j, lt', subst (λ a. same_keys fl kb p.columns a ks ≡ true) (sym same) of)),
    Covered-more x y more rows cover,
  )

  -- a row that is no member adds nothing, and a member comes last
  pub members_skip :
      (keys : List (Value fl.F)) (rows : List (Row fl kb)) (row : Row fl kb)
      → is_member fl kb p keys row ≡ false
      → members fl kb p keys (rows ++ (row ∷ [])) ≡ members fl kb p keys rows
  unfolding members
  members_skip keys rows row other =
      members_append fl kb p keys rows row ∙ rw other (append-nil (members fl kb p keys rows))

  pub members_take :
      (keys : List (Value fl.F)) (rows : List (Row fl kb)) (row : Row fl kb)
      → is_member fl kb p keys row ≡ true
      → members fl kb p keys (rows ++ (row ∷ [])) ≡ members fl kb p keys rows ++ (row ∷ [])
  unfolding members
  members_take keys rows row taken = members_append fl kb p keys rows row ∙ rw taken refl

  pub is_member-false :
      (keys : List (Value fl.F)) (row : Row fl kb)
      → matches fl p.types p.filters row ≡ false
      → is_member fl kb p keys row ≡ false
  unfolding is_member
  is_member-false keys row other = rw other refl

  pub is_member-true :
      (keys ks : List (Value fl.F)) (row : Row fl kb)
      → matches fl p.types p.filters row ≡ true
      → row_keys fl kb p row ≡ ok ks
      → same_keys fl kb p.columns keys ks ≡ true
      → is_member fl kb p keys row ≡ true
  unfolding is_member has_keys
  is_member-true keys ks row m e same = rw m (rw e same)

  pub All_append :
      (P : Row fl kb → Type 0) (rows : List (Row fl kb)) (row : Row fl kb)
      → All P rows
      → P row
      → All P (rows ++ (row ∷ []))
  All_append P [] row all one = (one, tt)
  All_append P (r ∷ rows) row (here, all) one = (here, All_append P rows row all one)

  -- what the aggregates of a group are
  abbrev pub Reduces : List (Value fl.F) → List (Row fl kb) → List (Aggregate fl.F) → Type 0
  Reduces keys rows aggregates =
      reduce_rows fl p.types (members fl kb p keys rows) (fresh_aggregates fl kb p.aggregates)
      ≡ ok aggregates

  pub Reduces-skip :
      (keys : List (Value fl.F)) (rows : List (Row fl kb)) (row : Row fl kb)
      (aggregates : List (Aggregate fl.F))
      → is_member fl kb p keys row ≡ false
      → Reduces keys rows aggregates
      → Reduces keys (rows ++ (row ∷ [])) aggregates
  Reduces-skip keys rows row aggregates other h =
      ap (λ rs. reduce_rows fl p.types rs (fresh_aggregates fl kb p.aggregates))
        (members_skip keys rows row other)
      ∙ h

  pub Reduces-take :
      (keys : List (Value fl.F)) (rows : List (Row fl kb)) (row : Row fl kb)
      (a b : List (Aggregate fl.F))
      → is_member fl kb p keys row ≡ true
      → Reduces keys rows a
      → reduce fl p.types row a ≡ ok b
      → Reduces keys (rows ++ (row ∷ [])) b
  Reduces-take keys rows row a b taken h r =
      ap (λ rs. reduce_rows fl p.types rs (fresh_aggregates fl kb p.aggregates))
        (members_take keys rows row taken)
      ∙ reduce_rows_last fl p.types (members fl kb p keys rows) row
          (fresh_aggregates fl kb p.aggregates) a b h r
