-- ===== src/Query/Groups.antt =====
-- query/query.c: `group_for`, which finds the group of a row by the hash of its keys, or makes it.
-- The bits of a double, and its zero, are a parameter.
pub mod Keys
pub mod Found
pub mod Making
pub mod Finding
use webanalyticsdb.Prelude.{
  ℕ, zero, suc, ◌+◌, ◌-◌, ◌*◌, ◌^◌, Bool, true, false, not, ◌||◌, ◌&&◌, List, [], ◌∷◌, ◌++◌, ltb,
  ◌==◌, if◌then◌else◌, length, map,
}
use webanalyticsdb.Prelude.Int.{ℤ, pos}
use webanalyticsdb.Core.Status.{Result, ok, err, limit, indeterminate, reject, ◌>>=◌, ◌>>◌}
use webanalyticsdb.Core.Bytes.{le_bytes, from_i64}
use webanalyticsdb.Core.Checksum.{hash, fnv_basis}
use webanalyticsdb.Core.Types.{FieldType, type_bytes, type_signed, type_float}
use webanalyticsdb.Slots.{store, Walk, found, vacant, spun, probe, place_entry, rehash}
use webanalyticsdb.Query.Values.{FloatOps, Value, Cmp, less, equal, greater, value_compare}
use webanalyticsdb.Query.Aggregates.{Aggregate, fresh}
use webanalyticsdb.Query.Execution.{
  Reduction, ResultColumn, QueryPlan, Group, Execution, sizeof_group, sizeof_slot, allocate,
  copy_values,
}

-- 0.0, the test `value == 0`, and the bits of a double
pub record KeyBits (F : Type 0) : Type 0 where
  pub zero : F
  pub is_zero : F → Bool
  pub bits : F → ℕ

unfoldable pub is_equal : Cmp → Bool
is_equal equal = true
is_equal _ = false

-- A key goes into the hash as its null flag, its bits, and its bytes where it has some.
unfoldable pub hash_bits : Bool → Bool → ℕ → List ℕ → ℕ → ℕ
hash_bits true is_bytes bits p h = hash (1 ∷ []) h
hash_bits false true bits p h = hash p (hash (0 ∷ le_bytes 8 bits) h)
hash_bits false false bits p h = hash (0 ∷ le_bytes 8 bits) h

unfoldable pub more_slots : ℕ → ℕ
more_slots count = if count == 0 then 32 else count * 2

module _ {F : Type 0} where
  unfoldable pub group_hashes : (ℕ → Group F) → ℕ → ℕ
  group_hashes groups k = (groups k).hash

  -- Room for one group more: the capacity and what is used then.
  unfoldable pub group_room : QueryPlan F → Execution F → Result (ℕ × ℕ)
  unfolding allocate
  group_room p x =
      let doubled = if x.group_capacity == 0 then 16 else x.group_capacity * 2 in
      let cap = if ltb p.max_groups doubled then p.max_groups else doubled in
      if x.group_count == x.group_capacity
      then (allocate p x.used ((cap - x.group_capacity) * sizeof_group) >>= λ used. ok (cap, used))
      else ok (x.group_capacity, x.used)

  -- The old slots are given back once the new ones are there.
  unfoldable pub slot_room : QueryPlan F → Execution F → ℕ → Result ((ℕ → ℕ) × ℕ × ℕ)
  unfolding more_slots rehash group_hashes
  slot_room p x used =
      if ltb x.slot_count ((x.group_count + 1) * 2)
      then (allocate p used (more_slots x.slot_count * sizeof_slot) >>= λ used'. ok (
        rehash (group_hashes x.groups) (more_slots x.slot_count) x.group_count,
        more_slots x.slot_count,
        used' - x.slot_count * sizeof_slot,
      ))
      else ok (x.slots, x.slot_count, used)

module _ (fl : FloatOps) (kb : KeyBits fl.F) where
  unfoldable pub key_bits : FieldType → Value fl.F → ℕ
  key_bits t v =
      if type_bytes t
      then length v.bytes
      else if type_float t
      then kb.bits (if kb.is_zero v.f64 then kb.zero else v.f64)
      else if type_signed t
      then from_i64 v.i64
      else v.u64

  unfoldable pub hash_key : FieldType → Value fl.F → ℕ → ℕ
  unfolding hash_bits
  hash_key t v h = hash_bits v.is_null (type_bytes t) (key_bits t v) v.bytes h

  unfoldable pub hash_from : List ResultColumn → List (Value fl.F) → ℕ → ℕ
  hash_from (c ∷ cs) (v ∷ vs) h = hash_from cs vs (hash_key c.type v h)
  hash_from _ _ h = h

  unfoldable pub hash_keys : QueryPlan fl.F → List (Value fl.F) → ℕ
  hash_keys p keys = hash_from p.columns keys fnv_basis

  -- All keys compare equal.
  unfoldable pub same_keys : List ResultColumn → List (Value fl.F) → List (Value fl.F) → Bool
  unfolding is_equal
  same_keys (c ∷ cs) (a ∷ ks) (b ∷ ls) =
      is_equal (value_compare fl c.type a b) && same_keys cs ks ls
  same_keys _ _ _ = true

  unfoldable pub same_group : QueryPlan fl.F → ℕ → List (Value fl.F) → Group fl.F → Bool
  same_group p key keys g = g.hash == key && same_keys p.columns g.keys keys

  unfoldable pub find_group : QueryPlan fl.F → Execution fl.F → ℕ → List (Value fl.F) → Walk
  unfolding same_group
  find_group p x key keys =
      if x.slot_count == 0
      then vacant 0
      else probe (λ k. same_group p key keys (x.groups k)) x.slots x.slot_count key

  unfoldable pub fresh_aggregates : List Reduction → List (Aggregate fl.F)
  fresh_aggregates [] = []
  fresh_aggregates (r ∷ rs) = fresh fl kb.zero r.op r.field ∷ fresh_aggregates rs

  unfoldable pub new_group : QueryPlan fl.F → ℕ → List (Value fl.F) → Group fl.F
  unfolding fresh_aggregates
  new_group p key keys = record {
    hash = key;
    keys = keys;
    aggregates = fresh_aggregates p.aggregates;
  }

  unfoldable pub add_group :
      QueryPlan fl.F → Execution fl.F → ℕ → List (Value fl.F) → ℕ → (ℕ → ℕ) → ℕ → ℕ → Execution fl.F
  unfolding new_group store place_entry
  add_group p x key keys capacity slots slot_count used = record x {
    groups = store x.groups x.group_count (new_group p key keys);
    slots = place_entry slots slot_count key x.group_count;
    group_count = suc x.group_count;
    group_capacity = capacity;
    slot_count = slot_count;
    used = used;
  }

  unfoldable pub make_group :
      QueryPlan fl.F → Execution fl.F → ℕ → List (Value fl.F) → Result (ℕ × Execution fl.F)
  make_group p x key keys = do
    reject (x.group_count == p.max_groups) limit
    (capacity, used) ← group_room p x
    (slots, slot_count, used) ← slot_room p x used
    used ← copy_values p p.columns keys used
    ok (x.group_count, add_group p x key keys capacity slots slot_count used)

  unfoldable pub group_found :
      QueryPlan fl.F → Execution fl.F → ℕ → List (Value fl.F) → Walk → Result (ℕ × Execution fl.F)
  unfolding make_group
  group_found p x key keys (found k) = ok (k, x)
  group_found p x key keys (vacant _) = make_group p x key keys
  group_found p x key keys spun = err indeterminate

  -- The number of the group, and the state that has it.
  unfoldable pub group_for :
      QueryPlan fl.F → Execution fl.F → List (Value fl.F) → Result (ℕ × Execution fl.F)
  unfolding hash_keys find_group group_found
  group_for p x keys =
      group_found p x (hash_keys p keys) keys (find_group p x (hash_keys p keys) keys)
