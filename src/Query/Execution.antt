-- ===== src/Query/Execution.antt =====
-- query/query.h and query/query.c: the plan of a query, the state of its execution, and the memory
-- that it is charged. Whether an allocation succeeds is a parameter, which the plan carries as every charge
-- reads the plan. On an error the query frees its state, so an error keeps none.
use webanalyticsdb.Prelude.{
  ℕ, ◌+◌, ◌-◌, ◌*◌, Bool, not, ◌&&◌, List, [], ◌∷◌, ◌++◌, ltb, ◌==◌, if◌then◌else◌, length, Option,
}
use webanalyticsdb.Prelude.Int.{ℤ}
use webanalyticsdb.Core.Status.{Result, ok, err, limit, nomem, reject, ◌>>=◌, ◌>>◌}
use webanalyticsdb.Core.Types.{FieldType, type_bytes}
use webanalyticsdb.Query.Values.{Value}
use webanalyticsdb.Query.Filters.{Predicate}
use webanalyticsdb.Query.Aggregates.{AggregateOp, Aggregate}

pub record Reduction : Type 0 where
  pub field : ℕ
  pub op : AggregateOp

pub record ResultColumn : Type 0 where
  pub name : List ℕ
  pub type : FieldType

-- `types` are the types of the table's fields, and `order` is none where the C member is -1. `allocates`
-- is no member in C: it says whether the allocation of n bytes succeeds that is charged on top of `used`.
pub record QueryPlan (F : Type 0) : Type 0 where
  pub types : ℕ → FieldType
  pub filters : List (Predicate F)
  pub projection : List ℕ
  pub groups : List ℕ
  pub aggregates : List Reduction
  pub columns : List ResultColumn
  pub key_count : ℕ
  pub allocated_bytes : ℕ
  pub order : Option ℕ
  pub bucket_width_us : ℕ
  pub bucket_origin_us : ℤ
  pub max_groups : ℕ
  pub memory_limit_bytes : ℕ
  pub limit : ℕ
  pub descending : Bool
  pub allocates : ℕ → ℕ → Bool

pub record Group (F : Type 0) : Type 0 where
  pub hash : ℕ
  pub keys : List (Value F)
  pub aggregates : List (Aggregate F)

-- `rows` are the rows of the result, `row_count` of them, with room for `capacity`.
pub record Execution (F : Type 0) : Type 0 where
  pub groups : ℕ → Group F
  pub slots : ℕ → ℕ
  pub group_count : ℕ
  pub group_capacity : ℕ
  pub slot_count : ℕ
  pub used : ℕ
  pub last_sequence : ℕ
  pub stopped : Bool
  pub matched_rows : ℕ
  pub rows : List (List (Value F))
  pub sequences : List ℕ
  pub capacity : ℕ

-- The sizes of the C types where pointers and size_t have 8 bytes.
abbrev pub sizeof_value : ℕ
sizeof_value = 24

abbrev pub sizeof_group : ℕ
sizeof_group = 736

abbrev pub sizeof_slot : ℕ
sizeof_slot = 4

abbrev pub sizeof_sequence : ℕ
sizeof_sequence = 8

module _ {F : Type 0} where
  -- What is used afterwards.
  unfoldable pub charge : QueryPlan F → ℕ → ℕ → Result ℕ
  charge p used n = if ltb (p.memory_limit_bytes - used) n then err limit else ok (used + n)

  -- What is charged is allocated next.
  unfoldable pub allocate : QueryPlan F → ℕ → ℕ → Result ℕ
  unfolding charge
  allocate p used n =
      charge p used n >>= λ used'. reject (not (p.allocates used n)) nomem >> ok used'

  -- The copy is the value; its bytes are charged.
  unfoldable pub copy_value : QueryPlan F → FieldType → Value F → ℕ → Result ℕ
  unfolding allocate
  copy_value p t v used =
      if not v.is_null && type_bytes t then allocate p used (length v.bytes + 1) else ok used

  -- The values of as many columns.
  unfoldable pub copy_values : QueryPlan F → List ResultColumn → List (Value F) → ℕ → Result ℕ
  copy_values p (c ∷ cs) (v ∷ vs) used =
      copy_value p c.type v used >>= λ used'. copy_values p cs vs used'
  copy_values p _ _ used = ok used

  unfoldable pub is_scan : QueryPlan F → Bool
  is_scan p = length p.aggregates == 0

  unfoldable pub next_capacity : QueryPlan F → ℕ → ℕ
  next_capacity p capacity =
      let doubled = if capacity == 0 then 16 else capacity * 2 in
      if ltb p.limit doubled then p.limit else doubled

  unfoldable pub row_width : QueryPlan F → ℕ
  unfolding is_scan
  row_width p = length p.columns * sizeof_value + (if is_scan p then sizeof_sequence else 0)

  -- Room for one row more: the capacity and what is used then.
  unfoldable pub row_room : QueryPlan F → Execution F → Result (ℕ × ℕ)
  unfolding next_capacity row_width
  row_room p x =
      if length x.rows == x.capacity
      then (allocate p x.used ((next_capacity p x.capacity - x.capacity) * row_width p) >>= λ used.
          ok (next_capacity p x.capacity, used))
      else ok (x.capacity, x.used)

  unfoldable pub add_row : QueryPlan F → Execution F → List (Value F) → ℕ → ℕ → ℕ → Execution F
  unfolding is_scan
  add_row p x values sequence capacity used = record x {
    used = used;
    rows = x.rows ++ (values ∷ []);
    sequences = if is_scan p then x.sequences ++ (sequence ∷ []) else x.sequences;
    capacity = capacity;
  }

  unfoldable pub result_row : QueryPlan F → Execution F → List (Value F) → ℕ → Result (Execution F)
  result_row p x values sequence = row_room p x >>= λ (capacity, used).
      copy_values p p.columns values used >>= λ used'.
      ok (add_row p x values sequence capacity used')
