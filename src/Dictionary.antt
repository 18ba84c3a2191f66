-- ===== src/Dictionary.antt =====
-- storage/dictionary.c: the symbols of a segment. Each symbol32 column numbers its strings from 1,
-- and an index from hashes finds a string that is known. Arrays are functions beside their counts;
-- an allocation does not fail. The counts stay below 2 ^ 32, so casts to uint32_t keep them.
pub mod Invariant
pub mod Laws
pub mod Interning
pub mod Resolving
pub mod Rollback
pub mod Transfer
pub mod Applying
mod Examples
use webanalyticsdb.Prelude.{
  ℕ, zero, suc, ◌+◌, ◌-◌, ◌*◌, ◌^◌, Bool, true, false, not, ◌||◌, ◌&&◌, List, [], ◌∷◌, ltb, leb,
  ◌==◌, if◌then◌else◌, length, replicate, get_elem?, Option, none, some,
}
use webanalyticsdb.Core.Status.{
  Result, ok, err, invalid, limit, corrupt, indeterminate, reject, ◌>>=◌, ◌>>◌,
}
use webanalyticsdb.Core.Bytes.{bytes_eq, put_u32}
use webanalyticsdb.Core.Checksum.{hash, fnv_basis}
use webanalyticsdb.Core.Text.{utf8}
use webanalyticsdb.Core.Types.{FieldType, symbol32}
use webanalyticsdb.Schema.{Field, Schema}
use webanalyticsdb.Slots.{store, Walk, found, vacant, spun, probe, place_entry, no_slots, rehash}

pub record Symbol : Type 0 where
  pub field : ℕ
  pub id : ℕ
  pub length : ℕ
  pub hash : ℕ
  pub content : List ℕ

pub record Column : Type 0 where
  pub indices : ℕ → ℕ
  pub count : ℕ
  pub capacity : ℕ

pub record Dictionary : Type 0 where
  pub schema : Schema
  pub symbols : ℕ → Symbol
  pub count : ℕ
  pub capacity : ℕ
  pub slots : ℕ → ℕ
  pub slot_count : ℕ
  pub columns : ℕ → Column
  pub allocated_bytes : ℕ
  pub limit : ℕ

-- The sizes of the C types where pointers and size_t have 8 bytes.
abbrev pub sizeof_dictionary : ℕ
sizeof_dictionary = 72

abbrev pub sizeof_symbol_column : ℕ
sizeof_symbol_column = 24

abbrev pub sizeof_symbol : ℕ
sizeof_symbol = 32

abbrev pub sizeof_slot : ℕ
sizeof_slot = 4

abbrev pub max_string_bytes : ℕ
max_string_bytes = 65536

abbrev no_symbol : Symbol
no_symbol = record { field = 0; id = 0; length = 0; hash = 0; content = [] }

abbrev no_column : Column
no_column = record { indices = λ i. 0; count = 0; capacity = 0 }

unfoldable pub empty_dictionary : Schema → ℕ → ℕ → Dictionary
empty_dictionary s base most = record {
  schema = s;
  symbols = λ i. no_symbol;
  count = 0;
  capacity = 0;
  slots = no_slots;
  slot_count = 0;
  columns = λ i. no_column;
  allocated_bytes = base;
  limit = most;
}

unfoldable pub dictionary_new : Schema → ℕ → Result Dictionary
dictionary_new s most =
    let base = sizeof_dictionary + length s.fields * sizeof_symbol_column in
    if ltb most base then err limit else ok (empty_dictionary s base most)

unfoldable pub is_symbol32 : FieldType → Bool
is_symbol32 symbol32 = true
is_symbol32 _ = false

unfoldable pub is_symbol_field : Option Field → Bool
unfolding is_symbol32
is_symbol_field none = false
is_symbol_field (some f) = is_symbol32 f.type

-- Not a field of the schema that has symbols.
unfoldable pub bad_field : Schema → ℕ → Bool
unfolding is_symbol_field
bad_field s field =
    field == 0 || leb (length s.fields) field || not (is_symbol_field (get_elem? s.fields field))

unfoldable pub bad_symbol : Schema → ℕ → List ℕ → Bool
bad_symbol s field content =
    bad_field s field || ltb max_string_bytes (length content) || not (utf8 content)

unfoldable pub symbol_hash : ℕ → List ℕ → ℕ
symbol_hash field content = hash content (hash (put_u32 (replicate 4 0) 0 field) fnv_basis)

unfoldable pub is_same : Symbol → ℕ → ℕ → List ℕ → Bool
is_same s key field content =
    s.hash == key && s.field == field && s.length == length content && bytes_eq s.content content

-- The search for a symbol; without slots there is nothing to search.
unfoldable pub find_symbol : Dictionary → ℕ → ℕ → List ℕ → Walk
unfolding is_same
find_symbol d key field content =
    if d.slot_count == 0
    then vacant 0
    else probe (λ k. is_same (d.symbols k) key field content) d.slots d.slot_count key

-- A capacity that doubles when it is used up.
unfoldable pub grown : ℕ → ℕ → ℕ → ℕ
grown count capacity first =
    if count == capacity then (if capacity == 0 then first else capacity * 2) else capacity

unfoldable pub next_slot_count : ℕ → ℕ → ℕ
next_slot_count count slots =
    if ltb slots ((count + 1) * 2) then (if slots == 0 then 32 else slots * 2) else slots

unfoldable pub extra_bytes : Dictionary → Column → List ℕ → ℕ
unfolding grown next_slot_count
extra_bytes d column content =
    (grown d.count d.capacity 16 - d.capacity) * sizeof_symbol
    + (next_slot_count d.count d.slot_count - d.slot_count) * sizeof_slot
    + (grown column.count column.capacity 8 - column.capacity) * sizeof_slot
    + length content
    + 1

unfoldable pub hashes : (ℕ → Symbol) → ℕ → ℕ
hashes symbols k = (symbols k).hash

-- The slots, made anew when their number grows.
unfoldable pub grown_slots : (ℕ → ℕ) → (ℕ → ℕ) → ℕ → ℕ → ℕ → ℕ → ℕ
unfolding rehash
grown_slots hash slots old new count = if new == old then slots else rehash hash new count

unfoldable pub new_symbol : Column → ℕ → ℕ → List ℕ → Symbol
new_symbol column key field content = record {
  field = field;
  id = column.count + 1;
  length = length content;
  hash = key;
  content = content;
}

unfoldable pub longer_column : Column → ℕ → Column
unfolding grown store
longer_column column entry = record {
  indices = store column.indices column.count entry;
  count = column.count + 1;
  capacity = grown column.count column.capacity 8;
}

unfoldable pub add_symbol : Dictionary → ℕ → ℕ → List ℕ → Dictionary
unfolding new_symbol longer_column store grown next_slot_count grown_slots place_entry extra_bytes
    hashes
add_symbol d key field content =
    let column = d.columns field in
    record {
      schema = d.schema;
      symbols = store d.symbols d.count (new_symbol column key field content);
      count = suc d.count;
      capacity = grown d.count d.capacity 16;
      slots =
          place_entry
            (grown_slots (hashes d.symbols) d.slots d.slot_count
              (next_slot_count d.count d.slot_count) d.count)
            (next_slot_count d.count d.slot_count) key d.count;
      slot_count = next_slot_count d.count d.slot_count;
      columns = store d.columns field (longer_column column d.count);
      allocated_bytes = d.allocated_bytes + extra_bytes d column content;
      limit = d.limit;
    }

unfoldable pub is_exhausted : Dictionary → Column → Bool
is_exhausted d column = d.count == 2 ^ 32 - 1 || column.count == 2 ^ 32 - 1

unfoldable pub insert_symbol : Dictionary → ℕ → ℕ → List ℕ → Result (ℕ × Dictionary)
insert_symbol d key field content = do
  reject (is_exhausted d (d.columns field)) limit
  reject (ltb (d.limit - d.allocated_bytes) (extra_bytes d (d.columns field) content)) limit
  ok ((d.columns field).count + 1, add_symbol d key field content)

unfoldable pub intern_found : Dictionary → Walk → ℕ → ℕ → List ℕ → Result (ℕ × Dictionary)
unfolding insert_symbol
intern_found d (found k) key field content = ok ((d.symbols k).id, d)
intern_found d (vacant _) key field content = insert_symbol d key field content
intern_found d spun key field content = err indeterminate

-- `wadb_dictionary_intern`: the id of the string, and the dictionary that has it. The search does
-- not run out of fuel, so INDETERMINATE does not occur.
unfoldable pub intern : Dictionary → ℕ → List ℕ → Result (ℕ × Dictionary)
unfolding bad_symbol symbol_hash find_symbol intern_found
intern d field content = do
  reject (bad_symbol d.schema field content) invalid
  intern_found d (find_symbol d (symbol_hash field content) field content)
      (symbol_hash field content) field content

unfoldable pub symbol_at : Dictionary → ℕ → ℕ → Symbol
symbol_at d field id = d.symbols ((d.columns field).indices (id - 1))

-- `wadb_dictionary_resolve`
unfoldable pub resolve : Dictionary → ℕ → ℕ → Result (List ℕ × ℕ)
unfolding symbol_at
resolve d field id = do
  reject (bad_field d.schema field || id == 0 || ltb (d.columns field).count id) corrupt
  ok ((symbol_at d field id).content, (symbol_at d field id).length)

-- The last symbol is given up.
unfoldable pub shorter_column : Column → Column
shorter_column c = record { indices = c.indices; count = c.count - 1; capacity = c.capacity }

unfoldable pub pop_symbol : Dictionary → Dictionary
unfolding store shorter_column
pop_symbol d =
    let s = d.symbols (d.count - 1) in
    record {
      schema = d.schema;
      symbols = d.symbols;
      count = d.count - 1;
      capacity = d.capacity;
      slots = d.slots;
      slot_count = d.slot_count;
      columns = store d.columns s.field (shorter_column (d.columns s.field));
      allocated_bytes = d.allocated_bytes - (s.length + 1);
      limit = d.limit;
    }

unfoldable pub pop_symbols : ℕ → Dictionary → Dictionary
unfolding pop_symbol
pop_symbols zero d = d
pop_symbols (suc n) d = pop_symbols n (pop_symbol d)

unfoldable pub reindex : Dictionary → Dictionary
unfolding rehash hashes
reindex d = record {
  schema = d.schema;
  symbols = d.symbols;
  count = d.count;
  capacity = d.capacity;
  slots = if d.slot_count == 0 then d.slots else rehash (hashes d.symbols) d.slot_count d.count;
  slot_count = d.slot_count;
  columns = d.columns;
  allocated_bytes = d.allocated_bytes;
  limit = d.limit;
}

unfoldable pub rollback : Dictionary → ℕ → Dictionary
unfolding pop_symbols reindex
rollback d mark = if leb d.count mark then d else reindex (pop_symbols (d.count - mark) d)
