-- ===== src/Dictionary/Examples.antt =====
-- The dictionary at work on small inputs.
use webanalyticsdb.Prelude.{ℕ, ◌+◌, ◌≡◌, refl, false, List, [], ◌∷◌}
use webanalyticsdb.Core.Status.{Status, Result, ok, err, reject}
use webanalyticsdb.Core.Types.{symbol32, timestamp_us}
use webanalyticsdb.Core.Text.{utf8}
use webanalyticsdb.Core.Bytes.{bytes_eq, get_u16, get_u32, zeroes, put_u32}
use webanalyticsdb.Core.Checksum.{hash}
use webanalyticsdb.Schema.{Field, Schema}
use webanalyticsdb.Format.Frame.{Frame}
use webanalyticsdb.Prelude.{◌⊎◌}
use webanalyticsdb.Prelude.Int.{pos}
use webanalyticsdb.Dictionary.{
  Dictionary, dictionary_new, empty_dictionary, intern, resolve, rollback, bad_symbol, bad_field,
  find_symbol, is_exhausted, extra_bytes, add_symbol,
}
use webanalyticsdb.Dictionary.Invariant.{IsDictionary, dictionary_new-IsDictionary}
use webanalyticsdb.Dictionary.Transfer.{
  export_limit, apply, apply_one, apply_interned, bad_carried, bad_tail,
}
use webanalyticsdb.Dictionary.Interning.{intern-IsDictionary}
use webanalyticsdb.Dictionary.Resolving.{resolve-intern, intern-resolve, intern-Extends, Extends}
use webanalyticsdb.Dictionary.Rollback.{rollback-Extends}
use webanalyticsdb.Dictionary.Applying.{apply_lem}

abbrev column_of : ℕ → Field
column_of offset = record {
  name = 97 ∷ [];
  type = symbol32;
  size = 0;
  nullable = false;
  offset = offset;
  width = 4;
  null_bit = 0;
}

-- two columns of symbols
abbrev two_columns : Schema
two_columns = record {
  row_width = 16;
  null_bytes = 0;
  fingerprint = 0;
  fields =
      record {
        name = [];
        type = timestamp_us;
        size = 0;
        nullable = false;
        offset = 0;
        width = 8;
        null_bit = 0;
      }
      ∷ column_of 8
      ∷ column_of 12
      ∷ [];
}

abbrev start : Dictionary
start = empty_dictionary two_columns 144 4096

start_new : dictionary_new two_columns 4096 ≡ ok start
unfolding dictionary_new empty_dictionary
start_new = refl

start-IsDictionary : IsDictionary start
start-IsDictionary = dictionary_new-IsDictionary two_columns 4096 start start_new

id_of : Result (ℕ × Dictionary) → ℕ
id_of (ok (id, d)) = id
id_of (err s) = 0

after : Result (ℕ × Dictionary) → Dictionary
after (ok (id, d)) = d
after (err s) = start

-- "ab" and "c" in the first column, "ab" in the second
abbrev one : Dictionary
one = after (intern start 1 (97 ∷ 98 ∷ []))

abbrev two : Dictionary
two = after (intern one 1 (99 ∷ []))

abbrev three : Dictionary
three = after (intern two 2 (97 ∷ 98 ∷ []))

abbrev ab : List ℕ
ab = 97 ∷ 98 ∷ []

one_interned : intern start 1 ab ≡ ok (1, one)
unfolding after intern empty_dictionary bad_symbol bad_field utf8 bytes_eq hash put_u32 find_symbol
    reject is_exhausted extra_bytes add_symbol
one_interned = refl

two_interned : intern one 1 (99 ∷ []) ≡ ok (2, two)
unfolding after intern empty_dictionary bad_symbol bad_field utf8 bytes_eq hash put_u32 find_symbol
    reject is_exhausted extra_bytes add_symbol
two_interned = refl

one-IsDictionary : IsDictionary one
one-IsDictionary = intern-IsDictionary start-IsDictionary 1 ab 1 one one_interned

intern-IsDictionary_example : IsDictionary two
intern-IsDictionary_example = intern-IsDictionary one-IsDictionary 1 (99 ∷ []) 2 two two_interned

resolve-intern_example : resolve two 1 2 ≡ ok (99 ∷ [], 1)
resolve-intern_example = resolve-intern one-IsDictionary 1 (99 ∷ []) 2 two two_interned

one_resolves : resolve one 1 1 ≡ ok (ab, 2)
unfolding after intern empty_dictionary bad_symbol bad_field utf8 bytes_eq hash put_u32 find_symbol
    reject is_exhausted extra_bytes add_symbol resolve
one_resolves = refl

-- the same string a second time
intern-resolve_example : intern one 1 ab ≡ ok (1, one)
intern-resolve_example = intern-resolve one-IsDictionary 1 ab 1 2 one_resolves

two-IsDictionary : IsDictionary two
two-IsDictionary = intern-IsDictionary one-IsDictionary 1 (99 ∷ []) 2 two two_interned

rollback-Extends_example : resolve (rollback two one.count) 1 2 ≡ resolve one 1 2
rollback-Extends_example =
    rollback-Extends one-IsDictionary two-IsDictionary
      (intern-Extends one-IsDictionary 1 (99 ∷ []) 2 two two_interned) 1 2

-- the two symbols as a frame carries them
abbrev carried : List ℕ
carried =
    1 ∷ 0 ∷ 0 ∷ 0 ∷ 1 ∷ 0 ∷ 0 ∷ 0 ∷ 2 ∷ 0 ∷ 0 ∷ 0 ∷ 97 ∷ 98 ∷ 1 ∷ 0 ∷ 0 ∷ 0 ∷ 2 ∷ 0 ∷ 0 ∷ 0 ∷ 1 ∷ 0
    ∷ 0 ∷ 0 ∷ 99 ∷ 0 ∷ 0 ∷ 0 ∷ 0 ∷ 0 ∷ []

abbrev frame_of : List ℕ → ℕ → ℕ → Frame
frame_of p bytes count = record {
  schema_hash = 0;
  first_sequence = 1;
  min_time = pos 0;
  max_time = pos 0;
  row_count = 1;
  row_width = 16;
  dictionary_count = count;
  dictionary_bytes = bytes;
  dictionary = p;
  rows = [];
  frame_bytes = 144;
  rows_offset = 96;
}

two_exported : export_limit two 0 1000 ≡ ok (carried, 32, 2)
unfolding after intern empty_dictionary bad_symbol bad_field utf8 bytes_eq hash put_u32 find_symbol
    reject is_exhausted extra_bytes add_symbol export_limit
two_exported = refl

applied_count : (apply start (frame_of carried 32 2)).0.count ≡ 2
unfolding after intern empty_dictionary bad_symbol bad_field utf8 bytes_eq hash put_u32 find_symbol
    reject is_exhausted extra_bytes add_symbol apply apply_one apply_interned bad_carried get_u16
    get_u32 bad_tail zeroes
applied_count = refl

apply_lem_example :
    IsDictionary (apply start (frame_of carried 32 2)).0
    × ((((apply start (frame_of carried 32 2)).1 ≡ ok tt)
          × Extends start (apply start (frame_of carried 32 2)).0
          × ((apply start (frame_of carried 32 2)).0.count ≡ start.count + 2))
        ⊎ ((s : Status) × ((apply start (frame_of carried 32 2)).1 ≡ err s)
            × ((field id : ℕ)
                → resolve (apply start (frame_of carried 32 2)).0 field id
                  ≡ resolve start field id)))
apply_lem_example = apply_lem start (frame_of carried 32 2) start-IsDictionary
