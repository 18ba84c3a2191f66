-- ===== src/Dictionary/Transfer.antt =====
-- storage/dictionary.c: the definitions of symbols that a frame carries, written by
-- `wadb_dictionary_export_limit` and read by `wadb_dictionary_apply`.
use webanalyticsdb.Prelude.{
  ℕ, zero, suc, ◌+◌, ◌-◌, ◌*◌, ◌/◌, ◌%◌, ◌^◌, Bool, not, ◌||◌, List, [], ltb, leb, ◌==◌,
  if◌then◌else◌, replicate, take, Option, none, some,
}
use webanalyticsdb.Core.Status.{
  Status, Result, ok, err, invalid, limit, corrupt, reject, ◌>>=◌, ◌>>◌,
}
use webanalyticsdb.Core.Bytes.{read, write, put_u16, put_u32, get_u16, get_u32, zeroes}
use webanalyticsdb.Core.Sizes.{add_size}
use webanalyticsdb.Format.Frame.{Frame}
use webanalyticsdb.Dictionary.{Symbol, Dictionary, bad_field, intern, rollback}

-- The size with one definition more, if it is within the limits.
unfoldable pub within_export : ℕ → Option ℕ → Result ℕ
within_export most none = err limit
within_export most (some n) = if ltb most n || ltb (2 ^ 32 - 1 - 7) n then err limit else ok n

unfoldable pub export_size : Dictionary → ℕ → ℕ → ℕ → ℕ → Result ℕ
unfolding add_size within_export
export_size d most zero i n = ok n
export_size d most (suc left) i n = do
  m ← within_export most (add_size n (12 + (d.symbols i).length))
  export_size d most left (i + 1) m

unfoldable pub write_symbol : List ℕ → ℕ → Symbol → List ℕ
unfolding put_u16 put_u32
write_symbol p offset s =
    let p = put_u16 p offset (s.field % 2 ^ 16) in
    let p = put_u32 p (offset + 4) s.id in
    let p = put_u32 p (offset + 8) s.length in write p (offset + 12) (take s.length s.content)

unfoldable pub write_symbols : Dictionary → ℕ → ℕ → ℕ → List ℕ → List ℕ
unfolding write_symbol
write_symbols d zero i offset p = p
write_symbols d (suc left) i offset p =
    write_symbols d left (i + 1) (offset + (12 + (d.symbols i).length))
      (write_symbol p offset (d.symbols i))

unfoldable pub export_sized : Dictionary → ℕ → ℕ → ℕ → Result (List ℕ × ℕ × ℕ)
unfolding write_symbols
export_sized d mark most n = do
  reject (ltb most n) limit
  if n == 0
      then ok ([], 0, 0)
      else ok (write_symbols d (d.count - mark) mark 0 (replicate n 0), n, d.count - mark)

-- The definitions from the mark on: their bytes, how many bytes, and how many definitions.
unfoldable pub export_limit : Dictionary → ℕ → ℕ → Result (List ℕ × ℕ × ℕ)
unfolding export_size export_sized
export_limit d mark most = do
  reject (ltb d.count mark) invalid
  n ← export_size d most (d.count - mark) mark 0
  export_sized d mark most ((n + 7) / 8 * 8)

-- What a definition comes to: the dictionary as it is then, and the offset behind it.
abbrev pub Step : Type 0
Step = Dictionary × Result ℕ

-- A string that is refused is a damaged definition; another failure is passed on.
unfoldable pub as_corrupt : Status → Status
as_corrupt invalid = corrupt
as_corrupt s = s

unfoldable pub apply_interned : Dictionary → ℕ → ℕ → Result (ℕ × Dictionary) → Step
apply_interned d id next (err s) = (d, err (as_corrupt s))
apply_interned d id next (ok (assigned, d')) =
    if not (assigned == id) || not (d'.count == d.count + 1)
    then (d', err corrupt)
    else (d', ok next)

-- The definition at an offset cannot be one.
unfoldable pub bad_carried : Dictionary → Frame → ℕ → Bool
bad_carried d f offset =
    bad_field d.schema (get_u16 f.dictionary offset)
    || not
        (get_u32 f.dictionary (offset + 4) == (d.columns (get_u16 f.dictionary offset)).count + 1)
    || not (get_u16 f.dictionary (offset + 2) == 0)
    || ltb (f.dictionary_bytes - offset - 12) (get_u32 f.dictionary (offset + 8))

unfoldable pub apply_one : Dictionary → Frame → ℕ → Step
unfolding bad_carried
apply_one d f offset =
    let size = get_u32 f.dictionary (offset + 8) in
    if ltb f.dictionary_bytes offset || ltb (f.dictionary_bytes - offset) 12
    then (d, err corrupt)
    else if bad_carried d f offset
    then (d, err corrupt)
    else apply_interned d (get_u32 f.dictionary (offset + 4)) (offset + (12 + size))
        (intern d (get_u16 f.dictionary offset) (read f.dictionary (offset + 12) size))

-- The definitions one after the other, up to the first that fails.
unfoldable pub apply_all : ℕ → Dictionary → Frame → ℕ → Step
apply_all zero d f offset = (d, ok offset)
apply_all (suc n) d f offset =
    let one = apply_one d f offset in
    elim one.1 [ err s ↦ (one.0, err s) | ok next ↦ apply_all n one.0 f next ]

unfoldable pub bad_tail : Frame → ℕ → Bool
bad_tail f offset =
    not (f.dictionary_bytes % 8 == 0)
    || ltb f.dictionary_bytes offset
    || leb 8 (f.dictionary_bytes - offset)
    || not (zeroes (read f.dictionary offset (f.dictionary_bytes - offset)))

unfoldable pub apply_end : Frame → ℕ → Step → Dictionary × Result (Unit {0})
unfolding bad_tail
apply_end f mark (d, err s) = (rollback d mark, err s)
apply_end f mark (d, ok offset) =
    if bad_tail f offset then (rollback d mark, err corrupt) else (d, ok tt)

-- `wadb_dictionary_apply`: all definitions of a frame, or none.
unfoldable pub apply : Dictionary → Frame → Dictionary × Result (Unit {0})
unfolding apply_all apply_end
apply d f = apply_end f d.count (apply_all f.dictionary_count d f 0)
