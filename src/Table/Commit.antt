-- ===== src/Table/Commit.antt =====
-- storage/segments.c: `wadb_commit_requests`, which appends the rows of a group of requests as one frame to
-- the active segment: the checks of the group and its frame; Table/Append has the rest. The values of a request are numbered row by row, without the time; its rows are
-- encoded with the time and the ids of symbols left open.
use webanalyticsdb.Prelude.{
  ℕ, zero, suc, ◌+◌, ◌-◌, ◌*◌, ◌^◌, not, ◌||◌, List, [], ◌∷◌, ◌++◌, ltb, ◌==◌, if◌then◌else◌,
  length, drop, Option, none, some,
}
use webanalyticsdb.Prelude.Int.{ℤ, pos}
use webanalyticsdb.Core.Status.{Result, ok, err, limit, io, reject, ◌>>=◌, ◌>>◌}
use webanalyticsdb.Core.Bytes.{put_u32, put_u64, from_i64}
use webanalyticsdb.Core.Sizes.{add_size}
use webanalyticsdb.Format.{max_frame_bytes}
use webanalyticsdb.Format.Frame.{Frame, bad_times, frame_encode}
use webanalyticsdb.Schema.{Field, Schema}
use webanalyticsdb.Dictionary.{Dictionary, is_symbol32, intern}
use webanalyticsdb.Dictionary.Transfer.{export_limit}
use webanalyticsdb.Query.Values.{Value}
use webanalyticsdb.Table.{Table, Disk}

pub record Request (F : Type 0) : Type 0 where
  pub values : ℕ → Value F
  pub rows : List ℕ
  pub row_count : ℕ
  pub row_bytes : ℕ
  pub ingestion_time : ℤ

-- What a request that is committed gets back.
pub record Receipt : Type 0 where
  pub first_sequence : ℕ
  pub last_sequence : ℕ
  pub ingestion_time : ℤ
  pub row_count : ℕ

pub record Committed : Type 0 where
  pub frame : Frame
  pub bytes : List ℕ
  pub receipts : List Receipt

-- What a step leaves behind: the dictionary, and its result or an error.
abbrev pub Interned : Type 0 → Type 0
Interned A = Dictionary × Result A

abbrev pub and_then : {A B : Type 0} → Interned A → (Dictionary → A → Interned B) → Interned B
and_then (d, ok a) next = next d a
and_then (d, err s) next = (d, err s)

unfoldable pub sized : Option ℕ → Result ℕ
sized none = err limit
sized (some n) = ok n

module _ {F : Type 0} where
  -- The rows and the bytes of the group.
  unfoldable pub measure : List (Request F) → ℕ → ℕ → Result (ℕ × ℕ)
  unfolding sized
  measure [] rows bytes = ok (rows, bytes)
  measure (r ∷ rs) rows bytes = do
    rows ← sized (add_size rows r.row_count)
    bytes ← sized (add_size bytes r.row_bytes)
    measure rs rows bytes

  unfoldable pub first_time : List (Request F) → ℤ
  first_time [] = pos 0
  first_time (r ∷ rs) = r.ingestion_time

  unfoldable pub last_time : List (Request F) → ℤ
  last_time [] = pos 0
  last_time (r ∷ []) = r.ingestion_time
  last_time (r ∷ q ∷ rs) = last_time (q ∷ rs)

  unfoldable pub check_group : List (Request F) → Result (ℕ × ℕ)
  unfolding measure first_time last_time
  check_group rs = do
    (rows, bytes) ← measure rs 0 0
    reject (length rs == 0 || ltb (max_frame_bytes - 96) bytes || ltb (2 ^ 32 - 1) rows) limit
    reject (bad_times (first_time rs) (last_time rs)) io
    ok (rows, bytes)

-- The time in each row of a request.
unfoldable pub stamp : ℕ → ℤ → ℕ → ℕ → List ℕ → List ℕ
unfolding put_u64 from_i64
stamp width time zero j rows = rows
stamp width time (suc n) j rows =
    stamp width time n (j + 1) (put_u64 rows (j * width) (from_i64 time))

module _ {F : Type 0} where
  unfoldable pub group_rows : ℕ → List (Request F) → List ℕ
  unfolding stamp
  group_rows width [] = []
  group_rows width (r ∷ rs) =
      stamp width r.ingestion_time r.row_count 0 r.rows ++ group_rows width rs

  -- The id of a value, in its place in the rows.
  unfoldable pub intern_value : ℕ → Field → Value F → ℕ → List ℕ → Dictionary → Interned (List ℕ)
  unfolding put_u32
  intern_value i f v place rows d =
      if not (is_symbol32 f.type) || v.is_null then (d, ok rows) else elim (intern d i v.bytes) [
        | ok p ↦ (p.1, ok (put_u32 rows place p.0))
        | err s ↦ (d, err s)
      ]

  -- The fields of a row from the i-th on; `base` is where the row begins, `first` the number of its first value.
  unfoldable pub intern_fields :
      ℕ → List Field → (ℕ → Value F) → ℕ → ℕ → List ℕ → Dictionary → Interned (List ℕ)
  intern_fields i [] values base first rows d = (d, ok rows)
  intern_fields i (f ∷ fs) values base first rows d =
      and_then (intern_value i f (values (first + (i - 1))) (base + f.offset) rows d)
        (λ d rows. intern_fields (i + 1) fs values base first rows d)

  unfoldable pub intern_rows :
      Schema → (ℕ → Value F) → ℕ → ℕ → ℕ → List ℕ → Dictionary → Interned (List ℕ)
  unfolding intern_fields
  intern_rows schema values offset zero row rows d = (d, ok rows)
  intern_rows schema values offset (suc n) row rows d =
      and_then
        (intern_fields 1 (drop 1 schema.fields) values (offset + row * schema.row_width)
          (row * (length schema.fields - 1)) rows d)
        (λ d rows. intern_rows schema values offset n (row + 1) rows d)

  unfoldable pub intern_requests :
      Schema → List (Request F) → ℕ → List ℕ → Dictionary → Interned (List ℕ)
  unfolding intern_rows
  intern_requests schema [] offset rows d = (d, ok rows)
  intern_requests schema (r ∷ rs) offset rows d =
      and_then (intern_rows schema r.values offset r.row_count 0 rows d)
        (λ d rows. intern_requests schema rs (offset + r.row_bytes) rows d)

  unfoldable pub frame_of : Table → List (Request F) → List ℕ → ℕ → List ℕ × ℕ × ℕ → Frame
  unfolding first_time last_time
  frame_of t rs rows row_count (definitions, n, count) = record {
    schema_hash = t.schema.fingerprint;
    first_sequence = t.last_sequence + 1;
    min_time = first_time rs;
    max_time = last_time rs;
    row_count = row_count;
    row_width = t.schema.row_width;
    dictionary_count = count;
    dictionary_bytes = n;
    dictionary = definitions;
    rows = rows;
    frame_bytes = 0;
    rows_offset = 0;
  }

  -- The frame of the group, with the symbols that are new since the mark.
  unfoldable pub encode_group :
      Disk → Table → List (Request F) → ℕ → ℕ → ℕ → List ℕ → Dictionary → Result (Frame × List ℕ)
  unfolding frame_of
  encode_group disk t rs row_count row_bytes mark rows d = do
    definitions ← export_limit d mark max_frame_bytes
    reject (ltb (max_frame_bytes - 96 - row_bytes) definitions.1) limit
    let frame = frame_of t rs rows row_count definitions
    bytes ← frame_encode disk.frame_memory frame
    ok (frame, bytes)

  unfoldable pub attempt :
      Disk → Table → List (Request F) → ℕ → ℕ → List ℕ → Dictionary → Interned (Frame × List ℕ)
  unfolding intern_requests encode_group
  attempt disk t rs row_count row_bytes rows d =
      and_then (intern_requests t.schema rs 0 rows d)
        (λ d' rows. (d', encode_group disk t rs row_count row_bytes d.count rows d'))

  unfoldable pub receipts_from : ℕ → List (Request F) → List Receipt
  receipts_from sequence [] = []
  receipts_from sequence (r ∷ rs) =
      record {
        first_sequence = sequence;
        last_sequence = sequence + r.row_count - 1;
        ingestion_time = r.ingestion_time;
        row_count = r.row_count;
      }
      ∷ receipts_from (sequence + r.row_count) rs
