-- ===== src/Table/Retention.antt =====
-- storage/retention.c: whole segments that are older than the table keeps them are retired in the manifest,
-- and their files are removed once no reader holds them. The loops that count go over the segments
-- in either order; where the order matters it is that of the code, from the oldest on.
use webanalyticsdb.Prelude.{
  ℕ, ◌+◌, ◌-◌, ◌^◌, Bool, true, false, not, ◌||◌, ◌&&◌, List, [], ◌∷◌, ltb, leb, ◌==◌,
  if◌then◌else◌, length, map, Option, none, some,
}
use webanalyticsdb.Prelude.Int.{ℤ, pos, negsuc, leb_ℤ, ltb_ℤ}
use webanalyticsdb.Core.Status.{Status, Result, ok, err, limit, nomem, invalid, reject, ◌>>◌}
use webanalyticsdb.Core.Segments.{SegmentState, SegmentInfo, active, sealed, retired}
use webanalyticsdb.Table.{Table, protect_uncertain}

pub record RetentionStats : Type 0 where
  pub cutoff : ℤ
  pub eligible_segments : ℕ
  pub eligible_rows : ℕ
  pub eligible_bytes : ℕ
  pub partially_expired_segments : ℕ
  pub pending_segments : ℕ
  pub deleted_segments : ℕ

-- What the calls of the system and the allocations come to. `removed` says of a segment whether its file was
-- there to be removed, and how the removal of its two files ends.
pub record Cleaning : Type 0 where
  pub segments_memory : Bool
  pub manifest_saved : Result (Unit {0})
  pub readers : ℕ
  pub database_read_only : Bool
  pub removed : ℕ → Bool × Result (Unit {0})

abbrev pub is_retired : SegmentState → Bool
is_retired retired = true
is_retired active = false
is_retired sealed = false

unfoldable pub cutoff_of : ℕ → ℕ → ℤ
cutoff_of retention now =
    if not (retention == 0) && leb retention now then pos (now - retention) else pos 0

-- A segment of which every row is older than the cutoff.
unfoldable pub is_expired : ℤ → SegmentInfo → Bool
is_expired cutoff s =
    not (is_retired s.state) && not (s.last_sequence == 0) && ltb_ℤ s.max_time cutoff

-- A segment that is kept though some of its rows are older.
unfoldable pub is_partial : ℤ → SegmentInfo → Bool
is_partial cutoff s =
    not (is_retired s.state)
    && not (s.last_sequence == 0)
    && ltb_ℤ s.min_time cutoff
    && leb_ℤ cutoff s.max_time

-- What `preview` counts as eligible; on a segment whose least time is not above its greatest, the same.
unfoldable pub is_eligible : ℤ → SegmentInfo → Bool
is_eligible cutoff s =
    not (is_retired s.state)
    && not (s.last_sequence == 0)
    && ltb_ℤ s.min_time cutoff
    && ltb_ℤ s.max_time cutoff

-- How much a number counts where a test holds.
unfoldable pub counted : Bool → ℕ → ℕ
counted true n = n
counted false n = 0

unfoldable pub tally : Bool → RetentionStats → List SegmentInfo → RetentionStats
unfolding is_eligible is_partial counted
tally pending out [] = out
tally pending out (s ∷ ss) =
    let rest = tally pending out ss in
    record rest {
      eligible_segments = rest.eligible_segments + counted (is_eligible out.cutoff s) 1;
      eligible_rows =
          rest.eligible_rows
          + counted (is_eligible out.cutoff s) (s.last_sequence - s.first_sequence + 1);
      eligible_bytes = rest.eligible_bytes + counted (is_eligible out.cutoff s) s.committed_bytes;
      partially_expired_segments =
          rest.partially_expired_segments + counted (is_partial out.cutoff s) 1;
      pending_segments = rest.pending_segments + counted (is_retired s.state && pending) 1;
    }

unfoldable pub preview : Table → ℕ → RetentionStats
unfolding cutoff_of tally
preview t now =
    tally t.pending_retention
      (record {
        cutoff = cutoff_of t.retention_us now;
        eligible_segments = 0;
        eligible_rows = 0;
        eligible_bytes = 0;
        partially_expired_segments = 0;
        pending_segments = 0;
        deleted_segments = 0;
      })
      t.segments

unfoldable pub retention_preview : Table → ℤ → Result RetentionStats
unfolding preview
retention_preview t (pos now) = ok (preview t now)
retention_preview t (negsuc now) = err invalid

unfoldable pub retire : ℤ → SegmentInfo → SegmentInfo
unfolding is_expired
retire cutoff s = if is_expired cutoff s then record s { state = retired } else s

-- The last row and time that were retired: of the newest segment among those.
unfoldable pub preserve : ℤ → List SegmentInfo → ℕ × ℤ → ℕ × ℤ
unfolding is_expired
preserve cutoff [] p = p
preserve cutoff (s ∷ older) p =
    if is_expired cutoff s then (s.last_sequence, s.max_time) else preserve cutoff older p

-- The segment at a position counted from the oldest, in a list that begins with the newest.
unfoldable pub segment_at : List SegmentInfo → ℕ → Option SegmentInfo
segment_at [] p = none
segment_at (s ∷ older) p = if p == length older then some s else segment_at older p

unfoldable pub is_kept : Option SegmentInfo → Bool
is_kept none = false
is_kept (some s) = not (is_retired s.state)

unfoldable pub still_readable : List SegmentInfo → List ℕ → List ℕ
unfolding segment_at is_kept
still_readable ss [] = []
still_readable ss (p ∷ ps) =
    let rest = still_readable ss ps in if is_kept (segment_at ss p) then p ∷ rest else rest

unfoldable pub newest_retired : List SegmentInfo → Bool
newest_retired [] = false
newest_retired (s ∷ older) = is_retired s.state

-- Without an active segment there is no file to append to, and no dictionary.
unfoldable pub close_active : Table → Table
unfolding newest_retired
close_active t =
    if newest_retired t.segments
    then record t {
      index = [];
      index_capacity = 0;
      content = [];
      published_dictionary_bytes = 0;
      dictionary = none;
    }
    else t

unfoldable pub retired_table : Table → RetentionStats → Table
unfolding retire preserve still_readable
retired_table t stats = record t {
  segments = map (retire stats.cutoff) t.segments;
  manifest_generation = t.manifest_generation + 1;
  preserved_sequence =
      (preserve stats.cutoff t.segments (t.preserved_sequence, t.preserved_time)).0;
  preserved_time = (preserve stats.cutoff t.segments (t.preserved_sequence, t.preserved_time)).1;
  pending_retention = true;
  retained_rows = t.retained_rows - stats.eligible_rows;
  retained_bytes = t.retained_bytes - stats.eligible_bytes;
  retained_segments = t.retained_segments - stats.eligible_segments;
  retired_segments = t.retired_segments + stats.eligible_segments;
  readable = still_readable (map (retire stats.cutoff) t.segments) t.readable;
}

-- Whether the manifest with the retired segments is saved.
unfoldable pub retire_saved : Cleaning → Table → Result (Unit {0})
retire_saved c t = do
  reject (t.manifest_generation == 2 ^ 64 - 1) limit
  reject (not c.segments_memory) nomem
  c.manifest_saved

unfoldable pub retire_stored :
    Table → RetentionStats → Result (Unit {0}) → Table × Result (Unit {0})
unfolding retired_table close_active protect_uncertain
retire_stored t stats (ok _) = (close_active (retired_table t stats), ok tt)
retire_stored t stats (err s) = (protect_uncertain t s, err s)

unfoldable pub retire_eligible : Cleaning → Table → RetentionStats → Table × Result (Unit {0})
unfolding retire_saved retire_stored
retire_eligible c t stats =
    if t.read_only || c.database_read_only
    then (t, err Status.read_only)
    else if stats.eligible_segments == 0
    then (t, ok tt)
    else retire_stored t stats (retire_saved c t)

-- Removes the files of the retired segments, the oldest first; how many there were.
unfoldable pub remove_one :
    (ℕ → Bool × Result (Unit {0})) → SegmentInfo → ℕ × Result (Unit {0}) → ℕ × Result (Unit {0})
remove_one removed s (n, err e) = (n, err e)
remove_one removed s (n, ok _) =
    if is_retired s.state
    then (n + (if (removed s.id).0 then 1 else 0), (removed s.id).1)
    else (n, ok tt)

unfoldable pub remove_all :
    (ℕ → Bool × Result (Unit {0})) → List SegmentInfo → ℕ × Result (Unit {0})
unfolding remove_one
remove_all removed [] = (0, ok tt)
remove_all removed (s ∷ older) = remove_one removed s (remove_all removed older)

unfoldable pub is_err : Result (Unit {0}) → Bool
is_err (ok _) = false
is_err (err _) = true

unfoldable pub cleaned : Table → Result (Unit {0}) → Table
unfolding is_err
cleaned t r = record t { pending_retention = is_err r; maintenance_status = r }

-- The number of segments whose files were removed comes with the status.
unfoldable pub cleanup : Cleaning → Table → Table × (ℕ × Result (Unit {0}))
unfolding remove_all cleaned
cleanup c t =
    if t.pending_retention && c.readers == 0
    then (cleaned t (remove_all c.removed t.segments).1, remove_all c.removed t.segments)
    else (t, (0, ok tt))

unfoldable pub count_retired : List SegmentInfo → ℕ
unfolding counted
count_retired [] = 0
count_retired (s ∷ ss) = counted (is_retired s.state) 1 + count_retired ss

unfoldable pub with_removed : RetentionStats → Table → ℕ → RetentionStats
unfolding count_retired
with_removed stats t n = record stats {
  deleted_segments = n;
  pending_segments = if t.pending_retention then count_retired t.segments else 0;
}

unfoldable pub apply_cleaned :
    RetentionStats → Table × (ℕ × Result (Unit {0})) → Table × (RetentionStats × Result (Unit {0}))
unfolding with_removed
apply_cleaned stats (t, (n, r)) = (t, (with_removed stats t n, r))

unfoldable pub apply_retired :
    Cleaning
    → RetentionStats
    → Table × Result (Unit {0})
    → Table × (RetentionStats × Result (Unit {0}))
unfolding cleanup apply_cleaned
apply_retired c stats (t, err s) = (t, (with_removed stats t 0, err s))
apply_retired c stats (t, ok _) = apply_cleaned stats (cleanup c t)

unfoldable pub retention_apply :
    Cleaning → Table → ℤ → Table × Result (RetentionStats × Result (Unit {0}))
unfolding preview retire_eligible apply_retired
retention_apply c t (negsuc now) = (t, err invalid)
retention_apply c t (pos now) =
    let (t', out) = apply_retired c (preview t now) (retire_eligible c t (preview t now)) in
    (t', ok out)

unfoldable pub set_saved : Cleaning → Table → ℕ → Result (Unit {0})
set_saved c t duration = do
  reject (ltb (2 ^ 63 - 1) duration) invalid
  reject (t.read_only || c.database_read_only) Status.read_only
  reject (t.manifest_generation == 2 ^ 64 - 1) limit
  c.manifest_saved

unfoldable pub set_stored : Table → ℕ → Result (Unit {0}) → Table × Result (Unit {0})
unfolding protect_uncertain
set_stored t duration (ok _) =
    (record t { retention_us = duration; manifest_generation = t.manifest_generation + 1 }, ok tt)
set_stored t duration (err s) = (protect_uncertain t s, err s)

unfoldable pub set_retention : Cleaning → Table → ℕ → Table × Result (Unit {0})
unfolding set_saved set_stored
set_retention c t duration = set_stored t duration (set_saved c t duration)
