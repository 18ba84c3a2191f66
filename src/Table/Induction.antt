-- ===== src/Table/Induction.antt =====
-- What every commit keeps: a property of tables that each of its changes preserves holds afterwards, whether
-- the commit succeeds or fails.
use webanalyticsdb.Prelude.{
  ℕ, ◌+◌, ◌-◌, ◌^◌, ◌≡◌, refl, sym, ap, subst, ◌∙◌, true, false, not, ◌||◌, List, [], ◌∷◌, ltb, leb,
  ◌==◌, if◌then◌else◌, length, Option, none, some, Bool-cases, inl, inr, arith,
}
use webanalyticsdb.Prelude.Int.{ℤ, ◌==ℤ◌}
use webanalyticsdb.Core.Status.{
  Status, Result, ok, err, limit, nomem, io, ◌>>◌, >>=-ok, >>-ok, reject-eq-ok, ok-eq-ok,
}
use webanalyticsdb.Core.Segments.{SegmentInfo}
use webanalyticsdb.Core.Sizes.{size_max, add_size}
use webanalyticsdb.Format.{max_frame_bytes}
use webanalyticsdb.Format.Frame.{Frame, bad_times, frame_encode}
use webanalyticsdb.Format.Segment.{segment_encode}
use webanalyticsdb.Dictionary.{Dictionary, dictionary_new, rollback}
use webanalyticsdb.Dictionary.Transfer.{export_limit}
use webanalyticsdb.Index.{index_reserve}
use webanalyticsdb.Table.{
  Table, Disk, max_index_entries, has_active, day_of, new_segment, free_id, ready, header_for,
  install, installed, protect_uncertain, create_installed, create_ready, create_active,
  readable_reserve,
}
use webanalyticsdb.Table.Commit.{
  Request, Committed, Interned, and_then, first_time, last_time, sized, measure, check_group,
  receipts_from, frame_of, encode_group, intern_requests, attempt, group_rows,
}
use webanalyticsdb.Table.Append.{
  CommitOptions, Outcome, published, uncertain, with_dictionary, with_index_capacity,
  with_readable_capacity, append_written, append_readable, append_indexed, append_frame, settle,
  append_with, fresh_created, fresh_attempted, commit_new, commit_fresh, needs_segment, needs_day,
  existing_attempted, commit_tried, commit_rows, prepare, commit_prepared, commit,
}

abbrev pub rows_in : {F : Type 0} → List (Request F) → ℕ
rows_in [] = 0
rows_in (r ∷ rs) = r.row_count + rows_in rs

-- The frame of a group that continues the table, and its bytes.
pub record IsNext {F : Type 0} (disk : Disk) (rs : List (Request F)) (t : Table) (f : Frame)
    (bytes : List ℕ) : Type 0 where
  pub next : f.first_sequence ≡ t.last_sequence + 1
  pub starts : f.min_time ≡ first_time rs
  pub ends : f.max_time ≡ last_time rs
  pub counted : f.row_count ≡ rows_in rs
  pub encoded : frame_encode disk.frame_memory f ≡ ok bytes

-- `P` is what holds before and after an error, `Q` what holds after success.
pub record Preserved {F : Type 0} (disk : Disk) (rs : List (Request F)) (P : Table → Type 0)
    (Q : Table → Committed → Type 0) : Type 0 where
  pub dictionary : (t : Table) (d : Dictionary) → P t → P (with_dictionary t d)
  pub index_capacity : (t : Table) (n : ℕ) → P t → P (with_index_capacity t n)
  pub readable_capacity : (t : Table) (n : ℕ) → P t → P (with_readable_capacity t n)
  pub torn : (t : Table) → P t → P (uncertain t disk.torn)
  pub protected : (t : Table) (s : Status) → P t → P (protect_uncertain t s)
  pub segment :
      (t : Table) (now : ℤ) (id : ℕ) (header : List ℕ)
      → segment_encode (header_for t (new_segment t now id)) ≡ ok header
      → P t
      → P (installed t now id header)
  pub frame :
      (t : Table) (d : Dictionary) (s : SegmentInfo) (older : List SegmentInfo) (f : Frame)
      (bytes : List ℕ)
      → t.segments ≡ s ∷ older
      → has_active t.segments ≡ true
      → IsNext disk rs t f bytes
      → P t
      → Q
          (published t d s older (length rs) f bytes)
          (record { frame = f; bytes = bytes; receipts = receipts_from f.first_sequence rs })

abbrev pub Ends : (Table → Type 0) → (Table → Committed → Type 0) → Outcome → Type 0
Ends P Q (t, ok c) = Q t c
Ends P Q (t, err s) = P t

install-encodes :
    (disk : Disk) (t : Table) (now : ℤ) (id : ℕ) (header : List ℕ)
    → install disk t now ≡ ok (id, header)
    → segment_encode (header_for t (new_segment t now id)) ≡ ok header
unfolding install
install-encodes disk t now id header e =
    let (_, e1) = >>-ok disk.partition_made _ e in
    let (id', _, e2) =
      >>=-ok (free_id disk.taken (2 ^ 64 - 1 - t.next_segment_id) t.next_segment_id) _ e1 in
    let (_, e3) = >>-ok disk.created _ e2 in
    let (header', encoded, e4) =
      >>=-ok (segment_encode (header_for t (new_segment t now id'))) _ e3 in
    let (_, e5) = >>-ok disk.header_written _ e4 in
    let (_, e6) = >>-ok disk.manifest_saved _ e5 in
    let same = ok-eq-ok _ _ e6 in
    subst (λ (p : ℕ × List ℕ). segment_encode (header_for t (new_segment t now p.0)) ≡ ok p.1) same
      encoded

-- A frame that was made: the rows with their ids, and the definitions that it carries.
pub record IsFrame {F : Type 0} (disk : Disk) (t : Table) (rs : List (Request F)) (row_count : ℕ)
    (rows : List ℕ) (d d' : Dictionary) (f : Frame) (bytes : List ℕ) : Type 0 where
  pub ids : List ℕ
  pub definitions : List ℕ × ℕ × ℕ
  pub assigned : intern_requests t.schema rs 0 rows d ≡ (d', ok ids)
  pub exported : export_limit d' d.count max_frame_bytes ≡ ok definitions
  pub made : frame_of t rs ids row_count definitions ≡ f
  pub encoded : frame_encode disk.frame_memory f ≡ ok bytes

pub attempt_lem :
    {F : Type 0} (disk : Disk) (t : Table) (rs : List (Request F)) (row_count row_bytes : ℕ)
    (rows : List ℕ) (d d' : Dictionary) (f : Frame) (bytes : List ℕ)
    → attempt disk t rs row_count row_bytes rows d ≡ (d', ok (f, bytes))
    → IsFrame disk t rs row_count rows d d' f bytes
unfolding attempt encode_group
attempt_lem disk t rs row_count row_bytes rows d d' f bytes e =
    interned (intern_requests t.schema rs 0 rows d) refl e
  where
    interned :
        (r : Interned (List ℕ))
        → intern_requests t.schema rs 0 rows d ≡ r
        → and_then r (λ d' rows. (d', encode_group disk t rs row_count row_bytes d.count rows d'))
          ≡ (d', ok (f, bytes))
        → IsFrame disk t rs row_count rows d d' f bytes
    interned (d1, ok ids) assigned e =
        let same : d1 ≡ d' = ap (λ o. o.0) e in
        let (definitions, exported, e1) =
          >>=-ok (export_limit d1 d.count max_frame_bytes) _ (ap (λ o. o.1) e) in
        let (_, e2) =
          reject-eq-ok (ltb (max_frame_bytes - 96 - row_bytes) definitions.1) limit _ e1 in
        let (bytes', encoded, e3) =
          >>=-ok (frame_encode disk.frame_memory (frame_of t rs ids row_count definitions)) _ e2 in
        let both = ok-eq-ok _ _ e3 in
        record {
          ids = ids;
          definitions = definitions;
          assigned = assigned ∙ ap (λ o. (o, ok ids)) same;
          exported =
              subst (λ o. export_limit o d.count max_frame_bytes ≡ ok definitions) same exported;
          made = ap (λ p. p.0) both;
          encoded =
              subst (λ (p : Frame × List ℕ). frame_encode disk.frame_memory p.0 ≡ ok p.1) both
                encoded;
        }
    interned (d1, err s) assigned e = absurd (let z = ap (λ o. o.1) e in cc)

pub IsFrame-IsNext :
    {F : Type 0} {disk : Disk} {t : Table} {rs : List (Request F)} {row_count : ℕ} {rows : List ℕ}
    {d d' : Dictionary} {f : Frame} {bytes : List ℕ}
    → row_count ≡ rows_in rs
    → IsFrame disk t rs row_count rows d d' f bytes
    → IsNext disk rs t f bytes
unfolding frame_of
IsFrame-IsNext c x = record {
  next = sym (ap (λ f. f.first_sequence) x.made);
  starts = sym (ap (λ f. f.min_time) x.made);
  ends = sym (ap (λ f. f.max_time) x.made);
  counted = sym (ap (λ f. f.row_count) x.made) ∙ c;
  encoded = x.encoded;
}

sized-add : (a b n : ℕ) → sized (add_size a b) ≡ ok n → n ≡ a + b
unfolding sized add_size
sized-add a b n e = elim (Bool-cases (ltb (size_max - b) a)) [
  | inl past ↦ absurd (let z = rw past at e in cc)
  | inr fits ↦ let z = rw fits at e in sym (ok-eq-ok _ _ z)
]

-- the rows of a group that is accepted
measure-rows :
    {F : Type 0} (rs : List (Request F)) (rows bytes m n : ℕ)
    → measure rs rows bytes ≡ ok (m, n)
    → m ≡ rows + rows_in rs
unfolding measure
measure-rows [] rows bytes m n e =
    (let same = ap (λ p. p.0) (ok-eq-ok _ _ e) in omega (arith, same))
measure-rows (r ∷ rs) rows bytes m n e =
    let (rows', sum, e1) = >>=-ok (sized (add_size rows r.row_count)) _ e in
    let (bytes', _, e2) = >>=-ok (sized (add_size bytes r.row_bytes)) _ e1 in
    let rest = measure-rows rs rows' bytes' m n e2 in
    let added = sized-add rows r.row_count rows' sum in omega (arith, rest, added)

pub prepare-counted :
    {F : Type 0} (disk : Disk) (rs : List (Request F)) (o : CommitOptions) (t : Table) (m n : ℕ)
    → prepare disk rs o t ≡ ok (m, n)
    → m ≡ rows_in rs
unfolding prepare check_group
prepare-counted disk rs o t m n e =
    let ((m1, n1), checked, e1) = >>=-ok (check_group rs) _ e in
    let (_, e2) = reject-eq-ok (not disk.rows_memory) nomem _ e1 in
    let (_, e3) = reject-eq-ok (t.read_only || o.database_read_only) Status.read_only _ e2 in
    let (_, e4) = reject-eq-ok (ltb (2 ^ 64 - 1 - m1) t.last_sequence) limit _ e3 in
    let ((m2, n2), measured, c1) = >>=-ok (measure rs 0 0) _ checked in
    let (_, c2) =
      reject-eq-ok (length rs == 0 || ltb (max_frame_bytes - 96) n2 || ltb (2 ^ 32 - 1) m2) limit _
        c1 in
    let (_, c3) = reject-eq-ok (bad_times (first_time rs) (last_time rs)) io _ c2 in
    let outer = ap (λ p. p.0) (ok-eq-ok _ _ e4) in
    let inner = ap (λ p. p.0) (ok-eq-ok _ _ c3) in
    let counted = measure-rows rs 0 0 m2 n2 measured in omega (arith, outer, inner, counted)

module _ {F : Type 0} (disk : Disk) (rs : List (Request F)) {P : Table → Type 0}
    {Q : Table → Committed → Type 0} (k : Preserved disk rs P Q) where
  append_frame-keeps :
      (t : Table) (d : Dictionary) (segments : List SegmentInfo) (f : Frame) (bytes : List ℕ)
      → t.segments ≡ segments
      → has_active t.segments ≡ true
      → IsNext disk rs t f bytes
      → P t
      → Ends P Q (append_frame disk rs t d segments f bytes)
  unfolding append_frame append_indexed append_readable append_written with_index_capacity
      with_readable_capacity
  append_frame-keeps t d [] f bytes e live x h = h
  append_frame-keeps t d (s ∷ older) f bytes e live x h =
      indexed (index_reserve disk.index_memory max_index_entries (length t.index) t.index_capacity)
    where
      written :
          (m n : ℕ) (r : Result (Unit {0}))
          → Ends P Q (
              append_written disk rs
                (with_readable_capacity (with_index_capacity t m) n)
                d
                s
                older
                f
                bytes
                r)
      written m n (err q) = k.torn _ (k.readable_capacity _ n (k.index_capacity t m h))
      written m n (ok q) =
          k.frame _ d s older f bytes e live
            (record {
              next = x.next;
              starts = x.starts;
              ends = x.ends;
              counted = x.counted;
              encoded = x.encoded;
            })
            (k.readable_capacity _ n (k.index_capacity t m h))

      made_readable :
          (m : ℕ) (r : Result ℕ)
          → Ends P Q (append_readable disk rs (with_index_capacity t m) d s older f bytes r)
      made_readable m (err q) = k.index_capacity t m h
      made_readable m (ok n) = written m n (disk.frame_written >> disk.frame_synced)

      indexed : (r : Result ℕ) → Ends P Q (append_indexed disk rs t d s older f bytes r)
      indexed (err q) = h
      indexed (ok m) = made_readable m (
          if s.last_sequence == 0
          then readable_reserve disk.readable_memory (length t.readable) t.readable_capacity
          else ok t.readable_capacity)

  settle-keeps : (d : Dictionary) (mark : ℕ) (o : Outcome) → Ends P Q o → Ends P Q (settle d mark o)
  unfolding settle
  settle-keeps d mark (t, ok c) h = h
  settle-keeps d mark (t, err s) h = k.dictionary t (rollback d mark) h

  append_with-keeps :
      (t : Table) (d : Dictionary) (mark : ℕ) (f : Frame) (bytes : List ℕ)
      → has_active t.segments ≡ true
      → IsNext disk rs t f bytes
      → P t
      → Ends P Q (append_with disk rs t d mark f bytes)
  unfolding append_with with_dictionary
  append_with-keeps t d mark f bytes live x h = settle-keeps d mark _ (
      append_frame-keeps (with_dictionary t d) d t.segments f bytes refl live
        (record {
          next = x.next;
          starts = x.starts;
          ends = x.ends;
          counted = x.counted;
          encoded = x.encoded;
        })
        (k.dictionary t d h))

  create_active-keeps :
      (t : Table) (now : ℤ)
      → P t
      → P (create_active disk t now).0
        × ((q : Unit {0})
            → (create_active disk t now).1 ≡ ok q
            → (has_active (create_active disk t now).0.segments ≡ true)
              × ((create_active disk t now).0.last_sequence ≡ t.last_sequence))
  unfolding create_active create_ready create_installed
  create_active-keeps t now h = prepared (ready disk t)
    where
      made :
          (r : Result (ℕ × List ℕ))
          → ((id : ℕ) (header : List ℕ)
              → r ≡ ok (id, header)
              → segment_encode (header_for t (new_segment t now id)) ≡ ok header)
          → P (create_installed t now r).0
            × ((q : Unit {0})
                → (create_installed t now r).1 ≡ ok q
                → (has_active (create_installed t now r).0.segments ≡ true)
                  × ((create_installed t now r).0.last_sequence ≡ t.last_sequence))
      made (ok (id, header)) encodes =
          (k.segment t now id header (encodes id header refl) h, λ q e. (refl, refl))
      made (err s) encodes = (k.protected t s h, λ q e. absurd (cc))

      prepared :
          (r : Result (Unit {0}))
          → P (create_ready disk t now r).0
            × ((q : Unit {0})
                → (create_ready disk t now r).1 ≡ ok q
                → (has_active (create_ready disk t now r).0.segments ≡ true)
                  × ((create_ready disk t now r).0.last_sequence ≡ t.last_sequence))
      prepared (ok q) = made (install disk t now) (install-encodes disk t now)
      prepared (err s) = (h, λ q e. absurd (cc))

  fresh_created-keeps :
      (d : Dictionary) (f : Frame) (bytes : List ℕ) (t : Table) (r : Table × Result (Unit {0}))
      → P r.0
      → ((q : Unit {0})
          → r.1 ≡ ok q
          → (has_active r.0.segments ≡ true) × (r.0.last_sequence ≡ t.last_sequence))
      → IsNext disk rs t f bytes
      → Ends P Q (fresh_created disk rs d f bytes r)
  unfolding fresh_created
  fresh_created-keeps d f bytes t (t', err s) h live x = h
  fresh_created-keeps d f bytes t (t', ok q) h live x =
      let (active, same) = live q refl in
      append_with-keeps t' d 0 f bytes active
        (record {
          next = x.next ∙ ap (λ n. n + 1) (sym same);
          starts = x.starts;
          ends = x.ends;
          counted = x.counted;
          encoded = x.encoded;
        })
        h

  commit_fresh-keeps :
      (o : CommitOptions) (t : Table) (row_count row_bytes : ℕ) (rows : List ℕ)
      → row_count ≡ rows_in rs
      → P t
      → Ends P Q (commit_fresh disk rs o t row_count row_bytes rows)
  unfolding commit_fresh commit_new fresh_attempted
  commit_fresh-keeps o t row_count row_bytes rows counted h =
      from_new (dictionary_new t.schema o.dictionary_limit_bytes)
    where
      attempted :
          (d : Dictionary) (r : Interned (Frame × List ℕ))
          → attempt disk t rs row_count row_bytes rows d ≡ r
          → Ends P Q (fresh_attempted disk rs t r)
      attempted d (d', err s) e = h
      attempted d (d', ok (f, bytes)) e =
          let (kept, live) = create_active-keeps t (first_time rs) h in
          fresh_created-keeps d' f bytes t _ kept live
            (IsFrame-IsNext counted (attempt_lem disk t rs row_count row_bytes rows d d' f bytes e))

      from_new :
          (r : Result Dictionary) → Ends P Q (commit_new disk rs t row_count row_bytes rows r)
      from_new (err s) = h
      from_new (ok d) = attempted d _ refl

  existing_attempted-keeps :
      (t : Table) (row_count row_bytes : ℕ) (rows : List ℕ) (d : Dictionary)
      (r : Interned (Frame × List ℕ))
      → row_count ≡ rows_in rs
      → attempt disk t rs row_count row_bytes rows d ≡ r
      → has_active t.segments ≡ true
      → P t
      → Ends P Q (existing_attempted disk rs t d.count r)
  unfolding existing_attempted
  existing_attempted-keeps t row_count row_bytes rows d (d', err s) counted e live h =
      k.dictionary t (rollback d' d.count) h
  existing_attempted-keeps t row_count row_bytes rows d (d', ok (f, bytes)) counted e live h =
      append_with-keeps t d' d.count f bytes live
        (IsFrame-IsNext counted (attempt_lem disk t rs row_count row_bytes rows d d' f bytes e)) h

  commit_tried-keeps :
      (o : CommitOptions) (t : Table) (row_count row_bytes : ℕ) (rows : List ℕ) (d : Dictionary)
      (r : Interned (Frame × List ℕ))
      → row_count ≡ rows_in rs
      → attempt disk t rs row_count row_bytes rows d ≡ r
      → has_active t.segments ≡ true
      → P t
      → Ends P Q (commit_tried disk rs o t row_count row_bytes rows d.count r)
  unfolding commit_tried
  commit_tried-keeps o t row_count row_bytes rows d (d', r) counted e live h =
      elim (Bool-cases (needs_segment o.segment_target_bytes t.segments r)) [
        | inl full ↦ rw full (
            commit_fresh-keeps o (with_dictionary t (rollback d' d.count)) row_count row_bytes rows
              counted (k.dictionary t (rollback d' d.count) h))
        | inr room ↦
            rw room (existing_attempted-keeps t row_count row_bytes rows d (d', r) counted e live h)
      ]

needs_day-active : (t : Table) (now : ℤ) → needs_day t now ≡ false → has_active t.segments ≡ true
unfolding needs_day
needs_day-active t now e = by_segments t.segments refl e
  where
    by_segments :
        (ss : List SegmentInfo)
        → t.segments ≡ ss
        → elim ss [
          | [] ↦ true
          | s ∷ older ↦
              not (has_active t.segments)
              || not (s.day_start ==ℤ day_of now)
              || leb max_index_entries (length t.index)
        ]
          ≡ false
        → has_active t.segments ≡ true
    by_segments [] same e = absurd (cc)
    by_segments (s ∷ older) same e = ground arith

module _ {F : Type 0} (disk : Disk) (rs : List (Request F)) {P : Table → Type 0}
    {Q : Table → Committed → Type 0} (k : Preserved disk rs P Q) where
  commit_rows-keeps :
      (o : CommitOptions) (t : Table) (row_count row_bytes : ℕ) (rows : List ℕ)
      (d : Option Dictionary)
      → row_count ≡ rows_in rs
      → P t
      → Ends P Q (commit_rows disk rs o t row_count row_bytes rows d)
  unfolding commit_rows
  commit_rows-keeps o t row_count row_bytes rows none counted h =
      commit_fresh-keeps disk rs k o t row_count row_bytes rows counted h
  commit_rows-keeps o t row_count row_bytes rows (some d) counted h =
      elim (Bool-cases (needs_day t (first_time rs))) [
        | inl next_day ↦
            rw next_day (commit_fresh-keeps disk rs k o t row_count row_bytes rows counted h)
        | inr same_day ↦ rw same_day (
            commit_tried-keeps disk rs k o t row_count row_bytes rows d _ counted refl
              (needs_day-active t (first_time rs) same_day) h)
      ]

  pub commit-keeps : (o : CommitOptions) (t : Table) → P t → Ends P Q (commit disk rs o t)
  unfolding commit commit_prepared
  commit-keeps o t h = prepared (prepare disk rs o t) refl
    where
      prepared :
          (r : Result (ℕ × ℕ)) → prepare disk rs o t ≡ r → Ends P Q (commit_prepared disk rs o t r)
      prepared (err s) e = h
      prepared (ok (row_count, row_bytes)) e =
          commit_rows-keeps o t row_count row_bytes (group_rows t.schema.row_width rs) t.dictionary
            (prepare-counted disk rs o t row_count row_bytes e) h
