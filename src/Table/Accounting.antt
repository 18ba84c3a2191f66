-- ===== src/Table/Accounting.antt =====
-- What the counters of a table and its directory of readable segments have to say of its segments, and that
-- commits keep it.
use webanalyticsdb.Prelude.{
  ℕ, ◌+◌, ◌-◌, ◌≤◌, ◌<◌, ◌≡◌, ◌≢◌, refl, sym, ap, subst, ◌∙◌, Bool, true, false, not, ◌&&◌, List,
  [], ◌∷◌, ◌++◌, ◌==◌, if◌then◌else◌, length, Bool-cases, then_of, else_of, inl, inr, arith,
}
use mathlib.Core.List.{append-nil}
use webanalyticsdb.Prelude.Int.{ℤ}
use webanalyticsdb.Core.Status.{Status, ok, err}
use webanalyticsdb.Core.Segments.{SegmentState, SegmentInfo, active, sealed, retired}
use webanalyticsdb.Format.Frame.{Frame, frame_sizes, bad_frame_values, frame_encode}
use webanalyticsdb.Format.Frame.RoundTrip.{encode_sized-eq_ok}
use webanalyticsdb.Dictionary.{Dictionary}
use webanalyticsdb.Query.Snapshots.{is_active}
use webanalyticsdb.Table.{
  Table, Disk, has_active, seal, seal_newest, new_segment, installed, is_indeterminate,
  protect_uncertain,
}
use webanalyticsdb.Table.Commit.{Request}
use webanalyticsdb.Table.Append.{
  CommitOptions, Outcome, extend_segment, published, uncertain, with_dictionary,
  with_index_capacity, with_readable_capacity, commit,
}
use webanalyticsdb.Table.Induction.{Preserved, Ends, commit-keeps}
use webanalyticsdb.Table.Retention.{is_retired, counted}

abbrev pub is_shown : SegmentInfo → Bool
is_shown s = not (is_retired s.state) && not (s.last_sequence == 0)

abbrev pub kept_one : SegmentInfo → ℕ
kept_one s = counted (not (is_retired s.state)) 1

abbrev pub kept_bytes : SegmentInfo → ℕ
kept_bytes s = counted (not (is_retired s.state)) s.committed_bytes

abbrev pub kept_rows : SegmentInfo → ℕ
kept_rows s = counted (is_shown s) (s.last_sequence - s.first_sequence + 1)

abbrev pub total_of : (SegmentInfo → ℕ) → List SegmentInfo → ℕ
total_of measure [] = 0
total_of measure (s ∷ ss) = measure s + total_of measure ss

-- the positions of the segments with rows that are not retired, from the oldest on
abbrev pub positions : List SegmentInfo → List ℕ
positions [] = []
positions (s ∷ older) = positions older ++ (if is_shown s then length older ∷ [] else [])

-- an active segment stands at the end of the rows
abbrev pub IsTail : ℕ → List SegmentInfo → Type 0
IsTail last [] = Unit
IsTail last (s ∷ older) =
    is_active s.state ≡ true
    → (s.last_sequence ≡ 0 → s.first_sequence ≡ last + 1)
      × (s.last_sequence ≢ 0 → (s.last_sequence ≡ last) × (s.first_sequence ≤ last))

pub record IsAccounted (t : Table) : Type 0 where
  pub segments : t.retained_segments ≡ total_of kept_one t.segments
  pub bytes : t.retained_bytes ≡ total_of kept_bytes t.segments
  pub rows : t.retained_rows ≡ total_of kept_rows t.segments
  pub readable : t.readable ≡ positions t.segments
  pub tail : IsTail t.last_sequence t.segments

active_kept : (s : SegmentState) → is_active s ≡ true → is_retired s ≡ false
active_kept active h = refl
active_kept sealed h = refl
active_kept retired h = absurd (cc)

-- sealing a segment changes no count
seal-same :
    (s : SegmentInfo)
    → (kept_one (seal s) ≡ kept_one s)
      × (kept_bytes (seal s) ≡ kept_bytes s)
      × (kept_rows (seal s) ≡ kept_rows s)
      × (is_shown (seal s) ≡ is_shown s)
unfolding seal
seal-same s = elim (Bool-cases (is_active s.state)) [
  | inl live ↦ let kept = active_kept s.state live in rw (live, kept) (refl, refl, refl, refl)
  | inr other ↦ rw other (refl, refl, refl, refl)
]

frame_rows :
    (calloc : ℕ → Bool) (f : Frame) (bytes : List ℕ)
    → frame_encode calloc f ≡ ok bytes
    → 0 < f.row_count
unfolding frame_encode frame_sizes bad_frame_values
frame_rows calloc f bytes e =
    let (r, total, sizes, _, _, _) = encode_sized-eq_ok calloc f (frame_sizes f) bytes e in
    ground arith

seal_newest-same :
    (ss : List SegmentInfo)
    → (total_of kept_one (seal_newest ss) ≡ total_of kept_one ss)
      × (total_of kept_bytes (seal_newest ss) ≡ total_of kept_bytes ss)
      × (total_of kept_rows (seal_newest ss) ≡ total_of kept_rows ss)
      × (positions (seal_newest ss) ≡ positions ss)
unfolding seal_newest
seal_newest-same [] = (refl, refl, refl, refl)
seal_newest-same (s ∷ older) =
    let (one, bytes, rows, shown) = seal-same s in
    (
      ap (λ n. n + total_of kept_one older) one,
      ap (λ n. n + total_of kept_bytes older) bytes,
      ap (λ n. n + total_of kept_rows older) rows,
      ap (λ b. positions older ++ (if b then length older ∷ [] else [])) shown,
    )

installed-IsAccounted :
    (t : Table) (now : ℤ) (id : ℕ) (header : List ℕ)
    → IsAccounted t
    → IsAccounted (installed t now id header)
unfolding installed new_segment counted
installed-IsAccounted t now id header h =
    let (one, bytes, rows, shown) = seal_newest-same t.segments in
    record {
      segments = omega (arith, h.segments, one);
      bytes = omega (arith, h.bytes, bytes);
      rows = omega (arith, h.rows, rows);
      readable = h.readable ∙ sym shown ∙ sym (append-nil _);
      tail = λ live. (λ empty. refl, λ full. absurd (full refl));
    }

-- the active segment before and after a frame
module _ (last : ℕ) (s : SegmentInfo) (f : Frame) (n : ℕ) (live : is_active s.state ≡ true)
    (next : f.first_sequence ≡ last + 1) (some_rows : 0 < f.row_count)
    (tail : (s.last_sequence ≡ 0 → s.first_sequence ≡ last + 1)
      × (s.last_sequence ≢ 0 → (s.last_sequence ≡ last) × (s.first_sequence ≤ last))) where
  extended_rows : kept_rows (extend_segment f n s) ≡ kept_rows s + f.row_count
  unfolding extend_segment counted
  extended_rows = let kept = active_kept s.state live in ground arith

  extended_shown : is_shown (extend_segment f n s) ≡ true
  unfolding extend_segment
  extended_shown = let kept = active_kept s.state live in ground arith

  extended_bytes : kept_bytes (extend_segment f n s) ≡ kept_bytes s + n
  unfolding extend_segment counted
  extended_bytes = let kept = active_kept s.state live in ground arith

  extended_one : kept_one (extend_segment f n s) ≡ kept_one s
  unfolding extend_segment
  extended_one = refl

  extended-IsTail :
      (older : List SegmentInfo)
      → IsTail (f.first_sequence + f.row_count - 1) (extend_segment f n s ∷ older)
  unfolding extend_segment
  extended-IsTail older still = (
    λ empty. absurd (omega arith),
    λ full. (
      refl,
      (elim (Bool-cases (s.last_sequence == 0)) [
        | inl empty ↦ let first = tail.0 (ground arith) in omega (arith, first)
        | inr full ↦ let first = (tail.1 (ground arith)).1 in omega (arith, first)
      ]),
    ),
  )

  extended_positions :
      (older : List SegmentInfo) (readable : List ℕ)
      → readable ≡ positions (s ∷ older)
      → (if s.last_sequence == 0 then readable ++ (length older ∷ []) else readable)
        ≡ positions (extend_segment f n s ∷ older)
  unfolding extend_segment
  extended_positions older readable was =
      let kept = active_kept s.state live in
      let shown = extended_shown in
      elim (Bool-cases (s.last_sequence == 0)) [
        | inl empty ↦
            let hidden : is_shown s ≡ false = rw (kept, empty) refl in
            let base : readable ≡ positions older =
              was
              ∙ ap (λ b. positions older ++ (if b then length older ∷ [] else [])) hidden
              ∙ append-nil _ in
            then_of (s.last_sequence == 0) _ _ empty (
              ap (λ r. r ++ (length older ∷ [])) base
              ∙ sym (ap (λ b. positions older ++ (if b then length older ∷ [] else [])) shown))
        | inr full ↦
            let visible : is_shown s ≡ true = rw (kept, full) refl in
            else_of (s.last_sequence == 0) _ _ full (
              was
              ∙ ap (λ b. positions older ++ (if b then length older ∷ [] else []))
                  (visible ∙ sym shown))
      ]

published-IsAccounted :
    (t : Table) (d : Dictionary) (s : SegmentInfo) (older : List SegmentInfo) (n : ℕ) (f : Frame)
    (bytes : List ℕ)
    → t.segments ≡ s ∷ older
    → is_active s.state ≡ true
    → f.first_sequence ≡ t.last_sequence + 1
    → 0 < f.row_count
    → IsAccounted t
    → IsAccounted (published t d s older n f bytes)
unfolding published
published-IsAccounted t d s older n f bytes same live next some_rows h =
    let tail = subst (IsTail t.last_sequence) same h.tail live in
    let rows = extended_rows t.last_sequence s f (length bytes) live next some_rows tail in
    let more = extended_bytes t.last_sequence s f (length bytes) live next some_rows tail in
    let one = extended_one t.last_sequence s f (length bytes) live next some_rows tail in
    let one_was = h.segments ∙ ap (total_of kept_one) same in
    let bytes_was = h.bytes ∙ ap (total_of kept_bytes) same in
    let rows_was = h.rows ∙ ap (total_of kept_rows) same in
    record {
      segments = omega (arith, one_was, one);
      bytes = omega (arith, bytes_was, more);
      rows = omega (arith, rows_was, rows);
      readable =
          extended_positions t.last_sequence s f (length bytes) live next some_rows tail older
            t.readable (h.readable ∙ ap positions same);
      tail = extended-IsTail t.last_sequence s f (length bytes) live next some_rows tail older;
    }

protected-IsAccounted :
    (t : Table) (s : Status) → IsAccounted t → IsAccounted (protect_uncertain t s)
unfolding protect_uncertain
protected-IsAccounted t s h = elim (Bool-cases (is_indeterminate s)) [
  | inl open_end ↦ rw open_end (record {
    segments = h.segments;
    bytes = h.bytes;
    rows = h.rows;
    readable = h.readable;
    tail = h.tail;
  })
  | inr other ↦ rw other h
]

module _ {F : Type 0} (disk : Disk) (rs : List (Request F)) where
  IsAccounted-Preserved : Preserved disk rs IsAccounted (λ t c. IsAccounted t)
  unfolding with_dictionary with_index_capacity with_readable_capacity uncertain has_active
  IsAccounted-Preserved = record {
    dictionary = λ t d h. record {
      segments = h.segments;
      bytes = h.bytes;
      rows = h.rows;
      readable = h.readable;
      tail = h.tail;
    };
    index_capacity = λ t n h. record {
      segments = h.segments;
      bytes = h.bytes;
      rows = h.rows;
      readable = h.readable;
      tail = h.tail;
    };
    readable_capacity = λ t n h. record {
      segments = h.segments;
      bytes = h.bytes;
      rows = h.rows;
      readable = h.readable;
      tail = h.tail;
    };
    torn = λ t h. record {
      segments = h.segments;
      bytes = h.bytes;
      rows = h.rows;
      readable = h.readable;
      tail = h.tail;
    };
    protected = protected-IsAccounted;
    segment = λ t now id header e h. installed-IsAccounted t now id header h;
    frame = λ t d s older f bytes same live x h.
        published-IsAccounted t d s older (length rs) f bytes same (sym (ap has_active same) ∙ live)
          x.next (frame_rows disk.frame_memory f bytes x.encoded) h;
  }

  -- Whether a commit succeeds or fails, the counters of the table are then those of its segments that are not
  -- retired, its directory has the positions of those with rows, in order, and its active segment
  -- ends where the rows of the table end.
  pub commit-IsAccounted :
      (o : CommitOptions) (t : Table) → IsAccounted t → IsAccounted (commit disk rs o t).0
  commit-IsAccounted o t h =
      either (commit disk rs o t) (commit-keeps disk rs IsAccounted-Preserved o t h)
    where
      either : (r : Outcome) → Ends IsAccounted (λ t c. IsAccounted t) r → IsAccounted r.0
      either (t, ok c) h = h
      either (t, err s) h = h
