-- ===== src/Query/Snapshots/Coverage.antt =====
-- Which segments a snapshot covers.
use webanalyticsdb.Prelude.{
  ℕ, ◌+◌, ◌≤◌, ◌<◌, ◌≡◌, ◌↔◌, refl, true, false, Option, some, none, arith, inl, inr, Bool-cases,
}
use webanalyticsdb.Prelude.Int.{◌≤ℤ◌, ltb_ℤ}
use webanalyticsdb.Core.Segments.{SegmentInfo}
use webanalyticsdb.Bisect.{search_between-Boundary, Boundary}
use webanalyticsdb.Query.Snapshots.{
  ScanOptions, is_past, starts_in_time, first_segment, end_segment, covered, is_empty_span,
}

-- The readable segments in their order: neither times nor sequence numbers go back.
abbrev pub AreOrdered : ℕ → (ℕ → SegmentInfo) → Type 0
AreOrdered n segments =
    (i j : ℕ)
    → i ≤ j
    → j < n
    → ((segments i).max_time ≤ℤ (segments j).max_time)
      × ((segments i).min_time ≤ℤ (segments j).min_time)
      × ((segments i).last_sequence ≤ (segments j).last_sequence)

is_past_mono :
    (o : Option ScanOptions) (s t : SegmentInfo)
    → s.max_time ≤ℤ t.max_time
    → s.last_sequence ≤ t.last_sequence
    → is_past o t ≡ true
    → is_past o s ≡ true
unfolding is_past
is_past_mono none s t le le' h = h
is_past_mono (some o) s t le le' h = ground arith

starts_in_time_mono :
    (o : Option ScanOptions) (s t : SegmentInfo)
    → s.min_time ≤ℤ t.min_time
    → starts_in_time o t ≡ true
    → starts_in_time o s ≡ true
unfolding starts_in_time
starts_in_time_mono none s t le h = refl
starts_in_time_mono (some o) s t le h = ground arith

module _ (o : Option ScanOptions) (n : ℕ) (segments : ℕ → SegmentInfo)
    (ordered : AreOrdered n segments) where
  first-Boundary : Boundary (λ i. is_past o (segments i)) 0 n (first_segment o n segments)
  unfolding first_segment
  first-Boundary =
      search_between-Boundary (λ i. is_past o (segments i)) 0 n (omega arith)
        (λ i j p q r h.
          let c = ordered i j q r in is_past_mono o (segments i) (segments j) c.0 c.2 h)

  end-Boundary :
      Boundary
        (λ i. starts_in_time o (segments i))
        (first_segment o n segments)
        n
        (end_segment o n segments)
  unfolding end_segment
  end-Boundary =
      search_between-Boundary (λ i. starts_in_time o (segments i)) (first_segment o n segments) n
        first-Boundary.below
        (λ i j p q r h.
          let c = ordered i j q r in starts_in_time_mono o (segments i) (segments j) c.1 h)

covered_tests :
    (o : Option ScanOptions) (n : ℕ) (segments : ℕ → SegmentInfo) (i : ℕ)
    → AreOrdered n segments
    → is_empty_span o ≡ false
    → i < n
    → ((first_segment o n segments ≤ i) × (i < first_segment o n segments + covered o n segments))
      ↔ ((is_past o (segments i) ≡ false) × (starts_in_time o (segments i) ≡ true))
unfolding covered
covered_tests o n segments i ordered span lt =
    let f = first-Boundary o n segments ordered in
    let e = end-Boundary o n segments ordered in
    ground (arith, f.holds i, f.fails i, e.holds i, e.fails i, e.above)

-- What a segment has to do with the options of a scan: it ends at or after the start of the span, has rows
-- behind the sequence number, and begins before the end of the span.
abbrev pub IsWanted : Option ScanOptions → SegmentInfo → Type 0
IsWanted none s = Unit {0}
IsWanted (some o) s =
    (o.start_time ≤ℤ s.max_time)
    × (o.after_sequence < s.last_sequence)
    × (¬ (o.end_time ≤ℤ s.min_time))

IsWanted-iff :
    (o : Option ScanOptions) (s : SegmentInfo)
    → ((is_past o s ≡ false) × (starts_in_time o s ≡ true)) ↔ IsWanted o s
unfolding is_past starts_in_time
IsWanted-iff none s = (λ h. tt, λ h. (refl, refl))
IsWanted-iff (some o) s = (
  λ h. (ground arith, ground arith, λ le. absurd (ground arith)),
  λ h. (ground arith, before_end h.2),
)
  where
    before_end : (¬ (o.end_time ≤ℤ s.min_time)) → ltb_ℤ s.min_time o.end_time ≡ true
    before_end not_le = elim (Bool-cases (ltb_ℤ s.min_time o.end_time)) [
      | inl before ↦ before
      | inr after ↦ absurd (not_le (ground arith))
    ]

-- Over readable segments in order, and a span of time that is not empty, a snapshot covers exactly
-- the segments that end at or after the start of the span, have rows behind the sequence number, and
-- begin before the end of the span; without options, all of them.
pub covered_iff :
    (o : Option ScanOptions) (n : ℕ) (segments : ℕ → SegmentInfo) (i : ℕ)
    → AreOrdered n segments
    → is_empty_span o ≡ false
    → i < n
    → ((first_segment o n segments ≤ i) × (i < first_segment o n segments + covered o n segments))
      ↔ IsWanted o (segments i)
covered_iff o n segments i ordered span lt =
    let w = IsWanted-iff o (segments i) in
    let c = covered_tests o n segments i ordered span lt in (λ h. w.0 (c.0 h), λ h. c.1 (w.1 h))
