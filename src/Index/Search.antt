-- ===== src/Index/Search.antt =====
-- Where a scan of an index starts.
use webanalyticsdb.Prelude.{
  ℕ, ◌+◌, ◌≤◌, ◌<◌, ◌≡◌, ◌↔◌, ◌⊎◌, inl, inr, true, false, Bool-cases, arith,
}
use webanalyticsdb.Prelude.Int.{ℤ, ◌≤ℤ◌, ltb_ℤ}
use webanalyticsdb.Bisect.{search_between-Boundary}
use webanalyticsdb.Index.{IndexEntry, before_bound, index_lower_bound}

-- Frames in the order in which they were committed: neither their last times nor their last
-- sequence numbers go back.
abbrev pub AreCommitted : ℕ → (ℕ → IndexEntry) → Type 0
AreCommitted count entry =
    (i j : ℕ)
    → i ≤ j
    → j < count
    → ((entry i).max_time ≤ℤ (entry j).max_time)
      × ((entry i).first_sequence + (entry i).row_count
          ≤ (entry j).first_sequence + (entry j).row_count)

before_bound_mono :
    (time : ℤ) (sequence : ℕ) (v w : IndexEntry)
    → v.max_time ≤ℤ w.max_time
    → v.first_sequence + v.row_count ≤ w.first_sequence + w.row_count
    → before_bound time sequence w ≡ true
    → before_bound time sequence v ≡ true
unfolding before_bound
before_bound_mono time sequence v w le le' h = ground arith

-- All rows of the frame are before the time, or its last one is not behind the sequence number.
abbrev pub IsBefore : ℤ → ℕ → IndexEntry → Type 0
IsBefore time sequence v =
    (¬ (time ≤ℤ v.max_time)) ⊎ (v.first_sequence + v.row_count ≤ sequence + 1)

before_bound_iff :
    (time : ℤ) (sequence : ℕ) (v : IndexEntry)
    → (before_bound time sequence v ≡ true) ↔ IsBefore time sequence v
unfolding before_bound
before_bound_iff time sequence v = elim (Bool-cases (ltb_ℤ v.max_time time)) [
  | inl early ↦ (λ h. inl (λ le. absurd (ground arith)), λ h. ground arith)
  | inr late ↦ (
    λ h. inr (ground arith),
    λ h. elim h [ inl not_le ↦ absurd (not_le (ground arith)) | inr few ↦ ground arith ],
  )
]

before_bound-false :
    (time : ℤ) (sequence : ℕ) (v : IndexEntry)
    → before_bound time sequence v ≡ false
    → (time ≤ℤ v.max_time) × (sequence + 1 < v.first_sequence + v.row_count)
unfolding before_bound
before_bound-false time sequence v h = ground arith

-- On the frames of an index in memory, in the order of their commits, the search finds the boundary: all
-- frames before it end before the time or have no row behind the sequence number, and from it on each
-- frame ends at or after the time and has a row behind the sequence number.
pub index_lower_bound-Boundary :
    (count : ℕ) (entry : ℕ → IndexEntry) (time : ℤ) (sequence : ℕ)
    → AreCommitted count entry
    → (index_lower_bound count entry time sequence ≤ count)
      × ((i : ℕ)
          → i < index_lower_bound count entry time sequence
          → IsBefore time sequence (entry i))
      × ((i : ℕ)
          → index_lower_bound count entry time sequence ≤ i
          → i < count
          → (time ≤ℤ (entry i).max_time)
            × (sequence + 1 < (entry i).first_sequence + (entry i).row_count))
unfolding index_lower_bound
index_lower_bound-Boundary count entry time sequence ordered =
    let b =
      search_between-Boundary (λ i. before_bound time sequence (entry i)) 0 count (omega arith)
        (λ i j p q r h.
          let o = ordered i j q r in
          before_bound_mono time sequence (entry i) (entry j) o.0 o.1 h) in
    (
      b.below,
      λ i lt. (before_bound_iff time sequence (entry i)).0 (b.holds i (omega arith) lt),
      λ i le lt. before_bound-false time sequence (entry i) (b.fails i le lt),
    )
