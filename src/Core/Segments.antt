-- ===== src/Core/Segments.antt =====
-- include/wadb.h: what the table's directory keeps of a segment.
use webanalyticsdb.Prelude.{ℕ}
use webanalyticsdb.Prelude.Int.{ℤ}

pub data SegmentState : Type 0 where
  active sealed retired : SegmentState

pub record SegmentInfo : Type 0 where
  pub id : ℕ
  pub day_start : ℤ
  pub first_sequence : ℕ
  pub last_sequence : ℕ
  pub min_time : ℤ
  pub max_time : ℤ
  pub committed_bytes : ℕ
  pub state : SegmentState
