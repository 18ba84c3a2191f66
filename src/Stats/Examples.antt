-- ===== src/Stats/Examples.antt =====
-- The statistics, the notifications and the segment pages of core/stats.c at concrete values.
use webanalyticsdb.Prelude.{
  ℕ, zero, suc, ◌*◌, ◌%◌, ◌^◌, get_elem?, ◌≤◌, ◌<◌, ◌≡◌, refl, true, false, List, [], ◌∷◌, some,
  take, replicate, arith,
}
use webanalyticsdb.Prelude.Int.{pos}
use webanalyticsdb.Core.Status.{ok}
use webanalyticsdb.Core.Segments.{SegmentInfo, sealed}
use webanalyticsdb.Stats.Histogram.{Histogram, percentile}
use webanalyticsdb.Stats.Histogram.Laws.{IsCounted, sum, percentile_lem}
use webanalyticsdb.Stats.Notifications.{Ring, notification_capacity, notify, read_notifications}
use webanalyticsdb.Stats.Notifications.Laws.{Holds, notify-Holds, read_notifications_lem}
use webanalyticsdb.Stats.Pages.{list_segments, behind, list_segments_lem, AreAscending, id_at}

abbrev no_latencies : Histogram
no_latencies = record { bins = replicate {A = ℕ} 64 0; count = 0; max_us = 0 }

no_latencies-IsCounted : IsCounted no_latencies
unfolding sum
no_latencies-IsCounted = record { width = refl; total = refl }

abbrev three_latencies : Histogram
three_latencies = record { bins = 2 ∷ 0 ∷ 0 ∷ 1 ∷ replicate {A = ℕ} 60 0; count = 3; max_us = 7 }

three_latencies-IsCounted : IsCounted three_latencies
unfolding sum
three_latencies-IsCounted = record { width = refl; total = refl }

percentile_lem_example :
    (j : ℕ) × (percentile three_latencies 95 ≡ 2 ^ j)
    × (j < 64)
    × (3 * 95 ≤ 100 * sum (take (suc j) three_latencies.bins))
    × (100 * sum (take j three_latencies.bins) < 3 * 95)
percentile_lem_example =
    percentile_lem three_latencies 95 three_latencies-IsCounted (omega arith) (omega arith)
      (omega arith) (omega arith)

abbrev empty_ring : Ring ℕ
empty_ring = record { slots = replicate {A = ℕ} 1024 0; latest = 0 }

empty_ring-Holds : Holds empty_ring []
empty_ring-Holds = record { size = refl; count = refl; kept = λ i lt near. absurd (omega arith) }

notify-Holds_example : Holds (notify (λ i. i) empty_ring) (1 ∷ [])
notify-Holds_example = notify-Holds (λ i. i) empty_ring [] (omega arith) empty_ring-Holds

abbrev one_event_ring : Ring ℕ
one_event_ring = record { slots = 1 ∷ replicate {A = ℕ} 1023 0; latest = 1 }

one_event_kept :
    (i : ℕ)
    → i < 1
    → get_elem? one_event_ring.slots (i % notification_capacity) ≡ get_elem? (1 ∷ []) i
one_event_kept zero lt = refl
one_event_kept (suc i) lt = absurd (omega arith)

one_event-Holds : Holds one_event_ring (1 ∷ [])
one_event-Holds = record { size = refl; count = refl; kept = λ i lt near. one_event_kept i lt }

read_notifications_lem_example :
    read_notifications one_event_ring 0 8
    ≡ ok (record { events = some 1 ∷ []; latest = 1; gap = false })
read_notifications_lem_example =
    read_notifications_lem one_event_ring (1 ∷ []) 0 8 one_event-Holds (omega arith)

abbrev segment : ℕ → SegmentInfo
segment id = record {
  id = id;
  day_start = pos 0;
  first_sequence = 1;
  last_sequence = 1;
  min_time = pos 0;
  max_time = pos 0;
  committed_bytes = 128;
  state = sealed;
}

abbrev two_segments : List SegmentInfo
two_segments = segment 2 ∷ segment 4 ∷ []

two_segments-AreAscending : AreAscending two_segments
unfolding id_at
two_segments-AreAscending zero zero le lt = omega arith
two_segments-AreAscending zero (suc zero) le lt = omega arith
two_segments-AreAscending (suc zero) (suc zero) le lt = omega arith
two_segments-AreAscending (suc i) zero le lt = absurd (omega arith)
two_segments-AreAscending i (suc (suc j)) le lt = absurd (omega arith)
two_segments-AreAscending (suc (suc i)) (suc zero) le lt = absurd (omega arith)

list_segments_lem_example :
    list_segments two_segments 0 1 ≡ ok (record { segments = segment 2 ∷ []; more = true })
unfolding behind
list_segments_lem_example =
    list_segments_lem two_segments 0 1 two_segments-AreAscending (omega arith) (omega arith)
