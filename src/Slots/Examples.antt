-- ===== src/Slots/Examples.antt =====
-- A walk over four slots, the first of which is taken.
use webanalyticsdb.Prelude.{ℕ, ◌≡◌, ◌≢◌, refl, arith}
use webanalyticsdb.Slots.{vacant, spun, store, no_slots, no_entry, probe}
use webanalyticsdb.Slots.Laws.{probe_stops}

abbrev one_taken : ℕ → ℕ
one_taken = store no_slots 0 1

past_the_first : probe no_entry one_taken 4 8 ≡ vacant 1
unfolding probe no_entry store no_slots
past_the_first = refl

probe_stops_example : probe no_entry one_taken 4 8 ≢ spun
unfolding store no_slots
probe_stops_example = probe_stops no_entry one_taken 4 8 (omega arith)
