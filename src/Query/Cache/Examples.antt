-- ===== src/Query/Cache/Examples.antt =====
-- The cache at concrete values: a dictionary that a reader loads, and a cache without room.
use webanalyticsdb.Prelude.{◌-◌, ◌+◌, ◌<◌, ◌≡◌, refl, ap, [], ◌∷◌, arith}
use webanalyticsdb.Core.Status.{ok}
use webanalyticsdb.Schema.{Schema}
use webanalyticsdb.Dictionary.{Dictionary, empty_dictionary}
use webanalyticsdb.Query.Cache.{
  Key, Cache, CacheLimits, pinned, reserved, has_entry, with_reservation, reserve, publish,
  is_short, make_room, same_key, reservation, new_entry,
}
use webanalyticsdb.Query.Cache.Budget.{IsBudgeted}
use webanalyticsdb.Query.Cache.Readers.{
  Reachable, started, loaded, found, start, next, Reachable-IsBudgeted,
}
use webanalyticsdb.Query.Cache.Refusal.{AreHeld, reserve-pinned}

abbrev march : Key
march = record { table_id = 1; segment_id = 3; covered_bytes = 4096; dictionary_crc = 77 }

abbrev limits : CacheLimits
limits = record { dictionary_limit_bytes = 1000; read_cache_bytes = 1500 }

abbrev empty_cache : Cache
empty_cache = record { entries = []; bytes = 0; clock = 0; hits = 0; misses = 0 }

abbrev loading : Cache
loading = record { entries = []; bytes = 1072; clock = 0; hits = 0; misses = 1 }

loading_ok : reserve limits march empty_cache ≡ (loading, reserved)
unfolding reserve has_entry make_room is_short reservation with_reservation
loading_ok = refl

abbrev times_only : Schema
times_only = record { row_width = 8; null_bytes = 0; fingerprint = 0; fields = [] }

abbrev no_strings : Dictionary
no_strings = empty_dictionary times_only 144 1000

no_strings_bytes : no_strings.allocated_bytes ≡ 144
unfolding empty_dictionary
no_strings_bytes = refl

abbrev stored : Cache
stored = publish limits march (ok no_strings) loading

-- a reader that loads the dictionary, and a second one that finds it
two_readers : Reachable limits (reserve limits march stored).0 0 (march ∷ march ∷ [])
unfolding reserve has_entry publish same_key new_entry
two_readers =
    next
      (next (next start (started march empty_cache 0 [] (ap (λ r. r.1) loading_ok))) (
        loaded march no_strings (reserve limits march empty_cache).0 0 []
          (omega (arith, no_strings_bytes))))
      (found march _ 0 (march ∷ []) refl)

Reachable-IsBudgeted_example :
    IsBudgeted limits (reserve limits march stored).0 0 (march ∷ march ∷ [])
Reachable-IsBudgeted_example = Reachable-IsBudgeted limits two_readers

-- while one dictionary is being loaded there is no room for a second one
refused_here : (reserve limits march loading).1 ≡ pinned
unfolding reserve has_entry make_room is_short reservation with_reservation
refused_here = refl

reserve-pinned_example :
    AreHeld (reserve limits march loading).0.entries
    × (1500 - (reserve limits march loading).0.bytes < 1000 + 72)
reserve-pinned_example = reserve-pinned limits march loading refused_here
