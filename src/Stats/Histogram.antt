-- ===== src/Stats/Histogram.antt =====
-- core/stats.c: `wadb_histogram_record` and `percentile`. Bin i counts the latencies of at most
-- 2 ^ i microseconds that no lower bin counts.
pub mod Laws
use webanalyticsdb.Prelude.{
  ℕ, zero, suc, ◌+◌, ◌-◌, ◌*◌, ◌/◌, ◌%◌, ◌^◌, ◌≤◌, ◌<◌, Bool, not, ◌||◌, List, ltb, leb, ◌==◌,
  if◌then◌else◌, get_or, set,
}

pub record Histogram : Type 0 where
  pub bins : List ℕ
  pub count : ℕ
  pub max_us : ℕ

abbrev pub u64_max : ℕ
u64_max = 2 ^ 64 - 1

-- ns / 1000 + (ns % 1000 != 0)
unfoldable pub microseconds : ℕ → ℕ
microseconds ns = ns / 1000 + (if ns % 1000 == 0 then 0 else 1)

-- `while (bound > 1) { bound = bound / 2 + (bound % 2 != 0); ++bin; }`. A value below 2 ^ 64 is
-- halved 64 times at most.
unfoldable pub bin_loop : ℕ → ℕ → ℕ → ℕ
bin_loop zero bound bin = bin
bin_loop (suc fuel) bound bin =
    let rest = bin_loop fuel (bound / 2 + (if bound % 2 == 0 then 0 else 1)) (bin + 1) in
    if ltb 1 bound then rest else bin

unfoldable pub bin_for : ℕ → ℕ
bin_for us = bin_loop 64 us 0

unfoldable pub count_in : ℕ → ℕ → Histogram → Histogram
count_in us bin h = if h.count == u64_max || get_or h.bins bin 0 == u64_max then h else record {
  bins = set h.bins bin (get_or h.bins bin 0 + 1);
  count = h.count + 1;
  max_us = if ltb h.max_us us then us else h.max_us;
}

unfoldable pub histogram_record : Histogram → ℕ → Histogram
unfolding microseconds bin_for count_in
histogram_record h ns = count_in (microseconds ns) (bin_for (microseconds ns)) h

-- The rank that the percentile asks for.
unfoldable pub target : ℕ → ℕ → ℕ
target count percent = count / 100 * percent + (count % 100 * percent + 99) / 100

-- `for (i = 0; i < 64; ++i) { seen += bins[i]; if (seen >= target) return 1 << i; }`
unfoldable pub percentile_loop : ℕ → ℕ → ℕ → ℕ → List ℕ → ℕ
percentile_loop zero i seen rank bins = u64_max
percentile_loop (suc n) i seen rank bins =
    let seen' = (seen + get_or bins i 0) % 2 ^ 64 in
    let rest = percentile_loop n (i + 1) seen' rank bins in if leb rank seen' then 2 ^ i else rest

unfoldable pub percentile : Histogram → ℕ → ℕ
percentile h percent =
    if h.count == 0 then 0 else percentile_loop 64 0 0 (target h.count percent) h.bins
