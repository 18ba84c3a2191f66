-- ===== src/Stats/Histogram/Laws.antt =====
-- The histogram counts every latency once, in the bin of the least power of two above it.
use native.Mathlib.Nat.{pow-suc, zero-add, div-add-mod}
use native.Mathlib.Numerals.{add-one}
use webanalyticsdb.Prelude.{
  ℕ, zero, suc, ◌+◌, ◌*◌, ◌/◌, ◌%◌, ◌^◌, ◌≤◌, ◌<◌, ◌≡◌, refl, ◌||◌, ap, ◌∙◌, arith, List, [], ◌∷◌,
  ltb, leb, ◌==◌, if◌then◌else◌, length, get_or, set, take, take-length, Bool-cases, inl, inr,
}
use webanalyticsdb.Stats.Histogram.{
  Histogram, u64_max, microseconds, bin_loop, bin_for, count_in, histogram_record, target,
  percentile_loop, percentile,
}

-- No lower power of two is large enough.
abbrev pub Least : ℕ → ℕ → Type 0
Least zero bound = Unit {0}
Least (suc k) bound = 2 ^ k < bound

halved : ℕ → ℕ
halved bound = bound / 2 + (if bound % 2 == 0 then 0 else 1)

halved_bounds : (bound : ℕ) → (bound ≤ 2 * halved bound) × (2 * halved bound ≤ bound + 1)
unfolding halved
halved_bounds bound = ground arith

Least-suc : (k bound : ℕ) → 1 < bound → Least k (halved bound) → Least (suc k) bound
Least-suc zero bound more h = omega arith
Least-suc (suc k) bound more h = omega (arith, pow-suc 2 k, halved_bounds bound)

-- From `bound` the loop adds the least k with bound ≤ 2 ^ k, if the fuel allows it.
bin_loop_lem :
    (fuel bound bin : ℕ)
    → bound ≤ 2 ^ fuel
    → (k : ℕ) × (bin_loop fuel bound bin ≡ bin + k) × (k ≤ fuel) × (bound ≤ 2 ^ k) × Least k bound
unfolding bin_loop halved
bin_loop_lem zero bound bin h = (0, omega arith, omega arith, h, tt)
bin_loop_lem (suc fuel) bound bin h = elim (Bool-cases (ltb 1 bound)) [
  | inr stop ↦ rw stop (0, omega arith, omega arith, ground arith, tt)
  | inl more ↦
      let (k, e, k_le, above, least) =
        bin_loop_lem fuel (halved bound) (bin + 1)
          (omega (arith, pow-suc 2 fuel, halved_bounds bound)) in
      rw more (
        suc k,
        e ∙ omega arith,
        omega arith,
        omega (arith, pow-suc 2 k, halved_bounds bound),
        Least-suc k bound (ground arith) least,
      )
]

-- A latency below 2 ^ 64 microseconds goes to the bin of the least power of two that it does not
-- pass.
pub bin_for_lem :
    (us : ℕ) → us < 2 ^ 64 → (us ≤ 2 ^ bin_for us) × Least (bin_for us) us × (bin_for us ≤ 64)
unfolding bin_for
bin_for_lem us h =
    let (k, e, small, above, least) = bin_loop_lem 64 us 0 (omega arith) in
    rw (e, zero-add) (above, least, small)

unfoldable pub sum : List ℕ → ℕ
sum [] = 0
sum (x ∷ xs) = x + sum xs

sum-set : (xs : List ℕ) (i : ℕ) → i < length xs → sum (set xs i (get_or xs i 0 + 1)) ≡ sum xs + 1
unfolding sum
sum-set [] i h = absurd (omega arith)
sum-set (x ∷ xs) zero h = omega arith
sum-set (x ∷ xs) (suc i) h = omega (arith, sum-set xs i (omega arith))

length-set : (xs : List ℕ) (i v : ℕ) → length (set xs i v) ≡ length xs
length-set [] i v = refl
length-set (x ∷ xs) zero v = refl
length-set (x ∷ xs) (suc i) v = ap suc (length-set xs i v)

-- The 64 bins together hold the count.
pub record IsCounted (h : Histogram) : Type 0 where
  pub width : length h.bins ≡ 64
  pub total : sum h.bins ≡ h.count

bin_loop-le : (fuel j bound bin : ℕ) → bound ≤ 2 ^ j → bin_loop fuel bound bin ≤ bin + j
unfolding bin_loop halved
bin_loop-le zero j bound bin h = omega arith
bin_loop-le (suc fuel) zero bound bin h = ground arith
bin_loop-le (suc fuel) (suc j) bound bin h =
    let rest : bin_loop fuel (halved bound) (bin + 1) ≤ bin + 1 + j =
      bin_loop-le fuel j (halved bound) (bin + 1)
        (omega (arith, pow-suc 2 j, halved_bounds bound)) in
    ground arith

-- A 64-bit count of nanoseconds always has a bin: no write past the array.
pub bin_for-lt : (ns : ℕ) → ns < 2 ^ 64 → bin_for (microseconds ns) < 64
unfolding microseconds bin_for
bin_for-lt ns h =
    let us : ℕ = microseconds ns in
    let small : us ≤ 2 ^ 55 = ground arith in omega (arith, bin_loop-le 64 55 us 0 small)

count_in-IsCounted :
    (us bin : ℕ) (h : Histogram) → bin < 64 → IsCounted h → IsCounted (count_in us bin h)
unfolding count_in
count_in-IsCounted us bin h small c =
    elim (Bool-cases (h.count == u64_max || get_or h.bins bin 0 == u64_max)) [
      | inl full ↦ rw full c
      | inr room ↦ rw room (record {
        width = length-set h.bins bin (get_or h.bins bin 0 + 1) ∙ c.width;
        total = omega (arith, sum-set h.bins bin (omega (arith, c.width)), c.total);
      })
    ]

-- Recording a latency keeps the bins and the count in step.
pub histogram_record-IsCounted :
    (h : Histogram) (ns : ℕ) → ns < 2 ^ 64 → IsCounted h → IsCounted (histogram_record h ns)
unfolding histogram_record
histogram_record-IsCounted h ns fits c =
    count_in-IsCounted (microseconds ns) (bin_for (microseconds ns)) h (bin_for-lt ns fits) c

pub target_lem :
    (count percent : ℕ)
    → (count * percent ≤ 100 * target count percent)
      × (100 * target count percent ≤ count * percent + 99)
unfolding target
target_lem count percent = omega (arith, ap (λ (t : ℕ). t * percent) (div-add-mod count 100))

sum-take-suc : (xs : List ℕ) (i : ℕ) → sum (take (suc i) xs) ≡ sum (take i xs) + get_or xs i 0
unfolding sum
sum-take-suc [] zero = refl
sum-take-suc [] (suc i) = refl
sum-take-suc (x ∷ xs) zero = omega arith
sum-take-suc (x ∷ xs) (suc i) = omega (arith, sum-take-suc xs i)

sum-take_le : (xs : List ℕ) (i : ℕ) → sum (take i xs) ≤ sum xs
unfolding sum
sum-take_le xs zero = omega arith
sum-take_le [] (suc i) = omega arith
sum-take_le (x ∷ xs) (suc i) = omega (arith, sum-take_le xs i)

take-all : (xs : List ℕ) (n : ℕ) → n ≡ length xs → take n xs ≡ xs
take-all xs n e = rw e (take-length xs)

-- The loop stops at the first bin up to which the rank is reached.
percentile_loop_lem :
    (n i : ℕ) (rank : ℕ) (bins : List ℕ)
    → i + n ≡ length bins
    → sum bins < 2 ^ 64
    → sum (take i bins) < rank
    → rank ≤ sum bins
    → (j : ℕ) × (percentile_loop n i (sum (take i bins)) rank bins ≡ 2 ^ j)
      × (j < length bins)
      × (rank ≤ sum (take (suc j) bins))
      × (sum (take j bins) < rank)
unfolding percentile_loop
percentile_loop_lem zero i rank bins size fits lo hi =
    absurd (omega (arith, ap sum (take-all bins i (omega arith))))
percentile_loop_lem (suc n) i rank bins size fits lo hi =
    let seen : (sum (take i bins) + get_or bins i 0) % 2 ^ 64 ≡ sum (take (suc i) bins) =
      omega (arith, sum-take-suc bins i, sum-take_le bins (suc i)) in
    elim (Bool-cases (leb rank (sum (take (suc i) bins)))) [
      | inl stop ↦ (i, rw (seen, stop), omega arith, ground (arith, stop), lo)
      | inr more ↦
          let (j, e, small, reached, before) =
            percentile_loop_lem n (suc i) rank bins (omega arith) fits (ground (arith, more)) hi in
          (j, rw (seen, more, add-one) e, small, reached, before)
    ]

-- A percentile is the upper end of the first bin up to which at least that share of the latencies
-- is counted: with the result 2 ^ j, the bins up to j hold at least percent / 100 of the count, and
-- the bins before j hold less.
pub percentile_lem :
    (h : Histogram) (percent : ℕ)
    → IsCounted h
    → 0 < h.count
    → h.count ≤ u64_max
    → 0 < percent
    → percent ≤ 100
    → (j : ℕ) × (percentile h percent ≡ 2 ^ j)
      × (j < 64)
      × (h.count * percent ≤ 100 * sum (take (suc j) h.bins))
      × (100 * sum (take j h.bins) < h.count * percent)
unfolding percentile sum
percentile_lem h percent c some_counted fits pos_percent le_hundred =
    let some_rank : 0 < h.count * percent = grind arith in
    let all_rank : h.count * percent ≤ h.count * 100 = grind arith in
    let bounds = target_lem h.count percent in
    let (j, e, small, reached, before) =
      percentile_loop_lem 64 0 (target h.count percent) h.bins (omega (arith, c.width))
        (omega (arith, c.total)) (omega (arith, bounds)) (omega (arith, c.total, bounds)) in
    (j, ground (arith, e), omega (arith, c.width), omega (arith, bounds), omega (arith, bounds))
