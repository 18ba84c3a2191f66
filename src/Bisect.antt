-- ===== src/Bisect.antt =====
-- The binary search that core/stats.c, storage/index.c, query/snapshot.c and query/scan.c write out:
--   while (lo < hi) { mid = lo + (hi - lo) / 2; if (test(mid)) lo = mid + 1; else hi = mid; }
use webanalyticsdb.Prelude.{
  ℕ, zero, suc, ◌+◌, ◌-◌, ◌/◌, ◌≤◌, ◌<◌, ◌≡◌, arith, Bool, true, false, ltb, if◌then◌else◌,
  Bool-cases, inl, inr,
}
use native.Mathlib.Decide.{dec_lt}

unfoldable pub bisect : (ℕ → Bool) → ℕ → ℕ → ℕ → ℕ
bisect test zero lo hi = lo
bisect test (suc fuel) lo hi =
    let mid = lo + (hi - lo) / 2 in
    let right = bisect test fuel (mid + 1) hi in
    let left = bisect test fuel lo mid in
    if ltb lo hi then (if test mid then right else left) else lo

-- The interval loses at least one position a round, so its length is enough fuel.
unfoldable pub search_between : (ℕ → Bool) → ℕ → ℕ → ℕ
search_between test lo hi = bisect test (hi - lo) lo hi

-- The test holds on a first part of the interval, and nowhere behind it.
abbrev pub Descends : (ℕ → Bool) → ℕ → ℕ → Type 0
Descends test lo hi = (i j : ℕ) → lo ≤ i → i ≤ j → j < hi → test j ≡ true → test i ≡ true

pub record Boundary (test : ℕ → Bool) (lo hi r : ℕ) : Type 0 where
  pub above : lo ≤ r
  pub below : r ≤ hi
  pub holds : (i : ℕ) → lo ≤ i → i < r → test i ≡ true
  pub fails : (i : ℕ) → r ≤ i → i < hi → test i ≡ false

module _ (test : ℕ → Bool) (lo hi mid : ℕ) (d : Descends test lo hi) (le : lo ≤ mid)
    (lt : mid < hi) where
  go_right : {r : ℕ} → test mid ≡ true → Boundary test (mid + 1) hi r → Boundary test lo hi r
  go_right yes_mid b = record {
    above = omega (arith, b.above);
    below = b.below;
    holds = λ i p q. elim (dec_lt i (mid + 1)) [
      | yes small ↦ d i mid p (omega arith) lt yes_mid
      | no large ↦ b.holds i (omega arith) q
    ];
    fails = b.fails;
  }

  go_left : {r : ℕ} → test mid ≡ false → Boundary test lo mid r → Boundary test lo hi r
  go_left no_mid b = record {
    above = b.above;
    below = omega (arith, b.below);
    holds = b.holds;
    fails = λ i p q. elim (dec_lt i mid) [
      | yes small ↦ b.fails i p small
      | no large ↦ elim (Bool-cases (test i)) [
        | inl e ↦ cc (no_mid, d mid i le (omega arith) q e)
        | inr e ↦ e
      ]
    ];
  }

bisect-Boundary :
    (test : ℕ → Bool) (fuel lo hi : ℕ)
    → lo ≤ hi
    → hi ≤ lo + fuel
    → Descends test lo hi
    → Boundary test lo hi (bisect test fuel lo hi)
unfolding bisect
bisect-Boundary test zero lo hi le enough d = record {
  above = omega arith;
  below = omega arith;
  holds = λ i a b. absurd (omega arith);
  fails = λ i a b. absurd (omega arith);
}
bisect-Boundary test (suc fuel) lo hi le enough d =
    let mid = lo + (hi - lo) / 2 in
    elim (Bool-cases (ltb lo hi)) [
      | inr stop ↦ rw stop (record {
        above = omega arith;
        below = le;
        holds = λ i a b. absurd (omega arith);
        fails = λ i a b. absurd (ground arith);
      })
      | inl more ↦
          let lt : mid < hi = ground arith in
          elim (Bool-cases (test mid)) [
            | inl e ↦
                rw (more, e)
                  (go_right test lo hi mid d (omega arith) lt e (
                    bisect-Boundary test fuel (mid + 1) hi (omega arith) (omega arith)
                      (λ i j p. d i j (omega arith))))
            | inr e ↦
                rw (more, e)
                  (go_left test lo hi mid d (omega arith) lt e (
                    bisect-Boundary test fuel lo mid (omega arith) (ground arith)
                      (λ i j p q r. d i j p q (omega arith))))
          ]
    ]

-- On a test that holds on a first part of the interval the loop ends at the first position where
-- it fails, or at the end of the interval.
pub search_between-Boundary :
    (test : ℕ → Bool) (lo hi : ℕ)
    → lo ≤ hi
    → Descends test lo hi
    → Boundary test lo hi (search_between test lo hi)
unfolding search_between
search_between-Boundary test lo hi le d = bisect-Boundary test (hi - lo) lo hi le (omega arith) d
