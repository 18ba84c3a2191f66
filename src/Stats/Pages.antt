-- ===== src/Stats/Pages.antt =====
-- core/stats.c: `wadb_list_segments`, a page of the directory behind a segment's id.
use webanalyticsdb.Prelude.{
  ℕ, zero, suc, ◌-◌, ◌≤◌, ◌<◌, ◌≡◌, refl, ap, arith, Bool, true, false, ◌||◌, List, [], ◌∷◌, ltb,
  le→ltb-false, leb, ◌==◌, if◌then◌else◌, length, length-drop, take, drop,
}
use webanalyticsdb.Core.Status.{Result, ok, reject, ◌>>◌, invalid}
use webanalyticsdb.Core.Segments.{SegmentInfo}
use webanalyticsdb.Bisect.{search_between, search_between-Boundary, Boundary}

-- segments[i].id; the search stays inside the array.
unfoldable pub id_at : List SegmentInfo → ℕ → ℕ
id_at [] i = 0
id_at (s ∷ segments) zero = s.id
id_at (s ∷ segments) (suc i) = id_at segments i

pub record Page : Type 0 where
  pub segments : List SegmentInfo
  pub more : Bool

unfoldable pub page_start : List SegmentInfo → ℕ → ℕ
page_start segments after =
    search_between (λ mid. leb (id_at segments mid) after) 0 (length segments)

unfoldable pub list_segments : List SegmentInfo → ℕ → ℕ → Result Page
list_segments segments after capacity = do
  reject (capacity == 0 || ltb 1024 capacity) invalid
  let lo = page_start segments after
  let n = length segments - lo
  ok (record {
    segments = take (if ltb capacity n then capacity else n) (drop lo segments);
    more = ltb capacity n;
  })

-- The ids of the directory increase.
abbrev pub AreAscending : List SegmentInfo → Type 0
AreAscending segments =
    (i j : ℕ) → i ≤ j → j < length segments → id_at segments i ≤ id_at segments j

page_start-Boundary :
    (segments : List SegmentInfo) (after : ℕ)
    → AreAscending segments
    → Boundary (λ i. leb (id_at segments i) after) 0 (length segments) (page_start segments after)
unfolding page_start
page_start-Boundary segments after sorted =
    search_between-Boundary (λ i. leb (id_at segments i) after) 0 (length segments) (omega arith)
      (λ i j p q r h. let o = sorted i j q r in ground arith)

-- The segments behind an id, in a pass over the directory.
unfoldable pub behind : ℕ → List SegmentInfo → List SegmentInfo
behind after [] = []
behind after (s ∷ segments) =
    let rest = behind after segments in if leb s.id after then rest else s ∷ rest

-- A directory that falls in two parts at b.
behind-drop :
    (after : ℕ) (segments : List SegmentInfo) (b : ℕ)
    → b ≤ length segments
    → ((i : ℕ) → i < b → leb (id_at segments i) after ≡ true)
    → ((i : ℕ) → b ≤ i → i < length segments → leb (id_at segments i) after ≡ false)
    → drop b segments ≡ behind after segments
unfolding behind id_at
behind-drop after [] zero le small large = refl
behind-drop after [] (suc b) le small large = absurd (omega arith)
behind-drop after (s ∷ segments) zero le small large = rw (large 0 (omega arith) (omega arith)) (
    ap (◌∷◌ s) (
      behind-drop after segments zero (omega arith) (λ i p. absurd (omega arith))
        (λ i p q. large (suc i) (omega arith) (omega arith))))
behind-drop after (s ∷ segments) (suc b) le small large = rw (small 0 (omega arith)) (
    behind-drop after segments b (omega arith) (λ i p. small (suc i) (omega arith))
      (λ i p q. large (suc i) (omega arith) (omega arith)))

take-beyond : (xs : List SegmentInfo) (n : ℕ) → length xs ≤ n → take n xs ≡ xs
take-beyond [] zero h = refl
take-beyond [] (suc n) h = refl
take-beyond (x ∷ xs) zero h = absurd (omega arith)
take-beyond (x ∷ xs) (suc n) h = ap (◌∷◌ x) (take-beyond xs n (omega arith))

clamped :
    (xs : List SegmentInfo) (c : ℕ)
    → take (if ltb c (length xs) then c else length xs) xs ≡ take c xs
clamped xs c = ground (arith, take-beyond xs c, take-beyond xs (length xs))

page_start-behind :
    (segments : List SegmentInfo) (after : ℕ)
    → AreAscending segments
    → drop (page_start segments after) segments ≡ behind after segments
page_start-behind segments after sorted =
    let b = page_start-Boundary segments after sorted in
    behind-drop after segments _ b.below (λ i p. b.holds i (omega arith) p) b.fails

-- On a directory whose ids increase, a page holds the segments with a larger id than `after`, in
-- order, as many as fit, and `more` says whether some of them are left out.
pub list_segments_lem :
    (segments : List SegmentInfo) (after capacity : ℕ)
    → AreAscending segments
    → 0 < capacity
    → capacity ≤ 1024
    → list_segments segments after capacity
      ≡ ok (record {
        segments = take capacity (behind after segments);
        more = ltb capacity (length (behind after segments));
      })
unfolding list_segments reject
list_segments_lem segments after capacity sorted pos small =
    let e = page_start-behind segments after sorted in
    let size : length segments - page_start segments after ≡ length (behind after segments) =
      omega (arith, length-drop (page_start segments after) segments, ap length e) in
    rw (le→ltb-false 1024 capacity small, size, e, clamped (behind after segments) capacity)
      (ground arith)
