-- ===== src/Query/Bucket.antt =====
-- query/plan.c: `wadb_bucket_floor`. The callers pass a positive width.
use webanalyticsdb.Prelude.{
  ℕ, zero, suc, ◌+◌, ◌-◌, ◌*◌, ◌/◌, ◌%◌, ◌^◌, ◌≤◌, ◌<◌, ◌≡◌, refl, ◌⊎◌, inl, inr, arith,
  if◌then◌else◌,
}
use webanalyticsdb.Prelude.Int.{
  ℤ, pos, negsuc, pos_part, neg_part, ◌+ℤ◌, ◌-ℤ◌, ◌≤ℤ◌, ltb_ℤ, leb_ℤ, int_laws, +ℤ_parts, -ℤ_parts,
}
use webanalyticsdb.Core.Status.{Result, ok, err, limit}
use native.Mathlib.Decide.{dec_le}
use native.Mathlib.Nat.{div-add-mod, mod-lt}

unfoldable pub negate : ℕ → ℤ
negate zero = pos 0
negate (suc n) = negsuc n

-- C's % has the sign of the dividend.
unfoldable pub c_rem : ℤ → ℕ → ℤ
unfolding negate
c_rem (pos n) w = pos (n % w)
c_rem (negsuc n) w = negate (suc n % w)

-- a = t % width; if (a < 0) a += width;
unfoldable pub floor_rem : ℤ → ℕ → ℤ
unfolding c_rem ◌+ℤ◌
floor_rem t w = if ltb_ℤ (c_rem t w) (pos 0) then c_rem t w +ℤ pos w else c_rem t w

unfoldable pub bucket_distance : ℤ → ℕ → ℤ → ℤ
bucket_distance time width origin =
    let a = floor_rem time width in
    let b = floor_rem origin width in if leb_ℤ b a then a -ℤ b else pos width -ℤ (b -ℤ a)

abbrev pub int64_min : ℤ
int64_min = negsuc (2 ^ 63 - 1)

unfoldable pub bucket_floor : ℤ → ℕ → ℤ → Result ℤ
bucket_floor time width origin =
    let distance = bucket_distance time width origin in
    if ltb_ℤ time (int64_min +ℤ distance) then err limit else ok (time -ℤ distance)

-- t leaves the remainder r when divided by w: the two differ by a multiple of w.
pub record Leaves (t : ℤ) (w r : ℕ) : Type 0 where
  pub up : ℕ
  pub down : ℕ
  pub differ : pos_part t + up * w ≡ r + down * w + neg_part t
  pub small : r < w

zero_or_suc : (n : ℕ) → (n ≡ 0) ⊎ ((m : ℕ) × (n ≡ suc m))
zero_or_suc zero = inl refl
zero_or_suc (suc m) = inr (m, refl)

floor_rem_lem : (t : ℤ) (w : ℕ) → 0 < w → (r : ℕ) × (floor_rem t w ≡ pos r) × Leaves t w r
unfolding floor_rem
floor_rem_lem (pos n) w h = (
  n % w,
  ground arith,
  record { up = 0; down = n / w; differ = omega (int_laws, div-add-mod n w); small = omega arith },
)
floor_rem_lem (negsuc n) w h = elim (zero_or_suc (suc n % w)) [
  | inl e ↦ (
    0,
    rw e,
    record {
      up = suc n / w;
      down = 0;
      differ = omega (int_laws, div-add-mod (suc n) w);
      small = h;
    },
  )
  | inr (m, e) ↦
      let lt : suc n % w < w = mod-lt (suc n) h in
      (
        w - suc m,
        rw e (ground arith),
        record {
          up = suc n / w + 1;
          down = 0;
          differ = omega (int_laws, div-add-mod (suc n) w);
          small = omega arith;
        },
      )
]

-- The bucket of a time: its start is at most one width back, and lies a whole number of widths from
-- the origin.
pub record IsBucket (time : ℤ) (width : ℕ) (origin out : ℤ) : Type 0 where
  pub starts : out ≤ℤ time
  pub covers : time +ℤ pos 1 ≤ℤ out +ℤ pos width
  pub later : ℕ
  pub earlier : ℕ
  pub aligned : out +ℤ pos (later * width) ≡ origin +ℤ pos (earlier * width)

near :
    (a b w : ℕ)
    → b ≤ a
    → (if leb_ℤ (pos b) (pos a) then pos a -ℤ pos b else pos w -ℤ (pos b -ℤ pos a)) ≡ pos (a - b)
unfolding ◌-ℤ◌
near a b w h = ground arith

far :
    (a b w : ℕ)
    → ¬ (b ≤ a)
    → b < w
    → (if leb_ℤ (pos b) (pos a) then pos a -ℤ pos b else pos w -ℤ (pos b -ℤ pos a))
      ≡ pos (w - (b - a))
unfolding ◌-ℤ◌
far a b w h small = ground arith

distance_lem :
    (time : ℤ) (width : ℕ) (origin : ℤ)
    → 0 < width
    → (d : ℕ) × (bucket_distance time width origin ≡ pos d)
      × IsBucket time width origin (time -ℤ pos d)
unfolding bucket_distance
distance_lem time width origin h =
    let (a, at, ta) = floor_rem_lem time width h in
    let (b, bt, ob) = floor_rem_lem origin width h in
    elim (dec_le b a) [
      | yes le ↦ (
        a - b,
        rw (bucket_distance, at, bt) (near a b width le),
        record {
          starts = omega (int_laws, ta.small);
          covers = omega (int_laws, ta.small);
          later = ta.up + ob.down;
          earlier = ta.down + ob.up;
          aligned = omega (int_laws, ta.differ, ob.differ);
        },
      )
      | no gt ↦ (
        width - (b - a),
        rw (bucket_distance, at, bt) (far a b width gt ob.small),
        record {
          starts = omega (int_laws, ob.small);
          covers = omega (int_laws, ob.small);
          later = ta.up + ob.down + 1;
          earlier = ta.down + ob.up;
          aligned = omega (int_laws, ta.differ, ob.differ, ob.small);
        },
      )
    ]

-- `wadb_bucket_floor` gives the bucket of every time whose bucket starts at an int64_t, and LIMIT
-- for the others.
pub bucket_floor_lem :
    (time : ℤ) (width : ℕ) (origin : ℤ)
    → 0 < width
    → (start : ℤ) × IsBucket time width origin start
      × (bucket_floor time width origin ≡ (if leb_ℤ int64_min start then ok start else err limit))
unfolding bucket_floor
bucket_floor_lem time width origin h =
    let (d, e, bucket) = distance_lem time width origin h in
    (
      time -ℤ pos d,
      bucket,
      rw e (ground (arith, +ℤ_parts int64_min (pos d), -ℤ_parts time (pos d))),
    )
