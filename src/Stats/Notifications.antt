-- ===== src/Stats/Notifications.antt =====
-- core/stats.c: `wadb_read_notifications`, and the ring that storage/segments.c fills.
pub mod Laws
use webanalyticsdb.Prelude.{
  ℕ, zero, suc, ◌+◌, ◌-◌, ◌*◌, ◌/◌, ◌%◌, ◌^◌, Bool, true, false, ◌&&◌, ◌||◌, not, List, [], ◌∷◌,
  ltb, leb, ◌==◌, if◌then◌else◌, get_elem?, set, length, Option, none, some,
}
use webanalyticsdb.Prelude.Int.{ℤ}
use webanalyticsdb.Core.Status.{Result, ok, err, ◌>>=◌, ◌>>◌, reject, invalid}

pub record CommitEvent : Type 0 where
  pub id : ℕ
  pub table_id : ℕ
  pub first_sequence : ℕ
  pub last_sequence : ℕ
  pub frame_bytes : ℕ
  pub max_time : ℤ
  pub rows : ℕ

abbrev pub notification_capacity : ℕ
notification_capacity = 1024

-- The part of the database that holds the ring.
pub record Ring (A : Type 0) : Type 0 where
  pub slots : List A
  pub latest : ℕ

module _ {A : Type 0} where
  -- `if (latest < UINT64_MAX) { id = ++latest; notifications[(id - 1) % capacity] = event; }`
  unfoldable pub notify : (ℕ → A) → Ring A → Ring A
  notify event r =
      if ltb r.latest (2 ^ 64 - 1)
      then record {
        slots = set r.slots (r.latest % notification_capacity) (event (r.latest + 1));
        latest = r.latest + 1;
      }
      else r

  -- events[i] = notifications[(first + i - 1) % capacity] for i below n
  unfoldable pub copy_events : List A → ℕ → ℕ → List (Option A)
  copy_events slots zero first = []
  copy_events slots (suc n) first =
      get_elem? slots ((first - 1) % notification_capacity) ∷ copy_events slots n (first + 1)

pub record Reading (A : Type 0) : Type 0 where
  pub events : List (Option A)
  pub latest : ℕ
  pub gap : Bool

unfoldable pub oldest_kept : ℕ → ℕ
oldest_kept latest =
    if leb notification_capacity latest then latest - notification_capacity + 1 else 1

-- The number of the first event that is wanted, or 0 if there is none.
unfoldable pub first_wanted : ℕ → ℕ → ℕ
first_wanted latest after = if ltb after latest then after + 1 else 0

unfoldable pub was_lost : ℕ → ℕ → Bool
unfolding oldest_kept first_wanted
was_lost latest after =
    not (first_wanted latest after == 0) && ltb (first_wanted latest after) (oldest_kept latest)

-- The same, once what is lost is skipped.
unfoldable pub first_returned : ℕ → ℕ → ℕ
unfolding was_lost oldest_kept first_wanted
first_returned latest after =
    if was_lost latest after then oldest_kept latest else first_wanted latest after

unfoldable pub page_from : {A : Type 0} → Ring A → ℕ → ℕ → List (Option A)
page_from r capacity first =
    if first == 0
    then []
    else (let available = r.latest - first + 1 in
        copy_events r.slots (if ltb available capacity then available else capacity) first)

unfoldable pub read_notifications : {A : Type 0} → Ring A → ℕ → ℕ → Result (Reading A)
read_notifications r after capacity = do
  reject (ltb notification_capacity capacity) invalid
  ok (record {
    events = page_from r capacity (first_returned r.latest after);
    latest = r.latest;
    gap = ltb r.latest after || was_lost r.latest after;
  })
