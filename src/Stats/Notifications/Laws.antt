-- ===== src/Stats/Notifications/Laws.antt =====
-- The ring is a window on the history of events.
use native.Mathlib.Decide.{dec_lt}
use webanalyticsdb.Prelude.{
  ℕ, zero, suc, ◌+◌, ◌-◌, ◌%◌, ◌^◌, ◌≤◌, ◌<◌, ◌≡◌, ◌≢◌, refl, ap, sym, ◌∙◌, arith, ◌||◌, List, [],
  ◌∷◌, ◌++◌, Option, some, map, ltb, lt→ltb, le→ltb-false, length, length-append, length-drop,
  get_elem?, set, take, drop, max,
}
use webanalyticsdb.Core.Status.{ok, reject}
use webanalyticsdb.Stats.Notifications.{
  Ring, notification_capacity, notify, copy_events, was_lost, first_returned, page_from,
  read_notifications,
}

suc-sub-one : (n : ℕ) → suc n - 1 ≡ n
suc-sub-one n = omega arith

-- Where a reader that knows the first `after` events goes on.
abbrev pub resume : ℕ → ℕ → ℕ
resume latest after = max after (latest - notification_capacity)

first_returned_none : (latest after : ℕ) → latest ≤ after → first_returned latest after ≡ 0
unfolding first_returned
first_returned_none latest after h = ground arith

first_returned_some :
    (latest after : ℕ) → after < latest → first_returned latest after ≡ suc (resume latest after)
unfolding first_returned
first_returned_some latest after h = ground arith

was_lost_lem :
    (latest after : ℕ) → was_lost latest after ≡ ltb (after + notification_capacity) latest
unfolding was_lost
was_lost_lem latest after = ground arith

module _ {A : Type 0} where
  -- The slots hold the last 1024 events of the history.
  pub record Holds (r : Ring A) (history : List A) : Type 0 where
    pub size : length r.slots ≡ notification_capacity
    pub count : r.latest ≡ length history
    pub kept :
        (i : ℕ)
        → i < length history
        → length history ≤ i + notification_capacity
        → get_elem? r.slots (i % notification_capacity) ≡ get_elem? history i

  get_elem?-set_self :
      (xs : List A) (i : ℕ) (v : A) → i < length xs → get_elem? (set xs i v) i ≡ some v
  get_elem?-set_self [] i v h = elim h [ ]
  get_elem?-set_self (x ∷ xs) zero v h = refl
  get_elem?-set_self (x ∷ xs) (suc i) v h = get_elem?-set_self xs i v (omega arith)

  get_elem?-set_ne :
      (xs : List A) (i j : ℕ) (v : A) → i ≢ j → get_elem? (set xs i v) j ≡ get_elem? xs j
  get_elem?-set_ne [] i j v h = refl
  get_elem?-set_ne (x ∷ xs) zero zero v h = absurd (h refl)
  get_elem?-set_ne (x ∷ xs) zero (suc j) v h = refl
  get_elem?-set_ne (x ∷ xs) (suc i) zero v h = refl
  get_elem?-set_ne (x ∷ xs) (suc i) (suc j) v h = get_elem?-set_ne xs i j v (λ e. h (ap suc e))

  length-set : (xs : List A) (i : ℕ) (v : A) → length (set xs i v) ≡ length xs
  length-set [] i v = refl
  length-set (x ∷ xs) zero v = refl
  length-set (x ∷ xs) (suc i) v = ap suc (length-set xs i v)

  get_elem?-append_left :
      (xs ys : List A) (i : ℕ) → i < length xs → get_elem? (xs ++ ys) i ≡ get_elem? xs i
  get_elem?-append_left [] ys i h = absurd (omega arith)
  get_elem?-append_left (x ∷ xs) ys zero h = refl
  get_elem?-append_left (x ∷ xs) ys (suc i) h = get_elem?-append_left xs ys i (omega arith)

  get_elem?-append_last : (xs : List A) (v : A) → get_elem? (xs ++ (v ∷ [])) (length xs) ≡ some v
  get_elem?-append_last [] v = refl
  get_elem?-append_last (x ∷ xs) v = get_elem?-append_last xs v

  kept_after :
      (slots history : List A) (v : A)
      → length slots ≡ notification_capacity
      → ((i : ℕ)
          → i < length history
          → length history ≤ i + notification_capacity
          → get_elem? slots (i % notification_capacity) ≡ get_elem? history i)
      → (i : ℕ) → i < length history + 1
      → length history + 1 ≤ i + notification_capacity
      → get_elem? (set slots (length history % notification_capacity) v) (i % notification_capacity)
        ≡ get_elem? (history ++ (v ∷ [])) i
  kept_after slots history v size kept i lt near = elim (dec_lt i (length history)) [
    | yes old ↦
        get_elem?-set_ne slots (length history % notification_capacity) (i % notification_capacity)
          v (λ e. absurd (omega arith))
        ∙ kept i old (omega arith)
        ∙ sym (get_elem?-append_left history (v ∷ []) i old)
    | no new ↦
        let e : i ≡ length history = omega arith in
        rw e (
          get_elem?-set_self slots (length history % notification_capacity) v (omega arith)
          ∙ sym (get_elem?-append_last history v))
  ]

  -- A commit appends its event to the history.
  pub notify-Holds :
      (event : ℕ → A) (r : Ring A) (history : List A)
      → r.latest < 2 ^ 64 - 1
      → Holds r history
      → Holds (notify event r) (history ++ (event (length history + 1) ∷ []))
  unfolding notify
  notify-Holds event r history room h =
      let v = event (length history + 1) in
      rw (lt→ltb r.latest (2 ^ 64 - 1) room, h.count)
        (record {
          size = length-set r.slots _ _ ∙ h.size;
          count = omega (arith, length-append history (v ∷ []));
          kept = λ i lt near.
              kept_after r.slots history v h.size h.kept i
                (omega (arith, length-append history (v ∷ [])))
                (omega (arith, length-append history (v ∷ [])));
        })

  take-drop-suc :
      (history : List A) (n k : ℕ)
      → k < length history
      → map {B = Option A} some (take (suc n) (drop k history))
        ≡ get_elem? history k ∷ map some (take n (drop (suc k) history))
  take-drop-suc [] n k h = absurd (omega arith)
  take-drop-suc (x ∷ xs) n zero h = refl
  take-drop-suc (x ∷ xs) n (suc k) h = take-drop-suc xs n k (omega arith)

  copy_events-drop :
      (r : Ring A) (history : List A) (n first : ℕ)
      → Holds r history
      → 0 < first
      → length history < first + notification_capacity
      → first + n ≤ length history + 1
      → copy_events r.slots n first ≡ map some (take n (drop (first - 1) history))
  unfolding copy_events
  copy_events-drop r history zero first h pos near fits = refl
  copy_events-drop r history (suc n) first h pos near fits =
      let step : suc (first - 1) ≡ first + 1 - 1 = omega arith in
      rw (
        take-drop-suc history n (first - 1) (omega arith),
        step,
        h.kept (first - 1) (omega arith) (omega arith),
        copy_events-drop r history n (first + 1) h (omega arith) (omega arith) (omega arith),
      )

  take-beyond : (history : List A) (n : ℕ) → length history ≤ n → take n history ≡ history
  take-beyond [] zero h = refl
  take-beyond [] (suc n) h = refl
  take-beyond (x ∷ xs) zero h = absurd (omega arith)
  take-beyond (x ∷ xs) (suc n) h = ap (◌∷◌ x) (take-beyond xs n (omega arith))

  page_from-drop :
      (r : Ring A) (history : List A) (capacity first : ℕ)
      → Holds r history
      → 0 < first
      → first ≤ length history
      → length history < first + notification_capacity
      → page_from r capacity first ≡ map some (take capacity (drop (first - 1) history))
  unfolding page_from
  page_from-drop r history capacity first h pos le near =
      let rest = drop (first - 1) history in
      let available : ℕ = length history - first + 1 in
      let size : length rest ≡ available = omega (arith, length-drop (first - 1) history) in
      ground (
        arith,
        copy_events-drop r history available first h,
        copy_events-drop r history capacity first h,
        take-beyond rest capacity,
        take-beyond rest available,
      )

  page_from-zero : (r : Ring A) (capacity : ℕ) → page_from r capacity 0 ≡ []
  unfolding page_from
  page_from-zero r capacity = refl

  take-nil : (n : ℕ) → take {A = A} n [] ≡ []
  take-nil zero = refl
  take-nil (suc n) = refl

  drop-beyond : (history : List A) (n : ℕ) → length history ≤ n → drop n history ≡ []
  drop-beyond [] zero h = refl
  drop-beyond [] (suc n) h = refl
  drop-beyond (x ∷ xs) zero h = absurd (omega arith)
  drop-beyond (x ∷ xs) (suc n) h = drop-beyond xs n (omega arith)

  -- Whatever the ring has overwritten, a reader gets the events of the history behind those that it
  -- knows, in order and from the oldest one that is kept, as many as it has room for. The gap flag
  -- is set exactly when events that it has not seen are lost, or its position is past the latest.
  pub read_notifications_lem :
      (r : Ring A) (history : List A) (after capacity : ℕ)
      → Holds r history
      → capacity ≤ notification_capacity
      → read_notifications r after capacity
        ≡ ok (record {
          events = map some (take capacity (drop (resume (length history) after) history));
          latest = length history;
          gap = ltb (length history) after || ltb (after + notification_capacity) (length history);
        })
  unfolding read_notifications reject
  read_notifications_lem r history after capacity h fits = elim (dec_lt after (length history)) [
    | no past ↦ simp (
      le→ltb-false notification_capacity capacity fits,
      h.count,
      first_returned_none (length history) after (omega arith),
      was_lost_lem,
      page_from-zero,
      drop-beyond history (resume (length history) after) (omega arith),
      take-nil capacity,
    )
    | yes more ↦ simp (
      le→ltb-false notification_capacity capacity fits,
      h.count,
      first_returned_some (length history) after more,
      was_lost_lem,
      page_from-drop r history capacity (suc (resume (length history) after)) h (omega arith)
          (omega arith) (omega arith),
      suc-sub-one,
    )
  ]
