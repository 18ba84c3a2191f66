-- ===== src/Auth/Laws.antt =====
-- What the sessions and the rate limit of logins promise.
use webanalyticsdb.Prelude.{
  ℕ, ◌+◌, ◌-◌, ◌%◌, ◌^◌, ◌≤◌, ◌<◌, ◌≡◌, refl, sym, subst, ◌∙◌, Bool, false, List, [], ◌∷◌, ltb, leb,
  length, map, Option, none, some, Bool-cases, ltb→lt, inl, inr, arith,
}
use webanalyticsdb.Core.Status.{Result, ok, err, backpressure}
use webanalyticsdb.Auth.{
  Credentials, Auth, secret_equal, since, count_attempt, open_session, check_login, login, is_valid,
  find_session, forget, logout,
}

forgotten :
    (now : ℕ) (mutation : Bool) (session csrf : Option (List ℕ)) (c : Credentials)
    → is_valid now mutation session csrf (forget session c) ≡ false
unfolding is_valid forget
forgotten now mutation session csrf c = elim (Bool-cases (secret_equal c.session session)) [
  | inl same ↦ rw same (ground arith)
  | inr other ↦ rw other (rw other (ground arith))
]

-- Once a session is logged out, no request with its secret is accepted, at any time.
pub find_session-logout :
    (now : ℕ) (mutation : Bool) (session csrf : Option (List ℕ)) (a : Auth)
    → find_session now mutation session csrf (logout session a).sessions ≡ none
unfolding logout find_session
find_session-logout now mutation session csrf a = none_left a.sessions
  where
    none_left :
        (cs : List Credentials)
        → find_session now mutation session csrf (map (forget session) cs) ≡ none
    none_left [] = refl
    none_left (c ∷ cs) = rw (forgotten now mutation session csrf c) (none_left cs)

-- an attempt: its time, the token that it brings, and the secrets that are drawn for it
abbrev pub Attempt : Type 0
Attempt = ℕ × Option (List ℕ) × Option (List ℕ × List ℕ)

abbrev pub one_unless_limited : Result Credentials → ℕ
one_unless_limited (err backpressure) = 0
one_unless_limited _ = 1

-- how many of the attempts are not turned away by the rate limit
abbrev pub admitted : Auth → List Attempt → ℕ
admitted a [] = 0
admitted a ((now, token, random) ∷ rest) =
    one_unless_limited (login a now token random).1 + admitted (login a now token random).0 rest

abbrev pub AreWithin : ℕ → List Attempt → Type 0
AreWithin window [] = Unit
AreWithin window ((now, token, random) ∷ rest) =
    (window ≤ now) × (now < window + 1000000000) × AreWithin window rest

one_at_most : (r : Result Credentials) → one_unless_limited r ≤ 1
one_at_most (ok c) = omega arith
one_at_most (err s) = elim s as (λ k. one_unless_limited (err k) ≤ 1) [
  | backpressure ↦ omega arith
  | _ ↦ omega arith
]

-- the rate limit looks at the count, and what follows leaves window and count alone
check_login-keeps :
    (a : Auth) (now : ℕ) (token : Option (List ℕ)) (random : Option (List ℕ × List ℕ))
    → ((check_login a now token random).0.login_window ≡ a.login_window)
      × ((check_login a now token random).0.login_attempts ≡ a.login_attempts)
      × (10 < a.login_attempts → one_unless_limited (check_login a now token random).1 ≡ 0)
unfolding check_login open_session
check_login-keeps a now token none = elim (Bool-cases (ltb 10 a.login_attempts)) [
  | inl past ↦ rw past (refl, refl, λ many. refl)
  | inr few ↦ rw few (elim (Bool-cases (secret_equal a.token token)) [
    | inr wrong ↦ rw wrong (refl, refl, λ many. absurd (ground arith))
    | inl right ↦ rw right (refl, refl, λ many. absurd (ground arith))
  ])
]
check_login-keeps a now token (some (session, csrf)) = elim (Bool-cases (ltb 10 a.login_attempts)) [
  | inl past ↦ rw past (refl, refl, λ many. refl)
  | inr few ↦ rw few (elim (Bool-cases (secret_equal a.token token)) [
    | inr wrong ↦ rw wrong (refl, refl, λ many. absurd (ground arith))
    | inl right ↦ rw right (refl, refl, λ many. absurd (ground arith))
  ])
]

-- an attempt within the window is counted
count_attempt_within :
    (a : Auth) (now : ℕ)
    → a.login_window ≤ now
    → now < a.login_window + 1000000000
    → a.login_attempts + 1 < 2 ^ 32
    → ((count_attempt a now).login_window ≡ a.login_window)
      × ((count_attempt a now).login_attempts ≡ a.login_attempts + 1)
unfolding count_attempt since
count_attempt_within a now begun within few =
    let same : leb 1000000000 ((now + 2 ^ 64 - a.login_window) % 2 ^ 64) ≡ false = ground arith in
    rw same (refl, omega arith)

-- Of fewer than 2^32 logins, each at a time that is in the second from the start of the window, the rate limit lets at most
-- ten pass, less those that were counted before.
pub admitted_few :
    (a : Auth) (xs : List Attempt)
    → AreWithin a.login_window xs
    → a.login_attempts + length xs < 2 ^ 32
    → admitted a xs ≤ 10 - a.login_attempts
unfolding login
admitted_few a [] within few = omega arith
admitted_few a ((now, token, random) ∷ rest) (begun, soon, later) few =
    let (window, counted) = count_attempt_within a now begun soon (omega (arith, few)) in
    let (kept, same, past) = check_login-keeps (count_attempt a now) now token random in
    let one = one_at_most (check_login (count_attempt a now) now token random).1 in
    let others =
      admitted_few (check_login (count_attempt a now) now token random).0 rest
        (subst (λ w. AreWithin w rest) (sym (kept ∙ window)) later)
        (omega (arith, few, same, counted)) in
    elim (Bool-cases (ltb 10 (count_attempt a now).login_attempts)) [
      | inl many ↦
          let nothing = past (ltb→lt 10 _ many) in omega (arith, nothing, others, same, counted)
      | inr room ↦
          let bound : (count_attempt a now).login_attempts ≤ 10 = ground arith in
          omega (arith, one, others, same, counted, bound)
    ]
