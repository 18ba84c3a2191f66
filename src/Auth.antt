-- ===== src/Auth.antt =====
-- src/server/auth.c: the sessions of the server and the rate limit of logins. A secret is the list of the
-- bytes of its C string; a string that a client may leave out is an `Option`. The clock and the
-- random secrets are arguments; the token file is not modelled.
pub mod Laws
mod Examples
use Prim.Native.Nat.{bit_or, bit_xor}
use webanalyticsdb.Prelude.{
  ℕ, zero, suc, ◌+◌, ◌-◌, ◌*◌, ◌%◌, ◌^◌, Bool, true, false, not, ◌&&◌, ◌||◌, List, [], ◌∷◌, ltb,
  leb, ◌==◌, if◌then◌else◌, length, map, set, Option, none, some,
}
use webanalyticsdb.Core.Status.{Result, ok, err, backpressure, invalid, io}

pub record Credentials : Type 0 where
  pub session : List ℕ
  pub csrf : List ℕ
  pub expires_ns : ℕ

pub record Auth : Type 0 where
  pub token : List ℕ
  pub sessions : List Credentials
  pub login_window : ℕ
  pub login_attempts : ℕ

-- for (i < 64) difference |= a[i] ^ b[i]
unfoldable pub difference : List ℕ → List ℕ → ℕ → ℕ
difference (a ∷ p) (b ∷ q) d = difference p q (bit_or d (bit_xor a b))
difference _ _ d = d

unfoldable pub secret_equal : List ℕ → Option (List ℕ) → Bool
unfolding difference
secret_equal a none = false
secret_equal a (some b) = length a == 64 && length b == 64 && difference a b 0 == 0

-- The slot of the session that ends first; `slot` and `ends` are the choice so far.
unfoldable pub first_to_end : ℕ → ℕ → ℕ → List Credentials → ℕ
first_to_end slot ends i [] = slot
first_to_end slot ends i (c ∷ cs) =
    if ltb c.expires_ns ends
    then first_to_end i c.expires_ns (i + 1) cs
    else first_to_end slot ends (i + 1) cs

unfoldable pub session_slot : List Credentials → ℕ
unfolding first_to_end
session_slot [] = 0
session_slot (c ∷ cs) = first_to_end 0 c.expires_ns 1 cs

-- now - login_window, of type uint64_t
unfoldable pub since : ℕ → ℕ → ℕ
since window now = (now + 2 ^ 64 - window) % 2 ^ 64

-- A new window where a second has passed, or where the clock was read before another login opened a window,
-- and one attempt more, of type unsigned.
unfoldable pub count_attempt : Auth → ℕ → Auth
unfolding since
count_attempt a now =
    let fresh = leb 1000000000 (since a.login_window now) in
    record a {
      login_window = if fresh then now else a.login_window;
      login_attempts = ((if fresh then 0 else a.login_attempts) + 1) % 2 ^ 32;
    }

unfoldable pub open_session : Auth → ℕ → List ℕ → List ℕ → Auth × Result Credentials
unfolding session_slot
open_session a now session csrf =
    let c : Credentials = record {
      session = session;
      csrf = csrf;
      expires_ns = now + 43200000000000;
    } in
    (record a { sessions = set a.sessions (session_slot a.sessions) c }, ok c)

-- What `wadb_auth_login` does once the attempt is counted.
unfoldable pub check_login :
    Auth → ℕ → Option (List ℕ) → Option (List ℕ × List ℕ) → Auth × Result Credentials
unfolding secret_equal open_session
check_login a now token random =
    if ltb 10 a.login_attempts
    then (a, err backpressure)
    else if not (secret_equal a.token token)
    then (a, err invalid)
    else elim random [ none ↦ (a, err io) | some (session, csrf) ↦ open_session a now session csrf ]

unfoldable pub login :
    Auth → ℕ → Option (List ℕ) → Option (List ℕ × List ℕ) → Auth × Result Credentials
unfolding count_attempt check_login
login a now token random = check_login (count_attempt a now) now token random

-- Whether a request may use a session; one that changes something has to know the second secret.
unfoldable pub is_valid : ℕ → Bool → Option (List ℕ) → Option (List ℕ) → Credentials → Bool
unfolding secret_equal
is_valid now mutation session csrf c =
    ltb now c.expires_ns
    && secret_equal c.session session
    && (not mutation || secret_equal c.csrf csrf)

unfoldable pub find_session :
    ℕ → Bool → Option (List ℕ) → Option (List ℕ) → List Credentials → Option Credentials
unfolding is_valid
find_session now mutation session csrf [] = none
find_session now mutation session csrf (c ∷ cs) =
    if is_valid now mutation session csrf c
    then some c
    else find_session now mutation session csrf cs

abbrev pub no_credentials : Credentials
no_credentials = record { session = []; csrf = []; expires_ns = 0 }

unfoldable pub forget : Option (List ℕ) → Credentials → Credentials
unfolding secret_equal
forget session c = if secret_equal c.session session then no_credentials else c

unfoldable pub logout : Option (List ℕ) → Auth → Auth
unfolding forget
logout session a = record a { sessions = map (forget session) a.sessions }
