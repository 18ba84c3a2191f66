-- ===== src/Auth/Examples.antt =====
-- Logins and sessions at concrete values.
use webanalyticsdb.Prelude.{◌-◌, ◌≤◌, ◌≡◌, true, List, [], ◌∷◌, none, some, arith}
use webanalyticsdb.Auth.{Auth, find_session, logout}
use webanalyticsdb.Auth.Laws.{Attempt, admitted, admitted_few, find_session-logout}

abbrev busy : Auth
busy = record {
  token = 49 ∷ [];
  sessions = record { session = 97 ∷ []; csrf = 98 ∷ []; expires_ns = 900 } ∷ [];
  login_window = 1000;
  login_attempts = 9;
}

abbrev guesses : List Attempt
guesses = (1001, some (50 ∷ []), none) ∷ (1002, some (51 ∷ []), none) ∷ (1003, none, none) ∷ []

admitted_few_example : admitted busy guesses ≤ 10 - 9
admitted_few_example =
    admitted_few busy guesses
      (omega arith, omega arith, (omega arith, omega arith, (omega arith, omega arith, tt)))
      (omega arith)

find_session-logout_example :
    find_session 500 true (some (97 ∷ [])) none (logout (some (97 ∷ [])) busy).sessions ≡ none
find_session-logout_example = find_session-logout 500 true (some (97 ∷ [])) none busy
