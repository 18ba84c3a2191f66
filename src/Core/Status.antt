-- ===== src/Core/Status.antt =====
-- include/wadb.h: the status codes. A function of the program that returns a status and fills its
-- outputs returns a `Result`; the text of an error message is not part of the model.
use webanalyticsdb.Prelude.{◌≡◌, refl, Bool, true, false, if◌then◌else◌}

pub data Status : Type 0 where
  invalid nomem io corrupt version exists not_found locked schema_mismatch backpressure : Status
  limit indeterminate expired read_only cancelled : Status

-- What a call leaves behind: its outputs where the status is WADB_OK, else the status.
pub data Result {ℓ} (Out : Type ℓ) : Type ℓ where
  err : Status → Result Out
  ok : Out → Result Out

-- `if (status) return status;`
infixl 5 ◌>>◌ ◌>>=◌
abbrev pub ◌>>=◌ {ℓ} : {Out Next : Type ℓ} → Result Out → (Out → Result Next) → Result Next
err status >>= next = err status
ok out >>= next = next out

abbrev pub ◌>>◌ {ℓ} : {Next : Type ℓ} → Result (Unit {0}) → Result Next → Result Next
err status >> next = err status
ok out >> next = next

-- `if (bad) return wadb_fail(...)`. It stays shut in proofs that go guard by guard.
unfoldable pub reject : Bool → Status → Result (Unit {0})
reject true e = err e
reject false e = ok tt

-- A guard that was passed.
pub reject-eq-ok {ℓ} :
    {A : Type ℓ} (bad : Bool) (e : Status) (k : Result A) {a : A}
    → (reject bad e >> k) ≡ ok a
    → (bad ≡ false) × (k ≡ ok a)
unfolding reject
reject-eq-ok true e k h = cc
reject-eq-ok false e k h = (refl, h)

-- What a call that succeeds says of the calls before it.
pub >>-ok :
    {A : Type 0} (m : Result (Unit {0})) (k : Result A) {a : A}
    → (m >> k) ≡ ok a
    → (m ≡ ok tt) × (k ≡ ok a)
>>-ok (ok x) k h = (refl, h)
>>-ok (err e) k h = cc

pub >>=-ok :
    {A B : Type 0} (m : Result A) (k : A → Result B) {b : B}
    → (m >>= k) ≡ ok b
    → (a : A) × (m ≡ ok a) × (k a ≡ ok b)
>>=-ok (ok x) k h = (x, refl, h)
>>=-ok (err e) k h = cc

pub ok-eq-ok : {A : Type 0} (a b : A) → ok a ≡ ok b → a ≡ b
ok-eq-ok a b h = cc

-- What either branch of a result gives.
pub if_ok :
    {A : Type 0} (b : Bool) (m n : Result A) {a : A} (P : A → Type 0)
    → (if b then m else n) ≡ ok a
    → ((a : A) → m ≡ ok a → P a)
    → ((a : A) → n ≡ ok a → P a)
    → P a
if_ok true m n {a} P e f g = f a e
if_ok false m n {a} P e f g = g a e
