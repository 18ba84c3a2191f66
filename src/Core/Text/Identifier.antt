-- ===== src/Core/Text/Identifier.antt =====
-- What `wadb_identifier` accepts.
use webanalyticsdb.Prelude.{
  ℕ, zero, suc, ◌+◌, ◌≤◌, ◌<◌, ◌≡◌, refl, ◌≢◌, ◌↔◌, ◌⊎◌, arith, true, List, [], ◌∷◌, length, All,
}
use webanalyticsdb.Core.Text.{name_cap, identifier_char, identifier_loop, identifier}

-- The characters of an identifier from position i on, and none of them is the terminator.
abbrev pub AreChars : ℕ → List ℕ → Type 0
AreChars i [] = Unit {0}
AreChars i (c ∷ s) = (c ≢ 0) × (identifier_char i c ≡ true) × AreChars (i + 1) s

identifier_loop_sound :
    (k i : ℕ) (s : List ℕ)
    → All (λ c. c ≢ 0) s
    → identifier_loop k i s ≡ true
    → (length s < k) × AreChars i s
unfolding identifier_loop
identifier_loop_sound zero i s nz h = cc
identifier_loop_sound (suc k) i [] nz h = omega arith
identifier_loop_sound (suc k) i (c ∷ s) nz h =
    ground (arith, identifier_loop_sound k (i + 1) s nz.1)

identifier_loop_complete :
    (k i : ℕ) (s : List ℕ) → length s < k → AreChars i s → identifier_loop k i s ≡ true
unfolding identifier_loop
identifier_loop_complete zero i s lt h = absurd (omega arith)
identifier_loop_complete (suc k) i [] lt h = refl
identifier_loop_complete (suc k) i (c ∷ s) lt h =
    ground (arith, identifier_loop_complete k (i + 1) s (omega arith) h.2)

-- A letter of ASCII or the underscore, and a digit.
abbrev pub IsLetter : ℕ → Type 0
IsLetter c = (c ≡ 95) ⊎ ((65 ≤ c) × (c ≤ 90)) ⊎ ((97 ≤ c) × (c ≤ 122))

abbrev pub IsDigit : ℕ → Type 0
IsDigit c = (48 ≤ c) × (c ≤ 57)

abbrev pub IsName : List ℕ → Type 0
IsName [] = Unit {0}
IsName (c ∷ s) = IsLetter c × All (λ d. IsLetter d ⊎ IsDigit d) s

first_char_iff : (c : ℕ) → (identifier_char 0 c ≡ true) ↔ IsLetter c
unfolding identifier_char
first_char_iff c = (λ h. ground arith, λ h. ground arith)

later_char_iff : (i c : ℕ) → (identifier_char (i + 1) c ≡ true) ↔ (IsLetter c ⊎ IsDigit c)
unfolding identifier_char
later_char_iff i c = (λ h. ground arith, λ h. ground arith)

AreChars-later :
    (i : ℕ) (s : List ℕ)
    → All (λ c. c ≢ 0) s
    → AreChars (i + 1) s ↔ All (λ d. IsLetter d ⊎ IsDigit d) s
AreChars-later i [] nz = (λ h. tt, λ h. tt)
AreChars-later i (c ∷ s) (here, nz) = (
  λ h. ((later_char_iff i c).0 h.1, (AreChars-later (i + 1) s nz).0 h.2),
  λ h. (here, (later_char_iff i c).1 h.0, (AreChars-later (i + 1) s nz).1 h.1),
)

-- A C string is an identifier exactly when it has 1 to 63 bytes, the first of them is a letter of ASCII or
-- the underscore, and each other one is such a letter, the underscore or a digit.
pub identifier_iff :
    (s : List ℕ)
    → All (λ c. c ≢ 0) s
    → (identifier s ≡ true) ↔ ((0 < length s) × (length s ≤ 63) × IsName s)
unfolding identifier
identifier_iff [] nz = (λ h. cc, λ h. absurd (omega arith))
identifier_iff (c ∷ s) (here, nz) = (
  λ h.
      let r = identifier_loop_sound name_cap 0 (c ∷ s) (here, nz) (ground arith) in
      (omega arith, omega arith, ((first_char_iff c).0 r.1.1, (AreChars-later 0 s nz).0 r.1.2)),
  λ h. ground (
    arith,
    identifier_loop_complete name_cap 0 (c ∷ s) (omega arith)
        (here, (first_char_iff c).1 h.2.0, (AreChars-later 0 s nz).1 h.2.1),
  ),
)
