-- ===== src/Core/Text/Utf8.antt =====
-- What `wadb_utf8` accepts: the encodings of the sequences of Unicode scalar values.
use webanalyticsdb.Prelude.{
  ℕ, zero, suc, ◌+◌, ◌*◌, ◌/◌, ◌%◌, ◌≤◌, ◌<◌, ◌≡◌, refl, ap, ◌∙◌, subst, ◌⊎◌, inl, inr, ◌↔◌, arith,
  Bool, true, false, List, [], ◌∷◌, ◌++◌, Option, none, some, ltb, leb, if◌then◌else◌, length,
  length-append, All, Option-cases,
}
use webanalyticsdb.Core.Bytes.{IsByte, byte}
use webanalyticsdb.Core.Text.{utf8_step, utf8_loop, utf8}

abbrev pub IsScalar : ℕ → Type 0
IsScalar c = (c ≤ 0x10ffff) × ((c < 0xd800) ⊎ (0xdfff < c))

-- The encoding of one scalar value, as RFC 3629 has it.
unfoldable pub encode_char : ℕ → List ℕ
encode_char c =
    if ltb c 0x80
    then c ∷ []
    else if ltb c 0x800
    then (0xc0 + c / 64) ∷ (0x80 + c % 64) ∷ []
    else if ltb c 0x10000
    then (0xe0 + c / 4096) ∷ (0x80 + c / 64 % 64) ∷ (0x80 + c % 64) ∷ []
    else (0xf0 + c / 262144) ∷ (0x80 + c / 4096 % 64) ∷ (0x80 + c / 64 % 64) ∷ (0x80 + c % 64) ∷ []

unfoldable pub encode : List ℕ → List ℕ
unfolding encode_char
encode [] = []
encode (c ∷ cs) = encode_char c ++ encode cs

length-encode_char : (c : ℕ) → 1 ≤ length (encode_char c)
unfolding encode_char
length-encode_char c = ground arith

All-right {ℓ κ} : {A : Type ℓ} (P : A → Type κ) (xs ys : List A) → All P (xs ++ ys) → All P ys
All-right P [] ys h = h
All-right P (x ∷ xs) ys h = All-right P xs ys h.1

abbrev head_step : List ℕ → Option (List ℕ)
head_step [] = none
head_step (c ∷ p) = utf8_step c p

step-encode_char :
    (c : ℕ) (rest : List ℕ) → IsScalar c → head_step (encode_char c ++ rest) ≡ some rest
unfolding encode_char utf8_step
step-encode_char c rest h = ground arith

-- The code point that a round reads, from the first byte and those behind it.
decoded : ℕ → List ℕ → ℕ
decoded b p =
    if ltb b 0x80
    then b
    else if leb b 0xdf
    then b % 32 * 64 + byte p 0 % 64
    else if leb b 0xef
    then (b % 16 * 64 + byte p 0 % 64) * 64 + byte p 1 % 64
    else ((b % 8 * 64 + byte p 0 % 64) * 64 + byte p 1 % 64) * 64 + byte p 2 % 64

step_sound :
    (b : ℕ) (p rest : List ℕ)
    → All IsByte (b ∷ p)
    → utf8_step b p ≡ some rest
    → (c : ℕ) × IsScalar c × ((b ∷ p) ≡ encode_char c ++ rest)
unfolding encode_char utf8_step decoded
step_sound b [] rest bytes h = (decoded b [], ground arith, ground arith)
step_sound b (x ∷ []) rest bytes h = (decoded b (x ∷ []), ground arith, ground arith)
step_sound b (x ∷ y ∷ []) rest bytes h = (decoded b (x ∷ y ∷ []), ground arith, ground arith)
step_sound b (x ∷ y ∷ z ∷ p) rest bytes h = (decoded b (x ∷ y ∷ z ∷ p), ground arith, ground arith)

-- A round takes at least one byte.
step_shorter :
    (c : ℕ) (p rest : List ℕ)
    → All IsByte (c ∷ p)
    → utf8_step c p ≡ some rest
    → length rest ≤ length p
step_shorter c p rest bytes h =
    let (v, scalar, e) = step_sound c p rest bytes h in
    omega (arith, ap length e, length-append (encode_char v) rest, length-encode_char v)

Sequence : List ℕ → Type 0
Sequence p = (cs : List ℕ) × All IsScalar cs × (p ≡ encode cs)

utf8_loop_sound : (fuel : ℕ) (p : List ℕ) → All IsByte p → utf8_loop fuel p ≡ some true → Sequence p
unfolding utf8_loop encode Sequence
utf8_loop_sound fuel [] bytes h = ([], tt, refl)
utf8_loop_sound zero (c ∷ p) bytes h = cc
utf8_loop_sound (suc fuel) (c ∷ p) bytes h = elim (Option-cases (utf8_step c p)) [
  | inl e ↦ cc (rw (e, utf8_loop) at h)
  | inr (rest, e) ↦
      let (v, scalar, join) = step_sound c p rest bytes e in
      let (cs, scalars, split) =
        utf8_loop_sound fuel rest
          (All-right IsByte (encode_char v) rest (subst (All IsByte) join bytes))
          (rw (e, utf8_loop) at h) in
      (v ∷ cs, (scalar, scalars), join ∙ ap (◌++◌ (encode_char v)) split)
]

utf8_loop_step :
    (fuel : ℕ) (p rest : List ℕ)
    → head_step p ≡ some rest
    → utf8_loop (suc fuel) p ≡ utf8_loop fuel rest
unfolding utf8_loop
utf8_loop_step fuel [] rest h = cc
utf8_loop_step fuel (c ∷ p) rest h = rw (h, utf8_loop)

utf8_loop-nil : (fuel : ℕ) → utf8_loop fuel [] ≡ some true
unfolding utf8_loop
utf8_loop-nil zero = refl
utf8_loop-nil (suc fuel) = refl

utf8_loop-encode :
    (cs : List ℕ) (fuel : ℕ)
    → All IsScalar cs
    → length (encode cs) ≤ fuel
    → utf8_loop fuel (encode cs) ≡ some true
unfolding encode
utf8_loop-encode [] fuel scalars enough = utf8_loop-nil fuel
utf8_loop-encode (c ∷ cs) zero scalars enough =
    absurd (omega (arith, length-append (encode_char c) (encode cs), length-encode_char c))
utf8_loop-encode (c ∷ cs) (suc fuel) scalars enough =
    utf8_loop_step fuel (encode_char c ++ encode cs) (encode cs)
      (step-encode_char c (encode cs) scalars.0)
    ∙ utf8_loop-encode cs fuel scalars.1
        (omega (arith, length-append (encode_char c) (encode cs), length-encode_char c))

-- `wadb_utf8` accepts a text exactly when it is the UTF-8 encoding of some sequence of Unicode
-- scalar values: no overlong forms, no surrogates, nothing past U+10FFFF, nothing cut short.
pub utf8_iff :
    (p : List ℕ)
    → All IsByte p
    → (utf8 p ≡ true) ↔ ((cs : List ℕ) × All IsScalar cs × (p ≡ encode cs))
unfolding utf8 Sequence
utf8_iff p bytes = (
  λ h. utf8_loop_sound (length p) p bytes (of_some (utf8_loop (length p) p) h),
  λ (cs, scalars, e).
      rw e (rw (utf8_loop-encode cs (length (encode cs)) scalars (omega arith), utf8)),
)
  where
    of_some : (o : Option Bool) → (elim o [ none ↦ false | some b ↦ b ]) ≡ true → o ≡ some true
    of_some none h = cc
    of_some (some b) h = ap some h
