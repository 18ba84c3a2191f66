-- ===== src/Core/Text.antt =====
-- core/encoding.c: `wadb_identifier` and `wadb_utf8`.
pub mod Identifier
pub mod Utf8
use webanalyticsdb.Prelude.{
  ℕ, zero, suc, ◌+◌, ◌*◌, ◌/◌, ◌%◌, Bool, true, false, ◌&&◌, ◌||◌, not, List, [], ◌∷◌, Option, none,
  some, ltb, leb, ◌==◌, if◌then◌else◌, length,
}

abbrev pub name_cap : ℕ
name_cap = 64

-- The test of one character at position i.
unfoldable pub identifier_char : ℕ → ℕ → Bool
identifier_char i c =
    c == b'_'
    || (leb b'A' c && leb c b'Z')
    || (leb b'a' c && leb c b'z')
    || (not (i == 0) && leb b'0' c && leb c b'9')

-- A C string is the list of its bytes, and its terminator stands behind the list. The number is
-- how many rounds are left.
unfoldable pub identifier_loop : ℕ → ℕ → List ℕ → Bool
identifier_loop zero i name = false
identifier_loop (suc k) i [] = true
identifier_loop (suc k) i (c ∷ name) =
    if c == 0 then true else if identifier_char i c then identifier_loop k (i + 1) name else false

unfoldable pub starts_nonzero : List ℕ → Bool
starts_nonzero [] = false
starts_nonzero (c ∷ name) = not (c == 0)

unfoldable pub identifier : List ℕ → Bool
unfolding identifier_loop starts_nonzero identifier_char
identifier name = starts_nonzero name && identifier_loop name_cap 0 name

-- `while (more--)`: each byte must be 10xxxxxx, and its six bits are shifted in. The result is the
-- code point and what follows it. The caller has tested that enough bytes are left.
unfoldable pub continuation : ℕ → ℕ → List ℕ → Option (ℕ × List ℕ)
continuation zero cp p = some (cp, p)
continuation (suc more) cp [] = none
continuation (suc more) cp (b ∷ p) =
    if not (b / 64 == 2) then none else continuation more (cp * 64 + b % 64) p

-- The last test of a round: overlong forms, values past U+10FFFF and surrogates are refused.
unfoldable pub scalar_from : ℕ → Option (ℕ × List ℕ) → Option (List ℕ)
scalar_from least none = none
scalar_from least (some (cp, p)) =
    if ltb cp least || ltb 0x10ffff cp || (leb 0xd800 cp && leb cp 0xdfff) then none else some p

unfoldable pub multibyte : ℕ → ℕ → ℕ → List ℕ → Option (List ℕ)
unfolding continuation scalar_from
multibyte more least cp p =
    if ltb (length p) more then none else scalar_from least (continuation more cp p)

-- One round of the loop: the rest of the text behind its first character.
unfoldable pub utf8_step : ℕ → List ℕ → Option (List ℕ)
unfolding multibyte
utf8_step c p =
    if ltb c 0x80
    then some p
    else if leb 0xc2 c && leb c 0xdf
    then multibyte 1 0x80 (c % 32) p
    else if leb 0xe0 c && leb c 0xef
    then multibyte 2 0x800 (c % 16) p
    else if leb 0xf0 c && leb c 0xf4
    then multibyte 3 0x10000 (c % 8) p
    else none

-- `none` of the fuelled loop means that the fuel ran out.
unfoldable pub utf8_loop : ℕ → List ℕ → Option Bool
unfolding utf8_step
utf8_loop fuel [] = some true
utf8_loop zero (c ∷ p) = none
utf8_loop (suc fuel) (c ∷ p) = elim (utf8_step c p) [
  | none ↦ some false
  | some rest ↦ utf8_loop fuel rest
]

-- Each round takes a byte, so as many rounds as bytes are enough.
unfoldable pub utf8 : List ℕ → Bool
unfolding utf8_loop
utf8 p = elim (utf8_loop (length p) p) [ none ↦ false | some b ↦ b ]
