-- ===== src/Core/Examples.antt =====
-- The checks of core/encoding.c at concrete values.
use webanalyticsdb.Prelude.{ℕ, ◌≤◌, ◌<◌, ◌≡◌, ◌↔◌, true, List, [], ◌∷◌, arith, All}
use webanalyticsdb.Core.Text.{identifier, utf8}
use webanalyticsdb.Core.Text.Utf8.{utf8_iff, IsScalar, encode}
use webanalyticsdb.Core.Text.Identifier.{identifier_iff, IsName}

-- "aé€😀"
abbrev four_widths : List ℕ
four_widths = 97 ∷ 195 ∷ 169 ∷ 226 ∷ 130 ∷ 172 ∷ 240 ∷ 159 ∷ 152 ∷ 128 ∷ []

utf8_iff_example :
    (utf8 four_widths ≡ true) ↔ ((cs : List ℕ) × All IsScalar cs × (four_widths ≡ encode cs))
utf8_iff_example = utf8_iff four_widths (omega arith)

-- "a_1"
abbrev a_name : List ℕ
a_name = 97 ∷ 95 ∷ 49 ∷ []

identifier_iff_example : (identifier a_name ≡ true) ↔ ((0 < 3) × (3 ≤ 63) × IsName a_name)
identifier_iff_example = identifier_iff a_name (ground arith)
