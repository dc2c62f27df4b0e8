-- ===== src/Text/Utf8/Examples.antt =====
-- Tests of the validator and the encoder, and the theorems at concrete inputs.
use yaca.Base.{ℕ, true, false, ◌↔◌, List, [], ◌∷◌, ◌≡◌, refl}
use yaca.Text.Utf8.{encode_utf8_codepoint, text_valid_utf8}
use yaca.Text.Utf8.Scalars.{IsScalar, All, encode_all, text_valid_utf8_iff}

euro : encode_utf8_codepoint 0x20AC ≡ 0xE2 ∷ 0x82 ∷ 0xAC ∷ []
unfolding encode_utf8_codepoint
euro = refl

surrogate : text_valid_utf8 (0xED ∷ 0xA0 ∷ 0x80 ∷ []) ≡ false
unfolding text_valid_utf8
surrogate = refl

mixed : text_valid_utf8 (0x41 ∷ 0xE2 ∷ 0x82 ∷ 0xAC ∷ 0xF0 ∷ 0x9F ∷ 0x98 ∷ 0x80 ∷ []) ≡ true
unfolding text_valid_utf8
mixed = refl

text_valid_utf8_iff_example :
    (text_valid_utf8 (0x41 ∷ 0xE2 ∷ 0x82 ∷ 0xAC ∷ []) ≡ true)
    ↔ ((cs : List ℕ) × All IsScalar cs × (encode_all cs ≡ 0x41 ∷ 0xE2 ∷ 0x82 ∷ 0xAC ∷ []))
text_valid_utf8_iff_example = text_valid_utf8_iff (0x41 ∷ 0xE2 ∷ 0x82 ∷ 0xAC ∷ [])
