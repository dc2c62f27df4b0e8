-- ===== src/Text/Utf8.antt =====
-- `text_valid_utf8` of native/yaca_text.h and `encode_utf8_codepoint` of native/yaca_native.c.
pub mod Shape
pub mod Scalars
mod Examples
use Prim.Native.Nat.{bit_and, bit_or}
use yaca.Base.{
  ℕ, zero, suc, ◌+◌, ◌-◌, ◌/◌, ◌%◌, ◌^◌, Bool, true, false, ◌&&◌, ◌||◌, Option, none, some, [], ◌∷◌,
  ◌≡◌, refl, Bytes, length, drop, ltb, leb, ◌==◌, if◌then◌else◌,
}

-- What the first byte of a multi-byte sequence decides.
pub record Lead : Type 0 where
  pub width : ℕ
  pub second_minimum : ℕ
  pub second_maximum : ℕ

-- `none` is the final `else return 0`: a byte that starts no sequence.
pub lead_of : ℕ → Option Lead
lead_of first =
    if leb 0xC2 first && leb first 0xDF
    then some (record { width = 2; second_minimum = 0x80; second_maximum = 0xBF })
    else if leb 0xE0 first && leb first 0xEF
    then some (record {
      width = 3;
      second_minimum = if first == 0xE0 then 0xA0 else 0x80;
      second_maximum = if first == 0xED then 0x9F else 0xBF;
    })
    else if leb 0xF0 first && leb first 0xF4
    then some (record {
      width = 4;
      second_minimum = if first == 0xF0 then 0x90 else 0x80;
      second_maximum = if first == 0xF4 then 0x8F else 0xBF;
    })
    else none

-- `for (index = 1; index < width; ++index)`, with `width - index` rounds left and the bytes from
-- `position + index` on. The length test before the loop keeps it from the end of the bytes.
pub continues : Lead → ℕ → ℕ → Bytes → Bool
continues l zero index rest = true
continues l (suc left) index [] = false
continues l (suc left) index (byte ∷ rest) =
    let minimum = if index == 1 then l.second_minimum else 0x80 in
    let maximum = if index == 1 then l.second_maximum else 0xBF in
    if ltb byte minimum || ltb maximum byte then false else continues l left (index + 1) rest

-- The body of the `while` loop at `position`, whose byte is `first`, with the bytes behind it:
-- by how much `position` grows, or `none` for the `return 0`s.
pub advance : ℕ → Bytes → Option ℕ
advance first rest =
    let multi_byte : Option ℕ = elim (lead_of first) [
      | none ↦ none
      | some l ↦
          if ltb (length (first ∷ rest)) l.width
          then none
          else if continues l (l.width - 1) 1 rest
          then some l.width
          else none
    ] in
    if ltb first 0x80 then some 1 else multi_byte

-- The loop, over the bytes from `position` on; each round takes at least one byte, so the number of
-- bytes is fuel enough.
pub valid_from : ℕ → Bytes → Bool
valid_from fuel [] = true
valid_from zero (first ∷ rest) = false
valid_from (suc fuel) (first ∷ rest) = elim (advance first rest) [
  | none ↦ false
  | some width ↦ valid_from fuel (drop width (first ∷ rest))
]

unfoldable pub text_valid_utf8 : Bytes → Bool
unfolding valid_from advance lead_of continues
text_valid_utf8 bytes = valid_from (length bytes) bytes

-- The cast to `char` keeps the low eight bits.
abbrev char_of : ℕ → ℕ
char_of n = n % 2 ^ 8

-- The bytes written to `output`; their number is the function's result.
unfoldable pub encode_utf8_codepoint : ℕ → Bytes
encode_utf8_codepoint codepoint =
    let last = char_of (bit_or 0x80 (bit_and codepoint 0x3F)) in
    let third = char_of (bit_or 0x80 (bit_and (codepoint / 2 ^ 6) 0x3F)) in
    let second = char_of (bit_or 0x80 (bit_and (codepoint / 2 ^ 12) 0x3F)) in
    if leb codepoint 0x7F
    then char_of codepoint ∷ []
    else if leb codepoint 0x7FF
    then char_of (bit_or 0xC0 (codepoint / 2 ^ 6)) ∷ last ∷ []
    else if leb codepoint 0xFFFF
    then char_of (bit_or 0xE0 (codepoint / 2 ^ 12)) ∷ third ∷ last ∷ []
    else char_of (bit_or 0xF0 (codepoint / 2 ^ 18)) ∷ second ∷ third ∷ last ∷ []
