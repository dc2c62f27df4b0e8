-- ===== src/Text/Utf8/Scalars.antt =====
-- The validator against the encoder: exactly the encodings of Unicode scalar values are valid.
use Prim.Native.Nat.{bit_and, bit_or}
use native.Mathlib.Nat.{le_refl}
use yaca.Base.{
  ℕ, zero, suc, ◌+◌, ◌-◌, ◌*◌, ◌/◌, ◌%◌, ◌^◌, ◌≤◌, ◌<◌, true, false, ◌⊎◌, ◌↔◌, inl, inr, none, some,
  List, [], ◌∷◌, ◌++◌, ◌≡◌, refl, ap, sym, ◌∙◌, arith, Bytes, length, drop, le→leb, lt→not_leb,
  length-drop, Option-cases,
}
use yaca.Base.Bits.{bit_or_below, bit_and_mask}
use yaca.Text.Utf8.{encode_utf8_codepoint, text_valid_utf8, valid_from, advance}
use yaca.Text.Utf8.Shape.{
  Shape, one, two, three, four, IsTrail, Starts3, Starts4, advance_one, advance_two, advance_three,
  advance_four, advance-Shape,
}

-- A Unicode scalar value: a code point that is no surrogate.
abbrev pub IsScalar : ℕ → Type 0
IsScalar c = (c < 0xD800) ⊎ ((0xE000 ≤ c) × (c < 0x110000))

abbrev pub All {ℓ κ} : {A : Type ℓ} → (A → Type κ) → List A → Type κ
All P [] = Unit
All P (x ∷ xs) = P x × All P xs

abbrev pub encode_all : List ℕ → Bytes
encode_all [] = []
encode_all (c ∷ cs) = encode_utf8_codepoint c ++ encode_all cs

-- The trailing byte that carries the six bits of `c` above `2 ^ k`.
trail_byte : (x : ℕ) → bit_or 0x80 (bit_and x 0x3F) % 2 ^ 8 ≡ 0x80 + x % 64
trail_byte x = rw (bit_and_mask 6 x, bit_or_below 6 2 (x % 64) (omega arith)) (omega arith)

encode_one : (c : ℕ) → c < 0x80 → encode_utf8_codepoint c ≡ c ∷ []
unfolding encode_utf8_codepoint
encode_one c h = rw (le→leb c 0x7F (omega arith)) (ap (λ t. t ∷ []) (omega arith))

encode_two :
    (c : ℕ)
    → 0x80 ≤ c
    → c < 0x800
    → encode_utf8_codepoint c ≡ (0xC0 + c / 64) ∷ (0x80 + c % 64) ∷ []
unfolding encode_utf8_codepoint
encode_two c h k =
    rw
      (
        lt→not_leb c 0x7F h,
        le→leb c 0x7FF (omega arith),
        trail_byte c,
        bit_or_below 6 3 (c / 64) (omega arith),
      )
      (ap (λ t. t ∷ (0x80 + c % 64) ∷ []) (omega arith))

encode_three :
    (c : ℕ)
    → 0x800 ≤ c
    → c < 0x10000
    → encode_utf8_codepoint c ≡ (0xE0 + c / 4096) ∷ (0x80 + c / 64 % 64) ∷ (0x80 + c % 64) ∷ []
unfolding encode_utf8_codepoint
encode_three c h k =
    rw
      (
        lt→not_leb c 0x7F (omega arith),
        lt→not_leb c 0x7FF h,
        le→leb c 0xFFFF (omega arith),
        trail_byte (c / 64),
        trail_byte c,
        bit_or_below 4 14 (c / 4096) (omega arith),
      )
      (ap (λ t. t ∷ (0x80 + c / 64 % 64) ∷ (0x80 + c % 64) ∷ []) (omega arith))

encode_four :
    (c : ℕ)
    → 0x10000 ≤ c
    → c < 0x110000
    → encode_utf8_codepoint c
      ≡ (0xF0 + c / 2 ^ 18) ∷ (0x80 + c / 4096 % 64) ∷ (0x80 + c / 64 % 64) ∷ (0x80 + c % 64) ∷ []
unfolding encode_utf8_codepoint
encode_four c h k =
    rw
      (
        lt→not_leb c 0x7F (omega arith),
        lt→not_leb c 0x7FF (omega arith),
        lt→not_leb c 0xFFFF h,
        trail_byte (c / 4096),
        trail_byte (c / 64),
        trail_byte c,
        bit_or_below 3 30 (c / 2 ^ 18) (omega arith),
      )
      (ap (λ t. t ∷ (0x80 + c / 4096 % 64) ∷ (0x80 + c / 64 % 64) ∷ (0x80 + c % 64) ∷ [])
        (omega arith))

sizes :
    (c : ℕ)
    → c < 0x110000
    → (c < 0x80) ⊎ (0x80 ≤ c) × (c < 0x800) ⊎ (0x800 ≤ c) × (c < 0x10000) ⊎ (0x10000 ≤ c)
sizes c h = grind arith

-- The loop reads the bytes of one scalar in one round.
abbrev Passes : Bytes → Bytes → Type 0
Passes bytes rest =
    (a w : ℕ) × (t : Bytes) × (bytes ++ rest ≡ a ∷ t)
    × (advance a t ≡ some w)
    × (1 ≤ w)
    × (drop w (a ∷ t) ≡ rest)

encode-Passes :
    (c : ℕ) (rest : Bytes) → c < 0x110000 → IsScalar c → Passes (encode_utf8_codepoint c) rest
encode-Passes c rest below s = elim (sizes c below) [
  | inl h ↦
      (c, 1, rest, ap (λ t. t ++ rest) (encode_one c h), advance_one rest c h, omega arith, refl)
  | inr (inl (h, k)) ↦ (
    0xC0 + c / 64,
    2,
    (0x80 + c % 64) ∷ rest,
    ap (λ t. t ++ rest) (encode_two c h k),
    advance_two rest _ _ (omega arith) (omega arith) (omega arith),
    omega arith,
    refl,
  )
  | inr (inr (inl (h, k))) ↦ (
    0xE0 + c / 4096,
    3,
    (0x80 + c / 64 % 64) ∷ (0x80 + c % 64) ∷ rest,
    ap (λ t. t ++ rest) (encode_three c h k),
    advance_three rest _ _ _ (omega arith) (omega arith),
    omega arith,
    refl,
  )
  | inr (inr (inr h)) ↦ (
    0xF0 + c / 2 ^ 18,
    4,
    (0x80 + c / 4096 % 64) ∷ (0x80 + c / 64 % 64) ∷ (0x80 + c % 64) ∷ rest,
    ap (λ t. t ++ rest) (encode_four c h below),
    advance_four rest _ _ _ _ (omega arith) (omega arith) (omega arith),
    omega arith,
    refl,
  )
]

abbrev InRange : ℕ → ℕ → ℕ → Type 0
InRange lo hi c = (lo ≤ c) × (c < hi) × IsScalar c

scalar_three :
    (a b d : ℕ)
    → Starts3 a b
    → IsTrail d
    → InRange 0x800 0x10000 ((a - 0xE0) * 4096 + (b - 0x80) * 64 + (d - 0x80))
scalar_three a b d h t = grind arith

scalar_four :
    (a b d g : ℕ)
    → Starts4 a b
    → IsTrail d
    → IsTrail g
    → InRange 0x10000 0x110000
        ((a - 0xF0) * 2 ^ 18 + (b - 0x80) * 4096 + (d - 0x80) * 64 + (g - 0x80))
scalar_four a b d g h t u = grind arith

-- One well-formed sequence spells one scalar.
Shape-IsScalar :
    {bytes tail : Bytes}
    → Shape bytes tail
    → (c : ℕ) × IsScalar c × (encode_utf8_codepoint c ++ tail ≡ bytes)
Shape-IsScalar {tail} (one a h e) = (a, omega arith, cc (encode_one a h))
Shape-IsScalar {tail} (two a b h k t e) =
    let c = (a - 0xC0) * 64 + (b - 0x80) in
    let first : 0xC0 + c / 64 ≡ a = omega arith in
    let second : 0x80 + c % 64 ≡ b = omega arith in
    (c, omega arith, cc (encode_two c (omega arith) (omega arith)))
Shape-IsScalar {tail} (three a b d h t e) =
    let c = (a - 0xE0) * 4096 + (b - 0x80) * 64 + (d - 0x80) in
    let first : 0xE0 + c / 4096 ≡ a = omega arith in
    let second : 0x80 + c / 64 % 64 ≡ b = omega arith in
    let third : 0x80 + c % 64 ≡ d = omega arith in
    let (lo, hi, scalar) = scalar_three a b d h t in (c, scalar, cc (encode_three c lo hi))
Shape-IsScalar {tail} (four a b d g h t u e) =
    let c = (a - 0xF0) * 2 ^ 18 + (b - 0x80) * 4096 + (d - 0x80) * 64 + (g - 0x80) in
    let first : 0xF0 + c / 2 ^ 18 ≡ a = omega arith in
    let second : 0x80 + c / 4096 % 64 ≡ b = omega arith in
    let third : 0x80 + c / 64 % 64 ≡ d = omega arith in
    let fourth : 0x80 + c % 64 ≡ g = omega arith in
    let (lo, hi, scalar) = scalar_four a b d g h t u in (c, scalar, cc (encode_four c lo hi))

valid_from_step :
    (fuel a w : ℕ) (rest : Bytes)
    → advance a rest ≡ some w
    → valid_from (suc fuel) (a ∷ rest) ≡ valid_from fuel (drop w (a ∷ rest))
unfolding valid_from
valid_from_step fuel a w rest e = rw (e, valid_from)

valid_from_stop :
    (fuel a : ℕ) (rest : Bytes) → advance a rest ≡ none → valid_from (suc fuel) (a ∷ rest) ≡ false
unfolding valid_from
valid_from_stop fuel a rest e = rw (e, valid_from)

IsScalar-lt : (c : ℕ) → IsScalar c → c < 0x110000
IsScalar-lt c s = omega arith

valid-encode_cons :
    (fuel a w : ℕ) (t rest bytes : Bytes)
    → bytes ≡ a ∷ t
    → advance a t ≡ some w
    → 1 ≤ w
    → drop w (a ∷ t) ≡ rest
    → length bytes ≤ fuel
    → ((f : ℕ) → length rest ≤ f → valid_from f rest ≡ true)
    → valid_from fuel bytes ≡ true
valid-encode_cons zero a w t rest bytes e goes pos d h ih =
    absurd (omega (arith, ap (λ (x : Bytes). length x) e))
valid-encode_cons (suc f) a w t rest bytes e goes pos d h ih =
    let shorter : length rest ≤ f = omega (
      arith,
      ap (λ (x : Bytes). length x) e,
      ap (λ (x : Bytes). length x) d,
      length-drop w (a ∷ t),
    ) in
    rw (e, valid_from_step f a w t goes, d) (ih f shorter)

valid-encode :
    (fuel : ℕ) (cs : List ℕ)
    → length (encode_all cs) ≤ fuel
    → All IsScalar cs
    → valid_from fuel (encode_all cs) ≡ true
valid-encode fuel [] h s = unfold valid_from in refl
valid-encode fuel (c ∷ cs) h (s, ss) =
    let (a, w, t, e, goes, pos, d) = encode-Passes c (encode_all cs) (IsScalar-lt c s) s in
    valid-encode_cons fuel a w t (encode_all cs) (encode_all (c ∷ cs)) e goes pos d h
      (λ f k. valid-encode f cs k ss)

encode-valid :
    (fuel : ℕ) (bytes : Bytes)
    → valid_from fuel bytes ≡ true
    → (cs : List ℕ) × All IsScalar cs × (encode_all cs ≡ bytes)
encode-valid fuel [] h = ([], tt, refl)
encode-valid zero (a ∷ rest) h = unfold valid_from in cc
encode-valid (suc fuel) (a ∷ rest) h = elim (Option-cases (advance a rest)) [
  | inl stops ↦ cc (valid_from_stop fuel a rest stops)
  | inr (w, goes) ↦
      let (c, scalar, e) = Shape-IsScalar (advance-Shape a w rest goes) in
      let still : valid_from fuel (drop w (a ∷ rest)) ≡ true =
        sym (valid_from_step fuel a w rest goes) ∙ h in
      let (cs, scalars, e') = encode-valid fuel (drop w (a ∷ rest)) still in
      (c ∷ cs, (scalar, scalars), cc)
]

-- A byte string is valid exactly when it is the encoding of a sequence of Unicode scalar values:
-- no overlong form, no surrogate, nothing beyond U+10FFFF and no sequence cut short.
pub text_valid_utf8_iff :
    (bytes : Bytes)
    → (text_valid_utf8 bytes ≡ true) ↔ ((cs : List ℕ) × All IsScalar cs × (encode_all cs ≡ bytes))
unfolding text_valid_utf8
text_valid_utf8_iff bytes = (
  λ h. encode-valid (length bytes) bytes h,
  λ (cs, s, e). rw (← e) (valid-encode (length (encode_all cs)) cs (le_refl _) s),
)
