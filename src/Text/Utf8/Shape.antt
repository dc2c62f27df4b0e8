-- ===== src/Text/Utf8/Shape.antt =====
-- The byte ranges of one encoded scalar, as the validator's loop body tests them.
use yaca.Base.{
  ℕ, ◌-◌, ◌≤◌, ◌<◌, true, ◌⊎◌, inl, inr, none, some, [], ◌∷◌, ◌≡◌, refl, arith, Bytes, length, ltb,
  ◌==◌, if◌then◌else◌, lt→ltb, ltb→lt, ltb→le, le→leb, le→not_ltb, lt→not_leb, Bool-cases, drop,
}
use yaca.Text.Utf8.{Lead, advance, lead_of, continues}

abbrev pub IsTrail : ℕ → Type 0
IsTrail b = (0x80 ≤ b) × (b ≤ 0xBF)

-- The well-formed sequences: the second byte of four of the first bytes has a smaller range.
abbrev pub Starts3 : ℕ → ℕ → Type 0
Starts3 a b = (0xE0 ≤ a) × (a ≤ 0xEF) × IsTrail b × (a ≡ 0xE0 → 0xA0 ≤ b) × (a ≡ 0xED → b ≤ 0x9F)

abbrev pub Starts4 : ℕ → ℕ → Type 0
Starts4 a b = (0xF0 ≤ a) × (a ≤ 0xF4) × IsTrail b × (a ≡ 0xF0 → 0x90 ≤ b) × (a ≡ 0xF4 → b ≤ 0x8F)

pub data Shape (bytes tail : Bytes) : Type 0 where
  one : (a : ℕ) → a < 0x80 → bytes ≡ a ∷ tail → Shape bytes tail
  two : (a b : ℕ) → 0xC2 ≤ a → a ≤ 0xDF → IsTrail b → bytes ≡ a ∷ b ∷ tail → Shape bytes tail
  three : (a b c : ℕ) → Starts3 a b → IsTrail c → bytes ≡ a ∷ b ∷ c ∷ tail → Shape bytes tail
  four :
      (a b c d : ℕ)
      → Starts4 a b
      → IsTrail c
      → IsTrail d
      → bytes ≡ a ∷ b ∷ c ∷ d ∷ tail
      → Shape bytes tail

abbrev lead2 : Lead
lead2 = record { width = 2; second_minimum = 0x80; second_maximum = 0xBF }

abbrev lead3 : ℕ → Lead
lead3 a = record {
  width = 3;
  second_minimum = if a == 0xE0 then 0xA0 else 0x80;
  second_maximum = if a == 0xED then 0x9F else 0xBF;
}

abbrev lead4 : ℕ → Lead
lead4 a = record {
  width = 4;
  second_minimum = if a == 0xF0 then 0x90 else 0x80;
  second_maximum = if a == 0xF4 then 0x8F else 0xBF;
}

lead_of_two : (a : ℕ) → 0xC2 ≤ a → a ≤ 0xDF → lead_of a ≡ some lead2
unfolding lead_of
lead_of_two a h k = rw (le→leb 0xC2 a h, le→leb a 0xDF k)

lead_of_three : (a : ℕ) → 0xE0 ≤ a → a ≤ 0xEF → lead_of a ≡ some (lead3 a)
unfolding lead_of
lead_of_three a h k =
    rw (le→leb 0xC2 a (omega arith), lt→not_leb a 0xDF h, le→leb 0xE0 a h, le→leb a 0xEF k)

lead_of_four : (a : ℕ) → 0xF0 ≤ a → a ≤ 0xF4 → lead_of a ≡ some (lead4 a)
unfolding lead_of
lead_of_four a h k = rw (
  le→leb 0xC2 a (omega arith),
  lt→not_leb a 0xDF (omega arith),
  le→leb 0xE0 a (omega arith),
  lt→not_leb a 0xEF h,
  le→leb 0xF0 a h,
  le→leb a 0xF4 k,
)

lead_cases :
    (a : ℕ)
    → (lead_of a ≡ none)
      ⊎ (0xC2 ≤ a) × (a ≤ 0xDF)
      ⊎ (0xE0 ≤ a) × (a ≤ 0xEF)
      ⊎ (0xF0 ≤ a) × (a ≤ 0xF4)
unfolding lead_of
lead_cases a = ground arith

module _ (rest : Bytes) where
  pub advance_one : (a : ℕ) → a < 0x80 → advance a rest ≡ some 1
  unfolding advance
  advance_one a h = rw (lt→ltb a 0x80 h)

  pub advance_two : (a b : ℕ) → 0xC2 ≤ a → a ≤ 0xDF → IsTrail b → advance a (b ∷ rest) ≡ some 2
  unfolding advance continues
  advance_two a b h k t = rw (lead_of_two a h k, le→not_ltb a 0x80 (omega arith)) (ground arith)

  pub advance_three : (a b c : ℕ) → Starts3 a b → IsTrail c → advance a (b ∷ c ∷ rest) ≡ some 3
  unfolding advance continues
  advance_three a b c h t =
      rw (lead_of_three a (h.0) (h.1), le→not_ltb a 0x80 (omega arith)) (ground arith)

  pub advance_four :
      (a b c d : ℕ) → Starts4 a b → IsTrail c → IsTrail d → advance a (b ∷ c ∷ d ∷ rest) ≡ some 4
  unfolding advance continues
  advance_four a b c d h t u =
      rw (lead_of_four a (h.0) (h.1), le→not_ltb a 0x80 (omega arith)) (ground arith)

advance-some :
    (a w : ℕ) (rest : Bytes) (l : Lead)
    → 0x80 ≤ a
    → lead_of a ≡ some l
    → advance a rest ≡ some w
    → (l.width ≤ length (a ∷ rest)) × (continues l (l.width - 1) 1 rest ≡ true) × (w ≡ l.width)
unfolding advance
advance-some a w rest l h e k = ground arith

continues_two : (b : ℕ) (rest : Bytes) → continues lead2 1 1 (b ∷ rest) ≡ true → IsTrail b
unfolding continues
continues_two b rest h = ground arith

continues_three :
    (a b c : ℕ) (rest : Bytes)
    → 0xE0 ≤ a
    → a ≤ 0xEF
    → continues (lead3 a) 2 1 (b ∷ c ∷ rest) ≡ true
    → Starts3 a b × IsTrail c
unfolding continues
continues_three a b c rest h k e = ground arith

continues_four :
    (a b c d : ℕ) (rest : Bytes)
    → 0xF0 ≤ a
    → a ≤ 0xF4
    → continues (lead4 a) 3 1 (b ∷ c ∷ d ∷ rest) ≡ true
    → Starts4 a b × IsTrail c × IsTrail d
unfolding continues
continues_four a b c d rest h k e = ground arith

abbrev Reads : ℕ → ℕ → Bytes → Type 0
Reads a w rest = Shape (a ∷ rest) (drop w (a ∷ rest))

module _ (a w : ℕ) where
  Reads-two :
      (rest : Bytes)
      → 0xC2 ≤ a
      → a ≤ 0xDF
      → (2 ≤ length (a ∷ rest)) × (continues lead2 1 1 rest ≡ true) × (w ≡ 2)
      → Reads a w rest
  Reads-two [] h k (long, e, size) = absurd (omega arith)
  Reads-two (b ∷ rest) h k (long, e, size) = rw size (two a b h k (continues_two b rest e) refl)

  Reads-three :
      (rest : Bytes)
      → 0xE0 ≤ a
      → a ≤ 0xEF
      → (3 ≤ length (a ∷ rest)) × (continues (lead3 a) 2 1 rest ≡ true) × (w ≡ 3)
      → Reads a w rest
  Reads-three [] h k (long, e, size) = absurd (omega arith)
  Reads-three (b ∷ []) h k (long, e, size) = absurd (omega arith)
  Reads-three (b ∷ c ∷ rest) h k (long, e, size) =
      let (starts, trail) = continues_three a b c rest h k e in
      rw size (three a b c starts trail refl)

  Reads-four :
      (rest : Bytes)
      → 0xF0 ≤ a
      → a ≤ 0xF4
      → (4 ≤ length (a ∷ rest)) × (continues (lead4 a) 3 1 rest ≡ true) × (w ≡ 4)
      → Reads a w rest
  Reads-four [] h k (long, e, size) = absurd (omega arith)
  Reads-four (b ∷ []) h k (long, e, size) = absurd (omega arith)
  Reads-four (b ∷ c ∷ []) h k (long, e, size) = absurd (omega arith)
  Reads-four (b ∷ c ∷ d ∷ rest) h k (long, e, size) =
      let (starts, trail, trail') = continues_four a b c d rest h k e in
      rw size (four a b c d starts trail trail' refl)

  advance-none : (rest : Bytes) → 0x80 ≤ a → lead_of a ≡ none → advance a rest ≡ none
  unfolding advance
  advance-none rest h e = ground arith

  -- A round that goes on has read one well-formed sequence.
  pub advance-Shape : (rest : Bytes) → advance a rest ≡ some w → Reads a w rest
  advance-Shape rest e = elim (Bool-cases (ltb a 0x80)) [
    | inl small ↦
        let h = ltb→lt a 0x80 small in
        let size : w ≡ 1 = cc (advance_one rest a h) in rw size (one a h refl)
    | inr big ↦
        let h = ltb→le a 0x80 big in
        elim (lead_cases a) [
          | inl bad ↦ cc (advance-none rest h bad)
          | inr (inl (lo, hi)) ↦
              Reads-two rest lo hi (advance-some a w rest lead2 h (lead_of_two a lo hi) e)
          | inr (inr (inl (lo, hi))) ↦
              Reads-three rest lo hi (advance-some a w rest (lead3 a) h (lead_of_three a lo hi) e)
          | inr (inr (inr (lo, hi))) ↦
              Reads-four rest lo hi (advance-some a w rest (lead4 a) h (lead_of_four a lo hi) e)
        ]
  ]
