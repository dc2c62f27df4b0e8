-- ===== src/Metadata/Numerals.antt =====
-- A written number is read back, and it has digits only.
use yaca.Base.{
  ℕ, zero, suc, ◌+◌, ◌-◌, ◌*◌, ◌/◌, ◌%◌, ◌≤◌, ◌<◌, Bool, false, ◌||◌, [], ◌∷◌, ◌==◌, Bytes, length,
  ◌≡◌, refl, arith, ap, ◌∙◌, sym, Bool-cases, inl, inr, ◌⊎◌,
}
use yaca.Metadata.{digits_loop, decimal, octal, colon}

abbrev pub value_from : ℕ → ℕ → Bytes → ℕ
value_from base n [] = n
value_from base n (b ∷ bytes) = value_from base (n * base + (b - 48)) bytes

abbrev pub has_colon : Bytes → Bool
has_colon [] = false
has_colon (b ∷ bytes) = (b == colon) || has_colon bytes

-- What the loop needs of its base.
record IsBase (base : ℕ) : Type 0 where
  split : (n : ℕ) → n / base * base + n % base ≡ n
  small : (n : ℕ) → n / base ≡ 0 → n % base ≡ n
  falls : (n : ℕ) → n / base ≡ 0 ⊎ n / base < n
  is_digit : (n : ℕ) → n % base < 10
  shrinks : (n x : ℕ) → n < base * x → n / base < x

-- The numbers of at most `k` digits are those below this bound.
abbrev pub bound : ℕ → ℕ → ℕ
bound base zero = 1
bound base (suc k) = base * bound base k

module _ (base : ℕ) (b : IsBase base) where
  length-digits_loop :
      (k fuel n : ℕ) (digits : Bytes)
      → n < bound base (suc k)
      → length (digits_loop base fuel n digits) ≤ suc k + length digits
  unfolding digits_loop
  length-digits_loop k zero n digits h = omega arith
  length-digits_loop zero (suc fuel) n digits h = elim (Bool-cases (n / base == 0)) [
    | inl e ↦ rw e (omega arith)
    | inr e ↦ absurd (ground (arith, b.shrinks n 1))
  ]
  length-digits_loop (suc k) (suc fuel) n digits h = elim (Bool-cases (n / base == 0)) [
    | inl e ↦ rw e (omega arith)
    | inr e ↦ rw e (
        omega (
          arith,
          length-digits_loop k fuel (n / base) ((48 + n % base) ∷ digits)
              (b.shrinks n (bound base (suc k)) h),
        ))
  ]

  value_from-digits_loop :
      (fuel n : ℕ) (digits : Bytes)
      → n < fuel
      → value_from base 0 (digits_loop base fuel n digits) ≡ value_from base n digits
  unfolding digits_loop
  value_from-digits_loop zero n digits h = absurd (omega arith)
  value_from-digits_loop (suc fuel) n digits h = elim (Bool-cases (n / base == 0)) [
    | inl e ↦ rw e (ap (λ (m : ℕ). value_from base m digits) (ground (arith, b.small n)))
    | inr e ↦ rw e (
        value_from-digits_loop fuel (n / base) ((48 + n % base) ∷ digits)
          (ground (arith, b.falls n))
        ∙ ap (λ (m : ℕ). value_from base m digits) (ground (arith, b.split n)))
  ]

  has_colon-digits_loop :
      (fuel n : ℕ) (digits : Bytes)
      → has_colon digits ≡ false
      → has_colon (digits_loop base fuel n digits) ≡ false
  unfolding digits_loop
  has_colon-digits_loop zero n digits h = h
  has_colon-digits_loop (suc fuel) n digits h = elim (Bool-cases (n / base == 0)) [
    | inl e ↦ rw e (ground (arith, b.is_digit n))
    | inr e ↦ rw e (
        has_colon-digits_loop fuel (n / base) ((48 + n % base) ∷ digits)
          (ground (arith, b.is_digit n)))
  ]

ten-IsBase : IsBase 10
ten-IsBase = record {
  split = λ n. omega arith;
  small = λ n h. omega arith;
  falls = λ n. omega arith;
  is_digit = λ n. omega arith;
  shrinks = λ n x h. omega arith;
}

eight-IsBase : IsBase 8
eight-IsBase = record {
  split = λ n. omega arith;
  small = λ n h. omega arith;
  falls = λ n. omega arith;
  is_digit = λ n. omega arith;
  shrinks = λ n x h. omega arith;
}

pub decimal-injective : (n m : ℕ) → decimal n ≡ decimal m → n ≡ m
unfolding decimal
decimal-injective n m h =
    sym (value_from-digits_loop 10 ten-IsBase (suc n) n [] (omega arith))
    ∙ ap (value_from 10 0) h
    ∙ value_from-digits_loop 10 ten-IsBase (suc m) m [] (omega arith)

pub octal-injective : (n m : ℕ) → octal n ≡ octal m → n ≡ m
unfolding octal
octal-injective n m h =
    sym (value_from-digits_loop 8 eight-IsBase (suc n) n [] (omega arith))
    ∙ ap (value_from 8 0) h
    ∙ value_from-digits_loop 8 eight-IsBase (suc m) m [] (omega arith)

pub has_colon-decimal : (n : ℕ) → has_colon (decimal n) ≡ false
unfolding decimal
has_colon-decimal n = has_colon-digits_loop 10 ten-IsBase (suc n) n [] refl

pub has_colon-octal : (n : ℕ) → has_colon (octal n) ≡ false
unfolding octal
has_colon-octal n = has_colon-digits_loop 8 eight-IsBase (suc n) n [] refl

pub length-decimal : (k n : ℕ) → n < bound 10 (suc k) → length (decimal n) ≤ suc k
unfolding decimal
length-decimal k n h = omega (arith, length-digits_loop 10 ten-IsBase k (suc n) n [] h)

pub length-octal : (k n : ℕ) → n < bound 8 (suc k) → length (octal n) ≤ suc k
unfolding octal
length-octal k n h = omega (arith, length-digits_loop 8 eight-IsBase k (suc n) n [] h)
