-- ===== src/Base/Bits.antt =====
-- Masks, shifts and disjoint unions of bits as arithmetic, at every width.
use Prim.Native.Nat.{ℕ, zero, suc, ◌+◌, ◌-◌, ◌*◌, ◌/◌, ◌%◌, ◌^◌, ◌≤◌, ◌<◌, min, max}
use Prim.Native.Nat.{digits, bitwise, bit_and, bit_or, bit_and-bitwise, bit_or-bitwise}
use mathlib.Core.Path.{◌≡◌, refl, ap}
use native.Mathlib.Nat.{le_refl, pow-suc, one-le-pow}
use native.Mathlib.Omega.{arith}

module _ (rest : ℕ → ℕ) (digit : ℕ → ℕ → ℕ) where
  -- Fuel beyond the first number changes nothing.
  digits_steady : (n k a b : ℕ) → a ≤ n → a ≤ k → digits rest digit n a b ≡ digits rest digit k a b
  digits_steady zero zero a b p q = refl
  digits_steady zero (suc k) zero b p q = refl
  digits_steady (suc n) zero zero b p q = refl
  digits_steady (suc n) (suc k) zero b p q = refl
  digits_steady zero (suc k) (suc a) b p q = absurd (omega arith)
  digits_steady (suc n) zero (suc a) b p q = absurd (omega arith)
  digits_steady (suc n) (suc k) (suc a) b p q =
      rw (digits_steady n k (suc a / 2) (b / 2) (omega arith) (omega arith))

  bitwise_low :
      (a b : ℕ)
      → bitwise rest digit (suc a) b
        ≡ bitwise rest digit (suc a / 2) (b / 2) * 2 + digit (suc a % 2) (b % 2)
  bitwise_low a b =
      omega (arith, digits_steady a (suc a / 2) (suc a / 2) (b / 2) (omega arith) (le_refl _))

pub bit_or_low : (a b : ℕ) → bit_or a b ≡ bit_or (a / 2) (b / 2) * 2 + max (a % 2) (b % 2)
bit_or_low zero b = simp bit_or-bitwise (omega arith)
bit_or_low (suc a) b = simp bit_or-bitwise (bitwise_low (λ y. y) max a b)

pub bit_and_low : (a b : ℕ) → bit_and a b ≡ bit_and (a / 2) (b / 2) * 2 + min (a % 2) (b % 2)
bit_and_low zero b = simp bit_and-bitwise (omega arith)
bit_and_low (suc a) b = simp bit_and-bitwise (bitwise_low (λ y. 0) min a b)

-- By induction on a bound: the recursion halves the number.
zero_right : (n a : ℕ) → a ≤ n → (bit_or a 0 ≡ a) × (bit_and a 0 ≡ 0)
zero_right n zero h = (refl, refl)
zero_right zero (suc a) h = absurd (omega arith)
zero_right (suc n) (suc a) h =
    let half = zero_right n (suc a / 2) (omega arith) in
    (omega (arith, bit_or_low (suc a) 0, half), omega (arith, bit_and_low (suc a) 0, half))

pub bit_or-zero : (a : ℕ) → bit_or a 0 ≡ a
bit_or-zero a = (zero_right a a (omega arith)).0

pub bit_and-zero : (a : ℕ) → bit_and a 0 ≡ 0
bit_and-zero a = (zero_right a a (omega arith)).1

twice_shift : (q k : ℕ) → q * 2 ^ suc k ≡ 2 * (q * 2 ^ k)
twice_shift q k = omega (arith, ap (λ (t : ℕ). q * t) (pow-suc 2 k))

-- A number of `k` bits is or-ed below a shifted number.
pub bit_or_below : (k q r : ℕ) → r < 2 ^ k → bit_or (q * 2 ^ k) r ≡ q * 2 ^ k + r
bit_or_below zero q r h = ground (arith, bit_or-zero q)
bit_or_below (suc k) q r h = ground (
  arith,
  bit_or_low (q * 2 ^ suc k) r,
  twice_shift q k,
  bit_or_below k q (r / 2) (omega (arith, pow-suc 2 k)),
)

-- The same with the shifted number on the right.
pub bit_or_above : (k q r : ℕ) → r < 2 ^ k → bit_or r (q * 2 ^ k) ≡ q * 2 ^ k + r
bit_or_above zero zero zero h = refl
bit_or_above zero (suc q) zero h = ground (arith, bit_or-bitwise 0 (suc q * 2 ^ 0))
bit_or_above zero q (suc r) h = absurd (omega arith)
bit_or_above (suc k) q r h = ground (
  arith,
  bit_or_low r (q * 2 ^ suc k),
  twice_shift q k,
  bit_or_above k q (r / 2) (omega (arith, pow-suc 2 k)),
)

bit_and_below : (k q r : ℕ) → r < 2 ^ k → bit_and (q * 2 ^ k + r) (2 ^ k - 1) ≡ r
bit_and_below zero q r h = rw bit_and-zero (omega arith)
bit_and_below (suc k) q r h = ground (
  arith,
  bit_and_low (q * 2 ^ suc k + r) (2 ^ suc k - 1),
  twice_shift q k,
  pow-suc 2 k,
  bit_and_below k q (r / 2) (omega (arith, pow-suc 2 k)),
)

-- A mask of `k` ones is the remainder by `2 ^ k`.
pub bit_and_mask : (k a : ℕ) → bit_and a (2 ^ k - 1) ≡ a % 2 ^ k
bit_and_mask k a = ground (arith, one-le-pow k 2, bit_and_below k (a / 2 ^ k) (a % 2 ^ k))
