-- ===== src/Base/Bits.antt =====
-- `a | (b << k)` for an `a` of `k` bits is a sum, at every width.
use Prim.Native.Nat.{
  bit_or, bit_or-bitwise, digits, max, ◌<◌, ◌≤◌, ◌^◌, ◌%◌, ◌/◌, ◌*◌, ◌+◌, suc, zero, ℕ,
}
use mathlib.Core.Path.{◌≡◌, refl, ap}
use native.Mathlib.Nat.{pow-suc}
use native.Mathlib.Omega.{arith}

abbrev or_digits : ℕ → ℕ → ℕ → ℕ
or_digits n a b = digits (λ y. y) max n a b

or_digits_fuel : (n m a b : ℕ) → a ≤ n → a ≤ m → or_digits n a b ≡ or_digits m a b
or_digits_fuel zero zero a b p q = refl
or_digits_fuel zero (suc m) zero b p q = refl
or_digits_fuel zero (suc m) (suc a) b p q = absurd (omega arith)
or_digits_fuel (suc n) zero zero b p q = refl
or_digits_fuel (suc n) zero (suc a) b p q = absurd (omega arith)
or_digits_fuel (suc n) (suc m) zero b p q = refl
or_digits_fuel (suc n) (suc m) (suc a) b p q =
    omega (arith, or_digits_fuel n m (suc a / 2) (b / 2) (omega arith) (omega arith))

zero-bit_or : (b : ℕ) → bit_or 0 b ≡ b
zero-bit_or b = bit_or-bitwise 0 b

lowest_digit :
    (low high : ℕ) → bit_or low high ≡ max (low % 2) (high % 2) + 2 * bit_or (low / 2) (high / 2)
lowest_digit zero b = omega (arith, zero-bit_or b, zero-bit_or (b / 2))
lowest_digit (suc a) b = omega (
  arith,
  bit_or-bitwise (suc a) b,
  bit_or-bitwise (suc a / 2) (b / 2),
  or_digits_fuel a (suc a / 2) (suc a / 2) (b / 2) (omega arith) (omega arith),
)

-- The low part on the left, as the readers of little-endian words write it.
pub low-bit_or-high :
    (k low high : ℕ) → low < 2 ^ k → bit_or low (high * 2 ^ k) ≡ low + high * 2 ^ k
low-bit_or-high zero low high fits =
    let e : low ≡ 0 = omega arith in rw e (rw zero-bit_or (omega arith))
low-bit_or-high (suc k) low high fits = ground (
  arith,
  lowest_digit low (high * 2 ^ suc k),
  pow-suc 2 k,
  ap (λ (t : ℕ). high * t) (pow-suc 2 k),
  low-bit_or-high k (low / 2) high,
)
