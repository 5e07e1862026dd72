-- ===== src/Base/Bits.antt =====
-- One bit of `bit_or`, at variables.
use Prim.Native.Nat.{digits, bit_or, bit_or-bitwise}
use native.Mathlib.Nat.{pow-suc, pow-succ', div-div-eq-div-mul}
use Prim.Native.Nat.{ℕ, zero, suc, ◌+◌, ◌*◌, ◌/◌, ◌%◌, ◌^◌, ◌≤◌, max}
use mathlib.Core.Path.{◌≡◌, refl}
use native.Mathlib.Omega.{arith}
use ollamux.Base.Tests.{◌==◌, if◌then◌else◌}

abbrev or_digits : ℕ → ℕ → ℕ → ℕ
or_digits n a b = digits (λ b. b) max n a b

or_digits_fuel : (n m a b : ℕ) → a ≤ n → a ≤ m → or_digits n a b ≡ or_digits m a b
or_digits_fuel zero zero a b p q = refl
or_digits_fuel zero (suc m) zero b p q = refl
or_digits_fuel zero (suc m) (suc a) b p q = absurd (omega arith)
or_digits_fuel (suc n) zero zero b p q = refl
or_digits_fuel (suc n) zero (suc a) b p q = absurd (omega arith)
or_digits_fuel (suc n) (suc m) zero b p q = refl
or_digits_fuel (suc n) (suc m) (suc a) b p q =
    omega (arith, or_digits_fuel n m (suc a / 2) (b / 2) (omega arith) (omega arith))

zero-bit_or : (b : ℕ) → bit_or 0 b ≡ b
zero-bit_or b = bit_or-bitwise 0 b

pub bit_or_step : (m b : ℕ) → bit_or m b ≡ bit_or (m / 2) (b / 2) * 2 + max (m % 2) (b % 2)
bit_or_step zero b = omega (arith, zero-bit_or b, zero-bit_or (b / 2))
bit_or_step (suc a) b = omega (
  arith,
  bit_or-bitwise (suc a) b,
  bit_or-bitwise (suc a / 2) (b / 2),
  or_digits_fuel a (suc a / 2) (suc a / 2) (b / 2) (omega arith) (omega arith),
)

bit_or-zero_fuel : (n a : ℕ) → a ≤ n → bit_or a 0 ≡ a
bit_or-zero_fuel n zero h = refl
bit_or-zero_fuel zero (suc a) h = absurd (omega arith)
bit_or-zero_fuel (suc n) (suc a) h =
    omega (arith, bit_or_step (suc a) 0, bit_or-zero_fuel n (suc a / 2) (omega arith))

bit_or-zero : (a : ℕ) → bit_or a 0 ≡ a
bit_or-zero a = bit_or-zero_fuel a a (omega arith)

pub bit_or-half : (a b : ℕ) → bit_or a b / 2 ≡ bit_or (a / 2) (b / 2)
bit_or-half a b = omega (arith, bit_or_step a b)

div-pow_suc : (m j : ℕ) → m / 2 ^ suc j ≡ m / 2 / 2 ^ j
div-pow_suc m j = rw (pow-succ' 2 j, div-div-eq-div-mul m 2 (2 ^ j))

half-pow_suc : (i : ℕ) → 2 ^ suc i / 2 ≡ 2 ^ i
half-pow_suc i = omega (arith, pow-suc 2 i)

-- Setting bit `i` sets that bit and no other.
pub bit-set : (i j m : ℕ) → bit_or m (2 ^ i) / 2 ^ j % 2 ≡ (if i == j then 1 else m / 2 ^ j % 2)
bit-set zero zero m = ground (arith, bit_or_step m 1)
bit-set zero (suc j) m =
    rw (div-pow_suc (bit_or m 1) j, bit_or-half m 1, bit_or-zero (m / 2), div-pow_suc m j)
      (ground arith)
bit-set (suc i) zero m = ground (arith, bit_or_step m (2 ^ suc i), pow-suc 2 i)
bit-set (suc i) (suc j) m =
    rw
      (
        div-pow_suc (bit_or m (2 ^ suc i)) j,
        bit_or-half m (2 ^ suc i),
        half-pow_suc i,
        div-pow_suc m j,
      )
      (ground (arith, bit-set i j (m / 2)))
