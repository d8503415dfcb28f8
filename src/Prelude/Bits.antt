-- ===== src/Prelude/Bits.antt =====
-- Flags in a word: `&` and `|` with a power of two.
use Prim.Native.Nat.{
  ℕ, zero, suc, ◌+◌, ◌*◌, ◌/◌, ◌%◌, ◌≤◌, min, max, bit_and, bit_or, digits, bit_and-bitwise,
  bit_or-bitwise,
}
use mathlib.Core.Path.{◌≡◌, refl}
use mathlib.Core.Bool.{Bool, not, ◌||◌}
use native.Mathlib.Omega.{arith}
use build_postgres.Prelude.Tests.{◌==◌}

-- m & f != 0
unfoldable pub flagged : ℕ → ℕ → Bool
flagged m f = not (bit_and m f == 0)

abbrev pub power : ℕ → ℕ
power zero = 1
power (suc k) = 2 * power k

-- The digit at a position.
abbrev pub digit : ℕ → ℕ → ℕ
digit zero m = m % 2
digit (suc k) m = digit k (m / 2)

digit-zero : (k : ℕ) → digit k 0 ≡ 0
digit-zero zero = refl
digit-zero (suc k) = digit-zero k

digit-zero_power : (k n : ℕ) → digit k 0 * n ≡ 0
digit-zero_power k n = rw (digit-zero k) (omega arith)

digit-Bit : (k m : ℕ) → digit k m ≤ 1
digit-Bit zero m = omega arith
digit-Bit (suc k) m = digit-Bit k (m / 2)

power-Positive : (k : ℕ) → 1 ≤ power k
power-Positive zero = omega arith
power-Positive (suc k) = omega (arith, power-Positive k)

-- The digits of an or, on fuel n.
digit-or_fuel :
    (n k a b : ℕ) → a ≤ n → digit k (digits (λ b. b) max n a b) ≡ max (digit k a) (digit k b)
digit-or_fuel zero k zero b h = omega (arith, digit-zero k)
digit-or_fuel zero k (suc a) b h = absurd (omega arith)
digit-or_fuel (suc n) k zero b h = omega (arith, digit-zero k)
digit-or_fuel (suc n) zero (suc a) b h = omega arith
digit-or_fuel (suc n) (suc k) (suc a) b h =
    let low = max (suc a % 2) (b % 2) in
    let high = digits (λ b. b) max n (suc a / 2) (b / 2) in
    let halved : (high * 2 + low) / 2 ≡ high = omega arith in
    rw halved (digit-or_fuel n k (suc a / 2) (b / 2) (omega arith))

digit-bit_or : (k a b : ℕ) → digit k (bit_or a b) ≡ max (digit k a) (digit k b)
digit-bit_or k a b = rw (bit_or-bitwise a b) (digit-or_fuel a k a b (omega arith))

and-zero_fuel : (n a : ℕ) → a ≤ n → digits (λ b. zero) min n a 0 ≡ 0
and-zero_fuel zero a h = refl
and-zero_fuel (suc n) zero h = refl
and-zero_fuel (suc n) (suc a) h = omega (arith, and-zero_fuel n (suc a / 2) (omega arith))

and-power_fuel : (n k a : ℕ) → a ≤ n → digits (λ b. zero) min n a (power k) ≡ digit k a * power k
and-power_fuel zero k zero h = omega (arith, digit-zero_power k (power k))
and-power_fuel zero k (suc a) h = absurd (omega arith)
and-power_fuel (suc n) k zero h = omega (arith, digit-zero_power k (power k))
and-power_fuel (suc n) zero (suc a) h = omega (arith, and-zero_fuel n (suc a / 2) (omega arith))
and-power_fuel (suc n) (suc k) (suc a) h =
    let halved : power (suc k) / 2 ≡ power k = omega arith in
    let even : power (suc k) % 2 ≡ 0 = omega arith in
    rw (halved, even) (rw (and-power_fuel n k (suc a / 2) (omega arith)) (grind arith))

bit_and-power : (k a : ℕ) → bit_and a (power k) ≡ digit k a * power k
bit_and-power k a = rw (bit_and-bitwise a (power k)) (and-power_fuel a k a (omega arith))

-- A flag is a power of two; it is set where the digit at its position is.
pub flagged_lem : (k m : ℕ) → flagged m (power k) ≡ (digit k m == 1)
unfolding flagged
flagged_lem k m =
    let small = digit-Bit k m in
    let positive = power-Positive k in let product = bit_and-power k m in rw product (grind arith)

either : (a b : ℕ) → a ≤ 1 → b ≤ 1 → (max a b == 1) ≡ ((a == 1) || (b == 1))
either a b h k = ground arith

-- After m |= f, the flag f is set and each other is as before.
pub flagged-bit_or :
    (j k m : ℕ)
    → flagged (bit_or m (power j)) (power k) ≡ (flagged m (power k) || (digit k (power j) == 1))
flagged-bit_or j k m =
    rw (flagged_lem k (bit_or m (power j)), flagged_lem k m, digit-bit_or k m (power j))
      (either (digit k m) (digit k (power j)) (digit-Bit k m) (digit-Bit k (power j)))
