-- ===== src/Common/Bits.antt =====
-- `bit_or` of numbers whose binary digits do not meet is their sum.
use Prim.Native.Nat.{
  ℕ, zero, suc, ◌+◌, ◌*◌, ◌/◌, ◌%◌, ◌^◌, ◌≤◌, ◌<◌, max, bit_or, digits, bit_or-bitwise,
}
use mathlib.Core.Path.{◌≡◌, refl, ap, ◌∙◌}
use native.Mathlib.Nat.{pow-suc}
use native.Mathlib.Omega.{arith}

pub pow_double : (k : ℕ) → 2 ^ suc k ≡ 2 * 2 ^ k
pow_double k = omega (arith, pow-suc 2 k)

abbrev or_digits : ℕ → ℕ → ℕ → ℕ
or_digits n a b = digits (λ b. b) max n a b

or_digits_fuel : (n m a b : ℕ) → a ≤ n → a ≤ m → or_digits m a b ≡ or_digits n a b
or_digits_fuel zero zero a b ha hb = refl
or_digits_fuel zero (suc m) zero b ha hb = refl
or_digits_fuel zero (suc m) (suc a) b ha hb = absurd (omega arith)
or_digits_fuel (suc n) zero zero b ha hb = refl
or_digits_fuel (suc n) zero (suc a) b ha hb = absurd (omega arith)
or_digits_fuel (suc n) (suc m) zero b ha hb = refl
or_digits_fuel (suc n) (suc m) (suc a) b p q =
    omega (arith, or_digits_fuel n m (suc a / 2) (b / 2) (omega arith) (omega arith))

pub zero-bit_or : (b : ℕ) → bit_or 0 b ≡ b
zero-bit_or b = bit_or-bitwise 0 b

pub bit_or_step : (a b : ℕ) → bit_or a b ≡ bit_or (a / 2) (b / 2) * 2 + max (a % 2) (b % 2)
bit_or_step zero b = omega (arith, zero-bit_or b, zero-bit_or (b / 2))
bit_or_step (suc a) b = omega (
  arith,
  bit_or-bitwise (suc a) b,
  bit_or-bitwise (suc a / 2) (b / 2),
  or_digits_fuel (suc a / 2) a (suc a / 2) (b / 2) (omega arith) (omega arith),
)

bit_or-zero_fuel : (n a : ℕ) → a ≤ n → bit_or a 0 ≡ a
bit_or-zero_fuel n zero h = refl
bit_or-zero_fuel zero (suc a) h = absurd (omega arith)
bit_or-zero_fuel (suc n) (suc a) h =
    omega (arith, bit_or_step (suc a) 0, bit_or-zero_fuel n (suc a / 2) (omega arith))

pub bit_or-zero : (a : ℕ) → bit_or a 0 ≡ a
bit_or-zero a = bit_or-zero_fuel a a (omega arith)

-- The second number lies below the lowest digit of the first.
pub bit_or-disjoint : (k m b : ℕ) → b < 2 ^ k → bit_or (m * 2 ^ k) b ≡ m * 2 ^ k + b
bit_or-disjoint zero m b h = omega (arith, bit_or_lone m b)
  where
    bit_or_lone : (m b : ℕ) → b < 1 → bit_or (m * 1) b ≡ m
    bit_or_lone m zero h = omega (arith, bit_or-zero (m * 1))
    bit_or_lone m (suc b) h = absurd (omega arith)
bit_or-disjoint (suc k) m b h =
    let p = pow_double k in
    let half : (m * 2 ^ suc k) / 2 ≡ m * 2 ^ k = omega (arith, ap (λ (t : ℕ). m * t) p) in
    let even : (m * 2 ^ suc k) % 2 ≡ 0 = omega (arith, ap (λ (t : ℕ). m * t) p) in
    let rest : bit_or ((m * 2 ^ suc k) / 2) (b / 2) ≡ m * 2 ^ k + b / 2 =
      ap (λ t. bit_or t (b / 2)) half ∙ bit_or-disjoint k m (b / 2) (omega (arith, p)) in
    omega (arith, bit_or_step (m * 2 ^ suc k) b, rest, ap (λ (t : ℕ). m * t) p)
