-- ===== src/Integer/SetBit.antt =====
-- Setting one bit of the quotient of `magnitude_divmod`.
use Prim.Native.Nat.{bit_or}
use native.Mathlib.Decide.{dec_lt}
use xb.Common.{
  ℕ, zero, suc, ◌+◌, ◌*◌, ◌/◌, ◌%◌, ◌^◌, ◌≤◌, ◌<◌, List, [], ◌∷◌, ◌≡◌, inl, inr, refl, arith, ap,
}
use xb.Common.Bits.{pow_double, bit_or-disjoint, zero-bit_or}
use xb.Integer.Magnitude.{limb_mod}
use xb.Integer.Value.{value, IsLimbs}
use xb.Integer.Divmod.{set_bit}
use xb.Integer.Bits.{pow_pos, weight, next_place}

pow_split : (k n : ℕ) → k ≤ n → (c : ℕ) × (2 ^ n ≡ c * 2 ^ k)
pow_split zero n h = (2 ^ n, omega arith)
pow_split (suc k) zero h = absurd (omega arith)
pow_split (suc k) (suc n) h =
    let (c, e) = pow_split k n (omega arith) in
    (c, omega (arith, e, pow_double n, ap (λ (t : ℕ). c * t) (pow_double k)))

-- The bits of a quotient at limb `n`, place `k` and below are not set yet.
abbrev pub LowZero : List ℕ → ℕ → ℕ → Type 0
LowZero [] n k = Unit
LowZero (x ∷ q) zero k = (m : ℕ) × (x ≡ m * 2 ^ suc k)
LowZero (x ∷ q) (suc n) k = (x ≡ 0) × LowZero q n k

LowZero-place : (q : List ℕ) (n k : ℕ) → LowZero q n (suc k) → LowZero q n k
LowZero-place [] n k h = tt
LowZero-place (x ∷ q) zero k (m, e) =
    (2 * m, omega (arith, e, ap (λ (t : ℕ). m * t) (pow_double (suc k))))
LowZero-place (x ∷ q) (suc n) k (e, h) = (e, LowZero-place q n k h)

LowZero-limb : (q : List ℕ) (n : ℕ) → LowZero q (suc n) 0 → LowZero q n 31
LowZero-limb [] n h = tt
LowZero-limb (x ∷ q) zero (e, h) = (0, omega (arith, e))
LowZero-limb (x ∷ q) (suc n) (e, h) = (e, LowZero-limb q n h)

or_place : (x m k : ℕ) → x ≡ m * 2 ^ suc k → bit_or x (2 ^ k) ≡ x + 2 ^ k
or_place x m k e = rw e (bit_or-disjoint (suc k) m (2 ^ k) (omega (arith, pow_double k, pow_pos k)))

-- Setting a bit whose place and all below are clear adds its weight.
pub value-set_bit :
    (q : List ℕ) (n k : ℕ) → LowZero q n k → value (set_bit q n k) ≡ value q + weight n k
unfolding set_bit
value-set_bit [] zero k h = omega (arith, zero-bit_or (2 ^ k))
value-set_bit [] (suc n) k h = omega (arith, value-set_bit [] n k tt)
value-set_bit (x ∷ q) zero k (m, e) = omega (arith, or_place x m k e)
value-set_bit (x ∷ q) (suc n) k (e, h) = omega (arith, value-set_bit q n k h)

factor_lt : (m c p : ℕ) → m * p < c * p → m < c
factor_lt m c p h = elim (dec_lt m c) [ yes lt ↦ lt | no ge ↦ absurd (grind arith) ]

limb_room : (x m k : ℕ) → k < 32 → x < limb_mod → x ≡ m * 2 ^ suc k → x + 2 ^ k < limb_mod
limb_room x m k hk hx e =
    let (c, s) = pow_split (suc k) 32 (omega arith) in
    let fewer : m < c = factor_lt m c (2 ^ suc k) (omega (arith, s, e)) in
    let block : suc m * 2 ^ suc k ≤ c * 2 ^ suc k = grind arith in
    omega (arith, block, s, e, pow_double k, pow_pos k)

pub set_bit-IsLimbs :
    (q : List ℕ) (n k : ℕ) → k < 32 → LowZero q n k → IsLimbs q → IsLimbs (set_bit q n k)
unfolding set_bit
set_bit-IsLimbs [] zero k hk h l =
    (omega (arith, zero-bit_or (2 ^ k), limb_room 0 0 k hk (omega arith) (omega arith)), tt)
set_bit-IsLimbs [] (suc n) k hk h l = (omega arith, set_bit-IsLimbs [] n k hk tt tt)
set_bit-IsLimbs (x ∷ q) zero k hk (m, e) l =
    (omega (arith, or_place x m k e, limb_room x m k hk l.0 e), l.1)
set_bit-IsLimbs (x ∷ q) (suc n) k hk (e, h) l = (l.0, set_bit-IsLimbs q n k hk h l.1)

set_bit-LowZero : (q : List ℕ) (n k : ℕ) → LowZero q n (suc k) → LowZero (set_bit q n (suc k)) n k
unfolding set_bit
set_bit-LowZero [] zero k h = (1, omega (arith, zero-bit_or (2 ^ suc k)))
set_bit-LowZero [] (suc n) k h = (refl, set_bit-LowZero [] n k tt)
set_bit-LowZero (x ∷ q) zero k (m, e) = (
  2 * m + 1,
  omega (arith, or_place x m (suc k) e, e, ap (λ (t : ℕ). m * t) (pow_double (suc k))),
)
set_bit-LowZero (x ∷ q) (suc n) k (e, h) = (e, set_bit-LowZero q n k h)

set_bit-LowZero_limb :
    (q : List ℕ) (n : ℕ) → LowZero q (suc n) 0 → LowZero (set_bit q (suc n) 0) n 31
unfolding set_bit
set_bit-LowZero_limb [] zero h = (0, omega arith)
set_bit-LowZero_limb [] (suc n) h = (refl, set_bit-LowZero_limb [] n tt)
set_bit-LowZero_limb (x ∷ q) zero (e, h) = (0, omega (arith, e))
set_bit-LowZero_limb (x ∷ q) (suc n) (e, h) = (e, set_bit-LowZero_limb q n h)

-- The bits below index `i` of a quotient are not set yet.
abbrev pub ClearBelow : List ℕ → ℕ → Type 0
ClearBelow q zero = Unit
ClearBelow q (suc i) = LowZero q (i / 32) (i % 32)

pub ClearBelow-next : (q : List ℕ) (i : ℕ) → ClearBelow q (suc i) → ClearBelow q i
ClearBelow-next q zero h = tt
ClearBelow-next q (suc i) h = elim (next_place i) [
  | inl (n, k) ↦ LowZero-place q (i / 32) (i % 32) (rw (n, k) at h)
  | inr (n, k, e) ↦ rw e (LowZero-limb q (i / 32) (rw (n, k) at h))
]

pub set_bit-ClearBelow :
    (q : List ℕ) (i : ℕ) → ClearBelow q (suc i) → ClearBelow (set_bit q (i / 32) (i % 32)) i
set_bit-ClearBelow q zero h = tt
set_bit-ClearBelow q (suc i) h = elim (next_place i) [
  | inl (n, k) ↦ rw (n, k) (set_bit-LowZero q (i / 32) (i % 32) (rw (n, k) at h))
  | inr (n, k, e) ↦ rw (n, k, e) (set_bit-LowZero_limb q (i / 32) (rw (n, k) at h))
]
