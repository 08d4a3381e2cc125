-- ===== src/Integer/Bits.antt =====
-- The binary digits of magnitudes: the parts of `magnitude_divmod` that read, shift and set bits.
use native.Mathlib.Decide.{dec_lt}
use native.Mathlib.Nat.{add_comm, div-add-mod, mod-lt, mod-eq_of_lt, add-mul-mod_self_right}
use xb.Common.{
  ℕ, zero, suc, ◌+◌, ◌*◌, ◌/◌, ◌%◌, ◌^◌, ◌≤◌, ◌<◌, List, [], ◌∷◌, ◌≡◌, ◌∙◌, ◌⊎◌, inl, inr, refl,
  sym, arith, ap,
}
use xb.Common.Bits.{pow_double}
use xb.Integer.Magnitude.{limb_mod}
use xb.Integer.Value.{value, IsLimbs}
use xb.Integer.Divmod.{bit_length, total_bits, bit_at}

pub pow_pos : (k : ℕ) → 0 < 2 ^ k
pow_pos zero = omega arith
pow_pos (suc k) = omega (arith, pow_double k, pow_pos k)

-- The number at limb `n`, place `k`.
abbrev pub weight : ℕ → ℕ → ℕ
weight zero k = 2 ^ k
weight (suc n) k = limb_mod * weight n k

-- The part of a magnitude below that place.
abbrev pub low : List ℕ → ℕ → ℕ → ℕ
low [] n k = 0
low (x ∷ a) zero k = x % 2 ^ k
low (x ∷ a) (suc n) k = x + limb_mod * low a n k

mod_double : (x p : ℕ) → 0 < p → x % (2 * p) ≡ x % p + x / p % 2 * p
mod_double x p h =
    let whole : x ≡ x / p % 2 * p + x % p + x / p / 2 * (2 * p) =
      omega (arith, div-add-mod x p, ap (λ (t : ℕ). t * p) (div-add-mod (x / p) 2)) in
    let small : x / p % 2 * p + x % p < 2 * p = grind (arith, mod-lt) in
    ap (λ (t : ℕ). t % (2 * p)) whole
    ∙ add-mul-mod_self_right (x / p % 2 * p + x % p) (x / p / 2) (2 * p)
    ∙ mod-eq_of_lt small
    ∙ add_comm (x / p % 2 * p) (x % p)

low_step : (a : List ℕ) (n k : ℕ) → low a n (suc k) ≡ low a n k + bit_at a n k * weight n k
unfolding bit_at
low_step [] n k = omega arith
low_step (x ∷ a) zero k = rw pow_double (mod_double x (2 ^ k) (pow_pos k))
low_step (x ∷ a) (suc n) k = omega (arith, low_step a n k)

low_limb : (a : List ℕ) (n : ℕ) → IsLimbs a → low a n 32 ≡ low a (suc n) 0
low_limb [] n h = refl
low_limb (x ∷ []) zero h = omega arith
low_limb (x ∷ y ∷ a) zero h = omega arith
low_limb (x ∷ a) (suc n) h = omega (arith, low_limb a n h.1)

weight_limb : (n : ℕ) → weight n 32 ≡ weight (suc n) 0
weight_limb zero = refl
weight_limb (suc n) = omega (arith, weight_limb n)

weight_step : (n k : ℕ) → weight n (suc k) ≡ 2 * weight n k
weight_step zero k = pow_double k
weight_step (suc n) k = omega (arith, weight_step n k)

-- The same two at a bit's index.
abbrev pub place : ℕ → ℕ
place i = weight (i / 32) (i % 32)

abbrev pub below : List ℕ → ℕ → ℕ
below a i = low a (i / 32) (i % 32)

pub next_place :
    (i : ℕ)
    → ((suc i / 32 ≡ i / 32) × (suc i % 32 ≡ suc (i % 32)))
      ⊎ ((suc i / 32 ≡ suc (i / 32)) × (suc i % 32 ≡ 0) × (i % 32 ≡ 31))
next_place i = omega arith

pub place_step : (i : ℕ) → place (suc i) ≡ 2 * place i
place_step i = elim (next_place i) [
  | inl (n, k) ↦ rw (n, k) (weight_step (i / 32) (i % 32))
  | inr (n, k, e) ↦ rw (n, k, e) (sym (weight_limb (i / 32)) ∙ weight_step (i / 32) 31)
]

pub below_step :
    (a : List ℕ) (i : ℕ)
    → IsLimbs a
    → below a (suc i) ≡ below a i + bit_at a (i / 32) (i % 32) * place i
below_step a i h = elim (next_place i) [
  | inl (n, k) ↦ rw (n, k) (low_step a (i / 32) (i % 32))
  | inr (n, k, e) ↦ rw (n, k, e) (sym (low_limb a (i / 32) h) ∙ low_step a (i / 32) 31)
]

pub bit_at-le : (a : List ℕ) (n k : ℕ) → bit_at a n k ≤ 1
unfolding bit_at
bit_at-le [] n k = omega arith
bit_at-le (x ∷ a) zero k = omega arith
bit_at-le (x ∷ a) (suc n) k = bit_at-le a n k

bit_length-suc : (f t : ℕ) → bit_length (suc f) (suc t) ≡ suc (bit_length f (suc t / 2))
unfolding bit_length
bit_length-suc f t = ground arith

lt-pow-bit_length : (f top : ℕ) → top < f → top < 2 ^ bit_length f top
unfolding bit_length
lt-pow-bit_length zero top h = absurd (omega arith)
lt-pow-bit_length (suc f) zero h = omega arith
lt-pow-bit_length (suc f) (suc t) h = rw bit_length-suc (
    omega
      (arith, lt-pow-bit_length f (suc t / 2) (omega arith), pow_double (bit_length f (suc t / 2))))

bit_length-le : (f top j : ℕ) → top < 2 ^ j → bit_length f top ≤ j
unfolding bit_length
bit_length-le zero top j h = omega arith
bit_length-le (suc f) zero j h = omega arith
bit_length-le (suc f) (suc t) zero h = absurd (omega arith)
bit_length-le (suc f) (suc t) (suc j) h =
    rw bit_length-suc (omega (arith, bit_length-le f (suc t / 2) j, pow_double j))

below_top : (x : ℕ) (j : ℕ) → x < 2 ^ j → j ≤ 32 → below (x ∷ []) j ≡ x
below_top x j h le = elim (dec_lt j 32) [
  | yes lt ↦
      let limb : j / 32 ≡ 0 = omega arith in
      let bit : j % 32 ≡ j = omega arith in rw (limb, bit) (mod-eq_of_lt h)
  | no ge ↦ let full : j ≡ 32 = omega arith in rw full (omega arith)
]

-- All of a magnitude lies below its number of bits.
pub below-total_bits : (a : List ℕ) → IsLimbs a → below a (total_bits a) ≡ value a
unfolding total_bits
below-total_bits [] h = refl
below-total_bits (x ∷ []) h =
    below_top x (bit_length (suc x) x) (lt-pow-bit_length (suc x) x (omega arith))
      (bit_length-le (suc x) x 32 (omega arith))
    ∙ omega arith
below-total_bits (x ∷ y ∷ a) h =
    let t = total_bits (y ∷ a) in
    let limb : (32 + t) / 32 ≡ suc (t / 32) = omega arith in
    let bit : (32 + t) % 32 ≡ t % 32 = omega arith in
    rw (limb, bit) (omega (arith, below-total_bits (y ∷ a) h.1))
