-- ===== src/Integer/Shift.antt =====
-- Shifting the remainder of `magnitude_divmod` and setting its lowest bit.
use Prim.Native.Nat.{bit_or}
use xb.Common.{ℕ, ◌+◌, ◌*◌, ◌/◌, ◌%◌, ◌^◌, ◌≤◌, List, [], ◌∷◌, ◌≡◌, arith}
use xb.Common.Bits.{bit_or-disjoint, bit_or-zero}
use xb.Integer.Magnitude.{limb_mod, push_carry}
use xb.Integer.Value.{value, IsLimbs, IsTrimmed, IsTrimmed-tail, IsTrimmed-cons, value-pos}
use xb.Integer.AddSub.{value-push_carry, push_carry-IsLimbs, push_carry-IsTrimmed}
use xb.Integer.Divmod.{shift_limbs, set_low}

bit_or-one : (x bit : ℕ) → x % 2 ≡ 0 → bit ≤ 1 → bit_or x bit ≡ x + bit
bit_or-one x bit even h =
    let halves : x ≡ x / 2 * 2 ^ 1 = omega arith in
    rw halves (bit_or-disjoint 1 (x / 2) bit (omega arith))

pub value-shift_limbs :
    (r : List ℕ) (c : ℕ)
    → IsLimbs r
    → c ≤ 1
    → (value (shift_limbs r c) ≡ 2 * value r + c) × IsLimbs (shift_limbs r c)
unfolding shift_limbs
value-shift_limbs [] c h k = (omega (arith, value-push_carry c (omega arith)), push_carry-IsLimbs c)
value-shift_limbs (x ∷ r) c h k =
    let (v, l) = value-shift_limbs r (x / 2147483648) h.1 (omega arith) in
    let head = bit_or-one (x * 2 % limb_mod) c (omega arith) k in
    (omega (arith, v, head), (omega (arith, head), l))

pub shift_limbs-IsTrimmed :
    (r : List ℕ) (c : ℕ) → IsLimbs r → c ≤ 1 → IsTrimmed r → IsTrimmed (shift_limbs r c)
unfolding shift_limbs
shift_limbs-IsTrimmed [] c h k t = push_carry-IsTrimmed c (omega arith)
shift_limbs-IsTrimmed (x ∷ r) c h k t =
    let (v, l) = value-shift_limbs r (x / 2147483648) h.1 (omega arith) in
    let head = bit_or-one (x * 2 % limb_mod) c (omega arith) k in
    IsTrimmed-cons (bit_or (x * 2 % limb_mod) c) (shift_limbs r (x / 2147483648))
      (shift_limbs-IsTrimmed r (x / 2147483648) h.1 (omega arith) (IsTrimmed-tail x r t))
      (omega (arith, v, head, value-pos x r t))

abbrev pub EvenHead : List ℕ → Type 0
EvenHead [] = Unit
EvenHead (x ∷ r) = x % 2 ≡ 0

pub shift_limbs-EvenHead : (r : List ℕ) → EvenHead (shift_limbs r 0)
unfolding shift_limbs push_carry
shift_limbs-EvenHead [] = tt
shift_limbs-EvenHead (x ∷ r) = omega (arith, bit_or-zero (x * 2 % limb_mod))

-- What a remainder is after `set_low`.
pub record Extends (m : List ℕ) (v : ℕ) : Type 0 where
  pub number : value m ≡ v
  pub limbs : IsLimbs m
  pub trimmed : IsTrimmed m

pub set_low-Extends :
    (m : List ℕ) (bit : ℕ)
    → bit ≤ 1
    → EvenHead m
    → IsLimbs m
    → IsTrimmed m
    → Extends (set_low m bit) (value m + bit)
unfolding set_low
set_low-Extends [] bit h e l t = ground arith
set_low-Extends (x ∷ m) bit h e l t =
    let head = bit_or-one x bit e h in
    record {
      number = omega (arith, head);
      limbs = (omega (arith, head), l.1);
      trimmed = IsTrimmed-cons _ m (IsTrimmed-tail x m t) (omega (arith, head, value-pos x m t));
    }
