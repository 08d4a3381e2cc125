-- ===== src/Integer/Compare.antt =====
-- `magnitude_compare` compares the numbers that two trimmed magnitudes stand for.
use xb.Common.{ℕ, ◌+◌, ◌*◌, ◌<◌, compare, List, [], ◌∷◌, length, ◌≡◌, refl, arith}
use xb.Integer.Magnitude.{limb_mod, compare_limbs, limb_compare, size_first, magnitude_compare}
use xb.Integer.Value.{value, IsLimbs, IsTrimmed, IsTrimmed-tail, value-pos}

compare_high :
    (x y v w : ℕ)
    → x < limb_mod
    → y < limb_mod
    → limb_compare x y (compare v w) ≡ compare (x + limb_mod * v) (y + limb_mod * w)
unfolding limb_compare
compare_high x y v w hx hy = ground arith

compare_limbs-value :
    (a b : List ℕ)
    → IsLimbs a
    → IsLimbs b
    → length a ≡ length b
    → compare_limbs a b ≡ compare (value a) (value b)
unfolding compare_limbs
compare_limbs-value [] [] ha hb n = refl
compare_limbs-value [] (y ∷ b) ha hb n = absurd (omega arith)
compare_limbs-value (x ∷ a) [] ha hb n = absurd (omega arith)
compare_limbs-value (x ∷ a) (y ∷ b) ha hb n =
    rw (compare_limbs-value a b ha.1 hb.1 (omega arith))
      (compare_high x y (value a) (value b) ha.0 hb.0)

pub value-lt_of_shorter :
    (a b : List ℕ) → IsLimbs a → IsTrimmed b → length a < length b → value a < value b
value-lt_of_shorter a [] ha tb n = absurd (omega arith)
value-lt_of_shorter [] (y ∷ b) ha tb n = value-pos y b tb
value-lt_of_shorter (x ∷ a) (y ∷ b) ha tb n =
    omega (arith, value-lt_of_shorter a b ha.1 (IsTrimmed-tail y b tb) (omega arith))

-- For magnitudes of 32-bit limbs without leading zero limbs `magnitude_compare`, which compares
-- sizes first and then limbs from the top, is the order of the values.
pub compare-value :
    (a b : List ℕ)
    → IsLimbs a
    → IsLimbs b
    → IsTrimmed a
    → IsTrimmed b
    → magnitude_compare a b ≡ compare (value a) (value b)
unfolding magnitude_compare size_first
compare-value a b ha hb ta tb = ground (
  arith,
  compare_limbs-value a b ha hb,
  value-lt_of_shorter a b ha tb,
  value-lt_of_shorter b a hb ta,
)
