-- ===== src/Integer/AddSub.antt =====
-- The magnitudes that `magnitude_mul10_add`, `magnitude_add` and `magnitude_sub` return.
use xb.Common.{ℕ, ◌+◌, ◌*◌, ◌/◌, ◌%◌, ◌≤◌, ◌<◌, List, [], ◌∷◌, ◌≡◌, arith}
use xb.Integer.Magnitude.{
  limb_mod, u64, push_carry, mul10_limbs, magnitude_mul10_add, add_limbs, magnitude_add,
  next_borrow, sub_limbs, magnitude_sub,
}
use xb.Integer.Value.{
  value, IsLimbs, IsTrimmed, IsTrimmed-tail, IsTrimmed-cons, value-pos, value-pop_zeros,
  pop_zeros-IsLimbs, pop_zeros-IsTrimmed,
}

pub value-push_carry : (c : ℕ) → c < limb_mod → value (push_carry c) ≡ c
unfolding push_carry
value-push_carry c h = ground arith

pub push_carry-IsLimbs : (c : ℕ) → IsLimbs (push_carry c)
unfolding push_carry
push_carry-IsLimbs c = ground arith

pub push_carry-IsTrimmed : (c : ℕ) → c < limb_mod → IsTrimmed (push_carry c)
unfolding push_carry
push_carry-IsTrimmed c h = ground arith

value-mul10_limbs :
    (mag : List ℕ) (c : ℕ)
    → IsLimbs mag
    → c < limb_mod
    → value (mul10_limbs mag c) ≡ value mag * 10 + c
unfolding mul10_limbs
value-mul10_limbs [] c _ h = omega (arith, value-push_carry c h)
value-mul10_limbs (x ∷ mag) c h k =
    omega (arith, value-mul10_limbs mag (u64 (x * 10 + c) / limb_mod) h.1 (omega arith))

mul10_limbs-IsLimbs : (mag : List ℕ) (c : ℕ) → IsLimbs (mul10_limbs mag c)
unfolding mul10_limbs
mul10_limbs-IsLimbs [] c = push_carry-IsLimbs c
mul10_limbs-IsLimbs (x ∷ mag) c = (omega arith, mul10_limbs-IsLimbs mag _)

pub value-magnitude_mul10_add :
    (mag : List ℕ) (d : ℕ)
    → IsLimbs mag
    → d < limb_mod
    → (value (magnitude_mul10_add mag d) ≡ value mag * 10 + d) × IsLimbs (magnitude_mul10_add mag d)
unfolding magnitude_mul10_add
value-magnitude_mul10_add mag d h k = (value-mul10_limbs mag d h k, mul10_limbs-IsLimbs mag d)

value-add_limbs :
    (a b : List ℕ) (c : ℕ)
    → IsLimbs a
    → IsLimbs b
    → c ≤ 1
    → value (add_limbs a b c) ≡ value a + value b + c
unfolding add_limbs
value-add_limbs [] [] c _ _ h = omega (arith, value-push_carry c (omega arith))
value-add_limbs [] (y ∷ b) c ha hb h =
    omega (arith, value-add_limbs [] b (u64 (c + y) / limb_mod) tt hb.1 (omega arith))
value-add_limbs (x ∷ a) [] c ha hb h =
    omega (arith, value-add_limbs a [] (u64 (c + x) / limb_mod) ha.1 tt (omega arith))
value-add_limbs (x ∷ a) (y ∷ b) c ha hb h =
    omega (arith, value-add_limbs a b (u64 (c + x + y) / limb_mod) ha.1 hb.1 (omega arith))

add_limbs-IsLimbs : (a b : List ℕ) (c : ℕ) → IsLimbs (add_limbs a b c)
unfolding add_limbs
add_limbs-IsLimbs [] [] c = push_carry-IsLimbs c
add_limbs-IsLimbs [] (y ∷ b) c = (omega arith, add_limbs-IsLimbs [] b _)
add_limbs-IsLimbs (x ∷ a) [] c = (omega arith, add_limbs-IsLimbs a [] _)
add_limbs-IsLimbs (x ∷ a) (y ∷ b) c = (omega arith, add_limbs-IsLimbs a b _)

-- The sum of two trimmed magnitudes is trimmed with no need to pop a limb.
add_limbs-IsTrimmed :
    (a b : List ℕ) (c : ℕ)
    → IsLimbs a
    → IsLimbs b
    → IsTrimmed a
    → IsTrimmed b
    → c ≤ 1
    → IsTrimmed (add_limbs a b c)
unfolding add_limbs
add_limbs-IsTrimmed [] [] c _ _ _ _ h = push_carry-IsTrimmed c (omega arith)
add_limbs-IsTrimmed [] (y ∷ b) c ha hb ta tb h =
    let s = u64 (c + y) in
    let rest = add_limbs [] b (s / limb_mod) in
    IsTrimmed-cons (s % limb_mod) rest
      (add_limbs-IsTrimmed [] b (s / limb_mod) tt hb.1 tt (IsTrimmed-tail y b tb) (omega arith))
      (omega (arith, value-add_limbs [] b (s / limb_mod) tt hb.1, value-pos y b tb))
add_limbs-IsTrimmed (x ∷ a) [] c ha hb ta tb h =
    let s = u64 (c + x) in
    let rest = add_limbs a [] (s / limb_mod) in
    IsTrimmed-cons (s % limb_mod) rest
      (add_limbs-IsTrimmed a [] (s / limb_mod) ha.1 tt (IsTrimmed-tail x a ta) tt (omega arith))
      (omega (arith, value-add_limbs a [] (s / limb_mod) ha.1 tt, value-pos x a ta))
add_limbs-IsTrimmed (x ∷ a) (y ∷ b) c ha hb ta tb h =
    let s = u64 (c + x + y) in
    let rest = add_limbs a b (s / limb_mod) in
    IsTrimmed-cons (s % limb_mod) rest
      (add_limbs-IsTrimmed a b (s / limb_mod) ha.1 hb.1 (IsTrimmed-tail x a ta)
        (IsTrimmed-tail y b tb) (omega arith))
      (omega (arith, value-add_limbs a b (s / limb_mod) ha.1 hb.1, value-pos x a ta))

-- For magnitudes of 32-bit limbs without leading zero limbs the result of `magnitude_add` has the
-- sum for its value, and the same form.
pub value-magnitude_add :
    (a b : List ℕ)
    → IsLimbs a
    → IsLimbs b
    → IsTrimmed a
    → IsTrimmed b
    → (value (magnitude_add a b) ≡ value a + value b)
      × IsLimbs (magnitude_add a b)
      × IsTrimmed (magnitude_add a b)
unfolding magnitude_add
value-magnitude_add a b ha hb ta tb = (
  omega (arith, value-add_limbs a b 0 ha hb),
  add_limbs-IsLimbs a b 0,
  add_limbs-IsTrimmed a b 0 ha hb ta tb (omega arith),
)

value-sub_limbs :
    (a b : List ℕ) (c : ℕ)
    → IsLimbs a
    → IsLimbs b
    → c ≤ 1
    → value b + c ≤ value a
    → value (sub_limbs a b c) + value b + c ≡ value a
unfolding sub_limbs
value-sub_limbs [] b c ha hb h le = omega arith
value-sub_limbs (x ∷ a) [] c ha hb h le =
    ground (arith, value-sub_limbs a [] (next_borrow x 0 c) ha.1 tt)
value-sub_limbs (x ∷ a) (y ∷ b) c ha hb h le =
    ground (arith, value-sub_limbs a b (next_borrow x y c) ha.1 hb.1)

sub_limbs-IsLimbs : (a b : List ℕ) (c : ℕ) → IsLimbs (sub_limbs a b c)
unfolding sub_limbs
sub_limbs-IsLimbs [] b c = tt
sub_limbs-IsLimbs (x ∷ a) [] c = (omega arith, sub_limbs-IsLimbs a [] _)
sub_limbs-IsLimbs (x ∷ a) (y ∷ b) c = (omega arith, sub_limbs-IsLimbs a b _)

-- For magnitudes of 32-bit limbs, the first not below the second, the result of `magnitude_sub`
-- and the second add up to the first, in 32-bit limbs without a leading zero limb.
pub value-magnitude_sub :
    (a b : List ℕ)
    → IsLimbs a
    → IsLimbs b
    → value b ≤ value a
    → (value (magnitude_sub a b) + value b ≡ value a)
      × IsLimbs (magnitude_sub a b)
      × IsTrimmed (magnitude_sub a b)
unfolding magnitude_sub
value-magnitude_sub a b ha hb le = (
  omega (arith, value-pop_zeros (sub_limbs a b 0), value-sub_limbs a b 0 ha hb),
  pop_zeros-IsLimbs _ (sub_limbs-IsLimbs a b 0),
  pop_zeros-IsTrimmed (sub_limbs a b 0),
)
