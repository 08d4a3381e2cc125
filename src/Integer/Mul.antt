-- ===== src/Integer/Mul.antt =====
-- The magnitude that `magnitude_mul` returns: the schoolbook product.
use xb.Common.{
  ℕ, zero, suc, ◌+◌, ◌*◌, ◌/◌, ◌≤◌, ◌<◌, List, [], ◌∷◌, length, replicate, All, ◌≡◌, refl, arith,
  ap, ◌∙◌,
}
use xb.Integer.Magnitude.{limb_mod, u64, mul_row, mul_rows, magnitude_mul}
use xb.Integer.Value.{
  value, IsLimbs, IsTrimmed, value-pop_zeros, pop_zeros-IsLimbs, pop_zeros-IsTrimmed,
}

-- The limbs from index `n` on are zero.
abbrev ZerosFrom : ℕ → List ℕ → Type 0
ZerosFrom zero xs = All (λ x. x ≡ 0) xs
ZerosFrom (suc n) [] = Unit
ZerosFrom (suc n) (x ∷ xs) = ZerosFrom n xs

limb-mul-le : (x y : ℕ) → x < limb_mod → y < limb_mod → x * y ≤ 18446744065119617025
limb-mul-le x y hx hy = grind arith

module _ (ai : ℕ) (hai : ai < limb_mod) where
  -- One round adds `ai * b`, if the limb that takes the last carry is still zero.
  value-mul_row :
      (b result : List ℕ) (c : ℕ)
      → IsLimbs b
      → IsLimbs result
      → ZerosFrom (length b) result
      → length b < length result
      → c < limb_mod
      → value (mul_row ai b result c) ≡ value result + ai * value b + c
  unfolding mul_row
  value-mul_row [] [] c hb hr z len hc = absurd (omega arith)
  value-mul_row [] (r ∷ result) c hb hr z len hc = omega arith
  value-mul_row (y ∷ b) [] c hb hr z len hc = absurd (omega arith)
  value-mul_row (y ∷ b) (r ∷ result) c hb hr z len hc =
      let carry = u64 (ai * y + r + c) / limb_mod in
      let bound : carry < limb_mod = omega (arith, limb-mul-le ai y) in
      omega (
        arith,
        limb-mul-le ai y hai hb.0,
        value-mul_row b result carry hb.1 hr.1 z (omega arith) bound,
      )

mul_row-IsLimbs :
    (ai : ℕ) (b result : List ℕ) (c : ℕ) → IsLimbs result → IsLimbs (mul_row ai b result c)
unfolding mul_row
mul_row-IsLimbs ai [] [] c h = tt
mul_row-IsLimbs ai (y ∷ b) [] c h = tt
mul_row-IsLimbs ai [] (r ∷ result) c h = (omega arith, h.1)
mul_row-IsLimbs ai (y ∷ b) (r ∷ result) c h = (omega arith, mul_row-IsLimbs ai b result _ h.1)

length-mul_row :
    (ai : ℕ) (b result : List ℕ) (c : ℕ) → length (mul_row ai b result c) ≡ length result
unfolding mul_row
length-mul_row ai [] [] c = refl
length-mul_row ai (y ∷ b) [] c = refl
length-mul_row ai [] (r ∷ result) c = refl
length-mul_row ai (y ∷ b) (r ∷ result) c = ap suc (length-mul_row ai b result _)

mul_row-ZerosFrom :
    (ai : ℕ) (b result : List ℕ) (c : ℕ)
    → ZerosFrom (length b) result
    → ZerosFrom (suc (length b)) (mul_row ai b result c)
unfolding mul_row
mul_row-ZerosFrom ai [] [] c z = tt
mul_row-ZerosFrom ai (y ∷ b) [] c z = tt
mul_row-ZerosFrom ai [] (r ∷ result) c z = z.1
mul_row-ZerosFrom ai (y ∷ b) (r ∷ result) c z = mul_row-ZerosFrom ai b result _ z

value-mul_rows :
    (a b result : List ℕ)
    → IsLimbs a
    → IsLimbs b
    → IsLimbs result
    → ZerosFrom (length b) result
    → length result ≡ length a + length b
    → (value (mul_rows a b result) ≡ value result + value a * value b)
      × IsLimbs (mul_rows a b result)
unfolding mul_rows
value-mul_rows [] b result ha hb hr z len = (omega arith, hr)
value-mul_rows (x ∷ a) b result ha hb hr z len =
    next (mul_row x b result 0)
      (value-mul_row x ha.0 b result 0 hb hr z (omega arith) (omega arith))
      (mul_row-IsLimbs x b result 0 hr) (length-mul_row x b result 0)
      (mul_row-ZerosFrom x b result 0 z) (value-mul_rows a b)
  where
    next :
        (row : List ℕ)
        → value row ≡ value result + x * value b + 0
        → IsLimbs row
        → length row ≡ length result
        → ZerosFrom (suc (length b)) row
        → ((rest : List ℕ)
            → IsLimbs a
            → IsLimbs b
            → IsLimbs rest
            → ZerosFrom (length b) rest
            → length rest ≡ length a + length b
            → (value (mul_rows a b rest) ≡ value rest + value a * value b)
              × IsLimbs (mul_rows a b rest))
        → (value (elim row [ [] ↦ [] | r ∷ rest ↦ r ∷ mul_rows a b rest ])
            ≡ value result + (x + limb_mod * value a) * value b)
          × IsLimbs (elim row [ [] ↦ [] | r ∷ rest ↦ r ∷ mul_rows a b rest ])
    next [] v l n z' ih = absurd (omega arith)
    next (r ∷ rest) v l n z' ih =
        let (v', l') = ih rest ha.1 hb l.1 z' (omega arith) in (omega arith, (l.0, l'))

replicate-ZerosFrom : (n m : ℕ) → ZerosFrom m (replicate n 0)
replicate-ZerosFrom zero zero = tt
replicate-ZerosFrom zero (suc m) = tt
replicate-ZerosFrom (suc n) zero = (refl, replicate-ZerosFrom n zero)
replicate-ZerosFrom (suc n) (suc m) = replicate-ZerosFrom n m

value-replicate : (n : ℕ) → value (replicate n 0) ≡ 0
value-replicate zero = refl
value-replicate (suc n) = omega (arith, value-replicate n)

replicate-IsLimbs : (n : ℕ) → IsLimbs (replicate n 0)
replicate-IsLimbs zero = tt
replicate-IsLimbs (suc n) = (omega arith, replicate-IsLimbs n)

length-zeros : (n : ℕ) → length (replicate {A = ℕ} n 0) ≡ n
length-zeros zero = refl
length-zeros (suc n) = ap suc (length-zeros n)

-- For magnitudes of 32-bit limbs the result of `magnitude_mul`, computed with 64-bit words that
-- wrap around, has the product for its value, 32-bit limbs, and no leading zero limb.
pub value-magnitude_mul :
    (a b : List ℕ)
    → IsLimbs a
    → IsLimbs b
    → (value (magnitude_mul a b) ≡ value a * value b)
      × IsLimbs (magnitude_mul a b)
      × IsTrimmed (magnitude_mul a b)
unfolding magnitude_mul
value-magnitude_mul [] b ha hb = (omega arith, tt, tt)
value-magnitude_mul (x ∷ a) [] ha hb = (omega arith, tt, tt)
value-magnitude_mul (x ∷ a) (y ∷ b) ha hb =
    let n = length (x ∷ a) + length (y ∷ b) in
    let (v, l) =
      value-mul_rows (x ∷ a) (y ∷ b) (replicate n 0) ha hb (replicate-IsLimbs n)
        (replicate-ZerosFrom n (length (y ∷ b))) (length-zeros n) in
    let rows = mul_rows (x ∷ a) (y ∷ b) (replicate n 0) in
    (
      value-pop_zeros rows ∙ v ∙ omega (arith, value-replicate n),
      pop_zeros-IsLimbs rows l,
      pop_zeros-IsTrimmed rows,
    )
