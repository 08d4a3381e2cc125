-- ===== src/Integer/Value.antt =====
-- The number that a magnitude stands for, and the form in which `integer` keeps it.
use xb.Common.{ℕ, ◌+◌, ◌*◌, ◌<◌, List, [], ◌∷◌, All, ◌≡◌, ◌≢◌, refl, arith}
use xb.Integer.Magnitude.{limb_mod, keep_limb, pop_zeros}

abbrev pub value : List ℕ → ℕ
value [] = 0
value (x ∷ xs) = x + limb_mod * value xs

-- Each limb fits 32 bits.
abbrev pub IsLimbs : List ℕ → Type 0
IsLimbs = All (λ x. x < limb_mod)

-- The most significant limb is not zero.
abbrev pub IsTrimmed : List ℕ → Type 0
IsTrimmed [] = Unit
IsTrimmed (x ∷ []) = x ≢ 0
IsTrimmed (x ∷ y ∷ ys) = IsTrimmed (y ∷ ys)

keep_limb-value : (x : ℕ) (xs : List ℕ) → value (keep_limb x xs) ≡ x + limb_mod * value xs
unfolding keep_limb
keep_limb-value x [] = ground arith
keep_limb-value x (y ∷ ys) = refl

pub value-pop_zeros : (xs : List ℕ) → value (pop_zeros xs) ≡ value xs
unfolding pop_zeros
value-pop_zeros [] = refl
value-pop_zeros (x ∷ xs) = omega (arith, keep_limb-value x (pop_zeros xs), value-pop_zeros xs)

keep_limb-IsLimbs : (x : ℕ) (xs : List ℕ) → x < limb_mod → IsLimbs xs → IsLimbs (keep_limb x xs)
unfolding keep_limb
keep_limb-IsLimbs x [] h k = ground arith
keep_limb-IsLimbs x (y ∷ ys) h k = (h, k)

pub pop_zeros-IsLimbs : (xs : List ℕ) → IsLimbs xs → IsLimbs (pop_zeros xs)
unfolding pop_zeros
pop_zeros-IsLimbs [] h = h
pop_zeros-IsLimbs (x ∷ xs) h = keep_limb-IsLimbs x (pop_zeros xs) h.0 (pop_zeros-IsLimbs xs h.1)

keep_limb-IsTrimmed : (x : ℕ) (xs : List ℕ) → IsTrimmed xs → IsTrimmed (keep_limb x xs)
unfolding keep_limb
keep_limb-IsTrimmed x [] h = ground arith
keep_limb-IsTrimmed x (y ∷ ys) h = h

pub pop_zeros-IsTrimmed : (xs : List ℕ) → IsTrimmed (pop_zeros xs)
unfolding pop_zeros
pop_zeros-IsTrimmed [] = tt
pop_zeros-IsTrimmed (x ∷ xs) = keep_limb-IsTrimmed x (pop_zeros xs) (pop_zeros-IsTrimmed xs)

pub IsTrimmed-tail : (x : ℕ) (xs : List ℕ) → IsTrimmed (x ∷ xs) → IsTrimmed xs
IsTrimmed-tail x [] h = tt
IsTrimmed-tail x (y ∷ ys) h = h

pub IsTrimmed-cons :
    (x : ℕ) (xs : List ℕ) → IsTrimmed xs → 0 < x + limb_mod * value xs → IsTrimmed (x ∷ xs)
IsTrimmed-cons x [] _ h = omega arith
IsTrimmed-cons x (y ∷ ys) t _ = t

-- A trimmed magnitude that stands for zero is empty.
pub value-pos : (x : ℕ) (xs : List ℕ) → IsTrimmed (x ∷ xs) → 0 < value (x ∷ xs)
value-pos x [] h = omega arith
value-pos x (y ∷ ys) h = omega (arith, value-pos y ys h)

pub value-injective :
    (a b : List ℕ) → IsLimbs a → IsLimbs b → IsTrimmed a → IsTrimmed b → value a ≡ value b → a ≡ b
value-injective [] [] _ _ _ _ _ = refl
value-injective [] (y ∷ b) _ _ _ tb e = absurd (omega (arith, value-pos y b tb))
value-injective (x ∷ a) [] _ _ ta _ e = absurd (omega (arith, value-pos x a ta))
value-injective (x ∷ a) (y ∷ b) ha hb ta tb e =
    let heads : x ≡ y = omega arith in
    let tails : a ≡ b =
      value-injective a b ha.1 hb.1 (IsTrimmed-tail x a ta) (IsTrimmed-tail y b tb) (omega arith) in
    cc
