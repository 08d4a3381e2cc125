-- ===== src/Integer/Ring.antt =====
-- The integers that values of the class `integer` stand for, and its sums, differences and products.
use Prim.Native.Nat.{ℕ, zero, suc}
use xb.Common.{
  ◌+◌, ◌*◌, compare, Ordering, List, [], ◌∷◌, Bool-cases, inl, inr, ap, true, false, ◌≡◌, ◌∙◌, refl,
  sym, arith,
}
use xb.Common.Int.{ℤ, pos, sub_ℕ, ◌+ℤ◌, ◌-ℤ◌, ◌*ℤ◌, neg_ℤ}
use xb.Integer.Value.{value, IsLimbs, IsTrimmed, value-pos}
use xb.Integer.AddSub.{value-magnitude_add, value-magnitude_sub}
use xb.Integer.Mul.{value-magnitude_mul}
use xb.Integer.Compare.{compare-value}
use xb.Integer.Ops.{
  Sign, positive, negative, Integer, zero_integer, normalize_sign, is_empty, flip_sign, neg,
  sign_eq, difference, add, sub, product_sign, product, mul,
}

abbrev pub signed : Sign → ℕ → ℤ
signed positive n = pos n
signed negative n = sub_ℕ 0 n

abbrev pub to_ℤ : Integer → ℤ
to_ℤ x = signed x.sign (value x.magnitude)

-- The form that every operation returns: 32-bit limbs, no leading zero limb, no negative zero.
pub record IsInteger (x : Integer) : Type 0 where
  pub limbs : IsLimbs x.magnitude
  pub trimmed : IsTrimmed x.magnitude
  pub no_negative_zero : value x.magnitude ≡ 0 → x.sign ≡ positive

pub normalize_sign-IsInteger :
    (s : Sign) (m : List ℕ) → IsLimbs m → IsTrimmed m → IsInteger (normalize_sign s m)
unfolding normalize_sign
normalize_sign-IsInteger s [] l t = record {
  limbs = tt;
  trimmed = tt;
  no_negative_zero = λ _. refl;
}
normalize_sign-IsInteger s (x ∷ m) l t = record {
  limbs = l;
  trimmed = t;
  no_negative_zero = λ e. absurd (omega (arith, value-pos x m t));
}

pub signed-zero : (s : Sign) → signed s 0 ≡ pos 0
signed-zero positive = refl
signed-zero negative = refl

pub to_ℤ-normalize_sign : (s : Sign) (m : List ℕ) → to_ℤ (normalize_sign s m) ≡ signed s (value m)
unfolding normalize_sign
to_ℤ-normalize_sign s [] = sym (signed-zero s)
to_ℤ-normalize_sign s (x ∷ m) = refl

pub normalized :
    (s : Sign) (m : List ℕ) {z : ℤ}
    → IsLimbs m
    → IsTrimmed m
    → signed s (value m) ≡ z
    → IsInteger (normalize_sign s m) × (to_ℤ (normalize_sign s m) ≡ z)
normalized s m l t e = (normalize_sign-IsInteger s m l t, to_ℤ-normalize_sign s m ∙ e)

signed-flip_sign : (s : Sign) (n : ℕ) → signed (flip_sign s) n ≡ neg_ℤ (signed s n)
unfolding flip_sign neg_ℤ
signed-flip_sign positive n = refl
signed-flip_sign negative n = ground arith

neg-parts :
    (s : Sign) (m : List ℕ)
    → IsInteger (record { sign = s; magnitude = m })
    → IsInteger (neg (record { sign = s; magnitude = m }))
      × (to_ℤ (neg (record { sign = s; magnitude = m })) ≡ neg_ℤ (signed s (value m)))
unfolding neg is_empty neg_ℤ
neg-parts s [] v = (v, ground arith)
neg-parts s (x ∷ m) v = (
  record {
    limbs = v.limbs;
    trimmed = v.trimmed;
    no_negative_zero = λ e. absurd (omega (arith, value-pos x m v.trimmed));
  },
  signed-flip_sign s (value (x ∷ m)),
)

-- Negation keeps the form and negates the number.
pub neg-IsInteger :
    (x : Integer) → IsInteger x → IsInteger (neg x) × (to_ℤ (neg x) ≡ neg_ℤ (to_ℤ x))
neg-IsInteger x v = neg-parts x.sign x.magnitude v

pub signed-add_same :
    (s t : Sign) (m n : ℕ) → sign_eq s t ≡ true → signed s (m + n) ≡ signed s m +ℤ signed t n
unfolding sign_eq ◌+ℤ◌
signed-add_same s t m n h = ground arith

signed-add_left :
    (s t : Sign) (m n d : ℕ)
    → sign_eq s t ≡ false
    → d + n ≡ m
    → signed s d ≡ signed s m +ℤ signed t n
unfolding sign_eq ◌+ℤ◌
signed-add_left s t m n d h e = ground arith

signed-add_right :
    (s t : Sign) (m n d : ℕ)
    → sign_eq s t ≡ false
    → d + m ≡ n
    → signed t d ≡ signed s m +ℤ signed t n
unfolding sign_eq ◌+ℤ◌
signed-add_right s t m n d h e = ground arith

signed-add_equal :
    (s t : Sign) (m n : ℕ) → sign_eq s t ≡ false → m ≡ n → pos 0 ≡ signed s m +ℤ signed t n
unfolding sign_eq ◌+ℤ◌
signed-add_equal s t m n h e = ground arith

pub zero_integer-IsInteger : IsInteger zero_integer
zero_integer-IsInteger = record { limbs = tt; trimmed = tt; no_negative_zero = λ _. refl }

-- The branches of `operator+` for operands of different signs.
add_apart :
    (a b : Integer) (c : Ordering)
    → IsInteger a
    → IsInteger b
    → sign_eq a.sign b.sign ≡ false
    → compare (value a.magnitude) (value b.magnitude) ≡ c
    → IsInteger (difference a b c) × (to_ℤ (difference a b c) ≡ to_ℤ a +ℤ to_ℤ b)
unfolding difference
add_apart a b Ordering.eq va vb h e =
    (zero_integer-IsInteger, signed-add_equal a.sign b.sign _ _ h (ground arith))
add_apart a b Ordering.gt va vb h e =
    let (v, l, t) = value-magnitude_sub a.magnitude b.magnitude va.limbs vb.limbs (ground arith) in
    normalized a.sign _ l t (signed-add_left a.sign b.sign _ _ _ h v)
add_apart a b Ordering.lt va vb h e =
    let (v, l, t) = value-magnitude_sub b.magnitude a.magnitude vb.limbs va.limbs (ground arith) in
    normalized b.sign _ l t (signed-add_right a.sign b.sign _ _ _ h v)

-- The sum of well-formed integers is well formed, and is the sum of their numbers.
pub add-IsInteger :
    (a b : Integer)
    → IsInteger a
    → IsInteger b
    → IsInteger (add a b) × (to_ℤ (add a b) ≡ to_ℤ a +ℤ to_ℤ b)
unfolding add
add-IsInteger a b va vb = elim (Bool-cases (sign_eq a.sign b.sign)) [
  | inl same ↦
      let (v, l, t) =
        value-magnitude_add a.magnitude b.magnitude va.limbs vb.limbs va.trimmed vb.trimmed in
      rw same
        (normalized a.sign _ l t (ap (signed a.sign) v ∙ signed-add_same a.sign b.sign _ _ same))
  | inr apart ↦
      rw (apart, compare-value a.magnitude b.magnitude va.limbs vb.limbs va.trimmed vb.trimmed)
        (add_apart a b _ va vb apart refl)
]

+ℤ-neg_ℤ : (a b : ℤ) → a +ℤ neg_ℤ b ≡ a -ℤ b
unfolding ◌+ℤ◌ ◌-ℤ◌ neg_ℤ
+ℤ-neg_ℤ a b = ground arith

-- The difference of well-formed integers is well formed, and is the difference of their numbers.
pub sub-IsInteger :
    (a b : Integer)
    → IsInteger a
    → IsInteger b
    → IsInteger (sub a b) × (to_ℤ (sub a b) ≡ to_ℤ a -ℤ to_ℤ b)
unfolding sub
sub-IsInteger a b va vb =
    let (w, e) = neg-IsInteger b vb in
    let (v, d) = add-IsInteger a (neg b) va w in
    (v, d ∙ ap (λ z. to_ℤ a +ℤ z) e ∙ +ℤ-neg_ℤ (to_ℤ a) (to_ℤ b))

pub signed-mul :
    (s t : Sign) (m n p : ℕ) → p ≡ m * n → signed (product_sign s t) p ≡ signed s m *ℤ signed t n
unfolding product_sign sign_eq ◌*ℤ◌
signed-mul s t zero zero p e = ground arith
signed-mul s t zero (suc n) p e = ground arith
signed-mul s t (suc m) zero p e = ground arith
signed-mul positive positive (suc m) (suc n) p e = ground arith
signed-mul positive negative (suc m) (suc n) p e = ground arith
signed-mul negative positive (suc m) (suc n) p e = ground arith
signed-mul negative negative (suc m) (suc n) p e = ground arith

product-IsInteger :
    (s t : Sign) (a b : List ℕ)
    → IsLimbs a
    → IsLimbs b
    → IsInteger (product (product_sign s t) a b)
      × (to_ℤ (product (product_sign s t) a b) ≡ signed s (value a) *ℤ signed t (value b))
unfolding product
product-IsInteger s t [] b ha hb = (
  zero_integer-IsInteger,
  sym (signed-zero (product_sign s t)) ∙ signed-mul s t 0 (value b) 0 (omega arith),
)
product-IsInteger s t (x ∷ a) [] ha hb = (
  zero_integer-IsInteger,
  sym (signed-zero (product_sign s t)) ∙ signed-mul s t (value (x ∷ a)) 0 0 (omega arith),
)
product-IsInteger s t (x ∷ a) (y ∷ b) ha hb =
    let (v, l, tr) = value-magnitude_mul (x ∷ a) (y ∷ b) ha hb in
    normalized (product_sign s t) _ l tr (signed-mul s t _ _ _ v)

-- The product of well-formed integers is well formed, and is the product of their numbers.
pub mul-IsInteger :
    (a b : Integer)
    → IsInteger a
    → IsInteger b
    → IsInteger (mul a b) × (to_ℤ (mul a b) ≡ to_ℤ a *ℤ to_ℤ b)
unfolding mul
mul-IsInteger a b va vb = product-IsInteger a.sign b.sign a.magnitude b.magnitude va.limbs vb.limbs
