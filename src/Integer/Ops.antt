-- ===== src/Integer/Ops.antt =====
-- The class `integer`: src/include/xb/integer.hpp and the operators in src/lib/integer.cpp.
use xb.Common.{ℕ, List, [], ◌∷◌, Ordering, Bool, true, false, ◌==◌, ◌&&◌, if◌then◌else◌}
use xb.Common.Result.{Result, ok, ◌>>=◌}
use xb.Integer.Magnitude.{magnitude_add, magnitude_sub, magnitude_mul, magnitude_compare}
use xb.Integer.Divmod.{magnitude_divmod}

pub data Sign : Type 0 where
  positive negative : Sign

pub record Integer : Type 0 where
  pub sign : Sign
  pub magnitude : List ℕ

-- `integer()`
abbrev pub zero_integer : Integer
zero_integer = record { sign = positive; magnitude = [] }

-- `if (magnitude_.empty()) { sign_ = sign_type::positive; }`
unfoldable pub normalize_sign : Sign → List ℕ → Integer
normalize_sign s [] = zero_integer
normalize_sign s (x ∷ m) = record { sign = s; magnitude = x ∷ m }

unfoldable pub is_empty : List ℕ → Bool
is_empty [] = true
is_empty (x ∷ xs) = false

unfoldable pub is_zero : Integer → Bool
unfolding is_empty
is_zero x = is_empty x.magnitude

unfoldable pub flip_sign : Sign → Sign
flip_sign positive = negative
flip_sign negative = positive

-- `operator-()`
unfoldable pub neg : Integer → Integer
unfolding flip_sign is_empty
neg x = if is_empty x.magnitude then x else record x { sign = flip_sign x.sign }

unfoldable pub sign_eq : Sign → Sign → Bool
sign_eq positive positive = true
sign_eq negative negative = true
sign_eq positive negative = false
sign_eq negative positive = false

-- The order of two magnitudes, reversed for negative numbers.
unfoldable pub signed_order : Sign → Ordering → Ordering
signed_order positive c = c
signed_order negative Ordering.lt = Ordering.gt
signed_order negative Ordering.eq = Ordering.eq
signed_order negative Ordering.gt = Ordering.lt

unfoldable pub sign_order : Sign → Ordering
sign_order positive = Ordering.gt
sign_order negative = Ordering.lt

-- `operator<=>`
unfoldable pub cmp : Integer → Integer → Ordering
unfolding is_empty sign_eq signed_order sign_order magnitude_compare
cmp a b =
    if is_empty a.magnitude && is_empty b.magnitude
    then Ordering.eq
    else if sign_eq a.sign b.sign
    then signed_order a.sign (magnitude_compare a.magnitude b.magnitude)
    else sign_order a.sign

-- `==` of two vectors
unfoldable pub limbs_eq : List ℕ → List ℕ → Bool
limbs_eq [] [] = true
limbs_eq [] (y ∷ b) = false
limbs_eq (x ∷ a) [] = false
limbs_eq (x ∷ a) (y ∷ b) = x == y && limbs_eq a b

-- `operator==`
unfoldable pub eq : Integer → Integer → Bool
unfolding sign_eq limbs_eq
eq a b = sign_eq a.sign b.sign && limbs_eq a.magnitude b.magnitude

-- Different signs: the smaller magnitude is taken from the larger.
unfoldable pub difference : Integer → Integer → Ordering → Integer
unfolding normalize_sign magnitude_sub
difference a b Ordering.eq = zero_integer
difference a b Ordering.gt = normalize_sign a.sign (magnitude_sub a.magnitude b.magnitude)
difference a b Ordering.lt = normalize_sign b.sign (magnitude_sub b.magnitude a.magnitude)

-- `operator+`
unfoldable pub add : Integer → Integer → Integer
unfolding sign_eq normalize_sign magnitude_add difference magnitude_compare
add a b =
    if sign_eq a.sign b.sign
    then normalize_sign a.sign (magnitude_add a.magnitude b.magnitude)
    else difference a b (magnitude_compare a.magnitude b.magnitude)

-- `operator-(a, b)`
unfoldable pub sub : Integer → Integer → Integer
unfolding add neg
sub a b = add a (neg b)

-- `(a.sign_ == b.sign_) ? positive : negative`
unfoldable pub product_sign : Sign → Sign → Sign
unfolding sign_eq
product_sign s t = if sign_eq s t then positive else negative

-- `operator*`
unfoldable pub product : Sign → List ℕ → List ℕ → Integer
unfolding normalize_sign magnitude_mul
product s [] b = zero_integer
product s (x ∷ a) [] = zero_integer
product s (x ∷ a) (y ∷ b) = normalize_sign s (magnitude_mul (x ∷ a) (y ∷ b))

unfoldable pub mul : Integer → Integer → Integer
unfolding product_sign product
mul a b = product (product_sign a.sign b.sign) a.magnitude b.magnitude

-- `operator/`
unfoldable pub div : Integer → Integer → Result Integer
unfolding magnitude_divmod product_sign normalize_sign
div a b = do
  qr ← magnitude_divmod a.magnitude b.magnitude
  ok (normalize_sign (product_sign a.sign b.sign) qr.0)

-- `operator%`: the remainder has the sign of the dividend.
unfoldable pub rem : Integer → Integer → Result Integer
unfolding magnitude_divmod normalize_sign
rem a b = do qr ← magnitude_divmod a.magnitude b.magnitude; ok (normalize_sign a.sign qr.1)

-- `sign()`, and the unary `operator+`
unfoldable pub sign : Integer → Sign
sign x = x.sign

unfoldable pub plus : Integer → Integer
plus x = x

-- The compound assignments return the new value of `*this`.
unfoldable pub add_assign : Integer → Integer → Integer
add_assign self other = add self other

unfoldable pub sub_assign : Integer → Integer → Integer
sub_assign self other = sub self other

unfoldable pub mul_assign : Integer → Integer → Integer
mul_assign self other = mul self other

unfoldable pub div_assign : Integer → Integer → Result Integer
div_assign self other = div self other

unfoldable pub rem_assign : Integer → Integer → Result Integer
rem_assign self other = rem self other
