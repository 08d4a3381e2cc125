-- ===== src/Integer/Truncated.antt =====
-- `operator/` and `operator%` of the class `integer` are division that rounds towards zero.
use xb.Common.{
  ℕ, ◌+◌, ◌*◌, ◌<◌, List, [], ◌∷◌, true, ◌≡◌, ◌≢◌, ◌∙◌, ◌⊎◌, inl, inr, refl, sym, arith, ap,
}
use xb.Common.Int.{pos, nat_abs, ◌+ℤ◌, ◌*ℤ◌}
use xb.Common.Result.{ok, err, domain_error}
use xb.Integer.Value.{value, value-pos}
use xb.Integer.Ops.{
  Sign, positive, negative, Integer, sign_eq, normalize_sign, product_sign, div, rem,
}
use xb.Integer.Divmod.{magnitude_divmod}
use xb.Integer.Division.{magnitude_divmod-Quotient}
use xb.Integer.Ring.{signed, to_ℤ, IsInteger, normalized, signed-mul, signed-add_same}

product_sign_twice : (s t : Sign) → product_sign (product_sign s t) t ≡ s
unfolding product_sign sign_eq
product_sign_twice positive positive = refl
product_sign_twice positive negative = refl
product_sign_twice negative positive = refl
product_sign_twice negative negative = refl

sign_eq_refl : (s : Sign) → sign_eq s s ≡ true
unfolding sign_eq
sign_eq_refl positive = refl
sign_eq_refl negative = refl

signed-divide :
    (s t : Sign) (q b r a : ℕ)
    → q * b + r ≡ a
    → signed (product_sign s t) q *ℤ signed t b +ℤ signed s r ≡ signed s a
signed-divide s t q b r a e =
    ap (λ z. z +ℤ signed s r)
      (sym (signed-mul (product_sign s t) t q b (q * b) refl)
        ∙ ap (λ u. signed u (q * b)) (product_sign_twice s t))
    ∙ sym (signed-add_same s s (q * b) r (sign_eq_refl s))
    ∙ ap (signed s) e

pub nat_abs-signed : (s : Sign) (n : ℕ) → nat_abs (signed s n) ≡ n
nat_abs-signed positive n = refl
nat_abs-signed negative n = ground arith

value-ne-zero : (s : Sign) (m : List ℕ) → signed s (value m) ≢ pos 0 → 0 < value m
value-ne-zero positive m h = ground arith
value-ne-zero negative m h = ground arith

-- What truncated division of `a` by `b` returns.
pub record Truncated (a b q r : Integer) : Type 0 where
  pub quotient : IsInteger q
  pub remainder : IsInteger r
  pub sum : to_ℤ q *ℤ to_ℤ b +ℤ to_ℤ r ≡ to_ℤ a
  pub smaller : nat_abs (to_ℤ r) < nat_abs (to_ℤ b)
  pub sign : (to_ℤ r ≡ pos 0) ⊎ (r.sign ≡ a.sign)

remainder_sign :
    (s : Sign) (m : List ℕ) → (to_ℤ (normalize_sign s m) ≡ pos 0) ⊎ ((normalize_sign s m).sign ≡ s)
unfolding normalize_sign
remainder_sign s [] = inl refl
remainder_sign s (x ∷ m) = inr refl

-- For well-formed integers and a divisor other than 0, `operator/` and `operator%` return a
-- quotient and a remainder that are well formed, with dividend = quotient * divisor + remainder,
-- the remainder smaller in absolute value than the divisor, and the remainder 0 or of the
-- dividend's sign.
pub div-Truncated :
    (a b : Integer)
    → IsInteger a
    → IsInteger b
    → to_ℤ b ≢ pos 0
    → (q : Integer) × (r : Integer) × (div a b ≡ ok q) × (rem a b ≡ ok r) × Truncated a b q r
unfolding div rem
div-Truncated a b va vb h =
    let (qr, e, d) =
      magnitude_divmod-Quotient a.magnitude b.magnitude va.limbs vb.limbs va.trimmed vb.trimmed
        (value-ne-zero b.sign b.magnitude h) in
    let s = product_sign a.sign b.sign in
    let (vq, zq) = normalized s qr.0 d.quotient_limbs d.quotient_trimmed refl in
    let (vr, zr) = normalized a.sign qr.1 d.remainder_limbs d.remainder_trimmed refl in
    (
      normalize_sign s qr.0,
      normalize_sign a.sign qr.1,
      rw e,
      rw e,
      record {
        quotient = vq;
        remainder = vr;
        sum =
            rw (zq, zr)
              (signed-divide a.sign b.sign (value qr.0) (value b.magnitude) (value qr.1) _ d.sum);
        smaller = rw (zr, nat_abs-signed, nat_abs-signed) d.smaller;
        sign = remainder_sign a.sign qr.1;
      },
    )

div-zero_parts :
    (a : Integer) (s : Sign) (m : List ℕ)
    → IsInteger (record { sign = s; magnitude = m })
    → value m ≡ 0
    → (div a (record { sign = s; magnitude = m }) ≡ err domain_error)
      × (rem a (record { sign = s; magnitude = m }) ≡ err domain_error)
unfolding div rem magnitude_divmod
div-zero_parts a s [] v h = (refl, refl)
div-zero_parts a s (x ∷ m) v h = absurd (omega (arith, value-pos x m v.trimmed))

-- With a well-formed divisor of number 0 both `operator/` and `operator%` throw `domain_error`.
pub div_zero :
    (a b : Integer)
    → IsInteger b
    → to_ℤ b ≡ pos 0
    → (div a b ≡ err domain_error) × (rem a b ≡ err domain_error)
div_zero a b v h =
    div-zero_parts a b.sign b.magnitude v
      (sym (nat_abs-signed b.sign (value b.magnitude)) ∙ ap nat_abs h)
