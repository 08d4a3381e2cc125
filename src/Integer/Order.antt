-- ===== src/Integer/Order.antt =====
-- The comparisons of the class `integer` are those of the numbers.
use xb.Common.{
  ℕ, zero, suc, ◌+◌, compare, Ordering, List, [], ◌∷◌, true, ◌≡◌, ◌↔◌, refl, sym, arith, ap,
}
use xb.Common.Int.{ℤ, pos_part, neg_part}
use xb.Integer.Magnitude.{magnitude_compare}
use xb.Integer.Value.{value, value-pos, value-injective}
use xb.Integer.Compare.{compare-value}
use xb.Integer.Ops.{Sign, positive, negative, Integer, sign_eq, cmp, limbs_eq, eq}
use xb.Integer.Ring.{signed, to_ℤ, IsInteger}

-- The order of two integers.
abbrev pub compare_ℤ : ℤ → ℤ → Ordering
compare_ℤ a b = compare (pos_part a + neg_part b) (pos_part b + neg_part a)

cmp_magnitudes :
    (s t : Sign) (a b : List ℕ)
    → IsInteger (record { sign = s; magnitude = a })
    → IsInteger (record { sign = t; magnitude = b })
    → magnitude_compare a b ≡ compare (value a) (value b)
    → cmp (record { sign = s; magnitude = a }) (record { sign = t; magnitude = b })
      ≡ compare_ℤ (signed s (value a)) (signed t (value b))
unfolding cmp
cmp_magnitudes s t [] [] va vb e = ground arith
cmp_magnitudes s t [] (y ∷ b) va vb e =
    ground (arith, value-pos y b vb.trimmed, va.no_negative_zero refl)
cmp_magnitudes s t (x ∷ a) [] va vb e =
    ground (arith, value-pos x a va.trimmed, vb.no_negative_zero refl)
cmp_magnitudes s t (x ∷ a) (y ∷ b) va vb e =
    ground (arith, value-pos x a va.trimmed, value-pos y b vb.trimmed)

-- `operator<=>` of well-formed integers is the order of their numbers.
pub cmp-to_ℤ : (a b : Integer) → IsInteger a → IsInteger b → cmp a b ≡ compare_ℤ (to_ℤ a) (to_ℤ b)
cmp-to_ℤ a b va vb =
    cmp_magnitudes a.sign b.sign a.magnitude b.magnitude va vb
      (compare-value a.magnitude b.magnitude va.limbs vb.limbs va.trimmed vb.trimmed)

limbs_eq_iff : (a b : List ℕ) → (limbs_eq a b ≡ true) ↔ (a ≡ b)
unfolding limbs_eq
limbs_eq_iff [] [] = (λ _. refl, λ _. refl)
limbs_eq_iff [] (y ∷ b) = (λ e. cc, λ e. cc)
limbs_eq_iff (x ∷ a) [] = (λ e. cc, λ e. cc)
limbs_eq_iff (x ∷ a) (y ∷ b) =
    (λ e. ground (arith, (limbs_eq_iff a b).0), λ e. ground (arith, (limbs_eq_iff a b).1))

-- `operator==` is equality of the representations.
pub eq_iff_same : (a b : Integer) → (eq a b ≡ true) ↔ (a ≡ b)
unfolding eq sign_eq
eq_iff_same a b = (
  λ e. ground (arith, (limbs_eq_iff a.magnitude b.magnitude).0),
  λ e.
      ground
        (arith, (limbs_eq_iff a.magnitude b.magnitude).1 (ap (λ (x : Integer). x.magnitude) e)),
)

signed_sign :
    (s t : Sign) (m n : ℕ)
    → (m ≡ 0 → s ≡ positive)
    → (n ≡ 0 → t ≡ positive)
    → signed s m ≡ signed t n
    → (s ≡ t) × (m ≡ n)
signed_sign positive positive m n hs ht e = (refl, ground arith)
signed_sign negative negative m n hs ht e = (refl, ground arith)
signed_sign positive negative m zero hs ht e = (sym (ht refl), ground arith)
signed_sign positive negative m (suc n) hs ht e = absurd (ground arith)
signed_sign negative positive zero n hs ht e = (hs refl, ground arith)
signed_sign negative positive (suc m) n hs ht e = absurd (ground arith)

-- A number has one representation.
pub to_ℤ-injective : (a b : Integer) → IsInteger a → IsInteger b → to_ℤ a ≡ to_ℤ b → a ≡ b
to_ℤ-injective a b va vb e =
    let (s, v) =
      signed_sign a.sign b.sign (value a.magnitude) (value b.magnitude) va.no_negative_zero
        vb.no_negative_zero e in
    let m = value-injective a.magnitude b.magnitude va.limbs vb.limbs va.trimmed vb.trimmed v in
    λ i. record { sign = s i; magnitude = m i }

-- `operator==` of well-formed integers holds exactly when their numbers are equal, although it
-- compares signs and limbs.
pub eq_iff : (a b : Integer) → IsInteger a → IsInteger b → (eq a b ≡ true) ↔ (to_ℤ a ≡ to_ℤ b)
eq_iff a b va vb =
    (λ e. ap to_ℤ ((eq_iff_same a b).0 e), λ e. (eq_iff_same a b).1 (to_ℤ-injective a b va vb e))
