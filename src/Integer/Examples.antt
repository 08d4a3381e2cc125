-- ===== src/Integer/Examples.antt =====
-- The theorems on src/lib/integer.cpp at concrete integers, among them one of two limbs, and tests of the
-- operations.
use xb.Common.{
  ℕ, ◌+◌, ◌*◌, [], ◌∷◌, List, compare, ◌≡◌, ◌≢◌, ◌↔◌, refl, arith, true, All, if◌then◌else◌,
}
use xb.Common.Int.{nat_abs, negsuc, ◌+ℤ◌, ◌-ℤ◌, ◌*ℤ◌}
use xb.Common.Result.{ok, err, domain_error, overflow_error}
use xb.Common.Text.{Bytes, codes, IsDigit, decimal}
use xb.Integer.Magnitude.{
  magnitude_add, magnitude_sub, magnitude_mul, magnitude_compare, magnitude_mul10_add, mul10_limbs,
  push_carry, pop_zeros, keep_limb,
}
use xb.Integer.Divmod.{magnitude_divmod}
use xb.Integer.Ops.{
  Sign, positive, negative, Integer, add, sub, mul, div, rem, cmp, eq, normalize_sign,
}
use xb.Integer.Decimal.{of_string, to_string, of_digits, scan_digits}
use xb.Integer.Words.{of_i64, to_i64, to_u64}
use xb.Integer.Value.{value, IsLimbs, IsTrimmed}
use xb.Integer.Ring.{to_ℤ, signed, IsInteger, add-IsInteger, sub-IsInteger, mul-IsInteger}
use xb.Integer.Order.{compare_ℤ, cmp-to_ℤ, eq_iff}
use xb.Integer.AddSub.{value-magnitude_add, value-magnitude_sub}
use xb.Integer.Mul.{value-magnitude_mul}
use xb.Integer.Compare.{compare-value}
use xb.Integer.Division.{Quotient, magnitude_divmod-Quotient}
use xb.Integer.Truncated.{Truncated, div-Truncated, div_zero}
use xb.Integer.RoundTrip.{Spelled, of_string_sound, of_string-to_string}
use xb.Integer.WordLaws.{in_i64, in_u64, of_i64-value, to_i64-value, to_u64-value}

abbrev two_limbs : List ℕ
two_limbs = 5 ∷ 7 ∷ []

abbrev full_limb : List ℕ
full_limb = 4294967295 ∷ []

-- -(7 * 2^32 + 5), 2^32 - 1 and 0
abbrev large : Integer
large = record { sign = negative; magnitude = two_limbs }

abbrev limit : Integer
limit = record { sign = positive; magnitude = full_limb }

abbrev nought : Integer
nought = record { sign = positive; magnitude = [] }

two_limbs-IsLimbs : IsLimbs two_limbs
two_limbs-IsLimbs = (omega arith, (omega arith, tt))

full_limb-IsLimbs : IsLimbs full_limb
full_limb-IsLimbs = (omega arith, tt)

two_limbs-IsTrimmed : IsTrimmed two_limbs
two_limbs-IsTrimmed = λ e. omega arith

full_limb-IsTrimmed : IsTrimmed full_limb
full_limb-IsTrimmed = λ e. omega arith

large-IsInteger : IsInteger large
large-IsInteger = record {
  limbs = two_limbs-IsLimbs;
  trimmed = two_limbs-IsTrimmed;
  no_negative_zero = λ e. absurd (omega arith);
}

limit-IsInteger : IsInteger limit
limit-IsInteger = record {
  limbs = full_limb-IsLimbs;
  trimmed = full_limb-IsTrimmed;
  no_negative_zero = λ e. refl;
}

nought-IsInteger : IsInteger nought
nought-IsInteger = record { limbs = tt; trimmed = tt; no_negative_zero = λ e. refl }

div-Truncated_example :
    (q : Integer) × (r : Integer) × (div large limit ≡ ok q)
    × (rem large limit ≡ ok r)
    × Truncated large limit q r
div-Truncated_example = div-Truncated large limit large-IsInteger limit-IsInteger (λ e. cc)

of_string-to_string_example : of_string (to_string large) ≡ ok large
of_string-to_string_example = of_string-to_string large large-IsInteger

magnitude_divmod-Quotient_example :
    (qr : List ℕ × List ℕ) × (magnitude_divmod two_limbs full_limb ≡ ok qr)
    × Quotient two_limbs full_limb qr
magnitude_divmod-Quotient_example =
    magnitude_divmod-Quotient two_limbs full_limb two_limbs-IsLimbs full_limb-IsLimbs
      two_limbs-IsTrimmed full_limb-IsTrimmed (omega arith)

value-magnitude_mul_example :
    (value (magnitude_mul two_limbs full_limb) ≡ value two_limbs * value full_limb)
    × IsLimbs (magnitude_mul two_limbs full_limb)
    × IsTrimmed (magnitude_mul two_limbs full_limb)
value-magnitude_mul_example =
    value-magnitude_mul two_limbs full_limb two_limbs-IsLimbs full_limb-IsLimbs

add-IsInteger_example :
    IsInteger (add large limit) × (to_ℤ (add large limit) ≡ to_ℤ large +ℤ to_ℤ limit)
add-IsInteger_example = add-IsInteger large limit large-IsInteger limit-IsInteger

sub-IsInteger_example :
    IsInteger (sub large limit) × (to_ℤ (sub large limit) ≡ to_ℤ large -ℤ to_ℤ limit)
sub-IsInteger_example = sub-IsInteger large limit large-IsInteger limit-IsInteger

mul-IsInteger_example :
    IsInteger (mul large limit) × (to_ℤ (mul large limit) ≡ to_ℤ large *ℤ to_ℤ limit)
mul-IsInteger_example = mul-IsInteger large limit large-IsInteger limit-IsInteger

cmp-to_ℤ_example : cmp large limit ≡ compare_ℤ (to_ℤ large) (to_ℤ limit)
cmp-to_ℤ_example = cmp-to_ℤ large limit large-IsInteger limit-IsInteger

eq_iff_example : (eq large limit ≡ true) ↔ (to_ℤ large ≡ to_ℤ limit)
eq_iff_example = eq_iff large limit large-IsInteger limit-IsInteger

value-magnitude_add_example :
    (value (magnitude_add two_limbs full_limb) ≡ value two_limbs + value full_limb)
    × IsLimbs (magnitude_add two_limbs full_limb)
    × IsTrimmed (magnitude_add two_limbs full_limb)
value-magnitude_add_example =
    value-magnitude_add two_limbs full_limb two_limbs-IsLimbs full_limb-IsLimbs two_limbs-IsTrimmed
      full_limb-IsTrimmed

value-magnitude_sub_example :
    (value (magnitude_sub two_limbs full_limb) + value full_limb ≡ value two_limbs)
    × IsLimbs (magnitude_sub two_limbs full_limb)
    × IsTrimmed (magnitude_sub two_limbs full_limb)
value-magnitude_sub_example =
    value-magnitude_sub two_limbs full_limb two_limbs-IsLimbs full_limb-IsLimbs (omega arith)

compare-value_example :
    magnitude_compare two_limbs full_limb ≡ compare (value two_limbs) (value full_limb)
compare-value_example =
    compare-value two_limbs full_limb two_limbs-IsLimbs full_limb-IsLimbs two_limbs-IsTrimmed
      full_limb-IsTrimmed

div_zero_example : (div large nought ≡ err domain_error) × (rem large nought ≡ err domain_error)
div_zero_example = div_zero large nought nought-IsInteger refl

of_i64-value_example :
    IsInteger (of_i64 (negsuc 9223372036854775807))
    × (to_ℤ (of_i64 (negsuc 9223372036854775807)) ≡ negsuc 9223372036854775807)
of_i64-value_example = of_i64-value (negsuc 9223372036854775807) refl

to_i64-value_example :
    to_i64 large ≡ (if in_i64 (to_ℤ large) then ok (to_ℤ large) else err overflow_error)
to_i64-value_example = to_i64-value large large-IsInteger

to_u64-value_example :
    to_u64 large ≡ (if in_u64 (to_ℤ large) then ok (nat_abs (to_ℤ large)) else err overflow_error)
to_u64-value_example = to_u64-value large large-IsInteger

abbrev minus_twelve : Integer
minus_twelve = record { sign = negative; magnitude = 12 ∷ [] }

reads_minus_twelve : of_string (codes "-0012") ≡ ok minus_twelve
unfolding of_string of_digits scan_digits magnitude_mul10_add mul10_limbs push_carry pop_zeros
    keep_limb normalize_sign
reads_minus_twelve = refl

of_string_sound_example :
    (t : Sign) × (cs : Bytes) × Spelled t cs (codes "-0012")
    × (cs ≢ [])
    × All IsDigit cs
    × IsInteger minus_twelve
    × (to_ℤ minus_twelve ≡ signed t (decimal 0 cs))
of_string_sound_example = of_string_sound (codes "-0012") reads_minus_twelve
