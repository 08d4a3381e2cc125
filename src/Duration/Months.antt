-- ===== src/Duration/Months.antt =====
-- The months of a `year_month_duration`: its operators compute on signed numbers of months, as long
-- as an `int32_t` holds the magnitude of the result.
use xb.Common.{ℕ, zero, suc, ◌≤◌, Bool, true, false, ◌≡◌, ◌↔◌, ◌∙◌, refl, sym, arith, ap, Ordering}
use xb.Common.Int.{
  ℤ, pos, negsuc, pos_part, neg_part, nat_abs, ◌+ℤ◌, ◌-ℤ◌, ◌*ℤ◌, neg_ℤ, ltb_ℤ, int_laws,
  neg_ℤ_parts, eq_of_parts,
}
use xb.Common.Casts.{i32}
use xb.Duration.Scan.{same_bool}
use xb.Duration.YearMonth
use xb.Duration.YearMonth.{YearMonth, not_zero, signed, of_signed, of_months, to_months}

-- What the parser and the operators leave: a magnitude that is not negative and that an `int32_t`
-- holds, and no negative zero.
pub record IsYearMonth (d : YearMonth) : Type 0 where
  pub magnitude : ℕ
  pub is_magnitude : d.total_months ≡ pos magnitude
  pub fits : magnitude ≤ 2147483647
  pub no_negative_zero : d.negative ≡ true → 1 ≤ magnitude

-- The magnitude of a number fits an `int32_t`.
abbrev pub FitsMonths : ℤ → Type 0
FitsMonths n = nat_abs n ≤ 2147483647

i32-pos : (n : ℕ) → n ≤ 2147483647 → i32 (pos n) ≡ pos n
i32-pos n h = ground arith

of_signed-pos :
    (n : ℕ) → of_signed (pos n) ≡ record { negative = false; total_months = i32 (pos n) }
unfolding of_signed
of_signed-pos n = ground arith

of_signed-negsuc :
    (n : ℕ) → of_signed (negsuc n) ≡ record { negative = true; total_months = i32 (pos (suc n)) }
unfolding of_signed neg_ℤ
of_signed-negsuc n = ground arith

signed-false : (n : ℤ) → signed (record { negative = false; total_months = n }) ≡ n
unfolding signed
signed-false n = refl

signed-true : (n : ℕ) → signed (record { negative = true; total_months = pos (suc n) }) ≡ negsuc n
unfolding signed neg_ℤ
signed-true n = ground arith

pub of_signed-IsYearMonth : (n : ℤ) → FitsMonths n → IsYearMonth (of_signed n)
of_signed-IsYearMonth (pos n) h =
    rw (of_signed-pos n, i32-pos n h)
      (record { magnitude = n; is_magnitude = refl; fits = h; no_negative_zero = λ e. cc })
of_signed-IsYearMonth (negsuc n) h =
    rw (of_signed-negsuc n, i32-pos (suc n) h)
      (record {
        magnitude = suc n;
        is_magnitude = refl;
        fits = h;
        no_negative_zero = λ e. omega arith;
      })

pub signed-of_signed : (n : ℤ) → FitsMonths n → signed (of_signed n) ≡ n
signed-of_signed (pos n) h = rw (of_signed-pos n, i32-pos n h) (signed-false (pos n))
signed-of_signed (negsuc n) h = rw (of_signed-negsuc n, i32-pos (suc n) h) (signed-true n)

-- If the absolute value of the sum of the signed months is below 2^31, `operator+` of two values
-- of `year_month_duration` returns a well-formed duration of that sum.
pub add-signed :
    (a b : YearMonth)
    → FitsMonths (signed a +ℤ signed b)
    → IsYearMonth (YearMonth.add a b) × (signed (YearMonth.add a b) ≡ signed a +ℤ signed b)
unfolding YearMonth.add
add-signed a b h =
    (of_signed-IsYearMonth (signed a +ℤ signed b) h, signed-of_signed (signed a +ℤ signed b) h)

-- If the absolute value of the product of the signed months and the factor is below 2^31,
-- `operator*` of a `year_month_duration` and an integer returns a well-formed duration of that
-- product.
pub mul-signed :
    (a : YearMonth) (n : ℤ)
    → FitsMonths (signed a *ℤ n)
    → IsYearMonth (YearMonth.mul a n) × (signed (YearMonth.mul a n) ≡ signed a *ℤ n)
unfolding YearMonth.mul
mul-signed a n h = (of_signed-IsYearMonth (signed a *ℤ n) h, signed-of_signed (signed a *ℤ n) h)

abbrev pub months : Bool → ℕ → YearMonth
months b n = record { negative = b; total_months = pos n }

pub as_months : (d : YearMonth) (v : IsYearMonth d) → d ≡ months d.negative v.magnitude
as_months d v = λ i. record { negative = d.negative; total_months = v.is_magnitude i }

neg_months :
    (b : Bool) (n : ℕ)
    → (b ≡ true → 1 ≤ n)
    → n ≤ 2147483647
    → IsYearMonth (YearMonth.neg (months b n))
      × (signed (YearMonth.neg (months b n)) ≡ neg_ℤ (signed (months b n)))
unfolding YearMonth.neg not_zero signed neg_ℤ
neg_months true zero h k = absurd (omega (arith, h refl))
neg_months true (suc n) h k = (
  record { magnitude = suc n; is_magnitude = refl; fits = k; no_negative_zero = λ e. omega arith },
  ground arith,
)
neg_months false zero h k = (
  record { magnitude = 0; is_magnitude = refl; fits = omega arith; no_negative_zero = λ e. cc },
  ground arith,
)
neg_months false (suc n) h k = (
  record { magnitude = suc n; is_magnitude = refl; fits = k; no_negative_zero = λ e. omega arith },
  ground arith,
)

-- The negation of a duration is a duration of the opposite number of months.
pub neg-signed :
    (d : YearMonth)
    → IsYearMonth d
    → IsYearMonth (YearMonth.neg d) × (signed (YearMonth.neg d) ≡ neg_ℤ (signed d))
neg-signed d v = rw (as_months d v) (neg_months d.negative v.magnitude v.no_negative_zero v.fits)

signed_months_injective :
    (b c : Bool) (m n : ℕ)
    → (b ≡ true → 1 ≤ m)
    → (c ≡ true → 1 ≤ n)
    → signed (months b m) ≡ signed (months c n)
    → (b ≡ c) × (m ≡ n)
unfolding signed neg_ℤ
signed_months_injective true true m n hb hc e =
    (refl, ground (arith, hb refl, hc refl, ap neg_part e))
signed_months_injective false false m n hb hc e = (refl, omega (arith, ap pos_part e))
signed_months_injective true false m n hb hc e = absurd (ground (arith, hb refl, ap neg_part e))
signed_months_injective false true m n hb hc e = absurd (ground (arith, hc refl, ap neg_part e))

-- Two durations with the same number of months are the same object.
pub signed-injective :
    (a b : YearMonth) → IsYearMonth a → IsYearMonth b → signed a ≡ signed b → a ≡ b
signed-injective a b va vb e =
    let same =
      signed_months_injective a.negative b.negative va.magnitude vb.magnitude va.no_negative_zero
        vb.no_negative_zero (sym (ap signed (as_months a va)) ∙ e ∙ ap signed (as_months b vb)) in
    as_months a va ∙ (λ i. months (same.0 i) (same.1 i)) ∙ sym (as_months b vb)

same_bool_iff : (a b : Bool) → (same_bool a b ≡ true) ↔ (a ≡ b)
unfolding same_bool
same_bool_iff a b = ground arith

-- `operator==` holds of the same durations only.
pub months-eq_iff : (a b : YearMonth) → (YearMonth.eq a b ≡ true) ↔ (a ≡ b)
unfolding YearMonth.eq same_bool
months-eq_iff a b = (
  λ e.
      let signs = (same_bool_iff a.negative b.negative).0 (ground arith) in
      let totals : a.total_months ≡ b.total_months = ground arith in
      λ i. record { negative = signs i; total_months = totals i },
  λ e.
      let signs = (same_bool_iff a.negative b.negative).1 (ap (λ (d : YearMonth). d.negative) e) in
      let totals = ap (λ (d : YearMonth). d.total_months) e in
      ground (arith, ap pos_part totals, ap neg_part totals),
)

-- A sign and a magnitude as a number.
abbrev pub number : Bool → ℕ → ℤ
number false n = pos n
number true zero = pos 0
number true (suc n) = negsuc n

signed-number : (b : Bool) (n : ℕ) → signed (months b n) ≡ number b n
unfolding signed neg_ℤ
signed-number false n = refl
signed-number true zero = refl
signed-number true (suc n) = ground arith

-- The number of months that a duration stands for.
abbrev pub value : (d : YearMonth) → IsYearMonth d → ℤ
value d v = number d.negative v.magnitude

signed-value : (d : YearMonth) (v : IsYearMonth d) → signed d ≡ value d v
signed-value d v = ap signed (as_months d v) ∙ signed-number d.negative v.magnitude

-- For well-formed values of `year_month_duration`, `operator<=>` gives less and greater as the
-- numbers of months are ordered that the sign and the magnitude stand for, and equal exactly for
-- the same object.
pub months-cmp_lem :
    (a b : YearMonth) (va : IsYearMonth a) (vb : IsYearMonth b)
    → ((YearMonth.cmp a b ≡ Ordering.lt) ↔ (ltb_ℤ (value a va) (value b vb) ≡ true))
      × ((YearMonth.cmp a b ≡ Ordering.gt) ↔ (ltb_ℤ (value b vb) (value a va) ≡ true))
      × ((YearMonth.cmp a b ≡ Ordering.eq) ↔ (a ≡ b))
unfolding YearMonth.cmp
months-cmp_lem a b va vb =
    rw (← signed-value a va, ← signed-value b vb)
      (
        ground arith,
        ground arith,
        (
          λ e. signed-injective a b va vb (eq_of_parts (signed a) (signed b) (ground arith)),
          λ e. ground (arith, ap pos_part (ap signed e), ap neg_part (ap signed e)),
        ),
      )

-- If the absolute value of the difference of the signed months is below 2^31 and the second
-- operand is well formed, `operator-` of two values of `year_month_duration` returns a well-formed
-- duration of that difference.
pub months-sub-signed :
    (a b : YearMonth)
    → IsYearMonth b
    → FitsMonths (signed a -ℤ signed b)
    → IsYearMonth (YearMonth.sub a b) × (signed (YearMonth.sub a b) ≡ signed a -ℤ signed b)
unfolding YearMonth.sub
months-sub-signed a b vb h =
    let opposite = neg-signed b vb in
    let parts = neg_ℤ_parts (signed b) in
    let e : signed a +ℤ signed (YearMonth.neg b) ≡ signed a -ℤ signed b =
      eq_of_parts (signed a +ℤ signed (YearMonth.neg b)) (signed a -ℤ signed b)
        (omega (int_laws, parts, ap pos_part opposite.1, ap neg_part opposite.1)) in
    let sum = add-signed a (YearMonth.neg b) (rw e h) in (sum.0, sum.1 ∙ e)

i32-fits : (n : ℤ) → FitsMonths n → i32 n ≡ n
i32-fits (pos n) h = i32-pos n h
i32-fits (negsuc n) h = ground arith

signed_months-FitsMonths : (b : Bool) (n : ℕ) → n ≤ 2147483647 → FitsMonths (signed (months b n))
unfolding signed neg_ℤ
signed_months-FitsMonths true zero h = ground arith
signed_months-FitsMonths true (suc n) h = ground arith
signed_months-FitsMonths false n h = h

signed-FitsMonths : (d : YearMonth) → IsYearMonth d → FitsMonths (signed d)
signed-FitsMonths d v = rw (as_months d v) (signed_months-FitsMonths d.negative v.magnitude v.fits)

-- The constructor of `year_month_duration` from `std::chrono::months` gives a well-formed duration
-- back from its conversion.
pub of_months-to_months : (d : YearMonth) → IsYearMonth d → of_months (to_months d) ≡ d
unfolding of_months to_months
of_months-to_months d v =
    let fits = signed-FitsMonths d v in
    rw (i32-fits (signed d) fits) (
      signed-injective (of_signed (signed d)) d (of_signed-IsYearMonth (signed d) fits) v
        (signed-of_signed (signed d) fits))
