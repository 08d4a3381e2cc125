-- ===== src/Duration/FullLaws.antt =====
-- A `duration` by its parts: the accessors, the parts and the negation.
use xb.Common.{
  ℕ, zero, suc, ◌+◌, ◌*◌, ◌/◌, ◌%◌, ◌≤◌, ◌<◌, Bool, true, false, not, ltb, ◌==◌, ◌&&◌, ◌≡◌, refl,
  arith, ap,
}
use xb.Common.Int.{pos, pos_part, neg_part, ◌+ℤ◌, ◌*ℤ◌, eqb_ℤ}
use xb.Common.Casts.{tdiv, tmod}
use xb.Common.Result.{ok}
use xb.Duration.Scan.{checked_i32}
use xb.Duration.YearMonth
use xb.Duration.YearMonth.{YearMonth, of_years_months, signed}
use xb.Duration.Months.{IsYearMonth, months}
use xb.Duration.Full
use xb.Duration.Full.{Duration, zero_totals, year_month_part}

-- What the parser and the negation leave: parts in the ranges of their types, and no negative zero.
pub record IsDuration (t : Duration) : Type 0 where
  pub month_count : ℕ
  pub is_month_count : t.total_months ≡ pos month_count
  pub months_fit : month_count ≤ 2147483647
  pub seconds_fit : t.total_seconds ≤ 9223372036854775807
  pub nanoseconds_fit : t.nanoseconds < 1000000000
  pub no_negative_zero : t.negative ≡ true → 1 ≤ month_count + t.total_seconds + t.nanoseconds

-- The accessors of a duration recompose its seconds, each below the next unit.
pub clock_parts :
    (t : Duration)
    → (t.total_seconds
        ≡ Full.days t * 86400 + Full.hours t * 3600 + Full.minutes t * 60 + Full.seconds t)
      × (Full.hours t < 24)
      × (Full.minutes t < 60)
      × (Full.seconds t < 60)
unfolding Full.days Full.hours Full.minutes Full.seconds
clock_parts t = (omega arith, omega arith, omega arith, omega arith)

-- Negation twice is the duration itself, and the negation of a duration is one.
pub neg-neg : (t : Duration) → IsDuration t → Full.neg (Full.neg t) ≡ t
unfolding Full.neg zero_totals
neg-neg t v =
    let sign : (not (zero_totals t.total_months t.total_seconds t.nanoseconds)
          && not (not (zero_totals t.total_months t.total_seconds t.nanoseconds) && not t.negative))
        ≡ t.negative =
      ground (arith, ap pos_part v.is_month_count, ap neg_part v.is_month_count) in
    λ i. record {
      negative = sign i;
      total_months = t.total_months;
      total_seconds = t.total_seconds;
      nanoseconds = t.nanoseconds;
    }

of_years_months-split :
    (n : ℕ) → n ≤ 2147483647 → of_years_months (pos (n / 12)) (pos (n % 12)) ≡ ok (months false n)
unfolding of_years_months checked_i32 ◌+ℤ◌ ◌*ℤ◌
of_years_months-split n h =
    let product : pos (n / 12) *ℤ pos 12 ≡ pos (n / 12 * 12) = ground arith in
    let total : pos (n / 12 * 12) +ℤ pos (n % 12) ≡ pos n = ground arith in
    let small : ltb 2147483647 (n / 12 * 12) ≡ false = ground arith in
    let fits : ltb 2147483647 n ≡ false = ground arith in rw (product, small, total, fits)

neg_months_false : (n : ℕ) → (n == 0) ≡ false → YearMonth.neg (months false n) ≡ months true n
unfolding YearMonth.neg YearMonth.not_zero
neg_months_false n e = rw e

-- The months of a duration, with its sign unless they are 0.
abbrev pub months_of : Duration → YearMonth
months_of t = record {
  negative = t.negative && not (eqb_ℤ t.total_months (pos 0));
  total_months = t.total_months;
}

year_month_parts :
    (b : Bool) (n s f : ℕ)
    → n ≤ 2147483647
    → year_month_part
        (record { negative = b; total_months = pos n; total_seconds = s; nanoseconds = f })
      ≡ ok (months (b && not (eqb_ℤ (pos n) (pos 0))) n)
unfolding year_month_part tdiv tmod
year_month_parts b zero s f h = ground arith
year_month_parts true (suc n) s f h =
    let some : (suc n == 0) ≡ false = ground arith in
    rw (some, of_years_months-split (suc n) h, neg_months_false (suc n) some) refl
year_month_parts false (suc n) s f h =
    let some : (suc n == 0) ≡ false = ground arith in
    rw (some, of_years_months-split (suc n) h) refl

months_sign :
    (b : Bool) (n : ℕ) → n ≤ 2147483647 → IsYearMonth (months (b && not (eqb_ℤ (pos n) (pos 0))) n)
months_sign b n h = record {
  magnitude = n;
  is_magnitude = refl;
  fits = h;
  no_negative_zero = λ e. ground arith;
}

-- The year and month part of a well-formed duration is a well-formed `year_month_duration` of its
-- months, with its sign unless the months are 0.
pub year_month_part_lem :
    (t : Duration)
    → IsDuration t
    → (year_month_part t ≡ ok (months_of t)) × IsYearMonth (months_of t)
year_month_part_lem t v =
    let e : t ≡ record {
      negative = t.negative;
      total_months = pos v.month_count;
      total_seconds = t.total_seconds;
      nanoseconds = t.nanoseconds;
    } =
      λ i. record {
        negative = t.negative;
        total_months = v.is_month_count i;
        total_seconds = t.total_seconds;
        nanoseconds = t.nanoseconds;
      } in
    rw e (
      year_month_parts t.negative v.month_count t.total_seconds t.nanoseconds v.months_fit,
      months_sign t.negative v.month_count v.months_fit,
    )
