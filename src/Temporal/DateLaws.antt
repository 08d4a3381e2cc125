-- ===== src/Temporal/DateLaws.antt =====
-- `xs:date`: what is parsed is a date of the calendar, and the print of a date is read back.
use xb.Common.{
  ℕ, suc, ◌+◌, ◌/◌, ◌%◌, ◌≤◌, [], ◌∷◌, ◌++◌, append_assoc, length, Option, none, some, All, Bool,
  true, false, leb, ◌==◌, ◌&&◌, ◌≡◌, refl, arith,
}
use xb.Common.Int.{ℤ, pos, negsuc, nat_abs, neg_ℤ, ltb_ℤ}
use xb.Common.Result.{ok, ◌>>=◌, >>=-eq-ok}
use xb.Common.Text.{Bytes, IsDigit, to_string}
use xb.Temporal.Lexical.{parse_digits, format_timezone, year_sign, pad_zeros}
use xb.Temporal.Calendar.{days_in_month, month_days}
use xb.Temporal.Date
use xb.Temporal.Date.{Date, signed_year, read_year, parse_ymd, two_digit_text, year_text, ymd_text}
use xb.Temporal.FracLaws.{NoDigit}
use xb.Temporal.DigitLaws.{
  parse_digits-decimal, two_digits-pair, expect_self, pad_zeros-IsDigit, decimal-pad_zeros,
  le-length-pad_zeros,
}
use xb.Temporal.Instant.{IsMonth, calendar_days_bounds}
use xb.Temporal.YearBounds.{month_days-calendar_days}
use xb.Temporal.ZoneLaws.{IsZone, parse-format_timezone}

year_sign-digit :
    (s rest : Bytes) → 1 ≤ length s → All IsDigit s → year_sign (s ++ rest) ≡ (false, s ++ rest)
unfolding year_sign
year_sign-digit [] rest h d = absurd (omega arith)
year_sign-digit (c ∷ s) rest h d = let digit : (c == b'-') ≡ false = ground arith in rw digit

-- The years that are printed without an overflow: all but -2^31.
abbrev pub IsYear : ℤ → Type 0
IsYear y = nat_abs y ≤ 2147483647

signed_year-pos : (n : ℕ) → n ≤ 2147483647 → signed_year false n ≡ pos n
unfolding signed_year
signed_year-pos n h = ground arith

signed_year-negsuc : (n : ℕ) → suc n ≤ 2147483647 → signed_year true (suc n) ≡ negsuc n
unfolding signed_year neg_ℤ
signed_year-negsuc n h = ground arith

read_unsigned :
    (neg : Bool) (n : ℕ) (rest : Bytes) {y : ℤ}
    → n ≤ 2147483647
    → NoDigit rest
    → signed_year neg n ≡ y
    → ◌>>=◌ {Y = ℤ × Bytes}
        (parse_digits (pad_zeros 4 (to_string n) ++ rest) 4)
        (λ d. ok (signed_year neg d.value, d.rest))
      ≡ ok (y, rest)
read_unsigned neg n rest h d e =
    rw
      (
        parse_digits-decimal (pad_zeros 4 (to_string n)) rest 4 (pad_zeros-IsDigit 4 n) d
            (omega (arith, decimal-pad_zeros 4 n)) (le-length-pad_zeros 4 n),
        decimal-pad_zeros 4 n,
        e,
      )
      refl

-- The print of a year is read back.
read_year-year_text :
    (y : ℤ) (rest : Bytes)
    → IsYear y
    → NoDigit rest
    → read_year (year_text y ++ rest) ≡ ok (y, rest)
unfolding read_year year_text
read_year-year_text (pos n) rest h d =
    let forward : ltb_ℤ (pos n) (pos 0) ≡ false = ground arith in
    let long : 1 ≤ length (pad_zeros 4 (to_string n)) = omega (arith, le-length-pad_zeros 4 n) in
    rw (forward, year_sign-digit (pad_zeros 4 (to_string n)) rest long (pad_zeros-IsDigit 4 n))
      (read_unsigned false n rest h d (signed_year-pos n h))
read_year-year_text (negsuc n) rest h d =
    let backward : ltb_ℤ (negsuc n) (pos 0) ≡ true = ground arith in
    rw backward (unfold year_sign in read_unsigned true (suc n) rest h d (signed_year-negsuc n h))

-- The fields of a date that the constructors accept.
pub record IsYmd (year : ℤ) (month day : ℕ) : Type 0 where
  pub year_fits : IsYear year
  pub is_month : IsMonth month
  pub first : 1 ≤ day
  pub last : day ≤ month_days year month

days_in_month-month : (y : ℤ) (mo : ℕ) → IsMonth mo → days_in_month y mo ≡ ok (month_days y mo)
unfolding days_in_month
days_in_month-month y mo h = ground arith

-- The print of a date is read back, up to what follows it.
pub parse_ymd-ymd_text :
    (y : ℤ) (mo d : ℕ) (rest : Bytes)
    → IsYmd y mo d
    → NoDigit rest
    → parse_ymd (ymd_text y mo d ++ rest) ≡ ok (y, mo, d, rest)
unfolding parse_ymd ymd_text two_digit_text
parse_ymd-ymd_text y mo d rest v h =
    let after_month = b'-' ∷ (b'0' + d / 10) ∷ (b'0' + d % 10) ∷ rest in
    let after_year = b'-' ∷ (b'0' + mo / 10) ∷ (b'0' + mo % 10) ∷ after_month in
    let month_ok : leb 1 mo && leb mo 12 ≡ true = ground arith in
    let day_ok : leb 1 d && leb d (month_days y mo) ≡ true = ground arith in
    rw append_assoc (
      rw
        (
          read_year-year_text y after_year v.year_fits refl,
          expect_self b'-' _,
          two_digits-pair mo after_month (omega (arith, v.is_month)) refl,
          month_ok,
          expect_self b'-' _,
          two_digits-pair d rest
              (omega (arith, v.last, month_days-calendar_days y mo, calendar_days_bounds y mo)) h,
          days_in_month-month y mo v.is_month,
          day_ok,
        )
        refl)

of_string-parse_date : (s : Bytes) {t : Date} → Date.parse_date s ≡ ok t → Date.of_string s ≡ ok t
unfolding Date.of_string
of_string-parse_date [] e = absurd (nothing e)
  where
    nothing : {t : Date} → Date.parse_date [] ≡ ok t → ⊥
    nothing e = unfold Date.parse_date parse_ymd read_year year_sign parse_digits in cc
of_string-parse_date (c ∷ s) e = e

pub zone-NoDigit : (tz : Option ℤ) → NoDigit (format_timezone tz)
unfolding format_timezone
zone-NoDigit none = tt
zone-NoDigit (some z) = ground arith

-- A date as the constructors leave it: of the calendar, with an offset of at most 14 hours.
pub record IsDay (t : Date) : Type 0 where
  pub ymd : IsYmd t.year t.month t.day
  pub zone : IsZone t.tz_offset_minutes

-- The constructor of `date` from a text accepts what `to_string` prints of a date (a year of
-- absolute value below 2^31, a day of the calendar, an offset of at most 14 hours or none), and
-- returns the same fields.
pub date-of_string-to_text : (t : Date) → IsDay t → Date.of_string (Date.to_text t) ≡ ok t
unfolding Date.to_text
date-of_string-to_text t v =
    let z = parse-format_timezone t.tz_offset_minutes v.zone in
    of_string-parse_date (ymd_text t.year t.month t.day ++ format_timezone t.tz_offset_minutes) (
      unfold Date.parse_date in
      rw
        (
          parse_ymd-ymd_text t.year t.month t.day (format_timezone t.tz_offset_minutes) v.ymd
              (zone-NoDigit t.tz_offset_minutes),
          z.parsed,
          z.all,
          z.offset,
        )
        refl)

parse_ymd_sound :
    (s : Bytes) {y : ℤ} {mo d : ℕ} {rest : Bytes}
    → parse_ymd s ≡ ok (y, mo, d, rest)
    → IsMonth mo × (1 ≤ d) × (d ≤ month_days y mo)
unfolding parse_ymd days_in_month
parse_ymd_sound s e = ground arith

-- A text that is accepted is a date of the calendar.
pub date-of_string-IsMonth :
    (s : Bytes) {t : Date}
    → Date.of_string s ≡ ok t
    → IsMonth t.month × (1 ≤ t.day) × (t.day ≤ month_days t.year t.month)
unfolding Date.of_string Date.parse_date
date-of_string-IsMonth [] e = cc
date-of_string-IsMonth (c ∷ s) e =
    let (r, p, q) = >>=-eq-ok (parse_ymd (c ∷ s)) _ e in
    let h = parse_ymd_sound (c ∷ s) p in ground (arith, h)
