-- ===== src/Temporal/DateTimeLaws.antt =====
-- `xs:dateTime`: the print is read back, and equality with offsets is equality of instants.
use xb.Common.{
  ℕ, suc, ◌+◌, ◌≤◌, ◌<◌, [], ◌∷◌, ◌++◌, length, length-append, none, some, true, false, ltb, leb,
  ◌==◌, if◌then◌else◌, ◌≡◌, ◌∙◌, refl, arith, Bool-cases, inl, inr, ltb→lt, ltb→le,
}
use xb.Common.Int.{ℤ, nat_abs, ltb_ℤ, pos, negsuc, ◌+ℤ◌, ◌≤ℤ◌, int_laws}
use xb.Common.Result.{ok}
use xb.Common.Text.{Bytes, to_string}
use xb.Temporal.Lexical.{pad_zeros, format_timezone, format_fractional_seconds}
use xb.Temporal.Calendar.{month_days, total_minutes}
use xb.Temporal.Date.{ymd_text, year_text, two_digit_text}
use xb.Temporal.Time.{clock_text}
use xb.Temporal.DateTime
use xb.Temporal.DateTime.{DateTime, roll_day}
use xb.Temporal.FracLaws.{parse-format_fractional_seconds}
use xb.Temporal.DigitLaws.{le-length-pad_zeros, expect_self}
use xb.Temporal.ZoneLaws.{IsZone, parse-format_timezone}
use xb.Temporal.Instant.{
  IsMonth, day_number, calendar_days_bounds, month_start_next, year_start_next, year_length,
}
use xb.Temporal.Utc.{minutes_at}
use xb.Temporal.Settle.{calendar_days}
use xb.Temporal.YearBounds.{IsInRange, month_days-calendar_days, checked_year-ok, nat_abs-parts}
use xb.Temporal.DateLaws.{IsYmd, parse_ymd-ymd_text}
use xb.Temporal.TimeLaws.{
  IsClock, length-clock_text, parse_clock-clock_text, check_clock-IsClock, zone-AfterFraction,
}

-- The minutes of an instant: those of the local date and time, less the offset.
abbrev pub instant : DateTime → ℤ → ℤ
instant t tz =
    minutes_at (record { y = t.year; mo = t.month; d = pos t.day })
      (total_minutes t.hour t.minute tz)

-- A value whose fields `normalize_to_utc` can take, with the offset.
abbrev pub IsComparable : DateTime → ℤ → Type 0
IsComparable t tz = IsInRange t.year t.month t.day t.hour t.minute tz

-- The values are one instant.
abbrev pub IsSameInstant : DateTime → ℤ → DateTime → ℤ → Type 0
IsSameInstant s a t b =
    (instant s a ≡ instant t b) × (s.second ≡ t.second) × (s.nanosecond ≡ t.nanosecond)

-- One side with an offset and one without are not equal.
pub date_time-eq-mixed :
    (s t : DateTime) (a : ℤ)
    → s.tz_offset_minutes ≡ some a
    → t.tz_offset_minutes ≡ none
    → (DateTime.eq s t ≡ ok false) × (DateTime.eq t s ≡ ok false)
unfolding DateTime.eq DateTime.eq_zoned
date_time-eq-mixed s t a es et = rw (es, et) (refl, refl)

-- The date that `roll_day` returns is the next day of the calendar.
pub record IsNextDay (y : ℤ) (mo d : ℕ) (t : ℤ × ℕ × ℕ) : Type 0 where
  pub number :
      day_number (record { y = t.0; mo = t.1; d = pos t.2 })
      ≡ day_number (record { y = y; mo = mo; d = pos d }) +ℤ pos 1
  pub is_month : IsMonth t.1
  pub first : 1 ≤ t.2
  pub last : t.2 ≤ calendar_days t.0 t.1

roll_in_month :
    (y : ℤ) (mo d : ℕ) → IsMonth mo → d + 1 ≤ calendar_days y mo → IsNextDay y mo d (y, mo, d + 1)
roll_in_month y mo d h fits = record {
  number = unfold day_number in omega int_laws;
  is_month = h;
  first = omega arith;
  last = fits;
}

roll_in_year :
    (y : ℤ) (mo d : ℕ)
    → IsMonth mo
    → d ≡ calendar_days y mo
    → mo < 12
    → IsNextDay y mo d (y, mo + 1, 1)
roll_in_year y mo d h e inside =
    let on : mo + 1 ≡ suc mo = omega arith in
    rw on (record {
      number = unfold day_number in omega (int_laws, month_start_next y mo h.0, e);
      is_month = omega arith;
      first = omega arith;
      last = omega (arith, calendar_days_bounds y (suc mo));
    })

roll_over :
    (y : ℤ) (mo d : ℕ) → mo ≡ 12 → d ≡ calendar_days y mo → IsNextDay y mo d (y +ℤ pos 1, 1, 1)
roll_over y mo d december e = record {
  number =
      unfold day_number in rw (year_start_next y, e, december) (omega (int_laws, year_length y));
  is_month = omega arith;
  first = omega arith;
  last = omega (arith, calendar_days_bounds (y +ℤ pos 1) 1);
}

year_after :
    (y : ℤ) (mo d : ℕ)
    → IsYmd y mo d
    → y ≤ℤ pos 2147483646
    → (negsuc 2147483647 ≤ℤ y +ℤ pos 1) × (y +ℤ pos 1 ≤ℤ pos 2147483647)
year_after y mo d v below =
    (omega (int_laws, nat_abs-parts y, v.year_fits), omega (int_laws, below))

abbrev pub RollsToNextDay : ℤ → ℕ → ℕ → Type 0
RollsToNextDay y mo d = (t : ℤ × ℕ × ℕ) × (roll_day y mo d ≡ ok t) × IsNextDay y mo d t

-- For a date of the calendar with a year from -2147483647 to 2147483646, the day that 24:00:00
-- rolls to is returned without an overflow, has the next number on the day line and is a date of
-- the calendar. The day line has its own leap years and lengths of months.
pub roll_day-IsNextDay :
    (y : ℤ) (mo d : ℕ) → IsYmd y mo d → y ≤ℤ pos 2147483646 → RollsToNextDay y mo d
unfolding roll_day
roll_day-IsNextDay y mo d v below = elim (Bool-cases (ltb (month_days y mo) (d + 1))) [
  | inr fits ↦
      let inside : d + 1 ≤ calendar_days y mo =
        rw (month_days-calendar_days y mo) at (ltb→le (month_days y mo) (d + 1) fits) in
      ((y, mo, d + 1), rw fits refl, roll_in_month y mo d v.is_month inside)
  | inl late ↦
      let at_end : d ≡ month_days y mo =
        omega (arith, v.last, ltb→lt (month_days y mo) (d + 1) late) in
      let end : d ≡ calendar_days y mo = at_end ∙ month_days-calendar_days y mo in
      elim (Bool-cases (ltb 12 (mo + 1))) [
        | inl last ↦
            let december : mo ≡ 12 = omega (arith, v.is_month, ltb→lt 12 (mo + 1) last) in
            let year = checked_year-ok (y +ℤ pos 1) (year_after y mo d v below) in
            ((y +ℤ pos 1, 1, 1), rw (late, last, year) refl, roll_over y mo d december end)
        | inr inside ↦ (
          (y, mo + 1, 1),
          rw (late, inside) refl,
          roll_in_year y mo d v.is_month end (omega (arith, ltb→le 12 (mo + 1) inside)),
        )
      ]
]

-- A date and time as the constructor leaves it.
pub record IsDateTime (t : DateTime) : Type 0 where
  pub ymd : IsYmd t.year t.month t.day
  pub clock : IsClock t.hour t.minute t.second t.nanosecond
  pub zone : IsZone t.tz_offset_minutes

length-ymd_text : (y : ℤ) (mo d : ℕ) → 10 ≤ length (ymd_text y mo d)
unfolding ymd_text year_text two_digit_text
length-ymd_text y mo d =
    let digits : Bytes = pad_zeros 4 (to_string (nat_abs y)) in
    let sign : Bytes = if ltb_ℤ y (pos 0) then b'-' ∷ [] else [] in
    let fields : Bytes = b'-' ∷ (two_digit_text mo ++ b'-' ∷ two_digit_text d) in
    omega (
      arith,
      le-length-pad_zeros 4 (nat_abs y),
      length-append sign digits,
      length-append (sign ++ digits) fields,
    )

-- The constructor of `date_time` from a text accepts what `to_string` prints of a date and time (a
-- year of absolute value below 2^31, a date of the calendar, a clock below 24:00:00, an offset of
-- at most 14 hours or none), and returns the same fields.
pub date_time-of_string-to_text :
    (t : DateTime) → IsDateTime t → DateTime.of_string (DateTime.to_text t) ≡ ok t
unfolding DateTime.of_string DateTime.to_text
date_time-of_string-to_text t v =
    let zone = format_timezone t.tz_offset_minutes in
    let frac = format_fractional_seconds t.nanosecond ++ zone in
    let clock = clock_text t.hour t.minute t.second ++ frac in
    let long : leb 19 (length (ymd_text t.year t.month t.day ++ b'T' ∷ clock)) ≡ true = ground (
      arith,
      length-ymd_text t.year t.month t.day,
      length-append (ymd_text t.year t.month t.day) (b'T' ∷ clock),
      length-clock_text t.hour t.minute t.second frac,
    ) in
    let (nanos, dropped) =
      parse-format_fractional_seconds t.nanosecond zone v.clock.nanosecond_fits
        (zone-AfterFraction t.tz_offset_minutes) in
    let z = parse-format_timezone t.tz_offset_minutes v.zone in
    let early : (t.hour == 24) ≡ false = ground (arith, v.clock) in
    rw
      (
        long,
        parse_ymd-ymd_text t.year t.month t.day (b'T' ∷ clock) v.ymd refl,
        expect_self b'T' clock,
        parse_clock-clock_text t.hour t.minute t.second frac (omega (arith, v.clock))
            (omega (arith, v.clock)) (omega (arith, v.clock)),
        check_clock-IsClock t.hour t.minute t.second t.nanosecond frac v.clock,
        dropped,
        nanos,
        z.parsed,
        z.all,
        early,
        z.offset,
      )
      refl
