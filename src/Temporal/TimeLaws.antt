-- ===== src/Temporal/TimeLaws.antt =====
-- `xs:time`: the print of a time is read back, and what is parsed is a time of the day.
use xb.Common.{ℕ, ◌≤◌, ◌<◌, ◌++◌, length, Option, none, some, true, leb, ◌≡◌, refl, arith}
use xb.Common.Int.{ℤ}
use xb.Common.Result.{ok}
use xb.Common.Text.{Bytes}
use xb.Temporal.Lexical.{format_timezone, format_fractional_seconds}
use xb.Temporal.Date.{two_digit_text}
use xb.Temporal.Time
use xb.Temporal.Time.{Time, starts_fraction, check_clock, parse_clock, clock_text}
use xb.Temporal.FracLaws.{AfterFraction, parse-format_fractional_seconds}
use xb.Temporal.DigitLaws.{digit_pair-pair, expect_self}
use xb.Temporal.ZoneLaws.{IsZone, parse-format_timezone}

-- The clock's print is read back, up to what follows it.
pub parse_clock-clock_text :
    (h m s : ℕ) (rest : Bytes)
    → h < 100
    → m < 100
    → s < 100
    → parse_clock (clock_text h m s ++ rest) ≡ ok (h, m, s, rest)
unfolding parse_clock clock_text two_digit_text
parse_clock-clock_text h m s rest hh hm hs =
    rw
      (
        digit_pair-pair h _ hh,
        expect_self b':' _,
        digit_pair-pair m _ hm,
        expect_self b':' _,
        digit_pair-pair s rest hs,
      )
      refl

-- A time of the day with a fraction below a second.
pub record IsClock (hour minute second nanosecond : ℕ) : Type 0 where
  pub hour_fits : hour < 24
  pub minute_fits : minute < 60
  pub second_fits : second < 60
  pub nanosecond_fits : nanosecond < 1000000000

pub check_clock-IsClock :
    (h m s n : ℕ) (rest : Bytes) → IsClock h m s n → check_clock h m s rest ≡ ok h
unfolding check_clock
check_clock-IsClock h m s n rest v = ground arith

pub zone-AfterFraction : (tz : Option ℤ) → AfterFraction (format_timezone tz)
unfolding format_timezone
zone-AfterFraction none = tt
zone-AfterFraction (some z) = ground arith

pub record IsTime (t : Time) : Type 0 where
  pub clock : IsClock t.hour t.minute t.second t.nanosecond
  pub zone : IsZone t.tz_offset_minutes

pub length-clock_text : (h m s : ℕ) (rest : Bytes) → 8 ≤ length (clock_text h m s ++ rest)
unfolding clock_text two_digit_text
length-clock_text h m s rest = omega arith

-- The constructor of `time` from a text accepts what `to_string` prints of a time (a clock below
-- 24:00:00, nanoseconds below a second, an offset of at most 14 hours or none), and returns the
-- same fields.
pub time-of_string-to_text : (t : Time) → IsTime t → Time.of_string (Time.to_text t) ≡ ok t
unfolding Time.of_string Time.to_text
time-of_string-to_text t v =
    let zone = format_timezone t.tz_offset_minutes in
    let rest = format_fractional_seconds t.nanosecond ++ zone in
    let long : leb 8 (length (clock_text t.hour t.minute t.second ++ rest)) ≡ true =
      ground (arith, length-clock_text t.hour t.minute t.second rest) in
    let (nanos, dropped) =
      parse-format_fractional_seconds t.nanosecond zone v.clock.nanosecond_fits
        (zone-AfterFraction t.tz_offset_minutes) in
    let z = parse-format_timezone t.tz_offset_minutes v.zone in
    rw
      (
        long,
        parse_clock-clock_text t.hour t.minute t.second rest (omega (arith, v.clock))
            (omega (arith, v.clock)) (omega (arith, v.clock)),
        check_clock-IsClock t.hour t.minute t.second t.nanosecond rest v.clock,
        dropped,
        nanos,
        z.parsed,
        z.all,
        z.offset,
      )
      refl

pub check_clock_sound :
    (h m s : ℕ) (rest : Bytes) {hour : ℕ}
    → check_clock h m s rest ≡ ok hour
    → (hour < 24) × (m < 60) × (s < 60)
unfolding check_clock
check_clock_sound h m s rest e = ground arith
