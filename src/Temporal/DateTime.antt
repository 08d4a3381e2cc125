-- ===== src/Temporal/DateTime.antt =====
-- src/lib/date_time.cpp: parsing, printing and equality of `xs:dateTime`.
use xb.Common.{
  ℕ, ◌+◌, ◌∷◌, ◌++◌, length, Option, none, some, Bool, false, ltb, leb, ◌==◌, ◌&&◌, if◌then◌else◌,
}
use xb.Common.Int.{ℤ, pos, ◌+ℤ◌, eqb_ℤ}
use xb.Common.Result.{Result, ok, ◌>>=◌, ◌>>◌, require, invalid_argument}
use xb.Common.Text.{Bytes}
use xb.Temporal.Lexical.{
  parse_timezone, format_timezone, parse_fractional_seconds, format_fractional_seconds, expect,
  drop, is_end,
}
use xb.Temporal.Calendar.{month_days, checked_year, UtcNormalized, normalize_to_utc}
use xb.Temporal.Date
use xb.Temporal.Date.{Date, parse_ymd, ymd_text}
use xb.Temporal.Time
use xb.Temporal.Time.{Time, parse_clock, check_clock, clock_text, same_clock}

pub record DateTime : Type 0 where
  pub year : ℤ
  pub month : ℕ
  pub day : ℕ
  pub hour : ℕ
  pub minute : ℕ
  pub second : ℕ
  pub nanosecond : ℕ
  pub tz_offset_minutes : Option ℤ

-- The next day of the calendar, for 24:00:00.
unfoldable pub roll_day : ℤ → ℕ → ℕ → Result (ℤ × ℕ × ℕ)
roll_day year month day =
    let first = checked_year (year +ℤ pos 1) >>= λ y. ok (y, 1, 1) in
    if ltb (month_days year month) (day + 1)
    then if ltb 12 (month + 1) then first else ok (year, month + 1, 1)
    else ok (year, month, day + 1)

-- `date_time(std::string_view)`, with `parse_date_time_str`. `date_time.cpp` reads the date and the
-- clock as `date.cpp` and `time.cpp` do, but for the messages of its exceptions.
unfoldable pub of_string : Bytes → Result DateTime
of_string s = do
  require (leb 19 (length s)) invalid_argument
  ymd ← parse_ymd s
  s1 ← expect b'T' ymd.3
  c ← parse_clock s1
  hour ← check_clock c.0 c.1 c.2 c.3
  let frac = parse_fractional_seconds c.3
  let rest = drop frac.consumed c.3
  tz ← parse_timezone rest
  require (is_end (drop tz.consumed rest)) invalid_argument
  date ← if c.0 == 24 then roll_day ymd.0 ymd.1 ymd.2 else ok (ymd.0, ymd.1, ymd.2)
  ok (record {
    year = date.0;
    month = date.1;
    day = date.2;
    hour = hour;
    minute = c.1;
    second = c.2;
    nanosecond = frac.nanos;
    tz_offset_minutes = tz.offset_minutes;
  })

unfoldable pub to_text : DateTime → Bytes
to_text t =
    ymd_text t.year t.month t.day
    ++ b'T'
      ∷ (clock_text t.hour t.minute t.second
          ++ (format_fractional_seconds t.nanosecond ++ format_timezone t.tz_offset_minutes))

unfoldable pub date_part : DateTime → Result Date
date_part t = Date.make t.year t.month t.day t.tz_offset_minutes

-- `time_part` prints the time and parses it again.
unfoldable pub time_part : DateTime → Result Time
time_part t = Time.of_string (
    clock_text t.hour t.minute t.second
    ++ (format_fractional_seconds t.nanosecond ++ format_timezone t.tz_offset_minutes))

unfoldable pub date_time_utc : DateTime → ℤ → Result UtcNormalized
date_time_utc t tz = normalize_to_utc t.year t.month t.day t.hour t.minute t.second t.nanosecond tz

-- `operator==`
unfoldable pub eq_zoned : DateTime → DateTime → Option ℤ → Option ℤ → Result Bool
eq_zoned s t none none = ok (
    eqb_ℤ s.year t.year
    && s.month == t.month
    && s.day == t.day
    && s.hour == t.hour
    && s.minute == t.minute
    && s.second == t.second
    && s.nanosecond == t.nanosecond)
eq_zoned s t none (some b) = ok false
eq_zoned s t (some a) none = ok false
eq_zoned s t (some a) (some b) = do
  l ← date_time_utc s a
  r ← date_time_utc t b
  ok (Date.same_ymd l r && same_clock l r)

unfoldable pub eq : DateTime → DateTime → Result Bool
unfolding eq_zoned
eq s t = eq_zoned s t s.tz_offset_minutes t.tz_offset_minutes
