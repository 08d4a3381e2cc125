-- ===== src/Temporal/Time.antt =====
-- src/lib/time.cpp: parsing, printing and equality of `xs:time`.
use xb.Common.{
  ℕ, [], ◌∷◌, ◌++◌, length, Option, none, some, Bool, false, not, ltb, leb, ◌==◌, ◌&&◌, ◌||◌,
  if◌then◌else◌,
}
use xb.Common.Int.{ℤ, pos}
use xb.Common.Result.{Result, ok, err, ◌>>=◌, ◌>>◌, require, invalid_argument}
use xb.Common.Text.{Bytes}
use xb.Temporal.Lexical.{
  parse_timezone, format_timezone, parse_fractional_seconds, format_fractional_seconds, expect,
  digit_pair, drop, is_end,
}
use xb.Temporal.Calendar.{UtcNormalized, normalize_to_utc}
use xb.Temporal.Date.{two_digit_text}

pub record Time : Type 0 where
  pub hour : ℕ
  pub minute : ℕ
  pub second : ℕ
  pub nanosecond : ℕ
  pub tz_offset_minutes : Option ℤ

-- `pos < str.size() && str[pos] == '.'`
unfoldable pub starts_fraction : Bytes → Bool
starts_fraction [] = false
starts_fraction (c ∷ s) = c == b'.'

-- The tests of hour, minute and second; the text is what follows them. 24:00:00 becomes 00:00:00.
unfoldable pub check_clock : ℕ → ℕ → ℕ → Bytes → Result ℕ
check_clock hour minute second s = do
  h ←
      if hour == 24
      then if not (minute == 0) || not (second == 0) || starts_fraction s
        then err invalid_argument
        else ok 0
      else if ltb 23 hour
      then err invalid_argument
      else ok hour
  require (leb minute 59) invalid_argument
  require (leb second 59) invalid_argument
  ok h

-- `hh:mm:ss`, with what follows
unfoldable pub parse_clock : Bytes → Result (ℕ × ℕ × ℕ × Bytes)
parse_clock s = do
  h ← digit_pair s
  s1 ← expect b':' h.1
  m ← digit_pair s1
  s2 ← expect b':' m.1
  sec ← digit_pair s2
  ok (h.0, m.0, sec.0, sec.1)

-- `time(std::string_view)`, with `parse_time_str`
unfoldable pub of_string : Bytes → Result Time
of_string s = do
  require (leb 8 (length s)) invalid_argument
  c ← parse_clock s
  hour ← check_clock c.0 c.1 c.2 c.3
  let frac = parse_fractional_seconds c.3
  let rest = drop frac.consumed c.3
  tz ← parse_timezone rest
  require (is_end (drop tz.consumed rest)) invalid_argument
  ok (record {
    hour = hour;
    minute = c.1;
    second = c.2;
    nanosecond = frac.nanos;
    tz_offset_minutes = tz.offset_minutes;
  })

unfoldable pub clock_text : ℕ → ℕ → ℕ → Bytes
clock_text hour minute second =
    two_digit_text hour ++ b':' ∷ (two_digit_text minute ++ b':' ∷ two_digit_text second)

unfoldable pub to_text : Time → Bytes
to_text t =
    clock_text t.hour t.minute t.second
    ++ (format_fractional_seconds t.nanosecond ++ format_timezone t.tz_offset_minutes)

-- The time on the reference date 2000-01-01, normalized.
unfoldable pub time_utc : Time → ℤ → Result UtcNormalized
time_utc t tz = normalize_to_utc (pos 2000) 1 1 t.hour t.minute t.second t.nanosecond tz

unfoldable pub same_clock : UtcNormalized → UtcNormalized → Bool
same_clock a b =
    a.hour == b.hour && a.minute == b.minute && a.second == b.second && a.nanosecond == b.nanosecond

-- `operator==`
unfoldable pub eq_zoned : Time → Time → Option ℤ → Option ℤ → Result Bool
eq_zoned s t none none = ok (
    s.hour == t.hour
    && s.minute == t.minute
    && s.second == t.second
    && s.nanosecond == t.nanosecond)
eq_zoned s t none (some b) = ok false
eq_zoned s t (some a) none = ok false
eq_zoned s t (some a) (some b) = do l ← time_utc s a; r ← time_utc t b; ok (same_clock l r)

unfoldable pub eq : Time → Time → Result Bool
unfolding eq_zoned
eq s t = eq_zoned s t s.tz_offset_minutes t.tz_offset_minutes
