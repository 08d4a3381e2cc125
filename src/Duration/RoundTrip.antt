-- ===== src/Duration/RoundTrip.antt =====
-- The print of a `duration` is read back as the duration.
use xb.Common.{
  ℕ, ◌+◌, ◌*◌, ◌/◌, ◌%◌, ◌≤◌, ◌<◌, [], ◌∷◌, ◌++◌, Bool, true, false, not, ltb, ◌&&◌, ◌||◌, ◌≡◌,
  refl, sym, arith, ap, Bool-cases, inl, inr,
}
use xb.Common.Int.{pos, ltb_ℤ}
use xb.Common.Casts.{tdiv, tmod}
use xb.Common.Result.{Result, ok}
use xb.Common.Text
use xb.Common.Text.{Bytes}
use xb.Temporal.Lexical.{format_fractional_seconds, is_end}
use xb.Temporal.DigitLaws.{expect_self}
use xb.Duration.Scan.{starts_digit, int_text}
use xb.Duration.MonthsText.{minus_sign-print, i32-pos}
use xb.Duration.Full
use xb.Duration.Full.{
  Duration, Totals, date_ends, time_portion, read_totals, zero_totals, parse_duration_str,
  field_text, seconds_text, time_text, fields_text, date_loop, time_loop,
}
use xb.Duration.FullLaws.{IsDuration}
use xb.Duration.FullText.{state, run_date, run_time, date_portion, time_fields}

is_end-append : (s t : Bytes) → is_end t ≡ false → is_end (s ++ t) ≡ false
is_end-append [] t h = h
is_end-append (c ∷ s) t h = refl

abbrev found_of : Result Totals → Bool
found_of (ok t) = t.found
found_of _ = true

-- Text in which a loop finds a field is not empty.
found_time :
    (s : Bytes) (m d n f : ℕ)
    → run_time (state false m d 0 s) ≡ ok (state true m n f [])
    → is_end s ≡ false
unfolding time_loop starts_digit
found_time [] m d n f e = sym (ap found_of e)
found_time (c ∷ s) m d n f e = refl

found_date :
    (s : Bytes) (m d : ℕ)
    → run_date (state false 0 0 0 s) ≡ ok (state true m d 0 [])
    → is_end s ≡ false
unfolding date_loop date_ends
found_date [] m d e = sym (ap found_of e)
found_date (c ∷ s) m d e = refl

abbrev date_text : ℕ → ℕ → ℕ → Bytes → Bytes
date_text y mo d tail =
    field_text (pos y) b'Y' ++ (field_text (pos mo) b'M' ++ (field_text (pos d) b'D' ++ tail))

with_time :
    (y mo d h mi s nanos : ℕ)
    → y * 12 + mo ≤ 2147483647
    → d * 86400 + h * 3600 + mi * 60 + s ≤ 9223372036854775807
    → nanos < 1000000000
    → read_totals (date_text y mo d (b'T' ∷ time_text h mi s nanos))
      ≡ ok (state true (y * 12 + mo) (d * 86400 + h * 3600 + mi * 60 + s) nanos [])
unfolding read_totals time_portion date_ends
with_time y mo d h mi s nanos months seconds fits =
    let tail = b'T' ∷ time_text h mi s nanos in
    let dates = date_portion y mo d tail months (omega arith) refl in
    let times = time_fields h mi s nanos (y * 12 + mo) (d * 86400) fits seconds in
    let more = found_time (time_text h mi s nanos) (y * 12 + mo) (d * 86400) _ nanos times in
    let some : is_end (date_text y mo d tail) ≡ false = is_end-append (field_text (pos y) b'Y') _ (
      is_end-append (field_text (pos mo) b'M') _
        (is_end-append (field_text (pos d) b'D') tail refl)) in
    rw (some, dates, more, times) refl

without_time :
    (y mo d : ℕ)
    → y * 12 + mo ≤ 2147483647
    → d * 86400 ≤ 9223372036854775807
    → (ltb 0 y || ltb 0 mo || ltb 0 d) ≡ true
    → read_totals (date_text y mo d []) ≡ ok (state true (y * 12 + mo) (d * 86400) 0 [])
unfolding read_totals time_portion date_ends
without_time y mo d months seconds found =
    let dates = date_portion y mo d [] months seconds refl in
    let some : is_end (date_text y mo d []) ≡ false =
      found_date (date_text y mo d []) (y * 12 + mo) (d * 86400) (rw found at dates) in
    rw (some, dates, found) refl

zero_time : time_text 0 0 0 0 ≡ b'0' ∷ b'S' ∷ []
unfolding time_text field_text seconds_text int_text format_fractional_seconds Text.to_string
    Text.digits
zero_time = refl

all_zero :
    (a b c e : ℕ)
    → (ltb 0 a || ltb 0 b || ltb 0 c || ltb 0 e) ≡ false
    → (a ≡ 0) × (b ≡ 0) × (c ≡ 0) × (e ≡ 0)
all_zero a b c e h = ground arith

positive :
    (y mo d : ℕ)
    → (ltb_ℤ (pos 0) (pos y) || ltb_ℤ (pos 0) (pos mo) || ltb 0 d)
      ≡ (ltb 0 y || ltb 0 mo || ltb 0 d)
positive y mo d = ground arith

-- Which of the two a print is; a duration of 0 is printed with a time of 0 seconds.
read_print :
    (y mo d r nanos : ℕ)
    → y * 12 + mo ≤ 2147483647
    → d * 86400 + r ≤ 9223372036854775807
    → r < 86400
    → nanos < 1000000000
    → read_totals (fields_text (pos y) (pos mo) d r nanos)
      ≡ ok (state true (y * 12 + mo) (d * 86400 + r) nanos [])
unfolding fields_text
read_print y mo d r nanos months seconds day fits =
    let h = r / 3600 in
    let mi = r % 3600 / 60 in
    let s = r % 3600 % 60 in
    let sum : d * 86400 + h * 3600 + mi * 60 + s ≡ d * 86400 + r = omega arith in
    elim (Bool-cases (ltb 0 h || ltb 0 mi || ltb 0 s || ltb 0 nanos)) [
      | inl time ↦ rw time (rw sum at (with_time y mo d h mi s nanos months (omega arith) fits))
      | inr no_time ↦
          let zeros = all_zero h mi s nanos no_time in
          let total : d * 86400 + r ≡ d * 86400 = omega (arith, zeros) in
          elim (Bool-cases (ltb 0 y || ltb 0 mo || ltb 0 d)) [
            | inl date ↦
                rw (no_time, positive y mo d, date, zeros.3, total)
                  (without_time y mo d months (omega arith) date)
            | inr nothing ↦
                let none : d * 86400 + 0 * 3600 + 0 * 60 + 0 ≡ d * 86400 = omega arith in
                rw (no_time, positive y mo d, nothing, zeros.3, total, sym zero_time)
                  (rw none at (with_time y mo d 0 0 0 0 months (omega arith) (omega arith)))
          ]
    ]

abbrev with_parts : Bool → ℕ → ℕ → ℕ → Duration
with_parts b n s f = record {
  negative = b;
  total_months = pos n;
  total_seconds = s;
  nanoseconds = f;
}

keeps_sign :
    (b : Bool) (n s f : ℕ) → (b ≡ true → 1 ≤ n + s + f) → (b && not (zero_totals (pos n) s f)) ≡ b
unfolding zero_totals
keeps_sign b n s f z = ground arith

parts_parse :
    (b : Bool) (n s f : ℕ)
    → n ≤ 2147483647
    → s ≤ 9223372036854775807
    → f < 1000000000
    → (b ≡ true → 1 ≤ n + s + f)
    → parse_duration_str (Full.to_text (with_parts b n s f)) ≡ ok (with_parts b n s f)
unfolding parse_duration_str Full.to_text tdiv tmod
parts_parse b n s f hn hs hf z =
    let text = fields_text (pos (n / 12)) (pos (n % 12)) (s / 86400) (s % 86400) f in
    let months : n / 12 * 12 + n % 12 ≡ n = omega arith in
    let seconds : s / 86400 * 86400 + s % 86400 ≡ s = omega arith in
    rw
      (
        minus_sign-print b text,
        expect_self b'P' text,
        read_print (n / 12) (n % 12) (s / 86400) (s % 86400) f (omega arith) (omega arith)
            (omega arith) hf,
        months,
        seconds,
        i32-pos n hn,
        keeps_sign b n s f z,
      )
      refl

-- The parser of `duration` accepts what `to_string` prints of a well-formed duration (months of an
-- `int32_t`, seconds of an `int64_t`, nanoseconds below a second, no negative zero), and returns
-- that duration.
pub parse_duration_str-to_text :
    (t : Duration) → IsDuration t → parse_duration_str (Full.to_text t) ≡ ok t
parse_duration_str-to_text t v =
    let e : t ≡ with_parts t.negative v.month_count t.total_seconds t.nanoseconds = λ i. record {
      negative = t.negative;
      total_months = v.is_month_count i;
      total_seconds = t.total_seconds;
      nanoseconds = t.nanoseconds;
    } in
    rw e (
      parts_parse t.negative v.month_count t.total_seconds t.nanoseconds v.months_fit v.seconds_fit
        v.nanoseconds_fit v.no_negative_zero)
