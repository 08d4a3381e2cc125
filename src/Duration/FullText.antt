-- ===== src/Duration/FullText.antt =====
-- The print of a `duration` is read back, field by field.
use xb.Common.{
  ℕ, zero, suc, ◌+◌, ◌*◌, ◌≤◌, ◌<◌, [], ◌∷◌, ◌++◌, append_assoc, length, length-append, All, Bool,
  true, false, not, ltb, ◌==◌, ◌||◌, if◌then◌else◌, ◌≡◌, ◌≢◌, ◌∙◌, refl, arith, Bool-cases, inl,
  inr, suc-eq-zero,
}
use xb.Common.Int.{pos, ltb_ℤ}
use xb.Common.Result.{Result, ok}
use xb.Common.Text.{
  Bytes, is_digit, IsDigit, decimal, to_string, decimal-to_string, to_string-IsDigit,
  to_string-ne-nil,
}
use xb.Temporal.Lexical.{parse_digits, format_fractional_seconds}
use xb.Temporal.FracLaws.{NoDigit, parse-format_fractional_seconds}
use xb.Temporal.DigitLaws.{parse_digits-decimal, expect_self}
use xb.Duration.Scan.{starts_digit, checked_i64}
use xb.Duration.MonthsParts.{starts_digit-digits}
use xb.Duration.MonthsText.{int_text-pos}
use xb.Duration.Full.{
  Totals, add_months, add_seconds, date_field, date_ends, date_loop, fraction_field, time_field,
  time_loop, field_text, seconds_text, time_text,
}
use xb.Duration.Fuel.{date_loop-fuel, time_loop-fuel}

checked_i64-fits : (n : ℕ) → n ≤ 9223372036854775807 → checked_i64 n ≡ ok n
unfolding checked_i64
checked_i64-fits n h = ground arith

digits-go-on : (s rest : Bytes) → All IsDigit s → s ≢ [] → date_ends (s ++ rest) ≡ false
unfolding date_ends
digits-go-on [] rest h e = absurd (e refl)
digits-go-on (c ∷ s) rest h e = ground arith

read_number :
    (n : ℕ) (rest : Bytes)
    → n ≤ 9223372036854775807
    → NoDigit rest
    → parse_digits (to_string n ++ rest) 1
      ≡ ok (record { value = n; count = 0 + length (to_string n); rest = rest })
read_number n rest h d =
    let fits : decimal 0 (to_string n) ≤ 9223372036854775807 = omega (arith, decimal-to_string n) in
    let some : 1 ≤ length (to_string n) = nonempty (to_string n) (to_string-ne-nil n) in
    rw (decimal-to_string n) at
      (parse_digits-decimal (to_string n) rest 1 (to_string-IsDigit n) d fits some)
  where
    nonempty : (s : Bytes) → s ≢ [] → 1 ≤ length s
    nonempty [] e = absurd (e refl)
    nonempty (c ∷ s) e = omega arith

-- The state of the parser, by its parts.
abbrev pub state : Bool → ℕ → ℕ → ℕ → Bytes → Totals
state b m s f rest = record { found = b; months = m; seconds = s; nanos = f; rest = rest }

-- One turn of the loop of the date portion, at a number and its designator.
date_turn :
    (f n c : ℕ) (b : Bool) (m s k : ℕ) (rest : Bytes) (u : Totals)
    → n ≤ 9223372036854775807
    → is_digit c ≡ false
    → date_field (state b m s k (to_string n ++ c ∷ rest)) n (c ∷ rest) ≡ ok u
    → date_loop (suc f) (state b m s k (to_string n ++ c ∷ rest)) ≡ date_loop f u
unfolding date_loop
date_turn f n c b m s k rest u h d e =
    rw
      (
        digits-go-on (to_string n) (c ∷ rest) (to_string-IsDigit n) (to_string-ne-nil n),
        starts_digit-digits (to_string n) (c ∷ rest) (to_string-IsDigit n) (to_string-ne-nil n),
        read_number n (c ∷ rest) h d,
        e,
      )
      refl

time_turn :
    (f n c : ℕ) (b : Bool) (m s k : ℕ) (rest : Bytes) (u : Totals)
    → n ≤ 9223372036854775807
    → is_digit c ≡ false
    → time_field (state b m s k (to_string n ++ c ∷ rest)) n (c ∷ rest) ≡ ok u
    → time_loop (suc f) (state b m s k (to_string n ++ c ∷ rest)) ≡ time_loop f u
unfolding time_loop
time_turn f n c b m s k rest u h d e =
    rw
      (
        starts_digit-digits (to_string n) (c ∷ rest) (to_string-IsDigit n) (to_string-ne-nil n),
        read_number n (c ∷ rest) h d,
        e,
      )
      refl

field_text-zero : (c : ℕ) → field_text (pos 0) c ≡ []
unfolding field_text
field_text-zero c = refl

field_text-suc : (n c : ℕ) → field_text (pos (suc n)) c ≡ to_string (suc n) ++ c ∷ []
unfolding field_text
field_text-suc n c =
    let some : ltb_ℤ (pos 0) (pos (suc n)) ≡ true = ground arith in rw (some, int_text-pos (suc n))

-- Fuel for a text: one more than its length.
abbrev pub run_date : Totals → Result Totals
run_date t = date_loop (suc (length t.rest)) t

abbrev pub run_time : Totals → Result Totals
run_time t = time_loop (suc (length t.rest)) t

or_false : (b : Bool) → (b || false) ≡ b
or_false true = refl
or_false false = refl

or_true : (b : Bool) (n : ℕ) → (b || ltb 0 (suc n)) ≡ true
or_true b n = ground arith

shorter : (s rest : Bytes) (c : ℕ) → length rest < length (s ++ c ∷ rest)
shorter s rest c = omega (arith, length-append s (c ∷ rest))

field_text-front :
    (n c : ℕ) (rest : Bytes) → field_text (pos (suc n)) c ++ rest ≡ to_string (suc n) ++ c ∷ rest
field_text-front n c rest = rw (field_text-suc n c) (append_assoc (to_string (suc n)) (c ∷ []) rest)

-- An optional field of the date portion; `e` says what its designator does.
date_optional :
    (n c : ℕ) (b : Bool) (m s k m' s' : ℕ) (rest : Bytes)
    → n ≤ 9223372036854775807
    → is_digit c ≡ false
    → date_field (state b m s k (to_string n ++ c ∷ rest)) n (c ∷ rest)
      ≡ ok (state true m' s' k rest)
    → (n ≡ 0 → (m ≡ m') × (s ≡ s'))
    → run_date (state b m s k (field_text (pos n) c ++ rest))
      ≡ run_date (state (b || ltb 0 n) m' s' k rest)
date_optional zero c b m s k m' s' rest h d e z =
    rw (field_text-zero c, or_false b)
      (λ i. run_date (state b ((z refl).0 i) ((z refl).1 i) k rest))
date_optional (suc n) c b m s k m' s' rest h d e z =
    let digits = to_string (suc n) in
    rw (field_text-front n c rest, or_true b n)
      (date_turn (length (digits ++ c ∷ rest)) (suc n) c b m s k rest (state true m' s' k rest) h d
          e
        ∙ date_loop-fuel (length (digits ++ c ∷ rest)) (suc (length rest)) (state true m' s' k rest)
            (shorter digits rest c) (omega arith))

time_optional :
    (n c : ℕ) (b : Bool) (m s k s' : ℕ) (rest : Bytes)
    → n ≤ 9223372036854775807
    → is_digit c ≡ false
    → time_field (state b m s k (to_string n ++ c ∷ rest)) n (c ∷ rest)
      ≡ ok (state true m s' k rest)
    → (n ≡ 0 → s ≡ s')
    → run_time (state b m s k (field_text (pos n) c ++ rest))
      ≡ run_time (state (b || ltb 0 n) m s' k rest)
time_optional zero c b m s k s' rest h d e z =
    rw (field_text-zero c, or_false b) (λ i. run_time (state b m (z refl i) k rest))
time_optional (suc n) c b m s k s' rest h d e z =
    let digits = to_string (suc n) in
    rw (field_text-front n c rest, or_true b n)
      (time_turn (length (digits ++ c ∷ rest)) (suc n) c b m s k rest (state true m s' k rest) h d e
        ∙ time_loop-fuel (length (digits ++ c ∷ rest)) (suc (length rest)) (state true m s' k rest)
            (shorter digits rest c) (omega arith))

pub date_portion :
    (y mo d : ℕ) (tail : Bytes)
    → y * 12 + mo ≤ 2147483647
    → d * 86400 ≤ 9223372036854775807
    → date_ends tail ≡ true
    → run_date (
        state false 0 0 0 (
          field_text (pos y) b'Y'
          ++ (field_text (pos mo) b'M' ++ (field_text (pos d) b'D' ++ tail))))
      ≡ ok (state (ltb 0 y || ltb 0 mo || ltb 0 d) (y * 12 + mo) (d * 86400) 0 tail)
unfolding date_field add_months add_seconds date_loop
date_portion y mo d tail hm hs ends =
    let after_m = field_text (pos d) b'D' ++ tail in
    let after_y = field_text (pos mo) b'M' ++ after_m in
    let m = 0 + y * 12 in
    let total : 0 + y * 12 + mo ≡ y * 12 + mo = omega arith in
    let all_seconds : 0 + d * 86400 ≡ d * 86400 = omega arith in
    let last : run_date (state (ltb 0 y || ltb 0 mo || ltb 0 d) (m + mo) (0 + d * 86400) 0 tail)
        ≡ ok (state (ltb 0 y || ltb 0 mo || ltb 0 d) (y * 12 + mo) (d * 86400) 0 tail) =
      rw (ends, total, all_seconds) refl in
    date_optional y b'Y' false 0 0 0 m 0 after_y (omega arith) refl
      (rw (checked_i64-fits (0 + y * 12) (omega arith)) refl) (λ e. (omega arith, refl))
    ∙ date_optional mo b'M' (ltb 0 y) m 0 0 (m + mo) 0 after_m (omega arith) refl
        (rw (checked_i64-fits (m + mo) (omega arith)) refl) (λ e. (omega arith, refl))
    ∙ date_optional d b'D' (ltb 0 y || ltb 0 mo) (m + mo) 0 0 (m + mo) (0 + d * 86400) tail
        (omega arith) refl (rw (checked_i64-fits (0 + d * 86400) (omega arith)) refl)
        (λ e. (refl, omega arith))
    ∙ last

-- The text of the seconds, `S` included, by its first character.
seconds_end :
    (nanos : ℕ)
    → nanos < 1000000000
    → (c : ℕ) × (rest : Bytes) × (format_fractional_seconds nanos ++ b'S' ∷ [] ≡ c ∷ rest)
      × (is_digit c ≡ false)
      × ((c == b'H') ≡ false)
      × ((c == b'M') ≡ false)
      × ((c == b'S' || c == b'.') ≡ true)
unfolding format_fractional_seconds
seconds_end zero h = (b'S', [], refl, refl, refl, refl, refl)
seconds_end (suc n) h = rw suc-eq-zero (b'.', _, refl, refl, refl, refl, refl)

fraction_reads :
    (b : Bool) (m s k nanos : ℕ) (r : Bytes)
    → nanos < 1000000000
    → fraction_field (state b m s k r) (format_fractional_seconds nanos ++ b'S' ∷ [])
      ≡ ok (state true m s nanos [])
unfolding fraction_field
fraction_reads b m s k nanos r h =
    let (read, dropped) = parse-format_fractional_seconds nanos (b'S' ∷ []) h (refl, refl) in
    rw (dropped, read, expect_self b'S' []) refl

last_second :
    (b : Bool) (m t s nanos : ℕ)
    → nanos < 1000000000
    → t + s ≤ 9223372036854775807
    → run_time (state b m t 0 (seconds_text s nanos)) ≡ ok (state true m (t + s) nanos [])
unfolding seconds_text time_field add_seconds time_loop starts_digit
last_second b m t s nanos h fits =
    let (c, rest, e, digit, no_h, no_m, ends) = seconds_end nanos h in
    let all = to_string s ++ c ∷ rest in
    let fraction : fraction_field (state true m (t + s) 0 (c ∷ rest)) (c ∷ rest)
        ≡ ok (state true m (t + s) nanos []) =
      rw e at (fraction_reads true m (t + s) 0 nanos (c ∷ rest) h) in
    rw (int_text-pos s, e)
      (time_turn (length all) s c b m t 0 rest (state true m (t + s) nanos []) (omega arith) digit
          (rw (no_h, no_m, ends, checked_i64-fits (t + s) fits) fraction)
        ∙ time_loop-fuel (length all) 1 (state true m (t + s) nanos [])
            (omega (arith, shorter (to_string s) rest c)) (omega arith))

-- The seconds that are printed, or none.
abbrev last_text : ℕ → ℕ → ℕ → ℕ → Bytes
last_text h mi s nanos =
    if ltb 0 s || ltb 0 nanos || not (ltb 0 h || ltb 0 mi) then seconds_text s nanos else []

last_field :
    (h mi m t s nanos : ℕ)
    → nanos < 1000000000
    → t + s ≤ 9223372036854775807
    → run_time (state (ltb 0 h || ltb 0 mi) m t 0 (last_text h mi s nanos))
      ≡ ok (state true m (t + s) nanos [])
unfolding time_loop starts_digit
last_field h mi m t s nanos fits total =
    elim (Bool-cases (ltb 0 s || ltb 0 nanos || not (ltb 0 h || ltb 0 mi))) [
      | inl printed ↦ rw printed (last_second (ltb 0 h || ltb 0 mi) m t s nanos fits total)
      | inr silent ↦
          let found : (ltb 0 h || ltb 0 mi) ≡ true = ground arith in
          let no_seconds : s ≡ 0 = ground arith in
          let no_nanos : nanos ≡ 0 = ground arith in
          let same : t + 0 ≡ t = omega arith in
          rw silent (rw (found, no_seconds, no_nanos, same) refl)
    ]

-- The print of a time portion is read back, and it always has a field.
pub time_fields :
    (h mi s nanos m d : ℕ)
    → nanos < 1000000000
    → d + h * 3600 + mi * 60 + s ≤ 9223372036854775807
    → run_time (state false m d 0 (time_text h mi s nanos))
      ≡ ok (state true m (d + h * 3600 + mi * 60 + s) nanos [])
unfolding time_text time_field add_seconds
time_fields h mi s nanos m d fits total =
    let after_m = last_text h mi s nanos in
    let after_h = field_text (pos mi) b'M' ++ after_m in
    let hours = d + h * 3600 in
    time_optional h b'H' false m d 0 hours after_h (omega arith) refl
      (rw (checked_i64-fits hours (omega arith)) refl) (λ e. omega arith)
    ∙ time_optional mi b'M' (ltb 0 h) m hours 0 (hours + mi * 60) after_m (omega arith) refl
        (rw (checked_i64-fits (hours + mi * 60) (omega arith)) refl) (λ e. omega arith)
    ∙ last_field h mi m (hours + mi * 60) s nanos fits total
