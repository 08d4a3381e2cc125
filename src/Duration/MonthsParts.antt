-- ===== src/Duration/MonthsParts.antt =====
-- Reading the components of a `year_month_duration`: src/lib/year_month_duration.cpp.
use xb.Common.{
  ℕ, ◌+◌, ◌-◌, ◌*◌, ◌≤◌, [], ◌∷◌, ◌++◌, All, true, false, ◌==◌, ◌≡◌, ◌≢◌, refl, arith, le→ltb,
}
use xb.Common.Result.{ok}
use xb.Common.Text.{
  Bytes, is_digit, IsDigit, decimal, to_string, decimal-to_string, to_string-IsDigit,
  to_string-ne-nil,
}
use xb.Temporal.Lexical.{is_end}
use xb.Temporal.FracLaws.{NoDigit}
use xb.Temporal.DigitLaws.{le-decimal, expect_self}
use xb.Duration.Scan.{digit_run, number_from, starts_digit, has_byte}
use xb.Duration.YearMonth.{
  designate, after_number, first_part, second_part, month_number, read_parts,
}

-- A run of digits is read up to what follows it.
pub digit_run-digits :
    (s rest : Bytes) → All IsDigit s → NoDigit rest → digit_run (s ++ rest) ≡ (s, rest)
unfolding digit_run
digit_run-digits [] [] h d = refl
digit_run-digits [] (c ∷ rest) h d = rw d
digit_run-digits (c ∷ s) rest h d =
    let digit : is_digit c ≡ true = ground arith in rw (digit, digit_run-digits s rest h.1 d)

-- Digits are read as their number, if an `int64_t` holds it.
pub number_from-decimal :
    (n : ℕ) (s : Bytes) → decimal n s ≤ 9223372036854775807 → number_from n s ≡ ok (decimal n s)
unfolding number_from
number_from-decimal n [] h = refl
number_from-decimal n (c ∷ s) h =
    let fits : n * 10 + (c - b'0') ≤ 9223372036854775807 =
      omega (arith, le-decimal s (n * 10 + (c - b'0'))) in
    rw (
      le→ltb 9223372036854775807 (n * 10 + (c - b'0')) fits,
      number_from-decimal (n * 10 + (c - b'0')) s h,
    )

pub starts_digit-digits :
    (s rest : Bytes) → All IsDigit s → s ≢ [] → starts_digit (s ++ rest) ≡ true
unfolding starts_digit
starts_digit-digits [] rest h e = absurd (e refl)
starts_digit-digits (c ∷ s) rest h e = ground arith

-- A byte that is no digit does not occur in digits.
pub has_byte-digits :
    (c : ℕ) (s rest : Bytes)
    → is_digit c ≡ false
    → All IsDigit s
    → has_byte c (s ++ rest) ≡ has_byte c rest
unfolding has_byte
has_byte-digits c [] rest h d = refl
has_byte-digits c (x ∷ s) rest h d =
    let other : (x == c) ≡ false = ground arith in rw (other, has_byte-digits c s rest h d.1)

read_years :
    (n : ℕ) (rest : Bytes)
    → n ≤ 9223372036854775807
    → first_part (to_string n ++ b'Y' ∷ rest)
      ≡ ok (record { found_any = true; years = n; months = 0; rest = rest })
unfolding first_part after_number designate
read_years n rest h =
    let fits : decimal 0 (to_string n) ≤ 9223372036854775807 = omega (arith, decimal-to_string n) in
    rw
      (
        digit_run-digits (to_string n) (b'Y' ∷ rest) (to_string-IsDigit n) refl,
        starts_digit-digits (to_string n) (b'Y' ∷ rest) (to_string-IsDigit n) (to_string-ne-nil n),
        number_from-decimal 0 (to_string n) fits,
        decimal-to_string n,
      )
      refl

read_months :
    (n : ℕ) (rest : Bytes)
    → n ≤ 9223372036854775807
    → first_part (to_string n ++ b'M' ∷ rest)
      ≡ ok (record { found_any = true; years = 0; months = n; rest = rest })
unfolding first_part after_number designate
read_months n rest h =
    let fits : decimal 0 (to_string n) ≤ 9223372036854775807 = omega (arith, decimal-to_string n) in
    rw
      (
        digit_run-digits (to_string n) (b'M' ∷ rest) (to_string-IsDigit n) refl,
        starts_digit-digits (to_string n) (b'M' ∷ rest) (to_string-IsDigit n) (to_string-ne-nil n),
        number_from-decimal 0 (to_string n) fits,
        decimal-to_string n,
      )
      refl

read_more_months :
    (y n : ℕ)
    → n ≤ 9223372036854775807
    → second_part
        (record { found_any = true; years = y; months = 0; rest = to_string n ++ b'M' ∷ [] })
      ≡ ok (record { found_any = true; years = y; months = n; rest = [] })
unfolding second_part month_number
read_more_months y n h =
    let fits : decimal 0 (to_string n) ≤ 9223372036854775807 = omega (arith, decimal-to_string n) in
    rw
      (
        digit_run-digits (to_string n) (b'M' ∷ []) (to_string-IsDigit n) refl,
        starts_digit-digits (to_string n) (b'M' ∷ []) (to_string-IsDigit n) (to_string-ne-nil n),
        expect_self b'M' [],
        number_from-decimal 0 (to_string n) fits,
        decimal-to_string n,
      )
      refl

is_end-digits : (s rest : Bytes) → s ≢ [] → is_end (s ++ rest) ≡ false
is_end-digits [] rest e = absurd (e refl)
is_end-digits (c ∷ s) rest e = refl

-- The components of a text of years and months.
pub parts_years :
    (y : ℕ)
    → y ≤ 9223372036854775807
    → read_parts (to_string y ++ b'Y' ∷ [])
      ≡ ok (record { found_any = true; years = y; months = 0; rest = [] })
unfolding read_parts has_byte second_part starts_digit
parts_years y h =
    rw
      (
        is_end-digits (to_string y) (b'Y' ∷ []) (to_string-ne-nil y),
        has_byte-digits b'T' (to_string y) (b'Y' ∷ []) refl (to_string-IsDigit y),
        has_byte-digits b'D' (to_string y) (b'Y' ∷ []) refl (to_string-IsDigit y),
        read_years y [] h,
      )
      refl

pub parts_months :
    (m : ℕ)
    → m ≤ 9223372036854775807
    → read_parts (to_string m ++ b'M' ∷ [])
      ≡ ok (record { found_any = true; years = 0; months = m; rest = [] })
unfolding read_parts has_byte second_part starts_digit
parts_months m h =
    rw
      (
        is_end-digits (to_string m) (b'M' ∷ []) (to_string-ne-nil m),
        has_byte-digits b'T' (to_string m) (b'M' ∷ []) refl (to_string-IsDigit m),
        has_byte-digits b'D' (to_string m) (b'M' ∷ []) refl (to_string-IsDigit m),
        read_months m [] h,
      )
      refl

pub parts_both :
    (y m : ℕ)
    → y ≤ 9223372036854775807
    → m ≤ 9223372036854775807
    → read_parts (to_string y ++ b'Y' ∷ (to_string m ++ b'M' ∷ []))
      ≡ ok (record { found_any = true; years = y; months = m; rest = [] })
unfolding read_parts has_byte
parts_both y m h k =
    let more : Bytes = to_string m ++ b'M' ∷ [] in
    rw
      (
        is_end-digits (to_string y) (b'Y' ∷ more) (to_string-ne-nil y),
        has_byte-digits b'T' (to_string y) (b'Y' ∷ more) refl (to_string-IsDigit y),
        has_byte-digits b'D' (to_string y) (b'Y' ∷ more) refl (to_string-IsDigit y),
        has_byte-digits b'T' (to_string m) (b'M' ∷ []) refl (to_string-IsDigit m),
        has_byte-digits b'D' (to_string m) (b'M' ∷ []) refl (to_string-IsDigit m),
        read_years y more h,
        read_more_months y m k,
      )
      refl
