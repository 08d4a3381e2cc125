-- ===== src/Duration/MonthsText.antt =====
-- The text of a `year_month_duration`, and its parser.
use xb.Common.{
  ℕ, ◌+◌, ◌*◌, ◌/◌, ◌%◌, ◌≤◌, ◌<◌, [], ◌∷◌, ◌++◌, append-nil, append_assoc, Bool, true, false, ltb,
  ◌==◌, ◌||◌, ◌≡◌, refl, arith, ltb→le, Bool-cases, inl, inr, ltb→lt, ◌⊎◌, ◌&&◌, if◌then◌else◌,
}
use xb.Common.Int.{pos, ltb_ℤ, eqb_ℤ}
use xb.Common.Casts.{i32, tdiv, tmod}
use xb.Common.Result.{Result, Error, ok, err, ◌>>=◌, invalid_argument}
use xb.Common.Text.{Bytes, to_string}
use xb.Temporal.Lexical.{expect}
use xb.Temporal.DigitLaws.{expect_self}
use xb.Duration.Scan.{has_byte, checked_i64, int_text, minus_sign}
use xb.Duration.YearMonth
use xb.Duration.YearMonth.{
  YearMonth, Parts, designate, after_number, first_part, second_part, month_number, read_parts,
  not_zero, parse_year_month_duration, years_text, months_text,
}
use xb.Duration.Months.{IsYearMonth, as_months, months}
use xb.Duration.MonthsParts.{parts_years, parts_months, parts_both}

pub int_text-pos : (n : ℕ) → int_text (pos n) ≡ to_string n
unfolding int_text
int_text-pos n = ground arith

years_text-pos : (y : ℕ) → 0 < y → years_text (pos y) ≡ to_string y ++ b'Y' ∷ []
unfolding years_text
years_text-pos y h =
    let some : ltb_ℤ (pos 0) (pos y) ≡ true = ground arith in rw (some, int_text-pos y)

months_text-pos :
    (y m : ℕ) → (0 < m) ⊎ (y ≡ 0) → months_text (pos y) (pos m) ≡ to_string m ++ b'M' ∷ []
unfolding months_text
months_text-pos y m h =
    let some : (ltb_ℤ (pos 0) (pos m) || eqb_ℤ (pos y) (pos 0)) ≡ true = ground arith in
    rw (some, int_text-pos m)

months_text-none : (y : ℕ) → 0 < y → months_text (pos y) (pos 0) ≡ []
unfolding months_text
months_text-none y h = ground arith

-- The components of the print of `n` months add up to `n`.
record ReadsMonths (n : ℕ) : Type 0 where
  years : ℕ
  months : ℕ
  adds_up : years * 12 + months ≡ n
  parsed :
      read_parts (years_text (pos (n / 12)) ++ months_text (pos (n / 12)) (pos (n % 12)))
      ≡ ok (record { found_any = true; years = years; months = months; rest = [] })

read_small : (n : ℕ) → n / 12 ≡ 0 → ReadsMonths n
unfolding years_text
read_small n e = record {
  years = 0;
  months = n % 12;
  adds_up = omega arith;
  parsed = rw (e, months_text-pos 0 (n % 12) (inr refl)) (parts_months (n % 12) (omega arith));
}

read_whole : (n : ℕ) → n ≤ 2147483647 → 0 < n / 12 → n % 12 ≡ 0 → ReadsMonths n
read_whole n h some e = record {
  years = n / 12;
  months = 0;
  adds_up = omega arith;
  parsed =
      rw
        (
          e,
          years_text-pos (n / 12) some,
          months_text-none (n / 12) some,
          append-nil (to_string (n / 12) ++ b'Y' ∷ []),
        )
        (parts_years (n / 12) (omega arith));
}

read_both : (n : ℕ) → n ≤ 2147483647 → 0 < n / 12 → 0 < n % 12 → ReadsMonths n
read_both n h years months = record {
  years = n / 12;
  months = n % 12;
  adds_up = omega arith;
  parsed =
      rw
        (
          years_text-pos (n / 12) years,
          months_text-pos (n / 12) (n % 12) (inl months),
          append_assoc (to_string (n / 12)) (b'Y' ∷ []) (to_string (n % 12) ++ b'M' ∷ []),
        )
        (parts_both (n / 12) (n % 12) (omega arith) (omega arith));
}

print_is_read : (n : ℕ) → n ≤ 2147483647 → ReadsMonths n
print_is_read n h = elim (Bool-cases (ltb 0 (n / 12))) [
  | inr none ↦ read_small n (omega (arith, ltb→le 0 (n / 12) none))
  | inl years ↦ elim (Bool-cases (ltb 0 (n % 12))) [
    | inl months ↦ read_both n h (ltb→lt 0 (n / 12) years) (ltb→lt 0 (n % 12) months)
    | inr none ↦ read_whole n h (ltb→lt 0 (n / 12) years) (omega (arith, ltb→le 0 (n % 12) none))
  ]
]

pub i32-pos : (n : ℕ) → n ≤ 2147483647 → i32 (pos n) ≡ pos n
i32-pos n h = ground arith

keeps_sign : (b : Bool) (n : ℕ) → (b ≡ true → 1 ≤ n) → (b && not_zero (pos n)) ≡ b
unfolding not_zero
keeps_sign b n z = ground arith

pub minus_sign-print :
    (b : Bool) (s : Bytes) → minus_sign ((if b then b'-' ∷ [] else []) ++ b'P' ∷ s) ≡ (b, b'P' ∷ s)
unfolding minus_sign
minus_sign-print true s = refl
minus_sign-print false s = refl

print_parses :
    (b : Bool) (n : ℕ)
    → n ≤ 2147483647
    → (b ≡ true → 1 ≤ n)
    → parse_year_month_duration (YearMonth.to_text (months b n)) ≡ ok (months b n)
unfolding parse_year_month_duration YearMonth.to_text checked_i64 tdiv tmod
print_parses b n h z =
    let r = print_is_read n h in
    let s = years_text (pos (n / 12)) ++ months_text (pos (n / 12)) (pos (n % 12)) in
    let fits : ltb 9223372036854775807 n ≡ false = ground arith in
    rw
      (
        minus_sign-print b s,
        expect_self b'P' s,
        r.parsed,
        r.adds_up,
        fits,
        i32-pos n h,
        keeps_sign b n z,
      )
      refl

-- The parser of `year_month_duration` accepts what `to_string` prints of a well-formed duration (a
-- magnitude of an `int32_t` and no negative zero), and returns that duration.
pub parse_year_month_duration-to_text :
    (d : YearMonth) → IsYearMonth d → parse_year_month_duration (YearMonth.to_text d) ≡ ok d
parse_year_month_duration-to_text d v =
    rw (as_months d v) (print_parses d.negative v.magnitude v.fits v.no_negative_zero)

read_parts-foreign :
    (s : Bytes) → (has_byte b'T' s || has_byte b'D' s) ≡ true → read_parts s ≡ err invalid_argument
unfolding read_parts
read_parts-foreign s h = ground arith

behind_sign :
    (s : Bytes)
    → (has_byte b'T' s || has_byte b'D' s) ≡ true
    → (has_byte b'T' (minus_sign s).1 || has_byte b'D' (minus_sign s).1) ≡ true
unfolding minus_sign has_byte
behind_sign [] h = h
behind_sign (c ∷ s) h = ground arith

expect-foreign :
    (u : Bytes)
    → (has_byte b'T' u || has_byte b'D' u) ≡ true
    → (expect b'P' u >>= read_parts) ≡ err invalid_argument
unfolding expect has_byte
expect-foreign [] h = cc
expect-foreign (c ∷ s) h = elim (Bool-cases (c == b'P')) [
  | inl e ↦ rw e (read_parts-foreign s (ground arith))
  | inr e ↦ rw e
]

refused_before :
    {A B C : Type 0} (m : Result A) (f : A → Result B) (g : B → Result C) {e : Error}
    → (m >>= f) ≡ err e
    → (m >>= λ a. f a >>= g) ≡ err e
refused_before (ok a) f g h = rw h
refused_before (err e) f g h = cc

-- The parser of `year_month_duration` throws `invalid_argument` for every text with a `T` or a `D`
-- in it.
pub parse_year_month_duration-foreign :
    (s : Bytes)
    → (has_byte b'T' s || has_byte b'D' s) ≡ true
    → parse_year_month_duration s ≡ err invalid_argument
unfolding parse_year_month_duration
parse_year_month_duration-foreign s h =
    refused_before (expect b'P' (minus_sign s).1) read_parts _
      (expect-foreign (minus_sign s).1 (behind_sign s h))
