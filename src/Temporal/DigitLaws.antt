-- ===== src/Temporal/DigitLaws.antt =====
-- Printing years and two-digit fields, and reading them back.
use xb.Common.{
  ℕ, suc, ◌+◌, ◌-◌, ◌*◌, ◌/◌, ◌%◌, ◌≤◌, ◌<◌, [], ◌∷◌, ◌++◌, length, replicate, All, All-append,
  true, leb, ◌≡◌, ◌∙◌, refl, arith, le→ltb, length-append, length-replicate,
}
use xb.Common.Result.{ok}
use xb.Common.Text.{
  Bytes, is_digit, IsDigit, decimal, to_string, decimal-to_string, to_string-IsDigit,
  replicate-IsDigit, decimal-zeros,
}
use xb.Temporal.Lexical.{scan_digits, parse_digits, expect, digit_pair, two_digits, pad_zeros}
use xb.Temporal.FracLaws.{NoDigit}

pub le-decimal : (s : Bytes) (n : ℕ) → n ≤ decimal n s
le-decimal [] n = omega arith
le-decimal (c ∷ s) n = omega (arith, le-decimal s (n * 10 + (c - b'0')))

scan_digits-stop :
    (rest : Bytes) (n k : ℕ)
    → NoDigit rest
    → scan_digits rest n k ≡ ok (record { value = n; count = k; rest = rest })
unfolding scan_digits
scan_digits-stop [] n k h = refl
scan_digits-stop (c ∷ s) n k h = rw h

scan_digits-step :
    (c : ℕ) (s : Bytes) (n k : ℕ)
    → IsDigit c
    → n * 10 + (c - b'0') ≤ 9223372036854775807
    → scan_digits (c ∷ s) n k ≡ scan_digits s (n * 10 + (c - b'0')) (k + 1)
unfolding scan_digits
scan_digits-step c s n k h fits =
    let digit : is_digit c ≡ true = ground arith in rw (digit, le→ltb 9223372036854775807 _ fits)

-- Digits are read as their number, up to what follows them, if an `int64_t` holds it.
pub scan_digits-decimal :
    (s rest : Bytes) (n k : ℕ)
    → All IsDigit s
    → NoDigit rest
    → decimal n s ≤ 9223372036854775807
    → scan_digits (s ++ rest) n k
      ≡ ok (record { value = decimal n s; count = k + length s; rest = rest })
scan_digits-decimal [] rest n k h d fits =
    let none : k + 0 ≡ k = omega arith in rw none (scan_digits-stop rest n k d)
scan_digits-decimal (c ∷ s) rest n k h d fits =
    let more : k + 1 + length s ≡ k + suc (length s) = omega arith in
    scan_digits-step c (s ++ rest) n k h.0 (omega (arith, le-decimal s (n * 10 + (c - b'0'))))
    ∙ rw more at (scan_digits-decimal s rest (n * 10 + (c - b'0')) (k + 1) h.1 d fits)

pub parse_digits-decimal :
    (s rest : Bytes) (m : ℕ)
    → All IsDigit s
    → NoDigit rest
    → decimal 0 s ≤ 9223372036854775807
    → m ≤ length s
    → parse_digits (s ++ rest) m
      ≡ ok (record { value = decimal 0 s; count = 0 + length s; rest = rest })
unfolding parse_digits
parse_digits-decimal s rest m h d fits long =
    let enough : leb m (0 + length s) ≡ true = ground arith in
    rw (scan_digits-decimal s rest 0 0 h d fits, enough)

-- Two characters of a field.
pub two_digits-pair :
    (n : ℕ) (rest : Bytes)
    → n < 100
    → NoDigit rest
    → two_digits ((b'0' + n / 10) ∷ (b'0' + n % 10) ∷ rest) ≡ ok (n, rest)
unfolding two_digits
two_digits-pair n rest h d =
    let cs = (b'0' + n / 10) ∷ (b'0' + n % 10) ∷ [] in
    let number : decimal 0 cs ≡ n = omega arith in
    rw
      (parse_digits-decimal cs rest 2 (omega arith) d (omega (arith, number)) (omega arith), number)
      refl

pub digit_pair-pair :
    (n : ℕ) (rest : Bytes)
    → n < 100
    → digit_pair ((b'0' + n / 10) ∷ (b'0' + n % 10) ∷ rest) ≡ ok (n, rest)
unfolding digit_pair
digit_pair-pair n rest h =
    let first : is_digit (b'0' + n / 10) ≡ true = ground arith in
    let second : is_digit (b'0' + n % 10) ≡ true = ground arith in
    let number : (b'0' + n / 10 - b'0') * 10 + (b'0' + n % 10 - b'0') ≡ n = omega arith in
    rw (first, second, number)

pub expect_self : (c : ℕ) (s : Bytes) → expect c (c ∷ s) ≡ ok s
unfolding expect
expect_self c s = ground arith

-- The padded digits of a year.
pub pad_zeros-IsDigit : (k n : ℕ) → All IsDigit (pad_zeros k (to_string n))
unfolding pad_zeros
pad_zeros-IsDigit k n =
    All-append IsDigit (replicate (k - length (to_string n)) b'0') (to_string n)
      (replicate-IsDigit (k - length (to_string n))) (to_string-IsDigit n)

pub decimal-pad_zeros : (k n : ℕ) → decimal 0 (pad_zeros k (to_string n)) ≡ n
unfolding pad_zeros
decimal-pad_zeros k n = decimal-zeros (k - length (to_string n)) (to_string n) ∙ decimal-to_string n

pub le-length-pad_zeros : (k n : ℕ) → k ≤ length (pad_zeros k (to_string n))
unfolding pad_zeros
le-length-pad_zeros k n = omega (
  arith,
  length-append (replicate (k - length (to_string n)) b'0') (to_string n),
  length-replicate {A = ℕ} (k - length (to_string n)) b'0',
)
