-- ===== src/Temporal/FracLaws.antt =====
-- Printing the fraction of a second and reading it back.
use xb.Common.{
  ℕ, zero, suc, ◌+◌, ◌-◌, ◌*◌, ◌^◌, ◌≤◌, ◌<◌, [], ◌∷◌, ◌++◌, length, replicate, All, true, false,
  ◌==◌, ◌≡◌, ◌∙◌, refl, arith, ap, Bool-cases, inl, inr, length-append, length-replicate,
  All-append, suc-eq-zero, ==_iff, lt→ltb,
}
use native.Mathlib.Nat.{pow-suc}
use xb.Common.Text.{
  Bytes, is_digit, IsDigit, decimal, to_string, decimal-to_string, to_string-IsDigit,
  replicate-IsDigit, decimal-zeros, length-to_string,
}
use xb.Temporal.Lexical.{
  scale_nanos, frac_digits, parse_fractional_seconds, keep_char, strip_zeros, pad_zeros,
  format_fractional_seconds, drop,
}

scale_nanos-pow : (k n : ℕ) → scale_nanos k n ≡ n * 10 ^ k
unfolding scale_nanos
scale_nanos-pow zero n = omega arith
scale_nanos-pow (suc k) n =
    omega (arith, scale_nanos-pow k (n * 10), ap (λ (t : ℕ). n * t) (pow-suc 10 k))

-- What follows a fraction does not begin with a digit.
abbrev pub NoDigit : Bytes → Type 0
NoDigit [] = Unit
NoDigit (c ∷ s) = is_digit c ≡ false

frac_digits-stop :
    (rest : Bytes) (nanos k p : ℕ)
    → NoDigit rest
    → frac_digits rest nanos k p ≡ record { nanos = scale_nanos (9 - k) nanos; consumed = p }
unfolding frac_digits
frac_digits-stop [] nanos k p h = refl
frac_digits-stop (c ∷ s) nanos k p h = rw h

frac_digits-step :
    (c : ℕ) (s : Bytes) (nanos k p : ℕ)
    → IsDigit c
    → k < 9
    → frac_digits (c ∷ s) nanos k p ≡ frac_digits s (nanos * 10 + (c - b'0')) (k + 1) (p + 1)
unfolding frac_digits
frac_digits-step c s nanos k p h room =
    let digit : is_digit c ≡ true = ground arith in rw (digit, lt→ltb k 9 room)

-- Up to nine digits are read as the number that they spell, in nanoseconds.
frac_digits-decimal :
    (s rest : Bytes) (nanos k p : ℕ)
    → All IsDigit s
    → NoDigit rest
    → length s + k ≤ 9
    → frac_digits (s ++ rest) nanos k p ≡ record {
      nanos = scale_nanos (9 - (length s + k)) (decimal nanos s);
      consumed = p + length s;
    }
frac_digits-decimal [] rest nanos k p h d le = frac_digits-stop rest nanos k p d ∙ λ i. record {
  nanos = scale_nanos (9 - zero-left k i) nanos;
  consumed = right-zero p i;
}
  where
    zero-left : (k : ℕ) → k ≡ 0 + k
    zero-left k = omega arith

    right-zero : (p : ℕ) → p ≡ p + 0
    right-zero p = omega arith
frac_digits-decimal (c ∷ s) rest nanos k p h d le =
    let size : length s + (k + 1) ≡ suc (length s) + k = omega arith in
    let place : p + 1 + length s ≡ p + suc (length s) = omega arith in
    frac_digits-step c (s ++ rest) nanos k p h.0 (omega arith)
    ∙ rw (size, place) at
        (frac_digits-decimal s rest (nanos * 10 + (c - b'0')) (k + 1) (p + 1) h.1 d (omega arith))

-- A text of which only zeros at the end are missing: `k` places, with the number scaled by 10^k.
record Stripped (t s : Bytes) : Type 0 where
  pub k : ℕ
  pub size : length t + k ≡ length s
  pub number : (n : ℕ) → decimal n t * 10 ^ k ≡ decimal n s

keep_char-Stripped : (c : ℕ) (t s : Bytes) → Stripped t s → Stripped (keep_char c t) (c ∷ s)
unfolding keep_char
keep_char-Stripped c [] s h = elim (Bool-cases (c == b'0')) [
  | inl dropped ↦
      let digit : c ≡ b'0' = (==_iff c b'0').0 dropped in
      rw dropped (record {
        k = suc h.k;
        size = omega (arith, h.size);
        number = λ n.
            rw digit (omega (arith, h.number (n * 10 + 0), ap (λ (t : ℕ). n * t) (pow-suc 10 h.k)));
      })
  | inr kept ↦ rw kept (record {
    k = h.k;
    size = omega (arith, h.size);
    number = λ n. h.number (n * 10 + (c - b'0'));
  })
]
keep_char-Stripped c (d ∷ t) s h = record {
  k = h.k;
  size = omega (arith, h.size);
  number = λ n. h.number (n * 10 + (c - b'0'));
}

strip_zeros-Stripped : (s : Bytes) → Stripped (strip_zeros s) s
unfolding strip_zeros
strip_zeros-Stripped [] = record { k = 0; size = omega arith; number = λ n. omega arith }
strip_zeros-Stripped (c ∷ s) = keep_char-Stripped c (strip_zeros s) s (strip_zeros-Stripped s)

keep_char-IsDigit : (c : ℕ) (s : Bytes) → IsDigit c → All IsDigit s → All IsDigit (keep_char c s)
unfolding keep_char
keep_char-IsDigit c [] d h = ground arith
keep_char-IsDigit c (e ∷ s) d h = (d, h)

strip_zeros-IsDigit : (s : Bytes) → All IsDigit s → All IsDigit (strip_zeros s)
unfolding strip_zeros
strip_zeros-IsDigit [] h = tt
strip_zeros-IsDigit (c ∷ s) h = keep_char-IsDigit c (strip_zeros s) h.0 (strip_zeros-IsDigit s h.1)

-- The nine digits of a number of nanoseconds.
nine : ℕ → Bytes
nine n = pad_zeros 9 (to_string n)

nine-digits : (n : ℕ) → All IsDigit (nine n)
unfolding nine pad_zeros
nine-digits n =
    All-append IsDigit (replicate (9 - length (to_string n)) b'0') (to_string n)
      (replicate-IsDigit (9 - length (to_string n))) (to_string-IsDigit n)

decimal-nine : (n : ℕ) → decimal 0 (nine n) ≡ n
unfolding nine pad_zeros
decimal-nine n = decimal-zeros (9 - length (to_string n)) (to_string n) ∙ decimal-to_string n

length-nine : (n : ℕ) → n < 1000000000 → length (nine n) ≡ 9
unfolding nine pad_zeros
length-nine n h = omega (
  arith,
  length-append (replicate (9 - length (to_string n)) b'0') (to_string n),
  length-replicate {A = ℕ} (9 - length (to_string n)) b'0',
  length-to_string n 9 h (omega arith),
)

fraction_read :
    (n : ℕ) (rest : Bytes)
    → n < 1000000000
    → NoDigit rest
    → frac_digits (strip_zeros (nine n) ++ rest) 0 0 1
      ≡ record { nanos = n; consumed = 1 + length (strip_zeros (nine n)) }
fraction_read n rest h d =
    let t = strip_zeros (nine n) in
    let st = strip_zeros-Stripped (nine n) in
    let long : length t + st.k ≡ 9 = omega (arith, st.size, length-nine n h) in
    let missing : 9 - (length t + 0) ≡ st.k = omega arith in
    frac_digits-decimal t rest 0 0 1 (strip_zeros-IsDigit (nine n) (nine-digits n)) d (omega arith)
    ∙ rw (missing, scale_nanos-pow st.k (decimal 0 t), st.number 0, decimal-nine n) refl

one-add : (n : ℕ) → 1 + n ≡ suc n
one-add n = omega arith

pub drop-append : (s rest : Bytes) → drop (length s) (s ++ rest) ≡ rest
drop-append [] rest = refl
drop-append (c ∷ s) rest = drop-append s rest

-- What follows a fraction of a second: neither a digit nor a point.
abbrev pub AfterFraction : Bytes → Type 0
AfterFraction [] = Unit
AfterFraction (c ∷ s) = (is_digit c ≡ false) × ((c == b'.') ≡ false)

AfterFraction-NoDigit : (s : Bytes) → AfterFraction s → NoDigit s
AfterFraction-NoDigit [] h = tt
AfterFraction-NoDigit (c ∷ s) h = h.0

no_fraction :
    (s : Bytes) → AfterFraction s → parse_fractional_seconds s ≡ record { nanos = 0; consumed = 0 }
unfolding parse_fractional_seconds
no_fraction [] h = refl
no_fraction (c ∷ s) h = rw h.1

-- In front of a text that starts with neither a digit nor a point, `parse_fractional_seconds`
-- takes exactly what `format_fractional_seconds` appends for a number of nanoseconds below a
-- second, and returns that number.
pub parse-format_fractional_seconds :
    (n : ℕ) (rest : Bytes)
    → n < 1000000000
    → AfterFraction rest
    → ((parse_fractional_seconds (format_fractional_seconds n ++ rest)).nanos ≡ n)
      × (drop
            (parse_fractional_seconds (format_fractional_seconds n ++ rest)).consumed
            (format_fractional_seconds n ++ rest)
          ≡ rest)
unfolding format_fractional_seconds
parse-format_fractional_seconds zero rest h d = rw (no_fraction rest d) (refl, refl)
parse-format_fractional_seconds (suc n) rest h d =
    let read = fraction_read (suc n) rest h (AfterFraction-NoDigit rest d) in
    rw suc-eq-zero (
      unfold parse_fractional_seconds nine in
      rw read (refl, rw one-add (drop-append (strip_zeros (nine (suc n))) rest)))
