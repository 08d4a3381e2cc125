-- ===== src/Duration/Fuel.antt =====
-- The loops of the parser of `duration`: each round shortens the text, and more fuel than its length changes
-- nothing.
use xb.Common.{
  ℕ, zero, suc, ◌+◌, ◌-◌, ◌*◌, ◌≤◌, ◌<◌, [], ◌∷◌, length, ◌≡◌, refl, arith, Bool-cases, inl, inr,
}
use xb.Common.Result.{Result, ok, err, ◌>>=◌, >>=-eq-ok}
use xb.Common.Text.{Bytes}
use xb.Temporal.Lexical.{Digits, scan_digits, parse_digits, parse_fractional_seconds, expect, drop}
use xb.Duration.Scan.{starts_digit, checked_i64}
use xb.Duration.Full.{
  Totals, add_months, add_seconds, date_field, date_ends, date_loop, fraction_field, time_field,
  time_loop,
}

-- Reading never lengthens what is left.
length-scan_digits :
    (s : Bytes) (n k : ℕ) {d : Digits} → scan_digits s n k ≡ ok d → length d.rest ≤ length s
unfolding scan_digits
length-scan_digits [] n k e = ground arith
length-scan_digits (c ∷ s) n k {d = d} e =
    ground (arith, length-scan_digits s (n * 10 + (c - b'0')) (k + 1) {d = d})

pub length-parse_digits :
    (s : Bytes) (m : ℕ) {d : Digits} → parse_digits s m ≡ ok d → length d.rest ≤ length s
unfolding parse_digits
length-parse_digits s m e =
    let (d, scanned, kept) = >>=-eq-ok (scan_digits s 0 0) _ e in
    ground (arith, length-scan_digits s 0 0 scanned)

length-add_months :
    (t : Totals) (n : ℕ) (s : Bytes) {u : Totals}
    → add_months t n s ≡ ok u
    → length u.rest ≡ length s
unfolding add_months checked_i64
length-add_months t n s e = ground arith

length-add_seconds :
    (t : Totals) (n : ℕ) (s : Bytes) {u : Totals}
    → add_seconds t n s ≡ ok u
    → length u.rest ≡ length s
unfolding add_seconds checked_i64
length-add_seconds t n s e = ground arith

length-drop : (n : ℕ) (s : Bytes) → length (drop n s) ≤ length s
length-drop zero s = omega arith
length-drop (suc n) [] = omega arith
length-drop (suc n) (c ∷ s) = omega (arith, length-drop n s)

length-expect : (c : ℕ) (s : Bytes) {r : Bytes} → expect c s ≡ ok r → length r < length s
unfolding expect
length-expect c [] e = cc
length-expect c (d ∷ s) e = ground arith

length-fraction_field :
    (t : Totals) (s : Bytes) {u : Totals} → fraction_field t s ≡ ok u → length u.rest < length s
unfolding fraction_field
length-fraction_field t s e =
    let f = parse_fractional_seconds s in
    let (r, read, kept) = >>=-eq-ok (expect b'S' (drop f.consumed s)) _ e in
    ground (arith, length-expect b'S' (drop f.consumed s) read, length-drop f.consumed s)

pub length-date_field :
    (t : Totals) (n : ℕ) (s : Bytes) {u : Totals}
    → date_field t n s ≡ ok u
    → length u.rest < length s
unfolding date_field
length-date_field t n [] e = cc
length-date_field t n (c ∷ s) {u = u} e = ground (
  arith,
  length-add_months t (n * 12) s {u = u},
  length-add_months t n s {u = u},
  length-add_seconds t (n * 86400) s {u = u},
)

length-seconds :
    (t : Totals) (n : ℕ) (s : Bytes) {u : Totals}
    → (add_seconds t n s >>= λ u. fraction_field u s) ≡ ok u
    → length u.rest < length s
length-seconds t n s e =
    let (u, added, read) = >>=-eq-ok (add_seconds t n s) (λ u. fraction_field u s) e in
    length-fraction_field u s read

length-time_field :
    (t : Totals) (n : ℕ) (s : Bytes) {u : Totals}
    → time_field t n s ≡ ok u
    → length u.rest < length s
unfolding time_field
length-time_field t n [] e = cc
length-time_field t n (c ∷ s) {u = u} e = ground (
  arith,
  length-seconds t n (c ∷ s) {u = u},
  length-add_seconds t (n * 3600) s {u = u},
  length-add_seconds t (n * 60) s {u = u},
)

bind_agree :
    {A B : Type 0} (m : Result A) (f g : A → Result B)
    → ((a : A) → m ≡ ok a → f a ≡ g a)
    → (m >>= f) ≡ (m >>= g)
bind_agree (ok a) f g h = h a refl
bind_agree (err e) f g h = refl

-- Any two amounts of fuel above the length of the text give the same result in the loop over the date portion.
pub date_loop-fuel :
    (f g : ℕ) (t : Totals) → length t.rest < f → length t.rest < g → date_loop f t ≡ date_loop g t
unfolding date_loop
date_loop-fuel zero g t hf hg = absurd (omega arith)
date_loop-fuel (suc f) zero t hf hg = absurd (omega arith)
date_loop-fuel (suc f) (suc g) t hf hg = elim (Bool-cases (date_ends t.rest)) [
  | inl ends ↦ rw ends refl
  | inr more ↦ elim (Bool-cases (starts_digit t.rest)) [
    | inr bad ↦ rw (more, bad) refl
    | inl good ↦
        rw (more, good)
          (bind_agree (parse_digits t.rest 1) _ _ (λ d read.
            bind_agree (date_field t d.value d.rest) _ _ (λ u field.
              date_loop-fuel f g u
                (omega (
                  arith,
                  length-date_field t d.value d.rest field,
                  length-parse_digits t.rest 1 read,
                ))
                (omega (
                  arith,
                  length-date_field t d.value d.rest field,
                  length-parse_digits t.rest 1 read,
                )))))
  ]
]

-- Any two amounts of fuel above the length of the text give the same result in the loop over the time portion.
pub time_loop-fuel :
    (f g : ℕ) (t : Totals) → length t.rest < f → length t.rest < g → time_loop f t ≡ time_loop g t
unfolding time_loop
time_loop-fuel zero g t hf hg = absurd (omega arith)
time_loop-fuel (suc f) zero t hf hg = absurd (omega arith)
time_loop-fuel (suc f) (suc g) t hf hg = elim (Bool-cases (starts_digit t.rest)) [
  | inr ends ↦ rw ends refl
  | inl more ↦ rw more (
      bind_agree (parse_digits t.rest 1) _ _ (λ d read.
        bind_agree (time_field t d.value d.rest) _ _ (λ u field.
          time_loop-fuel f g u
            (omega
              (arith, length-time_field t d.value d.rest field, length-parse_digits t.rest 1 read))
            (omega (
              arith,
              length-time_field t d.value d.rest field,
              length-parse_digits t.rest 1 read,
            )))))
]
