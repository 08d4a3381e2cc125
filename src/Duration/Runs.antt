-- ===== src/Duration/Runs.antt =====
-- The loop over the date portion in src/lib/duration.cpp as finite sequences of rounds, without fuel.
use xb.Common.{ℕ, zero, suc, ◌<◌, true, false, ◌≡◌, refl, arith, Bool-cases, inl, inr}
use xb.Common.{length}
use xb.Common.Result.{Error, Result, ok, err, invalid_argument}
use xb.Temporal.Lexical.{Digits, parse_digits}
use xb.Duration.Scan.{starts_digit}
use xb.Duration.Full.{Totals, date_field, date_ends, date_loop}
use xb.Duration.Fuel.{length-parse_digits, length-date_field}

-- From a state the loop comes to a result. A round that goes on has read a number and its designator, and has
-- left less text.
pub data DateRun (r : Result Totals) : Totals → Type 0 where
  ends : {t : Totals} → date_ends t.rest ≡ true → r ≡ ok t → DateRun r t
  no_digit :
      {t : Totals}
      → date_ends t.rest ≡ false
      → starts_digit t.rest ≡ false
      → r ≡ err invalid_argument
      → DateRun r t
  no_number :
      {t : Totals} (thrown : Error)
      → date_ends t.rest ≡ false
      → starts_digit t.rest ≡ true
      → parse_digits t.rest 1 ≡ err thrown
      → r ≡ err thrown
      → DateRun r t
  no_field :
      {t : Totals} (d : Digits) (thrown : Error)
      → date_ends t.rest ≡ false
      → starts_digit t.rest ≡ true
      → parse_digits t.rest 1 ≡ ok d
      → date_field t d.value d.rest ≡ err thrown
      → r ≡ err thrown
      → DateRun r t
  round :
      {t : Totals} (d : Digits) (next : Totals)
      → date_ends t.rest ≡ false
      → starts_digit t.rest ≡ true
      → parse_digits t.rest 1 ≡ ok d
      → date_field t d.value d.rest ≡ ok next
      → length next.rest < length t.rest
      → DateRun r next
      → DateRun r t

-- What a fallible step returns.
Result-cases :
    {A : Type 0} (m : Result A)
    → (P : Type 0) → ((e : Error) → m ≡ err e → P)
    → ((a : A) → m ≡ ok a → P)
    → P
Result-cases (ok a) P failed done = done a refl
Result-cases (err e) P failed done = failed e refl

-- If the fuel is above the length of the text, the loop of the parser of `duration` over the date
-- portion comes to its result in finitely many rounds, each of which reads a number and its
-- designator and leaves less text: it ends at the `T` or the end of the text, or with the
-- exception of the step that failed, and never for want of fuel.
pub date_loop-DateRun : (f : ℕ) (t : Totals) → length t.rest < f → DateRun (date_loop f t) t
unfolding date_loop
date_loop-DateRun zero t h = absurd (omega arith)
date_loop-DateRun (suc f) t h = elim (Bool-cases (date_ends t.rest)) [
  | inl over ↦ ends over (rw over refl)
  | inr more ↦ elim (Bool-cases (starts_digit t.rest)) [
    | inr bad ↦ no_digit more bad (rw (more, bad) refl)
    | inl good ↦
        Result-cases (parse_digits t.rest 1) (DateRun (date_loop (suc f) t) t)
          (λ e failed. no_number e more good failed (rw (more, good, failed) refl))
          (λ d read.
            Result-cases (date_field t d.value d.rest) (DateRun (date_loop (suc f) t) t)
              (λ e failed. no_field d e more good read failed (rw (more, good, read, failed) refl))
              (λ next field.
                let shorter : length next.rest < length t.rest = omega (
                  arith,
                  length-date_field t d.value d.rest field,
                  length-parse_digits t.rest 1 read,
                ) in
                round d next more good read field shorter (
                  rw (more, good, read, field)
                    (date_loop-DateRun f next (omega (arith, h, shorter))))))
  ]
]
