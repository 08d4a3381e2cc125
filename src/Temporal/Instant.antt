-- ===== src/Temporal/Instant.antt =====
-- The specification: a date as a day number, from a leap rule and lengths of months of its own.
use native.Mathlib.Decide.{dec_lt}
use xb.Common.{
  ℕ, zero, suc, ◌+◌, ◌-◌, ◌≤◌, ◌<◌, false, ◌==◌, if◌then◌else◌, ◌≡◌, ◌∙◌, refl, sym, arith, ap,
}
use xb.Common.Int.{ℤ, pos, negsuc, ◌+ℤ◌, ◌-ℤ◌, int_laws}
use xb.Temporal.Calendar.{LooseDate}
use xb.Temporal.Settle.{calendar_leap, calendar_days, month_before, month_after}

abbrev pub year_days : ℤ → ℕ
year_days y = if calendar_leap y then 366 else 365

-- The days before year `y`, counted from year 0.
abbrev pub days_up : ℕ → ℕ
days_up zero = 0
days_up (suc n) = days_up n + year_days (pos n)

abbrev pub days_down : ℕ → ℕ
days_down zero = year_days (negsuc 0)
days_down (suc n) = days_down n + year_days (negsuc (suc n))

abbrev pub year_start : ℤ → ℤ
year_start (pos n) = pos (days_up n)
year_start (negsuc n) = pos 0 -ℤ pos (days_down n)

-- The days before month `mo`, in its year.
abbrev pub month_start : ℤ → ℕ → ℕ
month_start y zero = 0
month_start y (suc zero) = 0
month_start y (suc (suc mo)) = month_start y (suc mo) + calendar_days y (suc mo)

unfoldable pub day_number : LooseDate → ℤ
day_number t = year_start t.y +ℤ pos (month_start t.y t.mo) +ℤ t.d

pub calendar_days_bounds : (y : ℤ) (mo : ℕ) → (28 ≤ calendar_days y mo) × (calendar_days y mo ≤ 31)
unfolding calendar_days
calendar_days_bounds y mo = ground arith

pub year_length : (y : ℤ) → month_start y 12 + calendar_days y 12 ≡ year_days y
unfolding calendar_days
year_length y = ground arith

pub year_start_next : (y : ℤ) → year_start (y +ℤ pos 1) ≡ year_start y +ℤ pos (year_days y)
year_start_next (pos n) =
    let e : pos n +ℤ pos 1 ≡ pos (suc n) = unfold ◌+ℤ◌ in ground arith in
    rw e (unfold ◌+ℤ◌ in ground arith)
year_start_next (negsuc zero) =
    let e : negsuc 0 +ℤ pos 1 ≡ pos 0 = unfold ◌+ℤ◌ in ground arith in
    rw e (unfold ◌+ℤ◌ ◌-ℤ◌ in ground arith)
year_start_next (negsuc (suc n)) =
    let e : negsuc (suc n) +ℤ pos 1 ≡ negsuc n = unfold ◌+ℤ◌ in ground arith in
    rw e (unfold ◌+ℤ◌ ◌-ℤ◌ in ground arith)

year_start_previous :
    (y : ℤ) → year_start (y -ℤ pos 1) +ℤ pos (year_days (y -ℤ pos 1)) ≡ year_start y
year_start_previous y =
    let back : y -ℤ pos 1 +ℤ pos 1 ≡ y = omega int_laws in
    sym (year_start_next (y -ℤ pos 1)) ∙ ap year_start back

abbrev pub IsMonth : ℕ → Type 0
IsMonth mo = (1 ≤ mo) × (mo ≤ 12)

previous_in_year :
    (y : ℤ) (mo : ℕ) (d : ℤ)
    → month_before (record { y = y; mo = suc (suc mo); d = d })
      ≡ record { y = y; mo = suc mo; d = d +ℤ pos (calendar_days y (suc mo)) }
unfolding month_before
previous_in_year y mo d =
    let later : (suc (suc mo) == 1) ≡ false = ground arith in
    let back : suc (suc mo) - 1 ≡ suc mo = omega arith in rw (later, back)

-- Going back to the month before leaves the day number alone.
pub month_before-day_number :
    (y : ℤ) (mo : ℕ) (d : ℤ)
    → IsMonth mo
    → day_number (month_before (record { y = y; mo = mo; d = d }))
      ≡ day_number (record { y = y; mo = mo; d = d })
unfolding day_number
month_before-day_number y zero d h = absurd (omega arith)
month_before-day_number y (suc zero) d h =
    unfold month_before in rw (← year_start_previous y) (omega (int_laws, year_length (y -ℤ pos 1)))
month_before-day_number y (suc (suc mo)) d h = rw previous_in_year (omega int_laws)

next_in_year :
    (y : ℤ) (mo : ℕ) (d : ℤ)
    → mo < 12
    → month_after (record { y = y; mo = mo; d = d })
      ≡ record { y = y; mo = suc mo; d = d -ℤ pos (calendar_days y mo) }
unfolding month_after
next_in_year y mo d h =
    let inside : (mo == 12) ≡ false = ground arith in
    let on : mo + 1 ≡ suc mo = omega arith in rw (inside, on)

pub month_start_next :
    (y : ℤ) (mo : ℕ) → 1 ≤ mo → month_start y (suc mo) ≡ month_start y mo + calendar_days y mo
month_start_next y zero h = absurd (omega arith)
month_start_next y (suc mo) h = refl

-- Going on to the next month leaves it alone too.
pub month_after-day_number :
    (y : ℤ) (mo : ℕ) (d : ℤ)
    → IsMonth mo
    → day_number (month_after (record { y = y; mo = mo; d = d }))
      ≡ day_number (record { y = y; mo = mo; d = d })
month_after-day_number y mo d h = elim (dec_lt mo 12) [
  | yes inside ↦ rw next_in_year (unfold day_number in omega (int_laws, month_start_next y mo h.0))
  | no last ↦
      let december : mo ≡ 12 = omega arith in
      rw december
        (unfold day_number month_after in rw (year_start_next y) (omega (int_laws, year_length y)))
]
