-- ===== src/Temporal/Utc.antt =====
-- The unbounded shift to UTC returns a proper date and time of the same instant.
use xb.Common.{
  ℕ, zero, suc, ◌+◌, ◌-◌, ◌*◌, ◌/◌, ◌≤◌, ◌<◌, true, ◌==◌, if◌then◌else◌, ◌≡◌, ◌∙◌, refl, arith, ap,
  Bool-cases, inl, inr, ltb→lt, ltb→le,
}
use xb.Common.Int.{
  ℤ, pos, negsuc, pos_part, neg_part, ◌+ℤ◌, ◌-ℤ◌, ◌*ℤ◌, neg_ℤ, ◌≤ℤ◌, ltb_ℤ, int_laws, +ℤ_parts,
  -ℤ_parts, neg_ℤ_parts, *ℤ_parts, eq_of_parts,
}
use xb.Common.Casts.{u8, tdiv, tmod}
use xb.Temporal.Calendar.{normalize_minute, day_adjustment, LooseDate, total_minutes, UtcNormalized}
use xb.Temporal.Settle.{calendar_days, month_before, month_after, raised, lowered, settled, utc_of}
use xb.Temporal.Instant.{
  IsMonth, day_number, calendar_days_bounds, month_before-day_number, month_after-day_number,
}

month_before-facts :
    (t : LooseDate)
    → IsMonth t.mo
    → IsMonth (month_before t).mo × (t.d +ℤ pos 28 ≤ℤ (month_before t).d)
unfolding month_before
month_before-facts t h =
    let y = if t.mo == 1 then t.y -ℤ pos 1 else t.y in
    let mo = if t.mo == 1 then 12 else t.mo - 1 in
    (ground arith, omega (int_laws, calendar_days_bounds y mo))

month_after-facts :
    (t : LooseDate)
    → IsMonth t.mo
    → ltb_ℤ (pos (calendar_days t.y t.mo)) t.d ≡ true
    → IsMonth (month_after t).mo
      × (pos 1 ≤ℤ (month_after t).d)
      × ((month_after t).d +ℤ pos 28 ≤ℤ t.d)
unfolding month_after
month_after-facts t h late = (
  ground arith,
  omega (int_laws, ltb→lt _ _ late),
  omega (int_laws, calendar_days_bounds t.y t.mo),
)

-- The first loop ends with a day of at least 1, if the fuel covers what it lacks.
raised-facts :
    (f : ℕ) (t : LooseDate)
    → IsMonth t.mo
    → neg_part t.d + 1 ≤ pos_part t.d + f
    → IsMonth (raised f t).mo × (pos 1 ≤ℤ (raised f t).d) × (day_number (raised f t) ≡ day_number t)
unfolding raised
raised-facts zero t h k = (h, omega arith, refl)
raised-facts (suc f) t h k = elim (Bool-cases (ltb_ℤ t.d (pos 1))) [
  | inl low ↦
      let (m, d) = month_before-facts t h in
      let (m', d', n) = raised-facts f (month_before t) m (omega int_laws) in
      rw low (m', d', n ∙ month_before-day_number t.y t.mo t.d h)
  | inr high ↦ rw high (h, omega (arith, ltb→le _ _ high), refl)
]

-- The second ends with a day of the month, if the fuel covers what is past 28.
lowered-facts :
    (f : ℕ) (t : LooseDate)
    → IsMonth t.mo
    → pos 1 ≤ℤ t.d
    → t.d ≤ℤ pos (28 + f)
    → IsMonth (lowered f t).mo
      × (pos 1 ≤ℤ (lowered f t).d)
      × ((lowered f t).d ≤ℤ pos (calendar_days (lowered f t).y (lowered f t).mo))
      × (day_number (lowered f t) ≡ day_number t)
unfolding lowered
lowered-facts zero t h k b = (h, k, omega (arith, calendar_days_bounds t.y t.mo), refl)
lowered-facts (suc f) t h k b = elim (Bool-cases (ltb_ℤ (pos (calendar_days t.y t.mo)) t.d)) [
  | inl late ↦
      let (m, d, e) = month_after-facts t h late in
      let (m', d', e', n) = lowered-facts f (month_after t) m d (omega int_laws) in
      rw late (m', d', e', n ∙ month_after-day_number t.y t.mo t.d h)
  | inr fits ↦ rw fits (h, k, omega (arith, ltb→le _ _ fits), refl)
]

-- A date of the calendar.
pub record IsDate (t : LooseDate) : Type 0 where
  pub month : IsMonth t.mo
  pub first : pos 1 ≤ℤ t.d
  pub last : t.d ≤ℤ pos (calendar_days t.y t.mo)

-- Settling the day gives a date of the calendar with the same day number.
pub settled-IsDate :
    (t : LooseDate) → IsMonth t.mo → IsDate (settled t) × (day_number (settled t) ≡ day_number t)
unfolding settled
settled-IsDate t h =
    let (m, d, n) = raised-facts (neg_part t.d + 1) t h (omega arith) in
    let u = raised (neg_part t.d + 1) t in
    let (m', d', e', n') = lowered-facts (pos_part u.d) u m d (omega arith) in
    (record { month = m'; first = d'; last = e' }, n' ∙ n)

pub normalize_minute-facts :
    (z : ℤ)
    → (pos 0 ≤ℤ (normalize_minute z).m)
      × ((normalize_minute z).m ≤ℤ pos 59)
      × (pos_part (normalize_minute z).h * 60 + pos_part (normalize_minute z).m + neg_part z
          ≡ neg_part (normalize_minute z).h * 60 + pos_part z)
unfolding normalize_minute tdiv tmod neg_ℤ ◌+ℤ◌ ◌-ℤ◌
normalize_minute-facts (pos n) = ground arith
normalize_minute-facts (negsuc n) = ground arith

day_adjustment-pos : (n : ℕ) → day_adjustment (pos n) ≡ pos (n / 24)
unfolding day_adjustment tdiv
day_adjustment-pos n = ground arith

day_adjustment-negsuc : (n : ℕ) → day_adjustment (negsuc n) ≡ neg_ℤ (pos ((n + 24) / 24))
unfolding day_adjustment tdiv
day_adjustment-negsuc n =
    let up : neg_ℤ (negsuc n) +ℤ pos 23 ≡ pos (n + 24) = unfold neg_ℤ ◌+ℤ◌ in ground arith in
    let below : ltb_ℤ (negsuc n) (pos 0) ≡ true = ground arith in rw (below, up)

pub day_adjustment-facts :
    (h : ℤ)
    → (pos_part (day_adjustment h) * 24 + neg_part h
        ≤ neg_part (day_adjustment h) * 24 + pos_part h)
      × (neg_part (day_adjustment h) * 24 + pos_part h
          ≤ pos_part (day_adjustment h) * 24 + neg_part h + 23)
day_adjustment-facts (pos n) = rw day_adjustment-pos (omega arith, omega arith)
day_adjustment-facts (negsuc n) =
    let k = neg_ℤ_parts (pos ((n + 24) / 24)) in
    rw day_adjustment-negsuc (omega (arith, k), omega (arith, k))

u8-small : (z : ℤ) → pos 0 ≤ℤ z → z ≤ℤ pos 255 → pos (u8 z) ≡ z
u8-small (pos n) h k = ap pos (omega arith)
u8-small (negsuc n) h k = absurd (omega arith)

-- A proper date and time: what `utc_of` returns.
pub record IsUtc (n : UtcNormalized) : Type 0 where
  pub date : IsDate (record { y = n.year; mo = n.month; d = pos n.day })
  pub hour : n.hour < 24
  pub minute : n.minute < 60

-- The minutes of an instant on the day line.
abbrev pub minutes_at : LooseDate → ℤ → ℤ
minutes_at t minutes = day_number t *ℤ pos 1440 +ℤ minutes

unfoldable pub utc_minutes : UtcNormalized → ℤ
utc_minutes n =
    minutes_at (record { y = n.year; mo = n.month; d = pos n.day }) (pos (n.hour * 60 + n.minute))

day_number-shift :
    (y : ℤ) (mo : ℕ) (d e : ℤ)
    → day_number (record { y = y; mo = mo; d = d +ℤ e })
      ≡ day_number (record { y = y; mo = mo; d = d }) +ℤ e
unfolding day_number
day_number-shift y mo d e = omega int_laws

small : (n : ℕ) (z : ℤ) (k : ℕ) → pos n ≡ z → z +ℤ pos 1 ≤ℤ pos k → n < k
small n z k e h = omega (int_laws, ap pos_part e, ap neg_part e)

instant :
    (day adj h m total : ℤ) (hour minute : ℕ)
    → pos hour ≡ h -ℤ adj *ℤ pos 24
    → pos minute ≡ m
    → pos_part h * 60 + pos_part m + neg_part total ≡ neg_part h * 60 + pos_part total
    → (day +ℤ adj) *ℤ pos 1440 +ℤ pos (hour * 60 + minute) ≡ day *ℤ pos 1440 +ℤ total
instant day adj h m total hour minute eh em e = eq_of_parts _ _ (
    omega (
      arith,
      +ℤ_parts,
      -ℤ_parts,
      *ℤ_parts (day +ℤ adj) (pos 1440),
      *ℤ_parts day (pos 1440),
      *ℤ_parts adj (pos 24),
      ap pos_part eh,
      ap neg_part eh,
      ap pos_part em,
      ap neg_part em,
    ))

-- The shift without bounds gives a proper date and time of the same instant.
pub utc_of-IsUtc :
    (year : ℤ) (month day hour minute second nanosecond : ℕ) (tz_offset : ℤ)
    → IsMonth month
    → IsUtc (utc_of year month day hour minute second nanosecond tz_offset)
      × (utc_minutes (utc_of year month day hour minute second nanosecond tz_offset)
          ≡ minutes_at
              (record { y = year; mo = month; d = pos day })
              (total_minutes hour minute tz_offset))
unfolding utc_of utc_minutes
utc_of-IsUtc year month day hour minute second nanosecond tz_offset h =
    let total = total_minutes hour minute tz_offset in
    let c = normalize_minute total in
    let adj = day_adjustment c.h in
    let t : LooseDate = record { y = year; mo = month; d = pos day +ℤ adj } in
    let (valid, same) = settled-IsDate t h in
    let clock = normalize_minute-facts total in
    let hours = day_adjustment-facts c.h in
    let date = settled t in
    let hr = c.h -ℤ adj *ℤ pos 24 in
    let scaled = *ℤ_parts adj (pos 24) in
    let month_length = calendar_days_bounds date.y date.mo in
    let day_kept : pos (u8 date.d) ≡ date.d =
      u8-small date.d (omega (arith, valid.first)) (omega (arith, valid.last, month_length)) in
    let hr_low : pos 0 ≤ℤ hr = omega (int_laws, scaled, hours) in
    let hr_high : hr ≤ℤ pos 23 = omega (int_laws, scaled, hours) in
    let hour_kept : pos (u8 hr) ≡ hr = u8-small hr hr_low (omega (arith, hr_high)) in
    let minute_kept : pos (u8 c.m) ≡ c.m = u8-small c.m clock.0 (omega (arith, clock.1)) in
    (
      record {
        date = rw day_kept valid;
        hour = small (u8 hr) hr 24 hour_kept (omega (int_laws, hr_high));
        minute = small (u8 c.m) c.m 60 minute_kept (omega (int_laws, clock.1));
      },
      rw (day_kept, same, day_number-shift)
          (instant (day_number (record { y = year; mo = month; d = pos day })) adj c.h c.m total
            (u8 hr) (u8 c.m) hour_kept minute_kept clock.2),
    )
