-- ===== src/Temporal/Unique.antt =====
-- A day number belongs to one date of the calendar, and an instant to one proper date and time.
use native.Mathlib.Decide.{dec_lt}
use xb.Common.{
  ℕ, zero, suc, ◌+◌, ◌-◌, ◌*◌, ◌≤◌, ◌<◌, false, ltb, ◌≡◌, refl, sym, arith, ap, Bool-cases, inl,
  inr, ltb→lt, ltb→le,
}
use mathlib.Core.Path.{subst}
use xb.Common.Int.{
  ℤ, pos, negsuc, pos_part, neg_part, ◌+ℤ◌, ◌-ℤ◌, ◌*ℤ◌, ◌≤ℤ◌, ltb_ℤ, int_laws, *ℤ_parts,
  eq_of_parts,
}
use xb.Temporal.Calendar.{LooseDate, UtcNormalized}
use xb.Temporal.Settle.{calendar_days}
use xb.Temporal.Instant.{
  day_number, year_days, year_start, month_start, year_start_next, month_start_next, year_length,
}
use xb.Temporal.Utc.{IsDate, IsUtc, utc_minutes}

year_start_mono : (y : ℤ) (k : ℕ) → year_start y ≤ℤ year_start (y +ℤ pos k)
year_start_mono y zero = let e : y +ℤ pos 0 ≡ y = omega int_laws in rw e (omega arith)
year_start_mono y (suc k) =
    let e : y +ℤ pos (suc k) ≡ y +ℤ pos k +ℤ pos 1 = omega int_laws in
    rw (e, year_start_next (y +ℤ pos k)) (omega (int_laws, year_start_mono y k))

nonneg_pos : (z : ℤ) → pos 0 ≤ℤ z → pos (pos_part z) ≡ z
nonneg_pos (pos n) h = refl
nonneg_pos (negsuc n) h = absurd (omega arith)

year_start_lt : (a b : ℤ) → a +ℤ pos 1 ≤ℤ b → year_start a +ℤ pos (year_days a) ≤ℤ year_start b
year_start_lt a b h =
    let k = pos_part (b -ℤ (a +ℤ pos 1)) in
    let kept : pos k ≡ b -ℤ (a +ℤ pos 1) = nonneg_pos (b -ℤ (a +ℤ pos 1)) (omega int_laws) in
    let e : a +ℤ pos 1 +ℤ pos k ≡ b = rw kept (omega int_laws) in
    rw (← year_start_next a) (rw e at (year_start_mono (a +ℤ pos 1) k))

month_end :
    (y : ℤ) (k mo : ℕ) → 1 ≤ mo → mo + k ≡ 12 → month_start y mo + calendar_days y mo ≤ year_days y
month_end y zero mo h e =
    let december : mo ≡ 12 = omega arith in rw december (omega (arith, year_length y))
month_end y (suc k) mo h e =
    omega (arith, month_end y k (suc mo) (omega arith) (omega arith), month_start_next y mo h)

month_start_lt :
    (y : ℤ) (a b : ℕ) → 1 ≤ a → a < b → month_start y a + calendar_days y a ≤ month_start y b
month_start_lt y a zero h lt = absurd (omega arith)
month_start_lt y a (suc b) h lt = elim (dec_lt a b) [
  | yes less ↦ omega (arith, month_start_lt y a b h less, month_start_next y b)
  | no same ↦ let e : b ≡ a = omega arith in rw e (omega (arith, month_start_next y a h))
]

year_bounds :
    (t : LooseDate)
    → IsDate t
    → (year_start t.y +ℤ pos 1 ≤ℤ day_number t)
      × (day_number t ≤ℤ year_start t.y +ℤ pos (year_days t.y))
unfolding day_number
year_bounds t v =
    let e = month_end t.y (12 - t.mo) t.mo v.month.0 (omega (arith, v.month)) in
    (omega (int_laws, v.first), omega (int_laws, v.last, e))

year_le :
    (s t : LooseDate) → IsDate s → IsDate t → day_number s ≡ day_number t → ltb_ℤ s.y t.y ≡ false
year_le s t vs vt e = elim (Bool-cases (ltb_ℤ s.y t.y)) [
  | inl less ↦
      let before = year_start_lt s.y t.y (omega (int_laws, ltb→lt _ _ less)) in
      absurd
        (omega (int_laws, year_bounds s vs, year_bounds t vt, before, ap pos_part e, ap neg_part e))
  | inr more ↦ more
]

same_year :
    (y : ℤ) (a b : ℕ) (c d : ℤ)
    → IsDate (record { y = y; mo = a; d = c })
    → IsDate (record { y = y; mo = b; d = d })
    → day_number (record { y = y; mo = a; d = c }) ≡ day_number (record { y = y; mo = b; d = d })
    → ltb a b ≡ false
unfolding day_number
same_year y a b c d va vb e = elim (Bool-cases (ltb a b)) [
  | inl less ↦
      let before = month_start_lt y a b va.month.0 (ltb→lt a b less) in
      absurd (omega (int_laws, va.last, vb.first, before, ap pos_part e, ap neg_part e))
  | inr more ↦ more
]

same_month :
    (y : ℤ) (mo : ℕ) (c d : ℤ)
    → day_number (record { y = y; mo = mo; d = c }) ≡ day_number (record { y = y; mo = mo; d = d })
    → c ≡ d
unfolding day_number
same_month y mo c d e = omega (int_laws, ap pos_part e, ap neg_part e)

-- Two dates of the calendar with one day number are the same.
pub day_number-injective :
    (s t : LooseDate) → IsDate s → IsDate t → day_number s ≡ day_number t → s ≡ t
day_number-injective s t vs vt e =
    let year : s.y ≡ t.y =
      omega (int_laws, ltb→le _ _ (year_le s t vs vt e), ltb→le _ _ (year_le t s vt vs (sym e))) in
    let moved : IsDate (record { y = t.y; mo = s.mo; d = s.d }) =
      subst (λ y. IsDate (record { y = y; mo = s.mo; d = s.d })) year vs in
    let e' : day_number (record { y = t.y; mo = s.mo; d = s.d }) ≡ day_number t =
      subst (λ y. day_number (record { y = y; mo = s.mo; d = s.d }) ≡ day_number t) year e in
    let month : s.mo ≡ t.mo = omega (
      arith,
      ltb→le _ _ (same_year t.y s.mo t.mo s.d t.d moved vt e'),
      ltb→le _ _ (same_year t.y t.mo s.mo t.d s.d vt moved (sym e')),
    ) in
    let e'' : day_number (record { y = t.y; mo = t.mo; d = s.d }) ≡ day_number t =
      subst (λ m. day_number (record { y = t.y; mo = m; d = s.d }) ≡ day_number t) month e' in
    let day = same_month t.y t.mo s.d t.d e'' in λ i. record { y = year i; mo = month i; d = day i }

-- The year, month, day, hour and minute of a normalized time.
abbrev pub utc_date : UtcNormalized → LooseDate
utc_date n = record { y = n.year; mo = n.month; d = pos n.day }

split_minutes :
    (c d : ℤ) (h m h' m' : ℕ)
    → h < 24
    → m < 60
    → h' < 24
    → m' < 60
    → c *ℤ pos 1440 +ℤ pos (h * 60 + m) ≡ d *ℤ pos 1440 +ℤ pos (h' * 60 + m')
    → (c ≡ d) × (h ≡ h') × (m ≡ m')
split_minutes c d h m h' m' hh hm hh' hm' e =
    let p = ap pos_part e in
    let n = ap neg_part e in
    let c' = *ℤ_parts c (pos 1440) in
    let d' = *ℤ_parts d (pos 1440) in
    (
      eq_of_parts c d (omega (int_laws, c', d', p, n)),
      omega (int_laws, c', d', p, n),
      omega (int_laws, c', d', p, n),
    )

-- Two proper times of one instant agree in every field down to the minute.
pub utc_minutes-injective :
    (a b : UtcNormalized)
    → IsUtc a
    → IsUtc b
    → utc_minutes a ≡ utc_minutes b
    → (utc_date a ≡ utc_date b) × (a.hour ≡ b.hour) × (a.minute ≡ b.minute)
unfolding utc_minutes
utc_minutes-injective a b va vb e =
    let (days, hours, minutes) =
      split_minutes (day_number (utc_date a)) (day_number (utc_date b)) a.hour a.minute b.hour
        b.minute va.hour va.minute vb.hour vb.minute e in
    (day_number-injective (utc_date a) (utc_date b) va.date vb.date days, hours, minutes)
