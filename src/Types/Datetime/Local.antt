-- ===== src/Types/Datetime/Local.antt =====
-- types/datetime.rs: the local date and second of the day that the text of a point in time shows, against
-- an equation between whole numbers and the steps of the calendar.
use tarant.Base.{ℕ, suc, ◌+◌, ◌-◌, ◌*◌, ◌^◌, ◌<◌, ◌≡◌, ap, false, arith}
use mathlib.Core.Path.{subst}
use tarant.Base.Int.{ℤ, pos, negsuc, pos_part, neg_part, sub_ℕ, ltb_ℤ, ◌+ℤ◌, +ℤ_parts, eq_of_parts}
use tarant.Types.Datetime.{Datetime}
use tarant.Types.Datetime.Calendar.{
  Date, civil_from_days, div_euclid, rem_euclid, times, days_later,
}
use tarant.Types.Datetime.Days.{first_date, civil_from_days-days_later}
use tarant.Types.Datetime.Text.{local_seconds, saturating_add, abs, i64_max, i64_min}

-- The date of a day, by steps of the calendar to or from the first of January 1970.
abbrev pub LiesAt : ℤ → Date → Type 0
LiesAt (pos n) date = date ≡ days_later n first_date
LiesAt (negsuc n) date = days_later (suc n) date ≡ first_date

pub civil_from_days-LiesAt : (days : ℤ) → LiesAt days (civil_from_days days)
civil_from_days-LiesAt (pos n) = (civil_from_days-days_later n).0
civil_from_days-LiesAt (negsuc n) =
    let before : sub_ℕ 0 (suc n) ≡ negsuc n = ground arith in
    subst (λ z. days_later (suc n) (civil_from_days z) ≡ first_date) before
      ((civil_from_days-days_later (suc n)).1)

-- The seconds since the epoch and those of the offset are `days` days and `second` seconds: an equation
-- whose negative parts stand on the other side.
abbrev pub IsLocal : Datetime → ℤ → ℕ → Type 0
IsLocal d days second =
    pos_part d.epoch + 60 * pos_part d.tz_offset + 86400 * neg_part days
    ≡ neg_part d.epoch + 60 * neg_part d.tz_offset + 86400 * pos_part days + second

-- That many seconds.
abbrev seconds_at : ℤ → ℕ → ℤ
seconds_at (pos n) s = pos (86400 * n + s)
seconds_at (negsuc n) s = negsuc (86400 * n + 86399 - s)

split :
    (days : ℤ) (s : ℕ)
    → s < 86400
    → (div_euclid (seconds_at days s) 86400 ≡ days) × (rem_euclid (seconds_at days s) 86400 ≡ s)
unfolding div_euclid rem_euclid
split (pos n) s h = (ap pos (omega (arith, h)), omega (arith, h))
split (negsuc n) s h = (ap negsuc (omega (arith, h)), omega (arith, h))

times_parts :
    (z : ℤ) → pos_part (times 60 z) + 60 * neg_part z ≡ neg_part (times 60 z) + 60 * pos_part z
unfolding times
times_parts (pos n) = omega arith
times_parts (negsuc n) = omega arith

sum :
    (e o days : ℤ) (s : ℕ)
    → s < 86400
    → pos_part e + 60 * pos_part o + 86400 * neg_part days
      ≡ neg_part e + 60 * neg_part o + 86400 * pos_part days + s
    → e +ℤ times 60 o ≡ seconds_at days s
sum e o (pos n) s h same =
    eq_of_parts (e +ℤ times 60 o) (pos (86400 * n + s))
      (omega (arith, same, times_parts o, +ℤ_parts e (times 60 o)))
sum e o (negsuc n) s h same =
    eq_of_parts (e +ℤ times 60 o) (negsuc (86400 * n + 86399 - s))
      (omega (arith, h, same, times_parts o, +ℤ_parts e (times 60 o)))

in_range :
    (days : ℤ) (s : ℕ)
    → s < 86400
    → abs days < 2 ^ 40
    → (ltb_ℤ i64_max (seconds_at days s) ≡ false) × (ltb_ℤ (seconds_at days s) i64_min ≡ false)
in_range (pos n) s h k = (ground (arith, h, k), ground (arith, h, k))
in_range (negsuc n) s h k = (ground (arith, h, k), ground (arith, h, k))

pub local_seconds-IsLocal :
    (d : Datetime) (days : ℤ) (s : ℕ)
    → s < 86400
    → abs days < 2 ^ 40
    → IsLocal d days s
    → (div_euclid (local_seconds d) 86400 ≡ days) × (rem_euclid (local_seconds d) 86400 ≡ s)
unfolding local_seconds saturating_add
local_seconds-IsLocal d days s h k same =
    let (high, low) = in_range days s h k in
    rw (sum d.epoch d.tz_offset days s h same, high, low) (split days s h)
