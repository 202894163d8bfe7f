-- ===== src/Types/Datetime/Calendar.antt =====
-- types/datetime.rs: `civil_from_days`, the date of a count of days, beside the rules of the Gregorian
-- calendar. Its sums stay far inside `i64` for the days of an `i64` of seconds.
use tarant.Base.{
  ℕ, zero, suc, ◌+◌, ◌-◌, ◌*◌, ◌/◌, ◌%◌, ltb, leb, ◌==◌, if◌then◌else◌, Bool, ◌&&◌, ◌||◌, not,
}
use tarant.Base.Int.{ℤ, pos, negsuc, ◌+ℤ◌}

-- `div_euclid` and `rem_euclid` by a positive number.
unfoldable pub div_euclid : ℤ → ℕ → ℤ
div_euclid (pos n) by = pos (n / by)
div_euclid (negsuc n) by = negsuc (n / by)

unfoldable pub rem_euclid : ℤ → ℕ → ℕ
rem_euclid (pos n) by = n % by
rem_euclid (negsuc n) by = by - 1 - n % by

unfoldable pub times : ℕ → ℤ → ℤ
times k (pos n) = pos (k * n)
times k (negsuc n) = negsuc (k * n + (k - 1))

pub record Date : Type 0 where
  pub year : ℤ
  pub month : ℕ
  pub day : ℕ

-- The year of an era of 400 years, counted from March, by the day of the era.
unfoldable pub year_of_era : ℕ → ℕ
year_of_era doe = (doe - doe / 1460 + doe / 36524 - doe / 146096) / 365

-- The days of an era before one of its years.
unfoldable pub days_before : ℕ → ℕ
days_before yoe = 365 * yoe + yoe / 4 - yoe / 100

-- The month, from March, of a day of the year.
abbrev pub shifted_month : ℕ → ℕ
shifted_month doy = (5 * doy + 2) / 153

unfoldable pub month_of : ℕ → ℕ
month_of doy = let mp = shifted_month doy in if ltb mp 10 then mp + 3 else mp - 9

unfoldable pub day_of : ℕ → ℕ
day_of doy = doy - (153 * shifted_month doy + 2) / 5 + 1

-- A day of the year that began in March of the year given.
unfoldable pub date_in : ℤ → ℕ → Date
date_in start doy = record {
  year = start +ℤ pos (if leb (month_of doy) 2 then 1 else 0);
  month = month_of doy;
  day = day_of doy;
}

unfoldable pub civil_from_days : ℤ → Date
civil_from_days days =
    let z = days +ℤ pos 719468 in
    let era = div_euclid z 146097 in
    let doe = rem_euclid z 146097 in
    let yoe = year_of_era doe in date_in (pos yoe +ℤ times 400 era) (doe - days_before yoe)

-- The rules of the calendar, which the code does not spell out.
unfoldable pub is_leap : ℤ → Bool
is_leap year =
    (rem_euclid year 4 == 0) && (not (rem_euclid year 100 == 0) || (rem_euclid year 400 == 0))

unfoldable pub days_in_month : Bool → ℕ → ℕ
days_in_month leap month =
    if month == 2
    then (if leap then 29 else 28)
    else if (month == 4) || (month == 6) || (month == 9) || (month == 11)
    then 30
    else 31

unfoldable pub tomorrow : Date → Date
tomorrow date =
    if ltb date.day (days_in_month (is_leap date.year) date.month)
    then record { year = date.year; month = date.month; day = suc date.day }
    else if date.month == 12
    then record { year = date.year +ℤ pos 1; month = 1; day = 1 }
    else record { year = date.year; month = suc date.month; day = 1 }

unfoldable pub days_later : ℕ → Date → Date
days_later zero date = date
days_later (suc n) date = tomorrow (days_later n date)
