-- ===== src/Types/Datetime/Days.antt =====
-- types/datetime.rs: `civil_from_days` over all days, era by era, against the calendar.
use tarant.Base.{
  ℕ, zero, suc, ◌+◌, ◌-◌, ◌≤◌, ◌<◌, ◌≡◌, refl, sym, ap, ◌∙◌, ltb, if◌then◌else◌, Bool, true, ◌&&◌,
  arith, ◌⊎◌, inl, inr,
}
use tarant.Base.Int.{ℤ, pos, negsuc, ◌+ℤ◌, int_laws, sub_ℕ}
use tarant.Types.Datetime.Calendar.{
  Date, date_in, month_of, day_of, is_leap, rem_euclid, tomorrow, times, div_euclid, year_of_era,
  days_before, civil_from_days, days_later,
}
use tarant.Base.Bits.{all_below, all_below_at}
use tarant.Types.Datetime.Years.{
  days_through, year_of_era-holds, year_of_era_unique, length_of_year, year_of_era-next,
}
use tarant.Types.Datetime.Steps.{date_in-tomorrow, date_in-last}

-- The next number has the next remainder, or the next quotient.
rem_euclid-suc :
    (z : ℤ)
    → suc (rem_euclid z 146097) < 146097
    → (rem_euclid (z +ℤ pos 1) 146097 ≡ suc (rem_euclid z 146097))
      × (div_euclid (z +ℤ pos 1) 146097 ≡ div_euclid z 146097)
unfolding rem_euclid div_euclid ◌+ℤ◌
rem_euclid-suc (pos n) h = ground arith
rem_euclid-suc (negsuc zero) h = ground arith
rem_euclid-suc (negsuc (suc n)) h = ground arith

rem_euclid-wrap :
    (z : ℤ)
    → suc (rem_euclid z 146097) ≡ 146097
    → (rem_euclid (z +ℤ pos 1) 146097 ≡ 0)
      × (div_euclid (z +ℤ pos 1) 146097 ≡ div_euclid z 146097 +ℤ pos 1)
unfolding rem_euclid div_euclid ◌+ℤ◌
rem_euclid-wrap (pos n) h = ground arith
rem_euclid-wrap (negsuc zero) h = ground arith
rem_euclid-wrap (negsuc (suc n)) h = ground arith

rem_euclid-below : (z : ℤ) → rem_euclid z 146097 < 146097
unfolding rem_euclid
rem_euclid-below (pos n) = omega arith
rem_euclid-below (negsuc n) = omega arith

-- The years of an era are leap years as those of the first are.
era_leap : (y : ℕ) (era : ℤ) → is_leap (pos y +ℤ times 400 era) ≡ is_leap (pos y)
unfolding is_leap rem_euclid times ◌+ℤ◌
era_leap y (pos n) = ground arith
era_leap y (negsuc n) = ground arith

next_year : (y : ℕ) (era : ℤ) → pos y +ℤ times 400 era +ℤ pos 1 ≡ pos (suc y) +ℤ times 400 era
unfolding ◌+ℤ◌
next_year y era = ground (arith)

next_era : (era : ℤ) → pos 399 +ℤ times 400 era +ℤ pos 1 ≡ pos 0 +ℤ times 400 (era +ℤ pos 1)
unfolding ◌+ℤ◌ times
next_era (pos n) = ground arith
next_era (negsuc zero) = ground arith
next_era (negsuc (suc n)) = ground arith

-- The date of a day of an era.
abbrev of_era : ℤ → ℕ → Date
of_era era doe =
    date_in (pos (year_of_era doe) +ℤ times 400 era) (doe - days_before (year_of_era doe))

leap_after : (y : ℕ) (era : ℤ) → is_leap (pos y +ℤ times 400 era +ℤ pos 1) ≡ is_leap (pos (suc y))
leap_after y era = rw (next_year y era) (era_leap (suc y) era)

length_in :
    (y : ℕ) (era : ℤ)
    → y < 400
    → days_through y
      ≡ days_before y + (if is_leap (pos y +ℤ times 400 era +ℤ pos 1) then 366 else 365)
length_in y era h = rw (leap_after y era) (length_of_year y h)

step_cases : (a b : ℕ) → a < b → (suc a < b) ⊎ (suc a ≡ b)
step_cases a b h = ground arith

-- One day later in an era.
of_era-tomorrow :
    (era : ℤ) (doe : ℕ) → suc doe < 146097 → of_era era (suc doe) ≡ tomorrow (of_era era doe)
of_era-tomorrow era doe h =
    let y = year_of_era doe in
    let (inside, low, high) = year_of_era-holds doe (omega arith) in
    let long = length_in y era inside in
    elim (step_cases doe (days_through y) high) [
      | inl within ↦
          let same : year_of_era (suc doe) ≡ y =
            year_of_era_unique y (suc doe) inside (omega arith) within in
          let later : suc doe - days_before y ≡ suc (doe - days_before y) = omega arith in
          rw (same, later)
            (date_in-tomorrow (pos y +ℤ times 400 era) (doe - days_before y) (omega arith))
      | inr over ↦
          let (more, start, next) = year_of_era-next y (suc doe) inside h over in
          let first : suc doe - days_before (suc y) ≡ 0 = omega arith in
          rw (next, first, sym (next_year y era))
            (date_in-last (pos y +ℤ times 400 era) (doe - days_before y) (omega arith))
    ]

century : is_leap (pos 400) ≡ true
unfolding is_leap rem_euclid
century = refl

-- The day after the last one of an era.
of_era-wrap :
    (era : ℤ) (doe : ℕ) → suc doe ≡ 146097 → of_era (era +ℤ pos 1) 0 ≡ tomorrow (of_era era doe)
unfolding year_of_era days_before
of_era-wrap era doe h =
    let last : doe ≡ 146096 = omega arith in
    let leap = leap_after 399 era ∙ century in
    rw last (
      ap (λ start. date_in start 0) (sym (next_era era))
      ∙ date_in-last (pos 399 +ℤ times 400 era) 365 (rw leap refl))

-- The date of the next day is the next date of the calendar.
civil_from_days-tomorrow :
    (days : ℤ) → civil_from_days (days +ℤ pos 1) ≡ tomorrow (civil_from_days days)
unfolding civil_from_days
civil_from_days-tomorrow days =
    let z = days +ℤ pos 719468 in
    let moved : days +ℤ pos 1 +ℤ pos 719468 ≡ z +ℤ pos 1 = grind int_laws in
    elim (step_cases (rem_euclid z 146097) 146097 (rem_euclid-below z)) [
      | inl within ↦
          let (r, q) = rem_euclid-suc z within in
          rw (moved, r, q) (of_era-tomorrow (div_euclid z 146097) (rem_euclid z 146097) within)
      | inr over ↦
          let (r, q) = rem_euclid-wrap z over in
          rw (moved, r, q) (of_era-wrap (div_euclid z 146097) (rem_euclid z 146097) over)
    ]

unfoldable in_range : ℕ → Bool
in_range doy =
    ltb 0 (month_of doy) && ltb (month_of doy) 13 && ltb 0 (day_of doy) && ltb (day_of doy) 32

range_table : all_below 366 in_range ≡ true
unfolding all_below in_range month_of day_of
range_table = refl

year_length : (leap : Bool) → (if leap then 366 else 365) ≤ 366
year_length leap = ground arith

-- The months are 1 to 12 and the days 1 to 31.
pub month_day :
    (days : ℤ)
    → let date = civil_from_days days in
      ((0 < date.month) × (date.month < 13)) × ((0 < date.day) × (date.day < 32))
unfolding civil_from_days date_in in_range
month_day days =
    let z = days +ℤ pos 719468 in
    let doe = rem_euclid z 146097 in
    let y = year_of_era doe in
    let (inside, low, high) = year_of_era-holds doe (rem_euclid-below z) in
    let doy = doe - days_before y in
    let short : doy < 366 =
      omega (arith, length_of_year y inside, year_length (is_leap (pos (suc y))), high, low) in
    let e = all_below_at in_range 366 doy short range_table in ground (arith, e)

-- The first day of 1970.
abbrev pub first_date : Date
first_date = record { year = pos 1970; month = 1; day = 1 }

back_from : (n : ℕ) → sub_ℕ 0 (suc n) +ℤ pos 1 ≡ sub_ℕ 0 n
unfolding ◌+ℤ◌
back_from n = ground arith

ahead_of : (n : ℕ) → pos n +ℤ pos 1 ≡ pos (suc n)
unfolding ◌+ℤ◌
ahead_of n = ground arith

civil_from_days_zero : civil_from_days (pos 0) ≡ first_date
unfolding civil_from_days div_euclid rem_euclid times year_of_era days_before date_in month_of
    day_of ◌+ℤ◌
civil_from_days_zero = refl

civil_from_days_ahead : (n : ℕ) → civil_from_days (pos n) ≡ days_later n first_date
unfolding days_later
civil_from_days_ahead zero = civil_from_days_zero
civil_from_days_ahead (suc n) =
    ap civil_from_days (sym (ahead_of n))
    ∙ (civil_from_days-tomorrow (pos n) ∙ ap tomorrow (civil_from_days_ahead n))

days_later-tomorrow : (n : ℕ) (date : Date) → days_later n (tomorrow date) ≡ days_later (suc n) date
unfolding days_later
days_later-tomorrow zero date = refl
days_later-tomorrow (suc n) date = ap tomorrow (days_later-tomorrow n date)

days_later-none : (date : Date) → days_later 0 date ≡ date
unfolding days_later
days_later-none date = refl

civil_from_days_back : (n : ℕ) → days_later n (civil_from_days (sub_ℕ 0 n)) ≡ first_date
civil_from_days_back zero = ap (days_later 0) civil_from_days_zero ∙ days_later-none first_date
civil_from_days_back (suc n) =
    sym (days_later-tomorrow n (civil_from_days (sub_ℕ 0 (suc n))))
    ∙ (ap (days_later n)
          (sym (civil_from_days-tomorrow (sub_ℕ 0 (suc n))) ∙ ap civil_from_days (back_from n))
        ∙ civil_from_days_back n)

-- The date of day n is the one that n steps of the Gregorian calendar reach from the first of January
-- 1970, and n steps from the date of day -n reach that first of January.
pub civil_from_days-days_later :
    (n : ℕ)
    → (civil_from_days (pos n) ≡ days_later n first_date)
      × (days_later n (civil_from_days (sub_ℕ 0 n)) ≡ first_date)
civil_from_days-days_later n = (civil_from_days_ahead n, civil_from_days_back n)
