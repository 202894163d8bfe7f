-- ===== src/Types/Datetime/Steps.antt =====
-- types/datetime.rs: the date of a day of a year, one day later.
use tarant.Base.{
  ℕ, suc, ◌<◌, ◌≡◌, refl, ltb, leb, ◌==◌, if◌then◌else◌, Bool, true, false, ◌&&◌, ◌||◌, not, arith,
  inl, inr, Bool-cases,
}
use tarant.Base.Int.{ℤ, pos, ◌+ℤ◌, plus_zero}
use tarant.Base.Bits.{all_below, all_below_at}
use tarant.Types.Datetime.Calendar.{
  Date, date_in, month_of, day_of, days_in_month, is_leap, tomorrow,
}

-- Whether a day of the year and the next one follow each other in a month, or two months.
unfoldable step_test : Bool → ℕ → ℕ → ℕ → ℕ → Bool
step_test leap m d m_next d_next =
    if ltb d (days_in_month leap m)
    then (m_next == m) && (d_next == suc d)
    else ((m_next == (if m == 12 then 1 else suc m)) && ((d_next == 1) && not (m == 2)))

unfoldable month_step : Bool → ℕ → Bool
month_step leap doy =
    step_test leap (month_of doy) (day_of doy) (month_of (suc doy)) (day_of (suc doy))

-- The months of the year before have no leap day to be missed.
unfoldable both_step : ℕ → Bool
both_step doy = month_step true doy && (month_step false doy || leb (month_of doy) 2)

leap_table : all_below 365 both_step ≡ true
unfolding all_below both_step month_step step_test day_of month_of days_in_month
leap_table = refl

common_table : all_below 364 (month_step false) ≡ true
unfolding all_below both_step month_step step_test day_of month_of days_in_month
common_table = refl

-- The step in the year that began in March, with the leap day of the year after.
month_step-holds :
    (leap : Bool) (doy : ℕ) → suc doy < (if leap then 366 else 365) → month_step leap doy ≡ true
unfolding both_step
month_step-holds true doy h =
    let e = all_below_at both_step 365 doy (omega arith) leap_table in ground (arith, e)
month_step-holds false doy h = all_below_at (month_step false) 364 doy (omega arith) common_table

month_step-early :
    (leap : Bool) (doy : ℕ)
    → suc doy < 366
    → leb (month_of doy) 2 ≡ false
    → month_step leap doy ≡ true
unfolding both_step
month_step-early true doy h e =
    let f = all_below_at both_step 365 doy (omega arith) leap_table in ground (arith, f)
month_step-early false doy h e =
    let f = all_below_at both_step 365 doy (omega arith) leap_table in ground (arith, f)

abbrev year_at : ℤ → ℕ → ℤ
year_at start month = start +ℤ pos (if leb month 2 then 1 else 0)

abbrev date_at : ℤ → ℕ → ℕ → Date
date_at start month day = record { year = year_at start month; month = month; day = day }

-- Two days that follow each other by the test are dates that do.
follows :
    (start : ℤ) (m d m_next d_next : ℕ)
    → step_test (is_leap (year_at start m)) m d m_next d_next ≡ true
    → date_at start m_next d_next ≡ tomorrow (date_at start m d)
unfolding tomorrow step_test
follows start m d m_next d_next e =
    let leap = is_leap (year_at start m) in
    elim (Bool-cases (ltb d (days_in_month leap m))) [
      | inl inside ↦
          let same : m_next ≡ m = ground (arith, e, inside) in
          let later : d_next ≡ suc d = ground (arith, e, inside) in rw (inside, same, later) refl
      | inr over ↦
          let first : d_next ≡ 1 = ground (arith, e, over) in
          elim (Bool-cases (m == 12)) [
            | inl december ↦
                let m_is : m ≡ 12 = ground (arith, december) in
                let new : m_next ≡ 1 = ground (arith, e, over, december) in
                rw (over, december, first, new, m_is, plus_zero start) refl
            | inr other ↦
                let new : m_next ≡ suc m = ground (arith, e, over, other) in
                let same : leb (suc m) 2 ≡ leb m 2 = ground (arith, e, over) in
                rw (over, other, first, new, same) refl
          ]
    ]

length_below : (leap : Bool) (doy : ℕ) → suc doy < (if leap then 366 else 365) → suc doy < 366
length_below leap doy h = ground (arith, h)

module _ (start : ℤ) (doy : ℕ) where
  step_here :
      suc doy < (if is_leap (start +ℤ pos 1) then 366 else 365)
      → month_step (is_leap (year_at start (month_of doy))) doy ≡ true
  step_here h = elim (Bool-cases (leb (month_of doy) 2)) [
    | inl e ↦ rw e (month_step-holds (is_leap (start +ℤ pos 1)) doy h)
    | inr e ↦ month_step-early (is_leap (year_at start (month_of doy))) doy (length_below _ doy h) e
  ]

  pub date_in-tomorrow :
      suc doy < (if is_leap (start +ℤ pos 1) then 366 else 365)
      → date_in start (suc doy) ≡ tomorrow (date_in start doy)
  unfolding date_in month_step
  date_in-tomorrow h =
      follows start (month_of doy) (day_of doy) (month_of (suc doy)) (day_of (suc doy))
        (step_here h)

-- The last day of February, in both kinds of years.
last_day :
    (start : ℤ) (leap : Bool)
    → is_leap (start +ℤ pos 1) ≡ leap
    → date_in (start +ℤ pos 1) 0 ≡ tomorrow (date_in start (if leap then 365 else 364))
unfolding date_in tomorrow days_in_month month_of day_of
last_day start true e = rw (e, plus_zero (start +ℤ pos 1)) refl
last_day start false e = rw (e, plus_zero (start +ℤ pos 1)) refl

pub date_in-last :
    (start : ℤ) (doy : ℕ)
    → suc doy ≡ (if is_leap (start +ℤ pos 1) then 366 else 365)
    → date_in (start +ℤ pos 1) 0 ≡ tomorrow (date_in start doy)
date_in-last start doy h =
    let e : doy ≡ (if is_leap (start +ℤ pos 1) then 365 else 364) = ground (arith, h) in
    rw e (last_day start (is_leap (start +ℤ pos 1)) refl)
