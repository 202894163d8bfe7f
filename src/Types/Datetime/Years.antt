-- ===== src/Types/Datetime/Years.antt =====
-- types/datetime.rs: the years and the days of a year that `civil_from_days` finds, against tables over
-- the 400 years of an era and the 366 days of a year.
use tarant.Base.{
  ℕ, suc, ◌+◌, ◌-◌, ◌*◌, ◌/◌, ◌≤◌, ◌<◌, ◌≡◌, refl, ◌∙◌, ltb, leb, ◌==◌, if◌then◌else◌, zero, ◌⊎◌,
  inl, inr, Bool, true, ◌&&◌, arith, ==_iff,
}
use tarant.Base.Bits.{all_below, all_below_at}
use tarant.Base.Int.{pos}
use tarant.Types.Datetime.Calendar.{is_leap, rem_euclid, year_of_era, days_before}

-- The days of an era before the next year, whose last one has the day of the leap century.
unfoldable pub days_through : ℕ → ℕ
days_through yoe = if yoe == 399 then 146097 else days_before (suc yoe)

-- The days that are left when those of the leap years are taken out.
unfoldable without_leaps : ℕ → ℕ
without_leaps doe = doe - doe / 1460 + doe / 36524 - doe / 146096

unfoldable year_test : ℕ → Bool
year_test y =
    leb (365 * y) (without_leaps (days_before y))
    && ltb (without_leaps (days_through y - 1)) (365 * y + 365)
    && ltb (days_before y) (days_through y)

year_table : all_below 400 year_test ≡ true
unfolding all_below year_test days_through days_before without_leaps
year_table = refl

without_leaps_rises : (a b : ℕ) → a ≤ b → b < 146097 → without_leaps a ≤ without_leaps b
unfolding without_leaps
without_leaps_rises a b h k = omega arith

year_facts :
    (y : ℕ)
    → y < 400
    → (365 * y ≤ without_leaps (days_before y))
      × (without_leaps (days_through y - 1) < 365 * y + 365)
      × (days_before y < days_through y)
unfolding year_test
year_facts y h = let e = all_below_at year_test 400 y h year_table in ground (arith, e)

last_cases : (y : ℕ) → y < 400 → (y ≡ 399) ⊎ (y < 399)
last_cases y h = ground arith

-- The year that the days without those of leap years give.
abbrev year_found : ℕ → ℕ
year_found doe = without_leaps doe / 365

found : (doe : ℕ) → year_of_era doe ≡ year_found doe
unfolding year_of_era without_leaps
found doe = refl

through_before : (y : ℕ) → y < 399 → days_through y ≡ days_before (suc y)
unfolding days_through
through_before y h = ground arith

through_last : (y : ℕ) → y ≡ 399 → days_through y ≡ 146097
unfolding days_through
through_last y h = ground arith

through_in : (y : ℕ) → y < 400 → days_through y ≤ 146097
unfolding days_through days_before
through_in y h = ground arith

before_zero : days_before 0 ≡ 0
unfolding days_before
before_zero = refl

year_low : (y doe : ℕ) → y < 400 → doe < 146097 → 365 * y ≤ without_leaps doe → days_before y ≤ doe
year_low zero doe h k low = rw before_zero (omega arith)
year_low (suc y) doe h k low =
    let (a, b, c) = year_facts y (omega arith) in
    let e = through_before y (omega arith) in
    let rises = without_leaps_rises doe (days_through y - 1) in
    ground (arith, e, low, b, c, k, h, through_in y, rises)

year_high :
    (y doe : ℕ) → y < 400 → doe < 146097 → without_leaps doe < 365 * y + 365 → doe < days_through y
year_high y doe h k high = elim (last_cases y h) [
  | inl e ↦ ground (arith, through_last y e)
  | inr e ↦
      let (a, b, c) = year_facts (suc y) (omega arith) in
      let next = through_before y e in
      let rises = without_leaps_rises (days_before (suc y)) doe in
      ground (arith, next, a, k, high, rises)
]

year_in : (doe : ℕ) → doe < 146097 → year_found doe < 400
unfolding without_leaps
year_in doe h = omega arith

-- A day is in the year that is found.
pub year_of_era-holds :
    (doe : ℕ)
    → doe < 146097
    → (year_of_era doe < 400)
      × (days_before (year_of_era doe) ≤ doe)
      × (doe < days_through (year_of_era doe))
year_of_era-holds doe h = rw (found doe) (
  year_in doe h,
  year_low (year_found doe) doe (year_in doe h) h (omega arith),
  year_high (year_found doe) doe (year_in doe h) h (omega arith),
)

-- A day of a year is found to be in it.
pub year_of_era_unique :
    (y doe : ℕ) → y < 400 → days_before y ≤ doe → doe < days_through y → year_of_era doe ≡ y
year_of_era_unique y doe h low high =
    let (a, b, c) = year_facts y h in
    let inside = through_in y h in
    let from = without_leaps_rises (days_before y) doe low (omega arith) in
    let to = without_leaps_rises doe (days_through y - 1) (omega arith) (omega arith) in
    rw (found doe) (omega arith)

unfoldable length_test : ℕ → Bool
length_test y = days_through y == days_before y + (if is_leap (pos (suc y)) then 366 else 365)

length_table : all_below 400 length_test ≡ true
unfolding all_below length_test days_through days_before is_leap rem_euclid
length_table = refl

-- A year that begins in March has the leap day of the next one.
pub length_of_year :
    (y : ℕ)
    → y < 400
    → days_through y ≡ days_before y + (if is_leap (pos (suc y)) then 366 else 365)
unfolding length_test
length_of_year y h = (==_iff _ _).0 (all_below_at length_test 400 y h length_table)

-- The day after a year is the first one of the next year.
pub year_of_era-next :
    (y doe : ℕ)
    → y < 400
    → doe < 146097
    → doe ≡ days_through y
    → (y < 399) × (doe ≡ days_before (suc y)) × (year_of_era doe ≡ suc y)
year_of_era-next y doe h k e = elim (last_cases y h) [
  | inl last ↦ absurd (omega (arith, through_last y last))
  | inr more ↦
      let start = e ∙ through_before y more in
      let (a, b, c) = year_facts (suc y) (omega arith) in
      (more, start, year_of_era_unique (suc y) doe (omega arith) (omega arith) (omega arith))
]
