-- ===== src/Tests/Datetimes.antt =====
-- The theorems on types/datetime.rs at the leap day of 2000 and at a point in time with a zone.
use tarant.Base.{◌≡◌, refl, true, ok, arith}
use tarant.Base.Int.{pos, negsuc, ◌+ℤ◌, sub_ℕ}
use tarant.Types.Datetime.{Datetime, IsStored}
use tarant.Types.Datetime.Calendar.{
  Date, civil_from_days, days_later, div_euclid, rem_euclid, times, year_of_era, days_before,
  date_in, month_of, day_of,
}
use tarant.Types.Datetime.Days.{first_date, civil_from_days-days_later}
use tarant.Types.Datetime.Text.{display, eq}
use tarant.Types.Datetime.Reading.{read_text}
use tarant.Types.Datetime.Local.{LiesAt}
use tarant.Types.Datetime.Whole.{parts_of, read_text-display}
use tarant.Types.Datetime.System.{
  before, to_system_time, from_system_time, before_plus, checked, system_parts,
  from_system_time-to_system_time,
}

civil_from_days-days_later_example :
    (civil_from_days (pos 11016) ≡ days_later 11016 first_date)
    × (days_later 11016 (civil_from_days (sub_ℕ 0 11016)) ≡ first_date)
civil_from_days-days_later_example = civil_from_days-days_later 11016

leap_day : civil_from_days (pos 11016) ≡ record { year = pos 2000; month = 2; day = 29 }
unfolding civil_from_days div_euclid rem_euclid times year_of_era days_before date_in month_of
    day_of ◌+ℤ◌
leap_day = refl

-- 2023-11-14T20:43:20.123-01:30
abbrev moment : Datetime
moment = record {
  epoch = pos 1700000000;
  nsec = 123000000;
  tz_offset = negsuc 89;
  tz_index = pos 0;
}

moment_year : (civil_from_days (pos 19675)).year ≡ pos 2023
unfolding civil_from_days div_euclid rem_euclid times year_of_era days_before date_in month_of
    day_of ◌+ℤ◌
moment_year = refl

read_text-display_example :
    (date : Date) × LiesAt (pos 19675) date
    × (date.year ≡ pos 2023)
    × (read_text (display moment) ≡ (parts_of 2023 date 74600, (123000000, negsuc 89)))
read_text-display_example =
    read_text-display moment (pos 19675) 74600 2023 (omega arith) (omega arith) (omega arith)
      moment_year (omega arith) (omega arith) (omega arith)

-- A second and a half before the epoch.
abbrev early : Datetime
early = record { epoch = negsuc 1; nsec = 500000000; tz_offset = pos 0; tz_index = pos 0 }

early-IsStored : IsStored early
early-IsStored = record {
  epoch_in = omega arith;
  nsec_in = omega arith;
  offset_in = omega arith;
  index_in = omega arith;
}

early_held : to_system_time (λ _. true) early ≡ ok (before 1 500000000)
unfolding to_system_time system_parts checked before_plus
early_held = refl

from_system_time-to_system_time_example : eq (from_system_time (before 1 500000000)) early ≡ true
from_system_time-to_system_time_example =
    from_system_time-to_system_time (λ _. true) early (before 1 500000000) early-IsStored refl
      early_held
