-- ===== src/Tests/Fields.antt =====
-- The theorems on types/ at concrete values.
use tarant.Base.{inr, ℕ, ◌≡◌, refl, List, [], ◌∷◌, false, some, ok, arith}
use tarant.Base.Int.{ℤ, pos, negsuc}
use tarant.Types.Interval.{Adjust, Interval, fields}
use tarant.Types.Datetime.{Datetime, IsStored}
use tarant.Types.Uuid.{show, from_str, from_str-show}
use tarant.Types.Decimal.{Decimal, assemble, without_leading, bounded, zero_decimal}
use tarant.Types.Decimal.Payload.{IsDecimal}
use tarant.Types.Values.{
  IsUuidOnly, IsDatetimeOnly, IsDecimalOnly, IsIntervalOnly, ExtValues, uuid_to_value,
  datetime_to_value, decimal_to_value, interval_to_value, field_values,
}
use tarant.Tests.Crates.{rmp_example, ReadsBack_example}

-- A year and minus 77 days, to the last day of the month.
abbrev span : Interval
span = record {
  years = pos 1;
  months = pos 0;
  weeks = pos 0;
  days = negsuc 76;
  hours = pos 0;
  minutes = pos 0;
  seconds = pos 0;
  nanoseconds = pos 0;
  adjust = Adjust.snap;
}

abbrev sixteen : List ℕ
sixteen =
    0xf6 ∷ 0x42 ∷ 0x3b ∷ 0xdf ∷ 0xb4 ∷ 0x9e ∷ 0x49 ∷ 0x13 ∷ 0xb3 ∷ 0x61 ∷ 0x07 ∷ 0x40 ∷ 0xc9 ∷ 0x70
    ∷ 0x2e ∷ 0x4b ∷ []

from_str-show_example : from_str (show sixteen) ≡ ok sixteen
from_str-show_example = from_str-show sixteen (ground arith) refl

-- Half a second before the epoch, at three hours east.
abbrev moment : Datetime
moment = record { epoch = negsuc 0; nsec = 500000000; tz_offset = pos 180; tz_index = pos 0 }

abbrev moment_stored : IsStored moment
moment_stored = record {
  epoch_in = omega arith;
  nsec_in = omega arith;
  offset_in = omega arith;
  index_in = omega arith;
}

abbrev values_example : ExtValues
values_example = record {
  Value = ℤ × List ℕ;
  ext = λ tag payload. (tag, payload);
  as_ext = λ v. some v;
}

abbrev zero_example : Decimal
zero_example = record { negative = false; scale = pos 0; digits = 0 ∷ [] }

zero_example-IsDecimal : IsDecimal zero_example
unfolding assemble without_leading bounded zero_decimal
zero_example-IsDecimal = record {
  digits_in_range = (omega arith, tt);
  scale_in_range = (omega arith, omega arith);
  at_most_38 = omega arith;
  form = inr (refl, refl, refl, refl);
}

field_values_example :
    IsUuidOnly values_example rmp_example sixteen (uuid_to_value values_example sixteen)
    × IsDatetimeOnly values_example rmp_example moment (datetime_to_value values_example moment)
    × ((value : ℤ × List ℕ) × (decimal_to_value values_example rmp_example zero_example ≡ ok value)
        × IsDecimalOnly values_example rmp_example zero_example value)
    × IsIntervalOnly values_example rmp_example span
        (interval_to_value values_example rmp_example span)
field_values_example =
    field_values values_example (record { as_ext-ext = λ tag payload. refl }) rmp_example
      ReadsBack_example sixteen moment zero_example span refl moment_stored zero_example-IsDecimal
      (unfold fields in ground arith)
