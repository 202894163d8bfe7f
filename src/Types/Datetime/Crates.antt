-- ===== src/Types/Datetime/Crates.antt =====
-- types/datetime.rs: the conversions from and to the crates time, chrono and jiff. Their values are
-- given by what the code reads of them, and what it asks of them is a parameter.
use tarant.Base.{ℕ, suc, ◌-◌, ◌/◌, ◌^◌, if◌then◌else◌, ◌&&◌, Option, Result, ok, ◌>>=◌, ok_or}
use tarant.Base.Int.{ℤ, pos, negsuc, ◌+ℤ◌, ◌-ℤ◌, leb_ℤ, sub_ℕ}
use tarant.Types.Datetime.{Datetime, from_unix, nanos_per_second}
use tarant.Types.Datetime.Calendar.{times}
use tarant.Types.Datetime.Text.{with_tz_offset}

pub data CrateError : Type 0 where
  instant_out_of_range offset_out_of_range : CrateError

-- `From<time::OffsetDateTime>`: `unix_timestamp`, `nanosecond` and `whole_minutes`.
unfoldable pub from_time : ℤ → ℕ → ℤ → Datetime
unfolding with_tz_offset
from_time seconds nanos minutes = with_tz_offset (from_unix seconds nanos) minutes

-- `/ 60`, towards zero.
unfoldable pub minutes_of : ℤ → ℤ
minutes_of (pos n) = pos (n / 60)
minutes_of (negsuc n) = sub_ℕ 0 (suc n / 60)

-- `i16::try_from(minutes).unwrap_or(0)`
unfoldable pub to_i16_or_zero : ℤ → ℤ
to_i16_or_zero z = if leb_ℤ (negsuc (2 ^ 15 - 1)) z && leb_ℤ z (pos (2 ^ 15 - 1)) then z else pos 0

-- `From<chrono::DateTime>`: `timestamp`, `timestamp_subsec_nanos` and `local_minus_utc`.
unfoldable pub from_chrono : ℤ → ℕ → ℤ → Datetime
from_chrono seconds nanos offset_seconds =
    with_tz_offset (from_unix seconds nanos) (to_i16_or_zero (minutes_of offset_seconds))

-- `From<jiff::Timestamp>`: `as_second` and `subsec_nanosecond`, both of the sign of the instant.
unfoldable pub from_jiff : ℤ → ℤ → Datetime
from_jiff seconds (pos nanos) = from_unix seconds nanos
from_jiff seconds (negsuc n) = from_unix (seconds -ℤ pos 1) (nanos_per_second - suc n)

-- `From<&jiff::Zoned>`
unfoldable pub from_zoned : ℤ → ℤ → ℤ → Datetime
unfolding from_jiff
from_zoned seconds nanos offset_seconds =
    with_tz_offset (from_jiff seconds nanos) (to_i16_or_zero (minutes_of offset_seconds))

-- To a crate's instants and offsets, if it has them.
module _ {Instant Offset Zoned : Type 0} (offset_of : ℤ → Option Offset)
    (in_zone : Instant → Offset → Zoned) where
  -- The offset in seconds.
  unfoldable pub zoned : Datetime → Option Instant → Result CrateError Zoned
  zoned d instant = do
    at ← ok_or instant instant_out_of_range
    offset ← ok_or (offset_of (times 60 d.tz_offset)) offset_out_of_range
    ok (in_zone at offset)

  -- `from_unix_timestamp_nanos` of the whole nanoseconds.
  unfoldable pub to_time : (ℤ → Option Instant) → Datetime → Result CrateError Zoned
  unfolding zoned
  to_time of_nanos d = zoned d (of_nanos (times nanos_per_second d.epoch +ℤ pos d.nsec))

  -- `from_timestamp` of chrono, and `Timestamp::new` of jiff.
  unfoldable pub to_zoned : (ℤ → ℕ → Option Instant) → Datetime → Result CrateError Zoned
  unfolding zoned
  to_zoned of_parts d = zoned d (of_parts d.epoch d.nsec)

-- `TryFrom<Datetime> for jiff::Timestamp`
unfoldable pub to_timestamp :
    {Instant : Type 0} → (ℤ → ℕ → Option Instant) → Datetime → Result CrateError Instant
to_timestamp of_parts d = ok_or (of_parts d.epoch d.nsec) instant_out_of_range
