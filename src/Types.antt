-- ===== src/Types.antt =====
-- The field types of types/: uuid, datetime, interval, decimal.
pub mod Chars
pub mod Uuid
pub mod Interval
pub mod Datetime
pub mod Decimal
pub mod Values
