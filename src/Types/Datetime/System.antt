-- ===== src/Types/Datetime/System.antt =====
-- types/datetime.rs: the conversions from and to the time of the system, which is so far after the Unix
-- epoch or so far before it. Which of those a platform can hold is a parameter.
use tarant.Base.{
  ℕ, suc, ◌+◌, ◌-◌, ◌^◌, ◌%◌, ◌/◌, ◌<◌, ◌≡◌, refl, ltb, ◌==◌, if◌then◌else◌, Bool, Bool-cases, inl,
  inr, ok-injective, true, false, arith, Result, ok, err, ◌>>=◌, >>=-eq-ok,
}
use tarant.Base.Int.{ℤ, pos, negsuc, sub_ℕ, ltb_ℤ, plus_zero}
use tarant.Types.Datetime.{Datetime, from_unix, nanos_per_second, InWidth, IsStored}
use tarant.Types.Datetime.Text.{eq, i64_min}

-- What `duration_since` the Unix epoch says: so far after it, or so far before.
pub data SystemTime : Type 0 where
  after before : ℕ → ℕ → SystemTime

-- `i64::try_from(seconds).unwrap_or(i64::MAX)`
abbrev pub clamped : ℕ → ℕ
clamped seconds = if ltb (2 ^ 63 - 1) seconds then 2 ^ 63 - 1 else seconds

unfoldable pub from_system_time : SystemTime → Datetime
from_system_time (after seconds nanos) = from_unix (pos (clamped seconds)) nanos
from_system_time (before seconds nanos) =
    if nanos == 0
    then from_unix (sub_ℕ 0 (clamped seconds)) 0
    else from_unix (sub_ℕ 0 (clamped seconds + 1)) (nanos_per_second - nanos)

-- Why a conversion fails: the platform cannot hold the time.
pub data SystemTimeError : Type 0 where
  out_of_range : SystemTimeError

-- Seconds before the epoch, and nanoseconds after that.
unfoldable pub before_plus : ℕ → ℕ → SystemTime
before_plus seconds nanos =
    if nanos == 0 then before seconds 0 else before (seconds - 1) (nanos_per_second - nanos)

unfoldable pub checked : (SystemTime → Bool) → SystemTime → Result SystemTimeError SystemTime
checked held time = if held time then ok time else err out_of_range

unfoldable pub system_parts : (SystemTime → Bool) → ℤ → ℕ → Result SystemTimeError SystemTime
system_parts held (pos seconds) nanos = checked held (after seconds nanos)
system_parts held (negsuc n) nanos =
    checked held (before (suc n) 0) >>= λ _. checked held (before_plus (suc n) nanos)

unfoldable pub to_system_time : (SystemTime → Bool) → Datetime → Result SystemTimeError SystemTime
to_system_time held d = system_parts held d.epoch d.nsec

checked-ok : (held : SystemTime → Bool) (t time : SystemTime) → checked held t ≡ ok time → t ≡ time
unfolding checked
checked-ok held t time e = elim (Bool-cases (held t)) [
  | inl fits ↦ ok-injective (rw fits at e)
  | inr over ↦ let refused = rw over at e in cc refused
]

-- The instant that a time of the system is converted to.
abbrev Instant : SystemTime → ℤ → ℕ → Type 0
Instant time epoch nsec =
    (from_system_time time).epoch ≡ epoch × (from_system_time time).nsec ≡ nsec

from_unix_small :
    (z : ℤ) (nsec : ℕ)
    → ltb_ℤ (pos (2 ^ 63 - 1)) z ≡ false
    → nsec < nanos_per_second
    → ((from_unix z nsec).epoch ≡ z) × ((from_unix z nsec).nsec ≡ nsec)
unfolding from_unix
from_unix_small z nsec h k =
    let whole : nsec / nanos_per_second ≡ 0 = omega arith in
    let part : nsec % nanos_per_second ≡ nsec = omega arith in
    (rw (whole, plus_zero z, h) refl, part)

after_back :
    (n nsec : ℕ) → n < 2 ^ 63 → nsec < nanos_per_second → Instant (after n nsec) (pos n) nsec
unfolding from_system_time
after_back n nsec h k =
    let kept : clamped n ≡ n = ground (arith, h) in
    rw kept (from_unix_small (pos n) nsec (ground (arith, h)) k)

before_back :
    (n nsec : ℕ)
    → n < 2 ^ 63 - 1
    → nsec < nanos_per_second
    → Instant (before_plus (suc n) nsec) (negsuc n) nsec
unfolding before_plus from_system_time
before_back n nsec h k = elim (Bool-cases (nsec == 0)) [
  | inl whole ↦
      let zero_nanos : nsec ≡ 0 = ground (arith, whole) in
      let kept : clamped (suc n) ≡ suc n = ground (arith, h) in
      let below : sub_ℕ 0 (suc n) ≡ negsuc n = ground arith in
      rw (zero_nanos, kept, below) (from_unix_small (negsuc n) 0 (ground arith) (omega arith))
  | inr part ↦
      let other : (nanos_per_second - nsec == 0) ≡ false = ground (arith, k) in
      let less : suc n - 1 ≡ n = omega arith in
      let kept : clamped n ≡ n = ground (arith, h) in
      let below : sub_ℕ 0 (n + 1) ≡ negsuc n = ground arith in
      let again : nanos_per_second - (nanos_per_second - nsec) ≡ nsec = omega (arith, k) in
      rw (part, less, from_system_time, other, kept, below, again)
        (from_unix_small (negsuc n) nsec (ground arith) k)
]

Instant-eq :
    (time : SystemTime) (d : Datetime)
    → Instant time d.epoch d.nsec
    → eq (from_system_time time) d ≡ true
unfolding eq
Instant-eq time d h = ground (arith, h)

parts_back :
    (held : SystemTime → Bool) (epoch : ℤ) (nsec : ℕ) (time : SystemTime)
    → InWidth 8 epoch
    → nsec < nanos_per_second
    → ltb_ℤ i64_min epoch ≡ true
    → system_parts held epoch nsec ≡ ok time
    → Instant time epoch nsec
unfolding system_parts
parts_back held (pos n) nsec time h k first e =
    rw (checked-ok held (after n nsec) time e) at (after_back n nsec (omega (arith, h)) k)
parts_back held (negsuc n) nsec time h k first e =
    let (t, f, g) = >>=-eq-ok (checked held (before (suc n) 0)) _ e in
    rw (checked-ok held (before_plus (suc n) nsec) time g) at
      (before_back n nsec (ground (arith, first)) k)

-- A point in time that the platform can hold is the same instant after a conversion to its time and
-- back, unless it is in the first second of the range of `i64`.
pub from_system_time-to_system_time :
    (held : SystemTime → Bool) (d : Datetime) (time : SystemTime)
    → IsStored d
    → ltb_ℤ i64_min d.epoch ≡ true
    → to_system_time held d ≡ ok time
    → eq (from_system_time time) d ≡ true
unfolding to_system_time
from_system_time-to_system_time held d time s first e =
    Instant-eq time d (parts_back held d.epoch d.nsec time s.epoch_in s.nsec_in first e)
