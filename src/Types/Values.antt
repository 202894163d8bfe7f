-- ===== src/Types/Values.antt =====
-- The values of types/ as extensions of MessagePack: `From` and `TryFrom` of `rmpv::Value`, which serde's
-- side in types/ext.rs does alike. `rmpv` is a parameter.
use tarant.Base.{
  ℕ, ◌≡◌, refl, ap, ◌∙◌, ◌==◌, if◌then◌else◌, true, false, Option, none, some, List, length, Result,
  ok, err, panic, stuck, ◌>>=◌, >>=-eq-ok, arith,
}
use tarant.Base.Int.{ℤ, pos, eqb_ℤ}
use tarant.Rmp.{Rmp, ReadsBack}
use tarant.Types.Uuid.{UuidError, uuid_error}
use tarant.Types.Datetime.{Datetime, DatetimeError, IsStored, from_payload-to_payload_datetime}
use tarant.Types.Datetime as Datetimes
use tarant.Types.Decimal.{Decimal, DecimalError}
use tarant.Types.Decimal as Decimals
use tarant.Types.Decimal.Payload.{IsDecimal, from_payload-to_payload_decimal}
use tarant.Types.Interval.{Interval, IntervalError, fields}
use tarant.Types.Interval.Payload.{AreFields, from_payload-to_payload}
use tarant.Types.Interval as Intervals

-- The tags of iproto.rs.
abbrev pub decimal_tag : ℤ
decimal_tag = pos 1

abbrev pub uuid_tag : ℤ
uuid_tag = pos 2

abbrev pub datetime_tag : ℤ
datetime_tag = pos 4

abbrev pub interval_tag : ℤ
interval_tag = pos 6

-- `rmpv::Value::Ext` as a constructor and as a pattern.
pub record ExtValues : Type 1 where
  pub Value : Type 0
  pub ext : ℤ → List ℕ → Value
  pub as_ext : Value → Option (ℤ × List ℕ)

pub record ExtMatches (v : ExtValues) : Type 0 where
  pub as_ext-ext : (tag : ℤ) (payload : List ℕ) → v.as_ext (v.ext tag payload) ≡ some (tag, payload)

-- Why a value is none of a type: another kind of value, or a payload that is refused.
pub data ValueError (E : Type 0) : Type 0 where
  other_value : ValueError E
  bad_payload : E → ValueError E

unfoldable pub of_payload : {E A : Type 0} → Result E A → Result (ValueError E) A
of_payload (ok a) = ok a
of_payload (err e) = err (bad_payload e)
of_payload panic = panic
of_payload stuck = stuck

-- The bytes of a UUID are 16.
unfoldable pub uuid_payload : List ℕ → Result UuidError (List ℕ)
uuid_payload payload = if length payload == 16 then ok payload else err uuid_error

module _ (v : ExtValues) where
  unfoldable pub tagged :
      {E A : Type 0} → ℤ → (List ℕ → Result E A) → Option (ℤ × List ℕ) → Result (ValueError E) A
  unfolding of_payload
  tagged tag read none = err other_value
  tagged tag read (some (found, payload)) =
      if eqb_ℤ found tag then of_payload (read payload) else err other_value

  unfoldable pub uuid_to_value : List ℕ → v.Value
  uuid_to_value bytes = v.ext uuid_tag bytes

  unfoldable pub uuid_from_value : v.Value → Result (ValueError UuidError) (List ℕ)
  unfolding tagged uuid_payload
  uuid_from_value value = tagged uuid_tag uuid_payload (v.as_ext value)

  unfoldable pub datetime_to_value : Datetime → v.Value
  datetime_to_value d = v.ext datetime_tag (Datetimes.to_payload d)

  unfoldable pub datetime_from_value : v.Value → Result (ValueError DatetimeError) Datetime
  unfolding tagged
  datetime_from_value value = tagged datetime_tag Datetimes.from_payload (v.as_ext value)

  module _ (rmp : Rmp) where
    unfoldable pub decimal_to_value : Decimal → Result DecimalError v.Value
    decimal_to_value d = Decimals.to_payload rmp d >>= λ payload. ok (v.ext decimal_tag payload)

    unfoldable pub decimal_from_value : v.Value → Result (ValueError DecimalError) Decimal
    unfolding tagged
    decimal_from_value value = tagged decimal_tag (Decimals.from_payload rmp) (v.as_ext value)

    unfoldable pub interval_to_value : Interval → v.Value
    interval_to_value i = v.ext interval_tag (Intervals.to_payload rmp i)

    unfoldable pub interval_from_value : v.Value → Result (ValueError IntervalError) Interval
    unfolding tagged
    interval_from_value value = tagged interval_tag (Intervals.from_payload rmp) (v.as_ext value)

module _ (v : ExtValues) (rmp : Rmp) where
  -- What is read as one type, and as none of the others.
  abbrev pub NoUuid : v.Value → Type 0
  NoUuid value = uuid_from_value v value ≡ err other_value

  abbrev pub NoDatetime : v.Value → Type 0
  NoDatetime value = datetime_from_value v value ≡ err other_value

  abbrev pub NoDecimal : v.Value → Type 0
  NoDecimal value = decimal_from_value v rmp value ≡ err other_value

  abbrev pub NoInterval : v.Value → Type 0
  NoInterval value = interval_from_value v rmp value ≡ err other_value

  abbrev pub IsUuidOnly : List ℕ → v.Value → Type 0
  IsUuidOnly bytes value =
      (uuid_from_value v value ≡ ok bytes) × NoDatetime value × NoDecimal value × NoInterval value

  abbrev pub IsDatetimeOnly : Datetime → v.Value → Type 0
  IsDatetimeOnly d value =
      (datetime_from_value v value ≡ ok d) × NoUuid value × NoDecimal value × NoInterval value

  abbrev pub IsDecimalOnly : Decimal → v.Value → Type 0
  IsDecimalOnly c value =
      (decimal_from_value v rmp value ≡ ok c) × NoUuid value × NoDatetime value × NoInterval value

  abbrev pub IsIntervalOnly : Interval → v.Value → Type 0
  IsIntervalOnly i value =
      (interval_from_value v rmp value ≡ ok i) × NoUuid value × NoDatetime value × NoDecimal value

same_tag : (tag : ℤ) → eqb_ℤ tag tag ≡ true
same_tag tag = ground arith

module _ (v : ExtValues) (matches : ExtMatches v) where
  -- The payload of a value of the type that is wanted.
  tagged-ext :
      {E A : Type 0} (tag : ℤ) (read : List ℕ → Result E A) (payload : List ℕ)
      → tagged v tag read (v.as_ext (v.ext tag payload)) ≡ of_payload (read payload)
  unfolding tagged
  tagged-ext tag read payload = rw (matches.as_ext-ext tag payload, same_tag tag) refl

  tagged_read :
      {E A : Type 0} (tag : ℤ) (read : List ℕ → Result E A) (payload : List ℕ) (a : A)
      → read payload ≡ ok a
      → tagged v tag read (v.as_ext (v.ext tag payload)) ≡ ok a
  unfolding of_payload
  tagged_read tag read payload a e = tagged-ext tag read payload ∙ ap of_payload e

  -- A payload of another tag.
  refused :
      {E A : Type 0} (tag found : ℤ) (read : List ℕ → Result E A) (payload : List ℕ)
      → eqb_ℤ found tag ≡ false
      → tagged v tag read (v.as_ext (v.ext found payload)) ≡ err other_value
  unfolding tagged
  refused tag found read payload e = rw (matches.as_ext-ext found payload, e) refl

  module _ (rmp : Rmp) (laws : ReadsBack rmp) where
    decimal_only :
        (c : Decimal)
        → IsDecimal c
        → (value : v.Value) × (decimal_to_value v rmp c ≡ ok value) × IsDecimalOnly v rmp c value
    unfolding decimal_to_value decimal_from_value uuid_from_value datetime_from_value
        interval_from_value
    decimal_only c w =
        let (payload, written, read) =
          >>=-eq-ok (Decimals.to_payload rmp c) (Decimals.from_payload rmp)
            (from_payload-to_payload_decimal rmp laws c w) in
        (
          v.ext decimal_tag payload,
          rw written refl,
          (
            tagged_read decimal_tag (Decimals.from_payload rmp) payload c read,
            refused uuid_tag decimal_tag _ payload refl,
            refused datetime_tag decimal_tag _ payload refl,
            refused interval_tag decimal_tag _ payload refl,
          ),
        )

    -- A UUID of 16 bytes, a point in time, a decimal and an interval in their ranges are read back from
    -- the values that they become, and each of these values is refused, as one of another kind, by the
    -- three other types.
    pub field_values :
        (bytes : List ℕ) (d : Datetime) (c : Decimal) (i : Interval)
        → length bytes ≡ 16
        → IsStored d
        → IsDecimal c
        → AreFields (fields i)
        → IsUuidOnly v rmp bytes (uuid_to_value v bytes)
          × IsDatetimeOnly v rmp d (datetime_to_value v d)
          × ((value : v.Value) × (decimal_to_value v rmp c ≡ ok value)
              × IsDecimalOnly v rmp c value)
          × IsIntervalOnly v rmp i (interval_to_value v rmp i)
    unfolding uuid_from_value uuid_to_value datetime_from_value datetime_to_value
        interval_from_value interval_to_value decimal_from_value uuid_payload
    field_values bytes d c i b s w f = (
      (
        tagged_read uuid_tag uuid_payload bytes bytes (rw b refl),
        refused datetime_tag uuid_tag _ bytes refl,
        refused decimal_tag uuid_tag _ bytes refl,
        refused interval_tag uuid_tag _ bytes refl,
      ),
      (
        tagged_read datetime_tag Datetimes.from_payload (Datetimes.to_payload d) d
            (from_payload-to_payload_datetime d s),
        refused uuid_tag datetime_tag _ _ refl,
        refused decimal_tag datetime_tag _ _ refl,
        refused interval_tag datetime_tag _ _ refl,
      ),
      decimal_only c w,
      (
        tagged_read interval_tag (Intervals.from_payload rmp) (Intervals.to_payload rmp i) i
            (from_payload-to_payload rmp laws i f),
        refused uuid_tag interval_tag _ _ refl,
        refused datetime_tag interval_tag _ _ refl,
        refused decimal_tag interval_tag _ _ refl,
      ),
    )
