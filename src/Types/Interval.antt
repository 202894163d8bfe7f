-- ===== src/Types/Interval.antt =====
-- types/interval.rs: a calendar span, its arithmetic and its payload on the wire.
pub mod Payload
pub mod Text
use tarant.Base.{
  ℕ, zero, suc, ◌+◌, ◌-◌, ◌^◌, ◌==◌, if◌then◌else◌, Bool, true, false, Option, none, some, List, [],
  ◌∷◌, ◌++◌, length, Result, ok, err, ◌>>=◌, ok_or,
}
use tarant.Base.Int.{ℤ, pos, negsuc, ◌+ℤ◌, ◌-ℤ◌, eqb_ℤ, ltb_ℤ}
use tarant.Rmp.{Rmp}

pub data Adjust : Type 0 where
  limit excess snap : Adjust

pub data IntervalError : Type 0 where
  no_count bad_id bad_value unknown_adjust unknown_id trailing_bytes : IntervalError

pub record Interval : Type 0 where
  pub years : ℤ
  pub months : ℤ
  pub weeks : ℤ
  pub days : ℤ
  pub hours : ℤ
  pub minutes : ℤ
  pub seconds : ℤ
  pub nanoseconds : ℤ
  pub adjust : Adjust

unfoldable pub code : Adjust → ℤ
code Adjust.excess = pos 0
code Adjust.limit = pos 1
code Adjust.snap = pos 2

unfoldable pub from_code : ℤ → Option Adjust
from_code (pos zero) = some Adjust.excess
from_code (pos (suc zero)) = some Adjust.limit
from_code (pos (suc (suc zero))) = some Adjust.snap
from_code z = none

abbrev pub zero_interval : Interval
zero_interval = record {
  years = pos 0;
  months = pos 0;
  weeks = pos 0;
  days = pos 0;
  hours = pos 0;
  minutes = pos 0;
  seconds = pos 0;
  nanoseconds = pos 0;
  adjust = Adjust.limit;
}

-- Every unit with its wire id, as `fields` without the names.
unfoldable pub fields : Interval → List (ℕ × ℤ)
fields i =
    (0, i.years)
    ∷ (1, i.months)
    ∷ (2, i.weeks)
    ∷ (3, i.days)
    ∷ (4, i.hours)
    ∷ (5, i.minutes)
    ∷ (6, i.seconds)
    ∷ (7, i.nanoseconds)
    ∷ []

-- `filter(|(_, value, _)| *value != 0)`
unfoldable pub nonzero : List (ℕ × ℤ) → List (ℕ × ℤ)
nonzero [] = []
nonzero ((id, z) ∷ rest) = if eqb_ℤ z (pos 0) then nonzero rest else (id, z) ∷ nonzero rest

-- `adjust` is written unless it is `Excess`.
unfoldable pub adjust_field : Adjust → List (ℕ × ℤ)
unfolding code
adjust_field Adjust.excess = []
adjust_field a = (8, code a) ∷ []

-- `match id`
unfoldable pub store : ℕ → ℤ → Interval → Result IntervalError Interval
unfolding from_code
store id z i =
    if id == 0
    then ok (record i { years = z })
    else if id == 1
    then ok (record i { months = z })
    else if id == 2
    then ok (record i { weeks = z })
    else if id == 3
    then ok (record i { days = z })
    else if id == 4
    then ok (record i { hours = z })
    else if id == 5
    then ok (record i { minutes = z })
    else if id == 6
    then ok (record i { seconds = z })
    else if id == 7
    then ok (record i { nanoseconds = z })
    else if id == 8
    then (ok_or (from_code z) unknown_adjust >>= λ a. ok (record i { adjust = a }))
    else err unknown_id

module _ (rmp : Rmp) where
  unfoldable pub put_fields : List (ℕ × ℤ) → List ℕ
  put_fields [] = []
  put_fields ((id, z) ∷ rest) = rmp.write_uint id ++ (rmp.write_sint z ++ put_fields rest)

  unfoldable pub to_payload : Interval → List ℕ
  unfolding put_fields fields nonzero adjust_field
  to_payload i =
      rmp.write_uint (length (nonzero (fields i)) + length (adjust_field i.adjust))
      ++ (put_fields (nonzero (fields i)) ++ put_fields (adjust_field i.adjust))

  -- The loop of `from_payload`, `count` rounds at most.
  unfoldable pub read_fields : ℕ → List ℕ → Interval → Result IntervalError (Interval × List ℕ)
  read_fields zero cursor i = ok (i, cursor)
  read_fields (suc count) cursor i = do
    (id, cursor) ← ok_or (rmp.read_u64 cursor) bad_id
    (value, cursor) ← ok_or (rmp.read_i64 cursor) bad_value
    i' ← store id value i
    read_fields count cursor i'

  unfoldable pub whole : Interval × List ℕ → Result IntervalError Interval
  whole (i, []) = ok i
  whole (i, b ∷ rest) = err trailing_bytes

  unfoldable pub from_payload : List ℕ → Result IntervalError Interval
  unfolding read_fields whole
  from_payload payload = do
    (count, cursor) ← ok_or (rmp.read_u64 payload) no_count
    r ← read_fields count cursor (record zero_interval { adjust = Adjust.excess })
    whole r

-- `i64::saturating_add` and `i64::saturating_neg`
abbrev pub saturate : ℤ → ℤ
saturate z =
    if ltb_ℤ (pos (2 ^ 63 - 1)) z
    then pos (2 ^ 63 - 1)
    else if ltb_ℤ z (negsuc (2 ^ 63 - 1))
    then negsuc (2 ^ 63 - 1)
    else z

unfoldable pub is_limit : Adjust → Bool
is_limit Adjust.limit = true
is_limit a = false

unfoldable pub add : Interval → Interval → Interval
unfolding is_limit
add a b = record {
  years = saturate (a.years +ℤ b.years);
  months = saturate (a.months +ℤ b.months);
  weeks = saturate (a.weeks +ℤ b.weeks);
  days = saturate (a.days +ℤ b.days);
  hours = saturate (a.hours +ℤ b.hours);
  minutes = saturate (a.minutes +ℤ b.minutes);
  seconds = saturate (a.seconds +ℤ b.seconds);
  nanoseconds = saturate (a.nanoseconds +ℤ b.nanoseconds);
  adjust = if is_limit a.adjust then b.adjust else a.adjust;
}

unfoldable pub neg : Interval → Interval
neg a = record a {
  years = saturate (pos 0 -ℤ a.years);
  months = saturate (pos 0 -ℤ a.months);
  weeks = saturate (pos 0 -ℤ a.weeks);
  days = saturate (pos 0 -ℤ a.days);
  hours = saturate (pos 0 -ℤ a.hours);
  minutes = saturate (pos 0 -ℤ a.minutes);
  seconds = saturate (pos 0 -ℤ a.seconds);
  nanoseconds = saturate (pos 0 -ℤ a.nanoseconds);
}

unfoldable pub is_zero : Interval → Bool
unfolding nonzero fields
is_zero i = elim (nonzero (fields i)) [ [] ↦ true | x ∷ rest ↦ false ]

-- The unit constructors: a span of one unit, under the names of the units.
unfoldable pub of_years : ℤ → Interval
of_years n = record zero_interval { years = n }

unfoldable pub of_months : ℤ → Interval
of_months n = record zero_interval { months = n }

unfoldable pub of_weeks : ℤ → Interval
of_weeks n = record zero_interval { weeks = n }

unfoldable pub of_days : ℤ → Interval
of_days n = record zero_interval { days = n }

unfoldable pub of_hours : ℤ → Interval
of_hours n = record zero_interval { hours = n }

unfoldable pub of_minutes : ℤ → Interval
of_minutes n = record zero_interval { minutes = n }

unfoldable pub of_seconds : ℤ → Interval
of_seconds n = record zero_interval { seconds = n }

unfoldable pub of_nanoseconds : ℤ → Interval
of_nanoseconds n = record zero_interval { nanoseconds = n }

unfoldable pub with_adjust : Interval → Adjust → Interval
with_adjust i a = record i { adjust = a }
