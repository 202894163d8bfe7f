-- ===== src/Types/Datetime/Text.antt =====
-- types/datetime.rs: `Display`, `Eq` and `Ord` of a point in time. A text is a list of character codes.
use tarant.Base.{
  ℕ, ◌+◌, ◌-◌, ◌/◌, ◌%◌, ◌^◌, ◌==◌, if◌then◌else◌, Bool, ◌&&◌, List, [], ◌∷◌, ◌++◌, map, length,
  replicate,
}
use tarant.Base.Int.{ℤ, pos, negsuc, ◌+ℤ◌, ltb_ℤ, eqb_ℤ, pos_part, neg_part}
use tarant.Types.Decimal.{digits_of, Ordering, compare_ℤ, compare_ℕ, then_by}
use tarant.Types.Chars.{char_of}
use tarant.Types.Datetime.{Datetime}
use tarant.Types.Datetime.Calendar.{Date, civil_from_days, div_euclid, rem_euclid, times}

abbrev pub seconds_per_day : ℕ
seconds_per_day = 86400

-- The bounds of `i64`.
abbrev pub i64_max : ℤ
i64_max = pos (2 ^ 63 - 1)

abbrev pub i64_min : ℤ
i64_min = negsuc (2 ^ 63 - 1)

unfoldable pub saturating_add : ℤ → ℤ → ℤ
saturating_add a b =
    let sum = a +ℤ b in
    if ltb_ℤ i64_max sum then i64_max else if ltb_ℤ sum i64_min then i64_min else sum

-- A number in `width` places at least, with zeros in front.
unfoldable pub zero_padded : ℕ → ℕ → List ℕ
zero_padded width n =
    let digits = map char_of (digits_of 40 n) in replicate (width - length digits) 48 ++ digits

-- `trim_end_matches('0')`
unfoldable pub after_trim : ℕ → List ℕ → List ℕ
after_trim c [] = if c == 48 then [] else c ∷ []
after_trim c (d ∷ rest) = c ∷ d ∷ rest

unfoldable pub trim_zeros : List ℕ → List ℕ
unfolding after_trim
trim_zeros [] = []
trim_zeros (c ∷ rest) = after_trim c (trim_zeros rest)

unfoldable pub fraction_text : ℕ → List ℕ
fraction_text nsec = if nsec == 0 then [] else 46 ∷ trim_zeros (zero_padded 9 nsec)

abbrev pub abs : ℤ → ℕ
abs z = pos_part z + neg_part z

unfoldable pub zone_text : ℤ → List ℕ
zone_text offset =
    if eqb_ℤ offset (pos 0)
    then 90 ∷ []
    else (if ltb_ℤ offset (pos 0) then 45 else 43)
      ∷ (zero_padded 2 (abs offset / 60) ++ (58 ∷ zero_padded 2 (abs offset % 60)))

-- The seconds at the offset of the value.
unfoldable pub local_seconds : Datetime → ℤ
local_seconds d = saturating_add d.epoch (times 60 d.tz_offset)

unfoldable pub time_text : ℕ → List ℕ
time_text second_of_day =
    zero_padded 2 (second_of_day / 3600)
    ++ (58 ∷ (zero_padded 2 (second_of_day / 60 % 60) ++ (58 ∷ zero_padded 2 (second_of_day % 60))))

unfoldable pub date_text : Date → List ℕ
date_text date =
    (if ltb_ℤ date.year (pos 0) then 45 ∷ [] else [])
    ++ (zero_padded 4 (abs date.year)
        ++ (45 ∷ (zero_padded 2 date.month ++ (45 ∷ zero_padded 2 date.day))))

unfoldable pub display : Datetime → List ℕ
display d =
    let local = local_seconds d in
    date_text (civil_from_days (div_euclid local seconds_per_day))
    ++ (84
        ∷ (time_text (rem_euclid local seconds_per_day)
            ++ (fraction_text d.nsec ++ zone_text d.tz_offset)))

unfoldable pub with_tz_offset : Datetime → ℤ → Datetime
with_tz_offset d minutes = record {
  epoch = d.epoch;
  nsec = d.nsec;
  tz_offset = minutes;
  tz_index = d.tz_index;
}

unfoldable pub with_tz_index : Datetime → ℤ → Datetime
with_tz_index d index = record {
  epoch = d.epoch;
  nsec = d.nsec;
  tz_offset = d.tz_offset;
  tz_index = index;
}

unfoldable pub eq : Datetime → Datetime → Bool
eq a b = eqb_ℤ a.epoch b.epoch && (a.nsec == b.nsec)

unfoldable pub cmp : Datetime → Datetime → Ordering
cmp a b = then_by (compare_ℤ a.epoch b.epoch) (compare_ℕ a.nsec b.nsec)
