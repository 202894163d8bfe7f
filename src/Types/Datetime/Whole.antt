-- ===== src/Types/Datetime/Whole.antt =====
-- types/datetime.rs: the whole text of a point in time, read back.
use tarant.Base.{
  ℕ, ◌+◌, ◌/◌, ◌%◌, ◌^◌, ◌<◌, ◌≡◌, refl, ap, ◌∙◌, false, List, [], ◌∷◌, ◌++◌, append_assoc, arith,
}
use tarant.Base.Int.{ℤ, pos, ltb_ℤ}
use tarant.Types.Datetime.{Datetime, nanos_per_second}
use tarant.Types.Datetime.Calendar.{Date, civil_from_days}
use tarant.Types.Datetime.Text.{
  display, date_text, time_text, zone_text, fraction_text, zero_padded, abs,
}
use tarant.Types.Datetime.Reading.{read_text, read_tail-text}
use tarant.Types.Datetime.Days.{month_day}
use tarant.Types.Datetime.Local.{LiesAt, IsLocal, civil_from_days-LiesAt, local_seconds-IsLocal}
use tarant.Types.Datetime.Numbers.{fields, fields-zero_padded, fields_last}

-- Year, month, day, hour, minute and second of a point in time, at its own offset.
unfoldable pub parts_of : ℕ → Date → ℕ → List ℕ
parts_of year date second_of_day =
    year
    ∷ date.month
    ∷ date.day
    ∷ second_of_day / 3600
    ∷ second_of_day / 60 % 60
    ∷ second_of_day % 60
    ∷ []

not_below : (y : ℕ) → ltb_ℤ (pos y) (pos 0) ≡ false
not_below y = ground arith

-- A text of numbers with characters between them, to the right.
three :
    (xs ys zs tail : List ℕ) (c d : ℕ)
    → (xs ++ (c ∷ (ys ++ (d ∷ zs)))) ++ tail ≡ xs ++ (c ∷ (ys ++ (d ∷ (zs ++ tail))))
three xs ys zs tail c d =
    append_assoc xs (c ∷ (ys ++ (d ∷ zs))) tail
    ∙ ap (λ t. xs ++ (c ∷ t)) (append_assoc ys (d ∷ zs) tail)

date_front :
    (y : ℕ) (date : Date) (tail : List ℕ)
    → date.year ≡ pos y
    → date_text date ++ tail
      ≡ zero_padded 4 y
        ++ (45 ∷ (zero_padded 2 date.month ++ (45 ∷ (zero_padded 2 date.day ++ tail))))
unfolding date_text
date_front y date tail e =
    let whole : y + 0 ≡ y = omega arith in
    rw (e, not_below y, whole)
      (three (zero_padded 4 y) (zero_padded 2 date.month) (zero_padded 2 date.day) tail 45 45)

time_front :
    (s : ℕ) (tail : List ℕ)
    → time_text s ++ tail
      ≡ zero_padded 2 (s / 3600)
        ++ (58 ∷ (zero_padded 2 (s / 60 % 60) ++ (58 ∷ (zero_padded 2 (s % 60) ++ tail))))
unfolding time_text
time_front s tail =
    three (zero_padded 2 (s / 3600)) (zero_padded 2 (s / 60 % 60)) (zero_padded 2 (s % 60)) tail 58
      58

module _ (y s : ℕ) (date : Date) (tail : List ℕ) where
  text_read :
      date.year ≡ pos y
      → y < 10000
      → date.month < 100
      → date.day < 100
      → s < 86400
      → fields (4 ∷ 2 ∷ 2 ∷ 2 ∷ 2 ∷ 2 ∷ []) (date_text date ++ (84 ∷ (time_text s ++ tail)))
        ≡ (parts_of y date s, tail)
  unfolding parts_of
  text_read e h m d b =
      rw
        (
          date_front y date (84 ∷ (time_text s ++ tail)) e,
          time_front s tail,
          fields-zero_padded 3 y h (omega arith) 45 2 (2 ∷ 2 ∷ 2 ∷ 2 ∷ []) _,
          fields-zero_padded 1 date.month m (omega arith) 45 2 (2 ∷ 2 ∷ 2 ∷ []) _,
          fields-zero_padded 1 date.day d (omega arith) 84 2 (2 ∷ 2 ∷ []) _,
          fields-zero_padded 1 (s / 3600) (omega arith) (omega arith) 58 2 (2 ∷ []) _,
          fields-zero_padded 1 (s / 60 % 60) (omega arith) (omega arith) 58 2 [] _,
          fields_last 1 (s % 60) (omega arith) (omega arith) tail,
        )
        refl

-- The text of a point in time, when its local time is `second` seconds into day `days` since 1970, which
-- lies less than 2^40 days away, its local year has four digits, its nanoseconds are less than a second
-- and its offset is less than a hundred hours, says year, month and day of the date that so many steps
-- of the calendar reach, hour, minute and second of that day, the nanoseconds and the offset.
pub read_text-display :
    (d : Datetime) (days : ℤ) (second year : ℕ)
    → second < 86400
    → abs days < 2 ^ 40
    → IsLocal d days second
    → (civil_from_days days).year ≡ pos year
    → year < 10000
    → d.nsec < nanos_per_second
    → abs d.tz_offset < 6000
    → (date : Date) × LiesAt days date
      × (date.year ≡ pos year)
      × (read_text (display d) ≡ (parts_of year date second, (d.nsec, d.tz_offset)))
unfolding read_text display
read_text-display d days second year inside near same e h n k =
    let date = civil_from_days days in
    let (m, s) = month_day days in
    let (whole, part) = local_seconds-IsLocal d days second inside near same in
    let tail = fraction_text d.nsec ++ zone_text d.tz_offset in
    (
      date,
      civil_from_days-LiesAt days,
      e,
      rw
          (
            whole,
            part,
            text_read year second date tail e h (omega arith) (omega arith) inside,
            read_tail-text d.nsec d.tz_offset n k,
          )
          refl,
    )
