-- ===== src/Types/Datetime/Reading.antt =====
-- types/datetime.rs: the text of a point in time, read back.
use tarant.Base.{
  ℕ, zero, suc, ◌+◌, ◌*◌, ◌/◌, ◌%◌, ◌<◌, ◌≤◌, ◌≡◌, refl, ltb, ◌==◌, if◌then◌else◌, Bool, true,
  false, ◌||◌, List, [], ◌∷◌, ◌++◌, take, drop, arith, All, All-append, Bool-cases, inl, inr,
}
use tarant.Base.Int.{ℤ, pos, negsuc, eqb_ℤ, ltb_ℤ, sub_ℕ}
use tarant.Types.Decimal.{digits_of}
use tarant.Types.Chars.{AreDigitChars, map-AreDigitChars, replicate-AreDigitChars}
use tarant.Types.Datetime.{nanos_per_second}
use tarant.Types.Datetime.Text.{zone_text, fraction_text, trim_zeros, after_trim, zero_padded, abs}
use tarant.Types.Datetime.Numbers.{
  number, fields, number-zero_padded, length-zero_padded, restored, restored-trim_zeros, take-front,
  drop-front,
}

digits_of-small : (fuel n : ℕ) → All (λ d. d ≤ 9) (digits_of fuel n)
unfolding digits_of
digits_of-small zero n = tt
digits_of-small (suc fuel) n = elim (Bool-cases (ltb n 10)) [
  | inl e ↦ rw e (ground (arith, e), tt)
  | inr e ↦ rw e (
      All-append _ (digits_of fuel (n / 10)) (n % 10 ∷ []) (omega arith, tt)
        (digits_of-small fuel (n / 10)))
]

zero_padded-AreDigitChars : (w n : ℕ) → AreDigitChars (zero_padded w n)
unfolding zero_padded
zero_padded-AreDigitChars w n =
    replicate-AreDigitChars _ _ (map-AreDigitChars (digits_of 40 n) (digits_of-small 40 n))

after_trim-AreDigitChars :
    (c : ℕ) (kept : List ℕ)
    → (48 ≤ c) × (c ≤ 57)
    → AreDigitChars kept
    → AreDigitChars (after_trim c kept)
unfolding after_trim
after_trim-AreDigitChars c [] h k = elim (Bool-cases (c == 48)) [
  | inl e ↦ rw e tt
  | inr e ↦ rw e (h, tt)
]
after_trim-AreDigitChars c (d ∷ kept) h k = (h, k)

trim_zeros-AreDigitChars : (text : List ℕ) → AreDigitChars text → AreDigitChars (trim_zeros text)
unfolding trim_zeros
trim_zeros-AreDigitChars [] h = tt
trim_zeros-AreDigitChars (c ∷ rest) h =
    after_trim-AreDigitChars c (trim_zeros rest) h.0 (trim_zeros-AreDigitChars rest h.1)

-- The fraction in front of the zone, with the zeros that it lost, and the zone.
unfoldable pub starts_zone : ℕ → Bool
starts_zone c = (c == 90) || ((c == 43) || (c == 45))

unfoldable pub split_zone : List ℕ → List ℕ × List ℕ
split_zone [] = ([], [])
split_zone (c ∷ rest) =
    let later = split_zone rest in if starts_zone c then ([], c ∷ rest) else (c ∷ later.0, later.1)

unfoldable pub read_zone : List ℕ → ℤ
read_zone [] = pos 0
read_zone (c ∷ rest) =
    let minutes = 60 * number 0 (take 2 rest) + number 0 (drop 3 rest) in
    if c == 90 then pos 0 else if c == 45 then sub_ℕ 0 minutes else pos minutes

unfoldable pub read_tail : List ℕ → ℕ × ℤ
read_tail [] = (0, pos 0)
read_tail (c ∷ rest) =
    if c == 46
    then (number 0 (restored 9 (split_zone rest).0), read_zone (split_zone rest).1)
    else (0, read_zone (c ∷ rest))

-- What a text of year, month, day, hour, minute and second, fraction and zone says.
unfoldable pub read_text : List ℕ → List ℕ × (ℕ × ℤ)
read_text text =
    let front = fields (4 ∷ 2 ∷ 2 ∷ 2 ∷ 2 ∷ 2 ∷ []) text in (front.0, read_tail front.1)

split_zone-append :
    (text zone : List ℕ) (c : ℕ)
    → AreDigitChars text
    → starts_zone c ≡ true
    → split_zone (text ++ (c ∷ zone)) ≡ (text, c ∷ zone)
unfolding split_zone
split_zone-append [] zone c h e = rw e refl
split_zone-append (x ∷ text) zone c h e =
    let digit : starts_zone x ≡ false = unfold starts_zone in ground (arith, h.0) in
    rw (digit, split_zone-append text zone c h.1 e) refl

-- Hours and minutes, read back.
minutes_back :
    (n : ℕ)
    → n < 6000
    → (number 0 (take 2 (zero_padded 2 (n / 60) ++ (58 ∷ zero_padded 2 (n % 60)))) ≡ n / 60)
      × (number 0 (drop 3 (zero_padded 2 (n / 60) ++ (58 ∷ zero_padded 2 (n % 60)))) ≡ n % 60)
minutes_back n h =
    let hours : n / 60 < 100 = omega arith in
    let minutes : n % 60 < 100 = omega arith in
    let long = length-zero_padded 1 (n / 60) hours in
    (
      rw (take-front 2 (zero_padded 2 (n / 60)) (58 ∷ zero_padded 2 (n % 60)) long)
          (number-zero_padded 2 (n / 60) (omega arith)),
      rw (drop-front 2 (zero_padded 2 (n / 60)) 58 (zero_padded 2 (n % 60)) long)
          (number-zero_padded 2 (n % 60) (omega arith)),
    )

split_minutes : (n : ℕ) → 60 * (n / 60) + n % 60 ≡ n
split_minutes n = omega arith

abbrev hours_text : ℕ → List ℕ
hours_text n = zero_padded 2 (n / 60) ++ (58 ∷ zero_padded 2 (n % 60))

zone_text_pos : (n : ℕ) → zone_text (pos (suc n)) ≡ 43 ∷ hours_text (suc n)
unfolding zone_text
zone_text_pos n =
    let some_offset : eqb_ℤ (pos (suc n)) (pos 0) ≡ false = ground arith in
    let below : ltb_ℤ (pos (suc n)) (pos 0) ≡ false = ground arith in
    let whole : suc n + 0 ≡ suc n = omega arith in rw (some_offset, below, whole) refl

zone_text_negsuc : (n : ℕ) → zone_text (negsuc n) ≡ 45 ∷ hours_text (suc n)
unfolding zone_text
zone_text_negsuc n =
    let some_offset : eqb_ℤ (negsuc n) (pos 0) ≡ false = ground arith in
    let below : ltb_ℤ (negsuc n) (pos 0) ≡ true = ground arith in
    let whole : 0 + suc n ≡ suc n = omega arith in rw (some_offset, below, whole) refl

zone_text_zero : zone_text (pos 0) ≡ 90 ∷ []
unfolding zone_text
zone_text_zero = refl

read_zone-zone_text : (offset : ℤ) → abs offset < 6000 → read_zone (zone_text offset) ≡ offset
unfolding read_zone
read_zone-zone_text (pos zero) h = rw zone_text_zero refl
read_zone-zone_text (pos (suc n)) h =
    let (hours, minutes) = minutes_back (suc n) (omega (arith, h)) in
    rw (zone_text_pos n, hours, minutes, split_minutes (suc n)) refl
read_zone-zone_text (negsuc n) h =
    let (hours, minutes) = minutes_back (suc n) (omega (arith, h)) in
    rw (zone_text_negsuc n, hours, minutes, split_minutes (suc n)) (ground arith)

zone_start :
    (offset : ℤ)
    → (c : ℕ) × (rest : List ℕ) × (zone_text offset ≡ c ∷ rest) × (starts_zone c ≡ true)
unfolding starts_zone
zone_start (pos zero) = (90, [], zone_text_zero, refl)
zone_start (pos (suc n)) = (43, hours_text (suc n), zone_text_pos n, refl)
zone_start (negsuc n) = (45, hours_text (suc n), zone_text_negsuc n, refl)

not_point : (c : ℕ) → starts_zone c ≡ true → (c == 46) ≡ false
unfolding starts_zone
not_point c h = ground (arith, h)

-- The fraction and the zone are read back.
pub read_tail-text :
    (nsec : ℕ) (offset : ℤ)
    → nsec < nanos_per_second
    → abs offset < 6000
    → read_tail (fraction_text nsec ++ zone_text offset) ≡ (nsec, offset)
unfolding read_tail fraction_text
read_tail-text nsec offset h k =
    let (c, rest, e, start) = zone_start offset in
    let zone : read_zone (c ∷ rest) ≡ offset = rw e at (read_zone-zone_text offset k) in
    let digits = zero_padded 9 nsec in
    let chars = trim_zeros-AreDigitChars digits (zero_padded-AreDigitChars 9 nsec) in
    let split = split_zone-append (trim_zeros digits) rest c chars start in
    let back : restored 9 (trim_zeros digits) ≡ digits =
      rw (length-zero_padded 8 nsec h) at (restored-trim_zeros digits) in
    elim (Bool-cases (nsec == 0)) [
      | inl whole ↦
          let none_left : nsec ≡ 0 = ground (arith, whole) in
          rw (whole, e, not_point c start, zone, none_left) refl
      | inr part ↦
          rw (part, e, split, back, zone, number-zero_padded 9 nsec (omega (arith, h))) refl
    ]
