-- ===== src/Types/Decimal/Displayed.antt =====
-- types/decimal.rs: what `Display` writes is read by `FromStr`.
use tarant.Base.{
  ℕ, zero, suc, ◌+◌, ◌-◌, ◌<◌, ◌^◌, ◌≡◌, refl, sym, ap, ◌∙◌, ltb, if◌then◌else◌, Bool, false, List,
  [], ◌∷◌, ◌++◌, map, length, ok, drop, take, replicate, arith, length-append, length-replicate,
  length-drop, take-append-drop, append-nil, Bool-cases, inl, inr, ok-injective,
}
use mathlib.Core.Path.{subst}
use tarant.Base.Int.{ℤ, pos, leb_ℤ, pos_part, neg_part}
use tarant.Types.Decimal.{Decimal, assemble, without_leading, bounded, zero_decimal}
use tarant.Types.Decimal.Payload.{IsDecimal, IsDecimal-normal, AreDigits, IsI32}
use tarant.Types.Decimal.Text.{display, from_str, with_point, point}
use tarant.Types.Decimal.Reading.{from_str-point, from_str_whole, map-append, signed_text}
use tarant.Types.Chars.{char_of}

take-AreDigits : (k : ℕ) (ds : List ℕ) → AreDigits ds → AreDigits (take k ds)
take-AreDigits zero ds h = tt
take-AreDigits (suc k) [] h = tt
take-AreDigits (suc k) (d ∷ ds) h = (h.0, take-AreDigits k ds h.1)

drop-AreDigits : (k : ℕ) (ds : List ℕ) → AreDigits ds → AreDigits (drop k ds)
drop-AreDigits zero ds h = h
drop-AreDigits (suc k) [] h = tt
drop-AreDigits (suc k) (d ∷ ds) h = drop-AreDigits k ds h.1

zeros-AreDigits : (k : ℕ) (ds : List ℕ) → AreDigits ds → AreDigits (replicate k 0 ++ ds)
zeros-AreDigits zero ds h = h
zeros-AreDigits (suc k) ds h = (omega arith, zeros-AreDigits k ds h)

map-zeros : (k : ℕ) → map char_of (replicate k 0) ≡ replicate k 48
map-zeros zero = refl
map-zeros (suc k) = ap (λ t. 48 ∷ t) (map-zeros k)

without_leading_zeros :
    (k : ℕ) (ds : List ℕ) → without_leading (replicate k 0 ++ ds) ≡ without_leading ds
unfolding without_leading
without_leading_zeros zero ds = refl
without_leading_zeros (suc k) ds = without_leading_zeros k ds

module _ (negative : Bool) (d : ℕ) (ds : List ℕ) (n : ℕ) (h : AreDigits (d ∷ ds))
    (l : n < 2 ^ 31) where
  -- With digits on both sides of the point.
  split_shown :
      (k : ℕ)
      → length ds ≡ k + n
      → from_str
          (signed_text negative (map char_of (d ∷ take k ds) ++ (point ∷ map char_of (drop k ds))))
        ≡ assemble negative (pos n) (d ∷ ds)
  split_shown k e =
      let long : length (drop k ds) ≡ n = omega (arith, length-drop k ds) in
      from_str-point negative d (take k ds) (drop k ds) (h.0, take-AreDigits k ds h.1)
        (drop-AreDigits k ds h.1) (omega arith)
      ∙ rw (long, take-append-drop k ds) refl

  -- With nothing but zeros in front of the digits.
  small_shown :
      (k : ℕ)
      → suc (length ds) + k ≡ n
      → from_str (signed_text negative (48 ∷ point ∷ (replicate k 48 ++ map char_of (d ∷ ds))))
        ≡ assemble negative (pos n) (d ∷ ds)
  unfolding assemble
  small_shown k e =
      let zeros : List ℕ = replicate k 0 in
      let long : length (zeros ++ (d ∷ ds)) ≡ n =
        omega (arith, length-append zeros (d ∷ ds), length-replicate {A = ℕ} k 0) in
      let text : map char_of (zeros ++ (d ∷ ds)) ≡ replicate k 48 ++ map char_of (d ∷ ds) =
        map-append zeros (d ∷ ds) ∙ ap (λ t. t ++ map char_of (d ∷ ds)) (map-zeros k) in
      let lost = without_leading_zeros (suc k) (d ∷ ds) in
      let read =
        from_str-point negative 0 [] (zeros ++ (d ∷ ds)) (omega arith, tt)
          (zeros-AreDigits k (d ∷ ds) h) (omega arith) in
      let stripped : assemble negative (pos (length (zeros ++ (d ∷ ds)))) (0 ∷ (zeros ++ (d ∷ ds)))
          ≡ assemble negative (pos n) (d ∷ ds) =
        rw (long, lost) refl in
      ap (λ t. from_str (signed_text negative (48 ∷ point ∷ t))) (sym text) ∙ (read ∙ stripped)

  point_shown :
      0 < n
      → from_str (signed_text negative (with_point (d ∷ ds) n)) ≡ assemble negative (pos n) (d ∷ ds)
  unfolding with_point
  point_shown p = elim (Bool-cases (ltb n (suc (length ds)))) [
    | inl more ↦
        let front : suc (length ds) - n ≡ suc (length ds - n) = ground (arith, more) in
        rw (more, front) (split_shown (length ds - n) (ground (arith, more)))
    | inr less ↦ rw less (small_shown (n - suc (length ds)) (ground (arith, less)))
  ]

-- The magnitude that is written behind the sign.
abbrev magnitude : List ℕ → ℕ → List ℕ
magnitude digits n =
    if leb_ℤ (pos n) (pos 0) then map char_of digits ++ replicate 0 48 else with_point digits n

no_digits_left :
    (negative : Bool) (scale : ℤ) (d : Decimal)
    → assemble negative scale [] ≡ ok d
    → record { negative = false; scale = pos 0; digits = 0 ∷ [] } ≡ d
unfolding assemble without_leading bounded zero_decimal
no_digits_left negative scale d e = ok-injective e

shown :
    (negative : Bool) (n : ℕ) (digits : List ℕ) (d : Decimal)
    → AreDigits digits
    → n < 2 ^ 31
    → d.digits ≡ digits
    → assemble negative (pos n) digits ≡ ok d
    → from_str (signed_text negative (magnitude digits n)) ≡ ok d
shown negative n [] d h l same e =
    cc (ap (λ x. x.digits) (no_digits_left negative (pos n) d e) ∙ same)
shown negative zero (x ∷ ds) d h l same e =
    rw (append-nil (map char_of (x ∷ ds))) (from_str_whole negative x ds h ∙ e)
shown negative (suc n) (x ∷ ds) d h l same e =
    let some_places : leb_ℤ (pos (suc n)) (pos 0) ≡ false = ground arith in
    rw some_places (point_shown negative x ds (suc n) h l (omega arith) ∙ e)

text_of :
    (d : Decimal) (n : ℕ)
    → d.scale ≡ pos n
    → display d ≡ signed_text d.negative (magnitude d.digits n)
unfolding display
text_of d n e =
    ap
      (λ scale. signed_text d.negative (
        if leb_ℤ scale (pos 0)
        then map char_of d.digits ++ replicate (neg_part scale) 48
        else with_point d.digits (pos_part scale)))
      e

small_scale : (z : ℤ) (n : ℕ) → IsI32 z → z ≡ pos n → n < 2 ^ 31
small_scale z n h e = let (low, high) = subst IsI32 e h in omega (arith, high)

-- A decimal as `assemble` makes it, with a scale that is not negative, is read back from its text.
pub from_str-display :
    (d : Decimal) (n : ℕ) → IsDecimal d → d.scale ≡ pos n → from_str (display d) ≡ ok d
from_str-display d n w e =
    ap from_str (text_of d n e)
    ∙ shown d.negative n d.digits d w.digits_in_range (small_scale d.scale n w.scale_in_range e)
        refl (ap (λ scale. assemble d.negative scale d.digits) (sym e) ∙ IsDecimal-normal d w)
