-- ===== src/Types/Decimal/Text.antt =====
-- types/decimal.rs: `Display` and `FromStr`, over the bytes of a text, and the canonical form that
-- equality and hashing go by.
use tarant.Base.{
  ℕ, ◌+◌, ◌-◌, ◌*◌, ◌==◌, leb, ltb, if◌then◌else◌, Bool, true, false, ◌||◌, ◌&&◌, not, Option, none,
  some, List, [], ◌∷◌, ◌++◌, map, length, Result, ok, err, ◌>>=◌, ok_or, drop, take, replicate,
}
use tarant.Base.Int.{ℤ, pos, ◌-ℤ◌, leb_ℤ, eqb_ℤ, pos_part, neg_part}
use tarant.Types.Decimal.{
  Decimal, DecimalError, no_digits, not_a_number, bad_exponent, scale_out_of_range, assemble,
  to_i32, is_zero, signed,
}
use tarant.Types.Chars.{char_of}

abbrev pub minus : ℕ
minus = 45

abbrev pub plus : ℕ
plus = 43

abbrev pub point : ℕ
point = 46

unfoldable pub is_e : ℕ → Bool
is_e c = (c == 101) || (c == 69)

-- A scale of more than zero.
unfoldable pub with_point : List ℕ → ℕ → List ℕ
with_point digits scale =
    if ltb scale (length digits)
    then map char_of (take (length digits - scale) digits)
      ++ (point ∷ map char_of (drop (length digits - scale) digits))
    else 48 ∷ point ∷ (replicate (scale - length digits) 48 ++ map char_of digits)

unfoldable pub display : Decimal → List ℕ
display d =
    (if d.negative then minus ∷ [] else [])
    ++ (if leb_ℤ d.scale (pos 0)
        then map char_of d.digits ++ replicate (neg_part d.scale) 48
        else with_point d.digits (pos_part d.scale))

unfoldable pub split_sign : List ℕ → Bool × List ℕ
split_sign [] = (false, [])
split_sign (c ∷ rest) =
    if c == minus then (true, rest) else if c == plus then (false, rest) else (false, c ∷ rest)

-- `find(['e', 'E'])` and the slices around it.
unfoldable pub split_exponent : List ℕ → List ℕ × Option (List ℕ)
split_exponent [] = ([], none)
split_exponent (c ∷ rest) =
    let later = split_exponent rest in if is_e c then ([], some rest) else (c ∷ later.0, later.1)

-- `split_once('.')`, and all of the text without one.
unfoldable pub split_point : List ℕ → List ℕ × List ℕ
split_point [] = ([], [])
split_point (c ∷ rest) =
    let later = split_point rest in if c == point then ([], rest) else (c ∷ later.0, later.1)

unfoldable pub is_ascii_digit : ℕ → Bool
is_ascii_digit c = leb 48 c && leb c 57

unfoldable pub read_digits : List ℕ → Result DecimalError (List ℕ)
read_digits [] = ok []
read_digits (c ∷ rest) =
    let later = read_digits rest in
    if is_ascii_digit c then (later >>= λ ds. ok ((c - 48) ∷ ds)) else err not_a_number

-- `parse::<i32>`: a sign and digits, in range.
unfoldable pub parse_magnitude : ℕ → List ℕ → Option ℕ
parse_magnitude acc [] = some acc
parse_magnitude acc (c ∷ rest) =
    let later = parse_magnitude (acc * 10 + (c - 48)) rest in
    if is_ascii_digit c then later else none

unfoldable pub parse_signed : Bool × List ℕ → Option ℤ
parse_signed (negative, []) = none
parse_signed (negative, c ∷ rest) = elim (parse_magnitude 0 (c ∷ rest)) [
  | none ↦ none
  | some n ↦ to_i32 (signed negative n)
]

unfoldable pub parse_i32 : List ℕ → Option ℤ
parse_i32 text = parse_signed (split_sign text)

unfoldable pub exponent_of : Option (List ℕ) → Result DecimalError ℤ
exponent_of none = ok (pos 0)
exponent_of (some text) = ok_or (parse_i32 text) bad_exponent

unfoldable pub are_empty : List ℕ → List ℕ → Bool
are_empty [] [] = true
are_empty [] (c ∷ frac) = false
are_empty (c ∷ int) frac = false

-- `i32::try_from(frac.len())` and `checked_sub`.
unfoldable pub less_exponent : ℤ → Option ℤ → Option ℤ
less_exponent exponent none = none
less_exponent exponent (some places) = to_i32 (places -ℤ exponent)

unfoldable pub scale_of : List ℕ → ℤ → Option ℤ
scale_of frac exponent = less_exponent exponent (to_i32 (pos (length frac)))

-- The digits before and after the point.
unfoldable pub from_number : Bool → List ℕ × List ℕ → ℤ → Result DecimalError Decimal
from_number negative (int, frac) exponent =
    let parts = read_digits (int ++ frac) >>= λ digits.
    ok_or (scale_of frac exponent) scale_out_of_range >>= λ scale. assemble negative scale digits in
    if are_empty int frac then err no_digits else parts

unfoldable pub from_str : List ℕ → Result DecimalError Decimal
from_str text =
    let (negative, rest) = split_sign text in
    let (number, exponent) = split_exponent rest in
    exponent_of exponent >>= λ e. from_number negative (split_point number) e

-- The digits without the trailing zeros that `canonical` counts.
unfoldable pub keep_digit : ℕ → List ℕ → List ℕ
keep_digit d [] = if d == 0 then [] else d ∷ []
keep_digit d (kept ∷ more) = d ∷ kept ∷ more

unfoldable pub without_trailing : List ℕ → List ℕ
without_trailing [] = []
without_trailing (d ∷ rest) = keep_digit d (without_trailing rest)

pub record Canonical : Type 0 where
  pub negative : Bool
  pub scale : ℤ
  pub digits : List ℕ

unfoldable pub canonical : Decimal → Canonical
canonical d =
    let kept = without_trailing d.digits in
    if is_zero d then record { negative = false; scale = pos 0; digits = d.digits } else record {
      negative = d.negative;
      scale = d.scale -ℤ pos (length d.digits - length kept);
      digits = kept;
    }

-- Tests of equality, as `==` on the parts makes them.
unfoldable pub eq_digits : List ℕ → List ℕ → Bool
eq_digits [] [] = true
eq_digits [] (y ∷ ys) = false
eq_digits (x ∷ xs) [] = false
eq_digits (x ∷ xs) (y ∷ ys) = (x == y) && eq_digits xs ys

unfoldable pub eq_sign : Bool → Bool → Bool
eq_sign true b = b
eq_sign false b = not b

unfoldable pub eq_canonical : Canonical → Canonical → Bool
eq_canonical x y =
    eq_sign x.negative y.negative && (eqb_ℤ x.scale y.scale && eq_digits x.digits y.digits)

unfoldable pub eq : Decimal → Decimal → Bool
eq a b = eq_canonical (canonical a) (canonical b)
