-- ===== src/Types/Decimal/Reading.antt =====
-- types/decimal.rs: the text of a decimal, read back.
use tarant.Base.{
  ℕ, ◌-◌, ◌==◌, ◌≤◌, ◌<◌, ◌^◌, ◌≡◌, refl, sym, ap, ◌∙◌, if◌then◌else◌, Bool, true, false, none,
  some, List, [], ◌∷◌, ◌++◌, map, length, ok, arith, length-map, All-append, append-nil,
}
use tarant.Base.Int.{pos, ◌-ℤ◌}
use tarant.Types.Decimal.{assemble, to_i32}
use tarant.Types.Decimal.Payload.{AreDigits}
use tarant.Types.Decimal.Text.{
  from_str, from_number, scale_of, less_exponent, are_empty, exponent_of, read_digits,
  is_ascii_digit, split_point, split_exponent, split_sign, is_e, point, minus, plus,
}
use tarant.Types.Chars.{char_of, AreDigitChars, map-AreDigitChars}

no_exponent : (text : List ℕ) → AreDigitChars text → split_exponent text ≡ (text, none)
unfolding split_exponent
no_exponent [] h = refl
no_exponent (c ∷ rest) h =
    let digit : is_e c ≡ false = unfold is_e in ground (arith, h.0) in
    rw (digit, no_exponent rest h.1) refl

no_exponent_point :
    (int frac : List ℕ)
    → AreDigitChars int
    → AreDigitChars frac
    → split_exponent (int ++ (point ∷ frac)) ≡ (int ++ (point ∷ frac), none)
unfolding split_exponent
no_exponent_point [] frac h k =
    let other : is_e point ≡ false = unfold is_e in refl in rw (other, no_exponent frac k) refl
no_exponent_point (c ∷ rest) frac h k =
    let digit : is_e c ≡ false = unfold is_e in ground (arith, h.0) in
    rw (digit, no_exponent_point rest frac h.1 k) refl

no_point : (text : List ℕ) → AreDigitChars text → split_point text ≡ (text, [])
unfolding split_point
no_point [] h = refl
no_point (c ∷ rest) h =
    let digit : (c == point) ≡ false = ground (arith, h.0) in rw (digit, no_point rest h.1) refl

at_point :
    (int frac : List ℕ) → AreDigitChars int → split_point (int ++ (point ∷ frac)) ≡ (int, frac)
unfolding split_point
at_point [] frac h = refl
at_point (c ∷ rest) frac h =
    let digit : (c == point) ≡ false = ground (arith, h.0) in
    rw (digit, at_point rest frac h.1) refl

read_digits-map : (ds : List ℕ) → AreDigits ds → read_digits (map char_of ds) ≡ ok ds
unfolding read_digits
read_digits-map [] h = refl
read_digits-map (d ∷ ds) h =
    let digit : is_ascii_digit (char_of d) ≡ true = unfold is_ascii_digit in ground (arith, h.0) in
    let same : char_of d - 48 ≡ d = omega arith in rw (digit, read_digits-map ds h.1, same) refl

no_sign : (c : ℕ) (rest : List ℕ) → 48 ≤ c → split_sign (c ∷ rest) ≡ (false, c ∷ rest)
unfolding split_sign
no_sign c rest h =
    let a : (c == minus) ≡ false = ground (arith, h) in
    let b : (c == plus) ≡ false = ground (arith, h) in rw (a, b) refl

-- A sign in front of a digit.
sign_back :
    (negative : Bool) (c : ℕ) (rest : List ℕ)
    → 48 ≤ c
    → split_sign ((if negative then minus ∷ [] else []) ++ (c ∷ rest)) ≡ (negative, c ∷ rest)
sign_back true c rest h = unfold split_sign in refl
sign_back false c rest h = no_sign c rest h

to_i32_small : (n : ℕ) → n < 2 ^ 31 → to_i32 (pos n) ≡ some (pos n)
unfolding to_i32
to_i32_small n h = ground (arith, h)

scale_of_small :
    (frac : List ℕ) → length frac < 2 ^ 31 → scale_of frac (pos 0) ≡ some (pos (length frac))
unfolding scale_of less_exponent
scale_of_small frac h =
    let same : pos (length frac) -ℤ pos 0 ≡ pos (length frac) = unfold ◌-ℤ◌ in ground arith in
    rw (to_i32_small (length frac) h, same, to_i32_small (length frac) h) refl

pub map-append : (xs ys : List ℕ) → map char_of (xs ++ ys) ≡ map char_of xs ++ map char_of ys
map-append [] ys = refl
map-append (x ∷ xs) ys = ap (λ t. char_of x ∷ t) (map-append xs ys)

-- The digits of both sides of a point.
from_number-map :
    (negative : Bool) (d : ℕ) (xs ys : List ℕ)
    → AreDigits (d ∷ xs)
    → AreDigits ys
    → length ys < 2 ^ 31
    → from_number negative (map char_of (d ∷ xs), map char_of ys) (pos 0)
      ≡ assemble negative (pos (length ys)) (d ∷ xs ++ ys)
unfolding from_number are_empty
from_number-map negative d xs ys h k l =
    let long = length-map char_of ys in
    let read : read_digits (map char_of (d ∷ xs) ++ map char_of ys) ≡ ok (d ∷ xs ++ ys) =
      rw (sym (map-append (d ∷ xs) ys))
        (read_digits-map (d ∷ xs ++ ys) (All-append _ (d ∷ xs) ys k h)) in
    rw (read, scale_of_small (map char_of ys) (rw long l), long) refl

abbrev pub signed_text : Bool → List ℕ → List ℕ
signed_text negative text = (if negative then minus ∷ [] else []) ++ text

pub from_str-point :
    (negative : Bool) (d : ℕ) (xs ys : List ℕ)
    → AreDigits (d ∷ xs)
    → AreDigits ys
    → length ys < 2 ^ 31
    → from_str (signed_text negative (map char_of (d ∷ xs) ++ (point ∷ map char_of ys)))
      ≡ assemble negative (pos (length ys)) (d ∷ xs ++ ys)
unfolding from_str exponent_of
from_str-point negative d xs ys h k l =
    let int = map char_of (d ∷ xs) in
    let frac = map char_of ys in
    let int_chars = map-AreDigitChars (d ∷ xs) h in
    let frac_chars = map-AreDigitChars ys k in
    rw
      (
        sign_back negative (char_of d) (map char_of xs ++ (point ∷ frac)) (omega arith),
        no_exponent_point int frac int_chars frac_chars,
        at_point int frac int_chars,
      )
      (from_number-map negative d xs ys h k l)

pub from_str_whole :
    (negative : Bool) (d : ℕ) (xs : List ℕ)
    → AreDigits (d ∷ xs)
    → from_str (signed_text negative (map char_of (d ∷ xs))) ≡ assemble negative (pos 0) (d ∷ xs)
unfolding from_str exponent_of
from_str_whole negative d xs h =
    let int = map char_of (d ∷ xs) in
    let int_chars = map-AreDigitChars (d ∷ xs) h in
    rw
      (
        sign_back negative (char_of d) (map char_of xs) (omega arith),
        no_exponent int int_chars,
        no_point int int_chars,
      )
      (from_number-map negative d xs [] h tt (omega arith)
        ∙ ap (λ ds. assemble negative (pos 0) (d ∷ ds)) (append-nil xs))
