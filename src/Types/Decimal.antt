-- ===== src/Types/Decimal.antt =====
-- types/decimal.rs: decimals of up to 38 digits, their payload, order and canonical form. Digits stand
-- with the most significant first.
pub mod Payload
pub mod Digits
pub mod Order
pub mod Exact
pub mod Text
pub mod Reading
pub mod Displayed
pub mod Equality
pub mod Consistent
use tarant.Base.{
  ℕ, zero, suc, ◌+◌, ◌-◌, ◌*◌, ◌/◌, ◌%◌, ◌^◌, max, ◌==◌, leb, ltb, if◌then◌else◌, Bool, true, false,
  ◌||◌, ◌&&◌, Option, none, some, List, [], ◌∷◌, ◌++◌, length, Result, ok, err, panic, stuck, ◌>>=◌,
  ok_or, bit_or, drop, take,
}
use tarant.Base.Int.{ℤ, pos, negsuc, sub_ℕ, ◌-ℤ◌, leb_ℤ, ltb_ℤ, eqb_ℤ}
use tarant.Rmp.{Rmp}

pub data DecimalError : Type 0 where
  too_many_digits no_scale scale_out_of_range no_sign_nibble non_decimal_digit no_digits
        not_a_number bad_exponent :
      DecimalError

pub record Decimal : Type 0 where
  pub negative : Bool
  pub scale : ℤ
  pub digits : List ℕ

abbrev pub max_digits : ℕ
max_digits = 38

unfoldable pub zero_decimal : Decimal
zero_decimal = record { negative = false; scale = pos 0; digits = 0 ∷ [] }

-- Dropping the leading zeros, which `take_while` counts.
unfoldable pub without_leading : List ℕ → List ℕ
without_leading [] = []
without_leading (d ∷ ds) = let rest = without_leading ds in if d == 0 then rest else d ∷ ds

-- `assemble` of digits without leading zeros.
unfoldable pub bounded : Bool → ℤ → List ℕ → Result DecimalError Decimal
unfolding zero_decimal
bounded negative scale [] = ok zero_decimal
bounded negative scale (d ∷ ds) =
    if ltb max_digits (length (d ∷ ds))
    then err too_many_digits
    else ok (record { negative = negative; scale = scale; digits = d ∷ ds })

unfoldable pub assemble : Bool → ℤ → List ℕ → Result DecimalError Decimal
unfolding without_leading bounded
assemble negative scale digits = bounded negative scale (without_leading digits)

-- `to_string` of a magnitude: fewer than 40 digits in 128 bits.
unfoldable pub digits_of : ℕ → ℕ → List ℕ
digits_of zero n = []
digits_of (suc fuel) n =
    let front = digits_of fuel (n / 10) in if ltb n 10 then n ∷ [] else front ++ (n % 10 ∷ [])

abbrev magnitude_of : ℤ → ℕ
magnitude_of (pos n) = n
magnitude_of (negsuc n) = suc n

abbrev is_below_zero : ℤ → Bool
is_below_zero (pos n) = false
is_below_zero (negsuc n) = true

unfoldable pub from_parts : ℤ → ℤ → Result DecimalError Decimal
unfolding assemble digits_of
from_parts mantissa scale =
    assemble (is_below_zero mantissa) scale (digits_of 40 (magnitude_of mantissa))

unfoldable pub is_zero : Decimal → Bool
is_zero d = elim (d.digits) [ (x ∷ []) ↦ x == 0 | _ ↦ false ]

-- The fold of `mantissa`.
unfoldable pub value_of : ℕ → List ℕ → ℕ
value_of acc [] = acc
value_of acc (d ∷ ds) = value_of (acc * 10 + d) ds

-- A magnitude with a sign.
unfoldable pub signed : Bool → ℕ → ℤ
signed false n = pos n
signed true n = sub_ℕ 0 n

-- `mantissa`: at most 38 digits fit 128 bits.
unfoldable pub mantissa : Decimal → ℤ
unfolding signed value_of
mantissa d = signed d.negative (value_of 0 d.digits)

-- `integer_len`
unfoldable pub integer_len : Decimal → ℤ
integer_len d = pos (length d.digits) -ℤ d.scale

pub data Ordering : Type 0 where
  less equal greater : Ordering

unfoldable pub compare_ℤ : ℤ → ℤ → Ordering
compare_ℤ a b = if ltb_ℤ a b then less else if ltb_ℤ b a then greater else equal

unfoldable pub compare_ℕ : ℕ → ℕ → Ordering
compare_ℕ a b = if ltb a b then less else if ltb b a then greater else equal

-- What a comparison leaves open is up to the next.
unfoldable pub then_by : Ordering → Ordering → Ordering
then_by less next = less
then_by equal next = next
then_by greater next = greater

-- `chain(repeat(0)).take(width)`
unfoldable pub padded : ℕ → List ℕ → List ℕ
padded zero ds = []
padded (suc w) [] = 0 ∷ padded w []
padded (suc w) (d ∷ ds) = d ∷ padded w ds

-- `Iterator::cmp`
unfoldable pub lexicographic : List ℕ → List ℕ → Ordering
unfolding compare_ℕ then_by
lexicographic [] [] = equal
lexicographic [] (y ∷ ys) = less
lexicographic (x ∷ xs) [] = greater
lexicographic (x ∷ xs) (y ∷ ys) = then_by (compare_ℕ x y) (lexicographic xs ys)

unfoldable pub cmp_magnitude : Decimal → Decimal → Ordering
unfolding integer_len compare_ℤ padded lexicographic then_by
cmp_magnitude a b =
    let width = max (length a.digits) (length b.digits) in
    let by_digits = lexicographic (padded width a.digits) (padded width b.digits) in
    then_by (compare_ℤ (integer_len a) (integer_len b)) by_digits

-- By whether each is zero, and then by the signs.
unfoldable pub cmp_signed : Bool → Bool → Ordering → Ordering → Ordering
cmp_signed false true forth back = greater
cmp_signed true false forth back = less
cmp_signed false false forth back = forth
cmp_signed true true forth back = back

unfoldable pub cmp : Decimal → Decimal → Ordering
unfolding is_zero cmp_signed cmp_magnitude
cmp a b =
    if is_zero a
    then (if is_zero b then equal else if b.negative then greater else less)
    else if is_zero b
    then (if a.negative then less else greater)
    else cmp_signed a.negative b.negative (cmp_magnitude a b) (cmp_magnitude b a)

-- `nibbles.chunks(2)`, with `pair[1]` of a lone nibble out of range.
unfoldable pub pack : List ℕ → Result DecimalError (List ℕ)
pack [] = ok []
pack (a ∷ []) = panic
pack (a ∷ b ∷ rest) = pack rest >>= λ bytes. ok (bit_or (a * 16 % 256) b ∷ bytes)

unfoldable pub sign_nibble : Bool → ℕ
sign_nibble negative = if negative then 0x0d else 0x0c

unfoldable pub nibbles_of : Decimal → List ℕ
unfolding sign_nibble
nibbles_of d =
    let signed = d.digits ++ (sign_nibble d.negative ∷ []) in
    if length d.digits % 2 == 0 then 0 ∷ signed else signed

unfoldable pub unpack : List ℕ → List ℕ
unpack [] = []
unpack (byte ∷ rest) = byte / 16 ∷ byte % 16 ∷ unpack rest

-- `nibbles.pop()`
unfoldable pub pop : List ℕ → Option (List ℕ × ℕ)
pop [] = none
pop (x ∷ xs) = elim (pop xs) [ none ↦ some ([], x) | some (front, last) ↦ some (x ∷ front, last) ]

unfoldable pub sign_of : ℕ → Option Bool
sign_of n =
    if (n == 0x0a) || (n == 0x0c) || (n == 0x0e) || (n == 0x0f)
    then some false
    else if (n == 0x0b) || (n == 0x0d)
    then some true
    else none

unfoldable pub has_non_digit : List ℕ → Bool
has_non_digit [] = false
has_non_digit (d ∷ ds) = ltb 9 d || has_non_digit ds

-- `i32::try_from`
unfoldable pub to_i32 : ℤ → Option ℤ
to_i32 z = if leb_ℤ (negsuc (2 ^ 31 - 1)) z && leb_ℤ z (pos (2 ^ 31 - 1)) then some z else none

-- The digits and the sign of a payload behind its scale.
unfoldable pub signed_digits : List ℕ → Result DecimalError (Bool × List ℕ)
unfolding pop sign_of has_non_digit
signed_digits nibbles = do
  split ← ok_or (pop nibbles) no_sign_nibble
  negative ← ok_or (sign_of split.1) no_sign_nibble
  if has_non_digit split.0 then err non_decimal_digit else ok (negative, split.0)

module _ (rmp : Rmp) where
  unfoldable pub to_payload : Decimal → Result DecimalError (List ℕ)
  unfolding pack nibbles_of
  to_payload d = pack (nibbles_of d) >>= λ bytes. ok (rmp.write_sint d.scale ++ bytes)

  unfoldable pub from_payload : List ℕ → Result DecimalError Decimal
  unfolding to_i32 unpack signed_digits assemble
  from_payload payload = do
    read ← ok_or (rmp.read_i64 payload) no_scale
    scale ← ok_or (to_i32 read.0) scale_out_of_range
    parts ← signed_digits (unpack read.1)
    assemble parts.0 scale parts.1
