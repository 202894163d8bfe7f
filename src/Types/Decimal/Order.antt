-- ===== src/Types/Decimal/Order.antt =====
-- The order of types/decimal.rs against the order of the numbers that decimals stand for.
use tarant.Base.{
  ℕ, suc, ◌+◌, ◌-◌, ◌*◌, ◌^◌, ◌<◌, ◌≤◌, max, ◌≡◌, inl, inr, sym, ap, ◌∙◌, List, [], ◌∷◌, length,
  arith,
}
use tarant.Base.Int.{pos, pos_part, neg_part, -ℤ_parts}
use mathlib.Core.Path.{ap₂}
use native.Mathlib.Nat.{mul-le-mul_right, mul-lt-mul_of_pos_right, pow-le-pow_right}
use tarant.Types.Decimal.{
  Decimal, compare_ℕ, compare_ℤ, then_by, value_of, padded, lexicographic, integer_len,
  cmp_magnitude,
}
use tarant.Types.Decimal.Payload.{AreDigits}
use tarant.Types.Decimal.Digits.{
  pow-add, positive-pow, value_of-lt, value_of-ge, length-padded, padded-AreDigits, value_of-padded,
  compare_less, compare_greater, compare_equal, apart, compare_scaled, lexicographic-compare_ℕ,
}

-- Two scales brought to the same one by `p` and `q` more digits.
abbrev pub Aligned : Decimal → ℕ → Decimal → ℕ → Type 0
Aligned a p b q = pos_part a.scale + p + neg_part b.scale ≡ pos_part b.scale + q + neg_part a.scale

compare_ℤ-integer_len :
    (a b : Decimal) (p q : ℕ)
    → Aligned a p b q
    → compare_ℤ (integer_len a) (integer_len b)
      ≡ compare_ℕ (length a.digits + p) (length b.digits + q)
unfolding compare_ℤ compare_ℕ integer_len
compare_ℤ-integer_len a b p q e =
    ground
      (arith, e, -ℤ_parts (pos (length a.digits)) a.scale, -ℤ_parts (pos (length b.digits)) b.scale)

-- Fewer digits before the point make a smaller number.
shorter_lt :
    (va vb la lb p q : ℕ)
    → va < 10 ^ la
    → 10 ^ lb ≤ vb
    → la + p < suc lb + q
    → va * 10 ^ p < vb * 10 ^ q
shorter_lt va vb la lb p q below above shorter =
    let up : 10 ^ (la + p) ≤ 10 ^ (lb + q) =
      pow-le-pow_right (omega arith) (omega (arith, shorter)) in
    omega (
      arith,
      mul-lt-mul_of_pos_right below (positive-pow p),
      mul-le-mul_right (10 ^ q) above,
      pow-add la p,
      pow-add lb q,
      up,
    )

aligned_exponents :
    (la lb p q w ka kb : ℕ) → la + p ≡ lb + q → la + ka ≡ w → lb + kb ≡ w → ka + q ≡ p + kb
aligned_exponents la lb p q w ka kb e f g = omega (arith, e, f, g)

-- With as many digits before the point, the digits decide.
as_long :
    (va vb la lb p q w ka kb : ℕ)
    → la + p ≡ lb + q
    → la + ka ≡ w
    → lb + kb ≡ w
    → compare_ℕ (va * 10 ^ ka) (vb * 10 ^ kb) ≡ compare_ℕ (va * 10 ^ p) (vb * 10 ^ q)
as_long va vb la lb p q w ka kb e f g =
    let exponents : 10 ^ (ka + q) ≡ 10 ^ (p + kb) =
      ap (λ n. 10 ^ n) (aligned_exponents la lb p q w ka kb e f g) in
    let left : va * 10 ^ ka * 10 ^ q ≡ va * 10 ^ p * 10 ^ kb = omega (
      arith,
      ap (λ t. va * t) exponents,
      ap (λ t. va * t) (pow-add ka q),
      ap (λ t. va * t) (pow-add p kb),
    ) in
    let right : vb * 10 ^ kb * 10 ^ q ≡ vb * 10 ^ q * 10 ^ kb = omega arith in
    sym (compare_scaled (10 ^ q) (va * 10 ^ ka) (vb * 10 ^ kb) (positive-pow q))
    ∙ ap₂ compare_ℕ left right
    ∙ compare_scaled (10 ^ kb) (va * 10 ^ p) (vb * 10 ^ q) (positive-pow kb)

-- The comparison of the digits that `cmp_magnitude` makes last.
by_digits :
    (xs ys : List ℕ) (p q : ℕ)
    → AreDigits xs
    → AreDigits ys
    → length xs + p ≡ length ys + q
    → lexicographic
        (padded (max (length xs) (length ys)) xs)
        (padded (max (length xs) (length ys)) ys)
      ≡ compare_ℕ (value_of 0 xs * 10 ^ p) (value_of 0 ys * 10 ^ q)
by_digits xs ys p q h k e =
    let w = max (length xs) (length ys) in
    let left : length xs + (w - length xs) ≡ w = omega arith in
    let right : length ys + (w - length ys) ≡ w = omega arith in
    lexicographic-compare_ℕ (padded w xs) (padded w ys) (padded-AreDigits w xs h)
      (padded-AreDigits w ys k) (length-padded w xs ∙ sym (length-padded w ys))
    ∙ ap₂ compare_ℕ (value_of-padded (w - length xs) w xs left)
        (value_of-padded (w - length ys) w ys right)
    ∙ as_long (value_of 0 xs) (value_of 0 ys) (length xs) (length ys) p q w (w - length xs)
        (w - length ys) e left right

-- Digits that begin with one that is not zero.
abbrev pub Leads : List ℕ → Type 0
Leads [] = ⊥
Leads (d ∷ ds) = 1 ≤ d

longer_gt :
    (xs ys : List ℕ) (p q : ℕ)
    → AreDigits xs
    → Leads ys
    → length xs + p < length ys + q
    → value_of 0 xs * 10 ^ p < value_of 0 ys * 10 ^ q
longer_gt xs [] p q h l e = absurd l
longer_gt xs (y ∷ ys) p q h l e =
    shorter_lt (value_of 0 xs) (value_of 0 (y ∷ ys)) (length xs) (length ys) p q (value_of-lt xs h)
      (value_of-ge y ys l) e

pub cmp_magnitude-compare_ℕ :
    (a b : Decimal) (p q : ℕ)
    → AreDigits a.digits
    → AreDigits b.digits
    → Leads a.digits
    → Leads b.digits
    → Aligned a p b q
    → cmp_magnitude a b ≡ compare_ℕ (value_of 0 a.digits * 10 ^ p) (value_of 0 b.digits * 10 ^ q)
unfolding cmp_magnitude then_by
cmp_magnitude-compare_ℕ a b p q h k l m e =
    rw (compare_ℤ-integer_len a b p q e) (elim (apart (length a.digits + p) (length b.digits + q)) [
      | inl less_long ↦
          rw (compare_less _ _ less_long)
            (sym (compare_less _ _ (longer_gt a.digits b.digits p q h m less_long)))
      | inr (inl same) ↦ rw (compare_equal _ _ same) (by_digits a.digits b.digits p q h k same)
      | inr (inr more) ↦
          rw (compare_greater _ _ more)
            (sym (compare_greater _ _ (longer_gt b.digits a.digits q p k l more)))
    ])
