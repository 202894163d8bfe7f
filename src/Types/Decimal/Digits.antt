-- ===== src/Types/Decimal/Digits.antt =====
-- The value of digits of types/decimal.rs, and what comparing digits says of it.
use tarant.Base.{
  ℕ, zero, suc, ◌+◌, ◌*◌, ◌^◌, ◌<◌, ◌≤◌, ◌≡◌, ◌⊎◌, inl, inr, refl, sym, ap, ◌∙◌, List, [], ◌∷◌,
  length, arith,
}
use native.Mathlib.Nat.{pow-succ', pow-zero, mul-le-mul_right, mul-lt-mul_of_pos_right, one-le-pow}
use tarant.Types.Decimal.{less, equal, greater, compare_ℕ, then_by, value_of, padded, lexicographic}
use tarant.Types.Decimal.Payload.{AreDigits}

pub pow-add : (a b : ℕ) → 10 ^ (a + b) ≡ 10 ^ a * 10 ^ b
pow-add zero b =
    let whole : zero + b ≡ b = omega arith in
    let one : 10 ^ zero ≡ 1 = pow-zero 10 in
    ap (λ n. 10 ^ n) whole ∙ omega (arith, ap (λ t. t * 10 ^ b) one)
pow-add (suc a) b =
    let front : 10 ^ (suc a + b) ≡ 10 ^ suc (a + b) = ap (λ n. 10 ^ n) (omega arith) in
    omega (arith, front, pow-succ' 10 (a + b), ap (λ t. t * 10 ^ b) (pow-succ' 10 a), pow-add a b)

pub positive-pow : (n : ℕ) → 0 < 10 ^ n
positive-pow n = omega (arith, one-le-pow n 10 (omega arith))

value_of-acc : (acc : ℕ) (ds : List ℕ) → value_of acc ds ≡ acc * 10 ^ length ds + value_of 0 ds
unfolding value_of
value_of-acc acc [] = omega (arith, pow-zero 10)
value_of-acc acc (d ∷ ds) = omega (
  arith,
  value_of-acc (acc * 10 + d) ds,
  value_of-acc (0 * 10 + d) ds,
  ap (λ t. acc * t) (pow-succ' 10 (length ds)),
)

-- The first digit has the highest weight.
value_of-cons : (d : ℕ) (ds : List ℕ) → value_of 0 (d ∷ ds) ≡ d * 10 ^ length ds + value_of 0 ds
unfolding value_of
value_of-cons d ds = omega (arith, value_of-acc (0 * 10 + d) ds)

pub value_of-lt : (ds : List ℕ) → AreDigits ds → value_of 0 ds < 10 ^ length ds
value_of-lt [] h = unfold value_of in omega (arith, pow-zero 10)
value_of-lt (d ∷ ds) h = omega (
  arith,
  value_of-cons d ds,
  value_of-lt ds h.1,
  mul-le-mul_right (10 ^ length ds) h.0,
  pow-succ' 10 (length ds),
)

pub value_of-ge : (d : ℕ) (ds : List ℕ) → 1 ≤ d → 10 ^ length ds ≤ value_of 0 (d ∷ ds)
value_of-ge d ds h = omega (arith, value_of-cons d ds, mul-le-mul_right (10 ^ length ds) h)

pub length-padded : (w : ℕ) (ds : List ℕ) → length (padded w ds) ≡ w
unfolding padded
length-padded zero ds = refl
length-padded (suc w) [] = ap suc (length-padded w [])
length-padded (suc w) (d ∷ ds) = ap suc (length-padded w ds)

pub padded-AreDigits : (w : ℕ) (ds : List ℕ) → AreDigits ds → AreDigits (padded w ds)
unfolding padded
padded-AreDigits zero ds h = tt
padded-AreDigits (suc w) [] h = (omega arith, padded-AreDigits w [] tt)
padded-AreDigits (suc w) (d ∷ ds) h = (h.0, padded-AreDigits w ds h.1)

value_of-padded_nil : (w : ℕ) → value_of 0 (padded w []) ≡ 0
unfolding padded
value_of-padded_nil zero = unfold value_of in refl
value_of-padded_nil (suc w) = omega (arith, value_of-cons 0 (padded w []), value_of-padded_nil w)

nothing_padded : (k w : ℕ) → value_of 0 (padded w []) ≡ value_of 0 [] * 10 ^ k
nothing_padded k w = unfold value_of in omega (arith, value_of-padded_nil w)

pub value_of-padded :
    (k w : ℕ) (ds : List ℕ) → length ds + k ≡ w → value_of 0 (padded w ds) ≡ value_of 0 ds * 10 ^ k
unfolding padded
value_of-padded k w [] e = nothing_padded k w
value_of-padded k zero (d ∷ ds) e = absurd (omega (arith, e))
value_of-padded k (suc w) (d ∷ ds) e =
    let whole : 10 ^ w ≡ 10 ^ length ds * 10 ^ k =
      ap (λ n. 10 ^ n) (omega (arith, e)) ∙ pow-add (length ds) k in
    let weight : 10 ^ length (padded w ds) ≡ 10 ^ w = ap (λ n. 10 ^ n) (length-padded w ds) in
    omega (
      arith,
      value_of-cons d (padded w ds),
      ap (λ t. d * t) weight,
      ap (λ t. d * t) whole,
      ap (λ t. t * 10 ^ k) (value_of-cons d ds),
      value_of-padded k w ds (omega (arith, e)),
    )

-- Comparing numbers.
pub compare_less : (a b : ℕ) → a < b → compare_ℕ a b ≡ less
unfolding compare_ℕ
compare_less a b h = ground (arith, h)

pub compare_greater : (a b : ℕ) → b < a → compare_ℕ a b ≡ greater
unfolding compare_ℕ
compare_greater a b h = ground (arith, h)

pub compare_equal : (a b : ℕ) → a ≡ b → compare_ℕ a b ≡ equal
unfolding compare_ℕ
compare_equal a b h = ground (arith, h)

pub apart : (a b : ℕ) → (a < b) ⊎ ((a ≡ b) ⊎ (b < a))
apart a b = ground arith

-- A positive factor does not change the order.
pub compare_scaled : (c x y : ℕ) → 0 < c → compare_ℕ (x * c) (y * c) ≡ compare_ℕ x y
compare_scaled c x y h = elim (apart x y) [
  | inl l ↦ compare_less (x * c) (y * c) (mul-lt-mul_of_pos_right l h) ∙ sym (compare_less x y l)
  | inr (inl e) ↦ compare_equal (x * c) (y * c) (ap (λ t. t * c) e) ∙ sym (compare_equal x y e)
  | inr (inr g) ↦
      compare_greater (x * c) (y * c) (mul-lt-mul_of_pos_right g h) ∙ sym (compare_greater x y g)
]

compare_shifted : (c a b a' b' : ℕ) → a' ≡ c + a → b' ≡ c + b → compare_ℕ a b ≡ compare_ℕ a' b'
compare_shifted c a b a' b' e f = elim (apart a b) [
  | inl l ↦ compare_less a b l ∙ sym (compare_less a' b' (omega (arith, e, f, l)))
  | inr (inl g) ↦ compare_equal a b g ∙ sym (compare_equal a' b' (omega (arith, e, f, g)))
  | inr (inr g) ↦ compare_greater a b g ∙ sym (compare_greater a' b' (omega (arith, e, f, g)))
]

first_decides : (x y p v u : ℕ) → x < y → v < p → x * p + v < y * p + u
first_decides x y p v u l h = omega (arith, h, mul-le-mul_right p l)

pub lexicographic-compare_ℕ :
    (xs ys : List ℕ)
    → AreDigits xs
    → AreDigits ys
    → length xs ≡ length ys
    → lexicographic xs ys ≡ compare_ℕ (value_of 0 xs) (value_of 0 ys)
unfolding lexicographic then_by
lexicographic-compare_ℕ [] [] h k e = unfold value_of in refl
lexicographic-compare_ℕ [] (y ∷ ys) h k e = absurd (omega (arith, e))
lexicographic-compare_ℕ (x ∷ xs) [] h k e = absurd (omega (arith, e))
lexicographic-compare_ℕ (x ∷ xs) (y ∷ ys) h k e =
    let same : 10 ^ length xs ≡ 10 ^ length ys = ap (λ n. 10 ^ n) (omega (arith, e)) in
    let rest : lexicographic xs ys ≡ compare_ℕ (value_of 0 xs) (value_of 0 ys) =
      lexicographic-compare_ℕ xs ys h.1 k.1 (omega (arith, e)) in
    elim (apart x y) [
      | inl l ↦ rw (compare_less x y l) (
          sym (
            compare_less (value_of 0 (x ∷ xs)) (value_of 0 (y ∷ ys)) (
              omega (
                arith,
                value_of-cons x xs,
                value_of-cons y ys,
                ap (λ t. y * t) same,
                first_decides x y (10 ^ length xs) (value_of 0 xs) (value_of 0 ys) l
                    (value_of-lt xs h.1),
              ))))
      | inr (inl g) ↦ rw (compare_equal x y g) (
          rest
          ∙ compare_shifted (x * 10 ^ length xs) (value_of 0 xs) (value_of 0 ys)
              (value_of 0 (x ∷ xs)) (value_of 0 (y ∷ ys)) (value_of-cons x xs)
              (omega
                (arith, value_of-cons y ys, ap (λ t. y * t) same, ap (λ t. t * 10 ^ length xs) g)))
      | inr (inr g) ↦ rw (compare_greater x y g) (
          sym (
            compare_greater (value_of 0 (x ∷ xs)) (value_of 0 (y ∷ ys)) (
              omega (
                arith,
                value_of-cons x xs,
                value_of-cons y ys,
                ap (λ t. x * t) same,
                first_decides y x (10 ^ length ys) (value_of 0 ys) (value_of 0 xs) g
                    (value_of-lt ys k.1),
              ))))
    ]
