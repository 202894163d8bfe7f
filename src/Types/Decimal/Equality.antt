-- ===== src/Types/Decimal/Equality.antt =====
-- types/decimal.rs: what the order by magnitude says of the canonical forms.
use tarant.Base.{
  ℕ, zero, suc, ◌-◌, ◌≤◌, ◌≡◌, refl, sym, ap, ◌∙◌, ◌==◌, false, max, List, [], ◌∷◌, length, arith,
  Bool-cases, inl, inr,
}
use mathlib.Core.Path.{ap₂}
use tarant.Types.Decimal.Digits.{compare_less, compare_greater, apart}
use tarant.Base.Int.{ℤ, pos, pos_part, neg_part, ◌-ℤ◌, ltb_ℤ, -ℤ_parts, eq_of_parts}
use tarant.Types.Decimal.{
  Decimal, cmp_magnitude, integer_len, padded, lexicographic, then_by, Ordering, less, equal,
  greater, compare_ℕ, compare_ℤ,
}
use tarant.Types.Decimal.Text.{without_trailing, keep_digit}

length-keep_digit :
    (d : ℕ) (kept ds : List ℕ)
    → length kept ≤ length ds
    → length (keep_digit d kept) ≤ suc (length ds)
unfolding keep_digit
length-keep_digit d [] ds h = elim (Bool-cases (d == 0)) [
  | inl e ↦ rw e (omega arith)
  | inr e ↦ rw e (omega arith)
]
length-keep_digit d (k ∷ kept) ds h = omega (arith, h)

length-without_trailing : (ds : List ℕ) → length (without_trailing ds) ≤ length ds
unfolding without_trailing
length-without_trailing [] = omega arith
length-without_trailing (d ∷ ds) =
    length-keep_digit d (without_trailing ds) ds (length-without_trailing ds)

-- Zeros at the end are lost again.
without_trailing-nothing : (w : ℕ) → without_trailing (padded w []) ≡ []
unfolding without_trailing keep_digit padded
without_trailing-nothing zero = refl
without_trailing-nothing (suc w) = rw (without_trailing-nothing w) refl

without_trailing-padded :
    (w : ℕ) (ds : List ℕ) → length ds ≤ w → without_trailing (padded w ds) ≡ without_trailing ds
unfolding without_trailing padded
without_trailing-padded w [] h = without_trailing-nothing w
without_trailing-padded zero (d ∷ ds) h = absurd (omega (arith, h))
without_trailing-padded (suc w) (d ∷ ds) h =
    rw (without_trailing-padded w ds (omega (arith, h))) refl

-- And they are put back.
padded-keep_digit :
    (w d : ℕ) (kept : List ℕ) → padded (suc w) (keep_digit d kept) ≡ d ∷ padded w kept
unfolding keep_digit padded
padded-keep_digit w d [] = elim (Bool-cases (d == 0)) [
  | inl e ↦ let zero_digit : d ≡ 0 = ground (arith, e) in rw (e, zero_digit) refl
  | inr e ↦ rw e refl
]
padded-keep_digit w d (k ∷ kept) = refl

padded-without_trailing :
    (w : ℕ) (ds : List ℕ) → length ds ≤ w → padded w (without_trailing ds) ≡ padded w ds
unfolding without_trailing padded
padded-without_trailing w [] h = refl
padded-without_trailing zero (d ∷ ds) h = absurd (omega (arith, h))
padded-without_trailing (suc w) (d ∷ ds) h =
    padded-keep_digit w d (without_trailing ds)
    ∙ ap (λ t. d ∷ t) (padded-without_trailing w ds (omega (arith, h)))

compare_ℕ-equal : (x y : ℕ) → compare_ℕ x y ≡ equal → x ≡ y
compare_ℕ-equal x y e = elim (apart x y) [
  | inl l ↦ let other = sym (compare_less x y l) ∙ e in cc other
  | inr (inl same) ↦ same
  | inr (inr g) ↦ let other = sym (compare_greater x y g) ∙ e in cc other
]

compare_ℤ-equal : (x y : ℤ) → compare_ℤ x y ≡ equal → x ≡ y
unfolding compare_ℤ
compare_ℤ-equal x y e = elim (Bool-cases (ltb_ℤ x y)) [
  | inl l ↦ let other = rw l at e in cc other
  | inr nl ↦ elim (Bool-cases (ltb_ℤ y x)) [
    | inl g ↦ let other = rw (nl, g) at e in cc other
    | inr ng ↦ eq_of_parts x y (ground (arith, nl, ng))
  ]
]

compare_ℤ_refl : (x : ℤ) → compare_ℤ x x ≡ equal
unfolding compare_ℤ
compare_ℤ_refl x = let e : ltb_ℤ x x ≡ false = ground arith in rw e refl

then_by_equal : (a b : Ordering) → then_by a b ≡ equal → (a ≡ equal) × (b ≡ equal)
unfolding then_by
then_by_equal less b e = cc e
then_by_equal equal b e = (refl, e)
then_by_equal greater b e = cc e

lexicographic-equal : (xs ys : List ℕ) → lexicographic xs ys ≡ equal → xs ≡ ys
unfolding lexicographic
lexicographic-equal [] [] e = refl
lexicographic-equal [] (y ∷ ys) e = cc e
lexicographic-equal (x ∷ xs) [] e = cc e
lexicographic-equal (x ∷ xs) (y ∷ ys) e =
    let (first, rest) = then_by_equal (compare_ℕ x y) (lexicographic xs ys) e in
    ap₂ (λ d ds. d ∷ ds) (compare_ℕ-equal x y first) (lexicographic-equal xs ys rest)

lexicographic_refl : (xs : List ℕ) → lexicographic xs xs ≡ equal
unfolding lexicographic
lexicographic_refl [] = refl
lexicographic_refl (x ∷ xs) =
    let e : compare_ℕ x x ≡ equal = unfold compare_ℕ in ground arith in
    rw (e, then_by) (lexicographic_refl xs)

-- The scale of the canonical form of a decimal other than zero, and its digits.
abbrev pub kept : Decimal → List ℕ
kept d = without_trailing d.digits

abbrev pub kept_scale : Decimal → ℤ
kept_scale d = d.scale -ℤ pos (length d.digits - length (kept d))

module _ (a b : Decimal) where
  same_scale : kept a ≡ kept b → integer_len a ≡ integer_len b → kept_scale a ≡ kept_scale b
  unfolding integer_len
  same_scale k e = eq_of_parts (kept_scale a) (kept_scale b) (
      omega (
        arith,
        -ℤ_parts (pos (length a.digits)) a.scale,
        -ℤ_parts (pos (length b.digits)) b.scale,
        -ℤ_parts a.scale (pos (length a.digits - length (kept a))),
        -ℤ_parts b.scale (pos (length b.digits - length (kept b))),
        ap pos_part e,
        ap neg_part e,
        ap length k,
        length-without_trailing a.digits,
        length-without_trailing b.digits,
      ))

  same_len : kept a ≡ kept b → kept_scale a ≡ kept_scale b → integer_len a ≡ integer_len b
  unfolding integer_len
  same_len k e = eq_of_parts (integer_len a) (integer_len b) (
      omega (
        arith,
        -ℤ_parts (pos (length a.digits)) a.scale,
        -ℤ_parts (pos (length b.digits)) b.scale,
        -ℤ_parts a.scale (pos (length a.digits - length (kept a))),
        -ℤ_parts b.scale (pos (length b.digits - length (kept b))),
        ap pos_part e,
        ap neg_part e,
        ap length k,
        length-without_trailing a.digits,
        length-without_trailing b.digits,
      ))

  pub cmp_magnitude-equal :
      cmp_magnitude a b ≡ equal → (kept_scale a ≡ kept_scale b) × (kept a ≡ kept b)
  unfolding cmp_magnitude
  cmp_magnitude-equal e =
      let width = max (length a.digits) (length b.digits) in
      let a_in : length a.digits ≤ width = ground arith in
      let b_in : length b.digits ≤ width = ground arith in
      let (len, digits) = then_by_equal _ _ e in
      let same = lexicographic-equal (padded width a.digits) (padded width b.digits) digits in
      let k : kept a ≡ kept b =
        sym (without_trailing-padded width a.digits a_in)
        ∙ (ap without_trailing same ∙ without_trailing-padded width b.digits b_in) in
      (same_scale k (compare_ℤ-equal (integer_len a) (integer_len b) len), k)

  pub equal_magnitude : kept_scale a ≡ kept_scale b → kept a ≡ kept b → cmp_magnitude a b ≡ equal
  unfolding cmp_magnitude
  equal_magnitude e k =
      let width = max (length a.digits) (length b.digits) in
      let a_in : length a.digits ≤ width = ground arith in
      let b_in : length b.digits ≤ width = ground arith in
      let same : padded width a.digits ≡ padded width b.digits =
        sym (padded-without_trailing width a.digits a_in)
        ∙ (ap (padded width) k ∙ padded-without_trailing width b.digits b_in) in
      rw
        (
          same_len k e,
          same,
          compare_ℤ_refl (integer_len b),
          lexicographic_refl (padded width b.digits),
          then_by,
        )
        refl
