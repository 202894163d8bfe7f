-- ===== src/Types/Decimal/Exact.antt =====
-- `Decimal::cmp` of types/decimal.rs is the order of the numbers.
use tarant.Base.{
  ℕ, ◌*◌, ◌^◌, ◌<◌, ◌≤◌, ◌≡◌, ◌⊎◌, inl, inr, refl, sym, ap, if◌then◌else◌, Bool, true, false, List,
  [], ◌∷◌, length, arith,
}
use tarant.Base.Int.{ℤ}
use mathlib.Core.Path.{subst}
use native.Mathlib.Nat.{mul-pos}
use tarant.Types.Decimal.{
  Decimal, less, equal, greater, compare_ℕ, compare_ℤ, value_of, signed, is_zero, cmp, cmp_signed,
}
use tarant.Types.Decimal.Payload.{IsDecimal, HasForm}
use tarant.Types.Decimal.Digits.{positive-pow, value_of-ge}
use tarant.Types.Decimal.Order.{Aligned, Leads, cmp_magnitude-compare_ℕ}

-- A decimal is zero, or its digits begin with one that is not.
abbrev pub Shape : Decimal → Type 0
Shape d = ((is_zero d ≡ true) × (value_of 0 d.digits ≡ 0)) ⊎ ((is_zero d ≡ false) × Leads d.digits)

leading-Shape :
    (n : Bool) (s : ℤ) (x : ℕ) (xs : List ℕ)
    → 1 ≤ x
    → Shape (record { negative = n; scale = s; digits = x ∷ xs })
unfolding is_zero
leading-Shape n s x [] h = inr (ground (arith, h), h)
leading-Shape n s x (y ∷ xs) h = inr (refl, h)

zero-Shape : (n : Bool) (s : ℤ) → Shape (record { negative = n; scale = s; digits = 0 ∷ [] })
unfolding is_zero value_of
zero-Shape n s = inl (refl, refl)

form-Shape :
    (n : Bool) (s : ℤ) (ds : List ℕ)
    → HasForm n s ds
    → Shape (record { negative = n; scale = s; digits = ds })
form-Shape n s [] form = absurd form
form-Shape n s (x ∷ xs) (inl leads) = leading-Shape n s x xs leads
form-Shape n s (x ∷ xs) (inr (a, b, c, d)) = rw b (
    subst (λ t. Shape (record { negative = n; scale = s; digits = t ∷ [] })) (sym a)
      (zero-Shape n s))

pub IsDecimal-Shape : (d : Decimal) → IsDecimal d → Shape d
IsDecimal-Shape d w = form-Shape d.negative d.scale d.digits w.form

-- The order of numbers with signs, by their magnitudes.
module _ (a b : ℕ) where
  both_zero : (m n : Bool) → a ≡ 0 → b ≡ 0 → compare_ℤ (signed m a) (signed n b) ≡ equal
  unfolding compare_ℤ signed
  both_zero true true e f = ground (arith, e, f)
  both_zero true false e f = ground (arith, e, f)
  both_zero false true e f = ground (arith, e, f)
  both_zero false false e f = ground (arith, e, f)

  left_zero :
      (m n : Bool)
      → a ≡ 0
      → 0 < b
      → compare_ℤ (signed m a) (signed n b) ≡ (if n then greater else less)
  unfolding compare_ℤ signed
  left_zero true true e f = ground (arith, e, f)
  left_zero true false e f = ground (arith, e, f)
  left_zero false true e f = ground (arith, e, f)
  left_zero false false e f = ground (arith, e, f)

  right_zero :
      (m n : Bool)
      → 0 < a
      → b ≡ 0
      → compare_ℤ (signed m a) (signed n b) ≡ (if m then less else greater)
  unfolding compare_ℤ signed
  right_zero true true e f = ground (arith, e, f)
  right_zero true false e f = ground (arith, e, f)
  right_zero false true e f = ground (arith, e, f)
  right_zero false false e f = ground (arith, e, f)

  none_zero :
      (m n : Bool)
      → 0 < a
      → 0 < b
      → compare_ℤ (signed m a) (signed n b) ≡ cmp_signed m n (compare_ℕ a b) (compare_ℕ b a)
  unfolding compare_ℤ compare_ℕ signed cmp_signed
  none_zero true true e f = ground (arith, e, f)
  none_zero true false e f = ground (arith, e, f)
  none_zero false true e f = ground (arith, e, f)
  none_zero false false e f = ground (arith, e, f)

-- The number of a decimal, times a power of ten.
unfoldable pub scaled : Decimal → ℕ → ℤ
unfolding signed value_of
scaled d p = signed d.negative (value_of 0 d.digits * 10 ^ p)

Leads-positive : (ds : List ℕ) (p : ℕ) → Leads ds → 0 < value_of 0 ds * 10 ^ p
Leads-positive [] p h = absurd h
Leads-positive (d ∷ ds) p h =
    let value : 0 < value_of 0 (d ∷ ds) =
      omega (arith, value_of-ge d ds h, positive-pow (length ds)) in
    mul-pos value (positive-pow p)

no_value : {v : ℕ} → v ≡ 0 → (p : ℕ) → v * 10 ^ p ≡ 0
no_value e p = omega (arith, ap (λ t. t * 10 ^ p) e)

-- Decimals compare as the numbers that they stand for, at any scale that both are brought to.
pub cmp-compare_ℤ :
    (a b : Decimal) (p q : ℕ)
    → IsDecimal a
    → IsDecimal b
    → Aligned a p b q
    → cmp a b ≡ compare_ℤ (scaled a p) (scaled b q)
unfolding cmp scaled
cmp-compare_ℤ a b p q v w e =
    let m = value_of 0 a.digits * 10 ^ p in
    let n = value_of 0 b.digits * 10 ^ q in
    elim (IsDecimal-Shape a v) [
      | inl (za, na) ↦ elim (IsDecimal-Shape b w) [
        | inl (zb, nb) ↦
            rw (za, zb) (sym (both_zero m n a.negative b.negative (no_value na p) (no_value nb q)))
        | inr (zb, lb) ↦
            rw (za, zb)
              (sym (
                left_zero m n a.negative b.negative (no_value na p) (Leads-positive b.digits q lb)))
      ]
      | inr (za, la) ↦ elim (IsDecimal-Shape b w) [
        | inl (zb, nb) ↦
            rw (za, zb)
              (sym (
                right_zero m n a.negative b.negative (Leads-positive a.digits p la)
                  (no_value nb q)))
        | inr (zb, lb) ↦
            rw
              (
                za,
                zb,
                cmp_magnitude-compare_ℕ a b p q v.digits_in_range w.digits_in_range la lb e,
                cmp_magnitude-compare_ℕ b a q p w.digits_in_range v.digits_in_range lb la (sym e),
              )
              (sym (
                none_zero m n a.negative b.negative (Leads-positive a.digits p la)
                  (Leads-positive b.digits q lb)))
      ]
    ]
