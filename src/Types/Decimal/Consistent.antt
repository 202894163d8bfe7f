-- ===== src/Types/Decimal/Consistent.antt =====
-- types/decimal.rs: `Eq` goes by the canonical forms and `Ord` by the digits, and they agree.
use tarant.Base.{
  ℕ, ◌≤◌, ◌≡◌, ◌≢◌, ◌↔◌, refl, sym, ap, ◌∙◌, ◌==◌, ==_iff, if◌then◌else◌, Bool, true, false, List,
  [], ◌∷◌, arith, inl, inr,
}
use mathlib.Core.Path.{ap₂}
use mathlib.Core.Bool.{true≢false}
use tarant.Base.Int.{ℤ, pos}
use tarant.Types.Decimal.{Decimal, cmp, cmp_signed, cmp_magnitude, is_zero, equal, less, greater}
use tarant.Types.Decimal.Payload.{IsDecimal}
use tarant.Types.Decimal.Order.{Leads}
use tarant.Types.Decimal.Exact.{Shape, IsDecimal-Shape}
use tarant.Types.Decimal.Equality.{kept, kept_scale, cmp_magnitude-equal, equal_magnitude}
use tarant.Types.Decimal.Text.{
  Canonical, eq, eq_digits, eq_sign, eq_canonical, canonical, without_trailing, keep_digit,
}

eq_digits-true : (xs ys : List ℕ) → eq_digits xs ys ≡ true → xs ≡ ys
unfolding eq_digits
eq_digits-true [] [] e = refl
eq_digits-true [] (y ∷ ys) e = cc e
eq_digits-true (x ∷ xs) [] e = cc e
eq_digits-true (x ∷ xs) (y ∷ ys) e =
    let first : x ≡ y = ground (arith, e) in
    let rest : eq_digits xs ys ≡ true = ground (arith, e) in
    ap₂ (λ d ds. d ∷ ds) first (eq_digits-true xs ys rest)

eq_digits_refl : (xs : List ℕ) → eq_digits xs xs ≡ true
unfolding eq_digits
eq_digits_refl [] = refl
eq_digits_refl (x ∷ xs) = ground (arith, eq_digits_refl xs)

eq_sign-true : (a b : Bool) → eq_sign a b ≡ true → a ≡ b
unfolding eq_sign
eq_sign-true true b e = sym e
eq_sign-true false true e = e
eq_sign-true false false e = refl

eq_sign_refl : (a : Bool) → eq_sign a a ≡ true
unfolding eq_sign
eq_sign_refl true = refl
eq_sign_refl false = refl

eq_canonical-true : (x y : Canonical) → eq_canonical x y ≡ true → x ≡ y
unfolding eq_canonical
eq_canonical-true x y e =
    let sign : eq_sign x.negative y.negative ≡ true = ground (arith, e) in
    let scale : x.scale ≡ y.scale = ground (arith, e) in
    let digits : eq_digits x.digits y.digits ≡ true = ground (arith, e) in
    ap₂ (λ s ds. record { negative = x.negative; scale = s; digits = ds }) scale
      (eq_digits-true x.digits y.digits digits)
    ∙ ap (λ n. record { negative = n; scale = y.scale; digits = y.digits })
        (eq_sign-true x.negative y.negative sign)

eq_canonical_refl : (x : Canonical) → eq_canonical x x ≡ true
unfolding eq_canonical
eq_canonical_refl x = ground (arith, eq_sign_refl x.negative, eq_digits_refl x.digits)

zero_digits :
    (n : Bool) (s : ℤ) (ds : List ℕ)
    → is_zero (record { negative = n; scale = s; digits = ds }) ≡ true
    → ds ≡ 0 ∷ []
unfolding is_zero
zero_digits n s [] e = cc e
zero_digits n s (x ∷ []) e = ap (λ d. d ∷ []) ((==_iff x 0).0 e)
zero_digits n s (x ∷ y ∷ ds) e = cc e

canonical_zero :
    (d : Decimal)
    → is_zero d ≡ true
    → canonical d ≡ record { negative = false; scale = pos 0; digits = 0 ∷ [] }
unfolding canonical
canonical_zero d z = rw (z, zero_digits d.negative d.scale d.digits z) refl

canonical_other :
    (d : Decimal)
    → is_zero d ≡ false
    → canonical d ≡ record { negative = d.negative; scale = kept_scale d; digits = kept d }
unfolding canonical
canonical_other d z = rw z refl

abbrev head_or_zero : List ℕ → ℕ
head_or_zero [] = 0
head_or_zero (x ∷ xs) = x

first_apart : (d : ℕ) (rest : List ℕ) → 1 ≤ d → keep_digit d rest ≢ 0 ∷ []
unfolding keep_digit
first_apart d [] h e =
    let other : (d == 0) ≡ false = ground (arith, h) in
    let same = rw other at e in absurd (omega (arith, h, ap head_or_zero same))
first_apart d (k ∷ rest) h e = absurd (omega (arith, h, ap head_or_zero e))

-- Digits that begin with one that is not zero are not those of zero.
Leads-apart : (ds : List ℕ) → Leads ds → without_trailing ds ≢ 0 ∷ []
unfolding without_trailing
Leads-apart [] h e = h
Leads-apart (d ∷ ds) h e = first_apart d (without_trailing ds) h e

zero_apart : (n : Bool) → (if n then greater else less) ≢ equal
zero_apart true e = cc e
zero_apart false e = cc e

apart_zero : (n : Bool) → (if n then less else greater) ≢ equal
apart_zero true e = cc e
apart_zero false e = cc e

abbrev form : Bool → ℤ → List ℕ → Canonical
form negative scale digits = record { negative = negative; scale = scale; digits = digits }

-- Decimals other than zero, by their signs.
module _ (a b : Decimal) where
  same_sign_cases :
      (m n : Bool)
      → cmp_signed m n (cmp_magnitude a b) (cmp_magnitude b a) ≡ equal
      → form m (kept_scale a) (kept a) ≡ form n (kept_scale b) (kept b)
  unfolding cmp_signed
  same_sign_cases true true e =
      let (s, k) = cmp_magnitude-equal b a e in ap₂ (form true) (sym s) (sym k)
  same_sign_cases true false e = cc e
  same_sign_cases false true e = cc e
  same_sign_cases false false e = let (s, k) = cmp_magnitude-equal a b e in ap₂ (form false) s k

  same_form_cases :
      (m n : Bool)
      → form m (kept_scale a) (kept a) ≡ form n (kept_scale b) (kept b)
      → cmp_signed m n (cmp_magnitude a b) (cmp_magnitude b a) ≡ equal
  unfolding cmp_signed
  same_form_cases true true e =
      equal_magnitude b a (sym (ap (λ c. c.scale) e)) (sym (ap (λ c. c.digits) e))
  same_form_cases true false e = absurd (true≢false (ap (λ c. c.negative) e))
  same_form_cases false true e = absurd (true≢false (sym (ap (λ c. c.negative) e)))
  same_form_cases false false e = equal_magnitude a b (ap (λ c. c.scale) e) (ap (λ c. c.digits) e)

  cmp-canonical : Shape a → Shape b → (cmp a b ≡ equal) ↔ (canonical a ≡ canonical b)
  unfolding cmp
  cmp-canonical (inl (z, _)) (inl (y, _)) =
      rw (z, y, canonical_zero a z, canonical_zero b y) ((λ _. refl), (λ _. refl))
  cmp-canonical (inl (z, _)) (inr (y, l)) =
      rw (z, y, canonical_zero a z, canonical_other b y)
        (
          (λ e. absurd (zero_apart b.negative e)),
          (λ e. absurd (Leads-apart b.digits l (sym (ap (λ c. c.digits) e)))),
        )
  cmp-canonical (inr (z, k)) (inl (y, _)) =
      rw (z, y, canonical_other a z, canonical_zero b y)
        (
          (λ e. absurd (apart_zero a.negative e)),
          (λ e. absurd (Leads-apart a.digits k (ap (λ c. c.digits) e))),
        )
  cmp-canonical (inr (z, k)) (inr (y, l)) =
      rw (z, y, canonical_other a z, canonical_other b y)
        (same_sign_cases a.negative b.negative, same_form_cases a.negative b.negative)

-- Two decimals are equal exactly if neither is greater.
pub eq-cmp : (a b : Decimal) → IsDecimal a → IsDecimal b → (eq a b ≡ true) ↔ (cmp a b ≡ equal)
unfolding eq
eq-cmp a b v w =
    let (to, from) = cmp-canonical a b (IsDecimal-Shape a v) (IsDecimal-Shape b w) in
    (
      (λ e. from (eq_canonical-true (canonical a) (canonical b) e)),
      (λ e. rw (to e) (eq_canonical_refl (canonical b))),
    )
