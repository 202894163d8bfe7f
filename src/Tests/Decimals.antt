-- ===== src/Tests/Decimals.antt =====
-- The theorems on types/decimal.rs at -12.50 and 3.
use tarant.Base.{ℕ, ◌≡◌, ◌↔◌, refl, true, false, List, [], ◌∷◌, ok, arith}
use tarant.Base.Int.{pos}
use tarant.Types.Decimal.{Decimal, assemble, without_leading, bounded, cmp, compare_ℤ, equal}
use tarant.Types.Decimal.Payload.{IsDecimal, AreDigits, IsI32, assemble-IsDecimal}
use tarant.Types.Decimal.Exact.{scaled, cmp-compare_ℤ}
use tarant.Types.Decimal.Text.{display, from_str, eq}
use tarant.Types.Decimal.Displayed.{from_str-display}
use tarant.Types.Decimal.Consistent.{eq-cmp}

abbrev price : Decimal
price = record { negative = true; scale = pos 2; digits = 1 ∷ 2 ∷ 5 ∷ 0 ∷ [] }

abbrev price_text : List ℕ
price_text = 0 ∷ 1 ∷ 2 ∷ 5 ∷ 0 ∷ []

price_digits : AreDigits price_text
price_digits = (omega arith, (omega arith, (omega arith, (omega arith, (omega arith, tt)))))

two_IsI32 : IsI32 (pos 2)
two_IsI32 = (omega arith, omega arith)

price_assembled : assemble true (pos 2) price_text ≡ ok price
unfolding assemble without_leading bounded
price_assembled = refl

assemble-IsDecimal_example : IsDecimal price
assemble-IsDecimal_example =
    assemble-IsDecimal true (pos 2) price_text price price_digits two_IsI32 price_assembled

price-IsDecimal : IsDecimal price
price-IsDecimal =
    assemble-IsDecimal true (pos 2) price_text price price_digits two_IsI32 price_assembled

-- 3
abbrev three : Decimal
three = record { negative = false; scale = pos 0; digits = 3 ∷ [] }

three-IsDecimal : IsDecimal three
unfolding assemble without_leading bounded
three-IsDecimal =
    assemble-IsDecimal false (pos 0) (3 ∷ []) three (omega arith, tt) (omega arith, omega arith)
      refl

cmp-compare_ℤ_example : cmp price three ≡ compare_ℤ (scaled price 0) (scaled three 2)
cmp-compare_ℤ_example = cmp-compare_ℤ price three 0 2 price-IsDecimal three-IsDecimal refl

from_str-display_example : from_str (display price) ≡ ok price
from_str-display_example = from_str-display price 2 price-IsDecimal refl

eq-cmp_example : (eq price three ≡ true) ↔ (cmp price three ≡ equal)
eq-cmp_example = eq-cmp price three price-IsDecimal three-IsDecimal
