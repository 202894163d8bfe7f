-- ===== src/Types/Interval/Text.antt =====
-- types/interval.rs: `Display`, over the bytes of a text.
use tarant.Base.{ℕ, suc, ◌==◌, if◌then◌else◌, List, [], ◌∷◌, ◌++◌, map}
use tarant.Base.Int.{ℤ, pos, negsuc}
use tarant.Types.Chars.{char_of}
use tarant.Types.Decimal.{digits_of}
use tarant.Types.Interval.{Interval, fields, nonzero}

-- The names of the units, by their field ids.
unfoldable pub unit_name : ℕ → List ℕ
unit_name id =
    if id == 0
    then 121 ∷ 101 ∷ 97 ∷ 114 ∷ 115 ∷ []
    else if id == 1
    then 109 ∷ 111 ∷ 110 ∷ 116 ∷ 104 ∷ 115 ∷ []
    else if id == 2
    then 119 ∷ 101 ∷ 101 ∷ 107 ∷ 115 ∷ []
    else if id == 3
    then 100 ∷ 97 ∷ 121 ∷ 115 ∷ []
    else if id == 4
    then 104 ∷ 111 ∷ 117 ∷ 114 ∷ 115 ∷ []
    else if id == 5
    then 109 ∷ 105 ∷ 110 ∷ 117 ∷ 116 ∷ 101 ∷ 115 ∷ []
    else if id == 6
    then 115 ∷ 101 ∷ 99 ∷ 111 ∷ 110 ∷ 100 ∷ 115 ∷ []
    else 110 ∷ 97 ∷ 110 ∷ 111 ∷ 115 ∷ 101 ∷ 99 ∷ 111 ∷ 110 ∷ 100 ∷ 115 ∷ []

-- `{value}` and `{value:+}`
unfoldable pub plain_text : ℤ → List ℕ
plain_text (pos n) = map char_of (digits_of 40 n)
plain_text (negsuc n) = 45 ∷ map char_of (digits_of 40 (suc n))

unfoldable pub signed_text : ℤ → List ℕ
signed_text (pos n) = 43 ∷ map char_of (digits_of 40 n)
signed_text (negsuc n) = 45 ∷ map char_of (digits_of 40 (suc n))

-- The units behind the first.
unfoldable pub more_units : List (ℕ × ℤ) → List ℕ
more_units [] = []
more_units ((id, value) ∷ rest) =
    44 ∷ 32 ∷ (plain_text value ++ (32 ∷ (unit_name id ++ more_units rest)))

unfoldable pub units_text : List (ℕ × ℤ) → List ℕ
units_text [] = 48 ∷ 32 ∷ unit_name 6
units_text ((id, value) ∷ rest) = signed_text value ++ (32 ∷ (unit_name id ++ more_units rest))

unfoldable pub display : Interval → List ℕ
display i = units_text (nonzero (fields i))
