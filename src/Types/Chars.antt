-- ===== src/Types/Chars.antt =====
-- The characters of digits in the texts of types/.
use tarant.Base.{ℕ, zero, suc, ◌+◌, ◌≤◌, List, [], ◌∷◌, ◌++◌, map, replicate, All, arith}

abbrev pub char_of : ℕ → ℕ
char_of digit = 48 + digit

abbrev pub AreDigitChars : List ℕ → Type 0
AreDigitChars = All (λ c. (48 ≤ c) × (c ≤ 57))

pub map-AreDigitChars : (ds : List ℕ) → All (λ d. d ≤ 9) ds → AreDigitChars (map char_of ds)
map-AreDigitChars [] h = tt
map-AreDigitChars (d ∷ ds) h = ((omega arith, omega (arith, h.0)), map-AreDigitChars ds h.1)

pub replicate-AreDigitChars :
    (k : ℕ) (rest : List ℕ) → AreDigitChars rest → AreDigitChars (replicate k 48 ++ rest)
replicate-AreDigitChars zero rest h = h
replicate-AreDigitChars (suc k) rest h =
    ((omega arith, omega arith), replicate-AreDigitChars k rest h)
