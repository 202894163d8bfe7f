-- ===== src/Types/Datetime/Numbers.antt =====
-- types/datetime.rs: the texts of numbers in `Display`, read back.
use tarant.Base.{
  ℕ, zero, suc, ◌+◌, ◌-◌, ◌*◌, ◌/◌, ◌%◌, ◌^◌, ◌<◌, ◌≤◌, ◌≡◌, refl, ap, ◌∙◌, ltb, ◌==◌, true, List,
  [], ◌∷◌, ◌++◌, map, length, replicate, take, drop, length-append, length-map, length-replicate,
  take-length_append, drop-length_append, arith, Bool-cases, inl, inr,
}
use native.Mathlib.Nat.{pow-succ'}
use tarant.Types.Decimal.{digits_of, value_of}
use tarant.Types.Chars.{char_of}
use tarant.Types.Datetime.Text.{trim_zeros, after_trim, zero_padded}

-- The number that a text of digits shows.
unfoldable pub number : ℕ → List ℕ → ℕ
number acc [] = acc
number acc (c ∷ rest) = number (acc * 10 + (c - 48)) rest

number-append : (acc : ℕ) (xs ys : List ℕ) → number acc (xs ++ ys) ≡ number (number acc xs) ys
unfolding number
number-append acc [] ys = refl
number-append acc (x ∷ xs) ys = number-append (acc * 10 + (x - 48)) xs ys

number-map : (acc : ℕ) (ds : List ℕ) → number acc (map char_of ds) ≡ value_of acc ds
unfolding number value_of
number-map acc [] = refl
number-map acc (d ∷ ds) =
    ap (λ t. number (acc * 10 + t) (map char_of ds)) (omega arith) ∙ number-map (acc * 10 + d) ds

number-replicate : (k : ℕ) → number 0 (replicate k 48) ≡ 0
unfolding number
number-replicate zero = refl
number-replicate (suc k) = number-replicate k

value_of-append :
    (acc : ℕ) (ds : List ℕ) (d : ℕ) → value_of acc (ds ++ (d ∷ [])) ≡ value_of acc ds * 10 + d
unfolding value_of
value_of-append acc [] d = refl
value_of-append acc (x ∷ ds) d = value_of-append (acc * 10 + x) ds d

value_of-digits_of : (fuel n : ℕ) → n < 10 ^ fuel → value_of 0 (digits_of fuel n) ≡ n
unfolding digits_of
value_of-digits_of zero n h = unfold value_of in omega (arith, h)
value_of-digits_of (suc fuel) n h = elim (Bool-cases (ltb n 10)) [
  | inl e ↦ rw e (unfold value_of in omega arith)
  | inr e ↦
      let front : n / 10 < 10 ^ fuel = omega (arith, pow-succ' 10 fuel, h) in
      rw
        (
          e,
          value_of-append 0 (digits_of fuel (n / 10)) (n % 10),
          value_of-digits_of fuel (n / 10) front,
        )
        (omega arith)
]

length-digits_of : (fuel w n : ℕ) → n < 10 ^ suc w → length (digits_of fuel n) ≤ suc w
unfolding digits_of
length-digits_of zero w n h = omega arith
length-digits_of (suc fuel) zero n h =
    let e : ltb n 10 ≡ true = ground (arith, pow-succ' 10 0, h) in rw e (omega arith)
length-digits_of (suc fuel) (suc w) n h =
    let front : n / 10 < 10 ^ suc w = omega (arith, pow-succ' 10 (suc w), h) in
    let long = length-append (digits_of fuel (n / 10)) (n % 10 ∷ []) in
    let rest = length-digits_of fuel w (n / 10) front in
    elim (Bool-cases (ltb n 10)) [ inl e ↦ rw e (omega arith) | inr e ↦ rw (e, long) (omega arith) ]

-- A number with zeros in front is read back, and has the width if it fits.
pub number-zero_padded : (w n : ℕ) → n < 10 ^ 40 → number 0 (zero_padded w n) ≡ n
unfolding zero_padded
number-zero_padded w n h =
    let ds = digits_of 40 n in
    let zeros : List ℕ = replicate (w - length (map char_of ds)) 48 in
    rw
      (
        number-append 0 zeros (map char_of ds),
        number-replicate (w - length (map char_of ds)),
        number-map 0 ds,
      )
      (value_of-digits_of 40 n h)

pub length-zero_padded : (w n : ℕ) → n < 10 ^ suc w → length (zero_padded (suc w) n) ≡ suc w
unfolding zero_padded
length-zero_padded w n h =
    let ds = digits_of 40 n in
    let zeros : List ℕ = replicate (suc w - length (map char_of ds)) 48 in
    omega (
      arith,
      length-append zeros (map char_of ds),
      length-replicate {A = ℕ} (suc w - length (map char_of ds)) 48,
      length-map char_of ds,
      length-digits_of 40 w n h,
    )

-- The zeros that a trimmed text lost are put back.
unfoldable pub restored : ℕ → List ℕ → List ℕ
restored zero text = text
restored (suc width) [] = 48 ∷ restored width []
restored (suc width) (c ∷ text) = c ∷ restored width text

restored-after_trim :
    (c : ℕ) (kept rest : List ℕ)
    → restored (length rest) kept ≡ rest
    → restored (suc (length rest)) (after_trim c kept) ≡ c ∷ rest
unfolding restored after_trim
restored-after_trim c [] rest h = elim (Bool-cases (c == 48)) [
  | inl e ↦ let zero_char : c ≡ 48 = ground (arith, e) in rw (e, zero_char) (ap (λ t. 48 ∷ t) h)
  | inr e ↦ rw e (ap (λ t. c ∷ t) h)
]
restored-after_trim c (d ∷ kept) rest h = ap (λ t. c ∷ t) h

pub restored-trim_zeros : (text : List ℕ) → restored (length text) (trim_zeros text) ≡ text
unfolding restored trim_zeros
restored-trim_zeros [] = refl
restored-trim_zeros (c ∷ rest) =
    restored-after_trim c (trim_zeros rest) rest (restored-trim_zeros rest)

-- The texts of numbers behind one another, each with one character behind it but the last, and what
-- is behind them.
unfoldable pub fields : List ℕ → List ℕ → List ℕ × List ℕ
fields [] text = ([], text)
fields (w ∷ []) text = (number 0 (take w text) ∷ [], drop w text)
fields (w ∷ v ∷ ws) text =
    let rest = fields (v ∷ ws) (drop (suc w) text) in (number 0 (take w text) ∷ rest.0, rest.1)

pub take-front : (w : ℕ) (xs ys : List ℕ) → length xs ≡ w → take w (xs ++ ys) ≡ xs
take-front w xs ys h = rw h at (take-length_append xs ys)

pub drop-front :
    (w : ℕ) (xs : List ℕ) (c : ℕ) (ys : List ℕ) → length xs ≡ w → drop (suc w) (xs ++ (c ∷ ys)) ≡ ys
drop-front zero [] c ys h = refl
drop-front zero (x ∷ xs) c ys h = absurd (omega (arith, h))
drop-front (suc w) [] c ys h = absurd (omega (arith, h))
drop-front (suc w) (x ∷ xs) c ys h = drop-front w xs c ys (omega (arith, h))

module _ (w n : ℕ) (h : n < 10 ^ suc w) (k : n < 10 ^ 40) where
  pub fields-zero_padded :
      (c v : ℕ) (ws rest : List ℕ)
      → fields (suc w ∷ v ∷ ws) (zero_padded (suc w) n ++ (c ∷ rest))
        ≡ (n ∷ (fields (v ∷ ws) rest).0, (fields (v ∷ ws) rest).1)
  fields-zero_padded c v ws rest =
      let long = length-zero_padded w n h in
      unfold fields in
      rw
        (
          take-front (suc w) (zero_padded (suc w) n) (c ∷ rest) long,
          drop-front (suc w) (zero_padded (suc w) n) c rest long,
          number-zero_padded (suc w) n k,
        )
        refl

  pub fields_last :
      (rest : List ℕ) → fields (suc w ∷ []) (zero_padded (suc w) n ++ rest) ≡ (n ∷ [], rest)
  unfolding fields
  fields_last rest =
      let long = length-zero_padded w n h in
      rw
        (
          take-front (suc w) (zero_padded (suc w) n) rest long,
          rw long at (drop-length_append (zero_padded (suc w) n) rest),
          number-zero_padded (suc w) n k,
        )
        refl
