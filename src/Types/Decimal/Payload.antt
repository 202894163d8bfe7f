-- ===== src/Types/Decimal/Payload.antt =====
-- The payload of types/decimal.rs: what `assemble` returns, written and read back.
use tarant.Base.{
  ℕ, suc, ◌+◌, ◌-◌, ◌*◌, ◌/◌, ◌%◌, ◌^◌, ◌<◌, ◌≤◌, ◌==◌, ltb, ==_iff, ◌≡◌, refl, Bool, true, false,
  some, List, [], ◌∷◌, ◌++◌, length, length-append, ok, ◌>>=◌, All, arith, Bool-cases, ◌⊎◌, inl,
  inr, ok-injective,
}
use mathlib.Core.Path.{subst}
use tarant.Base.Bits.{join_nibbles}
use tarant.Base.Int.{ℤ, pos, negsuc, ◌≤ℤ◌}
use tarant.Rmp.{Rmp, ReadsBack, IsI64}
use tarant.Types.Decimal.{
  Decimal, zero_decimal, without_leading, bounded, assemble, max_digits, pack, unpack, sign_nibble,
  nibbles_of, pop, sign_of, has_non_digit, to_i32, signed_digits, to_payload, from_payload,
}

abbrev pub AreDigits : List ℕ → Type 0
AreDigits = All (λ d. d ≤ 9)

abbrev pub IsI32 : ℤ → Type 0
IsI32 z = (negsuc (2 ^ 31 - 1) ≤ℤ z) × (z ≤ℤ pos (2 ^ 31 - 1))

-- Zero is written in one way, and no other number begins with a zero.
abbrev pub HasForm : Bool → ℤ → List ℕ → Type 0
HasForm negative scale [] = ⊥
HasForm negative scale (x ∷ xs) =
    (1 ≤ x) ⊎ ((x ≡ 0) × (xs ≡ []) × (scale ≡ pos 0) × (negative ≡ false))

-- What the crate documents of a decimal: digits, at most 38 of them, a scale of `i32`, and no other way
-- to write the same digits.
pub record IsDecimal (d : Decimal) : Type 0 where
  pub digits_in_range : AreDigits d.digits
  pub scale_in_range : IsI32 d.scale
  pub at_most_38 : length d.digits ≤ 38
  pub form : HasForm d.negative d.scale d.digits

without_leading-AreDigits : (ds : List ℕ) → AreDigits ds → AreDigits (without_leading ds)
unfolding without_leading
without_leading-AreDigits [] h = h
without_leading-AreDigits (d ∷ ds) h = elim (Bool-cases (d == 0)) [
  | inl e ↦ rw e (without_leading-AreDigits ds h.1)
  | inr e ↦ rw e h
]

-- The nibbles of bytes.
joined : List ℕ → List ℕ
joined [] = []
joined (a ∷ []) = []
joined (a ∷ b ∷ rest) = (a * 16 + b) ∷ joined rest

abbrev AreNibbles : List ℕ → Type 0
AreNibbles = All (λ n. n < 16)

pack-joined : (ns : List ℕ) → AreNibbles ns → length ns % 2 ≡ 0 → pack ns ≡ ok (joined ns)
unfolding pack joined
pack-joined [] h e = refl
pack-joined (a ∷ []) h e = absurd (omega (arith, e))
pack-joined (a ∷ b ∷ rest) h e =
    rw (pack-joined rest h.1.1 (omega (arith, e)), join_nibbles a b h.0 h.1.0) refl

unpack-joined : (ns : List ℕ) → AreNibbles ns → length ns % 2 ≡ 0 → unpack (joined ns) ≡ ns
unfolding unpack joined
unpack-joined [] h e = refl
unpack-joined (a ∷ []) h e = absurd (omega (arith, e))
unpack-joined (a ∷ b ∷ rest) h e =
    let high : (a * 16 + b) / 16 ≡ a = omega (arith, h.0, h.1.0) in
    let low : (a * 16 + b) % 16 ≡ b = omega (arith, h.0, h.1.0) in
    rw (high, low, unpack-joined rest h.1.1 (omega (arith, e))) refl

pop-append : (xs : List ℕ) (x : ℕ) → pop (xs ++ (x ∷ [])) ≡ some (xs, x)
unfolding pop
pop-append [] x = refl
pop-append (y ∷ xs) x = rw (pop-append xs x) refl

has_non_digit-AreDigits : (ds : List ℕ) → AreDigits ds → has_non_digit ds ≡ false
unfolding has_non_digit
has_non_digit-AreDigits [] h = refl
has_non_digit-AreDigits (d ∷ ds) h = ground (arith, h.0, has_non_digit-AreDigits ds h.1)

sign_of-sign_nibble : (b : Bool) → sign_of (sign_nibble b) ≡ some b
unfolding sign_of sign_nibble
sign_of-sign_nibble true = refl
sign_of-sign_nibble false = refl

signed_digits-append :
    (ds : List ℕ) (b : Bool)
    → AreDigits ds
    → signed_digits (ds ++ (sign_nibble b ∷ [])) ≡ ok (b, ds)
unfolding signed_digits
signed_digits-append ds b h =
    rw (pop-append ds (sign_nibble b), sign_of-sign_nibble b, has_non_digit-AreDigits ds h) refl

to_i32-IsI32 : (z : ℤ) → IsI32 z → to_i32 z ≡ some z
unfolding to_i32
to_i32-IsI32 (pos n) h = ground (arith, h.0, h.1)
to_i32-IsI32 (negsuc n) h = ground (arith, h.0, h.1)

IsI32-IsI64 : (z : ℤ) → IsI32 z → IsI64 z
IsI32-IsI64 (pos n) h = (omega arith, omega (arith, h.1))
IsI32-IsI64 (negsuc n) h = (omega (arith, h.0), omega arith)

nibbles_AreNibbles :
    (ds : List ℕ) (b : Bool) → AreDigits ds → AreNibbles (ds ++ (sign_nibble b ∷ []))
unfolding sign_nibble
nibbles_AreNibbles [] true h = (omega arith, tt)
nibbles_AreNibbles [] false h = (omega arith, tt)
nibbles_AreNibbles (d ∷ ds) b h = (omega (arith, h.0), nibbles_AreNibbles ds b h.1)

-- What is written behind the scale, and what is read of it.
record Reads (d : Decimal) (ns : List ℕ) : Type 0 where
  nibbles : AreNibbles ns
  even : length ns % 2 ≡ 0
  read : (signed_digits ns >>= λ parts. assemble parts.0 d.scale parts.1) ≡ ok d

assembled :
    (negative : Bool) (scale : ℤ) (ds : List ℕ)
    → length ds ≤ 38
    → HasForm negative scale ds
    → assemble negative scale ds ≡ ok (record { negative = negative; scale = scale; digits = ds })
unfolding assemble without_leading bounded zero_decimal
assembled negative scale [] h form = absurd form
assembled negative scale (x ∷ xs) h (inl leads) =
    let found : (x == 0) ≡ false = ground (arith, leads) in
    let short : ltb max_digits (suc (length xs)) ≡ false = ground (arith, h) in
    rw (found, short) refl
assembled negative scale (x ∷ xs) h (inr (a, b, c, d)) = rw (a, b, c, d) refl

-- A decimal is assembled of its own parts.
pub IsDecimal-normal : (d : Decimal) → IsDecimal d → assemble d.negative d.scale d.digits ≡ ok d
IsDecimal-normal d w = assembled d.negative d.scale d.digits w.at_most_38 w.form

nibbles_of-Reads : (d : Decimal) → IsDecimal d → Reads d (nibbles_of d)
unfolding nibbles_of
nibbles_of-Reads d w =
    let long : length (d.digits ++ (sign_nibble d.negative ∷ [])) ≡ length d.digits + 1 =
      length-append d.digits (sign_nibble d.negative ∷ []) in
    let small : AreNibbles (d.digits ++ (sign_nibble d.negative ∷ [])) =
      nibbles_AreNibbles d.digits d.negative w.digits_in_range in
    elim (Bool-cases (length d.digits % 2 == 0)) [
      | inl e ↦ rw e (record {
        nibbles = (omega arith, small);
        even = omega (arith, long, (==_iff (length d.digits % 2) 0).0 e);
        read =
            rw (signed_digits-append (0 ∷ d.digits) d.negative (omega arith, w.digits_in_range))
              (unfold assemble without_leading in IsDecimal-normal d w);
      })
      | inr e ↦ rw e (record {
        nibbles = small;
        even = ground (arith, long, e);
        read =
            rw (signed_digits-append d.digits d.negative w.digits_in_range) (IsDecimal-normal d w);
      })
    ]

zero_decimal-IsDecimal : IsDecimal zero_decimal
unfolding zero_decimal
zero_decimal-IsDecimal = record {
  digits_in_range = (omega arith, tt);
  scale_in_range = (omega arith, omega arith);
  at_most_38 = omega arith;
  form = inr (refl, refl, refl, refl);
}

-- The first digit that is left is not zero.
LeadsRight : List ℕ → Type 0
LeadsRight [] = Unit
LeadsRight (x ∷ xs) = 1 ≤ x

without_leading-LeadsRight : (ds : List ℕ) → LeadsRight (without_leading ds)
unfolding without_leading LeadsRight
without_leading-LeadsRight [] = tt
without_leading-LeadsRight (d ∷ ds) = elim (Bool-cases (d == 0)) [
  | inl e ↦ rw e (without_leading-LeadsRight ds)
  | inr e ↦ rw e (ground (arith, e))
]

bounded-IsDecimal :
    (negative : Bool) (scale : ℤ) (ds : List ℕ) (d : Decimal)
    → AreDigits ds
    → IsI32 scale
    → LeadsRight ds
    → bounded negative scale ds ≡ ok d
    → IsDecimal d
unfolding bounded LeadsRight
bounded-IsDecimal negative scale [] d h i leads e =
    subst IsDecimal (ok-injective e) zero_decimal-IsDecimal
bounded-IsDecimal negative scale (x ∷ ds) d h i leads e =
    elim (Bool-cases (ltb max_digits (suc (length ds)))) [
      | inl long ↦ cc (rw long at e)
      | inr short ↦ subst IsDecimal (ok-injective (rw short at e)) (record {
        digits_in_range = h;
        scale_in_range = i;
        at_most_38 = ground (arith, short);
        form = inl leads;
      })
    ]

module _ (rmp : Rmp) (laws : ReadsBack rmp) where
  -- A decimal whose digits and scale are in range, as `assemble` makes it, is read back from its payload.
  pub from_payload-to_payload_decimal :
      (d : Decimal) → IsDecimal d → (to_payload rmp d >>= from_payload rmp) ≡ ok d
  unfolding to_payload from_payload
  from_payload-to_payload_decimal d w =
      let r = nibbles_of-Reads d w in
      rw
        (
          pack-joined (nibbles_of d) r.nibbles r.even,
          laws.read_i64-write_sint d.scale (joined (nibbles_of d))
              (IsI32-IsI64 d.scale w.scale_in_range),
          to_i32-IsI32 d.scale w.scale_in_range,
          unpack-joined (nibbles_of d) r.nibbles r.even,
        )
        (r.read)

-- Whatever digits and scale in range `assemble` is given: the decimal that it returns has digits, at most
-- 38 of them, and a scale in range, and it begins with a digit that is not zero, unless it is zero, which
-- has one digit, no scale and no sign.
pub assemble-IsDecimal :
    (negative : Bool) (scale : ℤ) (digits : List ℕ) (d : Decimal)
    → AreDigits digits
    → IsI32 scale
    → assemble negative scale digits ≡ ok d
    → IsDecimal d
unfolding assemble
assemble-IsDecimal negative scale digits d h i e =
    bounded-IsDecimal negative scale (without_leading digits) d (without_leading-AreDigits digits h)
      i (without_leading-LeadsRight digits) e
