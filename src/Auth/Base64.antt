-- ===== src/Auth/Base64.antt =====
-- `decode_base64` of auth.rs against the encoding of RFC 4648.
use tarant.Base.{
  ℕ, ◌+◌, ◌-◌, ◌*◌, ◌/◌, ◌%◌, ◌<◌, ◌==◌, ==_iff, ltb, ◌≡◌, refl, sym, ap, not, if◌then◌else◌, Bool,
  true, false, Option, none, some, List, [], ◌∷◌, ◌++◌, All, bit_or, arith,
}
use mathlib.Core.Path.{ap₂}
use mathlib.Core.Bool.{true≢false}
use tarant.Base.Bits.{all_below, all_below_at}
use tarant.Auth.{decode_symbol, sextets, group_bytes, push_group, decode_base64}

unfoldable pub symbol : ℕ → ℕ
symbol n =
    if ltb n 26
    then b'A' + n
    else if ltb n 52
    then b'a' + (n - 26)
    else if ltb n 62
    then b'0' + (n - 52)
    else if n == 62
    then b'+'
    else b'/'

-- Three bytes are four symbols; a last group of one or two bytes is padded.
unfoldable pub encode_base64 : List ℕ → List ℕ
unfolding symbol
encode_base64 [] = []
encode_base64 (x ∷ []) = symbol (x / 4) ∷ symbol (x % 4 * 16) ∷ b'=' ∷ b'=' ∷ []
encode_base64 (x ∷ y ∷ []) =
    symbol (x / 4) ∷ symbol (x % 4 * 16 + y / 16) ∷ symbol (y % 16 * 4) ∷ b'=' ∷ []
encode_base64 (x ∷ y ∷ z ∷ rest) =
    symbol (x / 4)
    ∷ symbol (x % 4 * 16 + y / 16)
    ∷ symbol (y % 16 * 4 + z / 64)
    ∷ symbol (z % 64)
    ∷ encode_base64 rest

abbrev is_value : ℕ → Option ℕ → Bool
is_value n none = false
is_value n (some m) = m == n

is_value-some : (n : ℕ) (o : Option ℕ) → is_value n o ≡ true → o ≡ some n
is_value-some n none h = absurd (true≢false (sym h))
is_value-some n (some m) h = ap some ((==_iff m n).0 h)

symbol_table : all_below 64 (λ n. is_value n (decode_symbol (symbol n))) ≡ true
unfolding all_below symbol decode_symbol
symbol_table = refl

decode_symbol-symbol : (n : ℕ) → n < 64 → decode_symbol (symbol n) ≡ some n
decode_symbol-symbol n h = is_value-some n _ (all_below_at _ 64 n h symbol_table)

padding_table : all_below 64 (λ n. not (symbol n == b'=')) ≡ true
unfolding all_below symbol
padding_table = refl

negated_false : (b : Bool) → not b ≡ true → b ≡ false
negated_false true h = sym h
negated_false false h = refl

symbol-no_padding : (n : ℕ) → n < 64 → (symbol n == b'=') ≡ false
symbol-no_padding n h = negated_false (symbol n == b'=') (all_below_at _ 64 n h padding_table)

abbrev in_front : ℕ → Option (List ℕ) → Option (List ℕ)
in_front n none = none
in_front n (some ns) = some (n ∷ ns)

sextets-symbol : (n : ℕ) (cs : List ℕ) → n < 64 → sextets (symbol n ∷ cs) ≡ in_front n (sextets cs)
unfolding sextets
sextets-symbol n cs h = rw (symbol-no_padding n h, decode_symbol-symbol n h) refl

sextets-padding : (cs : List ℕ) → sextets (b'=' ∷ cs) ≡ some []
unfolding sextets
sextets-padding cs = refl

-- Bytes put together from their upper and lower bits.
join_2_table : all_below 256 (λ x. bit_or (x / 4 * 4 % 256) (x % 4) == x) ≡ true
unfolding all_below
join_2_table = refl

join_4_table : all_below 256 (λ x. bit_or (x / 16 * 16 % 256) (x % 16) == x) ≡ true
unfolding all_below
join_4_table = refl

join_6_table : all_below 256 (λ x. bit_or (x / 64 * 64 % 256) (x % 64) == x) ≡ true
unfolding all_below
join_6_table = refl

module _ (x : ℕ) (h : x < 256) where
  join_2 : (a b : ℕ) → a * 4 % 256 ≡ x / 4 * 4 % 256 → b ≡ x % 4 → bit_or (a * 4 % 256) b ≡ x
  join_2 a b e f = rw (e, f) ((==_iff _ x).0 (all_below_at _ 256 x h join_2_table))

  join_4 : (a b : ℕ) → a * 16 % 256 ≡ x / 16 * 16 % 256 → b ≡ x % 16 → bit_or (a * 16 % 256) b ≡ x
  join_4 a b e f = rw (e, f) ((==_iff _ x).0 (all_below_at _ 256 x h join_4_table))

  join_6 : (a b : ℕ) → a * 64 % 256 ≡ x / 64 * 64 % 256 → b ≡ x % 64 → bit_or (a * 64 % 256) b ≡ x
  join_6 a b e f = rw (e, f) ((==_iff _ x).0 (all_below_at _ 256 x h join_6_table))

module _ (x y z : ℕ) (hx : x < 256) (hy : y < 256) (hz : z < 256) where
  first : bit_or (x / 4 * 4 % 256) ((x % 4 * 16 + y / 16) / 16) ≡ x
  first = join_2 x hx (x / 4) _ refl (omega (arith, hy))

  second : bit_or ((x % 4 * 16 + y / 16) * 16 % 256) ((y % 16 * 4 + z / 64) / 4) ≡ y
  second = join_4 y hy (x % 4 * 16 + y / 16) _ (omega (arith, hy)) (omega (arith, hz))

  third : bit_or ((y % 16 * 4 + z / 64) * 64 % 256) (z % 64) ≡ z
  third = join_6 z hz (y % 16 * 4 + z / 64) _ (omega (arith, hz)) refl

  three :
      group_bytes (x / 4 ∷ (x % 4 * 16 + y / 16) ∷ (y % 16 * 4 + z / 64) ∷ z % 64 ∷ [])
      ≡ some (x ∷ y ∷ z ∷ [])
  unfolding group_bytes
  three = rw (first, second, third) refl

push_group-some :
    (chunk : List ℕ) (s : ℕ) (ss bytes rest : List ℕ)
    → sextets chunk ≡ some (s ∷ ss)
    → group_bytes (s ∷ ss) ≡ some bytes
    → push_group chunk (some rest) ≡ some (bytes ++ rest)
unfolding push_group
push_group-some chunk s ss bytes rest e f = rw (e, push_group, f) refl

sextets_2 :
    (a b : ℕ)
    → a < 64
    → b < 64
    → sextets (symbol a ∷ symbol b ∷ b'=' ∷ b'=' ∷ []) ≡ some (a ∷ b ∷ [])
sextets_2 a b h k =
    rw
      (
        sextets-symbol a (symbol b ∷ b'=' ∷ b'=' ∷ []) h,
        sextets-symbol b (b'=' ∷ b'=' ∷ []) k,
        sextets-padding (b'=' ∷ []),
      )
      refl

sextets_3 :
    (a b c : ℕ)
    → a < 64
    → b < 64
    → c < 64
    → sextets (symbol a ∷ symbol b ∷ symbol c ∷ b'=' ∷ []) ≡ some (a ∷ b ∷ c ∷ [])
sextets_3 a b c h k l =
    rw
      (
        sextets-symbol a (symbol b ∷ symbol c ∷ b'=' ∷ []) h,
        sextets-symbol b (symbol c ∷ b'=' ∷ []) k,
        sextets-symbol c (b'=' ∷ []) l,
        sextets-padding [],
      )
      refl

sextets_4 :
    (a b c d : ℕ)
    → a < 64
    → b < 64
    → c < 64
    → d < 64
    → sextets (symbol a ∷ symbol b ∷ symbol c ∷ symbol d ∷ []) ≡ some (a ∷ b ∷ c ∷ d ∷ [])
sextets_4 a b c d h k l m =
    rw
      (
        sextets-symbol a (symbol b ∷ symbol c ∷ symbol d ∷ []) h,
        sextets-symbol b (symbol c ∷ symbol d ∷ []) k,
        sextets-symbol c (symbol d ∷ []) l,
        sextets-symbol d [] m,
      )
      (unfold sextets in refl)

-- Any bytes are read back from their base64 text.
pub decode_base64-encode_base64 :
    (bytes : List ℕ) → All (λ b. b < 256) bytes → decode_base64 (encode_base64 bytes) ≡ some bytes
unfolding decode_base64 encode_base64 group_bytes
decode_base64-encode_base64 [] h = refl
decode_base64-encode_base64 (x ∷ []) h =
    push_group-some (symbol (x / 4) ∷ symbol (x % 4 * 16) ∷ b'=' ∷ b'=' ∷ []) (x / 4)
      (x % 4 * 16 ∷ []) (x ∷ []) []
      (sextets_2 (x / 4) (x % 4 * 16) (omega (arith, h.0)) (omega arith))
      (ap (λ v. some (v ∷ [])) (join_2 x h.0 (x / 4) (x % 4 * 16 / 16) refl (omega arith)))
decode_base64-encode_base64 (x ∷ y ∷ []) h =
    push_group-some
      (symbol (x / 4) ∷ symbol (x % 4 * 16 + y / 16) ∷ symbol (y % 16 * 4) ∷ b'=' ∷ []) (x / 4)
      ((x % 4 * 16 + y / 16) ∷ y % 16 * 4 ∷ []) (x ∷ y ∷ []) []
      (sextets_3 (x / 4) (x % 4 * 16 + y / 16) (y % 16 * 4) (omega (arith, h.0))
        (omega (arith, h.1.0)) (omega arith))
      (ap₂ (λ u v. some (u ∷ v ∷ [])) (first x y 0 h.0 h.1.0 (omega arith))
        (join_4 y h.1.0 (x % 4 * 16 + y / 16) (y % 16 * 4 / 4) (omega (arith, h.1.0))
          (omega arith)))
decode_base64-encode_base64 (x ∷ y ∷ z ∷ rest) h = rw (decode_base64-encode_base64 rest h.1.1.1) (
    push_group-some
      (symbol (x / 4)
        ∷ symbol (x % 4 * 16 + y / 16)
        ∷ symbol (y % 16 * 4 + z / 64)
        ∷ symbol (z % 64)
        ∷ [])
      (x / 4) ((x % 4 * 16 + y / 16) ∷ (y % 16 * 4 + z / 64) ∷ z % 64 ∷ []) (x ∷ y ∷ z ∷ []) rest
      (sextets_4 (x / 4) (x % 4 * 16 + y / 16) (y % 16 * 4 + z / 64) (z % 64) (omega (arith, h.0))
        (omega (arith, h.1.0)) (omega (arith, h.1.1.0)) (omega arith))
      (three x y z h.0 h.1.0 h.1.1.0))
