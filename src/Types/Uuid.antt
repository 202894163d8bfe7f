-- ===== src/Types/Uuid.antt =====
-- types/uuid.rs: the text form of a UUID and its reading. A UUID is its list of 16 bytes, a text its
-- list of bytes.
use tarant.Base.{
  ℕ, zero, suc, ◌+◌, ◌-◌, ◌*◌, ◌/◌, ◌%◌, ◌<◌, ◌≡◌, refl, ap, ◌∙◌, ◌==◌, leb, within, if◌then◌else◌,
  Bool, true, false, ◌&&◌, ◌||◌, Option, none, some, List, [], ◌∷◌, length, get_elem?, arith,
  Result, ok, err, panic, ◌>>=◌, ok_or, All, bit_or, Bool-cases, inl, inr,
}
use tarant.Base.Bits.{join_nibbles}

pub data UuidError : Type 0 where
  uuid_error : UuidError

-- `HEX[nibble]`
unfoldable pub hex_digit : ℕ → ℕ
hex_digit n = if leb n 9 then b'0' + n else b'a' + (n - 10)

unfoldable pub has_hyphen : ℕ → Bool
has_hyphen i = (i == 4) || (i == 6) || (i == 8) || (i == 10)

-- The loop of `fmt` from byte `i` on.
unfoldable pub show_from : ℕ → List ℕ → List ℕ
show_from i [] = []
show_from i (byte ∷ rest) =
    let digits = hex_digit (byte / 16) ∷ hex_digit (byte % 16) ∷ show_from (i + 1) rest in
    if has_hyphen i then b'-' ∷ digits else digits

unfoldable pub show : List ℕ → List ℕ
unfolding show_from
show bytes = show_from 0 bytes

unfoldable pub nibble : ℕ → Option ℕ
nibble c =
    if within b'0' b'9' c
    then some (c - b'0')
    else if within b'a' b'f' c
    then some (c - b'a' + 10)
    else if within b'A' b'F' c
    then some (c - b'A' + 10)
    else none

-- `s.bytes().filter(|&b| b != b'-')`
unfoldable pub without_hyphens : List ℕ → List ℕ
without_hyphens [] = []
without_hyphens (c ∷ cs) = if c == b'-' then without_hyphens cs else c ∷ without_hyphens cs

-- The loop over `hex.chunks(2)`; `pair[1]` of a lone digit panics, after its `pair[0]` is read.
unfoldable pub read_pairs : List ℕ → Result UuidError (List ℕ)
read_pairs [] = ok []
read_pairs (h ∷ []) = ok_or (nibble h) uuid_error >>= λ hi. panic
read_pairs (h ∷ l ∷ rest) = do
  hi ← ok_or (nibble h) uuid_error
  lo ← ok_or (nibble l) uuid_error
  tail ← read_pairs rest
  ok (bit_or (hi * 16 % 256) lo ∷ tail)

-- `let mut bytes = [0u8; 16]`, whose front the loop fills.
unfoldable pub pad : ℕ → List ℕ → List ℕ
pad zero bytes = []
pad (suc n) [] = 0 ∷ pad n []
pad (suc n) (b ∷ bytes) = b ∷ pad n bytes

-- `s.as_bytes()[i] == b'-'`
unfoldable pub is_hyphen_at : List ℕ → ℕ → Bool
is_hyphen_at s i = elim (get_elem? s i) [ none ↦ false | some c ↦ c == b'-' ]

unfoldable pub digits_of : List ℕ → Result UuidError (List ℕ)
digits_of s =
    if (length s == 36)
      && is_hyphen_at s 8
      && is_hyphen_at s 13
      && is_hyphen_at s 18
      && is_hyphen_at s 23
    then ok (without_hyphens s)
    else if length s == 32
    then ok s
    else err uuid_error

unfoldable pub from_str : List ℕ → Result UuidError (List ℕ)
unfolding pad read_pairs
from_str s = do hex ← digits_of s; bytes ← read_pairs hex; ok (pad 16 bytes)

-- The digits alone.
plain : List ℕ → List ℕ
unfolding hex_digit
plain [] = []
plain (byte ∷ rest) = hex_digit (byte / 16) ∷ hex_digit (byte % 16) ∷ plain rest

nibble-hex_digit : (n : ℕ) → n < 16 → nibble (hex_digit n) ≡ some n
unfolding nibble hex_digit
nibble-hex_digit n h = ground arith

without_hyphens-digit :
    (n : ℕ) (cs : List ℕ)
    → n < 16
    → without_hyphens (hex_digit n ∷ cs) ≡ hex_digit n ∷ without_hyphens cs
unfolding without_hyphens hex_digit
without_hyphens-digit n cs h = ground arith

without_hyphens-hyphen : (cs : List ℕ) → without_hyphens (b'-' ∷ cs) ≡ without_hyphens cs
unfolding without_hyphens
without_hyphens-hyphen cs = refl

abbrev pub AreBytes : List ℕ → Type 0
AreBytes = All (λ b. b < 256)

without_hyphens-show :
    (i : ℕ) (bytes : List ℕ) → AreBytes bytes → without_hyphens (show_from i bytes) ≡ plain bytes
unfolding show_from plain
without_hyphens-show i [] w = unfold without_hyphens in refl
without_hyphens-show i (b ∷ rest) w =
    let hi : b / 16 < 16 = omega arith in
    let lo : b % 16 < 16 = omega arith in
    let digits : without_hyphens (hex_digit (b / 16) ∷ hex_digit (b % 16) ∷ show_from (i + 1) rest)
        ≡ hex_digit (b / 16) ∷ hex_digit (b % 16) ∷ plain rest =
      rw
        (
          without_hyphens-digit (b / 16) (hex_digit (b % 16) ∷ show_from (i + 1) rest) hi,
          without_hyphens-digit (b % 16) (show_from (i + 1) rest) lo,
          without_hyphens-show (i + 1) rest w.1,
        )
        refl in
    elim (Bool-cases (has_hyphen i)) [
      | inl e ↦ rw e (without_hyphens-hyphen _ ∙ digits)
      | inr e ↦ rw e digits
    ]

read_pairs-plain : (bytes : List ℕ) → AreBytes bytes → read_pairs (plain bytes) ≡ ok bytes
unfolding read_pairs plain
read_pairs-plain [] w = refl
read_pairs-plain (b ∷ rest) w =
    let hi : b / 16 < 16 = omega arith in
    let lo : b % 16 < 16 = omega arith in
    let whole : b / 16 * 16 + b % 16 ≡ b = omega arith in
    rw
      (
        nibble-hex_digit (b / 16) hi,
        nibble-hex_digit (b % 16) lo,
        read_pairs-plain rest w.1,
        join_nibbles (b / 16) (b % 16) hi lo,
        whole,
      )
      refl

length-plain : (bytes : List ℕ) → length (plain bytes) ≡ 2 * length bytes
unfolding plain
length-plain [] = refl
length-plain (b ∷ rest) = omega (arith, length-plain rest)

pad_same : (bytes : List ℕ) → pad (length bytes) bytes ≡ bytes
unfolding pad
pad_same [] = refl
pad_same (b ∷ rest) = ap (λ t. b ∷ t) (pad_same rest)

-- Sixteen bytes in their hyphenated form.
hyphens-show :
    (bytes : List ℕ)
    → length bytes ≡ 16
    → ((length (show bytes) == 36)
        && is_hyphen_at (show bytes) 8
        && is_hyphen_at (show bytes) 13
        && is_hyphen_at (show bytes) 18
        && is_hyphen_at (show bytes) 23)
      ≡ true
unfolding show show_from has_hyphen is_hyphen_at
hyphens-show (a ∷ b ∷ c ∷ d ∷ e ∷ f ∷ g ∷ h ∷ i ∷ j ∷ k ∷ l ∷ m ∷ n ∷ o ∷ p ∷ []) s = refl
hyphens-show bytes s = absurd (omega arith)

-- The text of any UUID, its sixteen bytes in lower case and hyphenated, is read back as that UUID.
pub from_str-show :
    (bytes : List ℕ) → AreBytes bytes → length bytes ≡ 16 → from_str (show bytes) ≡ ok bytes
unfolding from_str digits_of
from_str-show bytes w n =
    let all : pad 16 bytes ≡ bytes = rw n at (pad_same bytes) in
    let digits : without_hyphens (show bytes) ≡ plain bytes =
      unfold show in without_hyphens-show 0 bytes w in
    rw (hyphens-show bytes n, digits, read_pairs-plain bytes w, all) refl
