-- ===== src/Msgpack/Format.antt =====
-- The MessagePack format, written down from its specification and not from msgpack.rs: a value is
-- a head, which fixes how many values hang on it, and those values.
use tarant.Base.{
  ℕ, suc, ◌+◌, ◌*◌, ◌^◌, ◌≤◌, ◌<◌, ◌≡◌, refl, Bool, true, false, List, [], ◌∷◌, ◌++◌, length,
  append_assoc, arith,
}
use tarant.Base.Endian.{be_bytes}

-- `i` stands for 2 ^ i bytes: of a number, of a length, or of a fixed-size extension.
pub data Head : Type 0 where
  positive_fixint negative_fixint : ℕ → Head
  nil : Head
  boolean : Bool → Head
  uint sint : (i n : ℕ) → Head
  float32 float64 : ℕ → Head
  fixstr : List ℕ → Head
  str bin : (i : ℕ) → List ℕ → Head
  fixext : (i ty : ℕ) → List ℕ → Head
  ext : (i ty : ℕ) → List ℕ → Head
  fixarray fixmap : ℕ → Head
  array map : (i n : ℕ) → Head

-- Big-endian numbers of 2 ^ i bytes.
abbrev pub sized : ℕ → ℕ → List ℕ
sized i n = be_bytes (2 ^ i) n

abbrev pub Fits : ℕ → ℕ → Type 0
Fits i n = n < 256 ^ (2 ^ i)

unfoldable pub encode_head : Head → List ℕ
encode_head (positive_fixint n) = n ∷ []
encode_head (negative_fixint n) = (0xe0 + n) ∷ []
encode_head nil = 0xc0 ∷ []
encode_head (boolean false) = 0xc2 ∷ []
encode_head (boolean true) = 0xc3 ∷ []
encode_head (uint i n) = (0xcc + i) ∷ sized i n
encode_head (sint i n) = (0xd0 + i) ∷ sized i n
encode_head (float32 n) = 0xca ∷ be_bytes 4 n
encode_head (float64 n) = 0xcb ∷ be_bytes 8 n
encode_head (fixstr bs) = (0xa0 + length bs) ∷ bs
encode_head (str i bs) = (0xd9 + i) ∷ (sized i (length bs) ++ bs)
encode_head (bin i bs) = (0xc4 + i) ∷ (sized i (length bs) ++ bs)
encode_head (fixext i ty bs) = (0xd4 + i) ∷ ty ∷ bs
encode_head (ext i ty bs) = (0xc7 + i) ∷ (sized i (length bs) ++ (ty ∷ bs))
encode_head (fixarray n) = (0x90 + n) ∷ []
encode_head (fixmap n) = (0x80 + n) ∷ []
encode_head (array i n) = (0xdb + i) ∷ sized i n
encode_head (map i n) = (0xdd + i) ∷ sized i n

-- The ranges that the specification gives.
abbrev pub HeadIsValid : Head → Type 0
HeadIsValid (positive_fixint n) = n < 128
HeadIsValid (negative_fixint n) = n < 32
HeadIsValid nil = Unit
HeadIsValid (boolean b) = Unit
HeadIsValid (uint i n) = (i < 4) × Fits i n
HeadIsValid (sint i n) = (i < 4) × Fits i n
HeadIsValid (float32 n) = n < 256 ^ 4
HeadIsValid (float64 n) = n < 256 ^ 8
HeadIsValid (fixstr bs) = length bs < 32
HeadIsValid (str i bs) = (i < 3) × Fits i (length bs)
HeadIsValid (bin i bs) = (i < 3) × Fits i (length bs)
HeadIsValid (fixext i ty bs) = (i < 5) × (ty < 256) × (length bs ≡ 2 ^ i)
HeadIsValid (ext i ty bs) = (i < 3) × (ty < 256) × Fits i (length bs)
HeadIsValid (fixarray n) = n < 16
HeadIsValid (fixmap n) = n < 16
HeadIsValid (array i n) = (1 ≤ i) × (i < 3) × Fits i n
HeadIsValid (map i n) = (1 ≤ i) × (i < 3) × Fits i n

-- A map of n entries holds n keys and n values.
abbrev pub children : Head → ℕ
children (fixarray n) = n
children (fixmap n) = 2 * n
children (array i n) = n
children (map i n) = 2 * n
children h = 0

mutual
  pub data Value : Type 0 where
    node : Head → Values → Value

  pub data Values : Type 0 where
    end : Values
    more : Value → Values → Values

abbrev pub count : Values → ℕ
count end = 0
count (more v vs) = suc (count vs)

unfoldable mutual
  pub encode : Value → List ℕ
  encode (node h vs) = encode_head h ++ encode_all vs

  pub encode_all : Values → List ℕ
  encode_all end = []
  encode_all (more v vs) = encode v ++ encode_all vs

abbrev mutual
  pub IsValid : Value → Type 0
  IsValid (node h vs) = HeadIsValid h × (count vs ≡ children h) × AllValid vs

  pub AllValid : Values → Type 0
  AllValid end = Unit
  AllValid (more v vs) = IsValid v × AllValid vs

pub append : Values → Values → Values
append end ws = ws
append (more v vs) ws = more v (append vs ws)

pub count-append : (vs ws : Values) → count (append vs ws) ≡ count vs + count ws
unfolding append
count-append end ws = omega arith
count-append (more v vs) ws = omega (arith, count-append vs ws)

pub AllValid-append : (vs ws : Values) → AllValid vs → AllValid ws → AllValid (append vs ws)
unfolding append
AllValid-append end ws hv hw = hw
AllValid-append (more v vs) ws hv hw = (hv.0, AllValid-append vs ws hv.1 hw)

pub encode_all-append :
    (vs ws : Values) → encode_all (append vs ws) ≡ encode_all vs ++ encode_all ws
unfolding append encode_all
encode_all-append end ws = refl
encode_all-append (more v vs) ws = simp (encode_all-append vs ws, append_assoc)
