-- ===== src/Auth.antt =====
-- auth.rs: the scramble of `chap-sha1` and its base64 decoder. SHA-1 is no part of the repository, so
-- it is an argument: from bytes to bytes.
pub mod Base64
use tarant.Base.{
  ℕ, ◌+◌, ◌-◌, ◌*◌, ◌/◌, ◌%◌, ◌==◌, within, if◌then◌else◌, Option, none, some, List, [], ◌∷◌, ◌++◌,
  ok, ◌>>=◌, ok_or, bit_or,
}
use Prim.Native.Nat.{bit_xor}
use tarant.Error.{Error, Violation, Outcome}
use tarant.Msgpack.{get_range}

unfoldable pub decode_symbol : ℕ → Option ℕ
decode_symbol c =
    if within b'A' b'Z' c
    then some (c - b'A')
    else if within b'a' b'z' c
    then some (c - b'a' + 26)
    else if within b'0' b'9' c
    then some (c - b'0' + 52)
    else if c == b'+'
    then some 62
    else if c == b'/'
    then some 63
    else none

-- The sextets of a chunk, up to the first `=`.
unfoldable pub sextets : List ℕ → Option (List ℕ)
unfolding decode_symbol
sextets [] = some []
sextets (c ∷ cs) =
    let rest = sextets cs in
    if c == b'=' then some [] else elim (decode_symbol c) [
      | none ↦ none
      | some s ↦ elim rest [ none ↦ none | some ss ↦ some (s ∷ ss) ]
    ]

-- The bytes of a chunk with two sextets or more; a group is never a single symbol.
unfoldable pub group_bytes : List ℕ → Option (List ℕ)
group_bytes [] = some []
group_bytes (a ∷ []) = none
group_bytes (a ∷ b ∷ []) = some (bit_or (a * 4 % 256) (b / 16) ∷ [])
group_bytes (a ∷ b ∷ c ∷ []) =
    some (bit_or (a * 4 % 256) (b / 16) ∷ bit_or (b * 16 % 256) (c / 4) ∷ [])
group_bytes (a ∷ b ∷ c ∷ d ∷ more) =
    some
      (bit_or (a * 4 % 256) (b / 16) ∷ bit_or (b * 16 % 256) (c / 4) ∷ bit_or (c * 64 % 256) d ∷ [])

-- One round of the loop: a chunk without symbols ends it.
unfoldable pub push_group : List ℕ → Option (List ℕ) → Option (List ℕ)
unfolding sextets group_bytes
push_group chunk behind = elim (sextets chunk) [
  | none ↦ none
  | some [] ↦ some []
  | some (s ∷ ss) ↦ elim (group_bytes (s ∷ ss)) [
    | none ↦ none
    | some bytes ↦ elim behind [ none ↦ none | some rest ↦ some (bytes ++ rest) ]
  ]
]

unfoldable pub decode_base64 : List ℕ → Option (List ℕ)
unfolding push_group
decode_base64 [] = some []
decode_base64 (a ∷ []) = push_group (a ∷ []) (some [])
decode_base64 (a ∷ b ∷ []) = push_group (a ∷ b ∷ []) (some [])
decode_base64 (a ∷ b ∷ c ∷ []) = push_group (a ∷ b ∷ c ∷ []) (some [])
decode_base64 (a ∷ b ∷ c ∷ d ∷ rest) = push_group (a ∷ b ∷ c ∷ d ∷ []) (decode_base64 rest)

-- The loop over the two digests.
unfoldable pub xor_bytes : List ℕ → List ℕ → List ℕ
xor_bytes [] ys = []
xor_bytes (x ∷ xs) [] = []
xor_bytes (x ∷ xs) (y ∷ ys) = bit_xor x y ∷ xor_bytes xs ys

unfoldable pub chap_sha1 : (List ℕ → List ℕ) → List ℕ → List ℕ → Outcome (List ℕ)
unfolding decode_base64 xor_bytes
chap_sha1 sha1 salt_line password = do
  encoded ← ok_or (get_range salt_line 0 44) (Error.protocol Violation.salt_too_short)
  decoded ← ok_or (decode_base64 encoded) (Error.protocol Violation.salt_not_base64)
  salt ← ok_or (get_range decoded 0 20) (Error.protocol Violation.salt_decodes_short)
  let step_1 = sha1 password
  let step_2 = sha1 step_1
  let step_3 = sha1 (salt ++ step_2)
  ok (xor_bytes step_1 step_3)
