-- ===== src/Tests/Auths.antt =====
-- The theorem on auth.rs at four bytes.
use tarant.Base.{◌≡◌, some, [], ◌∷◌, arith}
use tarant.Auth.{decode_base64}
use tarant.Auth.Base64.{encode_base64, decode_base64-encode_base64}

decode_base64-encode_base64_example :
    decode_base64 (encode_base64 (0x74 ∷ 0xff ∷ 0 ∷ 7 ∷ [])) ≡ some (0x74 ∷ 0xff ∷ 0 ∷ 7 ∷ [])
decode_base64-encode_base64_example =
    decode_base64-encode_base64 (0x74 ∷ 0xff ∷ 0 ∷ 7 ∷ [])
      (omega arith, (omega arith, (omega arith, (omega arith, tt))))
