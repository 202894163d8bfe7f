-- ===== src/Tuple.antt =====
-- `ArrayLike` of tuple.rs: what may stand where the protocol wants an array. What serde makes of a
-- value (`to_msgpack`) is an argument; `rmpv` and its `write_value` are parameters.
pub mod Arrays
use tarant.Base.{ℕ, Option, none, some, List, [], ◌∷◌, ◌++◌, ok, ◌>>=◌}
use tarant.Error.{Outcome}
use tarant.Rmpv.{Rmpv}

module _ (rmpv : Rmpv) (write_value : rmpv.Value → Outcome (List ℕ)) where
  -- The shapes that have an implementation. A scalar and a sequence (a `Vec`, a slice, an array or a
  -- tuple of up to eight) are by what `to_msgpack` makes of them.
  pub data ArrayLike : Type 0 where
    unit : ArrayLike
    scalar : Outcome (List ℕ) → ArrayLike
    value : rmpv.Value → ArrayLike
    sequence : Outcome (List ℕ) → ArrayLike
    borrowed : ArrayLike → ArrayLike

  unfoldable pub encode_value : Option (List rmpv.Value) → List ℕ → rmpv.Value → Outcome (List ℕ)
  encode_value (some elements) buf v = write_value v >>= λ bytes. ok (buf ++ bytes)
  encode_value none buf v = write_value v >>= λ bytes. ok ((buf ++ (0x91 ∷ [])) ++ bytes)

  -- Appended to a buffer.
  unfoldable pub encode_to : List ℕ → ArrayLike → Outcome (List ℕ)
  encode_to buf unit = ok (buf ++ (0x90 ∷ []))
  encode_to buf (scalar packed) = packed >>= λ bytes. ok ((buf ++ (0x91 ∷ [])) ++ bytes)
  encode_to buf (value v) = encode_value (rmpv.as_array v) buf v
  encode_to buf (sequence packed) = packed >>= λ bytes. ok (buf ++ bytes)
  encode_to buf (borrowed a) = encode_to buf a

  unfoldable pub encode_array : ArrayLike → Outcome (List ℕ)
  encode_array a = encode_to [] a
