-- ===== src/Tuple/Arrays.antt =====
-- tuple.rs: what `encode_array` returns is one MessagePack array.
use tarant.Base.{
  ℕ, ◌<◌, ◌^◌, ◌≡◌, refl, sym, ap, true, Option, none, some, List, [], ◌∷◌, ◌++◌, length, get_elem?,
  ok, ◌>>=◌, ok-injective, >>=-eq-ok, arith, append-nil,
}
use mathlib.Core.Path.{subst}
use tarant.Error.{Outcome}
use tarant.Rmpv.{Rmpv}
use tarant.Msgpack.{value_len}
use tarant.Msgpack.Complete.{value_len-encode}
use tarant.Msgpack.Format.{Head, Value, node, end, more, encode_head, encode, encode_all, IsValid}
use tarant.Codec.Request.{is_array_marker}
use tarant.Tuple.{
  ArrayLike, unit, scalar, value, sequence, borrowed, encode_to, encode_value, encode_array,
}

-- Arrays of the format.
abbrev IsArrayHead : Head → Type 0
IsArrayHead (Head.fixarray n) = Unit
IsArrayHead (Head.array i n) = Unit
IsArrayHead h = ⊥

abbrev pub IsArray : Value → Type 0
IsArray (node h vs) = IsArrayHead h

abbrev pub IsAny : Value → Type 0
IsAny v = Unit

-- Bytes that are one value, with a property.
abbrev pub IsOne : (Value → Type 0) → List ℕ → Type 0
IsOne P bytes = (v : Value) × (bytes ≡ encode v) × IsValid v × P v

-- What is written, if anything is.
abbrev pub Writes : (Value → Type 0) → Outcome (List ℕ) → Type 0
Writes P packed = (bytes : List ℕ) → packed ≡ ok bytes → IsOne P bytes

alone : (bytes : List ℕ) → IsOne IsAny bytes → IsOne IsArray (0x91 ∷ bytes)
unfolding encode encode_all encode_head
alone bytes (v, e, valid, _) = (
  node (Head.fixarray 1) (more v end),
  rw e (ap (λ t. 0x91 ∷ t) (sym (append-nil (encode v)))),
  (omega arith, refl, (valid, tt)),
  tt,
)

none_in : (bytes : List ℕ) → 0x90 ∷ [] ≡ bytes → IsOne IsArray bytes
unfolding encode encode_all encode_head
none_in bytes e = (node (Head.fixarray 0) end, sym e, (omega arith, refl, tt), tt)

marker_of : (v : Value) → IsValid v → IsArray v → is_array_marker (get_elem? (encode v) 0) ≡ true
unfolding is_array_marker encode encode_head
marker_of (node (Head.fixarray n) vs) valid array = ground (arith, valid.0)
marker_of (node (Head.array i n) vs) valid array = ground (arith, valid.0)
marker_of (node h vs) valid array = absurd array

module _ (rmpv : Rmpv) (write_value : rmpv.Value → Outcome (List ℕ)) where
  abbrev pub ByKind : Option (List rmpv.Value) → Outcome (List ℕ) → Type 0
  ByKind (some elements) written = Writes IsArray written
  ByKind none written = Writes IsAny written

  -- What serde and `rmpv` document: a value is written as one, and a sequence as an array.
  abbrev pub IsWritten : ArrayLike rmpv write_value → Type 0
  IsWritten unit = Unit
  IsWritten (scalar packed) = Writes IsAny packed
  IsWritten (value v) = ByKind (rmpv.as_array v) (write_value v)
  IsWritten (sequence packed) = Writes IsArray packed
  IsWritten (borrowed a) = IsWritten a

  wrapped :
      (packed : Outcome (List ℕ)) (bytes : List ℕ)
      → Writes IsAny packed
      → (packed >>= λ inner. ok (0x91 ∷ inner)) ≡ ok bytes
      → IsOne IsArray bytes
  wrapped packed bytes w e =
      let (inner, f, g) = >>=-eq-ok packed _ e in
      subst (IsOne IsArray) (ok-injective g) (alone inner (w inner f))

  passed :
      (packed : Outcome (List ℕ)) (bytes : List ℕ)
      → Writes IsArray packed
      → (packed >>= λ inner. ok inner) ≡ ok bytes
      → IsOne IsArray bytes
  passed packed bytes w e =
      let (inner, f, g) = >>=-eq-ok packed _ e in subst (IsOne IsArray) (ok-injective g) (w inner f)

  encode_value-IsArray :
      (kind : Option (List rmpv.Value)) (v : rmpv.Value) (bytes : List ℕ)
      → ByKind kind (write_value v)
      → encode_value rmpv write_value kind [] v ≡ ok bytes
      → IsOne IsArray bytes
  unfolding encode_value
  encode_value-IsArray (some elements) v bytes w e = passed (write_value v) bytes w e
  encode_value-IsArray none v bytes w e = wrapped (write_value v) bytes w e

  encode_to-IsArray :
      (a : ArrayLike rmpv write_value) (bytes : List ℕ)
      → IsWritten a
      → encode_to rmpv write_value [] a ≡ ok bytes
      → IsOne IsArray bytes
  unfolding encode_to
  encode_to-IsArray unit bytes w e = none_in bytes (ok-injective e)
  encode_to-IsArray (scalar packed) bytes w e = wrapped packed bytes w e
  encode_to-IsArray (value v) bytes w e = encode_value-IsArray (rmpv.as_array v) v bytes w e
  encode_to-IsArray (sequence packed) bytes w e = passed packed bytes w e
  encode_to-IsArray (borrowed a) bytes w e = encode_to-IsArray a bytes w e

  -- If serde and `rmpv` write each value as one and each sequence as an array, then whatever stands
  -- where an array is wanted is written, if at all, as one MessagePack array: its marker is that of an
  -- array, and it ends where the bytes end, if they are fewer than 2^64.
  pub encode_array-IsArray :
      (a : ArrayLike rmpv write_value) (bytes : List ℕ)
      → IsWritten a
      → encode_array rmpv write_value a ≡ ok bytes
      → length bytes < 2 ^ 64
      → (is_array_marker (get_elem? bytes 0) ≡ true) × (value_len bytes ≡ ok (length bytes))
  unfolding encode_array
  encode_array-IsArray a bytes w e h =
      let (v, same, valid, array) = encode_to-IsArray a bytes w e in
      let small : length (encode v ++ []) < 2 ^ 64 = rw (append-nil (encode v)) (rw same at h) in
      let measured = rw (append-nil (encode v)) at (value_len-encode v [] valid small) in
      (rw same (marker_of v valid array), rw same measured)
