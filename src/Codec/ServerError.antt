-- ===== src/Codec/ServerError.antt =====
-- `ServerError` of error.rs, and the two functions of codec.rs that decode an `MP_ERROR`.
use tarant.Base.{
  ℕ, ◌^◌, ltb, ◌==◌, if◌then◌else◌, Option, none, some, List, [], ◌∷◌, ok, ◌>>=◌, ok_or,
}
use tarant.Error.{Error, Violation, Outcome}
use tarant.Rmpv.{Rmpv}
use mathlib.Core.Option

-- A text is its bytes; `fields` lists the pairs that the `BTreeMap` is collected from, in order.
-- An error inside `cause` has no causes itself, so the stack is a frame and a list of frames.
pub record Frame (V : Type 0) : Type 0 where
  pub code : ℕ
  pub message : List ℕ
  pub kind : List ℕ
  pub file : Option (List ℕ)
  pub line : Option ℕ
  pub errno : ℕ
  pub fields : List (List ℕ × V)

pub record ServerError (V : Type 0) : Type 0 where
  pub frame : Frame V
  pub open frame use *
  pub cause : List (Frame V)

-- "ClientError"
abbrev pub client_error : List ℕ
client_error = b'C' ∷ b'l' ∷ b'i' ∷ b'e' ∷ b'n' ∷ b't' ∷ b'E' ∷ b'r' ∷ b'r' ∷ b'o' ∷ b'r' ∷ []

-- "empty error stack"
abbrev pub empty_stack : List ℕ
empty_stack =
    b'e' ∷ b'm' ∷ b'p' ∷ b't' ∷ b'y' ∷ 0x20 ∷ b'e' ∷ b'r' ∷ b'r' ∷ b'o' ∷ b'r' ∷ 0x20 ∷ b's' ∷ b't'
    ∷ b'a' ∷ b'c' ∷ b'k' ∷ []

module _ {V : Type 0} where
  abbrev pub frame_of : ℕ → List ℕ → Frame V
  frame_of code message = record {
    code = code;
    message = message;
    kind = client_error;
    file = none;
    line = none;
    errno = 0;
    fields = [];
  }

  unfoldable pub from_message : ℕ → List ℕ → ServerError V
  from_message code message = record { frame = frame_of code message; cause = [] }

abbrev pub or_default {ℓ} : {A : Type ℓ} → A → Option A → A
or_default d none = d
or_default d (some a) = a

-- `u8::try_from` and `u32::try_from`
abbrev pub narrow : ℕ → ℕ → Option ℕ
narrow limit n = if ltb n limit then some n else none

module _ (rmpv : Rmpv) where
  open rmpv use {Value, read_value, as_map, as_array, as_u64, as_str}

  -- `filter_map(|(k, v)| Some((k.as_str()?.to_owned(), v.clone())))`
  unfoldable pub field_pairs : List (Value × Value) → List (List ℕ × Value)
  field_pairs [] = []
  field_pairs ((k, v) ∷ rest) = elim (as_str k) [
    | none ↦ field_pairs rest
    | some s ↦ (s, v) ∷ field_pairs rest
  ]

  -- The body of the loop of `decode_error_frame`.
  unfoldable pub set_field : Frame Value → Option ℕ → Value → Frame Value
  set_field e none v = e
  set_field e (some k) v =
      if k == 0x00
      then record e { kind = or_default [] (as_str v) }
      else if k == 0x01
      then record e { file = as_str v }
      else if k == 0x02
      then record e { line = as_u64 v }
      else if k == 0x03
      then record e { message = or_default [] (as_str v) }
      else if k == 0x04
      then record e { errno = or_default 0 (as_u64 v) }
      else if k == 0x05
      then record e { code = or_default 0 (Option.bind (as_u64 v) (narrow (2 ^ 32))) }
      else if k == 0x06
      then record e { fields = or_default [] (Option.map field_pairs (as_map v)) }
      else e

  unfoldable pub set_fields : Frame Value → List (Value × Value) → Frame Value
  set_fields e [] = e
  set_fields e ((k, v) ∷ rest) =
      set_fields (set_field e (Option.bind (as_u64 k) (narrow 256)) v) rest

  unfoldable pub decode_error_frame : Value → Outcome (Frame Value)
  decode_error_frame frame =
      ok_or (as_map frame) (Error.protocol Violation.malformed_error) >>= λ entries.
      ok (set_fields (frame_of 0 []) entries)

  -- `stack.iter().map(decode_error_frame).collect::<Result<Vec<_>>>()`
  unfoldable pub decode_frames : List Value → Outcome (List (Frame Value))
  decode_frames [] = ok []
  decode_frames (v ∷ vs) = do f ← decode_error_frame v; fs ← decode_frames vs; ok (f ∷ fs)

  -- The first entry under the key `STACK`.
  unfoldable pub find_stack : List (Value × Value) → Option Value
  find_stack [] = none
  find_stack ((k, v) ∷ rest) = elim (as_u64 k) [
    | none ↦ find_stack rest
    | some n ↦ let later = find_stack rest in if n == 0x00 then some v else later
  ]

  unfoldable pub from_frames : ℕ → List (Frame Value) → ServerError Value
  from_frames code [] = from_message code empty_stack
  from_frames code (outer ∷ causes) = record { frame = outer; cause = causes }

  unfoldable pub decode_error_map : List ℕ → ℕ → Outcome (ServerError Value)
  decode_error_map bytes code = do
    value ← ok_or (read_value bytes) (Error.protocol Violation.malformed_error)
    stack ←
        ok_or (Option.bind (Option.bind (as_map value.0) find_stack) as_array)
          (Error.protocol Violation.malformed_error)
    frames ← decode_frames stack
    ok (from_frames code frames)
