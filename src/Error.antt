-- ===== src/Error.antt =====
-- The crate's errors, src/error.rs, as the modelled parts raise them. The text of a protocol
-- violation is a constructor of `Violation`; an error that wraps one of another crate drops it.
pub mod Codes
use tarant.Base.{
  ℕ, Result, Option, none, some, ok_or, ok, err, ◌>>=◌, Bool, true, false, if◌then◌else◌, ◌≡◌, refl,
  ◌⊎◌, inl, inr,
}

-- The arguments of `Error::protocol` in msgpack.rs, codec.rs, connection.rs and auth.rs.
pub data Violation : Type 0 where
  truncated reserved_marker not_a_map : Violation
  not_a_uint not_a_string string_truncated string_not_utf8 : Violation
  bad_length_marker packet_too_long : ℕ → Violation
  length_does_not_fit request_too_long ext_too_long : Violation
  no_request_type malformed_error : Violation
  unknown_response_type : ℕ → Violation
  salt_too_short salt_not_base64 salt_decodes_short : Violation
  malformed_body_value no_statement_id unexpected_greeting unexpected_reply : Violation

pub data Error : Type 0 where
  io auth : Error
  server : (code : ℕ) → Error
  protocol : Violation → Error
  encode_failed decode_failed closed shutting_down timeout url unsupported : Error

unfoldable pub is_transient : Error → Bool
is_transient Error.io = true
is_transient Error.closed = true
is_transient Error.timeout = true
is_transient e = false

abbrev pub Outcome {ℓ} : Type ℓ → Type ℓ
Outcome A = Result Error A

-- An outcome that is a value or an error: no panic, and no loop out of fuel.
pub data Settles {ℓ} {A : Type ℓ} : Outcome A → Type ℓ where
  returns : (a : A) → Settles (ok a)
  fails : (e : Error) → Settles (err e)

pub Settles-bind {ℓ κ} :
    {A : Type ℓ} {B : Type κ} {m : Outcome A} (f : A → Outcome B)
    → Settles m
    → ((a : A) → Settles (f a))
    → Settles (m >>= f)
Settles-bind f (returns a) h = h a
Settles-bind f (fails e) h = fails e

pub Settles-if {ℓ} :
    {A : Type ℓ} (b : Bool) {x y : Outcome A} → Settles x → Settles y → Settles (if b then x else y)
Settles-if true h k = h
Settles-if false h k = k

pub Settles-cases {ℓ} :
    {A : Type ℓ} {m : Outcome A} → Settles m → ((a : A) × (m ≡ ok a)) ⊎ ((e : Error) × (m ≡ err e))
Settles-cases (returns a) = inl (a, refl)
Settles-cases (fails e) = inr (e, refl)

pub Settles-ok_or {ℓ} : {A : Type ℓ} (o : Option A) (e : Error) → Settles (ok_or o e)
Settles-ok_or none e = fails e
Settles-ok_or (some a) e = returns a
