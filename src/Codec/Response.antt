-- ===== src/Codec/Response.antt =====
-- `Response` of codec.rs: the header is read, the parts of the body are located, and the bytes kept.
use tarant.Base.{
  true, false, ℕ, ◌+◌, ◌-◌, ◌/◌, ◌%◌, ◌^◌, ◌==◌, if◌then◌else◌, Option, none, some, List, [], ◌∷◌,
  length, Bool, ok, err, ◌>>=◌, ok_or, or_panic,
}
use tarant.Base.Utf8.{is_utf8}
use tarant.Error.{Error, Violation, Outcome}
use tarant.Rmp.{Rmp}
use tarant.Rmpv.{Rmpv}
use tarant.Iproto.Key
use tarant.Iproto.Response as Types
use tarant.Msgpack.{get_range, slice_from}
use tarant.Msgpack.Cursor.{Entry, new, read_uint, for_each}
use tarant.Codec.ServerError.{ServerError, from_message, decode_error_map, or_default, narrow}

pub data Kind : Type 0 where
  reply chunk failure event : Kind

-- Start and end of a value in the body.
abbrev pub Range : Type 0
Range = ℕ × ℕ

pub record Response (V : Type 0) : Type 0 where
  pub kind : Kind
  pub sync : ℕ
  pub schema_version : Option ℕ
  pub body : List ℕ
  pub data_at : Option Range
  pub position : Option (List ℕ)
  pub error : Option (ServerError V)
  pub event_key : Option (List ℕ)
  pub event_data : Option Range
  pub metadata : Option Range
  pub bind_metadata : Option Range
  pub sql_info : Option Range
  pub bind_count : Option ℕ
  pub stmt_id : Option ℕ

-- `u8::try_from(k).unwrap_or(u8::MAX)`
abbrev pub key_byte : ℕ → ℕ
key_byte k = or_default 255 (narrow 256 k)

-- `t & ERROR_FLAG != 0` and `t & !ERROR_FLAG`, where the flag is bit 15.
abbrev pub has_error_flag : ℕ → Bool
has_error_flag t = t / 0x8000 % 2 == 1

abbrev pub clear_error_flag : ℕ → ℕ
clear_error_flag t = if has_error_flag t then t - 0x8000 else t

-- The `match request_type`.
unfoldable pub kind_of : ℕ → Outcome Kind
kind_of t =
    if t == Types.ok
    then ok reply
    else if t == Types.chunk
    then ok chunk
    else if t == Types.event
    then ok event
    else if has_error_flag t
    then ok failure
    else err (Error.protocol (Violation.unknown_response_type t))

pub record Header : Type 0 where
  pub request_type : Option ℕ
  pub sync : ℕ
  pub schema_version : Option ℕ

-- What the loop over the body fills in.
pub record Located : Type 0 where
  pub data_at : Option Range
  pub position : Option (List ℕ)
  pub error_24 : Option (List ℕ)
  pub error_ext : Option (List ℕ)
  pub event_key : Option (List ℕ)
  pub event_data : Option Range
  pub metadata : Option Range
  pub bind_metadata : Option Range
  pub sql_info : Option Range
  pub bind_count : Option ℕ
  pub stmt_id : Option ℕ

abbrev pub no_header : Header
no_header = record { request_type = none; sync = 0; schema_version = none }

abbrev pub nothing : Located
nothing = record {
  data_at = none;
  position = none;
  error_24 = none;
  error_ext = none;
  event_key = none;
  event_data = none;
  metadata = none;
  bind_metadata = none;
  sql_info = none;
  bind_count = none;
  stmt_id = none;
}

module _ (rmp : Rmp) where
  -- `read_str` of msgpack.rs.
  unfoldable pub read_str : List ℕ → Outcome (List ℕ)
  read_str value = do
    (len, cursor) ← ok_or (rmp.read_str_len value) (Error.protocol Violation.not_a_string)
    bytes ← ok_or (get_range cursor 0 len) (Error.protocol Violation.string_truncated)
    if is_utf8 bytes then ok bytes else err (Error.protocol Violation.string_not_utf8)

  unfoldable pub header_entry : Header → Entry → Outcome Header
  header_entry h (k, at, v) =
      if key_byte k == Key.request_type
      then (read_uint rmp v >>= λ n. ok (record h { request_type = some n }))
      else if key_byte k == Key.sync
      then (read_uint rmp v >>= λ n. ok (record h { sync = n }))
      else if key_byte k == Key.schema_version
      then (read_uint rmp v >>= λ n. ok (record h { schema_version = some n }))
      else ok h

  unfoldable pub body_entry : Located → Entry → Outcome Located
  body_entry b (k, start, v) =
      let range : Range = (start, start + length v) in
      let c = key_byte k in
      if c == Key.data_key
      then ok (record b { data_at = some range })
      else if c == Key.position
      then (read_str v >>= λ s. ok (record b { position = some s }))
      else if c == Key.error_24
      then (read_str v >>= λ s. ok (record b { error_24 = some s }))
      else if c == Key.error
      then ok (record b { error_ext = some v })
      else if c == Key.event_key
      then (read_str v >>= λ s. ok (record b { event_key = some s }))
      else if c == Key.event_data
      then ok (record b { event_data = some range })
      else if c == Key.metadata
      then ok (record b { metadata = some range })
      else if c == Key.bind_metadata
      then ok (record b { bind_metadata = some range })
      else if c == Key.sql_info
      then ok (record b { sql_info = some range })
      else if c == Key.bind_count
      then (read_uint rmp v >>= λ n. ok (record b { bind_count = some n }))
      else if c == Key.stmt_id
      then (read_uint rmp v >>= λ n. ok (record b { stmt_id = some n }))
      else ok b

  -- The second half of `parse`: the body, if there is one.
  unfoldable pub locate : List ℕ → Outcome Located
  locate [] = ok nothing
  locate (b ∷ bs) = do (cursor, end) ← new (b ∷ bs); for_each rmp body_entry cursor nothing

  module _ (rmpv : Rmpv) where
    -- The error of a failed reply; an empty body returns before it is looked for.
    unfoldable pub error_of :
        Kind → ℕ → List ℕ → Located → Outcome (Option (ServerError rmpv.Value))
    error_of failure t (x ∷ xs) b =
        let code = or_default 0 (narrow (2 ^ 32) (clear_error_flag t)) in
        elim (b.error_ext) [
          | some bytes ↦ decode_error_map rmpv bytes code >>= λ e. ok (some e)
          | none ↦ ok (some (from_message code (or_default [] b.error_24)))
        ]
    error_of k t body b = ok none

    unfoldable pub parse : List ℕ → Outcome (Response rmpv.Value)
    parse packet = do
      (cursor, header_len) ← new packet
      h ← for_each rmp header_entry cursor no_header
      t ← ok_or h.request_type (Error.protocol Violation.no_request_type)
      kind ← kind_of t
      body ← slice_from packet header_len
      b ← locate body
      error ← error_of kind t body b
      ok (record {
        kind = kind;
        sync = h.sync;
        schema_version = h.schema_version;
        body = body;
        data_at = b.data_at;
        position = b.position;
        error = error;
        event_key = b.event_key;
        event_data = b.event_data;
        metadata = b.metadata;
        bind_metadata = b.bind_metadata;
        sql_info = b.sql_info;
        bind_count = b.bind_count;
        stmt_id = b.stmt_id;
      })

-- "unknown server error"
abbrev unknown_server_error : List ℕ
unknown_server_error =
    b'u' ∷ b'n' ∷ b'k' ∷ b'n' ∷ b'o' ∷ b'w' ∷ b'n' ∷ b' ' ∷ b's' ∷ b'e' ∷ b'r' ∷ b'v' ∷ b'e' ∷ b'r'
    ∷ b' ' ∷ b'e' ∷ b'r' ∷ b'r' ∷ b'o' ∷ b'r' ∷ []

-- `&self.body[start..end]`: a range that does not lie in the body panics.
module _ {V : Type 0} where
  unfoldable pub slice : Response V → Option Range → Outcome (Option (List ℕ))
  slice r none = ok none
  slice r (some (start, end)) = or_panic (get_range r.body start end) >>= λ bytes. ok (some bytes)

  -- `nil` where the body carries no data.
  unfoldable pub data_bytes : Response V → Outcome (List ℕ)
  data_bytes r = slice r r.data_at >>= λ d. ok (or_default (0xc0 ∷ []) d)

  -- The watched key and its data.
  unfoldable pub event_of : Response V → Outcome (Option (List ℕ × List ℕ))
  event_of r = elim (r.event_key) [
    | none ↦ ok none
    | some key ↦ slice r r.event_data >>= λ d. ok (some (key, or_default (0xc0 ∷ []) d))
  ]

  unfoldable pub has_data : Response V → Bool
  has_data r = elim (r.data_at) [ none ↦ false | some d ↦ true ]

  -- The slices that SQL reads.
  unfoldable pub metadata_bytes : Response V → Outcome (Option (List ℕ))
  metadata_bytes r = slice r r.metadata

  unfoldable pub bind_metadata_bytes : Response V → Outcome (Option (List ℕ))
  bind_metadata_bytes r = slice r r.bind_metadata

  unfoldable pub sql_info_bytes : Response V → Outcome (Option (List ℕ))
  sql_info_bytes r = slice r r.sql_info

  -- `data`: what serde makes of the bytes is an argument.
  unfoldable pub decoded_data : {T : Type 0} → (List ℕ → Option T) → Response V → Outcome T
  decoded_data decode r = data_bytes r >>= λ bytes. ok_or (decode bytes) Error.decode_failed

  unfoldable pub into_error : Response V → ServerError V
  into_error r = elim (r.error) [ none ↦ from_message 0 unknown_server_error | some e ↦ e ]

-- The body as a map: a later entry of a key replaces an earlier one.
module _ (rmp : Rmp) (rmpv : Rmpv) where
  unfoldable pub put_value : ℕ → rmpv.Value → List (ℕ × rmpv.Value) → List (ℕ × rmpv.Value)
  put_value k v [] = (k, v) ∷ []
  put_value k v ((j, u) ∷ rest) = if j == k then (k, v) ∷ rest else (j, u) ∷ put_value k v rest

  unfoldable pub body_map_entry : List (ℕ × rmpv.Value) → Entry → Outcome (List (ℕ × rmpv.Value))
  body_map_entry m (k, offset, bytes) =
      ok_or (rmpv.read_value bytes) (Error.protocol Violation.malformed_body_value) >>= λ r.
      ok (put_value k r.0 m)

  unfoldable pub body_map : Response rmpv.Value → Outcome (List (ℕ × rmpv.Value))
  body_map r = elim (r.body) [
    | [] ↦ ok []
    | b ∷ bs ↦ new (b ∷ bs) >>= λ c. for_each rmp body_map_entry c.0 []
  ]
