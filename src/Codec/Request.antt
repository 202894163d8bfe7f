-- ===== src/Codec/Request.antt =====
-- `Request` of codec.rs: a packet under construction. What `serde` makes of a value is a parameter of
-- the operations that serialise one: its bytes, or the failure.
use tarant.Base.{
  ℕ, ◌+◌, ◌^◌, ltb, ◌==◌, ◌||◌, within, if◌then◌else◌, not, ◌&&◌, Bool, false, Option, none, some,
  List, [], ◌∷◌, ◌++◌, length, get_elem?, ok, err, panic, ◌>>=◌,
}
use tarant.Base.Int.{ℤ}
use tarant.Error.{Error, Violation, Outcome}
use tarant.Rmp.{Rmp}
use tarant.Iproto.Key

pub record Request : Type 0 where
  pub header : List ℕ
  pub body : List ℕ
  pub entries : ℕ

unfoldable pub is_array_marker : Option ℕ → Bool
is_array_marker none = false
is_array_marker (some m) = within 0x90 0x9f m || (m == 0xdc) || (m == 0xdd)

module _ (rmp : Rmp) where
  open rmp use {
    write_uint, write_map_len, write_array_len, write_str_len, write_bool, write_f64,
    write_ext_meta,
  }

  unfoldable pub put_uint : ℕ → ℕ → List ℕ
  put_uint k v = write_uint k ++ write_uint v

  unfoldable pub stream_part : Option ℕ → List ℕ
  unfolding put_uint
  stream_part none = []
  stream_part (some id) = put_uint Key.stream_id id

  abbrev stream_count : Option ℕ → ℕ
  stream_count none = 0
  stream_count (some id) = 1

  unfoldable pub new : ℕ → ℕ → Option ℕ → Request
  new ty sync stream = record {
    header =
        write_map_len (2 + stream_count stream)
        ++ (put_uint Key.request_type ty ++ (put_uint Key.sync sync ++ stream_part stream));
    body = [];
    entries = 0;
  }

  -- A key, and the bytes of the value behind it. Every operation below is one such entry.
  unfoldable pub entry : Request → ℕ → List ℕ → Request
  entry r k v = record r { body = r.body ++ (write_uint k ++ v); entries = r.entries + 1 }

  unfoldable pub uint : Request → ℕ → ℕ → Request
  uint r k v = entry r k (write_uint v)

  unfoldable pub str : Request → ℕ → List ℕ → Request
  str r k v = entry r k (write_str_len (length v) ++ v)

  unfoldable pub bool : Request → ℕ → Bool → Request
  bool r k v = entry r k (write_bool v)

  -- A float by its bits.
  unfoldable pub f64 : Request → ℕ → ℕ → Request
  f64 r k bits = entry r k (write_f64 bits)

  -- `value` is what `rmp_serde` writes; an array may be demanded.
  unfoldable pub serialized : Request → ℕ → Outcome (List ℕ) → Bool → Outcome Request
  serialized r k value expect_array = do
    bytes ← value
    if expect_array && not (is_array_marker (get_elem? bytes 0))
        then err Error.encode_failed
        else ok (entry r k bytes)

  unfoldable pub ext : Request → ℕ → ℤ → List ℕ → Outcome Request
  ext r k tag payload =
      if ltb (length payload) (2 ^ 32)
      then ok (entry r k (write_ext_meta (length payload) tag ++ payload))
      else err (Error.protocol Violation.ext_too_long)

  unfoldable pub array : Request → ℕ → Outcome (List ℕ) → Outcome Request
  array r k value = value >>= λ bytes. ok (entry r k bytes)

  unfoldable pub raw : Request → ℕ → List ℕ → Request
  raw r k msgpack = entry r k msgpack

  abbrev pub joined : List (List ℕ) → List ℕ
  joined [] = []
  joined (x ∷ xs) = x ++ joined xs

  unfoldable pub raw_array : Request → ℕ → List (List ℕ) → Outcome Request
  raw_array r k elements =
      if ltb (length elements) (2 ^ 32)
      then ok (entry r k (write_array_len (length elements) ++ joined elements))
      else panic

  unfoldable pub finish : Request → List ℕ
  finish r = r.header ++ (write_map_len r.entries ++ r.body)
