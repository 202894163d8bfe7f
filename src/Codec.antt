-- ===== src/Codec.antt =====
-- codec.rs, the framing: an iproto packet on the wire is a MessagePack length and that many bytes.
-- `src` is the `BytesMut` that the socket fills; `decode` answers and leaves the bytes that it did
-- not take. Reserving capacity changes no byte and is left out.
pub mod Framing
pub mod ServerError
pub mod Request
pub mod Response
pub mod Parse
pub mod Ranges
pub mod Stream
pub mod Layout
pub mod Packets
pub mod Walk
pub mod Visited
pub mod Grown
use tarant.Base.{
  ℕ, zero, suc, ◌+◌, ◌-◌, ◌*◌, ◌^◌, ltb, leb, ◌==◌, if◌then◌else◌, Option, none, some, List, [],
  ◌∷◌, ◌++◌, length, take, drop, ok, err, panic, stuck, ◌>>=◌, or_panic,
}
use tarant.Base.Endian.{be_bytes, be_value}
use tarant.Error.{Error, Violation, Outcome}
use tarant.Msgpack.{get_range}

abbrev pub max_packet_len : ℕ
max_packet_len = 2 * 1024 * 1024 * 1024

-- The width of the length prefix that a marker announces.
unfoldable pub prefix_of : ℕ → Outcome ℕ
prefix_of m =
    if leb m 0x7f
    then ok 1
    else if m == 0xcc
    then ok 2
    else if m == 0xcd
    then ok 3
    else if m == 0xce
    then ok 5
    else if m == 0xcf
    then ok 9
    else err (Error.protocol (Violation.bad_length_marker m))

-- The length itself, `src[1..prefix]` read high byte first. `usize` has 64 bits, so the conversion
-- of the widest form does not fail.
unfoldable pub packet_len : List ℕ → ℕ → ℕ → Outcome ℕ
packet_len src marker prefix =
    if prefix == 1
    then ok marker
    else (or_panic (get_range src 1 prefix) >>= λ bytes. ok (be_value 0 bytes))

-- Everything of `Decoder::decode` but the parse: the packet, if a whole one has arrived, and the
-- bytes left in `src`.
unfoldable pub take_packet : List ℕ → Outcome (Option (List ℕ × List ℕ))
take_packet [] = ok none
take_packet (marker ∷ bytes) = do
  let src = marker ∷ bytes
  prefix ← prefix_of marker
  if ltb (length src) prefix
      then ok none
      else (packet_len src marker prefix >>= λ len.
          if ltb max_packet_len len
          then err (Error.protocol (Violation.packet_too_long len))
          else if ltb (length src) (prefix + len)
          then ok none
          else ok (some (take len (drop prefix src), drop len (drop prefix src))))

-- `Decoder::decode` with the parser of packets: the answer, and what is left in `src`.
module _ {R : Type 0} (parse : List ℕ → Outcome R) where
  unfoldable pub decode : List ℕ → Outcome (Option R) × List ℕ
  decode src = elim (take_packet src) [
    | ok none ↦ (ok none, src)
    | ok (some (packet, rest)) ↦ (parse packet >>= λ r. ok (some r), rest)
    | err e ↦ (err e, src)
    | panic ↦ (panic, src)
    | stuck ↦ (stuck, src)
  ]

-- `Encoder::encode` appends the packet to `dst`.
unfoldable pub encode : List ℕ → List ℕ → Outcome (List ℕ)
encode packet dst =
    if ltb (length packet) (2 ^ 32)
    then ok (dst ++ (0xce ∷ (be_bytes 4 (length packet) ++ packet)))
    else err (Error.protocol Violation.request_too_long)
