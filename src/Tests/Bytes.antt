-- ===== src/Tests/Bytes.antt =====
-- The theorems on msgpack.rs and codec.rs at concrete bytes.
use tarant.Base.{
  take, drop, ◌-◌, ℕ, ◌+◌, ◌<◌, ◌≤◌, ◌≡◌, ◌≢◌, refl, true, none, some, List, [], ◌∷◌, ◌++◌, length,
  arith, ok,
}
use tarant.Error.{Outcome, Settles, returns}
use tarant.Msgpack.{
  value_len, payload_and_children, length_prefix_width, measure_step, measure_loop,
}
use tarant.Base.Endian.{be_bytes}
use tarant.Msgpack.Format.{Head, Value, node, end, more, encode_head, encode, encode_all, IsValid}
use tarant.Msgpack.Cursor.{
  MapCursor, Entry, new, entries_and_header, next_entry, next, for_each, for_each_loop, read_uint,
}
use tarant.Msgpack.Complete.{value_len-encode}
use tarant.Msgpack.Total.{value_len-Settles, value_len-range}
use tarant.Msgpack.Entries.{Yields, Pair, new-IsWithin, next_entry-Yields, for_each-Settles}
use tarant.Codec.{decode, take_packet, max_packet_len, prefix_of, packet_len}
use tarant.Codec as Codec
use tarant.Codec.Response.{
  Kind, Response, parse, header_entry, kind_of, locate, body_entry, error_of, data_bytes, event_of,
  slice,
}
use tarant.Codec.Parse.{parse-Settles}
use tarant.Codec.Ranges.{parse-accessors}
use tarant.Codec.Stream.{decode-encode, decode_partial, decode-append}
use tarant.Tests.Crates.{rmp_example, rmpv_example}

-- {1: [true, -1]}, in front of one more byte
abbrev entry_map : Value
entry_map = node (Head.fixmap 1) (
    more (node (Head.positive_fixint 1) end) (
      more
        (node (Head.fixarray 2)
          (more (node (Head.boolean true) end) (more (node (Head.negative_fixint 31) end) end)))
        end))

entry_map-IsValid : IsValid entry_map
entry_map-IsValid = (
  omega arith,
  refl,
  (
    (omega arith, refl, tt),
    ((omega arith, refl, ((tt, refl, tt), ((omega arith, refl, tt), tt))), tt),
  ),
)

value_len-encode_example : value_len (encode entry_map ++ (7 ∷ [])) ≡ ok (length (encode entry_map))
value_len-encode_example =
    value_len-encode entry_map (7 ∷ []) entry_map-IsValid
      (unfold encode encode_all encode_head in omega arith)

-- The map {1: 2, 3: 4} and a byte behind it.
abbrev pairs : List ℕ
pairs = 0x82 ∷ 1 ∷ 2 ∷ 3 ∷ 4 ∷ 9 ∷ []

abbrev pairs_cursor : MapCursor
pairs_cursor = record { buf = pairs; pos = 1; remaining = 2 }

value_len-pairs : value_len pairs ≡ ok 5
unfolding value_len measure_loop measure_step payload_and_children length_prefix_width
value_len-pairs = refl

new-pairs : new pairs ≡ ok (pairs_cursor, 5)
unfolding new entries_and_header value_len measure_loop measure_step payload_and_children
    length_prefix_width
new-pairs = refl

value_len-Settles_example : Settles (value_len pairs)
value_len-Settles_example = value_len-Settles pairs

value_len-range_example : (0 < 5) × (5 ≤ length pairs)
value_len-range_example = value_len-range pairs 5 value_len-pairs

next_entry-Yields_example :
    (p : Pair 5 pairs_cursor) × Yields rmp_example 5 pairs_cursor p (
      rmp_example.read_u64
        (take (p.key_end - pairs_cursor.pos) (drop pairs_cursor.pos pairs_cursor.buf)))
next_entry-Yields_example =
    next_entry-Yields rmp_example 5 pairs_cursor (omega arith)
      (new-IsWithin pairs pairs_cursor 5 new-pairs).2

-- The body of the walk adds up the keys.
abbrev sum_keys : ℕ → Entry → Outcome ℕ
sum_keys n e = ok (n + e.0)

abbrev echo : List ℕ → Outcome (List ℕ)
echo packet = ok packet

abbrev framed : List ℕ
framed = 0xce ∷ 0 ∷ 0 ∷ 0 ∷ 2 ∷ 0x80 ∷ 0x81 ∷ []

encode-framed : Codec.encode (0x80 ∷ 0x81 ∷ []) [] ≡ ok framed
unfolding Codec.encode be_bytes
encode-framed = refl

decode-encode_example : decode echo (framed ++ (5 ∷ [])) ≡ (ok (some (0x80 ∷ 0x81 ∷ [])), 5 ∷ [])
decode-encode_example =
    decode-encode echo (0x80 ∷ 0x81 ∷ []) framed (5 ∷ []) encode-framed (omega arith)

decode_partial_example : decode echo (0xce ∷ 0 ∷ 0 ∷ []) ≡ (ok none, 0xce ∷ 0 ∷ 0 ∷ [])
decode_partial_example =
    decode_partial echo (0x80 ∷ 0x81 ∷ []) (0xce ∷ 0 ∷ 0 ∷ []) (2 ∷ 0x80 ∷ 0x81 ∷ []) 0
      encode-framed (omega arith)

decode_short : decode echo (1 ∷ 7 ∷ []) ≡ (ok (some (7 ∷ [])), [])
unfolding decode take_packet prefix_of packet_len
decode_short = refl

decode_answers : (decode echo (1 ∷ 7 ∷ [])).0 ≢ ok none
unfolding decode take_packet prefix_of packet_len
decode_answers = ground arith

decode-append_example :
    decode echo ((1 ∷ 7 ∷ []) ++ (5 ∷ []))
    ≡ ((decode echo (1 ∷ 7 ∷ [])).0, (decode echo (1 ∷ 7 ∷ [])).1 ++ (5 ∷ []))
decode-append_example = decode-append echo (1 ∷ 7 ∷ []) (5 ∷ []) decode_answers

-- A reply of the server: header {0: 0, 1: 7}, body {0x30: [2]}.
abbrev reply_packet : List ℕ
reply_packet = 0x82 ∷ 0 ∷ 0 ∷ 1 ∷ 7 ∷ 0x81 ∷ 0x30 ∷ 0x91 ∷ 2 ∷ []

parse-Settles_example : Settles (parse rmp_example rmpv_example reply_packet)
parse-Settles_example = parse-Settles rmpv_example rmp_example reply_packet

abbrev reply_parsed : Response rmpv_example.Value
reply_parsed = record {
  kind = Kind.reply;
  sync = 7;
  schema_version = none;
  body = 0x81 ∷ 0x30 ∷ 0x91 ∷ 2 ∷ [];
  data_at = some (2, 4);
  position = none;
  error = none;
  event_key = none;
  event_data = none;
  metadata = none;
  bind_metadata = none;
  sql_info = none;
  bind_count = none;
  stmt_id = none;
}

parse_reply : parse rmp_example rmpv_example reply_packet ≡ ok reply_parsed
unfolding parse new next next_entry entries_and_header value_len measure_loop measure_step
    payload_and_children length_prefix_width read_uint for_each for_each_loop header_entry kind_of
    locate body_entry error_of
parse_reply = refl

parse-accessors_example :
    Settles (data_bytes reply_parsed)
    × Settles (event_of reply_parsed)
    × Settles (slice reply_parsed reply_parsed.metadata)
    × Settles (slice reply_parsed reply_parsed.bind_metadata)
    × Settles (slice reply_parsed reply_parsed.sql_info)
parse-accessors_example =
    parse-accessors rmp_example rmpv_example reply_packet reply_parsed parse_reply

for_each-Settles_example : Settles (for_each rmp_example sum_keys pairs_cursor 0)
for_each-Settles_example =
    for_each-Settles rmp_example sum_keys (λ s e. returns (s + e.0)) pairs pairs_cursor 5 0
      new-pairs
