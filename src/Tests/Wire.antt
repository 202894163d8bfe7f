-- ===== src/Tests/Wire.antt =====
-- The packets of client.rs and sql.rs at concrete inputs.
use tarant.Base.{ℕ, ◌≡◌, refl, false, none, List, [], ◌∷◌, ok, arith}
use tarant.Base.Endian.{be_bytes}
use tarant.Msgpack.Format.{Head, node, end, encode_head, encode, encode_all}
use tarant.Iproto.Code.{Iter, iterator_code}
use tarant.Codec.Layout.{AreTwoMaps}
use tarant.Codec.Request as Request
use tarant.Codec.Request.{finish}
use tarant.Client.Select.{
  id, packet_of, entries, with_index, with_offset, with_after, with_position,
}
use tarant.Client.Wire.{Packet, bytes_at, select}
use tarant.Client.Wire.TwoMaps.{bytes_at-AreTwoMaps}
use tarant.Tests.Clients.{outside_example}
use tarant.Tests.Crates.{WritesFormat_example, WritesValues_example}

-- A select by the primary key, without a bound.
abbrev packet_example : Packet
packet_example =
    select
      (record {
        space = 115 ∷ [];
        index = id 0;
        key = ok (0x90 ∷ []);
        iter = Iter.eq;
        limit = none;
        offset = 0;
        after = none;
        fetch_position = false;
      })
      (0x90 ∷ [])

abbrev sent : List ℕ
sent =
    223 ∷ 0 ∷ 0 ∷ 0 ∷ 2 ∷ 207 ∷ 0 ∷ 0 ∷ 0 ∷ 0 ∷ 0 ∷ 0 ∷ 0 ∷ 0 ∷ 207 ∷ 0 ∷ 0 ∷ 0 ∷ 0 ∷ 0 ∷ 0 ∷ 0 ∷ 1
    ∷ 207 ∷ 0 ∷ 0 ∷ 0 ∷ 0 ∷ 0 ∷ 0 ∷ 0 ∷ 1 ∷ 207 ∷ 0 ∷ 0 ∷ 0 ∷ 0 ∷ 0 ∷ 0 ∷ 0 ∷ 7 ∷ 223 ∷ 0 ∷ 0 ∷ 0
    ∷ 5 ∷ 207 ∷ 0 ∷ 0 ∷ 0 ∷ 0 ∷ 0 ∷ 0 ∷ 0 ∷ 94 ∷ 219 ∷ 0 ∷ 0 ∷ 0 ∷ 1 ∷ 115 ∷ 207 ∷ 0 ∷ 0 ∷ 0 ∷ 0 ∷ 0
    ∷ 0 ∷ 0 ∷ 17 ∷ 207 ∷ 0 ∷ 0 ∷ 0 ∷ 0 ∷ 0 ∷ 0 ∷ 0 ∷ 0 ∷ 207 ∷ 0 ∷ 0 ∷ 0 ∷ 0 ∷ 0 ∷ 0 ∷ 0 ∷ 20 ∷ 207
    ∷ 0 ∷ 0 ∷ 0 ∷ 0 ∷ 0 ∷ 0 ∷ 0 ∷ 0 ∷ 207 ∷ 0 ∷ 0 ∷ 0 ∷ 0 ∷ 0 ∷ 0 ∷ 0 ∷ 18 ∷ 207 ∷ 0 ∷ 0 ∷ 0 ∷ 0
    ∷ 255 ∷ 255 ∷ 255 ∷ 255 ∷ 207 ∷ 0 ∷ 0 ∷ 0 ∷ 0 ∷ 0 ∷ 0 ∷ 0 ∷ 32 ∷ 144 ∷ []

bytes_sent : bytes_at outside_example 7 packet_example ≡ ok sent
unfolding bytes_at packet_of entries with_index with_offset with_after with_position iterator_code
    Request.new Request.entry Request.put_uint Request.stream_part Request.uint Request.str
    Request.raw finish be_bytes encode encode_all encode_head
bytes_sent = refl

bytes_at-AreTwoMaps_example : AreTwoMaps sent
unfolding encode encode_all encode_head
bytes_at-AreTwoMaps_example =
    bytes_at-AreTwoMaps outside_example WritesFormat_example WritesValues_example 7 packet_example
      sent (omega arith)
      (
        omega arith,
        omega arith,
        omega arith,
        omega arith,
        tt,
        (node (Head.fixarray 0) end, refl, (omega arith, refl, tt)),
      )
      bytes_sent (omega arith)
