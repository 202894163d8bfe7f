-- ===== src/Tests/Packets.antt =====
-- The theorems on the requests of codec.rs and the arrays of tuple.rs at concrete inputs.
use tarant.Base.{
  ◌<◌, ◌+◌, ◌^◌, ◌>>=◌, ℕ, ◌≡◌, refl, true, none, List, [], ◌∷◌, length, drop, get_elem?, ok,
  ok-injective, sym, arith,
}
use tarant.Error.{Outcome}
use tarant.Base.Int.{pos}
use tarant.Base.Endian.{be_bytes}
use tarant.Msgpack.{value_len}
use tarant.Msgpack.Format.{Head, Value, node, end, encode_head, encode, encode_all}
use tarant.Codec.Request as Request
use tarant.Codec.Request.{finish, is_array_marker, Request}
use tarant.Codec.Packets.{
  Op, put_uint, put_str, put_ext, put_serialized, put_raw_array, apply_op, apply_ops,
  apply_ops-AreTwoMaps,
}
use tarant.Codec.Layout.{AreTwoMaps, AreEntries, add_entries}
use tarant.Codec.Walk.{visit}
use tarant.Codec.Visited.{finish-visit}
use tarant.Msgpack.Cursor.{Entry, new, for_each}
use tarant.Tuple.{value, borrowed, encode_array, encode_to, encode_value}
use tarant.Tuple.Arrays.{Writes, IsAny, encode_array-IsArray}
use tarant.Tests.Crates.{
  rmp_example, rmpv_example, WritesFormat_example, WritesValues_example, ReadsBack_example,
}

-- A number, a text, an extension, an array that serde wrote, and an array of encoded elements.
abbrev ops_example : List Op
ops_example =
    put_uint 0x12 5
    ∷ put_str 0x22 (102 ∷ [])
    ∷ put_ext 0x21 (pos 1) (7 ∷ [])
    ∷ put_serialized 0x20 (node (Head.fixarray 0) end) true
    ∷ put_raw_array 0x28 (node Head.nil end ∷ [])
    ∷ []

abbrev built : Outcome Request
built = apply_ops rmp_example (Request.new rmp_example 1 7 none) ops_example

abbrev packet : Request
packet = record {
  header =
      223 ∷ 0 ∷ 0 ∷ 0 ∷ 2 ∷ 207 ∷ 0 ∷ 0 ∷ 0 ∷ 0 ∷ 0 ∷ 0 ∷ 0 ∷ 0 ∷ 207 ∷ 0 ∷ 0 ∷ 0 ∷ 0 ∷ 0 ∷ 0 ∷ 0
      ∷ 1 ∷ 207 ∷ 0 ∷ 0 ∷ 0 ∷ 0 ∷ 0 ∷ 0 ∷ 0 ∷ 1 ∷ 207 ∷ 0 ∷ 0 ∷ 0 ∷ 0 ∷ 0 ∷ 0 ∷ 0 ∷ 7 ∷ [];
  body =
      207 ∷ 0 ∷ 0 ∷ 0 ∷ 0 ∷ 0 ∷ 0 ∷ 0 ∷ 18 ∷ 207 ∷ 0 ∷ 0 ∷ 0 ∷ 0 ∷ 0 ∷ 0 ∷ 0 ∷ 5 ∷ 207 ∷ 0 ∷ 0 ∷ 0
      ∷ 0 ∷ 0 ∷ 0 ∷ 0 ∷ 34 ∷ 219 ∷ 0 ∷ 0 ∷ 0 ∷ 1 ∷ 102 ∷ 207 ∷ 0 ∷ 0 ∷ 0 ∷ 0 ∷ 0 ∷ 0 ∷ 0 ∷ 33 ∷ 201
      ∷ 0 ∷ 0 ∷ 0 ∷ 1 ∷ 1 ∷ 7 ∷ 207 ∷ 0 ∷ 0 ∷ 0 ∷ 0 ∷ 0 ∷ 0 ∷ 0 ∷ 32 ∷ 144 ∷ 207 ∷ 0 ∷ 0 ∷ 0 ∷ 0 ∷ 0
      ∷ 0 ∷ 0 ∷ 40 ∷ 221 ∷ 0 ∷ 0 ∷ 0 ∷ 1 ∷ 192 ∷ [];
  entries = 5;
}

packet-built : built ≡ ok packet
unfolding apply_ops apply_op Request.new Request.entry Request.put_uint Request.stream_part
    Request.uint Request.str Request.ext Request.serialized Request.raw_array is_array_marker encode
    encode_all encode_head be_bytes
packet-built = refl

apply_ops-AreTwoMaps_example : AreTwoMaps (finish rmp_example packet)
unfolding finish be_bytes
apply_ops-AreTwoMaps_example =
    apply_ops-AreTwoMaps rmp_example WritesFormat_example WritesValues_example 1 7 none ops_example
      packet (omega arith) (omega arith) tt
      (
        (omega arith, omega arith),
        (
          (omega arith, omega arith),
          (
            omega arith,
            ((omega arith, (omega arith, refl, tt)), ((omega arith, ((tt, refl, tt), tt)), tt)),
          ),
        ),
      )
      (omega arith) packet-built (omega arith)

-- A value that is no array, and a writer that writes nil for it.
abbrev write_nil : Unit {0} → Outcome (List ℕ)
write_nil v = ok (0xc0 ∷ [])

nil_written : Writes IsAny (write_nil tt)
unfolding encode encode_all encode_head
nil_written bytes e = (node Head.nil end, sym (ok-injective e), (tt, refl, tt), tt)

nil_array : encode_array rmpv_example write_nil (borrowed (value tt)) ≡ ok (0x91 ∷ 0xc0 ∷ [])
unfolding encode_array encode_to encode_value
nil_array = refl

encode_array-IsArray_example :
    (is_array_marker (get_elem? (0x91 ∷ 0xc0 ∷ []) 0) ≡ true)
    × (value_len (0x91 ∷ 0xc0 ∷ []) ≡ ok 2)
encode_array-IsArray_example =
    encode_array-IsArray rmpv_example write_nil (borrowed (value tt)) (0x91 ∷ 0xc0 ∷ []) nil_written
      nil_array (omega arith)

-- Two entries, and a walk that adds up the keys.
abbrev two_entries : List (ℕ × Value)
two_entries = (0x10, node Head.nil end) ∷ (0x22, node (Head.fixarray 0) end) ∷ []

abbrev add_key : ℕ → Entry → Outcome ℕ
add_key sum e = ok (sum + e.0)

two_are : AreEntries two_entries
unfolding AreEntries
two_are = (omega arith, (tt, refl, tt), (omega arith, (omega arith, refl, tt), tt))

two_short :
    length
      (finish rmp_example (add_entries rmp_example (Request.new rmp_example 1 7 none) two_entries))
    < 2 ^ 64
unfolding finish add_entries Request.new Request.entry Request.put_uint Request.stream_part encode
    encode_all encode_head be_bytes
two_short = omega arith

finish-visit_example :
    (let packet =
        finish rmp_example
          (add_entries rmp_example (Request.new rmp_example 1 7 none) two_entries) in
      (n : ℕ) × (value_len packet ≡ ok n)
      × ((new (drop n packet) >>= λ r. for_each rmp_example add_key r.0 0)
          ≡ visit rmp_example add_key 5 two_entries 0))
unfolding be_bytes
finish-visit_example =
    finish-visit rmp_example WritesFormat_example ReadsBack_example add_key 0 two_entries two_are
      (omega arith) 1 7 none (omega arith) (omega arith) tt two_short
