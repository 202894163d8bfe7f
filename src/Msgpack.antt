-- ===== src/Msgpack.antt =====
-- msgpack.rs: the length of a MessagePack value, and the cursor over a map. A byte slice is a
-- list of numbers below 256 and `usize` has 64 bits. `>>` and `&` by a mask of ones are `/` and
-- `%`.
pub mod Format
pub mod Measure
pub mod Heads
pub mod Complete
pub mod Total
pub mod Shift
pub mod Cursor
pub mod Entries
use tarant.Base.{
  ℕ, zero, suc, ◌+◌, ◌-◌, ◌*◌, ◌%◌, ◌^◌, ◌||◌, ltb, leb, ◌==◌, within, if◌then◌else◌, Option, none,
  some, List, length, get_elem?, take, drop, ok, err, panic, stuck, ◌>>=◌, ok_or,
}
use tarant.Base.Endian.{be_value}
use tarant.Error.{Error, Violation, Outcome}

abbrev pub truncated : Error
truncated = Error.protocol Violation.truncated

-- `buf.get(lo..hi)`, where lo ≤ hi, and `&buf[lo..hi]`, which panics out of range.
abbrev pub get_range : List ℕ → ℕ → ℕ → Option (List ℕ)
get_range buf lo hi = if leb hi (length buf) then some (take (hi - lo) (drop lo buf)) else none

-- `&buf[lo..]`
abbrev pub slice_from : List ℕ → ℕ → Outcome (List ℕ)
slice_from buf lo = if leb lo (length buf) then ok (drop lo buf) else panic

-- The loop `n = (n << 8) | b` over at most four bytes is `be_value`: no bit is shifted out.
unfoldable pub read_len : List ℕ → ℕ → ℕ → Outcome ℕ
read_len buf pos width = do
  bytes ← ok_or (get_range buf pos (pos + width)) truncated
  ok (be_value 0 bytes)

unfoldable pub length_prefix_width : ℕ → ℕ
length_prefix_width m =
    if (m == 0xc4) || (m == 0xc7) || (m == 0xd9)
    then 1
    else if (m == 0xc5) || (m == 0xc8) || (m == 0xda) || (m == 0xdc) || (m == 0xde)
    then 2
    else if (m == 0xc6) || (m == 0xc9) || (m == 0xdb) || (m == 0xdd) || (m == 0xdf)
    then 4
    else 0

abbrev plus_len : (ℕ → ℕ × ℕ) → Outcome ℕ → Outcome (ℕ × ℕ)
plus_len f m = m >>= λ n. ok (f n)

-- The `match marker`: how many payload bytes and how many child values follow. `len` is
-- `read_len` at the buffer and the position behind the marker.
unfoldable pub payload_and_children : (ℕ → Outcome ℕ) → ℕ → Outcome (ℕ × ℕ)
payload_and_children len m =
    if leb m 0x7f || (m == 0xc0) || (m == 0xc2) || (m == 0xc3) || within 0xe0 0xff m
    then ok (0, 0)
    else if within 0x80 0x8f m
    then ok (0, 2 * (m % 16))
    else if within 0x90 0x9f m
    then ok (0, m % 16)
    else if within 0xa0 0xbf m
    then ok (m % 32, 0)
    else if m == 0xc1
    then err (Error.protocol Violation.reserved_marker)
    else if (m == 0xc4) || (m == 0xd9)
    then plus_len (λ n. (n, 0)) (len 1)
    else if (m == 0xc5) || (m == 0xda)
    then plus_len (λ n. (n, 0)) (len 2)
    else if (m == 0xc6) || (m == 0xdb)
    then plus_len (λ n. (n, 0)) (len 4)
    else if m == 0xc7
    then plus_len (λ n. (1 + n, 0)) (len 1)
    else if m == 0xc8
    then plus_len (λ n. (1 + n, 0)) (len 2)
    else if m == 0xc9
    then plus_len (λ n. (1 + n, 0)) (len 4)
    else if (m == 0xca) || (m == 0xcc) || (m == 0xd0)
    then ok (if m == 0xca then 4 else 1, 0)
    else if (m == 0xcb) || (m == 0xcd) || (m == 0xd1)
    then ok (if m == 0xcb then 8 else 2, 0)
    else if (m == 0xce) || (m == 0xd2)
    then ok (4, 0)
    else if (m == 0xcf) || (m == 0xd3)
    then ok (8, 0)
    else if m == 0xd4
    then ok (2, 0)
    else if m == 0xd5
    then ok (3, 0)
    else if m == 0xd6
    then ok (5, 0)
    else if m == 0xd7
    then ok (9, 0)
    else if m == 0xd8
    then ok (17, 0)
    else if m == 0xdc
    then plus_len (λ n. (0, n)) (len 2)
    else if m == 0xdd
    then plus_len (λ n. (0, n)) (len 4)
    else if m == 0xde
    then plus_len (λ n. (0, 2 * n)) (len 2)
    else plus_len (λ n. (0, 2 * n)) (len 4)

-- `checked_add` on `usize`, with the error of `ok_or_else(truncated)`.
abbrev pub checked_add : ℕ → ℕ → Outcome ℕ
checked_add a b = if ltb (a + b) (2 ^ 64) then ok (a + b) else err truncated

-- One round of the loop of `value_len`: the position and the values pending behind one value.
unfoldable pub measure_step : List ℕ → ℕ → ℕ → Outcome (ℕ × ℕ)
measure_step buf pos pending = do
  marker ← ok_or (get_elem? buf pos) truncated
  (payload, children) ← payload_and_children (read_len buf (pos + 1)) marker
  pos' ← checked_add (pos + 1 + length_prefix_width marker) payload
  if ltb (length buf) pos'
      then err truncated
      else (checked_add pending children >>= λ pending'. ok (pos', pending'))

-- `while pending > 0`. Each round moves `pos` by a byte at least and stops behind the end, so
-- `length buf + 1` rounds are enough.
unfoldable pub measure_loop : List ℕ → ℕ → ℕ → ℕ → Outcome ℕ
measure_loop buf fuel pos zero = ok pos
measure_loop buf zero pos (suc pending) = stuck
measure_loop buf (suc fuel) pos (suc pending) =
    measure_step buf pos pending >>= λ r. measure_loop buf fuel r.0 r.1

unfoldable pub value_len : List ℕ → Outcome ℕ
value_len buf = measure_loop buf (length buf + 1) 0 1
