-- ===== src/Client/Wire.antt =====
-- The packets of client.rs and sql.rs on the wire.
use tarant.Base.{
  ℕ, zero, suc, ◌+◌, ◌^◌, ◌≤◌, ◌<◌, ◌≡◌, refl, sym, ap, ◌∙◌, Bool, true, false, if◌then◌else◌,
  Option, none, some, List, length, ok, err, ◌>>=◌, >>=-eq-ok, ok-injective, arith, Bool-cases, inl,
  inr, ltb,
}
use mathlib.Core.Path.{subst}
use tarant.Error.{Outcome}
use tarant.Iproto.Key
use tarant.Iproto.Request as Types
use tarant.Iproto.Code.{iterator_code, isolation_code, Iter, Isolation}
use tarant.Codec.Layout.{AreTwoMaps}
use tarant.Codec.Request.{Request, finish}
use tarant.Codec.Request as Request
use tarant.Codec.Layout.{WritesFormat, IsWord}
use tarant.Codec.Packets.{WritesValues}
use tarant.Codec.Grown.{
  IsOne, WritesOne, Grown, start-Grown, Grown-weaken, uint-Grown, str-Grown, bool-Grown, f64-Grown,
  raw-Grown, array-Grown, serialized-Grown, finish-Grown, finished-Grown,
}
use tarant.Client.{Outside}
use tarant.Client.Calls.{finished, invocation, watch_once_packet}
use tarant.Client.Select.{
  Select, IndexRef, id, name, After, position, tuple, with_index, with_offset, with_after,
  with_position, entries, packet_of, or_max,
}
use tarant.Client.Space.{write_packet, delete_packet}
use tarant.Client.Stream.{TxOptions, begin_packet, bare_packet, is_default}
use tarant.Sql.{prepare_packet, run_text_packet, execute_packet}
use tarant.Update.{Update, into_ops}
use tarant.Client.Space.{update_packet, upsert_packet, insert_arrow_packet, arrow_tag}
use tarant.Sql.{unprepare_packet}
use tarant.Codec.Grown.{AreOnes, ext-Grown, raw_array-Grown}
use tarant.Base.Int.{pos}
use tarant.Base as Base
pub mod Parts
pub mod TwoMaps

-- What a packet is built of: arguments, tuples, keys and parameters as serde left them.
pub data Packet : Type 0 where
  invoke : (ty k : ℕ) (stream : Option ℕ) (text : List ℕ) (args : Outcome (List ℕ)) → Packet
  watch_once : (key : List ℕ) → Packet
  write : (ty : ℕ) (space : List ℕ) (packed : Outcome (List ℕ)) → Packet
  update : (space : List ℕ) (key : Outcome (List ℕ)) (ops : Update) → Packet
  upsert : (space : List ℕ) (packed : Outcome (List ℕ)) (ops : Update) → Packet
  insert_arrow : (space batch : List ℕ) → Packet
  ping : Packet
  unprepare : (n : ℕ) → Packet
  delete : (space : List ℕ) (key : Outcome (List ℕ)) → Packet
  select : (s : Select) (key : List ℕ) → Packet
  begin : (n : ℕ) (options : TxOptions) → Packet
  conclude : (ty n : ℕ) → Packet
  prepare : (sql : List ℕ) → Packet
  run_text : (stream : Option ℕ) (sql : List ℕ) (bind : Outcome (List ℕ)) → Packet
  execute : (n : ℕ) (stream : Option ℕ) (bind : List ℕ) → Packet

unfoldable pub bytes_at : Outside → ℕ → Packet → Outcome (List ℕ)
bytes_at w sync (invoke ty k stream text args) = invocation w ty k stream text args sync
bytes_at w sync (watch_once key) = watch_once_packet w (λ bytes. some tt) key sync
bytes_at w sync (write ty space packed) = write_packet w space ty packed sync
bytes_at w sync (update space key ops) = update_packet w space key ops sync
bytes_at w sync (upsert space packed ops) = upsert_packet w space packed ops sync
bytes_at w sync (insert_arrow space batch) = insert_arrow_packet w space batch sync
bytes_at w sync ping = ok (finish w.rmp (Request.new w.rmp Types.ping sync none))
bytes_at w sync (unprepare n) = ok (unprepare_packet w n sync)
bytes_at w sync (delete space key) = delete_packet w space key sync
bytes_at w sync (select s key) = packet_of w s key sync
bytes_at w sync (begin n options) = begin_packet w n options sync
bytes_at w sync (conclude ty n) = bare_packet w ty n sync
bytes_at w sync (prepare sql) = prepare_packet w sql sync
bytes_at w sync (run_text stream sql bind) = run_text_packet w stream sql bind sync
bytes_at w sync (execute n stream bind) = execute_packet w n stream bind sync

abbrev pub IsText : List ℕ → Type 0
IsText text = length text < 2 ^ 32

abbrev pub IsIndex : IndexRef → Type 0
IsIndex (id n) = n < 2 ^ 64
IsIndex (name n) = IsText n

abbrev pub IsAfter : Option After → Type 0
IsAfter none = Unit
IsAfter (some (position p)) = IsText p
IsAfter (some (tuple t)) = WritesOne t

abbrev pub IsTimeout : Option ℕ → Type 0
IsTimeout none = Unit
IsTimeout (some bits) = bits < 2 ^ 64

abbrev pub IsStreamId : Option ℕ → Type 0
IsStreamId none = Unit
IsStreamId (some n) = n < 2 ^ 64

-- What the types of Rust say of the numbers, a text below 4 GiB, and one value where serde writes one.
abbrev pub IsSized : Packet → Type 0
IsSized (invoke ty k stream text args) =
    (ty < 2 ^ 64) × (k < 2 ^ 64) × IsStreamId stream × IsText text × WritesOne args
IsSized (watch_once key) = IsText key
IsSized (write ty space packed) = (ty < 2 ^ 64) × IsText space × WritesOne packed
IsSized (update space key ops) = IsText space × WritesOne key × AreOnes ops.ops
IsSized (upsert space packed ops) = IsText space × WritesOne packed × AreOnes ops.ops
IsSized (insert_arrow space batch) = IsText space
IsSized ping = Unit
IsSized (unprepare n) = n < 2 ^ 64
IsSized (delete space key) = IsText space × WritesOne key
IsSized (select s key) =
    IsText s.space
    × IsIndex s.index
    × (s.offset < 2 ^ 64)
    × (or_max s.limit < 2 ^ 64)
    × IsAfter s.after
    × IsOne key
IsSized (begin n options) = (n < 2 ^ 64) × IsTimeout options.timeout
IsSized (conclude ty n) = (ty < 2 ^ 64) × (n < 2 ^ 64)
IsSized (prepare sql) = IsText sql
IsSized (run_text stream sql bind) = IsStreamId stream × IsText sql × WritesOne bind
IsSized (execute n stream bind) = (n < 2 ^ 64) × IsStreamId stream × IsOne bind
