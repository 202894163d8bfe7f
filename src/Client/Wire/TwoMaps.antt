-- ===== src/Client/Wire/TwoMaps.antt =====
-- What the builders of client.rs and sql.rs finish is two maps.
use tarant.Base.{
  ℕ, ◌^◌, ◌<◌, ◌≡◌, Bool, true, false, if◌then◌else◌, none, some, List, length, ok, err, >>=-eq-ok,
  ok-injective, arith,
}
use mathlib.Core.Path.{subst}
use tarant.Error.{Outcome, Error}
use tarant.Iproto.Key
use tarant.Iproto.Request as Types
use tarant.Codec.Layout.{AreTwoMaps}
use tarant.Codec.Request.{Request, finish}
use tarant.Codec.Request as Request
use tarant.Codec.Layout.{WritesFormat}
use tarant.Codec.Packets.{WritesValues}
use tarant.Codec.Grown.{Grown-weaken, uint-Grown, raw-Grown, array-Grown, serialized-Grown}
use tarant.Client.{Outside}
use tarant.Client.Calls.{invocation, watch_once_packet}
use tarant.Client.Select.{packet_of}
use tarant.Client.Space.{write_packet, delete_packet}
use tarant.Client.Stream.{TxOptions, begin_packet, bare_packet}
use tarant.Sql.{prepare_packet, run_text_packet, execute_packet}
use tarant.Update.{Update, into_ops}
use tarant.Client.Space.{update_packet, upsert_packet, insert_arrow_packet, arrow_tag}
use tarant.Sql.{unprepare_packet}
use tarant.Codec.Grown.{AreOnes, ext-Grown, raw_array-Grown}
use tarant.Base.Int.{pos}
use tarant.Client.Wire.{
  Packet, bytes_at, IsSized, invoke, watch_once, write, delete, update, upsert, insert_arrow, ping,
  unprepare, select, begin, conclude, prepare, run_text, execute,
}
use tarant.Client.Wire.Parts.{
  fresh, select-Grown, isolation-Grown, sent, plain, IsWord-stream, timeout-Grown,
  synchronous-Grown, named, with_array,
}

-- What `into_ops` hands over is what was pushed.
unless_broken :
    (broken : Bool) (ops l : List (List ℕ))
    → (if broken then err Error.encode_failed else ok ops) ≡ ok l
    → ops ≡ l
unless_broken true ops l e = cc e
unless_broken false ops l e = ok-injective e

handed : (u : Update) (l : List (List ℕ)) → into_ops u ≡ ok l → u.ops ≡ l
unfolding into_ops
handed u l e = unless_broken u.error u.ops l e

module _ (w : Outside) (words : WritesFormat w.rmp) (laws : WritesValues w.rmp) where
  begin-AreTwoMaps :
      (n : ℕ) (options : TxOptions) (sync : ℕ) (packet : List ℕ)
      → sync < 2 ^ 64
      → IsSized (begin n options)
      → begin_packet w n options sync ≡ ok packet
      → length packet < 2 ^ 64
      → AreTwoMaps packet
  unfolding begin_packet
  begin-AreTwoMaps n options sync packet z (stream, timeout) =
      let start = Request.new w.rmp Types.begin sync (some n) in
      plain w words laws Types.begin sync (some n) 3 _ packet (omega arith) z stream (omega arith) (
        synchronous-Grown w words laws 2 start _ options.synchronous (
          timeout-Grown w words laws 1 start _ options.timeout timeout
            (isolation-Grown w words laws start options.isolation)))

  update-AreTwoMaps :
      (space : List ℕ) (key : Outcome (List ℕ)) (ops : Update) (sync : ℕ) (packet : List ℕ)
      → sync < 2 ^ 64
      → IsSized (update space key ops)
      → update_packet w space key ops sync ≡ ok packet
      → length packet < 2 ^ 64
      → AreTwoMaps packet
  unfolding update_packet
  update-AreTwoMaps space key ops sync packet y (h, one, ones) =
      let start = Request.new w.rmp Types.update sync none in
      let text = named w words laws Types.update sync none Key.space_name space (omega arith) h in
      let at =
        uint-Grown w.rmp words laws 1 start _ text Key.index_id (omega arith) 0 (omega arith) in
      let based =
        uint-Grown w.rmp words laws 2 start _ at Key.index_base (omega arith) 1 (omega arith) in
      sent w words laws Types.update sync none _ packet (omega arith) y tt λ q e.
        let (r, f, g) = >>=-eq-ok (Request.array w.rmp _ Key.key key) _ e in
        let (l, f2, last) = >>=-eq-ok (into_ops ops) _ g in
        let keyed =
          array-Grown w.rmp words laws 3 start _ based Key.key (omega arith) key r one f in
        Grown-weaken w.rmp words laws 5 9 start q (omega arith) (
          raw_array-Grown w.rmp words laws 4 start r keyed Key.tuple (omega arith) l q
            (subst AreOnes (handed ops l f2) ones) last)

  upsert-AreTwoMaps :
      (space : List ℕ) (packed : Outcome (List ℕ)) (ops : Update) (sync : ℕ) (packet : List ℕ)
      → sync < 2 ^ 64
      → IsSized (upsert space packed ops)
      → upsert_packet w space packed ops sync ≡ ok packet
      → length packet < 2 ^ 64
      → AreTwoMaps packet
  unfolding upsert_packet
  upsert-AreTwoMaps space packed ops sync packet y (h, one, ones) =
      let start = Request.new w.rmp Types.upsert sync none in
      let text = named w words laws Types.upsert sync none Key.space_name space (omega arith) h in
      let based =
        uint-Grown w.rmp words laws 1 start _ text Key.index_base (omega arith) 1 (omega arith) in
      sent w words laws Types.upsert sync none _ packet (omega arith) y tt λ q e.
        let (r, f, g) = >>=-eq-ok (Request.serialized w.rmp _ Key.tuple packed true) _ e in
        let (l, f2, last) = >>=-eq-ok (into_ops ops) _ g in
        let held =
          serialized-Grown w.rmp words laws 2 start _ based Key.tuple (omega arith) packed r true
            one f in
        Grown-weaken w.rmp words laws 4 9 start q (omega arith) (
          raw_array-Grown w.rmp words laws 3 start r held Key.ops (omega arith) l q
            (subst AreOnes (handed ops l f2) ones) last)

  -- Every packet that these builders make is a header map and a body map of the format and nothing else,
  -- if it is shorter than 2^64 bytes, what it is made of has the sizes that its types allow, and what
  -- serde wrote is one value each.
  pub bytes_at-AreTwoMaps :
      (sync : ℕ) (p : Packet) (packet : List ℕ)
      → sync < 2 ^ 64
      → IsSized p
      → bytes_at w sync p ≡ ok packet
      → length packet < 2 ^ 64
      → AreTwoMaps packet
  unfolding bytes_at invocation watch_once_packet write_packet delete_packet packet_of bare_packet
      prepare_packet run_text_packet execute_packet unprepare_packet insert_arrow_packet
  bytes_at-AreTwoMaps sync (invoke ty k stream text args) packet y (t, inside, z, h, one) =
      with_array w words laws ty sync stream 1 _ Key.tuple args packet t y
        (IsWord-stream w words laws stream z) (omega arith) (omega arith) one
        (named w words laws ty sync stream k text inside h)
  bytes_at-AreTwoMaps sync (watch_once key) packet y h =
      plain w words laws Types.watch_once sync none 1 _ packet (omega arith) y tt (omega arith)
        (named w words laws Types.watch_once sync none Key.event_key key (omega arith) h)
  bytes_at-AreTwoMaps sync (write ty space packed) packet y (t, h, one) =
      sent w words laws ty sync none _ packet t y tt (λ q e.
        Grown-weaken w.rmp words laws 2 9 _ q (omega arith) (
          serialized-Grown w.rmp words laws 1 _ _
            (named w words laws ty sync none Key.space_name space (omega arith) h) Key.tuple
            (omega arith) packed q true one e))
  bytes_at-AreTwoMaps sync (delete space key) packet y (h, one) =
      with_array w words laws Types.delete sync none 2 _ Key.key key packet (omega arith) y tt
        (omega arith) (omega arith) one
        (uint-Grown w.rmp words laws 1 _ _
          (named w words laws Types.delete sync none Key.space_name space (omega arith) h)
          Key.index_id (omega arith) 0 (omega arith))
  bytes_at-AreTwoMaps sync (select s key) packet y h =
      sent w words laws Types.select sync none _ packet (omega arith) y tt
        (λ q. select-Grown w words laws s key sync q h)
  bytes_at-AreTwoMaps sync (begin n options) packet y h = begin-AreTwoMaps n options sync packet y h
  bytes_at-AreTwoMaps sync (conclude ty n) packet y (t, z) =
      plain w words laws ty sync (some n) 0 _ packet t y z (omega arith) (fresh w words laws _)
  bytes_at-AreTwoMaps sync (prepare sql) packet y h =
      plain w words laws Types.prepare sync none 1 _ packet (omega arith) y tt (omega arith)
        (named w words laws Types.prepare sync none Key.sql_text sql (omega arith) h)
  bytes_at-AreTwoMaps sync (run_text stream sql bind) packet y (z, h, one) =
      with_array w words laws Types.execute sync stream 1 _ Key.sql_bind bind packet (omega arith) y
        (IsWord-stream w words laws stream z) (omega arith) (omega arith) one
        (named w words laws Types.execute sync stream Key.sql_text sql (omega arith) h)
  bytes_at-AreTwoMaps sync (execute n stream bind) packet y (i, z, one) =
      plain w words laws Types.execute sync stream 2 _ packet (omega arith) y
        (IsWord-stream w words laws stream z) (omega arith)
        (raw-Grown w.rmp words laws 1 _ _
          (uint-Grown w.rmp words laws 0 _ _ (fresh w words laws _) Key.stmt_id (omega arith) n i)
          Key.sql_bind (omega arith) bind one)
  bytes_at-AreTwoMaps sync (update space key ops) packet y h =
      update-AreTwoMaps space key ops sync packet y h
  bytes_at-AreTwoMaps sync (upsert space packed ops) packet y h =
      upsert-AreTwoMaps space packed ops sync packet y h
  bytes_at-AreTwoMaps sync (insert_arrow space batch) packet y h =
      sent w words laws Types.insert_arrow sync none _ packet (omega arith) y tt (λ q e.
        Grown-weaken w.rmp words laws 2 9 _ q (omega arith) (
          ext-Grown w.rmp words laws 1 _ _
            (named w words laws Types.insert_arrow sync none Key.space_name space (omega arith) h)
            Key.arrow (omega arith) (pos arrow_tag) batch q e))
  bytes_at-AreTwoMaps sync ping packet y h =
      plain w words laws Types.ping sync none 0 _ packet (omega arith) y tt (omega arith)
        (fresh w words laws _)
  bytes_at-AreTwoMaps sync (unprepare n) packet y h =
      plain w words laws Types.prepare sync none 1 _ packet (omega arith) y tt (omega arith)
        (uint-Grown w.rmp words laws 0 _ _ (fresh w words laws _) Key.stmt_id (omega arith) n h)
