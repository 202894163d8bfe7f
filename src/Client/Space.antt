-- ===== src/Client/Space.antt =====
-- `Space` and `Index` of client.rs: reading and writing tuples. What serde makes of a tuple (`tuple`)
-- and of a key (`key`) is an argument, as are the results (`decode`).
use tarant.Base.{
  ℕ, ◌+◌, ◌^◌, ◌-◌, ltb, if◌then◌else◌, not, Bool, true, false, Option, none, some, List, [], ◌∷◌,
  ◌++◌, ok, err, panic, stuck,
}
use tarant.Base as Base
use tarant.Base.Int.{pos}
use tarant.Error.{Error, Outcome}
use tarant.Iproto.Code.{Feature}
use tarant.Iproto.Key
use tarant.Iproto.Request as Types
use tarant.Codec.Request
use tarant.Codec.Request.{Request, finish}
use tarant.Client.{M, ◌>>=◌, lift, return, Outside, supports, submit}
use tarant.Update.{Update, into_ops}
use tarant.Client.Calls.{finished, fetch}
use tarant.Client.Select as Select
use tarant.Client.Select.{IndexRef, rows}

-- `ext::ARROW`
abbrev pub arrow_tag : ℕ
arrow_tag = 8

abbrev pub head {ℓ} : {T : Type ℓ} → List T → Option T
head [] = none
head (x ∷ xs) = some x

module _ (w : Outside) (space : List ℕ) where
  -- `write`: insert and replace.
  unfoldable pub write_packet : ℕ → Outcome (List ℕ) → ℕ → Outcome (List ℕ)
  write_packet ty tuple sync = finished w (
      Request.serialized w.rmp
        (Request.str w.rmp (Request.new w.rmp ty sync none) Key.space_name space) Key.tuple tuple
        true)

  unfoldable pub write : ℕ → Outcome (List ℕ) → M (Unit {0})
  unfolding write_packet submit
  write ty tuple = do r ← submit w (write_packet ty tuple); return tt

  unfoldable pub insert : Outcome (List ℕ) → M (Unit {0})
  unfolding write
  insert tuple = write Types.insert tuple

  unfoldable pub replace : Outcome (List ℕ) → M (Unit {0})
  unfolding write
  replace tuple = write Types.replace tuple

  unfoldable pub insert_arrow_packet : List ℕ → ℕ → Outcome (List ℕ)
  insert_arrow_packet ipc sync = finished w (
      Request.ext w.rmp
        (Request.str w.rmp (Request.new w.rmp Types.insert_arrow sync none) Key.space_name space)
        Key.arrow (pos arrow_tag) ipc)

  unfoldable pub insert_arrow : List ℕ → M (Unit {0})
  unfolding supports submit insert_arrow_packet
  insert_arrow ipc = do
    known ← supports Feature.insert_arrow
    if known
        then (submit w (insert_arrow_packet ipc) >>= λ r. return tt)
        else lift (err Error.unsupported)

  unfoldable pub delete_packet : Outcome (List ℕ) → ℕ → Outcome (List ℕ)
  delete_packet key sync = finished w (
      Request.array w.rmp
        (Request.uint w.rmp
          (Request.str w.rmp (Request.new w.rmp Types.delete sync none) Key.space_name space)
          Key.index_id 0)
        Key.key key)

  unfoldable pub update_packet : Outcome (List ℕ) → Update → ℕ → Outcome (List ℕ)
  unfolding into_ops
  update_packet key ops sync =
      let named =
        Request.str w.rmp (Request.new w.rmp Types.update sync none) Key.space_name space in
      let based = Request.uint w.rmp (Request.uint w.rmp named Key.index_id 0) Key.index_base 1 in
      finished w (
        Base.◌>>=◌ (Request.array w.rmp based Key.key key)
          λ r. Base.◌>>=◌ (into_ops ops) λ l. Request.raw_array w.rmp r Key.tuple l)

  unfoldable pub upsert_packet : Outcome (List ℕ) → Update → ℕ → Outcome (List ℕ)
  unfolding into_ops
  upsert_packet tuple ops sync =
      let named =
        Request.str w.rmp (Request.new w.rmp Types.upsert sync none) Key.space_name space in
      let based = Request.uint w.rmp named Key.index_base 1 in
      finished w (
        Base.◌>>=◌ (Request.serialized w.rmp based Key.tuple tuple true)
          λ r. Base.◌>>=◌ (into_ops ops) λ l. Request.raw_array w.rmp r Key.ops l)

  unfoldable pub upsert : Outcome (List ℕ) → Update → M (Unit {0})
  unfolding submit upsert_packet
  upsert tuple ops = do r ← submit w (upsert_packet tuple ops); return tt

  -- What gives rows back takes the first of them.
  module _ {T : Type 0} (decode : List ℕ → Option (List T)) where
    unfoldable pub delete : Outcome (List ℕ) → M (Option T)
    unfolding fetch delete_packet
    delete key = do rows ← fetch w decode (delete_packet key); return (head rows)

    unfoldable pub update : Outcome (List ℕ) → Update → M (Option T)
    unfolding fetch update_packet
    update key ops = do rows ← fetch w decode (update_packet key ops); return (head rows)

    unfoldable pub get : Outcome (List ℕ) → M (Option T)
    unfolding rows Select.new
    get key = do
      rows ← rows w decode (record (Select.new space (IndexRef.id 0) key) { limit = some 1 })
      return (head rows)
