-- ===== src/Client/Stream.antt =====
-- `Stream` of client.rs: an ordered sequence of requests under one id, and its transaction.
use tarant.Base.{
  ℕ, ◌&&◌, if◌then◌else◌, not, Bool, true, false, Option, none, some, List, ok, err, panic, stuck,
}
use tarant.Error.{Error, Outcome}
use tarant.Iproto.Code.{Feature}
use tarant.Iproto.Key
use tarant.Iproto.Request as Types
use tarant.Codec.Request
use tarant.Codec.Request.{Request, finish}
use tarant.Client.{
  Handle, M, ◌>>=◌, lift, return, Outside, draw_sync, draw_stream_id, supports, submit, fire,
}
use tarant.Iproto.Code.{Isolation, isolation_code}
use tarant.Client.Calls.{fetch, call_packet, eval_packet}

-- `timeout` is the bits of the number of seconds.
pub record TxOptions : Type 0 where
  pub isolation : Isolation
  pub timeout : Option ℕ
  pub synchronous : Bool

unfoldable pub plain : TxOptions
plain = record { isolation = Isolation.default; timeout = none; synchronous = false }

unfoldable pub is_default : Isolation → Bool
is_default Isolation.default = true
is_default i = false

pub record Stream : Type 0 where
  pub id : ℕ
  pub in_transaction : Bool

-- `Client::stream`
unfoldable pub open_stream : M Stream
unfolding draw_stream_id
open_stream = do id ← draw_stream_id; return (record { id = id; in_transaction = false })

-- A method returns its result and the stream after it: an error leaves the stream as it was.
unfoldable pub end_with : {A : Type 0} → Bool → Outcome A → Stream → Outcome (Unit {0}) × Stream
end_with in_transaction (ok a) s = (ok tt, record s { in_transaction = in_transaction })
end_with in_transaction (err e) s = (err e, s)
end_with in_transaction panic s = (panic, s)
end_with in_transaction stuck s = (stuck, s)

module _ (w : Outside) where
  unfoldable pub begin_packet : ℕ → TxOptions → ℕ → Outcome (List ℕ)
  unfolding is_default
  begin_packet id options sync =
      let r0 = Request.new w.rmp Types.begin sync (some id) in
      let r1 =
        if is_default options.isolation
        then r0
        else Request.uint w.rmp r0 Key.txn_isolation (isolation_code options.isolation) in
      let r2 : Request = elim (options.timeout) [
        | none ↦ r1
        | some t ↦ Request.f64 w.rmp r1 Key.timeout t
      ] in
      let r3 = if options.synchronous then Request.bool w.rmp r2 Key.is_sync true else r2 in
      ok (finish w.rmp r3)

  -- The packets of `commit` and `rollback` have no body.
  unfoldable pub bare_packet : ℕ → ℕ → ℕ → Outcome (List ℕ)
  bare_packet ty id sync = ok (finish w.rmp (Request.new w.rmp ty sync (some id)))

  -- `begin` up to its request, by the features that it asks for.
  unfoldable pub begin_known : ℕ → TxOptions → Bool → Bool → M (Unit {0})
  unfolding submit begin_packet
  begin_known id options transactions synchronous =
      if not transactions
      then lift (err Error.unsupported)
      else if options.synchronous && not synchronous
      then lift (err Error.unsupported)
      else (submit w (begin_packet id options) >>= λ r. return tt)

  unfoldable pub begin_request : ℕ → TxOptions → M (Unit {0})
  unfolding supports begin_known
  begin_request id options = do
    transactions ← supports Feature.transactions
    synchronous ← supports Feature.is_sync
    begin_known id options transactions synchronous

  unfoldable pub begin : Stream → TxOptions → Handle → (Outcome (Unit {0}) × Stream) × Handle
  unfolding begin_request end_with
  begin s options h = let sent = begin_request s.id options h in (end_with true sent.0 s, sent.1)

  -- `commit` and `rollback`: the transaction is over when the server says so.
  unfoldable pub conclude : ℕ → Stream → Handle → (Outcome (Unit {0}) × Stream) × Handle
  unfolding submit bare_packet end_with
  conclude ty s h = let sent = submit w (bare_packet ty s.id) h in (end_with false sent.0 s, sent.1)

  unfoldable pub commit : Stream → Handle → (Outcome (Unit {0}) × Stream) × Handle
  unfolding conclude
  commit s = conclude Types.commit s

  unfoldable pub rollback : Stream → Handle → (Outcome (Unit {0}) × Stream) × Handle
  unfolding conclude
  rollback s = conclude Types.rollback s

  unfoldable pub call :
      {T : Type 0} → (List ℕ → Option T) → Stream → List ℕ → Outcome (List ℕ) → M T
  unfolding fetch
  call decode s name args = fetch w decode (call_packet w (some s.id) name args)

  unfoldable pub eval :
      {T : Type 0} → (List ℕ → Option T) → Stream → List ℕ → Outcome (List ℕ) → M T
  unfolding fetch
  eval decode s expr args = fetch w decode (eval_packet w (some s.id) expr args)

  -- `Drop`: a rollback that nobody waits for.
  unfoldable pub drop_stream : Stream → M (Unit {0})
  unfolding draw_sync fire
  drop_stream s =
      if s.in_transaction
      then (draw_sync >>= λ sync.
          fire w (finish w.rmp (Request.new w.rmp Types.rollback sync (some s.id))))
      else return tt
