-- ===== src/Client/Calls.antt =====
-- `Client` and `PushCall` of client.rs: calls, evaluations, pings and pushes. What serde makes of
-- arguments (`args`, the bytes of an array or the failure) and of results (`decode`) is an argument.
use tarant.Base.{
  ℕ, ◌+◌, ◌^◌, ◌-◌, ltb, if◌then◌else◌, not, Bool, true, false, Option, none, some, List, [], ◌∷◌,
  ◌++◌, ok, err, panic, stuck,
}
use tarant.Base as Base
use tarant.Error.{Error, Outcome}
use tarant.Iproto.Code.{Feature}
use tarant.Iproto.Key
use tarant.Iproto.Request as Types
use tarant.Codec.Request
use tarant.Codec.Request.{Request, finish}
use tarant.Codec.Response.{decoded_data}
use tarant.Client.{
  M, ◌>>=◌, ◌>>◌, lift, return, Outside, draw_sync, supports, submit, request_with_pushes,
  finish_pushes,
}

-- A finished packet of a request that may fail.
abbrev pub finished : (w : Outside) → Outcome Request → Outcome (List ℕ)
finished w r = Base.◌>>=◌ r (λ q. ok (finish w.rmp q))

module _ (w : Outside) where
  -- The packets of `call` and `eval`, on a stream or not: both read a text and an array.
  unfoldable pub invocation : ℕ → ℕ → Option ℕ → List ℕ → Outcome (List ℕ) → ℕ → Outcome (List ℕ)
  invocation ty k stream text args sync = finished w (
      Request.array w.rmp (Request.str w.rmp (Request.new w.rmp ty sync stream) k text) Key.tuple
        args)

  unfoldable pub call_packet : Option ℕ → List ℕ → Outcome (List ℕ) → ℕ → Outcome (List ℕ)
  unfolding invocation
  call_packet = invocation Types.call Key.function_name

  unfoldable pub eval_packet : Option ℕ → List ℕ → Outcome (List ℕ) → ℕ → Outcome (List ℕ)
  unfolding invocation
  eval_packet = invocation Types.eval Key.expr

  unfoldable pub ping : M (Unit {0})
  unfolding submit
  ping = do
    r ← submit w (λ sync. ok (finish w.rmp (Request.new w.rmp Types.ping sync none)))
    return tt

  module _ {T : Type 0} (decode : List ℕ → Option T) where
    -- What a call makes of its reply.
    unfoldable pub fetch : (ℕ → Outcome (List ℕ)) → M T
    unfolding submit
    fetch build = do r ← submit w build; lift (decoded_data decode r)

    unfoldable pub call : List ℕ → Outcome (List ℕ) → M T
    unfolding fetch
    call name args = fetch (call_packet none name args)

    unfoldable pub eval : List ℕ → Outcome (List ℕ) → M T
    unfolding fetch
    eval expr args = fetch (eval_packet none expr args)

    unfoldable pub watch_once_packet : List ℕ → ℕ → Outcome (List ℕ)
    watch_once_packet key sync = ok (
        finish w.rmp
          (Request.str w.rmp (Request.new w.rmp Types.watch_once sync none) Key.event_key key))

    unfoldable pub watch_once : List ℕ → M T
    unfolding supports fetch
    watch_once key = do
      known ← supports Feature.watch_once
      if known then fetch (watch_once_packet key) else lift (err Error.unsupported)

  -- `PushCall::start`: the sync by which the call is finished later.
  unfoldable pub start : (ℕ → Outcome (List ℕ)) → M ℕ
  unfolding draw_sync request_with_pushes
  start build = do
    sync ← draw_sync
    packet ← lift (build sync)
    request_with_pushes w sync packet
    return sync

  unfoldable pub call_with_pushes : List ℕ → Outcome (List ℕ) → M ℕ
  unfolding start
  call_with_pushes name args = start (call_packet none name args)

  unfoldable pub eval_with_pushes : List ℕ → Outcome (List ℕ) → M ℕ
  unfolding start
  eval_with_pushes expr args = start (eval_packet none expr args)

  unfoldable pub finish_call : {T : Type 0} → (List ℕ → Option T) → ℕ → M T
  unfolding finish_pushes
  finish_call decode sync = do r ← finish_pushes w sync; lift (decoded_data decode r)
