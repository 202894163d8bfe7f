-- ===== src/Connection/Loop.antt =====
-- `Task::run` and `Task::reconnect` of connection.rs: one turn of each loop as a function.
use tarant.Base.{
  ℕ, zero, suc, ◌*◌, if◌then◌else◌, Bool, true, false, ◌&&◌, Option, none, some, List, [], ◌∷◌,
  ◌++◌, length,
}
use Prim.Native.Nat.{min}
use tarant.Rmp.{Rmp}
use tarant.Iproto.Request as Types
use tarant.Connection.{
  Incoming, Command, request, close, Pending, Subscriber, Effect, Task, watch_packet,
  handle_command, handle_response, fail_pending, fail_deferred, defer,
}

-- `Reconnect` of options.rs, and where the task stands. The delay is in milliseconds.
pub data Reconnect : Type 0 where
  backoff : (min max : ℕ) → Reconnect
  never : Reconnect

pub data Phase : Type 0 where
  running : Phase
  reconnecting : (delay : ℕ) → Phase
  finished : Phase

-- What `select!` of `run` yields. `None` from the channel and `Close` are one case of the code.
pub data Event : Type 0 where
  command : (link_up : Bool) → Command → Event
  channel_closed : Event
  packet : (alive : ℕ → Bool) → Incoming → Event
  link_lost : Event

-- What `select!` of `reconnect` yields.
pub data Wake : Type 0 where
  elapsed : Wake
  woken : Command → Wake
  gone : Wake

pub data Outcome : Type 0 where
  continues closes loses : Outcome

unfoldable pub is_empty : List (ℕ × Pending) → Bool
is_empty [] = true
is_empty (p ∷ ps) = false

-- Senders that go with the task when it returns.
unfoldable pub drop_deferred : List Command → List Effect
drop_deferred [] = []
drop_deferred (request sync bytes reply pushes ∷ cs) = Effect.dropped reply ∷ drop_deferred cs
drop_deferred (c ∷ cs) = drop_deferred cs

-- What the outside does in a phase; an input that does not fit the phase changes nothing.
pub data Input : Type 0 where
  turn : (link_up : ℕ → Bool) → Event → Input
  retry : Wake → (handshake : Option ℕ) → Input

module _ (rmp : Rmp) where
  -- The deferred commands, in order, until a write fails. `link_up` is asked for each of them by the
  -- number of those behind it.
  unfoldable pub drain : (ℕ → Bool) → Task → List Command → Task × List Effect
  drain link_up t [] = (record t { deferred = [] }, [])
  drain link_up t (c ∷ cs) =
      let (t1, done, stands) =
        handle_command rmp (link_up (length cs)) (record t { deferred = cs }) c in
      let (t2, later) = drain link_up t1 cs in
      let (t3, failed) = fail_pending t1 in
      if stands then (t2, done ++ later) else (t3, done ++ failed)

  unfoldable pub select : Task → Event → Task × List Effect × Outcome
  select t (command link_up close) = (t, [], closes)
  select t (command link_up c) =
      let (t', done, stands) = handle_command rmp link_up t c in
      (t', done, if stands then continues else loses)
  select t channel_closed = (t, [], closes)
  select t (packet alive r) =
      let (t', done) = handle_response rmp alive t r in
      (t', done, if t'.shutting_down && is_empty t'.pending then closes else continues)
  select t link_lost = (t, [], loses)

  -- The `match outcome`. When the task returns, what it holds is dropped.
  unfoldable pub conclude : Reconnect → Task → Outcome → Task × List Effect × Phase
  conclude policy t continues = (t, [], running)
  conclude policy t closes =
      let (t', done) = fail_pending (record t { closed = true }) in
      (record t' { deferred = [] }, done ++ drop_deferred t.deferred, finished)
  conclude (backoff lo hi) t loses = let (t', done) = fail_pending t in (t', done, reconnecting lo)
  conclude never t loses =
      let (t', done) = fail_pending t in
      let (t'', more) = fail_deferred (record t' { closed = true }) in (t'', done ++ more, finished)

  -- One turn of the loop of `run`.
  unfoldable pub run_turn : Reconnect → (ℕ → Bool) → Task → Event → Task × List Effect × Phase
  run_turn policy link_up t e =
      let (t1, drained) = drain link_up t t.deferred in
      let (t2, selected, outcome) = select t1 e in
      let (t3, concluded, phase) = conclude policy t2 outcome in
      (t3, drained ++ (selected ++ concluded), phase)

  -- The watch packets of a new link, until a write fails: `sends` of them succeed.
  unfoldable pub resubscribe : ℕ → List (List ℕ × List Subscriber) → List Effect
  resubscribe sends [] = []
  resubscribe zero ((key, l) ∷ rest) = Effect.sent (watch_packet rmp Types.watch key) ∷ []
  resubscribe (suc n) ((key, l) ∷ rest) =
      Effect.sent (watch_packet rmp Types.watch key) ∷ resubscribe n rest

  -- How a handshake ends: with a link that takes `sends` watch packets, or with an error.
  unfoldable pub attempt : ℕ → ℕ → Option ℕ → Task → List Effect → Task × List Effect × Phase
  attempt delay hi (some sends) t done = (t, done ++ resubscribe sends t.watchers, running)
  attempt delay hi none t done = (t, done, reconnecting (min (delay * 2) hi))

  -- One turn of the loop of `reconnect`, under the policy `Backoff`.
  unfoldable pub reconnect_turn : ℕ → ℕ → Wake → Option ℕ → Task → Task × List Effect × Phase
  reconnect_turn delay hi elapsed handshake t = attempt delay hi handshake t []
  reconnect_turn delay hi gone handshake t =
      let (t', done) = fail_deferred (record t { closed = true }) in (t', done, finished)
  reconnect_turn delay hi (woken close) handshake t =
      let (t', done) = fail_deferred (record t { closed = true }) in (t', done, finished)
  reconnect_turn delay hi (woken c) handshake t =
      let (t', done) = defer t c in attempt delay hi handshake t' done

  unfoldable pub step : Reconnect → Phase × Task → Input → (Phase × Task) × List Effect
  step policy (running, t) (turn link_up e) =
      let (t', done, phase) = run_turn policy link_up t e in ((phase, t'), done)
  step (backoff lo hi) (reconnecting delay, t) (retry wake handshake) =
      let (t', done, phase) = reconnect_turn delay hi wake handshake t in ((phase, t'), done)
  step policy s i = (s, [])

  -- A run of the task: the inputs in order.
  unfoldable pub run : Reconnect → Phase × Task → List Input → (Phase × Task) × List Effect
  run policy s [] = (s, [])
  run policy s (i ∷ is) =
      let (s', done) = step policy s i in
      let (s'', later) = run policy s' is in (s'', done ++ later)
