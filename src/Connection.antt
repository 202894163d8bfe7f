-- ===== src/Connection.antt =====
-- connection.rs: the task that owns the socket, as a state and functions over it. What the outside
-- does is an argument: whether a write to the socket succeeds, which commands and packets arrive, and
-- how a handshake ends. A channel end is a number, and what the task does to channels and to the
-- socket is a list of effects.
pub mod Loop
pub mod Account
pub mod Ledger
pub mod Run
pub mod Watching
pub mod Limits
pub mod Routing
pub mod Handshake
pub mod Accepting
use tarant.Base.{
  ℕ, zero, suc, ◌+◌, ◌*◌, max, ltb, leb, ◌==◌, if◌then◌else◌, Bool, true, false, not, ◌&&◌, ◌||◌,
  Option, none, some, List, [], ◌∷◌, ◌++◌, length, map,
}
use tarant.Error.{Error}
use tarant.Rmp.{Rmp}
use tarant.Iproto.Key
use tarant.Iproto.Request as Types
use tarant.Codec.Request
use tarant.Codec.Response.{Kind}

-- What `handle_response` reads of a response: its accessors never panic (`Codec.Ranges`).
pub record Incoming : Type 0 where
  pub kind : Kind
  pub sync : ℕ
  pub schema_version : Option ℕ
  pub data_bytes : List ℕ
  pub event : Option (List ℕ × List ℕ)

-- The sender of a `oneshot` is `reply`, that of the push channel is among `pushes`.
pub data Command : Type 0 where
  request : (sync : ℕ) (packet : List ℕ) (reply : ℕ) (pushes : Option ℕ) → Command
  watch : (id : ℕ) (key : List ℕ) (sender : ℕ) → Command
  unwatch : (id : ℕ) (key : List ℕ) → Command
  fire : (packet : List ℕ) → Command
  close : Command

pub record Pending : Type 0 where
  pub reply : ℕ
  pub pushes : Option ℕ

pub record Subscriber : Type 0 where
  pub id : ℕ
  pub sender : ℕ

-- `sent` is a packet handed to the socket, whether or not the write succeeds. A dropped reply
-- resolves to `Error::Closed` at its receiver.
pub data Effect : Type 0 where
  sent : List ℕ → Effect
  replied : (reply : ℕ) → Incoming → Effect
  refused : (reply : ℕ) → Error → Effect
  dropped : (reply : ℕ) → Effect
  pushed : (pushes : ℕ) → List ℕ → Effect
  published : (sender : ℕ) → List ℕ → Effect

-- The maps are association lists with each key once.
pub record Task : Type 0 where
  pub schema_version : ℕ
  pub closed : Bool
  pub pending : List (ℕ × Pending)
  pub watchers : List (List ℕ × List Subscriber)
  pub deferred : List Command
  pub shutting_down : Bool

unfoldable pub eq_bytes : List ℕ → List ℕ → Bool
eq_bytes [] [] = true
eq_bytes [] (y ∷ ys) = false
eq_bytes (x ∷ xs) [] = false
eq_bytes (x ∷ xs) (y ∷ ys) = (x == y) && eq_bytes xs ys

-- `HashMap` over syncs: `get`, and `remove` of every entry of the key.
unfoldable pub get_pending : ℕ → List (ℕ × Pending) → Option Pending
get_pending s [] = none
get_pending s ((k, p) ∷ rest) = if k == s then some p else get_pending s rest

unfoldable pub remove_pending : ℕ → List (ℕ × Pending) → List (ℕ × Pending)
remove_pending s [] = []
remove_pending s ((k, p) ∷ rest) = if k == s then rest else (k, p) ∷ remove_pending s rest

-- Over keys: `get`, and a new list of subscribers under a key, or none.
unfoldable pub get_watchers : List ℕ → List (List ℕ × List Subscriber) → Option (List Subscriber)
get_watchers key [] = none
get_watchers key ((k, l) ∷ rest) = if eq_bytes k key then some l else get_watchers key rest

unfoldable pub put_watchers :
    List ℕ → List Subscriber → List (List ℕ × List Subscriber) → List (List ℕ × List Subscriber)
put_watchers key l [] = (key, l) ∷ []
put_watchers key l ((k, old) ∷ rest) =
    if eq_bytes k key then (k, l) ∷ rest else (k, old) ∷ put_watchers key l rest

unfoldable pub remove_watchers :
    List ℕ → List (List ℕ × List Subscriber) → List (List ℕ × List Subscriber)
remove_watchers key [] = []
remove_watchers key ((k, l) ∷ rest) =
    if eq_bytes k key then rest else (k, l) ∷ remove_watchers key rest

-- `retain(|(watcher, _)| *watcher != id)`
unfoldable pub retain_others : ℕ → List Subscriber → List Subscriber
retain_others id [] = []
retain_others id (s ∷ rest) =
    if s.id == id then retain_others id rest else s ∷ retain_others id rest

-- Whether a receiver of the `watch` channel is alive is up to its owner.
unfoldable pub retain_alive : (ℕ → Bool) → List Subscriber → List Subscriber
retain_alive alive [] = []
retain_alive alive (s ∷ rest) =
    if alive s.sender then s ∷ retain_alive alive rest else retain_alive alive rest

-- A reply that `insert` overwrites is dropped.
unfoldable pub overwritten : Option Pending → List Effect
overwritten none = []
overwritten (some p) = Effect.dropped p.reply ∷ []

-- "box.shutdown"
abbrev pub shutdown_key : List ℕ
shutdown_key =
    b'b' ∷ b'o' ∷ b'x' ∷ b'.' ∷ b's' ∷ b'h' ∷ b'u' ∷ b't' ∷ b'd' ∷ b'o' ∷ b'w' ∷ b'n' ∷ []

-- `data.first() == Some(&0xc3)`
unfoldable pub is_true : List ℕ → Bool
is_true [] = false
is_true (b ∷ bs) = b == 0xc3

-- `fetch_max`
abbrev pub seen : ℕ → Option ℕ → ℕ
seen version none = version
seen version (some v) = max version v

abbrev pub publish : List ℕ → List Subscriber → List Effect
publish data_bytes l = map (λ s. Effect.published s.sender data_bytes) l

module _ (rmp : Rmp) where
  unfoldable pub watch_packet : ℕ → List ℕ → List ℕ
  watch_packet ty key =
      Request.finish rmp (Request.str rmp (Request.new rmp ty 0 none) Key.event_key key)

  -- `Task::handle_command`: the new state, what it did, and whether the link stands. `link_up` says whether a write to the socket succeeds. `Close` is handled
  -- by the caller, and `unreachable!` here.
  unfoldable pub handle_command : Bool → Task → Command → Task × List Effect × Bool
  handle_command link_up t (Command.request sync packet reply pushes) =
      if t.shutting_down then (t, Effect.refused reply Error.shutting_down ∷ [], true) else (
        record t {
          pending =
              (sync, record { reply = reply; pushes = pushes }) ∷ remove_pending sync t.pending;
        },
        overwritten (get_pending sync t.pending) ++ (Effect.sent packet ∷ []),
        link_up,
      )
  handle_command link_up t (Command.fire packet) = (t, Effect.sent packet ∷ [], link_up)
  handle_command link_up t (Command.watch id key sender) = elim (get_watchers key t.watchers) [
    | none ↦ (
      record t {
        watchers = put_watchers key (record { id = id; sender = sender } ∷ []) t.watchers;
      },
      Effect.sent (watch_packet Types.watch key) ∷ [],
      link_up,
    )
    | some l ↦ (
      record t {
        watchers = put_watchers key (l ++ (record { id = id; sender = sender } ∷ [])) t.watchers;
      },
      [],
      true,
    )
  ]
  handle_command link_up t (Command.unwatch id key) = elim (get_watchers key t.watchers) [
    | none ↦ (t, [], true)
    | some l ↦ elim (retain_others id l) [
      | [] ↦ (
        record t { watchers = remove_watchers key t.watchers },
        Effect.sent (watch_packet Types.unwatch key) ∷ [],
        link_up,
      )
      | s ∷ rest ↦ (record t { watchers = put_watchers key (s ∷ rest) t.watchers }, [], true)
    ]
  ]
  handle_command link_up t Command.close = (t, [], true)

  -- The three arms of `match response.kind`.
  unfoldable pub route_reply : Task → Incoming → Task × List Effect
  route_reply t r = elim (get_pending r.sync t.pending) [
    | none ↦ (t, [])
    | some p ↦
        (record t { pending = remove_pending r.sync t.pending }, Effect.replied p.reply r ∷ [])
  ]

  unfoldable pub route_chunk : Task → Incoming → Task × List Effect
  route_chunk t r = elim (get_pending r.sync t.pending) [
    | none ↦ (t, [])
    | some p ↦ elim (p.pushes) [ none ↦ (t, []) | some q ↦ (t, Effect.pushed q r.data_bytes ∷ []) ]
  ]

  unfoldable pub route_event : (ℕ → Bool) → Task → List ℕ → List ℕ → Task × List Effect
  route_event alive t key data_bytes =
      let down = eq_bytes key shutdown_key && is_true data_bytes in
      let t' = record t { shutting_down = t.shutting_down || down } in
      elim (get_watchers key t.watchers) [
        | none ↦ (t', [])
        | some l ↦ (
          record t' { watchers = put_watchers key (retain_alive alive l) t.watchers },
          publish data_bytes (retain_alive alive l)
              ++ (Effect.sent (watch_packet Types.watch key) ∷ []),
        )
      ]

  unfoldable pub route : (ℕ → Bool) → Task → Incoming → Kind → Task × List Effect
  unfolding route_reply route_chunk route_event
  route alive t r Kind.reply = route_reply t r
  route alive t r Kind.failure = route_reply t r
  route alive t r Kind.chunk = route_chunk t r
  route alive t r Kind.event = elim (r.event) [
    | none ↦ (t, [])
    | some (key, data_bytes) ↦ route_event alive t key data_bytes
  ]

  -- `Task::handle_response`. The acknowledgement's failure is ignored by the code.
  unfoldable pub handle_response : (ℕ → Bool) → Task → Incoming → Task × List Effect
  handle_response alive t r =
      route alive (record t { schema_version = seen t.schema_version r.schema_version }) r r.kind

-- `fail_pending`, with the error `Closed` that both callers pass; `fail_link` is this and a log line.
unfoldable pub fail_pending : Task → Task × List Effect
fail_pending t =
    (record t { pending = [] }, map (λ e. Effect.refused (e.1).reply Error.closed) t.pending)

-- The answer to a command that is not kept: only a request has one.
unfoldable pub refuse_closed : Command → List Effect
refuse_closed (Command.request sync packet reply pushes) = Effect.refused reply Error.closed ∷ []
refuse_closed c = []

unfoldable pub refuse_all : List Command → List Effect
refuse_all [] = []
refuse_all (c ∷ cs) = refuse_closed c ++ refuse_all cs

unfoldable pub fail_deferred : Task → Task × List Effect
fail_deferred t = (record t { deferred = [] }, refuse_all t.deferred)

abbrev pub max_deferred : ℕ
max_deferred = 4096

unfoldable pub defer : Task → Command → Task × List Effect
defer t c =
    if leb max_deferred (length t.deferred)
    then (t, refuse_closed c)
    else (record t { deferred = t.deferred ++ (c ∷ []) }, [])
