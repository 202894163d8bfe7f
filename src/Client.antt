-- ===== src/Client.antt =====
-- `Handle` of connection.rs: the user's side of a connection. A handle draws numbers from counters
-- that it shares with its clones, and puts commands into the channel of the task. How the outside
-- ends a request is an argument, by the request's sync.

pub mod Calls
pub mod Select
pub mod Space
pub mod Stream
pub mod Builders
pub mod Wire
pub mod Order
pub mod Script
pub mod Rising
pub mod Served
pub mod Transactions
use tarant.Base.{
  ℕ, ◌+◌, ◌%◌, ◌^◌, ◌==◌, if◌then◌else◌, ◌||◌, Bool, true, false, Option, none, some, List, [], ◌∷◌,
  ◌++◌, ok, err, panic, stuck,
}
use tarant.Error.{Error, Outcome}
use tarant.Rmp.{Rmp}
use tarant.Iproto.Code.{Feature, code}
use tarant.Codec.Response.{Response, Kind, into_error}
use tarant.Connection.{Command}

-- `Handle` with what it shares, as one caller sees it, and the commands that it put into the channel.
pub record Handle : Type 0 where
  pub next_sync : ℕ
  pub next_stream_id : ℕ
  pub next_watch_id : ℕ
  pub features : List Feature
  pub outbox : List Command

-- `Handle::connect`, once the handshake has told the features.
unfoldable pub connected : List Feature → Handle
connected features = record {
  next_sync = 1;
  next_stream_id = 1;
  next_watch_id = 1;
  features = features;
  outbox = [];
}

-- How a request ends: the flag `closed` is set before it is sent, the task is gone, the timeout
-- passes, the reply's sender is dropped, or the task sends an error or a response.
pub data Fate (V : Type 0) : Type 0 where
  shut no_task expired dropped : Fate V
  refused : Error → Fate V
  answered : Response V → Fate V

-- What a handle is used with: the writers of `rmp`, the values of `rmpv`, the fate of the request
-- of each sync, and whether the channel takes a command that cannot wait or the task is there for
-- one that can.
pub record Outside : Type 1 where
  pub rmp : Rmp
  pub Value : Type 0
  pub fate : ℕ → Fate Value
  pub room : Handle → Bool
  pub task_runs : Handle → Bool

abbrev pub M : Type 0 → Type 0
M A = Handle → Outcome A × Handle

abbrev pub proceed : {A B : Type 0} → Outcome A → (A → M B) → M B
proceed (ok a) f h = f a h
proceed (err e) f h = (err e, h)
proceed panic f h = (panic, h)
proceed stuck f h = (stuck, h)

infixl 5 ◌>>=◌ ◌>>◌
abbrev pub ◌>>=◌ : {A B : Type 0} → M A → (A → M B) → M B
◌>>=◌ m f h = proceed (m h).0 f (m h).1

abbrev pub ◌>>◌ : {B : Type 0} → M (Unit {0}) → M B → M B
m >> k = m >>= λ u. k

abbrev pub lift : {A : Type 0} → Outcome A → M A
lift r h = (r, h)

abbrev pub return : {A : Type 0} → A → M A
return a h = (ok a, h)

-- `fetch_add` on an `AtomicU64` wraps.
abbrev pub bump : ℕ → ℕ
bump n = (n + 1) % 2 ^ 64

unfoldable pub draw_sync : M ℕ
draw_sync h = (ok h.next_sync, record h { next_sync = bump h.next_sync })

unfoldable pub draw_stream_id : M ℕ
draw_stream_id h = (ok h.next_stream_id, record h { next_stream_id = bump h.next_stream_id })

unfoldable pub draw_watch_id : M ℕ
draw_watch_id h = (ok h.next_watch_id, record h { next_watch_id = bump h.next_watch_id })

unfoldable pub has_feature : Feature → List Feature → Bool
has_feature f [] = false
has_feature f (g ∷ rest) = (code f == code g) || has_feature f rest

unfoldable pub supports : Feature → M Bool
unfolding has_feature
supports f h = (ok (has_feature f h.features), h)

abbrev put : Handle → Command → Handle
put h c = record h { outbox = h.outbox ++ (c ∷ []) }

-- The end of `request_inner` and of `PushStream::finish`: a failed response is an error.
unfoldable pub settle : {V : Type 0} → Response V → Outcome (Response V)
settle r = elim (r.kind) [ Kind.failure ↦ err (Error.server (into_error r).code) | _ ↦ ok r ]

-- What a caller sees of a reply that it waits for.
unfoldable pub await_reply : {V : Type 0} → Fate V → Outcome (Response V)
unfolding settle
await_reply shut = err Error.closed
await_reply no_task = err Error.closed
await_reply expired = err Error.timeout
await_reply dropped = err Error.closed
await_reply (refused e) = err e
await_reply (answered r) = settle r

-- The command goes into the channel unless the flag is set or the task is gone; then the reply is
-- waited for, or not yet.
unfoldable pub meet : {V : Type 0} → Fate V → Command → M (Response V)
unfolding await_reply
meet shut c h = (err Error.closed, h)
meet no_task c h = (err Error.closed, h)
meet fate c h = (await_reply fate, put h c)

unfoldable pub begin_pushes : {V : Type 0} → Fate V → Command → M (Unit {0})
begin_pushes shut c h = (err Error.closed, h)
begin_pushes no_task c h = (err Error.closed, h)
begin_pushes fate c h = (ok tt, put h c)

module _ (w : Outside) where
  -- `request_inner`; a reply's channel is known by the sync of its request, drawn for it alone.
  unfoldable pub request_inner : ℕ → List ℕ → Option ℕ → M (Response w.Value)
  unfolding meet
  request_inner sync packet pushes = meet (w.fate sync) (Command.request sync packet sync pushes)

  unfoldable pub request : ℕ → List ℕ → M (Response w.Value)
  request sync packet = request_inner sync packet none

  -- Drawing a sync, building the packet with it and sending it: the three lines that every call of
  -- the client begins with. A packet that cannot be built leaves its sync unused.
  unfoldable pub submit : (ℕ → Outcome (List ℕ)) → M (Response w.Value)
  unfolding draw_sync request
  submit build = do sync ← draw_sync; packet ← lift (build sync); request sync packet

  -- `try_send`, whose failure is ignored.
  unfoldable pub fire : List ℕ → M (Unit {0})
  fire packet h = (ok tt, if w.room h then put h (Command.fire packet) else h)

  unfoldable pub enlist : List ℕ → ℕ → M ℕ
  enlist key id h =
      if w.task_runs h then (ok id, put h (Command.watch id key id)) else (err Error.closed, h)

  unfoldable pub watch : List ℕ → M ℕ
  unfolding draw_watch_id enlist
  watch key = draw_watch_id >>= enlist key

  unfoldable pub unwatch : ℕ → List ℕ → M (Unit {0})
  unwatch id key h = (ok tt, if w.room h then put h (Command.unwatch id key) else h)

  -- `let _ = self.tx.send(Command::Close)`
  unfoldable pub close : M (Unit {0})
  close h = (ok tt, if w.task_runs h then put h Command.close else h)

  -- `request_with_pushes`: the packet goes out at once, and the reply is waited for later.
  unfoldable pub request_with_pushes : ℕ → List ℕ → M (Unit {0})
  unfolding begin_pushes
  request_with_pushes sync packet =
      begin_pushes (w.fate sync) (Command.request sync packet sync (some sync))

  -- `PushStream::finish` of the request of a sync.
  unfoldable pub finish_pushes : ℕ → M (Response w.Value)
  unfolding await_reply
  finish_pushes sync = lift (await_reply (w.fate sync))
