-- ===== src/Watcher.antt =====
-- `Watcher` of watcher.rs: a subscription to a key. A receiver holds the latest value, if there is
-- one, and tells whether a value has come since it was last waited for; the sender may be gone.
use tarant.Base.{ℕ, Option, none, some, List, [], ◌∷◌, ok, err, ok_or, if◌then◌else◌}
use tarant.Error.{Error, Outcome}
use tarant.Iproto.Code.{Feature}
use tarant.Client.{M, ◌>>=◌, lift, return, Outside, supports, watch, unwatch}

pub record Watcher : Type 0 where
  pub id : ℕ
  pub key : List ℕ

-- What a receiver's `changed` comes to: a first value, or a sender that is gone without one.
pub data Arrival : Type 0 where
  value : List ℕ → Arrival
  sender_gone : Arrival

unfoldable pub await_first : Option (List ℕ) → Arrival → Outcome (List ℕ)
await_first (some v) a = ok v
await_first none (value v) = ok v
await_first none sender_gone = err Error.closed

-- `latest.as_deref().unwrap_or(&NIL)`, decoded.
unfoldable pub get : {T : Type 0} → (List ℕ → Option T) → Option (List ℕ) → Outcome T
get decode latest =
    ok_or (decode (elim latest [ none ↦ 0xc0 ∷ [] | some v ↦ v ])) Error.decode_failed

module _ (w : Outside) where
  -- `Client::watch` and `Watcher::subscribe`. What is there at once, and what comes later, depends on
  -- the id of the subscription.
  unfoldable pub subscribe : (ℕ → Option (List ℕ)) → (ℕ → Arrival) → List ℕ → M (Watcher × List ℕ)
  unfolding supports watch await_first
  subscribe held arrival key = do
    known ← supports Feature.watchers
    id ← (if known then watch w key else lift (err Error.unsupported))
    v ← lift (await_first (held id) (arrival id))
    return (record { id = id; key = key }, v)

  -- `Drop`
  unfoldable pub drop_watcher : Watcher → M (Unit {0})
  unfolding unwatch
  drop_watcher x = unwatch w x.id x.key
