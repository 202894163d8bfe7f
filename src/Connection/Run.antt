-- ===== src/Connection/Run.antt =====
-- The account of replies over a whole run of the task, `Task::run` of connection.rs from the first
-- turn to its return.
use tarant.Base.{ℕ, ◌+◌, ◌≡◌, refl, sym, Option, none, some, List, [], ◌∷◌, arith}
use tarant.Rmp.{Rmp}
use tarant.Connection.{
  Command, request, watch, unwatch, fire, close, Effect, Task, fail_pending, fail_deferred, defer,
}
use tarant.Connection.Loop.{
  Reconnect, backoff, never, Phase, running, reconnecting, finished, Wake, elapsed, woken, gone,
  Outcome, continues, closes, loses, conclude, run_turn, attempt, reconnect_turn, Input, turn,
  retry, step, run,
}
use tarant.Connection.Account.{in_pending, in_commands, settled, held, settled-append}
use tarant.Connection.Ledger.{in_event, in_wake, run_turn-account, reconnect_turn-account}

-- What an input hands to the task: a command is taken only in the phase that listens for it.
unfoldable pub handed : ℕ → Reconnect → Phase → Input → ℕ
handed q policy running (turn up e) = in_event q e
handed q (backoff lo hi) (reconnecting delay) (retry w h) = in_wake q w
handed q policy phase i = 0

-- Over a run.
unfoldable pub handed_all : Rmp → ℕ → Reconnect → Phase × Task → List Input → ℕ
unfolding handed
handed_all rmp q policy s [] = 0
handed_all rmp q policy s (i ∷ is) =
    handed q policy s.0 i + handed_all rmp q policy (step rmp policy s i).0 is

module _ (rmp : Rmp) (q : ℕ) where
  step-account :
      (policy : Reconnect) (s : Phase × Task) (i : Input)
      → held q s.1 + handed q policy s.0 i
        ≡ held q (step rmp policy s i).0.1 + settled q (step rmp policy s i).1
  unfolding step handed
  step-account policy (running, t) (turn up e) = run_turn-account rmp q policy up t e
  step-account policy (running, t) (retry w h) = unfold settled in omega arith
  step-account (backoff lo hi) (reconnecting d, t) (retry w h) =
      reconnect_turn-account rmp q d hi w h t
  step-account (backoff lo hi) (reconnecting d, t) (turn up e) = unfold settled in omega arith
  step-account never (reconnecting d, t) i = unfold settled in omega arith
  step-account policy (finished, t) i = unfold settled in omega arith

  run-account :
      (policy : Reconnect) (s : Phase × Task) (is : List Input)
      → held q s.1 + handed_all rmp q policy s is
        ≡ held q (run rmp policy s is).0.1 + settled q (run rmp policy s is).1
  unfolding run handed_all
  run-account policy s [] = unfold settled in omega arith
  run-account policy s (i ∷ is) =
      let n : (Phase × Task) × List Effect = step rmp policy s i in
      omega (
        arith,
        step-account policy s i,
        run-account policy n.0 is,
        settled-append q n.1 (run rmp policy n.0 is).1,
      )

-- A task without a link holds no request in flight, and a finished one nothing.
unfoldable pub IsQuiet : Phase → Task → Type 0
IsQuiet running t = Unit
IsQuiet (reconnecting delay) t = t.pending ≡ []
IsQuiet finished t = (t.pending ≡ []) × (t.deferred ≡ [])

module _ (rmp : Rmp) where
  conclude-IsQuiet :
      (policy : Reconnect) (t : Task) (o : Outcome)
      → IsQuiet (conclude rmp policy t o).2 (conclude rmp policy t o).0
  unfolding conclude IsQuiet fail_pending fail_deferred
  conclude-IsQuiet policy t continues = record {}
  conclude-IsQuiet policy t closes = (refl, refl)
  conclude-IsQuiet (backoff lo hi) t loses = refl
  conclude-IsQuiet never t loses = (refl, refl)

  attempt-IsQuiet :
      (delay hi : ℕ) (h : Option ℕ) (t : Task) (done : List Effect)
      → t.pending ≡ []
      → IsQuiet (attempt rmp delay hi h t done).2 (attempt rmp delay hi h t done).0
  unfolding attempt IsQuiet
  attempt-IsQuiet delay hi none t done h = h
  attempt-IsQuiet delay hi (some n) t done h = record {}

  pending-defer : (t : Task) (c : Command) → (defer t c).0.pending ≡ t.pending
  unfolding defer
  pending-defer t c = ground arith

  reconnect_turn-IsQuiet :
      (delay hi : ℕ) (w : Wake) (h : Option ℕ) (t : Task)
      → t.pending ≡ []
      → IsQuiet (reconnect_turn rmp delay hi w h t).2 (reconnect_turn rmp delay hi w h t).0
  unfolding reconnect_turn
  reconnect_turn-IsQuiet delay hi elapsed h t e = attempt-IsQuiet delay hi h t [] e
  reconnect_turn-IsQuiet delay hi gone h t e = unfold IsQuiet fail_deferred in (e, refl)
  reconnect_turn-IsQuiet delay hi (woken close) h t e = unfold IsQuiet fail_deferred in (e, refl)
  reconnect_turn-IsQuiet delay hi (woken (request s b r p)) h t e =
      attempt-IsQuiet delay hi h (defer t (request s b r p)).0 (defer t (request s b r p)).1
        (rw pending-defer e)
  reconnect_turn-IsQuiet delay hi (woken (watch i k s)) h t e =
      attempt-IsQuiet delay hi h (defer t (watch i k s)).0 (defer t (watch i k s)).1
        (rw pending-defer e)
  reconnect_turn-IsQuiet delay hi (woken (unwatch i k)) h t e =
      attempt-IsQuiet delay hi h (defer t (unwatch i k)).0 (defer t (unwatch i k)).1
        (rw pending-defer e)
  reconnect_turn-IsQuiet delay hi (woken (fire p)) h t e =
      attempt-IsQuiet delay hi h (defer t (fire p)).0 (defer t (fire p)).1 (rw pending-defer e)

  step-IsQuiet :
      (policy : Reconnect) (s : Phase × Task) (i : Input)
      → IsQuiet s.0 s.1
      → IsQuiet (step rmp policy s i).0.0 (step rmp policy s i).0.1
  unfolding step
  step-IsQuiet policy (running, t) (turn up e) w = unfold run_turn in conclude-IsQuiet policy _ _
  step-IsQuiet policy (running, t) (retry w' h) w = w
  step-IsQuiet (backoff lo hi) (reconnecting d, t) (retry w' h) w =
      unfold IsQuiet in reconnect_turn-IsQuiet d hi w' h t w
  step-IsQuiet (backoff lo hi) (reconnecting d, t) (turn up e) w = w
  step-IsQuiet never (reconnecting d, t) i w = w
  step-IsQuiet policy (finished, t) i w = w

  run-IsQuiet :
      (policy : Reconnect) (s : Phase × Task) (is : List Input)
      → IsQuiet s.0 s.1
      → IsQuiet (run rmp policy s is).0.0 (run rmp policy s is).0.1
  unfolding run
  run-IsQuiet policy s [] w = w
  run-IsQuiet policy s (i ∷ is) w =
      run-IsQuiet policy (step rmp policy s i).0 is (step-IsQuiet policy s i w)

-- What a task that holds nothing holds.
held_nothing : (q : ℕ) (t : Task) → t.pending ≡ [] → t.deferred ≡ [] → held q t ≡ 0
unfolding held
held_nothing q t p d = rw (p, d, in_pending, in_commands) refl

module _ (rmp : Rmp) (policy : Reconnect) (t : Task) (is : List Input) where
  -- From a task that holds no request, at any point of a run: what the task was handed of a reply is
  -- what it settled of it and what it still holds.
  pub run-accounts :
      t.pending ≡ []
      → t.deferred ≡ []
      → (q : ℕ)
      → handed_all rmp q policy (running, t) is
        ≡ held q (run rmp policy (running, t) is).0.1 + settled q (run rmp policy (running, t) is).1
  run-accounts p d q = omega (arith, run-account rmp q policy (running, t) is, held_nothing q t p d)

  -- From a task that holds no request: once a run has finished, every reply that was handed in has
  -- been settled as often as it was handed in, by an answer, a refusal or a drop.
  pub finished-settles :
      t.pending ≡ []
      → t.deferred ≡ []
      → (run rmp policy (running, t) is).0.0 ≡ finished
      → (q : ℕ)
      → settled q (run rmp policy (running, t) is).1 ≡ handed_all rmp q policy (running, t) is
  finished-settles p d done q =
      let e : (Phase × Task) × List Effect = run rmp policy (running, t) is in
      let start : IsQuiet running t = unfold IsQuiet in record {} in
      let quiet : IsQuiet finished e.0.1 =
        rw (sym done) (run-IsQuiet rmp policy (running, t) is start) in
      let nothing : held q e.0.1 ≡ 0 = unfold IsQuiet in held_nothing q e.0.1 quiet.0 quiet.1 in
      omega (arith, run-accounts p d q, nothing)
