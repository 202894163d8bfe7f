-- ===== src/Connection/Limits.antt =====
-- What every turn of the task keeps, over `Task::run` and `Task::reconnect` of connection.rs: the bound
-- on deferred commands, and the refusal of requests once the server has announced its shutdown.
use tarant.Base.{
  ℕ, ◌≤◌, ◌≡◌, refl, sym, ◌∙◌, Bool, true, Option, none, some, List, [], ◌∷◌, length, arith, inl,
  inr, Bool-cases, Option-cases, length-append, ◌++◌,
}
use mathlib.Core.Path.{subst}
use tarant.Error.{Error}
use tarant.Rmp.{Rmp}
use tarant.Codec.Response.{Kind}
use tarant.Connection.{
  Incoming, Command, request, watch, unwatch, fire, close, Effect, Task, handle_command,
  route_reply, route_chunk, route_event, route, handle_response, fail_pending, fail_deferred,
  max_deferred, defer, shutdown_key, eq_bytes, is_true,
}
use tarant.Connection.Loop.{
  Reconnect, backoff, never, Phase, running, reconnecting, finished, Event, command, channel_closed,
  packet, link_lost, Wake, elapsed, woken, gone, Outcome, continues, closes, loses, drain, select,
  conclude, run_turn, attempt, reconnect_turn, Input, turn, retry, step, run,
}
use tarant.Connection.Ledger.{deferred-handle_command, after, drain_stands, drain_fails}

-- What a turn may not lose: a shutdown that was announced, and the bound on deferred commands.
unfoldable pub IsKept : Task → Task → Type 0
IsKept t t' =
    (t.shutting_down ≡ true → t'.shutting_down ≡ true)
    × (length t.deferred ≤ max_deferred → length t'.deferred ≤ max_deferred)

IsKept-trans : (t t' t'' : Task) → IsKept t t' → IsKept t' t'' → IsKept t t''
unfolding IsKept
IsKept-trans t t' t'' a b = (λ h. b.0 (a.0 h), λ h. b.1 (a.1 h))

IsKept-same :
    (t t' : Task) → t'.shutting_down ≡ t.shutting_down → t'.deferred ≡ t.deferred → IsKept t t'
unfolding IsKept
IsKept-same t t' s d = (λ h. s ∙ h, λ h. rw d h)

IsKept-cleared : (t t' : Task) → t'.shutting_down ≡ t.shutting_down → t'.deferred ≡ [] → IsKept t t'
unfolding IsKept
IsKept-cleared t t' s d = (λ h. s ∙ h, λ h. rw d (omega arith))

module _ (rmp : Rmp) where
  handle_command-IsKept :
      (up : Bool) (t : Task) (c : Command) → IsKept t (handle_command rmp up t c).0
  unfolding handle_command
  handle_command-IsKept up t (request s b q p) = IsKept-same t _ (ground arith) (ground arith)
  handle_command-IsKept up t (watch i k s) = IsKept-same t _ (ground arith) (ground arith)
  handle_command-IsKept up t (unwatch i k) = IsKept-same t _ (ground arith) (ground arith)
  handle_command-IsKept up t (fire p) = IsKept-same t _ refl refl
  handle_command-IsKept up t close = IsKept-same t _ refl refl

  route-IsKept :
      (alive : ℕ → Bool) (t : Task) (r : Incoming) (k : Kind) → IsKept t (route rmp alive t r k).0
  unfolding route route_reply route_chunk route_event IsKept
  route-IsKept alive t r Kind.reply = ground arith
  route-IsKept alive t r Kind.failure = ground arith
  route-IsKept alive t r Kind.chunk = ground arith
  route-IsKept alive t r Kind.event = elim (Option-cases r.event) [
    | inl e ↦ rw (e, route) (λ h. h, λ h. h)
    | inr ((key, bytes), e) ↦ rw (e, route) (ground arith)
  ]

  select-IsKept : (t : Task) (e : Event) → IsKept t (select rmp t e).0
  unfolding select handle_response
  select-IsKept t (command up close) = IsKept-same t _ refl refl
  select-IsKept t (command up (request s b q p)) = handle_command-IsKept up t (request s b q p)
  select-IsKept t (command up (watch i k s)) = handle_command-IsKept up t (watch i k s)
  select-IsKept t (command up (unwatch i k)) = handle_command-IsKept up t (unwatch i k)
  select-IsKept t (command up (fire p)) = handle_command-IsKept up t (fire p)
  select-IsKept t channel_closed = IsKept-same t _ refl refl
  select-IsKept t (packet alive r) =
      IsKept-trans t _ _ (IsKept-same t _ refl refl) (route-IsKept alive _ r r.kind)
  select-IsKept t link_lost = IsKept-same t _ refl refl

  conclude-IsKept :
      (policy : Reconnect) (t : Task) (o : Outcome) → IsKept t (conclude rmp policy t o).0
  unfolding conclude fail_pending fail_deferred
  conclude-IsKept policy t continues = IsKept-same t _ refl refl
  conclude-IsKept policy t closes = IsKept-cleared t _ refl refl
  conclude-IsKept (backoff lo hi) t loses = IsKept-same t _ refl refl
  conclude-IsKept never t loses = IsKept-cleared t _ refl refl

  IsKept-shorter :
      (t : Task) (c : Command) (cs : List Command)
      → IsKept (record t { deferred = c ∷ cs }) (record t { deferred = cs })
  unfolding IsKept
  IsKept-shorter t c cs = (λ h. h, λ h. omega arith)

  drain-IsKept :
      (up : ℕ → Bool) (t : Task) (cs : List Command)
      → IsKept (record t { deferred = cs }) (drain rmp up t cs).0
  drain-IsKept up t [] = unfold drain in IsKept-same _ _ refl refl
  drain-IsKept up t (c ∷ cs) =
      let here : Task = record t { deferred = cs } in
      let now : Task × List Effect × Bool = after rmp up t c cs in
      let queue : now.0.deferred ≡ cs = deferred-handle_command rmp (up (length cs)) here c in
      let first : IsKept (record t { deferred = c ∷ cs }) now.0 =
        IsKept-trans _ here now.0 (IsKept-shorter t c cs)
          (handle_command-IsKept (up (length cs)) here c) in
      elim (Bool-cases (now.2)) [
        | inl h ↦ rw (drain_stands rmp up t c cs h) (
            IsKept-trans _ now.0 _ first (
              IsKept-trans now.0 (record (now.0) { deferred = cs }) _
                (IsKept-same _ _ refl (sym queue)) (drain-IsKept up now.0 cs)))
        | inr h ↦
            rw (drain_fails rmp up t c cs h)
              (IsKept-trans _ now.0 _ first (unfold fail_pending in IsKept-same _ _ refl refl))
      ]

  run_turn-IsKept :
      (policy : Reconnect) (up : ℕ → Bool) (t : Task) (e : Event)
      → IsKept t (run_turn rmp policy up t e).0
  unfolding run_turn
  run_turn-IsKept policy up t e =
      let d : Task × List Effect = drain rmp up t t.deferred in
      let s : Task × List Effect × Outcome = select rmp d.0 e in
      IsKept-trans t d.0 _ (drain-IsKept up t t.deferred)
        (IsKept-trans d.0 s.0 _ (select-IsKept d.0 e) (conclude-IsKept policy s.0 s.2))

  attempt-IsKept :
      (delay hi : ℕ) (h : Option ℕ) (t : Task) (done : List Effect)
      → IsKept t (attempt rmp delay hi h t done).0
  unfolding attempt
  attempt-IsKept delay hi none t done = IsKept-same t t refl refl
  attempt-IsKept delay hi (some n) t done = IsKept-same t t refl refl

  defer-IsKept : (t : Task) (c : Command) → IsKept t (defer t c).0
  unfolding defer IsKept
  defer-IsKept t c = ground (arith, length-append t.deferred (c ∷ []))

  deferring :
      (delay hi : ℕ) (h : Option ℕ) (t : Task) (c : Command)
      → IsKept t (attempt rmp delay hi h (defer t c).0 (defer t c).1).0
  deferring delay hi h t c =
      IsKept-trans t (defer t c).0 _ (defer-IsKept t c)
        (attempt-IsKept delay hi h (defer t c).0 (defer t c).1)

  reconnect_turn-IsKept :
      (delay hi : ℕ) (w : Wake) (h : Option ℕ) (t : Task)
      → IsKept t (reconnect_turn rmp delay hi w h t).0
  unfolding reconnect_turn fail_deferred
  reconnect_turn-IsKept delay hi elapsed h t = attempt-IsKept delay hi h t []
  reconnect_turn-IsKept delay hi gone h t = IsKept-cleared t _ refl refl
  reconnect_turn-IsKept delay hi (woken close) h t = IsKept-cleared t _ refl refl
  reconnect_turn-IsKept delay hi (woken (request s b r p)) h t =
      deferring delay hi h t (request s b r p)
  reconnect_turn-IsKept delay hi (woken (watch i k s)) h t = deferring delay hi h t (watch i k s)
  reconnect_turn-IsKept delay hi (woken (unwatch i k)) h t = deferring delay hi h t (unwatch i k)
  reconnect_turn-IsKept delay hi (woken (fire p)) h t = deferring delay hi h t (fire p)

  step-IsKept :
      (policy : Reconnect) (s : Phase × Task) (i : Input) → IsKept s.1 (step rmp policy s i).0.1
  unfolding step
  step-IsKept policy (running, t) (turn up e) = run_turn-IsKept policy up t e
  step-IsKept policy (running, t) (retry w h) = IsKept-same t t refl refl
  step-IsKept (backoff lo hi) (reconnecting d, t) (retry w h) = reconnect_turn-IsKept d hi w h t
  step-IsKept (backoff lo hi) (reconnecting d, t) (turn up e) = IsKept-same t t refl refl
  step-IsKept never (reconnecting d, t) i = IsKept-same t t refl refl
  step-IsKept policy (finished, t) i = IsKept-same t t refl refl

  run-IsKept :
      (policy : Reconnect) (s : Phase × Task) (is : List Input)
      → IsKept s.1 (run rmp policy s is).0.1
  unfolding run
  run-IsKept policy s [] = IsKept-same s.1 s.1 refl refl
  run-IsKept policy s (i ∷ is) =
      IsKept-trans s.1 _ _ (step-IsKept policy s i) (run-IsKept policy (step rmp policy s i).0 is)

  -- No run lets the queue of deferred commands grow beyond 4096 entries.
  pub deferred-bound :
      (policy : Reconnect) (s : Phase × Task) (is : List Input)
      → length s.1.deferred ≤ max_deferred
      → length (run rmp policy s is).0.1.deferred ≤ max_deferred
  unfolding IsKept
  deferred-bound policy s is h = (run-IsKept policy s is).1 h

  announced :
      (alive : ℕ → Bool) (t : Task) (r : Incoming) (rest : List ℕ)
      → r.kind ≡ Kind.event
      → r.event ≡ some (shutdown_key, 0xc3 ∷ rest)
      → (handle_response rmp alive t r).0.shutting_down ≡ true
  unfolding handle_response route route_event
  announced alive t r rest k e =
      rw (k, e, route, route_event) (unfold eq_bytes is_true in ground arith)

  -- After an event has announced the shutdown of the server, and after any run that leaves the task in its
  -- loop, reconnections included: a turn that takes a request handles what was deferred, refuses the
  -- request with `ShuttingDown`, and goes on with nothing of the request sent or kept.
  pub shutdown-refuses :
      (alive : ℕ → Bool) (t later : Task) (r : Incoming) (rest : List ℕ) (policy : Reconnect)
      (is : List Input) (link_up : ℕ → Bool) (up : Bool) (sync : ℕ) (bytes : List ℕ) (reply : ℕ)
      (pushes : Option ℕ)
      → r.kind ≡ Kind.event
      → r.event ≡ some (shutdown_key, 0xc3 ∷ rest)
      → (run rmp policy (running, (handle_response rmp alive t r).0) is).0 ≡ (running, later)
      → (let drained = drain rmp link_up later later.deferred in
          step rmp policy
            (running, later)
            (turn link_up (command up (request sync bytes reply pushes)))
          ≡ ((running, drained.0), drained.1 ++ (Effect.refused reply Error.shutting_down ∷ [])))
  unfolding step run_turn select conclude handle_command IsKept
  shutdown-refuses alive t later r rest policy is link_up up sync bytes reply pushes k e reached =
      let down : later.shutting_down ≡ true =
        subst (λ (s : Phase × Task). s.1.shutting_down ≡ true) reached
          ((run-IsKept policy (running, (handle_response rmp alive t r).0) is).0
            (announced alive t r rest k e)) in
      rw ((drain-IsKept link_up later later.deferred).0 down) refl
