-- ===== src/Connection/Ledger.antt =====
-- The account of replies over the turns of the two loops, and over a whole run.
use tarant.Base.{
  ℕ, zero, suc, ◌+◌, ◌≡◌, refl, ap, ◌∙◌, Bool, true, false, Option, none, some, List, [], ◌∷◌, ◌++◌,
  length, arith, inl, inr, Bool-cases,
}
use tarant.Rmp.{Rmp}
use tarant.Connection.{
  Command, request, watch, unwatch, fire, close, Subscriber, Effect, Task, handle_command,
  fail_pending, fail_deferred, defer,
}
use tarant.Connection.Loop.{
  Reconnect, backoff, never, Phase, Event, command, channel_closed, packet, link_lost, Wake,
  elapsed, woken, gone, Outcome, continues, closes, loses, drop_deferred, drain, select, conclude,
  run_turn, resubscribe, attempt, reconnect_turn,
}
use tarant.Connection.Account.{
  in_pending, in_command, in_commands, settled, held, settled-append, handle_command-account,
  handle_response-account, fail_pending-account, fail_deferred-account, defer-account,
}

-- What an event, a wake-up, or an input hands over.
abbrev pub in_event : ℕ → Event → ℕ
in_event q (command up c) = in_command q c
in_event q e = 0

abbrev pub in_wake : ℕ → Wake → ℕ
in_wake q (woken c) = in_command q c
in_wake q w = 0

drop_deferred-account :
    (q : ℕ) (cs : List Command) → settled q (drop_deferred cs) ≡ in_commands q cs
unfolding drop_deferred settled in_commands
drop_deferred-account q [] = refl
drop_deferred-account q (request s b r p ∷ cs) = omega (arith, drop_deferred-account q cs)
drop_deferred-account q (watch i k s ∷ cs) = omega (arith, drop_deferred-account q cs)
drop_deferred-account q (unwatch i k ∷ cs) = omega (arith, drop_deferred-account q cs)
drop_deferred-account q (fire p ∷ cs) = omega (arith, drop_deferred-account q cs)
drop_deferred-account q (close ∷ cs) = omega (arith, drop_deferred-account q cs)

module _ (rmp : Rmp) where
  -- Commands do not touch the queue of deferred ones.
  pub deferred-handle_command :
      (up : Bool) (t : Task) (c : Command) → (handle_command rmp up t c).0.deferred ≡ t.deferred
  unfolding handle_command
  deferred-handle_command up t (request s b r p) = ground arith
  deferred-handle_command up t (watch i k s) = ground arith
  deferred-handle_command up t (unwatch i k) = ground arith
  deferred-handle_command up t (fire p) = refl
  deferred-handle_command up t close = refl

  -- One deferred command, whether its write succeeds or fails.
  module _ (up : ℕ → Bool) (t : Task) (c : Command) (cs : List Command) where
    abbrev pub after : Task × List Effect × Bool
    after = handle_command rmp (up (length cs)) (record t { deferred = cs }) c

    pub drain_stands :
        after.2 ≡ true
        → drain rmp up t (c ∷ cs)
          ≡ ((drain rmp up after.0 cs).0, after.1 ++ (drain rmp up after.0 cs).1)
    unfolding drain
    drain_stands h = rw h

    pub drain_fails :
        after.2 ≡ false
        → drain rmp up t (c ∷ cs) ≡ ((fail_pending after.0).0, after.1 ++ (fail_pending after.0).1)
    unfolding drain
    drain_fails h = rw h

module _ (rmp : Rmp) (q : ℕ) where
  -- The deferred commands of the state are those still to be drained.
  drain-account :
      (up : ℕ → Bool) (t : Task) (cs : List Command)
      → in_pending q t.pending + in_commands q cs
        ≡ held q (drain rmp up t cs).0 + settled q (drain rmp up t cs).1
  unfolding held in_commands
  drain-account up t [] = unfold drain settled in omega arith
  drain-account up t (c ∷ cs) =
      let here : Task = record t { deferred = cs } in
      let now : Task × List Effect × Bool = after rmp up t c cs in
      let first : held q here + in_command q c ≡ held q now.0 + settled q now.1 =
        handle_command-account rmp q (up (length cs)) here c in
      let queue : in_commands q now.0.deferred ≡ in_commands q cs =
        ap (in_commands q) (deferred-handle_command rmp (up (length cs)) here c) in
      let rest : in_pending q now.0.pending + in_commands q cs
          ≡ held q (drain rmp up now.0 cs).0 + settled q (drain rmp up now.0 cs).1 =
        drain-account up now.0 cs in
      elim (Bool-cases (now.2)) [
        | inl h ↦
            rw (drain_stands rmp up t c cs h)
              (omega (arith, rest, first, queue, settled-append q now.1 (drain rmp up now.0 cs).1))
        | inr h ↦ rw (drain_fails rmp up t c cs h) (
            omega (
              arith,
              first,
              fail_pending-account q now.0,
              settled-append q now.1 (fail_pending now.0).1,
            ))
      ]

  select-account :
      (t : Task) (e : Event)
      → held q t + in_event q e ≡ held q (select rmp t e).0 + settled q (select rmp t e).1
  unfolding select held in_command
  select-account t (command up close) = unfold settled in omega arith
  select-account t (command up (request s b r p)) =
      handle_command-account rmp q up t (request s b r p)
  select-account t (command up (watch i k s)) = handle_command-account rmp q up t (watch i k s)
  select-account t (command up (unwatch i k)) = handle_command-account rmp q up t (unwatch i k)
  select-account t (command up (fire p)) = handle_command-account rmp q up t (fire p)
  select-account t channel_closed = unfold settled in omega arith
  select-account t (packet alive r) = omega (arith, handle_response-account rmp q alive t r)
  select-account t link_lost = unfold settled in omega arith

  conclude-account :
      (policy : Reconnect) (t : Task) (o : Outcome)
      → held q t ≡ held q (conclude rmp policy t o).0 + settled q (conclude rmp policy t o).1
  conclude-account policy t continues = unfold conclude settled in omega arith
  conclude-account policy t closes =
      let shut : Task = record t { closed = true } in
      let queue : settled q (drop_deferred t.deferred) ≡ in_commands q t.deferred =
        drop_deferred-account q t.deferred in
      unfold conclude held fail_pending in_commands in
      omega (
        arith,
        queue,
        fail_pending-account q shut,
        settled-append q (fail_pending shut).1 (drop_deferred t.deferred),
      )
  conclude-account (backoff lo hi) t loses = unfold conclude in fail_pending-account q t
  conclude-account never t loses =
      let lost : Task × List Effect = fail_pending t in
      let shut : Task = record (lost.0) { closed = true } in
      let same : held q shut ≡ held q lost.0 = unfold held in refl in
      unfold conclude in
      omega (
        arith,
        same,
        fail_pending-account q t,
        fail_deferred-account q shut,
        settled-append q lost.1 (fail_deferred shut).1,
      )

  pub run_turn-account :
      (policy : Reconnect) (up : ℕ → Bool) (t : Task) (e : Event)
      → held q t + in_event q e
        ≡ held q (run_turn rmp policy up t e).0 + settled q (run_turn rmp policy up t e).1
  unfolding run_turn
  run_turn-account policy up t e =
      let d : Task × List Effect = drain rmp up t t.deferred in
      let s : Task × List Effect × Outcome = select rmp d.0 e in
      let c : Task × List Effect × Phase = conclude rmp policy s.0 s.2 in
      let all : held q t ≡ in_pending q t.pending + in_commands q t.deferred =
        unfold held in refl in
      omega (
        arith,
        all,
        drain-account up t t.deferred,
        select-account d.0 e,
        conclude-account policy s.0 s.2,
        settled-append q d.1 (s.1 ++ c.1),
        settled-append q s.1 c.1,
      )

  settled-resubscribe :
      (n : ℕ) (l : List (List ℕ × List Subscriber)) → settled q (resubscribe rmp n l) ≡ 0
  unfolding settled resubscribe
  settled-resubscribe n [] = refl
  settled-resubscribe zero ((key, s) ∷ rest) = omega arith
  settled-resubscribe (suc n) ((key, s) ∷ rest) = omega (arith, settled-resubscribe n rest)

  attempt-account :
      (delay hi : ℕ) (h : Option ℕ) (t : Task) (done : List Effect)
      → held q t + settled q done
        ≡ held q (attempt rmp delay hi h t done).0 + settled q (attempt rmp delay hi h t done).1
  unfolding attempt
  attempt-account delay hi none t done = refl
  attempt-account delay hi (some n) t done = omega (
    arith,
    settled-append q done (resubscribe rmp n t.watchers),
    settled-resubscribe n t.watchers,
  )

  give_up-account :
      (t : Task)
      → held q t
        ≡ held q (fail_deferred (record t { closed = true })).0
          + settled q (fail_deferred (record t { closed = true })).1
  give_up-account t =
      let same : held q t ≡ held q (record t { closed = true }) = unfold held in refl in
      same ∙ fail_deferred-account q (record t { closed = true })

  deferring :
      (delay hi : ℕ) (h : Option ℕ) (t : Task) (c : Command)
      → (let d : Task × List Effect = defer t c in
          held q t + in_command q c
          ≡ held q (attempt rmp delay hi h d.0 d.1).0
            + settled q (attempt rmp delay hi h d.0 d.1).1)
  deferring delay hi h t c =
      defer-account q t c ∙ attempt-account delay hi h (defer t c).0 (defer t c).1

  pub reconnect_turn-account :
      (delay hi : ℕ) (w : Wake) (h : Option ℕ) (t : Task)
      → held q t + in_wake q w
        ≡ held q (reconnect_turn rmp delay hi w h t).0
          + settled q (reconnect_turn rmp delay hi w h t).1
  unfolding reconnect_turn
  reconnect_turn-account delay hi elapsed h t = unfold settled in attempt-account delay hi h t []
  reconnect_turn-account delay hi gone h t = omega (arith, give_up-account t)
  reconnect_turn-account delay hi (woken close) h t =
      unfold in_command in omega (arith, give_up-account t)
  reconnect_turn-account delay hi (woken (request s b r p)) h t =
      deferring delay hi h t (request s b r p)
  reconnect_turn-account delay hi (woken (watch i k s)) h t = deferring delay hi h t (watch i k s)
  reconnect_turn-account delay hi (woken (unwatch i k)) h t = deferring delay hi h t (unwatch i k)
  reconnect_turn-account delay hi (woken (fire p)) h t = deferring delay hi h t (fire p)
