-- ===== src/Connection/Account.antt =====
-- The account of replies: what the task was handed is settled or still held, never both and never
-- twice.
use tarant.Base.{
  ℕ, ◌+◌, ◌≡◌, refl, ◌∙◌, ◌==◌, leb, if◌then◌else◌, Bool, List, [], ◌∷◌, ◌++◌, length, map, arith,
  inl, inr, Bool-cases, Option-cases,
}
use mathlib.Core.Path.{ap₂}
use tarant.Error.{Error}
use tarant.Rmp.{Rmp}
use tarant.Codec.Response.{Kind}
use tarant.Iproto.Request as Types
use tarant.Connection.{
  Incoming, Command, request, watch, unwatch, fire, close, Pending, Subscriber, Effect, Task,
  get_pending, remove_pending, get_watchers, retain_alive, overwritten, handle_command,
  handle_response, route, route_reply, route_chunk, route_event, fail_pending, refuse_closed,
  refuse_all, fail_deferred, defer, max_deferred, publish, seen, watch_packet,
}

-- How often the reply `q` stands in a place.
abbrev one : ℕ → ℕ → ℕ
one q r = if q == r then 1 else 0

unfoldable pub in_pending : ℕ → List (ℕ × Pending) → ℕ
in_pending q [] = 0
in_pending q ((k, p) ∷ rest) = one q p.reply + in_pending q rest

unfoldable pub in_command : ℕ → Command → ℕ
in_command q (request sync packet reply pushes) = one q reply
in_command q c = 0

unfoldable pub in_commands : ℕ → List Command → ℕ
unfolding in_command
in_commands q [] = 0
in_commands q (c ∷ cs) = in_command q c + in_commands q cs

-- Settled: answered, refused, or dropped, which the caller sees as `Closed`.
unfoldable pub settled_by : ℕ → Effect → ℕ
settled_by q (Effect.replied reply r) = one q reply
settled_by q (Effect.refused reply e) = one q reply
settled_by q (Effect.dropped reply) = one q reply
settled_by q e = 0

unfoldable pub settled : ℕ → List Effect → ℕ
unfolding settled_by
settled q [] = 0
settled q (e ∷ es) = settled_by q e + settled q es

unfoldable pub held : ℕ → Task → ℕ
unfolding in_pending in_commands
held q t = in_pending q t.pending + in_commands q t.deferred

pub settled-append :
    (q : ℕ) (xs ys : List Effect) → settled q (xs ++ ys) ≡ settled q xs + settled q ys
unfolding settled
settled-append q [] ys = omega arith
settled-append q (x ∷ xs) ys = omega (arith, settled-append q xs ys)

in_commands-append :
    (q : ℕ) (xs ys : List Command) → in_commands q (xs ++ ys) ≡ in_commands q xs + in_commands q ys
unfolding in_commands
in_commands-append q [] ys = omega arith
in_commands-append q (x ∷ xs) ys = omega (arith, in_commands-append q xs ys)

-- Taking a request off the map.
in_pending-remove :
    (q s : ℕ) (l : List (ℕ × Pending))
    → in_pending q (remove_pending s l) + settled q (overwritten (get_pending s l)) ≡ in_pending q l
unfolding in_pending remove_pending get_pending settled overwritten
in_pending-remove q s [] = refl
in_pending-remove q s ((k, p) ∷ rest) = ground (arith, in_pending-remove q s rest)

settled-publish : (q : ℕ) (bytes : List ℕ) (l : List Subscriber) → settled q (publish bytes l) ≡ 0
unfolding settled
settled-publish q bytes [] = refl
settled-publish q bytes (s ∷ rest) = omega (arith, settled-publish q bytes rest)

module _ (rmp : Rmp) (q : ℕ) where
  pub handle_command-account :
      (up : Bool) (t : Task) (c : Command)
      → held q t + in_command q c
        ≡ held q (handle_command rmp up t c).0 + settled q (handle_command rmp up t c).1
  unfolding handle_command held settled
  handle_command-account up t (request sync packet reply pushes) = ground (
    arith,
    in_pending-remove q sync t.pending,
    settled-append q (overwritten (get_pending sync t.pending)) (Effect.sent packet ∷ []),
  )
  handle_command-account up t (watch id key sender) = ground arith
  handle_command-account up t (unwatch id key) = ground arith
  handle_command-account up t (fire packet) = ground arith
  handle_command-account up t close = ground arith

  route_reply-account :
      (t : Task) (r : Incoming)
      → held q t ≡ held q (route_reply rmp t r).0 + settled q (route_reply rmp t r).1
  unfolding route_reply held settled overwritten
  route_reply-account t r = ground (arith, in_pending-remove q r.sync t.pending)

  route_chunk-account :
      (t : Task) (r : Incoming)
      → held q t ≡ held q (route_chunk rmp t r).0 + settled q (route_chunk rmp t r).1
  unfolding route_chunk held settled
  route_chunk-account t r = ground arith

  route_event-account :
      (alive : ℕ → Bool) (t : Task) (key bytes : List ℕ)
      → held q t
        ≡ held q (route_event rmp alive t key bytes).0
          + settled q (route_event rmp alive t key bytes).1
  unfolding route_event held settled
  route_event-account alive t key bytes = elim (Option-cases (get_watchers key t.watchers)) [
    | inl e ↦ rw (e, route_event, settled) (omega arith)
    | inr (l, e) ↦
        rw (e, route_event, settled)
          (omega (
            arith,
            settled-append q (publish bytes (retain_alive alive l))
                (Effect.sent (watch_packet rmp Types.watch key) ∷ []),
            settled-publish q bytes (retain_alive alive l),
          ))
  ]

  route-account :
      (alive : ℕ → Bool) (t : Task) (r : Incoming) (k : Kind)
      → held q t ≡ held q (route rmp alive t r k).0 + settled q (route rmp alive t r k).1
  unfolding route
  route-account alive t r Kind.reply = route_reply-account t r
  route-account alive t r Kind.failure = route_reply-account t r
  route-account alive t r Kind.chunk = route_chunk-account t r
  route-account alive t r Kind.event = elim (Option-cases r.event) [
    | inl e ↦ rw (e, route) (unfold settled in omega arith)
    | inr ((key, bytes), e) ↦ rw (e, route) (route_event-account alive t key bytes)
  ]

  pub handle_response-account :
      (alive : ℕ → Bool) (t : Task) (r : Incoming)
      → held q t
        ≡ held q (handle_response rmp alive t r).0 + settled q (handle_response rmp alive t r).1
  unfolding handle_response
  handle_response-account alive t r =
      same
      ∙ route-account alive (record t { schema_version = seen t.schema_version r.schema_version }) r
          r.kind
    where
      same :
          held q t ≡ held q (record t { schema_version = seen t.schema_version r.schema_version })
      same = unfold held in refl

-- The refusals of a lost link, of a command that is not kept, and of a task that gives up.
module _ (q : ℕ) where
  refused_pending :
      (l : List (ℕ × Pending))
      → settled q (map (λ e. Effect.refused (e.1).reply Error.closed) l) ≡ in_pending q l
  unfolding settled in_pending
  refused_pending [] = refl
  refused_pending ((k, p) ∷ rest) = omega (arith, refused_pending rest)

  pub fail_pending-account :
      (t : Task) → held q t ≡ held q (fail_pending t).0 + settled q (fail_pending t).1
  unfolding fail_pending held
  fail_pending-account t = unfold in_pending in omega (arith, refused_pending t.pending)

  settled_refuse : (c : Command) → settled q (refuse_closed c) ≡ in_command q c
  unfolding settled refuse_closed in_command
  settled_refuse (request sync packet reply pushes) = omega arith
  settled_refuse (watch id key sender) = refl
  settled_refuse (unwatch id key) = refl
  settled_refuse (fire packet) = refl
  settled_refuse close = refl

  settled-refuse_all : (cs : List Command) → settled q (refuse_all cs) ≡ in_commands q cs
  unfolding refuse_all in_commands
  settled-refuse_all [] = unfold settled in refl
  settled-refuse_all (c ∷ cs) =
      settled-append q (refuse_closed c) (refuse_all cs)
      ∙ ap₂ ◌+◌ (settled_refuse c) (settled-refuse_all cs)

  pub fail_deferred-account :
      (t : Task) → held q t ≡ held q (fail_deferred t).0 + settled q (fail_deferred t).1
  unfolding fail_deferred held
  fail_deferred-account t = unfold in_commands in omega (arith, settled-refuse_all t.deferred)

  pub defer-account :
      (t : Task) (c : Command)
      → held q t + in_command q c ≡ held q (defer t c).0 + settled q (defer t c).1
  unfolding defer held
  defer-account t c = elim (Bool-cases (leb max_deferred (length t.deferred))) [
    | inl full ↦ rw (full, defer) (omega (arith, settled_refuse c))
    | inr room ↦
        rw (room, defer)
          (unfold settled in_commands in omega (arith, in_commands-append q t.deferred (c ∷ [])))
  ]
