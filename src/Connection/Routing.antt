-- ===== src/Connection/Routing.antt =====
-- From a request to its reply: `Task::handle_command` and `Task::handle_response` of connection.rs
-- over the map of requests in flight.
use tarant.Base.{
  ℕ, ◌≡◌, ◌≢◌, ◌⊎◌, refl, ◌∙◌, ◌==◌, Bool, true, false, Option, none, some, List, [], ◌∷◌, arith,
  inl, inr, Bool-cases, Option-cases,
}
use tarant.Rmp.{Rmp}
use tarant.Codec.Response.{Kind}
use tarant.Connection.{
  Incoming, Command, request, watch, unwatch, fire, close, Pending, get_watchers, seen, Effect,
  Task, get_pending, remove_pending, handle_command, route, route_reply, handle_response,
}

-- Each sync once.
unfoldable pub IsMap : List (ℕ × Pending) → Type 0
unfolding get_pending
IsMap [] = Unit
IsMap ((k, p) ∷ rest) = (get_pending k rest ≡ none) × IsMap rest

module _ where
  pub get_pending-remove_other :
      (s k : ℕ) (l : List (ℕ × Pending))
      → s ≢ k
      → get_pending s (remove_pending k l) ≡ get_pending s l
  unfolding get_pending remove_pending
  get_pending-remove_other s k [] h = refl
  get_pending-remove_other s k ((j, p) ∷ rest) h =
      ground (arith, h, get_pending-remove_other s k rest h)

  get_pending-remove :
      (s : ℕ) (l : List (ℕ × Pending)) → IsMap l → get_pending s (remove_pending s l) ≡ none
  unfolding get_pending remove_pending IsMap
  get_pending-remove s [] w = refl
  get_pending-remove s ((j, p) ∷ rest) w = ground (arith, w, get_pending-remove s rest w.1)

  pub get_pending-remove_none :
      (s k : ℕ) (l : List (ℕ × Pending))
      → get_pending k l ≡ none
      → get_pending k (remove_pending s l) ≡ none
  unfolding get_pending remove_pending
  get_pending-remove_none s k [] h = refl
  get_pending-remove_none s k ((j, p) ∷ rest) h =
      ground (arith, h, get_pending-remove_none s k rest)

  remove_pending-IsMap : (s : ℕ) (l : List (ℕ × Pending)) → IsMap l → IsMap (remove_pending s l)
  unfolding remove_pending IsMap
  remove_pending-IsMap s [] w = w
  remove_pending-IsMap s ((j, p) ∷ rest) w = elim (Bool-cases (j == s)) [
    | inl e ↦ rw e (w.1)
    | inr e ↦ rw e (get_pending-remove_none s j rest w.0, remove_pending-IsMap s rest w.1)
  ]

module _ (rmp : Rmp) where
  -- Requests are kept under distinct syncs by every command.
  handle_command-IsMap :
      (up : Bool) (t : Task) (c : Command)
      → IsMap t.pending
      → IsMap (handle_command rmp up t c).0.pending
  unfolding handle_command
  handle_command-IsMap up t (request s b q p) w = elim (Bool-cases t.shutting_down) [
    | inl e ↦ rw e w
    | inr e ↦
        rw e
          (unfold IsMap in (get_pending-remove s t.pending w, remove_pending-IsMap s t.pending w))
  ]
  handle_command-IsMap up t (watch i k s) w = elim (Option-cases (get_watchers k t.watchers)) [
    | inl e ↦ rw (e, handle_command) w
    | inr (l, e) ↦ rw (e, handle_command) w
  ]
  handle_command-IsMap up t (unwatch i k) w = ground (arith, w)
  handle_command-IsMap up t (fire p) w = w
  handle_command-IsMap up t close w = w

  handle_command-request :
      (up : Bool) (t : Task) (sync : ℕ) (packet : List ℕ) (reply : ℕ) (pushes : Option ℕ)
      → t.shutting_down ≡ false
      → (let sent = (handle_command rmp up t (request sync packet reply pushes)).0 in
          (get_pending sync sent.pending ≡ some (record { reply = reply; pushes = pushes }))
          × ((s : ℕ) → s ≢ sync → get_pending s sent.pending ≡ get_pending s t.pending))
  unfolding handle_command
  handle_command-request up t sync packet reply pushes down = rw down (
    unfold get_pending in ground arith,
    λ s h. unfold get_pending in ground (arith, h, get_pending-remove_other s sync t.pending h),
  )

  -- The answer of the server to a request in flight.
  module _ (alive : ℕ → Bool) (t : Task) (r : Incoming)
      (k : (r.kind ≡ Kind.reply) ⊎ (r.kind ≡ Kind.failure)) where
    handle_response-reply :
        handle_response rmp alive t r
        ≡ route_reply rmp (record t { schema_version = seen t.schema_version r.schema_version }) r
    unfolding handle_response route
    handle_response-reply = elim k [ inl e ↦ rw e refl | inr e ↦ rw e refl ]

    route_reply-found :
        (p : Pending)
        → get_pending r.sync t.pending ≡ some p
        → handle_response rmp alive t r ≡ (
          record t {
            schema_version = seen t.schema_version r.schema_version;
            pending = remove_pending r.sync t.pending;
          },
          Effect.replied p.reply r ∷ [],
        )
    unfolding route_reply
    route_reply-found p e = handle_response-reply ∙ rw (e, route_reply) refl

    -- A reply or an error that arrives for a request in flight is handed to that request alone; the
    -- request is then no longer in flight, and the requests of other syncs are as they were.
    pub handle_response-replies :
        (p : Pending)
        → IsMap t.pending
        → get_pending r.sync t.pending ≡ some p
        → ((handle_response rmp alive t r).1 ≡ Effect.replied p.reply r ∷ [])
          × (get_pending r.sync (handle_response rmp alive t r).0.pending ≡ none)
          × ((s : ℕ)
              → s ≢ r.sync
              → get_pending s (handle_response rmp alive t r).0.pending ≡ get_pending s t.pending)
    handle_response-replies p w e = rw (route_reply-found p e) (
      refl,
      get_pending-remove r.sync t.pending w,
      λ s h. get_pending-remove_other s r.sync t.pending h,
    )

    handle_response-unknown :
        get_pending r.sync t.pending ≡ none → (handle_response rmp alive t r).1 ≡ []
    unfolding route_reply
    handle_response-unknown e = rw (handle_response-reply) (rw (e, route_reply) refl)

  -- A request that the task accepts gets the first reply or error of its sync, and a second one of
  -- that sync reaches nobody; the other requests in flight are kept throughout.
  pub request-replies :
      (alive : ℕ → Bool) (t : Task) (packet : List ℕ) (reply : ℕ) (pushes : Option ℕ)
      (r r' : Incoming)
      → IsMap t.pending
      → t.shutting_down ≡ false
      → (r.kind ≡ Kind.reply) ⊎ (r.kind ≡ Kind.failure)
      → (r'.kind ≡ Kind.reply) ⊎ (r'.kind ≡ Kind.failure)
      → r'.sync ≡ r.sync
      → (let sent = (handle_command rmp true t (request r.sync packet reply pushes)).0 in
          let answered = (handle_response rmp alive sent r).0 in
          ((handle_response rmp alive sent r).1 ≡ Effect.replied reply r ∷ [])
          × ((handle_response rmp alive answered r').1 ≡ [])
          × ((s : ℕ) → s ≢ r.sync → get_pending s answered.pending ≡ get_pending s t.pending))
  request-replies alive t packet reply pushes r r' w down k k' e =
      let sent : Task = (handle_command rmp true t (request r.sync packet reply pushes)).0 in
      let kept : IsMap sent.pending =
        handle_command-IsMap true t (request r.sync packet reply pushes) w in
      let (here, others) = handle_command-request true t r.sync packet reply pushes down in
      let (one, two, three) =
        handle_response-replies alive sent r k (record { reply = reply; pushes = pushes }) kept
          here in
      (one, handle_response-unknown alive _ r' k' (rw e two), λ s h. three s h ∙ others s h)
