-- ===== src/Client/Served.antt =====
-- What the handles of a client and the task of its connection do together: connection.rs on both
-- sides of the channel.
use tarant.Base.{
  ℕ, ◌+◌, ◌*◌, ◌^◌, ◌<◌, ◌≡◌, ◌⊎◌, refl, Bool, none, List, [], ◌∷◌, ◌++◌, length, arith, inl, inr,
  Bool-cases, Option-cases, All, map,
}
use tarant.Error.{Error}
use tarant.Rmp.{Rmp}
use tarant.Iproto.Code.{Feature}
use tarant.Codec.Response.{Kind}
use tarant.Connection.{
  Incoming, Command, Pending, Effect, Task, get_pending, remove_pending, get_watchers,
  handle_command, handle_response, route, route_reply, route_chunk, route_event, overwritten,
  publish, retain_alive, fail_pending, seen, retain_others, Subscriber,
}
use tarant.Connection.Routing.{get_pending-remove_none}
use tarant.Client.{Outside, connected}
use tarant.Client.Order.{AllSyncs, Increasing, AllSyncs-both}
use tarant.Client.Script.{Op, perform_all}
use tarant.Client.Rising.{perform_all-Increasing}

-- What happens to the task while its channel holds commands: it takes the first, a packet arrives,
-- or the link is lost, which fails what is in flight.
pub data Moment : Type 0 where
  takes : (link_up : Bool) → Moment
  arrives : (alive : ℕ → Bool) → Incoming → Moment
  loses : Moment

-- Nothing in flight has the sync of a request that is still to come.
abbrev AreFree : List (ℕ × Pending) → List Command → Type 0
AreFree l = AllSyncs (λ s. get_pending s l ≡ none)

-- A reply that another request pushed out of the map of requests in flight.
abbrev pub IsKept : Effect → Type 0
IsKept (Effect.dropped reply) = ⊥
IsKept e = Unit

abbrev pub AllKept : List Effect → Type 0
AllKept = All IsKept

module _ (rmp : Rmp) where
  unfoldable pub serve : List Command → Task → List Moment → List Effect
  serve cs t [] = []
  serve [] t (takes up ∷ ms) = serve [] t ms
  serve (c ∷ cs) t (takes up ∷ ms) =
      let done = handle_command rmp up t c in done.1 ++ serve cs done.0 ms
  serve cs t (arrives alive r ∷ ms) =
      let done = handle_response rmp alive t r in done.1 ++ serve cs done.0 ms
  serve cs t (loses ∷ ms) = let done = fail_pending t in done.1 ++ serve cs done.0 ms

List-cases : {A : Type 0} (l : List A) → (l ≡ []) ⊎ ((x : A) × (rest : List A) × (l ≡ x ∷ rest))
List-cases [] = inl refl
List-cases (x ∷ rest) = inr (x, rest, refl)

AllKept-append : (xs ys : List Effect) → AllKept xs → AllKept ys → AllKept (xs ++ ys)
AllKept-append [] ys h k = k
AllKept-append (x ∷ xs) ys h k = (h.0, AllKept-append xs ys h.1 k)

AllKept-publish : (bytes : List ℕ) (l : List Subscriber) → AllKept (publish bytes l)
AllKept-publish bytes [] = tt
AllKept-publish bytes (s ∷ rest) = (tt, AllKept-publish bytes rest)

AllKept-refused :
    (l : List (ℕ × Pending)) → AllKept (map (λ e. Effect.refused (e.1).reply Error.closed) l)
AllKept-refused [] = tt
AllKept-refused (x ∷ rest) = (tt, AllKept-refused rest)

AreFree-remove :
    (s : ℕ) (l : List (ℕ × Pending)) (cs : List Command)
    → AreFree l cs
    → AreFree (remove_pending s l) cs
AreFree-remove s l cs h =
    AllSyncs-both _ _ (λ k. get_pending k (remove_pending s l) ≡ none) cs
      (λ k e f. get_pending-remove_none s k l e) h h

AreFree-insert :
    (s : ℕ) (p : Pending) (l : List (ℕ × Pending)) (cs : List Command)
    → AllSyncs (λ k. s < k) cs
    → AreFree l cs
    → AreFree ((s, p) ∷ remove_pending s l) cs
AreFree-insert s p l cs =
    AllSyncs-both (λ k. s < k) (λ k. get_pending k l ≡ none) _ cs
      (λ k h e. unfold get_pending in ground (arith, h, get_pending-remove_none s k l e))

AreFree-none : (cs : List Command) → AreFree [] cs
unfolding get_pending
AreFree-none [] = tt
AreFree-none (Command.request k p r q ∷ cs) = (refl, AreFree-none cs)
AreFree-none (Command.watch i k r ∷ cs) = (tt, AreFree-none cs)
AreFree-none (Command.unwatch i k ∷ cs) = (tt, AreFree-none cs)
AreFree-none (Command.fire p ∷ cs) = (tt, AreFree-none cs)
AreFree-none (Command.close ∷ cs) = (tt, AreFree-none cs)

-- A step that keeps every reply and whatever was free.
record IsGood (cs : List Command) (done : Task × List Effect) : Type 0 where
  kept : AllKept done.1
  free : AreFree done.0.pending cs

module _ (rmp : Rmp) (cs : List Command) where
  taken-IsGood :
      (up : Bool) (t : Task) (c : Command)
      → Increasing (c ∷ cs)
      → AreFree t.pending (c ∷ cs)
      → IsGood cs ((handle_command rmp up t c).0, (handle_command rmp up t c).1)
  unfolding handle_command overwritten
  taken-IsGood up t (Command.request s p r q) w h = elim (Bool-cases t.shutting_down) [
    | inl e ↦ rw e (record { kept = (tt, tt); free = h.1 })
    | inr e ↦
        rw (e, h.0)
          (record {
            kept = (tt, tt);
            free = AreFree-insert s (record { reply = r; pushes = q }) t.pending cs w.0 h.1;
          })
  ]
  taken-IsGood up t (Command.watch i k s) w h = elim (Option-cases (get_watchers k t.watchers)) [
    | inl e ↦ rw (e, handle_command) (record { kept = (tt, tt); free = h.1 })
    | inr (l, e) ↦ rw (e, handle_command) (record { kept = tt; free = h.1 })
  ]
  taken-IsGood up t (Command.unwatch i k) w h = elim (Option-cases (get_watchers k t.watchers)) [
    | inl e ↦ rw (e, handle_command) (record { kept = tt; free = h.1 })
    | inr (l, e) ↦
        rw (e, handle_command)
          (elim (List-cases (retain_others i l)) [
            | inl f ↦ rw f (record { kept = (tt, tt); free = h.1 })
            | inr (s, rest, f) ↦ rw f (record { kept = tt; free = h.1 })
          ])
  ]
  taken-IsGood up t (Command.fire p) w h = record { kept = (tt, tt); free = h.1 }
  taken-IsGood up t Command.close w h = record { kept = tt; free = h.1 }

  reply-IsGood : (t : Task) (r : Incoming) → AreFree t.pending cs → IsGood cs (route_reply rmp t r)
  unfolding route_reply
  reply-IsGood t r h = elim (Option-cases (get_pending r.sync t.pending)) [
    | inl e ↦ rw (e, route_reply) (record { kept = tt; free = h })
    | inr (p, e) ↦
        rw (e, route_reply)
          (record { kept = (tt, tt); free = AreFree-remove r.sync t.pending cs h })
  ]

  chunk-IsGood : (t : Task) (r : Incoming) → AreFree t.pending cs → IsGood cs (route_chunk rmp t r)
  unfolding route_chunk
  chunk-IsGood t r h = elim (Option-cases (get_pending r.sync t.pending)) [
    | inl e ↦ rw (e, route_chunk) (record { kept = tt; free = h })
    | inr (p, e) ↦ elim (Option-cases p.pushes) [
      | inl f ↦ rw (e, route_chunk, f) (record { kept = tt; free = h })
      | inr (q, f) ↦ rw (e, route_chunk, f) (record { kept = (tt, tt); free = h })
    ]
  ]

  event-IsGood :
      (alive : ℕ → Bool) (t : Task) (key bytes : List ℕ)
      → AreFree t.pending cs
      → IsGood cs (route_event rmp alive t key bytes)
  unfolding route_event
  event-IsGood alive t key bytes h = elim (Option-cases (get_watchers key t.watchers)) [
    | inl e ↦ rw (e, route_event) (record { kept = tt; free = h })
    | inr (l, e) ↦
        rw (e, route_event)
          (record {
            kept =
                AllKept-append (publish bytes (retain_alive alive l)) _
                  (AllKept-publish bytes (retain_alive alive l)) (tt, tt);
            free = h;
          })
  ]

  route-IsGood :
      (alive : ℕ → Bool) (t : Task) (r : Incoming) (k : Kind)
      → AreFree t.pending cs
      → IsGood cs (route rmp alive t r k)
  unfolding route
  route-IsGood alive t r Kind.reply h = reply-IsGood t r h
  route-IsGood alive t r Kind.failure h = reply-IsGood t r h
  route-IsGood alive t r Kind.chunk h = chunk-IsGood t r h
  route-IsGood alive t r Kind.event h = elim (Option-cases r.event) [
    | inl e ↦ rw (e, route) (record { kept = tt; free = h })
    | inr ((key, bytes), e) ↦ rw (e, route) (event-IsGood alive t key bytes h)
  ]

module _ (rmp : Rmp) where
  serve-AllKept :
      (cs : List Command) (t : Task) (ms : List Moment)
      → Increasing cs
      → AreFree t.pending cs
      → AllKept (serve rmp cs t ms)
  unfolding serve handle_response fail_pending
  serve-AllKept cs t [] w h = tt
  serve-AllKept [] t (takes up ∷ ms) w h = serve-AllKept [] t ms w h
  serve-AllKept (c ∷ cs) t (takes up ∷ ms) w h =
      let g = taken-IsGood rmp cs up t c w h in
      AllKept-append (handle_command rmp up t c).1 _ g.kept
        (serve-AllKept cs (handle_command rmp up t c).0 ms w.1 g.free)
  serve-AllKept cs t (arrives alive r ∷ ms) w h =
      let g =
        route-IsGood rmp cs alive
          (record t { schema_version = seen t.schema_version r.schema_version }) r r.kind h in
      AllKept-append (handle_response rmp alive t r).1 _ g.kept (serve-AllKept cs _ ms w g.free)
  serve-AllKept cs t (loses ∷ ms) w h =
      AllKept-append (fail_pending t).1 _ (AllKept-refused t.pending)
        (serve-AllKept cs _ ms w (AreFree-none cs))

-- Whatever operations a program runs on a new client, as long as the counter of syncs does not wrap,
-- and in whatever order the task that holds no request takes their commands, receives packets and
-- loses the link: no request pushes the reply of another out of the map of requests in flight.
pub serve-perform_all :
    (w : Outside) (fs : List Feature) (ops : List Op) (t : Task) (ms : List Moment)
    → 3 * length ops + 1 < 2 ^ 64
    → t.pending ≡ []
    → AllKept (serve w.rmp (perform_all w ops (connected fs)).outbox t ms)
serve-perform_all w fs ops t ms small e =
    serve-AllKept w.rmp _ t ms (perform_all-Increasing w fs ops small) (rw e (AreFree-none _))
