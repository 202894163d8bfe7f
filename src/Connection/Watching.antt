-- ===== src/Connection/Watching.antt =====
-- Watchers of a key: `Command::Watch`, `Command::Unwatch` and the events of connection.rs.
use tarant.Base.{
  ℕ, ◌≡◌, ◌≢◌, refl, ap, ◌∙◌, Bool, true, none, some, List, [], ◌∷◌, ◌++◌, arith, inl, inr,
  Option-cases,
}
use tarant.Rmp.{Rmp}
use tarant.Codec.Response.{Kind}
use tarant.Iproto.Request as Types
use tarant.Connection.{
  Incoming, watch, unwatch, Subscriber, Effect, Task, get_watchers, put_watchers, remove_watchers,
  retain_others, retain_alive, publish, eq_bytes, watch_packet, handle_command, route, route_event,
  handle_response,
}

eq_bytes_refl : (xs : List ℕ) → eq_bytes xs xs ≡ true
unfolding eq_bytes
eq_bytes_refl [] = refl
eq_bytes_refl (x ∷ xs) = ground (arith, eq_bytes_refl xs)

-- Who watches a key.
unfoldable pub subscribers : List ℕ → List (List ℕ × List Subscriber) → List Subscriber
subscribers key w = elim (get_watchers key w) [ none ↦ [] | some l ↦ l ]

-- No subscriber of the list has the id.
unfoldable pub IsFresh : ℕ → List Subscriber → Type 0
IsFresh id [] = Unit
IsFresh id (s ∷ rest) = (s.id ≢ id) × IsFresh id rest

retain_others-IsFresh :
    (id sender : ℕ) (l : List Subscriber)
    → IsFresh id l
    → retain_others id (l ++ (record { id = id; sender = sender } ∷ [])) ≡ l
unfolding retain_others IsFresh
retain_others-IsFresh id sender [] w = ground arith
retain_others-IsFresh id sender (s ∷ rest) w =
    ground (arith, w, retain_others-IsFresh id sender rest w.1)

module _ (key : List ℕ) where
  get_watchers-put :
      (l : List Subscriber) (w : List (List ℕ × List Subscriber))
      → get_watchers key (put_watchers key l w) ≡ some l
  unfolding get_watchers put_watchers
  get_watchers-put l [] = rw (eq_bytes_refl key) refl
  get_watchers-put l ((k, old) ∷ rest) = ground (arith, get_watchers-put l rest)

  remove_watchers-put :
      (l : List Subscriber) (w : List (List ℕ × List Subscriber))
      → get_watchers key w ≡ none
      → remove_watchers key (put_watchers key l w) ≡ w
  unfolding get_watchers put_watchers remove_watchers
  remove_watchers-put l [] h = rw (eq_bytes_refl key) refl
  remove_watchers-put l ((k, old) ∷ rest) h = ground (arith, h, remove_watchers-put l rest)

  put_watchers-put :
      (l l' : List Subscriber) (w : List (List ℕ × List Subscriber))
      → get_watchers key w ≡ some l
      → put_watchers key l (put_watchers key l' w) ≡ w
  unfolding get_watchers put_watchers
  put_watchers-put l l' [] h = ground (arith, h)
  put_watchers-put l l' ((k, old) ∷ rest) h = ground (arith, h, put_watchers-put l l' rest)

handle_response-event :
    (rmp : Rmp) (alive : ℕ → Bool) (t : Task) (r : Incoming) (key data_bytes : List ℕ)
    (l : List Subscriber)
    → r.kind ≡ Kind.event
    → r.event ≡ some (key, data_bytes)
    → get_watchers key t.watchers ≡ some l
    → (handle_response rmp alive t r).1
      ≡ publish data_bytes (retain_alive alive l)
        ++ (Effect.sent (watch_packet rmp Types.watch key) ∷ [])
unfolding handle_response route route_event
handle_response-event rmp alive t r key bytes l k e f = rw (k, e, f, route, route_event) refl

module _ (rmp : Rmp) (t : Task) (id : ℕ) (key : List ℕ) (sender : ℕ) where
  abbrev newcomer : Subscriber
  newcomer = record { id = id; sender = sender }

  abbrev pub watched : Task
  watched = (handle_command rmp true t (watch id key sender)).0

  handle_command-watch_first :
      get_watchers key t.watchers ≡ none
      → handle_command rmp true t (watch id key sender) ≡ (
        record t { watchers = put_watchers key (newcomer ∷ []) t.watchers },
        Effect.sent (watch_packet rmp Types.watch key) ∷ [],
        true,
      )
  unfolding handle_command
  handle_command-watch_first e = rw (e, handle_command) refl

  handle_command-watch_again :
      (l : List Subscriber)
      → get_watchers key t.watchers ≡ some l
      → handle_command rmp true t (watch id key sender)
        ≡ (record t { watchers = put_watchers key (l ++ (newcomer ∷ [])) t.watchers }, [], true)
  unfolding handle_command
  handle_command-watch_again l e = rw (e, handle_command) refl

  handle_command-unwatch_last :
      (u : Task) (l : List Subscriber)
      → get_watchers key u.watchers ≡ some l
      → retain_others id l ≡ []
      → handle_command rmp true u (unwatch id key) ≡ (
        record u { watchers = remove_watchers key u.watchers },
        Effect.sent (watch_packet rmp Types.unwatch key) ∷ [],
        true,
      )
  unfolding handle_command
  handle_command-unwatch_last u l e f = rw (e, f, handle_command) refl

  handle_command-unwatch_other :
      (u : Task) (l : List Subscriber) (s : Subscriber) (rest : List Subscriber)
      → get_watchers key u.watchers ≡ some l
      → retain_others id l ≡ s ∷ rest
      → handle_command rmp true u (unwatch id key)
        ≡ (record u { watchers = put_watchers key (s ∷ rest) u.watchers }, [], true)
  unfolding handle_command
  handle_command-unwatch_other u l s rest e f = rw (e, f, handle_command) refl

  first_leaves :
      get_watchers key t.watchers ≡ none
      → handle_command rmp true watched (unwatch id key) ≡ (
        record t { watchers = remove_watchers key (put_watchers key (newcomer ∷ []) t.watchers) },
        Effect.sent (watch_packet rmp Types.unwatch key) ∷ [],
        true,
      )
  first_leaves e =
      ap (λ u. handle_command rmp true u (unwatch id key))
        (ap (λ c. c.0) (handle_command-watch_first e))
      ∙ handle_command-unwatch_last _ (newcomer ∷ []) (get_watchers-put key _ t.watchers)
          (retain_others-IsFresh id sender [] (unfold IsFresh in record {}))

  -- The first watcher of a key sends a watch packet, its departure as the only one an unwatch
  -- packet, and the table of watchers is then what it was.
  pub watch-unwatch_first :
      get_watchers key t.watchers ≡ none
      → ((handle_command rmp true t (watch id key sender)).1
          ≡ Effect.sent (watch_packet rmp Types.watch key) ∷ [])
        × ((handle_command rmp true watched (unwatch id key)).1
            ≡ Effect.sent (watch_packet rmp Types.unwatch key) ∷ [])
        × ((handle_command rmp true watched (unwatch id key)).0.watchers ≡ t.watchers)
  watch-unwatch_first e = (
    ap (λ c. c.1) (handle_command-watch_first e),
    ap (λ c. c.1) (first_leaves e),
    ap (λ c. c.0.watchers) (first_leaves e) ∙ remove_watchers-put key (newcomer ∷ []) t.watchers e,
  )

  watchers-watched :
      get_watchers key watched.watchers ≡ some (subscribers key t.watchers ++ (newcomer ∷ []))
  unfolding subscribers
  watchers-watched = elim (Option-cases (get_watchers key t.watchers)) [
    | inl e ↦
        ap (λ c. get_watchers key c.0.watchers) (handle_command-watch_first e)
        ∙ (get_watchers-put key _ t.watchers ∙ rw (e, subscribers) refl)
    | inr (l, e) ↦
        ap (λ c. get_watchers key c.0.watchers) (handle_command-watch_again l e)
        ∙ (get_watchers-put key _ t.watchers ∙ rw (e, subscribers) refl)
  ]

  -- An event of the key reaches, in the order of subscription, the watchers that were there and then
  -- the newcomer, as far as they are alive, and is acknowledged after them.
  pub watch-event :
      (alive : ℕ → Bool) (r : Incoming) (data_bytes : List ℕ)
      → r.kind ≡ Kind.event
      → r.event ≡ some (key, data_bytes)
      → (handle_response rmp alive watched r).1
        ≡ publish data_bytes (retain_alive alive (subscribers key t.watchers ++ (newcomer ∷ [])))
          ++ (Effect.sent (watch_packet rmp Types.watch key) ∷ [])
  watch-event alive r bytes k e =
      handle_response-event rmp alive watched r key bytes _ k e watchers-watched
