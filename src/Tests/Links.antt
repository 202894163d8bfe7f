-- ===== src/Tests/Links.antt =====
-- The theorems on connection.rs at concrete runs.
use tarant.Base.{
  ℕ, ◌+◌, ◌≤◌, ◌≡◌, ◌≢◌, inl, refl, Bool, true, false, none, some, List, [], ◌∷◌, ◌++◌, length,
  arith,
}
use tarant.Codec.Response.{Kind}
use tarant.Iproto.Request as Types
use tarant.Error.{Error}
use tarant.Connection.{
  Incoming, request, watch, unwatch, close, Effect, Task, handle_command, handle_response,
  get_pending, max_deferred, shutdown_key, publish, retain_alive, watch_packet, get_watchers,
  eq_bytes, route, route_event, is_true, fail_pending, remove_pending,
}
use tarant.Connection.Loop.{
  backoff, running, finished, command, packet, link_lost, elapsed, woken, Input, turn, retry, run,
  resubscribe, step, run_turn, conclude, select, drain, reconnect_turn, attempt,
}
use tarant.Connection.Account.{held, settled}
use tarant.Connection.Run.{handed_all, run-accounts, finished-settles}
use tarant.Connection.Routing.{IsMap, request-replies}
use tarant.Connection.Watching.{subscribers, watched, watch-unwatch_first, watch-event}
use tarant.Connection.Limits.{deferred-bound, shutdown-refuses}
use tarant.Tests.Crates.{rmp_example}

abbrev pub idle : Task
idle = record {
  schema_version = 0;
  closed = false;
  pending = [];
  watchers = [];
  deferred = [];
  shutting_down = false;
}

abbrev pub up : ℕ → Bool
up n = true

abbrev pub answer : Incoming
answer = record {
  kind = Kind.reply;
  sync = 7;
  schema_version = some 3;
  data_bytes = [];
  event = none;
}

-- Two requests, an answer to the first, a lost link, a request meanwhile, a new link, and its loss.
abbrev story : List Input
story =
    turn up (command true (request 7 [] 100 none))
    ∷ turn up (command true (request 8 [] 101 none))
    ∷ turn up (packet up answer)
    ∷ turn up link_lost
    ∷ retry (woken (request 9 [] 102 none)) none
    ∷ retry elapsed (some 0)
    ∷ turn up (command true close)
    ∷ []

run-accounts_example :
    handed_all rmp_example 101 (backoff 5 50) (running, idle) story
    ≡ held 101 (run rmp_example (backoff 5 50) (running, idle) story).0.1
      + settled 101 (run rmp_example (backoff 5 50) (running, idle) story).1
run-accounts_example = run-accounts rmp_example (backoff 5 50) idle story refl refl 101

story_over : (run rmp_example (backoff 5 50) (running, idle) story).0.0 ≡ finished
unfolding run step run_turn conclude select handle_command drain handle_response route get_pending
    remove_pending reconnect_turn attempt
story_over = refl

finished-settles_example :
    settled 102 (run rmp_example (backoff 5 50) (running, idle) story).1
    ≡ handed_all rmp_example 102 (backoff 5 50) (running, idle) story
finished-settles_example =
    finished-settles rmp_example (backoff 5 50) idle story refl refl story_over 102

abbrev waiting : Task
waiting = record idle { pending = (7, record { reply = 100; pushes = none }) ∷ [] }

waiting_IsMap : IsMap waiting.pending
unfolding IsMap get_pending
waiting_IsMap = (refl, tt)

waiting_pending : get_pending 7 waiting.pending ≡ some (record { reply = 100; pushes = none })
unfolding get_pending
waiting_pending = refl

idle_IsMap : IsMap idle.pending
unfolding IsMap
idle_IsMap = tt

request-replies_example :
    (let sent = (handle_command rmp_example true idle (request 7 [] 100 none)).0 in
      let answered = (handle_response rmp_example up sent answer).0 in
      ((handle_response rmp_example up sent answer).1 ≡ Effect.replied 100 answer ∷ [])
      × ((handle_response rmp_example up answered answer).1 ≡ [])
      × ((s : ℕ) → s ≢ 7 → get_pending s answered.pending ≡ get_pending s idle.pending))
request-replies_example =
    request-replies rmp_example up idle [] 100 none answer answer idle_IsMap refl (inl refl)
      (inl refl) refl

abbrev key_example : List ℕ
key_example = b'k' ∷ []

nobody_watches : get_watchers key_example idle.watchers ≡ none
unfolding get_watchers
nobody_watches = refl

watch-unwatch_first_example :
    ((handle_command rmp_example true idle (watch 1 key_example 200)).1
      ≡ Effect.sent (watch_packet rmp_example Types.watch key_example) ∷ [])
    × ((handle_command rmp_example true
          (watched rmp_example idle 1 key_example 200)
          (unwatch 1 key_example)).1
        ≡ Effect.sent (watch_packet rmp_example Types.unwatch key_example) ∷ [])
    × ((handle_command rmp_example true
          (watched rmp_example idle 1 key_example 200)
          (unwatch 1 key_example)).0.watchers
        ≡ idle.watchers)
watch-unwatch_first_example = watch-unwatch_first rmp_example idle 1 key_example 200 nobody_watches

abbrev attended : Task
attended = record idle { watchers = (key_example, record { id = 1; sender = 200 } ∷ []) ∷ [] }

somebody_watches :
    get_watchers key_example attended.watchers ≡ some (record { id = 1; sender = 200 } ∷ [])
unfolding get_watchers eq_bytes
somebody_watches = refl

abbrev change : Incoming
change = record {
  kind = Kind.event;
  sync = 0;
  schema_version = none;
  data_bytes = [];
  event = some (key_example, 0xc2 ∷ []);
}

watch-event_example :
    (handle_response rmp_example up (watched rmp_example attended 2 key_example 201) change).1
    ≡ publish (0xc2 ∷ []) (
        retain_alive up
          (subscribers key_example attended.watchers ++ (record { id = 2; sender = 201 } ∷ [])))
      ++ (Effect.sent (watch_packet rmp_example Types.watch key_example) ∷ [])
watch-event_example =
    watch-event rmp_example attended 2 key_example 201 up change (0xc2 ∷ []) refl refl

deferred-bound_example :
    length (run rmp_example (backoff 5 50) (running, idle) story).0.1.deferred ≤ max_deferred
deferred-bound_example =
    deferred-bound rmp_example (backoff 5 50) (running, idle) story (omega arith)

abbrev farewell : Incoming
farewell = record {
  kind = Kind.event;
  sync = 0;
  schema_version = none;
  data_bytes = [];
  event = some (shutdown_key, 0xc3 ∷ []);
}

abbrev after_farewell : List Input
after_farewell = turn up link_lost ∷ retry elapsed (some 0) ∷ []

abbrev told : Task
told = record idle { shutting_down = true }

farewell_reached :
    (run rmp_example
      (backoff 5 50)
      (running, (handle_response rmp_example up waiting farewell).0)
      after_farewell).0
    ≡ (running, told)
unfolding run step run_turn drain select conclude reconnect_turn attempt resubscribe handle_response
    route route_event get_watchers eq_bytes is_true fail_pending
farewell_reached = refl

shutdown-refuses_example :
    step rmp_example (backoff 5 50) (running, told) (turn up (command true (request 9 [] 102 none)))
    ≡ (
      (running, (drain rmp_example up told []).0),
      (drain rmp_example up told []).1 ++ (Effect.refused 102 Error.shutting_down ∷ []),
    )
shutdown-refuses_example =
    shutdown-refuses rmp_example up waiting told farewell [] (backoff 5 50) after_farewell up true 9
      [] 102 none refl refl farewell_reached
