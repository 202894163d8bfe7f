-- ===== src/Client/Rising.antt =====
-- The syncs of whatever operations follow each other on one handle.
use tarant.Base.{
  not, ◌&&◌, ℕ, suc, ◌+◌, ◌*◌, ◌^◌, ◌<◌, Bool, Option, none, some, List, [], ◌∷◌, length,
  Bool-cases, arith, inl, inr, ok, err, panic, stuck, if◌then◌else◌,
}
use tarant.Error.{Error, Outcome}
use tarant.Iproto.Code.{Feature}
use tarant.Codec.Response.{decoded_data}
use tarant.Connection.{Command}
use tarant.Client.{
  Handle, M, ◌>>=◌, lift, return, Outside, connected, supports, submit, watch, unwatch, close,
  draw_sync, request_with_pushes, draw_watch_id, enlist,
}
use tarant.Client.Calls as Calls
use tarant.Client.Select.{Select}
use tarant.Client.Select as Selects
use tarant.Client.Space as Space
use tarant.Client.Stream.{Stream, TxOptions}
use tarant.Client.Stream as Streams
use tarant.Sql.{Statement}
use tarant.Sql as Sql
use tarant.Client.Order.{
  Increasing, Step, Step-same, Step-trans, Step-weaken, Step-silent, Step-draw, Draws, Draws-lift,
  Draws-return, Draws-bind, Draws-if, Draws-supports, submit-Draws, notice-Draws, begin_pushes-Step,
  drawn, proceed-Step, Step-if,
}
use tarant.Client.Script.{
  Op, call, eval, call_with_pushes, eval_with_pushes, ping, close_client, watch_once, watch_key,
  unwatch_key, write, insert_arrow, delete, update, upsert, select, begin, conclude, stream_call,
  stream_eval, drop_stream, run_text, prepare, run_statement, unprepare, drop_statement, anything,
  perform, perform_all,
}
use tarant.Codec.Request
use tarant.Codec.Request.{Request, finish}
use tarant.Iproto.Request as Types

module _ (w : Outside) where
  submit_only-Draws : (build : ℕ → Outcome (List ℕ)) → Draws 1 (submit w build >>= λ r. return tt)
  submit_only-Draws build =
      Draws-bind 1 0 (submit w build) _ (submit-Draws w build) (λ r. Draws-return tt)

  fetch-Draws :
      {T : Type 0} (decode : List ℕ → Option T) (build : ℕ → Outcome (List ℕ))
      → Draws 1 (Calls.fetch w decode build)
  unfolding Calls.fetch
  fetch-Draws decode build =
      Draws-bind 1 0 (submit w build) _ (submit-Draws w build)
        (λ r. Draws-lift (decoded_data decode r))

  first-Draws :
      {T : Type 0} (decode : List ℕ → Option (List T)) (build : ℕ → Outcome (List ℕ))
      → Draws 1 (Calls.fetch w decode build >>= λ rows. return (Space.head rows))
  first-Draws decode build =
      Draws-bind 1 0 (Calls.fetch w decode build) _ (fetch-Draws decode build)
        (λ r. Draws-return (Space.head r))

  guarded-Draws :
      {A : Type 0} (f : Feature) (m : M A)
      → Draws 1 m
      → Draws 1 (supports f >>= λ known. if known then m else lift (err Error.unsupported))
  guarded-Draws f m d =
      Draws-bind 0 1 (supports f) _ (Draws-supports f)
        (λ known. Draws-if 1 known m _ d (λ h small. Step-same 1 h))

  begin_pushes-after-Step :
      (r : Outcome (List ℕ)) (h : Handle)
      → h.next_sync + 1 < 2 ^ 64
      → Step 1 h
          ((lift r >>= λ packet.
              request_with_pushes w h.next_sync packet >>= λ u. return h.next_sync)
            (drawn h)).1
  unfolding request_with_pushes
  begin_pushes-after-Step (ok packet) h small =
      let begun = request_with_pushes w h.next_sync packet (drawn h) in
      let first : Step 1 h begun.1 =
        begin_pushes-Step (w.fate h.next_sync) h packet (some h.next_sync) small in
      Step-trans 1 0 h begun.1 _ first (
        proceed-Step 0 begun.0 (λ u. return h.next_sync) begun.1 (omega (arith, first.bound))
          (λ u. Draws-return h.next_sync))
  begin_pushes-after-Step (err e) h small = Step-draw h small
  begin_pushes-after-Step panic h small = Step-draw h small
  begin_pushes-after-Step stuck h small = Step-draw h small

  start-Draws : (build : ℕ → Outcome (List ℕ)) → Draws 1 (Calls.start w build)
  unfolding Calls.start draw_sync
  start-Draws build h small = begin_pushes-after-Step (build h.next_sync) h small

  draw_watch_id-Draws : Draws 0 draw_watch_id
  unfolding draw_watch_id
  draw_watch_id-Draws h small = record {
    order = λ o. record { below = o.below; rising = o.rising };
    grows = omega arith;
    bound = omega arith;
  }

  enlist-Draws : (key : List ℕ) (id : ℕ) → Draws 0 (enlist w key id)
  unfolding enlist
  enlist-Draws key id h small = elim (Bool-cases (w.task_runs h)) [
    | inl e ↦ rw e (Step-silent h (Command.watch id key id) tt)
    | inr e ↦ rw e (Step-same 0 h)
  ]

  watch-Draws : (key : List ℕ) → Draws 0 (watch w key)
  unfolding watch
  watch-Draws key =
      Draws-bind 0 0 draw_watch_id (enlist w key) draw_watch_id-Draws (enlist-Draws key)

  unwatch-Draws : (id : ℕ) (key : List ℕ) → Draws 0 (unwatch w id key)
  unfolding unwatch
  unwatch-Draws id key h small = elim (Bool-cases (w.room h)) [
    | inl e ↦ rw e (Step-silent h (Command.unwatch id key) tt)
    | inr e ↦ rw e (Step-same 0 h)
  ]

  close-Draws : Draws 0 (close w)
  unfolding close
  close-Draws h small = elim (Bool-cases (w.task_runs h)) [
    | inl e ↦ rw e (Step-silent h Command.close tt)
    | inr e ↦ rw e (Step-same 0 h)
  ]

  begin_known-Draws :
      (id : ℕ) (options : TxOptions) (t s : Bool) → Draws 1 (Streams.begin_known w id options t s)
  unfolding Streams.begin_known
  begin_known-Draws id options t s =
      Draws-if 1 (not t) _ _ (λ h small. Step-same 1 h)
        (Draws-if 1 (options.synchronous && not s) _ _ (λ h small. Step-same 1 h)
          (submit_only-Draws (Streams.begin_packet w id options)))

  begin-Draws : (id : ℕ) (options : TxOptions) → Draws 1 (Streams.begin_request w id options)
  unfolding Streams.begin_request supports
  begin-Draws id options h = begin_known-Draws id options _ _ h

  retry-Step :
      (id : ℕ) (stream : Option ℕ) (bind : List ℕ) (fresh : Outcome ℕ) (h : Handle)
      → h.next_sync + 1 < 2 ^ 64
      → Step 1 h (Sql.retry w id stream bind fresh h).1
  unfolding Sql.retry Sql.send
  retry-Step id stream bind (ok f) h small =
      submit-Draws w (Sql.execute_packet w f stream bind) h small
  retry-Step id stream bind (err e) h small = Step-same 1 h
  retry-Step id stream bind panic h small = Step-same 1 h
  retry-Step id stream bind stuck h small = Step-same 1 h

  refresh-Draws : (sql : List ℕ) → Draws 1 (Sql.refresh w sql)
  unfolding Sql.refresh Sql.send_prepare
  refresh-Draws sql =
      Draws-bind 1 0 (submit w (Sql.prepare_packet w sql)) _
        (submit-Draws w (Sql.prepare_packet w sql)) λ r. Draws-lift (Sql.statement_id r)

  run_bound-Step :
      (sql : List ℕ) (id : ℕ) (stream : Option ℕ) (bind : List ℕ) (h : Handle)
      → h.next_sync + 3 < 2 ^ 64
      → Step 3 h (Sql.run_bound w sql id stream bind h).1
  unfolding Sql.run_bound Sql.send
  run_bound-Step sql id stream bind h small =
      let h1 = (submit w (Sql.execute_packet w id stream bind) h).1 in
      let sent : Step 1 h h1 =
        submit-Draws w (Sql.execute_packet w id stream bind) h (omega arith) in
      let again : Step 1 h1 (Sql.refresh w sql h1).1 =
        refresh-Draws sql h1 (omega (arith, sent.bound)) in
      Step-if 3 (Sql.is_wrong_query w (submit w (Sql.execute_packet w id stream bind) h).0) h _ _
        (Step-trans 1 2 h h1 _ sent (
          Step-trans 1 1 h1 (Sql.refresh w sql h1).1 _ again (
            retry-Step id stream bind (Sql.refresh w sql h1).0 (Sql.refresh w sql h1).1
              (omega (arith, sent.bound, again.bound)))))
        (Step-weaken 1 3 h h1 (omega arith) sent)

  one :
      (h h' : Handle)
      → (h.next_sync + 1 < 2 ^ 64 → Step 1 h h')
      → h.next_sync + 3 < 2 ^ 64
      → Step 3 h h'
  one h h' d small = Step-weaken 1 3 h h' (omega arith) (d (omega arith))

  none_drawn :
      (h h' : Handle)
      → (h.next_sync + 0 < 2 ^ 64 → Step 0 h h')
      → h.next_sync + 3 < 2 ^ 64
      → Step 3 h h'
  none_drawn h h' d small = Step-weaken 0 3 h h' (omega arith) (d (omega arith))

  run-Draws : (s : Select) → Draws 1 (Selects.run w s)
  unfolding Selects.run
  run-Draws s h small =
      proceed-Step 1 s.key (λ key. submit w (Selects.packet_of w s key)) h small
        (λ key. submit-Draws w (Selects.packet_of w s key))

  prepare-Draws :
      {C : Type 0} (read : List ℕ → Option (List C)) (sql : List ℕ)
      → Draws 1 (Sql.prepare w read sql)
  unfolding Sql.prepare Sql.send_prepare
  prepare-Draws read sql =
      Draws-bind 1 0 (submit w (Sql.prepare_packet w sql)) _
        (submit-Draws w (Sql.prepare_packet w sql))
        (λ r. Draws-lift (Sql.statement_of w read sql r))

  run_statement-Step :
      (s : Statement (Unit {0})) (stream : Option ℕ) (params : Outcome (List ℕ)) (h : Handle)
      → h.next_sync + 3 < 2 ^ 64
      → Step 3 h (Sql.run w s stream params h).1
  unfolding Sql.run
  run_statement-Step s stream (ok bind) h small = run_bound-Step s.sql s.id stream bind h small
  run_statement-Step s stream (err e) h small = Step-same 3 h
  run_statement-Step s stream panic h small = Step-same 3 h
  run_statement-Step s stream stuck h small = Step-same 3 h

  drop_stream-Draws : (s : Stream) → Draws 1 (Streams.drop_stream w s)
  unfolding Streams.drop_stream
  drop_stream-Draws s =
      Draws-if 1 s.in_transaction _ (return tt)
        (notice-Draws w (λ sync. finish w.rmp (Request.new w.rmp Types.rollback sync (some s.id))))
        (λ h small. Step-same 1 h)

  -- An operation draws three syncs at most.
  perform-Step : (op : Op) (h : Handle) → h.next_sync + 3 < 2 ^ 64 → Step 3 h (perform w op h)
  unfolding perform Calls.call Calls.eval Calls.call_with_pushes Calls.eval_with_pushes Calls.ping
      Calls.watch_once Space.write Space.insert_arrow Space.delete Space.update Space.upsert
      Streams.begin Streams.conclude Streams.call Streams.eval Sql.run_text Sql.unprepare
      Sql.drop_statement
  perform-Step (call text args) h =
      one h _ ((fetch-Draws (anything tt) (Calls.call_packet w none text args)) h)
  perform-Step (eval text args) h =
      one h _ ((fetch-Draws (anything tt) (Calls.eval_packet w none text args)) h)
  perform-Step (call_with_pushes text args) h =
      one h _ ((start-Draws (Calls.call_packet w none text args)) h)
  perform-Step (eval_with_pushes text args) h =
      one h _ ((start-Draws (Calls.eval_packet w none text args)) h)
  perform-Step ping h =
      one h _
        ((submit_only-Draws (λ sync. ok (finish w.rmp (Request.new w.rmp Types.ping sync none)))) h)
  perform-Step close_client h = none_drawn h _ (close-Draws h)
  perform-Step (watch_once key) h = one h _ (
      (guarded-Draws Feature.watch_once _
          (fetch-Draws (anything tt) (Calls.watch_once_packet w (anything tt) key)))
        h)
  perform-Step (watch_key key) h = none_drawn h _ ((watch-Draws key) h)
  perform-Step (unwatch_key id key) h = none_drawn h _ ((unwatch-Draws id key) h)
  perform-Step (write ty space tuple) h =
      one h _ ((submit_only-Draws (Space.write_packet w space ty tuple)) h)
  perform-Step (insert_arrow space ipc) h = one h _ (
      (guarded-Draws Feature.insert_arrow _
          (submit_only-Draws (Space.insert_arrow_packet w space ipc)))
        h)
  perform-Step (delete space key) h =
      one h _ ((first-Draws (anything (tt ∷ [])) (Space.delete_packet w space key)) h)
  perform-Step (update space key ops) h =
      one h _ ((first-Draws (anything (tt ∷ [])) (Space.update_packet w space key ops)) h)
  perform-Step (upsert space tuple ops) h =
      one h _ ((submit_only-Draws (Space.upsert_packet w space tuple ops)) h)
  perform-Step (select s) h = one h _ ((run-Draws s) h)
  perform-Step (begin s options) h = one h _ ((begin-Draws s.id options) h)
  perform-Step (conclude ty s) h = one h _ ((submit-Draws w (Streams.bare_packet w ty s.id)) h)
  perform-Step (stream_call s text args) h =
      one h _ ((fetch-Draws (anything tt) (Calls.call_packet w (some s.id) text args)) h)
  perform-Step (stream_eval s text args) h =
      one h _ ((fetch-Draws (anything tt) (Calls.eval_packet w (some s.id) text args)) h)
  perform-Step (drop_stream s) h = one h _ ((drop_stream-Draws s) h)
  perform-Step (run_text stream sql bind) h =
      one h _ ((submit-Draws w (Sql.run_text_packet w stream sql bind)) h)
  perform-Step (prepare sql) h = one h _ ((prepare-Draws (anything (tt ∷ [])) sql) h)
  perform-Step (run_statement s stream params) h = run_statement-Step s stream params h
  perform-Step (unprepare s) h =
      one h _ ((submit_only-Draws (λ sync. ok (Sql.unprepare_packet w s.id sync))) h)
  perform-Step (drop_statement s) h = one h _ (
      (Draws-if 1 s.released (return tt) _ (λ h small. Step-same 1 h)
          (notice-Draws w (Sql.unprepare_packet w s.id)))
        h)

  perform_all-Step :
      (ops : List Op) (h : Handle)
      → h.next_sync + 3 * length ops < 2 ^ 64
      → Step (3 * length ops) h (perform_all w ops h)
  unfolding perform_all
  perform_all-Step [] h small = Step-same 0 h
  perform_all-Step (op ∷ ops) h small =
      let first : Step 3 h (perform w op h) = perform-Step op h (omega arith) in
      Step-weaken (3 + 3 * length ops) (3 * suc (length ops)) h _ (omega arith) (
        Step-trans 3 (3 * length ops) h (perform w op h) _ first
          (perform_all-Step ops (perform w op h) (omega (arith, first.bound))))

  -- However many operations follow each other on a new handle, each request carries a sync above those
  -- of all requests before it, as long as the counter does not wrap.
  pub perform_all-Increasing :
      (fs : List Feature) (ops : List Op)
      → 3 * length ops + 1 < 2 ^ 64
      → Increasing (perform_all w ops (connected fs)).outbox
  unfolding connected
  perform_all-Increasing fs ops small =
      let all : Step (3 * length ops) (connected fs) (perform_all w ops (connected fs)) =
        perform_all-Step ops (connected fs) (omega arith) in
      (all.order (record { below = tt; rising = tt })).rising
