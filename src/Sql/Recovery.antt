-- ===== src/Sql/Recovery.antt =====
-- `Statement::run` of sql.rs when the session that prepared the statement is gone, and when it is not.
use tarant.Base.{
  ℕ, ◌+◌, ◌≡◌, ◌≢◌, ◌==◌, ==_iff, ap, ◌>>=◌, Bool-cases, inl, inr, refl, false, Option, none, some,
  List, [], ◌∷◌, ◌++◌, ok, err, panic, stuck, arith, length, length-append, ◌≤◌,
}
use tarant.Error.{Error, Outcome}
use tarant.Error.Codes.{wrong_query_id}
use tarant.Iproto.Key
use tarant.Iproto.Request as Types
use tarant.Codec.Request
use tarant.Codec.Request.{finish}
use tarant.Codec.Response.{Response}
use tarant.Connection.{Command}
use tarant.Client.{
  Handle, Outside, Fate, answered, await_reply, bump, submit, request, request_inner, meet,
  draw_sync,
}
use tarant.Sql.{
  Statement, run, run_bound, retry, refresh, send, send_prepare, statement_id, is_wrong_query,
  execute_packet, prepare_packet,
}

-- The command of a request of a sync that nobody takes pushes of.
abbrev pub carried : ℕ → List ℕ → Command
carried sync packet = Command.request sync packet sync none

module _ (w : Outside) where
  -- A request that the task answers.
  submit-answered :
      (build : ℕ → Outcome (List ℕ)) (packet : List ℕ) (h : Handle) (r : Response w.Value)
      → build h.next_sync ≡ ok packet
      → w.fate h.next_sync ≡ answered r
      → submit w build h ≡ (
        await_reply (answered r),
        record h {
          next_sync = bump h.next_sync;
          outbox = h.outbox ++ (carried h.next_sync packet ∷ []);
        },
      )
  unfolding submit draw_sync request request_inner meet
  submit-answered build packet h r e f = rw (e, f) refl

  -- The handle after a request was sent.
  abbrev pub after : (ℕ → List ℕ) → Handle → Handle
  after packet h = record h {
    next_sync = bump h.next_sync;
    outbox = h.outbox ++ (carried h.next_sync (packet h.next_sync) ∷ []);
  }

  -- The packets of EXECUTE and PREPARE.
  abbrev pub executed : ℕ → Option ℕ → List ℕ → ℕ → List ℕ
  executed id stream bind sync = finish w.rmp (
      Request.raw w.rmp
        (Request.uint w.rmp (Request.new w.rmp Types.execute sync stream) Key.stmt_id id)
        Key.sql_bind bind)

  abbrev pub prepared : List ℕ → ℕ → List ℕ
  prepared sql sync =
      finish w.rmp (Request.str w.rmp (Request.new w.rmp Types.prepare sync none) Key.sql_text sql)

  meet-await_reply :
      (f : Fate w.Value) (c : Command) (h : Handle)
      → ((meet f c h).0 ≡ await_reply f) × (length (meet f c h).1.outbox ≤ length h.outbox + 1)
  unfolding meet await_reply
  meet-await_reply Fate.shut c h = (refl, omega arith)
  meet-await_reply Fate.no_task c h = (refl, omega arith)
  meet-await_reply Fate.expired c h = (refl, omega (arith, length-append h.outbox (c ∷ [])))
  meet-await_reply Fate.dropped c h = (refl, omega (arith, length-append h.outbox (c ∷ [])))
  meet-await_reply (Fate.refused e) c h = (refl, omega (arith, length-append h.outbox (c ∷ [])))
  meet-await_reply (answered r) c h = (refl, omega (arith, length-append h.outbox (c ∷ [])))

  module _ {Column : Type 0} (s : Statement Column) (stream : Option ℕ) (bind : List ℕ)
      (h : Handle) where
    -- The server no longer knows the statement, prepares its text under an id, and answers the second
    -- attempt: the caller gets that answer, whatever it is, the statement has the new id from then on,
    -- and exactly three requests were sent, EXECUTE by the old id, PREPARE of the text and EXECUTE by
    -- the new id, under three syncs in a row.
    pub run-recovers :
        (gone fresh last : Response w.Value) (id : ℕ)
        → w.fate h.next_sync ≡ answered gone
        → await_reply (answered gone) ≡ err (Error.server wrong_query_id)
        → w.fate (bump h.next_sync) ≡ answered fresh
        → await_reply (answered fresh) ≡ ok fresh
        → fresh.stmt_id ≡ some id
        → w.fate (bump (bump h.next_sync)) ≡ answered last
        → run w s stream (ok bind) h ≡ (
          (await_reply (answered last), record s { id = id }),
          after
              (executed id stream bind)
              (after (prepared s.sql) (after (executed s.id stream bind) h)),
        )
    unfolding run run_bound retry refresh send send_prepare is_wrong_query statement_id
        execute_packet prepare_packet
    run-recovers gone fresh last id a b c d e f =
        let h1 = after (executed s.id stream bind) h in
        let h2 = after (prepared s.sql) h1 in
        rw
          (
            submit-answered (execute_packet w s.id stream bind)
                (executed s.id stream bind h.next_sync) h gone refl a,
            submit-answered (prepare_packet w s.sql) (prepared s.sql h1.next_sync) h1 fresh refl c,
            b,
            d,
            e,
            submit-answered (execute_packet w id stream bind) (executed id stream bind h2.next_sync)
                h2 last refl f,
          )
          refl

  -- Any other outcome is not taken for the failure of a statement that is unknown.
  is_wrong_query-known :
      {A : Type 0} (r : Outcome A)
      → r ≢ err (Error.server wrong_query_id)
      → is_wrong_query w r ≡ false
  unfolding is_wrong_query
  is_wrong_query-known (ok a) other = refl
  is_wrong_query-known panic other = refl
  is_wrong_query-known stuck other = refl
  is_wrong_query-known (err (Error.server code)) other =
      elim (Bool-cases (code == wrong_query_id)) [
        | inl e ↦ absurd (other (ap (λ c. err (Error.server c)) ((==_iff code wrong_query_id).0 e)))
        | inr e ↦ e
      ]
  is_wrong_query-known (err Error.io) other = refl
  is_wrong_query-known (err Error.auth) other = refl
  is_wrong_query-known (err (Error.protocol v)) other = refl
  is_wrong_query-known (err Error.encode_failed) other = refl
  is_wrong_query-known (err Error.decode_failed) other = refl
  is_wrong_query-known (err Error.closed) other = refl
  is_wrong_query-known (err Error.shutting_down) other = refl
  is_wrong_query-known (err Error.timeout) other = refl
  is_wrong_query-known (err Error.url) other = refl
  is_wrong_query-known (err Error.unsupported) other = refl

  module _ {Column : Type 0} (s : Statement Column) (stream : Option ℕ) (h : Handle) where
    -- Whatever becomes of the EXECUTE request, unless it is the one error that the server gives of a
    -- statement that it does not know: the caller gets that outcome, or the failure to encode the
    -- parameters, the statement stays as it is, and one request is sent at most.
    pub run-once :
        (params : Outcome (List ℕ))
        → await_reply (w.fate h.next_sync) ≢ err (Error.server wrong_query_id)
        → ((run w s stream params h).0.0 ≡ (params >>= λ bind. await_reply (w.fate h.next_sync)))
          × ((run w s stream params h).0.1 ≡ s)
          × (length (run w s stream params h).1.outbox ≤ length h.outbox + 1)
    unfolding run run_bound send execute_packet submit draw_sync request request_inner
    run-once (ok bind) other =
        let known = is_wrong_query-known (await_reply (w.fate h.next_sync)) other in
        let first =
          meet-await_reply (w.fate h.next_sync)
            (carried h.next_sync (executed s.id stream bind h.next_sync))
            (record h { next_sync = bump h.next_sync }) in
        rw (first.0, known) (refl, refl, first.1)
    run-once (err e) other = (refl, refl, omega arith)
    run-once panic other = (refl, refl, omega arith)
    run-once stuck other = (refl, refl, omega arith)
