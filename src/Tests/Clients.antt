-- ===== src/Tests/Clients.antt =====
-- The theorems on the user's side of a connection at concrete operations.
use tarant.Base.{
  ℕ, ◌≤◌, ◌≡◌, ◌≢◌, ◌==◌, refl, true, false, none, some, List, [], ◌∷◌, ◌++◌, length, map, ok, err,
  arith, if◌then◌else◌, ◌&&◌,
}
use tarant.Error.{Error, Outcome}
use tarant.Error.Codes.{wrong_query_id}
use tarant.Iproto.Code.{Feature}
use tarant.Iproto.Request as Types
use tarant.Codec.Request
use tarant.Codec.Request.{finish}
use tarant.Codec.Response.{Response, Kind, into_error}
use tarant.Codec.ServerError.{from_message}
use tarant.Connection.{Command}
use tarant.Client.{Handle, Outside, answered, await_reply, settle, connected, draw_sync}
use tarant.Client.Script.{Op, perform_all}
use tarant.Client.Served.{Moment, serve, AllKept, serve-perform_all}
use tarant.Client.Stream.{Stream, plain, drop_stream}
use tarant.Client.Transactions.{Act, session, is_open, drop_stream-session}
use tarant.Sql.{Statement, run}
use tarant.Sql.Recovery.{after, executed, prepared, run-recovers, run-once}
use tarant.Update.{empty, into_ops, FieldRef, Operand}
use tarant.Update.Ops.{Change, change_all, encoded, all_of, into_ops-change_all}
use tarant.Tests.Crates.{rmp_example}
use tarant.Tests.Links.{idle, up, answer}

abbrev pub reply_example : Response (Unit {0})
reply_example = record {
  kind = Kind.reply;
  sync = 0;
  schema_version = none;
  body = [];
  data_at = none;
  position = none;
  error = none;
  event_key = none;
  event_data = none;
  metadata = none;
  bind_metadata = none;
  sql_info = none;
  bind_count = none;
  stmt_id = some 77;
}

abbrev gone_example : Response (Unit {0})
gone_example = record reply_example {
  kind = Kind.failure;
  error = some (from_message wrong_query_id []);
}

-- The first request meets a server that has restarted.
abbrev pub outside_example : Outside
outside_example = record {
  rmp = rmp_example;
  Value = Unit {0};
  fate = λ sync. if sync == 1 then answered gone_example else answered reply_example;
  room = λ h. true;
  task_runs = λ h. true;
}

abbrev features_example : List Feature
features_example = Feature.transactions ∷ Feature.watchers ∷ []

abbrev statement_example : Statement (Unit {0})
statement_example = record {
  sql = b's' ∷ [];
  id = 5;
  columns = [];
  parameters = [];
  parameter_count = 0;
  released = false;
}

abbrev ops_example : List Op
ops_example =
    Op.ping ∷ Op.run_statement statement_example none (ok []) ∷ Op.call (b'f' ∷ []) (ok []) ∷ []

abbrev moments_example : List Moment
moments_example =
    Moment.takes true
    ∷ Moment.arrives up answer
    ∷ Moment.takes true
    ∷ Moment.loses
    ∷ Moment.takes true
    ∷ []

serve-perform_all_example : AllKept (
    serve rmp_example
      (perform_all outside_example ops_example (connected features_example)).outbox
      idle
      moments_example)
serve-perform_all_example =
    serve-perform_all outside_example features_example ops_example idle moments_example
      (omega arith) refl

abbrev stream_example : Stream
stream_example = record { id = 3; in_transaction = false }

abbrev acts_example : List Act
acts_example =
    Act.begins plain ∷ Act.commits ∷ Act.begins plain ∷ Act.calls (b'f' ∷ []) (ok []) ∷ []

drop_stream-session_example :
    (let ran = session outside_example acts_example stream_example (connected features_example) in
      (drop_stream outside_example ran.0.1 ran.1).1.outbox ≡ (
        if is_open false ran.0.0 && outside_example.room (draw_sync ran.1).1
        then ran.1.outbox
          ++ (Command.fire (
                finish rmp_example
                  (Request.new rmp_example Types.rollback ran.1.next_sync (some 3)))
              ∷ [])
        else ran.1.outbox))
drop_stream-session_example =
    drop_stream-session outside_example acts_example stream_example (connected features_example)
      refl

gone_answer : await_reply (answered gone_example) ≡ err (Error.server wrong_query_id)
unfolding await_reply settle into_error from_message
gone_answer = refl

fresh_answer : await_reply (answered reply_example) ≡ ok reply_example
unfolding await_reply settle
fresh_answer = refl

run-recovers_example :
    (let h = connected features_example in
      run outside_example statement_example none (ok (0x90 ∷ [])) h ≡ (
        (await_reply (answered reply_example), record statement_example { id = 77 }),
        after outside_example (executed outside_example 77 none (0x90 ∷ [])) (
            after outside_example
              (prepared outside_example (b's' ∷ []))
              (after outside_example (executed outside_example 5 none (0x90 ∷ [])) h)),
      ))
unfolding connected
run-recovers_example =
    run-recovers outside_example statement_example none (0x90 ∷ []) (connected features_example)
      gone_example reply_example reply_example 77 refl gone_answer refl fresh_answer refl refl

abbrev later_example : Handle
later_example = record {
  next_sync = 2;
  next_stream_id = 1;
  next_watch_id = 1;
  features = [];
  outbox = [];
}

fresh_known :
    await_reply (outside_example.fate later_example.next_sync) ≢ err (Error.server wrong_query_id)
unfolding await_reply settle
fresh_known e = cc e

run-once_example :
    ((run outside_example statement_example none (ok (0x90 ∷ [])) later_example).0.0
      ≡ await_reply (answered reply_example))
    × ((run outside_example statement_example none (ok (0x90 ∷ [])) later_example).0.1
        ≡ statement_example)
    × (length (run outside_example statement_example none (ok (0x90 ∷ [])) later_example).1.outbox
        ≤ 1)
run-once_example =
    run-once outside_example statement_example none later_example (ok (0x90 ∷ [])) fresh_known

abbrev to_msgpack_example : ℕ → FieldRef → Operand ℕ → Outcome (List ℕ)
to_msgpack_example symbol field (Operand.count n) = err Error.encode_failed
to_msgpack_example symbol field x = ok (symbol ∷ [])

abbrev changes_example : List (Change ℕ)
changes_example = Change.sets (FieldRef.path []) 7 ∷ Change.deletes (FieldRef.path []) 1 ∷ []

into_ops-change_all_example :
    into_ops (change_all to_msgpack_example empty changes_example)
    ≡ all_of (map (encoded to_msgpack_example) changes_example)
into_ops-change_all_example = into_ops-change_all to_msgpack_example changes_example
