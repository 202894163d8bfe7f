-- ===== src/Client/Script.antt =====
-- Whatever a program does with a client, statements and watchers, in any order: the syncs of its requests.
use tarant.Base.{ℕ, Option, some, List, [], ◌∷◌}
use tarant.Error.{Outcome}
use tarant.Update.{Update}
use tarant.Client.{Handle, Outside, watch, unwatch, close}
use tarant.Client.Calls as Calls
use tarant.Client.Select.{Select}
use tarant.Client.Select as Selects
use tarant.Client.Space as Space
use tarant.Client.Stream.{Stream, TxOptions}
use tarant.Client.Stream as Streams
use tarant.Sql.{Statement}
use tarant.Sql as Sql

-- The operations that reach the channel. A stream and a statement stand with their state, which may be any.
pub data Op : Type 0 where
  call eval call_with_pushes eval_with_pushes : (text : List ℕ) (args : Outcome (List ℕ)) → Op
  ping close_client : Op
  watch_once watch_key : (key : List ℕ) → Op
  unwatch_key : (id : ℕ) (key : List ℕ) → Op
  write : (ty : ℕ) (space : List ℕ) (tuple : Outcome (List ℕ)) → Op
  insert_arrow : (space ipc : List ℕ) → Op
  delete : (space : List ℕ) (key : Outcome (List ℕ)) → Op
  update upsert : (space : List ℕ) (key_or_tuple : Outcome (List ℕ)) (ops : Update) → Op
  select : Select → Op
  begin : Stream → TxOptions → Op
  conclude : (ty : ℕ) → Stream → Op
  stream_call stream_eval : Stream → (text : List ℕ) (args : Outcome (List ℕ)) → Op
  drop_stream : Stream → Op
  run_text : (stream : Option ℕ) (sql : List ℕ) (bind : Outcome (List ℕ)) → Op
  prepare : (sql : List ℕ) → Op
  run_statement : Statement (Unit {0}) → (stream : Option ℕ) (params : Outcome (List ℕ)) → Op
  unprepare drop_statement : Statement (Unit {0}) → Op

-- Results do not matter here.
abbrev pub anything {ℓ} : {T : Type ℓ} → T → List ℕ → Option T
anything t bytes = some t

module _ (w : Outside) where
  unfoldable pub perform : Op → Handle → Handle
  perform (call text args) h = (Calls.call w (anything tt) text args h).1
  perform (eval text args) h = (Calls.eval w (anything tt) text args h).1
  perform (call_with_pushes text args) h = (Calls.call_with_pushes w text args h).1
  perform (eval_with_pushes text args) h = (Calls.eval_with_pushes w text args h).1
  perform ping h = (Calls.ping w h).1
  perform close_client h = (close w h).1
  perform (watch_once key) h = (Calls.watch_once w (anything tt) key h).1
  perform (watch_key key) h = (watch w key h).1
  perform (unwatch_key id key) h = (unwatch w id key h).1
  perform (write ty space tuple) h = (Space.write w space ty tuple h).1
  perform (insert_arrow space ipc) h = (Space.insert_arrow w space ipc h).1
  perform (delete space key) h = (Space.delete w space (anything (tt ∷ [])) key h).1
  perform (update space key ops) h = (Space.update w space (anything (tt ∷ [])) key ops h).1
  perform (upsert space tuple ops) h = (Space.upsert w space tuple ops h).1
  perform (select s) h = (Selects.run w s h).1
  perform (begin s options) h = (Streams.begin w s options h).1
  perform (conclude ty s) h = (Streams.conclude w ty s h).1
  perform (stream_call s text args) h = (Streams.call w (anything tt) s text args h).1
  perform (stream_eval s text args) h = (Streams.eval w (anything tt) s text args h).1
  perform (drop_stream s) h = (Streams.drop_stream w s h).1
  perform (run_text stream sql bind) h = (Sql.run_text w stream sql bind h).1
  perform (prepare sql) h = (Sql.prepare w (anything (tt ∷ [])) sql h).1
  perform (run_statement s stream params) h = (Sql.run w s stream params h).1
  perform (unprepare s) h = (Sql.unprepare w s h).1
  perform (drop_statement s) h = (Sql.drop_statement w s h).1

  unfoldable pub perform_all : List Op → Handle → Handle
  unfolding perform
  perform_all [] h = h
  perform_all (op ∷ ops) h = perform_all ops (perform op h)
