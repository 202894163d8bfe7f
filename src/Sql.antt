-- ===== src/Sql.antt =====
-- sql.rs: prepared statements, and what is read of the replies. What serde makes of parameters
-- (`bind`), of rows and of metadata is an argument.
pub mod Recovery
pub mod Results
pub mod Columns
use tarant.Base.{
  ℕ, ◌==◌, if◌then◌else◌, Bool, true, false, Option, none, some, List, [], ◌∷◌, ok, err, panic,
  stuck, ok_or,
}
use tarant.Base as Base
use tarant.Error.{Error, Violation, Outcome}
use tarant.Error.Codes.{wrong_query_id}
use tarant.Iproto.Key
use tarant.Iproto.Request as Types
use tarant.Codec.Request
use tarant.Codec.Request.{finish}
use tarant.Codec.Response.{
  Response, decoded_data, has_data, metadata_bytes, bind_metadata_bytes, sql_info_bytes,
}
use tarant.Client.{Handle, M, ◌>>=◌, ◌>>◌, lift, return, Outside, draw_sync, request, submit, fire}
use tarant.Client.Calls.{finished}

-- `Statement`: its text, and its id on the server, which a new session changes.
pub record Statement (Column : Type 0) : Type 0 where
  pub sql : List ℕ
  pub id : ℕ
  pub columns : List Column
  pub parameters : List Column
  pub parameter_count : ℕ
  pub released : Bool

unfoldable pub statement_id : {V : Type 0} → Response V → Outcome ℕ
statement_id r = ok_or r.stmt_id (Error.protocol Violation.no_statement_id)

module _ {Column : Type 0} (read_columns : List ℕ → Option (List Column)) where
  -- `columns`
  unfoldable pub columns_of : Outcome (Option (List ℕ)) → Outcome (List Column)
  columns_of bytes =
      Base.◌>>=◌ bytes
        λ b. elim b [ none ↦ ok [] | some l ↦ ok_or (read_columns l) Error.decode_failed ]

module _ (w : Outside) where
  unfoldable pub prepare_packet : List ℕ → ℕ → Outcome (List ℕ)
  prepare_packet sql sync = ok (
      finish w.rmp (Request.str w.rmp (Request.new w.rmp Types.prepare sync none) Key.sql_text sql))

  unfoldable pub send_prepare : List ℕ → M (Response w.Value)
  unfolding submit prepare_packet
  send_prepare sql = submit w (prepare_packet sql)

  unfoldable pub run_text_packet : Option ℕ → List ℕ → Outcome (List ℕ) → ℕ → Outcome (List ℕ)
  run_text_packet stream sql bind sync = finished w (
      Request.array w.rmp
        (Request.str w.rmp (Request.new w.rmp Types.execute sync stream) Key.sql_text sql)
        Key.sql_bind bind)

  unfoldable pub run_text : Option ℕ → List ℕ → Outcome (List ℕ) → M (Response w.Value)
  unfolding submit run_text_packet
  run_text stream sql bind = submit w (run_text_packet stream sql bind)

  unfoldable pub execute_packet : ℕ → Option ℕ → List ℕ → ℕ → Outcome (List ℕ)
  execute_packet id stream bind sync = ok (
      finish w.rmp (
        Request.raw w.rmp
          (Request.uint w.rmp (Request.new w.rmp Types.execute sync stream) Key.stmt_id id)
          Key.sql_bind bind))

  unfoldable pub send : ℕ → Option ℕ → List ℕ → M (Response w.Value)
  unfolding submit execute_packet
  send id stream bind = submit w (execute_packet id stream bind)

  unfoldable pub unprepare_packet : ℕ → ℕ → List ℕ
  unprepare_packet id sync =
      finish w.rmp (Request.uint w.rmp (Request.new w.rmp Types.prepare sync none) Key.stmt_id id)

  -- The failure that tells that the session of a statement is gone.
  unfoldable pub is_wrong_query : {A : Type 0} → Outcome A → Bool
  is_wrong_query (err (Error.server code)) = code == wrong_query_id
  is_wrong_query r = false

  -- Preparing again gives the id by which the statement runs from then on.
  unfoldable pub refresh : List ℕ → M ℕ
  unfolding send_prepare statement_id
  refresh sql = do fresh ← send_prepare sql; lift (statement_id fresh)

  -- The second attempt, under the id that preparing again has given.
  unfoldable pub retry :
      ℕ → Option ℕ → List ℕ → Outcome ℕ → Handle → (Outcome (Response w.Value) × ℕ) × Handle
  unfolding send
  retry id stream bind (ok fresh) h =
      let sent = send fresh stream bind h in ((sent.0, fresh), sent.1)
  retry id stream bind (err e) h = ((err e, id), h)
  retry id stream bind panic h = ((panic, id), h)
  retry id stream bind stuck h = ((stuck, id), h)

  -- `run`: the result, and the statement's id after it.
  unfoldable pub run_bound :
      List ℕ → ℕ → Option ℕ → List ℕ → Handle → (Outcome (Response w.Value) × ℕ) × Handle
  unfolding send refresh is_wrong_query retry
  run_bound sql id stream bind h =
      let sent = send id stream bind h in
      let again = refresh sql sent.1 in
      if is_wrong_query sent.0 then retry id stream bind again.0 again.1 else ((sent.0, id), sent.1)

  module _ {Column : Type 0} where
    -- The parameters are encoded first.
    unfoldable pub run :
        Statement Column
        → Option ℕ
        → Outcome (List ℕ)
        → Handle
        → (Outcome (Response w.Value) × Statement Column) × Handle
    unfolding run_bound
    run s stream (ok bind) h =
        let ran = run_bound s.sql s.id stream bind h in
        ((ran.0.0, record s { id = ran.0.1 }), ran.1)
    run s stream (err e) h = ((err e, s), h)
    run s stream panic h = ((panic, s), h)
    run s stream stuck h = ((stuck, s), h)

    -- `prepare` once the reply is there: the id is checked last.
    unfoldable pub statement_of :
        {V : Type 0}
        → (List ℕ → Option (List Column))
        → List ℕ
        → Response V
        → Outcome (Statement Column)
    unfolding statement_id columns_of
    statement_of read_columns sql r =
        Base.◌>>=◌ (columns_of read_columns (metadata_bytes r)) λ columns.
          Base.◌>>=◌ (columns_of read_columns (bind_metadata_bytes r)) λ parameters.
            Base.◌>>=◌ (statement_id r) λ id. ok (record {
              sql = sql;
              id = id;
              columns = columns;
              parameters = parameters;
              parameter_count = elim (r.bind_count) [ none ↦ 0 | some n ↦ n ];
              released = false;
            })

    unfoldable pub prepare : (List ℕ → Option (List Column)) → List ℕ → M (Statement Column)
    unfolding send_prepare statement_of
    prepare read_columns sql = do r ← send_prepare sql; lift (statement_of read_columns sql r)

    -- `unprepare` consumes the statement, which is then dropped as released.
    unfoldable pub unprepare : Statement Column → M (Unit {0})
    unfolding submit unprepare_packet
    unprepare s = do r ← submit w (λ sync. ok (unprepare_packet s.id sync)); return tt

    unfoldable pub drop_statement : Statement Column → M (Unit {0})
    unfolding draw_sync fire unprepare_packet
    drop_statement s =
        if s.released
        then return tt
        else (draw_sync >>= λ sync. fire w (unprepare_packet s.id sync))

    -- `rows`: a reply without data is no result set.
    unfoldable pub rows :
        {T : Type 0}
        → (List ℕ → Option (List Column))
        → (List ℕ → Option T)
        → Response w.Value
        → Outcome (List Column × T)
    unfolding columns_of
    rows read_columns decode r =
        if has_data r
        then Base.◌>>=◌ (columns_of read_columns (metadata_bytes r))
            (λ c. Base.◌>>=◌ (decoded_data decode r) (λ d. ok (c, d)))
        else err Error.decode_failed
