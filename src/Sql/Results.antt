-- ===== src/Sql/Results.antt =====
-- What sql.rs and client.rs read of the reply to a statement: rows, or what it changed. Deserialising a
-- map of small keys (`read_info`) is serde's, and an argument.
use tarant.Base.{ℕ, ◌==◌, if◌then◌else◌, Option, none, some, List, [], ◌∷◌, ok, err, ok_or}
use tarant.Base as Base
use tarant.Error.{Error, Outcome}
use tarant.Rmpv.{Rmpv}
use tarant.Codec.Response.{Response, sql_info_bytes}
use tarant.Client.{Handle, M, ◌>>=◌, lift, Outside}
use tarant.Sql.{Statement, run, run_text, rows}

-- `sql::INFO_ROW_COUNT` and `sql::INFO_AUTOINCREMENT_IDS`
abbrev info_row_count : ℕ
info_row_count = 0

abbrev info_autoincrement_ids : ℕ
info_autoincrement_ids = 1

pub record Exec : Type 0 where
  pub row_count : ℕ
  pub autoincrement_ids : List ℕ

unfoldable pub no_change : Exec
no_change = record { row_count = 0; autoincrement_ids = [] }

module _ (rmpv : Rmpv) where
  -- `BTreeMap::get`
  unfoldable pub find_info : ℕ → List (ℕ × rmpv.Value) → Option rmpv.Value
  find_info k [] = none
  find_info k ((j, v) ∷ rest) = let later = find_info k rest in if j == k then some v else later

  unfoldable pub row_count_of : Option rmpv.Value → ℕ
  row_count_of none = 0
  row_count_of (some v) = elim (rmpv.as_u64 v) [ none ↦ 0 | some n ↦ n ]

  unfoldable pub numbers : List rmpv.Value → List ℕ
  numbers [] = []
  numbers (v ∷ vs) =
      let rest = numbers vs in elim (rmpv.as_u64 v) [ none ↦ rest | some n ↦ n ∷ rest ]

  unfoldable pub ids_of : Option rmpv.Value → List ℕ
  unfolding numbers
  ids_of none = []
  ids_of (some v) = elim (rmpv.as_array v) [ none ↦ [] | some ids ↦ numbers ids ]

  module _ (read_info : List ℕ → Option (List (ℕ × rmpv.Value))) where
    unfoldable pub exec_info : Option (List ℕ) → Outcome Exec
    unfolding no_change find_info row_count_of ids_of
    exec_info none = ok no_change
    exec_info (some bytes) = Base.◌>>=◌ (ok_or (read_info bytes) Error.decode_failed) λ info.
        ok (record {
          row_count = row_count_of (find_info info_row_count info);
          autoincrement_ids = ids_of (find_info info_autoincrement_ids info);
        })

    unfoldable pub exec : {V : Type 0} → Response V → Outcome Exec
    unfolding exec_info
    exec r = Base.◌>>=◌ (sql_info_bytes r) exec_info

    -- `execute` of a client (`none`) and of a stream.
    unfoldable pub execute_text : Outside → Option ℕ → List ℕ → Outcome (List ℕ) → M Exec
    unfolding exec
    execute_text w stream sql params = do r ← run_text w stream sql params; lift (exec r)

    -- `execute` of a statement and `execute_prepared` of a stream, with the statement after it.
    unfoldable pub execute :
        {Column : Type 0}
        → Outside
        → Statement Column
        → Option ℕ
        → Outcome (List ℕ)
        → Handle
        → (Outcome Exec × Statement Column) × Handle
    unfolding exec
    execute w s stream params h =
        let ran = run w s stream params h in ((Base.◌>>=◌ ran.0.0 exec, ran.0.1), ran.1)

module _ {Column T : Type 0} (read_columns : List ℕ → Option (List Column))
    (decode : List ℕ → Option T) where
  -- `query` of a client and of a stream.
  unfoldable pub query_text : Outside → Option ℕ → List ℕ → Outcome (List ℕ) → M (List Column × T)
  query_text w stream sql params = do
    r ← run_text w stream sql params
    lift (rows w read_columns decode r)

  -- `query` of a statement and `query_prepared` of a stream.
  unfoldable pub query :
      Outside
      → Statement Column
      → Option ℕ
      → Outcome (List ℕ)
      → Handle
      → (Outcome (List Column × T) × Statement Column) × Handle
  query w s stream params h =
      let ran = run w s stream params h in
      ((Base.◌>>=◌ ran.0.0 (rows w read_columns decode), ran.0.1), ran.1)
