-- ===== src/Scan/Init.antt =====
-- The states of a scan: BuildPushdownQuery, QuackScanInitGlobal and QuackScanInitLocal.
use duckdb_quack.Prelude.{
  ℕ, ◌+◌, ◌%◌, ◌^◌, Bool, true, false, ◌||◌, List, [], ◌∷◌, ◌++◌, map, Bytes, codes, Option, none,
  Result, ok, err, internal, ◌==◌, ◌>>=◌, if◌then◌else◌,
}
use duckdb_quack.Text.Decimal.{to_string}
use duckdb_quack.Client.Pool.{is_empty}
use duckdb_quack.Message.Types.{prepare_request_body, prepare_response_body, prepare_response}
use duckdb_quack.Scan.Remote.{Remote, ask}
use duckdb_quack.Scan.Types.{
  Chunks, ColumnIndex, stored_column, virtual_column, ChunkResult, ChunkResultPushdownType,
  requires_pushdown, pushdown_already_applied, QuackScanBindData,
}

abbrev pub results_of : {C : Type 0} → ChunkResultPushdownType → List C → List (ChunkResult C)
results_of pushdown_type = map (λ chunk. record { chunk = chunk; pushdown_type = pushdown_type })

module _ {C : Type 0} (k : Chunks C) where
  -- What is added to the query for one column.
  unfoldable pub select_column : ColumnIndex → Result Bytes
  select_column (stored_column i) = ok (codes "#" ++ to_string ((i + 1) % 2 ^ 64))
  select_column (virtual_column i) =
      if (i == k.column_identifier_empty) || (i == k.column_identifier_row_id)
      then ok (codes "NULL::BIGINT")
      else err (internal "Unsupported virtual column index" [])

  -- The loop over the columns, with the query so far.
  unfoldable pub select_columns : List ColumnIndex → Bytes → Result Bytes
  unfolding select_column
  select_columns [] query = ok query
  select_columns (c ∷ cs) query =
      let separated = if is_empty query then query else query ++ codes ", " in
      select_column c >>= λ column. select_columns cs (separated ++ column)

  abbrev no_indexes : List ColumnIndex → Bool
  no_indexes [] = true
  no_indexes (c ∷ cs) = false

  unfoldable pub build_pushdown_query : Bytes → List ColumnIndex → Result Bytes
  unfolding select_columns
  build_pushdown_query table_name column_indexes =
      let from = codes "FROM " ++ k.sql_identifier table_name in
      if no_indexes column_indexes
      then ok from
      else select_columns column_indexes [] >>= λ query.
          ok (codes "SELECT " ++ query ++ codes " " ++ from)

  pub record QuackScanGlobalState : Type 0 where
    pub max_threads : ℕ
    pub column_ids : List ColumnIndex
    pub needs_more_fetch : Bool
    pub results : List (ChunkResult C)

  unfoldable pub global_state :
      List ColumnIndex → List (ChunkResult C) → Bool → QuackScanGlobalState
  global_state column_ids results more = record {
    max_threads = if more then k.max_threads else 1;
    column_ids = column_ids;
    needs_more_fetch = more;
    results = results;
  }

module _ {C T : Type 0} (k : Chunks C) (r : Remote C T) where
  -- The global state, the connection of the bind data, and the world that is left.
  unfoldable pub scan_init_global :
      QuackScanBindData r
      → List ColumnIndex
      → r.World
      → Result (QuackScanGlobalState k) × r.Connection × r.World
  unfolding build_pushdown_query global_state ask
  scan_init_global bind_data column_indexes w =
      if is_empty bind_data.table_name
      then (
        ok (
            global_state k column_indexes (results_of requires_pushdown bind_data.results)
              bind_data.needs_more_fetch),
        bind_data.client_connection,
        w,
      )
      else elim (build_pushdown_query k bind_data.table_name column_indexes) [
        | err x ↦ (err x, bind_data.client_connection, w)
        | ok query ↦
            let (answer, connection, w1) =
              ask r prepare_response (prepare_request_body query) bind_data.client_connection w in
            elim answer [
              | err x ↦ (err x, connection, w1)
              | ok m ↦ elim m.body [
                | prepare_response_body types names results more uuid ↦ (
                  ok (
                      global_state k column_indexes (results_of pushdown_already_applied results)
                        more),
                  connection,
                  w1,
                )
                | _ ↦ (
                  err (internal "Failed to cast message to type - message type mismatch" []),
                  connection,
                  w1,
                )
              ]
            ]
      ]

  pub record QuackScanLocalState : Type 0 where
    pub client : r.Client
    pub current_batch_index : Option ℕ
    pub results : List (ChunkResult C)

  -- `QuackScanInitLocal`: the first local state takes the results of the global state.
  unfoldable pub scan_init_local :
      r.Connection
      → QuackScanGlobalState k
      → r.World
      → Result QuackScanLocalState × QuackScanGlobalState k × r.Connection × r.World
  scan_init_local connection global w =
      let (opened, connection1, w1) = r.get_client connection w in
      elim opened [
        | err x ↦ (err x, global, connection1, w1)
        | ok client ↦ (
          ok (record { client = client; current_batch_index = none; results = global.results }),
          record global { results = [] },
          connection1,
          w1,
        )
      ]
