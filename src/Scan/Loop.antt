-- ===== src/Scan/Loop.antt =====
-- `QuackScan`: one call gives a chunk of the buffer, or fetches the next batch.
use duckdb_quack.Prelude.{
  length, ℕ, zero, suc, false, List, [], ◌∷◌, ◌++◌, Option, none, some, Result, ok, err, ◌==◌,
  ◌>>=◌, if◌then◌else◌,
}
use duckdb_quack.Message.Types.{message, fetch_request_body, fetch_response}
use duckdb_quack.Scan.Remote.{Remote}
use duckdb_quack.Scan.Types.{
  Chunks, ColumnIndex, stored_column, virtual_column, ChunkResult, as_fetch_response,
  requires_pushdown, pushdown_already_applied, QuackScanBindData,
}
use duckdb_quack.Scan.Init.{QuackScanGlobalState, QuackScanLocalState, results_of}

module _ {C : Type 0} (k : Chunks C) where
  -- The output chunk: the columns that were referenced, and its cardinality.
  pub record Output : Type 0 where
    pub columns : List k.Vector
    pub cardinality : ℕ

  -- The output as DuckDB hands it over.
  abbrev pub blank : Output
  blank = record { columns = []; cardinality = 0 }

  -- The loop over the columns of a projection, which returns at a virtual column without setting
  -- the cardinality.
  unfoldable pub project : ℕ → C → List ColumnIndex → List k.Vector → Result Output
  project i chunk [] columns = ok (record { columns = columns; cardinality = k.chunk_size chunk })
  project i chunk (virtual_column j ∷ ids) columns =
      ok
        (record { columns = columns ++ k.null_vector i (k.chunk_size chunk) ∷ []; cardinality = 0 })
  project i chunk (stored_column j ∷ ids) columns =
      k.column chunk j >>= λ vector. project (suc i) chunk ids (columns ++ vector ∷ [])

  unfoldable pub emit : List ColumnIndex → ChunkResult C → Result Output
  unfolding project
  emit column_ids c = elim c.pushdown_type [
    | pushdown_already_applied ↦ k.reference (length column_ids) c.chunk >>= λ columns.
        ok (record { columns = columns; cardinality = k.chunk_size c.chunk })
    | requires_pushdown ↦ project 0 c.chunk column_ids []
  ]

  -- The loop over the buffer, which drops empty chunks: the chunk that it finds, and the rest.
  unfoldable pub pop_results : List (ChunkResult C) → Option (ChunkResult C × List (ChunkResult C))
  pop_results [] = none
  pop_results (c ∷ cs) =
      let rest = pop_results cs in if k.chunk_size c.chunk == 0 then rest else some (c, cs)

module _ {C T : Type 0} (k : Chunks C) (r : Remote C T) where
  -- A call's output or exception, and the states and the world that it leaves.
  pub record Called : Type 0 where
    pub output : Result (Output k)
    pub global : QuackScanGlobalState k
    pub local : QuackScanLocalState k r
    pub world : r.World

  -- The body of the outer loop, with what follows a `continue`.
  unfoldable pub round :
      QuackScanBindData r
      → (QuackScanLocalState k r → r.World → Option Called)
      → QuackScanGlobalState k
      → QuackScanLocalState k r
      → r.World
      → Option Called
  unfolding pop_results emit message
  round bind_data continue global local w = elim (pop_results k local.results) [
    | some (c, rest) ↦ some (record {
      output = emit k global.column_ids c;
      global = global;
      local = record local { results = rest };
      world = w;
    })
    | none ↦
        let drained : QuackScanLocalState k r = record local { results = [] } in
        if global.needs_more_fetch
        then (let (answer, client, w1) =
              r.request fetch_response
                (message (r.connection_id bind_data.client_connection)
                  (fetch_request_body bind_data.result_uuid))
                local.client w in
            let asked : QuackScanLocalState k r = record drained { client = client } in
            elim answer [
              | err x ↦ some (record { output = err x; global = global; local = asked; world = w1 })
              | ok m ↦ elim (as_fetch_response m) [
                | err x ↦
                    some (record { output = err x; global = global; local = asked; world = w1 })
                | ok (results, batch_index) ↦ elim results [
                  | [] ↦ some (record {
                    output = ok (blank k);
                    global = record global { needs_more_fetch = false };
                    local = asked;
                    world = w1;
                  })
                  | c ∷ cs ↦
                      continue
                        (record asked {
                          results = results_of pushdown_already_applied (c ∷ cs);
                          current_batch_index = batch_index;
                        })
                        w1
                ]
              ]
            ])
        else some (record { output = ok (blank k); global = global; local = drained; world = w })
  ]

  -- `QuackScan`; `none` is a loop that is still running after `fuel` rounds.
  unfoldable pub quack_scan :
      ℕ
      → QuackScanBindData r
      → QuackScanGlobalState k
      → QuackScanLocalState k r
      → r.World
      → Option Called
  unfolding round
  quack_scan zero bind_data global local w = none
  quack_scan (suc fuel) bind_data global local w =
      round bind_data (λ local1 w1. quack_scan fuel bind_data global local1 w1) global local w

  -- `QuackScanGetPartitionData`
  unfoldable pub partition_index : QuackScanLocalState k r → ℕ
  partition_index local = elim local.current_batch_index [ none ↦ 0 | some i ↦ i ]
