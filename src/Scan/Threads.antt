-- ===== src/Scan/Threads.antt =====
-- Several threads on one scan: each has its local state, and the calls interleave in any order.
use duckdb_quack.Prelude.{
  ℕ, List, [], ◌∷◌, ◌++◌, Option, none, some, Exception, ok, err, ◌==◌, if◌then◌else◌,
}
use duckdb_quack.Scan.Remote.{Remote}
use duckdb_quack.Scan.Types.{Chunks, ColumnIndex, QuackScanBindData}
use duckdb_quack.Scan.Bind.{Bind}
use duckdb_quack.Scan.Init.{
  QuackScanGlobalState, QuackScanLocalState, scan_init_global, scan_init_local,
}
use duckdb_quack.Scan.Loop.{Output, Called, quack_scan, partition_index}
use duckdb_quack.Scan.Reader.{rounds}
use duckdb_quack.Scan.Ledger.{update}

module _ {C T : Type 0} (k : Chunks C) (r : Remote C T) where
  -- `log` has the outputs with rows in the order of the calls, each with its partition index.
  pub record Threads : Type 0 where
    pub global : QuackScanGlobalState k
    pub locals : ℕ → QuackScanLocalState k r
    pub world : r.World
    pub log : List (ℕ × Output k)
    pub failures : List Exception

  abbrev logged : Called k r → List (ℕ × Output k)
  logged called = elim called.output [
    | err x ↦ []
    | ok output ↦
        if output.cardinality == 0 then [] else (partition_index k r called.local, output) ∷ []
  ]

  abbrev failed : Called k r → List Exception
  failed called = elim called.output [ err x ↦ x ∷ [] | ok output ↦ [] ]

  abbrev pub after_call : ℕ → Threads → Option (Called k r) → Threads
  unfolding partition_index
  after_call i t none = t
  after_call i t (some called) = record {
    global = called.global;
    locals = update t.locals i called.local;
    world = called.world;
    log = t.log ++ logged called;
    failures = t.failures ++ failed called;
  }

  -- One call by thread i.
  unfoldable pub turn : QuackScanBindData r → ℕ → Threads → Threads
  unfolding quack_scan partition_index
  turn bind_data i t =
      after_call i t (quack_scan k r rounds bind_data t.global (t.locals i) t.world)

  unfoldable pub run_threads : QuackScanBindData r → List ℕ → Threads → Threads
  unfolding turn
  run_threads bind_data [] t = t
  run_threads bind_data (i ∷ schedule) t = run_threads bind_data schedule (turn bind_data i t)

  -- The states of the threads of a bound scan, of which `first` makes its local state first.
  unfoldable pub start_threads :
      ℕ → List ColumnIndex → Bind r → Option (QuackScanBindData r × Threads)
  unfolding scan_init_global scan_init_local
  start_threads first column_ids (err x, w) = none
  start_threads first column_ids (ok bound, w) =
      let (global, connection, w1) = scan_init_global k r bound.bind_data column_ids w in
      elim global [
        | err x ↦ none
        | ok global ↦
            let (mine, global1, connection1, w2) = scan_init_local k r connection global w1 in
            let (others, global2, connection2, w3) = scan_init_local k r connection1 global1 w2 in
            elim mine [
              | err x ↦ none
              | ok mine ↦ elim others [
                | err x ↦ none
                | ok others ↦ some (
                  bound.bind_data,
                  record {
                    global = global2;
                    locals = update (λ i. others) first mine;
                    world = w3;
                    log = [];
                    failures = [];
                  },
                )
              ]
            ]
      ]

  -- A bound scan whose threads make calls in the order of the schedule.
  unfoldable pub run_parallel : ℕ → List ℕ → List ColumnIndex → Bind r → Option Threads
  unfolding start_threads run_threads
  run_parallel first schedule column_ids bound = elim (start_threads first column_ids bound) [
    | none ↦ none
    | some (bind_data, t) ↦ some (run_threads bind_data schedule t)
  ]
