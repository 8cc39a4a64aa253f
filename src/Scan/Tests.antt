-- ===== src/Scan/Tests.antt =====
-- The theorems on scans at concrete inputs: a query with three chunks, read in batches of two.
use duckdb_quack.Prelude.{
  leb, err, internal, ℕ, ◌+◌, ◌-◌, ◌^◌, true, false, List, [], ◌∷◌, codes, Option, none, some, ok,
  foreign, ◌≡◌, refl, arith, inl, ◌==◌, if◌then◌else◌,
}
use duckdb_quack.Text.Reference.{reference}
use duckdb_quack.Server.Batch.Laws.{Yields}
use duckdb_quack.Server.Sample.{sample, sample_uri, opened, answer_of}
use duckdb_quack.Scan.Remote.{Remote}
use duckdb_quack.Scan.Types.{
  Chunks, ColumnIndex, ChunkResult, requires_pushdown, stored_column, bind_data_on,
}
use duckdb_quack.Scan.Bind.{scan_bind_catalog_name}
use duckdb_quack.Scan.Init.{QuackScanLocalState, results_of, global_state}
use duckdb_quack.Scan.Loop.{Output, quack_scan, emit}
use duckdb_quack.Scan.Session.{session_remote}
use duckdb_quack.Scan.Reader.{threw, run_scan, whole}
use duckdb_quack.Scan.Termination.{Returns}
use duckdb_quack.Scan.SessionEnds.{session_scan_terminates}
use duckdb_quack.Scan.ByName.{scan_by_name_loses}
use duckdb_quack.Scan.Threads.{Threads}
use duckdb_quack.Scan.Ledger.{update}

-- A chunk with two columns.
abbrev pieces : Chunks ℕ
pieces = record {
  Vector = ℕ;
  chunk_size = λ c. c;
  vectors = λ c. c ∷ (c + 10) ∷ [];
  column = λ c i. if i == 0 then ok c else ok (c + 10);
  reference = λ width c. if leb 2 width then ok (c ∷ (c + 10) ∷ []) else err (internal "" []);
  null_vector = λ i n. 0;
  column_identifier_empty = 2 ^ 64 - 2;
  column_identifier_row_id = 2 ^ 64 - 1;
  sql_identifier = λ name. name;
  max_threads = 999;
}

abbrev session : Remote ℕ ℕ
session = session_remote sample reference sample_uri (codes "s")

-- The projection to the second column.
abbrev second_column : List ColumnIndex
second_column = stored_column 1 ∷ []

abbrev projected : ℕ → Output pieces
projected c = record { columns = (c + 10) ∷ []; cardinality = c }

-- The projection to both columns, the second one first.
abbrev swapped_columns : List ColumnIndex
swapped_columns = stored_column 1 ∷ stored_column 0 ∷ []

abbrev swapped : ℕ → Output pieces
swapped c = record { columns = (c + 10) ∷ c ∷ []; cardinality = c }

three : Yields sample 1 (answer_of (codes "q")) (1 ∷ 2 ∷ 3 ∷ [])
three = (
  refl,
  refl,
  λ h. omega arith,
  (refl, refl, λ h. omega arith, (refl, refl, λ h. omega arith, (refl, inl (refl, refl)))),
)

session_scan_terminates_example : Returns (
    quack_scan pieces session 2
      (bind_data_on session 3 tt)
      (global_state pieces [] [] true)
      (record { client = tt; current_batch_index = none; results = [] })
      (0, opened))
session_scan_terminates_example =
    session_scan_terminates sample reference pieces (λ c. refl) sample_uri (codes "s") 0
      (bind_data_on session 3 tt) (global_state pieces [] [] true)
      (record { client = tt; current_batch_index = none; results = [] }) 0 opened

scan_by_name_loses_example :
    run_scan pieces session 4 second_column (
      scan_bind_catalog_name session 0
        (λ name. some (record { catalog_type = codes "quack"; client_connection = tt }))
        (some (codes "db"))
        (some (codes "q"))
        (0, opened))
    ≡ (projected 1 ∷ projected 2 ∷ [], threw (foreign (codes "Result has been closed")))
unfolding emit
scan_by_name_loses_example =
    scan_by_name_loses sample reference pieces sample_uri (codes "s") 2 4 0 second_column
      (λ name. some (record { catalog_type = codes "quack"; client_connection = tt })) (codes "db")
      (record { catalog_type = codes "quack"; client_connection = tt }) 0 0 opened (codes "q")
      (codes "x") [] 0 (answer_of (codes "q")) (1 ∷ 2 ∷ 3 ∷ []) (projected 1 ∷ projected 2 ∷ [])
      refl refl refl refl refl three
      (refl, λ h. omega arith, λ h. omega arith, (refl, λ h. omega arith, λ h. omega arith, refl))
      (omega arith) (λ h. omega arith) (omega arith)

-- The second thread takes the second batch before the first thread is through with the first.
abbrev schedule : List ℕ
schedule = 1 ∷ 0 ∷ 0 ∷ 1 ∷ []

abbrev local_of : Option ℕ → List (ChunkResult ℕ) → QuackScanLocalState pieces session
local_of index results = record { client = tt; current_batch_index = index; results = results }

-- The local states after the start and the four calls.
abbrev locals : ℕ → QuackScanLocalState pieces session
locals =
    update
      (update
        (update
          (update
            (update (λ i. local_of none []) 0
              (local_of none (results_of requires_pushdown (1 ∷ 2 ∷ []))))
            1 (local_of (some 1) []))
          0 (local_of none (results_of requires_pushdown (2 ∷ []))))
        0 (local_of none []))
      1 (local_of (some 1) [])

abbrev ended : Threads pieces session
ended = record {
  global = record {
    max_threads = 999;
    column_ids = swapped_columns;
    needs_more_fetch = false;
    results = [];
  };
  locals = locals;
  world = (1, record opened { duckdb_query_result = none; next_batch_index = 2; result_uuid = 1 });
  log = (1, whole pieces 3) ∷ (0, swapped 1) ∷ (0, swapped 2) ∷ [];
  failures = [];
}
