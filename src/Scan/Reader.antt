-- ===== src/Scan/Reader.antt =====
-- All calls of one thread on a scan, as DuckDB makes them, up to an output without a row.
use duckdb_quack.Prelude.{
  length, ◌≤◌, ne→==false, ℕ, zero, suc, List, [], ◌∷◌, map, Option, none, some, Exception, ok, err,
  ◌≡◌, ◌≢◌, refl, ap, ◌∙◌, All, ◌==◌, if◌then◌else◌,
}
use duckdb_quack.Scan.Remote.{Remote}
use duckdb_quack.Scan.Types.{
  Chunks, ChunksLaws, ColumnIndex, ChunkResult, pushdown_already_applied, QuackScanBindData,
}
use duckdb_quack.Scan.Bind.{Bind}
use duckdb_quack.Scan.Init.{
  QuackScanGlobalState, QuackScanLocalState, results_of, scan_init_global, scan_init_local,
}
use duckdb_quack.Scan.Loop.{Output, Called, blank, emit, quack_scan}

-- How the calls of a scan end.
pub data Ending : Type 0 where
  finished : Ending
  threw : Exception → Ending
  still_running : Ending

-- The rounds of a call that are enough on a session of the server.
abbrev pub rounds : ℕ
rounds = 2

module _ {C T : Type 0} (k : Chunks C) (r : Remote C T) where
  abbrev pub Outputs : Type 0
  Outputs = List (Output k) × Ending

  abbrev pub output_then : Output k → Outputs → Outputs
  output_then output (outputs, ending) = (output ∷ outputs, ending)

  -- What a call gives, and then the outputs of the calls after it.
  abbrev collect_outputs :
      (QuackScanGlobalState k → QuackScanLocalState k r → r.World → Outputs)
      → Option (Called k r)
      → Outputs
  collect_outputs later none = ([], still_running)
  collect_outputs later (some called) = elim called.output [
    | err x ↦ ([], threw x)
    | ok output ↦
        let rest = later called.global called.local called.world in
        if output.cardinality == 0 then ([], finished) else output_then output rest
  ]

  -- The outputs of at most `calls` calls, up to the first output without a row or exception.
  unfoldable pub read_scan :
      ℕ → QuackScanBindData r → QuackScanGlobalState k → QuackScanLocalState k r → r.World → Outputs
  unfolding quack_scan
  read_scan zero bind_data global local w = ([], still_running)
  read_scan (suc calls) bind_data global local w =
      collect_outputs (read_scan calls bind_data) (quack_scan k r rounds bind_data global local w)

  -- A call that is known gives its output, if it has rows, and the calls after it give theirs.
  pub read_scan_step :
      (calls : ℕ) (bind_data : QuackScanBindData r) (global : QuackScanGlobalState k)
      (local : QuackScanLocalState k r) (w : r.World) (called : Called k r) (o : Output k)
      → quack_scan k r rounds bind_data global local w ≡ some called
      → called.output ≡ ok o
      → o.cardinality ≢ 0
      → read_scan (suc calls) bind_data global local w
        ≡ output_then o (read_scan calls bind_data called.global called.local called.world)
  unfolding read_scan
  read_scan_step calls bind_data global local w called o step out some_rows =
      ap (collect_outputs (read_scan calls bind_data)) step
      ∙ (rw (out, ne→==false o.cardinality 0 some_rows) refl)

  pub read_scan_throws :
      (calls : ℕ) (bind_data : QuackScanBindData r) (global : QuackScanGlobalState k)
      (local : QuackScanLocalState k r) (w : r.World) (called : Called k r) (x : Exception)
      → quack_scan k r rounds bind_data global local w ≡ some called
      → called.output ≡ err x
      → read_scan (suc calls) bind_data global local w ≡ ([], threw x)
  unfolding read_scan
  read_scan_throws calls bind_data global local w called x step out =
      ap (collect_outputs (read_scan calls bind_data)) step ∙ (rw out refl)

  pub read_scan_end :
      (calls : ℕ) (bind_data : QuackScanBindData r) (global : QuackScanGlobalState k)
      (local : QuackScanLocalState k r) (w : r.World) (called : Called k r)
      → quack_scan k r rounds bind_data global local w ≡ some called
      → called.output ≡ ok (blank k)
      → read_scan (suc calls) bind_data global local w ≡ ([], finished)
  unfolding read_scan
  read_scan_end calls bind_data global local w called step out =
      ap (collect_outputs (read_scan calls bind_data)) step ∙ (rw out refl)

  -- The outputs of a scan that has been bound, with the given columns.
  unfoldable pub run_scan : ℕ → List ColumnIndex → Bind r → Outputs
  unfolding read_scan scan_init_global scan_init_local
  run_scan calls column_ids (err x, w) = ([], threw x)
  run_scan calls column_ids (ok bound, w) =
      let (global, connection, w1) = scan_init_global k r bound.bind_data column_ids w in
      elim global [
        | err x ↦ ([], threw x)
        | ok global ↦
            let (local, global1, connection1, w2) = scan_init_local k r connection global w1 in
            elim local [
              | err x ↦ ([], threw x)
              | ok local ↦ read_scan calls bound.bind_data global1 local w2
            ]
      ]

module _ {C : Type 0} (k : Chunks C) where
  -- The output of a chunk that is passed on as it is.
  abbrev pub whole : C → Output k
  whole chunk = record { columns = k.vectors chunk; cardinality = k.chunk_size chunk }

  -- An output for these columns references all columns of the chunk.
  abbrev pub IsPassed : List ColumnIndex → C → Type 0
  IsPassed ids chunk = k.reference (length ids) chunk ≡ ok (k.vectors chunk)

  pub emit-whole :
      (ids : List ColumnIndex) (chunk : C)
      → IsPassed ids chunk
      → emit k ids (record { chunk = chunk; pushdown_type = pushdown_already_applied })
        ≡ ok (whole chunk)
  unfolding emit
  emit-whole ids chunk passes = rw passes refl

  -- Chunks that are not wider than the output.
  pub narrow-IsPassed :
      (laws : ChunksLaws k) (ids : List ColumnIndex) (cs : List C)
      → All (λ c. length (k.vectors c) ≤ length ids) cs
      → All (IsPassed ids) cs
  narrow-IsPassed laws ids [] narrow = tt
  narrow-IsPassed laws ids (c ∷ cs) (here, narrow) =
      (laws.reference_fits (length ids) c here, narrow-IsPassed laws ids cs narrow)

  -- The chunks are not empty, and their outputs are these, none of them without a row.
  abbrev pub Emits : List ColumnIndex → List (ChunkResult C) → List (Output k) → Type 0
  Emits ids [] outs = outs ≡ []
  Emits ids (x ∷ xs) [] = ⊥
  Emits ids (x ∷ xs) (o ∷ os) =
      (emit k ids x ≡ ok o) × (k.chunk_size x.chunk ≢ 0) × (o.cardinality ≢ 0) × Emits ids xs os

  pub Emits-whole :
      (ids : List ColumnIndex) (cs : List C)
      → All (λ c. k.chunk_size c ≢ 0) cs
      → All (IsPassed ids) cs
      → Emits ids (results_of pushdown_already_applied cs) (map whole cs)
  unfolding emit
  Emits-whole ids [] full passed = refl
  Emits-whole ids (c ∷ cs) (here, full) (passes, passed) =
      (emit-whole ids c passes, here, here, Emits-whole ids cs full passed)
