-- ===== src/Scan/Order.antt =====
-- The outputs of threads on one scan, put in the order of their batch indices.
use duckdb_quack.Prelude.{ℕ, suc, ◌≤◌, List, [], Bytes, ◌≡◌}
use duckdb_quack.Text.StringUtil.{StringUtil}
use duckdb_quack.Uri.Parse.{QuackUri}
use duckdb_quack.Server.Engine.{Engine}
use duckdb_quack.Server.Requests.{max_chunks_per_batch}
use duckdb_quack.Scan.Remote.{Remote}
use duckdb_quack.Scan.Types.{Chunks, ColumnIndex, QuackScanBindData}
use duckdb_quack.Scan.Loop.{Output}
use duckdb_quack.Scan.Session.{session_remote}
use duckdb_quack.Scan.Ledger.{Ledger, IsOrdered, update, of_batch, gather}
use duckdb_quack.Scan.Threads.{Threads}
use duckdb_quack.Scan.Stands.{Stands}

module _ {O : Type 0} (first : ℕ) (outs rest : List O) where
  -- The first batch is with one thread, and all others have nothing.
  abbrev initial : Ledger O
  initial = record {
    index = λ i. 0;
    buffer = update (λ i. []) first outs;
    log = [];
    next = 1;
    rest = rest;
  }

module _ (e : Engine) (u : StringUtil) (k : Chunks e.Chunk)
    (agree : (c : e.Chunk) → k.chunk_size c ≡ e.chunk_size c) (uri : QuackUri) (id : Bytes) (n : ℕ)
    (setting : (db : e.Db) → max_chunks_per_batch e u db ≡ suc n) where
  abbrev r : Remote e.Chunk e.Logical
  r = session_remote e u uri id

  -- What the moves of the ledger have led to.
  abbrev Reaches : QuackScanBindData r → List ColumnIndex → Threads k r → List (Output k) → Type 0
  Reaches bind_data ids t outs =
      (l : Ledger (Output k)) × IsOrdered outs l
      × Stands e u k agree uri id n setting bind_data ids t l

  abbrev pub IsInOrder : Threads k r → List (Output k) → Type 0
  IsInOrder t outs =
      (batches : ℕ) × ((j : ℕ) → batches ≤ j → of_batch j t.log ≡ [])
      × (gather batches (λ j. of_batch j t.log) ≡ outs)
