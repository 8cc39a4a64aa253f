-- ===== src/Server/Batch.antt =====
-- `CreateBatch`: up to `max_chunks` chunks of a result in one response.

pub mod Laws
use duckdb_quack.Prelude.{
  ℕ, zero, suc, Bool, true, false, List, [], ◌∷◌, ◌++◌, Option, none, some, ◌==◌, if◌then◌else◌,
}
use duckdb_quack.Server.Engine.{Engine}

-- The database, the collected chunks and `query_result` when the loop has ended.
pub record Batch (e : Engine) : Type 0 where
  pub db : e.Db
  pub results : List e.Chunk
  pub query_result : Option e.Rows

module _ (e : Engine) where
  -- The loop with `room` chunks to go and `results` so far.
  unfoldable pub collect : ℕ → e.Db → List e.Chunk → e.Rows → Batch e
  collect zero db results rows = record { db = db; results = results; query_result = some rows }
  collect (suc room) db results rows =
      let (db', chunk, rows') = e.fetch db rows in
      elim chunk [
        | none ↦
            if e.has_error rows'
            then record { db = db'; results = []; query_result = some rows' }
            else record { db = db'; results = results; query_result = none }
        | some c ↦
            let rest = collect room db' (results ++ c ∷ []) rows' in
            if e.chunk_size c == 0
            then record { db = db'; results = results; query_result = none }
            else rest
      ]

  unfoldable pub create_batch : ℕ → e.Db → e.Rows → Batch e
  unfolding collect
  create_batch max_chunks db rows = collect max_chunks db [] rows
