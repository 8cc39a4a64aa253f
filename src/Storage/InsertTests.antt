-- ===== src/Storage/InsertTests.antt =====
-- An INSERT of two chunks into a table that exists.
use duckdb_quack.Prelude.{[], ◌∷◌, codes, none, some, ◌≡◌, arith}
use duckdb_quack.Text.Reference.{reference}
use duckdb_quack.Server.Engine.{Engine}
use duckdb_quack.Server.State.{QuackConnection}
use duckdb_quack.Server.Sample.{sample, sample_uri}
use duckdb_quack.Scan.Session.{session_remote}
use duckdb_quack.Storage.Insert.{TableEntry, sink_all}
use duckdb_quack.Storage.Insert.Laws.{append_each, sunk_as, sink_all_appends}

abbrev pub with_table : Engine
with_table = record sample { table_info = λ db conn schema_name table_name. (db, conn, some 0) }

abbrev pub idle : QuackConnection with_table
idle = record {
  duckdb_connection = 0;
  duckdb_query_result = none;
  next_batch_index = 1;
  result_uuid = 0;
  session_id = codes "s";
}

abbrev target : TableEntry
target = record { schema_name = codes "main"; name = codes "t" }

sink_all_appends_example :
    sink_all
      (session_remote with_table reference sample_uri (codes "s"))
      with_table.chunk_size
      (1 ∷ 2 ∷ [])
      (record { table = target; insert_count = 5 })
      tt
      (0, idle)
    ≡ sunk_as with_table reference target sample_uri
        (codes "s")
        5
        (append_each with_table reference target (1 ∷ 2 ∷ []) (0, idle))
sink_all_appends_example =
    sink_all_appends with_table reference target sample_uri (codes "s") (1 ∷ 2 ∷ []) 5 (0, idle)
      (omega arith)
