-- ===== src/Storage/CatalogTests.antt =====
-- A catalog of a server that lists three schemas and three tables, in batches of two chunks, and
-- a CREATE TABLE AS there.
use duckdb_quack.Prelude.{
  ℕ, [], ◌∷◌, Bytes, codes, none, some, ok, err, Result, ◌≡◌, refl, inl, ap, arith, same, ◌==◌,
  if◌then◌else◌,
}
use duckdb_quack.Text.Reference.{reference}
use duckdb_quack.Server.Sample.{sample, sample_uri, opened, answer_of}
use duckdb_quack.Server.Requests.{prepare}
use duckdb_quack.Server.State.{QuackConnection}
use duckdb_quack.Scan.Session.{Session, session_remote, session_request}
use duckdb_quack.Server.Batch.{create_batch}
use duckdb_quack.Scan.Remote.{Remote}
use duckdb_quack.Storage.Entries.{table_of}
use duckdb_quack.Storage.Load.{Collection, load_schemas_query, load_tables_query}
use duckdb_quack.Storage.Load.Shown.{shown, listed}
use duckdb_quack.Storage.Catalog.{QuackCatalog, new_catalog}
use duckdb_quack.Storage.Catalog.Laws.{Streams, new_catalog_shows}
use duckdb_quack.Storage.Sample.{frontend, table_info, Schema}
use duckdb_quack.Storage.Transaction as Transaction
use duckdb_quack.Storage.Transaction.{QuackTransaction, query, transaction_started}
use duckdb_quack.Storage.Transaction.Laws.{open_transaction}
use duckdb_quack.Storage.Insert.{QuackInsertGlobalState, global_sink_state, sink_all}
use duckdb_quack.Storage.Insert.Laws.{append_each, sunk_as}
use duckdb_quack.Storage.Schema.{Done}
use duckdb_quack.Storage.Schema.Laws.{found, placed}
use duckdb_quack.Storage.Catalog.{catalog_remote, execute_command_internal}
use duckdb_quack.Storage.CreateTableAs.{create_table_as, get_global_sink_state}
use duckdb_quack.Storage.CreateTableAs.Laws.{sink_table, create_table_as_appends}
use duckdb_quack.Storage.InsertTests.{with_table, idle as quiet}

-- A row for each chunk: its columns are "main", then "main" of the first row, "t" of the second and "u" of the third, and "table".
abbrev listing : Collection ℕ
listing = record {
  Row = ℕ;
  rows = λ c. c ∷ [];
  string_at = λ row i.
      if i == 0
      then codes "main"
      else if i == 2
      then codes "table"
      else if row == 1
      then codes "main"
      else if row == 2
      then codes "t"
      else codes "u";
}

abbrev streamed :
    (db : ℕ) (c : QuackConnection sample) (query : Bytes)
    → answer_of query ≡ answer_of (codes "q")
    → Streams sample reference frontend listing sample_uri (codes "s") db c query (1 ∷ 2 ∷ 3 ∷ [])
streamed db c query e = record {
  db1 = db;
  conn = c.duckdb_connection;
  rows = answer_of (codes "q");
  name = codes "x";
  names = [];
  sent = ap (λ rows. (db, c.duckdb_connection, rows)) e;
  columns = refl;
  yields = (
    refl,
    refl,
    λ h. omega arith,
    (refl, refl, λ h. omega arith, (refl, refl, λ h. omega arith, (refl, inl (refl, refl)))),
  );
}

abbrev session : Remote ℕ ℕ
session = session_remote sample reference sample_uri (codes "s")

abbrev idle : QuackConnection sample
idle = record opened { duckdb_query_result = none }

abbrev Catalog : Type 0
Catalog = QuackCatalog session listing reference frontend

abbrev catalog_of : Result Catalog → Catalog
catalog_of (ok c) = c
catalog_of (err x) = record { attached_name = []; client_connection = tt; schemas = [] }

abbrev attached : Result Catalog × Session sample reference
attached = new_catalog session listing reference frontend (codes "q") sample_uri [] (0, idle)

new_catalog_shows_example :
    (shown reference frontend listing (catalog_of attached.0).schemas (codes "MAIN") (codes "T")
      ≡ some (table_of (table_info (codes "t"))))
unfolding listed new_catalog reference same prepare session_request create_batch
new_catalog_shows_example =
    new_catalog_shows sample reference frontend listing sample_uri (codes "s") (codes "q") [] 0 idle
      (1 ∷ 2 ∷ 3 ∷ []) (1 ∷ 2 ∷ 3 ∷ []) (streamed 0 idle load_schemas_query refl)
      (streamed (prepare sample reference 0 idle load_schemas_query).db
        (prepare sample reference 0 idle load_schemas_query).connection load_tables_query refl)
      (catalog_of attached.0) attached.1 (codes "MAIN") (codes "T") refl

-- The table of the third chunk is not there.
third_chunk_missing :
    shown reference frontend listing (catalog_of attached.0).schemas (codes "main") (codes "u")
    ≡ none
unfolding shown new_catalog reference same prepare session_request create_batch
third_chunk_missing = refl

abbrev remote : Remote ℕ ℕ
remote = session_remote with_table reference sample_uri (codes "s")

abbrev queries : Transaction.Remote
queries = catalog_remote remote listing

abbrev main_schema : Schema
main_schema = record {
  attached_name = codes "q";
  catalog = codes "db";
  name = codes "main";
  tables = [];
  default_function_map = [];
}

abbrev started : QuackTransaction queries
started = open_transaction queries transaction_started (tt, (0, quiet))

abbrev sinking : Done reference frontend queries QuackInsertGlobalState
sinking =
    get_global_sink_state reference frontend queries (create_table_as (table_info (codes "t")))
      main_schema started

create_table_as_appends_example :
    let table = sink_table (codes "main") (codes "t") in
    let info = placed reference frontend (table_info (codes "t")) main_schema in
    (sinking.2 ≡ (query queries (codes "t") started).1)
    × (found reference frontend (codes "t") sinking.1 ≡ some (table_of info))
    × (sink_all remote with_table.chunk_size
          (1 ∷ 2 ∷ [])
          (global_sink_state table)
          tt
          sinking.2.world.1
        ≡ sunk_as with_table reference table sample_uri
            (codes "s")
            0
            (append_each with_table reference table (1 ∷ 2 ∷ []) sinking.2.world.1))
unfolding get_global_sink_state found execute_command_internal session_request create_batch
create_table_as_appends_example =
    create_table_as_appends with_table reference frontend listing sample_uri (codes "s")
      (table_info (codes "t")) (1 ∷ 2 ∷ []) main_schema sinking.1 started sinking.2
      (global_sink_state (sink_table (codes "main") (codes "t"))) refl refl
