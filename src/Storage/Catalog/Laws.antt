-- ===== src/Storage/Catalog/Laws.antt =====
-- What a catalog shows that is loaded from a session of the server.
use duckdb_quack.Prelude.{ℕ, Bytes, List, [], ◌∷◌, Result, ok, err, ◌≡◌, refl, sym, ap, ◌∙◌, take}
use duckdb_quack.Text.StringUtil.{StringUtil}
use duckdb_quack.Uri.Parse.{QuackUri}
use duckdb_quack.Message.Types.{message}
use duckdb_quack.Server.Engine.{Engine}
use duckdb_quack.Server.State.{QuackConnection}
use duckdb_quack.Server.Batch.Laws.{Yields}
use duckdb_quack.Server.Requests.{max_chunks_per_batch, prepare}
use duckdb_quack.Server.Streaming.{prepare_streams}
use duckdb_quack.Scan.Remote.{Remote}
use duckdb_quack.Scan.Session.{Session, session_prepared, session_remote}
use duckdb_quack.Storage.Entries.{Frontend}
use duckdb_quack.Storage.Load.{
  QuackSchemaSet, Collection, all_rows, load_schemas, load_schemas_query, load_tables_query,
}
use duckdb_quack.Storage.Load.Shown.{shown, listed, load_schemas_shows}
use duckdb_quack.Storage.Catalog.{
  QuackCatalog, Opened, collect_response, execute_command_internal, new_catalog, load_catalog,
  loaded_schemas, loaded_tables, catalog_on,
}

module _ (e : Engine) (u : StringUtil) (f : Frontend) (k : Collection e.Chunk) (uri : QuackUri)
    (id : Bytes) where
  abbrev r : Remote e.Chunk e.Logical
  r = session_remote e u uri id

  -- A query that is sent in a session without error, has columns, and whose result yields cs.
  pub record Streams (db : e.Db) (c : QuackConnection e) (query : Bytes) (cs : List e.Chunk)
      : Type 0 where
    pub db1 : e.Db
    pub conn : e.Conn
    pub rows : e.Rows
    pub name : Bytes
    pub names : List Bytes
    pub sent : e.send_query db c.duckdb_connection query ≡ (db1, conn, rows)
    pub columns : e.names rows ≡ name ∷ names
    pub yields : Yields e (e.random_uuid db1).0 rows cs

  execute_streams :
      (db : e.Db) (c : QuackConnection e) (query : Bytes) (cs : List e.Chunk)
      (s : Streams db c query cs)
      → let h = prepare e u db c query in
        execute_command_internal r k query tt (db, c) ≡ (
          ok (all_rows k (take (max_chunks_per_batch e u (e.random_uuid s.db1).0) cs)),
          tt,
          (h.db, h.connection),
        )
  unfolding execute_command_internal message
  execute_streams db c query cs s =
      let (answer, left, index, kept) =
        prepare_streams e u db s.db1 c query s.name s.names s.conn s.rows cs s.sent s.columns
          s.yields in
      ap (collect_response r k) (session_prepared e u uri id db c query _ _ _ _ _ answer)

  -- The number of chunks of a batch for such a query.
  abbrev pub batch_room :
      (db : e.Db) (c : QuackConnection e) (query : Bytes) (cs : List e.Chunk)
      → Streams db c query cs
      → ℕ
  batch_room db c query cs s = max_chunks_per_batch e u (e.random_uuid s.db1).0

  abbrev pub after : Bytes → Session e u → Session e u
  after query (db, c) = let h = prepare e u db c query in (h.db, h.connection)

  new_catalog_loads :
      (attached_name token : Bytes) (db : e.Db) (c : QuackConnection e) (cs ds : List e.Chunk)
      (schemas : Streams db c load_schemas_query cs)
      (tables : let h = prepare e u db c load_schemas_query in
        Streams h.db h.connection load_tables_query ds)
      → let h = prepare e u db c load_schemas_query in
        new_catalog r k u f attached_name uri token (db, c)
        ≡ catalog_on r k u f attached_name tt (after load_tables_query (h.db, h.connection)) (
            load_schemas u f k attached_name
              (all_rows k (take (batch_room h.db h.connection load_tables_query ds tables) ds))
              (all_rows k (take (batch_room db c load_schemas_query cs schemas) cs))
              [])
  unfolding new_catalog load_catalog
  new_catalog_loads attached_name token db c cs ds schemas tables =
      let h = prepare e u db c load_schemas_query in
      ap (loaded_schemas r k u f attached_name) (execute_streams db c load_schemas_query cs schemas)
      ∙ ap
          (loaded_tables r k u f attached_name
            (all_rows k (take (batch_room db c load_schemas_query cs schemas) cs)))
          (execute_streams h.db h.connection load_tables_query ds tables)

  abbrev schemas_or : QuackSchemaSet u f k → Opened r k u f → QuackSchemaSet u f k
  schemas_or other (err x, w) = other
  schemas_or other (ok c, w) = c.schemas

  catalog_on-shows :
      (attached_name : Bytes) (w w1 : Session e u) (rows tables : List k.Row)
      (made : Result (QuackSchemaSet u f k)) (c : QuackCatalog r k u f) (schema name : Bytes)
      → load_schemas u f k attached_name tables rows [] ≡ made
      → catalog_on r k u f attached_name tt w made ≡ (ok c, w1)
      → shown u f k c.schemas schema name ≡ listed u f k attached_name tables rows schema name
  catalog_on-shows attached_name w w1 rows tables (err x) c schema name loads done = cc
  catalog_on-shows attached_name w w1 rows tables (ok schemas) c schema name loads done =
      ap (λ s. shown u f k s schema name) (sym (ap (schemas_or schemas) done))
      ∙ load_schemas_shows u f k attached_name tables rows schemas schema name loads

  -- If the queries for the schemas and for the tables are sent on an authorized session without
  -- error, have columns and yield the chunks cs and ds, and the constructor of QuackCatalog
  -- returns, then what is found under the names of a schema and of a table or view is the last
  -- entry of this name that the rows of the first batch of ds give for the last schema of this
  -- name that the rows of the first batch of cs give, with names compared in lower case; rows
  -- behind the first batches are not found.
  pub new_catalog_shows :
      (attached_name token : Bytes) (db : e.Db) (c : QuackConnection e) (cs ds : List e.Chunk)
      (schemas : Streams db c load_schemas_query cs)
      (tables : let h = prepare e u db c load_schemas_query in
        Streams h.db h.connection load_tables_query ds)
      (catalog : QuackCatalog r k u f) (w : Session e u) (schema name : Bytes)
      → new_catalog r k u f attached_name uri token (db, c) ≡ (ok catalog, w)
      → let h = prepare e u db c load_schemas_query in
        let first_tables =
          all_rows k (take (batch_room h.db h.connection load_tables_query ds tables) ds) in
        let first_schemas = all_rows k (take (batch_room db c load_schemas_query cs schemas) cs) in
        shown u f k catalog.schemas schema name
        ≡ listed u f k attached_name first_tables first_schemas schema name
  new_catalog_shows attached_name token db c cs ds schemas tables catalog w schema name done =
      let h = prepare e u db c load_schemas_query in
      catalog_on-shows attached_name (after load_tables_query (h.db, h.connection)) w _ _ _ catalog
        schema name refl
        (sym (new_catalog_loads attached_name token db c cs ds schemas tables) ∙ done)
