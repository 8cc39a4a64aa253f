-- ===== src/Scan/ByName.antt =====
-- A scan that QuackScanBindCatalogName has bound, on a server's session.
use duckdb_quack.Prelude.{
  ne→==false, ℕ, zero, suc, ◌<◌, ◌≤◌, true, List, [], ◌∷◌, length-map, Bytes, Option, none, some,
  foreign, codes, same, Exception, err, ◌≡◌, ◌≢◌, refl, sym, ap, ◌∙◌, subst, arith, length, take,
  length-take, length-take-le, ◌==◌,
}
use duckdb_quack.Text.StringUtil.{StringUtil}
use duckdb_quack.Uri.Parse.{QuackUri}
use duckdb_quack.Message.Types.{
  type_value, message, prepare_response_body, fetch_request_body, fetch_response,
}
use duckdb_quack.Server.Engine.{Engine}
use duckdb_quack.Server.State.{QuackConnection}
use duckdb_quack.Server.Batch.Laws.{Yields}
use duckdb_quack.Server.Requests.{max_chunks_per_batch, prepare, fetch, error_text}
use duckdb_quack.Server.Streaming.{prepare_streams}
use duckdb_quack.Client.Request.{expect}
use duckdb_quack.Scan.Remote.{Remote}
use duckdb_quack.Scan.Types.{
  Chunks, ColumnIndex, ChunkResult, requires_pushdown, QuackScanBindData, bind_data_on,
}
use duckdb_quack.Scan.Bind.{
  Attached, bind_answered, bind_on, get_quack_catalog, scan_bind_catalog_name,
}
use duckdb_quack.Scan.Init.{
  QuackScanGlobalState, results_of, global_state, scan_init_global, scan_init_local,
}
use duckdb_quack.Scan.Loop.{Output}
use duckdb_quack.Scan.Session.{Session, session_prepared, session_request, session_remote}
use duckdb_quack.Scan.Calls.{quack_scan_threw, quack_scan_buffered}
use duckdb_quack.Scan.Reader.{
  threw, output_then, read_scan, read_scan_step, read_scan_throws, run_scan, Emits,
}

module _ (e : Engine) (u : StringUtil) (k : Chunks e.Chunk) (uri : QuackUri) (id : Bytes) where
  abbrev r : Remote e.Chunk e.Logical
  r = session_remote e u uri id

  abbrev closed : Exception
  closed = foreign (codes "Result has been closed")

  stale_fetch :
      (db : e.Db) (c : QuackConnection e) (uuid : ℕ)
      → c.result_uuid ≢ uuid
      → session_request e u fetch_response (message id (fetch_request_body uuid)) tt (db, c)
        ≡ (err closed, tt, (db, c))
  unfolding session_request fetch expect message error_text type_value
  stale_fetch db c uuid h = simp (ne→==false c.result_uuid uuid h, fetch) refl

  read_stale :
      (calls : ℕ) (bind_data : QuackScanBindData r) (global : QuackScanGlobalState k)
      (index : Option ℕ) (buffer : List (ChunkResult e.Chunk)) (outs : List (Output k)) (db : e.Db)
      (c : QuackConnection e)
      → Emits k global.column_ids buffer outs
      → global.needs_more_fetch ≡ true
      → c.result_uuid ≢ bind_data.result_uuid
      → length buffer < calls
      → read_scan k r calls bind_data global
          (record { client = tt; current_batch_index = index; results = buffer })
          (db, c)
        ≡ (outs, threw closed)
  read_stale zero bind_data global index buffer outs db c em more stale enough =
      absurd (omega arith)
  read_stale (suc calls) bind_data global index [] outs db c em more stale enough = rw em (
      read_scan_throws k r calls bind_data global _ (db, c) _ closed
        (quack_scan_threw k r bind_data global tt tt index none (db, c) (db, c) more 1 closed
          (stale_fetch db c bind_data.result_uuid stale))
        refl)
  read_stale (suc calls) bind_data global index (x ∷ xs) [] db c em more stale enough = absurd em
  read_stale (suc calls) bind_data global index (x ∷ xs) (o ∷ os) db c em more stale enough =
      let (out, full, some_rows, em1) = em in
      read_scan_step k r calls bind_data global _ (db, c) _ o
        (quack_scan_buffered k r 1 bind_data global tt index x xs (db, c) full) out some_rows
      ∙ ap (output_then k r o)
          (read_stale calls bind_data global index xs os db c em1 more stale (omega arith))

  full_flag : (n : ℕ) (cs : List e.Chunk) → n ≤ length cs → (length (take n cs) == n) ≡ true
  full_flag n cs h = ground (arith, length-take n cs)

  buffer_below :
      (n : ℕ) (cs : List e.Chunk) (calls : ℕ)
      → n < calls
      → length (results_of requires_pushdown (take n cs)) < calls
  buffer_below n cs calls h = omega (
    arith,
    length-map {B = ChunkResult e.Chunk}
        (λ (c : e.Chunk). record { chunk = c; pushdown_type = requires_pushdown }) (take n cs),
    length-take-le n cs,
  )

  bound_by_name :
      (databases : Bytes → Option (Attached r)) (catalog : Bytes) (attached : Attached r)
      (unset : ℕ) (query : Bytes) (w : Session e u)
      → databases catalog ≡ some attached
      → attached.catalog_type ≡ codes "quack"
      → scan_bind_catalog_name r unset databases (some catalog) (some query) w
        ≡ bind_on r unset (λ uuid. unset) query tt w
  unfolding scan_bind_catalog_name get_quack_catalog same
  bound_by_name databases catalog attached unset query w found quack =
      simp (found, quack, scan_bind_catalog_name, get_quack_catalog) refl

  -- A scan that QuackScanBindCatalogName binds on an authorized session, for a query that yields
  -- at least as many chunks as a batch takes, whose first batch can be projected to outputs with
  -- rows, gives one thread the projected first batch and then throws that the result has been
  -- closed, if the identifier of the result is not the one that the bind data starts with and the
  -- thread makes more calls than a batch has chunks.
  pub scan_by_name_loses :
      (n calls unset : ℕ) (ids : List ColumnIndex) (databases : Bytes → Option (Attached r))
      (catalog : Bytes) (attached : Attached r) (db db1 : e.Db) (c : QuackConnection e)
      (query name : Bytes) (names : List Bytes) (conn : e.Conn) (rows : e.Rows) (cs : List e.Chunk)
      (outs : List (Output k))
      → max_chunks_per_batch e u (e.random_uuid db1).0 ≡ n
      → databases catalog ≡ some attached
      → attached.catalog_type ≡ codes "quack"
      → e.send_query db c.duckdb_connection query ≡ (db1, conn, rows)
      → e.names rows ≡ name ∷ names
      → Yields e (e.random_uuid db1).0 rows cs
      → Emits k ids (results_of requires_pushdown (take n cs)) outs
      → n ≤ length cs
      → (e.random_uuid db1).1 ≢ unset
      → n < calls
      → run_scan k r calls ids
          (scan_bind_catalog_name r unset databases (some catalog) (some query) (db, c))
        ≡ (outs, threw closed)
  unfolding run_scan bind_on bind_data_on scan_init_global scan_init_local global_state message
      scan_bind_catalog_name get_quack_catalog
  scan_by_name_loses n calls unset ids databases catalog attached db db1 c query name names conn
        rows cs outs setting found quack sent columns y em full fresh enough =
      let h = prepare e u db c query in
      let streams = prepare_streams e u db db1 c query name names conn rows cs sent columns y in
      let answer =
        subst
          (λ m.
            (h.response
              ≡ message [] (
                  prepare_response_body (e.types rows) (name ∷ names) (take m cs)
                    (length (take m cs) == m) (e.random_uuid db1).1)))
          setting streams.0 in
      let prepared = session_prepared e u uri id db c query _ _ _ _ _ answer in
      ap (run_scan k r calls ids)
        (bound_by_name databases catalog attached unset query (db, c) found quack)
      ∙ (ap (λ a. run_scan k r calls ids (bind_answered r unset (λ uuid. unset) a)) prepared
          ∙ read_stale calls _ _ none (results_of requires_pushdown (take n cs)) outs h.db
              h.connection em (full_flag n cs full) (λ same_uuid. fresh (sym streams.3 ∙ same_uuid))
              (buffer_below n cs calls enough))
