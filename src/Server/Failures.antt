-- ===== src/Server/Failures.antt =====
-- PREPARE and FETCH where the query or its result fails.
use duckdb_quack.Prelude.{
  ℕ, ◌<◌, true, false, List, [], Bytes, codes, none, some, ◌≡◌, ◌≢◌, refl, ◌∙◌, arith, length, ◌==◌,
  ==_refl,
}
use duckdb_quack.Text.StringUtil.{StringUtil}
use duckdb_quack.Message.Types.{message, fetch_response_body}
use duckdb_quack.Server.Engine.{Engine}
use duckdb_quack.Server.State.{QuackConnection}
use duckdb_quack.Server.Batch.{Batch, create_batch}
use duckdb_quack.Server.Batch.Laws.{Fails, create_batch-Fails}
use duckdb_quack.Server.Requests.{
  Message, prepare, fetch, respond_batch, max_chunks_per_batch, error_text, error_response_of,
}
use duckdb_quack.Server.Streaming.{fetch_open}

module _ (e : Engine) (u : StringUtil) where
  -- A FETCH with an identifier that is not the one of the session is answered by the text that
  -- the result has been closed, and changes neither the database nor the session.
  pub fetch_stale :
      (db : e.Db) (c : QuackConnection e) (uuid : ℕ)
      → c.result_uuid ≢ uuid
      → fetch e u db c uuid ≡ record {
        db = db;
        connection = c;
        response = error_text e u (codes "Result has been closed");
      }
  unfolding fetch
  fetch_stale db c uuid ne =
      let differs : (c.result_uuid == uuid) ≡ false = ground arith in simp (differs, fetch) refl

  failed_batch :
      (batch : Batch e) (c answered : QuackConnection e) (response : Message e u) (failed : e.Rows)
      → batch.query_result ≡ some failed
      → e.has_error failed ≡ true
      → respond_batch e u batch c answered response ≡ record {
        db = batch.db;
        connection = record c { duckdb_query_result = none };
        response = error_response_of e u (e.error_object failed);
      }
  unfolding respond_batch
  failed_batch batch c answered response failed kept bad = rw (kept, respond_batch, bad) refl

  -- FETCH of a result without an error so far that fails within the batch closes the result,
  -- keeps the rest of the session and answers the error of a failed result, with no chunk.
  pub fetch-Fails :
      (db : e.Db) (c : QuackConnection e) (rows : e.Rows) (cs : List e.Chunk)
      → c.duckdb_query_result ≡ some rows
      → e.has_error rows ≡ false
      → Fails e db rows cs
      → length cs < max_chunks_per_batch e u db
      → let h = fetch e u db c c.result_uuid in
        (h.connection ≡ record c { duckdb_query_result = none })
        × ((failed : e.Rows) × (e.has_error failed ≡ true)
            × (h.response ≡ error_response_of e u (e.error_object failed)))
  fetch-Fails db c rows cs there fine f h =
      let batch = create_batch e (max_chunks_per_batch e u db) db rows in
      let (_, (failed, kept, bad)) =
        create_batch-Fails e (max_chunks_per_batch e u db) db rows cs f h in
      let opened : fetch e u db c c.result_uuid ≡ record {
        db = batch.db;
        connection = record c { duckdb_query_result = none };
        response = error_response_of e u (e.error_object failed);
      } =
        fetch_open e u db c rows there fine ∙ failed_batch batch c _ _ failed kept bad in
      rw opened (refl, (failed, bad, refl))

  -- After a PREPARE whose query fails, which is answered by the error, a FETCH with the
  -- identifier of the earlier result is answered by an empty batch, like a result that has ended,
  -- and not by an error.
  pub prepare_fails_truncates :
      (db db1 : e.Db) (c : QuackConnection e) (query : Bytes) (conn : e.Conn) (rows : e.Rows)
      → e.send_query db c.duckdb_connection query ≡ (db1, conn, rows)
      → e.has_error rows ≡ true
      → let h = prepare e u db c query in
        (h.response ≡ error_response_of e u (e.error_object rows))
        × ((fetch e u h.db h.connection c.result_uuid).response
            ≡ message [] (fetch_response_body [] none))
  unfolding prepare fetch
  prepare_fails_truncates db db1 c query conn rows sent bad =
      let answered : prepare e u db c query ≡ record {
        db = db1;
        connection = record c { duckdb_connection = conn; duckdb_query_result = none };
        response = error_response_of e u (e.error_object rows);
      } =
        simp (sent, bad, prepare) refl in
      rw answered (refl, simp (==_refl c.result_uuid, fetch) refl)
