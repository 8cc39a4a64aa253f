-- ===== src/Server/Streaming.antt =====
-- PREPARE and the FETCHes after it: what a client receives of a result.
use duckdb_quack.Prelude.{
  ◌<◌, arith, ◌+◌, ◌%◌, ◌^◌, false, List, [], ◌∷◌, Bytes, Option, none, some, ◌≡◌, refl, ap, ◌∙◌,
  subst, length, take, drop, ◌==◌, ==_refl,
}
use duckdb_quack.Text.StringUtil.{StringUtil}
use duckdb_quack.Message.Types.{message, fetch_response_body, prepare_response_body}
use duckdb_quack.Server.Engine.{Engine}
use duckdb_quack.Server.State.{QuackConnection}
use duckdb_quack.Server.Batch.{Batch, create_batch}
use duckdb_quack.Server.Batch.Laws.{Yields, Left, create_batch-Yields}
use duckdb_quack.Server.Requests.{Message, prepare, fetch, respond_batch, max_chunks_per_batch}

module _ (e : Engine) (u : StringUtil) where
  Yields-fine :
      (db : e.Db) (rows : e.Rows) (cs : List e.Chunk)
      → Yields e db rows cs
      → e.has_error rows ≡ false
  Yields-fine db rows [] y = y.0
  Yields-fine db rows (c ∷ cs) y = y.0

  -- A batch whose result has not failed is answered by the response that was made for it.
  respond_Left :
      (batch : Batch e) (c answered : QuackConnection e) (response : Message e u)
      (cs : List e.Chunk)
      → Left e batch.db batch.query_result cs
      → respond_batch e u batch c answered response ≡ record {
        db = batch.db;
        connection = record answered { duckdb_query_result = batch.query_result };
        response = response;
      }
  unfolding respond_batch
  respond_Left batch c answered response cs left = split batch.query_result refl
    where
      split :
          (q : Option e.Rows)
          → batch.query_result ≡ q
          → respond_batch e u batch c answered response ≡ record {
            db = batch.db;
            connection = record answered { duckdb_query_result = batch.query_result };
            response = response;
          }
      split none h = rw (h, respond_batch) refl
      split (some rows) h =
          rw
            (
              h,
              respond_batch,
              Yields-fine batch.db rows cs (subst (λ q. Left e batch.db q cs) h left),
            )
            refl

  pub fetch_open :
      (db : e.Db) (c : QuackConnection e) (rows : e.Rows)
      → c.duckdb_query_result ≡ some rows
      → e.has_error rows ≡ false
      → let batch = create_batch e (max_chunks_per_batch e u db) db rows in
        fetch e u db c c.result_uuid
        ≡ respond_batch e u batch c
            (record c { next_batch_index = (c.next_batch_index + 1) % 2 ^ 64 })
            (message [] (fetch_response_body batch.results (some c.next_batch_index)))
  unfolding fetch
  fetch_open db c rows there fine = simp (there, ==_refl c.result_uuid, fine, fetch) refl

  -- With the count of the batch index as the 64-bit number that it is.
  pub fetch_counts :
      (db : e.Db) (c : QuackConnection e) (rows : e.Rows) (cs : List e.Chunk)
      → c.duckdb_query_result ≡ some rows
      → Yields e db rows cs
      → let h = fetch e u db c c.result_uuid in
        let n = max_chunks_per_batch e u db in
        (h.response ≡ message [] (fetch_response_body (take n cs) (some c.next_batch_index)))
        × Left e h.db h.connection.duckdb_query_result (drop n cs)
        × (h.connection.next_batch_index ≡ (c.next_batch_index + 1) % 2 ^ 64)
        × (h.connection.result_uuid ≡ c.result_uuid)
  fetch_counts db c rows cs there y =
      let (taken, left, _) = create_batch-Yields e (max_chunks_per_batch e u db) db rows cs y in
      let opened = fetch_open db c rows there (Yields-fine db rows cs y) in
      let answered = opened ∙ respond_Left _ c _ _ (drop (max_chunks_per_batch e u db) cs) left in
      rw answered (
        ap (λ r. message [] (fetch_response_body r (some c.next_batch_index))) taken,
        left,
        refl,
        refl,
      )

  -- FETCH of an open result that yields cs, with the identifier of the session and a batch index
  -- below 2^64 - 1, answers as many first chunks of cs as the setting quack_fetch_batch_chunks
  -- says, whatever their size in bytes, with the batch index of the session, leaves the rest of
  -- cs in the session, counts the index up by one and keeps the identifier.
  pub fetch_streams :
      (db : e.Db) (c : QuackConnection e) (rows : e.Rows) (cs : List e.Chunk)
      → c.duckdb_query_result ≡ some rows
      → Yields e db rows cs
      → c.next_batch_index + 1 < 2 ^ 64
      → let h = fetch e u db c c.result_uuid in
        let n = max_chunks_per_batch e u db in
        (h.response ≡ message [] (fetch_response_body (take n cs) (some c.next_batch_index)))
        × Left e h.db h.connection.duckdb_query_result (drop n cs)
        × (h.connection.next_batch_index ≡ c.next_batch_index + 1)
        × (h.connection.result_uuid ≡ c.result_uuid)
  fetch_streams db c rows cs there y room =
      let (answer, left, counted, kept) = fetch_counts db c rows cs there y in
      (answer, left, counted ∙ (omega (arith, room)), kept)

  -- PREPARE of a query that is sent without error, has columns and whose result yields cs answers
  -- the first chunks of cs, the flag that says that the batch is full and the new identifier, and
  -- leaves the rest of cs, the batch index 1 and this identifier in the session.
  pub prepare_streams :
      (db db1 : e.Db) (c : QuackConnection e) (query name : Bytes) (names : List Bytes)
      (conn : e.Conn) (rows : e.Rows) (cs : List e.Chunk)
      → e.send_query db c.duckdb_connection query ≡ (db1, conn, rows)
      → e.names rows ≡ name ∷ names
      → Yields e (e.random_uuid db1).0 rows cs
      → let h = prepare e u db c query in
        let n = max_chunks_per_batch e u (e.random_uuid db1).0 in
        (h.response
          ≡ message [] (
              prepare_response_body
                (e.types rows)
                (name ∷ names)
                (take n cs)
                (length (take n cs) == n)
                (e.random_uuid db1).1))
        × Left e h.db h.connection.duckdb_query_result (drop n cs)
        × (h.connection.next_batch_index ≡ 1)
        × (h.connection.result_uuid ≡ (e.random_uuid db1).1)
  unfolding prepare
  prepare_streams db db1 c query name names conn rows cs sent columns y =
      let db2 = (e.random_uuid db1).0 in
      let n = max_chunks_per_batch e u db2 in
      let batch = create_batch e n db2 rows in
      let (taken, left, _) = create_batch-Yields e n db2 rows cs y in
      let c2 : QuackConnection e = record c {
        duckdb_connection = conn;
        duckdb_query_result = none;
        next_batch_index = 1;
        result_uuid = (e.random_uuid db1).1;
      } in
      let opened : prepare e u db c query
          ≡ respond_batch e u batch c2 c2 (
              message [] (
                prepare_response_body (e.types rows) (name ∷ names) batch.results
                  (length batch.results == n) (e.random_uuid db1).1)) =
        simp (sent, Yields-fine db2 rows cs y, columns, prepare) refl in
      let answered = opened ∙ respond_Left batch c2 c2 _ (drop n cs) left in
      rw answered (
        ap
            (λ r. message [] (
              prepare_response_body (e.types rows) (name ∷ names) r (length r == n)
                (e.random_uuid db1).1))
            taken,
        left,
        refl,
        refl,
      )
