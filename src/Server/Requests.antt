-- ===== src/Server/Requests.antt =====
-- What the server does for each kind of request.
use duckdb_quack.Prelude.{
  ℕ, ◌+◌, ◌%◌, ◌^◌, Bool, true, false, not, List, [], ◌∷◌, Bytes, codes, Option, none, some, Result,
  ok, ◌==◌, length, if◌then◌else◌,
}
use duckdb_quack.Text.StringUtil.{StringUtil, str}
use duckdb_quack.Message.Types.{
  MessageType, QuackMessage, ErrorData, invalid_input_error, message, connection_request,
  prepare_request, fetch_request, append_request, disconnect_message, prepare_response_body,
  fetch_response_body, success_body, error_body,
}
use duckdb_quack.Server.Engine.{Engine}
use duckdb_quack.Server.State.{QuackConnection, Method, done}
use duckdb_quack.Server.Batch.{Batch, create_batch}

-- `ServerSupportsMessage`
unfoldable pub server_supports_message : MessageType → Bool
server_supports_message connection_request = true
server_supports_message prepare_request = true
server_supports_message fetch_request = true
server_supports_message append_request = true
server_supports_message disconnect_message = true
server_supports_message _ = false

-- `MessageRequiresConnection`
unfoldable pub message_requires_connection : MessageType → Bool
message_requires_connection connection_request = false
message_requires_connection _ = true

-- `QuackServer::QUACK_VERSION`
abbrev pub quack_version : ℕ
quack_version = 1

module _ (e : Engine) (u : StringUtil) where
  abbrev pub Message : Type 0
  Message = QuackMessage e.Chunk e.Logical

  -- `make_uniq<ErrorResponse>(...)` of an error and of a text.
  unfoldable pub error_response_of : ErrorData → Message
  error_response_of error = message [] (error_body error)

  unfoldable pub error_text : Bytes → Message
  unfolding error_response_of
  error_text text = error_response_of (record { type = invalid_input_error; raw_message = text })

  -- `EvaluateAuthQuery`: true only if the query gives a first row with a true value.
  abbrev pub fetched_true : Option e.Chunk → Result Bool
  fetched_true none = ok false
  fetched_true (some chunk) = e.bool_value chunk

  unfoldable pub evaluate_auth_query : Bytes → List Bytes → Method e Bool
  evaluate_auth_query sql values s =
      let (db, result) = e.query s.db sql values in
      elim result [
        | none ↦ done false (record s { db = db })
        | some rows ↦
            if e.has_error rows
            then done false (record s { db = db })
            else let (db', chunk, rows') = e.fetch db rows in
              (fetched_true chunk, record s { db = db' })
      ]

  -- What a request leaves behind, and its response.
  pub record Handled : Type 0 where
    pub db : e.Db
    pub connection : QuackConnection e
    pub response : Message

  abbrev pub is_none : Option e.Rows → Bool
  is_none none = true
  is_none (some rows) = false

  abbrev pub no_columns : List Bytes → Bool
  no_columns [] = true
  no_columns (n ∷ ns) = false

  -- The end of PREPARE and of FETCH: a result that failed on the way is dropped and reported.
  unfoldable pub respond_batch : Batch e → QuackConnection e → QuackConnection e → Message → Handled
  unfolding error_response_of
  respond_batch batch c answered response = elim batch.query_result [
    | none ↦ record {
      db = batch.db;
      connection = record answered { duckdb_query_result = none };
      response = response;
    }
    | some rows ↦
        if e.has_error rows
        then record {
          db = batch.db;
          connection = record c { duckdb_query_result = none };
          response = error_response_of (e.error_object rows);
        }
        else record {
          db = batch.db;
          connection = record answered { duckdb_query_result = some rows };
          response = response;
        }
  ]

  abbrev pub max_chunks_per_batch : e.Db → ℕ
  max_chunks_per_batch db = e.setting_number db (codes "quack_fetch_batch_chunks")

  -- PREPARE_REQUEST, behind its authorization.
  unfoldable pub prepare : e.Db → QuackConnection e → Bytes → Handled
  unfolding error_text respond_batch
  prepare db c query =
      let (db1, conn, rows) = e.send_query db c.duckdb_connection query in
      let c1 : QuackConnection e = record c {
        duckdb_connection = conn;
        duckdb_query_result = none;
      } in
      if e.has_error rows
      then record { db = db1; connection = c1; response = error_response_of (e.error_object rows) }
      else if no_columns (e.names rows)
      then record {
        db = db1;
        connection = c1;
        response = error_text (codes "Query did not return any columns");
      }
      else let (db2, uuid) = e.random_uuid db1 in
        let c2 : QuackConnection e = record c1 { next_batch_index = 1; result_uuid = uuid } in
        let max_chunks = max_chunks_per_batch db2 in
        let batch = create_batch e max_chunks db2 rows in
        respond_batch batch c2 c2 (
          message [] (
            prepare_response_body (e.types rows) (e.names rows) batch.results
              (length batch.results == max_chunks) uuid))

  -- FETCH_REQUEST, for a batch index below 2^64 - 1: with this one the constructor of
  -- `optional_idx` throws.
  unfoldable pub fetch : e.Db → QuackConnection e → ℕ → Handled
  unfolding error_text respond_batch
  fetch db c uuid =
      if not (c.result_uuid == uuid)
      then record {
        db = db;
        connection = c;
        response = error_text (codes "Result has been closed");
      }
      else elim c.duckdb_query_result [
        | none ↦ record {
          db = db;
          connection = c;
          response = message [] (fetch_response_body [] none);
        }
        | some rows ↦
            if e.has_error rows
            then record {
              db = db;
              connection = c;
              response = error_response_of (e.error_object rows);
            }
            else let batch = create_batch e (max_chunks_per_batch db) db rows in
              respond_batch batch c
                (record c { next_batch_index = (c.next_batch_index + 1) % 2 ^ 64 })
                (message [] (fetch_response_body batch.results (some c.next_batch_index)))
      ]

  -- The query that stands for an append when it is authorized.
  unfoldable pub dummy_insert_query : Bytes → Bytes → Bytes
  dummy_insert_query schema_name table_name =
      u.format (codes "INSERT INTO %s.%s VALUES (NULL)")
        (str (e.sql_identifier schema_name) ∷ str (e.sql_identifier table_name) ∷ [])

  -- APPEND_REQUEST, behind its authorization.
  unfoldable pub append : e.Db → QuackConnection e → Bytes → Bytes → Option e.Chunk → Handled
  unfolding error_text
  append db c schema_name table_name chunk =
      let (db1, conn, table) = e.table_info db c.duckdb_connection schema_name table_name in
      let c1 : QuackConnection e = record c { duckdb_connection = conn } in
      elim table [
        | none ↦ record {
          db = db1;
          connection = c1;
          response = error_text (
              u.format (codes "Table %s.%s does not exist")
                (str (e.sql_identifier schema_name) ∷ str (e.sql_identifier table_name) ∷ []));
        }
        | some info ↦
            let (db2, conn2, failure) = e.append db1 conn info chunk in
            record {
              db = db2;
              connection = record c1 { duckdb_connection = conn2 };
              response = elim failure [
                | none ↦ message [] success_body
                | some error ↦ error_response_of error
              ];
            }
      ]
