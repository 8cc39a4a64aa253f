-- ===== src/Server/Log.antt =====
-- `QuackLogType::ConstructLogMessage` of src/quack_log.cpp: the fields of a log entry, before
-- DuckDB prints the struct.
use duckdb_quack.Prelude.{ℕ, [], ◌∷◌, Bytes, Option, none, some, Result, ok, ◌>>=◌}
use duckdb_quack.Message.Types.{MessageType}
use duckdb_quack.Message.Enum.{to_chars}
use duckdb_quack.Server.Engine.{LogEntry}

-- An empty text is logged as NULL.
unfoldable pub null_if_empty : Bytes → Option Bytes
null_if_empty [] = none
null_if_empty (c ∷ s) = some (c ∷ s)

unfoldable pub construct_log_message :
    MessageType → Bytes → Option ℕ → Bytes → Bytes → ℕ → MessageType → Bytes → Result LogEntry
unfolding null_if_empty
construct_log_message request_type connection_id client_query_id query server duration response_type
      error =
    do
      request_name ← to_chars request_type
      response_name ← to_chars response_type
      ok (record {
        message_type = request_name;
        connection_id = connection_id;
        client_query_id = client_query_id;
        query = null_if_empty query;
        server = null_if_empty server;
        duration_ms = duration;
        response_type = response_name;
        error = null_if_empty error;
      })
