-- ===== src/Server/Engine.antt =====
-- The DuckDB functions that the server calls, which are not part of this repository.
use duckdb_quack.Prelude.{ℕ, Bool, List, Bytes, Option, Result}
use duckdb_quack.Message.Types.{ErrorData}

-- What `QuackLogType::ConstructLogMessage` puts into a log entry.
pub record LogEntry : Type 0 where
  pub message_type : Bytes
  pub connection_id : Bytes
  pub client_query_id : Option ℕ
  pub query : Option Bytes
  pub server : Option Bytes
  pub duration_ms : ℕ
  pub response_type : Bytes
  pub error : Option Bytes

-- The types: `Db` is the state of a database instance, `Conn` of a `Connection`, `Rows` of a
-- `QueryResult` that is read chunk by chunk, `Chunk` a `DataChunk`, `Logical` a `LogicalType`,
-- `Table` a `TableDescription` and `Rng` an `EncryptionState` used as a random generator.
pub record Engine : Type 1 where
  pub Db : Type 0
  pub Conn : Type 0
  pub Rows : Type 0
  pub Chunk : Type 0
  pub Logical : Type 0
  pub Table : Type 0
  pub Rng : Type 0
  -- `Connection(db)`, and `TryGetCurrentSetting` of a text and of a number
  pub connect : Db → Conn
  pub setting_string : Db → Bytes → Bytes
  pub setting_number : Db → Bytes → ℕ
  -- `Connection(db).Query(sql, values...)`
  pub query : Db → Bytes → List Bytes → Db × Option Rows
  -- `SendQuery(sql)`
  pub send_query : Db → Conn → Bytes → Db × Conn × Rows
  pub has_error : Rows → Bool
  pub error_object : Rows → ErrorData
  pub names : Rows → List Bytes
  pub types : Rows → List Logical
  -- `Fetch()`
  pub fetch : Db → Rows → Db × Option Chunk × Rows
  pub chunk_size : Chunk → ℕ
  -- `GetValue(0, 0).GetValue<bool>()`
  pub bool_value : Chunk → Result Bool
  pub table_info : Db → Conn → Bytes → Bytes → Db × Conn × Option Table
  -- the `try` block of an append; the option is the exception that it catches
  pub append : Db → Conn → Table → Option Chunk → Db × Conn × Option ErrorData
  pub sql_identifier : Bytes → Bytes
  -- `CreateEncryptionState` and `GenerateRandomData`
  pub create_rng : Db → Rng
  pub random_bytes : Rng → ℕ → List ℕ × Rng
  pub random_uuid : Db → Db × ℕ
  -- the value of a `hugeint_t` that nothing has been stored in
  pub indeterminate : ℕ
  -- `Blob::HEX_TABLE`
  pub hex_table : ℕ → ℕ
  pub library_version : Bytes
  pub platform : Bytes
  -- `ErrorData::Message()`
  pub error_message : ErrorData → Bytes
  pub should_log : Db → Bool
  pub write_log : Db → LogEntry → Db
