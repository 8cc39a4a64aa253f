-- ===== src/Message/Types.antt =====
-- The message types, the header and the message classes.
use duckdb_quack.Prelude.{
  ℕ, Bool, List, [], Bytes, Option, none, Result, ok, err, internal, ◌==◌, if◌then◌else◌,
}

-- `enum class MessageType : uint8_t`; `unnamed n` is a value that has no enumerator.
pub data MessageType : Type 0 where
  invalid connection_request connection_response prepare_request prepare_response : MessageType
  fetch_request fetch_response append_request success_response disconnect_message : MessageType
  error_response : MessageType
  unnamed : ℕ → MessageType

-- The underlying `uint8_t`.
unfoldable pub type_value : MessageType → ℕ
type_value invalid = 0
type_value connection_request = 1
type_value connection_response = 2
type_value prepare_request = 3
type_value prepare_response = 4
type_value fetch_request = 7
type_value fetch_response = 8
type_value append_request = 9
type_value success_response = 10
type_value disconnect_message = 11
type_value error_response = 100
type_value (unnamed n) = n

pub record MessageHeader : Type 0 where
  pub type : MessageType
  pub connection_id : Bytes
  pub client_query_id : Option ℕ

-- The class of an error; the server and the wire format set only the first.
pub data ExceptionType : Type 0 where
  invalid_input_error : ExceptionType
  other_error : ℕ → ExceptionType

pub record ErrorData : Type 0 where
  pub type : ExceptionType
  pub raw_message : Bytes

-- The fields of each message class. `C` is DuckDB's `DataChunk` and `T` its `LogicalType`.
pub data Body (C T : Type 0) : Type 0 where
  prepare_request_body : (sql_query : Bytes) → Body C T
  prepare_response_body :
      (result_types : List T) (result_names : List Bytes) (results : List C)
      (needs_more_fetch : Bool) (result_uuid : ℕ)
      → Body C T
  connection_request_body :
      (auth_string client_duckdb_version client_platform : Bytes)
      (min_supported_quack_version max_supported_quack_version : ℕ)
      → Body C T
  connection_response_body :
      (server_duckdb_version server_platform : Bytes) (quack_version : ℕ) → Body C T
  fetch_request_body : (uuid : ℕ) → Body C T
  fetch_response_body : (results : List C) (batch_index : Option ℕ) → Body C T
  append_request_body : (schema_name table_name : Bytes) (append_chunk : Option C) → Body C T
  disconnect_body : Body C T
  success_body : Body C T
  error_body : (error : ErrorData) → Body C T

pub record QuackMessage (C T : Type 0) : Type 0 where
  pub header : MessageHeader
  pub body : Body C T

module _ {C T : Type 0} where
  -- The constant `TYPE` of each class.
  unfoldable pub body_type : Body C T → MessageType
  body_type (prepare_request_body q) = prepare_request
  body_type (prepare_response_body t n r m u) = prepare_response
  body_type (connection_request_body a v p l h) = connection_request
  body_type (connection_response_body v p q) = connection_response
  body_type (fetch_request_body u) = fetch_request
  body_type (fetch_response_body r b) = fetch_response
  body_type (append_request_body s t c) = append_request
  body_type disconnect_body = disconnect_message
  body_type success_body = success_response
  body_type (error_body e) = error_response

  -- `QuackMessage(type, connection_id)`: the header that every class's constructor sets.
  unfoldable pub message : Bytes → Body C T → QuackMessage C T
  unfolding body_type
  message connection_id body = record {
    header = record {
      type = body_type body;
      connection_id = connection_id;
      client_query_id = none;
    };
    body = body;
  }

  unfoldable pub set_header : MessageHeader → QuackMessage C T → QuackMessage C T
  set_header h m = record m { header = h }

  unfoldable pub set_client_query_id : Option ℕ → QuackMessage C T → QuackMessage C T
  set_client_query_id id m = record m { header = record (m.header) { client_query_id = id } }

  -- `Cast<TARGET>()`: the check in front of the cast.
  unfoldable pub cast : MessageType → QuackMessage C T → Result (Body C T)
  unfolding type_value
  cast target m =
      if type_value m.header.type == type_value target
      then ok m.body
      else err (internal "Failed to cast message to type - message type mismatch" [])
