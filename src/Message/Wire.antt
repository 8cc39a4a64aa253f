-- ===== src/Message/Wire.antt =====
-- The generated `Serialize` and `Deserialize` of each class, and the framing of a message.
use duckdb_quack.Prelude.{Result, ok, err, internal, [], ◌>>=◌}
use duckdb_quack.Message.Types.{
  MessageType, MessageHeader, QuackMessage, Body, invalid_input_error, set_header,
  connection_request, connection_response, prepare_request, prepare_response, fetch_request,
  fetch_response, append_request, success_response, disconnect_message, error_response, invalid,
  unnamed, prepare_request_body, prepare_response_body, connection_request_body,
  connection_response_body, fetch_request_body, fetch_response_body, append_request_body,
  disconnect_body, success_body, error_body, message,
}
use duckdb_quack.Message.Serializer.{Serializer}

module _ {S C T : Type 0} (z : Serializer S C T) where
  -- `MessageHeader::Serialize`
  unfoldable pub serialize_header : MessageHeader → S → S
  serialize_header h s =
      z.type_code.write 1 h.type
        (z.text.write_default 2 h.connection_id (z.opt_index.write 3 h.client_query_id s))

  unfoldable pub deserialize_message_header : S → Result (MessageHeader × S)
  deserialize_message_header s = do
    (type, s) ← z.type_code.read 1 s
    (connection_id, s) ← z.text.read_default 2 s
    (client_query_id, s) ← z.opt_index.read 3 s
    ok (record { type = type; connection_id = connection_id; client_query_id = client_query_id }, s)

  -- The virtual `Serialize`.
  unfoldable pub serialize : Body C T → S → S
  serialize (append_request_body schema_name table_name append_chunk) s =
      z.text.write_default 1 schema_name
        (z.text.write_default 2 table_name (z.chunk.write_default 3 append_chunk s))
  serialize (connection_request_body auth version platform low high) s =
      z.text.write_default 1 auth (
        z.text.write_default 2 version (
          z.text.write_default 3 platform
            (z.index.write_default 4 low (z.index.write_default 5 high s))))
  serialize (connection_response_body version platform quack_version) s =
      z.text.write_default 1 version
        (z.text.write_default 2 platform (z.index.write_default 3 quack_version s))
  serialize disconnect_body s = s
  serialize (error_body e) s = z.text.write_default 1 e.raw_message s
  serialize (fetch_request_body uuid) s = z.huge.write 1 uuid s
  serialize (fetch_response_body results batch_index) s =
      z.chunks.write_default 1 results (z.opt_index.write 2 batch_index s)
  serialize (prepare_request_body sql_query) s = z.text.write_default 1 sql_query s
  serialize (prepare_response_body types names results more uuid) s =
      z.types.write_default 1 types (
        z.names.write_default 2 names
          (z.flag.write_default 3 more (z.chunks.write_default 4 results (z.huge.write 5 uuid s))))
  serialize success_body s = s

  unfoldable pub deserialize_append_request : S → Result (Body C T × S)
  deserialize_append_request s = do
    (schema_name, s) ← z.text.read_default 1 s
    (table_name, s) ← z.text.read_default 2 s
    (append_chunk, s) ← z.chunk.read_default 3 s
    ok (append_request_body schema_name table_name append_chunk, s)

  unfoldable pub deserialize_connection_request : S → Result (Body C T × S)
  deserialize_connection_request s = do
    (auth, s) ← z.text.read_default 1 s
    (version, s) ← z.text.read_default 2 s
    (platform, s) ← z.text.read_default 3 s
    (low, s) ← z.index.read_default 4 s
    (high, s) ← z.index.read_default 5 s
    ok (connection_request_body auth version platform low high, s)

  unfoldable pub deserialize_connection_response : S → Result (Body C T × S)
  deserialize_connection_response s = do
    (version, s) ← z.text.read_default 1 s
    (platform, s) ← z.text.read_default 2 s
    (quack_version, s) ← z.index.read_default 3 s
    ok (connection_response_body version platform quack_version, s)

  -- The constructor that takes a text sets the class INVALID_INPUT.
  unfoldable pub deserialize_error_response : S → Result (Body C T × S)
  deserialize_error_response s = do
    (raw_message, s) ← z.text.read_default 1 s
    ok (error_body (record { type = invalid_input_error; raw_message = raw_message }), s)

  unfoldable pub deserialize_fetch_request : S → Result (Body C T × S)
  deserialize_fetch_request s = do (uuid, s) ← z.huge.read 1 s; ok (fetch_request_body uuid, s)

  unfoldable pub deserialize_fetch_response : S → Result (Body C T × S)
  deserialize_fetch_response s = do
    (results, s) ← z.chunks.read_default 1 s
    (batch_index, s) ← z.opt_index.read 2 s
    ok (fetch_response_body results batch_index, s)

  unfoldable pub deserialize_prepare_request : S → Result (Body C T × S)
  deserialize_prepare_request s = do
    (sql_query, s) ← z.text.read_default 1 s
    ok (prepare_request_body sql_query, s)

  unfoldable pub deserialize_prepare_response : S → Result (Body C T × S)
  deserialize_prepare_response s = do
    (types, s) ← z.types.read_default 1 s
    (names, s) ← z.names.read_default 2 s
    (more, s) ← z.flag.read_default 3 s
    (results, s) ← z.chunks.read_default 4 s
    (uuid, s) ← z.huge.read 5 s
    ok (prepare_response_body types names results more uuid, s)

  -- `DisconnectMessage::Deserialize` and `SuccessResponse::Deserialize` read nothing.
  unfoldable pub deserialize_disconnect : S → Result (Body C T × S)
  deserialize_disconnect s = ok (disconnect_body, s)

  unfoldable pub deserialize_success : S → Result (Body C T × S)
  deserialize_success s = ok (success_body, s)

  -- `QuackMessage::Deserialize`
  unfoldable pub deserialize : MessageType → S → Result (Body C T × S)
  deserialize connection_request s = deserialize_connection_request s
  deserialize connection_response s = deserialize_connection_response s
  deserialize prepare_request s = deserialize_prepare_request s
  deserialize prepare_response s = deserialize_prepare_response s
  deserialize fetch_request s = deserialize_fetch_request s
  deserialize fetch_response s = deserialize_fetch_response s
  deserialize append_request s = deserialize_append_request s
  deserialize success_response s = deserialize_success s
  deserialize disconnect_message s = deserialize_disconnect s
  deserialize error_response s = deserialize_error_response s
  deserialize invalid s = err (internal "Unsupported type for message deserialization" [])
  deserialize (unnamed n) s = err (internal "Unsupported type for message deserialization" [])

  -- `QuackMessage::DeserializeHeader`
  unfoldable pub deserialize_header : S → Result (MessageHeader × S)
  deserialize_header s = do
    s ← z.read_begin s
    (header, s) ← deserialize_message_header s
    s ← z.read_end s
    ok (header, s)

  -- `QuackMessage::DeserializeMessage`
  unfoldable pub deserialize_message : MessageHeader → S → Result (QuackMessage C T × S)
  deserialize_message header s = do
    s ← z.read_begin s
    (body, s) ← deserialize header.type s
    let result = set_header header (message [] body)
    s ← z.read_end s
    ok (result, s)

  -- `QuackMessage::ToMemoryStream`
  unfoldable pub to_memory_stream : QuackMessage C T → S → S
  to_memory_stream m s =
      z.write_begin
        (serialize_header m.header (z.write_end (z.write_begin (serialize m.body (z.write_end s)))))

  -- `QuackMessage::FromMemoryStream`
  unfoldable pub from_memory_stream : S → Result (QuackMessage C T × S)
  from_memory_stream s = do (header, s) ← deserialize_header s; deserialize_message header s
