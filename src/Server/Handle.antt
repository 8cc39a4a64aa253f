-- ===== src/Server/Handle.antt =====
-- `HandleMessageInternal` and `HandleMessage`.
use duckdb_quack.Prelude.{
  ℕ, ◌-◌, Bool, true, false, not, [], ◌∷◌, Bytes, codes, Option, none, some, Result, ok, err,
  internal, ltb, insert, if◌then◌else◌, ◌&&◌,
}
use duckdb_quack.Text.StringUtil.{StringUtil, str}
use duckdb_quack.Message.Types.{
  MessageType, MessageHeader, QuackMessage, Body, message, connection_request, prepare_request,
  fetch_request, append_request, disconnect_message, prepare_request_body, connection_request_body,
  connection_response_body, fetch_request_body, append_request_body, disconnect_body, success_body,
  error_body,
}
use duckdb_quack.Message.Enum.{to_chars}
use duckdb_quack.Message.Serializer.{Serializer}
use duckdb_quack.Message.Wire.{deserialize_header, deserialize_message}
use duckdb_quack.Server.Engine.{Engine}
use duckdb_quack.Server.State.{QuackConnection, QuackServer, Method, ◌>>=◌, ◌>>◌, done, throw, get}
use duckdb_quack.Server.Sessions.{
  get_connection, create_new_connection, disconnect_connection, generate_session_id,
}
use duckdb_quack.Server.Log.{construct_log_message}
use duckdb_quack.Server.Requests.{
  server_supports_message, message_requires_connection, quack_version, Message, error_text,
  evaluate_auth_query, Handled, prepare, fetch, append, dummy_insert_query,
}

-- `ExtractQuery`
unfoldable pub extract_query : {C T : Type 0} → QuackMessage C T → Bytes
extract_query m = elim m.body [ prepare_request_body sql_query ↦ sql_query | _ ↦ [] ]

module _ (e : Engine) (u : StringUtil) where
  -- The call of a callback whose name is a setting.
  unfoldable pub callback : QuackServer e → Bytes → Bytes → Bytes
  callback s form setting = u.format form (str (e.setting_string s.db setting) ∷ [])

  unfoldable pub authenticate : Bytes → Bytes → Method e Bool
  authenticate session_id auth_string s =
      evaluate_auth_query e u
        (callback s (codes "SELECT %s(?, ?, ?)") (codes "quack_authentication_function"))
        (session_id ∷ auth_string ∷ s.token ∷ []) s

  unfoldable pub authorize : Bytes → Bytes → Method e Bool
  authorize connection_id query s =
      evaluate_auth_query e u
        (callback s (codes "SELECT %s(?, ?)") (codes "quack_authorization_function"))
        (connection_id ∷ query ∷ []) s

  -- A handler changes the connection object in place.
  unfoldable pub store : Bytes → Handled e u → Method e (Message e u)
  store id h s =
      done h.response
        (record s { db = h.db; active_connections = insert id h.connection s.active_connections })

  -- CONNECTION_REQUEST, from the point where the session id is generated.
  unfoldable pub admit : Bytes → Bytes → Method e (Message e u)
  admit session_id auth_string = do
    allowed ← authenticate session_id auth_string
    if allowed
        then (do
          id ← create_new_connection e session_id
          done (message id (connection_response_body e.library_version e.platform quack_version)))
        else done (error_text e u (codes "Authentication failed"))

  unfoldable pub handle_connection_request : Bytes → ℕ → Method e (Message e u)
  handle_connection_request auth_string minimum =
      if ltb quack_version minimum
      then done (
          error_text e u
            (codes "Unsupported Quack version - server only supports version 1 of quack"))
      else (do session_id ← generate_session_id e; admit session_id auth_string)

  unfoldable pub handle_disconnect : QuackConnection e → Method e (Message e u)
  handle_disconnect c = do
    existed ← disconnect_connection e c.session_id
    if existed
        then done (message [] success_body)
        else done (error_text e u (codes "Connection does not exist / already disconnected"))

  -- Run a request if the authorization callback lets its query pass.
  unfoldable pub authorized : Bytes → Bytes → (QuackServer e → Handled e u) → Method e (Message e u)
  authorized id query request = do
    allowed ← authorize id query
    s ← get
    if allowed then store id (request s) else done (error_text e u (codes "Authorization failed"))

  unfoldable pub unimplemented : MessageType → Method e (Message e u)
  unimplemented type s = elim (to_chars type) [
    | ok name ↦
        done (error_text e u (u.format (codes "Unimplemented message type %s") (str name ∷ []))) s
    | err x ↦ throw x s
  ]

  unfoldable pub fallback : MessageType → Method e (Message e u)
  fallback type =
      if server_supports_message type
      then throw (internal "Failed to cast message to type - message type mismatch" [])
      else unimplemented type

  -- The switch of `HandleMessageInternal`. A body of another class than the type says, and a
  -- connection that is not there, are refused by the exceptions of `Cast` and of the null pointer.
  unfoldable pub dispatch :
      Bytes
      → MessageType
      → Option (QuackConnection e)
      → Body e.Chunk e.Logical
      → Method e (Message e u)
  dispatch id connection_request connection
        (connection_request_body auth_string version platform low high) =
      handle_connection_request auth_string low
  dispatch id disconnect_message (some c) disconnect_body = handle_disconnect c
  dispatch id prepare_request (some c) (prepare_request_body query) =
      authorized id query (λ s. prepare e u s.db c query)
  dispatch id fetch_request (some c) (fetch_request_body uuid) =
      get >>= λ s. store id (fetch e u s.db c uuid)
  dispatch id append_request (some c) (append_request_body schema_name table_name chunk) =
      authorized id (dummy_insert_query e u schema_name table_name)
        (λ s. append e u s.db c schema_name table_name chunk)
  dispatch id type connection body = fallback type

  unfoldable pub handle_message_internal :
      Option (QuackConnection e) → Message e u → Method e (Message e u)
  unfolding dispatch
  handle_message_internal connection m =
      dispatch m.header.connection_id m.header.type connection m.body

  -- The end of `HandleMessage`: the message is processed and logged.
  unfoldable pub write_log : ℕ → Message e u → Message e u → Method e (Unit {0})
  unfolding extract_query
  write_log duration request response s =
      let error : Bytes = elim response.body [
        | error_body error ↦ e.error_message error
        | _ ↦ []
      ] in
      elim (construct_log_message request.header.type request.header.connection_id
        request.header.client_query_id (extract_query request) [] duration response.header.type
        error) [ ok entry ↦ done tt (record s { db = e.write_log s.db entry }) | err x ↦ throw x s ]

module _ (e : Engine) (u : StringUtil) {S : Type 0} (z : Serializer S e.Chunk e.Logical) where
  abbrev pub lift : {A : Type 0} → Result A → Method e A
  lift r s = (r, s)

  unfoldable pub process :
      ℕ → Bool → Option (QuackConnection e) → MessageHeader → S → Method e (Message e u)
  process duration logged connection header stream = do
    (received, rest) ← lift (deserialize_message z header stream)
    response ← handle_message_internal e u connection received
    if logged then write_log e u duration received response else done tt
    done response

  -- The connection that a message of a type needs.
  unfoldable pub obtain_connection : QuackServer e → MessageHeader → Option (QuackConnection e)
  obtain_connection s header =
      if message_requires_connection header.type
      then get_connection e s header.connection_id
      else none

  abbrev pub is_missing : Option (QuackConnection e) → Bool
  is_missing none = true
  is_missing (some c) = false

  -- `HandleMessage`; `start` and `end` are the readings of the clock.
  unfoldable pub handle_message : ℕ → ℕ → S → Method e (Message e u)
  handle_message start end stream = do
    s ← get
    if s.db_closed then done (error_text e u (codes "Database was closed")) else (do
      (header, rest) ← lift (deserialize_header z stream)
      let connection = obtain_connection s header
      if not (server_supports_message header.type)
          then done (error_text e u (codes "Unsupported message type for server"))
          else if message_requires_connection header.type && is_missing connection
          then done (error_text e u (codes "Invalid connection id"))
          else process (end - start) (e.should_log s.db) connection header rest)
