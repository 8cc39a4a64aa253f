-- ===== src/Listen/Requests.antt =====
-- The requests on a session, and what the server answers to them from the stream of the message.
use duckdb_quack.Prelude.{
  ℕ, ◌-◌, true, false, Bytes, Option, some, Result, ok, lookup, insert, ◌≡◌, refl, ap, ◌∙◌,
}
use duckdb_quack.Text.StringUtil.{StringUtil}
use duckdb_quack.Message.Types.{
  Body, message, body_type, prepare_request_body, fetch_request_body, append_request_body,
}
use duckdb_quack.Message.Serializer.{Serializer, SerializerLaws}
use duckdb_quack.Message.Wire.{to_memory_stream, deserialize_message, serialize}
use duckdb_quack.Message.RoundTrip.{
  IsTyped, received, deserialize_header-serialize_header, deserialize_message-serialize,
}
use duckdb_quack.Server.Engine.{Engine}
use duckdb_quack.Server.State.{QuackConnection, QuackServer}
use duckdb_quack.Server.Requests.{
  Message, Handled, server_supports_message, message_requires_connection, prepare, fetch, append,
  dummy_insert_query,
}
use duckdb_quack.Server.Handle.{
  handle_message, handle_message_internal, authorize, authorized, store, process, obtain_connection,
}
use duckdb_quack.Server.Sessions.{get_connection}
use duckdb_quack.Server.Gate.{handle_message_open}
use duckdb_quack.Client.Request.{request}

module _ (e : Engine) (u : StringUtil) where
  -- The requests on a session.
  pub data SessionRequest : Type 0 where
    prepare_of : Bytes → SessionRequest
    fetch_of : ℕ → SessionRequest
    append_of : Bytes → Bytes → Option e.Chunk → SessionRequest

  abbrev pub body_of : SessionRequest → Body e.Chunk e.Logical
  body_of (prepare_of query) = prepare_request_body query
  body_of (fetch_of uuid) = fetch_request_body uuid
  body_of (append_of schema_name table_name chunk) =
      append_request_body schema_name table_name chunk

  abbrev pub handled : SessionRequest → e.Db → QuackConnection e → Handled e u
  handled (prepare_of query) db c = prepare e u db c query
  handled (fetch_of uuid) db c = fetch e u db c uuid
  handled (append_of schema_name table_name chunk) db c =
      append e u db c schema_name table_name chunk

  -- The authorization callback lets the request pass and changes nothing.
  abbrev pub IsAllowed : SessionRequest → Bytes → QuackServer e → Type 0
  IsAllowed (prepare_of query) id s = authorize e u id query s ≡ (ok true, s)
  IsAllowed (fetch_of uuid) id s = Unit {0}
  IsAllowed (append_of schema_name table_name chunk) id s =
      authorize e u id (dummy_insert_query e u schema_name table_name) s ≡ (ok true, s)

  abbrev pub with_session : Bytes → e.Db → QuackConnection e → QuackServer e → QuackServer e
  with_session id db c s = record s {
    db = db;
    active_connections = insert id c s.active_connections;
  }

  abbrev pub stored :
      SessionRequest
      → Bytes
      → QuackConnection e
      → QuackServer e
      → Result (Message e u) × QuackServer e
  stored request id c s =
      let h = handled request s.db c in (ok h.response, with_session id h.db h.connection s)

  authorized-stored :
      (id query : Bytes) (request : QuackServer e → Handled e u) (s : QuackServer e)
      → authorize e u id query s ≡ (ok true, s)
      → authorized e u id query request s
        ≡ (ok (request s).response, with_session id (request s).db (request s).connection s)
  unfolding authorized store
  authorized-stored id query request s allowed = rw allowed refl

  handled_internally :
      (request : SessionRequest) (id : Bytes) (c : QuackConnection e) (s : QuackServer e)
      → IsAllowed request id s
      → handle_message_internal e u (some c) (message id (body_of request)) s
        ≡ stored request id c s
  unfolding handle_message_internal message store
  handled_internally (prepare_of query) id c s allowed =
      authorized-stored id query (λ s1. prepare e u s1.db c query) s allowed
  handled_internally (fetch_of uuid) id c s allowed = refl
  handled_internally (append_of schema_name table_name chunk) id c s allowed =
      authorized-stored id (dummy_insert_query e u schema_name table_name)
        (λ s1. append e u s1.db c schema_name table_name chunk) s allowed

  -- Their messages are typed, and are of a type that the server handles for a connection.
  gate_open :
      (request : SessionRequest) (id : Bytes)
      → let m = message id (body_of request) in
        IsTyped m
        × (received m.body ≡ m.body)
        × (m.header.connection_id ≡ id)
        × (server_supports_message m.header.type ≡ true)
        × (message_requires_connection m.header.type ≡ true)
  unfolding message body_type server_supports_message message_requires_connection
  gate_open (prepare_of query) id = (refl, refl, refl, refl, refl)
  gate_open (fetch_of uuid) id = (refl, refl, refl, refl, refl)
  gate_open (append_of schema_name table_name chunk) id = (refl, refl, refl, refl, refl)

  -- A server that is open, does not log, and has the session.
  pub record HasSession (id : Bytes) (c : QuackConnection e) (s : QuackServer e) : Type 0 where
    pub fresh : s.db_closed ≡ false
    pub quiet : e.should_log s.db ≡ false
    pub there : lookup id s.active_connections ≡ some c

module _ (e : Engine) (u : StringUtil) {S : Type 0} (z : Serializer S e.Chunk e.Logical)
    (laws : SerializerLaws z) where
  processed :
      (request : SessionRequest e u) (duration : ℕ) (id : Bytes) (c : QuackConnection e)
      (s : QuackServer e) (stream rest : S)
      → let m = message id (body_of e u request) in
        deserialize_message z m.header stream ≡ ok (m, rest)
        → IsAllowed e u request id s
        → process e u z duration false (some c) m.header stream s ≡ stored e u request id c s
  unfolding process
  processed request duration id c s stream rest read allowed =
      rw (read, handled_internally e u request id c s allowed) refl

  pub handle_message-stored :
      (start end : ℕ) (request : SessionRequest e u) (id : Bytes) (c : QuackConnection e)
      (s : QuackServer e) (tail : S)
      → HasSession e u id c s
      → IsAllowed e u request id s
      → handle_message e u z start end
          (to_memory_stream z (message id (body_of e u request)) tail)
          s
        ≡ stored e u request id c s
  unfolding to_memory_stream obtain_connection get_connection
  handle_message-stored start end request id c s tail has allowed =
      let m = message id (body_of e u request) in
      let (typed, plain, names, supported, required) = gate_open e u request id in
      let body = z.write_begin (serialize z m.body (z.write_end tail)) in
      handle_message_open e u z start end _ body m.header s has.fresh
        (deserialize_header-serialize_header z laws m.header body)
      ∙ rw (supported, required, names, has.there, has.quiet)
          (processed request (end - start) id c s body tail
            (deserialize_message-serialize z laws m.header m.body tail typed
              ∙ ap (λ b. ok (record m { body = b }, tail)) plain)
            allowed)
  -- The answer is read back as what the session gives.
