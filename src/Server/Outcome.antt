-- ===== src/Server/Outcome.antt =====
-- Every way in which handling a message can change the server.
use duckdb_quack.Prelude.{
  true, Bytes, Option, some, Result, ok, err, ◌≡◌, refl, inl, inr, Bool-cases, Option-cases, lookup,
  insert, remove,
}
use duckdb_quack.Text.StringUtil.{StringUtil}
use duckdb_quack.Message.Types.{
  MessageType, Body, message, connection_response_body, connection_request, prepare_request,
  fetch_request, append_request, disconnect_message, prepare_request_body, connection_request_body,
  fetch_request_body, append_request_body, disconnect_body,
}
use duckdb_quack.Message.Enum.{to_chars}
use duckdb_quack.Server.Engine.{Engine}
use duckdb_quack.Server.State.{QuackConnection, QuackServer}
use duckdb_quack.Server.Requests.{
  Message, Handled, quack_version, prepare, fetch, append, dummy_insert_query,
  server_supports_message,
}
use duckdb_quack.Server.Handle.{
  authenticate, authorized, store, handle_disconnect, dispatch, fallback, unimplemented,
}
use duckdb_quack.Server.Sessions.{new_connection, disconnect_connection}
use duckdb_quack.Server.Cases.{
  authorized_cases, connection_request_cases, prepare_session, fetch_session, append_session,
}

module _ (e : Engine) (u : StringUtil) where
  -- `refused` leaves the sessions alone, `accepted` opens one under a generated id for which the
  -- authentication callback gave true, `stored` changes the session of the message in place, and
  -- `dropped` removes it.
  pub data Outcome (id : Bytes) (type : MessageType) (connection : Option (QuackConnection e))
      (s : QuackServer e) : Result (Message e u) × QuackServer e → Type 0 where
    refused :
        (r : Result (Message e u)) (db : e.Db) (rng : Option e.Rng)
        → Outcome id type connection s (r, record s { db = db; session_id_rng = rng })
    accepted :
        (session_id auth_string : Bytes) (db : e.Db) (rng : Option e.Rng)
        → type ≡ connection_request
        → (authenticate e u session_id auth_string (record s { session_id_rng = rng })).0 ≡ ok true
        → Outcome id type connection s (
          ok (
              message session_id
                (connection_response_body e.library_version e.platform quack_version)),
          record s {
            db = db;
            session_id_rng = rng;
            active_connections =
                insert session_id (new_connection e db session_id) s.active_connections;
          },
        )
    stored :
        (c : QuackConnection e) (h : Handled e u)
        → connection ≡ some c
        → h.connection.session_id ≡ c.session_id
        → Outcome id type connection s (
          ok h.response,
          record s { db = h.db; active_connections = insert id h.connection s.active_connections },
        )
    dropped :
        (c : QuackConnection e) (r : Result (Message e u))
        → connection ≡ some c
        → Outcome id type connection s
            (r, record s { active_connections = remove c.session_id s.active_connections })

  fallback-Outcome :
      (id : Bytes) (type : MessageType) (connection : Option (QuackConnection e))
      (s : QuackServer e)
      → Outcome id type connection s (fallback e u type s)
  unfolding fallback unimplemented
  fallback-Outcome id type connection s = elim (Bool-cases (server_supports_message type)) [
    | inl e1 ↦ rw (e1, fallback) (refused _ s.db s.session_id_rng)
    | inr e1 ↦ rw (e1, fallback) (named (to_chars type) refl)
  ]
    where
      named :
          (r : Result Bytes)
          → to_chars type ≡ r
          → Outcome id type connection s (unimplemented e u type s)
      named (ok name) e2 = rw (e2, unimplemented) (refused _ s.db s.session_id_rng)
      named (err x) e2 = rw (e2, unimplemented) (refused _ s.db s.session_id_rng)

  disconnect-Outcome :
      (id : Bytes) (type : MessageType) (c : QuackConnection e) (s : QuackServer e)
      → Outcome id type (some c) s (handle_disconnect e u c s)
  unfolding handle_disconnect disconnect_connection
  disconnect-Outcome id type c s = elim (Option-cases (lookup c.session_id s.active_connections)) [
    | inl e1 ↦ rw (e1, handle_disconnect, disconnect_connection) (refused _ s.db s.session_id_rng)
    | inr (found, e1) ↦ rw (e1, handle_disconnect, disconnect_connection) (dropped c _ refl)
  ]

  authorized-Outcome :
      (id : Bytes) (type : MessageType) (c : QuackConnection e) (query : Bytes)
      (request : QuackServer e → Handled e u) (s : QuackServer e)
      → ((t : QuackServer e) → (request t).connection.session_id ≡ c.session_id)
      → Outcome id type (some c) s (authorized e u id query request s)
  unfolding store
  authorized-Outcome id type c query request s kept =
      authorized_cases e u (Outcome id type (some c) s) id query request s
        (λ r db. refused r db s.session_id_rng)
        λ db yes_. stored c (request (record s { db = db })) refl (kept (record s { db = db }))

  pub dispatch-Outcome :
      (id : Bytes) (type : MessageType) (connection : Option (QuackConnection e))
      (body : Body e.Chunk e.Logical) (s : QuackServer e)
      → Outcome id type connection s (dispatch e u id type connection body s)
  unfolding dispatch store
  dispatch-Outcome id connection_request connection (connection_request_body auth_string v p low h)
        s =
      connection_request_cases e u (Outcome id connection_request connection s) auth_string low s
        (λ r db rng. refused r db rng)
        λ new_id db rng yes_. accepted new_id auth_string db rng refl yes_
  dispatch-Outcome id disconnect_message (some c) disconnect_body s =
      disconnect-Outcome id disconnect_message c s
  dispatch-Outcome id prepare_request (some c) (prepare_request_body query) s =
      authorized-Outcome id prepare_request c query (λ t. prepare e u t.db c query) s
        λ t. prepare_session e u t.db c query
  dispatch-Outcome id fetch_request (some c) (fetch_request_body uuid) s =
      stored c (fetch e u s.db c uuid) refl (fetch_session e u s.db c uuid)
  dispatch-Outcome id append_request (some c) (append_request_body schema_name table_name chunk) s =
      authorized-Outcome id append_request c (dummy_insert_query e u schema_name table_name)
        (λ t. append e u t.db c schema_name table_name chunk) s
        λ t. append_session e u t.db c schema_name table_name chunk
  dispatch-Outcome id type connection body s = fallback-Outcome id type connection s
