-- ===== src/Server/Gate.antt =====
-- What reaches the handlers through `HandleMessage`.
use duckdb_quack.Prelude.{
  ℕ, ◌-◌, true, false, not, codes, none, ok, ◌≡◌, ◌≢◌, ◌⊎◌, inl, inr, refl, ◌∙◌, arith,
  if◌then◌else◌, ◌&&◌,
}
use duckdb_quack.Text.StringUtil.{StringUtil}
use duckdb_quack.Message.Types.{
  MessageType, MessageHeader, connection_request, prepare_request, fetch_request, append_request,
  disconnect_message,
}
use duckdb_quack.Message.Serializer.{Serializer}
use duckdb_quack.Message.Wire.{deserialize_header}
use duckdb_quack.Server.Engine.{Engine}
use duckdb_quack.Server.State.{QuackServer, Method}
use duckdb_quack.Server.Requests.{
  Message, error_text, server_supports_message, message_requires_connection,
}
use duckdb_quack.Server.Handle.{handle_message, obtain_connection, process, is_missing}
use duckdb_quack.Server.Sessions.{get_connection}
use duckdb_quack.Server.Safety.{session}

module _ (e : Engine) (u : StringUtil) {S : Type 0} (z : Serializer S e.Chunk e.Logical) where
  -- `HandleMessage` on an open server behind the read of the header.
  abbrev pub gate : ℕ → MessageHeader → S → Method e (Message e u)
  gate duration header rest s =
      if not (server_supports_message header.type)
      then (ok (error_text e u (codes "Unsupported message type for server")), s)
      else if message_requires_connection header.type
          && is_missing e u z (obtain_connection e u z s header)
      then (ok (error_text e u (codes "Invalid connection id")), s)
      else process e u z duration (e.should_log s.db) (obtain_connection e u z s header) header rest
          s

  pub handle_message_open :
      (start end : ℕ) (stream rest : S) (header : MessageHeader) (s : QuackServer e)
      → s.db_closed ≡ false
      → deserialize_header z stream ≡ ok (header, rest)
      → handle_message e u z start end stream s ≡ gate (end - start) header rest s
  unfolding handle_message
  handle_message_open start end stream rest header s fresh read = ground (arith, fresh, read)

  obtain_none :
      (header : MessageHeader) (s : QuackServer e)
      → session e u header.connection_id s ≡ none
      → obtain_connection e u z s header ≡ none
  unfolding obtain_connection get_connection
  obtain_none header s h = ground arith

  -- The messages that a client sends on a session.
  abbrev pub IsSessionRequest : MessageType → Type 0
  IsSessionRequest type =
      (type ≡ prepare_request)
      ⊎ (type ≡ fetch_request)
      ⊎ (type ≡ append_request)
      ⊎ (type ≡ disconnect_message)

  supported_on_session :
      (type : MessageType)
      → IsSessionRequest type
      → (server_supports_message type ≡ true) × (message_requires_connection type ≡ true)
  unfolding server_supports_message message_requires_connection
  supported_on_session type (inl e1) = rw e1 (refl, refl)
  supported_on_session type (inr (inl e1)) = rw e1 (refl, refl)
  supported_on_session type (inr (inr (inl e1))) = rw e1 (refl, refl)
  supported_on_session type (inr (inr (inr e1))) = rw e1 (refl, refl)

  unsupported :
      (type : MessageType)
      → ¬ IsSessionRequest type
      → type ≢ connection_request
      → server_supports_message type ≡ false
  unfolding server_supports_message
  unsupported connection_request other no_login = absurd (no_login refl)
  unsupported prepare_request other no_login = absurd (other (inl refl))
  unsupported fetch_request other no_login = absurd (other (inr (inl refl)))
  unsupported append_request other no_login = absurd (other (inr (inr (inl refl))))
  unsupported disconnect_message other no_login = absurd (other (inr (inr (inr refl))))
  unsupported _ other no_login = refl

  -- If the database is open and the header is read: a PREPARE, FETCH, APPEND or disconnect
  -- message that names an unknown session is answered by Invalid connection id, and a message of
  -- any other type than these and a connection request by Unsupported message type for server;
  -- neither changes the server.
  pub handle_message_refuses :
      (start end : ℕ) (stream rest : S) (header : MessageHeader) (s : QuackServer e)
      → s.db_closed ≡ false
      → deserialize_header z stream ≡ ok (header, rest)
      → let r = handle_message e u z start end stream s in
        (IsSessionRequest header.type
          → session e u header.connection_id s ≡ none
          → r ≡ (ok (error_text e u (codes "Invalid connection id")), s))
        × (¬ IsSessionRequest header.type
            → header.type ≢ connection_request
            → r ≡ (ok (error_text e u (codes "Unsupported message type for server")), s))
  handle_message_refuses start end stream rest header s fresh read =
      let opened = handle_message_open start end stream rest header s fresh read in
      (
        λ request absent.
            let (supported, required) = supported_on_session header.type request in
            opened ∙ simp (supported, required, obtain_none header s absent) refl,
        λ other no_login. opened ∙ simp (unsupported header.type other no_login) refl,
      )
