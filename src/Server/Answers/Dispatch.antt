-- ===== src/Server/Answers/Dispatch.antt =====
-- What every answer of HandleMessage satisfies, if the answers of the handlers do.
use duckdb_quack.Prelude.{
  >>=-eq-ok, ℕ, ◌-◌, Bool, true, false, not, [], Bytes, Option, some, Result, ok, err, ◌≡◌, refl,
  ap, inl, inr, Bool-cases, codes, if◌then◌else◌, ◌&&◌, ltb, subst,
}
use duckdb_quack.Text.StringUtil.{StringUtil}
use duckdb_quack.Message.Types.{
  ErrorData, error_body, set_header, MessageType, MessageHeader, Body, message, success_body,
  connection_request, prepare_request, fetch_request, append_request, disconnect_message,
  prepare_request_body, connection_request_body, fetch_request_body, append_request_body,
  disconnect_body,
}
use duckdb_quack.Message.Serializer.{Serializer}
use duckdb_quack.Message.Wire.{deserialize, deserialize_header, deserialize_message}
use duckdb_quack.Message.Enum.{to_chars}
use duckdb_quack.Server.Engine.{Engine}
use duckdb_quack.Server.State.{QuackConnection, QuackServer, done}
use duckdb_quack.Server.Requests.{
  Message, Handled, prepare, append, error_text, error_response_of, quack_version,
  message_requires_connection, dummy_insert_query, server_supports_message,
}
use duckdb_quack.Server.Sessions.{disconnect_connection, create_new_connection, generate_session_id}
use duckdb_quack.Server.Handle.{
  dispatch, handle_message_internal, store, authorized, authorize, authenticate, admit,
  handle_connection_request, handle_disconnect, fallback, unimplemented, write_log, handle_message,
  process, obtain_connection, is_missing,
}
use duckdb_quack.Server.Answers.{
  Holds, Answers, Answers-map, continue-Answers, if-Answers, error_text-Holds, prepare-Holds,
  fetch-Holds, append-Holds,
}

module _ (e : Engine) (u : StringUtil) (Q : MessageType → Message e u → Type 0)
    (holds : Holds e u Q) where
  authorized-Answers :
      (type : MessageType) (id query : Bytes) (request : QuackServer e → Handled e u)
      (s : QuackServer e)
      → ((t : QuackServer e) → Q type (request t).response)
      → Answers (Q type) (authorized e u id query request s).0
  unfolding authorized store
  authorized-Answers type id query request s typed =
      continue-Answers e u (Q type) (authorize e u id query s) _ λ allowed t h. answer allowed t
    where
      answer :
          (allowed : Bool) (t : QuackServer e)
          → Answers
              (Q type)
              ((if allowed
                  then store e u id (request t)
                  else done (error_text e u (codes "Authorization failed")))
                t).0
      answer true t = typed t
      answer false t = error_text-Holds e u Q holds type (codes "Authorization failed")

  fallback-Answers :
      (type : MessageType) (s : QuackServer e) → Answers (Q type) (fallback e u type s).0
  unfolding fallback unimplemented
  fallback-Answers type s = elim (Bool-cases (server_supports_message type)) [
    | inl e1 ↦ rw (e1, fallback) tt
    | inr e1 ↦ rw (e1, fallback) (named (to_chars type) refl)
  ]
    where
      named : (r : Result Bytes) → to_chars type ≡ r → Answers (Q type) (unimplemented e u type s).0
      named (ok name) e2 = rw (e2, unimplemented) (error_text-Holds e u Q holds type _)
      named (err x) e2 = rw (e2, unimplemented) tt

  admit-Answers :
      (session_id auth_string : Bytes) (s : QuackServer e)
      → Answers (Q connection_request) (admit e u session_id auth_string s).0
  unfolding admit
  admit-Answers session_id auth_string s =
      continue-Answers e u (Q connection_request) (authenticate e u session_id auth_string s) _
        λ allowed t h.
          if-Answers e u (Q connection_request) allowed _ _ t
            (continue-Answers e u (Q connection_request) (create_new_connection e session_id t) _
              (λ id t' h'. holds.connected id))
            (error_text-Holds e u Q holds connection_request (codes "Authentication failed"))

  connection_request-Answers :
      (auth_string : Bytes) (minimum : ℕ) (s : QuackServer e)
      → Answers (Q connection_request) (handle_connection_request e u auth_string minimum s).0
  unfolding handle_connection_request
  connection_request-Answers auth_string minimum s = elim (Bool-cases (ltb quack_version minimum)) [
    | inl e1 ↦
        rw (e1, handle_connection_request) (error_text-Holds e u Q holds connection_request _)
    | inr e1 ↦
        rw (e1, handle_connection_request)
          (continue-Answers e u (Q connection_request) (generate_session_id e s) _
            λ id t h. admit-Answers id auth_string t)
  ]

  disconnect-Answers :
      (c : QuackConnection e) (s : QuackServer e)
      → Answers (Q disconnect_message) (handle_disconnect e u c s).0
  unfolding handle_disconnect
  disconnect-Answers c s =
      continue-Answers e u (Q disconnect_message) (disconnect_connection e c.session_id s) _
        λ existed t h.
          if-Answers e u (Q disconnect_message) existed (done (message [] success_body)) _ t
            holds.disconnected
            (error_text-Holds e u Q holds disconnect_message
              (codes "Connection does not exist / already disconnected"))

  pub dispatch-Answers :
      (id : Bytes) (type : MessageType) (connection : Option (QuackConnection e))
      (body : Body e.Chunk e.Logical) (s : QuackServer e)
      → Answers (Q type) (dispatch e u id type connection body s).0
  unfolding dispatch store
  dispatch-Answers id connection_request connection (connection_request_body auth_string v p low h)
        s =
      connection_request-Answers auth_string low s
  dispatch-Answers id disconnect_message (some c) disconnect_body s = disconnect-Answers c s
  dispatch-Answers id prepare_request (some c) (prepare_request_body query) s =
      authorized-Answers prepare_request id query (λ t. prepare e u t.db c query) s
        λ t. prepare-Holds e u Q holds t.db c query
  dispatch-Answers id fetch_request (some c) (fetch_request_body uuid) s =
      fetch-Holds e u Q holds s.db c uuid
  dispatch-Answers id append_request (some c) (append_request_body schema_name table_name chunk) s =
      authorized-Answers append_request id (dummy_insert_query e u schema_name table_name)
        (λ t. append e u t.db c schema_name table_name chunk) s
        λ t. append-Holds e u Q holds t.db c schema_name table_name chunk
  dispatch-Answers id type connection body s = fallback-Answers type s

module _ (e : Engine) (u : StringUtil) {S : Type 0} (z : Serializer S e.Chunk e.Logical)
    (Q : MessageType → Message e u → Type 0) (holds : Holds e u Q) where
  read_header :
      (header : MessageHeader) (stream rest : S) (m : Message e u)
      → deserialize_message z header stream ≡ ok (m, rest)
      → m.header ≡ header
  unfolding deserialize_message set_header
  read_header header stream rest m read =
      let (s1, begun, read1) = >>=-eq-ok (z.read_begin stream) _ read in
      let ((body, s2), is_body, read2) = >>=-eq-ok (deserialize z header.type s1) _ read1 in
      let (s3, ended, read3) = >>=-eq-ok (z.read_end s2) _ read2 in cc

  process-Answers :
      (duration : ℕ) (logged : Bool) (connection : Option (QuackConnection e))
      (header : MessageHeader) (stream : S) (s : QuackServer e)
      → Answers (Q header.type) (process e u z duration logged connection header stream s).0
  unfolding process handle_message_internal
  process-Answers duration logged connection header stream s =
      continue-Answers e u (Q header.type) (deserialize_message z header stream, s) _
        λ (m, rest) t h1.
          let same_type : m.header.type ≡ header.type =
            ap (λ (x : MessageHeader). x.type)
              (read_header header stream rest m (ap (λ x. x.0) h1)) in
          continue-Answers e u (Q header.type) (handle_message_internal e u connection m t) _
            λ response t1 h2.
              continue-Answers e u (Q header.type)
                ((if logged then write_log e u duration m response else done tt) t1) _
                λ _ t2 h3. subst (Answers (Q header.type)) (ap (λ x. x.0) h2) (
                  subst
                    (λ type.
                      Answers (Q type)
                        (dispatch e u m.header.connection_id m.header.type connection m.body t).0)
                    same_type
                    (dispatch-Answers e u Q holds m.header.connection_id m.header.type connection
                      m.body t))

  -- The answer of HandleMessage to a message of the type that the header says.
  pub handle_message-Answers :
      (start end : ℕ) (stream : S) (s : QuackServer e) (P : Message e u → Type 0)
      → ((error : ErrorData) → P (message [] (error_body error)))
      → ((header : MessageHeader) (rest : S) (m : Message e u)
          → deserialize_header z stream ≡ ok (header, rest)
          → Q header.type m
          → P m)
      → Answers P (handle_message e u z start end stream s).0
  unfolding handle_message error_text error_response_of
  handle_message-Answers start end stream s P error weaken =
      if-Answers e u P s.db_closed _ _ s (error _) (
        continue-Answers e u P (deserialize_header z stream, s) _
          λ (header, rest) t h.
            if-Answers e u P (not (server_supports_message header.type)) _ _ t (error _) (
              if-Answers e u P
                (message_requires_connection header.type
                  && is_missing e u z (obtain_connection e u z s header))
                _ _ t (error _)
                (Answers-map (Q header.type) P (λ m. weaken header rest m (ap (λ x. x.0) h)) _
                  (process-Answers (end - start) (e.should_log s.db)
                    (obtain_connection e u z s header) header rest t))))
