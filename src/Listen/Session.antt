-- ===== src/Listen/Session.antt =====
-- A session over HTTP: a request that the server's routes handle is one on the session of
-- Scan.Session, on which the theorems on scans, inserts and catalogs rest.
use duckdb_quack.Prelude.{
  ℕ, false, Bytes, Option, some, Result, ◌≡◌, ◌≢◌, refl, sym, ap, ◌∙◌, subst,
}
use duckdb_quack.Text.StringUtil.{StringUtil}
use duckdb_quack.Message.Types.{
  MessageType, MessageHeader, Body, error_body, invalid_input_error, message, body_type, type_value,
}
use duckdb_quack.Message.Serializer.{Serializer, SerializerLaws}
use duckdb_quack.Message.Wire.{to_memory_stream}
use duckdb_quack.Message.RoundTrip.{IsTyped, received}
use duckdb_quack.Server.Engine.{Engine}
use duckdb_quack.Server.State.{QuackConnection, QuackServer}
use duckdb_quack.Server.Requests.{Message}
use duckdb_quack.Server.Typed.{IsTypedAnswer, handle_message-IsTypedAnswer}
use duckdb_quack.Client.Laws.{expect_error}
use duckdb_quack.Client.Host.{Host, Context}
use duckdb_quack.Client.Request.{HttpsQuackClient, params_of, request_url, request, expect}
use duckdb_quack.Scan.Session.{Session, session_request}
use duckdb_quack.Listen.Routes.{MemoryStream, read_content}
use duckdb_quack.Listen.Loopback.{Transport, loopback, outcome, request_over_http}
use duckdb_quack.Listen.Requests.{
  SessionRequest, prepare_of, fetch_of, append_of, body_of, handled, IsAllowed, with_session,
  HasSession, handle_message-stored,
}

module _ (e : Engine) (u : StringUtil) {S B : Type 0} (z : Serializer S e.Chunk e.Logical)
    (b : MemoryStream S B) (t : Transport S B) (h : Host S) (start end : ℕ) where
  abbrev pub over_http : Host S
  over_http = loopback e u z b t h start end

  abbrev pub ended_on :
      Bytes
      → QuackServer e
      → HttpsQuackClient over_http
      → h.World
      → Result (Message e u) × Unit {0} × Session e u
      → Result (Message e u) × HttpsQuackClient over_http × (QuackServer e × h.World)
  ended_on id s client w (answer, unbound, (db, c1)) =
      (answer, client, (with_session e u id db c1 s, w))

  -- What a request on the session gives, with the client and the state of all that is left.
  abbrev pub on_session :
      SessionRequest e u
      → MessageType
      → Bytes
      → QuackConnection e
      → QuackServer e
      → HttpsQuackClient over_http
      → h.World
      → Result (Message e u) × HttpsQuackClient over_http × (QuackServer e × h.World)
  on_session request_body target id c s client w =
      ended_on id s client w
        (session_request e u target (message id (body_of e u request_body)) tt (s.db, c))

module _ (e : Engine) (u : StringUtil) {S : Type 0} (z : Serializer S e.Chunk e.Logical)
    (laws : SerializerLaws z) where
  expect-received :
      (target : MessageType) (header : MessageHeader) (body : Body e.Chunk e.Logical)
      → header.type ≡ body_type body
      → type_value target ≢ 100
      → expect target (record { header = header; body = received body })
        ≡ expect target (record { header = header; body = body })
  unfolding body_type
  expect-received target header (error_body error) typed other =
      expect_error target _ (record error { type = invalid_input_error }) typed refl other
      ∙ sym (
          expect_error target (record { header = header; body = error_body error }) error typed refl
            other)
  expect-received target header _ typed other = refl

  session_request-handled :
      (request : SessionRequest e u) (target : MessageType) (id : Bytes) (db : e.Db)
      (c : QuackConnection e)
      → let h = handled e u request db c in
        session_request e u target (message id (body_of e u request)) tt (db, c)
        ≡ (expect target h.response, tt, (h.db, h.connection))
  unfolding session_request message
  session_request-handled (prepare_of query) target id db c = refl
  session_request-handled (fetch_of uuid) target id db c = refl
  session_request-handled (append_of schema_name table_name chunk) target id db c = refl

  module _ {B : Type 0} (b : MemoryStream S B) (t : Transport S B) (h : Host S) (start end : ℕ)
      (delivered : (s : S) → read_content b (t.pieces s) b.blank ≡ s) where
    -- The POSTs of a client reach the routes of a server, which hand the posted bytes over whole,
    -- and the URI of the client has the address of the server. If the server is open and neither
    -- side logs, it has the session, and the authorization callback allows the query and changes
    -- nothing, then Request with a PREPARE, FETCH or APPEND on this session, and with another
    -- target type than an error, gives what the request gives on the session by itself, and
    -- leaves the server with the session and the database as they are after it.
    pub request_on_session :
        (request_body : SessionRequest e u) (target : MessageType) (t0 t1 : ℕ)
        (context : Option Context) (id : Bytes) (c : QuackConnection e)
        (client : HttpsQuackClient (over_http e u z b t h start end)) (s : QuackServer e)
        (w : h.World)
        → client.uri.http ≡ s.uri.http
        → h.should_log w ≡ false
        → HasSession e u id c s
        → IsAllowed e u request_body id s
        → type_value target ≢ 100
        → let m = message id (body_of e u request_body) in
          let params =
            params_of
              (over_http e u z b t h start end)
              context
              (s, w)
              (request_url (over_http e u z b t h start end) client)
              client.http_params in
          request (over_http e u z b t h start end) z target t0 t1 context m client (s, w)
          ≡ on_session e u z b t h start end request_body target id c s
              (record client { http_params = some params })
              w
    request_on_session request_body target t0 t1 context id c client s w same_url quiet has allowed
          other =
        let m = message id (body_of e u request_body) in
        let params =
          params_of (over_http e u z b t h start end) context (s, w)
            (request_url (over_http e u z b t h start end) client) client.http_params in
        let client1 : HttpsQuackClient (over_http e u z b t h start end) = record client {
          http_params = some params;
        } in
        let g = handled e u request_body s.db c in
        let served =
          handle_message-stored e u z laws start end request_body id c s h.blank has allowed in
        let typed : IsTyped g.response =
          subst (λ a. IsTypedAnswer e u a.0) served
            (handle_message-IsTypedAnswer e u z start end (to_memory_stream z m h.blank) s) in
        request_over_http e u z b t h start end laws delivered target t0 t1 context m client s w
          same_url quiet
        ∙ (ap (λ a. (outcome e u z b t h start end laws delivered target a.0, client1, (a.1, w)))
              served
            ∙ (ap (λ r. (r, client1, (with_session e u id g.db g.connection s, w)))
                  (expect-received target g.response.header g.response.body typed other)
                ∙ ap (ended_on e u z b t h start end id s client1 w)
                    (sym (session_request-handled request_body target id s.db c))))
