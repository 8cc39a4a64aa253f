-- ===== src/Client/Served.antt =====
-- A client's request that is handled by the server of src/quack_server.cpp.
use duckdb_quack.Prelude.{ℕ, Option, false, ok, err, foreign, ◌≡◌, ◌≢◌, subst}
use duckdb_quack.Text.StringUtil.{StringUtil}
use duckdb_quack.Message.Types.{MessageType, body_type, error_body, ErrorData, type_value}
use duckdb_quack.Message.Serializer.{Serializer, SerializerLaws}
use duckdb_quack.Message.Wire.{to_memory_stream}
use duckdb_quack.Message.RoundTrip.{received}
use duckdb_quack.Server.Engine.{Engine}
use duckdb_quack.Server.State.{QuackServer}
use duckdb_quack.Server.Requests.{Message}
use duckdb_quack.Server.Handle.{handle_message}
use duckdb_quack.Server.Typed.{IsTypedAnswer, handle_message-IsTypedAnswer}
use duckdb_quack.Client.Host.{Host, success, Context}
use duckdb_quack.Client.Request.{HttpsQuackClient, params_of, request_url, request}
use duckdb_quack.Client.Laws.{request_lem}

module _ (e : Engine) (u : StringUtil) {S : Type 0} (h : Host S)
    (z : Serializer S e.Chunk e.Logical) (laws : SerializerLaws z) where
  -- If HandleMessage of a server answers the posted stream of a request by a response, the POST
  -- is answered by the stream of this response, and the client logs nothing, then Request returns
  -- the response if its type is the one asked for, and throws the text of the error if it is an
  -- error response and no error response is asked for.
  pub request_served :
      (target : MessageType) (start end a b : ℕ) (context : Option Context)
      (m response : Message e u) (client : HttpsQuackClient h) (w w1 : h.World) (s : QuackServer e)
      (tail : S)
      → (handle_message e u z a b (to_memory_stream z m h.blank) s).0 ≡ ok response
      → h.post w
          (params_of h context w (request_url h client) client.http_params)
          (request_url h client)
          (to_memory_stream z m h.blank)
        ≡ (success (to_memory_stream z response tail), w1)
      → h.should_log w1 ≡ false
      → let answer = (request h z target start end context m client w).0 in
        (body_type response.body ≡ target
          → answer ≡ ok (record response { body = received response.body }))
        × ((error : ErrorData)
            → response.body ≡ error_body error
            → type_value target ≢ 100
            → answer ≡ err (foreign error.raw_message))
  request_served target start end a b context m response client w w1 s tail handled sent quiet =
      request_lem h z laws target start end context m response client w w1 tail sent
        (subst (IsTypedAnswer e u) handled
          (handle_message-IsTypedAnswer e u z a b (to_memory_stream z m h.blank) s))
        quiet
