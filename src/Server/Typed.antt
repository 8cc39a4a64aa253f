-- ===== src/Server/Typed.antt =====
-- Of which type the responses of the server are.
use duckdb_quack.Prelude.{ℕ, Result, ok, ◌≡◌, ◌⊎◌, inl, inr, refl, sym, ◌∙◌, subst}
use duckdb_quack.Text.StringUtil.{StringUtil}
use duckdb_quack.Message.Types.{
  MessageType, MessageHeader, message, body_type, connection_request, connection_response,
  prepare_request, prepare_response, fetch_request, fetch_response, append_request,
  disconnect_message, success_response, error_response,
}
use duckdb_quack.Message.RoundTrip.{IsTyped}
use duckdb_quack.Message.Serializer.{Serializer}
use duckdb_quack.Message.Wire.{deserialize_header}
use duckdb_quack.Server.Engine.{Engine}
use duckdb_quack.Server.State.{QuackServer}
use duckdb_quack.Server.Requests.{Message}
use duckdb_quack.Server.Handle.{handle_message}
use duckdb_quack.Server.Answers.{Holds, Answers}
use duckdb_quack.Server.Answers.Dispatch.{handle_message-Answers}

-- The protocol: the type of the response to a request that succeeds.
abbrev pub response_type : MessageType → MessageType
response_type connection_request = connection_response
response_type prepare_request = prepare_response
response_type fetch_request = fetch_response
response_type append_request = success_response
response_type disconnect_message = success_response
response_type _ = error_response

module _ (e : Engine) (u : StringUtil) where
  -- A message of the class that its header says, which is a response to the type, or an error.
  abbrev pub IsResponseTo : MessageType → Message e u → Type 0
  IsResponseTo type m =
      IsTyped m × ((m.header.type ≡ response_type type) ⊎ (m.header.type ≡ error_response))

  abbrev pub IsTypedAnswer : Result (Message e u) → Type 0
  IsTypedAnswer a = Answers IsTyped a

  responses : Holds e u IsResponseTo
  unfolding message body_type
  responses = record {
    refused = λ type error. (refl, inr refl);
    connected = λ id. (refl, inl refl);
    prepared = λ types names results more uuid. (refl, inl refl);
    fetched = λ results index. (refl, inl refl);
    appended = (refl, inl refl);
    disconnected = (refl, inl refl);
  }

  module _ {S : Type 0} (z : Serializer S e.Chunk e.Logical) where
    -- The header of an answer has the type of its class.
    pub handle_message-IsTypedAnswer :
        (start end : ℕ) (stream : S) (s : QuackServer e)
        → IsTypedAnswer (handle_message e u z start end stream s).0
    unfolding message body_type
    handle_message-IsTypedAnswer start end stream s =
        handle_message-Answers e u z IsResponseTo responses start end stream s IsTyped
          (λ error. refl) (λ header rest m read response. response.0)

    same_header : (a b : MessageHeader × S) → ok a ≡ ok b → a.0 ≡ b.0
    same_header a b h = cc

    -- If the header of a message is read, then what HandleMessage answers, unless it throws, is
    -- of the class that its header says, and this is the response of the protocol to the type of
    -- the message, or an error: a connection response to a connection request, a PREPARE response
    -- to PREPARE, a FETCH response to FETCH, success to APPEND and to a disconnect message, and
    -- to any other type an error.
    pub handle_message_responds :
        (start end : ℕ) (stream rest : S) (header : MessageHeader) (s : QuackServer e)
        (m : Message e u)
        → deserialize_header z stream ≡ ok (header, rest)
        → (handle_message e u z start end stream s).0 ≡ ok m
        → IsTyped m
          × ((m.header.type ≡ response_type header.type) ⊎ (m.header.type ≡ error_response))
    unfolding message body_type
    handle_message_responds start end stream rest header s m read answered =
        subst (Answers (IsResponseTo header.type)) answered (
          handle_message-Answers e u z IsResponseTo responses start end stream s
            (IsResponseTo header.type) (λ error. (refl, inr refl))
            (λ header1 rest1 m1 read1 response.
              subst (λ (h : MessageHeader). IsResponseTo h.type m1)
                (same_header (header1, rest1) (header, rest) (sym read1 ∙ read)) response))
