-- ===== src/Client/Request.antt =====
-- One request: `HttpsQuackClient::RequestInternal` and `QuackClient::Request`.
use duckdb_quack.Prelude.{
  ℕ, ◌-◌, Bool, false, [], ◌∷◌, ◌++◌, Bytes, codes, Option, none, some, Result, ok, err, io_error,
  foreign, ◌==◌, ◌>>=◌, if◌then◌else◌,
}
use duckdb_quack.Uri.Parse.{QuackUri}
use duckdb_quack.Message.Types.{
  MessageType, QuackMessage, error_body, prepare_request, fetch_request, append_request, type_value,
}
use duckdb_quack.Message.Enum.{to_chars}
use duckdb_quack.Message.Serializer.{Serializer}
use duckdb_quack.Message.Wire.{to_memory_stream, from_memory_stream}
use duckdb_quack.Server.Handle.{extract_query}
use duckdb_quack.Server.Log.{construct_log_message}
use duckdb_quack.Client.Host.{Host, HttpAnswer, thrown, no_response, failure, success, Context}

abbrev pub has_transaction : Option Context → Bool
has_transaction none = false
has_transaction (some context) = context.has_active_transaction

-- The query of the context that is being executed.
abbrev pub active_query_of : Option Context → Option ℕ
active_query_of none = none
active_query_of (some context) =
    if context.has_active_transaction then context.active_query else none

module _ {C T : Type 0} where
  -- What the log says of a request, by its type: the session and the query.
  unfoldable pub log_fields : QuackMessage C T → Bytes × Bytes
  unfolding extract_query
  log_fields m = elim m.header.type [
    | prepare_request ↦ (m.header.connection_id, extract_query m)
    | fetch_request ↦ (m.header.connection_id, [])
    | append_request ↦ (m.header.connection_id, [])
    | _ ↦ ([], [])
  ]

  -- The test of the response in `Request<TARGET>`.
  unfoldable pub expect : MessageType → QuackMessage C T → Result (QuackMessage C T)
  unfolding type_value
  expect target response =
      if type_value response.header.type == type_value target
      then ok response
      else elim response.body [
        | error_body error ↦ err (foreign error.raw_message)
        | _ ↦ to_chars target >>= λ expected. to_chars response.header.type >>= λ got.
            err (io_error "Expected %s message, got %s instead" (expected ∷ got ∷ []))
      ]

module _ {S : Type 0} (h : Host S) where
  pub record HttpsQuackClient : Type 0 where
    pub uri : QuackUri
    pub http_params : Option h.Params

  -- A result, the client and the world that are left.
  abbrev pub Answer : Type 0 → Type 0
  Answer A = Result A × HttpsQuackClient × h.World

  -- The parameters are made at the first request.
  abbrev pub params_of : Option Context → h.World → Bytes → Option h.Params → h.Params
  params_of context w request_url (some params) = params
  params_of context w request_url none =
      h.initialize_parameters w (has_transaction context) request_url

  abbrev pub request_url : HttpsQuackClient → Bytes
  request_url client = client.uri.http ++ codes "/quack"

module _ {S C T : Type 0} (h : Host S) where
  abbrev pub error_of : QuackMessage C T → Bytes
  error_of m = elim m.body [ error_body error ↦ h.error_message error | _ ↦ [] ]

  -- The part behind the response: the log entry, if one is written.
  unfoldable pub log_request :
      ℕ
      → Option Context
      → QuackMessage C T
      → QuackMessage C T
      → HttpsQuackClient h
      → h.World
      → Answer h (QuackMessage C T)
  unfolding log_fields
  log_request duration context request response client w =
      let (connection_id, query) = log_fields request in
      if h.should_log w
      then elim (construct_log_message request.header.type connection_id (active_query_of context)
          query client.uri.http duration response.header.type (error_of response)) [
            | err x ↦ (err x, client, w)
            | ok entry ↦ (ok response, client, h.write_log w entry)
          ]
      else (ok response, client, w)

module _ {S C T : Type 0} (h : Host S) (z : Serializer S C T) where
  -- The part behind the POST.
  unfoldable pub receive :
      ℕ
      → Option Context
      → QuackMessage C T
      → HttpsQuackClient h
      → HttpAnswer S
      → h.World
      → Answer h (QuackMessage C T)
  unfolding log_request
  receive duration context request client (thrown text) w =
      (err (io_error "Failed to send message: %s" (text ∷ [])), client, w)
  receive duration context request client no_response w =
      (err (io_error "Failed to send message: %s" (codes "no response" ∷ [])), client, w)
  receive duration context request client (failure text) w =
      (err (io_error "Failed to send message: %s" (text ∷ [])), client, w)
  receive duration context request client (success body) w = elim (from_memory_stream z body) [
    | err x ↦ (err x, client, w)
    | ok (response, rest) ↦ log_request h duration context request response client w
  ]

  -- `RequestInternal`; `start` and `end` are the readings of the clock.
  unfoldable pub request_internal :
      ℕ
      → ℕ
      → Option Context
      → QuackMessage C T
      → HttpsQuackClient h
      → h.World
      → Answer h (QuackMessage C T)
  unfolding receive
  request_internal start end context request client w =
      let url = request_url h client in
      let params = params_of h context w url client.http_params in
      let (answer, w1) = h.post w params url (to_memory_stream z request h.blank) in
      receive (end - start) context request (record client { http_params = some params }) answer w1

  unfoldable pub request :
      MessageType
      → ℕ
      → ℕ
      → Option Context
      → QuackMessage C T
      → HttpsQuackClient h
      → h.World
      → Answer h (QuackMessage C T)
  unfolding request_internal expect
  request target start end context message client w =
      let (answer, client1, w1) = request_internal start end context message client w in
      (answer >>= expect target, client1, w1)
