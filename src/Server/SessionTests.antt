-- ===== src/Server/SessionTests.antt =====
-- The theorems on sessions at concrete inputs.
use duckdb_quack.Prelude.{
  inl, inr, false, ℕ, ◌+◌, true, List, [], ◌∷◌, Bytes, codes, none, some, ok, same, ◌≡◌, ◌≢◌, ◌⊎◌,
  refl, arith, lookup, insert, same_iff,
}
use duckdb_quack.Text.Reference.{reference}
use duckdb_quack.Message.Types.{
  disconnect_body, connection_response_body, MessageType, MessageHeader, QuackMessage, message,
  fetch_request_body, set_header, body_type,
}
use duckdb_quack.Message.Tokens.{tokens, tokens_laws, Stream}
use duckdb_quack.Message.RoundTrip.{IsTyped, deserialize_header-serialize_header}
use duckdb_quack.Message.Wire.{
  to_memory_stream, deserialize_header, serialize_header, serialize, deserialize_message_header,
  deserialize_message, deserialize, deserialize_connection_request,
}
use duckdb_quack.Server.Requests.{
  error_text, server_supports_message, message_requires_connection, evaluate_auth_query,
}
use duckdb_quack.Server.Sessions.{
  new_server, validate_token, hex_encode, generate_session_id, create_new_connection,
  new_connection,
}
use duckdb_quack.Server.Handle.{
  handle_message, handle_message_internal, process, dispatch, handle_connection_request, admit,
  authenticate, obtain_connection,
}
use duckdb_quack.Server.Safety.{session, IsKeyed, handle_message_internal_isolates}
use duckdb_quack.Server.Gate.{handle_message_refuses}
use duckdb_quack.Server.Ends.{HasEnded, disconnect_ends}
use duckdb_quack.Server.State.{QuackServer}
use duckdb_quack.Server.Runs.{Run, OpenedIn, started, handled, sessions-IsAuthenticated}
use duckdb_quack.Server.Sample.{sample, opened, fresh_server, busy_server, login, sample_uri}
use duckdb_quack.Server.Typed.{handle_message_responds}
use duckdb_quack.Client.Host.{Host, success}
use duckdb_quack.Client.Request.{HttpsQuackClient}

-- The stream of a header, with what follows it.
abbrev header_stream : MessageHeader → Stream
header_stream header = tokens.write_begin (serialize_header tokens header (tokens.write_end []))

abbrev stranger : MessageType → MessageHeader
stranger type = record { type = type; connection_id = codes "u"; client_query_id = none }

handle_message_refuses_example :
    handle_message sample reference tokens 0 1
      (header_stream (stranger MessageType.fetch_request))
      busy_server
    ≡ (ok (error_text sample reference (codes "Invalid connection id")), busy_server)
unfolding lookup same server_supports_message
handle_message_refuses_example =
    (handle_message_refuses sample reference tokens 0 1
        (header_stream (stranger MessageType.fetch_request)) [] (stranger MessageType.fetch_request)
        busy_server refl
        (deserialize_header-serialize_header tokens tokens_laws (stranger MessageType.fetch_request)
          [])).0
      (inr (inl refl)) refl

busy_server-IsKeyed : IsKeyed sample reference busy_server
unfolding lookup
busy_server-IsKeyed k c h = ground (arith, same_iff (codes "s") k, same_iff (codes "t") k)

t≢s : codes "t" ≢ codes "s"
unfolding same
t≢s h = let e1 = (same_iff (codes "t") (codes "s")).1 h in cc

abbrev fetch_on_s : QuackMessage ℕ ℕ
fetch_on_s = record {
  header = record {
    type = MessageType.fetch_request;
    connection_id = codes "s";
    client_query_id = none;
  };
  body = fetch_request_body 3;
}

handle_message_internal_isolates_example :
    session sample reference
      (codes "t")
      (handle_message_internal sample reference (some opened) fetch_on_s busy_server).1
    ≡ session sample reference (codes "t") busy_server
unfolding lookup same
handle_message_internal_isolates_example =
    handle_message_internal_isolates sample reference fetch_on_s (some opened) busy_server (λ h. cc)
      (λ c h. h) busy_server-IsKeyed (codes "t") t≢s

abbrev two_bytes : List ℕ
two_bytes = 171 ∷ 7 ∷ []

abbrev login_stream : Stream
login_stream = to_memory_stream tokens login []

abbrev new_id : Bytes
new_id = hex_encode sample.hex_table (sample.random_bytes 7 16).0

logged_in :
    session sample reference new_id
      (handle_message sample reference tokens 0 1 login_stream fresh_server).1
    ≡ some (new_connection sample 0 new_id)
unfolding handle_message process deserialize_header deserialize_message_header deserialize_message
    deserialize deserialize_connection_request set_header message body_type obtain_connection
    message_requires_connection server_supports_message handle_message_internal dispatch
    handle_connection_request generate_session_id hex_encode admit authenticate evaluate_auth_query
    create_new_connection new_connection insert lookup same to_memory_stream serialize
    serialize_header tokens
logged_in = refl

no_sessions : session sample reference new_id fresh_server ≡ none
unfolding lookup
no_sessions = refl

made : new_server sample 0 sample_uri (codes "secret") ≡ ok fresh_server
unfolding new_server validate_token
made = refl

abbrev joined : QuackServer sample
joined = (handle_message sample reference tokens 0 1 login_stream fresh_server).1

abbrev run_of_login : Run sample reference tokens fresh_server joined
run_of_login = handled fresh_server 0 1 login_stream started

sessions-IsAuthenticated_example :
    ((new_connection sample 0 new_id).session_id ≡ new_id)
    × OpenedIn sample reference tokens fresh_server joined run_of_login new_id
sessions-IsAuthenticated_example =
    sessions-IsAuthenticated sample reference tokens 0 sample_uri (codes "secret") fresh_server
      joined new_id (new_connection sample 0 new_id) run_of_login made logged_in

still_open : joined.db_closed ≡ false
unfolding handle_message process deserialize_header deserialize_message_header deserialize_message
    deserialize deserialize_connection_request set_header message body_type obtain_connection
    message_requires_connection server_supports_message handle_message_internal dispatch
    handle_connection_request generate_session_id hex_encode admit authenticate evaluate_auth_query
    create_new_connection new_connection insert lookup same to_memory_stream serialize
    serialize_header tokens
still_open = refl

disconnect_ends_example : HasEnded sample reference tokens new_id joined (
    handle_message sample reference tokens 2 3
      (to_memory_stream tokens (message new_id disconnect_body) [])
      joined)
disconnect_ends_example =
    disconnect_ends sample reference tokens tokens_laws 0 sample_uri (codes "secret") new_id
      fresh_server joined (new_connection sample 0 new_id) 2 3 [] made
      (handled fresh_server 0 1 login_stream started) still_open logged_in

abbrev welcome : QuackMessage ℕ ℕ
welcome = record {
  header = record {
    type = MessageType.connection_response;
    connection_id = new_id;
    client_query_id = none;
  };
  body = connection_response_body (codes "v1") (codes "linux") 1;
}

login_answer : (handle_message sample reference tokens 0 1 login_stream fresh_server).0 ≡ ok welcome
unfolding handle_message process deserialize_header deserialize_message_header deserialize_message
    deserialize deserialize_connection_request set_header message body_type obtain_connection
    message_requires_connection server_supports_message handle_message_internal dispatch
    handle_connection_request generate_session_id hex_encode admit authenticate evaluate_auth_query
    create_new_connection new_connection insert lookup same to_memory_stream serialize
    serialize_header tokens
login_answer = refl

-- Everything that is posted is answered as the server answers the login.
abbrev network : Host Stream
network = record {
  World = ℕ;
  Params = ℕ;
  blank = [];
  initialize_parameters = λ w from_context url. 0;
  post = λ w params url stream. (success (to_memory_stream tokens welcome []), w + 1);
  should_log = λ w. false;
  write_log = λ w entry. w;
  lookup_secret = λ w uri. none;
  auto_load_httpfs = λ w. w;
  httpfs_loaded = λ w. true;
  error_message = λ error. error.raw_message;
  library_version = codes "v1";
  platform = codes "linux";
}

abbrev caller : HttpsQuackClient network
caller = record { uri = sample_uri; http_params = none }

handle_message_responds_example :
    IsTyped welcome
    × ((welcome.header.type ≡ MessageType.connection_response)
        ⊎ (welcome.header.type ≡ MessageType.error_response))
unfolding to_memory_stream
handle_message_responds_example =
    handle_message_responds sample reference tokens 0 1 login_stream
      (tokens.write_begin (serialize tokens login.body (tokens.write_end []))) login.header
      fresh_server welcome
      (deserialize_header-serialize_header tokens tokens_laws login.header
        (tokens.write_begin (serialize tokens login.body (tokens.write_end []))))
      login_answer
