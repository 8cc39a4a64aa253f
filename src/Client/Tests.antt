-- ===== src/Client/Tests.antt =====
-- The theorems on clients at concrete inputs.
use duckdb_quack.Prelude.{ℕ, ◌+◌, [], ◌∷◌, codes, none, some, true, false, ok, ◌≡◌, refl, arith}
use duckdb_quack.Message.Types.{
  QuackMessage, fetch_request_body, fetch_response_body, fetch_response, fetch_request, body_type,
}
use duckdb_quack.Message.Tokens.{tokens, tokens_laws, Stream}
use duckdb_quack.Message.Wire.{to_memory_stream}
use duckdb_quack.Client.Host.{Host, success}
use duckdb_quack.Client.Request.{HttpsQuackClient, request, request_internal}
use duckdb_quack.Client.Pool.{QuackClientConnection, store_client, get_client}
use duckdb_quack.Client.Laws.{request_lem, store_client_lem}
use duckdb_quack.Client.Query.{request_internal_query, executing}
use duckdb_quack.Server.Sample.{sample_uri}

abbrev batch : QuackMessage ℕ ℕ
batch = record {
  header = record { type = fetch_response; connection_id = []; client_query_id = none };
  body = fetch_response_body (8 ∷ 9 ∷ []) (some 2);
}

abbrev fetching : QuackMessage ℕ ℕ
fetching = record {
  header = record { type = fetch_request; connection_id = codes "s"; client_query_id = none };
  body = fetch_request_body 3;
}

-- The world counts the requests, and every one is answered by the same batch.
abbrev host : Host Stream
host = record {
  World = ℕ;
  Params = ℕ;
  blank = [];
  initialize_parameters = λ w from_context url. 0;
  post = λ w params url stream. (success (to_memory_stream tokens batch []), w + 1);
  should_log = λ w. false;
  write_log = λ w entry. w;
  lookup_secret = λ w uri. none;
  auto_load_httpfs = λ w. w;
  httpfs_loaded = λ w. true;
  error_message = λ error. error.raw_message;
  library_version = codes "v1";
  platform = codes "linux";
}

abbrev client : HttpsQuackClient host
client = record { uri = sample_uri; http_params = none }

request_lem_example : (request host tokens fetch_response 0 1 none fetching client 4).0 ≡ ok batch
unfolding body_type
request_lem_example =
    (request_lem host tokens tokens_laws fetch_response 0 1 none fetching batch client 4 5 [] refl
        refl refl).0
      refl

request_internal_query_example :
    (request_internal host tokens 0 1 (executing host tokens (some 7)) fetching client 4).0
    ≡ (request_internal host tokens 0 1 (executing host tokens none) fetching client 4).0
request_internal_query_example =
    request_internal_query host tokens 0 1 (some 7) none fetching client 4

abbrev idle : QuackClientConnection host
idle = record {
  uri = sample_uri;
  connection_id = codes "s";
  cached_clients = [];
  max_connections_cached = 1;
}

store_client_lem_example : get_client host (store_client host client idle) 4 ≡ (ok client, idle, 4)
store_client_lem_example = (store_client_lem host client idle 4).1 (omega arith)
