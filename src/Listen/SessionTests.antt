-- ===== src/Listen/SessionTests.antt =====
-- A FETCH over HTTP at a concrete server.
use duckdb_quack.Prelude.{
  ℕ, [], ◌∷◌, ◌++◌, codes, none, some, true, false, ◌≡◌, refl, arith, lookup, same,
}
use duckdb_quack.Text.Reference.{reference}
use duckdb_quack.Message.Types.{fetch_response, message, type_value}
use duckdb_quack.Message.Tokens.{tokens, tokens_laws, Stream}
use duckdb_quack.Server.Sample.{sample, sample_uri, opened, busy_server}
use duckdb_quack.Client.Host.{Host, thrown}
use duckdb_quack.Client.Request.{HttpsQuackClient, request}
use duckdb_quack.Listen.Routes.{MemoryStream, read_content}
use duckdb_quack.Listen.Loopback.{Transport}
use duckdb_quack.Listen.Requests.{fetch_of, body_of}
use duckdb_quack.Listen.Session.{over_http, on_session, request_on_session}

abbrev buffers : MemoryStream Stream Stream
buffers = record { blank = []; write_data = λ s b. s ++ b }

abbrev transport : Transport Stream Stream
transport = record {
  pieces = λ s. s ∷ [];
  server_error = λ x. codes "error";
  not_found = codes "not found";
  unreachable = codes "unreachable";
}

abbrev environment : Host Stream
environment = record {
  World = ℕ;
  Params = ℕ;
  blank = [];
  initialize_parameters = λ w from_context url. 4;
  post = λ w params url stream. (thrown [], w);
  should_log = λ w. false;
  write_log = λ w entry. w;
  lookup_secret = λ w uri. none;
  auto_load_httpfs = λ w. w;
  httpfs_loaded = λ w. true;
  error_message = λ error. error.raw_message;
  library_version = codes "v1";
  platform = codes "linux";
}

abbrev network : Host Stream
network = over_http sample reference tokens buffers transport environment 0 1

abbrev caller : HttpsQuackClient network
caller = record { uri = sample_uri; http_params = none }

delivered : (s : Stream) → read_content buffers (transport.pieces s) buffers.blank ≡ s
unfolding read_content
delivered s = refl

request_on_session_example :
    request network tokens fetch_response 0 1 none
      (message (codes "s") (body_of sample reference (fetch_of 3)))
      caller
      (busy_server, 7)
    ≡ on_session sample reference tokens buffers transport environment 0 1
        (fetch_of 3)
        fetch_response
        (codes "s")
        opened
        busy_server
        (record caller { http_params = some 4 })
        7
unfolding lookup same type_value
request_on_session_example =
    request_on_session sample reference tokens tokens_laws buffers transport environment 0 1
      delivered (fetch_of 3) fetch_response 0 1 none (codes "s") opened caller busy_server 7 refl
      refl (record { fresh = refl; quiet = refl; there = refl }) tt (λ h. omega arith)
