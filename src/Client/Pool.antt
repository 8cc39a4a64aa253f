-- ===== src/Client/Pool.antt =====
-- The connection to a server and its cache of clients.
use duckdb_quack.Prelude.{
  ℕ, Bool, true, false, List, [], ◌∷◌, ◌++◌, Bytes, Option, none, some, Result, ok, err,
  invalid_input, missing_extension, ltb, length, if◌then◌else◌,
}
use duckdb_quack.Uri.Parse.{QuackUri}
use duckdb_quack.Message.Types.{
  message, connection_request_body, disconnect_body, connection_response, success_response,
}
use duckdb_quack.Message.Serializer.{Serializer}
use duckdb_quack.Server.Requests.{quack_version}
use duckdb_quack.Client.Host.{Host, Context}
use duckdb_quack.Client.Request.{HttpsQuackClient, request}

-- `back()` and `pop_back()` of a vector.
unfoldable pub pop_back : {A : Type 0} → List A → Option (List A × A)
pop_back [] = none
pop_back (x ∷ xs) = elim (pop_back xs) [
  | none ↦ some ([], x)
  | some (before, last) ↦ some (x ∷ before, last)
]

abbrev pub is_empty : Bytes → Bool
is_empty [] = true
is_empty (b ∷ bs) = false

abbrev pub secret_token : Option Bytes → Bytes
secret_token none = []
secret_token (some token) = token

module _ {S : Type 0} (h : Host S) where
  pub record QuackClientConnection : Type 0 where
    pub uri : QuackUri
    pub connection_id : Bytes
    pub cached_clients : List (HttpsQuackClient h)
    pub max_connections_cached : ℕ

  -- `QuackClient::GetClient`
  unfoldable pub open_client : QuackUri → h.World → Result (HttpsQuackClient h) × h.World
  open_client uri w =
      let w1 = h.auto_load_httpfs w in
      if h.httpfs_loaded w1 then (ok (record { uri = uri; http_params = none }), w1) else (
        err (missing_extension "The rpc extension requires the httpfs extension to be loaded!" []),
        w1,
      )

  unfoldable pub store_client : HttpsQuackClient h → QuackClientConnection → QuackClientConnection
  store_client client c =
      if ltb (length c.cached_clients) c.max_connections_cached
      then record c { cached_clients = c.cached_clients ++ client ∷ [] }
      else c

  -- The constructor of `QuackClientConnection`, for a client that is there.
  unfoldable pub client_connection :
      HttpsQuackClient h → QuackUri → Bytes → ℕ → QuackClientConnection
  unfolding store_client
  client_connection client uri connection_id max_connections_cached = store_client client (record {
    uri = uri;
    connection_id = connection_id;
    cached_clients = [];
    max_connections_cached = max_connections_cached;
  })

  -- `QuackClientConnection::GetClient`
  unfoldable pub get_client :
      QuackClientConnection
      → h.World
      → Result (HttpsQuackClient h) × QuackClientConnection × h.World
  unfolding pop_back open_client
  get_client c w = elim (pop_back c.cached_clients) [
    | some (before, last) ↦ (ok last, record c { cached_clients = before }, w)
    | none ↦ let (client, w1) = open_client c.uri w in (client, c, w1)
  ]

module _ {S C T : Type 0} (h : Host S) (z : Serializer S C T) where
  -- `~QuackClientConnection`: whatever the disconnect throws is dropped.
  unfoldable pub close_connection : ℕ → ℕ → QuackClientConnection h → h.World → h.World
  unfolding pop_back
  close_connection start end c w = elim (pop_back c.cached_clients) [
    | none ↦ w
    | some (before, client) ↦
        (request h z success_response start end none (message c.connection_id disconnect_body)
          client w).2
  ]

  -- `ConnectToServer`
  unfoldable pub connect_to_server :
      ℕ → ℕ → Context → QuackUri → Bytes → h.World → Result (QuackClientConnection h) × h.World
  unfolding open_client client_connection
  connect_to_server start end context uri given w =
      let token = if is_empty given then secret_token (h.lookup_secret w uri.uri) else given in
      if is_empty token
      then (err (invalid_input "Could not find a Quack authentication token" []), w)
      else let (opened, w1) = open_client h uri w in
        elim opened [
          | err x ↦ (err x, w1)
          | ok client ↦
              let (answer, client1, w2) =
                request h z connection_response start end (some context)
                  (message [] (
                    connection_request_body token h.library_version h.platform quack_version
                      quack_version))
                  client w1 in
              elim answer [
                | err x ↦ (err x, w2)
                | ok response ↦
                    (ok (client_connection h client1 uri response.header.connection_id 1), w2)
              ]
        ]
