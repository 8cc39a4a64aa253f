-- ===== src/Scan/Remote.antt =====
-- What the table functions use of a client: a connection, its clients and their requests.
use duckdb_quack.Prelude.{ℕ, Bytes, Result, ok, err, some}
use duckdb_quack.Uri.Parse.{QuackUri}
use duckdb_quack.Message.Types.{MessageType, QuackMessage, Body, message}
use duckdb_quack.Message.Serializer.{Serializer}
use duckdb_quack.Client.Host.{Host, Context}
use duckdb_quack.Client.Request.{HttpsQuackClient, request}
use duckdb_quack.Client.Pool.{QuackClientConnection, connect_to_server, get_client, store_client}

-- `World` is the state of all that is behind the client, the server included.
pub record Remote (C T : Type 0) : Type 1 where
  pub World : Type 0
  pub Client : Type 0
  pub Connection : Type 0
  pub connection_id : Connection → Bytes
  pub server_uri : Connection → QuackUri
  pub connect : QuackUri → Bytes → World → Result Connection × World
  pub get_client : Connection → World → Result Client × Connection × World
  pub store_client : Client → Connection → Connection
  pub request :
      MessageType → QuackMessage C T → Client → World → Result (QuackMessage C T) × Client × World

module _ {C T : Type 0} (r : Remote C T) where
  -- A client is taken, sends one request, and is given back when its wrapper goes out of scope.
  unfoldable pub ask :
      MessageType
      → Body C T
      → r.Connection
      → r.World
      → Result (QuackMessage C T) × r.Connection × r.World
  unfolding message
  ask target body connection w =
      let (opened, connection1, w1) = r.get_client connection w in
      elim opened [
        | err x ↦ (err x, connection1, w1)
        | ok client ↦
            let (answer, client1, w2) =
              r.request target (message (r.connection_id connection) body) client w1 in
            (answer, r.store_client client1 connection1, w2)
      ]

-- The client of src/quack_client.cpp in a context; `clock` reads the start and the end of a request.
unfoldable pub client_remote :
    {S C T : Type 0} (h : Host S) → Serializer S C T → Context → (h.World → ℕ × ℕ) → Remote C T
unfolding request connect_to_server get_client store_client
client_remote h z context clock = record {
  World = h.World;
  Client = HttpsQuackClient h;
  Connection = QuackClientConnection h;
  connection_id = λ connection. connection.connection_id;
  server_uri = λ connection. connection.uri;
  connect = λ uri token w. connect_to_server h z (clock w).0 (clock w).1 context uri token w;
  get_client = get_client h;
  store_client = store_client h;
  request =
      λ target m client w. request h z target (clock w).0 (clock w).1 (some context) m client w;
}
