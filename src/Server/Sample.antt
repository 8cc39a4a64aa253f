-- ===== src/Server/Sample.antt =====
-- A small engine and messages for the examples: a query is answered by three chunks, an empty one
-- fails, and a client is accepted if it knows the token.
use duckdb_quack.Prelude.{
  ℕ, zero, suc, ◌+◌, Bool, true, false, List, [], ◌∷◌, Bytes, codes, Option, none, some, ok, ◌==◌,
  same, if◌then◌else◌,
}
use duckdb_quack.Message.Types.{
  MessageType, QuackMessage, invalid_input_error, connection_request_body,
}
use duckdb_quack.Uri.Parse.{QuackUri}
use duckdb_quack.Server.Engine.{Engine}
use duckdb_quack.Server.State.{QuackConnection, QuackServer}

-- The chunks to come, whether they end with an error, and whether they have done so.
abbrev pub Rows : Type 0
Rows = List ℕ × Bool × Bool

abbrev fetch_row : ℕ → Rows → ℕ × Option ℕ × Rows
fetch_row db ([], fails, failed) = (db, none, ([], fails, fails))
fetch_row db (c ∷ cs, fails, failed) = (db, some c, (cs, fails, failed))

abbrev pub answer_of : Bytes → Rows
answer_of [] = ([], true, true)
answer_of (b ∷ bs) = (1 ∷ 2 ∷ 3 ∷ [], false, false)

abbrev callback_of : List Bytes → Rows
callback_of (session_id ∷ auth_string ∷ token ∷ []) =
    (if same auth_string token then 1 ∷ [] else 2 ∷ [], false, false)
callback_of _ = (1 ∷ [], false, false)

abbrev repeated : ℕ → ℕ → List ℕ
repeated zero b = []
repeated (suc n) b = b ∷ repeated n b

abbrev pub sample : Engine
sample = record {
  Db = ℕ;
  Conn = ℕ;
  Rows = Rows;
  Chunk = ℕ;
  Logical = ℕ;
  Table = ℕ;
  Rng = ℕ;
  connect = λ db. db;
  setting_string = λ db name. name;
  setting_number = λ db name. 2;
  query = λ db sql values. (db, some (callback_of values));
  send_query = λ db conn sql. (db, conn, answer_of sql);
  has_error = λ rows. rows.2;
  error_object = λ rows. record { type = invalid_input_error; raw_message = codes "failed" };
  names = λ rows. codes "x" ∷ [];
  types = λ rows. 4 ∷ [];
  fetch = fetch_row;
  chunk_size = λ c. c;
  bool_value = λ c. ok (c == 1);
  table_info = λ db conn schema_name table_name. (db, conn, none);
  append = λ db conn table chunk. (db, conn, none);
  sql_identifier = λ name. name;
  create_rng = λ db. 7;
  random_bytes = λ rng n. (repeated n rng, rng + 1);
  random_uuid = λ db. (db + 1, db + 1);
  indeterminate = 0;
  hex_table = λ n. n + 48;
  library_version = codes "v1";
  platform = codes "linux";
  error_message = λ error. error.raw_message;
  should_log = λ db. false;
  write_log = λ db entry. db;
}

abbrev pub sample_uri : QuackUri
sample_uri = record {
  ssl = false;
  ipv6 = false;
  host = codes "h";
  port = 9494;
  http = codes "http://h:9494";
  uri = codes "h";
}

-- A session with an open result, and a server that has it.
abbrev pub opened : QuackConnection sample
opened = record {
  duckdb_connection = 0;
  duckdb_query_result = some (5 ∷ 6 ∷ 7 ∷ [], false, false);
  next_batch_index = 1;
  result_uuid = 3;
  session_id = codes "s";
}

abbrev pub failing : QuackConnection sample
failing = record opened { duckdb_query_result = some (5 ∷ [], true, false); session_id = codes "t" }

abbrev pub fresh_server : QuackServer sample
fresh_server = record {
  db = 0;
  db_closed = false;
  active_connections = [];
  session_id_rng = none;
  uri = sample_uri;
  token = codes "secret";
}

abbrev pub busy_server : QuackServer sample
busy_server = record fresh_server {
  active_connections = (codes "s", opened) ∷ (codes "t", failing) ∷ [];
}

abbrev pub login : QuackMessage ℕ ℕ
login = record {
  header = record {
    type = MessageType.connection_request;
    connection_id = [];
    client_query_id = none;
  };
  body = connection_request_body (codes "secret") (codes "v1") (codes "linux") 1 1;
}
