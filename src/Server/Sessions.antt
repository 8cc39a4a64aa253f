-- ===== src/Server/Sessions.antt =====
-- Tokens, session ids and the table of connections.
use duckdb_quack.Prelude.{
  ℕ, ◌+◌, ◌*◌, ◌/◌, ◌%◌, ◌<◌, Bool, true, false, not, List, [], ◌∷◌, Bytes, codes, Option, none,
  some, Result, ok, err, Exception, invalid_input, internal, ltb, ◌&&◌, length, lookup, insert,
  remove, if◌then◌else◌, throw_if,
}
use duckdb_quack.Uri.Parse.{QuackUri}
use duckdb_quack.Server.Engine.{Engine}
use duckdb_quack.Server.State.{QuackConnection, QuackServer, Method, done, throw}
use duckdb_quack.Prelude

-- `ValidateToken`
unfoldable pub validate_token : Bytes → Result (Unit {0})
validate_token token =
    throw_if (ltb (length token) 4)
      (invalid_input "Quack server token must be at least 4 characters long" [])

-- `kTokenBytes`
abbrev pub token_bytes : ℕ
token_bytes = 16

-- `HexEncode`: two digits of the table for each byte.
unfoldable pub hex_encode : (ℕ → ℕ) → List ℕ → Bytes
hex_encode table [] = []
hex_encode table (b ∷ bytes) = table (b / 16) ∷ table (b % 16) ∷ hex_encode table bytes

module _ (e : Engine) where
  -- `QuackServer::QuackServer`
  unfoldable pub new_server : e.Db → QuackUri → Bytes → Result (QuackServer e)
  unfolding validate_token
  new_server db uri token = Prelude.◌>>◌ (validate_token token) (
      ok (record {
        db = db;
        db_closed = false;
        active_connections = [];
        session_id_rng = none;
        uri = uri;
        token = token;
      }))

  -- `GenerateRandomToken`
  unfoldable pub generate_random_token : e.Db → Bytes
  unfolding hex_encode
  generate_random_token db = hex_encode e.hex_table (e.random_bytes (e.create_rng db) token_bytes).0

  unfoldable pub get_connection : QuackServer e → Bytes → Option (QuackConnection e)
  get_connection s connection_id = lookup connection_id s.active_connections

  -- The object that `CreateNewConnection` makes.
  unfoldable pub new_connection : e.Db → Bytes → QuackConnection e
  new_connection db session_id = record {
    duckdb_connection = e.connect db;
    duckdb_query_result = none;
    next_batch_index = 1;
    result_uuid = e.indeterminate;
    session_id = session_id;
  }

  -- `CreateNewConnection`
  unfoldable pub create_new_connection : Bytes → Method e Bytes
  create_new_connection session_id s =
      if s.db_closed
      then throw (internal "Database was closed" []) s
      else done session_id (record s {
        active_connections =
            insert session_id (new_connection s.db session_id) s.active_connections;
      })

  -- `DisconnectConnection`
  unfoldable pub disconnect_connection : Bytes → Method e Bool
  disconnect_connection session_id s = elim (lookup session_id s.active_connections) [
    | none ↦ done false s
    | some c ↦ done true (record s { active_connections = remove session_id s.active_connections })
  ]

  unfoldable pub active_connection_count : QuackServer e → ℕ
  active_connection_count s = length s.active_connections

  -- The generator is made at the first call.
  abbrev pub rng_of : QuackServer e → Option e.Rng → e.Rng
  rng_of s none = e.create_rng s.db
  rng_of s (some g) = g

  abbrev pub lacks_rng : Option e.Rng → Bool
  lacks_rng none = true
  lacks_rng (some g) = false

  -- `GenerateSessionId`
  unfoldable pub generate_session_id : Method e Bytes
  unfolding hex_encode
  generate_session_id s =
      if lacks_rng s.session_id_rng && s.db_closed
      then throw (internal "Database was closed" []) s
      else let (bytes, rng) = e.random_bytes (rng_of s s.session_id_rng) token_bytes in
        done (hex_encode e.hex_table bytes) (record s { session_id_rng = some rng })
