-- ===== src/Listen/Tests.antt =====
-- The theorems on listening servers at concrete inputs.
use duckdb_quack.Prelude.{
  internal, if◌then◌else◌, err, ℕ, ◌+◌, ◌≤◌, true, false, [], ◌∷◌, Bytes, codes, none, some, ok,
  err, invalid_input, ◌≡◌, ◌⊎◌, refl, arith, same, lookup, insert,
}
use duckdb_quack.Text.Reference.{reference, reference_laws}
use duckdb_quack.Text.Std.{stoi, find, substr}
use duckdb_quack.Text.Decimal.{to_string}
use duckdb_quack.Text.StringUtil.{str}
use duckdb_quack.Uri.Parse.{canonical_uri, quack_uri, parse_ipv6, parse_port, is_local}
use duckdb_quack.Uri.Tests.{small, small-IsHostName, local_1234}
use duckdb_quack.Server.Sample.{sample}
use duckdb_quack.Server.Sessions.{new_server, validate_token}
use duckdb_quack.Listen.Http.{Httplib, listen_with, listen_thread, new_http_server}
use duckdb_quack.Listen.Table.{QuackStorageExtensionInfo, create_server}
use duckdb_quack.Listen.Functions.{
  QuackStartStopFunctionData, ServeInput, is_set, serve_bind, serve, stop_bind, stop,
}
use duckdb_quack.Listen.Laws.{
  IsFiledTable, start_listening, stop_listening, act_all, act_all-IsFiledTable,
}
use duckdb_quack.Listen.Checks.{serve_bind_lem}
use duckdb_quack.Listen.RoundTrip.{serve_stop}

-- Sockets that can all be bound; the state counts the calls.
abbrev sockets : Httplib
sockets = record {
  World = ℕ;
  Listener = ℕ;
  make_listener = λ w. (w, w + 1);
  is_valid = λ w server. true;
  bind_to_port = λ server host port w. (true, w + 1);
  listen_after_bind = λ server w. w + 1;
  stop = λ server w. w + 1;
  d_assert = λ b. if b then ok tt else err (internal "" []);
}

abbrev no_servers : QuackStorageExtensionInfo sample sockets
no_servers = record { servers = []; sockets = 0 }

abbrev to_serve : QuackStartStopFunctionData
to_serve = record { finished = false; listen_uri = small; token = codes "secret" }

abbrev one_server : QuackStorageExtensionInfo sample sockets
unfolding canonical_uri
one_server = record {
  servers =
      (
        canonical_uri small,
        record {
          base = record {
            db = 0;
            db_closed = false;
            active_connections = [];
            session_id_rng = none;
            uri = small;
            token = codes "secret";
          };
          server = 0;
          is_running = true;
        },
      )
      ∷ [];
  sockets = 3;
}

created : create_server sample sockets 0 small (codes "secret") no_servers ≡ (ok tt, one_server)
unfolding create_server lookup insert new_http_server listen_with listen_thread new_server
    validate_token
created = refl

act_all-IsFiledTable_example : IsFiledTable sample sockets (
    act_all sample sockets
      (start_listening 0 small (codes "secret")
        ∷ start_listening 0 small (codes "abc")
        ∷ stop_listening local_1234
        ∷ [])
      no_servers)
act_all-IsFiledTable_example =
    act_all-IsFiledTable sample sockets
      (start_listening 0 small (codes "secret")
        ∷ start_listening 0 small (codes "abc")
        ∷ stop_listening local_1234
        ∷ [])
      no_servers tt

taken :
    (create_server sample sockets 0 small (codes "other") one_server).0
    ≡ err (invalid_input "Server already exists for %s" (canonical_uri small ∷ []))
unfolding create_server lookup same canonical_uri to_string
taken = refl

serve_stop_example :
    ((serve sample reference sockets 0 to_serve no_servers).2 ≡ one_server)
    × ((stop_data : QuackStartStopFunctionData) × (stop_bind sample reference
            (some (canonical_uri small))
          ≡ ok stop_data)
        × ((stop sample reference sockets stop_data one_server).0
            ≡ ok (
                reference.format (codes "Stopped listening on %s") (str (canonical_uri small) ∷ [])
                ∷ []))
        × ((key : Bytes)
            → lookup key (stop sample reference sockets stop_data one_server).2.servers
              ≡ lookup key []))
serve_stop_example =
    serve_stop sample reference reference_laws sockets 0 to_serve no_servers one_server created refl
      refl small-IsHostName (omega arith, omega arith)

abbrev local_input : ServeInput
local_input = record {
  uri = some (some (codes "quack:localhost:1234"));
  allow_other_hostname = none;
  token = some (codes "secret");
}

abbrev local_data : QuackStartStopFunctionData
local_data = record {
  finished = false;
  listen_uri = record local_1234 { ssl = false; http = codes "http://localhost:1234" };
  token = codes "secret";
}

bound : serve_bind sample reference local_input 0 ≡ ok local_data
unfolding serve_bind quack_uri parse_ipv6 parse_port reference stoi find substr validate_token
    is_local same
bound = refl

serve_bind_lem_example :
    (false ≡ false)
    × (4 ≤ 6)
    × ((is_set local_input.allow_other_hostname ≡ true)
        ⊎ (is_local reference local_data.listen_uri ≡ true))
serve_bind_lem_example = serve_bind_lem sample reference local_input 0 local_data bound
