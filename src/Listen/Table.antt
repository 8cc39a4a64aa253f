-- ===== src/Listen/Table.antt =====
-- `QuackStorageExtensionInfo`: the servers of a database instance by their canonical URI.
use duckdb_quack.Prelude.{
  ℕ, Bool, true, false, List, [], ◌∷◌, map, Bytes, codes, none, some, Result, ok, err,
  invalid_input, lookup, insert, remove, if◌then◌else◌,
}
use duckdb_quack.Uri.Parse.{QuackUri, canonical_uri}
use duckdb_quack.Server.Engine.{Engine}
use duckdb_quack.Server.Sessions.{active_connection_count}
use duckdb_quack.Listen.Http.{Httplib, HttpQuackServer, new_http_server, stop_accepting}

pub record ServerSnapshot : Type 0 where
  pub listen_uri : Bytes
  pub listen_url : Bytes
  pub host : Bytes
  pub port : ℕ
  pub active_connections : ℕ
  pub info : List (Bytes × Bytes)

module _ (e : Engine) (h : Httplib) where
  -- The table, with the state of the sockets.
  pub record QuackStorageExtensionInfo : Type 0 where
    pub servers : List (Bytes × HttpQuackServer e h)
    pub sockets : h.World

  -- The part of `CreateServer` behind the construction of the server.
  abbrev pub filed :
      Bytes
      → QuackStorageExtensionInfo
      → Result (HttpQuackServer e h) × h.World
      → Result (Unit {0}) × QuackStorageExtensionInfo
  filed key t (err x, w) = (err x, record t { sockets = w })
  filed key t (ok server, w) =
      (ok tt, record { servers = insert key server t.servers; sockets = w })

  unfoldable pub create_server :
      e.Db
      → QuackUri
      → Bytes
      → QuackStorageExtensionInfo
      → Result (Unit {0}) × QuackStorageExtensionInfo
  unfolding canonical_uri lookup insert new_http_server
  create_server db listen_uri token t =
      let key = canonical_uri listen_uri in
      elim (lookup key t.servers) [
        | some server ↦ (err (invalid_input "Server already exists for %s" (key ∷ [])), t)
        | none ↦ filed key t (new_http_server e h db listen_uri token t.sockets)
      ]

  unfoldable pub stop_server :
      QuackUri → QuackStorageExtensionInfo → Bool × QuackStorageExtensionInfo
  unfolding canonical_uri lookup remove stop_accepting
  stop_server listen_uri t =
      let key = canonical_uri listen_uri in
      elim (lookup key t.servers) [
        | none ↦ (false, t)
        | some to_destroy ↦ (
          true,
          record {
            servers = remove key t.servers;
            sockets = (stop_accepting e h to_destroy t.sockets).1;
          },
        )
      ]

  unfoldable pub snapshot : HttpQuackServer e h → ServerSnapshot
  unfolding active_connection_count
  snapshot server =
      let uri = server.base.uri in
      record {
        listen_uri = uri.uri;
        listen_url = uri.http;
        host = uri.host;
        port = uri.port;
        active_connections = active_connection_count e server.base;
        info = (codes "ipv6", if uri.ipv6 then codes "true" else codes "false") ∷ [];
      }

  unfoldable pub list_servers : QuackStorageExtensionInfo → List ServerSnapshot
  unfolding snapshot
  list_servers t = map (λ entry. snapshot entry.1) t.servers
