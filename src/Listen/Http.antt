-- ===== src/Listen/Http.antt =====
-- `HttpQuackServer`: a server with a socket.
use duckdb_quack.Prelude.{
  ℕ, Bool, true, false, not, [], ◌∷◌, Bytes, Result, ok, err, io_error, if◌then◌else◌, ltb, ◌&&◌,
}
use duckdb_quack.Uri.Parse.{QuackUri}
use duckdb_quack.Server.Engine.{Engine}
use duckdb_quack.Server.State.{QuackServer}
use duckdb_quack.Server.Sessions.{new_server}

-- `duckdb_httplib::Server`, with the state of the machine's sockets.
pub record Httplib : Type 1 where
  pub World : Type 0
  pub Listener : Type 0
  pub make_listener : World → Listener × World
  pub is_valid : World → Listener → Bool
  pub bind_to_port : Listener → Bytes → ℕ → World → Bool × World
  -- the thread that listens, and `stop()`
  pub listen_after_bind : Listener → World → World
  pub stop : Listener → World → World
  -- DuckDB's `D_ASSERT`, which does nothing in a release build
  pub d_assert : Bool → Result (Unit {0})

module _ (e : Engine) (h : Httplib) where
  pub record HttpQuackServer : Type 0 where
    pub base : QuackServer e
    pub server : h.Listener
    pub is_running : Bool

  -- `ListenThread`, at its start. A failed assertion of the thread ends the process, which is the
  -- error here.
  unfoldable pub listen_thread : h.Listener → ℕ → h.World → Result (Unit {0}) × h.World
  listen_thread server port w = elim (h.d_assert (ltb 1 port && ltb port 65535)) [
    | err x ↦ (err x, w)
    | ok done ↦ (ok tt, h.listen_after_bind server w)
  ]

  abbrev pub listening :
      QuackServer e → h.Listener → Result (Unit {0}) × h.World → Result HttpQuackServer × h.World
  listening base server (err x, w) = (err x, w)
  listening base server (ok done, w) =
      (ok (record { base = base; server = server; is_running = true }), w)

  -- The constructor, behind the one of `QuackServer`.
  unfoldable pub listen_with : QuackServer e → h.World → Result HttpQuackServer × h.World
  unfolding listen_thread
  listen_with base w =
      let (server, w1) = h.make_listener w in
      if not (h.is_valid w1 server)
      then (
        err (
            io_error "Failed to instantiate DuckDB server at %s / %s"
              (base.uri.uri ∷ base.uri.http ∷ [])),
        w1,
      )
      else let (bound, w2) = h.bind_to_port server base.uri.host base.uri.port w1 in
        if not bound
        then (
          err (
              io_error
                "Failed to bind DuckDB Quack RPC server to %s (address in use, permission denied, or invalid host/port)"
                (base.uri.http ∷ [])),
          w2,
        )
        else listening base server (listen_thread server base.uri.port w2)

  -- `HttpQuackServer::HttpQuackServer`
  unfoldable pub new_http_server :
      e.Db → QuackUri → Bytes → h.World → Result HttpQuackServer × h.World
  unfolding new_server listen_with
  new_http_server db uri token w = elim (new_server e db uri token) [
    | err x ↦ (err x, w)
    | ok base ↦ listen_with base w
  ]

  -- `StopAccepting`
  unfoldable pub stop_accepting : HttpQuackServer → h.World → HttpQuackServer × h.World
  stop_accepting s w =
      if s.is_running then (record s { is_running = false }, h.stop s.server w) else (s, w)
