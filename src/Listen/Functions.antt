-- ===== src/Listen/Functions.antt =====
-- The table functions quack_serve, quack_stop and quack_server_list, and the URI of an ATTACH.
use duckdb_quack.Prelude.{
  Bool, true, false, not, ◌&&◌, List, [], ◌∷◌, ◌++◌, Bytes, codes, Option, none, some, Result, ok,
  Exception, err, invalid_input, ◌>>=◌, ◌>>◌, throw_if, if◌then◌else◌,
}
use duckdb_quack.Text.StringUtil.{StringUtil, str}
use duckdb_quack.Uri.Parse.{QuackUri, quack_uri, is_local, quack_prefix}
use duckdb_quack.Client.Pool.{is_empty}
use duckdb_quack.Server.Engine.{Engine}
use duckdb_quack.Server.Sessions.{validate_token, generate_random_token}
use duckdb_quack.Listen.Http.{Httplib}
use duckdb_quack.Listen.Table.{
  QuackStorageExtensionInfo, create_server, stop_server, ServerSnapshot, list_servers,
}

pub record QuackStartStopFunctionData : Type 0 where
  pub finished : Bool
  pub listen_uri : QuackUri
  pub token : Bytes

-- The inputs of quack_serve: the first, if there is one, where `none` is NULL, and the named ones.
pub record ServeInput : Type 0 where
  pub uri : Option (Option Bytes)
  pub allow_other_hostname : Option Bool
  pub token : Option Bytes

abbrev given_uri : Option Bytes → Result Bytes
given_uri none = err (invalid_input "Invalid listen string specified" [])
given_uri (some uri) =
    if is_empty uri then err (invalid_input "Invalid listen string specified" []) else ok uri

-- The listen string of `QuackServeBind`.
unfoldable pub listen_string : Option (Option Bytes) → Result Bytes
listen_string none = ok (codes "quack:localhost")
listen_string (some uri) = given_uri uri

abbrev pub is_set : Option Bool → Bool
is_set none = false
is_set (some b) = b

module _ (e : Engine) (u : StringUtil) where
  -- The token that is given, or a generated one.
  unfoldable pub serve_token : ServeInput → e.Db → Bytes
  unfolding generate_random_token
  serve_token input db = elim input.token [ none ↦ generate_random_token e db | some given ↦ given ]

  abbrev pub is_refused_host : ServeInput → QuackUri → Bool
  is_refused_host input listen_uri =
      not (is_set input.allow_other_hostname) && not (is_local u listen_uri)

  abbrev pub refused_host : Exception
  refused_host =
      invalid_input
        "Only localhost is allowed as a Quack RPC hostname by default, set allow_other_hostname=true to override. We strongly recommend reverse-proxying the Quack RPC when making it publicly available."
        []

  -- The part of `QuackServeBind` behind the parsing of the URI.
  unfoldable pub serve_bind_uri : ServeInput → e.Db → QuackUri → Result QuackStartStopFunctionData
  unfolding is_local validate_token serve_token
  serve_bind_uri input db listen_uri =
      throw_if (is_refused_host input listen_uri) refused_host
      >> (validate_token (serve_token input db)
          >> ok
              (record { finished = false; listen_uri = listen_uri; token = serve_token input db }))

  -- `QuackServeBind`
  unfoldable pub serve_bind : ServeInput → e.Db → Result QuackStartStopFunctionData
  unfolding listen_string serve_bind_uri
  serve_bind input db =
      listen_string input.uri >>= λ uri. quack_uri u uri false >>= serve_bind_uri input db

  -- `QuackStopBind`, which has no token.
  unfoldable pub stop_bind : Option Bytes → Result QuackStartStopFunctionData
  stop_bind input = given_uri input >>= λ uri. quack_uri u uri true >>= λ listen_uri.
      ok (record { finished = false; listen_uri = listen_uri; token = [] })

  -- The URI that `QuackAttach` gives the catalog.
  unfoldable pub attach_uri : Bytes → Option Bool → Result QuackUri
  unfolding is_local
  attach_uri path disable_ssl = do
    let uri = if u.starts_with path quack_prefix then path else quack_prefix ++ path
    initial_uri ← quack_uri u uri true
    let enable_ssl : Bool = elim disable_ssl [
      | none ↦ not (is_local u initial_uri)
      | some disabled ↦ not disabled
    ]
    quack_uri u uri enable_ssl

module _ (e : Engine) (u : StringUtil) (h : Httplib) where
  -- A call of a table function: its rows or exception, its bind data and the servers.
  abbrev pub Call : Type 0 → Type 0
  Call Row = Result (List Row) × QuackStartStopFunctionData × QuackStorageExtensionInfo e h

  -- `QuackServe`: the URI, the URL and the token.
  unfoldable pub serve :
      e.Db
      → QuackStartStopFunctionData
      → QuackStorageExtensionInfo e h
      → Call (Bytes × Bytes × Bytes)
  unfolding create_server
  serve db bind_data t =
      if bind_data.finished
      then (ok [], bind_data, t)
      else let (created, t1) = create_server e h db bind_data.listen_uri bind_data.token t in
        elim created [
          | err x ↦ (err x, bind_data, t1)
          | ok _ ↦ (
            ok ((bind_data.listen_uri.uri, bind_data.listen_uri.http, bind_data.token) ∷ []),
            record bind_data { finished = true },
            t1,
          )
        ]

  -- `QuackStop`: the status.
  unfoldable pub stop : QuackStartStopFunctionData → QuackStorageExtensionInfo e h → Call Bytes
  unfolding stop_server
  stop bind_data t =
      if bind_data.finished
      then (ok [], bind_data, t)
      else let (stopped, t1) = stop_server e h bind_data.listen_uri t in
        let format =
          if stopped
          then codes "Stopped listening on %s"
          else codes "No server found listening on %s" in
        (
          ok (u.format format (str bind_data.listen_uri.uri ∷ []) ∷ []),
          record bind_data { finished = true },
          t1,
        )

  -- `QuackServerList`: a row for each server, at the first call.
  unfoldable pub server_list : Bool → QuackStorageExtensionInfo e h → List ServerSnapshot × Bool
  unfolding list_servers
  server_list finished t = if finished then ([], true) else (list_servers e h t, true)
