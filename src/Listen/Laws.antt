-- ===== src/Listen/Laws.antt =====
-- What the table of servers keeps, and serving and stopping one after the other.
use duckdb_quack.Prelude.{
  ◌≤◌, true, false, List, [], ◌∷◌, Bytes, Option, none, some, Result, ok, err, invalid_input, ◌≡◌,
  inl, inr, refl, sym, ap, arith, Bool-cases, same, lookup, insert, remove, All, ltb, length,
}
use duckdb_quack.Uri.Parse.{QuackUri, canonical_uri}
use duckdb_quack.Server.Engine.{Engine}
use duckdb_quack.Server.State.{QuackServer}
use duckdb_quack.Server.Sessions.{new_server, validate_token}
use duckdb_quack.Listen.Http.{Httplib, HttpQuackServer, listening, listen_with, new_http_server}
use duckdb_quack.Listen.Table.{QuackStorageExtensionInfo, filed, create_server, stop_server}

module _ (e : Engine) (h : Httplib) where
  -- A server that listens under its canonical URI and has a valid token.
  abbrev pub IsFiled : Bytes × HttpQuackServer e h → Type 0
  IsFiled (key, server) = (key ≡ canonical_uri server.base.uri) × (4 ≤ length server.base.token)

  abbrev pub IsFiledTable : QuackStorageExtensionInfo e h → Type 0
  IsFiledTable t = All IsFiled t.servers

  All-insert :
      (key : Bytes) (server : HttpQuackServer e h) (m : List (Bytes × HttpQuackServer e h))
      → IsFiled (key, server)
      → All IsFiled m
      → All IsFiled (insert key server m)
  unfolding insert
  All-insert key server [] new old = (new, tt)
  All-insert key server ((k, s) ∷ m) new (here, old) = elim (Bool-cases (same k key)) [
    | inl found ↦ rw found (new, old)
    | inr other ↦ rw other (here, All-insert key server m new old)
  ]

  All-remove :
      (key : Bytes) (m : List (Bytes × HttpQuackServer e h))
      → All IsFiled m
      → All IsFiled (remove key m)
  unfolding remove
  All-remove key [] old = tt
  All-remove key ((k, s) ∷ m) (here, old) = elim (Bool-cases (same k key)) [
    | inl found ↦ rw found (All-remove key m old)
    | inr other ↦ rw other (here, All-remove key m old)
  ]

  abbrev base_in : QuackServer e → Result (HttpQuackServer e h) × h.World → QuackServer e
  base_in base (err x, w) = base
  base_in base (ok server, w) = server.base

  listening_keeps :
      (base : QuackServer e) (listener : h.Listener) (w1 : h.World) (server : HttpQuackServer e h)
      (started : Result (Unit {0}) × h.World)
      → listening e h base listener started ≡ (ok server, w1)
      → server.base ≡ base
  listening_keeps base listener w1 server (err x, w) made = cc
  listening_keeps base listener w1 server (ok done, w) made = sym (ap (base_in base) made)

  -- The socket part of the constructor keeps the server as it was made.
  listen_with_keeps :
      (base : QuackServer e) (w w1 : h.World) (server : HttpQuackServer e h)
      → listen_with e h base w ≡ (ok server, w1)
      → server.base ≡ base
  unfolding listen_with
  listen_with_keeps base w w1 server =
      elim (Bool-cases (h.is_valid (h.make_listener w).1 (h.make_listener w).0)) [
        | inr bad ↦ rw (bad, listen_with) λ made. cc
        | inl good ↦
            elim (Bool-cases
              (h.bind_to_port (h.make_listener w).0 base.uri.host base.uri.port
                (h.make_listener w).1).0) [
                  | inr busy ↦ rw (good, busy, listen_with) λ made. cc
                  | inl bound ↦
                      rw (good, bound, listen_with)
                        (λ made. listening_keeps base (h.make_listener w).0 w1 server _ made)
                ]
      ]

  fresh_server : e.Db → QuackUri → Bytes → QuackServer e
  fresh_server db uri token = record {
    db = db;
    db_closed = false;
    active_connections = [];
    session_id_rng = none;
    uri = uri;
    token = token;
  }

  new_server_made :
      (db : e.Db) (uri : QuackUri) (token : Bytes)
      → ltb (length token) 4 ≡ false
      → new_server e db uri token ≡ ok (fresh_server db uri token)
  unfolding new_server validate_token fresh_server
  new_server_made db uri token long = rw (long, new_server) refl

  new_server_refused :
      (db : e.Db) (uri : QuackUri) (token : Bytes)
      → ltb (length token) 4 ≡ true
      → new_server e db uri token
        ≡ err (invalid_input "Quack server token must be at least 4 characters long" [])
  unfolding new_server validate_token
  new_server_refused db uri token short = rw (short, new_server) refl

  new_http_server_lem :
      (db : e.Db) (uri : QuackUri) (token : Bytes) (w w1 : h.World) (server : HttpQuackServer e h)
      → new_http_server e h db uri token w ≡ (ok server, w1)
      → (server.base.uri ≡ uri) × (server.base.token ≡ token) × (4 ≤ length token)
  unfolding new_http_server fresh_server
  new_http_server_lem db uri token w w1 server = elim (Bool-cases (ltb (length token) 4)) [
    | inl short ↦ rw (new_server_refused db uri token short, new_http_server) λ made. cc
    | inr long ↦
        rw (new_server_made db uri token long, new_http_server)
          λ made.
            let same_base = listen_with_keeps (fresh_server db uri token) w w1 server made in
            (
              ap (λ (b : QuackServer e). b.uri) same_base,
              ap (λ (b : QuackServer e). b.token) same_base,
              ground arith,
            )
  ]

  filed_table :
      (uri : QuackUri) (token : Bytes) (db : e.Db) (t : QuackStorageExtensionInfo e h)
      (made : Result (HttpQuackServer e h) × h.World)
      → new_http_server e h db uri token t.sockets ≡ made
      → IsFiledTable t
      → IsFiledTable (filed e h (canonical_uri uri) t made).1
  unfolding insert
  filed_table uri token db t (err x, w) made old = old
  filed_table uri token db t (ok server, w) made old =
      let (same_uri, same_token, long) = new_http_server_lem db uri token t.sockets w server made in
      All-insert (canonical_uri uri) server t.servers
        (ap canonical_uri (sym same_uri), rw same_token long) old

  create_server-IsFiledTable :
      (db : e.Db) (uri : QuackUri) (token : Bytes) (t : QuackStorageExtensionInfo e h)
      → IsFiledTable t
      → IsFiledTable (create_server e h db uri token t).1
  unfolding create_server
  create_server-IsFiledTable db uri token t old = split (lookup (canonical_uri uri) t.servers) refl
    where
      split :
          (found : Option (HttpQuackServer e h))
          → lookup (canonical_uri uri) t.servers ≡ found
          → IsFiledTable (create_server e h db uri token t).1
      split (some server) found = rw (found, create_server) old
      split none found =
          rw (found, create_server)
            (filed_table uri token db t (new_http_server e h db uri token t.sockets) refl old)

  stop_server-IsFiledTable :
      (uri : QuackUri) (t : QuackStorageExtensionInfo e h)
      → IsFiledTable t
      → IsFiledTable (stop_server e h uri t).1
  unfolding stop_server
  stop_server-IsFiledTable uri t old = split (lookup (canonical_uri uri) t.servers) refl
    where
      split :
          (found : Option (HttpQuackServer e h))
          → lookup (canonical_uri uri) t.servers ≡ found
          → IsFiledTable (stop_server e h uri t).1
      split (some server) found =
          rw (found, stop_server) (All-remove (canonical_uri uri) t.servers old)
      split none found = rw (found, stop_server) old

  -- A call that starts or stops a server.
  pub data Action : Type 0 where
    start_listening : e.Db → QuackUri → Bytes → Action
    stop_listening : QuackUri → Action

  abbrev act : Action → QuackStorageExtensionInfo e h → QuackStorageExtensionInfo e h
  act (start_listening db uri token) t = (create_server e h db uri token t).1
  act (stop_listening uri) t = (stop_server e h uri t).1

  abbrev pub act_all : List Action → QuackStorageExtensionInfo e h → QuackStorageExtensionInfo e h
  act_all [] t = t
  act_all (a ∷ actions) t = act_all actions (act a t)

  -- After any sequence of CreateServer and StopServer, if every server was filed under the
  -- canonical URI of its listen URI and had a token of at least four bytes, so does and has every
  -- server.
  pub act_all-IsFiledTable :
      (actions : List Action) (t : QuackStorageExtensionInfo e h)
      → IsFiledTable t
      → IsFiledTable (act_all actions t)
  act_all-IsFiledTable [] t old = old
  act_all-IsFiledTable (start_listening db uri token ∷ actions) t old =
      act_all-IsFiledTable actions _ (create_server-IsFiledTable db uri token t old)
  act_all-IsFiledTable (stop_listening uri ∷ actions) t old =
      act_all-IsFiledTable actions _ (stop_server-IsFiledTable uri t old)
