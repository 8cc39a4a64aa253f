-- ===== src/Listen/RoundTrip.antt =====
-- Serving and stopping one after the other, and calls of quack_serve that fail.
use duckdb_quack.Prelude.{
  true, false, List, [], ◌∷◌, Bytes, codes, Option, none, some, Result, ok, err, Exception, ◌≡◌,
  inl, inr, refl, sym, ap, ◌∙◌, subst, Bool-cases, same, same_iff, same_refl, lookup, insert,
  remove, lookup-insert, lookup-remove,
}
use duckdb_quack.Text.StringUtil.{StringUtil, StringUtilLaws, str}
use duckdb_quack.Uri.Parse.{QuackUri, http_url, canonical_uri}
use duckdb_quack.Server.Engine.{Engine}
use duckdb_quack.Listen.Http.{Httplib, HttpQuackServer, new_http_server}
use duckdb_quack.Listen.Table.{QuackStorageExtensionInfo, filed, create_server, stop_server}
use duckdb_quack.Listen.Functions.{QuackStartStopFunctionData, stop_bind, serve, stop}
use duckdb_quack.Uri.Shapes.{IsHostName, IsPort}
use duckdb_quack.Uri.RoundTrip.{quack_uri-canonical_uri}

module _ (e : Engine) (h : Httplib) where
  -- A server that is created is new, and is filed under its canonical URI.
  created_table :
      (db : e.Db) (uri : QuackUri) (token : Bytes) (t t1 : QuackStorageExtensionInfo e h)
      → create_server e h db uri token t ≡ (ok tt, t1)
      → (lookup (canonical_uri uri) t.servers ≡ none)
        × ((server : HttpQuackServer e h) × (t1.servers
              ≡ insert (canonical_uri uri) server t.servers))
  unfolding create_server
  created_table db uri token t t1 = split (lookup (canonical_uri uri) t.servers) refl
    where
      filed_table :
          (made : Result (HttpQuackServer e h) × h.World)
          → filed e h (canonical_uri uri) t made ≡ (ok tt, t1)
          → (server : HttpQuackServer e h) × (t1.servers
              ≡ insert (canonical_uri uri) server t.servers)
      filed_table (err x, w) created = cc
      filed_table (ok server, w) created = (
        server,
        ap (λ (p : Result (Unit {0}) × QuackStorageExtensionInfo e h). p.1.servers) (sym created),
      )

      split :
          (found : Option (HttpQuackServer e h))
          → lookup (canonical_uri uri) t.servers ≡ found
          → create_server e h db uri token t ≡ (ok tt, t1)
          → (lookup (canonical_uri uri) t.servers ≡ none)
            × ((server : HttpQuackServer e h) × (t1.servers
                  ≡ insert (canonical_uri uri) server t.servers))
      split (some server) found = rw (found, create_server) λ created. cc
      split none found =
          rw (found, create_server)
            λ created. (refl, filed_table (new_http_server e h db uri token t.sockets) created)

  restored :
      (key : Bytes) (server : HttpQuackServer e h) (m : List (Bytes × HttpQuackServer e h))
      → lookup key m ≡ none
      → (k : Bytes) → lookup k (remove key (insert key server m)) ≡ lookup k m
  restored key server m absent k =
      lookup-remove key k (insert key server m) ∙ (elim (Bool-cases (same key k)) [
        | inl here ↦ rw here (sym (subst (λ j. lookup j m ≡ none) ((same_iff key k).0 here) absent))
        | inr other ↦ rw other (lookup-insert key k server m ∙ (rw other refl))
      ])

  found_again :
      (key : Bytes) (server : HttpQuackServer e h) (m : List (Bytes × HttpQuackServer e h))
      → lookup key (insert key server m) ≡ some server
  found_again key server m = lookup-insert key key server m ∙ (rw (same_refl key) refl)

  -- A server that was created is found and destroyed under any URI with the same canonical form,
  -- and the other servers are as before.
  create_stop :
      (db : e.Db) (uri uri1 : QuackUri) (token : Bytes) (t t1 : QuackStorageExtensionInfo e h)
      → create_server e h db uri token t ≡ (ok tt, t1)
      → canonical_uri uri1 ≡ canonical_uri uri
      → let s = stop_server e h uri1 t1 in
        (s.0 ≡ true) × ((key : Bytes) → lookup key s.1.servers ≡ lookup key t.servers)
  unfolding stop_server
  create_stop db uri uri1 token t t1 created same_uri =
      let (absent, (server, filed1)) = created_table db uri token t t1 created in
      let there : lookup (canonical_uri uri1) t1.servers ≡ some server =
        rw (same_uri, filed1) (found_again (canonical_uri uri) server t.servers) in
      rw (there, stop_server)
        (
          refl,
          λ key. rw (same_uri, filed1) (restored (canonical_uri uri) server t.servers absent key),
        )

  -- A call of CreateServer that throws leaves the table of servers as it was.
  pub create_server_fails :
      (db : e.Db) (uri : QuackUri) (token : Bytes) (t : QuackStorageExtensionInfo e h)
      (x : Exception)
      → (create_server e h db uri token t).0 ≡ err x
      → (create_server e h db uri token t).1.servers ≡ t.servers
  unfolding create_server
  create_server_fails db uri token t x = split (lookup (canonical_uri uri) t.servers) refl
    where
      unfiled :
          (made : Result (HttpQuackServer e h) × h.World)
          → (filed e h (canonical_uri uri) t made).0 ≡ err x
          → (filed e h (canonical_uri uri) t made).1.servers ≡ t.servers
      unfiled (err y, w) failed = refl
      unfiled (ok server, w) failed = cc

      split :
          (found : Option (HttpQuackServer e h))
          → lookup (canonical_uri uri) t.servers ≡ found
          → (create_server e h db uri token t).0 ≡ err x
          → (create_server e h db uri token t).1.servers ≡ t.servers
      split (some server) found = rw (found, create_server) λ failed. refl
      split none found =
          rw (found, create_server) (unfiled (new_http_server e h db uri token t.sockets))

module _ (e : Engine) (u : StringUtil) (laws : StringUtilLaws u) (h : Httplib) where
  -- If CreateServer succeeds for the bind data of quack_serve, which is not finished and whose
  -- URI has a plain host name and a port from 1 to 65535, then QuackServe leaves the servers as
  -- CreateServer does, and quack_stop of the canonical URI reports that it stopped listening
  -- there and leaves the table with the servers from before.
  pub serve_stop :
      (db : e.Db) (bind_data : QuackStartStopFunctionData) (t t1 : QuackStorageExtensionInfo e h)
      → create_server e h db bind_data.listen_uri bind_data.token t ≡ (ok tt, t1)
      → bind_data.finished ≡ false
      → bind_data.listen_uri.ipv6 ≡ false
      → IsHostName bind_data.listen_uri.host bind_data.listen_uri.port
      → IsPort bind_data.listen_uri.port
      → let uri = canonical_uri bind_data.listen_uri in
        ((serve e u h db bind_data t).2 ≡ t1)
        × ((stop_data : QuackStartStopFunctionData) × (stop_bind e u (some uri) ≡ ok stop_data)
            × ((stop e u h stop_data t1).0
                ≡ ok (u.format (codes "Stopped listening on %s") (str uri ∷ []) ∷ []))
            × ((key : Bytes)
                → lookup key (stop e u h stop_data t1).2.servers ≡ lookup key t.servers))
  unfolding serve stop stop_bind
  serve_stop db bind_data t t1 created new plain host port =
      let uri = canonical_uri bind_data.listen_uri in
      let parsed = quack_uri-canonical_uri u laws bind_data.listen_uri true plain host port in
      let stop_uri : QuackUri = record {
        ssl = true;
        ipv6 = false;
        host = bind_data.listen_uri.host;
        port = bind_data.listen_uri.port;
        http = http_url u true false bind_data.listen_uri.host bind_data.listen_uri.port;
        uri = uri;
      } in
      let (stopped, others) =
        create_stop e h db bind_data.listen_uri stop_uri bind_data.token t t1 created refl in
      (
        simp (new, created) refl,
        (
          record { finished = false; listen_uri = stop_uri; token = [] },
          rw (parsed) refl,
          rw stopped refl,
          others,
        ),
      )
