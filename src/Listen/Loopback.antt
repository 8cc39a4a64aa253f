-- ===== src/Listen/Loopback.antt =====
-- A client whose POST goes to the routes of one server.
use duckdb_quack.Prelude.{
  ℕ, ◌-◌, List, [], ◌∷◌, ◌++◌, Bytes, codes, Option, none, some, Result, ok, err, Exception,
  io_error, same, same_refl, if◌then◌else◌, ◌≡◌, refl, ap, ◌∙◌, false, ◌>>=◌,
}
use duckdb_quack.Text.StringUtil.{StringUtil}
use duckdb_quack.Message.Types.{MessageType}
use duckdb_quack.Message.Serializer.{Serializer, SerializerLaws}
use duckdb_quack.Message.Wire.{to_memory_stream, from_memory_stream}
use duckdb_quack.Message.RoundTrip.{received, from_memory_stream-to_memory_stream}
use duckdb_quack.Server.Engine.{Engine}
use duckdb_quack.Server.State.{QuackServer, continue, done}
use duckdb_quack.Server.Requests.{Message}
use duckdb_quack.Server.Handle.{handle_message}
use duckdb_quack.Server.Typed.{IsTypedAnswer, handle_message-IsTypedAnswer}
use duckdb_quack.Client.Host.{Host, HttpAnswer, thrown, failure, success, Context}
use duckdb_quack.Client.Request.{
  HttpsQuackClient, params_of, request_url, request_internal, receive, log_request, expect, request,
}
use duckdb_quack.Listen.Routes.{
  MemoryStream, stream, HttpResponse, post, read_content, post_quack, route,
}

-- What the HTTP libraries do with a body and with what is no response of the route: `pieces` is
-- how the content reader hands a posted stream over.
pub record Transport (S B : Type 0) : Type 0 where
  pub pieces : S → List B
  pub server_error : Exception → Bytes
  pub not_found : Bytes
  pub unreachable : Bytes

module _ (e : Engine) (u : StringUtil) {S B : Type 0} (z : Serializer S e.Chunk e.Logical)
    (b : MemoryStream S B) (t : Transport S B) (h : Host S) (start end : ℕ) where
  abbrev pub as_answer : Result (Option (HttpResponse S)) → HttpAnswer S
  as_answer (err x) = failure (t.server_error x)
  as_answer (ok none) = failure t.not_found
  as_answer (ok (some response)) = elim response.content [
    | stream body type ↦ success body
    | _ ↦ failure t.not_found
  ]

  abbrev pub posted :
      h.World
      → Result (Option (HttpResponse S)) × QuackServer e
      → HttpAnswer S × (QuackServer e × h.World)
  posted w (answer, s) = (as_answer answer, (s, w))

  -- The host of a client, with the server as the only one that it can reach.
  abbrev pub loopback : Host S
  loopback = record {
    World = QuackServer e × h.World;
    Params = h.Params;
    blank = h.blank;
    initialize_parameters = λ w from_context url. h.initialize_parameters w.1 from_context url;
    post = λ w params url body.
        if same url (w.0.uri.http ++ codes "/quack")
        then posted w.1 (route e u z b start end post (codes "/quack") (t.pieces body) w.0)
        else (thrown t.unreachable, w);
    should_log = λ w. h.should_log w.1;
    write_log = λ w entry. (w.0, h.write_log w.1 entry);
    lookup_secret = λ w uri. h.lookup_secret w.1 uri;
    auto_load_httpfs = λ w. (w.0, h.auto_load_httpfs w.1);
    httpfs_loaded = λ w. h.httpfs_loaded w.1;
    error_message = h.error_message;
    library_version = h.library_version;
    platform = h.platform;
  }

  abbrev Served : Type 0
  Served = Result (Message e u) × QuackServer e

  -- What the POST gives for what HandleMessage gives.
  abbrev answered : h.World → Served → HttpAnswer S × (QuackServer e × h.World)
  answered w (err x, s) = (failure (t.server_error x), (s, w))
  answered w (ok m, s) = (success (to_memory_stream z m b.blank), (s, w))

  module _ (laws : SerializerLaws z)
      (delivered : (s : S) → read_content b (t.pieces s) b.blank ≡ s) where
    route_post :
        (body : S) (s : QuackServer e) (w : h.World)
        → posted w (route e u z b start end post (codes "/quack") (t.pieces body) s)
          ≡ answered w (handle_message e u z start end body s)
    unfolding route post_quack same
    route_post body s w =
        ap (λ x. posted w (reply (handle_message e u z start end x s))) (delivered body)
        ∙ replied (handle_message e u z start end body s)
      where
        reply : Served → Result (Option (HttpResponse S)) × QuackServer e
        reply a =
            continue
              (continue a (λ m. done (record {
                headers = (codes "Access-Control-Allow-Origin", codes "*") ∷ [];
                status = none;
                content = stream (to_memory_stream z m b.blank) (codes "application/duckdb");
              })))
              (λ response. done (some response))

        replied : (a : Served) → posted w (reply a) ≡ answered w a
        replied (err x, s1) = refl
        replied (ok m, s1) = refl

    -- What Request returns for what HandleMessage gives.
    abbrev pub outcome : MessageType → Result (Message e u) → Result (Message e u)
    outcome target (ok m) = expect target (record m { body = received m.body })
    outcome target (err x) = err (io_error "Failed to send message: %s" (t.server_error x ∷ []))

    abbrev made :
        MessageType
        → ℕ
        → Option Context
        → Message e u
        → HttpsQuackClient loopback
        → HttpAnswer S × (QuackServer e × h.World)
        → Result (Message e u) × HttpsQuackClient loopback × loopback.World
    made target duration context m client a =
        let r = receive loopback z duration context m client a.0 a.1 in
        (r.0 >>= expect target, r.1, r.2)

    not_logged :
        (duration : ℕ) (context : Option Context) (m response : Message e u)
        (client : HttpsQuackClient loopback) (s : QuackServer e) (w : h.World)
        → h.should_log w ≡ false
        → log_request loopback duration context m response client (s, w)
          ≡ (ok response, client, (s, w))
    unfolding log_request
    not_logged duration context m response client s w quiet = rw (quiet, log_request) refl

    received_read :
        (target : MessageType) (duration : ℕ) (context : Option Context) (m response : Message e u)
        (client : HttpsQuackClient loopback) (s : QuackServer e) (w : h.World) (body tail : S)
        → from_memory_stream z body ≡ ok (response, tail)
        → h.should_log w ≡ false
        → made target duration context m client (success body, (s, w))
          ≡ (expect target response, client, (s, w))
    unfolding receive
    received_read target duration context m response client s w body tail read quiet =
        ap
          (λ (q : Result (Message e u × S)).
            let r : Result (Message e u) × HttpsQuackClient loopback × loopback.World = elim q [
              | err x ↦ (err x, client, (s, w))
              | ok (response, rest) ↦ log_request loopback duration context m response client (s, w)
            ] in
            (r.0 >>= expect target, r.1, r.2))
          read
        ∙ ap
            (λ (r : Result (Message e u) × HttpsQuackClient loopback × loopback.World).
              (r.0 >>= expect target, r.1, r.2))
            (not_logged duration context m response client s w quiet)

    -- What Request makes of the answer, if nothing is logged.
    made-answered :
        (target : MessageType) (duration : ℕ) (context : Option Context) (m : Message e u)
        (client : HttpsQuackClient loopback) (w : h.World) (a : Served)
        → h.should_log w ≡ false
        → IsTypedAnswer e u a.0
        → made target duration context m client (answered w a)
          ≡ (outcome target a.0, client, (a.1, w))
    unfolding receive
    made-answered target duration context m client w (err x, s) quiet typed = refl
    made-answered target duration context m client w (ok response, s) quiet typed =
        received_read target duration context m _ client s w _ b.blank
          (from_memory_stream-to_memory_stream z laws response b.blank typed) quiet

    reached :
        (params : h.Params) (body : S) (s : QuackServer e) (w : h.World)
        → loopback.post (s, w) params (s.uri.http ++ codes "/quack") body
          ≡ answered w (handle_message e u z start end body s)
    reached params body s w = rw (same_refl (s.uri.http ++ codes "/quack")) (route_post body s w)

    pub request_over_http :
        (target : MessageType) (t0 t1 : ℕ) (context : Option Context) (m : Message e u)
        (client : HttpsQuackClient loopback) (s : QuackServer e) (w : h.World)
        → client.uri.http ≡ s.uri.http
        → h.should_log w ≡ false
        → let a = handle_message e u z start end (to_memory_stream z m h.blank) s in
          let params =
            params_of loopback context (s, w) (request_url loopback client) client.http_params in
          request loopback z target t0 t1 context m client (s, w)
          ≡ (outcome target a.0, record client { http_params = some params }, (a.1, w))
    unfolding request request_internal
    request_over_http target t0 t1 context m client s w same_url quiet =
        let a = handle_message e u z start end (to_memory_stream z m h.blank) s in
        let params =
          params_of loopback context (s, w) (request_url loopback client) client.http_params in
        ap
          (λ url.
            made target (t1 - t0) context m (record client { http_params = some params })
              (loopback.post (s, w) params (url ++ codes "/quack") (to_memory_stream z m h.blank)))
          same_url
        ∙ (ap (made target (t1 - t0) context m (record client { http_params = some params }))
              (reached params (to_memory_stream z m h.blank) s w)
            ∙ made-answered target (t1 - t0) context m (record client { http_params = some params })
                w a quiet
                (handle_message-IsTypedAnswer e u z start end (to_memory_stream z m h.blank) s))
