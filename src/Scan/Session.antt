-- ===== src/Scan/Session.antt =====
-- A remote that is one session of the server of src/quack_server.cpp, whose callback allows all.
use duckdb_quack.Prelude.{
  ℕ, ◌+◌, ◌%◌, ◌^◌, Bool, List, [], Bytes, codes, Option, none, some, Result, ok, ◌≡◌, ◌≢◌, refl,
  ap, subst, take, drop, take_nil, drop_nil, ==_refl,
}
use duckdb_quack.Text.StringUtil.{StringUtil}
use duckdb_quack.Uri.Parse.{QuackUri}
use duckdb_quack.Message.Types.{
  MessageType, message, prepare_request_body, fetch_request_body, append_request_body,
  fetch_response_body, fetch_response, prepare_response, prepare_response_body, type_value,
}
use duckdb_quack.Client.Request.{expect}
use duckdb_quack.Server.Engine.{Engine}
use duckdb_quack.Server.State.{QuackConnection}
use duckdb_quack.Server.Batch.Laws.{Left}
use duckdb_quack.Server.Requests.{
  Message, Handled, prepare, fetch, append, error_text, max_chunks_per_batch,
}
use duckdb_quack.Server.Complete.{fetch_closed}
use duckdb_quack.Server.Streaming.{fetch_counts}
use duckdb_quack.Scan.Remote.{Remote, ask}

module _ (e : Engine) (u : StringUtil) where
  abbrev pub Session : Type 0
  Session = e.Db × QuackConnection e

  abbrev pub Unbound : Type 0
  Unbound = Unit {0}

  abbrev answered : MessageType → Handled e u → Result (Message e u) × Unbound × Session
  answered target h = (expect target h.response, tt, (h.db, h.connection))

  unfoldable pub session_request :
      MessageType → Message e u → Unbound → Session → Result (Message e u) × Unbound × Session
  unfolding expect prepare fetch append error_text
  session_request target m client (db, c) = elim m.body [
    | prepare_request_body query ↦ answered target (prepare e u db c query)
    | fetch_request_body uuid ↦ answered target (fetch e u db c uuid)
    | append_request_body schema_name table_name chunk ↦
        answered target (append e u db c schema_name table_name chunk)
    | _ ↦ answered target (record {
      db = db;
      connection = c;
      response = error_text e u (codes "Unimplemented message type");
    })
  ]

  abbrev pub session_remote : QuackUri → Bytes → Remote e.Chunk e.Logical
  session_remote uri id = record {
    World = Session;
    Client = Unbound;
    Connection = Unbound;
    connection_id = λ connection. id;
    server_uri = λ connection. uri;
    connect = λ to token w. (ok tt, w);
    get_client = λ connection w. (ok tt, connection, w);
    store_client = λ client connection. connection;
    request = session_request;
  }

  -- What a FETCH with the identifier of the session gives, if its result still yields cs.
  pub record Fetched (id : Bytes) (n : ℕ) (db : e.Db) (c : QuackConnection e) (cs : List e.Chunk)
      : Type 0 where
    pub db_left : e.Db
    pub connection_left : QuackConnection e
    pub index : Option ℕ
    pub answer :
        session_request fetch_response (message id (fetch_request_body c.result_uuid)) tt (db, c)
        ≡ (ok (message [] (fetch_response_body (take n cs) index)), tt, (db_left, connection_left))
    pub left : Left e db_left connection_left.duckdb_query_result (drop n cs)
    pub kept : connection_left.result_uuid ≡ c.result_uuid
    pub indexed :
        cs ≢ []
        → (index ≡ some c.next_batch_index)
          × (connection_left.next_batch_index ≡ (c.next_batch_index + 1) % 2 ^ 64)

  answered_fetch :
      (id : Bytes) (db : e.Db) (c : QuackConnection e) (uuid : ℕ) (results : List e.Chunk)
      (index : Option ℕ)
      → (fetch e u db c uuid).response ≡ message [] (fetch_response_body results index)
      → let h = fetch e u db c uuid in
        session_request fetch_response (message id (fetch_request_body uuid)) tt (db, c)
        ≡ (ok (message [] (fetch_response_body results index)), tt, (h.db, h.connection))
  unfolding session_request expect message type_value
  answered_fetch id db c uuid results index h =
      let f = fetch e u db c uuid in ap (λ m. (expect fetch_response m, tt, (f.db, f.connection))) h

  fetch_closed_left :
      (db : e.Db) (c : QuackConnection e)
      → c.duckdb_query_result ≡ none
      → ((fetch e u db c c.result_uuid).connection ≡ c)
  unfolding fetch
  fetch_closed_left db c h = simp (h, ==_refl c.result_uuid, fetch) refl

  pub session_fetch :
      (id : Bytes) (db : e.Db) (c : QuackConnection e) (cs : List e.Chunk)
      → Left e db c.duckdb_query_result cs
      → Fetched id (max_chunks_per_batch e u db) db c cs
  session_fetch id db c cs left = split c.duckdb_query_result refl
    where
      split :
          (q : Option e.Rows)
          → c.duckdb_query_result ≡ q
          → Fetched id (max_chunks_per_batch e u db) db c cs
      split none e1 =
          let empty : cs ≡ [] = subst (λ q. Left e db q cs) e1 left in
          let n = max_chunks_per_batch e u db in
          record {
            db_left = (fetch e u db c c.result_uuid).db;
            connection_left = (fetch e u db c c.result_uuid).connection;
            index = none;
            answer =
                rw (empty, take_nil n)
                  (answered_fetch id db c c.result_uuid [] none (fetch_closed e u db c e1));
            left = rw (fetch_closed_left db c e1, empty, drop_nil n, e1) refl;
            kept = ap (λ (k : QuackConnection e). k.result_uuid) (fetch_closed_left db c e1);
            indexed = λ ne. absurd (ne empty);
          }
      split (some rows) e1 =
          let (answer, left1, index, kept) =
            fetch_counts e u db c rows cs e1 (subst (λ q. Left e db q cs) e1 left) in
          record {
            db_left = (fetch e u db c c.result_uuid).db;
            connection_left = (fetch e u db c c.result_uuid).connection;
            index = some c.next_batch_index;
            answer = answered_fetch id db c c.result_uuid _ _ answer;
            left = left1;
            kept = kept;
            indexed = λ ne. (refl, index);
          }

  -- What PREPARE gives on the session.
  pub session_prepared :
      (uri : QuackUri) (id : Bytes) (db : e.Db) (c : QuackConnection e) (query : Bytes)
      (types : List e.Logical) (names : List Bytes) (results : List e.Chunk) (more : Bool)
      (uuid : ℕ)
      → (prepare e u db c query).response
        ≡ message [] (prepare_response_body types names results more uuid)
      → let h = prepare e u db c query in
        ask (session_remote uri id) prepare_response (prepare_request_body query) tt (db, c) ≡ (
          ok (message [] (prepare_response_body types names results more uuid)),
          tt,
          (h.db, h.connection),
        )
  unfolding ask session_request expect message type_value
  session_prepared uri id db c query types names results more uuid answer =
      let h = prepare e u db c query in
      ap (λ m. (expect prepare_response m, tt, (h.db, h.connection))) answer
