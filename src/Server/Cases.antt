-- ===== src/Server/Cases.antt =====
-- How each part of the message handling can change the state of the server.
use duckdb_quack.Prelude.{
  ℕ, Bool, true, false, List, Bytes, Option, Result, ok, err, ◌≡◌, refl, ap, inl, inr, Bool-cases,
  Option-cases, arith, ◌&&◌, Exception, insert, ltb,
}
use duckdb_quack.Text.StringUtil.{StringUtil}
use duckdb_quack.Message.Types.{message, connection_response_body}
use duckdb_quack.Server.Engine.{Engine}
use duckdb_quack.Server.State.{QuackConnection, QuackServer, continue, done}
use duckdb_quack.Server.Requests.{
  Message, evaluate_auth_query, Handled, quack_version, respond_batch, prepare, fetch, append,
}
use duckdb_quack.Server.Handle.{
  authenticate, authorize, authorized, store, admit, handle_connection_request,
}
use duckdb_quack.Server.Batch.{Batch}
use duckdb_quack.Server.Sessions.{
  generate_session_id, lacks_rng, new_connection, create_new_connection,
}

module _ (e : Engine) (u : StringUtil) where
  -- A callback's query changes nothing of the server but its database.
  pub evaluate_auth_query_state :
      (sql : Bytes) (values : List Bytes) (s : QuackServer e)
      → (db : e.Db) × ((evaluate_auth_query e u sql values s).1 ≡ record s { db = db })
  unfolding evaluate_auth_query
  evaluate_auth_query_state sql values s = elim (Option-cases (e.query s.db sql values).1) [
    | inl gone ↦ ((e.query s.db sql values).0, rw (gone, evaluate_auth_query))
    | inr (rows, here) ↦ elim (Bool-cases (e.has_error rows)) [
      | inl bad ↦ ((e.query s.db sql values).0, rw (here, evaluate_auth_query, bad))
      | inr fine ↦
          ((e.fetch (e.query s.db sql values).0 rows).0, rw (here, evaluate_auth_query, fine))
    ]
  ]

  authorize_state :
      (id query : Bytes) (s : QuackServer e)
      → (db : e.Db) × ((authorize e u id query s).1 ≡ record s { db = db })
  unfolding authorize
  authorize_state id query s = evaluate_auth_query_state _ _ s

  -- An authorized request either is refused, or is run on the server with the database that the
  -- callback left; it is run only if the callback gave true.
  pub authorized_cases {ℓ} :
      (P : Result (Message e u) × QuackServer e → Type ℓ) (id query : Bytes)
      (request : QuackServer e → Handled e u) (s : QuackServer e)
      → ((r : Result (Message e u)) (db : e.Db) → P (r, record s { db = db }))
      → ((db : e.Db)
          → (authorize e u id query s).0 ≡ ok true
          → P (store e u id (request (record s { db = db })) (record s { db = db })))
      → P (authorized e u id query request s)
  unfolding authorized
  authorized_cases P id query request s refused run = go (authorize e u id query s) refl
    where
      go :
          (r : Result Bool × QuackServer e)
          → authorize e u id query s ≡ r
          → P (authorized e u id query request s)
      go (ok true, t) e1 =
          let (db, state) = authorize_state id query s in
          let same_state : t ≡ record s { db = db } = rw e1 at state in
          rw (e1, authorized, same_state) (run db (ap (λ r. r.0) e1))
      go (ok false, t) e1 =
          let (db, state) = authorize_state id query s in
          let same_state : t ≡ record s { db = db } = rw e1 at state in
          rw (e1, authorized, same_state) (refused _ db)
      go (err x, t) e1 =
          let (db, state) = authorize_state id query s in
          let same_state : t ≡ record s { db = db } = rw e1 at state in
          rw (e1, authorized, same_state) (refused _ db)

  respond_batch_session :
      (batch : Batch e) (c answered : QuackConnection e) (response : Message e u)
      → answered.session_id ≡ c.session_id
      → (respond_batch e u batch c answered response).connection.session_id ≡ c.session_id
  unfolding respond_batch
  respond_batch_session batch c answered response h = ground arith

  pub prepare_session :
      (db : e.Db) (c : QuackConnection e) (query : Bytes)
      → (prepare e u db c query).connection.session_id ≡ c.session_id
  unfolding prepare
  prepare_session db c query = ground arith

  pub fetch_session :
      (db : e.Db) (c : QuackConnection e) (uuid : ℕ)
      → (fetch e u db c uuid).connection.session_id ≡ c.session_id
  unfolding fetch
  fetch_session db c uuid = ground arith

  pub append_session :
      (db : e.Db) (c : QuackConnection e) (schema_name table_name : Bytes) (chunk : Option e.Chunk)
      → (append e u db c schema_name table_name chunk).connection.session_id ≡ c.session_id
  unfolding append
  append_session db c schema_name table_name chunk = ground arith

  generate_session_id_cases {ℓ} :
      (P : Result Bytes × QuackServer e → Type ℓ) (s : QuackServer e)
      → ((x : Exception) → P (err x, s))
      → ((id : Bytes) (rng : Option e.Rng) → P (ok id, record s { session_id_rng = rng }))
      → P (generate_session_id e s)
  unfolding generate_session_id
  generate_session_id_cases P s failed made =
      elim (Bool-cases (lacks_rng e s.session_id_rng && s.db_closed)) [
        | inl e1 ↦ rw (e1, generate_session_id) (failed _)
        | inr e1 ↦ rw (e1, generate_session_id) (made _ _)
      ]

  authenticate_state :
      (id auth_string : Bytes) (s : QuackServer e)
      → (db : e.Db) × ((authenticate e u id auth_string s).1 ≡ record s { db = db })
  unfolding authenticate
  authenticate_state id auth_string s = evaluate_auth_query_state _ _ s

  create_new_connection_cases {ℓ} :
      (P : Result (Message e u) × QuackServer e → Type ℓ) (id : Bytes) (s : QuackServer e)
      → ((r : Result (Message e u)) → P (r, s))
      → P (
        ok (message id (connection_response_body e.library_version e.platform quack_version)),
        record s { active_connections = insert id (new_connection e s.db id) s.active_connections },
      )
      → P (
          continue (create_new_connection e id s) (λ id'.
            done
              (message id' (connection_response_body e.library_version e.platform quack_version))))
  unfolding create_new_connection
  create_new_connection_cases P id s refused made = elim (Bool-cases s.db_closed) [
    | inl e1 ↦ simp (create_new_connection, e1) (refused _)
    | inr e1 ↦ simp (create_new_connection, e1) (rw e1 at made)
  ]

  admit_cases {ℓ} :
      (P : Result (Message e u) × QuackServer e → Type ℓ) (id auth_string : Bytes)
      (s : QuackServer e)
      → ((r : Result (Message e u)) (db : e.Db) → P (r, record s { db = db }))
      → ((db : e.Db)
          → (authenticate e u id auth_string s).0 ≡ ok true
          → P (
            ok (message id (connection_response_body e.library_version e.platform quack_version)),
            record s {
              db = db;
              active_connections = insert id (new_connection e db id) s.active_connections;
            },
          ))
      → P (admit e u id auth_string s)
  unfolding admit
  admit_cases P id auth_string s refused accepted = go (authenticate e u id auth_string s) refl
    where
      go :
          (r : Result Bool × QuackServer e)
          → authenticate e u id auth_string s ≡ r
          → P (admit e u id auth_string s)
      go (ok true, t) e1 =
          let (db, state) = authenticate_state id auth_string s in
          let same_state : t ≡ record s { db = db } = rw e1 at state in
          rw (e1, admit, same_state)
            (create_new_connection_cases P id (record s { db = db }) (λ r. refused r db)
              (accepted db (ap (λ r. r.0) e1)))
      go (ok false, t) e1 =
          let (db, state) = authenticate_state id auth_string s in
          let same_state : t ≡ record s { db = db } = rw e1 at state in
          rw (e1, admit, same_state) (refused _ db)
      go (err x, t) e1 =
          let (db, state) = authenticate_state id auth_string s in
          let same_state : t ≡ record s { db = db } = rw e1 at state in
          rw (e1, admit, same_state) (refused _ db)

  -- A connection request either opens no session, or opens one under a generated id for which the
  -- authentication callback gave true.
  pub connection_request_cases {ℓ} :
      (P : Result (Message e u) × QuackServer e → Type ℓ) (auth_string : Bytes) (minimum : ℕ)
      (s : QuackServer e)
      → ((r : Result (Message e u)) (db : e.Db) (rng : Option e.Rng)
          → P (r, record s { db = db; session_id_rng = rng }))
      → ((id : Bytes) (db : e.Db) (rng : Option e.Rng)
          → (authenticate e u id auth_string (record s { session_id_rng = rng })).0 ≡ ok true
          → P (
            ok (message id (connection_response_body e.library_version e.platform quack_version)),
            record s {
              db = db;
              session_id_rng = rng;
              active_connections = insert id (new_connection e db id) s.active_connections;
            },
          ))
      → P (handle_connection_request e u auth_string minimum s)
  unfolding handle_connection_request
  connection_request_cases P auth_string minimum s refused accepted =
      elim (Bool-cases (ltb quack_version minimum)) [
        | inl e1 ↦ rw (e1, handle_connection_request) (refused _ s.db s.session_id_rng)
        | inr e1 ↦
            rw (e1, handle_connection_request)
              (generate_session_id_cases (λ r. P (continue r (λ id. admit e u id auth_string))) s
                (λ x. refused (err x) s.db s.session_id_rng)
                λ id rng.
                  admit_cases P id auth_string (record s { session_id_rng = rng })
                    (λ r db. refused r db rng) λ db yes_. accepted id db rng yes_)
      ]
