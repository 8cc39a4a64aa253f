-- ===== src/Server/Answers.antt =====
-- What every answer of the server satisfies, if the answers that the handlers make satisfy it.
pub mod Dispatch
use duckdb_quack.Prelude.{
  List, >>=-eq-ok, ℕ, ◌+◌, ◌-◌, ◌%◌, ◌^◌, Bool, true, false, not, [], Bytes, Option, none, some,
  Result, ok, err, ◌≡◌, refl, ap, inl, inr, Bool-cases, arith, length, codes, if◌then◌else◌, ◌&&◌,
  ◌==◌, ltb, subst,
}
use duckdb_quack.Text.StringUtil.{StringUtil}
use duckdb_quack.Message.Types.{
  ErrorData, error_body, connection_response_body, set_header, MessageType, MessageHeader, Body,
  message, fetch_response_body, prepare_response_body, success_body, connection_request,
  prepare_request, fetch_request, append_request, disconnect_message, prepare_request_body,
  connection_request_body, fetch_request_body, append_request_body, disconnect_body,
}
use duckdb_quack.Message.Serializer.{Serializer}
use duckdb_quack.Message.Wire.{deserialize, deserialize_header, deserialize_message}
use duckdb_quack.Message.Enum.{to_chars}
use duckdb_quack.Server.Engine.{Engine}
use duckdb_quack.Server.State.{QuackConnection, QuackServer, Method, continue, done}
use duckdb_quack.Server.Batch.{Batch, create_batch}
use duckdb_quack.Server.Requests.{
  Message, Handled, prepare, fetch, append, respond_batch, error_text, error_response_of,
  quack_version, message_requires_connection, dummy_insert_query, max_chunks_per_batch,
  server_supports_message,
}
use duckdb_quack.Server.Sessions.{disconnect_connection, create_new_connection, generate_session_id}
use duckdb_quack.Server.Handle.{
  dispatch, handle_message_internal, store, authorized, authorize, authenticate, admit,
  handle_connection_request, handle_disconnect, fallback, unimplemented, write_log, handle_message,
  process, obtain_connection, is_missing,
}

-- A predicate on the answers to a message type, and the answers that the handlers make.
pub record Holds (e : Engine) (u : StringUtil) (Q : MessageType → Message e u → Type 0)
    : Type 0 where
  pub refused : (type : MessageType) (error : ErrorData) → Q type (message [] (error_body error))
  pub connected :
      (id : Bytes)
      → Q connection_request
          (message id (connection_response_body e.library_version e.platform quack_version))
  pub prepared :
      (types : List e.Logical) (names : List Bytes) (results : List e.Chunk) (more : Bool)
      (uuid : ℕ)
      → Q prepare_request (message [] (prepare_response_body types names results more uuid))
  pub fetched :
      (results : List e.Chunk) (index : Option ℕ)
      → Q fetch_request (message [] (fetch_response_body results index))
  pub appended : Q append_request (message [] success_body)
  pub disconnected : Q disconnect_message (message [] success_body)

abbrev pub Answers : {M : Type 0} → (M → Type 0) → Result M → Type 0
Answers P (ok m) = P m
Answers P (err x) = Unit {0}

pub Answers-map :
    {M : Type 0} (P Q : M → Type 0)
    → ((m : M) → P m → Q m)
    → (r : Result M) → Answers P r
    → Answers Q r
Answers-map P Q f (ok m) h = f m h
Answers-map P Q f (err x) h = h

module _ (e : Engine) (u : StringUtil) where
  pub continue-Answers :
      {A : Type 0} (P : Message e u → Type 0) (r : Result A × QuackServer e)
      (f : A → Method e (Message e u))
      → ((a : A) (s : QuackServer e) → r ≡ (ok a, s) → Answers P (f a s).0)
      → Answers P (continue r f).0
  continue-Answers P (ok a, s) f h = h a s refl
  continue-Answers P (err x, s) f h = tt

  pub if-Answers :
      (P : Message e u → Type 0) (b : Bool) (f g : Method e (Message e u)) (s : QuackServer e)
      → Answers P (f s).0
      → Answers P (g s).0
      → Answers P ((if b then f else g) s).0
  if-Answers P true f g s hf hg = hf
  if-Answers P false f g s hf hg = hg

module _ (e : Engine) (u : StringUtil) (Q : MessageType → Message e u → Type 0)
    (holds : Holds e u Q) where
  pub error_text-Holds : (type : MessageType) (text : Bytes) → Q type (error_text e u text)
  unfolding error_text error_response_of
  error_text-Holds type text = holds.refused type _

  error_response_of-Holds :
      (type : MessageType) (error : ErrorData) → Q type (error_response_of e u error)
  unfolding error_response_of
  error_response_of-Holds type error = holds.refused type error

  respond_batch-Holds :
      (type : MessageType) (batch : Batch e) (c d : QuackConnection e) (m : Message e u)
      → Q type m
      → Q type (respond_batch e u batch c d m).response
  unfolding respond_batch
  respond_batch-Holds type batch c d m h = split batch.query_result refl
    where
      split :
          (q : Option e.Rows)
          → batch.query_result ≡ q
          → Q type (respond_batch e u batch c d m).response
      split none e1 = rw (e1, respond_batch) h
      split (some rows) e1 = elim (Bool-cases (e.has_error rows)) [
        | inl bad ↦ rw (e1, bad, respond_batch) (error_response_of-Holds type (e.error_object rows))
        | inr fine ↦ rw (e1, fine, respond_batch) h
      ]

  pub prepare-Holds :
      (db : e.Db) (c : QuackConnection e) (query : Bytes)
      → Q prepare_request (prepare e u db c query).response
  unfolding prepare
  prepare-Holds db c query =
      let (db1, conn, rows) = e.send_query db c.duckdb_connection query in
      let (db2, uuid) = e.random_uuid db1 in
      let batch = create_batch e (max_chunks_per_batch e u db2) db2 rows in
      let c2 : QuackConnection e = record c {
        duckdb_connection = conn;
        duckdb_query_result = none;
        next_batch_index = 1;
        result_uuid = uuid;
      } in
      let sent = respond_batch-Holds prepare_request batch c2 c2 _ (
        holds.prepared (e.types rows) (e.names rows) batch.results
          (length batch.results == max_chunks_per_batch e u db2) uuid) in
      let failed = error_response_of-Holds prepare_request (e.error_object rows) in
      let empty = error_text-Holds prepare_request (codes "Query did not return any columns") in
      ground (arith, sent, failed, empty)

  pub fetch-Holds :
      (db : e.Db) (c : QuackConnection e) (uuid : ℕ)
      → Q fetch_request (fetch e u db c uuid).response
  unfolding fetch
  fetch-Holds db c uuid = go c.duckdb_query_result refl
    where
      closed : Q fetch_request (error_text e u (codes "Result has been closed"))
      closed = error_text-Holds fetch_request (codes "Result has been closed")

      go :
          (q : Option e.Rows)
          → c.duckdb_query_result ≡ q
          → Q fetch_request (fetch e u db c uuid).response
      go none h = ground (arith, h, closed, holds.fetched [] none)
      go (some rows) h =
          let batch = create_batch e (max_chunks_per_batch e u db) db rows in
          ground (
            arith,
            h,
            closed,
            error_response_of-Holds fetch_request (e.error_object rows),
            respond_batch-Holds fetch_request batch c
                (record c { next_batch_index = (c.next_batch_index + 1) % 2 ^ 64 }) _
                (holds.fetched batch.results (some c.next_batch_index)),
          )

  pub append-Holds :
      (db : e.Db) (c : QuackConnection e) (schema_name table_name : Bytes) (chunk : Option e.Chunk)
      → Q append_request (append e u db c schema_name table_name chunk).response
  unfolding append
  append-Holds db c schema_name table_name chunk =
      found (e.table_info db c.duckdb_connection schema_name table_name).2 refl
    where
      found :
          (table : Option e.Table)
          → (e.table_info db c.duckdb_connection schema_name table_name).2 ≡ table
          → Q append_request (append e u db c schema_name table_name chunk).response
      found none e1 = rw (e1, append) (error_text-Holds append_request _)
      found (some info) e1 =
          let (db1, conn, table) = e.table_info db c.duckdb_connection schema_name table_name in
          rw (e1, append) (answered (e.append db1 conn info chunk).2)
        where
          answered :
              (failure : Option ErrorData)
              → Q append_request (elim failure [
                | none ↦ message [] success_body
                | some error ↦ error_response_of e u error
              ])
          answered none = holds.appended
          answered (some error) = error_response_of-Holds append_request error
