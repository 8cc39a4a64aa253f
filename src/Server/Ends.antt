-- ===== src/Server/Ends.antt =====
-- The end of a session: a client can end it in every state that the server reaches.
use duckdb_quack.Prelude.{
  ℕ, ◌-◌, Bool, true, false, [], Bytes, none, some, Result, ok, ◌≡◌, refl, sym, ◌∙◌, subst, same,
  if◌then◌else◌,
}
use duckdb_quack.Text.StringUtil.{StringUtil}
use duckdb_quack.Uri.Parse.{QuackUri}
use duckdb_quack.Message.Types.{message, body_type, disconnect_body, success_body}
use duckdb_quack.Message.Enum.{to_chars}
use duckdb_quack.Message.Serializer.{Serializer, SerializerLaws}
use duckdb_quack.Message.Wire.{to_memory_stream, deserialize_message, serialize}
use duckdb_quack.Message.RoundTrip.{
  deserialize_header-serialize_header, deserialize_message-serialize,
}
use duckdb_quack.Server.Engine.{Engine}
use duckdb_quack.Server.State.{QuackConnection, QuackServer, continue, done, ◌>>◌}
use duckdb_quack.Server.Requests.{Message, server_supports_message, message_requires_connection}
use duckdb_quack.Server.Handle.{
  handle_message, handle_message_internal, handle_disconnect, process, write_log, obtain_connection,
}
use duckdb_quack.Server.Log.{construct_log_message}
use duckdb_quack.Server.Sessions.{new_server, get_connection}
use duckdb_quack.Server.Safety.{session, handle_disconnect_lem}
use duckdb_quack.Server.Runs.{Run, sessions-IsAuthenticated}
use duckdb_quack.Server.Gate.{handle_message_open}

module _ (e : Engine) (u : StringUtil) {S : Type 0} (z : Serializer S e.Chunk e.Logical) where
  -- The message is answered by success, and the session is the only one that is gone.
  abbrev pub HasEnded : Bytes → QuackServer e → Result (Message e u) × QuackServer e → Type 0
  HasEnded id s r =
      (r.0 ≡ ok (message [] success_body))
      × ((k : Bytes) → session e u k r.1 ≡ (if same id k then none else session e u k s))

  -- What `process` does behind the handler; the log entry leaves the table of sessions.
  abbrev finish :
      Bool → ℕ → Bytes → Result (Message e u) × QuackServer e → Result (Message e u) × QuackServer e
  finish logged duration id r = continue r (λ response.
      (if logged then write_log e u duration (message id disconnect_body) response else done tt)
      >> done response)

  finish-HasEnded :
      (logged : Bool) (duration : ℕ) (id : Bytes) (s : QuackServer e)
      (r : Result (Message e u) × QuackServer e)
      → HasEnded id s r
      → HasEnded id s (finish logged duration id r)
  unfolding write_log construct_log_message message body_type to_chars
  finish-HasEnded logged duration id s (a, after) (answered, gone) =
      subst (λ a1. HasEnded id s (finish logged duration id (a1, after))) (sym answered)
        (ended logged)
    where
      ended :
          (b : Bool) → HasEnded id s (finish b duration id (ok (message [] success_body), after))
      ended false = (refl, gone)
      ended true = (refl, gone)

  processed :
      (logged : Bool) (duration : ℕ) (id : Bytes) (c : QuackConnection e) (s : QuackServer e)
      (stream rest : S)
      → let m = message id disconnect_body in
        deserialize_message z m.header stream ≡ ok (m, rest)
        → process e u z duration logged (some c) m.header stream s
          ≡ finish logged duration id (handle_disconnect e u c s)
  unfolding process handle_message_internal message
  processed logged duration id c s stream rest read = rw read refl

  module _ (laws : SerializerLaws z) where
    handled :
        (start end : ℕ) (id : Bytes) (c : QuackConnection e) (s : QuackServer e) (tail : S)
        → s.db_closed ≡ false
        → session e u id s ≡ some c
        → handle_message e u z start end (to_memory_stream z (message id disconnect_body) tail) s
          ≡ finish (e.should_log s.db) (end - start) id (handle_disconnect e u c s)
    unfolding to_memory_stream obtain_connection get_connection message body_type
        server_supports_message message_requires_connection
    handled start end id c s tail fresh there =
        let m : Message e u = message id disconnect_body in
        let body = z.write_begin (serialize z m.body (z.write_end tail)) in
        handle_message_open e u z start end _ body m.header s fresh
          (deserialize_header-serialize_header z laws m.header body)
        ∙ rw there (
            processed (e.should_log s.db) (end - start) id c s body tail
              (deserialize_message-serialize z laws m.header m.body tail refl))

    -- Of a server that was made by the constructor, in every state after any sequence of messages
    -- and of changes of the database in which the database is open: the disconnect message of a
    -- session that is there, logged or not, is answered by success, and afterwards this session
    -- is gone and all others are as before.
    pub disconnect_ends :
        (db : e.Db) (uri : QuackUri) (token id : Bytes) (s t : QuackServer e)
        (c : QuackConnection e) (start end : ℕ) (tail : S)
        → new_server e db uri token ≡ ok s
        → Run e u z s t
        → t.db_closed ≡ false
        → session e u id t ≡ some c
        → HasEnded id t (
            handle_message e u z start end (to_memory_stream z (message id disconnect_body) tail) t)
    disconnect_ends db uri token id s t c start end tail made run fresh there =
        subst (HasEnded id t) (sym (handled start end id c t tail fresh there)) (
          finish-HasEnded (e.should_log t.db) (end - start) id t (handle_disconnect e u c t) (
            handle_disconnect_lem e u id c t there (λ k d known.
              (sessions-IsAuthenticated e u z db uri token s t k d run made known).0)))
