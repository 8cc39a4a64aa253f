-- ===== src/Server/Runs.antt =====
-- A server over any sequence of messages, with the database changing in between.
use duckdb_quack.Prelude.{
  ℕ, Bool, Bytes, none, some, ok, ◌≡◌, ◌⊎◌, inl, inr, Option-cases, arith, lookup,
}
use duckdb_quack.Text.StringUtil.{StringUtil}
use duckdb_quack.Uri.Parse.{QuackUri}
use duckdb_quack.Message.Serializer.{Serializer}
use duckdb_quack.Server.Engine.{Engine}
use duckdb_quack.Server.State.{QuackConnection, QuackServer}
use duckdb_quack.Server.Handle.{handle_message, handle_message_internal}
use duckdb_quack.Server.Sessions.{new_server, validate_token}
use duckdb_quack.Server.Outcome.{dispatch-Outcome}
use duckdb_quack.Server.Safety.{session, IsKeyed, IsAuthenticated, Outcome-opens, Outcome-IsKeyed}
use duckdb_quack.Server.Reach.{handle_message_reach}

module _ (e : Engine) (u : StringUtil) {S : Type 0} (z : Serializer S e.Chunk e.Logical) where
  -- `handled` is a request that has reached the server, and `elsewhere` what the database instance
  -- does on its own, its end included.
  pub data Run (start_state : QuackServer e) : QuackServer e → Type 0 where
    started : Run start_state start_state
    handled :
        (s : QuackServer e) (start end : ℕ) (stream : S)
        → Run start_state s
        → Run start_state (handle_message e u z start end stream s).1
    elsewhere :
        (s : QuackServer e) (db : e.Db) (closed : Bool)
        → Run start_state s
        → Run start_state (record s { db = db; db_closed = closed })

  handle_message-IsKeyed :
      (start end : ℕ) (stream : S) (s : QuackServer e)
      → IsKeyed e u s
      → IsKeyed e u (handle_message e u z start end stream s).1
  unfolding handle_message_internal
  handle_message-IsKeyed start end stream s keyed =
      elim (handle_message_reach e u z start end stream s) [
        | inl kept ↦ λ k c h. keyed k c (rw⁻¹ kept h)
        | inr (m, connection, known, step) ↦ λ k c h.
            Outcome-IsKeyed e u m.header.connection_id m.header.type connection s _
              (dispatch-Outcome e u m.header.connection_id m.header.type connection m.body s) known
              keyed k c (rw⁻¹ step h)
      ]

  -- If a session is there after HandleMessage that was not there before, the authentication
  -- callback gives true for its id in the state before, but for the random generator.
  pub handle_message_opens :
      (start end : ℕ) (stream : S) (s : QuackServer e) (k : Bytes) (c : QuackConnection e)
      → session e u k s ≡ none
      → session e u k (handle_message e u z start end stream s).1 ≡ some c
      → IsAuthenticated e u s k
  unfolding handle_message_internal
  handle_message_opens start end stream s k c before after =
      elim (handle_message_reach e u z start end stream s) [
        | inl kept ↦ cc
        | inr (m, connection, known, step) ↦
            (Outcome-opens e u m.header.connection_id m.header.type connection s _ k c
              (dispatch-Outcome e u m.header.connection_id m.header.type connection m.body s) known
              before (rw⁻¹ step after)).1
      ]

  Run-IsKeyed : (s t : QuackServer e) → Run s t → IsKeyed e u s → IsKeyed e u t
  Run-IsKeyed s _ started keyed = keyed
  Run-IsKeyed s _ (handled t start end stream run) keyed =
      handle_message-IsKeyed start end stream t (Run-IsKeyed s t run keyed)
  Run-IsKeyed s _ (elsewhere t db closed run) keyed = Run-IsKeyed s t run keyed

  -- Along the run a message finds no session of the id and opens one, in a state in which the
  -- authentication callback gives true for the id.
  abbrev pub OpenedIn : (s t : QuackServer e) → Run s t → Bytes → Type 0
  OpenedIn s _ started k = ⊥
  OpenedIn s _ (handled t start end stream run) k =
      ((session e u k t ≡ none)
        × IsAuthenticated e u t k
        × ((c : QuackConnection e) × (session e u k (handle_message e u z start end stream t).1
              ≡ some c)))
      ⊎ OpenedIn s t run k
  OpenedIn s _ (elsewhere t db closed run) k = OpenedIn s t run k

  Run-OpenedIn :
      (s t : QuackServer e) (k : Bytes) (c : QuackConnection e) (run : Run s t)
      → session e u k s ≡ none
      → session e u k t ≡ some c
      → OpenedIn s t run k
  Run-OpenedIn s _ k c started before after = cc
  Run-OpenedIn s _ k c (handled t start end stream run) before after =
      elim (Option-cases (session e u k t)) [
        | inl none_yet ↦
            inl (none_yet, handle_message_opens start end stream t k c none_yet after, (c, after))
        | inr (d, there) ↦ inr (Run-OpenedIn s t k d run before there)
      ]
  Run-OpenedIn s _ k c (elsewhere t db closed run) before after =
      Run-OpenedIn s t k c run before after

  new_server_empty :
      (db : e.Db) (uri : QuackUri) (token : Bytes) (s : QuackServer e) (k : Bytes)
      → new_server e db uri token ≡ ok s
      → session e u k s ≡ none
  unfolding new_server validate_token lookup
  new_server_empty db uri token s k h = ground arith

  -- Of a server that was made by the constructor, after any sequence of messages and of changes
  -- or the end of the database, every session is filed under its own session id, and one of the
  -- messages of this sequence opened a session of this id, which was not there before it, in a
  -- state in which the authentication callback gives true for this id, some authentication text
  -- and some random generator.
  pub sessions-IsAuthenticated :
      (db : e.Db) (uri : QuackUri) (token : Bytes) (s t : QuackServer e) (k : Bytes)
      (c : QuackConnection e) (run : Run s t)
      → new_server e db uri token ≡ ok s
      → session e u k t ≡ some c
      → (c.session_id ≡ k) × OpenedIn s t run k
  sessions-IsAuthenticated db uri token s t k c run made there =
      let empty : (j : Bytes) → session e u j s ≡ none =
        λ j. new_server_empty db uri token s j made in
      (
        Run-IsKeyed s t run (λ j d h. cc (empty j)) k c there,
        Run-OpenedIn s t k c run (empty k) there,
      )
