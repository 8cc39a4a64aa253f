-- ===== src/Server/Safety.antt =====
-- Which sessions a message can open, change and close.
use duckdb_quack.Prelude.{
  true, [], Bytes, Option, none, some, Result, ok, ◌≡◌, ◌≢◌, refl, sym, subst, ap, ◌∙◌, inl, inr,
  Bool-cases, arith, lookup, same, same_iff, lookup-insert, lookup-remove, if◌then◌else◌,
}
use duckdb_quack.Text.StringUtil.{StringUtil}
use duckdb_quack.Message.Types.{MessageType, message, connection_request, success_body}
use duckdb_quack.Server.Engine.{Engine}
use duckdb_quack.Server.State.{QuackConnection, QuackServer}
use duckdb_quack.Server.Requests.{Message}
use duckdb_quack.Server.Handle.{authenticate, handle_message_internal, handle_disconnect}
use duckdb_quack.Server.Sessions.{new_connection, disconnect_connection}
use duckdb_quack.Server.Outcome.{Outcome, refused, accepted, stored, dropped, dispatch-Outcome}

module _ (e : Engine) (u : StringUtil) where
  abbrev pub session : Bytes → QuackServer e → Option (QuackConnection e)
  session k s = lookup k s.active_connections

  -- The connection object handed to the handler is the one of the table.
  abbrev pub IsKnown : QuackServer e → Bytes → Option (QuackConnection e) → Type 0
  IsKnown s id connection = (c : QuackConnection e) → connection ≡ some c → session id s ≡ some c

  -- Every connection object is filed under its own session id.
  abbrev pub IsKeyed : QuackServer e → Type 0
  IsKeyed s = (k : Bytes) (c : QuackConnection e) → session k s ≡ some c → c.session_id ≡ k

  -- The authentication callback has given true for this session id.
  abbrev pub IsAuthenticated : QuackServer e → Bytes → Type 0
  IsAuthenticated s k =
      (auth_string : Bytes) × (rng : Option e.Rng) × ((authenticate e u k auth_string
          (record s { session_id_rng = rng })).0
        ≡ ok true)

  pub Outcome-opens :
      (id : Bytes) (type : MessageType) (connection : Option (QuackConnection e))
      (s : QuackServer e) (r : Result (Message e u) × QuackServer e) (k : Bytes)
      (c : QuackConnection e)
      → Outcome e u id type connection s r
      → IsKnown s id connection
      → session k s ≡ none
      → session k r.1 ≡ some c
      → (type ≡ connection_request) × IsAuthenticated s k
  Outcome-opens id type connection s r k c (refused _ _ _) known before after = cc
  Outcome-opens id type connection s r k c (accepted sid auth db rng t yes_) known before after =
      let after' = lookup-insert sid k (new_connection e db sid) s.active_connections in
      elim (Bool-cases (same sid k)) [
        | inl e1 ↦
            let found = (same_iff sid k).0 e1 in
            (
              t,
              (
                auth,
                rng,
                subst
                    (λ v. (authenticate e u v auth (record s { session_id_rng = rng })).0 ≡ ok true)
                    found yes_,
              ),
            )
        | inr e1 ↦ cc (rw (after', e1) at after)
      ]
  Outcome-opens id type connection s r k c (stored old h here kept) known before after =
      let after' = lookup-insert id k h.connection s.active_connections in
      elim (Bool-cases (same id k)) [
        | inl e1 ↦ cc (known old here, (same_iff id k).0 e1)
        | inr e1 ↦ cc (rw (after', e1) at after)
      ]
  Outcome-opens id type connection s r k c (dropped old _ here) known before after =
      ground (arith, lookup-remove old.session_id k s.active_connections)

  pub Outcome-IsKeyed :
      (id : Bytes) (type : MessageType) (connection : Option (QuackConnection e))
      (s : QuackServer e) (r : Result (Message e u) × QuackServer e)
      → Outcome e u id type connection s r
      → IsKnown s id connection
      → IsKeyed s
      → IsKeyed r.1
  unfolding new_connection
  Outcome-IsKeyed id type connection s r (refused _ _ _) known keyed k c h = keyed k c h
  Outcome-IsKeyed id type connection s r (accepted sid auth db rng t yes_) known keyed k c h =
      ground (
        arith,
        lookup-insert sid k (new_connection e db sid) s.active_connections,
        same_iff sid k,
        keyed k c,
      )
  Outcome-IsKeyed id type connection s r (stored old new here kept) known keyed k c h = ground (
    arith,
    lookup-insert id k new.connection s.active_connections,
    same_iff id k,
    keyed k c,
    known old here,
    keyed id old,
  )
  Outcome-IsKeyed id type connection s r (dropped old _ here) known keyed k c h =
      ground (arith, lookup-remove old.session_id k s.active_connections, keyed k c)

  -- A message on one session, other than a connection request, leaves every other session alone.
  pub Outcome-isolates :
      (id : Bytes) (type : MessageType) (connection : Option (QuackConnection e))
      (s : QuackServer e) (r : Result (Message e u) × QuackServer e)
      → Outcome e u id type connection s r
      → type ≢ connection_request
      → IsKnown s id connection
      → IsKeyed s
      → (k : Bytes) → k ≢ id
      → session k r.1 ≡ session k s
  Outcome-isolates id type connection s r (refused _ _ _) other known keyed k ne = refl
  Outcome-isolates id type connection s r (accepted _ _ _ _ t _) other known keyed k ne =
      absurd (other t)
  Outcome-isolates id type connection s r (stored old h here kept) other known keyed k ne =
      ground (arith, lookup-insert id k h.connection s.active_connections, same_iff id k, ne)
  Outcome-isolates id type connection s r (dropped old _ here) other known keyed k ne = ground (
    arith,
    lookup-remove old.session_id k s.active_connections,
    same_iff old.session_id k,
    keyed id old,
    known old here,
  )

  -- HandleMessageInternal on a message other than a connection request, given the connection
  -- object that the table has under the id of the message, where every object is filed under its
  -- own id, leaves every session with another id as it was, whatever it answers.
  pub handle_message_internal_isolates :
      (m : Message e u) (connection : Option (QuackConnection e)) (s : QuackServer e)
      → m.header.type ≢ connection_request
      → IsKnown s m.header.connection_id connection
      → IsKeyed s
      → (k : Bytes) → k ≢ m.header.connection_id
      → session k (handle_message_internal e u connection m s).1 ≡ session k s
  unfolding handle_message_internal
  handle_message_internal_isolates m connection s =
      Outcome-isolates m.header.connection_id m.header.type connection s _
        (dispatch-Outcome e u m.header.connection_id m.header.type connection m.body s)

  -- The disconnect of a session that the table has, where every object is filed under its own id,
  -- succeeds, removes this session and keeps all others.
  pub handle_disconnect_lem :
      (id : Bytes) (c : QuackConnection e) (s : QuackServer e)
      → session id s ≡ some c
      → IsKeyed s
      → let (answer, after) = handle_disconnect e u c s in
        (answer ≡ ok (message [] success_body))
        × ((k : Bytes) → session k after ≡ (if same id k then none else session k s))
  unfolding handle_disconnect disconnect_connection
  handle_disconnect_lem id c s known keyed =
      let filed : c.session_id ≡ id = keyed id c known in
      let known' : lookup c.session_id s.active_connections ≡ some c =
        subst (λ v. session v s ≡ some c) (sym filed) known in
      rw (known', handle_disconnect, disconnect_connection)
        (
          refl,
          λ k.
              lookup-remove c.session_id k s.active_connections
              ∙ ap (λ v. if same v k then none else session k s) filed,
        )
