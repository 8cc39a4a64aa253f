-- ===== src/Server/Reach.antt =====
-- The sessions after `HandleMessage`, and after any sequence of messages.
use duckdb_quack.Prelude.{
  ℕ, ◌-◌, Bool, true, false, Option, Result, ok, err, ◌≡◌, refl, sym, ap, ◌∙◌, inl, inr, ◌⊎◌,
  Bool-cases, arith, if◌then◌else◌, ◌&&◌, subst, >>=-eq-ok,
}
use duckdb_quack.Text.StringUtil.{StringUtil}
use duckdb_quack.Message.Types.{MessageHeader, set_header}
use duckdb_quack.Message.Serializer.{Serializer}
use duckdb_quack.Message.Wire.{deserialize_header, deserialize_message}
use duckdb_quack.Server.Engine.{Engine}
use duckdb_quack.Server.State.{QuackConnection, QuackServer, continue, done, ◌>>◌}
use duckdb_quack.Server.Requests.{Message, server_supports_message, message_requires_connection}
use duckdb_quack.Server.Handle.{
  handle_message, handle_message_internal, obtain_connection, process, write_log, is_missing,
}
use duckdb_quack.Server.Sessions.{get_connection}
use duckdb_quack.Server.Safety.{IsKnown}
use duckdb_quack.Server.Gate.{gate, handle_message_open}

module _ (e : Engine) (u : StringUtil) {S : Type 0} (z : Serializer S e.Chunk e.Logical) where
  deserialize_message-header :
      (header : MessageHeader) (stream : S) (m : Message e u) (rest : S)
      → deserialize_message z header stream ≡ ok (m, rest)
      → m.header ≡ header
  unfolding deserialize_message set_header
  deserialize_message-header header stream m rest h =
      let (s1, h1, h2) = >>=-eq-ok (z.read_begin stream) _ h in ground (arith, h2)

  write_log_sessions :
      (duration : ℕ) (request response : Message e u) (s : QuackServer e)
      → (write_log e u duration request response s).1.active_connections ≡ s.active_connections
  unfolding write_log
  write_log_sessions duration request response s = ground arith

  -- `HandleMessageInternal` has led from one server to the other,
  -- but for the log.
  abbrev pub IsHandled : QuackServer e → QuackServer e → Type 0
  IsHandled s after =
      (m : Message e u) × (connection : Option (QuackConnection e)) × IsKnown e u s
        m.header.connection_id connection
      × (after.active_connections
          ≡ (handle_message_internal e u connection m s).1.active_connections)

  then_done :
      (response : Message e u) (w : Result (Unit {0}) × QuackServer e)
      → (continue w (λ _. done response)).1 ≡ w.1
  then_done response (ok _, s) = refl
  then_done response (err x, s) = refl

  logged_sessions :
      (duration : ℕ) (logged : Bool) (m : Message e u) (r : Result (Message e u) × QuackServer e)
      → (continue r (λ response.
          (if logged then write_log e u duration m response else done tt)
          >> done response)).1.active_connections
        ≡ r.1.active_connections
  logged_sessions duration true m (ok response, s) =
      ap (λ t. t.active_connections) (then_done response (write_log e u duration m response s))
      ∙ write_log_sessions duration m response s
  logged_sessions duration false m (ok response, s) = refl
  logged_sessions duration logged m (err x, s) = refl

  process_reach :
      (duration : ℕ) (logged : Bool) (connection : Option (QuackConnection e))
      (header : MessageHeader) (stream : S) (s : QuackServer e)
      → IsKnown e u s header.connection_id connection
      → let after = (process e u z duration logged connection header stream s).1 in
        (after.active_connections ≡ s.active_connections) ⊎ IsHandled s after
  unfolding process
  process_reach duration logged connection header stream s known =
      read (deserialize_message z header stream) refl
    where
      read :
          (r : Result (Message e u × S))
          → deserialize_message z header stream ≡ r
          → let after = (process e u z duration logged connection header stream s).1 in
            (after.active_connections ≡ s.active_connections) ⊎ IsHandled s after
      read (err x) h = rw (h, process) (inl refl)
      read (ok (m, rest)) h =
          rw (h, process)
            (inr (
              m,
              connection,
              subst (λ v. IsKnown e u s v.connection_id connection)
                  (sym (deserialize_message-header header stream m rest h)) known,
              logged_sessions duration logged m (handle_message_internal e u connection m s),
            ))

  obtain_connection-IsKnown :
      (header : MessageHeader) (s : QuackServer e)
      → IsKnown e u s header.connection_id (obtain_connection e u z s header)
  unfolding obtain_connection get_connection
  obtain_connection-IsKnown header s c h = ground arith

  gate_reach :
      (duration : ℕ) (header : MessageHeader) (rest : S) (s : QuackServer e)
      → let after = (gate e u z duration header rest s).1 in
        (after.active_connections ≡ s.active_connections) ⊎ IsHandled s after
  gate_reach duration header rest s = elim (Bool-cases (server_supports_message header.type)) [
    | inr e1 ↦ rw e1 (inl refl)
    | inl e1 ↦
        elim (Bool-cases (
          message_requires_connection header.type
          && is_missing e u z (obtain_connection e u z s header))) [
            | inl e2 ↦ rw (e1, e2) (inl refl)
            | inr e2 ↦
                rw (e1, e2)
                  (process_reach duration (e.should_log s.db) (obtain_connection e u z s header)
                    header rest s (obtain_connection-IsKnown header s))
          ]
  ]

  pub handle_message_reach :
      (start end : ℕ) (stream : S) (s : QuackServer e)
      → let after = (handle_message e u z start end stream s).1 in
        (after.active_connections ≡ s.active_connections) ⊎ IsHandled s after
  unfolding handle_message
  handle_message_reach start end stream s = elim (Bool-cases s.db_closed) [
    | inl closed ↦ inl (ground (arith, closed))
    | inr fresh ↦ read fresh (deserialize_header z stream) refl
  ]
    where
      read :
          s.db_closed ≡ false
          → (r : Result (MessageHeader × S)) → deserialize_header z stream ≡ r
          → let after = (handle_message e u z start end stream s).1 in
            (after.active_connections ≡ s.active_connections) ⊎ IsHandled s after
      read fresh (err x) h = inl (ground (arith, fresh, h))
      read fresh (ok (header, rest)) h =
          rw (handle_message_open e u z start end stream rest header s fresh h)
            (gate_reach (end - start) header rest s)
