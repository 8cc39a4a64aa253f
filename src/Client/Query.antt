-- ===== src/Client/Query.antt =====
-- The query identifier that a client means to send.
use duckdb_quack.Prelude.{ℕ, ◌-◌, true, Option, some, ok, err, ◌≡◌, refl, arith, Bool-cases}
use duckdb_quack.Message.Types.{QuackMessage}
use duckdb_quack.Message.Serializer.{Serializer}
use duckdb_quack.Message.Wire.{from_memory_stream}
use duckdb_quack.Server.Log.{construct_log_message}
use duckdb_quack.Client.Host.{Host, HttpAnswer, Context, thrown, no_response, failure, success}
use duckdb_quack.Client.Request.{HttpsQuackClient, request_internal, receive, log_request, Answer}

module _ {S C T : Type 0} (h : Host S) where
  log_request_query :
      (d : ℕ) (q r : Option ℕ) (m response : QuackMessage C T) (client : HttpsQuackClient h)
      (w : h.World)
      → (log_request h d
          (some (record { has_active_transaction = true; active_query = q }))
          m
          response
          client
          w).0
        ≡ (log_request h d
            (some (record { has_active_transaction = true; active_query = r }))
            m
            response
            client
            w).0
  unfolding log_request construct_log_message
  log_request_query d q r m response client w = ground (arith, Bool-cases (h.should_log w))

module _ {S C T : Type 0} (h : Host S) (z : Serializer S C T) where
  -- A context in a transaction that executes this query.
  abbrev pub executing : Option ℕ → Option Context
  executing query = some (record { has_active_transaction = true; active_query = query })

  receive_query :
      (d : ℕ) (q r : Option ℕ) (m : QuackMessage C T) (client : HttpsQuackClient h)
      (a : HttpAnswer S) (w : h.World)
      → (receive h z d (executing q) m client a w).0 ≡ (receive h z d (executing r) m client a w).0
  unfolding receive
  receive_query d q r m client (thrown text) w = refl
  receive_query d q r m client no_response w = refl
  receive_query d q r m client (failure text) w = refl
  receive_query d q r m client (success body) w =
      elim (from_memory_stream z body)
        as (λ x.
          (elim x as (λ _. Answer h (QuackMessage C T)) [
            | err y ↦ (err y, client, w)
            | ok (response, rest) ↦ log_request h d (executing q) m response client w
          ]).0
          ≡ (elim x as (λ _. Answer h (QuackMessage C T)) [
            | err y ↦ (err y, client, w)
            | ok (response, rest) ↦ log_request h d (executing r) m response client w
          ]).0) [
            | err y ↦ refl
            | ok (response, rest) ↦ log_request_query h d q r m response client w
          ]

  -- In a transaction, what RequestInternal returns or throws does not depend on the query
  -- identifier of the context.
  pub request_internal_query :
      (start end : ℕ) (q r : Option ℕ) (m : QuackMessage C T) (client : HttpsQuackClient h)
      (w : h.World)
      → (request_internal h z start end (executing q) m client w).0
        ≡ (request_internal h z start end (executing r) m client w).0
  unfolding request_internal
  request_internal_query start end q r m client w = receive_query (end - start) q r m _ _ _
