-- ===== src/Client/Laws.antt =====
-- What a request sends and returns, and the cache of clients.
use duckdb_quack.Prelude.{
  ℕ, ◌≤◌, ◌<◌, false, List, [], ◌∷◌, ◌++◌, Option, some, ok, err, ◌≡◌, ◌≢◌, refl, ap, ◌∙◌, length,
  length-append, arith, ◌==◌, ==_iff, foreign, lt→ltb,
}
use duckdb_quack.Message.Types.{
  MessageType, QuackMessage, error_body, error_response, type_value, body_type, ErrorData,
  invalid_input_error,
}
use duckdb_quack.Message.Serializer.{Serializer, SerializerLaws}
use duckdb_quack.Message.Wire.{to_memory_stream}
use duckdb_quack.Message.RoundTrip.{IsTyped, received, from_memory_stream-to_memory_stream}
use duckdb_quack.Client.Host.{Host, success, Context}
use duckdb_quack.Client.Request.{
  HttpsQuackClient, params_of, request_url, log_request, receive, request_internal, expect, request,
}
use duckdb_quack.Client.Pool.{QuackClientConnection, pop_back, store_client, get_client}

pop_back-append : {A : Type 0} (xs : List A) (x : A) → pop_back (xs ++ x ∷ []) ≡ some (xs, x)
unfolding pop_back
pop_back-append [] x = refl
pop_back-append (y ∷ xs) x = rw (pop_back-append xs x)

module _ {S : Type 0} (h : Host S) where
  abbrev pub IsWithin : QuackClientConnection h → Type 0
  IsWithin c = length c.cached_clients ≤ c.max_connections_cached

  store_room :
      (client : HttpsQuackClient h) (c : QuackClientConnection h)
      → length c.cached_clients < c.max_connections_cached
      → store_client h client c ≡ record c { cached_clients = c.cached_clients ++ client ∷ [] }
  unfolding store_client
  store_room client c room =
      simp (lt→ltb (length c.cached_clients) c.max_connections_cached room, store_client) refl

  -- StoreClient keeps the number of cached clients within the bound, and GetClient after it, if
  -- there was room, hands out the stored client and leaves the cache as it was.
  pub store_client_lem :
      (client : HttpsQuackClient h) (c : QuackClientConnection h) (w : h.World)
      → (IsWithin c → IsWithin (store_client h client c))
        × (length c.cached_clients < c.max_connections_cached
            → get_client h (store_client h client c) w ≡ (ok client, c, w))
  unfolding store_client get_client
  store_client_lem client c w = (
    λ within. ground (arith, length-append c.cached_clients (client ∷ [])),
    λ room.
        ap (λ v. get_client h v w) (store_room client c room)
        ∙ rw (get_client, pop_back-append c.cached_clients client) refl,
  )

module _ {C T : Type 0} where
  expect_same :
      (target : MessageType) (m : QuackMessage C T)
      → m.header.type ≡ target
      → expect target m ≡ ok m
  unfolding expect
  expect_same target m same_type =
      simp (same_type, (==_iff (type_value target) (type_value target)).1 refl, expect) refl

  pub expect_error :
      (target : MessageType) (m : QuackMessage C T) (error : ErrorData)
      → m.header.type ≡ error_response
      → m.body ≡ error_body error
      → type_value target ≢ 100
      → expect target m ≡ err (foreign error.raw_message)
  unfolding expect type_value
  expect_error target m error is_error body other =
      let differs : (100 == type_value target) ≡ false = ground arith in
      simp (is_error, body, differs, expect) refl

module _ {S C T : Type 0} (h : Host S) (z : Serializer S C T) (laws : SerializerLaws z) where
  -- If the POST of the stream of a request is answered by the stream of a well-typed response and
  -- nothing is logged, Request returns the response if its type is the one asked for, and throws
  -- the text of the error if it is an error response and no error response is asked for.
  pub request_lem :
      (target : MessageType) (start end : ℕ) (context : Option Context)
      (m response : QuackMessage C T) (client : HttpsQuackClient h) (w w1 : h.World) (tail : S)
      → h.post w
          (params_of h context w (request_url h client) client.http_params)
          (request_url h client)
          (to_memory_stream z m h.blank)
        ≡ (success (to_memory_stream z response tail), w1)
      → IsTyped response
      → h.should_log w1 ≡ false
      → let answer = (request h z target start end context m client w).0 in
        ((body_type response.body ≡ target)
          → answer ≡ ok (record response { body = received response.body }))
        × ((error : ErrorData)
            → response.body ≡ error_body error
            → type_value target ≢ 100
            → answer ≡ err (foreign error.raw_message))
  unfolding request request_internal receive log_request body_type
  request_lem target start end context m response client w w1 tail sent typed quiet =
      let read = from_memory_stream-to_memory_stream z laws response tail typed in
      let answered : (request h z target start end context m client w).0
          ≡ expect target (record response { body = received response.body }) =
        simp (sent, read, quiet, request, request_internal, receive, log_request) refl in
      (
        λ same_type. answered ∙ expect_same target _ (typed ∙ same_type),
        λ error is_error other.
            answered
            ∙ expect_error target _ (record error { type = invalid_input_error })
                (typed ∙ ap body_type is_error) (ap received is_error) other,
      )
