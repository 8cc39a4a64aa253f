-- ===== src/Message/RoundTrip.antt =====
-- What a receiver reads of a message that was written to a stream.
use duckdb_quack.Prelude.{ℕ, true, ok, ◌≡◌, refl, arith}
use duckdb_quack.Message.Types.{
  MessageHeader, QuackMessage, Body, invalid_input_error, body_type, prepare_request_body,
  prepare_response_body, connection_request_body, connection_response_body, fetch_request_body,
  fetch_response_body, append_request_body, disconnect_body, success_body, error_body, set_header,
  message,
}
use duckdb_quack.Message.Serializer.{Serializer, SerializerLaws}
use duckdb_quack.Message.Wire.{
  serialize_header, deserialize_message_header, serialize, deserialize, deserialize_header,
  deserialize_message, to_memory_stream, from_memory_stream, deserialize_append_request,
  deserialize_connection_request, deserialize_connection_response, deserialize_error_response,
  deserialize_fetch_request, deserialize_fetch_response, deserialize_prepare_request,
  deserialize_prepare_response, deserialize_disconnect, deserialize_success,
}

-- All of a body but the class of an error, which becomes INVALID_INPUT.
abbrev pub received : {C T : Type 0} → Body C T → Body C T
received (error_body e) = error_body (record e { type = invalid_input_error })
received b = b

-- The header's type is that of the message's class, as every constructor sets it.
abbrev pub IsTyped : {C T : Type 0} → QuackMessage C T → Type 0
IsTyped m = m.header.type ≡ body_type m.body

module _ {S C T : Type 0} (z : Serializer S C T) (laws : SerializerLaws z) where
  open laws use {
    ahead, ahead-write_end, read_begin-write_begin, read_end-write_end, text_laws, index_laws,
    huge_laws, opt_index_laws, type_code_laws, flag_laws, chunks_laws, chunk_laws, types_laws,
    names_laws,
  }

  deserialize-serialize :
      (b : Body C T) (s : S)
      → ((n : ℕ) → ahead n s ≡ true)
      → deserialize z (body_type b) (serialize z b s) ≡ ok (received b, s)
  unfolding deserialize serialize body_type
  deserialize-serialize (append_request_body a b c) s end =
      let a2 = chunk_laws.ahead-write_default 2 3 c s (omega arith) (end 3) in
      let a1 = text_laws.ahead-write_default 1 2 b _ (omega arith) a2 in
      unfold deserialize_append_request in
      rw (
        text_laws.read_default-write_default 1 a _ a1,
        text_laws.read_default-write_default 2 b _ a2,
        chunk_laws.read_default-write_default 3 c s (end 3),
      )
  deserialize-serialize disconnect_body s end = unfold deserialize_disconnect in refl
  deserialize-serialize success_body s end = unfold deserialize_success in refl
  deserialize-serialize (error_body e) s end =
      unfold deserialize_error_response in
      rw (text_laws.read_default-write_default 1 e.raw_message s (end 1))
  deserialize-serialize (prepare_request_body q) s end =
      unfold deserialize_prepare_request in rw (text_laws.read_default-write_default 1 q s (end 1))
  deserialize-serialize (fetch_request_body u) s end =
      unfold deserialize_fetch_request in rw (huge_laws.read-write 1 u s)
  deserialize-serialize (fetch_response_body r b) s end =
      let a1 = opt_index_laws.ahead-write 1 2 b s (omega arith) in
      unfold deserialize_fetch_response in
      rw (chunks_laws.read_default-write_default 1 r _ a1, opt_index_laws.read-write 2 b s)
  deserialize-serialize (connection_response_body v p q) s end =
      let a2 = index_laws.ahead-write_default 2 3 q s (omega arith) (end 3) in
      let a1 = text_laws.ahead-write_default 1 2 p _ (omega arith) a2 in
      unfold deserialize_connection_response in
      rw (
        text_laws.read_default-write_default 1 v _ a1,
        text_laws.read_default-write_default 2 p _ a2,
        index_laws.read_default-write_default 3 q s (end 3),
      )
  deserialize-serialize (connection_request_body a v p l h) s end =
      let a4 = index_laws.ahead-write_default 4 5 h s (omega arith) (end 5) in
      let a3 = index_laws.ahead-write_default 3 4 l _ (omega arith) a4 in
      let a2 = text_laws.ahead-write_default 2 3 p _ (omega arith) a3 in
      let a1 = text_laws.ahead-write_default 1 2 v _ (omega arith) a2 in
      unfold deserialize_connection_request in
      rw (
        text_laws.read_default-write_default 1 a _ a1,
        text_laws.read_default-write_default 2 v _ a2,
        text_laws.read_default-write_default 3 p _ a3,
        index_laws.read_default-write_default 4 l _ a4,
        index_laws.read_default-write_default 5 h s (end 5),
      )
  deserialize-serialize (prepare_response_body t n r m u) s end =
      let a4 = huge_laws.ahead-write 4 5 u s (omega arith) in
      let a3 = chunks_laws.ahead-write_default 3 4 r _ (omega arith) a4 in
      let a2 = flag_laws.ahead-write_default 2 3 m _ (omega arith) a3 in
      let a1 = names_laws.ahead-write_default 1 2 n _ (omega arith) a2 in
      unfold deserialize_prepare_response in
      rw (
        types_laws.read_default-write_default 1 t _ a1,
        names_laws.read_default-write_default 2 n _ a2,
        flag_laws.read_default-write_default 3 m _ a3,
        chunks_laws.read_default-write_default 4 r _ a4,
        huge_laws.read-write 5 u s,
      )

  pub deserialize_header-serialize_header :
      (h : MessageHeader) (s : S)
      → deserialize_header z (z.write_begin (serialize_header z h (z.write_end s))) ≡ ok (h, s)
  unfolding deserialize_header serialize_header deserialize_message_header
  deserialize_header-serialize_header h s =
      let s2 = z.opt_index.write 3 h.client_query_id (z.write_end s) in
      let s1 = z.text.write_default 2 h.connection_id s2 in
      rw (
        read_begin-write_begin (serialize_header z h (z.write_end s)),
        type_code_laws.read-write 1 h.type s1,
        text_laws.read_default-write_default 2 h.connection_id s2
            (opt_index_laws.ahead-write 2 3 h.client_query_id (z.write_end s) (omega arith)),
        opt_index_laws.read-write 3 h.client_query_id (z.write_end s),
        read_end-write_end s,
      )

  pub deserialize_message-serialize :
      (h : MessageHeader) (b : Body C T) (s : S)
      → h.type ≡ body_type b
      → deserialize_message z h (z.write_begin (serialize z b (z.write_end s)))
        ≡ ok (record { header = h; body = received b }, s)
  unfolding deserialize_message set_header message
  deserialize_message-serialize h b s e = rw (
    read_begin-write_begin (serialize z b (z.write_end s)),
    e,
    deserialize-serialize b (z.write_end s) (λ n. ahead-write_end n s),
    read_end-write_end s,
  )

  -- With a serializer that reads back its properties, a message whose header has the type of its
  -- class is read back from its stream, whatever follows it, but for the class of an error, which
  -- becomes INVALID_INPUT.
  pub from_memory_stream-to_memory_stream :
      (m : QuackMessage C T) (s : S)
      → IsTyped m
      → from_memory_stream z (to_memory_stream z m s) ≡ ok (record m { body = received m.body }, s)
  unfolding from_memory_stream to_memory_stream
  from_memory_stream-to_memory_stream m s typed = rw (
    deserialize_header-serialize_header m.header _,
    deserialize_message-serialize m.header m.body s typed,
  )
