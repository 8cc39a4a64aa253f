-- ===== src/Message/Tests.antt =====
-- The theorems on messages at concrete inputs.
use duckdb_quack.Prelude.{ℕ, [], ◌∷◌, codes, some, ok, ◌≡◌, refl}
use duckdb_quack.Message.Types.{QuackMessage, fetch_response_body, fetch_response, body_type}
use duckdb_quack.Message.Tokens.{tokens, tokens_laws}
use duckdb_quack.Message.Wire.{from_memory_stream, to_memory_stream}
use duckdb_quack.Message.RoundTrip.{from_memory_stream-to_memory_stream}

abbrev batch : QuackMessage ℕ ℕ
batch = record {
  header = record { type = fetch_response; connection_id = codes "s"; client_query_id = some 5 };
  body = fetch_response_body (8 ∷ 9 ∷ []) (some 2);
}

from_memory_stream-to_memory_stream_example :
    from_memory_stream tokens (to_memory_stream tokens batch []) ≡ ok (batch, [])
unfolding body_type
from_memory_stream-to_memory_stream_example =
    from_memory_stream-to_memory_stream tokens tokens_laws batch [] refl
