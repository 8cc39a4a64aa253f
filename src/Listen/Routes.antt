-- ===== src/Listen/Routes.antt =====
-- The routes of src/quack_http_server.cpp: what the server answers to an HTTP request.
use duckdb_quack.Prelude.{ℕ, List, [], ◌∷◌, Bytes, codes, Option, none, some, same, if◌then◌else◌}
use duckdb_quack.Text.StringUtil.{StringUtil}
use duckdb_quack.Message.Serializer.{Serializer}
use duckdb_quack.Message.Wire.{to_memory_stream}
use duckdb_quack.Server.Engine.{Engine}
use duckdb_quack.Server.State.{Method, ◌>>=◌, done}
use duckdb_quack.Server.Handle.{handle_message}

-- A new `MemoryStream`, and `WriteData` of a buffer at its end.
pub record MemoryStream (S B : Type 0) : Type 0 where
  pub blank : S
  pub write_data : S → B → S

-- What the handler leaves in `Response`, where `none` is the status that the library sets by itself.
pub data Content (S : Type 0) : Type 0 where
  no_content : Content S
  text : Bytes → (content_type : Bytes) → Content S
  stream : S → (content_type : Bytes) → Content S

pub record HttpResponse (S : Type 0) : Type 0 where
  pub headers : List (Bytes × Bytes)
  pub status : Option ℕ
  pub content : Content S

pub data HttpMethod : Type 0 where
  get options post : HttpMethod

unfoldable pub get_root : {S : Type 0} → HttpResponse S
get_root = record {
  headers = [];
  status = none;
  content =
      text (codes "This is a DuckDB Quack RPC endpoint. Use ATTACH 'quack:...' to connect here.\n")
        (codes "text/plain");
}

unfoldable pub options_quack : {S : Type 0} → HttpResponse S
options_quack = record {
  headers =
      (codes "Access-Control-Allow-Origin", codes "*")
      ∷ (codes "Access-Control-Allow-Methods", codes "GET, POST, OPTIONS")
      ∷ (codes "Access-Control-Allow-Headers", codes "*")
      ∷ [];
  status = some 204;
  content = no_content;
}

module _ {S B : Type 0} (b : MemoryStream S B) where
  -- The content reader hands the body over in pieces.
  unfoldable pub read_content : List B → S → S
  read_content [] s = s
  read_content (piece ∷ pieces) s = read_content pieces (b.write_data s piece)

module _ (e : Engine) (u : StringUtil) {S B : Type 0} (z : Serializer S e.Chunk e.Logical)
    (b : MemoryStream S B) where
  -- The POST of a message; an exception of the handler passes on to the library.
  unfoldable pub post_quack : ℕ → ℕ → List B → Method e (HttpResponse S)
  unfolding read_content
  post_quack start end pieces =
      handle_message e u z start end (read_content b pieces b.blank) >>= λ response. done (record {
        headers = (codes "Access-Control-Allow-Origin", codes "*") ∷ [];
        status = none;
        content = stream (to_memory_stream z response b.blank) (codes "application/duckdb");
      })

  -- The routes, by method and path; `none` is what the library answers where there is no route.
  unfoldable pub route : ℕ → ℕ → HttpMethod → Bytes → List B → Method e (Option (HttpResponse S))
  unfolding post_quack get_root options_quack
  route start end get path pieces = done (if same path (codes "/") then some get_root else none)
  route start end options path pieces =
      done (if same path (codes "/quack") then some options_quack else none)
  route start end post path pieces =
      if same path (codes "/quack")
      then (post_quack start end pieces >>= λ response. done (some response))
      else done none
