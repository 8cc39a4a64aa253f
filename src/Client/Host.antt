-- ===== src/Client/Host.antt =====
-- What a client uses of DuckDB: HTTP, the log, the secrets and the extensions.
use duckdb_quack.Prelude.{ℕ, Bool, Bytes, Option}
use duckdb_quack.Message.Types.{ErrorData}
use duckdb_quack.Server.Engine.{LogEntry}

-- How `HTTPUtil::Request` ends: with an exception, without a response, with one that is no
-- success, or with one whose body is a stream.
pub data HttpAnswer (S : Type 0) : Type 0 where
  thrown : (error_text : Bytes) → HttpAnswer S
  no_response : HttpAnswer S
  failure : (error_text : Bytes) → HttpAnswer S
  success : (body : S) → HttpAnswer S

-- `World` is the state of all that is outside the client; `blank` is a stream at its end.
pub record Host (S : Type 0) : Type 1 where
  pub World : Type 0
  pub Params : Type 0
  pub blank : S
  -- `HTTPUtil::InitializeParameters`, from the client context if the flag is set
  pub initialize_parameters : World → Bool → Bytes → Params
  -- `HTTPUtil::Request` of a POST
  pub post : World → Params → Bytes → S → HttpAnswer S × World
  pub should_log : World → Bool
  pub write_log : World → LogEntry → World
  -- the token of the secret that the secret manager finds for a URI
  pub lookup_secret : World → Bytes → Option Bytes
  -- `AutoLoadExtension(db, "httpfs")` and `ExtensionIsLoaded("httpfs")`
  pub auto_load_httpfs : World → World
  pub httpfs_loaded : World → Bool
  -- `ErrorData::Message()`
  pub error_message : ErrorData → Bytes
  pub library_version : Bytes
  pub platform : Bytes

-- What is read of the client context; `active_query` is `none` for `INVALID_INDEX`.
pub record Context : Type 0 where
  pub has_active_transaction : Bool
  pub active_query : Option ℕ
