-- ===== src/Server/State.antt =====
-- The state of a server, and methods that may throw.
use duckdb_quack.Prelude.{ℕ, Bool, List, Bytes, Option, Result, ok, err, Exception}
use duckdb_quack.Uri.Parse.{QuackUri}
use duckdb_quack.Server.Engine.{Engine}

pub record QuackConnection (e : Engine) : Type 0 where
  pub duckdb_connection : e.Conn
  pub duckdb_query_result : Option e.Rows
  pub next_batch_index : ℕ
  pub result_uuid : ℕ
  pub session_id : Bytes

-- `db_closed` says that `db_ptr.lock()` fails.
pub record QuackServer (e : Engine) : Type 0 where
  pub db : e.Db
  pub db_closed : Bool
  pub active_connections : List (Bytes × QuackConnection e)
  pub session_id_rng : Option e.Rng
  pub uri : QuackUri
  pub token : Bytes

-- A method of the server; what it did to the state before it threw stays.
abbrev pub Method : Engine → Type 0 → Type 0
Method e A = QuackServer e → Result A × QuackServer e

module _ {e : Engine} {A B : Type 0} where
  abbrev pub continue : Result A × QuackServer e → (A → Method e B) → Result B × QuackServer e
  continue (ok a, s) f = f a s
  continue (err x, s) f = (err x, s)

module _ {e : Engine} where
  infixl 5 ◌>>=◌ ◌>>◌
  abbrev pub ◌>>=◌ : {A B : Type 0} → Method e A → (A → Method e B) → Method e B
  ◌>>=◌ m f s = continue (m s) f

  abbrev pub ◌>>◌ : {B : Type 0} → Method e (Unit {0}) → Method e B → Method e B
  ◌>>◌ m k s = continue (m s) (λ _. k)

  abbrev pub done : {A : Type 0} → A → Method e A
  done a s = (ok a, s)

  abbrev pub throw : {A : Type 0} → Exception → Method e A
  throw x s = (err x, s)

  abbrev pub get : Method e (QuackServer e)
  get s = (ok s, s)

  abbrev pub put : QuackServer e → Method e (Unit {0})
  put s _ = (ok tt, s)
