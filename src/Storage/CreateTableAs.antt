-- ===== src/Storage/CreateTableAs.antt =====
-- src/storage/quack_insert.cpp: the operator of INSERT INTO and of CREATE TABLE AS, and its state.
pub mod Laws
use duckdb_quack.Prelude.{Bytes, codes, List, [], ◌∷◌, Option, none, some, Result, ok, err}
use duckdb_quack.Text.StringUtil.{StringUtil}
use duckdb_quack.Storage.Transaction.{Remote, QuackTransaction}
use duckdb_quack.Storage.Entries.{CreateTableInfo, Frontend, CatalogEntry, entry_name}
use duckdb_quack.Storage.Schema.{QuackSchemaCatalogEntry, Done, create_table}
use duckdb_quack.Storage.Insert.{TableEntry, QuackInsertGlobalState, global_sink_state}

module _ (u : StringUtil) (f : Frontend) where
  -- The two constructors of `QuackInsert`: INSERT INTO a table, and CREATE TABLE AS in a schema.
  pub data QuackInsert : Type 0 where
    insert_into : TableEntry → QuackInsert
    create_table_as : CreateTableInfo f.Columns → QuackInsert

  unfoldable pub get_name : QuackInsert → Bytes
  get_name (insert_into table) = codes "RPC_INSERT"
  get_name (create_table_as info) = codes "RPC_CREATE_TABLE_AS"

  unfoldable pub params_to_string : QuackInsert → List (Bytes × Bytes)
  params_to_string (insert_into table) = (codes "Table Name", table.name) ∷ []
  params_to_string (create_table_as info) = (codes "Table Name", info.table) ∷ []

  module _ (r : Remote) where
    -- The state for the entry that CreateTable returns.
    abbrev pub sink_state_of : Done u f r (CatalogEntry f) → Done u f r QuackInsertGlobalState
    sink_state_of (err x, s, t) = (err x, s, t)
    sink_state_of (ok e, s, t) =
        (ok (global_sink_state (record { schema_name = s.name; name = entry_name f e })), s, t)

    -- `GetGlobalSinkState`; CREATE TABLE AS creates the table on the server first.
    unfoldable pub get_global_sink_state :
        QuackInsert
        → QuackSchemaCatalogEntry u f
        → QuackTransaction r
        → Done u f r QuackInsertGlobalState
    unfolding create_table global_sink_state
    get_global_sink_state (insert_into table) s t = (ok (global_sink_state table), s, t)
    get_global_sink_state (create_table_as info) s t = sink_state_of (create_table u f r info s t)
