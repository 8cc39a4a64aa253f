-- ===== src/Storage/Entries.antt =====
-- The entries of a catalog and the infos that create and drop them, with what is used of DuckDB's
-- parser, binder and texts of statements.
use duckdb_quack.Prelude.{Bytes, List, Result}
use duckdb_quack.Storage.CatalogSet.{OnCreateConflict}

pub data CatalogType : Type 0 where
  table_entry view_entry table_function_entry other_entry : CatalogType

-- `CreateTableInfo`, `CreateViewInfo`, `CreateSchemaInfo` and `DropInfo`, with `rest` for what is
-- passed on as it is.
pub record CreateTableInfo (D : Type 0) : Type 0 where
  pub catalog : Bytes
  pub schema : Bytes
  pub table : Bytes
  pub on_conflict : OnCreateConflict
  pub rest : D

pub record CreateViewInfo (D Q : Type 0) : Type 0 where
  pub catalog : Bytes
  pub schema : Bytes
  pub view_name : Bytes
  pub sql : Bytes
  pub query : Q
  pub on_conflict : OnCreateConflict
  pub rest : D

pub record CreateSchemaInfo : Type 0 where
  pub catalog : Bytes
  pub schema : Bytes
  pub on_conflict : OnCreateConflict

pub record DropInfo : Type 0 where
  pub type : CatalogType
  pub catalog : Bytes
  pub schema : Bytes
  pub name : Bytes

-- What `Parser::ParseQuery` gives for one statement.
pub data SqlStatement (D : Type 0) : Type 0 where
  create_table_statement : CreateTableInfo D → SqlStatement D
  other_create_statement other_statement : SqlStatement D

-- The types: `Columns` is the rest of the info of a table, `ViewRest` of a view, `Query` a parsed
-- SELECT and `Macro` the info of a table macro.
pub record Frontend : Type 1 where
  pub Columns : Type 0
  pub ViewRest : Type 0
  pub Query : Type 0
  pub Macro : Type 0
  -- `ToString()` of the infos
  pub create_table_text : CreateTableInfo Columns → Bytes
  pub create_view_text : CreateViewInfo ViewRest Query → Bytes
  pub create_schema_text : CreateSchemaInfo → Bytes
  pub drop_text : DropInfo → Bytes
  -- `Parser::ParseQuery`, `CreateViewInfo::ParseSelect` and `Binder::BindCreateTableInfo`
  pub parse_query : Bytes → Result (List (SqlStatement Columns))
  pub parse_select : Bytes → Result Query
  pub bind_create_table_info : CreateTableInfo Columns → Result (CreateTableInfo Columns)
  -- `CreateTableMacroInfo` of a macro with this name and this text
  pub create_table_macro_info : Bytes → Bytes → Result Macro
  -- `SQLIdentifier`, `SQLString` and `KeywordHelper::WriteQuoted` with a single quote
  pub sql_identifier : Bytes → Bytes
  pub sql_string : Bytes → Bytes
  pub write_quoted : Bytes → Bytes
  -- `CreateViewInfo(schema, view_name)`, by the names of the catalog and of the schema
  pub new_view_info : Bytes → Bytes → Bytes → CreateViewInfo ViewRest Query

-- `QuackTableCatalogEntry` and `QuackViewCatalogEntry`.
pub data CatalogEntry (f : Frontend) : Type 0 where
  table_of : CreateTableInfo f.Columns → CatalogEntry f
  view_of : CreateViewInfo f.ViewRest f.Query → CatalogEntry f

abbrev pub entry_name : (f : Frontend) → CatalogEntry f → Bytes
entry_name f (table_of info) = info.table
entry_name f (view_of info) = info.view_name
