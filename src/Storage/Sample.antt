-- ===== src/Storage/Sample.antt =====
-- A small frontend for the examples: a statement is the name of what it makes.
use duckdb_quack.Prelude.{ℕ, [], ◌∷◌, Bytes, ok}
use duckdb_quack.Text.Reference.{reference}
use duckdb_quack.Storage.CatalogSet.{error_on_conflict}
use duckdb_quack.Storage.Entries.{CreateTableInfo, Frontend, create_table_statement}
use duckdb_quack.Storage.Schema.{QuackSchemaCatalogEntry}

abbrev pub table_info : Bytes → CreateTableInfo ℕ
table_info name = record {
  catalog = [];
  schema = [];
  table = name;
  on_conflict = error_on_conflict;
  rest = 2;
}

abbrev pub frontend : Frontend
frontend = record {
  Columns = ℕ;
  ViewRest = ℕ;
  Query = Bytes;
  Macro = Bytes;
  create_table_text = λ info. info.table;
  create_view_text = λ info. info.view_name;
  create_schema_text = λ info. info.schema;
  drop_text = λ info. info.name;
  parse_query = λ sql. ok (create_table_statement (table_info sql) ∷ []);
  parse_select = λ sql. ok sql;
  bind_create_table_info = λ info. ok info;
  create_table_macro_info = λ name text. ok text;
  sql_identifier = λ name. name;
  sql_string = λ name. name;
  write_quoted = λ name. name;
  new_view_info = λ catalog schema name. record {
    catalog = catalog;
    schema = schema;
    view_name = name;
    sql = [];
    query = [];
    on_conflict = error_on_conflict;
    rest = 0;
  };
}

abbrev pub Schema : Type 0
Schema = QuackSchemaCatalogEntry reference frontend
