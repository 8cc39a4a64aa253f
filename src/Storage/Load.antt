-- ===== src/Storage/Load.antt =====
-- The constructors of QuackTableSet and QuackSchemaSet (src/storage/quack_table.cpp and
-- quack_schema.cpp), which make the entries of the rows that the server has listed.
pub mod Laws
pub mod Shown
use duckdb_quack.Prelude.{
  ℕ, Bool, true, false, not, Bytes, codes, List, [], ◌∷◌, ◌++◌, Option, none, some, Result, ok, err,
  binder, internal, same, if◌then◌else◌, ◌>>=◌,
}
use duckdb_quack.Text.StringUtil.{StringUtil}
use duckdb_quack.Storage.CatalogSet.{QuackCatalogSet, replace_on_conflict, create_entry}
use duckdb_quack.Storage.Entries.{
  CreateTableInfo, SqlStatement, create_table_statement, other_create_statement, other_statement,
  Frontend, CatalogEntry, table_of, view_of, entry_name,
}
use duckdb_quack.Storage.Schema.{QuackSchemaCatalogEntry, new_schema, remote_view}

-- `DataChunk` and `ColumnDataCollection`: the rows, and `row.GetValue(i).GetValue<string>()`.
pub record Collection (C : Type 0) : Type 1 where
  pub Row : Type 0
  pub rows : C → List Row
  pub string_at : Row → ℕ → Bytes

-- The rows that `Append` of the chunks collects.
unfoldable pub all_rows : {C : Type 0} (k : Collection C) → List C → List k.Row
all_rows k [] = []
all_rows k (c ∷ cs) = k.rows c ++ all_rows k cs

module _ (u : StringUtil) (f : Frontend) {C : Type 0} (k : Collection C) where
  -- `ParseCreateTable`, and the test of its result.
  unfoldable pub parse_create_table : Bytes → Result (CreateTableInfo f.Columns)
  parse_create_table sql = f.parse_query sql >>= λ statements. elim statements [
    | create_table_statement info ∷ [] ↦ ok info
    | other_create_statement ∷ [] ↦ err (internal "Expected a CREATE TABLE" [])
    | _ ↦ err (
        binder
          "Failed to create view from SQL string - \"%s\" - statement did not contain a single SELECT statement"
          (sql ∷ []))
  ]

  -- The entry of a row, in the schema that the row belongs to.
  unfoldable pub entry_of_row : QuackSchemaCatalogEntry u f → k.Row → Result (CatalogEntry f)
  unfolding parse_create_table remote_view
  entry_of_row s row =
      if same (k.string_at row 2) (codes "table")
      then (parse_create_table (k.string_at row 1) >>= f.bind_create_table_info >>= λ info.
          ok (table_of info))
      else (remote_view u f s (f.new_view_info s.attached_name s.name (k.string_at row 1))
          >>= λ view. ok (view_of view))

  abbrev pub belongs : QuackSchemaCatalogEntry u f → k.Row → Bool
  belongs s row = same (k.string_at row 0) s.name

  -- The loop of the constructor of QuackTableSet.
  unfoldable pub load_tables :
      List k.Row → QuackSchemaCatalogEntry u f → Result (QuackSchemaCatalogEntry u f)
  unfolding entry_of_row create_entry
  load_tables [] s = ok s
  load_tables (row ∷ rows) s = elim (belongs s row) [
    | false ↦ load_tables rows s
    | true ↦ elim (entry_of_row s row) [
      | err x ↦ err x
      | ok e ↦
          load_tables rows
            (record s { tables = (create_entry u (entry_name f) e replace_on_conflict s.tables).1 })
    ]
  ]

  abbrev pub schema_name : QuackSchemaCatalogEntry u f → Bytes
  schema_name s = s.name

  abbrev pub QuackSchemaSet : Type 0
  QuackSchemaSet = QuackCatalogSet (QuackSchemaCatalogEntry u f)

  -- The schema of a row, before its tables are loaded.
  unfoldable pub schema_of_row : Bytes → k.Row → QuackSchemaCatalogEntry u f
  unfolding new_schema
  schema_of_row attached_name row =
      new_schema u f attached_name (k.string_at row 0) (k.string_at row 1)

  -- The loop of the constructor of QuackSchemaSet.
  unfoldable pub load_schemas :
      Bytes → List k.Row → List k.Row → QuackSchemaSet → Result QuackSchemaSet
  unfolding load_tables create_entry schema_of_row
  load_schemas attached_name tables [] schemas = ok schemas
  load_schemas attached_name tables (row ∷ rows) schemas =
      elim (load_tables tables (schema_of_row attached_name row)) [
        | err x ↦ err x
        | ok s ↦
            load_schemas attached_name tables rows
              (create_entry u schema_name s replace_on_conflict schemas).1
      ]

-- `QuackSchemaSet::GetLoadQuery` and `QuackTableSet::GetLoadQuery`
abbrev pub load_schemas_query : Bytes
load_schemas_query =
    codes
      "\nSELECT catalog_name, schema_name\nFROM information_schema.schemata\nWHERE catalog_name NOT IN ('system', 'temp')\nORDER BY ALL\n\t"

abbrev pub load_tables_query : Bytes
load_tables_query =
    codes
      "\nSELECT schema_name, sql, 'table'\nFROM duckdb_tables()\nUNION ALL\nSELECT schema_name, view_name, 'view'\nFROM duckdb_views()\n\t"
