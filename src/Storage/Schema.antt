-- ===== src/Storage/Schema.antt =====
-- src/storage/quack_schema.cpp and quack_view.cpp: a schema, whose tables and views are created and
-- dropped on the server and locally, and its built-in function.
pub mod Laws
use duckdb_quack.Prelude.{
  ℕ, Bytes, codes, Bool, true, false, not, List, [], ◌∷◌, Option, none, some, Result, ok, err,
  not_implemented, same, lookup, insert, if◌then◌else◌, ◌==◌,
}
use duckdb_quack.Text.StringUtil.{StringUtil, str}
use duckdb_quack.Storage.Transaction.{Remote, QuackTransaction, Answer, query}
use duckdb_quack.Storage.CatalogSet.{
  OnCreateConflict, QuackCatalogSet, get_entry, create_entry, drop_entry, insert_new,
}
use duckdb_quack.Storage.Entries.{
  CatalogType, table_entry, view_entry, table_function_entry, other_entry, CreateTableInfo,
  CreateViewInfo, CreateSchemaInfo, DropInfo, Frontend, CatalogEntry, table_of, view_of, entry_name,
}

module _ (u : StringUtil) (f : Frontend) where
  -- `QuackViewCatalogEntry::CreateViewSQL`
  unfoldable pub create_view_sql : Bytes → Bytes → Bytes → Bytes
  create_view_sql catalog_name schema_name view_name =
      let remote_sql =
        u.format (codes "FROM %s.%s")
          (str (f.sql_identifier schema_name) ∷ str (f.sql_identifier view_name) ∷ []) in
      u.format (codes "FROM quack_query_by_name(%s, %s)")
        (str (f.sql_string catalog_name) ∷ str (f.sql_string remote_sql) ∷ [])

  -- `attached_name` is the name of the attached catalog; `catalog` and `name` are the server's.
  pub record QuackSchemaCatalogEntry : Type 0 where
    pub attached_name : Bytes
    pub catalog : Bytes
    pub name : Bytes
    pub tables : QuackCatalogSet (CatalogEntry f)
    pub default_function_map : List (Bytes × f.Macro)

  -- A schema with no entries.
  unfoldable pub new_schema : Bytes → Bytes → Bytes → QuackSchemaCatalogEntry
  new_schema attached_name catalog schema = record {
    attached_name = attached_name;
    catalog = catalog;
    name = schema;
    tables = [];
    default_function_map = [];
  }

  -- What a C string keeps of a text.
  abbrev pub c_str : Bytes → Bytes
  c_str [] = []
  c_str (c ∷ s) = let rest = c_str s in if c == 0 then [] else c ∷ rest

  abbrev pub macro_name : Bytes
  macro_name = codes "query"

  -- The texts of `quack_table_macros`, with the names put in.
  unfoldable pub macro_text : QuackSchemaCatalogEntry → Bytes
  macro_text s =
      u.replace
        (u.replace (codes "FROM quack_query_by_name({CATALOG}, remote_sql_query)")
          (codes "{CATALOG}") (f.write_quoted s.attached_name))
        (codes "{SCHEMA}") (f.write_quoted s.name)

  -- `LoadBuiltInFunction` of the only macro.
  unfoldable pub load_built_in_function :
      QuackSchemaCatalogEntry → Result (Option f.Macro) × QuackSchemaCatalogEntry
  unfolding macro_text insert_new
  load_built_in_function s = elim (f.create_table_macro_info macro_name (c_str (macro_text s))) [
    | err x ↦ (err x, s)
    | ok info ↦ (
      ok (some info),
      record s {
        default_function_map =
            (insert_new u (λ m. macro_name) (u.lower macro_name) info s.default_function_map).1;
      },
    )
  ]

  unfoldable pub try_load_built_in_function :
      Bytes → QuackSchemaCatalogEntry → Result (Option f.Macro) × QuackSchemaCatalogEntry
  unfolding load_built_in_function lookup
  try_load_built_in_function entry_name s =
      elim (lookup (u.lower entry_name) s.default_function_map) [
        | some macro ↦ (ok (some macro), s)
        | none ↦
            if same (u.lower macro_name) (u.lower entry_name)
            then load_built_in_function s
            else (ok none, s)
      ]

  pub data Found : Type 0 where
    entry : CatalogEntry f → Found
    macro : f.Macro → Found

  abbrev as_macro :
      Result (Option f.Macro) × QuackSchemaCatalogEntry
      → Result (Option Found) × QuackSchemaCatalogEntry
  as_macro (err x, s) = (err x, s)
  as_macro (ok none, s) = (ok none, s)
  as_macro (ok (some m), s) = (ok (some (macro m)), s)

  abbrev as_entry : Option (CatalogEntry f) → Option Found
  as_entry none = none
  as_entry (some e) = some (entry e)

  unfoldable pub lookup_entry :
      CatalogType
      → Bytes
      → QuackSchemaCatalogEntry
      → Result (Option Found) × QuackSchemaCatalogEntry
  unfolding get_entry try_load_built_in_function
  lookup_entry type name s = elim type [
    | table_function_entry ↦ as_macro (try_load_built_in_function name s)
    | table_entry ↦ (ok (as_entry (get_entry u (entry_name f) name s.tables)), s)
    | view_entry ↦ (ok (as_entry (get_entry u (entry_name f) name s.tables)), s)
    | other_entry ↦ (ok none, s)
  ]

  abbrev pub view_on :
      CreateViewInfo f.ViewRest f.Query
      → Bytes
      → Result f.Query
      → Result (CreateViewInfo f.ViewRest f.Query)
  view_on info sql (err x) = err x
  view_on info sql (ok query) = ok (record info { sql = sql; query = query })

  -- The info of the local entry of a view, whose query asks the server.
  unfoldable pub remote_view :
      QuackSchemaCatalogEntry
      → CreateViewInfo f.ViewRest f.Query
      → Result (CreateViewInfo f.ViewRest f.Query)
  unfolding create_view_sql
  remote_view s info =
      let sql = create_view_sql s.attached_name s.name info.view_name in
      view_on info sql (f.parse_select sql)

  module _ (r : Remote) where
    -- What an operation returns, and the schema and the transaction that it leaves.
    abbrev pub Done : Type 0 → Type 0
    Done A = Result A × QuackSchemaCatalogEntry × QuackTransaction r

    -- `CreateEntry` of the set of tables.
    unfoldable pub store_entry :
        CatalogEntry f
        → OnCreateConflict
        → QuackSchemaCatalogEntry
        → QuackTransaction r
        → Done (CatalogEntry f)
    unfolding create_entry
    store_entry e on_conflict s t =
        let (stored, tables) = create_entry u (entry_name f) e on_conflict s.tables in
        (ok stored, record s { tables = tables }, t)

    -- What follows a query unless it throws.
    abbrev pub behind :
        {A : Type 0} → QuackSchemaCatalogEntry → (QuackTransaction r → Done A) → Answer r → Done A
    behind s next (err x, t) = (err x, s, t)
    behind s next (ok _, t) = next t

    unfoldable pub create_table :
        CreateTableInfo f.Columns
        → QuackSchemaCatalogEntry
        → QuackTransaction r
        → Done (CatalogEntry f)
    unfolding query store_entry
    create_table info s t =
        let create_table_info = record info { catalog = s.catalog; schema = s.name } in
        behind s (store_entry (table_of create_table_info) info.on_conflict s)
          (query r (f.create_table_text create_table_info) t)

    abbrev pub store_view :
        OnCreateConflict
        → QuackSchemaCatalogEntry
        → Result (CreateViewInfo f.ViewRest f.Query)
        → QuackTransaction r
        → Done (CatalogEntry f)
    store_view on_conflict s (err x) t = (err x, s, t)
    store_view on_conflict s (ok view) t = store_entry (view_of view) on_conflict s t

    unfoldable pub create_view :
        CreateViewInfo f.ViewRest f.Query
        → QuackSchemaCatalogEntry
        → QuackTransaction r
        → Done (CatalogEntry f)
    unfolding query store_entry remote_view
    create_view info s t =
        behind s (store_view info.on_conflict s (remote_view s info))
          (query r (f.create_view_text (record info { catalog = s.catalog; schema = s.name })) t)

    -- `DropEntry` of the set of tables.
    abbrev pub erase_entry : Bytes → QuackSchemaCatalogEntry → QuackTransaction r → Done (Unit {0})
    erase_entry name s t =
        (ok tt, record s { tables = drop_entry u (entry_name f) name s.tables }, t)

    abbrev pub drop_query :
        DropInfo → QuackSchemaCatalogEntry → QuackTransaction r → Done (Unit {0})
    drop_query info s t =
        behind s (erase_entry info.name s)
          (query r (f.drop_text (record info { catalog = s.catalog; schema = s.name })) t)

    -- `DropEntry`, by the type of the entry.
    abbrev pub drop_typed :
        CatalogType → DropInfo → QuackSchemaCatalogEntry → QuackTransaction r → Done (Unit {0})
    drop_typed table_entry info s t = drop_query info s t
    drop_typed view_entry info s t = drop_query info s t
    drop_typed type info s t =
        (err (not_implemented "Drop not supported yet for this entry" []), s, t)

    unfoldable pub drop_schema_entry :
        DropInfo → QuackSchemaCatalogEntry → QuackTransaction r → Done (Unit {0})
    unfolding query drop_entry
    drop_schema_entry info s t = drop_typed info.type info s t
