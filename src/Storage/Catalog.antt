-- ===== src/Storage/Catalog.antt =====
-- src/storage/quack_catalog.cpp: an attached catalog, which lists the server's schemas, tables and
-- views when it is made.
pub mod Laws
use duckdb_quack.Prelude.{
  Bytes, Bool, true, false, List, [], ◌∷◌, Option, none, some, Result, ok, err, binder, internal,
  not_implemented, map,
}
use duckdb_quack.Text.StringUtil.{StringUtil}
use duckdb_quack.Uri.Parse.{QuackUri}
use duckdb_quack.Message.Types.{
  QuackMessage, prepare_request_body, prepare_response_body, prepare_response,
}
use duckdb_quack.Scan.Remote.{Remote, ask}
use duckdb_quack.Storage.Transaction.{QuackTransaction, query}
use duckdb_quack.Storage.Transaction as Transaction
use duckdb_quack.Storage.CatalogSet.{get_entry, get_all_catalog_entries, create_entry}
use duckdb_quack.Storage.Entries.{CreateSchemaInfo, Frontend}
use duckdb_quack.Storage.Schema.{QuackSchemaCatalogEntry, new_schema}
use duckdb_quack.Storage.Load.{
  Collection, all_rows, schema_name, QuackSchemaSet, load_schemas, load_schemas_query,
  load_tables_query,
}

pub data OnEntryNotFound : Type 0 where
  throw_exception return_null : OnEntryNotFound

module _ {C T : Type 0} (r : Remote C T) (k : Collection C) where
  abbrev pub Executed : Type 0
  Executed = Result (List k.Row) × r.Connection × r.World

  -- The rows of the response, appended chunk by chunk.
  abbrev pub collected : QuackMessage C T → Result (List k.Row)
  unfolding all_rows
  collected m = elim m.body [
    | prepare_response_body types names results more uuid ↦ ok (all_rows k results)
    | _ ↦ err (internal "Failed to cast message to type - message type mismatch" [])
  ]

  abbrev pub collect_response : Result (QuackMessage C T) × r.Connection × r.World → Executed
  collect_response (err x, connection, w) = (err x, connection, w)
  collect_response (ok m, connection, w) = (collected m, connection, w)

  -- `ExecuteCommandInternal`
  unfoldable pub execute_command_internal : Bytes → r.Connection → r.World → Executed
  unfolding ask all_rows
  execute_command_internal query connection w =
      collect_response (ask r prepare_response (prepare_request_body query) connection w)

  abbrev pub with_world : Executed → Result (List k.Row) × (r.Connection × r.World)
  with_world (answer, connection, w) = (answer, (connection, w))

  -- The catalog as what a transaction sends its queries to.
  abbrev pub catalog_remote : Transaction.Remote
  catalog_remote = record {
    World = r.Connection × r.World;
    Rows = List k.Row;
    execute_command_internal = λ w query. with_world (execute_command_internal query w.0 w.1);
  }

  module _ (u : StringUtil) (f : Frontend) where
    pub record QuackCatalog : Type 0 where
      pub attached_name : Bytes
      pub client_connection : r.Connection
      pub schemas : QuackSchemaSet u f k

    abbrev pub Opened : Type 0
    Opened = Result QuackCatalog × r.World

    abbrev pub catalog_on : Bytes → r.Connection → r.World → Result (QuackSchemaSet u f k) → Opened
    catalog_on attached_name connection w (err x) = (err x, w)
    catalog_on attached_name connection w (ok schemas) = (
      ok (record {
        attached_name = attached_name;
        client_connection = connection;
        schemas = schemas;
      }),
      w,
    )

    -- The constructor behind the query of the tables, and behind that of the schemas.
    abbrev pub loaded_tables : Bytes → List k.Row → Executed → Opened
    loaded_tables attached_name schemas (err x, connection, w) = (err x, w)
    loaded_tables attached_name schemas (ok tables, connection, w) =
        catalog_on attached_name connection w (load_schemas u f k attached_name tables schemas [])

    abbrev pub loaded_schemas : Bytes → Executed → Opened
    loaded_schemas attached_name (err x, connection, w) = (err x, w)
    loaded_schemas attached_name (ok schemas, connection, w) =
        loaded_tables attached_name schemas
          (execute_command_internal load_tables_query connection w)

    -- `LoadCatalog`, and what the constructor makes of it.
    unfoldable pub load_catalog : Bytes → r.Connection → r.World → Opened
    unfolding execute_command_internal load_schemas
    load_catalog attached_name connection w =
        loaded_schemas attached_name (execute_command_internal load_schemas_query connection w)

    -- `QuackCatalog::QuackCatalog`
    unfoldable pub new_catalog : Bytes → QuackUri → Bytes → r.World → Opened
    unfolding load_catalog
    new_catalog attached_name server_uri token w =
        let (connected, w1) = r.connect server_uri token w in
        elim connected [
          | err x ↦ (err x, w1)
          | ok connection ↦ load_catalog attached_name connection w1
        ]

    unfoldable pub lookup_schema :
        Bytes → OnEntryNotFound → QuackCatalog → Result (Option (QuackSchemaCatalogEntry u f))
    unfolding get_entry
    lookup_schema name if_not_found c = elim (get_entry u (schema_name u f k) name c.schemas) [
      | some s ↦ ok (some s)
      | none ↦ elim if_not_found [
        | throw_exception ↦ err (binder "Schema with name \"%s\" not found" (name ∷ []))
        | return_null ↦ ok none
      ]
    ]

    -- `ScanSchemas`: the results of the callback, one for each schema.
    unfoldable pub scan_schemas :
        {A : Type 0} → (QuackSchemaCatalogEntry u f → A) → QuackCatalog → List A
    unfolding get_all_catalog_entries
    scan_schemas callback c = map callback (get_all_catalog_entries u (schema_name u f k) c.schemas)

    module _ (q : Transaction.Remote) where
      -- The part of `CreateSchema` behind the query.
      abbrev pub schema_created :
          CreateSchemaInfo
          → QuackCatalog
          → Transaction.Answer q
          → Result (QuackSchemaCatalogEntry u f) × QuackCatalog × QuackTransaction q
      unfolding new_schema create_entry
      schema_created info c (err x, t) = (err x, c, t)
      schema_created info c (ok _, t) =
          let (stored, schemas) =
            create_entry u (schema_name u f k)
              (new_schema u f c.attached_name info.catalog info.schema) info.on_conflict
              c.schemas in
          (ok stored, record c { schemas = schemas }, t)

      unfoldable pub create_schema :
          CreateSchemaInfo
          → QuackCatalog
          → QuackTransaction q
          → Result (QuackSchemaCatalogEntry u f) × QuackCatalog × QuackTransaction q
      unfolding query schema_created
      create_schema info c t = schema_created info c (query q (f.create_schema_text info) t)
