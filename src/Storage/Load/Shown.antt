-- ===== src/Storage/Load/Shown.antt =====
-- What a loaded catalog shows of the rows: of the last schema of a name, the last entry of a name.
use duckdb_quack.Prelude.{
  Bytes, Bool, true, false, List, [], ◌∷◌, map, Option, none, some, Result, ok, err, same,
  if◌then◌else◌, ◌≡◌, refl, sym, ap, ◌∙◌, arith,
}
use duckdb_quack.Text.StringUtil.{StringUtil}
use duckdb_quack.Storage.CatalogSet.{
  replace_on_conflict, create_entry, get_entry, last_named, or_else, get_entry-create_all,
  get_entry-replace,
}
use duckdb_quack.Storage.Entries.{Frontend, CatalogEntry, entry_name}
use duckdb_quack.Storage.Schema.{QuackSchemaCatalogEntry}
use duckdb_quack.Storage.Schema.Laws.{found}
use duckdb_quack.Storage.Load.{
  Collection, load_tables, schema_name, QuackSchemaSet, schema_of_row, load_schemas,
}
use duckdb_quack.Storage.Load.Laws.{entries_of, filled, load_tables-filled}

module _ (u : StringUtil) (f : Frontend) {C : Type 0} (k : Collection C) where
  abbrev pub the_schema : Bytes → QuackSchemaSet u f k → Option (QuackSchemaCatalogEntry u f)
  the_schema name schemas = get_entry u (schema_name u f k) name schemas

  abbrev pub shown_in : Bytes → Option (QuackSchemaCatalogEntry u f) → Option (CatalogEntry f)
  shown_in name none = none
  shown_in name (some s) = found u f name s

  -- The entry that is found in the schema that is found.
  unfoldable pub shown : QuackSchemaSet u f k → Bytes → Bytes → Option (CatalogEntry f)
  unfolding get_entry found
  shown schemas schema name = shown_in name (the_schema schema schemas)

module _ (u : StringUtil) (f : Frontend) {C : Type 0} (k : Collection C) (attached_name : Bytes)
    (tables : List k.Row) where
  abbrev Schema : Type 0
  Schema = QuackSchemaCatalogEntry u f

  abbrev or_empty : Schema → Result Schema → Schema
  or_empty s (ok s1) = s1
  or_empty s (err x) = s

  abbrev full : Schema → Schema
  full s = or_empty s (load_tables u f k tables s)

  abbrev loaded : k.Row → Schema
  loaded row = let s = schema_of_row u f k attached_name row in full s

  -- The last schema of this name, with its tables loaded.
  last_loaded : Bytes → List k.Row → Option Schema
  last_loaded name [] = none
  last_loaded name (row ∷ rows) = elim (last_loaded name rows) [
    | some s ↦ some s
    | none ↦ if same (u.lower (k.string_at row 1)) (u.lower name) then some (loaded row) else none
  ]

  filled_named :
      (s s1 : Schema) (es : Result (List (CatalogEntry f)))
      → filled u f k s es ≡ ok s1
      → s1.name ≡ s.name
  filled_named s s1 (err x) e = cc
  filled_named s s1 (ok es) e = cc

  abbrev with_schema : Schema → QuackSchemaSet u f k → QuackSchemaSet u f k
  with_schema s schemas = (create_entry u (schema_name u f k) s replace_on_conflict schemas).1

  last_loaded_step :
      (row : k.Row) (rows : List k.Row) (name : Bytes) (s : Schema) (schemas : QuackSchemaSet u f k)
      → s ≡ loaded row
      → s.name ≡ k.string_at row 1
      → or_else u
          (schema_name u f k)
          (last_loaded name rows)
          (the_schema u f k name (with_schema s schemas))
        ≡ or_else u
            (schema_name u f k)
            (last_loaded name (row ∷ rows))
            (the_schema u f k name schemas)
  unfolding last_loaded
  last_loaded_step row rows name s schemas same_schema same_name =
      grind (arith, get_entry-replace u (schema_name u f k) s schemas name)

  loads_step :
      (made : Result Schema) (row : k.Row) (rows : List k.Row) (schemas set : QuackSchemaSet u f k)
      (name : Bytes)
      → load_tables u f k tables (schema_of_row u f k attached_name row) ≡ made
      → ((schemas1 : QuackSchemaSet u f k)
          → load_schemas u f k attached_name tables rows schemas1 ≡ ok set
          → the_schema u f k name set
            ≡ or_else u
                (schema_name u f k)
                (last_loaded name rows)
                (the_schema u f k name schemas1))
      → ◌≡◌ {A = Result (QuackSchemaSet u f k)}
          (elim made [
            | err x ↦ err x
            | ok s ↦ load_schemas u f k attached_name tables rows (with_schema s schemas)
          ])
          (ok set)
      → the_schema u f k name set
        ≡ or_else u
            (schema_name u f k)
            (last_loaded name (row ∷ rows))
            (the_schema u f k name schemas)
  unfolding schema_of_row
  loads_step (err x) row rows schemas set name e again done = cc
  loads_step (ok s) row rows schemas set name e again done =
      let s0 = schema_of_row u f k attached_name row in
      again (with_schema s schemas) done
      ∙ last_loaded_step row rows name s schemas (sym (ap (or_empty s0) e)) (
          filled_named s0 s (entries_of u f k tables s0)
            (sym (load_tables-filled u f k tables s0) ∙ e))

  load_schemas_finds :
      (rows : List k.Row) (schemas set : QuackSchemaSet u f k) (name : Bytes)
      → load_schemas u f k attached_name tables rows schemas ≡ ok set
      → the_schema u f k name set
        ≡ or_else u (schema_name u f k) (last_loaded name rows) (the_schema u f k name schemas)
  unfolding load_schemas last_loaded
  load_schemas_finds [] schemas set name done = cc
  load_schemas_finds (row ∷ rows) schemas set name done =
      loads_step (load_tables u f k tables (schema_of_row u f k attached_name row)) row rows schemas
        set name refl (λ schemas1. load_schemas_finds rows schemas1 set name) done

  abbrev map_full : Option Schema → Option Schema
  map_full none = none
  map_full (some s) = some (full s)

  last_loaded-full :
      (name : Bytes) (rows : List k.Row)
      → last_loaded name rows
        ≡ map_full
            (last_named u (schema_name u f k) name (map (schema_of_row u f k attached_name) rows))
  unfolding last_loaded last_named schema_of_row
  last_loaded-full name [] = refl
  last_loaded-full name (row ∷ rows) = ground (arith, last_loaded-full name rows)

  abbrev last_of : Bytes → Result (List (CatalogEntry f)) → Option (CatalogEntry f)
  last_of name (ok es) = last_named u (entry_name f) name es
  last_of name (err x) = none

  abbrev listed_in : Bytes → Option Schema → Option (CatalogEntry f)
  listed_in name none = none
  listed_in name (some s) = last_of name (entries_of u f k tables s)

  -- The entry that the rows give for the names of a schema and of a table or view.
  unfoldable pub listed : List k.Row → Bytes → Bytes → Option (CatalogEntry f)
  unfolding entries_of last_named schema_of_row
  listed rows schema name =
      listed_in name
        (last_named u (schema_name u f k) schema (map (schema_of_row u f k attached_name) rows))

  or_else-none : {E : Type 0} (name_of : E → Bytes) (o : Option E) → or_else u name_of o none ≡ o
  or_else-none name_of none = refl
  or_else-none name_of (some e) = refl

  found-filled :
      (s : Schema) (es : Result (List (CatalogEntry f))) (name : Bytes)
      → s.tables ≡ []
      → found u f name (or_empty s (filled u f k s es)) ≡ last_of name es
  unfolding found get_entry
  found-filled s (err x) name empty = ap (get_entry u (entry_name f) name) empty
  found-filled s (ok es) name empty =
      get_entry-create_all u (entry_name f) es s.tables name
      ∙ (ap
            (λ t.
              or_else u (entry_name f) (last_named u (entry_name f) name es)
                (get_entry u (entry_name f) name t))
            empty
          ∙ or_else-none (entry_name f) (last_named u (entry_name f) name es))

  abbrev IsBare : Option Schema → Type 0
  IsBare none = Unit {0}
  IsBare (some s) = s.tables ≡ []

  or_else-IsBare :
      (o : Option Schema) (b : Bool) (s : Schema)
      → IsBare o
      → s.tables ≡ []
      → IsBare (elim o [ some s1 ↦ some s1 | none ↦ if b then some s else none ])
  or_else-IsBare (some s1) b s bare empty = bare
  or_else-IsBare none true s bare empty = empty
  or_else-IsBare none false s bare empty = tt

  last_named-IsBare :
      (name : Bytes) (rows : List k.Row)
      → IsBare
          (last_named u (schema_name u f k) name (map (schema_of_row u f k attached_name) rows))
  unfolding last_named schema_of_row
  last_named-IsBare name [] = tt
  last_named-IsBare name (row ∷ rows) =
      or_else-IsBare
        (last_named u (schema_name u f k) name (map (schema_of_row u f k attached_name) rows))
        (same (u.lower (k.string_at row 1)) (u.lower name)) (schema_of_row u f k attached_name row)
        (last_named-IsBare name rows) refl

  shown_in-full :
      (o : Option Schema) (name : Bytes)
      → IsBare o
      → shown_in u f k name (map_full o) ≡ listed_in name o
  shown_in-full none name bare = refl
  shown_in-full (some s) name bare =
      ap (λ r. found u f name (or_empty s r)) (load_tables-filled u f k tables s)
      ∙ found-filled s (entries_of u f k tables s) name bare

  pub load_schemas_shows :
      (rows : List k.Row) (schemas : QuackSchemaSet u f k) (schema name : Bytes)
      → load_schemas u f k attached_name tables rows [] ≡ ok schemas
      → shown u f k schemas schema name ≡ listed rows schema name
  unfolding shown listed get_entry
  load_schemas_shows rows schemas schema name done =
      let last =
        last_named u (schema_name u f k) schema (map (schema_of_row u f k attached_name) rows) in
      ap (shown_in u f k name) (
        load_schemas_finds rows [] schemas schema done
        ∙ (or_else-none (schema_name u f k) (last_loaded schema rows)
            ∙ last_loaded-full schema rows))
      ∙ shown_in-full last name (last_named-IsBare schema rows)
