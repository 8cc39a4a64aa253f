-- ===== src/Storage/Load/Laws.antt =====
-- What the loaded schemas hold of the rows.
use duckdb_quack.Prelude.{
  Bool, true, false, List, [], ◌∷◌, Result, ok, err, if◌then◌else◌, ◌>>=◌, ◌≡◌, refl, ap, ◌∙◌,
}
use duckdb_quack.Text.StringUtil.{StringUtil}
use duckdb_quack.Storage.CatalogSet.{QuackCatalogSet, replace_on_conflict, create_entry, create_all}
use duckdb_quack.Storage.Entries.{Frontend, CatalogEntry, entry_name}
use duckdb_quack.Storage.Schema.{QuackSchemaCatalogEntry}
use duckdb_quack.Storage.Load.{Collection, entry_of_row, belongs, load_tables}

module _ (u : StringUtil) (f : Frontend) {C : Type 0} (k : Collection C) where
  abbrev Schema : Type 0
  Schema = QuackSchemaCatalogEntry u f

  -- The entries of the rows that belong to the schema, in their order, unless one cannot be made.
  unfoldable pub entries_of : List k.Row → Schema → Result (List (CatalogEntry f))
  unfolding entry_of_row
  entries_of [] s = ok []
  entries_of (row ∷ rows) s =
      let rest = entries_of rows s in
      if belongs u f k s row
      then (entry_of_row u f k s row >>= λ e. rest >>= λ es. ok (e ∷ es))
      else rest

  abbrev with_tables : Schema → QuackCatalogSet (CatalogEntry f) → Schema
  with_tables s tables = record s { tables = tables }

  entries_of_with :
      (rows : List k.Row) (s : Schema) (tables : QuackCatalogSet (CatalogEntry f))
      → entries_of rows (with_tables s tables) ≡ entries_of rows s
  unfolding entries_of
  entries_of_with [] s tables = refl
  entries_of_with (row ∷ rows) s tables =
      ap
        (λ rest.
          if belongs u f k s row
          then (entry_of_row u f k s row >>= λ e. rest >>= λ es. ok (e ∷ es))
          else rest)
        (entries_of_with rows s tables)

  -- The schema with the entries created one after the other.
  abbrev pub filled : Schema → Result (List (CatalogEntry f)) → Result Schema
  filled s (err x) = err x
  filled s (ok es) = ok (with_tables s (create_all u (entry_name f) es s.tables))

  filled_cons :
      (e : CatalogEntry f) (s : Schema) (rest : Result (List (CatalogEntry f)))
      → filled (with_tables s (create_entry u (entry_name f) e replace_on_conflict s.tables).1) rest
        ≡ filled s (rest >>= λ es. ok (e ∷ es))
  unfolding create_all
  filled_cons e s (err x) = refl
  filled_cons e s (ok es) = refl

  filled_step :
      (b : Bool) (made : Result (CatalogEntry f)) (rows : List k.Row) (s : Schema)
      → ((s1 : Schema) → load_tables u f k rows s1 ≡ filled s1 (entries_of rows s1))
      → ◌≡◌ {A = Result Schema}
          (elim b [
            | false ↦ load_tables u f k rows s
            | true ↦ elim made [
              | err x ↦ err x
              | ok e ↦
                  load_tables u f k rows
                    (with_tables s (create_entry u (entry_name f) e replace_on_conflict s.tables).1)
            ]
          ])
          (filled s (
            if b
            then (made >>= λ e. entries_of rows s >>= λ es. ok (e ∷ es))
            else entries_of rows s))
  filled_step false made rows s again = again s
  filled_step true (err x) rows s again = refl
  filled_step true (ok e) rows s again =
      let tables = (create_entry u (entry_name f) e replace_on_conflict s.tables).1 in
      again (with_tables s tables)
      ∙ (ap (filled (with_tables s tables)) (entries_of_with rows s tables)
          ∙ filled_cons e s (entries_of rows s))

  pub load_tables-filled :
      (rows : List k.Row) (s : Schema) → load_tables u f k rows s ≡ filled s (entries_of rows s)
  unfolding load_tables entries_of create_all
  load_tables-filled [] s = refl
  load_tables-filled (row ∷ rows) s =
      filled_step (belongs u f k s row) (entry_of_row u f k s row) rows s (load_tables-filled rows)
