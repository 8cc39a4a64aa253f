-- ===== src/Storage/CreateTableAs/Laws.antt =====
-- CREATE TABLE AS on a session of the server.
use duckdb_quack.Prelude.{Bytes, List, none, some, ok, err, ◌≡◌, refl, ap, ◌∙◌, arith, same_refl}
use duckdb_quack.Text.StringUtil.{StringUtil}
use duckdb_quack.Uri.Parse.{QuackUri}
use duckdb_quack.Server.Engine.{Engine}
use duckdb_quack.Scan.Remote.{Remote}
use duckdb_quack.Scan.Session.{session_remote}
use duckdb_quack.Storage.Transaction.{QuackTransaction, Answer, query}
use duckdb_quack.Storage.Transaction as Transaction
use duckdb_quack.Storage.CatalogSet.{OnCreateConflict, create_entry, insert_new, get_entry}
use duckdb_quack.Storage.Entries.{CreateTableInfo, Frontend, CatalogEntry, table_of, entry_name}
use duckdb_quack.Storage.Schema.{QuackSchemaCatalogEntry, Done, behind, store_entry, create_table}
use duckdb_quack.Storage.Schema.Laws.{found, placed, found-create_table, sent-create_table}
use duckdb_quack.Storage.Load.{Collection}
use duckdb_quack.Storage.Catalog.{catalog_remote}
use duckdb_quack.Storage.Insert.{TableEntry, QuackInsertGlobalState, global_sink_state, sink_all}
use duckdb_quack.Storage.Insert.Laws.{sink_all_appends, append_each, sunk_as}
use duckdb_quack.Storage.CreateTableAs.{create_table_as, sink_state_of, get_global_sink_state}

-- The table of the sink for what CreateTable returned.
abbrev pub sink_table : Bytes → Bytes → TableEntry
sink_table schema_name name = record { schema_name = schema_name; name = name }

module _ (u : StringUtil) (f : Frontend) (q : Transaction.Remote) where
  abbrev Schema : Type 0
  Schema = QuackSchemaCatalogEntry u f

  create_entry_new :
      (e : CatalogEntry f) (on_conflict : OnCreateConflict) (s : Schema)
      → found u f (entry_name f e) s ≡ none
      → (create_entry u (entry_name f) e on_conflict s.tables).0 ≡ e
  unfolding create_entry insert_new found get_entry
  create_entry_new e on_conflict s new = ground arith

  -- What is stored is the new table, and the schema keeps its name.
  behind_stored :
      (e : CatalogEntry f) (on_conflict : OnCreateConflict) (s : Schema) (answer : Answer q)
      (stored : CatalogEntry f)
      → found u f (entry_name f e) s ≡ none
      → (behind u f q s (store_entry u f q e on_conflict s) answer).0 ≡ ok stored
      → (stored ≡ e) × ((behind u f q s (store_entry u f q e on_conflict s) answer).1.name ≡ s.name)
  unfolding store_entry
  behind_stored e on_conflict s (err x, t) stored new done = cc
  behind_stored e on_conflict s (ok rows, t) stored new done =
      (cc (create_entry_new e on_conflict s new), refl)

  sink_state_of_lem :
      (c : Done u f q (CatalogEntry f)) (state : QuackInsertGlobalState) (s1 : Schema)
      (t1 : QuackTransaction q)
      → sink_state_of u f q c ≡ (ok state, s1, t1)
      → (stored : CatalogEntry f) × (c.0 ≡ ok stored)
        × (state ≡ global_sink_state (sink_table c.1.name (entry_name f stored)))
        × (s1 ≡ c.1)
        × (t1 ≡ c.2)
  sink_state_of_lem (err x, s, t) state s1 t1 made = cc
  sink_state_of_lem (ok e, s, t) state s1 t1 made = (e, refl, cc, cc, cc)

  -- What CREATE TABLE AS has done when its sink starts, for a name that the schema does not have.
  create_table_as_starts :
      (info : CreateTableInfo f.Columns) (s s1 : Schema) (t t1 : QuackTransaction q)
      (state : QuackInsertGlobalState)
      → found u f info.table s ≡ none
      → get_global_sink_state u f q (create_table_as info) s t ≡ (ok state, s1, t1)
      → (state ≡ global_sink_state (sink_table s.name info.table))
        × (t1 ≡ (query q (f.create_table_text (placed u f info s)) t).1)
        × (found u f info.table s1 ≡ some (table_of (placed u f info s)))
  unfolding get_global_sink_state create_table
  create_table_as_starts info s s1 t t1 state new made =
      let c = create_table u f q info s t in
      let (stored, is_ok, state_is, s1_is, t1_is) = sink_state_of_lem c state s1 t1 made in
      let e = table_of (placed u f info s) in
      let (stored_is, name_is) =
        behind_stored e info.on_conflict s (query q (f.create_table_text (placed u f info s)) t)
          stored new is_ok in
      (
        state_is
            ∙ (ap (λ n. global_sink_state (sink_table n (entry_name f stored))) name_is
                ∙ ap (λ x. global_sink_state (sink_table s.name (entry_name f x))) stored_is),
        t1_is ∙ sent-create_table u f q info s t,
        ap (found u f info.table) s1_is
            ∙ (found-create_table u f q info s t stored info.table is_ok
                ∙ rw (same_refl (u.lower info.table)) (ap some stored_is)),
      )

module _ (e : Engine) (u : StringUtil) (f : Frontend) (k : Collection e.Chunk) (uri : QuackUri)
    (id : Bytes) where
  abbrev r : Remote e.Chunk e.Logical
  r = session_remote e u uri id

  abbrev q : Transaction.Remote
  q = catalog_remote r k

  -- If the sink of a CREATE TABLE AS starts on an authorized session, for a name that the schema
  -- does not find, then the transaction is left as by the query of the CREATE TABLE with the
  -- catalog and the schema put in, the schema finds this table, and the sink of chunks has the
  -- outcome and the effect on the server of their APPENDs to this table up to the first failure,
  -- with the rows of the appended chunks counted modulo 2^64.
  pub create_table_as_appends :
      (info : CreateTableInfo f.Columns) (chunks : List e.Chunk)
      (s s1 : QuackSchemaCatalogEntry u f) (t t1 : QuackTransaction q)
      (state : QuackInsertGlobalState)
      → found u f info.table s ≡ none
      → get_global_sink_state u f q (create_table_as info) s t ≡ (ok state, s1, t1)
      → let table = sink_table s.name info.table in
        (t1 ≡ (query q (f.create_table_text (placed u f info s)) t).1)
        × (found u f info.table s1 ≡ some (table_of (placed u f info s)))
        × (sink_all r e.chunk_size chunks state tt t1.world.1
            ≡ sunk_as e u table uri id 0 (append_each e u table chunks t1.world.1))
  unfolding global_sink_state
  create_table_as_appends info chunks s s1 t t1 state new made =
      let (state_is, sent, entered) = create_table_as_starts u f q info s s1 t t1 state new made in
      let table = sink_table s.name info.table in
      (
        sent,
        entered,
        ap (λ x. sink_all r e.chunk_size chunks x tt t1.world.1) state_is
            ∙ sink_all_appends e u table uri id chunks 0 t1.world.1 (omega arith),
      )
