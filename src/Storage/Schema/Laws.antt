-- ===== src/Storage/Schema/Laws.antt =====
-- What creating, dropping and rolling back leave of the entries of a schema.
use duckdb_quack.Prelude.{
  Bytes, codes, sym, [], ◌∷◌, Bool, true, false, Option, none, some, Result, ok, err, ◌≡◌, refl, ap,
  ◌∙◌, subst, same, lookup-remove, if◌then◌else◌,
}
use duckdb_quack.Text.StringUtil.{StringUtil}
use duckdb_quack.Storage.Transaction.{Remote, QuackTransaction, Answer, query, rollback}
use duckdb_quack.Storage.Transaction.{QuackTransactionState, transaction_not_yet_started, start}
use duckdb_quack.Storage.Transaction.Laws.{and_then, sequence, execute_all, view, open_transaction}
use duckdb_quack.Storage.Transaction.Rollback.{transaction_rolls_back}
use duckdb_quack.Storage.CatalogSet.{
  OnCreateConflict, get_entry, create_entry, drop_entry, get_entry-create_entry,
}
use duckdb_quack.Storage.Entries.{
  CatalogType, table_entry, view_entry, table_function_entry, other_entry, CreateTableInfo,
  CreateViewInfo, DropInfo, Frontend, CatalogEntry, table_of, view_of, entry_name,
}
use duckdb_quack.Storage.Schema.{
  QuackSchemaCatalogEntry, Done, behind, store_entry, create_table, create_view, drop_schema_entry,
  remote_view, create_view_sql, store_view, view_on, erase_entry, drop_typed,
}

module _ (u : StringUtil) (f : Frontend) where
  abbrev Schema : Type 0
  Schema = QuackSchemaCatalogEntry u f

  -- The table or view that a schema finds.
  unfoldable pub found : Bytes → Schema → Option (CatalogEntry f)
  unfolding get_entry
  found name s = get_entry u (entry_name f) name s.tables

  -- What is found after `e` has been entered.
  abbrev pub found_with : CatalogEntry f → Bytes → Schema → Option (CatalogEntry f)
  found_with e name s =
      if same (u.lower (entry_name f e)) (u.lower name) then some e else found name s

  -- The info that CreateTable sends and stores.
  abbrev pub placed : CreateTableInfo f.Columns → Schema → CreateTableInfo f.Columns
  placed info s = record info { catalog = s.catalog; schema = s.name }

  tested_twice :
      {A : Type 0} (b : Bool) (e d : Option A)
      → (if b then none else (if b then e else d)) ≡ (if b then none else d)
  tested_twice true e d = refl
  tested_twice false e d = refl

  module _ (r : Remote) where
    found-store_entry :
        (e : CatalogEntry f) (on_conflict : OnCreateConflict) (s : Schema) (t : QuackTransaction r)
        (stored : CatalogEntry f) (name : Bytes)
        → (store_entry u f r e on_conflict s t).0 ≡ ok stored
        → found name (store_entry u f r e on_conflict s t).1
          ≡ (if same (u.lower (entry_name f e)) (u.lower name) then some stored else found name s)
    unfolding store_entry found
    found-store_entry e on_conflict s t stored name done =
        let entry : (create_entry u (entry_name f) e on_conflict s.tables).0 ≡ stored = cc in
        subst
          (λ (x : CatalogEntry f).
            found name (store_entry u f r e on_conflict s t).1
            ≡ (if same (u.lower (entry_name f e)) (u.lower name) then some x else found name s))
          entry (get_entry-create_entry u (entry_name f) e on_conflict s.tables name)

    found-behind :
        (e : CatalogEntry f) (on_conflict : OnCreateConflict) (s : Schema) (answer : Answer r)
        (stored : CatalogEntry f) (name : Bytes)
        → (behind u f r s (store_entry u f r e on_conflict s) answer).0 ≡ ok stored
        → found name (behind u f r s (store_entry u f r e on_conflict s) answer).1
          ≡ (if same (u.lower (entry_name f e)) (u.lower name) then some stored else found name s)
    found-behind e on_conflict s (err x, t) stored name done = cc
    found-behind e on_conflict s (ok rows, t) stored name done =
        found-store_entry e on_conflict s t stored name done

    pub found-create_table :
        (info : CreateTableInfo f.Columns) (s : Schema) (t : QuackTransaction r)
        (stored : CatalogEntry f) (name : Bytes)
        → (create_table u f r info s t).0 ≡ ok stored
        → found name (create_table u f r info s t).1
          ≡ (if same (u.lower info.table) (u.lower name) then some stored else found name s)
    unfolding create_table
    found-create_table info s t stored name =
        let placed : CreateTableInfo f.Columns = record info {
          catalog = s.catalog;
          schema = s.name;
        } in
        found-behind (table_of placed) info.on_conflict s (query r (f.create_table_text placed) t)
          stored name

    found-behind-view :
        (info : CreateViewInfo f.ViewRest f.Query) (sql : Bytes) (parsed : Result f.Query)
        (s : Schema) (answer : Answer r) (stored : CatalogEntry f) (name : Bytes)
        → (behind u f r s
            (store_view u f r info.on_conflict s (view_on u f info sql parsed))
            answer).0
          ≡ ok stored
        → found name
            (behind u f r s
              (store_view u f r info.on_conflict s (view_on u f info sql parsed))
              answer).1
          ≡ (if same (u.lower info.view_name) (u.lower name) then some stored else found name s)
    found-behind-view info sql parsed s (err x, t) stored name done = cc
    found-behind-view info sql (err x) s (ok rows, t) stored name done = cc
    found-behind-view info sql (ok parsed) s (ok rows, t) stored name done =
        found-store_entry (view_of (record info { sql = sql; query = parsed })) info.on_conflict s t
          stored name done

    pub found-create_view :
        (info : CreateViewInfo f.ViewRest f.Query) (s : Schema) (t : QuackTransaction r)
        (stored : CatalogEntry f) (name : Bytes)
        → (create_view u f r info s t).0 ≡ ok stored
        → found name (create_view u f r info s t).1
          ≡ (if same (u.lower info.view_name) (u.lower name) then some stored else found name s)
    unfolding create_view remote_view
    found-create_view info s t stored name =
        let sql = create_view_sql u f s.attached_name s.name info.view_name in
        found-behind-view info sql (f.parse_select sql) s
          (query r (f.create_view_text (record info { catalog = s.catalog; schema = s.name })) t)
          stored name

    found-behind-erase :
        (drop_name : Bytes) (s : Schema) (answer : Answer r) (name : Bytes)
        → (behind u f r s (erase_entry u f r drop_name s) answer).0 ≡ ok tt
        → found name (behind u f r s (erase_entry u f r drop_name s) answer).1
          ≡ (if same (u.lower drop_name) (u.lower name) then none else found name s)
    unfolding found drop_entry
    found-behind-erase drop_name s (err x, t) name done = cc
    found-behind-erase drop_name s (ok rows, t) name done =
        lookup-remove (u.lower drop_name) (u.lower name) s.tables

    drop_typed-found :
        (type : CatalogType) (info : DropInfo) (s : Schema) (t : QuackTransaction r) (name : Bytes)
        → (drop_typed u f r type info s t).0 ≡ ok tt
        → found name (drop_typed u f r type info s t).1
          ≡ (if same (u.lower info.name) (u.lower name) then none else found name s)
    drop_typed-found table_entry info s t name done =
        found-behind-erase info.name s
          (query r (f.drop_text (record info { catalog = s.catalog; schema = s.name })) t) name done
    drop_typed-found view_entry info s t name done =
        found-behind-erase info.name s
          (query r (f.drop_text (record info { catalog = s.catalog; schema = s.name })) t) name done
    drop_typed-found table_function_entry info s t name done = cc
    drop_typed-found other_entry info s t name done = cc

    -- If CreateTable returns, and then DropEntry of the name of the table, no spelling that is
    -- the same in lower case as this name is found any more, and every other name is found as
    -- before both.
    pub drop-create_table :
        (info : CreateTableInfo f.Columns) (drop : DropInfo) (s : Schema) (t : QuackTransaction r)
        (stored : CatalogEntry f) (name : Bytes)
        → drop.name ≡ info.table
        → let created = create_table u f r info s t in
          created.0 ≡ ok stored
          → (drop_schema_entry u f r drop created.1 created.2).0 ≡ ok tt
          → found name (drop_schema_entry u f r drop created.1 created.2).1
            ≡ (if same (u.lower info.table) (u.lower name) then none else found name s)
    unfolding drop_schema_entry
    drop-create_table info drop s t stored name same_name created dropped =
        let c = create_table u f r info s t in
        drop_typed-found drop.type drop c.1 c.2 name dropped
        ∙ (ap (λ n. if same (u.lower n) (u.lower name) then none else found name c.1) same_name
            ∙ (ap (λ e. if same (u.lower info.table) (u.lower name) then none else e)
                  (found-create_table info s t stored name created)
                ∙ tested_twice (same (u.lower info.table) (u.lower name)) (some stored)
                    (found name s)))

    -- Its transaction is the one of the query, whatever becomes of the schema.
    behind_kept :
        {A : Type 0} (s : Schema) (next : QuackTransaction r → Done u f r A) (answer : Answer r)
        → ((t : QuackTransaction r) → (next t).2 ≡ t)
        → (behind u f r s next answer).2 ≡ answer.1
    behind_kept s next (err x, t) kept = refl
    behind_kept s next (ok rows, t) kept = kept t

    pub sent-create_table :
        (info : CreateTableInfo f.Columns) (s : Schema) (t : QuackTransaction r)
        → (create_table u f r info s t).2 ≡ (query r (f.create_table_text (placed info s)) t).1
    unfolding create_table store_entry
    sent-create_table info s t =
        behind_kept s (store_entry u f r (table_of (placed info s)) info.on_conflict s)
          (query r (f.create_table_text (placed info s)) t) (λ t1. refl)

    query_open :
        (sql : Bytes) (w : r.World)
        → (sequence r (sql ∷ []) (open_transaction r transaction_not_yet_started w)).1
          ≡ (query r sql (open_transaction r transaction_not_yet_started w)).1
    unfolding sequence
    query_open sql w = ended (query r sql (open_transaction r transaction_not_yet_started w))
      where
        ended : (a : Answer r) → (and_then r a (λ t1. (ok none, t1))).1 ≡ a.1
        ended (err x, t) = refl
        ended (ok rows, t) = refl

    -- If CreateTable returns in a transaction that was started in a live context, then the
    -- rollback of the transaction has the outcome and the effect on the server of ROLLBACK, while
    -- the schema still finds the entry that CreateTable returned under every spelling that is the
    -- same in lower case as the name of the table, and every other name as before.
    pub rollback-create_table :
        (info : CreateTableInfo f.Columns) (s : Schema) (state : QuackTransactionState)
        (w : r.World) (stored : CatalogEntry f)
        → let created = create_table u f r info s (start r (open_transaction r state w)) in
          created.0 ≡ ok stored
          → (view r (rollback r created.2) ≡ execute_all r (codes "ROLLBACK" ∷ []) created.2.world)
            × ((name : Bytes)
                → found name created.1 ≡ (
                    if same (u.lower info.table) (u.lower name) then some stored else found name s))
    unfolding start
    rollback-create_table info s state w stored created =
        let t = open_transaction r transaction_not_yet_started w in
        let sql = f.create_table_text (placed info s) in
        (
          subst
              (λ (t1 : QuackTransaction r).
                view r (rollback r t1) ≡ execute_all r (codes "ROLLBACK" ∷ []) t1.world)
              (query_open sql w ∙ sym (sent-create_table info s t))
              ((transaction_rolls_back r state w).1 sql []),
          λ name. found-create_table info s t stored name created,
        )
