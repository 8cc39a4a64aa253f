-- ===== src/Storage/SchemaTests.antt =====
-- A table that is created in a schema, dropped, and created in a transaction that is rolled back,
-- and a transaction whose COMMIT fails.
use duckdb_quack.Prelude.{
  ℕ, [], ◌∷◌, ◌++◌, Bytes, List, codes, none, some, ok, err, internal, ◌≡◌, refl, same, lookup,
  if◌then◌else◌,
}
use duckdb_quack.Text.Reference.{reference}
use duckdb_quack.Storage.Tests.{recorder}
use duckdb_quack.Storage.Transaction.{
  Remote, QuackTransaction, transaction_started, transaction_finished, start, rollback,
}
use duckdb_quack.Storage.Transaction.Laws.{open_transaction, view, execute_all}
use duckdb_quack.Storage.Entries.{view_entry, table_function_entry, DropInfo, table_of}
use duckdb_quack.Storage.Schema.{create_table, drop_schema_entry, lookup_entry, macro}
use duckdb_quack.Storage.Schema.Laws.{found, placed, rollback-create_table, drop-create_table}
use duckdb_quack.Storage.Sample.{frontend, table_info, Schema}
use duckdb_quack.Storage.Manager.{QuackTransactionManager, commit_transaction, rollback_transaction}
use duckdb_quack.Storage.Manager.Laws.{managed, rollback_transaction-commit_transaction}

abbrev main_schema : Schema
main_schema = record {
  attached_name = codes "q";
  catalog = codes "db";
  name = codes "main";
  tables = [];
  default_function_map = [];
}

abbrev begun : QuackTransaction recorder
begun = start recorder (open_transaction recorder transaction_finished [])

abbrev drop_it : DropInfo
drop_it = record { type = view_entry; catalog = []; schema = []; name = codes "Tab" }

sent_in_transaction :
    (create_table reference frontend recorder (table_info (codes "Tab")) main_schema begun).2.world
    ≡ codes "BEGIN TRANSACTION" ∷ codes "Tab" ∷ []
unfolding create_table start
sent_in_transaction = refl

built_in_function :
    (lookup_entry reference frontend table_function_entry (codes "QUERY") main_schema).0
    ≡ ok (some (macro (codes "FROM quack_query_by_name(q, remote_sql_query)")))
unfolding lookup_entry same reference
built_in_function = refl

rollback-create_table_example :
    let created =
      create_table reference frontend recorder (table_info (codes "Tab")) main_schema begun in
    (view recorder (rollback recorder created.2)
      ≡ execute_all recorder (codes "ROLLBACK" ∷ []) created.2.world)
    × ((name : Bytes)
        → found reference frontend name created.1 ≡ (
            if same (reference.lower (codes "Tab")) (reference.lower name)
            then some (table_of (placed reference frontend (table_info (codes "Tab")) main_schema))
            else found reference frontend name main_schema))
unfolding create_table start
rollback-create_table_example =
    rollback-create_table reference frontend recorder (table_info (codes "Tab")) main_schema
      transaction_finished []
      (table_of (placed reference frontend (table_info (codes "Tab")) main_schema)) refl

drop-create_table_example :
    let created =
      create_table reference frontend recorder (table_info (codes "Tab")) main_schema begun in
    let dropped = drop_schema_entry reference frontend recorder drop_it created.1 created.2 in
    found reference frontend (codes "tab") dropped.1 ≡ none
unfolding create_table drop_schema_entry start same reference
drop-create_table_example =
    drop-create_table reference frontend recorder (table_info (codes "Tab")) drop_it main_schema
      begun (table_of (placed reference frontend (table_info (codes "Tab")) main_schema))
      (codes "tab") refl refl refl

-- A server that refuses every query.
abbrev refusing : Remote
refusing = record {
  World = List Bytes;
  Rows = ℕ;
  execute_command_internal = λ w query. (err (internal "refused" []), w ++ query ∷ []);
}

abbrev one_transaction : QuackTransactionManager refusing
one_transaction = record {
  transactions = (codes "a", managed refusing transaction_started) ∷ [];
  world = [];
}

rollback_transaction-commit_transaction_example :
    let (committed, m1) = commit_transaction refusing (codes "a") one_transaction in
    let (rolled_back, m2) = rollback_transaction refusing (codes "a") m1 in
    (committed ≡ err (internal "refused" []))
    × (m1.world ≡ codes "COMMIT" ∷ [])
    × (lookup (codes "a") m1.transactions ≡ some (managed refusing transaction_finished))
    × (rolled_back ≡ ok tt)
    × (m2.world ≡ codes "COMMIT" ∷ [])
    × (lookup (codes "a") m2.transactions ≡ none)
unfolding same lookup
rollback_transaction-commit_transaction_example =
    rollback_transaction-commit_transaction refusing (codes "a") (codes "a") one_transaction
      (codes "COMMIT" ∷ []) (internal "refused" []) refl refl
