-- ===== src/Storage/Tests.antt =====
-- The theorem on transactions at a concrete server, which keeps the queries in its state.
use duckdb_quack.Prelude.{ℕ, List, [], ◌∷◌, ◌++◌, Bytes, codes, ok, ◌≡◌}
use duckdb_quack.Storage.Transaction.{rollback, Remote, start, transaction_finished}
use duckdb_quack.Storage.Transaction.Rollback.{transaction_rolls_back}
use duckdb_quack.Storage.Transaction.Laws.{
  sequence, committed, execute_all, view, open_transaction, transaction_commits,
}

abbrev pub recorder : Remote
recorder = record {
  World = List Bytes;
  Rows = ℕ;
  execute_command_internal = λ w query. (ok 0, w ++ query ∷ []);
}

transaction_commits_example :
    view recorder (
      committed recorder
        (codes "SELECT 1" ∷ [])
        (start recorder (open_transaction recorder transaction_finished [])))
    ≡ (ok tt, codes "BEGIN TRANSACTION" ∷ codes "SELECT 1" ∷ codes "COMMIT" ∷ [])
unfolding execute_all
transaction_commits_example =
    (transaction_commits recorder transaction_finished []).1 (codes "SELECT 1") []

transaction_rolls_back_example :
    view recorder (
      rollback recorder
        (sequence recorder
          (codes "SELECT 1" ∷ [])
          (start recorder (open_transaction recorder transaction_finished []))).1)
    ≡ execute_all recorder
        (codes "ROLLBACK" ∷ [])
        (sequence recorder
          (codes "SELECT 1" ∷ [])
          (start recorder (open_transaction recorder transaction_finished []))).1.world
transaction_rolls_back_example =
    (transaction_rolls_back recorder transaction_finished []).1 (codes "SELECT 1") []
