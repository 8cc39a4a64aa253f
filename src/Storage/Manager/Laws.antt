-- ===== src/Storage/Manager/Laws.antt =====
-- What becomes of a transaction whose COMMIT fails.
use duckdb_quack.Prelude.{
  Bytes, true, codes, List, none, some, ok, err, Exception, lookup, insert, remove, lookup-insert,
  lookup-remove, same, same_refl, if◌then◌else◌, ◌≡◌, refl, ap, ◌∙◌, arith,
}
use duckdb_quack.Storage.Transaction.{
  Remote, QuackTransactionState, transaction_started, transaction_finished, QuackTransaction,
  Answer, commit, rollback, query, force_start, send,
}
use duckdb_quack.Storage.Transaction.Laws.{open_transaction}
use duckdb_quack.Storage.Manager.{
  ManagedTransaction, QuackTransactionManager, ended, end_by, commit_transaction,
  rollback_transaction, with_server,
}

module _ (r : Remote) where
  abbrev Manager : Type 0
  Manager = QuackTransactionManager r

  abbrev pub managed : QuackTransactionState → ManagedTransaction
  managed state = record { transaction_state = state; has_context = true }

  commit_fails :
      (w w1 : r.World) (x : Exception)
      → r.execute_command_internal w (codes "COMMIT") ≡ (err x, w1)
      → commit r (open_transaction r transaction_started w)
        ≡ (err x, open_transaction r transaction_finished w1)
  unfolding commit query force_start send
  commit_fails w w1 x h = ground arith

  removed_again :
      (address other : Bytes) (l : List (Bytes × ManagedTransaction))
      → lookup other (remove address (insert address (managed transaction_finished) l))
        ≡ (if same address other then none else lookup other l)
  removed_again address other l = ground (
    arith,
    lookup-remove address other (insert address (managed transaction_finished) l),
    lookup-insert address other (managed transaction_finished) l,
  )

  end_by_live :
      (call : QuackTransaction r → Answer r) (address : Bytes) (m : Manager)
      (t : ManagedTransaction)
      → lookup address m.transactions ≡ some t
      → end_by r call address m ≡ ended r address m (call (with_server r t m.world))
  unfolding end_by
  end_by_live call address m t live = rw (live, end_by) refl

  -- The manager whose transaction at this address is finished and still there.
  abbrev left_over : Bytes → Manager → r.World → Manager
  left_over address m w = record {
    transactions = insert address (managed transaction_finished) m.transactions;
    world = w;
  }

  abbrev without : Bytes → Manager → Manager
  without address m = record m { transactions = remove address m.transactions }

  commit_transaction_fails :
      (address : Bytes) (m : Manager) (w1 : r.World) (x : Exception)
      → lookup address m.transactions ≡ some (managed transaction_started)
      → r.execute_command_internal m.world (codes "COMMIT") ≡ (err x, w1)
      → commit_transaction r address m ≡ (err x, left_over address m w1)
  unfolding commit_transaction
  commit_transaction_fails address m w1 x live fails =
      end_by_live (commit r) address m (managed transaction_started) live
      ∙ ap (ended r address m) (commit_fails m.world w1 x fails)

  rollback_transaction_finished :
      (address : Bytes) (m : Manager)
      → lookup address m.transactions ≡ some (managed transaction_finished)
      → rollback_transaction r address m ≡ (ok tt, without address m)
  unfolding rollback_transaction rollback
  rollback_transaction_finished address m live =
      end_by_live (rollback r) address m (managed transaction_finished) live

  lookup-left_over :
      (address : Bytes) (m : Manager) (w : r.World)
      → lookup address (left_over address m w).transactions ≡ some (managed transaction_finished)
  lookup-left_over address m w =
      lookup-insert address address (managed transaction_finished) m.transactions
      ∙ rw (same_refl address) refl

  -- If the server fails the COMMIT of a transaction of the manager that is started in a live
  -- context, CommitTransaction throws its error and leaves the transaction in the table as
  -- finished; RollbackTransaction of it then sends nothing to the server and removes it; the
  -- other transactions stay as they are.
  pub rollback_transaction-commit_transaction :
      (address other : Bytes) (m : Manager) (w1 : r.World) (x : Exception)
      → lookup address m.transactions ≡ some (managed transaction_started)
      → r.execute_command_internal m.world (codes "COMMIT") ≡ (err x, w1)
      → let (committed, m1) = commit_transaction r address m in
        let (rolled_back, m2) = rollback_transaction r address m1 in
        (committed ≡ err x)
        × (m1.world ≡ w1)
        × (lookup other m1.transactions ≡ (
            if same address other
            then some (managed transaction_finished)
            else lookup other m.transactions))
        × (rolled_back ≡ ok tt)
        × (m2.world ≡ w1)
        × (lookup other m2.transactions
            ≡ (if same address other then none else lookup other m.transactions))
  rollback_transaction-commit_transaction address other m w1 x live fails =
      let e = commit_transaction_fails address m w1 x live fails in
      let m1 = left_over address m w1 in
      rw e (
        rw (rollback_transaction_finished address m1 (lookup-left_over address m w1)) (
          refl,
          refl,
          lookup-insert address other (managed transaction_finished) m.transactions,
          refl,
          refl,
          removed_again address other m.transactions,
        ))
