-- ===== src/Storage/Manager.antt =====
-- src/storage/quack_transaction_manager.cpp: the table of the transactions of an attached database.
pub mod Laws
use duckdb_quack.Prelude.{
  Bytes, Bool, List, Option, none, some, Result, ok, err, lookup, insert, remove, not_implemented,
  [],
}
use duckdb_quack.Storage.Transaction.{
  Remote, QuackTransactionState, QuackTransaction, Answer, start, commit, rollback, query,
}

-- A transaction without the server, which all transactions share.
pub record ManagedTransaction : Type 0 where
  pub transaction_state : QuackTransactionState
  pub has_context : Bool

module _ (r : Remote) where
  -- `transactions` goes by the address of the object; `world` is the server that they talk to.
  pub record QuackTransactionManager : Type 0 where
    pub transactions : List (Bytes × ManagedTransaction)
    pub world : r.World

  abbrev pub with_server : ManagedTransaction → r.World → QuackTransaction r
  with_server t w = record {
    transaction_state = t.transaction_state;
    has_context = t.has_context;
    world = w;
  }

  abbrev pub without_server : QuackTransaction r → ManagedTransaction
  without_server t = record { transaction_state = t.transaction_state; has_context = t.has_context }

  -- `StartTransaction` of a new object, which is allocated at `address`.
  unfoldable pub start_transaction :
      Bytes → ManagedTransaction → QuackTransactionManager → QuackTransactionManager
  unfolding start insert
  start_transaction address transaction m = record m {
    transactions =
        insert address (without_server (start r (with_server transaction m.world))) m.transactions;
  }

  -- What a call of `Commit` or `Rollback` leaves: an exception passes the erasing by.
  abbrev pub ended :
      Bytes → QuackTransactionManager → Answer r → Result (Unit {0}) × QuackTransactionManager
  unfolding insert remove
  ended address m (err x, t) = (
    err x,
    record { transactions = insert address (without_server t) m.transactions; world = t.world },
  )
  ended address m (ok _, t) =
      (ok tt, record { transactions = remove address m.transactions; world = t.world })

  -- The call on the object at this address; an address of no transaction is not passed.
  unfoldable pub end_by :
      (QuackTransaction r → Answer r)
      → Bytes
      → QuackTransactionManager
      → Result (Unit {0}) × QuackTransactionManager
  unfolding lookup ended
  end_by call address m = elim (lookup address m.transactions) [
    | none ↦ (ok tt, m)
    | some t ↦ ended address m (call (with_server t m.world))
  ]

  unfoldable pub commit_transaction :
      Bytes → QuackTransactionManager → Result (Unit {0}) × QuackTransactionManager
  unfolding commit end_by
  commit_transaction address m = end_by (commit r) address m

  unfoldable pub rollback_transaction :
      Bytes → QuackTransactionManager → Result (Unit {0}) × QuackTransactionManager
  unfolding rollback end_by
  rollback_transaction address m = end_by (rollback r) address m

  abbrev pub asked :
      Bytes → QuackTransactionManager → Answer r → Result (Option r.Rows) × QuackTransactionManager
  unfolding insert
  asked address m (answer, t) = (
    answer,
    record { transactions = insert address (without_server t) m.transactions; world = t.world },
  )

  -- `QuackTransaction::Get` of the transaction at this address, and its `Query`.
  unfoldable pub query_in :
      Bytes → Bytes → QuackTransactionManager → Result (Option r.Rows) × QuackTransactionManager
  unfolding lookup query asked
  query_in address sql m = elim (lookup address m.transactions) [
    | none ↦ (ok none, m)
    | some t ↦ asked address m (query r sql (with_server t m.world))
  ]
