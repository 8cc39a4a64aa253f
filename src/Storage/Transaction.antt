-- ===== src/Storage/Transaction.antt =====
-- src/storage/quack_transaction.cpp: a transaction that is started on the server by its first query.

pub mod Laws
pub mod Rollback
use duckdb_quack.Prelude.{
  Bool, true, false, Bytes, codes, Option, none, some, Result, ok, err, List, [], ◌∷◌,
}

-- `ExecuteCommandInternal` of the catalog, with the state of the server that it talks to.
pub record Remote : Type 1 where
  pub World : Type 0
  pub Rows : Type 0
  pub execute_command_internal : World → Bytes → Result Rows × World

pub data QuackTransactionState : Type 0 where
  transaction_not_yet_started transaction_started transaction_finished : QuackTransactionState

module _ (r : Remote) where
  -- The transaction and the server; `has_context` says that `context.lock()` gives the context.
  pub record QuackTransaction : Type 0 where
    pub transaction_state : QuackTransactionState
    pub has_context : Bool
    pub world : r.World

  abbrev pub Answer : Type 0
  Answer = Result (Option r.Rows) × QuackTransaction

  -- The end of `Query`, which sends it if the context is still there.
  unfoldable pub send : Bytes → QuackTransaction → Answer
  send query t = elim t.has_context [
    | false ↦ (ok none, t)
    | true ↦
        let (answer, w) = r.execute_command_internal t.world query in
        elim answer [
          | ok rows ↦ (ok (some rows), record t { world = w })
          | err x ↦ (err x, record t { world = w })
        ]
  ]

  unfoldable pub start : QuackTransaction → QuackTransaction
  start t = record t { transaction_state = transaction_not_yet_started }

  -- `ForceStart`. Its query calls `ForceStart` again, which does nothing in the state that has been
  -- set before.
  unfoldable pub force_start : QuackTransaction → Answer
  unfolding send
  force_start t = elim t.transaction_state [
    | transaction_not_yet_started ↦
        send (codes "BEGIN TRANSACTION") (record t { transaction_state = transaction_started })
    | _ ↦ (ok none, t)
  ]

  unfoldable pub query : Bytes → QuackTransaction → Answer
  unfolding force_start send
  query sql t =
      let (started, t1) = force_start t in elim started [ err x ↦ (err x, t1) | ok _ ↦ send sql t1 ]

  abbrev finish : Bytes → QuackTransaction → Answer
  finish sql t = elim t.transaction_state [
    | transaction_started ↦ query sql (record t { transaction_state = transaction_finished })
    | _ ↦ (ok none, t)
  ]

  unfoldable pub commit : QuackTransaction → Answer
  unfolding query
  commit t = finish (codes "COMMIT") t

  unfoldable pub rollback : QuackTransaction → Answer
  unfolding query
  rollback t = finish (codes "ROLLBACK") t
