-- ===== src/Storage/Transaction/Rollback.antt =====
-- What the rollback of a transaction sends to the server.
use duckdb_quack.Prelude.{
  Bytes, codes, Result, ok, err, List, [], ◌∷◌, ◌≡◌, refl, sym, ap, ◌∙◌, arith, subst,
}
use duckdb_quack.Storage.Transaction.{
  Remote, QuackTransactionState, transaction_not_yet_started, transaction_started, QuackTransaction,
  send, start, force_start, query, rollback,
}
use duckdb_quack.Storage.Transaction.Laws.{
  and_then, sequence, execute_all, view, open_transaction, sent, query_started, begun,
}

module _ (r : Remote) where
  -- The transaction is started in a live context.
  abbrev pub IsOpen : QuackTransaction r → Type 0
  IsOpen t = t ≡ open_transaction r transaction_started t.world

  sequence-IsOpen :
      (queries : List Bytes) (w : r.World)
      → IsOpen (sequence r queries (open_transaction r transaction_started w)).1
  unfolding sequence
  sequence-IsOpen [] w = refl
  sequence-IsOpen (sql ∷ queries) w =
      go (r.execute_command_internal w sql) refl (sequence-IsOpen queries)
    where
      go :
          (a : Result r.Rows × r.World)
          → r.execute_command_internal w sql ≡ a
          → ((w' : r.World)
              → IsOpen (sequence r queries (open_transaction r transaction_started w')).1)
          → IsOpen (sequence r (sql ∷ queries) (open_transaction r transaction_started w)).1
      go (ok rows, w1) h again =
          subst (λ v. IsOpen (and_then r v (λ t1. sequence r queries t1)).1)
            (sym (query_started r sql w ∙ ap (sent r transaction_started) h)) (again w1)
      go (err x, w1) h again =
          subst (λ v. IsOpen (and_then r v (λ t1. sequence r queries t1)).1)
            (sym (query_started r sql w ∙ ap (sent r transaction_started) h)) refl

  pub first-IsOpen :
      (sql : Bytes) (queries : List Bytes) (w : r.World)
      → IsOpen (sequence r (sql ∷ queries) (open_transaction r transaction_not_yet_started w)).1
  unfolding sequence query force_start
  first-IsOpen sql queries w = go (r.execute_command_internal w (codes "BEGIN TRANSACTION")) refl
    where
      go :
          (a : Result r.Rows × r.World)
          → r.execute_command_internal w (codes "BEGIN TRANSACTION") ≡ a
          → IsOpen (sequence r (sql ∷ queries) (open_transaction r transaction_not_yet_started w)).1
      go (ok rows, w1) h =
          subst (λ v. IsOpen (and_then r v (λ t1. sequence r queries t1)).1)
            (sym (begun r sql w (ok rows, w1) h)) (sequence-IsOpen (sql ∷ queries) w1)
      go (err x, w1) h =
          subst (λ v. IsOpen (and_then r v (λ t1. sequence r queries t1)).1)
            (sym (begun r sql w (err x, w1) h)) refl

  pub rollback_open :
      (w : r.World)
      → view r (rollback r (open_transaction r transaction_started w))
        ≡ execute_all r (codes "ROLLBACK" ∷ []) w
  unfolding rollback query force_start send execute_all
  rollback_open w = ground arith

  -- A transaction that is started in a live context and rolled back sends nothing if it has run
  -- no query; after one query or more, up to the first that failed, the rollback has the outcome
  -- and the effect on the server of ROLLBACK.
  pub transaction_rolls_back :
      (state : QuackTransactionState) (w : r.World)
      → let t = start r (open_transaction r state w) in
        (view r (rollback r t) ≡ (ok tt, w))
        × ((sql : Bytes) (queries : List Bytes)
            → let after = (sequence r (sql ∷ queries) t).1 in
              view r (rollback r after) ≡ execute_all r (codes "ROLLBACK" ∷ []) after.world)
  unfolding start rollback
  transaction_rolls_back state w = (
    refl,
    λ sql queries.
        let after =
          (sequence r (sql ∷ queries) (open_transaction r transaction_not_yet_started w)).1 in
        ap (λ t. view r (rollback r t)) (first-IsOpen sql queries w) ∙ rollback_open after.world,
  )
