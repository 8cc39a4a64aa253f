-- ===== src/Storage/Transaction/Laws.antt =====
-- What a transaction sends to the server.
use duckdb_quack.Prelude.{
  true, Bytes, codes, Option, none, some, Result, ok, err, Exception, List, [], ◌∷◌, ◌++◌, ◌≡◌,
  refl, sym, ap, ◌∙◌, arith,
}
use duckdb_quack.Storage.Transaction.{
  Remote, QuackTransactionState, transaction_not_yet_started, transaction_started, QuackTransaction,
  Answer, send, start, force_start, query, commit,
}

module _ (r : Remote) where
  abbrev pub and_then : Answer r → (QuackTransaction r → Answer r) → Answer r
  and_then (ok _, t) next = next t
  and_then (err x, t) next = (err x, t)

  -- The queries one after the other, up to the first that fails.
  unfoldable pub sequence : List Bytes → QuackTransaction r → Answer r
  sequence [] t = (ok none, t)
  sequence (sql ∷ queries) t = and_then (query r sql t) (λ t1. sequence queries t1)

  -- The queries, and then the commit if none of them has failed.
  unfoldable pub committed : List Bytes → QuackTransaction r → Answer r
  unfolding sequence
  committed queries t = and_then (sequence queries t) (λ t1. commit r t1)

  -- The same on the server alone.
  unfoldable pub execute_all : List Bytes → r.World → Result (Unit {0}) × r.World
  execute_all [] w = (ok tt, w)
  execute_all (sql ∷ queries) w =
      let (answer, w1) = r.execute_command_internal w sql in
      elim answer [ err x ↦ (err x, w1) | ok _ ↦ execute_all queries w1 ]

  abbrev pub outcome : Result (Option r.Rows) → Result (Unit {0})
  outcome (ok _) = ok tt
  outcome (err x) = err x

  abbrev pub view : Answer r → Result (Unit {0}) × r.World
  view (answer, t) = (outcome answer, t.world)

  abbrev pub open_transaction : QuackTransactionState → r.World → QuackTransaction r
  open_transaction state w = record { transaction_state = state; has_context = true; world = w }

  -- What a query gives that is sent in this state, by the answer of the server.
  abbrev pub sent : QuackTransactionState → Result r.Rows × r.World → Answer r
  sent state (ok rows, w) = (ok (some rows), open_transaction state w)
  sent state (err x, w) = (err x, open_transaction state w)

  send-sent :
      (state : QuackTransactionState) (sql : Bytes) (w : r.World)
      → send r sql (open_transaction state w) ≡ sent state (r.execute_command_internal w sql)
  unfolding send
  send-sent state sql w = ground arith

  pub query_started :
      (sql : Bytes) (w : r.World)
      → query r sql (open_transaction transaction_started w)
        ≡ sent transaction_started (r.execute_command_internal w sql)
  unfolding query force_start
  query_started sql w = send-sent transaction_started sql w

  committed_step :
      (sql : Bytes) (queries : List Bytes) (t t1 : QuackTransaction r) (x : Option r.Rows)
      → query r sql t ≡ (ok x, t1)
      → committed (sql ∷ queries) t ≡ committed queries t1
  unfolding committed sequence
  committed_step sql queries t t1 x h =
      ap (λ a. and_then (and_then a (λ t2. sequence queries t2)) (λ t2. commit r t2)) h

  committed_stop :
      (sql : Bytes) (queries : List Bytes) (t t1 : QuackTransaction r) (x : Exception)
      → query r sql t ≡ (err x, t1)
      → committed (sql ∷ queries) t ≡ (err x, t1)
  unfolding committed sequence
  committed_stop sql queries t t1 x h =
      ap (λ a. and_then (and_then a (λ t2. sequence queries t2)) (λ t2. commit r t2)) h

  execute_step :
      (sql : Bytes) (queries : List Bytes) (w w1 : r.World) (rows : r.Rows)
      → r.execute_command_internal w sql ≡ (ok rows, w1)
      → execute_all (sql ∷ queries) w ≡ execute_all queries w1
  unfolding execute_all
  execute_step sql queries w w1 rows h = simp (h, execute_all) refl

  execute_stop :
      (sql : Bytes) (queries : List Bytes) (w w1 : r.World) (x : Exception)
      → r.execute_command_internal w sql ≡ (err x, w1)
      → execute_all (sql ∷ queries) w ≡ (err x, w1)
  unfolding execute_all
  execute_stop sql queries w w1 x h = simp (h, execute_all) refl

  committed_started :
      (queries : List Bytes) (w : r.World)
      → view (committed queries (open_transaction transaction_started w))
        ≡ execute_all (queries ++ codes "COMMIT" ∷ []) w
  unfolding committed sequence execute_all query force_start send commit
  committed_started [] w = ground arith
  committed_started (sql ∷ queries) w =
      go (r.execute_command_internal w sql) refl (committed_started queries)
    where
      go :
          (a : Result r.Rows × r.World)
          → r.execute_command_internal w sql ≡ a
          → ((w' : r.World)
              → view (committed queries (open_transaction transaction_started w'))
                ≡ execute_all (queries ++ codes "COMMIT" ∷ []) w')
          → view (committed (sql ∷ queries) (open_transaction transaction_started w))
            ≡ execute_all (sql ∷ (queries ++ codes "COMMIT" ∷ [])) w
      go (ok rows, w1) h again =
          ap view (
            committed_step sql queries (open_transaction transaction_started w)
              (open_transaction transaction_started w1) (some rows)
              (query_started sql w ∙ ap (sent transaction_started) h))
          ∙ again w1
          ∙ sym (execute_step sql (queries ++ codes "COMMIT" ∷ []) w w1 rows h)
      go (err x, w1) h again =
          ap view (
            committed_stop sql queries (open_transaction transaction_started w)
              (open_transaction transaction_started w1) x
              (query_started sql w ∙ ap (sent transaction_started) h))
          ∙ sym (execute_stop sql (queries ++ codes "COMMIT" ∷ []) w w1 x h)

  query_first :
      (sql : Bytes) (w : r.World)
      → query r sql (open_transaction transaction_not_yet_started w)
        ≡ and_then
            (send r (codes "BEGIN TRANSACTION") (open_transaction transaction_started w))
            (λ t1. send r sql t1)
  unfolding query force_start
  query_first sql w = ground arith

  pub begun :
      (sql : Bytes) (w : r.World) (a : Result r.Rows × r.World)
      → r.execute_command_internal w (codes "BEGIN TRANSACTION") ≡ a
      → query r sql (open_transaction transaction_not_yet_started w)
        ≡ and_then (sent transaction_started a) (λ t1. send r sql t1)
  begun sql w a h =
      query_first sql w
      ∙ ap (λ v. and_then v (λ t1. send r sql t1))
          (send-sent transaction_started (codes "BEGIN TRANSACTION") w
            ∙ ap (sent transaction_started) h)

  -- The first query of a transaction sends BEGIN first.
  committed_first :
      (sql : Bytes) (queries : List Bytes) (w : r.World)
      → view (committed (sql ∷ queries) (open_transaction transaction_not_yet_started w))
        ≡ execute_all (codes "BEGIN TRANSACTION" ∷ sql ∷ (queries ++ codes "COMMIT" ∷ [])) w
  unfolding committed sequence query force_start
  committed_first sql queries w = go (r.execute_command_internal w (codes "BEGIN TRANSACTION")) refl
    where
      go :
          (a : Result r.Rows × r.World)
          → r.execute_command_internal w (codes "BEGIN TRANSACTION") ≡ a
          → view (committed (sql ∷ queries) (open_transaction transaction_not_yet_started w))
            ≡ execute_all (codes "BEGIN TRANSACTION" ∷ sql ∷ (queries ++ codes "COMMIT" ∷ [])) w
      go (ok rows, w1) h =
          ap (λ v. view (and_then (and_then v (λ t2. sequence queries t2)) (λ t2. commit r t2)))
            (begun sql w (ok rows, w1) h)
          ∙ committed_started (sql ∷ queries) w1
          ∙ sym (
              execute_step (codes "BEGIN TRANSACTION") (sql ∷ (queries ++ codes "COMMIT" ∷ [])) w w1
                rows h)
      go (err x, w1) h =
          ap (λ v. view (and_then (and_then v (λ t2. sequence queries t2)) (λ t2. commit r t2)))
            (begun sql w (err x, w1) h)
          ∙ sym (
              execute_stop (codes "BEGIN TRANSACTION") (sql ∷ (queries ++ codes "COMMIT" ∷ [])) w w1
                x h)

  -- A transaction that is started, runs queries in a live context and is committed unless one
  -- fails sends nothing if there are no queries; otherwise it has the outcome and the effect on
  -- the server of BEGIN TRANSACTION, the queries and COMMIT, up to the first that fails.
  pub transaction_commits :
      (state : QuackTransactionState) (w : r.World)
      → let t = start r (open_transaction state w) in
        (view (committed [] t) ≡ (ok tt, w))
        × ((sql : Bytes) (queries : List Bytes)
            → view (committed (sql ∷ queries) t)
              ≡ execute_all (codes "BEGIN TRANSACTION" ∷ sql ∷ (queries ++ codes "COMMIT" ∷ [])) w)
  unfolding start committed sequence execute_all query force_start send commit
  transaction_commits state w = (refl, λ sql queries. committed_first sql queries w)
