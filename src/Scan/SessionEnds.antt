-- ===== src/Scan/SessionEnds.antt =====
-- The loop of QuackScan ends on a server's session, whose batches hold no empty chunk.
use duckdb_quack.Prelude.{
  ℕ, suc, ◌+◌, ◌%◌, ◌^◌, true, false, List, [], ◌∷◌, Bytes, Option, none, some, Result, Exception,
  ok, err, ◌>>=◌, ◌≡◌, ◌≢◌, refl, ap, inl, inr, Bool-cases, All, ◌==◌, subst,
}
use duckdb_quack.Text.StringUtil.{StringUtil}
use duckdb_quack.Uri.Parse.{QuackUri}
use duckdb_quack.Message.Types.{
  MessageType, type_value, Body, message, fetch_request_body, fetch_response_body, fetch_response,
  prepare_request_body, prepare_response_body, connection_request_body, connection_response_body,
  append_request_body, disconnect_body, success_body, error_body,
}
use duckdb_quack.Client.Request.{expect}
use duckdb_quack.Server.Engine.{Engine}
use duckdb_quack.Server.State.{QuackConnection}
use duckdb_quack.Server.Batch.{Batch, create_batch}
use duckdb_quack.Server.Batch.Laws.{create_batch_bound}
use duckdb_quack.Server.Requests.{
  Message, fetch, error_response_of, error_text, respond_batch, max_chunks_per_batch,
}
use duckdb_quack.Scan.Types.{Chunks, as_fetch_response, QuackScanBindData}
use duckdb_quack.Scan.Init.{QuackScanGlobalState, QuackScanLocalState}
use duckdb_quack.Scan.Loop.{quack_scan}
use duckdb_quack.Scan.Session.{session_remote, session_request}
use duckdb_quack.Scan.Termination.{Returns, IsFilled, quack_scan_terminates}

module _ (e : Engine) (u : StringUtil) (k : Chunks e.Chunk)
    (agree : (c : e.Chunk) → k.chunk_size c ≡ e.chunk_size c) where
  All-agree :
      (cs : List e.Chunk) → All (λ c. e.chunk_size c ≢ 0) cs → All (λ c. k.chunk_size c ≢ 0) cs
  All-agree [] h = tt
  All-agree (c ∷ cs) (here, h) = (rw (agree c) here, All-agree cs h)

  abbrev results_in : Result (List e.Chunk × Option ℕ) → List e.Chunk
  results_in (err x) = []
  results_in (ok (results, index)) = results

  respond_filled :
      (batch : Batch e) (c answered : QuackConnection e) (index index1 : Option ℕ)
      (results : List e.Chunk)
      → All (λ c. k.chunk_size c ≢ 0) batch.results
      → as_fetch_response
          (respond_batch e u batch c answered
            (message [] (fetch_response_body batch.results index))).response
        ≡ ok (results, index1)
      → All (λ c. k.chunk_size c ≢ 0) results
  unfolding respond_batch message error_response_of
  respond_filled batch c answered index index1 results full = split batch.query_result refl
    where
      split :
          (q : Option e.Rows)
          → batch.query_result ≡ q
          → as_fetch_response
              (respond_batch e u batch c answered
                (message [] (fetch_response_body batch.results index))).response
            ≡ ok (results, index1)
          → All (λ c. k.chunk_size c ≢ 0) results
      split none q = rw (q, respond_batch) λ h. subst (All _) (ap results_in h) full
      split (some rows) q = elim (Bool-cases (e.has_error rows)) [
        | inl bad ↦ rw (q, respond_batch, bad) λ h. cc
        | inr fine ↦ rw (q, respond_batch, fine) λ h. subst (All _) (ap results_in h) full
      ]

  fetch_filled :
      (db : e.Db) (c : QuackConnection e) (uuid : ℕ) (index : Option ℕ) (results : List e.Chunk)
      → as_fetch_response (fetch e u db c uuid).response ≡ ok (results, index)
      → All (λ c. k.chunk_size c ≢ 0) results
  unfolding fetch message error_response_of error_text
  fetch_filled db c uuid index results = elim (Bool-cases (c.result_uuid == uuid)) [
    | inr stale ↦ rw (fetch, stale) λ h. cc
    | inl current ↦ split current c.duckdb_query_result refl
  ]
    where
      split :
          (c.result_uuid == uuid) ≡ true
          → (q : Option e.Rows) → c.duckdb_query_result ≡ q
          → as_fetch_response (fetch e u db c uuid).response ≡ ok (results, index)
          → All (λ c. k.chunk_size c ≢ 0) results
      split current none q = rw (fetch, current, q) λ h. subst (All _) (ap results_in h) tt
      split current (some rows) q = elim (Bool-cases (e.has_error rows)) [
        | inl bad ↦ rw (fetch, current, q, bad) λ h. cc
        | inr fine ↦
            rw (fetch, current, q, fine)
              (respond_filled (create_batch e (max_chunks_per_batch e u db) db rows) c
                (record c { next_batch_index = (c.next_batch_index + 1) % 2 ^ 64 })
                (some c.next_batch_index) index results
                (All-agree _ (create_batch_bound e (max_chunks_per_batch e u db) db rows).1))
      ]

  -- A response that `Request` returns is the one that was received.
  expect_text :
      (got expected : Result Bytes) (text : Bytes → Bytes → Exception) (m : Message e u)
      → ¬ (expected >>= (λ a. got >>= (λ b. err (text a b))) ≡ ok m)
  expect_text (err x) (err y) text m h = cc
  expect_text (err x) (ok b) text m h = cc
  expect_text (ok a) (err y) text m h = cc
  expect_text (ok a) (ok b) text m h = cc

  expect-eq-ok : (target : MessageType) (m m1 : Message e u) → expect target m ≡ ok m1 → m ≡ m1
  unfolding expect
  expect-eq-ok target m m1 = elim (Bool-cases (type_value m.header.type == type_value target)) [
    | inl matched ↦ rw (expect, matched) λ h. cc
    | inr other ↦ refused other m.body refl
  ]
    where
      refused :
          (type_value m.header.type == type_value target) ≡ false
          → (body : Body e.Chunk e.Logical) → m.body ≡ body
          → expect target m ≡ ok m1
          → m ≡ m1
      refused other (error_body _) b = rw (expect, other, b) λ h. cc
      refused other (prepare_request_body _) b =
          rw (expect, other, b) λ h. absurd (expect_text _ _ _ m1 h)
      refused other (prepare_response_body _ _ _ _ _) b =
          rw (expect, other, b) λ h. absurd (expect_text _ _ _ m1 h)
      refused other (connection_request_body _ _ _ _ _) b =
          rw (expect, other, b) λ h. absurd (expect_text _ _ _ m1 h)
      refused other (connection_response_body _ _ _) b =
          rw (expect, other, b) λ h. absurd (expect_text _ _ _ m1 h)
      refused other (fetch_request_body _) b =
          rw (expect, other, b) λ h. absurd (expect_text _ _ _ m1 h)
      refused other (fetch_response_body _ _) b =
          rw (expect, other, b) λ h. absurd (expect_text _ _ _ m1 h)
      refused other (append_request_body _ _ _) b =
          rw (expect, other, b) λ h. absurd (expect_text _ _ _ m1 h)
      refused other disconnect_body b = rw (expect, other, b) λ h. absurd (expect_text _ _ _ m1 h)
      refused other success_body b = rw (expect, other, b) λ h. absurd (expect_text _ _ _ m1 h)

  module _ (uri : QuackUri) (id : Bytes) where
    session-IsFilled : (uuid : ℕ) → IsFilled k (session_remote e u uri id) id uuid
    unfolding session_request message
    session-IsFilled uuid client client1 (db, c) w1 m results index got body =
        let same_message =
          expect-eq-ok fetch_response (fetch e u db c uuid).response m (ap (λ a. a.0) got) in
        fetch_filled db c uuid index results (rw same_message body)

    -- On an authorized session of the server, in whatever state the session, the buffers and the
    -- flag are, the loop of QuackScan returns or throws within two rounds.
    pub session_scan_terminates :
        (fuel : ℕ) (bind_data : QuackScanBindData (session_remote e u uri id))
        (global : QuackScanGlobalState k)
        (local : QuackScanLocalState k (session_remote e u uri id)) (db : e.Db)
        (c : QuackConnection e)
        → Returns (
            quack_scan k
              (session_remote e u uri id)
              (suc (suc fuel))
              bind_data
              global
              local
              (db, c))
    session_scan_terminates fuel bind_data global local db c =
        quack_scan_terminates k (session_remote e u uri id) bind_data
          (session-IsFilled bind_data.result_uuid) global local (db, c) fuel
