-- ===== src/Scan/Delivery.antt =====
-- All calls of one thread on a scan of a server's session.
use duckdb_quack.Prelude.{
  ℕ, zero, suc, ◌+◌, ◌<◌, true, false, List, [], ◌∷◌, ◌++◌, map, length-map, map-take-append-drop,
  Bytes, Option, none, some, ok, ◌≡◌, ◌≢◌, refl, sym, ap, ◌∙◌, subst, inl, inr, Bool-cases, arith,
  length, take, drop, length-drop, length-take, All, ◌==◌,
}
use duckdb_quack.Text.StringUtil.{StringUtil}
use duckdb_quack.Uri.Parse.{QuackUri}
use duckdb_quack.Message.Types.{message, fetch_request_body, fetch_response_body, fetch_response}
use duckdb_quack.Server.Engine.{Engine}
use duckdb_quack.Server.State.{QuackConnection}
use duckdb_quack.Server.Batch.Laws.{Yields, Left}
use duckdb_quack.Server.Requests.{max_chunks_per_batch}
use duckdb_quack.Scan.Remote.{Remote}
use duckdb_quack.Scan.Types.{
  Chunks, ChunkResult, ChunkResultPushdownType, pushdown_already_applied, QuackScanBindData,
}
use duckdb_quack.Scan.Init.{QuackScanGlobalState, results_of}
use duckdb_quack.Scan.Loop.{Output, emit}
use duckdb_quack.Scan.Session.{session_request, session_remote, session_fetch, Fetched}
use duckdb_quack.Scan.Calls.{
  quack_scan_buffered, quack_scan_finished, quack_scan_fetched, quack_scan_ended,
}
use duckdb_quack.Scan.Reader.{
  finished, output_then, read_scan, read_scan_step, read_scan_end, whole, Emits, Emits-whole,
  IsPassed, emit-whole,
}

module _ (e : Engine) (u : StringUtil) (k : Chunks e.Chunk)
    (agree : (c : e.Chunk) → k.chunk_size c ≡ e.chunk_size c) where
  Yields-full :
      (db : e.Db) (rows : e.Rows) (cs : List e.Chunk)
      → Yields e db rows cs
      → All (λ c. k.chunk_size c ≢ 0) cs
  Yields-full db rows [] y = tt
  Yields-full db rows (c ∷ cs) (fine, here, full, y) =
      (rw (agree c) full, Yields-full (e.fetch db rows).0 (e.fetch db rows).2 cs y)

  pub Left-full :
      (db : e.Db) (q : Option e.Rows) (cs : List e.Chunk)
      → Left e db q cs
      → All (λ c. k.chunk_size c ≢ 0) cs
  Left-full db none cs left = rw left tt
  Left-full db (some rows) cs left = Yields-full db rows cs left

  pub All-take-drop :
      (P : e.Chunk → Type 0) (n : ℕ) (cs : List e.Chunk)
      → All P cs
      → All P (take n cs) × All P (drop n cs)
  All-take-drop P zero cs h = (tt, h)
  All-take-drop P (suc n) [] h = (tt, tt)
  All-take-drop P (suc n) (c ∷ cs) (here, h) =
      let (front, back) = All-take-drop P n cs h in ((here, front), back)

  left_over :
      (t : ChunkResultPushdownType) (m : ℕ) (cs : List e.Chunk) (calls : ℕ)
      → length cs < calls
      → length (results_of t (take m cs)) + length (drop m cs) < calls
  left_over t m cs calls h = omega (
    arith,
    length-map {B = ChunkResult e.Chunk} (λ (c : e.Chunk). record { chunk = c; pushdown_type = t })
        (take m cs),
    length-take m cs,
    length-drop m cs,
  )

  -- After a batch that is not full nothing is left.
  pub drop_last : (m : ℕ) (cs : List e.Chunk) → (length (take m cs) == m) ≡ false → drop m cs ≡ []
  drop_last zero [] h = refl
  drop_last zero (c ∷ cs) h = cc
  drop_last (suc m) [] h = refl
  drop_last (suc m) (c ∷ cs) h = drop_last m cs (ground arith)

  module _ (uri : QuackUri) (id : Bytes) (n : ℕ)
      (setting : (db : e.Db) → max_chunks_per_batch e u db ≡ suc n) where
    abbrev r : Remote e.Chunk e.Logical
    r = session_remote e u uri id

    true-ne : ¬ (true ≡ false)
    true-ne h = cc

    cons-ne : {y : e.Chunk} {ys : List e.Chunk} → ¬ (y ∷ ys ≡ [])
    cons-ne h = cc

    -- The next FETCH, of a batch of n + 1 chunks.
    pub next_batch :
        (db : e.Db) (c : QuackConnection e) (cs : List e.Chunk) (uuid : ℕ)
        → Left e db c.duckdb_query_result cs
        → uuid ≡ c.result_uuid
        → (f : Fetched e u id (suc n) db c cs) × (session_request e u fetch_response
              (message id (fetch_request_body uuid))
              tt
              (db, c)
            ≡ (
              ok (message [] (fetch_response_body (take (suc n) cs) f.index)),
              tt,
              (f.db_left, f.connection_left),
            ))
    next_batch db c cs uuid left own =
        let f =
          subst (λ m. Fetched e u id m db c cs) (setting db) (session_fetch e u id db c cs left) in
        (f, rw own f.answer)

    pub read_scan_delivers :
        (calls : ℕ) (bind_data : QuackScanBindData r) (global : QuackScanGlobalState k)
        (index : Option ℕ) (buffer : List (ChunkResult e.Chunk)) (outs : List (Output k))
        (db : e.Db) (c : QuackConnection e) (cs : List e.Chunk)
        → Emits k global.column_ids buffer outs
        → Left e db c.duckdb_query_result cs
        → bind_data.result_uuid ≡ c.result_uuid
        → (global.needs_more_fetch ≡ false → cs ≡ [])
        → All (IsPassed k global.column_ids) cs
        → length buffer + length cs < calls
        → read_scan k r calls bind_data global
            (record { client = tt; current_batch_index = index; results = buffer })
            (db, c)
          ≡ (outs ++ map (whole k) cs, finished)
    unfolding emit
    read_scan_delivers zero bind_data global index buffer outs db c cs em left own last passed
          enough =
        absurd (omega arith)
    read_scan_delivers (suc calls) bind_data global index [] outs db c [] em left own last passed
          enough =
        elim (Bool-cases global.needs_more_fetch) [
          | inl more ↦
              let (f, answer) = next_batch db c [] bind_data.result_uuid left own in
              rw em (
                read_scan_end k r calls bind_data global _ (db, c) _
                  (quack_scan_ended k r bind_data global tt tt index f.index (db, c)
                    (f.db_left, f.connection_left) more 1 answer)
                  refl)
          | inr closed ↦ rw em (
              read_scan_end k r calls bind_data global _ (db, c) _
                (quack_scan_finished k r 1 bind_data global tt index (db, c) closed) refl)
        ]
    read_scan_delivers (suc calls) bind_data global index [] outs db c (y ∷ ys) em left own last
          (passes, passed) enough =
        elim (Bool-cases global.needs_more_fetch) [
          | inl more ↦
              let (f, answer) = next_batch db c (y ∷ ys) bind_data.result_uuid left own in
              let (full, rest) = Left-full db c.duckdb_query_result (y ∷ ys) left in
              let (front, back) = All-take-drop _ n ys rest in
              let (passed_front, passed_back) = All-take-drop _ n ys passed in
              rw em (
                read_scan_step k r calls bind_data global _ (db, c) _ (whole k y)
                  (quack_scan_fetched k r bind_data global tt tt index f.index (db, c)
                    (f.db_left, f.connection_left) more 0 y (take n ys) answer full)
                  (emit-whole k global.column_ids y passes) full
                ∙ ap (output_then k r (whole k y)) (
                    read_scan_delivers calls bind_data global f.index
                      (results_of pushdown_already_applied (take n ys)) (map (whole k) (take n ys))
                      f.db_left f.connection_left (drop n ys)
                      (Emits-whole k global.column_ids (take n ys) front passed_front) f.left
                      (own ∙ sym f.kept) (λ h. absurd (true-ne (sym more ∙ h))) passed_back
                      (left_over pushdown_already_applied n ys calls (omega arith))
                    ∙ ap (λ os. (os, finished)) (map-take-append-drop (whole k) n ys)))
          | inr closed ↦ absurd (cons-ne (last closed))
        ]
    read_scan_delivers (suc calls) bind_data global index (x ∷ xs) [] db c cs em left own last
          passed enough =
        absurd em
    read_scan_delivers (suc calls) bind_data global index (x ∷ xs) (o ∷ os) db c cs em left own last
          passed enough =
        let (out, full, some_rows, em1) = em in
        read_scan_step k r calls bind_data global _ (db, c) _ o
          (quack_scan_buffered k r 1 bind_data global tt index x xs (db, c) full) out some_rows
        ∙ ap (output_then k r o) (
            read_scan_delivers calls bind_data global index xs os db c cs em1 left own last passed
              (omega arith))
