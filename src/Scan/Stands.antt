-- ===== src/Scan/Stands.antt =====
-- Threads on a scan of a server's session stand as a ledger says, also after a call from a buffer.
use duckdb_quack.Prelude.{
  ne→==false, ℕ, suc, ◌+◌, ◌^◌, ◌<◌, true, false, List, [], ◌∷◌, ◌++◌, map, Bytes, some, ok, ◌≡◌,
  All, sym, ap, ◌∙◌, subst, length, append-nil, ==_refl,
}
use duckdb_quack.Text.StringUtil.{StringUtil}
use duckdb_quack.Uri.Parse.{QuackUri}
use duckdb_quack.Server.Engine.{Engine}
use duckdb_quack.Server.Batch.Laws.{Left}
use duckdb_quack.Server.Requests.{max_chunks_per_batch}
use duckdb_quack.Scan.Remote.{Remote}
use duckdb_quack.Scan.Types.{Chunks, ColumnIndex, ChunkResult, QuackScanBindData}
use duckdb_quack.Scan.Init.{QuackScanLocalState}
use duckdb_quack.Scan.Loop.{Output, Called, quack_scan, partition_index}
use duckdb_quack.Scan.Session.{session_remote}
use duckdb_quack.Scan.Calls.{quack_scan_buffered}
use duckdb_quack.Scan.Reader.{rounds, whole, Emits, IsPassed}
use duckdb_quack.Scan.Ledger.{Ledger, Move, give, update, update_all}
use duckdb_quack.Scan.Threads.{Threads, after_call, turn}

module _ (e : Engine) (u : StringUtil) (k : Chunks e.Chunk)
    (agree : (c : e.Chunk) → k.chunk_size c ≡ e.chunk_size c) (uri : QuackUri) (id : Bytes) (n : ℕ)
    (setting : (db : e.Db) → max_chunks_per_batch e u db ≡ suc n)
    (bind_data : QuackScanBindData (session_remote e u uri id)) (ids : List ColumnIndex) where
  abbrev r : Remote e.Chunk e.Logical
  r = session_remote e u uri id

  -- The threads and the session stand as the ledger says.
  pub record Stands (t : Threads k r) (l : Ledger (Output k)) : Type 0 where
    pub chunks : List e.Chunk
    pub emits : (i : ℕ) → Emits k ids (t.locals i).results (l.buffer i)
    pub indexed : (i : ℕ) → partition_index k r (t.locals i) ≡ l.index i
    pub same_log : t.log ≡ l.log
    pub quiet : t.failures ≡ []
    pub columns : t.global.column_ids ≡ ids
    pub left : Left e t.world.0 t.world.1.duckdb_query_result chunks
    pub passed : All (IsPassed k ids) chunks
    pub rest : l.rest ≡ map (whole k) chunks
    pub own : bind_data.result_uuid ≡ t.world.1.result_uuid
    pub last : t.global.needs_more_fetch ≡ false → chunks ≡ []
    pub counted :
        t.global.needs_more_fetch ≡ true
        → (t.world.1.next_batch_index ≡ l.next) × (l.next + length chunks < 2 ^ 64)

  abbrev pub Goes : ℕ → Threads k r → Ledger (Output k) → Type 0
  Goes i t l = (l1 : Ledger (Output k)) × Move l l1 × Stands (turn k r bind_data i t) l1

  module _ (t : Threads k r) (l : Ledger (Output k)) (s : Stands t l) (i : ℕ) where
    -- A call of thread i that is known.
    pub called_turn :
        (results : List (ChunkResult e.Chunk)) (called : Called k r)
        → (t.locals i).results ≡ results
        → quack_scan k r rounds bind_data t.global
            (record {
              client = tt;
              current_batch_index = (t.locals i).current_batch_index;
              results = results;
            })
            t.world
          ≡ some called
        → turn k r bind_data i t ≡ after_call k r i t (some called)
    unfolding turn
    called_turn results called held step =
        ap
          (λ (rs : List (ChunkResult e.Chunk)). after_call k r i t (
            quack_scan k r rounds bind_data t.global
              (record {
                client = tt;
                current_batch_index = (t.locals i).current_batch_index;
                results = rs;
              })
              t.world))
          held
        ∙ ap (after_call k r i t) step

    pub buffered_case :
        (x : ChunkResult e.Chunk) (xs : List (ChunkResult e.Chunk)) (o : Output k)
        (os : List (Output k))
        → (t.locals i).results ≡ x ∷ xs
        → l.buffer i ≡ o ∷ os
        → Emits k ids (x ∷ xs) (o ∷ os)
        → Goes i t l
    unfolding partition_index
    buffered_case x xs o os held buffered (out, full, some_rows, em) =
        let l1 : Ledger (Output k) = record l {
          buffer = update l.buffer i os;
          log = l.log ++ (l.index i, o) ∷ [];
        } in
        let local : QuackScanLocalState k r = record {
          client = tt;
          current_batch_index = (t.locals i).current_batch_index;
          results = xs;
        } in
        let called : Called k r = record {
          output = ok o;
          global = t.global;
          local = local;
          world = t.world;
        } in
        let stepped =
          quack_scan_buffered k r 1 bind_data t.global tt (t.locals i).current_batch_index x xs
            t.world full
          ∙ ap (λ output. some (record called { output = output })) (rw s.columns out) in
        (
          l1,
          give i o os buffered,
          subst (λ t1. Stands t1 l1) (sym (called_turn (x ∷ xs) called held stepped))
              (record {
                chunks = s.chunks;
                emits =
                    update_all
                      (λ j (m : QuackScanLocalState k r).
                        Emits k ids m.results (update l.buffer i os j))
                      t.locals i local (λ j other. rw other (s.emits j)) (rw (==_refl i) em);
                indexed =
                    update_all (λ j m. partition_index k r m ≡ l.index j) t.locals i local
                      (λ j other. s.indexed j) (s.indexed i);
                same_log = rw (ne→==false o.cardinality 0 some_rows) (
                    ap (λ log. log ++ (partition_index k r (t.locals i), o) ∷ []) s.same_log
                    ∙ ap (λ j. l.log ++ (j, o) ∷ []) (s.indexed i));
                quiet = append-nil t.failures ∙ s.quiet;
                columns = s.columns;
                left = s.left;
                passed = s.passed;
                rest = s.rest;
                own = s.own;
                last = s.last;
                counted = s.counted;
              }),
        )
