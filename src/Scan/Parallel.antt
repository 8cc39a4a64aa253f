-- ===== src/Scan/Parallel.antt =====
-- Threads on a scan of a server's session keep the ledger of src/quack_scan.cpp's batch indices.
use duckdb_quack.Prelude.{
  ne→==false, ℕ, suc, ◌+◌, ◌%◌, ◌^◌, ◌<◌, true, false, List, [], ◌∷◌, ◌++◌, map,
  map-take-append-drop, Bytes, some, ok, ◌≡◌, refl, sym, ap, ◌∙◌, subst, inl, inr, Bool-cases, All,
  arith, length, take, drop, length-drop, append-nil, ==_refl,
}
use duckdb_quack.Text.StringUtil.{StringUtil}
use duckdb_quack.Uri.Parse.{QuackUri}
use duckdb_quack.Server.Engine.{Engine}
use duckdb_quack.Server.Batch.Laws.{Left}
use duckdb_quack.Server.Requests.{max_chunks_per_batch}
use duckdb_quack.Scan.Remote.{Remote}
use duckdb_quack.Scan.Types.{
  Chunks, ColumnIndex, ChunkResult, QuackScanBindData, pushdown_already_applied,
}
use duckdb_quack.Scan.Init.{QuackScanLocalState, results_of}
use duckdb_quack.Scan.Loop.{Output, Called, blank, emit, quack_scan, partition_index}
use duckdb_quack.Scan.Session.{session_remote}
use duckdb_quack.Scan.Calls.{quack_scan_finished, quack_scan_fetched, quack_scan_ended}
use duckdb_quack.Scan.Reader.{rounds, whole, Emits, Emits-whole, IsPassed, emit-whole}
use duckdb_quack.Scan.Delivery.{Left-full, All-take-drop, next_batch}
use duckdb_quack.Scan.Ledger.Moves.{Move-IsOrdered}
use duckdb_quack.Scan.Ledger.{Ledger, stay, load, IsOrdered, update, update_all}
use duckdb_quack.Scan.Threads.{Threads, turn, run_threads}
use duckdb_quack.Scan.Stands.{Stands, Goes, called_turn, buffered_case}

module _ (e : Engine) (u : StringUtil) (k : Chunks e.Chunk)
    (agree : (c : e.Chunk) → k.chunk_size c ≡ e.chunk_size c) (uri : QuackUri) (id : Bytes) (n : ℕ)
    (setting : (db : e.Db) → max_chunks_per_batch e u db ≡ suc n)
    (bind_data : QuackScanBindData (session_remote e u uri id)) (ids : List ColumnIndex) where
  abbrev r : Remote e.Chunk e.Logical
  r = session_remote e u uri id

  recount :
      (m : ℕ) (y : e.Chunk) (ys : List e.Chunk) {chunks : List e.Chunk} {index next index1 : ℕ}
      → chunks ≡ y ∷ ys
      → index ≡ next
      → next + length chunks < 2 ^ 64
      → index1 ≡ (index + 1) % 2 ^ 64
      → (index1 ≡ suc next) × (suc next + length (drop m ys) < 2 ^ 64)
  recount m y ys chunks numbered room step =
      let more = ap length chunks in
      (omega (arith, numbered, room, step, more), omega (arith, room, more, length-drop m ys))

  true-ne : ¬ (true ≡ false)
  true-ne h = cc

  module _ (t : Threads k r) (l : Ledger (Output k))
      (s : Stands e u k agree uri id n setting bind_data ids t l) (i : ℕ) where
    module _ (held : (t.locals i).results ≡ []) (empty : l.buffer i ≡ []) where
      -- A call that gives no output and leaves the buffers as they are.
      idle_case :
          (called : Called k r) (chunks : List e.Chunk)
          → quack_scan k r rounds bind_data t.global
              (record {
                client = tt;
                current_batch_index = (t.locals i).current_batch_index;
                results = [];
              })
              t.world
            ≡ some called
          → called.output ≡ ok (blank k)
          → called.local ≡ record {
            client = tt;
            current_batch_index = (t.locals i).current_batch_index;
            results = [];
          }
          → called.global.column_ids ≡ t.global.column_ids
          → called.global.needs_more_fetch ≡ false
          → chunks ≡ []
          → s.chunks ≡ chunks
          → Left e called.world.0 called.world.1.duckdb_query_result []
          → bind_data.result_uuid ≡ called.world.1.result_uuid
          → Goes e u k agree uri id n setting bind_data ids i t l
      unfolding partition_index
      idle_case called chunks step nothing same columns closed none_left same_chunks left own = (
        l,
        stay,
        subst (λ t1. Stands e u k agree uri id n setting bind_data ids t1 l)
            (sym
              (called_turn e u k agree uri id n setting bind_data ids t l s i [] called held step))
            (record {
              chunks = [];
              emits =
                  update_all (λ j (m : QuackScanLocalState k r). Emits k ids m.results (l.buffer j))
                    t.locals i called.local (λ j other. s.emits j) (rw same empty);
              indexed =
                  update_all (λ j m. partition_index k r m ≡ l.index j) t.locals i called.local
                    (λ j other. s.indexed j) (rw same (s.indexed i));
              same_log = rw nothing (append-nil t.log ∙ s.same_log);
              quiet = rw nothing (append-nil t.failures ∙ s.quiet);
              columns = columns ∙ s.columns;
              left = left;
              passed = tt;
              rest = s.rest ∙ ap (map (whole k)) (same_chunks ∙ none_left);
              own = own;
              last = λ h. refl;
              counted = λ h. absurd (true-ne (sym h ∙ closed));
            }),
      )

      loaded_case :
          (y : e.Chunk) (ys : List e.Chunk)
          → t.global.needs_more_fetch ≡ true
          → s.chunks ≡ y ∷ ys
          → Left e t.world.0 t.world.1.duckdb_query_result (y ∷ ys)
          → Goes e u k agree uri id n setting bind_data ids i t l
      unfolding partition_index emit
      loaded_case y ys more chunks left =
          let (f, answer) =
            next_batch e u k agree uri id n setting t.world.0 t.world.1 (y ∷ ys)
              bind_data.result_uuid left s.own in
          let (full, filled) =
            Left-full e u k agree t.world.0 t.world.1.duckdb_query_result (y ∷ ys) left in
          let (front, back) = All-take-drop e u k agree _ n ys filled in
          let (passes, passed) = subst (All (IsPassed k ids)) chunks s.passed in
          let (passed_front, passed_back) = All-take-drop e u k agree _ n ys passed in
          let (index, next) = f.indexed (λ h. cc) in
          let (numbered, room) = s.counted more in
          let given = map (whole k) (take n ys) in
          let l1 : Ledger (Output k) = record {
            index = update l.index i l.next;
            buffer = update l.buffer i given;
            log = l.log ++ (l.next, whole k y) ∷ [];
            next = suc l.next;
            rest = map (whole k) (drop n ys);
          } in
          let local : QuackScanLocalState k r = record {
            client = tt;
            current_batch_index = f.index;
            results = results_of pushdown_already_applied (take n ys);
          } in
          let called : Called k r = record {
            output = ok (whole k y);
            global = t.global;
            local = local;
            world = (f.db_left, f.connection_left);
          } in
          let stepped =
            quack_scan_fetched k r bind_data t.global tt tt (t.locals i).current_batch_index f.index
              t.world (f.db_left, f.connection_left) more 0 y (take n ys) answer full
            ∙ ap (λ output. some (record called { output = output }))
                (rw s.columns (emit-whole k ids y passes)) in
          let mine : partition_index k r local ≡ l.next = rw (index) numbered in
          (
            l1,
            load i (whole k y) given (map (whole k) (drop n ys)) empty (
                s.rest
                ∙ (ap (map (whole k)) chunks
                    ∙ ap (λ os. whole k y ∷ os) (sym (map-take-append-drop (whole k) n ys)))),
            subst (λ t1. Stands e u k agree uri id n setting bind_data ids t1 l1)
                (sym (
                  called_turn e u k agree uri id n setting bind_data ids t l s i [] called held
                    stepped))
                (record {
                  chunks = drop n ys;
                  emits =
                      update_all
                        (λ j (m : QuackScanLocalState k r).
                          Emits k ids m.results (update l.buffer i given j))
                        t.locals i local (λ j other. rw other (s.emits j))
                        (rw (==_refl i) (Emits-whole k ids (take n ys) front passed_front));
                  indexed =
                      update_all (λ j m. partition_index k r m ≡ update l.index i l.next j) t.locals
                        i local (λ j other. rw other (s.indexed j)) (rw (==_refl i) mine);
                  same_log = rw (ne→==false (k.chunk_size y) 0 full) (
                      ap (λ log. log ++ (partition_index k r local, whole k y) ∷ []) s.same_log
                      ∙ ap (λ j. l.log ++ (j, whole k y) ∷ []) mine);
                  quiet = append-nil t.failures ∙ s.quiet;
                  columns = s.columns;
                  left = f.left;
                  passed = passed_back;
                  rest = refl;
                  own = s.own ∙ sym f.kept;
                  last = λ h. absurd (true-ne (sym more ∙ h));
                  counted = λ h. recount n y ys chunks numbered room next;
                }),
          )

      empty_case :
          (chunks : List e.Chunk)
          → s.chunks ≡ chunks
          → Goes e u k agree uri id n setting bind_data ids i t l
      empty_case chunks same = elim (Bool-cases t.global.needs_more_fetch) [
        | inr closed ↦
            idle_case _ s.chunks
              (quack_scan_finished k r 1 bind_data t.global tt (t.locals i).current_batch_index
                t.world closed)
              refl refl refl closed (s.last closed) refl
              (subst (Left e t.world.0 t.world.1.duckdb_query_result) (s.last closed) s.left) s.own
        | inl more ↦ ask more chunks same
      ]
        where
          ask :
              t.global.needs_more_fetch ≡ true
              → (chunks : List e.Chunk) → s.chunks ≡ chunks
              → Goes e u k agree uri id n setting bind_data ids i t l
          ask more (y ∷ ys) same =
              loaded_case y ys more same
                (subst (Left e t.world.0 t.world.1.duckdb_query_result) same s.left)
          ask more [] same =
              let left = subst (Left e t.world.0 t.world.1.duckdb_query_result) same s.left in
              let (f, answer) =
                next_batch e u k agree uri id n setting t.world.0 t.world.1 [] bind_data.result_uuid
                  left s.own in
              idle_case _ []
                (quack_scan_ended k r bind_data t.global tt tt (t.locals i).current_batch_index
                  f.index t.world (f.db_left, f.connection_left) more 1 answer)
                refl refl refl refl refl same f.left (s.own ∙ sym f.kept)

    any_case : Goes e u k agree uri id n setting bind_data ids i t l
    any_case = split (t.locals i).results (l.buffer i) refl refl (s.emits i)
      where
        split :
            (results : List (ChunkResult e.Chunk)) (os : List (Output k))
            → (t.locals i).results ≡ results
            → l.buffer i ≡ os
            → Emits k ids results os
            → Goes e u k agree uri id n setting bind_data ids i t l
        split (x ∷ xs) (o ∷ os) held buffered em =
            buffered_case e u k agree uri id n setting bind_data ids t l s i x xs o os held buffered
              em
        split (x ∷ xs) [] held buffered em = absurd em
        split [] os held buffered em = empty_case held (buffered ∙ em) s.chunks refl

  -- The threads keep standing as some ledger that the moves lead to.
  pub run_threads-Stands :
      (whole_scan : List (Output k)) (schedule : List ℕ) (t : Threads k r) (l : Ledger (Output k))
      → Stands e u k agree uri id n setting bind_data ids t l
      → IsOrdered whole_scan l
      → (l1 : Ledger (Output k)) × IsOrdered whole_scan l1
        × Stands e u k agree uri id n setting bind_data ids
            (run_threads k r bind_data schedule t)
            l1
  unfolding run_threads
  run_threads-Stands whole_scan [] t l s ord = (l, ord, s)
  run_threads-Stands whole_scan (i ∷ schedule) t l s ord =
      let (l1, move, s1) = any_case t l s i in
      run_threads-Stands whole_scan schedule (turn k r bind_data i t) l1 s1
        (Move-IsOrdered whole_scan l l1 move ord)
