-- ===== src/Server/Batch/Laws.antt =====
-- What a batch holds of the chunks that a result still yields.
use duckdb_quack.Prelude.{
  ne→==false, ℕ, zero, suc, ◌+◌, ◌<◌, ◌≤◌, true, false, List, [], ◌∷◌, ◌++◌, Option, none, some,
  ◌≡◌, refl, ◌≢◌, ◌⊎◌, inl, inr, ◌==◌, length, take, drop, length-append, append_assoc, append-nil,
  arith, All, All-append, Bool-cases, Option-cases, ==_iff, sym, ◌∙◌, ◌↔◌,
}
use duckdb_quack.Server.Engine.{Engine}
use duckdb_quack.Server.Batch.{collect, create_batch}

module _ (e : Engine) where
  -- The result is at its end: `Fetch` gives no chunk and no error, or an empty chunk.
  abbrev pub IsAtEnd : e.Db → e.Rows → Type 0
  IsAtEnd db rows =
      (((e.fetch db rows).1 ≡ none) × (e.has_error (e.fetch db rows).2 ≡ false))
      ⊎ ((c : e.Chunk) × ((e.fetch db rows).1 ≡ some c) × (e.chunk_size c ≡ 0))

  -- The result has no error and still yields these chunks, none of them empty, and then ends.
  abbrev pub Yields : e.Db → e.Rows → List e.Chunk → Type 0
  Yields db rows [] = (e.has_error rows ≡ false) × IsAtEnd db rows
  Yields db rows (c ∷ cs) =
      (e.has_error rows ≡ false)
      × ((e.fetch db rows).1 ≡ some c)
      × (e.chunk_size c ≢ 0)
      × Yields (e.fetch db rows).0 (e.fetch db rows).2 cs

  -- The result still yields these chunks, none of them empty, and then fails.
  abbrev pub Fails : e.Db → e.Rows → List e.Chunk → Type 0
  Fails db rows [] = ((e.fetch db rows).1 ≡ none) × (e.has_error (e.fetch db rows).2 ≡ true)
  Fails db rows (c ∷ cs) =
      ((e.fetch db rows).1 ≡ some c)
      × (e.chunk_size c ≢ 0)
      × Fails (e.fetch db rows).0 (e.fetch db rows).2 cs

  -- What an open or closed result still yields.
  abbrev pub Left : e.Db → Option e.Rows → List e.Chunk → Type 0
  Left db none cs = cs ≡ []
  Left db (some rows) cs = Yields db rows cs

  collect_end :
      (room : ℕ) (db : e.Db) (out : List e.Chunk) (rows : e.Rows)
      → IsAtEnd db rows
      → collect e (suc room) db out rows
        ≡ record { db = (e.fetch db rows).0; results = out; query_result = none }
  unfolding collect
  collect_end room db out rows (inl (gone, fine)) = rw (gone, collect, fine)
  collect_end room db out rows (inr (c, here, empty)) =
      rw (here, collect, (==_iff (e.chunk_size c) 0).1 empty)

  collect_step :
      (room : ℕ) (db : e.Db) (out : List e.Chunk) (rows : e.Rows) (c : e.Chunk)
      → (e.fetch db rows).1 ≡ some c
      → e.chunk_size c ≢ 0
      → collect e (suc room) db out rows
        ≡ collect e room (e.fetch db rows).0 (out ++ c ∷ []) (e.fetch db rows).2
  unfolding collect
  collect_step room db out rows c here full = rw (here, collect, ne→==false (e.chunk_size c) 0 full)

  -- The loop takes as many of the chunks as there is room for, and leaves the others.
  collect-Yields :
      (room : ℕ) (db : e.Db) (out : List e.Chunk) (rows : e.Rows) (cs : List e.Chunk)
      → Yields db rows cs
      → let b = collect e room db out rows in
        (b.results ≡ out ++ take room cs)
        × Left b.db b.query_result (drop room cs)
        × ((b.query_result ≡ none) ↔ (length cs < room))
  collect-Yields zero db out rows cs y =
      unfold collect in (sym (append-nil out), y, ((λ h. cc), λ h. absurd (omega arith)))
  collect-Yields (suc room) db out rows [] y =
      rw (collect_end room db out rows y.1)
        (sym (append-nil out), refl, (λ h. omega arith, λ h. refl))
  collect-Yields (suc room) db out rows (c ∷ cs) (fine, here, full, y) =
      let (taken, left, ended) =
        collect-Yields room (e.fetch db rows).0 (out ++ c ∷ []) (e.fetch db rows).2 cs y in
      rw (collect_step room db out rows c here full) (
        taken ∙ append_assoc out (c ∷ []) (take room cs),
        left,
        (λ h. omega (arith, ended.0 h), λ h. ended.1 (omega arith)),
      )

  -- If the result fails within the batch, nothing of the batch is kept, and the failed result is.
  collect-Fails :
      (room : ℕ) (db : e.Db) (out : List e.Chunk) (rows : e.Rows) (cs : List e.Chunk)
      → Fails db rows cs
      → length cs < room
      → let b = collect e room db out rows in
        (b.results ≡ [])
        × ((rows' : e.Rows) × (b.query_result ≡ some rows') × (e.has_error rows' ≡ true))
  unfolding collect
  collect-Fails zero db out rows cs f h = absurd (omega arith)
  collect-Fails (suc room) db out rows [] (gone, bad) h =
      rw (gone, collect, bad) (refl, ((e.fetch db rows).2, refl, bad))
  collect-Fails (suc room) db out rows (c ∷ cs) (here, full, f) h =
      rw (collect_step room db out rows c here full) (
        collect-Fails room (e.fetch db rows).0 (out ++ c ∷ []) (e.fetch db rows).2 cs f
          (omega arith))

  -- Only non-empty chunks are collected, and never more than there is room for.
  collect_bound :
      (room : ℕ) (db : e.Db) (out : List e.Chunk) (rows : e.Rows)
      → All (λ c. e.chunk_size c ≢ 0) out
      → let b = collect e room db out rows in
        (length b.results ≤ length out + room) × All (λ c. e.chunk_size c ≢ 0) b.results
  unfolding collect
  collect_bound zero db out rows full = (omega arith, full)
  collect_bound (suc room) db out rows full = elim (Option-cases (e.fetch db rows).1) [
    | inl gone ↦ elim (Bool-cases (e.has_error (e.fetch db rows).2)) [
      | inl bad ↦ rw (gone, collect, bad) (omega arith, tt)
      | inr fine ↦ rw (gone, collect, fine) (omega arith, full)
    ]
    | inr (c, here) ↦ elim (Bool-cases (e.chunk_size c == 0)) [
      | inl empty ↦ rw (here, collect, empty) (omega arith, full)
      | inr some_rows ↦
          let nonzero : e.chunk_size c ≢ 0 = ground arith in
          let (bound, all_full) =
            collect_bound room (e.fetch db rows).0 (out ++ c ∷ []) (e.fetch db rows).2
              (All-append _ out (c ∷ []) full (nonzero, tt)) in
          rw (collect_step room db out rows c here nonzero)
            (omega (arith, bound, length-append out (c ∷ [])), all_full)
    ]
  ]

  -- A batch of a result that yields the chunks cs holds the first of them up to the maximum; the
  -- result is closed exactly if there were fewer than the maximum, and otherwise it yields the
  -- rest.
  pub create_batch-Yields :
      (max_chunks : ℕ) (db : e.Db) (rows : e.Rows) (cs : List e.Chunk)
      → Yields db rows cs
      → let b = create_batch e max_chunks db rows in
        (b.results ≡ take max_chunks cs)
        × Left b.db b.query_result (drop max_chunks cs)
        × ((b.query_result ≡ none) ↔ (length cs < max_chunks))
  unfolding create_batch
  create_batch-Yields max_chunks db rows cs y = collect-Yields max_chunks db [] rows cs y

  -- A batch of a result that fails within its first `max_chunks` chunks is empty, and the result
  -- stays with its error.
  pub create_batch-Fails :
      (max_chunks : ℕ) (db : e.Db) (rows : e.Rows) (cs : List e.Chunk)
      → Fails db rows cs
      → length cs < max_chunks
      → let b = create_batch e max_chunks db rows in
        (b.results ≡ [])
        × ((rows' : e.Rows) × (b.query_result ≡ some rows') × (e.has_error rows' ≡ true))
  unfolding create_batch
  create_batch-Fails max_chunks db rows cs f h = collect-Fails max_chunks db [] rows cs f h

  -- Whatever the result does, a batch has at most the maximal number of chunks, and none of them
  -- is empty.
  pub create_batch_bound :
      (max_chunks : ℕ) (db : e.Db) (rows : e.Rows)
      → let b = create_batch e max_chunks db rows in
        (length b.results ≤ max_chunks) × All (λ c. e.chunk_size c ≢ 0) b.results
  unfolding create_batch
  create_batch_bound max_chunks db rows =
      let (bound, full) = collect_bound max_chunks db [] rows tt in (omega (arith, bound), full)
