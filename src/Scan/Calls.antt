-- ===== src/Scan/Calls.antt =====
-- What one call of QuackScan does, by the state of its buffer and of the flag.
use duckdb_quack.Prelude.{
  ne→==false, ℕ, suc, true, false, List, [], ◌∷◌, Option, Exception, ok, err, ◌≡◌, ◌≢◌, refl, some,
}
use duckdb_quack.Message.Types.{message, fetch_request_body, fetch_response_body, fetch_response}
use duckdb_quack.Scan.Remote.{Remote}
use duckdb_quack.Scan.Types.{Chunks, ChunkResult, pushdown_already_applied, QuackScanBindData}
use duckdb_quack.Scan.Init.{QuackScanGlobalState, results_of}
use duckdb_quack.Scan.Loop.{blank, emit, pop_results, round, quack_scan}

module _ {C T : Type 0} (k : Chunks C) (r : Remote C T) where
  pop_full :
      (x : ChunkResult C) (xs : List (ChunkResult C))
      → k.chunk_size x.chunk ≢ 0
      → pop_results k (x ∷ xs) ≡ some (x, xs)
  unfolding pop_results
  pop_full x xs full = rw (pop_results, ne→==false (k.chunk_size x.chunk) 0 full) refl

  -- A buffer that starts with a chunk that is not empty.
  pub quack_scan_buffered :
      (fuel : ℕ) (bind_data : QuackScanBindData r) (global : QuackScanGlobalState k)
      (client : r.Client) (index : Option ℕ) (x : ChunkResult C) (xs : List (ChunkResult C))
      (w : r.World)
      → k.chunk_size x.chunk ≢ 0
      → quack_scan k r
          (suc fuel)
          bind_data
          global
          (record { client = client; current_batch_index = index; results = x ∷ xs })
          w
        ≡ some (record {
          output = emit k global.column_ids x;
          global = global;
          local = record { client = client; current_batch_index = index; results = xs };
          world = w;
        })
  unfolding quack_scan round
  quack_scan_buffered fuel bind_data global client index x xs w full =
      simp (pop_full x xs full, quack_scan, round) refl

  -- An empty buffer, and no more to fetch.
  pub quack_scan_finished :
      (fuel : ℕ) (bind_data : QuackScanBindData r) (global : QuackScanGlobalState k)
      (client : r.Client) (index : Option ℕ) (w : r.World)
      → global.needs_more_fetch ≡ false
      → quack_scan k r
          (suc fuel)
          bind_data
          global
          (record { client = client; current_batch_index = index; results = [] })
          w
        ≡ some (record {
          output = ok (blank k);
          global = global;
          local = record { client = client; current_batch_index = index; results = [] };
          world = w;
        })
  unfolding quack_scan round pop_results
  quack_scan_finished fuel bind_data global client index w last = simp last refl

  module _ (bind_data : QuackScanBindData r) (global : QuackScanGlobalState k)
      (client client1 : r.Client) (index index1 : Option ℕ) (w w1 : r.World)
      (more : global.needs_more_fetch ≡ true) where
    -- An empty buffer, and a FETCH that is answered by a batch.
    pub quack_scan_fetched :
        (fuel : ℕ) (x : C) (xs : List C)
        → r.request fetch_response
            (message
              (r.connection_id bind_data.client_connection)
              (fetch_request_body bind_data.result_uuid))
            client
            w
          ≡ (ok (message [] (fetch_response_body (x ∷ xs) index1)), client1, w1)
        → k.chunk_size x ≢ 0
        → quack_scan k r
            (suc (suc fuel))
            bind_data
            global
            (record { client = client; current_batch_index = index; results = [] })
            w
          ≡ some (record {
            output =
                emit k global.column_ids
                  (record { chunk = x; pushdown_type = pushdown_already_applied });
            global = global;
            local = record {
              client = client1;
              current_batch_index = index1;
              results = results_of pushdown_already_applied xs;
            };
            world = w1;
          })
    unfolding quack_scan round pop_results message
    quack_scan_fetched fuel x xs answer full =
        simp (more, answer)
          (quack_scan_buffered fuel bind_data global client1 index1
            (record { chunk = x; pushdown_type = pushdown_already_applied })
            (results_of pushdown_already_applied xs) w1 full)

    -- An empty buffer, and a FETCH that throws.
    pub quack_scan_threw :
        (fuel : ℕ) (x : Exception)
        → r.request fetch_response
            (message
              (r.connection_id bind_data.client_connection)
              (fetch_request_body bind_data.result_uuid))
            client
            w
          ≡ (err x, client1, w1)
        → quack_scan k r
            (suc fuel)
            bind_data
            global
            (record { client = client; current_batch_index = index; results = [] })
            w
          ≡ some (record {
            output = err x;
            global = global;
            local = record { client = client1; current_batch_index = index; results = [] };
            world = w1;
          })
    unfolding quack_scan round pop_results message
    quack_scan_threw fuel x answer = simp (more, answer) refl

    -- An empty buffer, and a FETCH that is answered by an empty batch.
    pub quack_scan_ended :
        (fuel : ℕ)
        → r.request fetch_response
            (message
              (r.connection_id bind_data.client_connection)
              (fetch_request_body bind_data.result_uuid))
            client
            w
          ≡ (ok (message [] (fetch_response_body [] index1)), client1, w1)
        → quack_scan k r
            (suc fuel)
            bind_data
            global
            (record { client = client; current_batch_index = index; results = [] })
            w
          ≡ some (record {
            output = ok (blank k);
            global = record global { needs_more_fetch = false };
            local = record { client = client1; current_batch_index = index; results = [] };
            world = w1;
          })
    unfolding quack_scan round pop_results message
    quack_scan_ended fuel answer = simp (more, answer) refl
