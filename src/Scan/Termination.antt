-- ===== src/Scan/Termination.antt =====
-- The loop of QuackScan ends: a batch that is not empty starts with a chunk that is not.
use duckdb_quack.Prelude.{
  ℕ, suc, true, List, [], ◌∷◌, Bytes, Option, none, some, Result, ok, err, ◌≡◌, ◌≢◌, refl, inl, inr,
  Bool-cases, All,
}
use duckdb_quack.Message.Types.{QuackMessage, message, fetch_request_body, fetch_response}
use duckdb_quack.Scan.Remote.{Remote}
use duckdb_quack.Scan.Types.{
  Chunks, ChunkResult, as_fetch_response, pushdown_already_applied, QuackScanBindData,
}
use duckdb_quack.Scan.Init.{QuackScanGlobalState, QuackScanLocalState, results_of}
use duckdb_quack.Scan.Loop.{pop_results, round, quack_scan}
use duckdb_quack.Scan.Calls.{quack_scan_buffered}

-- The loop has come to its end.
abbrev pub Returns : {A : Type 0} → Option A → Type 0
Returns none = ⊥
Returns (some a) = Unit

module _ {C T : Type 0} (k : Chunks C) (r : Remote C T) where
  -- No response to a FETCH holds an empty chunk.
  abbrev pub IsFilled : Bytes → ℕ → Type 0
  IsFilled id uuid =
      (client client1 : r.Client) (w w1 : r.World) (m : QuackMessage C T) (results : List C)
      (index : Option ℕ)
      → r.request fetch_response (message id (fetch_request_body uuid)) client w
        ≡ (ok m, client1, w1)
      → as_fetch_response m ≡ ok (results, index)
      → All (λ c. k.chunk_size c ≢ 0) results

  module _ (bind_data : QuackScanBindData r)
      (filled : IsFilled (r.connection_id bind_data.client_connection) bind_data.result_uuid)
      (global : QuackScanGlobalState k) (local : QuackScanLocalState k r) (w : r.World) where
    module _ (fuel : ℕ) (drained : pop_results k local.results ≡ none)
        (more : global.needs_more_fetch ≡ true) where
      ends_response :
          (client1 : r.Client) (w1 : r.World) (m : QuackMessage C T)
          → r.request fetch_response
              (message
                (r.connection_id bind_data.client_connection)
                (fetch_request_body bind_data.result_uuid))
              local.client
              w
            ≡ (ok m, client1, w1)
          → (response : Result (List C × Option ℕ)) → as_fetch_response m ≡ response
          → Returns (quack_scan k r (suc (suc fuel)) bind_data global local w)
      unfolding quack_scan round message
      ends_response client1 w1 m got (err x) b = simp (drained, more, got, b, quack_scan, round) tt
      ends_response client1 w1 m got (ok ([], index)) b =
          simp (drained, more, got, b, quack_scan, round) tt
      ends_response client1 w1 m got (ok (c ∷ cs, index)) b =
          let full = filled local.client client1 w w1 m (c ∷ cs) index got b in
          let asked =
            r.request fetch_response
              (message (r.connection_id bind_data.client_connection)
                (fetch_request_body bind_data.result_uuid))
              local.client w in
          let next =
            quack_scan_buffered k r fuel bind_data global asked.1 index
              (record { chunk = c; pushdown_type = pushdown_already_applied })
              (results_of pushdown_already_applied cs) asked.2 full.0 in
          rw (quack_scan, round, drained, more, got, b, next) tt

      ends_asked :
          (asked : Result (QuackMessage C T) × r.Client × r.World)
          → r.request fetch_response
              (message
                (r.connection_id bind_data.client_connection)
                (fetch_request_body bind_data.result_uuid))
              local.client
              w
            ≡ asked
          → Returns (quack_scan k r (suc (suc fuel)) bind_data global local w)
      unfolding quack_scan round message
      ends_asked (err x, client1, w1) got = simp (drained, more, got, quack_scan, round) tt
      ends_asked (ok m, client1, w1) got = ends_response client1 w1 m got _ refl

    ends_popped :
        (fuel : ℕ) (found : Option (ChunkResult C × List (ChunkResult C)))
        → pop_results k local.results ≡ found
        → Returns (quack_scan k r (suc (suc fuel)) bind_data global local w)
    unfolding quack_scan round
    ends_popped fuel (some (c, rest)) found = simp (found, quack_scan, round) tt
    ends_popped fuel none drained = elim (Bool-cases global.needs_more_fetch) [
      | inr last ↦ simp (drained, last, quack_scan, round) tt
      | inl more ↦ ends_asked fuel drained more _ refl
    ]

    pub quack_scan_terminates :
        (fuel : ℕ) → Returns (quack_scan k r (suc (suc fuel)) bind_data global local w)
    quack_scan_terminates fuel = ends_popped fuel _ refl
