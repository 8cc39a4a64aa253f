-- ===== src/Server/Tests.antt =====
-- The server's theorems at concrete inputs.
use duckdb_quack.Prelude.{
  ◌≤◌, true, false, [], ◌∷◌, codes, none, some, ◌≡◌, refl, arith, inl, length,
}
use duckdb_quack.Text.Reference.{reference}
use duckdb_quack.Message.Types.{message, fetch_response_body, prepare_response_body}
use duckdb_quack.Server.Batch.{create_batch}
use duckdb_quack.Server.Batch.Laws.{Yields, create_batch-Yields, create_batch_bound}
use duckdb_quack.Server.Requests.{prepare, fetch, error_response_of}
use duckdb_quack.Server.Complete.{read_all, read_all-prepare}
use duckdb_quack.Server.Streaming.{fetch_streams, prepare_streams}
use duckdb_quack.Server.Failures.{prepare_fails_truncates}
use duckdb_quack.Server.Sample.{sample, opened, answer_of}

three : Yields sample 1 (answer_of (codes "q")) (1 ∷ 2 ∷ 3 ∷ [])
three = (
  refl,
  refl,
  λ h. omega arith,
  (refl, refl, λ h. omega arith, (refl, refl, λ h. omega arith, (refl, inl (refl, refl)))),
)

read_all-prepare_example :
    read_all sample reference 4 (prepare sample reference 0 opened (codes "q")) ≡ 1 ∷ 2 ∷ 3 ∷ []
read_all-prepare_example =
    read_all-prepare sample reference 1 (λ db. refl) 4 0 0 opened (codes "q") (codes "x") [] 0
      (answer_of (codes "q")) (1 ∷ 2 ∷ 3 ∷ []) refl refl three (omega arith)

fetch_streams_example :
    let h = fetch sample reference 0 opened 3 in
    h.response ≡ message [] (fetch_response_body (5 ∷ 6 ∷ []) (some 1))
fetch_streams_example =
    (fetch_streams sample reference 0 opened (5 ∷ 6 ∷ 7 ∷ [], false, false) (5 ∷ 6 ∷ 7 ∷ []) refl
      (
        refl,
        refl,
        λ h. omega arith,
        (refl, refl, λ h. omega arith, (refl, refl, λ h. omega arith, (refl, inl (refl, refl)))),
      )
      (omega arith)).0

prepare_fails_truncates_example :
    let h = prepare sample reference 0 opened [] in
    (h.response ≡ error_response_of sample reference (sample.error_object ([], true, true)))
    × ((fetch sample reference h.db h.connection 3).response
        ≡ message [] (fetch_response_body [] none))
prepare_fails_truncates_example =
    prepare_fails_truncates sample reference 0 0 opened [] 0 ([], true, true) refl refl

create_batch-Yields_example : (create_batch sample 2 1 (answer_of (codes "q"))).results ≡ 1 ∷ 2 ∷ []
create_batch-Yields_example =
    (create_batch-Yields sample 2 1 (answer_of (codes "q")) (1 ∷ 2 ∷ 3 ∷ []) three).0

create_batch_bound_example : length (create_batch sample 2 1 (answer_of (codes "q"))).results ≤ 2
create_batch_bound_example = (create_batch_bound sample 2 1 (answer_of (codes "q"))).0

prepare_streams_example :
    (prepare sample reference 0 opened (codes "q")).response
    ≡ message [] (prepare_response_body (4 ∷ []) (codes "x" ∷ []) (1 ∷ 2 ∷ []) true 1)
prepare_streams_example =
    (prepare_streams sample reference 0 0 opened (codes "q") (codes "x") [] 0
      (answer_of (codes "q")) (1 ∷ 2 ∷ 3 ∷ []) refl refl three).0
