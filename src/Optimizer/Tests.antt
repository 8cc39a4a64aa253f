-- ===== src/Optimizer/Tests.antt =====
-- The optimizer on a join of two scans.
use duckdb_quack.Prelude.{
  ◌+◌, ◌^◌, ◌<◌, ◌≤◌, Bytes, codes, ok, ◌≡◌, ◌⊎◌, arith, same, ◌↔◌, Bool-cases, inl, inr,
}
use duckdb_quack.Optimizer.{
  LogicalOperator, logical_get, other_operator, no_children, child_then, optimize, is_quack_scan,
}
use duckdb_quack.Optimizer.Counts.{scans_on, inserts_on}
use duckdb_quack.Optimizer.Refusal.{optimize_iff}

abbrev scan_on : Bytes → LogicalOperator
scan_on id =
    logical_get (record { function_name = codes "quack_query"; connection_id = id }) no_children

abbrev join : LogicalOperator
join =
    other_operator (child_then (scan_on (codes "a")) (child_then (scan_on (codes "b")) no_children))

few : (id : Bytes) → scans_on id join + inserts_on id join < 2 ^ 64
unfolding scans_on inserts_on is_quack_scan same
few id = elim (Bool-cases (same (codes "a") id)) [
  | inl a ↦ elim (Bool-cases (same (codes "b") id)) [
    | inl b ↦ rw (a, b) (omega arith)
    | inr b ↦ rw (a, b) (omega arith)
  ]
  | inr a ↦ elim (Bool-cases (same (codes "b") id)) [
    | inl b ↦ rw (a, b) (omega arith)
    | inr b ↦ rw (a, b) (omega arith)
  ]
]

optimize_iff_example :
    (optimize join ≡ ok tt)
    ↔ ((id : Bytes) → (scans_on id join ≡ 0) ⊎ (scans_on id join + inserts_on id join ≤ 1))
optimize_iff_example = optimize_iff join few
