-- ===== src/Optimizer.antt =====
-- src/storage/quack_optimizer.cpp: queries that would stream two results over one connection.
pub mod Counts
pub mod Refusal
mod Tests
use duckdb_quack.Prelude.{
  ℕ, ◌+◌, ◌%◌, ◌^◌, Bool, true, false, ◌&&◌, ◌||◌, List, [], ◌∷◌, ◌++◌, Bytes, codes, Option, none,
  some, Result, ok, err, not_implemented, same, lookup, insert, ltb, length, if◌then◌else◌,
}

-- What is read of a `LogicalGet`: the name of its function, and the connection of its bind data,
-- which only a Quack scan has.
pub record LogicalGet : Type 0 where
  pub function_name : Bytes
  pub connection_id : Bytes

-- The catalog that a CREATE TABLE or an INSERT writes to.
pub record TargetCatalog : Type 0 where
  pub catalog_type : Bytes
  pub connection_id : Bytes

-- A plan, with the operators by their type.
mutual
  pub data LogicalOperator : Type 0 where
    logical_get : LogicalGet → Operators → LogicalOperator
    logical_create_table logical_insert : TargetCatalog → Operators → LogicalOperator
    other_operator : Operators → LogicalOperator

  pub data Operators : Type 0 where
    no_children : Operators
    child_then : LogicalOperator → Operators → Operators

pub record QuackOperatorInfo : Type 0 where
  pub scans : List LogicalGet
  pub insert_count : ℕ

-- The map of connection ids, `op_info`.
abbrev pub QuackOperators : Type 0
QuackOperators = List (Bytes × QuackOperatorInfo)

abbrev pub info_or_new : Option QuackOperatorInfo → QuackOperatorInfo
info_or_new none = record { scans = []; insert_count = 0 }
info_or_new (some info) = info

-- `op_info[connection_id]`, which makes an entry where there is none.
abbrev pub info_of : Bytes → QuackOperators → QuackOperatorInfo
info_of connection_id operators = info_or_new (lookup connection_id operators)

-- `QuackCatalog::IsQuackScan`
unfoldable pub is_quack_scan : Bytes → Bool
unfolding same
is_quack_scan name = same name (codes "quack_query") || same name (codes "quack_query_by_name")

unfoldable pub add_scan : LogicalGet → QuackOperators → QuackOperators
unfolding is_quack_scan lookup insert
add_scan get operators =
    if is_quack_scan get.function_name
    then insert get.connection_id
        (record (info_of get.connection_id operators) {
          scans = (info_of get.connection_id operators).scans ++ get ∷ [];
        })
        operators
    else operators

unfoldable pub add_insert : TargetCatalog → QuackOperators → QuackOperators
unfolding same lookup insert
add_insert catalog operators =
    if same catalog.catalog_type (codes "quack")
    then insert catalog.connection_id
        (record (info_of catalog.connection_id operators) {
          insert_count = ((info_of catalog.connection_id operators).insert_count + 1) % 2 ^ 64;
        })
        operators
    else operators

unfoldable mutual
  unfolding add_scan add_insert

  pub gather_quack_scans : LogicalOperator → QuackOperators → QuackOperators
  gather_quack_scans (logical_get get children) operators =
      gather_children children (add_scan get operators)
  gather_quack_scans (logical_create_table catalog children) operators =
      gather_children children (add_insert catalog operators)
  gather_quack_scans (logical_insert catalog children) operators =
      gather_children children (add_insert catalog operators)
  gather_quack_scans (other_operator children) operators = gather_children children operators

  pub gather_children : Operators → QuackOperators → QuackOperators
  gather_children no_children operators = operators
  gather_children (child_then child children) operators =
      gather_children children (gather_quack_scans child operators)

abbrev pub any_scan : List LogicalGet → Bool
any_scan [] = false
any_scan (get ∷ gets) = true

-- The loop over the entries.
unfoldable pub check_entries : QuackOperators → Result (Unit {0})
check_entries [] = ok tt
check_entries ((connection_id, info) ∷ operators) =
    let rest = check_entries operators in
    if ltb 1 ((length info.scans + info.insert_count) % 2 ^ 64) && any_scan info.scans
    then err (
        not_implemented
          "Multiple streaming scans or streaming scans + CTAS / insert in the same query are not currently supported"
          [])
    else rest

unfoldable pub optimize : LogicalOperator → Result (Unit {0})
unfolding gather_quack_scans check_entries
optimize plan = check_entries (gather_quack_scans plan [])
