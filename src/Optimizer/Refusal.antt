-- ===== src/Optimizer/Refusal.antt =====
-- Optimize refuses exactly the plans in which a connection has a scan and something else.
use duckdb_quack.Prelude.{
  ℕ, ◌+◌, ◌%◌, ◌^◌, ◌≤◌, ◌<◌, Bool, false, ◌&&◌, List, [], ◌∷◌, Bytes, codes, none, some, ok, ◌≡◌,
  ◌↔◌, ◌⊎◌, inl, inr, refl, sym, ◌∙◌, subst, arith, Bool-cases, same, same_iff, same_refl, lookup,
  insert, lookup-insert, ltb, length,
}
use duckdb_quack.Optimizer.{
  LogicalGet, TargetCatalog, LogicalOperator, logical_get, logical_create_table, logical_insert,
  other_operator, Operators, no_children, child_then, QuackOperatorInfo, QuackOperators,
  info_or_new, info_of, is_quack_scan, add_scan, add_insert, gather_quack_scans, gather_children,
  any_scan, check_entries, optimize,
}
use duckdb_quack.Optimizer.Counts.{scans_on, inserts_on, gather-IsCounted, IsCounted}

same_sym : (a b : Bytes) → same a b ≡ false → same b a ≡ false
same_sym a b h = ground (arith, same_iff a b, same_iff b a)

abbrev HasUniqueKeys : QuackOperators → Type 0
HasUniqueKeys [] = Unit
HasUniqueKeys ((id, info) ∷ m) = (lookup id m ≡ none) × HasUniqueKeys m

insert-HasUniqueKeys :
    (id : Bytes) (info : QuackOperatorInfo) (m : QuackOperators)
    → HasUniqueKeys m
    → HasUniqueKeys (insert id info m)
unfolding insert lookup
insert-HasUniqueKeys id info [] h = (refl, tt)
insert-HasUniqueKeys id info ((k, other) ∷ m) (absent, h) = elim (Bool-cases (same k id)) [
  | inl here ↦ rw here (subst (λ j. lookup j m ≡ none) ((same_iff k id).0 here) absent, h)
  | inr apart ↦ rw apart (
    lookup-insert id k info m ∙ (rw (same_sym k id apart) absent),
    insert-HasUniqueKeys id info m h,
  )
]

add_scan-HasUniqueKeys :
    (get : LogicalGet) (m : QuackOperators) → HasUniqueKeys m → HasUniqueKeys (add_scan get m)
unfolding add_scan
add_scan-HasUniqueKeys get m h = elim (Bool-cases (is_quack_scan get.function_name)) [
  | inl scan ↦ rw (scan, add_scan) (insert-HasUniqueKeys get.connection_id _ m h)
  | inr other ↦ rw (other, add_scan) h
]

add_insert-HasUniqueKeys :
    (catalog : TargetCatalog) (m : QuackOperators)
    → HasUniqueKeys m
    → HasUniqueKeys (add_insert catalog m)
unfolding add_insert
add_insert-HasUniqueKeys catalog m h =
    elim (Bool-cases (same catalog.catalog_type (codes "quack"))) [
      | inl quack ↦ rw (quack, add_insert) (insert-HasUniqueKeys catalog.connection_id _ m h)
      | inr other ↦ rw (other, add_insert) h
    ]

mutual
  unfolding gather_quack_scans

  gather-HasUniqueKeys :
      (op : LogicalOperator) (m : QuackOperators)
      → HasUniqueKeys m
      → HasUniqueKeys (gather_quack_scans op m)
  gather-HasUniqueKeys (logical_get get children) m h =
      gather_children-HasUniqueKeys children (add_scan get m) (add_scan-HasUniqueKeys get m h)
  gather-HasUniqueKeys (logical_create_table catalog children) m h =
      gather_children-HasUniqueKeys children (add_insert catalog m)
        (add_insert-HasUniqueKeys catalog m h)
  gather-HasUniqueKeys (logical_insert catalog children) m h =
      gather_children-HasUniqueKeys children (add_insert catalog m)
        (add_insert-HasUniqueKeys catalog m h)
  gather-HasUniqueKeys (other_operator children) m h = gather_children-HasUniqueKeys children m h

  gather_children-HasUniqueKeys :
      (children : Operators) (m : QuackOperators)
      → HasUniqueKeys m
      → HasUniqueKeys (gather_children children m)
  gather_children-HasUniqueKeys no_children m h = h
  gather_children-HasUniqueKeys (child_then child children) m h =
      gather_children-HasUniqueKeys children (gather_quack_scans child m)
        (gather-HasUniqueKeys child m h)

-- An entry that Optimize lets pass.
abbrev IsAllowed : QuackOperatorInfo → Type 0
IsAllowed info = (length info.scans ≡ 0) ⊎ ((length info.scans + info.insert_count) % 2 ^ 64 ≤ 1)

abbrev is_refused : QuackOperatorInfo → Bool
is_refused info = ltb 1 ((length info.scans + info.insert_count) % 2 ^ 64) && any_scan info.scans

refused_iff :
    (gets : List LogicalGet) (n : ℕ)
    → ((ltb 1 n && any_scan gets) ≡ false) ↔ ((length gets ≡ 0) ⊎ (n ≤ 1))
refused_iff [] n = ((λ h. inl refl), λ h. ground arith)
refused_iff (get ∷ gets) n = ground arith

is_refused_iff : (info : QuackOperatorInfo) → (is_refused info ≡ false) ↔ IsAllowed info
is_refused_iff info = refused_iff info.scans ((length info.scans + info.insert_count) % 2 ^ 64)

check_entries_allows :
    (m : QuackOperators) → check_entries m ≡ ok tt → (id : Bytes) → IsAllowed (info_of id m)
unfolding check_entries lookup
check_entries_allows [] = λ passed id. inl refl
check_entries_allows ((k, info) ∷ m) = elim (Bool-cases (is_refused info)) [
  | inl refused ↦ rw refused λ passed. cc
  | inr fine ↦ rw fine λ passed id. elim (Bool-cases (same k id)) [
    | inl here ↦ rw here ((is_refused_iff info).0 fine)
    | inr other ↦ rw other (check_entries_allows m passed id)
  ]
]

check_entries_passes :
    (m : QuackOperators)
    → HasUniqueKeys m
    → ((id : Bytes) → IsAllowed (info_of id m))
    → check_entries m ≡ ok tt
unfolding check_entries lookup
check_entries_passes [] unique allowed = refl
check_entries_passes ((k, info) ∷ m) (absent, unique) allowed =
    rw ((is_refused_iff info).1 own) (check_entries_passes m unique below)
  where
    own : IsAllowed info
    own =
        let found : lookup k ((k, info) ∷ m) ≡ some info = rw (same_refl k) refl in
        subst (λ o. IsAllowed (info_or_new o)) found (allowed k)

    below : (id : Bytes) → IsAllowed (info_of id m)
    below id = elim (Bool-cases (same k id)) [
      | inl here ↦
          subst (λ o. IsAllowed (info_or_new o))
            (sym (subst (λ j. lookup j m ≡ none) ((same_iff k id).0 here) absent)) (inl refl)
      | inr other ↦
          let found : lookup id ((k, info) ∷ m) ≡ lookup id m = rw other refl in
          subst (λ o. IsAllowed (info_or_new o)) found (allowed id)
    ]

-- With fewer than 2^64 scans and inserts of each connection in the plan, Optimize accepts a plan
-- exactly if every connection that it scans has one scan in it and no insert or CREATE TABLE.
pub optimize_iff :
    (plan : LogicalOperator)
    → ((id : Bytes) → scans_on id plan + inserts_on id plan < 2 ^ 64)
    → (optimize plan ≡ ok tt)
      ↔ ((id : Bytes) → (scans_on id plan ≡ 0) ⊎ (scans_on id plan + inserts_on id plan ≤ 1))
unfolding optimize lookup
optimize_iff plan few = (
  (λ passed id. allowed_on id (check_entries_allows (gather_quack_scans plan []) passed id)),
  λ allowed.
      check_entries_passes (gather_quack_scans plan []) (gather-HasUniqueKeys plan [] tt)
        (λ id. counted_on id (allowed id)),
)
  where
    counted :
        (id : Bytes)
        → IsCounted id [] (gather_quack_scans plan []) (scans_on id plan) (inserts_on id plan)
    counted id = gather-IsCounted plan [] (λ k. omega arith) id

    allowed_on :
        (id : Bytes)
        → IsAllowed (info_of id (gather_quack_scans plan []))
        → (scans_on id plan ≡ 0) ⊎ (scans_on id plan + inserts_on id plan ≤ 1)
    allowed_on id (inl none_here) = inl (omega (arith, (counted id).0, none_here))
    allowed_on id (inr one) = inr (omega (arith, counted id, one, few id))

    counted_on :
        (id : Bytes)
        → (scans_on id plan ≡ 0) ⊎ (scans_on id plan + inserts_on id plan ≤ 1)
        → IsAllowed (info_of id (gather_quack_scans plan []))
    counted_on id (inl none_here) = inl (omega (arith, (counted id).0, none_here))
    counted_on id (inr one) = inr (omega (arith, counted id, one, few id))
