-- ===== src/Optimizer/Counts.antt =====
-- The optimizer against a count of the scans and inserts of each connection in the plan.
use duckdb_quack.Prelude.{
  ℕ, ◌+◌, ◌%◌, ◌^◌, ◌<◌, Bool, true, false, ◌&&◌, [], ◌∷◌, ◌++◌, Bytes, codes, ◌≡◌, inl, inr, refl,
  ap, ◌∙◌, subst, arith, Bool-cases, same, same_iff, insert, lookup-insert, length, length-append,
  if◌then◌else◌,
}
use duckdb_quack.Optimizer.{
  LogicalGet, TargetCatalog, LogicalOperator, logical_get, logical_create_table, logical_insert,
  other_operator, Operators, no_children, child_then, QuackOperatorInfo, QuackOperators,
  info_or_new, info_of, is_quack_scan, add_scan, add_insert, gather_quack_scans, gather_children,
}

abbrev one_if : Bool → ℕ
one_if true = 1
one_if false = 0

abbrev is_scan_on : Bytes → LogicalGet → ℕ
is_scan_on id get = one_if (is_quack_scan get.function_name && same get.connection_id id)

abbrev is_insert_on : Bytes → TargetCatalog → ℕ
is_insert_on id catalog =
    one_if (same catalog.catalog_type (codes "quack") && same catalog.connection_id id)

-- The Quack scans of a plan on one connection, and the inserts and CREATE TABLEs.
unfoldable mutual
  pub scans_on : Bytes → LogicalOperator → ℕ
  scans_on id (logical_get get children) = is_scan_on id get + scans_below id children
  scans_on id (logical_create_table catalog children) = scans_below id children
  scans_on id (logical_insert catalog children) = scans_below id children
  scans_on id (other_operator children) = scans_below id children

  pub scans_below : Bytes → Operators → ℕ
  scans_below id no_children = 0
  scans_below id (child_then child children) = scans_on id child + scans_below id children

unfoldable mutual
  pub inserts_on : Bytes → LogicalOperator → ℕ
  inserts_on id (logical_get get children) = inserts_below id children
  inserts_on id (logical_create_table catalog children) =
      is_insert_on id catalog + inserts_below id children
  inserts_on id (logical_insert catalog children) =
      is_insert_on id catalog + inserts_below id children
  inserts_on id (other_operator children) = inserts_below id children

  pub inserts_below : Bytes → Operators → ℕ
  inserts_below id no_children = 0
  inserts_below id (child_then child children) = inserts_on id child + inserts_below id children

-- So many scans and inserts have been added.
abbrev pub IsAdded : QuackOperatorInfo → QuackOperatorInfo → ℕ → ℕ → Type 0
IsAdded before after scans inserts =
    (length after.scans ≡ length before.scans + scans)
    × (after.insert_count ≡ (before.insert_count + inserts) % 2 ^ 64)

abbrev pub IsCounted : Bytes → QuackOperators → QuackOperators → ℕ → ℕ → Type 0
IsCounted id m m1 scans inserts = IsAdded (info_of id m) (info_of id m1) scans inserts

info_of-insert :
    (id k : Bytes) (info : QuackOperatorInfo) (m : QuackOperators)
    → info_of id (insert k info m) ≡ (if same k id then info else info_of id m)
info_of-insert id k info m = elim (Bool-cases (same k id)) [
  | inl here ↦ ap info_or_new (lookup-insert k id info m) ∙ (rw here refl)
  | inr other ↦ ap info_or_new (lookup-insert k id info m) ∙ (rw other refl)
]

same_info : (info : QuackOperatorInfo) → info.insert_count < 2 ^ 64 → IsAdded info info 0 0
same_info info small = (omega arith, omega (arith, small))

-- An entry that is written counts for its own connection only.
insert-IsCounted :
    (id k : Bytes) (info : QuackOperatorInfo) (m : QuackOperators) (scans inserts : ℕ)
    → (info_of id m).insert_count < 2 ^ 64
    → IsAdded (info_of k m) info scans inserts
    → IsCounted id m
        (insert k info m)
        (if same k id then scans else 0)
        (if same k id then inserts else 0)
insert-IsCounted id k info m scans inserts small added = elim (Bool-cases (same k id)) [
  | inl here ↦
      rw (info_of-insert id k info m, here)
        (subst (λ j. IsAdded (info_of j m) info scans inserts) ((same_iff k id).0 here) added)
  | inr other ↦ rw (info_of-insert id k info m, other) (same_info (info_of id m) small)
]

scan_if :
    (b : Bool) (i j : QuackOperatorInfo)
    → IsAdded i j (if b then 1 else 0) (if b then 0 else 0)
    → IsAdded i j (one_if b) 0
scan_if true i j h = h
scan_if false i j h = h

insert_if :
    (b : Bool) (i j : QuackOperatorInfo)
    → IsAdded i j (if b then 0 else 0) (if b then 1 else 0)
    → IsAdded i j 0 (one_if b)
insert_if true i j h = h
insert_if false i j h = h

abbrev pub IsSmall : QuackOperators → Type 0
IsSmall m = (k : Bytes) → (info_of k m).insert_count < 2 ^ 64

add_scan-IsCounted :
    (id : Bytes) (get : LogicalGet) (m : QuackOperators)
    → IsSmall m
    → IsCounted id m (add_scan get m) (is_scan_on id get) 0
unfolding add_scan
add_scan-IsCounted id get m small = elim (Bool-cases (is_quack_scan get.function_name)) [
  | inr no_scan ↦ rw (no_scan, add_scan) (same_info (info_of id m) (small id))
  | inl scan ↦
      let old = info_of get.connection_id m in
      let added =
        insert-IsCounted id get.connection_id (record old { scans = old.scans ++ get ∷ [] }) m 1 0
          (small id) (length-append old.scans (get ∷ []), omega (arith, small get.connection_id)) in
      rw (scan, add_scan) (scan_if (same get.connection_id id) _ _ added)
]

add_insert-IsCounted :
    (id : Bytes) (catalog : TargetCatalog) (m : QuackOperators)
    → IsSmall m
    → IsCounted id m (add_insert catalog m) 0 (is_insert_on id catalog)
unfolding add_insert
add_insert-IsCounted id catalog m small =
    elim (Bool-cases (same catalog.catalog_type (codes "quack"))) [
      | inr other ↦ rw (other, add_insert) (same_info (info_of id m) (small id))
      | inl quack ↦
          let old = info_of catalog.connection_id m in
          let added =
            insert-IsCounted id catalog.connection_id
              (record old { insert_count = (old.insert_count + 1) % 2 ^ 64 }) m 0 1 (small id)
              (omega arith, refl) in
          rw (quack, add_insert) (insert_if (same catalog.connection_id id) _ _ added)
    ]

-- What has been counted is below the bound.
IsCounted-IsSmall :
    (m m1 : QuackOperators) (scans inserts : Bytes → ℕ)
    → ((id : Bytes) → IsCounted id m m1 (scans id) (inserts id))
    → IsSmall m1
IsCounted-IsSmall m m1 scans inserts h k = omega (arith, (h k).1)

IsAdded-trans :
    (i0 i1 i2 : QuackOperatorInfo) (a b c d : ℕ)
    → IsAdded i0 i1 a b
    → IsAdded i1 i2 c d
    → (s t : ℕ) → a + c ≡ s
    → b + d ≡ t
    → IsAdded i0 i2 s t
IsAdded-trans i0 i1 i2 a b c d (h0, h1) (k0, k1) s t e1 e2 =
    (omega (arith, h0, k0, e1), omega (arith, h1, k1, e2))

mutual
  unfolding gather_quack_scans scans_on inserts_on

  pub gather-IsCounted :
      (op : LogicalOperator) (m : QuackOperators)
      → IsSmall m
      → (id : Bytes) → IsCounted id m (gather_quack_scans op m) (scans_on id op) (inserts_on id op)
  gather-IsCounted (logical_get get children) m small id =
      let first = λ (k : Bytes). add_scan-IsCounted k get m small in
      IsAdded-trans _ _ _ (is_scan_on id get) 0 (scans_below id children)
        (inserts_below id children) (first id)
        (gather_children-IsCounted children (add_scan get m)
          (IsCounted-IsSmall m (add_scan get m) (λ k. is_scan_on k get) (λ k. 0) first) id)
        _ _ (omega arith) (omega arith)
  gather-IsCounted (logical_create_table catalog children) m small id =
      let first = λ (k : Bytes). add_insert-IsCounted k catalog m small in
      IsAdded-trans _ _ _ 0 (is_insert_on id catalog) (scans_below id children)
        (inserts_below id children) (first id)
        (gather_children-IsCounted children (add_insert catalog m)
          (IsCounted-IsSmall m (add_insert catalog m) (λ k. 0) (λ k. is_insert_on k catalog) first)
          id)
        _ _ (omega arith) (omega arith)
  gather-IsCounted (logical_insert catalog children) m small id =
      let first = λ (k : Bytes). add_insert-IsCounted k catalog m small in
      IsAdded-trans _ _ _ 0 (is_insert_on id catalog) (scans_below id children)
        (inserts_below id children) (first id)
        (gather_children-IsCounted children (add_insert catalog m)
          (IsCounted-IsSmall m (add_insert catalog m) (λ k. 0) (λ k. is_insert_on k catalog) first)
          id)
        _ _ (omega arith) (omega arith)
  gather-IsCounted (other_operator children) m small id =
      gather_children-IsCounted children m small id

  gather_children-IsCounted :
      (children : Operators) (m : QuackOperators)
      → IsSmall m
      → (id : Bytes)
      → IsCounted id m
          (gather_children children m)
          (scans_below id children)
          (inserts_below id children)
  gather_children-IsCounted no_children m small id = same_info (info_of id m) (small id)
  gather_children-IsCounted (child_then child children) m small id =
      let first = gather-IsCounted child m small in
      IsAdded-trans _ _ _ (scans_on id child) (inserts_on id child) (scans_below id children)
        (inserts_below id children) (first id)
        (gather_children-IsCounted children (gather_quack_scans child m)
          (IsCounted-IsSmall m (gather_quack_scans child m) (λ k. scans_on k child)
            (λ k. inserts_on k child) first)
          id)
        _ _ refl refl
