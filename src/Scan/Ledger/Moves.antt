-- ===== src/Scan/Ledger/Moves.antt =====
-- Every move of the ledger keeps the batches in order.
use duckdb_quack.Prelude.{
  ne→==false, ==false→ne, ℕ, suc, ◌≤◌, ◌<◌, Bool, true, false, List, [], ◌∷◌, ◌++◌, ◌≡◌, ◌≢◌, subst,
  refl, sym, ap, ◌∙◌, ◌⊎◌, inl, inr, Bool-cases, arith, append_assoc, append-nil, ◌==◌, ==_refl,
  ==_iff, if◌then◌else◌,
}
use duckdb_quack.Scan.Ledger.{
  Ledger, Move, stay, give, load, IsOrdered, pending, batch, update, of_batch, of_batch-append,
  gather, gather_ext,
}

below_ne : {n : ℕ} (a b : ℕ) → a < n → n ≤ b → a ≢ b
below_ne a b h k e = omega arith

module _ {O : Type 0} where
  if_same : (b : Bool) → ◌≡◌ {A = List O} (if b then [] else []) []
  if_same true = refl
  if_same false = refl

  of_batch-log :
      (j i : ℕ) (log : List (ℕ × O)) (o : O)
      → of_batch j (log ++ (i, o) ∷ [])
        ≡ (if i == j then of_batch j log ++ o ∷ [] else of_batch j log)
  of_batch-log j i log o = of_batch-append j log ((i, o) ∷ []) ∙ rest
    where
      rest :
          of_batch j log ++ of_batch j ((i, o) ∷ [])
          ≡ (if i == j then of_batch j log ++ o ∷ [] else of_batch j log)
      rest = elim (Bool-cases (i == j)) [
        | inl same ↦ rw same refl
        | inr other ↦ rw other (append-nil (of_batch j log))
      ]

  module _ (whole : List O) (l : Ledger O) (ord : IsOrdered whole l) where
    module _ (i : ℕ) (o : O) (os : List O) (held : l.buffer i ≡ o ∷ os) where
      abbrev given : Ledger O
      given = record l { buffer = update l.buffer i os; log = l.log ++ (l.index i, o) ∷ [] }

      owner_here : ord.owner (l.index i) ≡ i
      owner_here = elim (ord.owned i) [
        | inl empty ↦ absurd (cons-ne (sym held ∙ empty))
        | inr e ↦ e
      ]
        where
          cons-ne : ¬ (o ∷ os ≡ [])
          cons-ne h = cc

      given-pending : pending given ord.owner (l.index i) ≡ os
      given-pending = rw (owner_here, ==_refl (l.index i), ==_refl i) refl

      held_pending : pending l ord.owner (l.index i) ≡ o ∷ os
      held_pending = rw (owner_here, ==_refl (l.index i)) held

      given_here : batch given ord.owner (l.index i) ≡ batch l ord.owner (l.index i)
      given_here =
          rw
            (
              of_batch-log (l.index i) (l.index i) l.log o,
              ==_refl (l.index i),
              given-pending,
              held_pending,
            )
            (append_assoc (of_batch (l.index i) l.log) (o ∷ []) os)

      given_other : (j : ℕ) → l.index i ≢ j → pending given ord.owner j ≡ pending l ord.owner j
      given_other j other = elim (Bool-cases (ord.owner j == i)) [
        | inl mine ↦ rw ((==_iff (ord.owner j) i).0 mine, ne→==false (l.index i) j other) refl
        | inr not_mine ↦ rw not_mine refl
      ]

      given-batch : (j : ℕ) → batch given ord.owner j ≡ batch l ord.owner j
      given-batch j = elim (Bool-cases (l.index i == j)) [
        | inl same ↦
            subst (λ m. batch given ord.owner m ≡ batch l ord.owner m)
              ((==_iff (l.index i) j).0 same) given_here
        | inr other ↦
            rw
              (
                of_batch-log j (l.index i) l.log o,
                other,
                given_other j (==false→ne (l.index i) j other),
              )
              refl
      ]

      given_owned : (m : ℕ) → (given.buffer m ≡ []) ⊎ (ord.owner (l.index m) ≡ m)
      given_owned m = elim (Bool-cases (m == i)) [
        | inl mine ↦
            inr (subst (λ t. ord.owner (l.index t) ≡ t) (sym ((==_iff m i).0 mine)) owner_here)
        | inr other ↦ rw other (ord.owned m)
      ]

      given-IsOrdered : IsOrdered whole given
      given-IsOrdered = record {
        owner = ord.owner;
        made_up =
            ap (λ os. os ++ l.rest)
              (gather_ext l.next (batch given ord.owner) (batch l ord.owner) (λ j h. given-batch j))
            ∙ ord.made_up;
        below = ord.below;
        owned = given_owned;
        fresh = λ j h.
            of_batch-log j (l.index i) l.log o
            ∙ (rw (ne→==false (l.index i) j (below_ne (l.index i) j (ord.below i) h))
                (ord.fresh j h));
      }

    module _ (i : ℕ) (o : O) (front back : List O) (empty : l.buffer i ≡ [])
        (new : l.rest ≡ o ∷ (front ++ back)) where
      abbrev loaded : Ledger O
      loaded = record {
        index = update l.index i l.next;
        buffer = update l.buffer i front;
        log = l.log ++ (l.next, o) ∷ [];
        next = suc l.next;
        rest = back;
      }

      abbrev owner1 : ℕ → ℕ
      owner1 = update ord.owner l.next i

      loaded-pending : (j : ℕ) → j < l.next → pending loaded owner1 j ≡ pending l ord.owner j
      loaded-pending j old = elim (Bool-cases (ord.owner j == i)) [
        | inl mine ↦
            let mine' = (==_iff (ord.owner j) i).0 mine in
            rw
              (
                ne→==false j l.next (λ e. omega (arith, old, e)),
                mine',
                ==_refl i,
                ne→==false l.next j (λ e. omega (arith, old, e)),
                empty,
              )
              (sym (if_same (l.index i == j)))
        | inr other ↦ rw (ne→==false j l.next (λ e. omega (arith, old, e)), other) refl
      ]

      loaded-batch : (j : ℕ) → j < l.next → batch loaded owner1 j ≡ batch l ord.owner j
      loaded-batch j old =
          rw
            (
              of_batch-log j l.next l.log o,
              ne→==false l.next j (λ e. omega (arith, old, e)),
              loaded-pending j old,
            )
            refl

      loaded_new : batch loaded owner1 l.next ≡ o ∷ front
      loaded_new =
          rw
            (
              of_batch-log l.next l.next l.log o,
              ==_refl l.next,
              ==_refl i,
              ord.fresh l.next (omega arith),
            )
            (rw (==_refl l.next) refl)

      loaded_owned : (m : ℕ) → (loaded.buffer m ≡ []) ⊎ (owner1 (loaded.index m) ≡ m)
      loaded_owned m = elim (Bool-cases (m == i)) [
        | inl mine ↦ inr (
            subst (λ t. owner1 (loaded.index t) ≡ t) (sym ((==_iff m i).0 mine))
              (rw (==_refl i, ==_refl l.next) refl))
        | inr other ↦
            rw (other, ne→==false (l.index m) l.next (λ e. omega (arith, ord.below m, e)))
              (ord.owned m)
      ]

      loaded_below : (m : ℕ) → loaded.index m < suc l.next
      loaded_below m = elim (Bool-cases (m == i)) [
        | inl mine ↦ rw mine (omega arith)
        | inr other ↦ rw other (omega (arith, ord.below m))
      ]

      loaded-IsOrdered : IsOrdered whole loaded
      loaded-IsOrdered = record {
        owner = owner1;
        made_up =
            rw
              (gather_ext l.next (batch loaded owner1) (batch l ord.owner) loaded-batch, loaded_new)
              (append_assoc (gather l.next (batch l ord.owner)) (o ∷ front) back
                ∙ (ap (λ os. gather l.next (batch l ord.owner) ++ os) (sym new) ∙ ord.made_up));
        below = loaded_below;
        owned = loaded_owned;
        fresh = λ j h.
            of_batch-log j l.next l.log o
            ∙ (rw (ne→==false l.next j (λ e. omega (arith, h, e)))
                (ord.fresh j (omega (arith, h))));
      }

  pub Move-IsOrdered :
      (whole : List O) (l l1 : Ledger O) → Move l l1 → IsOrdered whole l → IsOrdered whole l1
  Move-IsOrdered whole l _ stay ord = ord
  Move-IsOrdered whole l _ (give i o os held) ord = given-IsOrdered whole l ord i o os held
  Move-IsOrdered whole l _ (load i o front back empty new) ord =
      loaded-IsOrdered whole l ord i o front back empty new

  -- When nothing is buffered or left, the log by batch is the whole.
  pub IsOrdered-whole :
      (whole : List O) (l : Ledger O)
      → IsOrdered whole l
      → ((i : ℕ) → l.buffer i ≡ [])
      → l.rest ≡ []
      → gather l.next (λ j. of_batch j l.log) ≡ whole
  IsOrdered-whole whole l ord empty last =
      gather_ext l.next (λ j. of_batch j l.log) (batch l ord.owner) (λ j h. sym (no_pending j))
      ∙ (sym (append-nil _)
          ∙ (ap (λ os. gather l.next (batch l ord.owner) ++ os) (sym last) ∙ ord.made_up))
    where
      no_pending : (j : ℕ) → batch l ord.owner j ≡ of_batch j l.log
      no_pending j =
          rw (empty (ord.owner j), if_same (l.index (ord.owner j) == j))
            (append-nil (of_batch j l.log))
